-- ===== src/Split/Computation.antt =====
-- The split of a transaction into a phase for each label (split_computation of
-- transactions/mtl/split_phase.hpp, transactions/mtl/without_names.hpp). The sort of the labels is
-- mutils::typeset's, a parameter.
use mix_t.Base.{Bool, true, ◌&&◌, Option, none, some, List, [], ◌∷◌, ◌++◌, if◌then◌else◌, ◌>>=◌}
use mix_t.Labels.Order.{LabelOrder, max_of}
use mix_t.Labels.Term.{Label, concrete, temp_label, label_min_of}
use mix_t.Ast.{Yield, Statement}
use mix_t.Ast.Collect.{LabelSets, collect_labels}
use mix_t.Split.NamedTree.{NamedStatement}
use mix_t.Split.Named.{easy_processing_pass}
use mix_t.Split.Tree.{SplitStatement}
use mix_t.Split.Api.{VariableBinding, BindingLists, phase_api, extracted_phase}
use mix_t.Split.CollectPhase.{Extracted, collect_phase}
use mix_t.Split.TypeSets.{BindingName, name_of, TypeSets}
use mix_t.Split.RemoveUnused.{remove_unused_phase}
use mix_t.Split.RemoveEmpties.{clear_empty_statements}

-- runnable_transaction::prephase, with the bindings in place of the holders that they name.
pub record Prephase (C : Type 0) : Type 0 where
  pub level : C
  pub returns : Option (Yield C)
  pub ast : SplitStatement C
  pub provides : List (VariableBinding C)
  pub inherits : List (VariableBinding C)
  pub requirements : List (VariableBinding C)

module _ {C : Type 0} (sets : TypeSets C) where
  unfoldable pub without_names2 :
      List (VariableBinding C)
      → List BindingName
      → List (VariableBinding C)
      → List (VariableBinding C)
  without_names2 accum remove [] = accum
  without_names2 accum remove (name1 ∷ names) =
      let left_out = without_names2 accum remove names in
      let added = without_names2 (sets.add accum name1) remove names in
      if sets.contains (name_of name1) remove then left_out else added

  unfoldable pub without_names :
      List BindingName → List (VariableBinding C) → List (VariableBinding C)
  without_names remove vars = without_names2 [] remove vars

  abbrev pub transaction_prephase : C → Extracted C → Prephase C
  transaction_prephase label a = record {
    level = label;
    returns = a.returns;
    ast = a.ast;
    provides = sets.to_typeset a.api.provides;
    inherits = sets.to_typeset a.api.inherits;
    requirements = sets.to_typeset a.api.requires;
  }

  -- The phase once its empty statements are cleared, without the requirements that only they had.
  unfoldable pub edited_phase : Extracted C → Extracted C
  edited_phase curr_phase =
      let empty_cleared = clear_empty_statements sets curr_phase.ast in
      let no_longer_require =
        sets.subtract empty_cleared.remove_from_require empty_cleared.still_require in
      extracted_phase
        (phase_api (without_names no_longer_require (sets.to_typeset curr_phase.api.requires))
          curr_phase.api.provides curr_phase.api.inherits)
        curr_phase.returns empty_cleared.ast

  unfoldable pub final_phase : Extracted C → Extracted C
  final_phase curr_phase = remove_unused_phase sets (edited_phase curr_phase)

module _ {C : Type 0} ⦃o : LabelOrder C⦄ where
  unfoldable pub labels_in_descending_order : List C → Option Bool
  labels_in_descending_order [] = some true
  labels_in_descending_order (lbl1 ∷ l) = do
    greatest ← max_of lbl1 l
    rest ← labels_in_descending_order l
    some (o.is_same lbl1 greatest && rest)

  -- The labels that phases run at.
  abbrev pub concrete_labels : List (Label C) → Option (List C)
  concrete_labels [] = some []
  concrete_labels (concrete c ∷ ls) = concrete_labels ls >>= λ cs. some (c ∷ cs)
  concrete_labels (temp_label s d ∷ ls) = none
  concrete_labels (label_min_of a b ∷ ls) = none

module _ {C : Type 0} ⦃o : LabelOrder C⦄ (m : BindingLists C) (sets : TypeSets C) where
  -- The static_assert on the labels after the current one.
  abbrev pub asserted : Bool → List (Prephase C) → Option (List (Prephase C))
  asserted b phases = if b then some phases else none

  -- _split_computation: the phases for a list of labels, after those that provide oldinherit.
  unfoldable pub split_at_labels :
      NamedStatement C → List (VariableBinding C) → List C → Option (List (Prephase C))
  split_at_labels a oldinherit [] = some []
  split_at_labels a oldinherit (curr_label ∷ labels) = do
    descending ← labels_in_descending_order labels
    collected ← collect_phase m curr_label (phase_api [] [] oldinherit) a
    let curr_phase = remove_unused_phase sets collected
    rest ← split_at_labels a (curr_phase.api.inherits ++ curr_phase.api.provides) labels
    asserted descending (transaction_prephase sets curr_label (final_phase sets curr_phase) ∷ rest)

  unfoldable pub split_computation :
      LabelSets C
      → (List (Label C) → List (Label C))
      → Statement C
      → List (VariableBinding C)
      → Option (List (Prephase C))
  split_computation label_sets sorted_descending s bindings = do
    a ← easy_processing_pass s
    labels ← concrete_labels (sorted_descending (collect_labels label_sets s))
    split_at_labels a bindings labels
