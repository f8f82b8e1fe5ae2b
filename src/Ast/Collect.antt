-- ===== src/Ast/Collect.antt =====
-- The labels of a tree, among which inference chooses (collect_labels_helper in
-- transactions/mtl/collect_proper_label.hpp). `combine` of mutils::typeset is a parameter.
use mix_t.Base.{◌⊎◌, ◌↔◌, List, [], ◌∷◌, Elem}
use mix_t.Labels.Order.{LabelOrder}
use mix_t.Labels.Term.{Label, concrete, temp_label, label_min_of}
use mix_t.Ast.{
  Expression, var_reference, field_reference, constant, bin_op, generate_tombstone, is_valid,
  endorse, operation, Args, no_args, arg, Binding, binding, Statement, let_in, let_remote,
  assignment, return, write_tombstone, accompany_write, if_else, while, operation_statement,
  sequence, Sequence, done, next,
}

-- A typeset and its combine, which drops duplicates.
pub record LabelSets (C : Type 0) : Type 0 where
  pub combine : List (Label C) → List (Label C) → List (Label C)
  pub combine-Elem :
      (l : Label C) (xs ys : List (Label C)) → Elem l (combine xs ys) ↔ (Elem l xs ⊎ Elem l ys)

module _ {C : Type 0} (m : LabelSets C) where
  -- combine with several arguments.
  abbrev pub combine_all : List (Label C) → List (List (Label C)) → List (Label C)
  combine_all x [] = x
  combine_all x (y ∷ ys) = combine_all (m.combine x y) ys

  -- The sets of a node's children.
  abbrev pub combine_children : List (List (Label C)) → List (Label C)
  combine_children [] = []
  combine_children (x ∷ xs) = combine_all x xs

  -- The set of a `dummy_varref`.
  abbrev pub collect_label : Label C → List (Label C)
  collect_label (concrete c) = concrete c ∷ []
  collect_label (temp_label s d) = []
  collect_label (label_min_of l r) = m.combine (m.combine (collect_label l) (collect_label r)) []

  -- The overloads for a node with a minimum, a temporary label, or another label.
  abbrev pub collect_node : Label C → List (List (Label C)) → List (Label C)
  collect_node (concrete c) xs = combine_all (concrete c ∷ []) xs
  collect_node (temp_label s d) xs = combine_children xs
  collect_node (label_min_of l r) xs =
      m.combine (m.combine (collect_label l) (collect_label r)) (combine_children xs)

module _ {C : Type 0} ⦃o : LabelOrder C⦄ (m : LabelSets C) where
  unfoldable mutual
    pub collect_labels_expression : Expression C → List (Label C)
    collect_labels_expression (var_reference l y v) = collect_node m l []
    collect_labels_expression (field_reference l y s f) =
        collect_node m l (collect_labels_expression s ∷ [])
    collect_labels_expression (constant i) = concrete o.top ∷ []
    collect_labels_expression (bin_op l y op L R) =
        collect_node m l (collect_labels_expression L ∷ collect_labels_expression R ∷ [])
    collect_labels_expression (generate_tombstone l) = collect_node m l []
    collect_labels_expression (is_valid l h) = collect_node m l (collect_labels_expression h ∷ [])
    collect_labels_expression (endorse l y h) =
        combine_all m (l ∷ []) (collect_labels_expression h ∷ [])
    collect_labels_expression (operation l y n h args) =
        collect_node m l (collect_labels_expression h ∷ collect_labels_args args)

    pub collect_labels_args : Args C → List (List (Label C))
    collect_labels_args no_args = []
    collect_labels_args (arg e es) = collect_labels_expression e ∷ collect_labels_args es

  unfoldable pub collect_labels_binding : Binding C → List (Label C)
  collect_labels_binding (binding l y v e) = collect_node m l (collect_labels_expression e ∷ [])

  unfoldable mutual
    pub collect_labels : Statement C → List (Label C)
    collect_labels (let_in l b s) =
        collect_node m l (collect_labels_binding b ∷ collect_labels s ∷ [])
    collect_labels (let_remote l b s) =
        collect_node m l (collect_labels_binding b ∷ collect_labels s ∷ [])
    collect_labels (assignment l v e) =
        collect_node m l (collect_labels_expression v ∷ collect_labels_expression e ∷ [])
    collect_labels (return e) =
        combine_all m (concrete o.bottom ∷ []) (collect_labels_expression e ∷ [])
    collect_labels (write_tombstone l e) = combine_all m (l ∷ []) (collect_labels_expression e ∷ [])
    collect_labels (accompany_write l e) = combine_all m (l ∷ []) (collect_labels_expression e ∷ [])
    collect_labels (if_else l c t e) =
        collect_node m l (collect_labels_expression c ∷ collect_labels t ∷ collect_labels e ∷ [])
    collect_labels (while l c s) =
        collect_node m l (collect_labels_expression c ∷ collect_labels s ∷ [])
    collect_labels (operation_statement l n h args) =
        collect_node m l (collect_labels_expression h ∷ collect_labels_args args)
    collect_labels (sequence l ss) = collect_node m l (collect_labels_sequence ss)

    pub collect_labels_sequence : Sequence C → List (List (Label C))
    collect_labels_sequence done = []
    collect_labels_sequence (next s ss) = collect_labels s ∷ collect_labels_sequence ss
