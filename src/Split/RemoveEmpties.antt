-- ===== src/Split/RemoveEmpties.antt =====
-- An if with two empty branches is removed, and its condition's variables with it
-- (transactions/mtl/remove_empties.hpp).
use mix_t.Base.{Bool, true, false, ◌&&◌, List, [], ◌∷◌}
use mix_t.Split.Tree.{
  SplitExpression, var_reference, field_reference, constant, bin_op, generate_tombstone, is_valid,
  operation, SplitArgs, no_args, arg, SplitBinding, binding, SplitStatement, let_in, let_remote,
  assignment, return, write_tombstone, accompany_write, increment_occurance,
  increment_remote_occurance, refresh_remote_occurance, if_else, while, for_each,
  operation_statement, sequence, SplitSequence, done, next,
}
use mix_t.Split.Collapse.{is_empty_sequence, collapse}
use mix_t.Split.TypeSets.{BindingName, variable, TypeSets}

-- The struct `ret`: the tree, the names that need not be required any more, and those still needed.
pub record Cleared (A : Type 0) : Type 0 where
  pub ast : A
  pub remove_from_require : List BindingName
  pub still_require : List BindingName

abbrev pub cleared : {A : Type 0} → A → List BindingName → List BindingName → Cleared A
cleared ast remove still = record { ast = ast; remove_from_require = remove; still_require = still }

-- The sets of a node's arguments.
pub record ClearedArgs (C : Type 0) : Type 0 where
  pub args : SplitArgs C
  pub removed : List (List BindingName)
  pub still : List (List BindingName)

abbrev cleared_args :
    {C : Type 0} → SplitArgs C → List (List BindingName) → List (List BindingName) → ClearedArgs C
cleared_args args removed still = record { args = args; removed = removed; still = still }

-- The statements of a sequence with their sets.
pub record ClearedSequence (C : Type 0) : Type 0 where
  pub asts : SplitSequence C
  pub removed : List (List BindingName)
  pub still : List (List BindingName)

abbrev cleared_sequence :
    {C : Type 0}
    → SplitSequence C
    → List (List BindingName)
    → List (List BindingName)
    → ClearedSequence C
cleared_sequence asts removed still = record { asts = asts; removed = removed; still = still }

module _ {C : Type 0} (sets : TypeSets C) where
  -- combine with several arguments.
  abbrev pub combine_more : List BindingName → List (List BindingName) → List BindingName
  combine_more x [] = x
  combine_more x (y ∷ ys) = combine_more (sets.combine x y) ys

  -- A node around one part, and around two.
  abbrev pub around : {A B : Type 0} → (A → B) → Cleared A → Cleared B
  around f a = cleared (f a.ast) a.remove_from_require a.still_require

  abbrev pub around_both : {A B D : Type 0} → (A → B → D) → Cleared A → Cleared B → Cleared D
  around_both f a b =
      cleared (f a.ast b.ast) (sets.combine a.remove_from_require b.remove_from_require)
        (sets.combine a.still_require b.still_require)

  unfoldable mutual
    pub clear_expression : SplitExpression C → Cleared (SplitExpression C)
    clear_expression (field_reference y s f) =
        around (λ e. field_reference y e f) (clear_expression s)
    clear_expression (var_reference y v) = cleared (var_reference y v) [] (variable v ∷ [])
    clear_expression (constant i) = cleared (constant i) [] []
    clear_expression generate_tombstone = cleared generate_tombstone [] []
    clear_expression (bin_op y op L R) =
        around_both (bin_op y op) (clear_expression L) (clear_expression R)
    clear_expression (is_valid h) = around is_valid (clear_expression h)
    clear_expression (operation y n h args) =
        let newh = clear_expression h in
        let newa = clear_args args in
        cleared (operation y n newh.ast newa.args)
          (combine_more newh.remove_from_require newa.removed)
          (combine_more newh.still_require newa.still)

    pub clear_args : SplitArgs C → ClearedArgs C
    clear_args no_args = cleared_args no_args [] []
    clear_args (arg e es) =
        let first = clear_expression e in
        let rest = clear_args es in
        cleared_args (arg first.ast rest.args) (first.remove_from_require ∷ rest.removed)
          (first.still_require ∷ rest.still)

  unfoldable pub clear_binding : SplitBinding C → Cleared (SplitBinding C)
  clear_binding (binding l y v e) = around (binding l y v) (clear_expression e)

  -- The If by `empty_if`.
  abbrev pub clear_if :
      Bool
      → Cleared (SplitExpression C)
      → Cleared (SplitStatement C)
      → Cleared (SplitStatement C)
      → Cleared (SplitStatement C)
  clear_if true c t e = cleared (sequence done) c.still_require []
  clear_if false c t e =
      cleared (if_else c.ast t.ast e.ast)
        (sets.combine (sets.combine c.remove_from_require t.remove_from_require)
          e.remove_from_require)
        (sets.combine (sets.combine c.still_require t.still_require) e.still_require)

  unfoldable mutual
    pub clear_empty_statements : SplitStatement C → Cleared (SplitStatement C)
    clear_empty_statements (let_in b s) =
        around_both let_in (clear_binding b) (clear_empty_statements s)
    clear_empty_statements (let_remote b s) =
        around_both let_remote (clear_binding b) (clear_empty_statements s)
    clear_empty_statements (assignment v e) =
        around_both assignment (clear_expression v) (clear_expression e)
    clear_empty_statements (return e) = around return (clear_expression e)
    clear_empty_statements (accompany_write e) = around accompany_write (clear_expression e)
    clear_empty_statements (write_tombstone e) = around write_tombstone (clear_expression e)
    clear_empty_statements (increment_occurance v) = cleared (increment_occurance v) [] []
    clear_empty_statements (increment_remote_occurance v) =
        cleared (increment_remote_occurance v) [] (variable v ∷ [])
    clear_empty_statements (refresh_remote_occurance k t v) =
        cleared (refresh_remote_occurance k t v) [] (variable v ∷ [])
    clear_empty_statements (operation_statement n h args) =
        let newh = clear_expression h in
        let newa = clear_args args in
        cleared (operation_statement n newh.ast newa.args)
          (combine_more newh.remove_from_require newa.removed)
          (combine_more newh.still_require newa.still)
    clear_empty_statements (if_else c t e) =
        let newt = clear_empty_statements t in
        let newe = clear_empty_statements e in
        clear_if (is_empty_sequence newt.ast && is_empty_sequence newe.ast) (clear_expression c)
          newt newe
    clear_empty_statements (while c s n) =
        around_both (λ c' s'. while c' s' n) (clear_expression c) (clear_empty_statements s)
    clear_empty_statements (for_each s n) = around (λ s'. for_each s' n) (clear_empty_statements s)
    clear_empty_statements (sequence ss) =
        let all = clear_each ss in
        cleared (collapse all.asts) (sets.combine_lists all.removed) (sets.combine_lists all.still)

    pub clear_each : SplitSequence C → ClearedSequence C
    clear_each done = cleared_sequence done [] []
    clear_each (next s ss) =
        let first = clear_empty_statements s in
        let rest = clear_each ss in
        cleared_sequence (next first.ast rest.asts) (first.remove_from_require ∷ rest.removed)
          (first.still_require ∷ rest.still)
