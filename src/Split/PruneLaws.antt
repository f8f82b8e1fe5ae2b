-- ===== src/Split/PruneLaws.antt =====
-- Laws of the passes that prune the tree of a phase (transactions/mtl/remove_unused.hpp,
-- transactions/mtl/remove_empties.hpp).
use mix_t.Base.{
  String, true, ◌&&◌, ◌≡◌, refl, sym, ap, ap₂, ◌∙◌, List, [], ◌∷◌, ◌++◌, inl, inr, Bool-cases,
}
use mix_t.Split.Tree.{
  SplitExpression, var_reference, field_reference, constant, bin_op, generate_tombstone, is_valid,
  operation, SplitArgs, no_args, arg, SplitBinding, binding, SplitStatement, let_in, let_remote,
  assignment, return, write_tombstone, accompany_write, increment_occurance,
  increment_remote_occurance, refresh_remote_occurance, if_else, while, for_each,
  operation_statement, sequence, SplitSequence, done, next,
}
use mix_t.Split.Api.{VariableBinding}
use mix_t.Split.Collapse.{is_empty_sequence}
use mix_t.Split.CollapseLaws.{flat-empty}
use mix_t.Split.TypeSets.{TypeSets}
use mix_t.Split.RemoveUnused.{
  contains_var_of_name, kept_if_required, remove_unused, remove_unused_each,
}
use mix_t.Split.RemoveEmpties.{
  Cleared, clear_expression, clear_args, clear_binding, clear_if, clear_empty_statements,
  clear_each,
}
use mix_t.Split.Effects.{
  Guard, effect, in_then, in_else, in_while, in_for_each, bound_by, bound_remote_by, effects,
  effects_sequence, assigned, returned, wrote_tombstone, accompanied, operated,
}
use mix_t.Split.EffectLaws.{effects-flat, effects-collapse}

module _ {C : Type 0} (sets : TypeSets C) where
  kept_if_required-effects :
      (v : String) (ts : List (VariableBinding C)) (s : SplitStatement C) (g : List (Guard C))
      → effects g s ≡ []
      → effects g (kept_if_required sets v ts s) ≡ []
  unfolding kept_if_required
  kept_if_required-effects v ts s g h = elim (Bool-cases (contains_var_of_name sets v ts)) [
    | inl e ↦ rw e h
    | inr e ↦ rw e refl
  ]

  mutual
    unfolding remove_unused remove_unused_each

    -- The statements that are removed as unused have no effect of the program.
    pub remove_unused-effects :
        (ts : List (VariableBinding C)) (s : SplitStatement C) (g : List (Guard C))
        → effects g (remove_unused sets ts s) ≡ effects g s
    remove_unused-effects ts (let_in b s) g =
        ap (λ xs. effect g (bound_by b) ∷ xs) (remove_unused-effects ts s g)
    remove_unused-effects ts (let_remote b s) g =
        ap (λ xs. effect g (bound_remote_by b) ∷ xs) (remove_unused-effects ts s g)
    remove_unused-effects ts (operation_statement n h args) g = refl
    remove_unused-effects ts (assignment v e) g = refl
    remove_unused-effects ts (return e) g = refl
    remove_unused-effects ts (accompany_write e) g = refl
    remove_unused-effects ts (write_tombstone e) g = refl
    remove_unused-effects ts (increment_occurance v) g =
        kept_if_required-effects v ts (increment_occurance v) g refl
    remove_unused-effects ts (increment_remote_occurance v) g =
        kept_if_required-effects v ts (increment_remote_occurance v) g refl
    remove_unused-effects ts (refresh_remote_occurance k t v) g =
        kept_if_required-effects v ts (refresh_remote_occurance k t v) g refl
    remove_unused-effects ts (if_else c t e) g =
        ap₂ (λ p q. p ++ q) (remove_unused-effects ts t (in_then c ∷ g))
          (remove_unused-effects ts e (in_else c ∷ g))
    remove_unused-effects ts (while c s n) g = remove_unused-effects ts s (in_while c n ∷ g)
    remove_unused-effects ts (for_each s n) g = remove_unused-effects ts s (in_for_each n ∷ g)
    remove_unused-effects ts (sequence ss) g = remove_unused_each-effects ts ss g

    remove_unused_each-effects :
        (ts : List (VariableBinding C)) (ss : SplitSequence C) (g : List (Guard C))
        → effects_sequence g (remove_unused_each sets ts ss) ≡ effects_sequence g ss
    remove_unused_each-effects ts done g = refl
    remove_unused_each-effects ts (next s ss) g =
        ap₂ (λ p q. p ++ q) (remove_unused-effects ts s g) (remove_unused_each-effects ts ss g)

  mutual
    unfolding clear_expression clear_args

    clear_expression-same : (e : SplitExpression C) → (clear_expression sets e).ast ≡ e
    clear_expression-same (field_reference y s f) =
        ap (λ e. field_reference y e f) (clear_expression-same s)
    clear_expression-same (var_reference y v) = refl
    clear_expression-same (constant i) = refl
    clear_expression-same generate_tombstone = refl
    clear_expression-same (bin_op y op L R) =
        ap₂ (bin_op y op) (clear_expression-same L) (clear_expression-same R)
    clear_expression-same (is_valid h) = ap is_valid (clear_expression-same h)
    clear_expression-same (operation y n h args) =
        ap₂ (operation y n) (clear_expression-same h) (clear_args-same args)

    clear_args-same : (es : SplitArgs C) → (clear_args sets es).args ≡ es
    clear_args-same no_args = refl
    clear_args-same (arg e es) = ap₂ arg (clear_expression-same e) (clear_args-same es)

  clear_binding-same : (b : SplitBinding C) → (clear_binding sets b).ast ≡ b
  unfolding clear_binding
  clear_binding-same (binding l y v e) = ap (binding l y v) (clear_expression-same e)

  effects-empty :
      (s : SplitStatement C) (g : List (Guard C)) → is_empty_sequence s ≡ true → effects g s ≡ []
  effects-empty s g h = sym (effects-flat g s) ∙ ap (effects_sequence g) (flat-empty s h)

  clear_if-effects :
      (c : Cleared (SplitExpression C)) (t e : Cleared (SplitStatement C)) (g : List (Guard C))
      → effects g (clear_if sets (is_empty_sequence t.ast && is_empty_sequence e.ast) c t e).ast
        ≡ effects g (if_else c.ast t.ast e.ast)
  clear_if-effects c t e g = elim (Bool-cases (is_empty_sequence t.ast)) [
    | inl p ↦ elim (Bool-cases (is_empty_sequence e.ast)) [
      | inl q ↦
          rw
            (
              p,
              q,
              effects-empty t.ast (in_then c.ast ∷ g) p,
              effects-empty e.ast (in_else c.ast ∷ g) q,
            )
            refl
      | inr q ↦ rw (p, q) refl
    ]
    | inr p ↦ rw p refl
  ]

  mutual
    unfolding clear_empty_statements clear_each

    cleared_effects :
        (s : SplitStatement C) (g : List (Guard C))
        → effects g (clear_empty_statements sets s).ast ≡ effects g s
    cleared_effects (let_in b s) g =
        ap₂ (λ a xs. effect g (bound_by a) ∷ xs) (clear_binding-same b) (cleared_effects s g)
    cleared_effects (let_remote b s) g =
        ap₂ (λ a xs. effect g (bound_remote_by a) ∷ xs) (clear_binding-same b) (cleared_effects s g)
    cleared_effects (assignment v e) g =
        ap₂ (λ a b. effect g (assigned a b) ∷ []) (clear_expression-same v)
          (clear_expression-same e)
    cleared_effects (return e) g = ap (λ a. effect g (returned a) ∷ []) (clear_expression-same e)
    cleared_effects (accompany_write e) g =
        ap (λ a. effect g (accompanied a) ∷ []) (clear_expression-same e)
    cleared_effects (write_tombstone e) g =
        ap (λ a. effect g (wrote_tombstone a) ∷ []) (clear_expression-same e)
    cleared_effects (increment_occurance v) g = refl
    cleared_effects (increment_remote_occurance v) g = refl
    cleared_effects (refresh_remote_occurance k t v) g = refl
    cleared_effects (operation_statement n h args) g =
        ap₂ (λ a b. effect g (operated n a b) ∷ []) (clear_expression-same h) (clear_args-same args)
    cleared_effects (if_else c t e) g =
        clear_if-effects (clear_expression sets c) (clear_empty_statements sets t)
          (clear_empty_statements sets e) g
        ∙ rw (clear_expression-same c) (
            ap₂ (λ p q. p ++ q) (cleared_effects t (in_then c ∷ g))
              (cleared_effects e (in_else c ∷ g)))
    cleared_effects (while c s n) g =
        rw (clear_expression-same c) (cleared_effects s (in_while c n ∷ g))
    cleared_effects (for_each s n) g = cleared_effects s (in_for_each n ∷ g)
    cleared_effects (sequence ss) g =
        effects-collapse g (clear_each sets ss).asts ∙ clear_each-effects ss g

    clear_each-effects :
        (ss : SplitSequence C) (g : List (Guard C))
        → effects_sequence g (clear_each sets ss).asts ≡ effects_sequence g ss
    clear_each-effects done g = refl
    clear_each-effects (next s ss) g =
        ap₂ (λ p q. p ++ q) (cleared_effects s g) (clear_each-effects ss g)

  -- Clearing the empty statements keeps the effects, with the branches that they stand in.
  pub clear_empty_statements-effects :
      (s : SplitStatement C) (g : List (Guard C))
      → effects g (clear_empty_statements sets s).ast ≡ effects g s
  clear_empty_statements-effects s g = cleared_effects s g
