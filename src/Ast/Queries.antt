-- ===== src/Ast/Queries.antt =====
-- The queries for labels that inference must still remove
-- (transactions/mtl/contains_improper_labels.hpp, transactions/mtl/contains_min_ofs.hpp).
use mix_t.Base.{Bool, true, false, ◌||◌, ◌≡◌, ◌↔◌, refl, arith}
use mix_t.Labels.Term.{Label, concrete, temp_label, label_min_of}
use mix_t.Ast.{
  Expression, var_reference, field_reference, constant, bin_op, generate_tombstone, is_valid,
  endorse, operation, Args, no_args, arg, Binding, binding, Statement, let_in, let_remote,
  assignment, return, write_tombstone, accompany_write, if_else, while, operation_statement,
  sequence, Sequence, done, next,
}
use mix_t.Ast.Labelled.{AllExpression, AllArgs, AllBinding, AllStatement, AllSequence}
use mix_t.Ast.Surface.{
  IsConcrete, IsSurfaceExpression, IsSurfaceArgs, IsSurfaceBinding, IsSurfaceStatement,
  IsSurfaceSequence,
}

-- The traversal that both queries share, with the labels that have overloads which answer `true`.
-- No such overload exists at a constant, an endorsement, a return or a node of tracking.
module _ {C : Type 0} (at_label : Label C → Bool) where
  abbrev mutual
    pub contains_expression : Expression C → Bool
    contains_expression (var_reference l y v) = at_label l
    contains_expression (field_reference l y s f) = at_label l || contains_expression s
    contains_expression (constant i) = false
    contains_expression (bin_op l y op L R) =
        at_label l || (contains_expression L || contains_expression R)
    contains_expression (generate_tombstone l) = at_label l
    contains_expression (is_valid l h) = at_label l || contains_expression h
    contains_expression (endorse l y h) = contains_expression h
    contains_expression (operation l y n h args) =
        at_label l || (contains_expression h || contains_args args)

    pub contains_args : Args C → Bool
    contains_args no_args = false
    contains_args (arg e es) = contains_expression e || contains_args es

  abbrev pub contains_binding : Binding C → Bool
  contains_binding (binding l y v e) = at_label l || contains_expression e

  abbrev mutual
    pub contains_statement : Statement C → Bool
    contains_statement (let_in l b s) = at_label l || (contains_binding b || contains_statement s)
    contains_statement (let_remote l b s) =
        at_label l || (contains_binding b || contains_statement s)
    contains_statement (assignment l v e) =
        at_label l || (contains_expression v || contains_expression e)
    contains_statement (return e) = contains_expression e
    contains_statement (write_tombstone l e) = contains_expression e
    contains_statement (accompany_write l e) = contains_expression e
    contains_statement (if_else l c t e) =
        at_label l || (contains_expression c || (contains_statement t || contains_statement e))
    contains_statement (while l c s) = at_label l || (contains_expression c || contains_statement s)
    contains_statement (operation_statement l n h args) =
        at_label l || (contains_expression h || contains_args args)
    contains_statement (sequence l ss) = at_label l || contains_sequence ss

    pub contains_sequence : Sequence C → Bool
    contains_sequence done = false
    contains_sequence (next s ss) = contains_statement s || contains_sequence ss

module _ {C : Type 0} where
  abbrev pub is_improper : Label C → Bool
  is_improper (concrete _) = false
  is_improper (temp_label _ _) = true
  is_improper (label_min_of _ _) = true

  abbrev pub is_min_of : Label C → Bool
  is_min_of (concrete _) = false
  is_min_of (temp_label _ _) = false
  is_min_of (label_min_of _ _) = true

  unfoldable pub contains_improper_labels : Statement C → Bool
  contains_improper_labels s = contains_statement is_improper s

  unfoldable pub contains_min_ofs : Statement C → Bool
  contains_min_ofs s = contains_statement is_min_of s

or_iff :
    {P Q : Type 0} {a b : Bool} → (a ≡ false) ↔ P → (b ≡ false) ↔ Q → ((a || b) ≡ false) ↔ (P × Q)
or_iff {a = false} {b = b} p q = (λ h. (p.0 refl, q.0 h), λ h. q.1 h.1)
or_iff {a = true} {b = b} p q = (λ h. ground arith, λ h. p.1 h.0)

or3_iff :
    {P Q R : Type 0} {a b c : Bool}
    → (a ≡ false) ↔ P
    → (b ≡ false) ↔ Q
    → (c ≡ false) ↔ R
    → ((a || (b || c)) ≡ false) ↔ (P × Q × R)
or3_iff p q r =
    let (f, g) = or_iff p (or_iff q r) in
    (λ h. (let (x, y) = f h in (x, y.0, y.1)), λ h. g (h.0, (h.1, h.2)))

or4_iff :
    {P Q R S : Type 0} {a b c d : Bool}
    → (a ≡ false) ↔ P
    → (b ≡ false) ↔ Q
    → (c ≡ false) ↔ R
    → (d ≡ false) ↔ S
    → ((a || (b || (c || d))) ≡ false) ↔ (P × Q × R × S)
or4_iff p q r s =
    let (f, g) = or_iff p (or3_iff q r s) in
    (λ h. (let (x, y) = f h in (x, y.0, y.1, y.2)), λ h. g (h.0, (h.1, h.2, h.3)))

-- The traversal finds nothing in a surface tree exactly when every label passes.
module _ {C : Type 0} (at_label : Label C → Bool) (P : Label C → Type 0)
    (passes : (l : Label C) → (at_label l ≡ false) ↔ P l)
    (passes_concrete : (l : Label C) → IsConcrete l → P l) where
  mutual
    expression_iff :
        (e : Expression C)
        → IsSurfaceExpression e
        → (contains_expression at_label e ≡ false) ↔ AllExpression P e
    expression_iff (var_reference l y v) h = passes l
    expression_iff (field_reference l y s f) h = or_iff (passes l) (expression_iff s h.1)
    expression_iff (constant i) h = (λ _. tt, λ _. refl)
    expression_iff (bin_op l y op L R) h =
        or3_iff (passes l) (expression_iff L h.1) (expression_iff R h.2)
    expression_iff (generate_tombstone l) h = absurd h
    expression_iff (is_valid l e) h = or_iff (passes l) (expression_iff e h.1)
    expression_iff (endorse l y e) h = (
      λ p. (passes_concrete l h.0, (expression_iff e h.1).0 p),
      λ p. (expression_iff e h.1).1 p.1,
    )
    expression_iff (operation l y n e args) h =
        or3_iff (passes l) (expression_iff e h.1) (args_iff args h.2)

    args_iff : (es : Args C) → IsSurfaceArgs es → (contains_args at_label es ≡ false) ↔ AllArgs P es
    args_iff no_args h = (λ _. tt, λ _. refl)
    args_iff (arg e es) h = or_iff (expression_iff e h.0) (args_iff es h.1)

  binding_iff :
      (b : Binding C) → IsSurfaceBinding b → (contains_binding at_label b ≡ false) ↔ AllBinding P b
  binding_iff (binding l y v e) h = or_iff (passes l) (expression_iff e h.1)

  mutual
    statement_iff :
        (s : Statement C)
        → IsSurfaceStatement s
        → (contains_statement at_label s ≡ false) ↔ AllStatement P s
    statement_iff (let_in l b s) h = or3_iff (passes l) (binding_iff b h.1) (statement_iff s h.2)
    statement_iff (let_remote l b s) h =
        or3_iff (passes l) (binding_iff b h.1) (statement_iff s h.2)
    statement_iff (assignment l v e) h =
        or3_iff (passes l) (expression_iff v h.1) (expression_iff e h.2)
    statement_iff (return e) h = expression_iff e h
    statement_iff (write_tombstone l e) h = absurd h
    statement_iff (accompany_write l e) h = absurd h
    statement_iff (if_else l c t e) h =
        or4_iff (passes l) (expression_iff c h.1) (statement_iff t h.2) (statement_iff e h.3)
    statement_iff (while l c s) h = or3_iff (passes l) (expression_iff c h.1) (statement_iff s h.2)
    statement_iff (operation_statement l n e args) h =
        or3_iff (passes l) (expression_iff e h.1) (args_iff args h.2)
    statement_iff (sequence l ss) h = or_iff (passes l) (sequence_iff ss h.1)

    sequence_iff :
        (ss : Sequence C)
        → IsSurfaceSequence ss
        → (contains_sequence at_label ss ≡ false) ↔ AllSequence P ss
    sequence_iff done h = (λ _. tt, λ _. refl)
    sequence_iff (next s ss) h = or_iff (statement_iff s h.0) (sequence_iff ss h.1)

module _ {C : Type 0} where
  abbrev pub IsNotMin : Label C → Type 0
  IsNotMin (label_min_of _ _) = ⊥
  IsNotMin _ = Unit

  is_improper_iff : (l : Label C) → (is_improper l ≡ false) ↔ IsConcrete l
  is_improper_iff (concrete _) = (λ _. tt, λ _. refl)
  is_improper_iff (temp_label _ _) = (λ h. ground arith, λ h. absurd h)
  is_improper_iff (label_min_of _ _) = (λ h. ground arith, λ h. absurd h)

  is_min_of_iff : (l : Label C) → (is_min_of l ≡ false) ↔ IsNotMin l
  is_min_of_iff (concrete _) = (λ _. tt, λ _. refl)
  is_min_of_iff (temp_label _ _) = (λ _. tt, λ _. refl)
  is_min_of_iff (label_min_of _ _) = (λ h. ground arith, λ h. absurd h)

  IsConcrete-IsNotMin : (l : Label C) → IsConcrete l → IsNotMin l
  IsConcrete-IsNotMin (concrete _) h = tt
  IsConcrete-IsNotMin (temp_label _ _) h = absurd h
  IsConcrete-IsNotMin (label_min_of _ _) h = absurd h

  -- On a surface tree contains_improper_labels answers `false` exactly when every label of the tree
  -- is concrete.
  pub contains_improper_labels_iff :
      (s : Statement C)
      → IsSurfaceStatement s
      → (contains_improper_labels s ≡ false) ↔ AllStatement IsConcrete s
  unfolding contains_improper_labels
  contains_improper_labels_iff s h =
      statement_iff is_improper IsConcrete is_improper_iff (λ l p. p) s h

  -- On a surface tree contains_min_ofs answers `false` exactly when no label of the tree is a
  -- minimum.
  pub contains_min_ofs_iff :
      (s : Statement C)
      → IsSurfaceStatement s
      → (contains_min_ofs s ≡ false) ↔ AllStatement IsNotMin s
  unfolding contains_min_ofs
  contains_min_ofs_iff s h = statement_iff is_min_of IsNotMin is_min_of_iff IsConcrete-IsNotMin s h
