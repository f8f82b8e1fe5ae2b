-- ===== src/Ast/CollectLaws.antt =====
-- collect_labels finds just the concrete labels of a tree
-- (transactions/mtl/collect_proper_label.hpp).
use mix_t.Base.{◌↔◌, List, [], ◌∷◌, inl, inr, All, All-Elem, All-of_Elem}
use mix_t.Labels.Order.{LabelOrder}
use mix_t.Labels.Term.{Label, concrete, temp_label, label_min_of}
use mix_t.Ast.{
  Expression, var_reference, field_reference, constant, bin_op, generate_tombstone, is_valid,
  endorse, operation, Args, no_args, arg, Binding, binding, Statement, let_in, let_remote,
  assignment, return, write_tombstone, accompany_write, if_else, while, operation_statement,
  sequence, Sequence, done, next,
}
use mix_t.Ast.Labelled.{AllExpression, AllArgs, AllBinding, AllStatement, AllSequence}
use mix_t.Ast.Surface.{
  IsConcrete, IsSurfaceExpression, IsSurfaceArgs, IsSurfaceBinding, IsSurfaceStatement,
  IsSurfaceSequence,
}
use mix_t.Ast.Collect.{
  LabelSets, combine_all, combine_children, collect_label, collect_node, collect_labels_expression,
  collect_labels_args, collect_labels_binding, collect_labels, collect_labels_sequence,
}

module _ {C : Type 0} (P : Label C → Type 0) where
  -- `P` holds of each concrete label inside the label.
  abbrev pub OnConcrete : Label C → Type 0
  OnConcrete (concrete c) = P (concrete c)
  OnConcrete (temp_label s d) = Unit
  OnConcrete (label_min_of l r) = OnConcrete l × OnConcrete r

module _ {C : Type 0} (m : LabelSets C) (P : Label C → Type 0) where
  combine_iff : (xs ys : List (Label C)) → All P (m.combine xs ys) ↔ (All P xs × All P ys)
  combine_iff xs ys = (
    λ h. (
      All-of_Elem P xs
          (λ x mem. All-Elem P (m.combine xs ys) x h ((m.combine-Elem x xs ys).1 (inl mem))),
      All-of_Elem P ys
          (λ x mem. All-Elem P (m.combine xs ys) x h ((m.combine-Elem x xs ys).1 (inr mem))),
    ),
    λ h. All-of_Elem P (m.combine xs ys) (λ x mem. elim ((m.combine-Elem x xs ys).0 mem) [
      | inl p ↦ All-Elem P xs x h.0 p
      | inr q ↦ All-Elem P ys x h.1 q
    ]),
  )

  combine_all_iff :
      (x : List (Label C)) (ys : List (List (Label C)))
      → All P (combine_all m x ys) ↔ (All P x × All (All P) ys)
  combine_all_iff x [] = (λ h. (h, tt), λ h. h.0)
  combine_all_iff x (y ∷ ys) =
      let (f, g) = combine_all_iff (m.combine x y) ys in
      let (f', g') = combine_iff x y in
      (λ h. (let (p, q) = f h in let (a, b) = f' p in (a, (b, q))), λ h. g (g' (h.0, h.1.0), h.1.1))

  combine_children_iff :
      (xs : List (List (Label C))) → All P (combine_children m xs) ↔ All (All P) xs
  combine_children_iff [] = (λ h. tt, λ h. tt)
  combine_children_iff (x ∷ xs) = combine_all_iff x xs

  collect_label_iff : (l : Label C) → All P (collect_label m l) ↔ OnConcrete P l
  collect_label_iff (concrete c) = (λ h. h.0, λ h. (h, tt))
  collect_label_iff (temp_label s d) = (λ h. tt, λ h. tt)
  collect_label_iff (label_min_of l r) =
      let (f, g) = combine_iff (m.combine (collect_label m l) (collect_label m r)) [] in
      let (f', g') = combine_iff (collect_label m l) (collect_label m r) in
      (
        λ h. (let (a, b) = f' (f h).0 in ((collect_label_iff l).0 a, (collect_label_iff r).0 b)),
        λ h. g (g' ((collect_label_iff l).1 h.0, (collect_label_iff r).1 h.1), tt),
      )

  collect_node_iff :
      (l : Label C) (xs : List (List (Label C)))
      → All P (collect_node m l xs) ↔ (OnConcrete P l × All (All P) xs)
  collect_node_iff (concrete c) xs =
      let (f, g) = combine_all_iff (concrete c ∷ []) xs in
      (λ h. (let (p, q) = f h in (p.0, q)), λ h. g ((h.0, tt), h.1))
  collect_node_iff (temp_label s d) xs =
      let (f, g) = combine_children_iff xs in (λ h. (tt, f h), λ h. g h.1)
  collect_node_iff (label_min_of l r) xs =
      let (f, g) =
        combine_iff (m.combine (collect_label m l) (collect_label m r)) (combine_children m xs) in
      let (f', g') = combine_iff (collect_label m l) (collect_label m r) in
      let (f'', g'') = combine_children_iff xs in
      (
        λ h.
            (let (p, q) = f h in
              let (a, b) = f' p in (((collect_label_iff l).0 a, (collect_label_iff r).0 b), f'' q)),
        λ h. g (g' ((collect_label_iff l).1 h.0.0, (collect_label_iff r).1 h.0.1), g'' h.1),
      )

  node_none : (l : Label C) → All P (collect_node m l []) ↔ OnConcrete P l
  node_none l = let (f, g) = collect_node_iff l [] in (λ h. (f h).0, λ h. g (h, tt))

  node_one :
      {A : Type 0} (l : Label C) (x : List (Label C))
      → All P x ↔ A
      → All P (collect_node m l (x ∷ [])) ↔ (OnConcrete P l × A)
  node_one l x p =
      let (f, g) = collect_node_iff l (x ∷ []) in
      (λ h. (let (a, b) = f h in (a, p.0 b.0)), λ h. g (h.0, (p.1 h.1, tt)))

  node_rest :
      {A B : Type 0} (l : Label C) (x : List (Label C)) (xs : List (List (Label C)))
      → All P x ↔ A
      → All (All P) xs ↔ B
      → All P (collect_node m l (x ∷ xs)) ↔ (OnConcrete P l × A × B)
  node_rest l x xs p q =
      let (f, g) = collect_node_iff l (x ∷ xs) in
      (λ h. (let (a, b) = f h in (a, p.0 b.0, q.0 b.1)), λ h. g (h.0, (p.1 h.1, q.1 h.2)))

  one : {A : Type 0} (x : List (Label C)) → All P x ↔ A → All (All P) (x ∷ []) ↔ A
  one x p = (λ h. p.0 h.0, λ h. (p.1 h, tt))

  node_three :
      {A B D : Type 0} (l : Label C) (x y z : List (Label C))
      → All P x ↔ A
      → All P y ↔ B
      → All P z ↔ D
      → All P (collect_node m l (x ∷ y ∷ z ∷ [])) ↔ (OnConcrete P l × A × B × D)
  node_three l x y z p q r =
      let (f, g) = collect_node_iff l (x ∷ y ∷ z ∷ []) in
      (
        λ h. (let (a, b) = f h in (a, p.0 b.0, q.0 b.1.0, r.0 b.1.1.0)),
        λ h. g (h.0, (p.1 h.1, (q.1 h.2, (r.1 h.3, tt)))),
      )

  -- A node at a label that has no overload of its own, with one child.
  under_label :
      {A : Type 0} (l : Label C) (x : List (Label C))
      → All P x ↔ A
      → All P (combine_all m (l ∷ []) (x ∷ [])) ↔ (P l × A)
  under_label l x p =
      let (f, g) = combine_all_iff (l ∷ []) (x ∷ []) in
      (λ h. (let (a, b) = f h in (a.0, p.0 b.0)), λ h. g ((h.0, tt), (p.1 h.1, tt)))

  IsConcrete-iff : (l : Label C) → IsConcrete l → P l ↔ OnConcrete P l
  IsConcrete-iff (concrete c) h = (λ p. p, λ p. p)
  IsConcrete-iff (temp_label s d) h = absurd h
  IsConcrete-iff (label_min_of a b) h = absurd h

module _ {C : Type 0} ⦃o : LabelOrder C⦄ (m : LabelSets C) (P : Label C → Type 0)
    (at_top : P (concrete o.top)) (at_bottom : P (concrete o.bottom)) where
  mutual
    unfolding collect_labels_expression collect_labels_args

    labels_expression_iff :
        (e : Expression C)
        → IsSurfaceExpression e
        → All P (collect_labels_expression m e) ↔ AllExpression (OnConcrete P) e
    labels_expression_iff (var_reference l y v) h = node_none m P l
    labels_expression_iff (field_reference l y s f) h =
        node_one m P l _ (labels_expression_iff s h.1)
    labels_expression_iff (constant i) h = (λ p. tt, λ p. (at_top, tt))
    labels_expression_iff (bin_op l y op L R) h =
        node_rest m P l _ _ (labels_expression_iff L h.1) (one m P _ (labels_expression_iff R h.2))
    labels_expression_iff (generate_tombstone l) h = absurd h
    labels_expression_iff (is_valid l e) h = node_one m P l _ (labels_expression_iff e h.1)
    labels_expression_iff (endorse l y e) h =
        let (f, g) = under_label m P l _ (labels_expression_iff e h.1) in
        let (f', g') = IsConcrete-iff m P l h.0 in
        (λ p. (f' (f p).0, (f p).1), λ p. g (g' p.0, p.1))
    labels_expression_iff (operation l y n e args) h =
        node_rest m P l _ _ (labels_expression_iff e h.1) (labels_args_iff args h.2)

    labels_args_iff :
        (es : Args C)
        → IsSurfaceArgs es
        → All (All P) (collect_labels_args m es) ↔ AllArgs (OnConcrete P) es
    labels_args_iff no_args h = (λ p. tt, λ p. tt)
    labels_args_iff (arg e es) h =
        let (f, g) = labels_expression_iff e h.0 in
        let (f', g') = labels_args_iff es h.1 in (λ p. (f p.0, f' p.1), λ p. (g p.0, g' p.1))

  labels_binding_iff :
      (b : Binding C)
      → IsSurfaceBinding b
      → All P (collect_labels_binding m b) ↔ AllBinding (OnConcrete P) b
  unfolding collect_labels_binding
  labels_binding_iff (binding l y v e) h = node_one m P l _ (labels_expression_iff e h.1)

  mutual
    unfolding collect_labels collect_labels_sequence

    labels_statement_iff :
        (s : Statement C)
        → IsSurfaceStatement s
        → All P (collect_labels m s) ↔ AllStatement (OnConcrete P) s
    labels_statement_iff (let_in l b s) h =
        node_rest m P l _ _ (labels_binding_iff b h.1) (one m P _ (labels_statement_iff s h.2))
    labels_statement_iff (let_remote l b s) h =
        node_rest m P l _ _ (labels_binding_iff b h.1) (one m P _ (labels_statement_iff s h.2))
    labels_statement_iff (assignment l v e) h =
        node_rest m P l _ _ (labels_expression_iff v h.1) (one m P _ (labels_expression_iff e h.2))
    labels_statement_iff (return e) h =
        let (f, g) = under_label m P (concrete o.bottom) _ (labels_expression_iff e h) in
        (λ p. (f p).1, λ p. g (at_bottom, p))
    labels_statement_iff (write_tombstone l e) h = absurd h
    labels_statement_iff (accompany_write l e) h = absurd h
    labels_statement_iff (if_else l c t e) h =
        node_three m P l _ _ _ (labels_expression_iff c h.1) (labels_statement_iff t h.2)
          (labels_statement_iff e h.3)
    labels_statement_iff (while l c s) h =
        node_rest m P l _ _ (labels_expression_iff c h.1) (one m P _ (labels_statement_iff s h.2))
    labels_statement_iff (operation_statement l n e args) h =
        node_rest m P l _ _ (labels_expression_iff e h.1) (labels_args_iff args h.2)
    labels_statement_iff (sequence l ss) h =
        let (f, g) = collect_node_iff m P l (collect_labels_sequence m ss) in
        let (f', g') = labels_sequence_iff ss h.1 in
        (λ p. ((f p).0, f' (f p).1), λ p. g (p.0, g' p.1))

    labels_sequence_iff :
        (ss : Sequence C)
        → IsSurfaceSequence ss
        → All (All P) (collect_labels_sequence m ss) ↔ AllSequence (OnConcrete P) ss
    labels_sequence_iff done h = (λ p. tt, λ p. tt)
    labels_sequence_iff (next s ss) h =
        let (f, g) = labels_statement_iff s h.0 in
        let (f', g') = labels_sequence_iff ss h.1 in (λ p. (f p.0, f' p.1), λ p. (g p.0, g' p.1))

  -- The labels that collect_labels finds in a surface tree are top and bottom, which stand at
  -- constants and returns, and the concrete labels inside the labels of the tree: what holds of top
  -- and bottom holds of all the labels found exactly when it holds of each of those.
  pub collect_labels_iff :
      (s : Statement C)
      → IsSurfaceStatement s
      → All P (collect_labels m s) ↔ AllStatement (OnConcrete P) s
  collect_labels_iff s h = labels_statement_iff s h
