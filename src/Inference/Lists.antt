-- ===== src/Inference/Lists.antt =====
-- A sorting of constraints as label inference asks for it: insertion by must_flow_to::lte
-- (transactions/mtl/label_inference.hpp). It shows that the assumptions on the type lists of mutils
-- can be met.
use mix_t.Base.{
  suc, Bool, true, false, ◌≡◌, ◌↔◌, ◌∙◌, ap, inl, inr, refl, Option, some, List, [], ◌∷◌, length,
  Elem, Bool-cases, if◌then◌else◌, arith,
}
use mix_t.Labels.Order.{LabelOrder}
use mix_t.Inference.Constraints.{MustFlowTo}
use mix_t.Inference.Solve.{lte, IsInverted, IsPlaced, TypeLists}

abbrev both : Option Bool → Option Bool → Bool
both (some false) (some true) = true
both _ _ = false

both_iff : (a b : Option Bool) → (both a b ≡ true) ↔ ((a ≡ some false) × (b ≡ some true))
both_iff a b = (λ h. ground arith, λ h. ground arith)

module _ {C : Type 0} ⦃o : LabelOrder C⦄ where
  abbrev pub is_inverted : MustFlowTo C → MustFlowTo C → Bool
  is_inverted a b = both (lte a b) (lte b a)

  abbrev pub insert : MustFlowTo C → List (MustFlowTo C) → List (MustFlowTo C)
  insert c [] = c ∷ []
  insert c (d ∷ ds) = if is_inverted c d then d ∷ insert c ds else c ∷ (d ∷ ds)

  abbrev pub insertion_sort : List (MustFlowTo C) → List (MustFlowTo C)
  insertion_sort [] = []
  insertion_sort (c ∷ cs) = insert c (insertion_sort cs)

  length-insert :
      (c : MustFlowTo C) (cs : List (MustFlowTo C)) → length (insert c cs) ≡ suc (length cs)
  length-insert c [] = refl
  length-insert c (d ∷ ds) = elim (Bool-cases (is_inverted c d)) [
    | inl e ↦ rw (e, length-insert c ds)
    | inr e ↦ rw e
  ]

  pub length-insertion_sort : (cs : List (MustFlowTo C)) → length (insertion_sort cs) ≡ length cs
  length-insertion_sort [] = refl
  length-insertion_sort (c ∷ cs) =
      length-insert c (insertion_sort cs) ∙ ap suc (length-insertion_sort cs)

  insert-Elem :
      (x c : MustFlowTo C) (cs : List (MustFlowTo C)) → Elem x (insert c cs) ↔ Elem x (c ∷ cs)
  insert-Elem x c [] = (λ h. h, λ h. h)
  insert-Elem x c (d ∷ ds) =
      let (to, from) = insert-Elem x c ds in
      elim (Bool-cases (is_inverted c d)) [
        | inl e ↦ rw e (
          λ h. elim h [
            | inl p ↦ inr (inl p)
            | inr q ↦ elim (to q) [ inl r ↦ inl r | inr s ↦ inr (inr s) ]
          ],
          λ h. elim h [
            | inl p ↦ inr (from (inl p))
            | inr q ↦ elim q [ inl r ↦ inl r | inr s ↦ inr (from (inr s)) ]
          ],
        )
        | inr e ↦ rw e (λ h. h, λ h. h)
      ]

  pub insertion_sort-Elem :
      (x : MustFlowTo C) (cs : List (MustFlowTo C)) → Elem x (insertion_sort cs) ↔ Elem x cs
  insertion_sort-Elem x [] = (λ h. h, λ h. h)
  insertion_sort-Elem x (c ∷ cs) =
      let (to, from) = insertion_sort-Elem x cs in
      let (out, in') = insert-Elem x c (insertion_sort cs) in
      (
        λ h. elim (out h) [ inl p ↦ inl p | inr q ↦ inr (to q) ],
        λ h. in' (elim h [ inl p ↦ inl p | inr q ↦ inr (from q) ]),
      )

  not-IsInverted : (a b : MustFlowTo C) → is_inverted a b ≡ false → ¬ IsInverted a b
  not-IsInverted a b e h = let t = (both_iff (lte a b) (lte b a)).1 h in cc

  not_opposite : (c d : MustFlowTo C) → is_inverted c d ≡ true → ¬ IsInverted d c
  not_opposite c d e h = let t = (both_iff (lte c d) (lte d c)).0 e in cc

  -- `d` may stand in front of whatever the insertion of `c` begins with.
  insert_behind :
      (c d : MustFlowTo C) (ds : List (MustFlowTo C))
      → is_inverted c d ≡ true
      → IsPlaced (d ∷ ds)
      → IsPlaced (insert c ds)
      → IsPlaced (d ∷ insert c ds)
  insert_behind c d [] e p q = (not_opposite c d e, q)
  insert_behind c d (f ∷ ds) e p q = elim (Bool-cases (is_inverted c f)) [
    | inl g ↦ rw g (p.0, rw g at q)
    | inr g ↦ rw g (not_opposite c d e, rw g at q)
  ]

  insert-IsPlaced :
      (c : MustFlowTo C) (cs : List (MustFlowTo C)) → IsPlaced cs → IsPlaced (insert c cs)
  insert-IsPlaced c [] p = tt
  insert-IsPlaced c (d ∷ ds) p = elim (Bool-cases (is_inverted c d)) [
    | inl e ↦ rw e (insert_behind c d ds e p (insert-IsPlaced c ds (placed_tail d ds p)))
    | inr e ↦ rw e (not-IsInverted c d e, p)
  ]
    where
      placed_tail : (x : MustFlowTo C) (xs : List (MustFlowTo C)) → IsPlaced (x ∷ xs) → IsPlaced xs
      placed_tail x [] h = tt
      placed_tail x (y ∷ xs) h = h.1

  pub insertion_sort-IsPlaced : (cs : List (MustFlowTo C)) → IsPlaced (insertion_sort cs)
  insertion_sort-IsPlaced [] = tt
  insertion_sort-IsPlaced (c ∷ cs) =
      insert-IsPlaced c (insertion_sort cs) (insertion_sort-IsPlaced cs)

  -- Constraints sorted by insertion, with their duplicates.
  abbrev pub insertion_lists : TypeLists C
  insertion_lists = record {
    sort = insertion_sort;
    add_all = λ cs. cs;
    sort-Elem = insertion_sort-Elem;
    length-sort = length-insertion_sort;
    sort-IsPlaced = insertion_sort-IsPlaced;
    add_all-Elem = λ c cs. (λ h. h, λ h. h);
  }
