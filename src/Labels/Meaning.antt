-- ===== src/Labels/Meaning.antt =====
-- What a label stands for once every temporary label is known, and that resolve() keeps it.
use mix_t.Base.{
  ℕ, zero, suc, Bool, true, false, ◌||◌, ◌≡◌, ◌≢◌, refl, ap, ◌↔◌, ◌⊎◌, inl, inr, Option, none, some,
  [], ◌∷◌, arith, if◌then◌else◌, ◌>>=◌,
}
use mix_t.Labels.Order.{LabelOrder, min_of}
use mix_t.Labels.Term.{
  Label, concrete, temp_label, label_min_of, choose, can_resolve, resolve, is_same_label,
}

-- The labels that temporary labels stand for.
abbrev pub Env : Type 0 → Type 0
Env C = ℕ → ℕ → C

never_or :
    (ca cb : Option Bool)
    → ca ≢ some true
    → cb ≢ some true
    → (do a ← ca; b ← cb; some (a || b)) ≢ some true
never_or ca cb p q = ground arith

module _ {C : Type 0} where
  -- No label can be resolved step by step: can_resolve() is false wherever it compiles.
  pub can_resolve-ne-true : (l : Label C) → can_resolve l ≢ some true
  unfolding can_resolve
  can_resolve-ne-true (concrete _) = cc
  can_resolve-ne-true (temp_label _ _) = cc
  can_resolve-ne-true (label_min_of (label_min_of a b) (label_min_of c d)) =
      never_or (can_resolve (label_min_of a b)) (can_resolve (label_min_of c d))
        (can_resolve-ne-true (label_min_of a b)) (can_resolve-ne-true (label_min_of c d))
  can_resolve-ne-true (label_min_of (label_min_of a b) (concrete _)) =
      can_resolve-ne-true (label_min_of a b)
  can_resolve-ne-true (label_min_of (label_min_of a b) (temp_label _ _)) =
      can_resolve-ne-true (label_min_of a b)
  can_resolve-ne-true (label_min_of (concrete _) (label_min_of a b)) =
      can_resolve-ne-true (label_min_of a b)
  can_resolve-ne-true (label_min_of (temp_label _ _) (label_min_of a b)) =
      can_resolve-ne-true (label_min_of a b)
  can_resolve-ne-true (label_min_of (concrete _) (concrete _)) = cc
  can_resolve-ne-true (label_min_of (concrete _) (temp_label _ _)) = cc
  can_resolve-ne-true (label_min_of (temp_label _ _) (concrete _)) = cc
  can_resolve-ne-true (label_min_of (temp_label _ _) (temp_label _ _)) = cc

module _ {C : Type 0} ⦃o : LabelOrder C⦄ where
  -- The lower of two concrete labels.
  abbrev pub meet : C → C → C
  meet a b = if o.flows_to a b then b else a

  unfoldable pub meaning : Env C → Label C → C
  meaning env (concrete c) = c
  meaning env (temp_label s d) = env s d
  meaning env (label_min_of l r) = meet (meaning env l) (meaning env r)

  pub min_of_pair : (a b : C) → min_of a (b ∷ []) ≡ some (meet a b)
  unfolding min_of
  min_of_pair a b = ground (arith, o.flows_total a b)

  choose_lem :
      (can : Option Bool) (r : Option (Label C)) (l m : Label C)
      → can ≢ some true
      → choose can r l ≡ some m
      → m ≡ l
  choose_lem none r l m p h = cc
  choose_lem (some true) r l m p h = absurd (p refl)
  choose_lem (some false) r l m p h = cc

  -- resolve() either merges two concrete labels or changes nothing, whatever the fuel.
  pub resolve_cases :
      (f : ℕ) (l m : Label C)
      → resolve f l ≡ some m
      → (m ≡ l)
        ⊎ ((a : C) × (b : C) × (l ≡ label_min_of (concrete a) (concrete b))
            × (m ≡ concrete (meet a b)))
  unfolding resolve
  resolve_cases zero l m h = cc
  resolve_cases (suc f) (concrete _) m h = cc
  resolve_cases (suc f) (temp_label _ _) m h = cc
  resolve_cases (suc f) (label_min_of (concrete a) (concrete b)) m h =
      inr (a, b, refl, ground (arith, min_of_pair a b))
  resolve_cases (suc f) (label_min_of (label_min_of l1 l2) (label_min_of r1 r2)) m h =
      inl (choose_lem _ _ _ _ (can_resolve-ne-true _) h)
  resolve_cases (suc f) (label_min_of (label_min_of l1 l2) (concrete _)) m h =
      inl (choose_lem _ _ _ _ (can_resolve-ne-true _) h)
  resolve_cases (suc f) (label_min_of (label_min_of l1 l2) (temp_label _ _)) m h =
      inl (choose_lem _ _ _ _ (can_resolve-ne-true _) h)
  resolve_cases (suc f) (label_min_of (concrete _) (label_min_of l1 l2)) m h =
      inl (choose_lem _ _ _ _ (can_resolve-ne-true _) h)
  resolve_cases (suc f) (label_min_of (temp_label _ _) (label_min_of l1 l2)) m h =
      inl (choose_lem _ _ _ _ (can_resolve-ne-true _) h)
  resolve_cases (suc f) (label_min_of (concrete _) (temp_label _ _)) m h = inl cc
  resolve_cases (suc f) (label_min_of (temp_label _ _) (concrete _)) m h = inl cc
  resolve_cases (suc f) (label_min_of (temp_label _ _) (temp_label _ _)) m h = inl cc

  -- Where resolve() compiles, the label that it returns stands for the same concrete label.
  pub meaning-resolve :
      (f : ℕ) (l m : Label C) (env : Env C) → resolve f l ≡ some m → meaning env m ≡ meaning env l
  unfolding meaning
  meaning-resolve f l m env h = elim (resolve_cases f l m h) [
    | inl e ↦ ap (meaning env) e
    | inr (a, b, p, q) ↦ rw (p, q)
  ]

  -- A minimum flows where both of its labels flow, and each of its labels flows to it.
  pub meet_flows :
      (a b c : C)
      → (o.flows_to (meet a b) c ≡ true) ↔ ((o.flows_to a c ≡ true) × (o.flows_to b c ≡ true))
  meet_flows a b c = (
    λ h. ground (arith, o.flows_trans a b c, o.flows_trans b a c, o.flows_total a b),
    λ h. ground arith,
  )

  pub flows_meet : (a b : C) → (o.flows_to a (meet a b) ≡ true) × (o.flows_to b (meet a b) ≡ true)
  flows_meet a b = ground (arith, o.flows_refl a, o.flows_refl b, o.flows_total a b)

  pub is_same_label_iff : (a b : Label C) → (is_same_label a b ≡ true) ↔ (a ≡ b)
  is_same_label_iff (concrete a) (concrete b) =
      (λ h. ap concrete ((o.is_same_iff a b).0 h), λ h. (o.is_same_iff a b).1 cc)
  is_same_label_iff (temp_label s d) (temp_label s' d') = (λ h. ground arith, λ h. ground arith)
  is_same_label_iff (label_min_of a b) (label_min_of c d) =
      let (f, g) = is_same_label_iff a c in
      let (p, q) = is_same_label_iff b d in (λ h. ground (arith, f, p), λ h. ground (arith, g, q))
  is_same_label_iff (concrete _) (temp_label _ _) = (λ h. cc, λ h. cc)
  is_same_label_iff (concrete _) (label_min_of _ _) = (λ h. cc, λ h. cc)
  is_same_label_iff (temp_label _ _) (concrete _) = (λ h. cc, λ h. cc)
  is_same_label_iff (temp_label _ _) (label_min_of _ _) = (λ h. cc, λ h. cc)
  is_same_label_iff (label_min_of _ _) (concrete _) = (λ h. cc, λ h. cc)
  is_same_label_iff (label_min_of _ _) (temp_label _ _) = (λ h. cc, λ h. cc)
