-- ===== src/Labels/Replace.antt =====
-- label_replace of transactions/mtl/replace_label.hpp: a concrete label in place of a temporary one,
-- inside a label.
use mix_t.Base.{
  ℕ, ◌&&◌, false, ◌≡◌, refl, ◌∙◌, inl, inr, Bool, Option, some, Bool-cases, if◌then◌else◌, ◌==◌,
  ◌>>=◌,
}
use mix_t.Labels.Order.{LabelOrder}
use mix_t.Labels.Term.{Label, concrete, temp_label, label_min_of, can_resolve, resolve}
use mix_t.Labels.Meaning.{Env, meet, meaning, min_of_pair, meaning-resolve}

-- The test of the overload for `old_label`.
abbrev pub is_target : ℕ → ℕ → ℕ → ℕ → Bool
is_target target1 target2 s d = s == target1 && d == target2

-- The environment in which the temporary label stands for the concrete one.
abbrev pub assign : {C : Type 0} → ℕ → ℕ → C → Env C → Env C
assign target1 target2 c env s d = if is_target target1 target2 s d then c else env s d

module _ {C : Type 0} where
  abbrev pub IsOpenPair : Label C → Label C → Type 0
  IsOpenPair (concrete _) (concrete _) = ⊥
  IsOpenPair _ _ = Unit

  -- No minimum of two concrete labels is left unresolved.
  abbrev pub IsReduced : Label C → Type 0
  IsReduced (concrete _) = Unit
  IsReduced (temp_label _ _) = Unit
  IsReduced (label_min_of a b) = IsReduced a × IsReduced b × IsOpenPair a b

  -- The temporary label does not occur.
  abbrev pub Avoids : ℕ → ℕ → Label C → Type 0
  Avoids t1 t2 (concrete _) = Unit
  Avoids t1 t2 (temp_label s d) = is_target t1 t2 s d ≡ false
  Avoids t1 t2 (label_min_of a b) = Avoids t1 t2 a × Avoids t1 t2 b

  abbrev IsReducedMin : Label C → Type 0
  IsReducedMin (label_min_of a b) = IsReduced (label_min_of a b)
  IsReducedMin _ = ⊥

  can_resolve-IsReducedMin : (l : Label C) → IsReducedMin l → can_resolve l ≡ some false
  unfolding can_resolve
  can_resolve-IsReducedMin (concrete _) h = absurd h
  can_resolve-IsReducedMin (temp_label _ _) h = absurd h
  can_resolve-IsReducedMin (label_min_of (label_min_of a b) (label_min_of c d)) h = rw (
    can_resolve-IsReducedMin (label_min_of a b) h.0,
    can_resolve-IsReducedMin (label_min_of c d) h.1,
  )
  can_resolve-IsReducedMin (label_min_of (label_min_of a b) (concrete _)) h =
      can_resolve-IsReducedMin (label_min_of a b) h.0
  can_resolve-IsReducedMin (label_min_of (label_min_of a b) (temp_label _ _)) h =
      can_resolve-IsReducedMin (label_min_of a b) h.0
  can_resolve-IsReducedMin (label_min_of (concrete _) (label_min_of a b)) h =
      can_resolve-IsReducedMin (label_min_of a b) h.1
  can_resolve-IsReducedMin (label_min_of (temp_label _ _) (label_min_of a b)) h =
      can_resolve-IsReducedMin (label_min_of a b) h.1
  can_resolve-IsReducedMin (label_min_of (concrete _) (concrete _)) h = absurd h.2
  can_resolve-IsReducedMin (label_min_of (concrete _) (temp_label _ _)) h = refl
  can_resolve-IsReducedMin (label_min_of (temp_label _ _) (concrete _)) h = refl
  can_resolve-IsReducedMin (label_min_of (temp_label _ _) (temp_label _ _)) h = refl

module _ {C : Type 0} ⦃o : LabelOrder C⦄ where
  unfoldable pub label_replace : ℕ → ℕ → C → Label C → Option (Label C)
  label_replace t1 t2 c (concrete l) = some (concrete l)
  label_replace t1 t2 c (temp_label s d) =
      some (if is_target t1 t2 s d then concrete c else temp_label s d)
  label_replace t1 t2 c (label_min_of l r) = do
    l' ← label_replace t1 t2 c l
    r' ← label_replace t1 t2 c r
    resolve 1 (label_min_of l' r')

  -- What resolve() does to a minimum of reduced labels.
  abbrev Resolves : ℕ → ℕ → Label C → Label C → Type 0
  Resolves t1 t2 a b =
      (m : Label C) × (resolve 1 (label_min_of a b) ≡ some m)
      × IsReduced m
      × (Avoids t1 t2 a → Avoids t1 t2 b → Avoids t1 t2 m)

  resolve_reduced : (t1 t2 : ℕ) (a b : Label C) → IsReduced a → IsReduced b → Resolves t1 t2 a b
  unfolding resolve
  resolve_reduced t1 t2 (concrete a) (concrete b) p q =
      (concrete (meet a b), rw (min_of_pair a b), tt, λ _ _. tt)
  resolve_reduced t1 t2 (label_min_of a b) (label_min_of c d) p q = (
    label_min_of (label_min_of a b) (label_min_of c d),
    rw (can_resolve-IsReducedMin (label_min_of (label_min_of a b) (label_min_of c d)) (p, q, tt)),
    (p, q, tt),
    λ x y. (x, y),
  )
  resolve_reduced t1 t2 (label_min_of a b) (concrete c) p q = (
    label_min_of (label_min_of a b) (concrete c),
    rw (can_resolve-IsReducedMin (label_min_of (label_min_of a b) (concrete c)) (p, q, tt)),
    (p, q, tt),
    λ x y. (x, y),
  )
  resolve_reduced t1 t2 (label_min_of a b) (temp_label s d) p q = (
    label_min_of (label_min_of a b) (temp_label s d),
    rw (can_resolve-IsReducedMin (label_min_of (label_min_of a b) (temp_label s d)) (p, q, tt)),
    (p, q, tt),
    λ x y. (x, y),
  )
  resolve_reduced t1 t2 (concrete c) (label_min_of a b) p q = (
    label_min_of (concrete c) (label_min_of a b),
    rw (can_resolve-IsReducedMin (label_min_of (concrete c) (label_min_of a b)) (p, q, tt)),
    (p, q, tt),
    λ x y. (x, y),
  )
  resolve_reduced t1 t2 (temp_label s d) (label_min_of a b) p q = (
    label_min_of (temp_label s d) (label_min_of a b),
    rw (can_resolve-IsReducedMin (label_min_of (temp_label s d) (label_min_of a b)) (p, q, tt)),
    (p, q, tt),
    λ x y. (x, y),
  )
  resolve_reduced t1 t2 (concrete a) (temp_label s d) p q =
      (label_min_of (concrete a) (temp_label s d), refl, (p, q, tt), λ x y. (x, y))
  resolve_reduced t1 t2 (temp_label s d) (concrete a) p q =
      (label_min_of (temp_label s d) (concrete a), refl, (p, q, tt), λ x y. (x, y))
  resolve_reduced t1 t2 (temp_label s d) (temp_label s' d') p q =
      (label_min_of (temp_label s d) (temp_label s' d'), refl, (p, q, tt), λ x y. (x, y))

  -- On a reduced label the replacement compiles, and gives a reduced label in which the target
  -- does not occur and which stands for what the label stands for where the target is the new
  -- label.
  pub label_replace_lem :
      (t1 t2 : ℕ) (c : C) (l : Label C)
      → IsReduced l
      → (m : Label C) × (label_replace t1 t2 c l ≡ some m)
        × IsReduced m
        × Avoids t1 t2 m
        × ((env : Env C) → meaning env m ≡ meaning (assign t1 t2 c env) l)
  unfolding label_replace meaning
  label_replace_lem t1 t2 c (concrete l) h = (_, refl, tt, tt, λ env. refl)
  label_replace_lem t1 t2 c (temp_label s d) h = elim (Bool-cases (is_target t1 t2 s d)) [
    | inl e ↦ (concrete c, rw e, tt, tt, λ env. rw e)
    | inr e ↦ (temp_label s d, rw e, tt, e, λ env. rw e)
  ]
  label_replace_lem t1 t2 c (label_min_of l r) h =
      let (l', p, p1, p2, p3) = label_replace_lem t1 t2 c l h.0 in
      let (r', q, q1, q2, q3) = label_replace_lem t1 t2 c r h.1 in
      let (m, e, e1, e2) = resolve_reduced t1 t2 l' r' p1 q1 in
      (m, rw (p, q) e, e1, e2 p2 q2, λ env. meaning-resolve 1 _ _ env e ∙ rw (p3 env, q3 env))

  pub label_replace-concrete :
      (t1 t2 : ℕ) (c k : C) → label_replace t1 t2 c (concrete k) ≡ some (concrete k)
  unfolding label_replace
  label_replace-concrete t1 t2 c k = refl
