-- ===== src/Labels/Term.antt =====
-- The labels of transactions/mtl/top.hpp: concrete ones, labels not inferred yet (temp_label) and
-- minima of two labels that are still open (label_min_of), with can_resolve() and resolve() of
-- the specialisations of `Label<label_min_of<l, r>>`.
use mix_t.Base.{
  ℕ, zero, suc, Bool, false, ◌||◌, ◌&&◌, Option, none, some, [], ◌∷◌, ◌==◌, if◌then◌else◌, ◌>>=◌,
}
use mix_t.Labels.Order.{LabelOrder, min_of}

pub data Label (C : Type 0) : Type 0 where
  concrete : C → Label C
  temp_label : ℕ → ℕ → Label C
  label_min_of : Label C → Label C → Label C

module _ {C : Type 0} where
  -- can_resolve() of `Label<label_min_of<a, b>>`, from can_resolve() of `a` and of `b`. The
  -- specialisation for two concrete labels has no such member.
  sides_can_resolve : Label C → Label C → Option Bool → Option Bool → Option Bool
  sides_can_resolve (label_min_of _ _) (label_min_of _ _) ca cb = do a ← ca; b ← cb; some (a || b)
  sides_can_resolve (label_min_of _ _) _ ca cb = ca
  sides_can_resolve _ (label_min_of _ _) ca cb = cb
  sides_can_resolve (concrete _) (concrete _) ca cb = none
  sides_can_resolve _ _ ca cb = some false

  -- `none`: the label has no such member, and its use does not compile.
  unfoldable pub can_resolve : Label C → Option Bool
  unfolding sides_can_resolve
  can_resolve (concrete _) = none
  can_resolve (temp_label _ _) = none
  can_resolve (label_min_of a b) = sides_can_resolve a b (can_resolve a) (can_resolve b)

  -- The choice between the overloads resolve(std::true_type*) and resolve(std::false_type*).
  abbrev pub choose : Option Bool → Option (Label C) → Label C → Option (Label C)
  choose can resolved self = do c ← can; if c then resolved else some self

module _ {C : Type 0} ⦃o : LabelOrder C⦄ where
  -- resolve(). Its recursion is not structural, so it runs on fuel; `none` is a program that does
  -- not compile.
  unfoldable pub resolve : ℕ → Label C → Option (Label C)
  resolve zero l = none
  resolve (suc f) (concrete _) = none
  resolve (suc f) (temp_label _ _) = none
  resolve (suc f) (label_min_of (concrete a) (concrete b)) = do
    m ← min_of a (b ∷ [])
    some (concrete m)
  resolve (suc f) (label_min_of (label_min_of l1 l2) (label_min_of r1 r2)) =
      choose (can_resolve (label_min_of (label_min_of l1 l2) (label_min_of r1 r2)))
        (resolve f (label_min_of l1 l2) >>= λ l.
          resolve f (label_min_of r1 r2) >>= λ r. resolve f (label_min_of l r))
        (label_min_of (label_min_of l1 l2) (label_min_of r1 r2))
  resolve (suc f) (label_min_of (label_min_of l1 l2) r) =
      choose (can_resolve (label_min_of (label_min_of l1 l2) r))
        (resolve f (label_min_of l1 l2) >>= λ l. resolve f (label_min_of l r))
        (label_min_of (label_min_of l1 l2) r)
  resolve (suc f) (label_min_of r (label_min_of l1 l2)) =
      choose (can_resolve (label_min_of r (label_min_of l1 l2)))
        (resolve f (label_min_of l1 l2) >>= λ l. resolve f (label_min_of l r))
        (label_min_of r (label_min_of l1 l2))
  resolve (suc f) (label_min_of l r) = some (label_min_of l r)

  -- std::is_same on two labels.
  abbrev pub is_same_label : Label C → Label C → Bool
  is_same_label (concrete a) (concrete b) = o.is_same a b
  is_same_label (temp_label s d) (temp_label s' d') = s == s' && d == d'
  is_same_label (label_min_of a b) (label_min_of a' b') = is_same_label a a' && is_same_label b b'
  is_same_label _ _ = false

  -- resolved_label_min: the resolution is instantiated whatever the test says.
  unfoldable pub resolved_label_min : Label C → Label C → Option (Label C)
  resolved_label_min l r = do
    m ← resolve 1 (label_min_of l r)
    some (
        if is_same_label l (concrete o.bottom) || is_same_label r (concrete o.bottom)
        then concrete o.bottom
        else m)
