-- ===== src/Flatten/Meaning/Fresh.antt =====
-- Laws of the names that flattening generates (transactions/mtl/flatten_expressions.hpp).
use mix_t.Base.{
  ◌≢◌, ℕ, String, Bool, ◌+◌, sym, true, List, [], ◌∷◌, All-append, ◌≡◌, refl, ap₂, inl, inr, ◌==◌,
  ◌&&◌, arith,
}
use mix_t.Flatten.Tree.{
  Name, anorm, remote_bound_tmp, while_name, true_name, false_name, Expression, field_reference,
  dereference, var_reference, operation, Args, arg, append_var,
}
use mix_t.Flatten.Hoisting.{
  Layer, value, remote, layer_name, Hoists, whole, whole_remote, arrow, in_field, in_dereference,
  in_is_valid, in_endorse, in_ensure, in_left, in_right, in_handle, moved, in_arg,
}
use mix_t.Flatten.Meaning.{same_name}
use mix_t.Flatten.Meaning.Scope.{Names, NamesOfLayer, Names-mono, IsOlder, Before, Avoids}

first_equal : (a b : ℕ) (r : Bool) → ((a == b) && r) ≡ true → (a ≡ b) × (r ≡ true)
first_equal a b r h = ground arith

self_equal : (a : ℕ) (r : Bool) → r ≡ true → ((a == a) && r) ≡ true
self_equal a r h = ground arith

-- same_name decides whether two names are the same.
pub same_name-true : (m n : Name) → same_name m n ≡ true → m ≡ n
same_name-true [] [] h = refl
same_name-true [] (b ∷ n) h = cc
same_name-true (a ∷ m) [] h = cc
same_name-true (a ∷ m) (b ∷ n) h =
    let k = first_equal a b (same_name m n) h in ap₂ ◌∷◌ k.0 (same_name-true m n k.1)

pub same_name_refl : (n : Name) → same_name n n ≡ true
same_name_refl [] = refl
same_name_refl (a ∷ n) = self_equal a (same_name n n) (same_name_refl n)

seqnum_step : (q d seqnum depth : ℕ) → Before q d seqnum depth → Before q d (seqnum + 1) depth
seqnum_step q d seqnum depth (inl h) = inl h
seqnum_step q d seqnum depth (inr h) = let (_, k) = h in inr (h.0, omega arith)

depth_step : (q d seqnum depth : ℕ) → Before q d seqnum depth → Before q d seqnum (depth + 1)
depth_step q d seqnum depth (inl h) = inl (omega arith)
depth_step q d seqnum depth (inr h) = let (k, _) = h in inl (omega arith)

not_itself : (seqnum depth : ℕ) → ¬ Before seqnum depth seqnum depth
not_itself seqnum depth (inl h) = omega arith
not_itself seqnum depth (inr h) = let (_, k) = h in omega arith

-- A generated name before another position is before the next positions too.
pub later_seqnum :
    (seqnum depth : ℕ) (n : Name) → IsOlder seqnum depth n → IsOlder (seqnum + 1) depth n
later_seqnum seqnum depth n h q d e = seqnum_step q d seqnum depth (h q d e)

pub later_depth :
    (seqnum depth : ℕ) (n : Name) → IsOlder seqnum depth n → IsOlder seqnum (depth + 1) n
later_depth seqnum depth n h q d e = depth_step q d seqnum depth (h q d e)

pub anorm-IsOlder :
    (q d seqnum depth : ℕ) → Before q d seqnum depth → IsOlder seqnum depth (anorm q d)
anorm-IsOlder q d seqnum depth h a b (inl e) =
    let k : q ≡ a = cc in let l : d ≡ b = cc in rw (sym k, sym l) h
anorm-IsOlder q d seqnum depth h a b (inr e) = absurd cc

pub remote_bound_tmp-IsOlder :
    (q d seqnum depth : ℕ) → Before q d seqnum depth → IsOlder seqnum depth (remote_bound_tmp q d)
remote_bound_tmp-IsOlder q d seqnum depth h a b (inl e) = absurd cc
remote_bound_tmp-IsOlder q d seqnum depth h a b (inr e) =
    let k : q ≡ a = cc in let l : d ≡ b = cc in rw (sym k, sym l) h

first_characters : (a b : ℕ) (m n : Name) → a ≢ b → (a ∷ m) ≢ (b ∷ n)
first_characters a b m n h e = h cc

pub while_name-IsOlder : (q d seqnum depth : ℕ) → IsOlder seqnum depth (while_name q d)
while_name-IsOlder q d seqnum depth a b (inl e) =
    absurd (first_characters 119 97 _ _ (omega arith) e)
while_name-IsOlder q d seqnum depth a b (inr e) = absurd cc

pub true_name-IsOlder : (seqnum depth : ℕ) → IsOlder seqnum depth true_name
true_name-IsOlder seqnum depth a b (inl e) = absurd cc
true_name-IsOlder seqnum depth a b (inr e) = absurd cc

pub false_name-IsOlder : (seqnum depth : ℕ) → IsOlder seqnum depth false_name
false_name-IsOlder seqnum depth a b (inl e) = absurd cc
false_name-IsOlder seqnum depth a b (inr e) = absurd cc

module _ {C : Type 0} where
  pub moved-Names :
      (P : Name → Type 0) (n : String) (x : Expression C) (v : Name) (args : Args C)
      (vars : List Name)
      → Names P (operation n x (arg (var_reference v) args) vars)
      → Names P (operation n x args (append_var vars v))
  moved-Names P n x v args vars h = (h.0, h.1.1, (All-append P vars (v ∷ [])).1 (h.2, (h.1.0, tt)))

module _ {C : Type 0} (seqnum depth : ℕ) where
  -- The name of a layer stands nowhere in a tree of older names.
  pub layer_name_fresh :
      (l : Layer C) (n : Name) → IsOlder seqnum depth n → Avoids (layer_name seqnum depth l) n
  layer_name_fresh (value x) n h e = not_itself seqnum depth (h seqnum depth (inl e))
  layer_name_fresh (remote x) n h e = not_itself seqnum depth (h seqnum depth (inr e))

  -- Taking a layer out brings in no name but the layer's own.
  pub Hoists-Names :
      (P : Name → Type 0) (e : Expression C) (l : Layer C) (e' : Expression C)
      → Hoists seqnum depth e l e'
      → P (layer_name seqnum depth l)
      → Names P e
      → NamesOfLayer P l × Names P e'
  Hoists-Names P _ _ _ (whole x h k) p n = (n, p)
  Hoists-Names P _ _ _ (whole_remote x h) p n = (n, p)
  Hoists-Names P _ _ _ (arrow x f l x' h) p n =
      Hoists-Names P (field_reference (dereference x) f) l x' h p n
  Hoists-Names P _ _ _ (in_field x f l x' h) p n = Hoists-Names P x l x' h p n
  Hoists-Names P _ _ _ (in_dereference x l x' h) p n = Hoists-Names P x l x' h p n
  Hoists-Names P _ _ _ (in_is_valid x l x' h) p n = Hoists-Names P x l x' h p n
  Hoists-Names P _ _ _ (in_endorse c x l x' h) p n = Hoists-Names P x l x' h p n
  Hoists-Names P _ _ _ (in_ensure c x l x' h) p n = Hoists-Names P x l x' h p n
  Hoists-Names P _ _ _ (in_left op L R l L' h) p n =
      let r = Hoists-Names P L l L' h p n.0 in (r.0, (r.1, n.1))
  Hoists-Names P _ _ _ (in_right op L R l R' w h) p n =
      let r = Hoists-Names P R l R' h p n.1 in (r.0, (n.0, r.1))
  Hoists-Names P _ _ _ (in_handle m x args vars l x' h) p n =
      let r = Hoists-Names P x l x' h p n.0 in (r.0, (r.1, n.1, n.2))
  Hoists-Names P _ _ _ (moved m x v args vars l x' h) p n =
      Hoists-Names P (operation m x args (append_var vars v)) l x' h p
        (moved-Names P m x v args vars n)
  Hoists-Names P _ _ _ (in_arg m x a args vars l a' w h) p n =
      let r = Hoists-Names P a l a' h p n.1.0 in (r.0, (n.0, (r.1, n.1.1), n.2))

  -- The layer has only names that stood in the tree.
  pub Hoists-NamesOfLayer :
      (P : Name → Type 0) (e : Expression C) (l : Layer C) (e' : Expression C)
      → Hoists seqnum depth e l e'
      → Names P e
      → NamesOfLayer P l
  Hoists-NamesOfLayer P _ _ _ (whole x h k) n = n
  Hoists-NamesOfLayer P _ _ _ (whole_remote x h) n = n
  Hoists-NamesOfLayer P _ _ _ (arrow x f l x' h) n =
      Hoists-NamesOfLayer P (field_reference (dereference x) f) l x' h n
  Hoists-NamesOfLayer P _ _ _ (in_field x f l x' h) n = Hoists-NamesOfLayer P x l x' h n
  Hoists-NamesOfLayer P _ _ _ (in_dereference x l x' h) n = Hoists-NamesOfLayer P x l x' h n
  Hoists-NamesOfLayer P _ _ _ (in_is_valid x l x' h) n = Hoists-NamesOfLayer P x l x' h n
  Hoists-NamesOfLayer P _ _ _ (in_endorse c x l x' h) n = Hoists-NamesOfLayer P x l x' h n
  Hoists-NamesOfLayer P _ _ _ (in_ensure c x l x' h) n = Hoists-NamesOfLayer P x l x' h n
  Hoists-NamesOfLayer P _ _ _ (in_left op L R l L' h) n = Hoists-NamesOfLayer P L l L' h n.0
  Hoists-NamesOfLayer P _ _ _ (in_right op L R l R' w h) n = Hoists-NamesOfLayer P R l R' h n.1
  Hoists-NamesOfLayer P _ _ _ (in_handle m x args vars l x' h) n =
      Hoists-NamesOfLayer P x l x' h n.0
  Hoists-NamesOfLayer P _ _ _ (moved m x v args vars l x' h) n =
      Hoists-NamesOfLayer P (operation m x args (append_var vars v)) l x' h
        (moved-Names P m x v args vars n)
  Hoists-NamesOfLayer P _ _ _ (in_arg m x a args vars l a' w h) n =
      Hoists-NamesOfLayer P a l a' h n.1.0

  -- The names of a layer other than its own are all older.
  pub layer-Avoids :
      (e : Expression C) (l : Layer C) (e' : Expression C)
      → Hoists seqnum depth e l e'
      → Names (IsOlder seqnum depth) e
      → NamesOfLayer (Avoids (layer_name seqnum depth l)) l
  layer-Avoids e l e' h n = Hoists-NamesOfLayer (Avoids (layer_name seqnum depth l)) e l e' h (
      Names-mono (IsOlder seqnum depth) (Avoids (layer_name seqnum depth l)) (layer_name_fresh l) e
        n)
