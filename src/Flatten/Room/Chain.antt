-- ===== src/Flatten/Room/Chain.antt =====
-- The chain of Lets that a call is flattened to (transactions/mtl/flatten_expressions.hpp).
use mix_t.Flatten.Room.Remotes.{chain, chain-bind_layer}
use mix_t.Base.{
  ◌≤◌, arith, ℕ, zero, suc, String, true, false, some, List, ◌≡◌, refl, sym, ap, some-inj, ◌∙◌,
  >>=-eq-some,
}
use mix_t.Split.Named.{next_char}
use mix_t.Flatten.Tree.{
  Name, Expression, var_reference, operation, Args, Statement, let_in, let_remote, return,
  is_var_reference, append_var,
}
use mix_t.Flatten.RemoveLayer.{remove_layer}
use mix_t.Flatten.Hoisting.{
  Layer, value, remote, bind_layer, IsOneLayer, Hoists, whole, in_handle, moved, in_arg,
}
use mix_t.Flatten.Hoisting.Cases.{remove_layer_cases, Hoists-layers}
use mix_t.Flatten.FlattenExprs.{
  is_flat, is_let_remote, operation_to_statement, deeper, flatten_exprs,
}

-- A chain of Lets whose last one binds a call that a variable returns.
pub data EndsInCall {C : Type 0} : Statement C → Type 0 where
  call :
      (m : Name) (n : String) (h : Expression C) (args : Args C) (vars : List Name) (v : Name)
      → EndsInCall (let_in m (operation n h args vars) (return (var_reference v)))
  behind_let :
      (m : Name) (e : Expression C) (s : Statement C) → EndsInCall s → EndsInCall (let_in m e s)
  behind_remote :
      (m : Name) (e : Expression C) (s : Statement C) → EndsInCall s → EndsInCall (let_remote m e s)

-- A chain that is being flattened: its last part returns a call, or binds a flat one.
pub data Pending {C : Type 0} : Statement C → Type 0 where
  returned :
      (n : String) (h : Expression C) (args : Args C) (vars : List Name)
      → Pending (return (operation n h args vars))
  called :
      (m : Name) (n : String) (h : Expression C) (args : Args C) (vars : List Name) (v : Name)
      → is_flat (operation n h args vars) ≡ true
      → Pending (let_in m (operation n h args vars) (return (var_reference v)))
  flat_let :
      (m : Name) (e : Expression C) (s : Statement C)
      → is_flat e ≡ true
      → Pending s
      → Pending (let_in m e s)
  flat_remote :
      (m : Name) (e : Expression C) (s : Statement C)
      → is_var_reference e ≡ true
      → Pending s
      → Pending (let_remote m e s)

module _ {C : Type 0} where
  -- A chain that ends in a call and has at most one LetRemote becomes a statement.
  not_remote : (s : Statement C) → EndsInCall s → chain s ≤ 0 → is_let_remote s ≡ false
  not_remote _ (call m n h args vars v) none_left = refl
  not_remote _ (behind_let m e s k) none_left = refl
  not_remote _ (behind_remote m e s k) none_left = absurd (omega arith)

  pub operation_to_statement_total :
      (s : Statement C)
      → EndsInCall s
      → chain s ≤ 1
      → (t : Statement C) × (operation_to_statement s ≡ some t)
  unfolding operation_to_statement
  operation_to_statement_total _ (call m n h args vars v) one = (_, refl)
  operation_to_statement_total _ (behind_let m e s (call n o h args vars v)) one = (_, refl)
  operation_to_statement_total _ (behind_let m e _ (behind_let n d s k)) one =
      let r = operation_to_statement_total (let_in n d s) (behind_let n d s k) one in
      (let_in m e r.0, rw r.1 refl)
  operation_to_statement_total _ (behind_let m e _ (behind_remote n d s k)) one =
      let r = operation_to_statement_total (let_remote n d s) (behind_remote n d s k) one in
      (let_in m e r.0, rw (not_remote s k (omega arith), r.1) refl)
  operation_to_statement_total _ (behind_remote m e s (call n o h args vars v)) one = (_, refl)
  operation_to_statement_total _ (behind_remote m e _ (behind_let n d s k)) one =
      let r = operation_to_statement_total (let_in n d s) (behind_let n d s k) (omega arith) in
      (let_remote m e r.0, rw r.1 refl)
  operation_to_statement_total _ (behind_remote m e _ (behind_remote n d s k)) one =
      absurd (omega arith)

  module _ (seqnum depth : ℕ) where
    unfoldable pub pending_layer :
        (l : Layer C) (s : Statement C)
        → IsOneLayer l
        → Pending s
        → Pending (bind_layer seqnum depth l s)
    pending_layer (value e) s h p = flat_let _ e s h.0 p
    pending_layer (remote e) s h p = flat_remote _ e s h p

    -- Taking a layer out of a returned call leaves a call to return, or binds it.
    unfoldable pub call_layer :
        (n : String) (h : Expression C) (args : Args C) (vars : List Name) (l : Layer C)
        (e' : Expression C)
        → Hoists seqnum depth (operation n h args vars) l e'
        → Pending (bind_layer seqnum depth l (return e'))
    call_layer n h args vars l e' (whole _ f k) = called _ n h args vars _ f
    call_layer n h args vars l e' (in_handle _ _ _ _ _ h' k) =
        pending_layer l _ (Hoists-layers seqnum depth h l h' k).0 (returned n h' args vars)
    call_layer n h args vars l e' (moved _ _ v rest _ _ _ k) =
        call_layer n h rest (append_var vars v) l e' k
    call_layer n h args vars l e' (in_arg _ _ a rest _ _ a' w k) =
        pending_layer l _ (Hoists-layers seqnum depth a l a' k).0 (returned n h _ vars)

  -- flatten_exprs keeps a variable that is returned.
  pub flatten_exprs-return :
      (fuel seqnum depth : ℕ) (v : Name) (t : Statement C)
      → flatten_exprs fuel seqnum depth (return (var_reference v)) ≡ some t
      → return (var_reference v) ≡ t
  unfolding flatten_exprs
  flatten_exprs-return zero seqnum depth v t h = cc
  flatten_exprs-return (suc fuel) seqnum depth v t h = some-inj _ _ h

  -- A flattened chain ends in a call, and has no more objects than before.
  pub flatten_exprs-EndsInCall :
      (fuel seqnum depth : ℕ) (s t : Statement C)
      → Pending s
      → flatten_exprs fuel seqnum depth s ≡ some t
      → EndsInCall t × (chain t ≤ chain s)
  unfolding flatten_exprs
  flatten_exprs-EndsInCall zero seqnum depth s t p h = cc
  flatten_exprs-EndsInCall (suc fuel) seqnum depth _ t (returned n x args vars) h =
      let r = remove_layer_cases seqnum depth (λ new. return new) (operation n x args vars) refl in
      let k =
        >>=-eq-some (remove_layer seqnum depth (λ new. return new) (operation n x args vars))
          (λ s. deeper (flatten_exprs fuel) seqnum depth s) h in
      let d = >>=-eq-some (next_char depth) (λ d. flatten_exprs fuel seqnum d k.0) k.2 in
      let e = some-inj _ _ (sym r.3 ∙ k.1) in
      let c = chain-bind_layer seqnum depth (operation n x args vars) r.0 r.1 r.2 in
      let (ends, shorter) =
        flatten_exprs-EndsInCall fuel seqnum d.0 k.0 t
          (rw (sym e) (call_layer seqnum depth n x args vars r.0 r.1 r.2)) d.2 in
      let same : chain k.0 ≡ chain (bind_layer seqnum depth r.0 (return r.1)) = ap chain (sym e) in
      (ends, omega arith)
  flatten_exprs-EndsInCall (suc fuel) seqnum depth _ t (called m n x args vars v f) h =
      let k =
        >>=-eq-some (deeper (flatten_exprs fuel) seqnum depth (return (var_reference v)))
          (λ body. some (let_in m (operation n x args vars) body)) (rw f at h) in
      let d =
        >>=-eq-some (next_char depth) (λ d. flatten_exprs fuel seqnum d (return (var_reference v)))
          k.1 in
      rw (sym (some-inj _ _ k.2), sym (flatten_exprs-return fuel seqnum d.0 v k.0 d.2))
        (call m n x args vars v, omega arith)
  flatten_exprs-EndsInCall (suc fuel) seqnum depth _ t (flat_let m e s f p) h =
      let k =
        >>=-eq-some (deeper (flatten_exprs fuel) seqnum depth s) (λ body. some (let_in m e body))
          (rw f at h) in
      let d = >>=-eq-some (next_char depth) (λ d. flatten_exprs fuel seqnum d s) k.1 in
      let (ends, shorter) = flatten_exprs-EndsInCall fuel seqnum d.0 s k.0 p d.2 in
      rw (sym (some-inj _ _ k.2)) (behind_let m e k.0 ends, shorter)
  flatten_exprs-EndsInCall (suc fuel) seqnum depth _ t (flat_remote m e s f p) h =
      let k =
        >>=-eq-some (deeper (flatten_exprs fuel) seqnum depth s)
          (λ body. some (let_remote m e body)) (rw f at h) in
      let d = >>=-eq-some (next_char depth) (λ d. flatten_exprs fuel seqnum d s) k.1 in
      let (ends, shorter) = flatten_exprs-EndsInCall fuel seqnum d.0 s k.0 p d.2 in
      rw (sym (some-inj _ _ k.2)) (behind_remote m e k.0 ends, omega arith)
