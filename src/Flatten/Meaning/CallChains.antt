-- ===== src/Flatten/Meaning/CallChains.antt =====
-- Laws of the overloads of _flatten_exprs for a call as a statement, and its run
-- (transactions/mtl/flatten_expressions.hpp).
use mix_t.Base.{
  ℕ, zero, suc, ◌+◌, String, false, some, List, ◌>>=◌, >>=-eq-some, some-inj, ◌≡◌, refl, sym, ap,
  ◌∙◌,
}
use mathlib.Core.Path.{fun_ext}
use mix_t.Split.Named.{next_char}
use mix_t.Flatten.Tree.{
  Name, Expression, var_reference, operation, Args, Statement, let_in, let_remote,
  operation_statement, return,
}
use mix_t.Flatten.RemoveLayer.{remove_layer}
use mix_t.Flatten.Hoisting.{bind_layer}
use mix_t.Flatten.Hoisting.Cases.{remove_layer_cases}
use mix_t.Flatten.FlattenExprs.{deeper, flatten_exprs, flatten_operation}
use mix_t.Flatten.Room.Chain.{
  EndsInCall, call, behind_let, behind_remote, Pending, returned, called, flat_let, flat_remote,
  call_layer, flatten_exprs-return,
}
use mix_t.Flatten.Meaning.{Objects, copy, alias, State, scoped, eval, run}
use mix_t.Flatten.Meaning.Scope.{Names, NamesOfStatement, IsOlder, NamesOfStatement-mono}
use mix_t.Flatten.Meaning.Fresh.{later_depth, later_seqnum}
use mix_t.Flatten.Meaning.Steps.{
  next_char-eq-some, layer_name-IsOlder_deeper, layer_name-IsOlder_behind, deeper-eq-some,
  helper-eq-some, layer_Names,
}
use mix_t.Flatten.Meaning.Calls.{ended_run, pending_run, operation_to_statement-run, call_layer-run}

module _ {C V M : Type 0} (o : Objects V M) (k : ℕ) where
  -- A chain keeps what it does while it is flattened.
  flatten_exprs-pending_run :
      (fuel seqnum depth : ℕ) (s t : Statement C) (p : Pending s)
      → flatten_exprs fuel seqnum depth s ≡ some t
      → NamesOfStatement (IsOlder seqnum depth) s
      → (c : EndsInCall t) × ((u : State V M) → ended_run o k t c u ≡ pending_run o k s p u)
  unfolding flatten_exprs
  flatten_exprs-pending_run zero seqnum depth s t p h w = cc
  flatten_exprs-pending_run (suc fuel) seqnum depth _ t (returned n x args vars) h w =
      let r =
        helper-eq-some seqnum depth (flatten_exprs fuel) (λ new. return new)
          (operation n x args vars) t refl h in
      let ih =
        flatten_exprs-pending_run fuel seqnum (depth + 1) (bind_layer seqnum depth r.0 (return r.1))
          t (call_layer seqnum depth n x args vars r.0 r.1 r.2) r.3
          (layer_Names seqnum depth seqnum (depth + 1) (λ new. return new) (operation n x args vars)
            r.0 r.1 r.2 (later_depth seqnum depth) (layer_name-IsOlder_deeper seqnum depth r.0) w
            (λ m. m)) in
      (ih.0, λ u. ih.1 u ∙ call_layer-run o k seqnum depth n x args vars r.0 r.1 r.2 u w)
  flatten_exprs-pending_run (suc fuel) seqnum depth _ t (called m n x args vars v f) h w =
      let j =
        >>=-eq-some (deeper (flatten_exprs fuel) seqnum depth (return (var_reference v)))
          (λ body. some (let_in m (operation n x args vars) body)) (rw f at h) in
      let d = deeper-eq-some seqnum depth (flatten_exprs fuel) (return (var_reference v)) j.0 j.1 in
      rw (sym (some-inj _ _ j.2), sym (flatten_exprs-return fuel seqnum (depth + 1) v j.0 d))
        (call m n x args vars v, λ u. refl)
  flatten_exprs-pending_run (suc fuel) seqnum depth _ t (flat_let m e s f p) h w =
      let j =
        >>=-eq-some (deeper (flatten_exprs fuel) seqnum depth s) (λ body. some (let_in m e body))
          (rw f at h) in
      let ih =
        flatten_exprs-pending_run fuel seqnum (depth + 1) s j.0 p
          (deeper-eq-some seqnum depth (flatten_exprs fuel) s j.0 j.1)
          (NamesOfStatement-mono (IsOlder seqnum depth) (IsOlder seqnum (depth + 1))
            (later_depth seqnum depth) s w.2) in
      rw (sym (some-inj _ _ j.2)) (
        behind_let m e j.0 ih.0,
        λ u. ap (λ g. eval o u e >>= λ v. scoped m (copy v) g u) (fun_ext ih.1),
      )
  flatten_exprs-pending_run (suc fuel) seqnum depth _ t (flat_remote m e s f p) h w =
      let j =
        >>=-eq-some (deeper (flatten_exprs fuel) seqnum depth s)
          (λ body. some (let_remote m e body)) (rw f at h) in
      let ih =
        flatten_exprs-pending_run fuel seqnum (depth + 1) s j.0 p
          (deeper-eq-some seqnum depth (flatten_exprs fuel) s j.0 j.1)
          (NamesOfStatement-mono (IsOlder seqnum depth) (IsOlder seqnum (depth + 1))
            (later_depth seqnum depth) s w.2) in
      rw (sym (some-inj _ _ j.2)) (
        behind_remote m e j.0 ih.0,
        λ u. ap (λ g. eval o u e >>= λ v. scoped m (alias v) g u) (fun_ext ih.1),
      )

  -- The overloads for a call as a statement keep what it does.
  pub flatten_operation-run :
      (fuel seqnum depth : ℕ) (n : String) (x : Expression C) (args : Args C) (vars : List Name)
      (t : Statement C)
      → flatten_operation (flatten_exprs fuel) seqnum depth false n x args vars ≡ some t
      → Names (IsOlder seqnum depth) (operation n x args vars)
      → run o k t ≡ run o k (operation_statement n x args vars)
  flatten_operation-run fuel seqnum depth n x args vars t h w =
      let e = operation n x args vars in
      let r = remove_layer_cases seqnum depth (λ new. return new) e refl in
      let a = >>=-eq-some (remove_layer seqnum depth (λ new. return new) e) _ h in
      let b = >>=-eq-some (next_char seqnum) _ a.2 in
      let c = >>=-eq-some (flatten_exprs fuel b.0 depth a.0) _ b.2 in
      let p =
        flatten_exprs-pending_run fuel (seqnum + 1) depth (bind_layer seqnum depth r.0 (return r.1))
          c.0 (call_layer seqnum depth n x args vars r.0 r.1 r.2)
          (rw (some-inj _ _ (sym r.3 ∙ a.1), next_char-eq-some seqnum b.0 b.1) c.1)
          (layer_Names seqnum depth (seqnum + 1) depth (λ new. return new) e r.0 r.1 r.2
            (later_seqnum seqnum depth) (layer_name-IsOlder_behind seqnum depth r.0) w (λ m. m)) in
      operation_to_statement-run o k c.0 t p.0 c.2
      ∙ fun_ext (λ u. p.1 u ∙ call_layer-run o k seqnum depth n x args vars r.0 r.1 r.2 u w)
