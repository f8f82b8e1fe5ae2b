-- ===== src/Flatten/Meaning/Helpers.antt =====
-- Laws of _flatten_exprs_helper and the runs of a tree
-- (transactions/mtl/flatten_expressions.hpp).
use mix_t.Base.{
  ℕ, ◌+◌, true, false, Option, none, some, ◌>>=◌, >>=-eq-some, some-inj, ◌≡◌, sym, ap, ◌∙◌,
}
use mathlib.Core.Path.{fun_ext}
use mix_t.Flatten.Tree.{
  Expression, Statement, let_in, let_remote, operation_statement, assignment, return, if_else,
  while, sequence, Sequence, done, next, is_var_reference,
}
use mix_t.Flatten.RemoveLayer.{remove_layer}
use mix_t.Flatten.Hoisting.{Layer, layer_name, bind_layer, Hoists}
use mix_t.Flatten.FlattenExprs.{deeper, flatten_exprs_helper}
use mix_t.Flatten.Meaning.{Objects, Slot, State, eval, run}
use mix_t.Flatten.Meaning.Scope.{Names, NamesOfStatement, Avoids, IsOlder, NamesOfStatement-mono}
use mix_t.Flatten.Meaning.Fresh.{later_depth, layer_name_fresh, layer-Avoids}
use mix_t.Flatten.Meaning.Layers.{layer_slot, Hoists-eval, Hoists-strict}
use mix_t.Flatten.Meaning.Bound.{run-bind_layer_same}
use mix_t.Flatten.Meaning.Steps.{
  layer_name-IsOlder_deeper, deeper-eq-some, helper-eq-some, layer_Names,
}

module _ {C : Type 0} where
  -- Each loop is on a variable, as desugar_while leaves it.
  abbrev mutual
    pub LoopsOnVariables : Statement C → Type 0
    LoopsOnVariables (let_in n e body) = LoopsOnVariables body
    LoopsOnVariables (let_remote n e body) = LoopsOnVariables body
    LoopsOnVariables (operation_statement n h args vars) = Unit
    LoopsOnVariables (assignment l e) = Unit
    LoopsOnVariables (return e) = Unit
    LoopsOnVariables (if_else c t e) = LoopsOnVariables t × LoopsOnVariables e
    LoopsOnVariables (while c body) = (is_var_reference c ≡ true) × LoopsOnVariables body
    LoopsOnVariables (sequence ss) = LoopsOnVariablesSequence ss

    pub LoopsOnVariablesSequence : Sequence C → Type 0
    LoopsOnVariablesSequence done = Unit
    LoopsOnVariablesSequence (next s ss) = LoopsOnVariables s × LoopsOnVariablesSequence ss

  bind_layer-Loops :
      (seqnum depth : ℕ) (l : Layer C) (s : Statement C)
      → LoopsOnVariables s
      → LoopsOnVariables (bind_layer seqnum depth l s)
  bind_layer-Loops seqnum depth (Layer.value e) s h = h
  bind_layer-Loops seqnum depth (Layer.remote e) s h = h

module _ {C V M : Type 0} (o : Objects V M) (k : ℕ) where
  -- Whatever tree the call returns runs as `s`.
  abbrev pub RunsAs : Statement C → Option (Statement C) → Type 0
  RunsAs s m = (t : Statement C) → m ≡ some t → run o k t ≡ run o k s

  module _ (rec : ℕ → ℕ → Statement C → Option (Statement C))
      (ih : (seqnum depth : ℕ) (s : Statement C)
        → NamesOfStatement (IsOlder seqnum depth) s
        → LoopsOnVariables s
        → RunsAs s (rec seqnum depth s))
      (seqnum depth : ℕ) where
    pub deeper-RunsAs :
        (s : Statement C)
        → NamesOfStatement (IsOlder seqnum depth) s
        → LoopsOnVariables s
        → RunsAs s (deeper rec seqnum depth s)
    deeper-RunsAs s w v t h =
        ih seqnum (depth + 1) s
          (NamesOfStatement-mono (IsOlder seqnum depth) (IsOlder seqnum (depth + 1))
            (later_depth seqnum depth) s w)
          v t (deeper-eq-some seqnum depth rec s t h)

    -- The overloads that take a layer out of the expression `e` of a statement.
    pub helper-RunsAs :
        (Sub : Expression C → Statement C) (e : Expression C)
        → is_var_reference e ≡ false
        → NamesOfStatement (IsOlder seqnum depth) (Sub e)
        → Names (IsOlder seqnum depth) e
        → ((e' : Expression C)
            → Names (IsOlder seqnum (depth + 1)) e'
            → NamesOfStatement (IsOlder seqnum (depth + 1)) (Sub e'))
        → ((e' : Expression C) → LoopsOnVariables (Sub e'))
        → ((u : State V M) (l : Layer C) (e' : Expression C) (x : Slot V)
            → u.env (layer_name seqnum depth l) ≡ some x
            → layer_slot o u l ≡ some x
            → Hoists seqnum depth e l e'
            → run o k (Sub e') u ≡ run o k (Sub e) u)
        → ((u : State V M) (l : Layer C) (e' : Expression C)
            → layer_slot o u l ≡ none
            → Hoists seqnum depth e l e'
            → run o k (Sub e) u ≡ none)
        → RunsAs (Sub e) (flatten_exprs_helper rec seqnum depth (remove_layer seqnum depth Sub e))
    helper-RunsAs Sub e v w n f g same strict t h =
        let r = helper-eq-some seqnum depth rec Sub e t v h in
        ih seqnum (depth + 1) (bind_layer seqnum depth r.0 (Sub r.1))
          (layer_Names seqnum depth seqnum (depth + 1) Sub e r.0 r.1 r.2 (later_depth seqnum depth)
            (layer_name-IsOlder_deeper seqnum depth r.0) n (f r.1))
          (bind_layer-Loops seqnum depth r.0 (Sub r.1) (g r.1)) t r.3
        ∙ fun_ext (λ u.
          run-bind_layer_same o seqnum depth k r.0 (Sub r.1) (Sub e) u
            (layer-Avoids seqnum depth e r.0 r.1 r.2 n)
            (NamesOfStatement-mono (IsOlder seqnum depth) (Avoids (layer_name seqnum depth r.0))
              (layer_name_fresh seqnum depth r.0) (Sub e) w)
            (λ y x p q. same y r.0 r.1 x p q r.2) (λ y q. strict y r.0 r.1 q r.2))

    -- The same, for a statement that evaluates the expression first.
    pub first-RunsAs :
        (Sub : Expression C → Statement C) (e : Expression C)
        (after : V → State V M → Option (State V M))
        → ((e' : Expression C) (u : State V M)
            → run o k (Sub e') u ≡ (eval o u e' >>= λ v. after v u))
        → is_var_reference e ≡ false
        → NamesOfStatement (IsOlder seqnum depth) (Sub e)
        → Names (IsOlder seqnum depth) e
        → ((e' : Expression C)
            → Names (IsOlder seqnum (depth + 1)) e'
            → NamesOfStatement (IsOlder seqnum (depth + 1)) (Sub e'))
        → ((e' : Expression C) → LoopsOnVariables (Sub e'))
        → RunsAs (Sub e) (flatten_exprs_helper rec seqnum depth (remove_layer seqnum depth Sub e))
    first-RunsAs Sub e after a v w n f g =
        helper-RunsAs Sub e v w n f g
          (λ u l e' x p q h.
            a e' u
            ∙ ap (λ m. m >>= λ y. after y u) (Hoists-eval o seqnum depth u e l e' x p q h)
            ∙ sym (a e u))
          (λ u l e' q h.
            a e u ∙ ap (λ m. m >>= λ y. after y u) (Hoists-strict o seqnum depth u e l e' q h))

    -- A statement around a flattened body.
    pub around-RunsAs :
        (make : Statement C → Statement C)
        → ((s t : Statement C) → run o k t ≡ run o k s → run o k (make t) ≡ run o k (make s))
        → (body : Statement C) → NamesOfStatement (IsOlder seqnum depth) body
        → LoopsOnVariables body
        → RunsAs (make body) (deeper rec seqnum depth body >>= λ body'. some (make body'))
    around-RunsAs make f body w v t h =
        let b = >>=-eq-some (deeper rec seqnum depth body) (λ b. some (make b)) h in
        rw (sym (some-inj _ _ b.2)) (f body b.0 (deeper-RunsAs body w v b.0 b.1))
