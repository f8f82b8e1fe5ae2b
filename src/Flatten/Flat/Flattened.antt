-- ===== src/Flatten/Flat/Flattened.antt =====
-- Laws of the overloads of _flatten_exprs and the flat form
-- (transactions/mtl/flatten_expressions.hpp).
use mix_t.Base.{
  ℕ, zero, suc, String, Bool, true, false, Option, some, List, ◌≡◌, refl, sym, some-inj,
  >>=-eq-some, ◌>>=◌,
}
use mix_t.Split.Named.{next_char}
use mix_t.Flatten.Tree.{
  Name, Expression, operation, Args, Statement, let_in, let_remote, operation_statement, assignment,
  return, if_else, while, sequence, Sequence, done, next, is_var_reference,
  contains_fieldpointer_ref,
}
use mix_t.Flatten.RemoveLayer.{remove_layer}
use mix_t.Flatten.FlattenExprs.{
  is_flat, deeper, flatten_exprs_helper, flatten_let, flatten_let_remote, flatten_target,
  flatten_assignment, flatten_return, flatten_while, flatten_if, flatten_operation,
  flatten_sequence, flatten_step, flatten_exprs,
}
use mix_t.Flatten.DesugarWhile.{desugar_while, flatten_expressions}
use mix_t.Flatten.Flat.{
  IsFlat, IsFlatSequence, is_var_reference-IsVariable, is_flat-IsFlatBound, target,
  operation_to_statement-IsFlat,
}

module _ {C : Type 0} where
  -- Whatever tree the call returns is flat.
  abbrev pub GivesFlat : Option (Statement C) → Type 0
  GivesFlat m = (t : Statement C) → m ≡ some t → IsFlat t

  module _ (rec : ℕ → ℕ → Statement C → Option (Statement C))
      (ih : (seqnum depth : ℕ) (s : Statement C) → GivesFlat (rec seqnum depth s))
      (seqnum depth : ℕ) where
    deeper-IsFlat : (s : Statement C) → GivesFlat (deeper rec seqnum depth s)
    deeper-IsFlat s t h =
        let d = >>=-eq-some (next_char depth) (λ d. rec seqnum d s) h in ih seqnum d.0 s t d.2

    helper-IsFlat : (m : Option (Statement C)) → GivesFlat (flatten_exprs_helper rec seqnum depth m)
    helper-IsFlat m t h =
        let s = >>=-eq-some m (λ s. deeper rec seqnum depth s) h in deeper-IsFlat s.0 t s.2

    -- A statement around a flattened body.
    around_body :
        (make : Statement C → Statement C)
        → ((body : Statement C) → IsFlat body → IsFlat (make body))
        → (body : Statement C)
        → GivesFlat (deeper rec seqnum depth body >>= λ body'. some (make body'))
    around_body make f body t h =
        let b = >>=-eq-some (deeper rec seqnum depth body) (λ b. some (make b)) h in
        rw (sym (some-inj _ _ b.2)) (f b.0 (deeper-IsFlat body b.0 b.1))

    flatten_let-IsFlat :
        (b : Bool) (n : Name) (e : Expression C) (body : Statement C)
        → is_flat e ≡ b
        → GivesFlat (flatten_let rec seqnum depth b n e body)
    flatten_let-IsFlat true n e body w =
        around_body (let_in n e) (λ b f. (is_flat-IsFlatBound e w, f)) body
    flatten_let-IsFlat false n e body w =
        helper-IsFlat (remove_layer seqnum depth (λ new. let_in n new body) e)

    flatten_let_remote-IsFlat :
        (b : Bool) (n : Name) (e : Expression C) (body : Statement C)
        → is_var_reference e ≡ b
        → GivesFlat (flatten_let_remote rec seqnum depth b n e body)
    flatten_let_remote-IsFlat true n e body w =
        around_body (let_remote n e) (λ b f. (is_var_reference-IsVariable e w, f)) body
    flatten_let_remote-IsFlat false n e body w =
        helper-IsFlat (remove_layer seqnum depth (λ new. let_remote n new body) e)

    flatten_while-IsFlat :
        (b : Bool) (c : Expression C) (body : Statement C)
        → is_var_reference c ≡ b
        → GivesFlat (flatten_while rec seqnum depth b c body)
    flatten_while-IsFlat true c body w =
        around_body (while c) (λ b f. (is_var_reference-IsVariable c w, f)) body
    flatten_while-IsFlat false c body w =
        helper-IsFlat (remove_layer seqnum depth (λ new. while new body) c)

    flatten_return-IsFlat :
        (b : Bool) (e : Expression C)
        → is_var_reference e ≡ b
        → GivesFlat (flatten_return rec seqnum depth b e)
    flatten_return-IsFlat true e w t h = rw (sym (some-inj _ _ h)) (is_var_reference-IsVariable e w)
    flatten_return-IsFlat false e w t h =
        helper-IsFlat (remove_layer seqnum depth (λ new. return new) e) t h

    flatten_target-IsFlat :
        (b : Bool) (l e : Expression C)
        → contains_fieldpointer_ref l ≡ some b
        → is_var_reference e ≡ true
        → GivesFlat (flatten_target rec seqnum depth b l e)
    flatten_target-IsFlat false l e w v t h =
        rw (sym (some-inj _ _ h)) (target l w, is_var_reference-IsVariable e v)
    flatten_target-IsFlat true l e w v t h =
        helper-IsFlat (remove_layer seqnum depth (λ new. assignment new e) l) t h

    flatten_assignment-IsFlat :
        (b : Bool) (l e : Expression C)
        → is_var_reference e ≡ b
        → GivesFlat (flatten_assignment rec seqnum depth b l e)
    flatten_assignment-IsFlat true l e w t h =
        let b =
          >>=-eq-some (contains_fieldpointer_ref l) (λ b. flatten_target rec seqnum depth b l e)
            h in
        flatten_target-IsFlat b.0 l e b.1 w t b.2
    flatten_assignment-IsFlat false l e w t h =
        helper-IsFlat (remove_layer seqnum depth (λ new. assignment l new) e) t h

    flatten_if-IsFlat :
        (b : Bool) (c : Expression C) (t e : Statement C)
        → is_var_reference c ≡ b
        → GivesFlat (flatten_if rec seqnum depth b c t e)
    flatten_if-IsFlat true c t e w s h =
        let d = >>=-eq-some (next_char depth) _ h in
        let t' = >>=-eq-some (rec seqnum d.0 t) _ d.2 in
        let q = >>=-eq-some (next_char seqnum) _ t'.2 in
        let e' = >>=-eq-some (rec q.0 d.0 e) _ q.2 in
        rw (sym (some-inj _ _ e'.2))
          (is_var_reference-IsVariable c w, ih seqnum d.0 t t'.0 t'.1, ih q.0 d.0 e e'.0 e'.1)
    flatten_if-IsFlat false c t e w s h =
        helper-IsFlat (remove_layer seqnum depth (λ new. if_else new t e) c) s h

    flatten_operation-IsFlat :
        (b : Bool) (n : String) (x : Expression C) (args : Args C) (vars : List Name)
        → is_flat (operation n x args vars) ≡ b
        → GivesFlat (flatten_operation rec seqnum depth b n x args vars)
    flatten_operation-IsFlat true n x args vars w t h =
        rw (sym (some-inj _ _ h)) (is_flat-IsFlatBound (operation n x args vars) w)
    flatten_operation-IsFlat false n x args vars w t h =
        let p =
          >>=-eq-some (remove_layer seqnum depth (λ new. return new) (operation n x args vars)) _
            h in
        let q = >>=-eq-some (next_char seqnum) _ p.2 in
        let s = >>=-eq-some (rec q.0 depth p.0) _ q.2 in
        operation_to_statement-IsFlat s.0 t (ih q.0 depth p.0 s.0 s.1) s.2

  module _ (rec : ℕ → ℕ → Statement C → Option (Statement C))
      (ih : (seqnum depth : ℕ) (s : Statement C) → GivesFlat (rec seqnum depth s)) where
    flatten_sequence-IsFlat :
        (seqnum depth : ℕ) (ss ts : Sequence C)
        → flatten_sequence rec seqnum depth ss ≡ some ts
        → IsFlatSequence ts
    flatten_sequence-IsFlat seqnum depth done ts h = rw (sym (some-inj _ _ h)) tt
    flatten_sequence-IsFlat seqnum depth (next s ss) ts h =
        let s' = >>=-eq-some (rec seqnum depth s) _ h in
        let q = >>=-eq-some (next_char seqnum) _ s'.2 in
        let ss' = >>=-eq-some (flatten_sequence rec q.0 depth ss) _ q.2 in
        rw (sym (some-inj _ _ ss'.2))
          (ih seqnum depth s s'.0 s'.1, flatten_sequence-IsFlat q.0 depth ss ss'.0 ss'.1)

    flatten_step-IsFlat :
        (seqnum depth : ℕ) (s : Statement C) → GivesFlat (flatten_step rec seqnum depth s)
    flatten_step-IsFlat seqnum depth (let_in n e body) r h =
        flatten_let-IsFlat rec ih seqnum depth (is_flat e) n e body refl r h
    flatten_step-IsFlat seqnum depth (let_remote n e body) r h =
        flatten_let_remote-IsFlat rec ih seqnum depth (is_var_reference e) n e body refl r h
    flatten_step-IsFlat seqnum depth (operation_statement n x args vars) r h =
        flatten_operation-IsFlat rec ih seqnum depth (is_flat (operation n x args vars)) n x args
          vars refl r h
    flatten_step-IsFlat seqnum depth (assignment l e) r h =
        flatten_assignment-IsFlat rec ih seqnum depth (is_var_reference e) l e refl r h
    flatten_step-IsFlat seqnum depth (return e) r h =
        flatten_return-IsFlat rec ih seqnum depth (is_var_reference e) e refl r h
    flatten_step-IsFlat seqnum depth (if_else c t e) r h =
        flatten_if-IsFlat rec ih seqnum depth (is_var_reference c) c t e refl r h
    flatten_step-IsFlat seqnum depth (while c body) r h =
        flatten_while-IsFlat rec ih seqnum depth (is_var_reference c) c body refl r h
    flatten_step-IsFlat seqnum depth (sequence ss) t h =
        let k = >>=-eq-some (flatten_sequence rec seqnum depth ss) _ h in
        rw (sym (some-inj _ _ k.2)) (flatten_sequence-IsFlat seqnum depth ss k.0 k.1)

  -- What flatten_exprs returns is flat, at every seqnum and depth and on any fuel.
  pub flatten_exprs-IsFlat :
      (fuel seqnum depth : ℕ) (s t : Statement C)
      → flatten_exprs fuel seqnum depth s ≡ some t
      → IsFlat t
  unfolding flatten_exprs
  flatten_exprs-IsFlat zero seqnum depth s t h = cc
  flatten_exprs-IsFlat (suc fuel) seqnum depth s t h =
      flatten_step-IsFlat (flatten_exprs fuel) (flatten_exprs-IsFlat fuel) seqnum depth s t h

  -- The whole pass: a tree that flatten_expressions returns is flat. Every statement of it works on
  -- variables, a Let binds a constant or one operation on variables, and only a LetRemote follows
  -- a handle.
  pub flatten_expressions-IsFlat :
      (fuel : ℕ) (s t : Statement C) → flatten_expressions fuel s ≡ some t → IsFlat t
  unfolding flatten_expressions
  flatten_expressions-IsFlat fuel s t h =
      let d = >>=-eq-some (desugar_while 1 1 s) (λ s'. flatten_exprs fuel 1 1 s') h in
      flatten_exprs-IsFlat fuel 1 1 d.0 t d.2
