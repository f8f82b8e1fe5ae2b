-- ===== src/Flatten/Meaning.antt =====
-- What a parsed tree means when it runs, to compare it with the flattened one. A LetRemote makes
-- its name stand for the object behind a handle; a Let makes it a copy.
pub mod Scope
pub mod Fresh
pub mod Weakening
pub mod RunWeakening
pub mod Layers
pub mod Targets
pub mod Bound
pub mod Calls
pub mod Steps
pub mod CallChains
pub mod Helpers
pub mod Overloads
pub mod Flattened
pub mod Untouched
pub mod Loops
pub mod Source
use mix_t.Base.{
  ℕ, zero, suc, ℤ, String, Bool, true, false, Option, none, some, List, [], ◌∷◌, ◌++◌, ◌>>=◌, ◌==◌,
  ◌≡◌, ◌&&◌, if◌then◌else◌,
}
use text.Mathlib.Text.{◌==◌ as str_eq}
use mix_t.Ast.{Operator}
use mix_t.Flatten.Tree.{
  Name, anorm, remote_bound_tmp, while_name, Expression, field_reference, field_pointer_reference,
  dereference, endorse, ensure, is_valid, var_reference, constant, bin_op, operation, Args, no_args,
  arg, Statement, let_in, let_remote, operation_statement, assignment, return, if_else, while,
  sequence, Sequence, done, next,
}

-- The values and the stores, and what the operations do with them. `read` follows a handle.
pub record Objects (V M : Type 0) : Type 0 where
  pub truth : V → Bool
  pub literal : ℤ → V
  pub apply : Operator → V → V → Option V
  pub field : V → String → Option V
  pub set_field : V → String → V → Option V
  pub read : M → V → Option V
  pub write : M → V → V → Option M
  pub validity : M → V → Option V
  -- An operation on an object, with its effect and its value; a new handle is made by one too.
  pub act : M → String → V → List V → Option (M × V)
  -- The operations that only look at the store.
  pub is_query : String → Bool
  pub query_keeps :
      (n : String)
      → is_query n ≡ true
      → (m : M) (x : V) (vs : List V) (r : M × V) → act m n x vs ≡ some r
      → r.0 ≡ m

module _ {V M : Type 0} (o : Objects V M) where
  -- An operation in an expression: one that may change the store has no meaning here.
  unfoldable pub invoke : M → String → V → List V → Option V
  invoke m n x vs = if o.is_query n then o.act m n x vs >>= (λ r. some r.1) else none

  -- An operation that is a statement.
  unfoldable pub perform : M → String → V → List V → Option M
  perform m n x vs = o.act m n x vs >>= λ r. some r.0

abbrev pub same_name : Name → Name → Bool
same_name [] [] = true
same_name (a ∷ m) (b ∷ n) = (a == b) && same_name m n
same_name _ _ = false

-- A variable holds a value, or stands for the object behind a handle.
pub data Slot (V : Type 0) : Type 0 where
  copy : V → Slot V
  alias : V → Slot V

pub record State (V M : Type 0) : Type 0 where
  pub store : M
  pub env : Name → Option (Slot V)
  pub result : Option V

module _ {V : Type 0} where
  abbrev pub set_env : Name → Option (Slot V) → (Name → Option (Slot V)) → Name → Option (Slot V)
  set_env g x env n = if same_name n g then x else env n

module _ {V M : Type 0} where
  abbrev pub put : Name → Option (Slot V) → State V M → State V M
  put g x s = record { store = s.store; env = set_env g x s.env; result = s.result }

  abbrev pub with_store : M → State V M → State V M
  with_store m s = record { store = m; env = s.env; result = s.result }

  abbrev pub with_result : V → State V M → State V M
  with_result v s = record { store = s.store; env = s.env; result = some v }

  -- The body of a Let: the name is bound in it, and what it stood for before is there again after.
  abbrev pub scoped :
      Name → Slot V → (State V M → Option (State V M)) → State V M → Option (State V M)
  scoped n x run s = run (put n (some x) s) >>= λ t. some (put n (s.env n) t)

  abbrev pub choose : Bool → Option (State V M) → Option (State V M) → Option (State V M)
  choose true a b = a
  choose false a b = b

  -- At most so many rounds.
  abbrev pub loop :
      ℕ
      → (State V M → Option Bool)
      → (State V M → Option (State V M))
      → State V M
      → Option (State V M)
  loop zero test body s = none
  loop (suc k) test body s = test s >>= λ b. choose b (body s >>= λ t. loop k test body t) (some s)

module _ {V M : Type 0} (o : Objects V M) where
  abbrev pub look_slot : M → Option (Slot V) → Option V
  look_slot m none = none
  look_slot m (some (copy v)) = some v
  look_slot m (some (alias h)) = o.read m h

  abbrev pub look : State V M → Name → Option V
  look s n = look_slot s.store (s.env n)

  abbrev pub look_all : State V M → List Name → Option (List V)
  look_all s [] = some []
  look_all s (v ∷ vs) = do x ← look s v; xs ← look_all s vs; some (x ∷ xs)

  abbrev pub assign_slot : State V M → Name → Option (Slot V) → V → Option (State V M)
  assign_slot s n none v = none
  assign_slot s n (some (copy old)) v = some (put n (some (copy v)) s)
  assign_slot s n (some (alias h)) v = o.write s.store h v >>= λ m. some (with_store m s)

module _ {C V M : Type 0} (o : Objects V M) where
  unfoldable mutual
    pub eval : State V M → Expression C → Option V
    eval s (var_reference v) = look o s v
    eval s (constant i) = some (o.literal i)
    eval s (field_reference e f) = eval s e >>= λ v. o.field v f
    eval s (field_pointer_reference e f) = (eval s e >>= λ h. o.read s.store h) >>= λ v. o.field v f
    eval s (dereference e) = eval s e >>= λ h. o.read s.store h
    eval s (is_valid e) = eval s e >>= λ h. o.validity s.store h
    eval s (endorse l e) = eval s e
    eval s (ensure l e) = eval s e
    eval s (bin_op op L R) = eval s L >>= λ a. eval s R >>= λ b. o.apply op a b
    eval s (operation n h args vars) = eval s h >>= λ x.
        look_all o s vars >>= λ vs. eval_args s args >>= λ es. invoke o s.store n x (vs ++ es)

    pub eval_args : State V M → Args C → Option (List V)
    eval_args s no_args = some []
    eval_args s (arg e es) = eval s e >>= λ x. eval_args s es >>= λ xs. some (x ∷ xs)

  -- An assignment: a copy changes, and an object behind a handle is written.
  unfoldable pub assign : State V M → Expression C → V → Option (State V M)
  assign s (var_reference n) v = assign_slot o s n (s.env n) v
  assign s (field_reference e f) v =
      eval s e >>= λ old. o.set_field old f v >>= λ new. assign s e new
  assign s (dereference e) v = eval s e >>= λ h. o.write s.store h v >>= λ m. some (with_store m s)
  assign s (field_pointer_reference e f) v = (eval s e >>= λ h. o.read s.store h) >>= λ old.
      o.set_field old f v >>= λ new.
      eval s e >>= λ h. o.write s.store h new >>= λ m. some (with_store m s)
  assign s _ v = none

  -- A run, each loop for at most `k` rounds.
  unfoldable mutual
    pub run : ℕ → Statement C → State V M → Option (State V M)
    run k (let_in n e body) s = eval s e >>= λ v. scoped n (copy v) (run k body) s
    run k (let_remote n e body) s = eval s e >>= λ h. scoped n (alias h) (run k body) s
    run k (operation_statement n h args vars) s = eval s h >>= λ x. look_all o s vars >>= λ vs.
        eval_args s args >>= λ es. perform o s.store n x (vs ++ es) >>= λ m. some (with_store m s)
    run k (assignment l e) s = eval s e >>= λ v. assign s l v
    run k (return e) s = eval s e >>= λ v. some (with_result v s)
    run k (if_else c t e) s = eval s c >>= λ b. choose (o.truth b) (run k t s) (run k e s)
    run k (while c body) s = loop k (λ t. eval t c >>= λ b. some (o.truth b)) (run k body) s
    run k (sequence ss) s = run_sequence k ss s

    pub run_sequence : ℕ → Sequence C → State V M → Option (State V M)
    run_sequence k done s = some s
    run_sequence k (next t ts) s = run k t s >>= λ s'. run_sequence k ts s'
