-- ===== src/Flatten/Meaning/Scope.antt =====
-- The names in a parsed tree, and the order in which flattening generates names
-- (transactions/mtl/flatten_expressions.hpp).
use mix_t.Base.{ℕ, ◌<◌, List, [], ◌∷◌, All, ◌≡◌, ◌≢◌, ◌⊎◌}
use mix_t.Flatten.Tree.{
  Name, anorm, remote_bound_tmp, Expression, field_reference, field_pointer_reference, dereference,
  endorse, ensure, is_valid, var_reference, constant, bin_op, operation, Args, no_args, arg,
  Statement, let_in, let_remote, operation_statement, assignment, return, if_else, while, sequence,
  Sequence, done, next,
}
use mix_t.Flatten.Hoisting.{Layer, value, remote}

module _ {C : Type 0} (P : Name → Type 0) where
  -- `P` holds of each name in the tree, the ones that a Let binds included.
  abbrev mutual
    pub Names : Expression C → Type 0
    Names (var_reference v) = P v
    Names (constant i) = Unit
    Names (field_reference e f) = Names e
    Names (field_pointer_reference e f) = Names e
    Names (dereference e) = Names e
    Names (is_valid e) = Names e
    Names (endorse l e) = Names e
    Names (ensure l e) = Names e
    Names (bin_op op L R) = Names L × Names R
    Names (operation n h args vars) = Names h × NamesOfArgs args × All P vars

    pub NamesOfArgs : Args C → Type 0
    NamesOfArgs no_args = Unit
    NamesOfArgs (arg e es) = Names e × NamesOfArgs es

  abbrev mutual
    pub NamesOfStatement : Statement C → Type 0
    NamesOfStatement (let_in n e body) = P n × Names e × NamesOfStatement body
    NamesOfStatement (let_remote n e body) = P n × Names e × NamesOfStatement body
    NamesOfStatement (operation_statement n h args vars) = Names h × NamesOfArgs args × All P vars
    NamesOfStatement (assignment l e) = Names l × Names e
    NamesOfStatement (return e) = Names e
    NamesOfStatement (if_else c t e) = Names c × NamesOfStatement t × NamesOfStatement e
    NamesOfStatement (while c body) = Names c × NamesOfStatement body
    NamesOfStatement (sequence ss) = NamesOfSequence ss

    pub NamesOfSequence : Sequence C → Type 0
    NamesOfSequence done = Unit
    NamesOfSequence (next s ss) = NamesOfStatement s × NamesOfSequence ss

  abbrev pub NamesOfLayer : Layer C → Type 0
  NamesOfLayer (value e) = Names e
  NamesOfLayer (remote e) = Names e

module _ (P Q : Name → Type 0) (f : (n : Name) → P n → Q n) where
  All-names : (vs : List Name) → All P vs → All Q vs
  All-names [] h = tt
  All-names (v ∷ vs) h = (f v h.0, All-names vs h.1)

module _ {C : Type 0} (P Q : Name → Type 0) (f : (n : Name) → P n → Q n) where
  mutual
    pub Names-mono : (e : Expression C) → Names P e → Names Q e
    Names-mono (var_reference v) h = f v h
    Names-mono (constant i) h = tt
    Names-mono (field_reference e g) h = Names-mono e h
    Names-mono (field_pointer_reference e g) h = Names-mono e h
    Names-mono (dereference e) h = Names-mono e h
    Names-mono (is_valid e) h = Names-mono e h
    Names-mono (endorse l e) h = Names-mono e h
    Names-mono (ensure l e) h = Names-mono e h
    Names-mono (bin_op op L R) h = (Names-mono L h.0, Names-mono R h.1)
    Names-mono (operation n x args vars) h =
        (Names-mono x h.0, Args-mono args h.1, All-names P Q f vars h.2)

    Args-mono : (args : Args C) → NamesOfArgs P args → NamesOfArgs Q args
    Args-mono no_args h = tt
    Args-mono (arg e es) h = (Names-mono e h.0, Args-mono es h.1)

  mutual
    pub NamesOfStatement-mono : (s : Statement C) → NamesOfStatement P s → NamesOfStatement Q s
    NamesOfStatement-mono (let_in n e body) h =
        (f n h.0, Names-mono e h.1, NamesOfStatement-mono body h.2)
    NamesOfStatement-mono (let_remote n e body) h =
        (f n h.0, Names-mono e h.1, NamesOfStatement-mono body h.2)
    NamesOfStatement-mono (operation_statement n x args vars) h =
        (Names-mono x h.0, Args-mono args h.1, All-names P Q f vars h.2)
    NamesOfStatement-mono (assignment l e) h = (Names-mono l h.0, Names-mono e h.1)
    NamesOfStatement-mono (return e) h = Names-mono e h
    NamesOfStatement-mono (if_else c t e) h =
        (Names-mono c h.0, NamesOfStatement-mono t h.1, NamesOfStatement-mono e h.2)
    NamesOfStatement-mono (while c body) h = (Names-mono c h.0, NamesOfStatement-mono body h.1)
    NamesOfStatement-mono (sequence ss) h = NamesOfSequence-mono ss h

    pub NamesOfSequence-mono : (ss : Sequence C) → NamesOfSequence P ss → NamesOfSequence Q ss
    NamesOfSequence-mono done h = tt
    NamesOfSequence-mono (next s ss) h = (NamesOfStatement-mono s h.0, NamesOfSequence-mono ss h.1)

-- A pair of depth and seqnum before another one.
abbrev pub Before : ℕ → ℕ → ℕ → ℕ → Type 0
Before q d seqnum depth = (d < depth) ⊎ ((d ≡ depth) × (q < seqnum))

-- A name that no step generates, or one that was generated before.
abbrev pub IsOlder : ℕ → ℕ → Name → Type 0
IsOlder seqnum depth n =
    (q d : ℕ) → (n ≡ anorm q d) ⊎ (n ≡ remote_bound_tmp q d) → Before q d seqnum depth

abbrev pub Avoids : Name → Name → Type 0
Avoids g n = n ≢ g
