-- ===== src/Flatten/Tree.antt =====
-- The tree of the parse phase (transactions/mtl/AST_parse.hpp), over any type of the labels that an
-- endorsement names.
use mix_t.Base.{ℕ, ℤ, String, Bool, true, false, Option, none, some, List, [], ◌∷◌, ◌++◌}
use mix_t.Ast.{Operator}

-- A name as mutils::String<...>: its characters.
abbrev pub Name : Type 0
Name = List ℕ

-- The names that flattening makes of the template parameters seqnum and depth, as it spells them.
abbrev pub anorm : ℕ → ℕ → Name
anorm seqnum depth = 97 ∷ 110 ∷ 111 ∷ 114 ∷ 109 ∷ seqnum ∷ depth ∷ []

abbrev pub remote_bound_tmp : ℕ → ℕ → Name
remote_bound_tmp seqnum depth =
    114 ∷ 101 ∷ 109 ∷ 111 ∷ 116 ∷ 101 ∷ 95 ∷ 98 ∷ 111 ∷ 117 ∷ 110 ∷ 100 ∷ 95 ∷ 116 ∷ 109 ∷ 112 ∷ 0
    ∷ seqnum ∷ depth ∷ []

abbrev pub while_name : ℕ → ℕ → Name
while_name seqnum depth = 119 ∷ 104 ∷ 105 ∷ 108 ∷ 101 ∷ seqnum ∷ depth ∷ []

-- The names true and false, which a desugared loop reads.
abbrev pub true_name : Name
true_name = 116 ∷ 114 ∷ 117 ∷ 101 ∷ []

abbrev pub false_name : Name
false_name = 102 ∷ 97 ∷ 108 ∷ 115 ∷ 101 ∷ []

mutual
  pub data Expression (C : Type 0) : Type 0 where
    field_reference : Expression C → String → Expression C
    field_pointer_reference : Expression C → String → Expression C
    dereference : Expression C → Expression C
    endorse : C → Expression C → Expression C
    ensure : C → Expression C → Expression C
    is_valid : Expression C → Expression C
    var_reference : Name → Expression C
    constant : ℤ → Expression C
    bin_op : Operator → Expression C → Expression C → Expression C
    -- The name, the handle, operation_args_exprs and operation_args_varrefs.
    operation : String → Expression C → Args C → List Name → Expression C

  pub data Args (C : Type 0) : Type 0 where
    no_args : Args C
    arg : Expression C → Args C → Args C

mutual
  -- A `Binding<name, expr>` is a name and an expression.
  pub data Statement (C : Type 0) : Type 0 where
    let_in : Name → Expression C → Statement C → Statement C
    let_remote : Name → Expression C → Statement C → Statement C
    operation_statement : String → Expression C → Args C → List Name → Statement C
    assignment : Expression C → Expression C → Statement C
    return : Expression C → Statement C
    if_else : Expression C → Statement C → Statement C → Statement C
    while : Expression C → Statement C → Statement C
    sequence : Sequence C → Statement C

  pub data Sequence (C : Type 0) : Type 0 where
    done : Sequence C
    next : Statement C → Sequence C → Sequence C

-- operation_args_varrefs::append.
abbrev pub append_var : List Name → Name → List Name
append_var vs v = vs ++ v ∷ []

-- The specialisation for a field of a dereference, before the one for any field.
abbrev pub field_of : Bool → Option Bool → Option Bool
field_of true inner = some true
field_of false inner = inner

module _ {C : Type 0} where
  abbrev pub is_var_reference : Expression C → Bool
  is_var_reference (var_reference v) = true
  is_var_reference _ = false

  abbrev pub is_dereference : Expression C → Bool
  is_dereference (dereference e) = true
  is_dereference _ = false

  -- Declared for every type, and defined for three; `none` is the use of another.
  unfoldable pub contains_fieldpointer_ref : Expression C → Option Bool
  contains_fieldpointer_ref (var_reference v) = some false
  contains_fieldpointer_ref (field_reference e f) =
      field_of (is_dereference e) (contains_fieldpointer_ref e)
  contains_fieldpointer_ref (field_pointer_reference e f) = some true
  contains_fieldpointer_ref _ = none
