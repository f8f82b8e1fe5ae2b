-- ===== src/Ast.antt =====
-- The syntax tree of the typecheck phase (transactions/mtl/AST_typecheck.hpp), over any type of
-- concrete labels.
pub mod Labelled
pub mod Surface
pub mod Queries
pub mod Collect
pub mod CollectLaws
pub mod Examples
use mix_t.Base.{ℤ, String}
use mix_t.Labels.Term.{Label}

-- The C++ type that an expression yields. Only a handle's is looked into: it names the handle's
-- label, and the type of the object behind it.
pub data Yield (C : Type 0) : Type 0 where
  plain : String → Yield C
  handle : Label C → String → Yield C

-- The characters that BinOp has a specialisation for.
pub data Operator : Type 0 where
  plus times minus divide conj disj greater less equals : Operator

mutual
  -- `Expression<l, y, e>`, a constructor for each `e`. The only specialisation for an Endorse has
  -- the label of the Endorse at the expression too, so it is one label here.
  pub data Expression (C : Type 0) : Type 0 where
    var_reference : Label C → Yield C → String → Expression C
    field_reference : Label C → Yield C → Expression C → String → Expression C
    constant : ℤ → Expression C
    bin_op : Label C → Yield C → Operator → Expression C → Expression C → Expression C
    generate_tombstone : Label C → Expression C
    is_valid : Label C → Expression C → Expression C
    endorse : Label C → Yield C → Expression C → Expression C
    operation : Label C → Yield C → String → Expression C → Args C → Expression C

  -- The arguments of an operation, a parameter pack.
  pub data Args (C : Type 0) : Type 0 where
    no_args : Args C
    arg : Expression C → Args C → Args C

pub data Binding (C : Type 0) : Type 0 where
  binding : Label C → Yield C → String → Expression C → Binding C

mutual
  -- `Statement<l, s>`. A Return stands at `Label<bottom>`, so it carries no label; a While has no
  -- name before the phase that names loops.
  pub data Statement (C : Type 0) : Type 0 where
    let_in : Label C → Binding C → Statement C → Statement C
    let_remote : Label C → Binding C → Statement C → Statement C
    assignment : Label C → Expression C → Expression C → Statement C
    return : Expression C → Statement C
    write_tombstone : Label C → Expression C → Statement C
    accompany_write : Label C → Expression C → Statement C
    if_else : Label C → Expression C → Statement C → Statement C → Statement C
    while : Label C → Expression C → Statement C → Statement C
    operation_statement : Label C → String → Expression C → Args C → Statement C
    sequence : Label C → Sequence C → Statement C

  pub data Sequence (C : Type 0) : Type 0 where
    done : Sequence C
    next : Statement C → Sequence C → Sequence C
