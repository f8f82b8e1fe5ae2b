-- ===== src/Tracking/WritesRemote.antt =====
-- Whether a transaction assigns to a remote object (transactions/mtl/writes_remote.hpp).
use mix_t.Base.{String, Bool, false, ◌||◌, Option, none, some, List, [], ◌>>=◌}
use mix_t.Ast.{
  Expression, var_reference, field_reference, Binding, binding, Statement, let_in, let_remote,
  assignment, return, write_tombstone, accompany_write, if_else, while, operation_statement,
  sequence, Sequence, done, next,
}
use mix_t.Tracking.Names.{NameSets}

module _ {C : Type 0} where
  abbrev pub bound_name : Binding C → String
  bound_name (binding l y v e) = v

module _ {C : Type 0} (names : NameSets) where
  -- `none`: there is no overload for the expression.
  unfoldable pub bottoms_out_at_remote : List String → Expression C → Option Bool
  bottoms_out_at_remote remote (field_reference l y s f) = bottoms_out_at_remote remote s
  bottoms_out_at_remote remote (var_reference l y v) = some (names.contains v remote)
  bottoms_out_at_remote remote _ = none

  -- An operation does not count as a remote write. The nodes that tracking inserts have no overload.
  unfoldable mutual
    pub writes_remote : List String → Statement C → Option Bool
    writes_remote remote (let_in l b s) = writes_remote remote s
    writes_remote remote (let_remote l b s) = writes_remote (names.add remote (bound_name b)) s
    writes_remote remote (operation_statement l n h args) = some false
    writes_remote remote (if_else l c t e) = do
      then_writes ← writes_remote remote t
      else_writes ← writes_remote remote e
      some (then_writes || else_writes)
    writes_remote remote (while l c s) = writes_remote remote s
    writes_remote remote (assignment l v e) = bottoms_out_at_remote remote v
    writes_remote remote (return e) = some false
    writes_remote remote (write_tombstone l e) = none
    writes_remote remote (accompany_write l e) = none
    writes_remote remote (sequence l ss) = writes_remote_any remote ss

    pub writes_remote_any : List String → Sequence C → Option Bool
    writes_remote_any remote done = some false
    writes_remote_any remote (next s ss) = do
      first ← writes_remote remote s
      rest ← writes_remote_any remote ss
      some (first || rest)

  unfoldable pub begin_writes_remote : Statement C → Option Bool
  begin_writes_remote s = writes_remote [] s
