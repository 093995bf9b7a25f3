-- ===== src/Table/Lookup.antt =====
-- `Get` and `RawGet` with a key that has an object, where mluau finds a scalar.
use gluau.Prelude.{ℕ, ◌≡◌, Option, some, ==-ne}
use gluau.World.{World, returned}
use gluau.Mluau.{Mluau, ok}
use gluau.Object.Locks.{held, rlock-held, runlock-held}
use gluau.Handles.{GoLuaVmWrapper}
use gluau.Result.{c_result, go_result}
use gluau.Value.Types.{Value}
use gluau.Value.Scalars.{IsScalar}
use gluau.Value.Sending.{sent, received, from_owned-sent, from_c-received}
use gluau.Value.Cloning.{Cloned, wrap}
use gluau.Ffi.Tables.{value_result}
use gluau.Table.{get, raw_get}
use gluau.Table.Calls.{table_over}
use gluau.Table.Keys.{
  Ready, sent_key, spent, inner_ptr-ready, value_to_c-key, read_ref-table, to_value-key,
}

module _ {L : Type 0} (m : Mluau L) {w : World L} {o i : ℕ} {k : Cloned}
    (lua f : Option GoLuaVmWrapper) (v : Value) (r : Ready w o k i) (scalar : IsScalar v) where
  pub get-found :
      m.get r.table_ref (sent_key m r) (held o r.table (spent m r))
        ≡ returned (ok (sent v)) (held o r.table (spent m r))
      → get m (table_over lua o) (some (wrap k f i)) w ≡ returned (received v) (spent m r)
  unfolding get value_result c_result go_result
  get-found found = rw (
    rlock-held o w r.table_here r.table_free,
    inner_ptr-ready m r lua,
    value_to_c-key m r lua f,
    ==-ne r.table.ptr 0 r.table_open,
    read_ref-table m r,
    to_value-key m r,
    found,
    from_owned-sent v (held o r.table (spent m r)) scalar,
    from_c-received lua v (held o r.table (spent m r)) scalar,
    runlock-held o (spent m r) r.table_here,
  )

  pub raw_get-found :
      m.raw_get r.table_ref (sent_key m r) (held o r.table (spent m r))
        ≡ returned (ok (sent v)) (held o r.table (spent m r))
      → raw_get m (table_over lua o) (some (wrap k f i)) w ≡ returned (received v) (spent m r)
  unfolding raw_get value_result c_result go_result
  raw_get-found found = rw (
    rlock-held o w r.table_here r.table_free,
    inner_ptr-ready m r lua,
    value_to_c-key m r lua f,
    ==-ne r.table.ptr 0 r.table_open,
    read_ref-table m r,
    to_value-key m r,
    found,
    from_owned-sent v (held o r.table (spent m r)) scalar,
    from_c-received lua v (held o r.table (spent m r)) scalar,
    runlock-held o (spent m r) r.table_here,
  )
