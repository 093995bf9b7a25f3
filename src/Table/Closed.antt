-- ===== src/Table/Closed.antt =====
-- Every method of a closed table, ForEach and ForEachValue included.
use gluau.Prelude.{ℕ, ◌≡◌, false, Option, none, some, update_self}
use gluau.World.{LuaValue, Object, World, Go}
use gluau.Mluau.{Mluau}
use gluau.Object.Locks.{held, rlock-held, runlock-held}
use gluau.Handles.{GoLuaVmWrapper}
use gluau.Value.Types.{Value}
use gluau.Value.Refused.{pointer_no_lock-closed}
use gluau.Table.{inner_ptr}
use gluau.Table.Iterate.{Iteration, for_each, for_each_value}
use gluau.Table.Calls.{Call, Answer, table_over, done, perform, outcome, on_closed, perform-closed}

-- A method of `LuaTable` with its arguments; those of the two loops are functions.
pub data Method (L : Type 0) : Type 0 where
  calling : Call → Method L
  each : (Value → Value → Go L (Unit {0})) → Method L
  each_value : (Value → Go L (Unit {0})) → Method L

abbrev pub on_closed_method : {L : Type 0} → Method L → Option Answer
on_closed_method (calling c) = on_closed c
on_closed_method (each fn) = none
on_closed_method (each_value fn) = none

module _ {L : Type 0} (m : Mluau L) (pairs : Iteration L (LuaValue × LuaValue))
    (values : Iteration L LuaValue) (drop : ℕ → Go L (Unit {0})) (lua : Option GoLuaVmWrapper)
    (o : ℕ) where
  abbrev pub run_method : Method L → Go L Answer
  run_method (calling c) = perform m (table_over lua o) c
  run_method (each fn) = done (for_each m pairs drop (table_over lua o) fn)
  run_method (each_value fn) = done (for_each_value m values drop (table_over lua o) fn)

  -- On a closed table that nobody is closing, every method that can return an error, ForEach and
  -- ForEachValue included, returns "cannot use closed object", and the others their fixed answer;
  -- mluau and the callbacks are not called, and the world, locks included, is as before.
  pub method-closed :
      (w : World L) {ob : Object}
      → w.objects o ≡ some ob
      → ob.writing ≡ false
      → ob.ptr ≡ 0
      → (c : Method L) → run_method c w ≡ outcome (on_closed_method c) w
  unfolding for_each for_each_value inner_ptr
  method-closed w here free gone (calling c) = perform-closed m lua o w here free gone c
  method-closed w {ob} here free gone (each fn) = rw (
    rlock-held o w here free,
    pointer_no_lock-closed o (held o ob w) (update_self w.objects o _) gone,
    runlock-held o w here,
  )
  method-closed w {ob} here free gone (each_value fn) = rw (
    rlock-held o w here free,
    pointer_no_lock-closed o (held o ob w) (update_self w.objects o _) gone,
    runlock-held o w here,
  )
