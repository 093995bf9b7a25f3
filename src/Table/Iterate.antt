-- ===== src/Table/Iterate.antt =====
-- `ForEach` and `ForEachValue` of vm/table.go, and their Rust side in table.rs. mluau's `for_each`
-- and `for_each_value` are parameters. Rust reaches the Go closure by its handle, which is in use
-- until the wrapper is dropped at the end, so the closure is called directly here.
use gluau.Prelude.{
  ℕ, Bool, true, false, Option, none, some, [], ◌∷◌, ◌++◌, Bytes, text, if◌then◌else◌, ◌==◌, ◌&&◌,
}
use gluau.World.{
  Run, returned, failed, panicked, undefined, blocked, table, LuaValue, Go, pure, fail, ◌>>=◌, ◌>>◌,
}
use gluau.Mluau.{Mluau, LuaResult, ok, err}
use gluau.Ffi.Boxes.{read_ref}
use gluau.Object.{reading}
use gluau.Handles.{LuaTable}
use gluau.Result.{CResult, c_result, go_result, move_error_to_go}
use gluau.Value.Types.{Value}
use gluau.Value.Clone.{from_owned}
use gluau.Value.Convert.{value_from_c}
use gluau.Callback.{new_go_callback, callback_to_c, drop_wrapper}
use gluau.Table.{inner_ptr}

-- The variables that an iteration changes: `errv` of Go and `stopped` of Rust.
pub record Progress : Type 0 where
  pub errv : Option Bytes
  pub stopped : Bool

abbrev pub start : Progress
start = record { errv = none; stopped = false }

abbrev pub halted : Bytes → Progress
halted e = record { errv = some e; stopped = true }

-- The closure that an iteration of mluau calls: it continues at `ok`.
abbrev pub Step : Type 0 → Type 0 → Type 0
Step L A = A → Progress → Go L (Progress × LuaResult (Unit {0}))

abbrev pub Iteration : Type 0 → Type 0 → Type 0
Iteration L A = ℕ → Step L A → Progress → Go L (Progress × LuaResult (Unit {0}))

abbrev pub in_for_each : Bytes
in_for_each = text "panic in ForEach callback: "

abbrev pub in_for_each_value : Bytes
in_for_each_value = text "panic in ForEachValue callback: "

abbrev pub or_stopped : Bool → LuaResult (Unit {0}) → LuaResult (Unit {0})
or_stopped stopped (ok a) = ok a
or_stopped true (err e) = ok tt
or_stopped false (err e) = err e

unfoldable pub same_bytes : Bytes → Bytes → Bool
same_bytes [] [] = true
same_bytes [] (b ∷ t) = false
same_bytes (a ∷ s) [] = false
same_bytes (a ∷ s) (b ∷ t) = (a == b) && same_bytes s t

module _ {L : Type 0} where
  -- The deferred `recover` and the test of the error: what the callback leaves in `errv`, or `none`
  -- when the iteration goes on.
  abbrev pub recovered : Bytes → Run L (Unit {0}) → Run L (Option Bytes)
  recovered message (returned a w) = returned none w
  recovered message (failed e w) = returned (some e) w
  recovered message (panicked e w) = returned (some (message ++ e)) w
  recovered message undefined = undefined
  recovered message blocked = blocked

  unfoldable pub protect : Bytes → Go L (Unit {0}) → Go L (Option Bytes)
  protect message body w = recovered message (body w)

  -- One call of the callback, from mluau's values on.
  unfoldable pub pair_entry :
      LuaTable → (Value → Value → Go L (Unit {0})) → LuaValue × LuaValue → Go L (Option Bytes)
  unfolding from_owned value_from_c protect
  pair_entry t fn p = do
    k ← from_owned p.0
    v ← from_owned p.1
    key ← value_from_c t.lua k
    value ← value_from_c t.lua v
    protect in_for_each (fn key value)

  unfoldable pub value_entry : LuaTable → (Value → Go L (Unit {0})) → LuaValue → Go L (Option Bytes)
  unfolding from_owned value_from_c protect
  value_entry t fn x = do
    v ← from_owned x
    value ← value_from_c t.lua v
    protect in_for_each_value (fn value)

  -- The rest of Rust's closure: `Err(mluau::Error::external(…))` stops the iteration.
  abbrev pub answer : Bytes → Progress → Option Bytes → Go L (Progress × LuaResult (Unit {0}))
  answer stop st none = pure (st, ok tt)
  answer stop st (some e) = pure (halted e, err stop)

  abbrev pub step : {A : Type 0} → Bytes → (A → Go L (Option Bytes)) → Step L A
  step stop entry a st = entry a >>= answer stop st

  -- `return errv`
  abbrev pub return_errv : Option Bytes → Go L (Unit {0})
  return_errv none = pure tt
  return_errv (some e) = fail e

  -- `if errStr != "stop" { return errors.New(errStr) }`
  abbrev pub unless_stop : Option Bytes → Bytes → Go L (Unit {0})
  unless_stop errv e = if same_bytes e (text "stop") then return_errv errv else fail e

  unfoldable pub stop_result : CResult (Unit {0}) → Option Bytes → Go L (Unit {0})
  unfolding move_error_to_go same_bytes
  stop_result r errv =
      if r.error == 0 then return_errv errv else move_error_to_go r.error >>= unless_stop errv

  -- What Go does with the result of Rust and its own `errv`.
  unfoldable pub finish : Option Bytes × CResult (Unit {0}) → Go L (Unit {0})
  unfolding go_result
  finish out = do go_result out.1; return_errv out.0

  unfoldable pub finish_values : Option Bytes × CResult (Unit {0}) → Go L (Unit {0})
  unfolding stop_result
  finish_values out = stop_result out.1 out.0

module _ {L : Type 0} (m : Mluau L) (mluau_for_each : Iteration L (LuaValue × LuaValue)) where
  -- The call of `for_each` in Rust, with Go's `errv` and the result that goes to Go.
  unfoldable pub iterate :
      ℕ → (LuaValue × LuaValue → Go L (Option Bytes)) → Go L (Option Bytes × CResult (Unit {0}))
  unfolding c_result
  iterate r entry = do
    out ← mluau_for_each r (step (m.external []) entry) start
    res ← c_result tt (or_stopped out.0.stopped out.1)
    pure (out.0.errv, res)

  unfoldable pub for_each :
      (ℕ → Go L (Unit {0})) → LuaTable → (Value → Value → Go L (Unit {0})) → Go L (Unit {0})
  unfolding reading inner_ptr new_go_callback callback_to_c read_ref drop_wrapper pair_entry iterate
      finish
  for_each call t fn = reading t.object do
    ptr ← inner_ptr t
    c ← new_go_callback (some 0) (some 0)
    h ← callback_to_c c
    r ← read_ref table ptr
    out ← iterate r (pair_entry t fn)
    drop_wrapper call h
    finish out

module _ {L : Type 0} (m : Mluau L) (mluau_for_each_value : Iteration L LuaValue) where
  unfoldable pub iterate_values :
      ℕ → (LuaValue → Go L (Option Bytes)) → Go L (Option Bytes × CResult (Unit {0}))
  unfolding c_result
  iterate_values r entry = do
    out ← mluau_for_each_value r (step (m.external (text "stop")) entry) start
    res ← c_result tt out.1
    pure (out.0.errv, res)

  unfoldable pub for_each_value :
      (ℕ → Go L (Unit {0})) → LuaTable → (Value → Go L (Unit {0})) → Go L (Unit {0})
  unfolding reading inner_ptr new_go_callback callback_to_c read_ref drop_wrapper value_entry
      iterate_values finish_values
  for_each_value call t fn = reading t.object do
    ptr ← inner_ptr t
    c ← new_go_callback (some 0) (some 0)
    h ← callback_to_c c
    r ← read_ref table ptr
    out ← iterate_values r (value_entry t fn)
    drop_wrapper call h
    finish_values out
