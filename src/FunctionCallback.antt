-- ===== src/FunctionCallback.antt =====
-- CreateFunction of vm/vm.go and luago_create_function of rustlib's function.rs: a Go function that
-- Lua calls.
pub mod Panicking
pub mod Returning
use gluau.Prelude.{ℕ, Option, none, some, List, [], ◌∷◌, ◌++◌, Bytes, text, ◌==◌, if◌then◌else◌}
use gluau.World.{
  RefKind, LuaValue, ref_box, multi_box, Run, returned, failed, panicked, undefined, blocked, Go,
  pure, panic, deferring, ◌>>=◌, ◌>>◌, alloc, release,
}
use gluau.Mluau.{Mluau, LuaResult, ok, err}
use gluau.Ffi.Boxes.{read_ref, read_error, luago_error_new, luago_error_free}
use gluau.Ffi.Multi.{read_multi, luago_free_multivalue}
use gluau.Object.{new_object}
use gluau.Handles.{GoLuaVmWrapper, LuaFunction, lua_vm_tab, function_tab, close_vm}
use gluau.Result.{CResult, c_result, boxed_result, go_result}
use gluau.Value.Types.{Value}
use gluau.MultiValue.{multi_value_from_values, take}
use gluau.Callback.{new_go_callback, callback_to_c, drop_wrapper}
use gluau.Vm.Strings.{with_lua}

-- `FunctionFn`
abbrev pub FunctionFn : Type 0 → Type 0
FunctionFn L = GoLuaVmWrapper → List Value → Go L (List (Option Value))

-- What the callback sets in its `FunctionCallbackData`.
pub record Reply : Type 0 where
  pub values : ℕ
  pub error : ℕ

-- The error of a Go call, as a value.
pub data Outcome (A : Type 0) : Type 0 where
  value : A → Outcome A
  error : Bytes → Outcome A

module _ {L : Type 0} where
  abbrev pub outcome_of : {A : Type 0} → Run L A → Run L (Outcome A)
  outcome_of (returned a w) = returned (value a) w
  outcome_of (failed e w) = returned (error e) w
  outcome_of (panicked e w) = panicked e w
  outcome_of undefined = undefined
  outcome_of blocked = blocked

  abbrev pub attempt : {A : Type 0} → Go L A → Go L (Outcome A)
  attempt body w = outcome_of (body w)

  -- `&errBytes[0]` of an empty message panics.
  unfoldable pub report : Bytes → Go L Reply
  unfolding luago_error_new
  report [] = panic (text "runtime error: index out of range [0] with length 0")
  report (b ∷ e) = do p ← luago_error_new (b ∷ e); pure (record { values = 0; error = p })

  -- The deferred `recover`. No error is there yet when it runs: what follows one never panics.
  abbrev pub recovered : Run L Reply → Run L Reply
  recovered (returned a w) = returned a w
  recovered (failed e w) = failed e w
  recovered (panicked e w) = report (text "panic in CreateFunction callback: " ++ e) w
  recovered undefined = undefined
  recovered blocked = blocked

module _ {L : Type 0} (m : Mluau L) where
  abbrev pub reply_values : Outcome ℕ → Go L Reply
  reply_values (value p) = pure (record { values = p; error = 0 })
  reply_values (error e) = report e

  abbrev pub reply : Option GoLuaVmWrapper → Outcome (List (Option Value)) → Go L Reply
  reply l (value vs) =
      attempt (multi_value_from_values m l vs >>= λ mw. pure mw.ptr) >>= reply_values
  reply l (error e) = report e

  -- The callback that `CreateFunction` makes, from the pointers `lua` and `args` on. The virtual
  -- machine for the callback is closed only if the callback returns.
  unfoldable pub respond : Option GoLuaVmWrapper → FunctionFn L → ℕ → ℕ → Go L Reply
  unfolding take new_object report multi_value_from_values close_vm
  respond l fn lua args = do
    vs ← take (record { lua = l; ptr = args })
    o ← new_object lua lua_vm_tab
    result ← attempt (fn (record { obj = o }) vs)
    deferring (close_vm (some (record { obj = o }))) (reply l result)

  unfoldable pub function_callback : Option GoLuaVmWrapper → FunctionFn L → ℕ → ℕ → Go L Reply
  unfolding respond
  function_callback l fn lua args w = recovered (respond l fn lua args w)

  -- What Rust makes of the reply.
  unfoldable pub result_of : Reply → Go L (LuaResult (List LuaValue))
  unfolding read_multi read_error release luago_free_multivalue luago_error_free
  result_of r =
      if r.error == 0
      then (if r.values == 0
          then pure (ok [])
          else do vs ← read_multi r.values; release r.values; pure (ok vs))
      else do
        luago_free_multivalue r.values
        e ← read_error r.error
        luago_error_free r.error
        pure (err (m.external (m.lossy e)))

  -- The closure that mluau calls, with the virtual machine and the arguments that it gives.
  unfoldable pub lua_callback :
      Option GoLuaVmWrapper → FunctionFn L → ℕ → List LuaValue → Go L (LuaResult (List LuaValue))
  unfolding alloc function_callback release result_of
  lua_callback l fn v vs = do
    lua ← alloc (ref_box RefKind.lua_vm v)
    args ← alloc (multi_box vs)
    r ← function_callback l fn lua args
    release args
    result_of r

  -- mluau keeps the closure, by its handle.
  unfoldable pub luago_create_function : ℕ → ℕ → Go L (CResult ℕ)
  unfolding read_ref c_result boxed_result
  luago_create_function p h =
      if p == 0 then c_result 0 (err (text "LuaVmWrapper pointer is null")) else do
        v ← read_ref RefKind.lua_vm p
        r ← m.create_function v h
        boxed_result RefKind.function r

  unfoldable pub create_function : Option GoLuaVmWrapper → ℕ → Go L LuaFunction
  unfolding with_lua new_go_callback callback_to_c luago_create_function go_result new_object
  create_function l fn = with_lua l λ lua. do
    c ← new_go_callback (some fn) (some 0)
    h ← callback_to_c c
    res ← luago_create_function lua h
    p ← go_result res
    o ← new_object p function_tab
    pure (record { object = o; lua = l })
