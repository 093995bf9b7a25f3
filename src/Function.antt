-- ===== src/Function.antt =====
-- vm/function.go: `Call`, with luago_function_call of rustlib's function.rs.
pub mod Calling
pub mod Detached
use gluau.Prelude.{ℕ, Option, none, some, List, text, ◌==◌, if◌then◌else◌}
use gluau.World.{RefKind, LuaValue, multi_box, Go, pure, ◌>>=◌, ◌>>◌, alloc, release}
use gluau.Mluau.{Mluau, LuaResult, ok, err}
use gluau.Ffi.Boxes.{read_ref}
use gluau.Ffi.Multi.{read_multi}
use gluau.Object.{reading, pointer_no_lock}
use gluau.Handles.{LuaFunction}
use gluau.Result.{CResult, c_result, go_result}
use gluau.Value.Types.{Value}
use gluau.MultiValue.{multi_value_from_values, take, close}

module _ {L : Type 0} where
  abbrev pub multi_result : LuaResult (List LuaValue) → Go L (CResult ℕ)
  multi_result (ok vs) = do p ← alloc (multi_box vs); pure (record { value = p; error = 0 })
  multi_result (err e) = c_result 0 (err e)

  abbrev pub inner_ptr : LuaFunction → Go L ℕ
  inner_ptr l = pointer_no_lock l.object

module _ {L : Type 0} (m : Mluau L) where
  -- Rust takes the arguments over, and frees their box when it returns.
  unfoldable pub luago_function_call : ℕ → ℕ → Go L (CResult ℕ)
  unfolding read_ref read_multi alloc release c_result
  luago_function_call p args =
      if p == 0 then c_result 0 (err (text "Function pointer is null")) else do
        f ← read_ref RefKind.function p
        vs ← read_multi args
        r ← m.call f vs
        res ← multi_result r
        release args
        pure res

  -- The results are taken without a virtual machine: `&luaMultiValue{ptr: res.value}`.
  unfoldable pub call : LuaFunction → List (Option Value) → Go L (List Value)
  unfolding reading pointer_no_lock multi_value_from_values luago_function_call go_result take close
  call l args = reading l.object do
    ptr ← inner_ptr l
    mw ← multi_value_from_values m l.lua args
    res ← luago_function_call ptr mw.ptr
    p ← go_result res
    values ← take (record { lua = none; ptr = p })
    close (record { lua = none; ptr = p })
    pure values

abbrev pub function_value : LuaFunction → Value
function_value f = Value.function (some f)
