-- ===== src/FunctionCallback/Returning.antt =====
-- A Go function that returns values to Lua.
use gluau.Prelude.{ℕ, ◌+◌, Option, List, map}
use gluau.World.{RefKind, World, ref_box, multi_box}
use gluau.Mluau.{Mluau}
use gluau.Ffi.Ownership.{with_box, without}
use gluau.MultiValue.{LuaMultiValue}
use gluau.Object.Sound.{IsSound, new_handle}
use gluau.Handles.{GoLuaVmWrapper, lua_vm_tab}
use gluau.Value.Types.{Value}
use gluau.Value.Sending.{sent}
use gluau.MultiValue.Transfer.{AreScalars}
use gluau.FunctionCallback.{FunctionFn}
use gluau.Object.Closing.{after_close}
use gluau.FunctionCallback.Panicking.{inside}

module _ {L : Type 0} (m : Mluau L) (l : Option GoLuaVmWrapper) (fn : FunctionFn L) (v : ℕ)
    (vs outs : List Value) (scalars : AreScalars vs) (scalar_outs : AreScalars outs) (w : World L)
    (s : IsSound w) where
  entered : World L
  entered = record (with_box w (ref_box RefKind.lua_vm v)) { next_box = w.next_box + 1 + 1 }

  arguments : LuaMultiValue
  arguments = record { lua = l; ptr = w.next_box + 1 }

  -- The world inside the function.
  called : World L
  called = inside v w

  -- With the results in their box.
  replied : World L
  replied = with_box called (multi_box (map sent outs))

  -- With the virtual machine of the call closed.
  closed : World L
  closed = after_close w.next_object (new_handle w.next_box lua_vm_tab) replied

  -- With the boxes of the arguments and of the results freed.
  after_call : World L
  after_call = without (without closed (w.next_box + 1)) (w.next_box + 1 + 1)
