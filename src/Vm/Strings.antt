-- ===== src/Vm/Strings.antt =====
-- The part of vm/vm.go that makes strings: `createString`, which gives Go an object, and
-- `createStringAsPtr`, which gives the bare pointer. With luago_create_string of string.rs.
use gluau.Prelude.{ℕ, [], ◌∷◌, Option, none, some, Bytes}
use gluau.World.{string, lua_vm, Go, pure, ◌>>=◌, nil_dereference}
use gluau.Mluau.{Mluau}
use gluau.Ffi.Boxes.{read_ref}
use gluau.Object.{reading, pointer_no_lock, new_object}
use gluau.Handles.{GoLuaVmWrapper, LuaString, string_tab}
use gluau.Result.{CResult, boxed_result, go_result}

module _ {L : Type 0} where
  -- `l.obj`, which panics at a nil wrapper
  unfoldable pub obj_of : Option GoLuaVmWrapper → Go L (Option ℕ)
  obj_of none = nil_dereference
  obj_of (some l) = pure l.obj

  -- `l.obj.RLock(); defer l.obj.RUnlock(); lua, err := l.lua(); …`
  unfoldable pub with_lua : {A : Type 0} → Option GoLuaVmWrapper → (ℕ → Go L A) → Go L A
  unfolding obj_of reading pointer_no_lock
  with_lua l body = do obj ← obj_of l; reading obj (pointer_no_lock obj >>= body)

-- A null pointer stands for the empty string.
abbrev pub slice : Option Bytes → Bytes
slice none = []
slice (some s) = s

abbrev pub to_slice : Bytes → Option Bytes
to_slice [] = none
to_slice (b ∷ s) = some (b ∷ s)

module _ {L : Type 0} (m : Mluau L) where
  unfoldable pub luago_create_string : ℕ → Option Bytes → Go L (CResult ℕ)
  unfolding read_ref boxed_result
  luago_create_string lua s = do
    vm ← read_ref lua_vm lua
    r ← m.create_string vm (slice s)
    boxed_result string r

  unfoldable pub create_string : Option GoLuaVmWrapper → Bytes → Go L LuaString
  unfolding with_lua luago_create_string go_result new_object
  create_string l s = with_lua l λ lua. do
    res ← luago_create_string lua (to_slice s)
    p ← go_result res
    o ← new_object p string_tab
    pure (record { object = o })

  unfoldable pub create_string_as_ptr : Option GoLuaVmWrapper → Bytes → Go L ℕ
  unfolding with_lua luago_create_string go_result
  create_string_as_ptr l s =
      with_lua l λ lua. do res ← luago_create_string lua (to_slice s); go_result res
