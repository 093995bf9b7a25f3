-- ===== src/Userdata.antt =====
-- vm/userdata.go and CreateUserData of vm/vm.go, with rustlib's userdata.rs.
pub mod Data
pub mod Creation
use gluau.Prelude.{ℕ, Option, none, some, Bytes, text, ◌==◌, if◌then◌else◌}
use gluau.World.{table, user_data, lua_vm, Go, pure, fail, ◌>>=◌, ◌>>◌}
use gluau.Mluau.{Mluau, err}
use gluau.Ffi.Boxes.{read_ref}
use gluau.Object.{reading, pointer_no_lock, new_object}
use gluau.Handles.{GoLuaVmWrapper, LuaTable, LuaUserData, userdata_tab}
use gluau.Result.{CResult, c_result, boxed_result, go_result}
use gluau.Callback.{new_dynamic_data, dynamic_to_c, get_dynamic_data, drop_data}
use gluau.Vm.Strings.{with_lua}
use gluau.Value.Types.{Value}

module _ {L : Type 0} where
  abbrev pub valid_data : Option ℕ → Go L (Option ℕ)
  valid_data none = fail (text "internal error: handle is invalid")
  valid_data (some d) = pure (some d)

  -- What `AssociatedData` does with the handle: 0 is no associated data.
  unfoldable pub data_of : ℕ → Go L (Option ℕ)
  unfolding get_dynamic_data
  data_of value = if value == 0 then pure none else get_dynamic_data value >>= valid_data

  abbrev pub inner_ptr : LuaUserData → Go L ℕ
  inner_ptr l = pointer_no_lock l.object

module _ {L : Type 0} (m : Mluau L) where
  unfoldable pub luago_get_userdata_handle : ℕ → Go L (CResult ℕ)
  unfolding read_ref c_result
  luago_get_userdata_handle p =
      if p == 0
      then c_result 0 (err (text "LuaUserData pointer is null"))
      else do u ← read_ref user_data p; r ← m.dynamic_data u; c_result 0 r

  unfoldable pub associated_data : LuaUserData → Go L (Option ℕ)
  unfolding reading pointer_no_lock luago_get_userdata_handle go_result data_of
  associated_data l = reading l.object do
    ptr ← inner_ptr l
    res ← luago_get_userdata_handle ptr
    value ← go_result res
    data_of value

  module _ (call : ℕ → Go L (Unit {0})) where
    -- The data is dropped when Rust returns early; else mluau has it.
    unfoldable pub luago_create_userdata : ℕ → ℕ → ℕ → Go L (CResult ℕ)
    unfolding drop_data c_result read_ref boxed_result
    luago_create_userdata p h mt =
        if p == 0
        then drop_data call h >> c_result 0 (err (text "LuaVmWrapper pointer is null"))
        else if mt == 0
        then drop_data call h >> c_result 0 (err (text "Metatable pointer is null"))
        else do
          v ← read_ref lua_vm p
          t ← read_ref table mt
          r ← m.create_dynamic_userdata v h t
          boxed_result user_data r

    -- What `CreateUserData` does under both locks.
    unfoldable pub create_with : Option GoLuaVmWrapper → Option ℕ → ℕ → ℕ → Go L LuaUserData
    unfolding new_dynamic_data dynamic_to_c luago_create_userdata go_result new_object
    create_with l value lua mt = do
      c ← new_dynamic_data value (some 0)
      h ← dynamic_to_c c
      res ← luago_create_userdata lua h mt
      p ← go_result res
      o ← new_object p userdata_tab
      pure (record { lua = l; object = o })

    unfoldable pub create_user_data :
        Option GoLuaVmWrapper → Option ℕ → Option LuaTable → Go L LuaUserData
    unfolding with_lua reading pointer_no_lock create_with
    create_user_data l value none = fail (text "metatable cannot be nil")
    create_user_data l value (some mt) =
        with_lua l λ lua. reading mt.object (pointer_no_lock mt.object >>= create_with l value lua)

abbrev pub user_data_value : LuaUserData → Value
user_data_value u = Value.user_data (some u)
