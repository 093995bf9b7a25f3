-- ===== src/Handles.antt =====
-- The Go structs that hold a Rust-owned handle, and the object tables of their files: vm/string.go,
-- vm/table.go, vm/function.go, vm/userdata.go, vm/errorvariant.go and vm/vm.go. A nil pointer is
-- `none`; the structs are never changed after they are made, so a pointer is the struct itself.
use gluau.Prelude.{ℕ, Option, none, some}
use gluau.World.{
  ObjectTab, free_lua_vm, free_string, free_table, free_function, free_userdata, free_error, Go,
  pure,
}
use gluau.Object.{close}

pub record GoLuaVmWrapper : Type 0 where
  pub obj : Option ℕ

pub record LuaString : Type 0 where
  pub object : Option ℕ

pub record LuaTable : Type 0 where
  pub lua : Option GoLuaVmWrapper
  pub object : Option ℕ

pub record LuaFunction : Type 0 where
  pub object : Option ℕ
  pub lua : Option GoLuaVmWrapper

pub record LuaUserData : Type 0 where
  pub lua : Option GoLuaVmWrapper
  pub object : Option ℕ

pub record ErrorVariant : Type 0 where
  pub object : Option ℕ

abbrev pub lua_vm_tab : ObjectTab
lua_vm_tab = record { dtor = some free_lua_vm }

abbrev pub string_tab : ObjectTab
string_tab = record { dtor = some free_string }

abbrev pub table_tab : ObjectTab
table_tab = record { dtor = some free_table }

abbrev pub function_tab : ObjectTab
function_tab = record { dtor = some free_function }

abbrev pub userdata_tab : ObjectTab
userdata_tab = record { dtor = some free_userdata }

abbrev pub error_variant_tab : ObjectTab
error_variant_tab = record { dtor = some free_error }

module _ {L : Type 0} where
  abbrev pub close_object : Option ℕ → Go L (Unit {0})
  close_object none = pure tt
  close_object (some o) = close o

  -- The `Close` methods: nothing happens at a nil pointer.
  unfoldable pub close_vm : Option GoLuaVmWrapper → Go L (Unit {0})
  close_vm none = pure tt
  close_vm (some l) = close_object l.obj

  unfoldable pub close_string : Option LuaString → Go L (Unit {0})
  close_string none = pure tt
  close_string (some l) = close_object l.object

  unfoldable pub close_table : Option LuaTable → Go L (Unit {0})
  close_table none = pure tt
  close_table (some l) = close_object l.object

  unfoldable pub close_function : Option LuaFunction → Go L (Unit {0})
  close_function none = pure tt
  close_function (some l) = close_object l.object

  unfoldable pub close_user_data : Option LuaUserData → Go L (Unit {0})
  close_user_data none = pure tt
  close_user_data (some l) = close_object l.object

  unfoldable pub close_error : Option ErrorVariant → Go L (Unit {0})
  close_error none = pure tt
  close_error (some l) = close_object l.object
