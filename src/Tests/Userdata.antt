-- ===== src/Tests/Userdata.antt =====
-- A userdata with the Go value 42, and a string, made in a world with a virtual machine and a table.
use gluau.Prelude.{ℕ, [], ◌∷◌, Bytes, ◌≡◌, ◌≢◌, refl, some, arith}
use gluau.World.{LuaValue, ◌>>=◌, RefKind, World, Go, ref_box, returned, free_lua_vm, pure}
use gluau.Ffi.Ownership.{with_box}
use gluau.Object.Sound.{
  IsSound, new_handle, with_object, with_object-IsSound, with_box-IsSound, with_box-Unowned,
}
use gluau.Value.Types.{Value}
use gluau.Value.Clone.{to_value_from_owned}
use gluau.Value.Convert.{value_to_c}
use gluau.Value.Taking.{go_string-sent}
use gluau.Vm.Strings.{create_string}
use gluau.Strings.{bytes}
use gluau.Strings.Creation.{bytes-create_string}
use gluau.Handles.{LuaString, LuaUserData, lua_vm_tab, table_tab}
use gluau.Callback.Registry.{IsConsistent}
use gluau.Userdata.{create_user_data, associated_data}
use gluau.Userdata.Data.{data_result}
use gluau.Userdata.Creation.{vm_at, IsOpen, associated_data-create_user_data}
use gluau.Tests.Demo.{Lua, lua, nothing, nothing-IsSound, table-Owns}

abbrev vm_world : World Lua
vm_world = with_object 1 lua_vm_tab (with_box nothing (ref_box RefKind.lua_vm 1))

abbrev vm_and_table : World Lua
vm_and_table = with_object 2 table_tab (with_box vm_world (ref_box RefKind.table 9))

vm_world-IsSound : IsSound vm_world
vm_world-IsSound =
    with_object-IsSound (with_box nothing (ref_box RefKind.lua_vm 1))
      (with_box-IsSound nothing (ref_box RefKind.lua_vm 1) nothing-IsSound)
      (with_box-Unowned nothing (ref_box RefKind.lua_vm 1) nothing-IsSound)
      (record {
        dtor = free_lua_vm;
        box = ref_box RefKind.lua_vm 1;
        named = refl;
        there = refl;
        fits = refl;
      })

vm_and_table-IsSound : IsSound vm_and_table
vm_and_table-IsSound =
    with_object-IsSound (with_box vm_world (ref_box RefKind.table 9))
      (with_box-IsSound vm_world (ref_box RefKind.table 9) vm_world-IsSound)
      (with_box-Unowned vm_world (ref_box RefKind.table 9) vm_world-IsSound) (table-Owns 9 2 _ refl)

vm_and_table-IsConsistent : IsConsistent vm_and_table
vm_and_table-IsConsistent = record {
  positive = omega arith;
  null = refl;
  fresh_handle = λ h le. refl;
  fresh_cell = λ c le. refl;
  named = λ h c e. cc;
}

vm-IsOpen : IsOpen vm_and_table RefKind.lua_vm 0 1
vm-IsOpen = record {
  object = new_handle 1 lua_vm_tab;
  here = refl;
  free = refl;
  set = omega arith;
  there = refl;
}

table-IsOpen : IsOpen vm_and_table RefKind.table 1 9
table-IsOpen = record {
  object = new_handle 2 table_tab;
  here = refl;
  free = refl;
  set = omega arith;
  there = refl;
}

abbrev no_drop : ℕ → Go Lua (Unit {0})
no_drop f = pure tt

associated_data-create_user_data_example :
    (ud : LuaUserData) × (w' : World Lua) × (create_user_data lua no_drop
        (vm_at 0)
        (some 42)
        (some (record { lua = vm_at 0; object = some 1 }))
        vm_and_table
      ≡ returned ud w')
    × (associated_data lua ud w' ≡ data_result (some 42) w')
    × ((o : ℕ) → 2 ≢ o → w'.objects o ≡ vm_and_table.objects o)
    × ((p : ℕ) → 3 ≢ p → w'.boxes p ≡ vm_and_table.boxes p)
    × IsConsistent w'
associated_data-create_user_data_example =
    associated_data-create_user_data lua no_drop (some 42) 0 1 1 9 12 vm_and_table-IsSound
      vm_and_table-IsConsistent vm-IsOpen table-IsOpen (λ u. refl) (vm_at 0) (λ u. refl)

abbrev hi : Bytes
hi = 104 ∷ 105 ∷ []

bytes-create_string_example :
    (t : LuaString) × (w' : World Lua) × (create_string lua (vm_at 0) hi vm_and_table
      ≡ returned t w')
    × (bytes lua t w' ≡ returned (some hi) w')
    × ((o : ℕ) → 2 ≢ o → w'.objects o ≡ vm_and_table.objects o)
    × ((p : ℕ) → 3 ≢ p → w'.boxes p ≡ vm_and_table.boxes p)
    × IsSound w'
bytes-create_string_example =
    bytes-create_string lua 0 1 7 hi vm_and_table-IsSound refl refl (omega arith) refl (λ u. refl)
      (λ u. refl) (omega arith)

go_string-sent_example :
    (w' : World Lua) × ((value_to_c lua (vm_at 0) (some (Value.go_string []))
          >>= to_value_from_owned lua)
        vm_and_table
      ≡ returned (LuaValue.ref RefKind.string 7) w')
    × ((p : ℕ) → w'.boxes p ≡ vm_and_table.boxes p)
    × ((o : ℕ) → w'.objects o ≡ vm_and_table.objects o)
    × IsSound w'
go_string-sent_example =
    go_string-sent lua 0 1 7 [] vm_and_table-IsSound refl refl (omega arith) refl (λ u. refl)
