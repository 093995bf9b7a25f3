-- ===== src/Vm/Create.antt =====
-- The part of vm/vm.go that makes virtual machines, tables and errors, and sets their options, with
-- its functions of rustlib's vm.rs and table.rs. A Go `int` is its bit pattern.
use gluau.Prelude.{ℕ, ◌%◌, ◌^◌, Option, Bytes, text, ◌==◌, if◌then◌else◌}
use gluau.World.{table, lua_vm, ref_box, Go, pure, fail, ◌>>=◌, alloc}
use gluau.Mluau.{Mluau, err}
use gluau.Ffi.Boxes.{read_ref, luago_error_new}
use gluau.Object.{reading, pointer_no_lock, new_object, unless_closed}
use gluau.Handles.{GoLuaVmWrapper, LuaTable, ErrorVariant, lua_vm_tab, table_tab, error_variant_tab}
use gluau.Result.{CResult, c_result, boxed_result, go_result}
use gluau.Compiler.{CompilerOpts, CompilerLevels, to_c, to_compiler}
use gluau.Vm.Strings.{with_lua, obj_of}

-- `C.size_t(n)`
abbrev pub to_size : ℕ → ℕ
to_size n = n % 2 ^ 64

module _ {L : Type 0} where
  unfoldable pub create_error_variant : Bytes → Go L ErrorVariant
  unfolding luago_error_new new_object
  create_error_variant s = do
    p ← luago_error_new s
    o ← new_object p error_variant_tab
    pure (record { object = o })

module _ {L : Type 0} (m : Mluau L) where
  unfoldable pub newluavm : Go L ℕ
  unfolding alloc
  newluavm = do v ← m.new_lua; alloc (ref_box lua_vm v)

  unfoldable pub create_lua_vm : Go L GoLuaVmWrapper
  unfolding newluavm new_object
  create_lua_vm = do
    p ← newluavm
    if p == 0
        then fail (text "failed to create Lua VM")
        else do o ← new_object p lua_vm_tab; pure (record { obj = o })

  unfoldable pub luavm_setcompileropts : ℕ → CompilerLevels → Go L (Unit {0})
  unfolding read_ref
  luavm_setcompileropts p opts =
      if p == 0 then pure tt else do v ← read_ref lua_vm p; m.set_compiler v (to_compiler opts)

  unfoldable pub set_compiler_opts : Option GoLuaVmWrapper → CompilerOpts → Go L (Unit {0})
  unfolding obj_of reading pointer_no_lock luavm_setcompileropts
  set_compiler_opts l opts = do
    obj ← obj_of l
    reading obj
        λ w. unless_closed (pointer_no_lock obj w) tt λ lua. luavm_setcompileropts lua (to_c opts)

  unfoldable pub luavm_setmemorylimit : ℕ → ℕ → Go L (CResult (Unit {0}))
  unfolding read_ref c_result
  luavm_setmemorylimit p limit =
      if p == 0
      then c_result tt (err (text "LuaVmWrapper pointer is null"))
      else do v ← read_ref lua_vm p; r ← m.set_memory_limit v limit; c_result tt r

  unfoldable pub set_memory_limit : Option GoLuaVmWrapper → ℕ → Go L (Unit {0})
  unfolding with_lua luavm_setmemorylimit go_result
  set_memory_limit l limit =
      with_lua l λ lua. do res ← luavm_setmemorylimit lua (to_size limit); go_result res

  unfoldable pub luago_create_table : ℕ → Go L (CResult ℕ)
  unfolding read_ref c_result boxed_result
  luago_create_table p =
      if p == 0
      then c_result 0 (err (text "LuaVmWrapper pointer is null"))
      else do v ← read_ref lua_vm p; r ← m.create_table v; boxed_result table r

  unfoldable pub luago_create_table_with_capacity : ℕ → ℕ → ℕ → Go L (CResult ℕ)
  unfolding read_ref c_result boxed_result
  luago_create_table_with_capacity p narr nrec =
      if p == 0 then c_result 0 (err (text "LuaVmWrapper pointer is null")) else do
        v ← read_ref lua_vm p
        r ← m.create_table_with_capacity v narr nrec
        boxed_result table r

  -- `&LuaTable{object: newObject(res.value, tableTab), lua: l}`
  abbrev pub new_table : Option GoLuaVmWrapper → CResult ℕ → Go L LuaTable
  new_table l res = do
    p ← go_result res
    o ← new_object p table_tab
    pure (record { lua = l; object = o })

  unfoldable pub create_table : Option GoLuaVmWrapper → Go L LuaTable
  unfolding with_lua luago_create_table go_result new_object
  create_table l = with_lua l λ lua. luago_create_table lua >>= new_table l

  unfoldable pub create_table_with_capacity : Option GoLuaVmWrapper → ℕ → ℕ → Go L LuaTable
  unfolding with_lua luago_create_table_with_capacity go_result new_object
  create_table_with_capacity l narr nrec =
      with_lua l
        λ lua. luago_create_table_with_capacity lua (to_size narr) (to_size nrec) >>= new_table l
