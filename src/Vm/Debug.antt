-- ===== src/Vm/Debug.antt =====
-- `DebugValue` of vm/vm.go, a test interface, with luago_dbg_value of value.rs. A Rust panic, of an
-- `unwrap` at an error, unwinds into C frames, which is undefined. `set` with a string for a key makes
-- a Lua string first.
use gluau.Prelude.{ℕ, Option, List, [], ◌∷◌, Bytes, text}
use gluau.World.{
  RefKind, LuaValue, Run, returned, failed, panicked, undefined, blocked, Go, pure, ◌>>=◌, ◌>>◌,
}
use gluau.Mluau.{Mluau, LuaResult, ok, err}
use gluau.Ffi.Boxes.{read_ref, undefined_behaviour}
use gluau.Object.{reading, pointer_no_lock}
use gluau.Handles.{GoLuaVmWrapper}
use gluau.Value.Types.{Value}
use gluau.Value.Clone.{GoLuaValue, from_owned}
use gluau.Value.Convert.{value_from_c}
use gluau.Vm.Strings.{obj_of}

module _ {L A : Type 0} where
  abbrev pub unwrap : LuaResult A → Go L A
  unwrap (ok a) = pure a
  unwrap (err e) = undefined_behaviour

  -- `if err != nil { panic(err.Error()) }`
  abbrev pub or_panic : Run L A → Run L A
  or_panic (returned a w) = returned a w
  or_panic (failed e w) = panicked e w
  or_panic (panicked e w) = panicked e w
  or_panic undefined = undefined
  or_panic blocked = blocked

module _ {L : Type 0} where
  -- `for i, v := range v.values { values[i] = l.valueFromC(v) }`
  unfoldable pub values_from_c : Option GoLuaVmWrapper → List GoLuaValue → Go L (List Value)
  unfolding value_from_c
  values_from_c l [] = pure []
  values_from_c l (c ∷ cs) = value_from_c l c >>= λ v. values_from_c l cs >>= λ vs. pure (v ∷ vs)

module _ {L : Type 0} (m : Mluau L) where
  lua_string : ℕ → Bytes → Go L LuaValue
  lua_string vm s = do
    r ← m.create_string vm s
    s' ← unwrap r
    pure (LuaValue.ref RefKind.string s')

  stupid_table : ℕ → Go L ℕ
  unfolding lua_string
  stupid_table vm = do
    r ← m.create_table_with_capacity vm 0 0
    t ← unwrap r
    test ← lua_string vm (text "test")
    r1 ← m.set t test (LuaValue.integer 33)
    unwrap r1
    test2 ← lua_string vm (text "test2")
    teststring ← lua_string vm (text "teststring")
    r2 ← m.set t test2 teststring
    unwrap r2
    pure t

  unfoldable pub luago_dbg_value : ℕ → Go L (List GoLuaValue)
  unfolding read_ref lua_string stupid_table from_owned
  luago_dbg_value p = do
    vm ← read_ref RefKind.lua_vm p
    res ← lua_string vm (text "Testing testing 123")
    t ← stupid_table vm
    a ← from_owned res
    b ← from_owned (LuaValue.error (m.external (text "This is a test error")))
    c ← from_owned (LuaValue.integer 2939398)
    d ← from_owned (LuaValue.ref RefKind.table t)
    pure (a ∷ b ∷ c ∷ d ∷ [])

  unfoldable pub debug_value : Option GoLuaVmWrapper → Go L (List Value)
  unfolding obj_of reading pointer_no_lock luago_dbg_value values_from_c
  debug_value l = do
    obj ← obj_of l
    reading obj
        do lua ← (λ w. or_panic (pointer_no_lock obj w)); v ← luago_dbg_value lua; values_from_c l v
