-- ===== src/Table/Typing/Methods.antt =====
-- Every method of a table but ForEach and ForEachValue is safe on typed arguments.
use gluau.Prelude.{ℕ, true, false, Option, none, some}
use gluau.World.{World, Go}
use gluau.Mluau.{Mluau}
use gluau.Ffi.Tables.{
  luago_table_clear, luago_table_contains_key, luago_table_equals, luago_table_get,
  luago_table_is_empty, luago_table_is_readonly, luago_table_len, luago_table_metatable,
  luago_table_pop, luago_table_push, luago_table_raw_get, luago_table_raw_insert,
  luago_table_raw_len, luago_table_raw_pop, luago_table_raw_push, luago_table_raw_remove,
  luago_table_raw_set, luago_table_set, luago_table_set_metatable, luago_table_set_readonly,
  luago_table_set_safeenv, luago_table_to_pointer, luago_table_debug,
}
use gluau.Object.{reading}
use gluau.Object.Locks.{held}
use gluau.Handles.{GoLuaVmWrapper, LuaTable, table_tab, lua_vm_tab}
use gluau.Value.Types.{Value}
use gluau.Value.Typing.{IsCalm, Has, wrapping, IsTyped}
use gluau.Value.Typing.Closed.{Stays, IsVm-Stays, IsTyped-Stays}
use gluau.Value.Typing.Safe.{Safe, Safe-and_then, recounted-IsCalm, recounted-Stays, reading-Safe}
use gluau.Table.{inner_ptr, other_ptr}
use gluau.Table.Calls.{
  Call, Answer, nothing, flag, count, value, table, bytes, answered, perform, table_over,
}
use gluau.Table.Typing.Steps.{IsArgument}
use gluau.Table.Typing.Bodies.{
  plain_body, value_body, plain_handing, value_handing, writing, defaulting, finding, showing,
  comparing, setting,
}
use gluau.Table.Typing.Shapes.{Any, plain-Safe, value-Safe}
use gluau.Table.Typing.Arguments.{plain_handing-Safe, value_handing-Safe, writing-Safe}
use gluau.Table.Typing.Defaults.{
  IsTableOf, over, AreTablesOf, defaulting-Safe, metatable-Safe, debug-Safe,
}
use gluau.Table.Typing.Others.{comparing-Safe, setting-Safe}
use gluau.Table.Typing.Obedient.{IsObedient, IsTypedCall, IsTypedAnswer}

module _ {L : Type 0} {u t : World L} (stays : Stays u t) where
  IsArgument-Stays : (x : Option Value) → IsArgument u x → IsArgument t x
  IsArgument-Stays none arg = tt
  IsArgument-Stays (some x) arg = (IsTyped-Stays stays arg.0, arg.1)

  IsTableOf-Stays : {x : LuaTable} → IsTableOf u x → IsTableOf t x
  IsTableOf-Stays (over vm h) = over (IsVm-Stays stays vm) (stays.objects _ _ h)

  AreTablesOf-Stays : (x : Option LuaTable) → AreTablesOf x u → AreTablesOf x t
  AreTablesOf-Stays none typed = tt
  AreTablesOf-Stays (some x) typed = IsTableOf-Stays typed

module _ {L : Type 0} (m : Mluau L) (obedient : IsObedient m) {w : World L} (calm : IsCalm w)
    (i : ℕ) (vm : Has w lua_vm_tab i) (o : ℕ) (tb : Has w table_tab o) where
  abbrev wrapper : Option GoLuaVmWrapper
  wrapper = some (record { obj = some i })

  abbrev pub target : LuaTable
  target = table_over wrapper o

  -- The world in which the method holds its lock.
  abbrev inside : World L
  inside = held o tb.object w

  inside-IsCalm : IsCalm inside
  inside-IsCalm = recounted-IsCalm w o _ tb.there calm

  into : Stays w inside
  into = recounted-Stays w o _ tb.there

  vm_inside : Has inside lua_vm_tab i
  vm_inside = into.objects _ _ vm

  tb_inside : Has inside table_tab o
  tb_inside = into.objects _ _ tb

  module _ {A : Type 0} (f : A → Answer) (body : Go L A) where
    locked-Safe :
        (P : A → World L → Type 0)
        → ((a : A) (u t : World L) → Stays u t → P a u → P a t)
        → ((a : A) (u : World L) → P a u → IsTypedAnswer (f a) u)
        → Safe inside P (body inside)
        → Safe w IsTypedAnswer (answered f (reading (some o) body) w)
    locked-Safe P lasts gives safe =
        Safe-and_then w P IsTypedAnswer _ _ (reading-Safe w o tb.there P lasts body calm safe)
          (λ a u s p. (s, gives a u p))

    unasked-Safe :
        ((a : A) (u : World L) → IsTypedAnswer (f a) u)
        → Safe inside Any (body inside)
        → Safe w IsTypedAnswer (answered f (reading (some o) body) w)
    unasked-Safe gives safe = locked-Safe Any (λ a u t s p. tt) (λ a u p. gives a u) safe

  typed-Safe :
      (body : Go L Value)
      → Safe inside (λ x t. IsTyped t x) (body inside)
      → Safe w IsTypedAnswer (answered value (reading (some o) body) w)
  typed-Safe body safe =
      locked-Safe value body (λ x t. IsTyped t x) (λ x u t s h. IsTyped-Stays s h) (λ x u h. h) safe

  -- A call of any method but ForEach and ForEachValue, on an open or a closed table in a calm world, with
  -- typed arguments (nil ones too, but for Equals) that are no table values, and with a mluau that keeps
  -- what is in the world and hands out no light userdata: it returns a typed answer or an error, and
  -- keeps every object and box as it was, locks included. It does not panic, wait for a lock, or read a
  -- box that is gone or of another kind.
  pub perform-typed : (c : Call) → IsTypedCall w c → Safe w IsTypedAnswer (perform m target c w)
  unfolding perform inner_ptr other_ptr luago_table_clear luago_table_contains_key
      luago_table_equals luago_table_get luago_table_is_empty luago_table_is_readonly
      luago_table_len luago_table_metatable luago_table_pop luago_table_push luago_table_raw_get
      luago_table_raw_insert luago_table_raw_len luago_table_raw_pop luago_table_raw_push
      luago_table_raw_remove luago_table_raw_set luago_table_set luago_table_set_metatable
      luago_table_set_readonly luago_table_set_safeenv luago_table_to_pointer luago_table_debug
  perform-typed Call.clear arg =
      unasked-Safe (λ x. nothing) (plain_body m wrapper o tt m.clear) (λ a u. tt)
        (plain-Safe inside-IsCalm o tb_inside tt m.clear obedient.clear)
  perform-typed (Call.contains_key k) arg =
      unasked-Safe flag (plain_handing m wrapper o false k m.contains_key) (λ a u. tt)
        (plain_handing-Safe m obedient.strings inside-IsCalm i vm_inside o tb_inside false k
          (IsArgument-Stays into k arg) m.contains_key obedient.contains_key)
  perform-typed (Call.equals none) arg = absurd arg
  perform-typed (Call.equals (some t2)) (over {o = o2} {l = l2} machine h) =
      unasked-Safe flag (comparing m wrapper o false (table_over l2 o2) m.equals) (λ a u. tt)
        (comparing-Safe m inside-IsCalm wrapper o tb_inside false l2 o2 (into.objects _ _ h)
          m.equals obedient.equals)
  perform-typed (Call.get k) arg = typed-Safe (value_handing m wrapper o k m.get) (
      value_handing-Safe m obedient.strings inside-IsCalm i vm_inside o tb_inside k
        (IsArgument-Stays into k arg) m.get obedient.get)
  perform-typed Call.is_empty arg =
      unasked-Safe flag (defaulting m wrapper o true true m.is_empty) (λ a u. tt)
        (defaulting-Safe m inside-IsCalm wrapper o tb_inside true true m.is_empty obedient.is_empty)
  perform-typed Call.is_readonly arg =
      unasked-Safe flag (defaulting m wrapper o true true m.is_readonly) (λ a u. tt)
        (defaulting-Safe m inside-IsCalm wrapper o tb_inside true true m.is_readonly
          obedient.is_readonly)
  perform-typed Call.len arg =
      unasked-Safe count (plain_body m wrapper o 0 m.len) (λ a u. tt)
        (plain-Safe inside-IsCalm o tb_inside 0 m.len obedient.len)
  perform-typed Call.metatable arg =
      locked-Safe table (finding m wrapper o m.metatable) AreTablesOf
        (λ x u t s h. AreTablesOf-Stays s x h) (λ x u h. h)
        (metatable-Safe m inside-IsCalm wrapper o tb_inside (wrapping vm_inside) m.metatable
          obedient.metatable)
  perform-typed Call.pop arg =
      typed-Safe (value_body m wrapper o m.pop)
        (value-Safe inside-IsCalm o tb_inside wrapper (wrapping vm_inside) m.pop obedient.pop)
  perform-typed (Call.push x) arg =
      unasked-Safe (λ x. nothing) (plain_handing m wrapper o tt x m.push) (λ a u. tt)
        (plain_handing-Safe m obedient.strings inside-IsCalm i vm_inside o tb_inside tt x
          (IsArgument-Stays into x arg) m.push obedient.push)
  perform-typed (Call.raw_get k) arg = typed-Safe (value_handing m wrapper o k m.raw_get) (
      value_handing-Safe m obedient.strings inside-IsCalm i vm_inside o tb_inside k
        (IsArgument-Stays into k arg) m.raw_get obedient.raw_get)
  perform-typed (Call.raw_insert n x) arg =
      unasked-Safe (λ x. nothing) (plain_handing m wrapper o tt x (λ r. m.raw_insert r n))
        (λ a u. tt)
        (plain_handing-Safe m obedient.strings inside-IsCalm i vm_inside o tb_inside tt x
          (IsArgument-Stays into x arg) (λ r. m.raw_insert r n) (λ r. obedient.raw_insert r n))
  perform-typed Call.raw_len arg =
      unasked-Safe count (defaulting m wrapper o 0 0 m.raw_len) (λ a u. tt)
        (defaulting-Safe m inside-IsCalm wrapper o tb_inside 0 0 m.raw_len obedient.raw_len)
  perform-typed Call.raw_pop arg =
      typed-Safe (value_body m wrapper o m.raw_pop) (
        value-Safe inside-IsCalm o tb_inside wrapper (wrapping vm_inside) m.raw_pop
          obedient.raw_pop)
  perform-typed (Call.raw_push x) arg =
      unasked-Safe (λ x. nothing) (plain_handing m wrapper o tt x m.raw_push) (λ a u. tt)
        (plain_handing-Safe m obedient.strings inside-IsCalm i vm_inside o tb_inside tt x
          (IsArgument-Stays into x arg) m.raw_push obedient.raw_push)
  perform-typed (Call.raw_remove k) arg =
      unasked-Safe (λ x. nothing) (plain_handing m wrapper o tt k m.raw_remove) (λ a u. tt)
        (plain_handing-Safe m obedient.strings inside-IsCalm i vm_inside o tb_inside tt k
          (IsArgument-Stays into k arg) m.raw_remove obedient.raw_remove)
  perform-typed (Call.raw_set k x) arg =
      unasked-Safe (λ x. nothing) (writing m wrapper o k x m.raw_set) (λ a u. tt)
        (writing-Safe m obedient.strings inside-IsCalm i vm_inside o tb_inside k x
          (IsArgument-Stays into k arg.0) (IsArgument-Stays into x arg.1) m.raw_set
          obedient.raw_set)
  perform-typed (Call.set k x) arg =
      unasked-Safe (λ x. nothing) (writing m wrapper o k x m.set) (λ a u. tt)
        (writing-Safe m obedient.strings inside-IsCalm i vm_inside o tb_inside k x
          (IsArgument-Stays into k arg.0) (IsArgument-Stays into x arg.1) m.set obedient.set)
  perform-typed (Call.set_metatable mt) arg =
      unasked-Safe (λ x. nothing) (setting m wrapper o mt m.set_metatable) (λ a u. tt)
        (setting-Safe m inside-IsCalm wrapper o tb_inside m.set_metatable obedient.set_metatable mt
          (AreTablesOf-Stays into mt arg))
  perform-typed (Call.set_readonly b) arg =
      unasked-Safe (λ x. nothing) (defaulting m wrapper o tt tt (λ r. m.set_readonly r b))
        (λ a u. tt)
        (defaulting-Safe m inside-IsCalm wrapper o tb_inside tt tt (λ r. m.set_readonly r b)
          (λ r. obedient.set_readonly r b))
  perform-typed (Call.set_safe_env b) arg =
      unasked-Safe (λ x. nothing) (defaulting m wrapper o tt tt (λ r. m.set_safeenv r b))
        (λ a u. tt)
        (defaulting-Safe m inside-IsCalm wrapper o tb_inside tt tt (λ r. m.set_safeenv r b)
          (λ r. obedient.set_safeenv r b))
  perform-typed Call.pointer arg =
      unasked-Safe count (defaulting m wrapper o 0 0 m.table_to_pointer) (λ a u. tt)
        (defaulting-Safe m inside-IsCalm wrapper o tb_inside 0 0 m.table_to_pointer
          obedient.table_to_pointer)
  perform-typed Call.to_string arg =
      unasked-Safe bytes (showing m wrapper o m.table_debug) (λ a u. tt)
        (debug-Safe m inside-IsCalm wrapper o tb_inside m.table_debug obedient.table_debug)
