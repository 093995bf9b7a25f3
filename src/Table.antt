-- ===== src/Table.antt =====
-- vm/table.go: the methods of LuaTable; the iterations are in Table/Iterate. A method holds the lock of
-- its own table while it runs.
pub mod Calls
pub mod Closed
pub mod PairLoop
pub mod Keys
pub mod Lookup
pub mod Writing
pub mod Leak
pub mod Iterate
pub mod Ranging
pub mod Sequence
pub mod Typing
pub mod Answers
use gluau.Prelude.{ℕ, Bool, true, false, Option, none, some, [], Bytes, ◌==◌, if◌then◌else◌}
use gluau.World.{
  Run, returned, failed, panicked, undefined, blocked, nil_dereference, Go, pure, ◌>>=◌, ◌>>◌,
}
use gluau.Mluau.{Mluau}
use gluau.Object.{reading, pointer_no_lock, new_object, unless_closed}
use gluau.Handles.{LuaTable, table_tab}
use gluau.Result.{CResult, go_result, move_error_to_go}
use gluau.Value.Types.{Value}
use gluau.Value.Convert.{value_to_c, value_from_c}
use gluau.Ffi.Tables.{
  luago_table_clear, luago_table_contains_key, luago_table_equals, luago_table_get,
  luago_table_is_empty, luago_table_is_readonly, luago_table_len, luago_table_metatable,
  luago_table_pop, luago_table_push, luago_table_raw_get, luago_table_raw_insert,
  luago_table_raw_len, luago_table_raw_pop, luago_table_raw_push, luago_table_raw_remove,
  luago_table_raw_set, luago_table_set, luago_table_set_metatable, luago_table_set_readonly,
  luago_table_set_safeenv, luago_table_to_pointer, luago_table_debug,
}

module _ {L : Type 0} where
  unfoldable pub inner_ptr : LuaTable → Go L ℕ
  unfolding pointer_no_lock
  inner_ptr t = pointer_no_lock t.object

  -- The pointer of another table, which is nil perhaps.
  unfoldable pub other_ptr : Option LuaTable → Go L ℕ
  unfolding inner_ptr
  other_ptr none = nil_dereference
  other_ptr (some t) = inner_ptr t

  abbrev pub or_default : {A : Type 0} → LuaTable → A → (ℕ → Go L A) → Go L A
  or_default t d body w = unless_closed (inner_ptr t w) d body

module _ {L : Type 0} (m : Mluau L) where
  unfoldable pub clear : LuaTable → Go L (Unit {0})
  unfolding reading inner_ptr luago_table_clear go_result
  clear t = reading t.object do ptr ← inner_ptr t; res ← luago_table_clear m ptr; go_result res

  unfoldable pub contains_key : LuaTable → Option Value → Go L Bool
  unfolding reading inner_ptr value_to_c luago_table_contains_key go_result
  contains_key t key = reading t.object do
    ptr ← inner_ptr t
    key_val ← value_to_c m t.lua key
    res ← luago_table_contains_key m ptr key_val
    go_result res

  unfoldable pub equals : LuaTable → Option LuaTable → Go L Bool
  unfolding reading inner_ptr other_ptr luago_table_equals go_result
  equals t other = reading t.object do
    ptr ← inner_ptr t
    ptr2 ← other_ptr other
    res ← luago_table_equals m ptr ptr2
    go_result res

  unfoldable pub get : LuaTable → Option Value → Go L Value
  unfolding reading inner_ptr value_to_c value_from_c luago_table_get go_result
  get t key = reading t.object do
    ptr ← inner_ptr t
    key_val ← value_to_c m t.lua key
    res ← luago_table_get m ptr key_val
    value ← go_result res
    value_from_c t.lua value

  unfoldable pub is_empty : LuaTable → Go L Bool
  unfolding reading inner_ptr luago_table_is_empty
  is_empty t = reading t.object (or_default t true (luago_table_is_empty m))

  unfoldable pub is_readonly : LuaTable → Go L Bool
  unfolding reading inner_ptr luago_table_is_readonly
  is_readonly t = reading t.object (or_default t true (luago_table_is_readonly m))

  unfoldable pub len : LuaTable → Go L ℕ
  unfolding reading inner_ptr luago_table_len go_result
  len t = reading t.object do ptr ← inner_ptr t; res ← luago_table_len m ptr; go_result res

  -- A null pointer means that there is no metatable.
  abbrev pub metatable_of : LuaTable → ℕ → Go L (Option LuaTable)
  metatable_of t res =
      if res == 0
      then pure none
      else do o ← new_object res table_tab; pure (some (record { lua = t.lua; object = o }))

  unfoldable pub metatable : LuaTable → Go L (Option LuaTable)
  unfolding reading inner_ptr luago_table_metatable new_object
  metatable t =
      reading t.object (or_default t none λ ptr. luago_table_metatable m ptr >>= metatable_of t)

  unfoldable pub pop : LuaTable → Go L Value
  unfolding reading inner_ptr value_from_c luago_table_pop go_result
  pop t = reading t.object do
    ptr ← inner_ptr t
    res ← luago_table_pop m ptr
    value ← go_result res
    value_from_c t.lua value

  unfoldable pub push : LuaTable → Option Value → Go L (Unit {0})
  unfolding reading inner_ptr value_to_c luago_table_push go_result
  push t value = reading t.object do
    ptr ← inner_ptr t
    value_val ← value_to_c m t.lua value
    res ← luago_table_push m ptr value_val
    go_result res

  unfoldable pub raw_get : LuaTable → Option Value → Go L Value
  unfolding reading inner_ptr value_to_c value_from_c luago_table_raw_get go_result
  raw_get t key = reading t.object do
    ptr ← inner_ptr t
    key_val ← value_to_c m t.lua key
    res ← luago_table_raw_get m ptr key_val
    value ← go_result res
    value_from_c t.lua value

  unfoldable pub raw_insert : LuaTable → ℕ → Option Value → Go L (Unit {0})
  unfolding reading inner_ptr value_to_c luago_table_raw_insert go_result
  raw_insert t idx value = reading t.object do
    ptr ← inner_ptr t
    value_val ← value_to_c m t.lua value
    res ← luago_table_raw_insert m ptr idx value_val
    go_result res

  unfoldable pub raw_len : LuaTable → Go L ℕ
  unfolding reading inner_ptr luago_table_raw_len
  raw_len t = reading t.object (or_default t 0 (luago_table_raw_len m))

  unfoldable pub raw_pop : LuaTable → Go L Value
  unfolding reading inner_ptr value_from_c luago_table_raw_pop go_result
  raw_pop t = reading t.object do
    ptr ← inner_ptr t
    res ← luago_table_raw_pop m ptr
    value ← go_result res
    value_from_c t.lua value

  unfoldable pub raw_push : LuaTable → Option Value → Go L (Unit {0})
  unfolding reading inner_ptr value_to_c luago_table_raw_push go_result
  raw_push t value = reading t.object do
    ptr ← inner_ptr t
    value_val ← value_to_c m t.lua value
    res ← luago_table_raw_push m ptr value_val
    go_result res

  unfoldable pub raw_remove : LuaTable → Option Value → Go L (Unit {0})
  unfolding reading inner_ptr value_to_c luago_table_raw_remove go_result
  raw_remove t key = reading t.object do
    ptr ← inner_ptr t
    key_val ← value_to_c m t.lua key
    res ← luago_table_raw_remove m ptr key_val
    go_result res

  unfoldable pub raw_set : LuaTable → Option Value → Option Value → Go L (Unit {0})
  unfolding reading inner_ptr value_to_c luago_table_raw_set go_result
  raw_set t key value = reading t.object do
    ptr ← inner_ptr t
    key_val ← value_to_c m t.lua key
    value_val ← value_to_c m t.lua value
    res ← luago_table_raw_set m ptr key_val value_val
    go_result res

  unfoldable pub set : LuaTable → Option Value → Option Value → Go L (Unit {0})
  unfolding reading inner_ptr value_to_c luago_table_set go_result
  set t key value = reading t.object do
    ptr ← inner_ptr t
    key_val ← value_to_c m t.lua key
    value_val ← value_to_c m t.lua value
    res ← luago_table_set m ptr key_val value_val
    go_result res

  -- A nil metatable is passed as the null pointer; the lock of another one is not taken.
  abbrev pub metatable_ptr : Option LuaTable → Go L ℕ
  metatable_ptr none = pure 0
  metatable_ptr (some mt) = inner_ptr mt

  unfoldable pub set_metatable : LuaTable → Option LuaTable → Go L (Unit {0})
  unfolding reading inner_ptr luago_table_set_metatable go_result
  set_metatable t mt = reading t.object do
    ptr ← inner_ptr t
    ptr2 ← metatable_ptr mt
    res ← luago_table_set_metatable m ptr ptr2
    go_result res

  unfoldable pub set_readonly : LuaTable → Bool → Go L (Unit {0})
  unfolding reading inner_ptr luago_table_set_readonly
  set_readonly t enabled =
      reading t.object (or_default t tt λ ptr. luago_table_set_readonly m ptr enabled)

  unfoldable pub set_safe_env : LuaTable → Bool → Go L (Unit {0})
  unfolding reading inner_ptr luago_table_set_safeenv
  set_safe_env t enabled =
      reading t.object (or_default t tt λ ptr. luago_table_set_safeenv m ptr enabled)

  unfoldable pub pointer : LuaTable → Go L ℕ
  unfolding reading inner_ptr luago_table_to_pointer
  pointer t = reading t.object (or_default t 0 (luago_table_to_pointer m))

  unfoldable pub to_string : LuaTable → Go L Bytes
  unfolding reading inner_ptr luago_table_debug move_error_to_go
  to_string t =
      reading t.object (or_default t [] λ ptr. luago_table_debug m ptr >>= move_error_to_go)

  abbrev pub to_value : LuaTable → Value
  to_value t = Value.table (some t)
