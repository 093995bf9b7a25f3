-- ===== src/Table/Typing/Obedient.antt =====
-- What is asked of mluau and of the arguments of a call, and what is promised of its answer.
use gluau.Prelude.{ℕ, Bool, Option, none, some}
use gluau.World.{LuaValue, World}
use gluau.Mluau.{Mluau}
use gluau.Handles.{LuaTable}
use gluau.Value.Typing.{IsTyped}
use gluau.Value.Typing.Made.{MakesStrings}
use gluau.Table.Calls.{Call, Answer, nothing, flag, count, value, table, bytes}
use gluau.Table.Typing.Steps.{Obeys, IsArgument, IsReadableResult}
use gluau.Table.Typing.Shapes.{Whatever}
use gluau.Table.Typing.Defaults.{IsTableOf, AreTablesOf}

-- mluau's operations on tables and strings keep what is in the world, also through the Go code that a
-- metamethod calls, and hand out no light userdata.
pub record IsObedient {L : Type 0} (m : Mluau L) : Type 0 where
  pub strings : MakesStrings m
  pub clear : (t : ℕ) → Obeys Whatever (m.clear t)
  pub contains_key : (t : ℕ) (k : LuaValue) → Obeys Whatever (m.contains_key t k)
  pub equals : (t : ℕ) (u : ℕ) → Obeys Whatever (m.equals t u)
  pub get : (t : ℕ) (k : LuaValue) → Obeys IsReadableResult (m.get t k)
  pub is_empty : (t : ℕ) → Obeys Whatever (m.is_empty t)
  pub is_readonly : (t : ℕ) → Obeys Whatever (m.is_readonly t)
  pub len : (t : ℕ) → Obeys Whatever (m.len t)
  pub metatable : (t : ℕ) → Obeys Whatever (m.metatable t)
  pub pop : (t : ℕ) → Obeys IsReadableResult (m.pop t)
  pub push : (t : ℕ) (k : LuaValue) → Obeys Whatever (m.push t k)
  pub raw_get : (t : ℕ) (k : LuaValue) → Obeys IsReadableResult (m.raw_get t k)
  pub raw_insert : (t : ℕ) (n : ℕ) (k : LuaValue) → Obeys Whatever (m.raw_insert t n k)
  pub raw_len : (t : ℕ) → Obeys Whatever (m.raw_len t)
  pub raw_pop : (t : ℕ) → Obeys IsReadableResult (m.raw_pop t)
  pub raw_push : (t : ℕ) (k : LuaValue) → Obeys Whatever (m.raw_push t k)
  pub raw_remove : (t : ℕ) (k : LuaValue) → Obeys Whatever (m.raw_remove t k)
  pub raw_set : (t : ℕ) (k : LuaValue) (x : LuaValue) → Obeys Whatever (m.raw_set t k x)
  pub set : (t : ℕ) (k : LuaValue) (x : LuaValue) → Obeys Whatever (m.set t k x)
  pub set_metatable : (t : ℕ) (mt : Option ℕ) → Obeys Whatever (m.set_metatable t mt)
  pub table_to_pointer : (t : ℕ) → Obeys Whatever (m.table_to_pointer t)
  pub table_debug : (t : ℕ) → Obeys Whatever (m.table_debug t)
  pub set_readonly : (t : ℕ) (b : Bool) → Obeys Whatever (m.set_readonly t b)
  pub set_safeenv : (t : ℕ) (b : Bool) → Obeys Whatever (m.set_safeenv t b)

-- A table that has to be there.
abbrev pub IsOther : {L : Type 0} → World L → Option LuaTable → Type 0
IsOther w none = ⊥
IsOther w (some t) = IsTableOf w t

-- The arguments of a call are typed, and the values are no tables.
abbrev pub IsTypedCall : {L : Type 0} → World L → Call → Type 0
IsTypedCall w Call.clear = Unit
IsTypedCall w (Call.contains_key k) = IsArgument w k
IsTypedCall w (Call.equals t) = IsOther w t
IsTypedCall w (Call.get k) = IsArgument w k
IsTypedCall w Call.is_empty = Unit
IsTypedCall w Call.is_readonly = Unit
IsTypedCall w Call.len = Unit
IsTypedCall w Call.metatable = Unit
IsTypedCall w Call.pop = Unit
IsTypedCall w (Call.push x) = IsArgument w x
IsTypedCall w (Call.raw_get k) = IsArgument w k
IsTypedCall w (Call.raw_insert i x) = IsArgument w x
IsTypedCall w Call.raw_len = Unit
IsTypedCall w Call.raw_pop = Unit
IsTypedCall w (Call.raw_push x) = IsArgument w x
IsTypedCall w (Call.raw_remove k) = IsArgument w k
IsTypedCall w (Call.raw_set k x) = IsArgument w k × IsArgument w x
IsTypedCall w (Call.set k x) = IsArgument w k × IsArgument w x
IsTypedCall w (Call.set_metatable t) = AreTablesOf t w
IsTypedCall w (Call.set_readonly b) = Unit
IsTypedCall w (Call.set_safe_env b) = Unit
IsTypedCall w Call.pointer = Unit
IsTypedCall w Call.to_string = Unit

abbrev pub IsTypedAnswer : {L : Type 0} → Answer → World L → Type 0
IsTypedAnswer nothing w = Unit
IsTypedAnswer (flag b) w = Unit
IsTypedAnswer (count n) w = Unit
IsTypedAnswer (value x) w = IsTyped w x
IsTypedAnswer (table t) w = AreTablesOf t w
IsTypedAnswer (bytes s) w = Unit
