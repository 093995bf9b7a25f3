-- ===== src/Table/Answers.antt =====
-- What the methods of an open table ask of mluau, and what they make of its answer.
pub mod Shapes
pub mod Others
pub mod Open
use gluau.Prelude.{ℕ, ◌≡◌, ◌≢◌, ◌<◌, ◌^◌, Bool, false, Option, none, some, Bytes}
use gluau.World.{
  RefKind, LuaValue, Object, Box, ref_box, error_box, multi_box, chunk_box, error_text, World, Go,
}
use gluau.Mluau.{Mluau, LuaResult, ok, err}
use gluau.Handles.{GoLuaVmWrapper, LuaTable}
use gluau.Value.Types.{Value}
use gluau.Value.Scalars.{IsScalar}
use gluau.Value.Sending.{sent}
use gluau.Table.Calls.{Call, Answer, nothing, flag, count, value, table, bytes, table_over}

-- The Lua value of an argument.
abbrev pub lua_of : Option Value → LuaValue
lua_of none = LuaValue.nil
lua_of (some v) = sent v

-- An argument that is a scalar.
abbrev pub IsGiven : Option Value → Type 0
IsGiven none = ⊥
IsGiven (some v) = IsScalar v

-- The Go value of a Lua scalar.
abbrev pub scalar_of : LuaValue → Value
scalar_of LuaValue.nil = Value.nil
scalar_of (LuaValue.boolean b) = Value.boolean b
scalar_of (LuaValue.light_user_data p) = Value.nil
scalar_of (LuaValue.integer i) = Value.integer i
scalar_of (LuaValue.number n) = Value.number n
scalar_of (LuaValue.vector x y z) = Value.vector x y z
scalar_of (LuaValue.ref k r) = Value.nil
scalar_of (LuaValue.error e) = Value.nil
scalar_of LuaValue.other = Value.other

-- Lua values that come to Go without an object, in the range of their Go types.
abbrev pub IsLuaScalar : LuaValue → Type 0
IsLuaScalar LuaValue.nil = Unit
IsLuaScalar (LuaValue.boolean b) = Unit
IsLuaScalar (LuaValue.light_user_data p) = ⊥
IsLuaScalar (LuaValue.integer i) = i < 2 ^ 64
IsLuaScalar (LuaValue.number n) = n < 2 ^ 64
IsLuaScalar (LuaValue.vector x y z) = (x < 2 ^ 32) × (y < 2 ^ 32) × (z < 2 ^ 32)
IsLuaScalar (LuaValue.ref k r) = ⊥
IsLuaScalar (LuaValue.error e) = ⊥
IsLuaScalar LuaValue.other = Unit

-- The Lua object behind a Go table, if it is open.
abbrev pub ref_in : Option Box → ℕ
ref_in none = 0
ref_in (some (ref_box k r)) = r
ref_in (some (error_box e)) = 0
ref_in (some (multi_box vs)) = 0
ref_in (some (chunk_box s)) = 0
ref_in (some (error_text e)) = 0

abbrev pub object_ref : {L : Type 0} → World L → Option Object → ℕ
object_ref w none = 0
object_ref w (some ob) = ref_in (w.boxes ob.ptr)

abbrev pub number_ref : {L : Type 0} → World L → Option ℕ → ℕ
number_ref w none = 0
number_ref w (some o) = object_ref w (w.objects o)

abbrev pub ref_of : {L : Type 0} → World L → LuaTable → ℕ
ref_of w t = number_ref w t.object

abbrev pub refs_of : {L : Type 0} → World L → Option LuaTable → Option ℕ
refs_of w none = none
refs_of w (some t) = some (ref_of w t)

-- What a table stands for that has to be there.
abbrev pub other_ref : {L : Type 0} → World L → Option LuaTable → ℕ
other_ref w none = 0
other_ref w (some t) = ref_of w t

-- An open table over a live box.
pub data IsOpenTable {L : Type 0} (w : World L) : LuaTable → Type 0 where
  open_over :
      {o r : ℕ} {ob : Object} (l : Option GoLuaVmWrapper)
      → w.objects o ≡ some ob
      → ob.ptr ≢ 0
      → w.boxes ob.ptr ≡ some (ref_box RefKind.table r)
      → IsOpenTable w (table_over l o)

abbrev pub AreOpenTables : {L : Type 0} → World L → Option LuaTable → Type 0
AreOpenTables w none = Unit
AreOpenTables w (some t) = IsOpenTable w t

abbrev pub IsOpenOther : {L : Type 0} → World L → Option LuaTable → Type 0
IsOpenOther w none = ⊥
IsOpenOther w (some t) = IsOpenTable w t

-- What mluau's operation for a method returns.
abbrev pub Reply : Call → Type 0
Reply Call.clear = LuaResult (Unit {0})
Reply (Call.contains_key k) = LuaResult Bool
Reply (Call.equals t) = LuaResult Bool
Reply (Call.get k) = LuaResult LuaValue
Reply Call.is_empty = Bool
Reply Call.is_readonly = Bool
Reply Call.len = LuaResult ℕ
Reply Call.metatable = Option ℕ
Reply Call.pop = LuaResult LuaValue
Reply (Call.push k) = LuaResult (Unit {0})
Reply (Call.raw_get k) = LuaResult LuaValue
Reply (Call.raw_insert i k) = LuaResult (Unit {0})
Reply Call.raw_len = ℕ
Reply Call.raw_pop = LuaResult LuaValue
Reply (Call.raw_push k) = LuaResult (Unit {0})
Reply (Call.raw_remove k) = LuaResult (Unit {0})
Reply (Call.raw_set k v) = LuaResult (Unit {0})
Reply (Call.set k v) = LuaResult (Unit {0})
Reply (Call.set_metatable t) = LuaResult (Unit {0})
Reply (Call.set_readonly b) = Unit {0}
Reply (Call.set_safe_env b) = Unit {0}
Reply Call.pointer = ℕ
Reply Call.to_string = Bytes

module _ {L : Type 0} (m : Mluau L) (w : World L) (r : ℕ) where
  -- The operation of mluau that a method stands for, on the table `r` and the Lua values of the arguments.
  abbrev pub ask : (c : Call) → Go L (Reply c)
  ask Call.clear = m.clear r
  ask (Call.contains_key k) = m.contains_key r (lua_of k)
  ask (Call.equals t) = m.equals r (other_ref w t)
  ask (Call.get k) = m.get r (lua_of k)
  ask Call.is_empty = m.is_empty r
  ask Call.is_readonly = m.is_readonly r
  ask Call.len = m.len r
  ask Call.metatable = m.metatable r
  ask Call.pop = m.pop r
  ask (Call.push k) = m.push r (lua_of k)
  ask (Call.raw_get k) = m.raw_get r (lua_of k)
  ask (Call.raw_insert i k) = m.raw_insert r i (lua_of k)
  ask Call.raw_len = m.raw_len r
  ask Call.raw_pop = m.raw_pop r
  ask (Call.raw_push k) = m.raw_push r (lua_of k)
  ask (Call.raw_remove k) = m.raw_remove r (lua_of k)
  ask (Call.raw_set k v) = m.raw_set r (lua_of k) (lua_of v)
  ask (Call.set k v) = m.set r (lua_of k) (lua_of v)
  ask (Call.set_metatable t) = m.set_metatable r (refs_of w t)
  ask (Call.set_readonly b) = m.set_readonly r b
  ask (Call.set_safe_env b) = m.set_safeenv r b
  ask Call.pointer = m.table_to_pointer r
  ask Call.to_string = m.table_debug r

-- Scalar arguments, and open tables.
abbrev pub IsAskable : {L : Type 0} → World L → Call → Type 0
IsAskable w Call.clear = Unit
IsAskable w (Call.contains_key k) = IsGiven k
IsAskable w (Call.equals t) = IsOpenOther w t
IsAskable w (Call.get k) = IsGiven k
IsAskable w Call.is_empty = Unit
IsAskable w Call.is_readonly = Unit
IsAskable w Call.len = Unit
IsAskable w Call.metatable = Unit
IsAskable w Call.pop = Unit
IsAskable w (Call.push k) = IsGiven k
IsAskable w (Call.raw_get k) = IsGiven k
IsAskable w (Call.raw_insert i k) = IsGiven k
IsAskable w Call.raw_len = Unit
IsAskable w Call.raw_pop = Unit
IsAskable w (Call.raw_push k) = IsGiven k
IsAskable w (Call.raw_remove k) = IsGiven k
IsAskable w (Call.raw_set k v) = IsGiven k × IsGiven v
IsAskable w (Call.set k v) = IsGiven k × IsGiven v
IsAskable w (Call.set_metatable t) = AreOpenTables w t
IsAskable w (Call.set_readonly b) = Unit
IsAskable w (Call.set_safe_env b) = Unit
IsAskable w Call.pointer = Unit
IsAskable w Call.to_string = Unit

abbrev pub answered_by : {A B : Type 0} → (A → B) → LuaResult A → LuaResult B
answered_by f (ok a) = ok (f a)
answered_by f (err e) = err e

-- The answer of a method; `c_text` is the text as it goes through a C string.
abbrev pub answer_to : (Bytes → Bytes) → (c : Call) → Reply c → LuaResult Answer
answer_to c_text Call.clear x = answered_by (λ a. nothing) x
answer_to c_text (Call.contains_key k) x = answered_by (flag) x
answer_to c_text (Call.equals t) x = answered_by (flag) x
answer_to c_text (Call.get k) x = answered_by (λ x. value (scalar_of x)) x
answer_to c_text Call.is_empty x = ok (flag x)
answer_to c_text Call.is_readonly x = ok (flag x)
answer_to c_text Call.len x = answered_by (count) x
answer_to c_text Call.metatable x = ok (table none)
answer_to c_text Call.pop x = answered_by (λ x. value (scalar_of x)) x
answer_to c_text (Call.push k) x = answered_by (λ a. nothing) x
answer_to c_text (Call.raw_get k) x = answered_by (λ x. value (scalar_of x)) x
answer_to c_text (Call.raw_insert i k) x = answered_by (λ a. nothing) x
answer_to c_text Call.raw_len x = ok (count x)
answer_to c_text Call.raw_pop x = answered_by (λ x. value (scalar_of x)) x
answer_to c_text (Call.raw_push k) x = answered_by (λ a. nothing) x
answer_to c_text (Call.raw_remove k) x = answered_by (λ a. nothing) x
answer_to c_text (Call.raw_set k v) x = answered_by (λ a. nothing) x
answer_to c_text (Call.set k v) x = answered_by (λ a. nothing) x
answer_to c_text (Call.set_metatable t) x = answered_by (λ a. nothing) x
answer_to c_text (Call.set_readonly b) x = ok (nothing)
answer_to c_text (Call.set_safe_env b) x = ok (nothing)
answer_to c_text Call.pointer x = ok (count x)
answer_to c_text Call.to_string x = ok (bytes (c_text x))

-- Replies without a Lua object.
abbrev pub IsScalarReply : LuaResult LuaValue → Type 0
IsScalarReply (ok x) = IsLuaScalar x
IsScalarReply (err e) = Unit

abbrev pub IsNone : Option ℕ → Type 0
IsNone none = Unit
IsNone (some t) = ⊥

abbrev pub IsPlainReply : (c : Call) → Reply c → Type 0
IsPlainReply Call.clear x = Unit
IsPlainReply (Call.contains_key k) x = Unit
IsPlainReply (Call.equals t) x = Unit
IsPlainReply (Call.get k) x = IsScalarReply x
IsPlainReply Call.is_empty x = Unit
IsPlainReply Call.is_readonly x = Unit
IsPlainReply Call.len x = Unit
IsPlainReply Call.metatable x = IsNone x
IsPlainReply Call.pop x = IsScalarReply x
IsPlainReply (Call.push k) x = Unit
IsPlainReply (Call.raw_get k) x = IsScalarReply x
IsPlainReply (Call.raw_insert i k) x = Unit
IsPlainReply Call.raw_len x = Unit
IsPlainReply Call.raw_pop x = IsScalarReply x
IsPlainReply (Call.raw_push k) x = Unit
IsPlainReply (Call.raw_remove k) x = Unit
IsPlainReply (Call.raw_set k v) x = Unit
IsPlainReply (Call.set k v) x = Unit
IsPlainReply (Call.set_metatable t) x = Unit
IsPlainReply (Call.set_readonly b) x = Unit
IsPlainReply (Call.set_safe_env b) x = Unit
IsPlainReply Call.pointer x = Unit
IsPlainReply Call.to_string x = Unit
