-- ===== src/Table/Calls.antt =====
-- The methods of a table but ForEach and ForEachValue as data, and what each does on a closed one.
use gluau.Prelude.{ℕ, ◌≡◌, Bool, true, false, Option, none, some, [], Bytes, text, update_self}
use gluau.World.{Object, World, Run, returned, failed, Go, pure, ◌>>=◌}
use gluau.Mluau.{Mluau}
use gluau.Object.Locks.{held, rlock-held, runlock-held}
use gluau.Handles.{GoLuaVmWrapper, LuaTable}
use gluau.Value.Types.{Value}
use gluau.Value.Refused.{pointer_no_lock-closed}
use gluau.Table
use gluau.Table.{inner_ptr}

-- A method of `LuaTable` other than the two loops, with its arguments.
pub data Call : Type 0 where
  clear : Call
  contains_key : Option Value → Call
  equals : Option LuaTable → Call
  get : Option Value → Call
  is_empty : Call
  is_readonly : Call
  len : Call
  metatable : Call
  pop : Call
  push : Option Value → Call
  raw_get : Option Value → Call
  raw_insert : ℕ → Option Value → Call
  raw_len : Call
  raw_pop : Call
  raw_push : Option Value → Call
  raw_remove : Option Value → Call
  raw_set : Option Value → Option Value → Call
  set : Option Value → Option Value → Call
  set_metatable : Option LuaTable → Call
  set_readonly : Bool → Call
  set_safe_env : Bool → Call
  pointer : Call
  to_string : Call

-- What a method gives back beside an error.
pub data Answer : Type 0 where
  nothing : Answer
  flag : Bool → Answer
  count : ℕ → Answer
  value : Value → Answer
  table : Option LuaTable → Answer
  bytes : Bytes → Answer

-- What a call on a closed table gives: `none` is an error.
abbrev pub on_closed : Call → Option Answer
on_closed Call.clear = none
on_closed (Call.contains_key k) = none
on_closed (Call.equals t2) = none
on_closed (Call.get k) = none
on_closed Call.is_empty = some (flag true)
on_closed Call.is_readonly = some (flag true)
on_closed Call.len = none
on_closed Call.metatable = some (table none)
on_closed Call.pop = none
on_closed (Call.push v) = none
on_closed (Call.raw_get k) = none
on_closed (Call.raw_insert i v) = none
on_closed Call.raw_len = some (count 0)
on_closed Call.raw_pop = none
on_closed (Call.raw_push v) = none
on_closed (Call.raw_remove k) = none
on_closed (Call.raw_set k v) = none
on_closed (Call.set k v) = none
on_closed (Call.set_metatable mt) = none
on_closed (Call.set_readonly b) = some nothing
on_closed (Call.set_safe_env b) = some nothing
on_closed Call.pointer = some (count 0)
on_closed Call.to_string = some (bytes [])

module _ {L : Type 0} where
  abbrev pub answered : {A : Type 0} → (A → Answer) → Go L A → Go L Answer
  answered f call = call >>= λ a. pure (f a)

  abbrev pub done : Go L (Unit {0}) → Go L Answer
  done = answered (λ _. nothing)

  abbrev pub outcome : Option Answer → World L → Run L Answer
  outcome none w = failed (text "cannot use closed object") w
  outcome (some a) w = returned a w

module _ {L : Type 0} (m : Mluau L) where
  unfoldable pub perform : LuaTable → Call → Go L Answer
  unfolding Table.clear Table.contains_key Table.equals Table.get Table.is_empty Table.is_readonly
      Table.len Table.metatable Table.pop Table.push Table.raw_get Table.raw_insert Table.raw_len
      Table.raw_pop Table.raw_push Table.raw_remove Table.raw_set Table.set Table.set_metatable
      Table.set_readonly Table.set_safe_env Table.pointer Table.to_string
  perform t Call.clear = done (Table.clear m t)
  perform t (Call.contains_key k) = answered flag (Table.contains_key m t k)
  perform t (Call.equals t2) = answered flag (Table.equals m t t2)
  perform t (Call.get k) = answered value (Table.get m t k)
  perform t Call.is_empty = answered flag (Table.is_empty m t)
  perform t Call.is_readonly = answered flag (Table.is_readonly m t)
  perform t Call.len = answered count (Table.len m t)
  perform t Call.metatable = answered table (Table.metatable m t)
  perform t Call.pop = answered value (Table.pop m t)
  perform t (Call.push v) = done (Table.push m t v)
  perform t (Call.raw_get k) = answered value (Table.raw_get m t k)
  perform t (Call.raw_insert i v) = done (Table.raw_insert m t i v)
  perform t Call.raw_len = answered count (Table.raw_len m t)
  perform t Call.raw_pop = answered value (Table.raw_pop m t)
  perform t (Call.raw_push v) = done (Table.raw_push m t v)
  perform t (Call.raw_remove k) = done (Table.raw_remove m t k)
  perform t (Call.raw_set k v) = done (Table.raw_set m t k v)
  perform t (Call.set k v) = done (Table.set m t k v)
  perform t (Call.set_metatable mt) = done (Table.set_metatable m t mt)
  perform t (Call.set_readonly b) = done (Table.set_readonly m t b)
  perform t (Call.set_safe_env b) = done (Table.set_safe_env m t b)
  perform t Call.pointer = answered count (Table.pointer m t)
  perform t Call.to_string = answered bytes (Table.to_string m t)

abbrev pub table_over : Option GoLuaVmWrapper → ℕ → LuaTable
table_over lua o = record { lua = lua; object = some o }

-- On a closed table each of these methods that can return an error returns "cannot use closed object", and
-- the others their fixed answer; mluau is not called, and the world, locks included, is as before.
pub perform-closed :
    {L : Type 0} (m : Mluau L) (lua : Option GoLuaVmWrapper) (o : ℕ) (w : World L) {ob : Object}
    → w.objects o ≡ some ob
    → ob.writing ≡ false
    → ob.ptr ≡ 0
    → (c : Call) → perform m (table_over lua o) c w ≡ outcome (on_closed c) w
unfolding perform
perform-closed m lua o w {ob} here free gone Call.clear = rw (
  rlock-held o w here free,
  pointer_no_lock-closed o (held o ob w) (update_self w.objects o _) gone,
  runlock-held o w here,
)
perform-closed m lua o w {ob} here free gone _ = rw (
  rlock-held o w here free,
  pointer_no_lock-closed o (held o ob w) (update_self w.objects o _) gone,
  runlock-held o w here,
)
