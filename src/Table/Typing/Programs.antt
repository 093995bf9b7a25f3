-- ===== src/Table/Typing/Programs.antt =====
-- Go programs that receive, make, send and close values and call the methods of their tables, in any
-- order.
pub mod Safety
use gluau.Prelude.{
  ℕ, ◌≡◌, ◌≢◌, ◌∙◌, refl, sym, subst, Bool, true, false, Option, none, some, List, [], ◌∷◌, inl,
  inr, Bool-cases, if◌then◌else◌, Option-cases,
}
use gluau.World.{World, Go, returned, pure, ◌>>=◌, catch}
use gluau.Mluau.{Mluau}
use gluau.Handles.{GoLuaVmWrapper, LuaTable, lua_vm_tab}
use gluau.Object.Lifetime.{IsQuiet}
use gluau.Value.Types.{Value}
use gluau.Value.Typing.{
  IsCalm, Ensures, Ensures-and_then, Ensures-on_error, Ensures-returned, Ensures-weaken, Has,
  IsPlain, wrapping, IsTyped, plain, cloned, error, thread, buffer, Settled,
}
use gluau.Value.Cloning
use gluau.Value.Typing
use gluau.Value.Typing.Runs
use gluau.Value.Typing.Closed.{Keeps-Stays, Keeps-IsQuiet}
use gluau.Value.Typing.Runs.{
  Step, IsLegal, nth, nth-IsTyped, some-inj, run_step, AreTyped, AreTyped-Stays, run_step-Stands,
}
use gluau.Value.Typing.Sent.{is_table}
use gluau.Table.Calls.{Call, Answer, nothing, flag, count, value, table, bytes, perform}
use gluau.Table.Typing.Steps.{IsArgument}
use gluau.Table.Typing.Defaults.{IsTableOf, over, AreTablesOf}
use gluau.Table.Typing.Methods.{perform-typed}
use gluau.Table.Typing.Obedient.{IsObedient, IsTypedCall, IsTypedAnswer}

-- A method with its arguments; a number counts back to a value that the program has.
pub data Request : Type 0 where
  clear : Request
  contains_key : ℕ → Request
  equals : ℕ → Request
  get : ℕ → Request
  is_empty : Request
  is_readonly : Request
  len : Request
  metatable : Request
  pop : Request
  push : ℕ → Request
  raw_get : ℕ → Request
  raw_insert : ℕ → ℕ → Request
  raw_len : Request
  raw_pop : Request
  raw_push : ℕ → Request
  raw_remove : ℕ → Request
  raw_set : ℕ → ℕ → Request
  set : ℕ → ℕ → Request
  set_metatable : ℕ → Request
  set_readonly : Bool → Request
  set_safe_env : Bool → Request
  pointer : Request
  to_string : Request

-- A value that is no table, or nil.
abbrev pub no_table : Option Value → Option Value
no_table none = none
no_table (some v) = if is_table v then none else some v

abbrev pub pick : List Value → ℕ → Option Value
pick vs n = no_table (nth vs n)

abbrev pub table_of : Value → Option LuaTable
table_of (Value.table t) = t
table_of _ = none

abbrev pub table_in : List Value → ℕ → Option LuaTable
table_in vs n = elim (nth vs n) [ none ↦ none | some v ↦ table_of v ]

abbrev pub with_other : Option LuaTable → Option Call
with_other none = none
with_other (some t) = some (Call.equals (some t))

-- `none` where another table is asked for and there is none.
abbrev pub resolve : List Value → Request → Option Call
resolve vs Request.clear = some Call.clear
resolve vs (Request.contains_key k) = some (Call.contains_key (pick vs k))
resolve vs (Request.equals k) = with_other (table_in vs k)
resolve vs (Request.get k) = some (Call.get (pick vs k))
resolve vs Request.is_empty = some Call.is_empty
resolve vs Request.is_readonly = some Call.is_readonly
resolve vs Request.len = some Call.len
resolve vs Request.metatable = some Call.metatable
resolve vs Request.pop = some Call.pop
resolve vs (Request.push k) = some (Call.push (pick vs k))
resolve vs (Request.raw_get k) = some (Call.raw_get (pick vs k))
resolve vs (Request.raw_insert i k) = some (Call.raw_insert i (pick vs k))
resolve vs Request.raw_len = some Call.raw_len
resolve vs Request.raw_pop = some Call.raw_pop
resolve vs (Request.raw_push k) = some (Call.raw_push (pick vs k))
resolve vs (Request.raw_remove k) = some (Call.raw_remove (pick vs k))
resolve vs (Request.raw_set k x) = some (Call.raw_set (pick vs k) (pick vs x))
resolve vs (Request.set k x) = some (Call.set (pick vs k) (pick vs x))
resolve vs (Request.set_metatable k) = some (Call.set_metatable (table_in vs k))
resolve vs (Request.set_readonly b) = some (Call.set_readonly b)
resolve vs (Request.set_safe_env b) = some (Call.set_safe_env b)
resolve vs Request.pointer = some Call.pointer
resolve vs Request.to_string = some Call.to_string

-- The program keeps the values and tables that it gets.
abbrev pub keep : Answer → List Value → List Value
keep nothing vs = vs
keep (flag b) vs = vs
keep (count n) vs = vs
keep (value v) vs = v ∷ vs
keep (table none) vs = vs
keep (table (some t)) vs = Value.table (some t) ∷ vs
keep (bytes s) vs = vs

-- A step of Value/Typing/Runs, or a call of a method of one of the program's tables.
pub data Action : Type 0 where
  step : Step → Action
  call : ℕ → Request → Action

abbrev pub IsAllowed : Action → Type 0
IsAllowed (step s) = IsLegal s
IsAllowed (call k r) = Unit

abbrev pub AreAllowed : List Action → Type 0
AreAllowed [] = Unit
AreAllowed (a ∷ as_) = IsAllowed a × AreAllowed as_

module _ {L : Type 0} (m : Mluau L) (l : Option GoLuaVmWrapper) where
  -- The program goes on after an error.
  unfoldable pub call_on : Option LuaTable → Option Call → List Value → Go L (List Value)
  unfolding perform
  call_on none c vs = pure vs
  call_on (some t) none vs = pure vs
  call_on (some t) (some c) vs = catch (do a ← perform m t c; pure (keep a vs)) λ e. pure vs

  unfoldable pub run_action : Action → List Value → Go L (List Value)
  unfolding run_step call_on
  run_action (step s) vs = run_step m l s vs
  run_action (call k r) vs = call_on (table_in vs k) (resolve vs r) vs

  unfoldable pub run_actions : List Action → List Value → Go L (List Value)
  unfolding run_action
  run_actions [] vs = pure vs
  run_actions (a ∷ as_) vs = run_action a vs >>= run_actions as_
