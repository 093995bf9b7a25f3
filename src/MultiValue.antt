-- ===== src/MultiValue.antt =====
-- vm/multivalue.go: the barrier through which Go and Rust exchange lists of values.
pub mod Transfer
pub mod Failure
use gluau.Prelude.{
  ℕ, zero, suc, Option, none, some, List, [], ◌∷◌, ◌++◌, Bytes, ◌==◌, if◌then◌else◌, length,
}
use gluau.World.{
  Run, failed, panicked, Go, World, pure, fail, ◌>>=◌, ◌>>◌, and_then, nil_dereference, catch,
}
use gluau.Mluau.{Mluau}
use gluau.Ffi.Multi.{
  luago_create_multivalue_with_capacity, luago_multivalue_push, luago_multivalue_pop,
  luago_multivalue_len, luago_free_multivalue,
}
use gluau.Handles.{GoLuaVmWrapper}
use gluau.Value.Types.{Value}
use gluau.Value.Convert.{value_to_c, value_from_c}

pub record LuaMultiValue : Type 0 where
  pub lua : Option GoLuaVmWrapper
  pub ptr : ℕ

module _ {L : Type 0} where
  unfoldable pub new_multi_value_with_capacity :
      Option GoLuaVmWrapper → ℕ → Go L (Option LuaMultiValue)
  unfolding luago_create_multivalue_with_capacity
  new_multi_value_with_capacity l cap = do
    ptr ← luago_create_multivalue_with_capacity cap
    if ptr == 0 then pure none else pure (some (record { lua = l; ptr = ptr }))

  unfoldable pub pop : LuaMultiValue → Go L Value
  unfolding luago_multivalue_pop value_from_c
  pop mv = do c ← luago_multivalue_pop mv.ptr; value_from_c mv.lua c

  unfoldable pub len : LuaMultiValue → Go L ℕ
  unfolding luago_multivalue_len
  len mv = luago_multivalue_len mv.ptr

  -- The loop of `take`, with the rounds that are left and the values so far.
  unfoldable pub take_loop : LuaMultiValue → ℕ → List Value → Go L (List Value)
  unfolding pop
  take_loop mv zero values = pure values
  take_loop mv (suc n) values = pop mv >>= λ v. take_loop mv n (values ++ v ∷ [])

  unfoldable pub take : LuaMultiValue → Go L (List Value)
  unfolding len take_loop
  take mv = do n ← len mv; take_loop mv n []

  unfoldable pub close : LuaMultiValue → Go L LuaMultiValue
  unfolding luago_free_multivalue
  close mv = do luago_free_multivalue mv.ptr; pure (record mv { ptr = 0 })

module _ {L : Type 0} (m : Mluau L) where
  unfoldable pub push : LuaMultiValue → Option Value → Go L (Unit {0})
  unfolding value_to_c luago_multivalue_push
  push mv value = do c ← value_to_c m mv.lua value; luago_multivalue_push m mv.ptr c

  -- `mw.close(); return nil, err`
  abbrev pub abandon : LuaMultiValue → Bytes → Go L (Unit {0})
  abandon mw e = close mw >>= λ _. fail e

  unfoldable pub push_all : LuaMultiValue → List (Option Value) → Go L (Unit {0})
  unfolding push close
  push_all mw [] = pure tt
  push_all mw (v ∷ vs) = catch (push mw v) (abandon mw) >> push_all mw vs

  -- A nil multi-value panics at its first use. Rust never returns the null pointer that makes one.
  abbrev pub not_nil : Option LuaMultiValue → Go L LuaMultiValue
  not_nil none = nil_dereference
  not_nil (some mw) = pure mw

  unfoldable pub multi_value_from_values :
      Option GoLuaVmWrapper → List (Option Value) → Go L LuaMultiValue
  unfolding new_multi_value_with_capacity push_all
  multi_value_from_values l values = do
    new ← new_multi_value_with_capacity l (length values)
    mw ← not_nil new
    push_all mw values
    pure mw
