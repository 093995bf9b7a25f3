-- ===== src/Ffi/Tables.antt =====
-- rustlib/rustlib/src/table.rs: the exported table functions, except the two iterations. Each
-- reads the handle of the table, takes over the C values that it is given, and calls mluau.
use gluau.Prelude.{ℕ, Bool, true, false, Option, none, some, text, ◌==◌, if◌then◌else◌}
use gluau.World.{RefKind, LuaValue, ref_box, error_text, Go, pure, ◌>>=◌, alloc}
use gluau.Mluau.{Mluau, LuaResult, ok, err}
use gluau.Ffi.Boxes.{read_ref, c_string}
use gluau.Result.{CResult, c_result}
use gluau.Value.Clone.{GoLuaValue, c_nil, to_value_from_owned, from_owned}

module _ {L : Type 0} where
  -- `GoValueResult::ok(GoLuaValue::from_owned(r))`
  unfoldable pub value_result : LuaResult LuaValue → Go L (CResult GoLuaValue)
  unfolding c_result from_owned
  value_result (ok v) = do c ← from_owned v; c_result c_nil (ok c)
  value_result (err e) = c_result c_nil (err e)

  abbrev pub null_table : {A : Type 0} → A → Go L (CResult A)
  null_table d = c_result d (err (text "Table pointer is null"))

  abbrev pub with_table : {A : Type 0} → ℕ → A → (ℕ → Go L (CResult A)) → Go L (CResult A)
  with_table p d body = if p == 0 then null_table d else read_ref RefKind.table p >>= body

module _ {L : Type 0} (m : Mluau L) where
  unfoldable pub luago_table_clear : ℕ → Go L (CResult (Unit {0}))
  unfolding read_ref c_result
  luago_table_clear p = with_table p tt λ t. m.clear t >>= c_result tt

  unfoldable pub luago_table_contains_key : ℕ → GoLuaValue → Go L (CResult Bool)
  unfolding read_ref c_result to_value_from_owned
  luago_table_contains_key p key =
      with_table p false
        λ t. do k ← to_value_from_owned m key; r ← m.contains_key t k; c_result false r

  unfoldable pub luago_table_equals : ℕ → ℕ → Go L (CResult Bool)
  unfolding read_ref c_result
  luago_table_equals p q =
      with_table p false λ t. with_table q false λ u. do r ← m.equals t u; c_result false r

  unfoldable pub luago_table_get : ℕ → GoLuaValue → Go L (CResult GoLuaValue)
  unfolding read_ref value_result c_result to_value_from_owned
  luago_table_get p key =
      with_table p c_nil λ t. do k ← to_value_from_owned m key; r ← m.get t k; value_result r

  unfoldable pub luago_table_is_empty : ℕ → Go L Bool
  unfolding read_ref
  luago_table_is_empty p = if p == 0 then pure true else read_ref RefKind.table p >>= m.is_empty

  unfoldable pub luago_table_is_readonly : ℕ → Go L Bool
  unfolding read_ref
  luago_table_is_readonly p =
      if p == 0 then pure true else read_ref RefKind.table p >>= m.is_readonly

  unfoldable pub luago_table_len : ℕ → Go L (CResult ℕ)
  unfolding read_ref c_result
  luago_table_len p = with_table p 0 λ t. m.len t >>= c_result 0

  abbrev pub box_metatable : Option ℕ → Go L ℕ
  box_metatable none = pure 0
  box_metatable (some t) = alloc (ref_box RefKind.table t)

  unfoldable pub luago_table_metatable : ℕ → Go L ℕ
  unfolding read_ref alloc
  luago_table_metatable p =
      if p == 0
      then pure 0
      else do t ← read_ref RefKind.table p; mt ← m.metatable t; box_metatable mt

  unfoldable pub luago_table_pop : ℕ → Go L (CResult GoLuaValue)
  unfolding read_ref value_result c_result
  luago_table_pop p = with_table p c_nil λ t. m.pop t >>= value_result

  unfoldable pub luago_table_push : ℕ → GoLuaValue → Go L (CResult (Unit {0}))
  unfolding read_ref c_result to_value_from_owned
  luago_table_push p v =
      with_table p tt λ t. do x ← to_value_from_owned m v; r ← m.push t x; c_result tt r

  unfoldable pub luago_table_raw_get : ℕ → GoLuaValue → Go L (CResult GoLuaValue)
  unfolding read_ref value_result c_result to_value_from_owned
  luago_table_raw_get p key =
      with_table p c_nil λ t. do k ← to_value_from_owned m key; r ← m.raw_get t k; value_result r

  unfoldable pub luago_table_raw_insert : ℕ → ℕ → GoLuaValue → Go L (CResult (Unit {0}))
  unfolding read_ref c_result to_value_from_owned
  luago_table_raw_insert p idx v =
      with_table p tt λ t. do x ← to_value_from_owned m v; r ← m.raw_insert t idx x; c_result tt r

  unfoldable pub luago_table_raw_len : ℕ → Go L ℕ
  unfolding read_ref
  luago_table_raw_len p = if p == 0 then pure 0 else read_ref RefKind.table p >>= m.raw_len

  unfoldable pub luago_table_raw_pop : ℕ → Go L (CResult GoLuaValue)
  unfolding read_ref value_result c_result
  luago_table_raw_pop p = with_table p c_nil λ t. m.raw_pop t >>= value_result

  unfoldable pub luago_table_raw_push : ℕ → GoLuaValue → Go L (CResult (Unit {0}))
  unfolding read_ref c_result to_value_from_owned
  luago_table_raw_push p v =
      with_table p tt λ t. do x ← to_value_from_owned m v; r ← m.raw_push t x; c_result tt r

  unfoldable pub luago_table_raw_remove : ℕ → GoLuaValue → Go L (CResult (Unit {0}))
  unfolding read_ref c_result to_value_from_owned
  luago_table_raw_remove p v =
      with_table p tt λ t. do x ← to_value_from_owned m v; r ← m.raw_remove t x; c_result tt r

  unfoldable pub luago_table_raw_set : ℕ → GoLuaValue → GoLuaValue → Go L (CResult (Unit {0}))
  unfolding read_ref c_result to_value_from_owned
  luago_table_raw_set p key value = with_table p tt λ t. do
    k ← to_value_from_owned m key
    x ← to_value_from_owned m value
    r ← m.raw_set t k x
    c_result tt r

  unfoldable pub luago_table_set : ℕ → GoLuaValue → GoLuaValue → Go L (CResult (Unit {0}))
  unfolding read_ref c_result to_value_from_owned
  luago_table_set p key value = with_table p tt λ t. do
    k ← to_value_from_owned m key
    x ← to_value_from_owned m value
    r ← m.set t k x
    c_result tt r

  abbrev pub metatable_arg : ℕ → Go L (Option ℕ)
  metatable_arg p = if p == 0 then pure none else do t ← read_ref RefKind.table p; pure (some t)

  unfoldable pub luago_table_set_metatable : ℕ → ℕ → Go L (CResult (Unit {0}))
  unfolding read_ref c_result
  luago_table_set_metatable p q =
      with_table p tt λ t. do mt ← metatable_arg q; r ← m.set_metatable t mt; c_result tt r

  unfoldable pub luago_table_set_readonly : ℕ → Bool → Go L (Unit {0})
  unfolding read_ref
  luago_table_set_readonly p enabled =
      if p == 0 then pure tt else do t ← read_ref RefKind.table p; m.set_readonly t enabled

  unfoldable pub luago_table_set_safeenv : ℕ → Bool → Go L (Unit {0})
  unfolding read_ref
  luago_table_set_safeenv p enabled =
      if p == 0 then pure tt else do t ← read_ref RefKind.table p; m.set_safeenv t enabled

  unfoldable pub luago_table_to_pointer : ℕ → Go L ℕ
  unfolding read_ref
  luago_table_to_pointer p =
      if p == 0 then pure 0 else read_ref RefKind.table p >>= m.table_to_pointer

  unfoldable pub luago_table_debug : ℕ → Go L ℕ
  unfolding read_ref alloc c_string
  luago_table_debug p =
      if p == 0
      then pure 0
      else do t ← read_ref RefKind.table p; s ← m.table_debug t; alloc (error_text (c_string s))
