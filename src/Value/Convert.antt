-- ===== src/Value/Convert.antt =====
-- `valueFromC`, `_directValueToC` and `valueToC` of vm/value.go.
use gluau.Prelude.{ℕ, Option, none, some, Bytes, text, ◌==◌, if◌then◌else◌}
use gluau.World.{returned, undefined, Go, pure, fail, ◌>>=◌, catch, nil_dereference}
use gluau.Mluau.{Mluau}
use gluau.Object.{new_object, pointer_no_lock, reading}
use gluau.Handles.{
  GoLuaVmWrapper, string_tab, table_tab, function_tab, userdata_tab, error_variant_tab,
}
use gluau.Value.Types.{LuaValueType, Value, object, needs_clone}
use gluau.Value.Clone.{
  Payload, GoLuaValue, word, of_bool, as_bool, of_floats, float_x, float_y, float_z, c_value, c_nil,
  luago_value_clone,
}
use gluau.Vm.Strings.{create_string_as_ptr}

module _ {L : Type 0} where
  -- `*valPtr`, for a `valPtr` that points into C memory
  unfoldable pub c_word : ℕ → Go L ℕ
  c_word p w = elim (w.words p) [ none ↦ undefined | some n ↦ returned n w ]

  from_tagged : Option GoLuaVmWrapper → LuaValueType → Payload → Go L Value
  unfolding c_word new_object
  from_tagged l LuaValueType.nil d = pure Value.nil
  from_tagged l LuaValueType.boolean d = pure (Value.boolean (as_bool d))
  from_tagged l LuaValueType.light_user_data d = do
    val ← c_word d.lo
    pure (Value.light_user_data val)
  from_tagged l LuaValueType.integer d = pure (Value.integer d.lo)
  from_tagged l LuaValueType.number d = pure (Value.number d.lo)
  from_tagged l LuaValueType.vector d = pure (Value.vector (float_x d) (float_y d) (float_z d))
  from_tagged l LuaValueType.string d = do
    o ← new_object d.lo string_tab
    pure (Value.string (some (record { object = o })))
  from_tagged l LuaValueType.table d = do
    o ← new_object d.lo table_tab
    pure (Value.table (some (record { lua = l; object = o })))
  from_tagged l LuaValueType.function d = do
    o ← new_object d.lo function_tab
    pure (Value.function (some (record { object = o; lua = none })))
  from_tagged l LuaValueType.thread d = pure (Value.thread d.lo)
  from_tagged l LuaValueType.user_data d = do
    o ← new_object d.lo userdata_tab
    pure (Value.user_data (some (record { lua = none; object = o })))
  from_tagged l LuaValueType.buffer d = pure (Value.buffer d.lo)
  from_tagged l LuaValueType.error d = do
    o ← new_object d.lo error_variant_tab
    pure (Value.error (some (record { object = o })))
  from_tagged l LuaValueType.other d = pure Value.other
  from_tagged l LuaValueType.custom_go_string d = pure Value.other

  unfoldable pub value_from_c : Option GoLuaVmWrapper → GoLuaValue → Go L Value
  unfolding from_tagged
  value_from_c l item = from_tagged l item.tag item.payload

  -- The pointer of a value's object, with the error that a closed one gives.
  unfoldable pub open_pointer : Option ℕ → Bytes → Go L ℕ
  unfolding pointer_no_lock
  open_pointer o message = catch (pointer_no_lock o) (λ _. fail message)

module _ {L : Type 0} (m : Mluau L) where
  unfoldable pub direct_value_to_c : Option GoLuaVmWrapper → Value → Go L GoLuaValue
  unfolding open_pointer create_string_as_ptr
  direct_value_to_c l Value.nil = pure c_nil
  direct_value_to_c l (Value.boolean b) = pure (c_value LuaValueType.boolean (of_bool b))
  direct_value_to_c l (Value.light_user_data p) =
      pure (c_value LuaValueType.light_user_data (word p))
  direct_value_to_c l (Value.integer i) = pure (c_value LuaValueType.integer (word i))
  direct_value_to_c l (Value.number n) = pure (c_value LuaValueType.number (word n))
  direct_value_to_c l (Value.vector x y z) = pure (c_value LuaValueType.vector (of_floats x y z))
  direct_value_to_c l (Value.string none) = nil_dereference
  direct_value_to_c l (Value.string (some s)) = do
    ptr ← open_pointer s.object (text "cannot convert closed LuaString to C value")
    pure (c_value LuaValueType.string (word ptr))
  direct_value_to_c l (Value.table none) = nil_dereference
  direct_value_to_c l (Value.table (some t)) = do
    ptr ← open_pointer t.object (text "cannot convert closed LuaTable to C value")
    pure (c_value LuaValueType.string (word ptr))
  direct_value_to_c l (Value.function none) = nil_dereference
  direct_value_to_c l (Value.function (some f)) = do
    ptr ← open_pointer f.object (text "cannot convert closed LuaFunction to C value")
    pure (c_value LuaValueType.function (word ptr))
  direct_value_to_c l (Value.thread p) =
      if p == 0
      then fail (text "cannot convert nil LuaThread to C value")
      else pure (c_value LuaValueType.thread (word p))
  direct_value_to_c l (Value.user_data none) = nil_dereference
  direct_value_to_c l (Value.user_data (some u)) = do
    ptr ← open_pointer u.object (text "cannot convert closed LuaUserData to C value")
    pure (c_value LuaValueType.user_data (word ptr))
  direct_value_to_c l (Value.buffer p) =
      if p == 0
      then fail (text "cannot convert nil LuaBuffer to C value")
      else pure (c_value LuaValueType.buffer (word p))
  direct_value_to_c l (Value.error none) = nil_dereference
  direct_value_to_c l (Value.error (some e)) = do
    ptr ← open_pointer e.object (text "cannot convert closed ErrorVariant to C value")
    pure (c_value LuaValueType.error (word ptr))
  direct_value_to_c l Value.other = pure (c_value LuaValueType.other (word 0))
  direct_value_to_c l (Value.go_string s) = do
    ptr ← create_string_as_ptr m l s
    pure (c_value LuaValueType.string (word ptr))

  -- What `valueToC` does under the lock.
  unfoldable pub convert : Option GoLuaVmWrapper → Value → Go L GoLuaValue
  unfolding direct_value_to_c needs_clone luago_value_clone
  convert l v = do
    cptr ← direct_value_to_c l v
    if needs_clone v then luago_value_clone m cptr else pure cptr

  abbrev pub reading_if : {A : Type 0} → Option ℕ → Go L A → Go L A
  reading_if none body = body
  reading_if (some o) body = reading (some o) body

  unfoldable pub value_to_c : Option GoLuaVmWrapper → Option Value → Go L GoLuaValue
  unfolding object reading convert
  value_to_c l none = fail (text "cannot convert nil value to C")
  value_to_c l (some v) = do obj ← object v; reading_if obj (convert l v)
