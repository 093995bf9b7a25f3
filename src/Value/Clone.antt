-- ===== src/Value/Clone.antt =====
-- rustlib/rustlib/src/value.rs: the C values, their clones, and their conversion to and from
-- mluau's values.
use gluau.Prelude.{ℕ, ◌+◌, ◌*◌, ◌/◌, ◌%◌, ◌^◌, Bool, not, ◌==◌, if◌then◌else◌}
use gluau.World.{RefKind, LuaValue, error_box, ref_box, Go, pure, ◌>>=◌, ◌>>◌, alloc}
use gluau.Mluau.{Mluau}
use gluau.Ffi.Boxes.{
  c_string, read_ref, take_ref, read_error, luago_error_free, undefined_behaviour,
}
use gluau.Value.Types.{LuaValueType}

-- The sixteen bytes of the union `LuaValueData`, as two little-endian words.
pub record Payload : Type 0 where
  pub lo : ℕ
  pub hi : ℕ

pub record GoLuaValue : Type 0 where
  pub tag : LuaValueType
  pub payload : Payload

abbrev pub word : ℕ → Payload
word n = record { lo = n; hi = 0 }

abbrev pub of_bool : Bool → Payload
of_bool b = word (if b then 1 else 0)

abbrev pub as_bool : Payload → Bool
as_bool p = not (p.lo % 2 ^ 8 == 0)

abbrev pub of_floats : ℕ → ℕ → ℕ → Payload
of_floats x y z = record { lo = x + 2 ^ 32 * y; hi = z }

abbrev pub float_x : Payload → ℕ
float_x p = p.lo % 2 ^ 32

abbrev pub float_y : Payload → ℕ
float_y p = p.lo / 2 ^ 32

abbrev pub float_z : Payload → ℕ
float_z p = p.hi % 2 ^ 32

abbrev pub c_value : LuaValueType → Payload → GoLuaValue
c_value t p = record { tag = t; payload = p }

-- The zero value, tagged nil.
abbrev pub c_nil : GoLuaValue
c_nil = c_value LuaValueType.nil (word 0)

module _ {L : Type 0} where
  unfoldable pub clone_ref : RefKind → LuaValueType → ℕ → Go L GoLuaValue
  unfolding read_ref alloc
  clone_ref k t p =
      if p == 0
      then pure c_nil
      else do r ← read_ref k p; q ← alloc (ref_box k r); pure (c_value t (word q))

  unfoldable pub take_value : RefKind → ℕ → Go L LuaValue
  unfolding take_ref
  take_value k p =
      if p == 0 then pure LuaValue.nil else do r ← take_ref k p; pure (LuaValue.ref k r)

  box_ref : RefKind → LuaValueType → ℕ → Go L GoLuaValue
  unfolding alloc
  box_ref k t r = do p ← alloc (ref_box k r); pure (c_value t (word p))

module _ {L : Type 0} (m : Mluau L) where
  unfoldable pub clone_error : ℕ → Go L GoLuaValue
  unfolding read_error alloc c_string
  clone_error p = if p == 0 then pure (c_value LuaValueType.error (word 0)) else do
    e ← read_error p
    q ← alloc (error_box (c_string (m.lossy e)))
    pure (c_value LuaValueType.error (word q))

  clone_tagged : LuaValueType → Payload → Go L GoLuaValue
  unfolding clone_ref clone_error
  clone_tagged LuaValueType.nil d = pure c_nil
  clone_tagged LuaValueType.boolean d = pure (c_value LuaValueType.boolean (of_bool (as_bool d)))
  clone_tagged LuaValueType.light_user_data d =
      pure (c_value LuaValueType.light_user_data (word d.lo))
  clone_tagged LuaValueType.integer d = pure (c_value LuaValueType.integer (word d.lo))
  clone_tagged LuaValueType.number d = pure (c_value LuaValueType.number (word d.lo))
  clone_tagged LuaValueType.vector d =
      pure (c_value LuaValueType.vector (of_floats (float_x d) (float_y d) (float_z d)))
  clone_tagged LuaValueType.string d = clone_ref RefKind.string LuaValueType.string d.lo
  clone_tagged LuaValueType.table d = clone_ref RefKind.table LuaValueType.table d.lo
  clone_tagged LuaValueType.function d = clone_ref RefKind.function LuaValueType.function d.lo
  clone_tagged LuaValueType.thread d = clone_ref RefKind.thread LuaValueType.thread d.lo
  clone_tagged LuaValueType.user_data d = clone_ref RefKind.user_data LuaValueType.user_data d.lo
  clone_tagged LuaValueType.buffer d = clone_ref RefKind.buffer LuaValueType.buffer d.lo
  clone_tagged LuaValueType.error d = clone_error d.lo
  clone_tagged LuaValueType.other d = pure (c_value LuaValueType.other (word 0))
  clone_tagged LuaValueType.custom_go_string d = undefined_behaviour

  unfoldable pub luago_value_clone : GoLuaValue → Go L GoLuaValue
  unfolding clone_tagged
  luago_value_clone v = clone_tagged v.tag v.payload

  unfoldable pub take_error : ℕ → Go L LuaValue
  unfolding read_error luago_error_free
  take_error p =
      if p == 0
      then pure LuaValue.nil
      else do e ← read_error p; luago_error_free p; pure (LuaValue.error (m.external (m.lossy e)))

  take_tagged : LuaValueType → Payload → Go L LuaValue
  unfolding take_value take_error
  take_tagged LuaValueType.nil d = pure LuaValue.nil
  take_tagged LuaValueType.boolean d = pure (LuaValue.boolean (as_bool d))
  take_tagged LuaValueType.light_user_data d = pure (LuaValue.light_user_data d.lo)
  take_tagged LuaValueType.integer d = pure (LuaValue.integer d.lo)
  take_tagged LuaValueType.number d = pure (LuaValue.number d.lo)
  take_tagged LuaValueType.vector d = pure (LuaValue.vector (float_x d) (float_y d) (float_z d))
  take_tagged LuaValueType.string d = take_value RefKind.string d.lo
  take_tagged LuaValueType.table d = take_value RefKind.table d.lo
  take_tagged LuaValueType.function d = take_value RefKind.function d.lo
  take_tagged LuaValueType.thread d = take_value RefKind.thread d.lo
  take_tagged LuaValueType.user_data d = take_value RefKind.user_data d.lo
  take_tagged LuaValueType.buffer d = take_value RefKind.buffer d.lo
  take_tagged LuaValueType.error d = take_error d.lo
  take_tagged LuaValueType.other d = pure LuaValue.nil
  take_tagged LuaValueType.custom_go_string d = undefined_behaviour

  unfoldable pub to_value_from_owned : GoLuaValue → Go L LuaValue
  unfolding take_tagged
  to_value_from_owned v = take_tagged v.tag v.payload

module _ {L : Type 0} where
  unfoldable pub from_owned : LuaValue → Go L GoLuaValue
  unfolding alloc c_string box_ref
  from_owned LuaValue.nil = pure c_nil
  from_owned (LuaValue.boolean b) = pure (c_value LuaValueType.boolean (of_bool b))
  from_owned (LuaValue.light_user_data p) = pure (c_value LuaValueType.light_user_data (word p))
  from_owned (LuaValue.integer i) = pure (c_value LuaValueType.integer (word i))
  from_owned (LuaValue.number n) = pure (c_value LuaValueType.number (word n))
  from_owned (LuaValue.vector x y z) = pure (c_value LuaValueType.vector (of_floats x y z))
  from_owned (LuaValue.ref RefKind.string r) = box_ref RefKind.string LuaValueType.string r
  from_owned (LuaValue.ref RefKind.table r) = box_ref RefKind.table LuaValueType.table r
  from_owned (LuaValue.ref RefKind.function r) = box_ref RefKind.function LuaValueType.function r
  from_owned (LuaValue.ref RefKind.thread r) = box_ref RefKind.thread LuaValueType.thread r
  from_owned (LuaValue.ref RefKind.user_data r) = box_ref RefKind.user_data LuaValueType.user_data r
  from_owned (LuaValue.ref RefKind.buffer r) = box_ref RefKind.buffer LuaValueType.buffer r
  from_owned (LuaValue.ref RefKind.lua_vm r) = undefined_behaviour
  from_owned (LuaValue.error e) = do
    p ← alloc (error_box (c_string e))
    pure (c_value LuaValueType.error (word p))
  from_owned LuaValue.other = pure (c_value LuaValueType.other (word 0))
