-- ===== src/Value/Sending.antt =====
-- What Rust makes of a scalar that it takes over, and what Go makes of it when it comes back.
use gluau.Prelude.{◌≡◌, refl, true, false, Option, some, arith}
use gluau.World.{LuaValue, World, returned}
use gluau.Mluau.{Mluau}
use gluau.Handles.{GoLuaVmWrapper}
use gluau.Value.Types.{LuaValueType, Value}
use gluau.Value.Clone.{
  GoLuaValue, c_value, c_nil, word, of_bool, of_floats, to_value_from_owned, from_owned,
}
use gluau.Value.Convert.{value_from_c, value_to_c}
use gluau.Value.Scalars.{IsScalar}

-- The Lua value that stands for a scalar: `Other` becomes nil.
abbrev pub sent : Value → LuaValue
sent Value.nil = LuaValue.nil
sent (Value.boolean b) = LuaValue.boolean b
sent (Value.integer i) = LuaValue.integer i
sent (Value.number n) = LuaValue.number n
sent (Value.vector x y z) = LuaValue.vector x y z
sent (Value.light_user_data p) = LuaValue.nil
sent (Value.string s) = LuaValue.nil
sent (Value.table t) = LuaValue.nil
sent (Value.function f) = LuaValue.nil
sent (Value.thread p) = LuaValue.nil
sent (Value.user_data u) = LuaValue.nil
sent (Value.buffer p) = LuaValue.nil
sent (Value.error e) = LuaValue.nil
sent Value.other = LuaValue.nil
sent (Value.go_string s) = LuaValue.nil

-- What comes back for a scalar.
abbrev pub received : Value → Value
received Value.nil = Value.nil
received (Value.boolean b) = Value.boolean b
received (Value.integer i) = Value.integer i
received (Value.number n) = Value.number n
received (Value.vector x y z) = Value.vector x y z
received (Value.light_user_data p) = Value.nil
received (Value.string s) = Value.nil
received (Value.table t) = Value.nil
received (Value.function f) = Value.nil
received (Value.thread p) = Value.nil
received (Value.user_data u) = Value.nil
received (Value.buffer p) = Value.nil
received (Value.error e) = Value.nil
received Value.other = Value.nil
received (Value.go_string s) = Value.nil

-- The C value of a scalar.
pub encode : Value → GoLuaValue
encode Value.nil = c_nil
encode (Value.boolean b) = c_value LuaValueType.boolean (of_bool b)
encode (Value.light_user_data p) = c_nil
encode (Value.integer i) = c_value LuaValueType.integer (word i)
encode (Value.number n) = c_value LuaValueType.number (word n)
encode (Value.vector x y z) = c_value LuaValueType.vector (of_floats x y z)
encode (Value.string s) = c_nil
encode (Value.table t) = c_nil
encode (Value.function f) = c_nil
encode (Value.thread p) = c_nil
encode (Value.user_data u) = c_nil
encode (Value.buffer p) = c_nil
encode (Value.error e) = c_nil
encode Value.other = c_value LuaValueType.other (word 0)
encode (Value.go_string s) = c_nil

module _ {L : Type 0} (m : Mluau L) where
  pub value_to_c-encode :
      (l : Option GoLuaVmWrapper) (v : Value) (w : World L)
      → IsScalar v
      → value_to_c m l (some v) w ≡ returned (encode v) w
  unfolding value_to_c encode
  value_to_c-encode l Value.nil w h = refl
  value_to_c-encode l (Value.boolean b) w h = refl
  value_to_c-encode l (Value.light_user_data p) w h = absurd h
  value_to_c-encode l (Value.integer i) w h = refl
  value_to_c-encode l (Value.number n) w h = refl
  value_to_c-encode l (Value.vector x y z) w h = refl
  value_to_c-encode l (Value.string s) w h = absurd h
  value_to_c-encode l (Value.table t) w h = absurd h
  value_to_c-encode l (Value.function f) w h = absurd h
  value_to_c-encode l (Value.thread p) w h = absurd h
  value_to_c-encode l (Value.user_data u) w h = absurd h
  value_to_c-encode l (Value.buffer p) w h = absurd h
  value_to_c-encode l (Value.error e) w h = absurd h
  value_to_c-encode l Value.other w h = refl
  value_to_c-encode l (Value.go_string s) w h = absurd h

  pub to_value-encode :
      (v : Value) (w : World L)
      → IsScalar v
      → to_value_from_owned m (encode v) w ≡ returned (sent v) w
  unfolding to_value_from_owned encode
  to_value-encode Value.nil w h = refl
  to_value-encode (Value.boolean true) w h = refl
  to_value-encode (Value.boolean false) w h = refl
  to_value-encode (Value.light_user_data p) w h = absurd h
  to_value-encode (Value.integer i) w h = refl
  to_value-encode (Value.number n) w h = refl
  to_value-encode (Value.vector x y z) w h = ground arith
  to_value-encode (Value.string s) w h = absurd h
  to_value-encode (Value.table t) w h = absurd h
  to_value-encode (Value.function f) w h = absurd h
  to_value-encode (Value.thread p) w h = absurd h
  to_value-encode (Value.user_data u) w h = absurd h
  to_value-encode (Value.buffer p) w h = absurd h
  to_value-encode (Value.error e) w h = absurd h
  to_value-encode Value.other w h = refl
  to_value-encode (Value.go_string s) w h = absurd h

module _ {L : Type 0} where
  pub from_owned-sent :
      (v : Value) (w : World L)
      → IsScalar v
      → from_owned (sent v) w ≡ returned (encode (received v)) w
  unfolding from_owned encode
  from_owned-sent Value.nil w h = refl
  from_owned-sent (Value.boolean b) w h = refl
  from_owned-sent (Value.light_user_data p) w h = absurd h
  from_owned-sent (Value.integer i) w h = refl
  from_owned-sent (Value.number n) w h = refl
  from_owned-sent (Value.vector x y z) w h = refl
  from_owned-sent (Value.string s) w h = absurd h
  from_owned-sent (Value.table t) w h = absurd h
  from_owned-sent (Value.function f) w h = absurd h
  from_owned-sent (Value.thread p) w h = absurd h
  from_owned-sent (Value.user_data u) w h = absurd h
  from_owned-sent (Value.buffer p) w h = absurd h
  from_owned-sent (Value.error e) w h = absurd h
  from_owned-sent Value.other w h = refl
  from_owned-sent (Value.go_string s) w h = absurd h

  pub from_c-received :
      (l : Option GoLuaVmWrapper) (v : Value) (w : World L)
      → IsScalar v
      → value_from_c l (encode (received v)) w ≡ returned (received v) w
  unfolding value_from_c encode
  from_c-received l Value.nil w h = refl
  from_c-received l (Value.boolean true) w h = refl
  from_c-received l (Value.boolean false) w h = refl
  from_c-received l (Value.light_user_data p) w h = absurd h
  from_c-received l (Value.integer i) w h = refl
  from_c-received l (Value.number n) w h = refl
  from_c-received l (Value.vector x y z) w h = ground arith
  from_c-received l (Value.string s) w h = absurd h
  from_c-received l (Value.table t) w h = absurd h
  from_c-received l (Value.function f) w h = absurd h
  from_c-received l (Value.thread p) w h = absurd h
  from_c-received l (Value.user_data u) w h = absurd h
  from_c-received l (Value.buffer p) w h = absurd h
  from_c-received l (Value.error e) w h = absurd h
  from_c-received l Value.other w h = refl
  from_c-received l (Value.go_string s) w h = absurd h
