-- ===== src/Value/Types.antt =====
-- The `Value` interface of vm/value.go and its implementations. A typed nil pointer behind the
-- interface is not modelled; the pointers inside the values may be nil.
use gluau.Prelude.{ℕ, Bool, true, false, Option, none, some, Bytes}
use gluau.World.{Go, pure, nil_dereference}
use gluau.Handles.{
  LuaString, LuaTable, LuaFunction, LuaUserData, ErrorVariant, close_string, close_table,
  close_function, close_user_data, close_error,
}

-- `LuaValueType`; the last one is Go's own, and stands for every number that is no tag of C.
pub data LuaValueType : Type 0 where
  nil boolean light_user_data integer number vector string table function thread user_data buffer
        error other custom_go_string :
      LuaValueType

abbrev pub type_number : LuaValueType → ℕ
type_number LuaValueType.nil = 0
type_number LuaValueType.boolean = 1
type_number LuaValueType.light_user_data = 2
type_number LuaValueType.integer = 3
type_number LuaValueType.number = 4
type_number LuaValueType.vector = 5
type_number LuaValueType.string = 6
type_number LuaValueType.table = 7
type_number LuaValueType.function = 8
type_number LuaValueType.thread = 9
type_number LuaValueType.user_data = 10
type_number LuaValueType.buffer = 11
type_number LuaValueType.error = 12
type_number LuaValueType.other = 13
type_number LuaValueType.custom_go_string = 14

-- Integers and floats are their bit patterns; threads and buffers are bare pointers from Rust.
pub data Value : Type 0 where
  nil : Value
  boolean : Bool → Value
  light_user_data : ℕ → Value
  integer : ℕ → Value
  number : ℕ → Value
  vector : ℕ → ℕ → ℕ → Value
  string : Option LuaString → Value
  table : Option LuaTable → Value
  function : Option LuaFunction → Value
  thread : ℕ → Value
  user_data : Option LuaUserData → Value
  buffer : ℕ → Value
  error : Option ErrorVariant → Value
  other : Value
  go_string : Bytes → Value

-- The interface `Value`: what a type that implements it answers.
pub record Methods (L : Type 0) : Type 0 where
  pub type : LuaValueType
  pub close : Go L (Unit {0})
  pub object : Go L (Option ℕ)
  pub needs_clone : Bool

module _ {L : Type 0} where
  -- The types that hold no object of their own, and whose `Close` does nothing.
  abbrev pub plain : LuaValueType → Bool → Methods L
  plain t clone = record { type = t; close = pure tt; object = pure none; needs_clone = clone }

  abbrev pub value_nil : Methods L
  value_nil = plain LuaValueType.nil false

  abbrev pub value_boolean : Methods L
  value_boolean = plain LuaValueType.boolean false

  abbrev pub value_light_user_data : Methods L
  value_light_user_data = plain LuaValueType.light_user_data false

  abbrev pub value_integer : Methods L
  value_integer = plain LuaValueType.integer false

  abbrev pub value_number : Methods L
  value_number = plain LuaValueType.number false

  abbrev pub value_vector : Methods L
  value_vector = plain LuaValueType.vector false

  abbrev pub value_thread : Methods L
  value_thread = plain LuaValueType.thread true

  abbrev pub value_buffer : Methods L
  value_buffer = plain LuaValueType.buffer true

  abbrev pub value_other : Methods L
  value_other = plain LuaValueType.other false

  abbrev pub value_go_string : Methods L
  value_go_string = plain LuaValueType.custom_go_string false

  -- Strings, tables and errors guard against a nil pointer, functions and userdata do not.
  abbrev pub string_object : Option LuaString → Go L (Option ℕ)
  string_object none = pure none
  string_object (some s) = pure s.object

  abbrev pub table_object : Option LuaTable → Go L (Option ℕ)
  table_object none = pure none
  table_object (some t) = pure t.object

  abbrev pub function_object : Option LuaFunction → Go L (Option ℕ)
  function_object none = nil_dereference
  function_object (some f) = pure f.object

  abbrev pub user_data_object : Option LuaUserData → Go L (Option ℕ)
  user_data_object none = nil_dereference
  user_data_object (some u) = pure u.object

  abbrev pub error_object : Option ErrorVariant → Go L (Option ℕ)
  error_object none = pure none
  error_object (some e) = pure e.object

  unfoldable pub value_string : Option LuaString → Methods L
  unfolding close_string
  value_string s = record {
    type = LuaValueType.string;
    close = close_string s;
    object = string_object s;
    needs_clone = true;
  }

  unfoldable pub value_table : Option LuaTable → Methods L
  unfolding close_table
  value_table t = record {
    type = LuaValueType.table;
    close = close_table t;
    object = table_object t;
    needs_clone = true;
  }

  unfoldable pub value_function : Option LuaFunction → Methods L
  unfolding close_function
  value_function f = record {
    type = LuaValueType.function;
    close = close_function f;
    object = function_object f;
    needs_clone = true;
  }

  unfoldable pub value_user_data : Option LuaUserData → Methods L
  unfolding close_user_data
  value_user_data u = record {
    type = LuaValueType.user_data;
    close = close_user_data u;
    object = user_data_object u;
    needs_clone = true;
  }

  unfoldable pub value_error : Option ErrorVariant → Methods L
  unfolding close_error
  value_error e = record {
    type = LuaValueType.error;
    close = close_error e;
    object = error_object e;
    needs_clone = true;
  }

  -- Which type's methods a call through the interface runs.
  unfoldable pub methods : Value → Methods L
  unfolding value_string value_table value_function value_user_data value_error
  methods Value.nil = value_nil
  methods (Value.boolean b) = value_boolean
  methods (Value.light_user_data p) = value_light_user_data
  methods (Value.integer i) = value_integer
  methods (Value.number n) = value_number
  methods (Value.vector x y z) = value_vector
  methods (Value.string s) = value_string s
  methods (Value.table t) = value_table t
  methods (Value.function f) = value_function f
  methods (Value.thread p) = value_thread
  methods (Value.user_data u) = value_user_data u
  methods (Value.buffer p) = value_buffer
  methods (Value.error e) = value_error e
  methods Value.other = value_other
  methods (Value.go_string s) = value_go_string

  unfoldable pub object : Value → Go L (Option ℕ)
  unfolding methods
  object v = (methods v).object

  unfoldable pub close : Value → Go L (Unit {0})
  unfolding methods
  close v = (methods v).close

-- These two answers do not depend on the state of the Lua virtual machine.
unfoldable pub type_of : Value → LuaValueType
unfolding methods
type_of v = (methods {L = Unit {0}} v).type

unfoldable pub needs_clone : Value → Bool
unfolding methods
needs_clone v = (methods {L = Unit {0}} v).needs_clone
