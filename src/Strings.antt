-- ===== src/Strings.antt =====
-- vm/string.go and vm/errorvariant.go, and the functions of rustlib's string.rs and value.rs that
-- they call: the bytes behind a Lua string and behind an error.
pub mod Copying
pub mod Creation
use gluau.Prelude.{
  ℕ, ◌%◌, ◌^◌, Option, none, some, [], Bytes, text, ◌==◌, ltb, if◌then◌else◌, length, take,
}
use gluau.World.{string, Go, pure, panic, ◌>>=◌}
use gluau.Mluau.{Mluau}
use gluau.Ffi.Boxes.{read_ref, read_error}
use gluau.Object.{reading, pointer_no_lock, unless_closed}
use gluau.Handles.{LuaString, ErrorVariant}
use gluau.Value.Types.{Value}

module _ {L : Type 0} where
  -- `C.GoBytes(memory, C.int(n))`: a length of 2 ^ 31 or more is a negative `C.int`, which panics, and
  -- one of 2 ^ 32 or more loses its high bits.
  unfoldable pub go_bytes : Bytes → Go L (Option Bytes)
  go_bytes memory =
      let n = length memory % 2 ^ 32 in
      if ltb n (2 ^ 31)
      then pure (some (take n memory))
      else panic (text "gobytes: length out of range")

module _ {L : Type 0} (m : Mluau L) where
  unfoldable pub luago_string_as_bytes : ℕ → Go L Bytes
  unfolding read_ref
  luago_string_as_bytes p = if p == 0 then pure [] else read_ref string p >>= m.as_bytes

  unfoldable pub luago_string_as_bytes_with_nul : ℕ → Go L Bytes
  unfolding read_ref
  luago_string_as_bytes_with_nul p =
      if p == 0 then pure [] else read_ref string p >>= m.as_bytes_with_nul

  unfoldable pub luago_string_to_pointer : ℕ → Go L ℕ
  unfolding read_ref
  luago_string_to_pointer p = if p == 0 then pure 0 else read_ref string p >>= m.string_to_pointer

  -- What is not UTF-8 is replaced.
  abbrev pub to_str : Bytes → Bytes
  to_str e = if m.is_utf8 e then e else text "Invalid error string"

  unfoldable pub luago_error_get_string : ℕ → Go L Bytes
  unfolding read_error
  luago_error_get_string p = if p == 0 then pure [] else do e ← read_error p; pure (to_str e)

  -- `nil` is `none`.
  unfoldable pub bytes : LuaString → Go L (Option Bytes)
  unfolding reading pointer_no_lock luago_string_as_bytes go_bytes
  bytes s = reading s.object λ w.
      unless_closed (pointer_no_lock s.object w) none λ ptr. luago_string_as_bytes ptr >>= go_bytes

  unfoldable pub bytes_with_nul : LuaString → Go L (Option Bytes)
  unfolding reading pointer_no_lock luago_string_as_bytes_with_nul go_bytes
  bytes_with_nul s = reading s.object λ w.
      unless_closed (pointer_no_lock s.object w) none
        λ ptr. luago_string_as_bytes_with_nul ptr >>= go_bytes

  unfoldable pub pointer : LuaString → Go L ℕ
  unfolding reading pointer_no_lock luago_string_to_pointer
  pointer s =
      reading s.object λ w. unless_closed (pointer_no_lock s.object w) 0 luago_string_to_pointer

  -- `string(b)` of a nil slice is the empty string.
  abbrev pub or_empty : Option Bytes → Bytes
  or_empty none = []
  or_empty (some s) = s

  unfoldable pub to_string : LuaString → Go L Bytes
  unfolding bytes
  to_string s = do b ← bytes s; pure (or_empty b)

  -- The errors take no lock.
  unfoldable pub error_bytes : ErrorVariant → Go L (Option Bytes)
  unfolding pointer_no_lock luago_error_get_string go_bytes
  error_bytes e w =
      unless_closed (pointer_no_lock e.object w) none λ ptr. luago_error_get_string ptr >>= go_bytes

  unfoldable pub error_string : ErrorVariant → Go L Bytes
  unfolding error_bytes
  error_string e = do b ← error_bytes e; pure (or_empty b)

abbrev pub string_value : LuaString → Value
string_value s = Value.string (some s)
