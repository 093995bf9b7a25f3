-- ===== src/Ffi/Boxes.antt =====
-- Boxes that are read, cloned and freed at one type: the `luago_free_*` functions, the error texts
-- of result.rs and the error variants of value.rs. A box that is read at another type than it was
-- made at, or that is gone, is undefined behaviour.
use gluau.Prelude.{ℕ, Bool, true, false, [], ◌∷◌, ◌||◌, Bytes, text, ◌==◌, if◌then◌else◌}
use gluau.World.{
  RefKind, string, table, function, user_data, lua_vm, same_kind, Box, ref_box, error_box,
  multi_box, chunk_box, error_text, Dtor, free_lua_vm, free_string, free_table, free_function,
  free_userdata, free_error, undefined, Go, pure, ◌>>=◌, ◌>>◌, alloc, load, release,
}

abbrev pub is_ref : RefKind → Box → Bool
is_ref k (ref_box j r) = same_kind k j
is_ref k (error_box e) = false
is_ref k (multi_box vs) = false
is_ref k (chunk_box s) = false
is_ref k (error_text e) = false

abbrev pub is_error : Box → Bool
is_error (ref_box j r) = false
is_error (error_box e) = true
is_error (multi_box vs) = false
is_error (chunk_box s) = false
is_error (error_text e) = false

-- Every byte but NUL can stand in a `CString`.
unfoldable pub has_nul : Bytes → Bool
has_nul [] = false
has_nul (b ∷ s) = (b == 0) || has_nul s

unfoldable pub c_string : Bytes → Bytes
c_string s = if has_nul s then text "Invalid error string" else s

module _ {L A : Type 0} where
  abbrev pub undefined_behaviour : Go L A
  undefined_behaviour _ = undefined

module _ {L : Type 0} where
  -- Reads the handle of a Lua object out of its box.
  abbrev pub handle_of : RefKind → Box → Go L ℕ
  handle_of k (ref_box j r) = if same_kind k j then pure r else undefined_behaviour
  handle_of k (error_box e) = undefined_behaviour
  handle_of k (multi_box vs) = undefined_behaviour
  handle_of k (chunk_box s) = undefined_behaviour
  handle_of k (error_text e) = undefined_behaviour

  unfoldable pub read_ref : RefKind → ℕ → Go L ℕ
  unfolding load
  read_ref k p = load p >>= handle_of k

  -- `*Box::from_raw(p)`: the box is freed and what it held is moved out.
  unfoldable pub take_ref : RefKind → ℕ → Go L ℕ
  unfolding read_ref release
  take_ref k p = do r ← read_ref k p; release p; pure r

  abbrev pub error_of : Box → Go L Bytes
  error_of (error_box e) = pure e
  error_of (ref_box j r) = undefined_behaviour
  error_of (multi_box vs) = undefined_behaviour
  error_of (chunk_box s) = undefined_behaviour
  error_of (error_text e) = undefined_behaviour

  unfoldable pub read_error : ℕ → Go L Bytes
  unfolding load
  read_error p = load p >>= error_of

  abbrev pub chunk_of : Box → Go L Bytes
  chunk_of (chunk_box s) = pure s
  chunk_of (ref_box j r) = undefined_behaviour
  chunk_of (error_box e) = undefined_behaviour
  chunk_of (multi_box vs) = undefined_behaviour
  chunk_of (error_text e) = undefined_behaviour

  unfoldable pub read_chunk : ℕ → Go L Bytes
  unfolding load
  read_chunk p = load p >>= chunk_of

  -- Frees the box at `p` if it is of the type that the caller names.
  unfoldable pub drop_if : (Box → Bool) → ℕ → Go L (Unit {0})
  unfolding load release
  drop_if test p = do b ← load p; if test b then release p else undefined_behaviour

  unfoldable pub luago_free_string : ℕ → Go L (Unit {0})
  unfolding drop_if
  luago_free_string p = if p == 0 then pure tt else drop_if (is_ref string) p

  unfoldable pub luago_free_table : ℕ → Go L (Unit {0})
  unfolding drop_if
  luago_free_table p = if p == 0 then pure tt else drop_if (is_ref table) p

  unfoldable pub luago_free_function : ℕ → Go L (Unit {0})
  unfolding drop_if
  luago_free_function p = if p == 0 then pure tt else drop_if (is_ref function) p

  unfoldable pub luago_free_userdata : ℕ → Go L (Unit {0})
  unfolding drop_if
  luago_free_userdata p = if p == 0 then pure tt else drop_if (is_ref user_data) p

  unfoldable pub luago_error_free : ℕ → Go L (Unit {0})
  unfolding drop_if
  luago_error_free p = if p == 0 then pure tt else drop_if is_error p

  -- The only one that does not test for null.
  unfoldable pub freeluavm : ℕ → Go L (Unit {0})
  unfolding drop_if
  freeluavm p = drop_if (is_ref lua_vm) p

  unfoldable pub luago_error_new : Bytes → Go L ℕ
  unfolding alloc c_string
  luago_error_new s = alloc (error_box (c_string s))

  -- What a call of the destructor of an object table runs. That mluau may call Go back when the last
  -- reference to a Lua object goes is left out.
  unfoldable pub run_dtor : Dtor → ℕ → Go L (Unit {0})
  unfolding luago_free_string luago_free_table luago_free_function luago_free_userdata
      luago_error_free freeluavm
  run_dtor free_lua_vm = freeluavm
  run_dtor free_string = luago_free_string
  run_dtor free_table = luago_free_table
  run_dtor free_function = luago_free_function
  run_dtor free_userdata = luago_free_userdata
  run_dtor free_error = luago_error_free

-- Which boxes a destructor frees.
abbrev pub frees : Dtor → Box → Bool
frees free_lua_vm = is_ref lua_vm
frees free_string = is_ref string
frees free_table = is_ref table
frees free_function = is_ref function
frees free_userdata = is_ref user_data
frees free_error = is_error
