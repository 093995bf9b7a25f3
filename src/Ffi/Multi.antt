-- ===== src/Ffi/Multi.antt =====
-- rustlib/rustlib/src/multivalue.rs: a queue of Lua values on the Rust heap. A Rust panic at a null
-- pointer unwinds into Go's C frames, which is undefined.
use gluau.Prelude.{ℕ, List, [], ◌∷◌, ◌++◌, Bool, true, false, ◌==◌, if◌then◌else◌, length}
use gluau.World.{
  LuaValue, Box, ref_box, error_box, multi_box, chunk_box, error_text, Go, pure, ◌>>=◌, ◌>>◌, alloc,
  load, store,
}
use gluau.Mluau.{Mluau}
use gluau.Ffi.Boxes.{undefined_behaviour, drop_if}
use gluau.Value.Clone.{GoLuaValue, to_value_from_owned, from_owned}

abbrev pub is_multi : Box → Bool
is_multi (ref_box j r) = false
is_multi (error_box e) = false
is_multi (multi_box vs) = true
is_multi (chunk_box s) = false
is_multi (error_text e) = false

module _ {L : Type 0} where
  abbrev pub values_of : Box → Go L (List LuaValue)
  values_of (ref_box j r) = undefined_behaviour
  values_of (error_box e) = undefined_behaviour
  values_of (multi_box vs) = pure vs
  values_of (chunk_box s) = undefined_behaviour
  values_of (error_text e) = undefined_behaviour

  unfoldable pub read_multi : ℕ → Go L (List LuaValue)
  unfolding load
  read_multi p = if p == 0 then undefined_behaviour else load p >>= values_of

  unfoldable pub luago_create_multivalue_with_capacity : ℕ → Go L ℕ
  unfolding alloc
  luago_create_multivalue_with_capacity cap = alloc (multi_box [])

  unfoldable pub luago_multivalue_len : ℕ → Go L ℕ
  unfolding read_multi
  luago_multivalue_len p = do vs ← read_multi p; pure (length vs)

  abbrev pub pop_front : ℕ → List LuaValue → Go L GoLuaValue
  pop_front p [] = from_owned LuaValue.nil
  pop_front p (v ∷ vs) = do store p (multi_box vs); from_owned v

  unfoldable pub luago_multivalue_pop : ℕ → Go L GoLuaValue
  unfolding read_multi store from_owned
  luago_multivalue_pop p = read_multi p >>= pop_front p

  unfoldable pub luago_free_multivalue : ℕ → Go L (Unit {0})
  unfolding drop_if
  luago_free_multivalue p = if p == 0 then pure tt else drop_if is_multi p

module _ {L : Type 0} (m : Mluau L) where
  unfoldable pub luago_multivalue_push : ℕ → GoLuaValue → Go L (Unit {0})
  unfolding read_multi store to_value_from_owned
  luago_multivalue_push p v = do
    vs ← read_multi p
    x ← to_value_from_owned m v
    store p (multi_box (vs ++ x ∷ []))
