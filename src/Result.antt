-- ===== src/Result.antt =====
-- vm/result.go and rustlib/rustlib/src/result.rs: results that carry an error as a C string, which
-- Rust allocates and Go frees.
pub mod Errors
use gluau.Prelude.{ℕ, [], ◌∷◌, Option, none, some, Bytes, ◌==◌, if◌then◌else◌}
use gluau.World.{
  RefKind, Box, ref_box, error_box, multi_box, chunk_box, error_text, Go, pure, fail, ◌>>=◌, ◌>>◌,
  alloc, load, release,
}
use gluau.Mluau.{LuaResult, ok, err}
use gluau.Ffi.Boxes.{undefined_behaviour, c_string}

-- `error` is null when the call succeeded.
pub record CResult (A : Type 0) : Type 0 where
  pub value : A
  pub error : ℕ

-- `error.replace('\0', "")`
unfoldable pub without_nul : Bytes → Bytes
without_nul [] = []
without_nul (b ∷ s) = if b == 0 then without_nul s else b ∷ without_nul s

module _ {L : Type 0} where
  unfoldable pub to_error : Bytes → Go L ℕ
  unfolding alloc c_string without_nul
  to_error s = alloc (error_text (c_string (without_nul s)))

  abbrev pub text_of : Box → Go L Bytes
  text_of (error_text e) = pure e
  text_of (ref_box j r) = undefined_behaviour
  text_of (error_box e) = undefined_behaviour
  text_of (multi_box vs) = undefined_behaviour
  text_of (chunk_box s) = undefined_behaviour

  -- `C.GoString(err)`, then `luago_result_error_free(err)`
  move_text : ℕ → Go L Bytes
  unfolding load release
  move_text p = do e ← load p >>= text_of; release p; pure e

  unfoldable pub move_error_to_go : ℕ → Go L Bytes
  unfolding move_text
  move_error_to_go p = if p == 0 then pure [] else move_text p

  unfoldable pub move_error_to_go_error : ℕ → Go L (Option Bytes)
  unfolding move_text
  move_error_to_go_error p = if p == 0 then pure none else do e ← move_text p; pure (some e)

module _ {L A : Type 0} where
  -- `Ok(v) => …::ok(v), Err(err) => …::err(format!("{err}"))`, with the value that stands beside an
  -- error.
  unfoldable pub c_result : A → LuaResult A → Go L (CResult A)
  unfolding to_error
  c_result d (ok a) = pure (record { value = a; error = 0 })
  c_result d (err e) = do p ← to_error e; pure (record { value = d; error = p })

  abbrev pub return_error : A → Option Bytes → Go L A
  return_error a none = pure a
  return_error a (some e) = fail e

  -- `if res.error != nil { return …, moveErrorToGoError(res.error) }; return res.value, nil`
  unfoldable pub go_result : CResult A → Go L A
  unfolding move_error_to_go_error
  go_result r =
      if r.error == 0
      then pure r.value
      else do e ← move_error_to_go_error r.error; return_error r.value e

module _ {L : Type 0} where
  -- The same where the value is a Lua object, of which Go gets a box.
  unfoldable pub boxed_result : RefKind → LuaResult ℕ → Go L (CResult ℕ)
  unfolding c_result alloc
  boxed_result k (ok r) = do p ← alloc (ref_box k r); pure (record { value = p; error = 0 })
  boxed_result k (err e) = c_result 0 (err e)
