-- ===== src/Chunk/Empty.antt =====
-- `LoadChunk` of an empty chunk that has a name.
use gluau.Prelude.{
  ℕ, ◌+◌, ◌≡◌, refl, ap, ◌∙◌, ◌≢◌, false, Option, none, some, [], ◌∷◌, Bytes, text, update_self,
  ==-ne, arith,
}
use gluau.World.{◌>>=◌, Object, chunk_box, error_text, World, returned, failed, alloc}
use gluau.Mluau.{Mluau}
use gluau.Ffi.Ownership.{with_box, without}
use gluau.Object.{pointer_no_lock}
use gluau.Result.Errors.{c_result-err, go_result-error}
use gluau.Object.Locks.{held, reading-failed}
use gluau.Object.Sound.{IsSound, Unowned, with_box-IsSound, with_box-Unowned, without-IsSound}
use gluau.Result.{without_nul}
use gluau.Compiler.{CompilerOpts, CompilerLevels, to_uint8, to_c}
use gluau.Vm.Strings.{with_lua}
use gluau.Value.Cloning.{pointer_no_lock-open}
use gluau.Chunk.{map_option, ChunkOpts, new_chunk_string, luago_load_chunk, load_with, load_chunk}
use gluau.Chunk.Loaded.{vm_over}

abbrev pub null_message : Bytes
null_message = text "LuaVmWrapper pointer or ChunkOpts code is null"

abbrev pub no_code : Bytes → ℕ → Option CompilerOpts → ChunkOpts
no_code name mode copts = record {
  name = name;
  env = none;
  mode = mode;
  compiler_opts = copts;
  code = [];
}

plain : without_nul null_message ≡ null_message
unfolding without_nul text
plain = refl

module _ {L : Type 0} (m : Mluau L) (i b : ℕ) (name : Bytes) (mode : ℕ)
    (copts : Option CompilerOpts) where
  -- The name's box is made, and so is the error's, which is freed again.
  abbrev left_over : World L → World L
  left_over u =
      without (with_box (with_box u (chunk_box (b ∷ name))) (error_text null_message))
        (u.next_box + 1)

  luago_load_chunk-null :
      (lua n mode' : ℕ) (levels : Option CompilerLevels) (u : World L)
      → lua ≢ 0
      → luago_load_chunk m lua
          (record { name = n; env = 0; mode = mode'; compiler_opts = levels; code = 0 })
          u
        ≡ returned (record { value = 0; error = u.next_box }) (with_box u (error_text null_message))
  unfolding luago_load_chunk
  luago_load_chunk-null lua n mode' levels u ne = rw (==-ne lua 0 ne) (
      c_result-err 0 null_message u
      ∙ ap (λ e. returned (record { value = 0; error = u.next_box }) (with_box u (error_text e)))
          plain)

  load_with-empty :
      (lua : ℕ) (u : World L)
      → lua ≢ 0
      → load_with m (vm_over i) (no_code (b ∷ name) mode copts) lua 0 u
        ≡ failed null_message (left_over u)
  unfolding load_with new_chunk_string alloc
  load_with-empty lua u ne = rw (
    luago_load_chunk-null lua u.next_box (to_uint8 mode) (map_option to_c copts)
        (with_box u (chunk_box (b ∷ name))) ne,
    go_result-error {A = ℕ} (record { value = 0; error = u.next_box + 1 })
        (with_box (with_box u (chunk_box (b ∷ name))) (error_text null_message)) {e = null_message}
        (ground arith) (update_self (with_box u (chunk_box (b ∷ name))).boxes (u.next_box + 1) _),
  )

  -- `LoadChunk` of an empty chunk with a name fails, though no code is a chunk for Lua, and the
  -- box of the name stays behind: it is live, and no object owns it.
  pub load_chunk-empty :
      (w : World L) {ob : Object}
      → IsSound w
      → w.objects i ≡ some ob
      → ob.writing ≡ false
      → ob.ptr ≢ 0
      → (w' : World L) × (load_chunk m (vm_over i) (no_code (b ∷ name) mode copts) w
          ≡ failed null_message w')
        × IsSound w'
        × (w.boxes w.next_box ≡ none)
        × (w'.boxes w.next_box ≡ some (chunk_box (b ∷ name)))
        × Unowned w' w.next_box
  unfolding load_chunk with_lua
  load_chunk-empty w {ob} sound here free ne = (
    left_over w,
    reading-failed i
        (pointer_no_lock (some i) >>= λ lua.
          load_with m (vm_over i) (no_code (b ∷ name) mode copts) lua 0)
        w (left_over w) _ here free here
        (rw (pointer_no_lock-open i (held i ob w) (update_self w.objects i _) ne)
          (load_with-empty ob.ptr (held i ob w) ne)),
    without-IsSound big (w.next_box + 1) (with_box-IsSound one (error_text null_message) first)
        (with_box-Unowned one (error_text null_message) first),
    sound.fresh_box w.next_box (omega arith),
    ground arith,
    with_box-Unowned w (chunk_box (b ∷ name)) sound,
  )
    where
      one : World L
      one = with_box w (chunk_box (b ∷ name))

      first : IsSound one
      first = with_box-IsSound w (chunk_box (b ∷ name)) sound

      big : World L
      big = with_box one (error_text null_message)
