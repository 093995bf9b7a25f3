-- ===== src/Ffi/Ownership.antt =====
-- What the functions of Ffi/Boxes.antt do to a box that is there, and of the right type.
use gluau.Prelude.{ℕ, ◌+◌, ◌≡◌, ◌≢◌, Bool, true, false, none, some, update, ==-refl, ==-ne, Bytes}
use gluau.World.{
  RefKind, same_kind, Box, ref_box, error_box, chunk_box, Dtor, free_lua_vm, free_string,
  free_table, free_function, free_userdata, free_error, World, returned, undefined, load, release,
  store,
}
use gluau.Ffi.Boxes.{
  frees, drop_if, run_dtor, luago_free_string, luago_free_table, luago_free_function,
  luago_free_userdata, luago_error_free, freeluavm, read_ref, take_ref, read_error, read_chunk,
}

pub same_kind_refl : (k : RefKind) → same_kind k k ≡ true
same_kind_refl k = ==-refl _

module _ {L : Type 0} (w : World L) where
  abbrev pub without : ℕ → World L
  without p = record w { boxes = update w.boxes p none }

  -- The world after an allocation of `b`.
  abbrev pub with_box : Box → World L
  with_box b = record w { boxes = update w.boxes w.next_box (some b); next_box = w.next_box + 1 }

  pub load-some : (p : ℕ) {b : Box} → w.boxes p ≡ some b → load p w ≡ returned b w
  unfolding load
  load-some p there = rw (there, load)

  pub release-some : (p : ℕ) {b : Box} → w.boxes p ≡ some b → release p w ≡ returned tt (without p)
  unfolding release
  release-some p there = rw (there, release)

  pub store-some :
      (p : ℕ) (b : Box) {a : Box}
      → w.boxes p ≡ some a
      → store p b w ≡ returned tt (record w { boxes = update w.boxes p (some b) })
  unfolding store
  store-some p b there = rw (there, store)

  pub drop_if-without :
      (test : Box → Bool) (p : ℕ) {b : Box}
      → w.boxes p ≡ some b
      → test b ≡ true
      → drop_if test p w ≡ returned tt (without p)
  unfolding drop_if
  drop_if-without test p there fits = rw (load-some p there, fits, release-some p there)

  -- A destructor frees a live box of its type.
  pub run_dtor-without :
      (d : Dtor) (p : ℕ) {b : Box}
      → p ≢ 0
      → w.boxes p ≡ some b
      → frees d b ≡ true
      → run_dtor d p w ≡ returned tt (without p)
  unfolding run_dtor luago_free_string luago_free_table luago_free_function luago_free_userdata
      luago_error_free freeluavm
  run_dtor-without free_lua_vm p ne there fits = drop_if-without _ p there fits
  run_dtor-without free_string p ne there fits = rw (==-ne p 0 ne) (drop_if-without _ p there fits)
  run_dtor-without free_table p ne there fits = rw (==-ne p 0 ne) (drop_if-without _ p there fits)
  run_dtor-without free_function p ne there fits =
      rw (==-ne p 0 ne) (drop_if-without _ p there fits)
  run_dtor-without free_userdata p ne there fits =
      rw (==-ne p 0 ne) (drop_if-without _ p there fits)
  run_dtor-without free_error p ne there fits = rw (==-ne p 0 ne) (drop_if-without _ p there fits)

  pub read_ref-some :
      (k : RefKind) (p : ℕ) {r : ℕ} → w.boxes p ≡ some (ref_box k r) → read_ref k p w ≡ returned r w
  unfolding read_ref
  read_ref-some k p there = rw (load-some p there, same_kind_refl k)

  pub take_ref-some :
      (k : RefKind) (p : ℕ) {r : ℕ}
      → w.boxes p ≡ some (ref_box k r)
      → take_ref k p w ≡ returned r (without p)
  unfolding take_ref
  take_ref-some k p there = rw (read_ref-some k p there, release-some p there)

  -- Rust reads a handle only at the type at which it made it.
  pub read_ref-wrong :
      (j k : RefKind) (p : ℕ) {r : ℕ}
      → w.boxes p ≡ some (ref_box k r)
      → same_kind j k ≡ false
      → read_ref j p w ≡ undefined
  unfolding read_ref
  read_ref-wrong j k p there differ = rw (load-some p there, differ)

  pub read_error-some :
      (p : ℕ) {e : Bytes} → w.boxes p ≡ some (error_box e) → read_error p w ≡ returned e w
  unfolding read_error
  read_error-some p there = rw (load-some p there)

  pub read_chunk-some :
      (p : ℕ) {s : Bytes} → w.boxes p ≡ some (chunk_box s) → read_chunk p w ≡ returned s w
  unfolding read_chunk
  read_chunk-some p there = rw (load-some p there)
