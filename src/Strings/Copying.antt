-- ===== src/Strings/Copying.antt =====
-- The copies that Go makes of the bytes of strings and errors.
use gluau.Prelude.{
  ℕ, zero, suc, ◌%◌, ◌^◌, ◌<◌, ◌≤◌, ◌≡◌, refl, sym, ap, ◌∙◌, ◌≢◌, ◌↔◌, ◌⊎◌, inl, inr, false, true,
  Option, none, some, List, [], ◌∷◌, Bytes, text, update_self, ==-ne, ltb, if◌then◌else◌, length,
  take, take_all, Bool-cases, arith,
}
use gluau.World.{
  free_error, string, ref_box, error_box, Object, World, Go, ◌>>=◌, returned, panicked, alloc,
}
use gluau.Mluau.{Mluau}
use gluau.Ffi.Boxes.{c_string, has_nul, luago_error_new}
use gluau.Ffi.Ownership.{with_box, read_ref-some, read_error-some}
use gluau.Object.{pointer_no_lock, unless_closed}
use gluau.Object.Locks.{held, reading-held, reading-panicked}
use gluau.Object.Sound.{
  IsSound, with_object, new_object-some, with_object-IsSound, with_box-IsSound, with_box-Unowned,
}
use gluau.Handles.{error_variant_tab}
use gluau.Value.Cloning.{pointer_no_lock-open}
use gluau.Vm.Create.{create_error_variant}
use gluau.Strings.{
  go_bytes, luago_string_as_bytes, luago_error_get_string, to_str, bytes, error_bytes,
}

module _ {ℓ} {A : Type ℓ} where
  length-take : (n : ℕ) (xs : List A) → length (take n xs) ≤ n
  length-take zero xs = omega arith
  length-take (suc n) [] = omega arith
  length-take (suc n) (x ∷ xs) = omega (arith, length-take n xs)

module _ {L : Type 0} where
  go_bytes-short :
      (s : Bytes) (w : World L) → length s < 2 ^ 31 → go_bytes s w ≡ returned (some s) w
  unfolding go_bytes
  go_bytes-short s w short = rw (low, fits, take_all s) refl
    where
      low : length s % 2 ^ 32 ≡ length s
      low = omega arith

      fits : ltb (length s) (2 ^ 31) ≡ true
      fits = ground arith

  -- The two ways in which `GoBytes` ends.
  go_bytes-cases :
      (s : Bytes)
      → ((t : Bytes) × ((w : World L) → go_bytes s w ≡ returned (some t) w)
          × (t ≡ s → length s < 2 ^ 31)
          × (length s < 2 ^ 31 → t ≡ s))
        ⊎ (((w : World L) → go_bytes s w ≡ panicked (text "gobytes: length out of range") w)
            × (2 ^ 31 ≤ length s))
  unfolding go_bytes
  go_bytes-cases s = elim (Bool-cases (ltb (length s % 2 ^ 32) (2 ^ 31))) [
    | inl fits ↦ inl (
      take (length s % 2 ^ 32) s,
      λ w. rw fits refl,
      λ same. ground (arith, ap length same, length-take (length s % 2 ^ 32) s),
      λ short. ap (λ n. take n s) (omega (arith, short)) ∙ take_all s,
    )
    | inr long ↦ inr (λ w. rw long refl, ground (arith, long))
  ]

module _ {L : Type 0} (m : Mluau L) where
  same_bytes : (t s : Bytes) (w : World L) → returned (some t) w ≡ returned (some s) w → t ≡ s
  same_bytes t s w same = cc

  -- Of an open string with the bytes `s`, `Bytes` gives all of them exactly when there are fewer
  -- than 2 ^ 31; the lock is as before.
  pub bytes-exact :
      (o r : ℕ) (s : Bytes) (w : World L) {ob : Object}
      → w.objects o ≡ some ob
      → ob.writing ≡ false
      → ob.ptr ≢ 0
      → w.boxes ob.ptr ≡ some (ref_box string r)
      → ((u : World L) → m.as_bytes r u ≡ returned s u)
      → (bytes m (record { object = some o }) w ≡ returned (some s) w) ↔ (length s < 2 ^ 31)
  unfolding bytes
  bytes-exact o r s w {ob} here free ne there holds = elim (go_bytes-cases {L = L} s) [
    | inl copied ↦
        let run : bytes m (record { object = some o }) w ≡ returned (some copied.0) w =
          reading-held o body w w _ here free here (reads ∙ copied.1 (held o ob w)) in
        (
          λ same. copied.2 (same_bytes copied.0 s w (sym run ∙ same)),
          λ short. run ∙ ap (λ t. returned (some t) w) (copied.3 short),
        )
    | inr long ↦
        let run : bytes m (record { object = some o }) w
            ≡ panicked (text "gobytes: length out of range") w =
          reading-panicked o body w w _ here free here (reads ∙ long.0 (held o ob w)) in
        (λ same. cc, λ short. ground (arith, long.1))
  ]
    where
      body : Go L (Option Bytes)
      body u =
          unless_closed (pointer_no_lock (some o) u) none
            λ ptr. luago_string_as_bytes m ptr >>= go_bytes

      reads : body (held o ob w) ≡ go_bytes s (held o ob w)
      reads =
          rw
            (
              pointer_no_lock-open o (held o ob w) (update_self w.objects o _) ne,
              ==-ne ob.ptr 0 ne,
              read_ref-some (held o ob w) string ob.ptr there,
              holds,
            )
            refl

  -- The text of an error that was made of `s`: C text has no NUL, and Rust's text is UTF-8.
  abbrev pub error_text_of : Bytes → Bytes
  error_text_of s =
      if has_nul s
      then text "Invalid error string"
      else if m.is_utf8 s
      then s
      else text "Invalid error string"

  to_str-c_string : (s : Bytes) → to_str m (c_string s) ≡ error_text_of s
  unfolding c_string
  to_str-c_string s = elim (Bool-cases (has_nul s)) [
    | inl nul ↦ rw nul (ground arith)
    | inr none_there ↦ rw none_there refl
  ]

  error_text_of-short : (s : Bytes) → length s < 2 ^ 31 → length (error_text_of s) < 2 ^ 31
  unfolding text
  error_text_of-short s short = elim (Bool-cases (has_nul s)) [
    | inl nul ↦ rw nul (omega arith)
    | inr none_there ↦ elim (Bool-cases (m.is_utf8 s)) [
      | inl utf8 ↦ rw (none_there, utf8) short
      | inr other ↦ rw (none_there, other) (omega arith)
    ]
  ]

  error_bytes-open :
      (o : ℕ) (e s : Bytes) (w : World L) {ob : Object}
      → w.objects o ≡ some ob
      → ob.ptr ≢ 0
      → w.boxes ob.ptr ≡ some (error_box e)
      → to_str m e ≡ s
      → length s < 2 ^ 31
      → error_bytes m (record { object = some o }) w ≡ returned (some s) w
  unfolding error_bytes luago_error_get_string
  error_bytes-open o e s w {ob} here ne there is short =
      rw (pointer_no_lock-open o w here ne, ==-ne ob.ptr 0 ne, read_error-some w ob.ptr there, is)
        (go_bytes-short s w short)

  -- In a sound world, the bytes of an error that was made of any fewer than 2 ^ 31 bytes are these
  -- bytes, if there is no NUL in them and they are UTF-8, and `Invalid error string` else; the world
  -- is sound afterwards.
  pub error_bytes-create_error_variant :
      (s : Bytes) (w : World L)
      → IsSound w
      → length s < 2 ^ 31
      → (w' : World L) × ((create_error_variant s >>= error_bytes m) w
          ≡ returned (some (error_text_of s)) w')
        × IsSound w'
  unfolding create_error_variant luago_error_new alloc
  error_bytes-create_error_variant s w sound short = (
    with_object w.next_box error_variant_tab big,
    rw (new_object-some big w.next_box error_variant_tab not_null) (
        error_bytes-open w.next_object (c_string s) (error_text_of s)
          (with_object w.next_box error_variant_tab big) (update_self w.objects w.next_object _)
          not_null (update_self w.boxes w.next_box _) (to_str-c_string s)
          (error_text_of-short s short)),
    with_object-IsSound big (with_box-IsSound w (error_box (c_string s)) sound)
        (with_box-Unowned w (error_box (c_string s)) sound)
        (record {
          dtor = free_error;
          box = error_box (c_string s);
          named = refl;
          there = update_self w.boxes w.next_box _;
          fits = refl;
        }),
  )
    where
      big : World L
      big = with_box w (error_box (c_string s))

      not_null : w.next_box ≢ 0
      not_null = ground (arith, sound.positive)
