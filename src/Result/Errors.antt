-- ===== src/Result/Errors.antt =====
-- A Rust error that Go reads, frees and returns.
use gluau.Prelude.{
  ℕ, ◌≡◌, refl, ◌≢◌, false, inl, inr, some, [], ◌∷◌, Bytes, update_self, ==-ne, Bool-cases, ◌==◌,
  arith,
}
use gluau.World.{error_text, World, Go, ◌>>=◌, returned, failed}
use gluau.Mluau.{LuaResult, err}
use gluau.Ffi.Boxes.{c_string, has_nul}
use gluau.Ffi.Ownership.{with_box, without, load-some, release-some}
use gluau.Object.Sound.{IsSound, with_box-IsSound, with_box-Unowned, without-IsSound}
use gluau.Result.{
  CResult, without_nul, to_error, c_result, go_result, move_text, move_error_to_go_error,
}

has_nul-without_nul : (e : Bytes) → has_nul (without_nul e) ≡ false
unfolding has_nul without_nul
has_nul-without_nul [] = refl
has_nul-without_nul (b ∷ e) = elim (Bool-cases (b == 0)) [
  | inl z ↦ rw z (has_nul-without_nul e)
  | inr n ↦ rw (n, n) (has_nul-without_nul e)
]

-- Without NULs there is nothing that a C string cannot hold.
pub c_string-without_nul : (e : Bytes) → c_string (without_nul e) ≡ without_nul e
unfolding c_string
c_string-without_nul e = rw (has_nul-without_nul e) refl

module _ {L : Type 0} where
  pub c_result-err :
      {A : Type 0} (d : A) (e : Bytes) (w : World L)
      → c_result d (err e) w
        ≡ returned
            (record { value = d; error = w.next_box })
            (with_box w (error_text (without_nul e)))
  unfolding c_result to_error
  c_result-err d e w = rw (c_string-without_nul e) refl

  pub go_result-error :
      {A : Type 0} (r : CResult A) (w : World L) {e : Bytes}
      → r.error ≢ 0
      → w.boxes r.error ≡ some (error_text e)
      → go_result r w ≡ failed e (without w r.error)
  unfolding go_result move_error_to_go_error move_text
  go_result-error r w ne there =
      rw (==-ne r.error 0 ne, load-some w r.error there, release-some w r.error there)

-- A result of mluau on its way to Go.
unfoldable pub passed_on : {L A : Type 0} → A → LuaResult A → Go L A
passed_on d r = c_result d r >>= go_result

-- An error of mluau reaches the caller in Go as its text without the NULs, whichever value stands
-- beside it, and the box that carried it is gone again: every box and object is as before.
pub passed_on-err :
    {L A : Type 0} (d : A) (e : Bytes) (w : World L)
    → IsSound w
    → (w' : World L) × (passed_on d (err e) w ≡ failed (without_nul e) w')
      × (has_nul (without_nul e) ≡ false)
      × ((p : ℕ) → w'.boxes p ≡ w.boxes p)
      × ((o : ℕ) → w'.objects o ≡ w.objects o)
      × IsSound w'
unfolding passed_on
passed_on-err {L} d e w sound = (
  without big w.next_box,
  rw (c_result-err d e w) (
      go_result-error (record { value = d; error = w.next_box }) big
        (ground (arith, sound.positive)) (update_self w.boxes w.next_box _)),
  has_nul-without_nul e,
  λ p. ground (arith, sound.fresh_box p),
  λ o. refl,
  without-IsSound big w.next_box (with_box-IsSound w (error_text (without_nul e)) sound)
      (with_box-Unowned w (error_text (without_nul e)) sound),
)
  where
    big : World L
    big = with_box w (error_text (without_nul e))
