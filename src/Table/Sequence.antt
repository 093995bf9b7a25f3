-- ===== src/Table/Sequence.antt =====
-- `ForEachValue` of vm/table.go as a plain loop, with the text "stop" that ends it.
use gluau.Prelude.{
  ℕ, ◌≡◌, refl, ◌∙◌, ap, Option, none, some, List, Bytes, text, if◌then◌else◌, ==-ne, Bool-cases,
  inl, inr, update_self, arith,
}
use gluau.World.{and_then, error_text, World, returned, LuaValue, Go, pure, ◌>>=◌}
use gluau.Mluau.{Mluau, LuaResult, ok, err}
use gluau.Ffi.Ownership.{with_box, without, load-some, release-some}
use gluau.Object.Sound.{IsSound, with_box-IsSound, with_box-Unowned, without-IsSound}
use gluau.Result.{CResult, without_nul, c_result}
use gluau.Result.Errors.{c_result-err}
use gluau.Table.Iterate.{
  Progress, start, halted, Step, step, Iteration, return_errv, unless_stop, same_bytes, stop_result,
  iterate_values, finish_values,
}
use gluau.Table.Ranging.{visit, until_error, ended, visit-until_error, and_then_assoc}

-- The error that `ForEachValue` returns: that of the callback, or else that of mluau, if its text is
-- not "stop".
abbrev pub values_error : LuaResult (Unit {0}) → Option Bytes → Option Bytes
values_error last (some e) = some e
values_error (ok a) none = none
values_error (err t) none =
    if same_bytes (without_nul t) (text "stop") then none else some (without_nul t)

-- `w'` has the boxes and objects of `w`.
pub record SameThings {L : Type 0} (w w' : World L) : Type 0 where
  pub boxes : (p : ℕ) → w'.boxes p ≡ w.boxes p
  pub objects : (o : ℕ) → w'.objects o ≡ w.objects o
  pub sound : IsSound w'

module _ {L : Type 0} where
  -- The text of a result's error, moved to Go.
  moved : World L → Bytes → World L
  moved w e = without (with_box w (error_text e)) w.next_box

  moved-SameThings : (w : World L) (e : Bytes) → IsSound w → SameThings w (moved w e)
  unfolding moved
  moved-SameThings w e s = record {
    boxes = λ p. ground (arith, s.fresh_box p);
    objects = λ o. refl;
    sound =
        without-IsSound (with_box w (error_text e)) w.next_box (with_box-IsSound w (error_text e) s)
          (with_box-Unowned w (error_text e) s);
  }

  stop_result-err :
      (errv : Option Bytes) (t : Bytes) (w : World L)
      → IsSound w
      → (c_result tt (err t) >>= λ r. stop_result r errv) w
        ≡ unless_stop errv (without_nul t) (moved w (without_nul t))
  unfolding stop_result moved
  stop_result-err errv t w s =
      rw
        (
          c_result-err tt t w,
          ==-ne w.next_box 0 (ground (arith, s.positive)),
          load-some (with_box w (error_text (without_nul t))) w.next_box
              (update_self w.boxes w.next_box _),
          release-some (with_box w (error_text (without_nul t))) w.next_box
              (update_self w.boxes w.next_box _),
        )
        refl

module _ {L : Type 0} where
  packed : Progress × LuaResult (Unit {0}) → Go L (Option Bytes × CResult (Unit {0}))
  packed out = do res ← c_result tt out.1; pure (out.0.errv, res)

  after : Progress × LuaResult (Unit {0}) → Go L (Unit {0})
  unfolding packed
  after out = packed out >>= finish_values

  -- What follows an iteration that ends with `res`.
  Ends : World L → Progress × LuaResult (Unit {0}) → Option Bytes → Type 0
  Ends w out e = (w' : World L) × (after out w ≡ return_errv e w') × SameThings w w'

  unless_stop-none :
      (e : Bytes) (w : World L)
      → unless_stop none e w ≡ return_errv (if same_bytes e (text "stop") then none else some e) w
  unless_stop-none e w = elim (Bool-cases (same_bytes e (text "stop"))) [
    | inl same ↦ rw same
    | inr other ↦ rw other
  ]

  last-Ends :
      (last : LuaResult (Unit {0})) (w : World L)
      → IsSound w
      → Ends w (start, last) (values_error last none)
  unfolding Ends after packed finish_values stop_result c_result
  last-Ends (ok a) w s = (w, refl, record { boxes = λ p. refl; objects = λ o. refl; sound = s })
  last-Ends (err t) w s = (
    moved w (without_nul t),
    stop_result-err none t w s ∙ unless_stop-none (without_nul t) (moved w (without_nul t)),
    moved-SameThings w (without_nul t) s,
  )

  stopped-Ends :
      (e : Bytes) (w : World L) → IsSound w → Ends w (halted e, err (text "stop")) (some e)
  unfolding Ends after packed finish_values c_result without_nul text
  stopped-Ends e w s = (
    moved w (text "stop"),
    stop_result-err (some e) (text "stop") w s,
    moved-SameThings w (text "stop") s,
  )

  out-Ends :
      (stop : Bytes) (last : LuaResult (Unit {0})) (out : Option Bytes) (w : World L)
      → IsSound w
      → stop ≡ text "stop"
      → (w' : World L) × ((ended stop last start out >>= after) w
          ≡ return_errv (values_error last out) w')
        × SameThings w w'
  unfolding Ends
  out-Ends stop last none w s shown = last-Ends last w s
  out-Ends stop last (some e) w s shown = rw shown (stopped-Ends e w s)

module _ {L : Type 0} (m : Mluau L) (for_each_value : Iteration L LuaValue) (r : ℕ)
    (xs : List LuaValue) (last : LuaResult (Unit {0})) where
  -- mluau visits the values `xs` and ends with `last`, and shows the error "stop" as its text. Where the
  -- plain loop, which runs the callback on one value after the other until one run gives an error or
  -- panics, returns and leaves a sound world, so does the iteration of `ForEachValue` with what Go
  -- does with its result: the error returned is that of the callback, or else that of mluau without
  -- NULs unless it reads "stop"; and every box and object is as after the plain loop.
  pub iterate_values-until_error :
      (entry : LuaValue → Go L (Option Bytes)) (w : World L) {out : Option Bytes} {w' : World L}
      → ((f : Step L LuaValue) (u : World L) → for_each_value r f start u ≡ visit f xs last start u)
      → m.external (text "stop") ≡ text "stop"
      → until_error entry xs w ≡ returned out w'
      → IsSound w'
      → (u : World L) × ((iterate_values m for_each_value r entry >>= finish_values) w
          ≡ return_errv (values_error last out) u)
        × SameThings w' u
  unfolding iterate_values packed after
  iterate_values-until_error entry w {out} {w'} law shown loop s =
      let (u, run, same) = out-Ends (m.external (text "stop")) last out w' s shown in
      (
        u,
        rw law (
            and_then_assoc (visit (step (m.external (text "stop")) entry) xs last start w) packed
              finish_values
            ∙ ap (λ x. and_then x after)
                (visit-until_error (m.external (text "stop")) entry last xs start w)
            ∙ rw loop run),
        same,
      )
