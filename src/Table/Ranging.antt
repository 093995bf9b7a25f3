-- ===== src/Table/Ranging.antt =====
-- An iteration of a table as a plain loop.
use gluau.Prelude.{ℕ, ◌≡◌, refl, Option, none, some, List, [], ◌∷◌, Bytes, ◌∙◌, ap}
use gluau.World.{
  and_then, World, Run, returned, failed, panicked, undefined, blocked, LuaValue, Go, pure, fail,
  ◌>>=◌,
}
use gluau.Mluau.{Mluau, LuaResult, ok, err}
use gluau.Result.{CResult, c_result, go_result}
use gluau.Result.Errors.{passed_on}
use gluau.Table.Iterate.{
  Progress, start, halted, Step, Iteration, answer, step, or_stopped, iterate, finish,
}

module _ {L : Type 0} where
  abbrev pub on_ok :
      (Progress → Go L (Progress × LuaResult (Unit {0})))
      → Progress × LuaResult (Unit {0})
      → Go L (Progress × LuaResult (Unit {0}))
  on_ok k (st, ok a) = k st
  on_ok k (st, err e) = pure (st, err e)

  abbrev pub or_go_on : Go L (Option Bytes) → Option Bytes → Go L (Option Bytes)
  or_go_on rest none = rest
  or_go_on rest (some e) = pure (some e)

  abbrev pub ended :
      Bytes
      → LuaResult (Unit {0})
      → Progress
      → Option Bytes
      → Go L (Progress × LuaResult (Unit {0}))
  ended stop last st none = pure (st, last)
  ended stop last st (some e) = pure (halted e, err stop)

  -- The plain loop with its result: the error of the callback, or else that of mluau.
  abbrev pub ranged : LuaResult (Unit {0}) → Option Bytes → Go L (Unit {0})
  ranged last none = passed_on tt last
  ranged last (some e) = fail e

module _ {L A : Type 0} where
  -- What mluau documents of an iteration: it calls the closure on one item after the other, stops
  -- with the first error that the closure returns, and else ends with `last`.
  abbrev pub visit :
      Step L A → List A → LuaResult (Unit {0}) → Progress → Go L (Progress × LuaResult (Unit {0}))
  visit f [] last st = pure (st, last)
  visit f (x ∷ xs) last st = f x st >>= on_ok (visit f xs last)

  -- The plain loop: run the callback on one item after the other until one gives an error.
  abbrev pub until_error : (A → Go L (Option Bytes)) → List A → Go L (Option Bytes)
  until_error entry [] = pure none
  until_error entry (x ∷ xs) = entry x >>= or_go_on (until_error entry xs)
  -- How the plain loop shows in the variables of the iteration.

module _ {L A : Type 0} (stop : Bytes) (entry : A → Go L (Option Bytes))
    (last : LuaResult (Unit {0})) where
  visit-cons :
      (xs : List A) (st : Progress) (r : Run L (Option Bytes))
      → ((w : World L)
          → visit (step stop entry) xs last st w
            ≡ and_then (until_error entry xs w) (ended stop last st))
      → and_then (and_then r (answer stop st)) (on_ok (visit (step stop entry) xs last))
        ≡ and_then (and_then r (or_go_on (until_error entry xs))) (ended stop last st)
  visit-cons xs st (returned none w) rest = rest w
  visit-cons xs st (returned (some e) w) rest = refl
  visit-cons xs st (failed e w) rest = refl
  visit-cons xs st (panicked e w) rest = refl
  visit-cons xs st undefined rest = refl
  visit-cons xs st blocked rest = refl

  pub visit-until_error :
      (xs : List A) (st : Progress) (w : World L)
      → visit (step stop entry) xs last st w
        ≡ and_then (until_error entry xs w) (ended stop last st)
  visit-until_error [] st w = refl
  visit-until_error (x ∷ xs) st w = visit-cons xs st (entry x w) (visit-until_error xs st)

module _ {L : Type 0} where
  pub and_then_assoc :
      {A B C : Type 0} (r : Run L A) (f : A → Go L B) (g : B → Go L C)
      → and_then (and_then r f) g ≡ and_then r (λ a. f a >>= g)
  and_then_assoc (returned a w) f g = refl
  and_then_assoc (failed e w) f g = refl
  and_then_assoc (panicked e w) f g = refl
  and_then_assoc undefined f g = refl
  and_then_assoc blocked f g = refl

  and_then-pure : (r : Run L (Unit {0})) → and_then r (λ a. pure tt) ≡ r
  and_then-pure (returned a w) = refl
  and_then-pure (failed e w) = refl
  and_then-pure (panicked e w) = refl
  and_then-pure undefined = refl
  and_then-pure blocked = refl

module _ {L : Type 0} (m : Mluau L) (for_each : Iteration L (LuaValue × LuaValue)) (r : ℕ)
    (xs : List (LuaValue × LuaValue)) (last : LuaResult (Unit {0})) where
  -- What follows the iteration.
  packed : Progress × LuaResult (Unit {0}) → Go L (Option Bytes × CResult (Unit {0}))
  packed out = do res ← c_result tt (or_stopped out.0.stopped out.1); pure (out.0.errv, res)

  after : Progress × LuaResult (Unit {0}) → Go L (Unit {0})
  unfolding packed
  after out = packed out >>= finish

  after-start :
      (end : LuaResult (Unit {0})) (w : World L) → after (start, end) w ≡ passed_on tt end w
  unfolding after packed c_result finish go_result passed_on
  after-start (ok a) w = refl
  after-start (err e) w = and_then-pure (passed_on tt (err e) w)

  after-ended :
      (run : Run L (Option Bytes))
      → and_then (and_then run (ended (m.external []) last start)) after
        ≡ and_then run (ranged last)
  unfolding after c_result finish go_result passed_on
  after-ended (returned none w) = after-start last w
  after-ended (returned (some e) w) = refl
  after-ended (failed e w) = refl
  after-ended (panicked e w) = refl
  after-ended undefined = refl
  after-ended blocked = refl

  -- If mluau visits the pairs `xs` and ends with `last`, then the iteration of `ForEach` and what Go
  -- does with its result are the plain loop: the callback runs on one pair after the other until
  -- one run gives an error or panics, and that is the error returned; after the last pair it is
  -- the error of mluau, if there is one.
  pub iterate-until_error :
      (entry : LuaValue × LuaValue → Go L (Option Bytes)) (w : World L)
      → ((f : Step L (LuaValue × LuaValue)) (u : World L)
          → for_each r f start u ≡ visit f xs last start u)
      → (iterate m for_each r entry >>= finish) w ≡ (until_error entry xs >>= ranged last) w
  unfolding iterate packed after
  iterate-until_error entry w law = rw law (
      and_then_assoc (visit (step (m.external []) entry) xs last start w) packed finish
      ∙ ap (λ x. and_then x after) (visit-until_error (m.external []) entry last xs start w)
      ∙ after-ended (until_error entry xs w))
