-- ===== src/Table/PairLoop.antt =====
-- ForEach with the callback of its caller as a plain loop over the pairs of the table, panics included.
use gluau.Prelude.{ℕ, ◌≡◌, refl, ◌∙◌, Option, List, [], ◌∷◌, ◌++◌, Bytes}
use gluau.World.{
  and_then, World, Run, returned, failed, panicked, undefined, blocked, LuaValue, Go, ◌>>=◌,
}
use gluau.Mluau.{Mluau, LuaResult}
use gluau.Handles.{LuaTable}
use gluau.Result.Errors.{passed_on}
use gluau.Value.Types.{Value}
use gluau.Value.Clone.{from_owned}
use gluau.Value.Convert.{value_from_c}
use gluau.Table.Iterate.{
  start, Step, Iteration, in_for_each, recovered, protect, pair_entry, iterate, finish,
}
use gluau.Table.Ranging.{visit, until_error, or_go_on, ranged, and_then_assoc, iterate-until_error}

module _ {L : Type 0} where
  -- The body of a loop and the rest of it: an error of the body ends the loop, and so does a panic, as
  -- an error with the message before it.
  abbrev pub and_rest : Bytes → Run L (Unit {0}) → Go L (Unit {0}) → Run L (Unit {0})
  and_rest message (returned a w) rest = rest w
  and_rest message (failed e w) rest = failed e w
  and_rest message (panicked e w) rest = failed (message ++ e) w
  and_rest message undefined rest = undefined
  and_rest message blocked rest = blocked

  and_then-cong :
      {A B : Type 0} (r : Run L A) (f g : A → Go L B)
      → ((a : A) (w : World L) → f a w ≡ g a w)
      → and_then r f ≡ and_then r g
  and_then-cong (returned a w) f g same = same a w
  and_then-cong (failed e w) f g same = refl
  and_then-cong (panicked e w) f g same = refl
  and_then-cong undefined f g same = refl
  and_then-cong blocked f g same = refl

  module _ (t : LuaTable) (fn : Value → Value → Go L (Unit {0})) (last : LuaResult (Unit {0})) where
    -- The plain loop: turn the two values into Go values and call `fn`, one pair after the other, and
    -- end with mluau's result.
    abbrev pub pair_loop : List (LuaValue × LuaValue) → Go L (Unit {0})
    pair_loop [] = passed_on tt last
    pair_loop (p ∷ ps) = do
      k ← from_owned p.0
      v ← from_owned p.1
      key ← value_from_c t.lua k
      value ← value_from_c t.lua v
      λ w. and_rest in_for_each (fn key value w) (pair_loop ps)

    -- What follows a call of the callback in the loop of `iterate-until_error`.
    goes_on : List (LuaValue × LuaValue) → Option Bytes → Go L (Unit {0})
    unfolding pair_entry
    goes_on ps out = or_go_on (until_error (pair_entry t fn) ps) out >>= ranged last

    called :
        (ps : List (LuaValue × LuaValue)) (r : Run L (Unit {0}))
        → ((w : World L) → (until_error (pair_entry t fn) ps >>= ranged last) w ≡ pair_loop ps w)
        → and_then (recovered in_for_each r) (goes_on ps) ≡ and_rest in_for_each r (pair_loop ps)
    unfolding goes_on
    called ps (returned a w) rest = rest w
    called ps (failed e w) rest = refl
    called ps (panicked e w) rest = refl
    called ps undefined rest = refl
    called ps blocked rest = refl

    until_error-pair_loop :
        (ps : List (LuaValue × LuaValue)) (w : World L)
        → (until_error (pair_entry t fn) ps >>= ranged last) w ≡ pair_loop ps w
    unfolding pair_entry protect goes_on
    until_error-pair_loop [] w = refl
    until_error-pair_loop (p ∷ ps) w =
        and_then_assoc (pair_entry t fn p w) (or_go_on (until_error (pair_entry t fn) ps))
          (ranged last)
        ∙ and_then_assoc (from_owned p.0 w) _ (goes_on ps)
        ∙ and_then-cong (from_owned p.0 w) _ _ λ k w1.
          and_then_assoc (from_owned p.1 w1) _ (goes_on ps)
          ∙ and_then-cong (from_owned p.1 w1) _ _ λ v w2.
            and_then_assoc (value_from_c t.lua k w2) _ (goes_on ps)
            ∙ and_then-cong (value_from_c t.lua k w2) _ _ λ key w3.
              and_then_assoc (value_from_c t.lua v w3) _ (goes_on ps)
              ∙ and_then-cong (value_from_c t.lua v w3) _ _
                  λ value w4. called ps (fn key value w4) (until_error-pair_loop ps)

-- If mluau visits the pairs `ps` and ends with `last`, then the iteration of `ForEach`, and what Go does
-- with its result, is the plain loop: the callback runs on one pair after the other, as Go values,
-- until it gives an error, which is returned, or panics, which is returned as an error with "panic in
-- ForEach callback: " before it; after the last pair mluau's error is returned, if there is one.
pub iterate-pair_loop :
    {L : Type 0} (m : Mluau L) (for_each : Iteration L (LuaValue × LuaValue)) (r : ℕ) (t : LuaTable)
    (fn : Value → Value → Go L (Unit {0})) (ps : List (LuaValue × LuaValue))
    (last : LuaResult (Unit {0})) (w : World L)
    → ((f : Step L (LuaValue × LuaValue)) (u : World L)
        → for_each r f start u ≡ visit f ps last start u)
    → (iterate m for_each r (pair_entry t fn) >>= finish) w ≡ pair_loop t fn last ps w
iterate-pair_loop m for_each r t fn ps last w law =
    iterate-until_error m for_each r ps last (pair_entry t fn) w law
    ∙ until_error-pair_loop t fn last ps w
