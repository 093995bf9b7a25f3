-- ===== src/Value/Typing/Runs.antt =====
-- Go programs that receive, make, send and close values in any order, over one virtual machine.
use gluau.Prelude.{
  ℕ, zero, suc, ◌≡◌, refl, subst, false, Option, none, some, List, [], ◌∷◌, inl, inr, Bool-cases,
  if◌then◌else◌,
}
use gluau.World.{World, returned, Go, pure, ◌>>=◌, ◌>>◌, catch, LuaValue}
use gluau.Mluau.{Mluau}
use gluau.Handles
use gluau.Handles.{GoLuaVmWrapper, lua_vm_tab}
use gluau.Object.Lifetime.{IsQuiet}
use gluau.Value.Types
use gluau.Value.Types.{Value}
use gluau.Value.Clone.{to_value_from_owned}
use gluau.Value.Convert.{value_to_c}
use gluau.Value.Typing.{
  IsCalm, Ensures, Ensures-and_then, Ensures-on_error, Ensures-returned, Ensures-weaken, Has,
  IsPlain, wrapping, IsTyped, plain, Settled, Handed,
}
use gluau.Value.Typing.Arriving
use gluau.Value.Typing.Arriving.{IsReadable, Arrives, receive-Arrives}
use gluau.Value.Typing.Closed.{
  Stays, Keeps-Stays, Keeps-IsQuiet, IsTyped-Stays, Rests, Rests-refl, close-Rests, close_vm-Rests,
}
use gluau.Value.Typing.Made.{MakesStrings}
use gluau.Value.Typing.Sent.{is_table, value_to_c-Handed}
use gluau.Value.Typing.Taken.{to_value_from_owned-Settled}

-- What a program does next; a number counts back to a value that it has.
pub data Step : Type 0 where
  receive : LuaValue → Step
  make : Value → Step
  send : ℕ → Step
  close : ℕ → Step
  close_vm : Step

-- Values come from Lua, or hold no pointer of Rust's.
abbrev pub IsLegal : Step → Type 0
IsLegal (Step.receive x) = IsReadable x
IsLegal (make v) = IsPlain v
IsLegal (send n) = Unit
IsLegal (close n) = Unit
IsLegal Step.close_vm = Unit

abbrev pub AreLegal : List Step → Type 0
AreLegal [] = Unit
AreLegal (s ∷ ss) = IsLegal s × AreLegal ss

abbrev pub nth : List Value → ℕ → Option Value
nth [] n = none
nth (v ∷ vs) zero = some v
nth (v ∷ vs) (suc n) = nth vs n

module _ {L : Type 0} (m : Mluau L) (l : Option GoLuaVmWrapper) where
  -- Rust takes over what `valueToC` makes; the program goes on after an error.
  unfoldable pub send_value : Value → Go L (Unit {0})
  unfolding value_to_c to_value_from_owned
  send_value v =
      catch (do c ← value_to_c m l (some v); _ ← to_value_from_owned m c; pure tt) λ e. pure tt

  -- Tables are never sent, since `valueToC` gives them the tag of a string.
  abbrev pub send_found : Option Value → Go L (Unit {0})
  send_found none = pure tt
  send_found (some v) = if is_table v then pure tt else send_value v

  abbrev pub close_found : Option Value → Go L (Unit {0})
  close_found none = pure tt
  close_found (some v) = Types.close v

  unfoldable pub run_step : Step → List Value → Go L (List Value)
  unfolding Arriving.receive send_value Types.close Handles.close_vm
  run_step (Step.receive x) vs = do v ← Arriving.receive l x; pure (v ∷ vs)
  run_step (make v) vs = pure (v ∷ vs)
  run_step (send n) vs = do send_found (nth vs n); pure vs
  run_step (close n) vs = do close_found (nth vs n); pure vs
  run_step Step.close_vm vs = do Handles.close_vm l; pure vs

  unfoldable pub run_steps : List Step → List Value → Go L (List Value)
  unfolding run_step
  run_steps [] vs = pure vs
  run_steps (s ∷ ss) vs = run_step s vs >>= run_steps ss

abbrev pub AreTyped : {L : Type 0} → World L → List Value → Type 0
AreTyped w [] = Unit
AreTyped w (v ∷ vs) = IsTyped w v × AreTyped w vs

pub some-inj : {A : Type 0} {a b : A} → some a ≡ some b → a ≡ b
some-inj e = cc

pub AreTyped-Stays :
    {L : Type 0} {v w : World L} (vs : List Value) → Stays v w → AreTyped v vs → AreTyped w vs
AreTyped-Stays [] stays typed = tt
AreTyped-Stays (x ∷ vs) stays typed = (IsTyped-Stays stays typed.0, AreTyped-Stays vs stays typed.1)

pub nth-IsTyped :
    {L : Type 0} {w : World L} (vs : List Value) (n : ℕ) {v : Value}
    → AreTyped w vs
    → nth vs n ≡ some v
    → IsTyped w v
nth-IsTyped [] n typed e = absurd cc
nth-IsTyped {w = w} (x ∷ vs) zero typed e = subst (IsTyped w) (some-inj e) typed.0
nth-IsTyped (x ∷ vs) (suc n) typed e = nth-IsTyped vs n typed.1 e

module _ {L : Type 0} (m : Mluau L) (makes : MakesStrings m) (i : ℕ) where
  -- The wrapper of the virtual machine, open or closed.
  abbrev pub wrapper : Option GoLuaVmWrapper
  wrapper = some (record { obj = some i })

  -- A calm world in which a program's values have their types.
  abbrev pub Stands : List Value → World L → Type 0
  Stands vs w = IsCalm w × IsQuiet w × Has w lua_vm_tab i × AreTyped w vs

  module _ {w : World L} (calm : IsCalm w) (quiet : IsQuiet w) (vm : Has w lua_vm_tab i) where
    settled : {u : World L} → Settled w u → Rests w u
    settled s = (s.calm, Keeps-IsQuiet s.keeps quiet, Keeps-Stays s.keeps)

    send_value-Rests :
        (v : Value)
        → IsTyped w v
        → is_table v ≡ false
        → Ensures (λ (x : Unit {0}) u. Rests w u) (λ u. ⊥) (send_value m wrapper v w)
    unfolding send_value
    send_value-Rests v typed other =
        Ensures-on_error (λ (x : Unit {0}) u. Rests w u) (Settled w) (λ u. ⊥) _ _
          (Ensures-and_then (Handed w) (λ x u. Rests w u) (Settled w) _ _
            (value_to_c-Handed m calm makes vm v typed other)
            (λ c u handed.
              Ensures-and_then (λ x t. Settled w t) (λ x t. Rests w t) (Settled w) _ _
                (Ensures-weaken (λ x t. (Settled w t) × _) (λ x t. Settled w t) (λ t. ⊥) (Settled w)
                  _ (to_value_from_owned-Settled m handed.settled c handed.fits) (λ x t s. s.0)
                  (λ t bad. absurd bad))
                (λ x t s. settled s)))
          (λ e u s. settled s)

    send_found-Rests :
        (o : Option Value)
        → ((v : Value) → o ≡ some v → IsTyped w v)
        → Ensures (λ (x : Unit {0}) u. Rests w u) (λ u. ⊥) (send_found m wrapper o w)
    send_found-Rests none typed = Rests-refl calm quiet
    send_found-Rests (some v) typed = elim (Bool-cases (is_table v)) [
      | inl t ↦ rw t (Rests-refl calm quiet)
      | inr f ↦ rw f (send_value-Rests v (typed v refl) f)
    ]

    close_found-Rests :
        (o : Option Value)
        → ((v : Value) → o ≡ some v → IsTyped w v)
        → Ensures (λ (x : Unit {0}) u. Rests w u) (λ u. ⊥) (close_found m wrapper o w)
    close_found-Rests none typed = Rests-refl calm quiet
    close_found-Rests (some v) typed = close-Rests calm quiet v (typed v refl)

    module _ (vs : List Value) (typed : AreTyped w vs) where
      rested : (u : World L) → Rests w u → Stands vs u
      rested u r = (r.0, r.1, r.2.objects _ _ vm, AreTyped-Stays vs r.2 typed)

      pub run_step-Stands :
          (s : Step) → IsLegal s → Ensures Stands (λ u. ⊥) (run_step m wrapper s vs w)
      unfolding run_step
      run_step-Stands (Step.receive x) legal =
          Ensures-and_then (Arrives w) Stands (λ u. ⊥) _ _
            (receive-Arrives calm wrapper x (wrapping vm) legal)
            (λ v u came.
              let stands = rested u (settled came.0) in
              (stands.0, stands.1, stands.2, (came.1, stands.3)))
      run_step-Stands (make v) legal = (calm, quiet, vm, (plain legal, typed))
      run_step-Stands (send n) legal =
          Ensures-and_then (λ (x : Unit {0}) u. Rests w u) Stands (λ u. ⊥) _ _
            (send_found-Rests (nth vs n) λ v e. nth-IsTyped vs n typed e) (λ x u r. rested u r)
      run_step-Stands (close n) legal =
          Ensures-and_then (λ (x : Unit {0}) u. Rests w u) Stands (λ u. ⊥) _ _
            (close_found-Rests (nth vs n) λ v e. nth-IsTyped vs n typed e) (λ x u r. rested u r)
      run_step-Stands Step.close_vm legal =
          Ensures-and_then (λ (x : Unit {0}) u. Rests w u) Stands (λ u. ⊥) _ _
            (close_vm-Rests calm quiet i vm) (λ x u r. rested u r)

  run_steps-Stands :
      (ss : List Step) {w : World L} (vs : List Value)
      → AreLegal ss
      → Stands vs w
      → Ensures Stands (λ u. ⊥) (run_steps m wrapper ss vs w)
  unfolding run_steps
  run_steps-Stands [] vs legal stands = stands
  run_steps-Stands (s ∷ ss) vs legal stands =
      Ensures-and_then Stands Stands (λ u. ⊥) _ _
        (run_step-Stands stands.0 stands.1 stands.2 vs stands.3 s legal.0)
        (λ us u now. run_steps-Stands ss us legal.1 now)

  -- A program receives Lua values (all but light userdata), makes plain values, sends those of its values
  -- that are no tables, closes any of them, repeatedly too, and may close the virtual machine, in any
  -- order. From a calm world in which its values have their types, and with a mluau that makes strings or
  -- reports an error, the run returns: it neither panics nor waits for ever, and no box is read at a kind
  -- other than its own or after it is freed. At its end the world is calm and all values have their types.
  pub run_steps-typed :
      (ss : List Step) {w : World L} (vs : List Value)
      → AreLegal ss
      → IsCalm w
      → IsQuiet w
      → Has w lua_vm_tab i
      → AreTyped w vs
      → (us : List Value) × (u : World L) × (run_steps m wrapper ss vs w ≡ returned us u)
        × IsCalm u
        × IsQuiet u
        × AreTyped u us
  run_steps-typed ss {w} vs legal calm quiet vm typed =
      let (us, u, run, stands) =
        Ensures-returned Stands (run_steps m wrapper ss vs w)
          (run_steps-Stands ss vs legal (calm, quiet, vm, typed)) in
      (us, u, run, stands.0, stands.1, stands.3)
