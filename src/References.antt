-- ===== src/References.antt =====
-- The strings, functions and userdata of the package vm as their users see them: references to Lua
-- objects, to be received from Rust, copied, sent to Rust and closed. The abstract view has no boxes
-- and no locks; the runs of vm/value.go and vm/object.go are compared with it.
pub mod Represents
pub mod Moves
pub mod Refinement
use gluau.Prelude.{
  ℕ, ◌+◌, ◌≡◌, refl, Bool, true, Option, none, some, List, [], ◌∷◌, Bytes, update, ◌==◌,
  if◌then◌else◌,
}
use gluau.World.{LuaValue, same_kind, Go, pure, fail, ◌>>=◌, ◌>>◌, catch}
use gluau.Mluau.{Mluau}
use gluau.Handles.{GoLuaVmWrapper}
use gluau.Value.Types
use gluau.Value.Types.{Value}
use gluau.Value.Clone.{from_owned, to_value_from_owned}
use gluau.Value.Convert.{value_from_c, value_to_c}
use gluau.Value.Scalars.{there_and_back}
use gluau.Value.Cloning.{Cloned, strings, functions, userdata, kind_of, wrap}
use gluau.Value.Refused.{Held, closed_message}

-- What users do with the value of kind `k` over the object `o`, and with the reference `r` that Lua
-- gives them.
pub data Command : Type 0 where
  receive : Cloned → ℕ → Command
  close : Cloned → ℕ → Command
  copy : Cloned → ℕ → Command
  send : Cloned → ℕ → Command

pub data Answer : Type 0 where
  made : Value → Answer
  done : Answer
  sent : LuaValue → Answer
  refused : Bytes → Answer

module _ {L : Type 0} (m : Mluau L) (l : Option GoLuaVmWrapper) where
  unfoldable pub perform : Command → Go L Answer
  unfolding from_owned value_from_c there_and_back value_to_c to_value_from_owned
  perform (receive k r) = do
    c ← from_owned (LuaValue.ref (kind_of k) r)
    v ← value_from_c l c
    pure (made v)
  perform (close k o) = do Types.close (wrap k l o); pure done
  perform (copy k o) =
      catch (do v ← there_and_back m l l (wrap k l o); pure (made v)) λ e. pure (refused e)
  perform (send k o) =
      catch (do c ← value_to_c m l (some (wrap k l o)); v ← to_value_from_owned m c; pure (sent v))
        λ e. pure (refused e)

  unfoldable pub perform_all : List Command → Go L (List Answer)
  perform_all [] = pure []
  perform_all (c ∷ cs) = do a ← perform c; as_ ← perform_all cs; pure (a ∷ as_)

-- The abstract view: a value of a kind, with the Lua object that it refers to until it is closed.
pub record Entry : Type 0 where
  pub kind : Cloned
  pub target : Option ℕ

pub record Store : Type 0 where
  pub entries : ℕ → Option Entry
  pub next : ℕ

abbrev pub entry : Cloned → Option ℕ → Entry
entry k t = record { kind = k; target = t }

abbrev pub added : Store → Cloned → ℕ → Store
added σ k r = record {
  entries = update σ.entries σ.next (some (entry k (some r)));
  next = σ.next + 1;
}

abbrev pub cut : Store → Cloned → ℕ → Store
cut σ k o = record σ { entries = update σ.entries o (some (entry k none)) }

-- The target of the value of kind `k` over `o`, if there is one.
abbrev pub target_of : Cloned → Option Entry → Option (Option ℕ)
target_of k none = none
target_of k (some e) = if same_kind (kind_of k) (kind_of e.kind) then some e.target else none

abbrev pub held_of : Cloned → Held
held_of strings = Held.strings
held_of functions = Held.functions
held_of userdata = Held.userdata

abbrev pub copied : Store → Cloned → Option ℕ → Answer × Store
copied σ k none = (refused (closed_message (held_of k)), σ)
copied σ k (some r) = (made (wrap k none σ.next), added σ k r)

abbrev pub sent_off : Store → Cloned → Option ℕ → Answer × Store
sent_off σ k none = (refused (closed_message (held_of k)), σ)
sent_off σ k (some r) = (sent (LuaValue.ref (kind_of k) r), σ)

-- `none` for a value that users do not have.
abbrev pub answer : Store → Command → Option (Answer × Store)
answer σ (receive k r) = some (made (wrap k none σ.next), added σ k r)
answer σ (close k o) = elim (target_of k (σ.entries o)) [
  | none ↦ none
  | some t ↦ some (done, cut σ k o)
]
answer σ (copy k o) = elim (target_of k (σ.entries o)) [
  | none ↦ none
  | some t ↦ some (copied σ k t)
]
answer σ (send k o) = elim (target_of k (σ.entries o)) [
  | none ↦ none
  | some t ↦ some (sent_off σ k t)
]

-- Relates commands to their answers and the store after them.
pub data Answers : Store → List Command → List Answer → Store → Type 0 where
  stop : {σ : Store} → Answers σ [] [] σ
  go :
      {σ τ υ : Store} {c : Command} {a : Answer} {cs : List Command} {as_ : List Answer}
      → answer σ c ≡ some (a, τ)
      → Answers τ cs as_ υ
      → Answers σ (c ∷ cs) (a ∷ as_) υ
