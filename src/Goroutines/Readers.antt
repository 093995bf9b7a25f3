-- ===== src/Goroutines/Readers.antt =====
-- Goroutines none of which closes the object: nobody ever waits, nested read locks included.
use gluau.Prelude.{
  ℕ, ◌<◌, ◌≡◌, refl, ◌⊎◌, false, none, some, List, [], ◌∷◌, ◌==◌, Bool-cases, Option-cases, inl,
  inr, arith,
}
use gluau.Goroutines.{
  Call, Pc, idle, entered, announcing, locked, holding, freed, unlocking, Thread, Memory, enter,
  step, System, pick, Steps, initial,
}

abbrev pub AreReads : List Call → Type 0
AreReads [] = Unit
AreReads (Call.close ∷ cs) = ⊥
AreReads (_ ∷ cs) = AreReads cs

abbrev NotClosing : Pc → Type 0
NotClosing announcing = ⊥
NotClosing locked = ⊥
NotClosing (holding p) = ⊥
NotClosing freed = ⊥
NotClosing unlocking = ⊥
NotClosing _ = Unit

record ReadsOnly (n : ℕ) (s : System) : Type 0 where
  free : s.memory.announced ≡ false
  calls_read : (j : ℕ) → j < n → AreReads (s.threads j).calls
  not_closing : (j : ℕ) → j < n → NotClosing (s.threads j).pc

step-reads :
    (m : Memory) (p : Pc) (cs : List Call) {m' : Memory} {t : Thread}
    → m.announced ≡ false
    → NotClosing p
    → AreReads cs
    → step m p cs ≡ some (m', t)
    → (m'.announced ≡ false) × AreReads t.calls × NotClosing t.pc
unfolding step enter
step-reads m entered cs free l a e = ground arith
step-reads m idle [] free l a e = cc
step-reads m idle (Call.read ∷ cs) free l a e = ground arith
step-reads m idle (_ ∷ cs) free l a e = ground arith
step-reads m _ cs free l a e = ground arith

Steps-ReadsOnly :
    {n : ℕ} {s : System} {k : ℕ} {u : System} → ReadsOnly n s → Steps n s k u → ReadsOnly n u
Steps-ReadsOnly inv Steps.here = inv
Steps-ReadsOnly inv (Steps.next {t = v} run (pick i {m} {t} below e)) =
    let before = Steps-ReadsOnly inv run in
    let (free, l, a) =
      step-reads v.memory (v.threads i).pc (v.threads i).calls before.free
        (before.not_closing i below) (before.calls_read i below) e in
    record {
      free = free;
      calls_read = λ j h. elim (Bool-cases (i == j)) [
        | inl same ↦ rw same l
        | inr other ↦ rw other (before.calls_read j h)
      ];
      not_closing = λ j h. elim (Bool-cases (i == j)) [
        | inl same ↦ rw same a
        | inr other ↦ rw other (before.not_closing j h)
      ];
    }

steps_on :
    (m : Memory) (p : Pc) (cs : List Call)
    → m.announced ≡ false
    → NotClosing p
    → AreReads cs
    → step m p cs ≡ none
    → (p ≡ idle) × (cs ≡ [])
unfolding step enter
steps_on m entered cs free l a e = cc
steps_on m idle [] free l a e = (refl, refl)
steps_on m idle (Call.read ∷ cs) free l a e = absurd (ground arith)
steps_on m idle (_ ∷ cs) free l a e = absurd (ground arith)
steps_on m _ cs free l a e = absurd (ground arith)

-- As long as no goroutine closes the object, nobody waits: in every state that they reach, each goroutine
-- has made all its calls or can make its next step, also inside a `ForEach` callback that uses the
-- table.
reads_never_wait :
    (n p k i : ℕ) (calls : ℕ → List Call) {s : System}
    → ((j : ℕ) → j < n → AreReads (calls j))
    → i < n
    → Steps n (initial p calls) k s
    → (((s.threads i).pc ≡ idle) × ((s.threads i).calls ≡ []))
      ⊎ ((m : Memory) × (t : Thread) × (step s.memory (s.threads i).pc (s.threads i).calls
            ≡ some (m, t)))
reads_never_wait n p k i calls {s} all below run =
    let inv : ReadsOnly n s =
      Steps-ReadsOnly (record { free = refl; calls_read = all; not_closing = λ j h. tt }) run in
    elim (Option-cases (step s.memory (s.threads i).pc (s.threads i).calls)) [
      | inl stuck ↦ inl (
          steps_on s.memory (s.threads i).pc (s.threads i).calls inv.free (inv.not_closing i below)
            (inv.calls_read i below) stuck)
      | inr moves ↦ inr (moves.0.0, moves.0.1, moves.1)
    ]
