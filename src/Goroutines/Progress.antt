-- ===== src/Goroutines/Progress.antt =====
-- Runs of the goroutines end, and without nested read locks no reachable state is stuck.
use gluau.Prelude.{
  ℕ, ◌+◌, ◌*◌, ◌≤◌, ◌<◌, ◌≡◌, refl, ◌≢◌, ◌⊎◌, true, false, Option, none, some, List, [], ◌∷◌, ◌==◌,
  Bool-cases, inl, inr, length, arith,
}
use gluau.Goroutines.{
  Call, Pc, idle, entered, loaded, leaving, outer, visiting, inner, inner_leaving, peeked,
  announcing, locked, holding, freed, unlocking, Thread, Memory, at, enter, step, System,
  set_thread, Step, pick, Steps, initial,
}
use gluau.Goroutines.Counting.{sum_of, sum_of-set_thread, sum_of_pos, sum_of-add, le-sum_of}
use gluau.Goroutines.Invariant.{reads, waits, works, clears, LockInv, move-LockInv}
use gluau.Goroutines.Safety.{initial-LockInv}

-- A bound on the steps that a goroutine has still to make.
abbrev pub remaining : Thread → ℕ
remaining t = rank t.pc + 6 * length t.calls
  where
    rank : Pc → ℕ
    rank idle = 0
    rank entered = 3
    rank (loaded p) = 2
    rank leaving = 1
    rank outer = 5
    rank visiting = 4
    rank inner = 3
    rank inner_leaving = 2
    rank (peeked p) = 1
    rank announcing = 5
    rank locked = 4
    rank (holding p) = 3
    rank freed = 2
    rank unlocking = 1

pub step-remaining :
    (m : Memory) (p : Pc) (cs : List Call) {m' : Memory} {t : Thread}
    → step m p cs ≡ some (m', t)
    → remaining t < remaining (at p cs)
unfolding step enter
step-remaining m entered cs e = ground arith
step-remaining m idle [] e = cc
step-remaining m idle (Call.read ∷ cs) e = ground arith
step-remaining m idle (_ ∷ cs) e = ground arith
step-remaining m _ cs e = ground arith

pub Steps-remaining :
    {n : ℕ} {s u : System} {k : ℕ}
    → Steps n s k u
    → k + sum_of remaining n u.threads ≤ sum_of remaining n s.threads
Steps-remaining Steps.here = omega arith
Steps-remaining {n} {s} (Steps.next {k} {t = v} run (pick i {m} {t} below e)) = omega (
  arith,
  Steps-remaining run,
  sum_of-set_thread remaining v.threads n i t below,
  step-remaining v.memory (v.threads i).pc (v.threads i).calls e,
)

-- The calls of the goroutines below `n`.
pub calls_of : ℕ → (ℕ → List Call) → ℕ
calls_of ℕ.zero calls = 0
calls_of (ℕ.suc n) calls = length (calls n) + calls_of n calls

pub initial-remaining :
    (n p : ℕ) (calls : ℕ → List Call)
    → sum_of remaining n (initial p calls).threads ≡ 6 * calls_of n calls
unfolding sum_of calls_of
initial-remaining ℕ.zero p calls = refl
initial-remaining (ℕ.suc n) p calls = omega (arith, initial-remaining n p calls)

-- No nested read lock: `ForEach` with a callback that uses its table is left out.
abbrev pub AreFlat : List Call → Type 0
AreFlat [] = Unit
AreFlat (Call.iterate ∷ cs) = ⊥
AreFlat (_ ∷ cs) = AreFlat cs

abbrev pub NotIterating : Pc → Type 0
NotIterating outer = ⊥
NotIterating visiting = ⊥
NotIterating inner = ⊥
NotIterating inner_leaving = ⊥
NotIterating _ = Unit

abbrev pub Flat : Thread → Type 0
Flat t = NotIterating t.pc × AreFlat t.calls

step-Flat :
    (m : Memory) (p : Pc) (cs : List Call) {m' : Memory} {t : Thread}
    → Flat (at p cs)
    → step m p cs ≡ some (m', t)
    → Flat t
unfolding step enter
step-Flat m entered cs flat e = ground arith
step-Flat m idle [] flat e = cc
step-Flat m idle (Call.read ∷ cs) flat e = ground arith
step-Flat m idle (_ ∷ cs) flat e = ground arith
step-Flat m _ cs flat e = ground arith

-- What holds of reachable states without nested read locks.
pub record FlatInv (n : ℕ) (s : System) : Type 0 where
  pub lock : LockInv n s
  pub flat : (j : ℕ) → j < n → Flat (s.threads j)

pub Steps-FlatInv :
    {n : ℕ} {s : System} {k : ℕ} {u : System} → FlatInv n s → Steps n s k u → FlatInv n u
Steps-FlatInv inv Steps.here = inv
Steps-FlatInv {n} {s = s} inv (Steps.next {t = v} run (pick i {m} {t} below e)) =
    let before = Steps-FlatInv inv run in
    record {
      lock = move-LockInv before.lock i below (v.threads i).pc (v.threads i).calls refl e;
      flat = λ j h. elim (Bool-cases (i == j)) [
        | inl same ↦
            rw same
              (step-Flat v.memory (v.threads i).pc (v.threads i).calls (before.flat i below) e)
        | inr other ↦ rw other (before.flat j h)
      ];
    }

pub initial-FlatInv :
    (n p : ℕ) (calls : ℕ → List Call)
    → ((j : ℕ) → j < n → AreFlat (calls j))
    → FlatInv n (initial p calls)
initial-FlatInv n p calls flat = record {
  lock = initial-LockInv n p calls;
  flat = λ j h. (tt, flat j h);
}

-- A goroutine that holds a read lock, or is in `Close`, or waits for nobody, makes its step.
reader_moves :
    (m : Memory) (p : Pc) (cs : List Call)
    → NotIterating p
    → 0 < reads (at p cs)
    → step m p cs ≢ none
unfolding step enter
reader_moves m entered cs flat h e = cc
reader_moves m idle cs flat h e = omega (arith, h)
reader_moves m _ cs flat h e = ground arith

writer_moves :
    (m : Memory) (p : Pc) (cs : List Call)
    → m.readers ≡ 0
    → 0 < waits (at p cs) + works (at p cs) + clears (at p cs)
    → step m p cs ≢ none
unfolding step enter
writer_moves m entered cs free h e = cc
writer_moves m idle cs free h e = omega (arith, h)
writer_moves m _ cs free h e = ground arith

other_moves :
    (m : Memory) (p : Pc) (cs : List Call)
    → NotIterating p
    → m.announced ≡ false
    → m.readers ≡ 0
    → 0 < remaining (at p cs)
    → step m p cs ≢ none
unfolding step enter
other_moves m entered cs flat open_ free h e = cc
other_moves m idle [] flat open_ free h e = omega (arith, h)
other_moves m idle (Call.read ∷ cs) flat open_ free h e = ground arith
other_moves m idle (_ ∷ cs) flat open_ free h e = ground arith
other_moves m _ cs flat open_ free h e = ground arith

moves :
    {n : ℕ} {s : System} (i : ℕ)
    → i < n
    → step s.memory (s.threads i).pc (s.threads i).calls ≢ none
    → (u : System) × Step n s u
moves {n} {s} i below some_step =
    by_result (step s.memory (s.threads i).pc (s.threads i).calls) refl
  where
    by_result :
        (r : Option (Memory × Thread))
        → step s.memory (s.threads i).pc (s.threads i).calls ≡ r
        → (u : System) × Step n s u
    by_result none e = absurd (some_step e)
    by_result (some (m, t)) e =
        (record { memory = m; threads = set_thread s.threads i t }, pick i below e)

-- Whether a goroutine is in `Lock`, or between it and `Unlock`.
abbrev closing : Thread → ℕ
closing t = waits t + works t + clears t

closing_pos :
    {n : ℕ} {s : System} → LockInv n s → s.memory.announced ≡ true → 0 < sum_of closing n s.threads
closing_pos {n} {s} lock busy = ground (
  arith,
  sum_of-add (λ t. waits t + works t) clears n s.threads,
  sum_of-add waits works n s.threads,
  lock.writers,
)

pub flat_moves :
    {n : ℕ} {s : System}
    → FlatInv n s
    → 0 < sum_of remaining n s.threads
    → (u : System) × Step n s u
flat_moves {n} {s} inv h = elim (Bool-cases (s.memory.readers == 0)) [
  | inr some_reader ↦
      let (j, below, holds) = sum_of_pos reads s.threads n (ground (arith, inv.lock.readers)) in
      moves j below
        (reader_moves s.memory (s.threads j).pc (s.threads j).calls (inv.flat j below).0 holds)
  | inl no_reader ↦ elim (Bool-cases s.memory.announced) [
    | inl writer ↦
        let (j, below, closes) = sum_of_pos closing s.threads n (closing_pos inv.lock writer) in
        moves j below
          (writer_moves s.memory (s.threads j).pc (s.threads j).calls (ground arith) closes)
    | inr free ↦
        let (j, below, unfinished) = sum_of_pos remaining s.threads n h in
        moves j below (
          other_moves s.memory (s.threads j).pc (s.threads j).calls (inv.flat j below).0 free
            (ground arith) unfinished)
  ]
]

finished : (p : Pc) (cs : List Call) → remaining (at p cs) ≡ 0 → (p ≡ idle) × (cs ≡ [])
finished entered cs h = absurd (omega (arith, h))
finished idle [] h = (refl, refl)
finished idle (_ ∷ cs) h = absurd (omega (arith, h))
finished _ cs h = absurd (omega (arith, h))

-- Every goroutine has made all its calls.
abbrev pub AllDone : ℕ → System → Type 0
AllDone n s = (j : ℕ) → j < n → ((s.threads j).pc ≡ idle) × ((s.threads j).calls ≡ [])

pub done_or_remaining : (n : ℕ) (s : System) → AllDone n s ⊎ (0 < sum_of remaining n s.threads)
done_or_remaining n s = elim (Bool-cases (sum_of remaining n s.threads == 0)) [
  | inl done ↦ inl λ j h.
      finished (s.threads j).pc (s.threads j).calls
        (ground (arith, le-sum_of remaining s.threads n j h))
  | inr more ↦ inr (ground arith)
]

-- Goroutines call the methods of one new object, `Close` and uses of the pointer without the lock, but none
-- of them takes the read lock a second time in a `ForEach` callback. Then no interleaving is stuck: in
-- every state that they reach, either some goroutine can make its next step, or all of them have made
-- all their calls.
pub flat_calls_progress :
    (n p k : ℕ) (calls : ℕ → List Call) {s : System}
    → ((j : ℕ) → j < n → AreFlat (calls j))
    → Steps n (initial p calls) k s
    → ((u : System) × Step n s u) ⊎ AllDone n s
flat_calls_progress n p k calls {s} flat run =
    let inv = Steps-FlatInv (initial-FlatInv n p calls flat) run in
    elim (done_or_remaining n s) [ inl done ↦ inr done | inr more ↦ inl (flat_moves inv more) ]
