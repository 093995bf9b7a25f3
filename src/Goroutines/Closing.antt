-- ===== src/Goroutines/Closing.antt =====
-- What is left of the object when the goroutines have made their calls.
use gluau.Prelude.{
  ℕ, zero, suc, ◌+◌, ◌*◌, ◌≤◌, ◌<◌, ◌≡◌, ◌≢◌, Bool, true, false, ◌||◌, some, List, [], ◌∷◌, ◌==◌,
  Bool-cases, inl, inr, arith,
}
use gluau.Goroutines.{
  Call, Pc, idle, entered, announcing, locked, holding, freed, Thread, Memory, at, enter, step,
  System, pick, Steps, initial,
}
use gluau.Goroutines.Counting.{sum_of, sum_of-zero}
use gluau.Goroutines.Invariant.{reads, waits, works, clears}
use gluau.Goroutines.Safety.{AreLocked, Knows, Steps-Inv, initial-Inv}
use gluau.Goroutines.Progress.{
  remaining, Steps-remaining, calls_of, initial-remaining, AreFlat, FlatInv, initial-FlatInv,
  Steps-FlatInv, flat_moves, AllDone, done_or_remaining,
}

abbrev pub closes : List Call → Bool
closes [] = false
closes (Call.close ∷ cs) = true
closes (_ ∷ cs) = closes cs

-- A goroutine will close the object, or somebody has.
abbrev owes : Memory → Thread → Bool
owes m t = closes t.calls || in_close t.pc || (m.ptr == 0)
  where
    in_close : Pc → Bool
    in_close announcing = true
    in_close locked = true
    in_close (holding p) = true
    in_close freed = true
    in_close _ = false

own_owes :
    (m : Memory) (p : Pc) (cs : List Call) {m' : Memory} {t : Thread}
    → Knows m p
    → step m p cs ≡ some (m', t)
    → owes m (at p cs) ≡ true
    → owes m' t ≡ true
unfolding step enter
own_owes m entered cs k e h = ground arith
own_owes m idle [] k e h = cc
own_owes m idle (Call.read ∷ cs) k e h = ground arith
own_owes m idle (_ ∷ cs) k e h = ground arith
own_owes m _ cs k e h = ground arith

other_owes :
    (m : Memory) (p : Pc) (cs : List Call) {m' : Memory} {t : Thread} (o : Thread)
    → step m p cs ≡ some (m', t)
    → owes m o ≡ true
    → owes m' o ≡ true
unfolding step enter
other_owes m entered cs o e h = ground arith
other_owes m idle [] o e h = cc
other_owes m idle (Call.read ∷ cs) o e h = ground arith
other_owes m idle (_ ∷ cs) o e h = ground arith
other_owes m _ cs o e h = ground arith

-- Nobody is inside a call.
at_rest :
    (n : ℕ) (s : System)
    → AllDone n s
    → (sum_of reads n s.threads ≡ 0)
      × (sum_of waits n s.threads ≡ 0)
      × (sum_of works n s.threads ≡ 0)
      × (sum_of clears n s.threads ≡ 0)
at_rest n s done = (
  sum_of-zero reads s.threads n (λ i h. rw (done i h).0),
  sum_of-zero waits s.threads n (λ i h. rw (done i h).0),
  sum_of-zero works s.threads n (λ i h. rw (done i h).0),
  sum_of-zero clears s.threads n (λ i h. rw (done i h).0),
)

-- The box is gone, freed once and never used after, `ptr` is nil and the lock is free.
abbrev pub closed_memory : Memory
closed_memory = record {
  ptr = 0;
  live = false;
  frees = 1;
  fault = false;
  readers = 0;
  announced = false;
}

module _ {n p : ℕ} {calls : ℕ → List Call} where
  Steps-owes :
      {k : ℕ} {s : System} (j : ℕ)
      → p ≢ 0
      → ((i : ℕ) → i < n → AreLocked (calls i))
      → closes (calls j) ≡ true
      → Steps n (initial p calls) k s
      → owes s.memory (s.threads j) ≡ true
  Steps-owes j nz guarded closer Steps.here = ground arith
  Steps-owes j nz guarded closer (Steps.next {t = v} run (pick i {m} {t} below e)) =
      let before = Steps-owes j nz guarded closer run in
      let inv = Steps-Inv (initial-Inv n p calls nz guarded) run in
      elim (Bool-cases (i == j)) [
        | inl same ↦ rw same (
            own_owes v.memory (v.threads i).pc (v.threads i).calls (inv.knows i below) e
              (ground (arith, same, before)))
        | inr other ↦
            rw other
              (other_owes v.memory (v.threads i).pc (v.threads i).calls (v.threads j) e before)
      ]

  -- Goroutines make their calls with one new, open object, all under its lock, and one of them closes it.
  -- Once all calls are made, the box is freed, it was freed exactly once, `ptr` is nil, C was never
  -- given a box that is gone, and nobody holds the lock.
  pub closed_at_end :
      {k : ℕ} {s : System} (j : ℕ)
      → p ≢ 0
      → ((i : ℕ) → i < n → AreLocked (calls i))
      → j < n
      → closes (calls j) ≡ true
      → Steps n (initial p calls) k s
      → AllDone n s
      → s.memory ≡ closed_memory
  closed_at_end {s = s} j nz guarded below closer run done =
      let inv = Steps-Inv (initial-Inv n p calls nz guarded) run in
      let left = Steps-owes j nz guarded closer run in
      let (outside, no_calls) = done j below in
      let lock = inv.lock in let rest = at_rest n s done in ground arith

join :
    {n : ℕ} {s t : System} {a b : ℕ} {u : System}
    → Steps n s a t
    → Steps n t b u
    → (c : ℕ) × Steps n s c u
join {a = a} before Steps.here = (a, before)
join before (Steps.next run step) =
    let (c, whole) = join before run in (c + 1, Steps.next whole step)

completes_from :
    {n : ℕ} (fuel : ℕ) {s : System}
    → FlatInv n s
    → sum_of remaining n s.threads ≤ fuel
    → (k : ℕ) × (u : System) × Steps n s k u × AllDone n u
completes_from zero {s} inv enough = elim (done_or_remaining _ s) [
  | inl done ↦ (0, s, Steps.here, done)
  | inr more ↦ absurd (omega arith)
]
completes_from (suc fuel) {s} inv enough = elim (done_or_remaining _ s) [
  | inl done ↦ (0, s, Steps.here, done)
  | inr more ↦
      let (v, step) = flat_moves inv more in
      let one = Steps.next Steps.here step in
      let (k, u, run, done) =
        completes_from fuel (Steps-FlatInv inv one) (omega (arith, Steps-remaining one)) in
      let (c, whole) = join one run in (c, u, whole, done)
]

-- Goroutines make their calls with one new, open object, all of them under its lock and without nested
-- read locks, and one of them closes it. From every state that they reach, they can go on to a state in
-- which all calls are made, the box is freed, exactly once, and nobody holds the lock; the steps
-- before and after are together at most six for each call.
pub close_completes :
    (n p k : ℕ) (calls : ℕ → List Call) {s : System} (j : ℕ)
    → p ≢ 0
    → ((i : ℕ) → i < n → AreLocked (calls i))
    → ((i : ℕ) → i < n → AreFlat (calls i))
    → j < n
    → closes (calls j) ≡ true
    → Steps n (initial p calls) k s
    → (l : ℕ) × (u : System) × Steps n s l u
      × AllDone n u
      × (u.memory ≡ closed_memory)
      × (k + l ≤ 6 * calls_of n calls)
close_completes n p k calls {s} j nz guarded flat below closer run =
    let inv = Steps-FlatInv (initial-FlatInv n p calls flat) run in
    let (l, u, more, done) = completes_from (sum_of remaining n s.threads) inv (omega arith) in
    let (c, whole) = join run more in
    (
      l,
      u,
      more,
      done,
      closed_at_end j nz guarded below closer whole done,
      omega (arith, Steps-remaining run, Steps-remaining more, initial-remaining n p calls),
    )
