-- ===== src/Goroutines/Safety.antt =====
-- The object under any number of goroutines that use it only with its lock.
use gluau.Prelude.{
  ℕ, ◌+◌, ◌≤◌, ◌<◌, ◌≡◌, refl, ◌≢◌, ◌⊎◌, true, false, some, List, [], ◌∷◌, ◌==◌, Bool-cases, inl,
  inr, arith,
}
use gluau.Goroutines.{
  Call, Pc, idle, entered, loaded, peeked, holding, Thread, Memory, enter, step, System, set_thread,
  Step, pick, Steps, initial,
}
use gluau.Goroutines.Counting.{sum_of, le-sum_of, sum_of-zero}
use gluau.Goroutines.Invariant.{reads, waits, works, clears, count, LockInv, change, move-LockInv}

-- No call, now or later, uses the pointer without the lock.
abbrev pub AreLocked : List Call → Type 0
AreLocked [] = Unit
AreLocked (Call.peek ∷ cs) = ⊥
AreLocked (_ ∷ cs) = AreLocked cs

abbrev pub NotPeeking : Pc → Type 0
NotPeeking (peeked p) = ⊥
NotPeeking _ = Unit

-- What a goroutine that has read `ptr` under the lock knows of it.
abbrev pub Knows : Memory → Pc → Type 0
Knows m (loaded p) = p ≡ m.ptr
Knows m (holding p) = p ≡ m.ptr
Knows m _ = Unit

pub record Inv (n : ℕ) (s : System) : Type 0 where
  pub lock : LockInv n s
  pub sound : s.memory.fault ≡ false
  pub freed_once : count s.memory.live + s.memory.frees ≡ 1
  pub open_box : s.memory.ptr ≢ 0 → count s.memory.live + sum_of clears n s.threads ≡ 1
  pub closed_box : s.memory.ptr ≡ 0 → count s.memory.live + sum_of clears n s.threads ≡ 0
  pub knows : (j : ℕ) → j < n → Knows s.memory (s.threads j).pc
  pub calls_locked : (j : ℕ) → j < n → AreLocked (s.threads j).calls
  pub not_peeking : (j : ℕ) → j < n → NotPeeking (s.threads j).pc

module _ {n : ℕ} {s : System} (inv : Inv n s) (i : ℕ) (below : i < n) where
  -- What follows from where goroutine `j` stands.
  record Place (j : ℕ) : Type 0 where
    its_reads : reads (s.threads j) ≤ sum_of reads n s.threads
    its_works : works (s.threads j) ≤ sum_of works n s.threads
    its_clears : clears (s.threads j) ≤ sum_of clears n s.threads
    its_knows : Knows s.memory (s.threads j).pc

  place : (j : ℕ) → j < n → Place j
  place j h = record {
    its_reads = le-sum_of reads s.threads n j h;
    its_works = le-sum_of works s.threads n j h;
    its_clears = le-sum_of clears s.threads n j h;
    its_knows = inv.knows j h;
  }

  open (inv.lock) use {readers, writers, exclusive}

  move-memory :
      (p : Pc) (cs : List Call) {m : Memory} {t : Thread}
      → (s.threads i).pc ≡ p
      → Knows s.memory p
      → NotPeeking p
      → AreLocked cs
      → step s.memory p cs ≡ some (m, t)
      → (m.fault ≡ false)
        × (count m.live + m.frees ≡ 1)
        × (m.ptr ≢ 0 → count m.live + sum_of clears n (set_thread s.threads i t) ≡ 1)
        × (m.ptr ≡ 0 → count m.live + sum_of clears n (set_thread s.threads i t) ≡ 0)
        × Knows m t.pc
        × AreLocked t.calls
        × NotPeeking t.pc
  unfolding step enter
  move-memory entered cs {m} {t} stands k l a e =
      let c = change inv.lock i below t in let q = place i below in ground arith
  move-memory idle [] {m} {t} stands k l a e =
      let c = change inv.lock i below t in let q = place i below in ground arith
  move-memory idle (Call.read ∷ cs) {m} {t} stands k l a e =
      let c = change inv.lock i below t in let q = place i below in ground arith
  move-memory idle (_ ∷ cs) {m} {t} stands k l a e =
      let c = change inv.lock i below t in let q = place i below in ground arith
  move-memory _ cs {m} {t} stands k l a e =
      let c = change inv.lock i below t in let q = place i below in ground arith

  -- What another goroutine knows stays true.
  Knows-kept :
      (p : Pc) (cs : List Call) {m : Memory} {t : Thread} (j : ℕ) (q : Pc)
      → (s.threads i).pc ≡ p
      → step s.memory p cs ≡ some (m, t)
      → j < n
      → (s.threads j).pc ≡ q
      → Knows s.memory q
      → Knows m q
  unfolding step enter
  Knows-kept p cs j entered stands e h there k = tt
  Knows-kept entered cs {m} {t} j (loaded v) stands e h there k = ground arith
  Knows-kept idle [] {m} {t} j (loaded v) stands e h there k = cc
  Knows-kept idle (Call.read ∷ cs) {m} {t} j (loaded v) stands e h there k = ground arith
  Knows-kept idle (_ ∷ cs) {m} {t} j (loaded v) stands e h there k = ground arith
  Knows-kept _ cs {m} {t} j (loaded v) stands e h there k =
      let q = place i below in let r = place j h in ground arith
  Knows-kept entered cs {m} {t} j (holding v) stands e h there k = ground arith
  Knows-kept idle [] {m} {t} j (holding v) stands e h there k = cc
  Knows-kept idle (Call.read ∷ cs) {m} {t} j (holding v) stands e h there k = ground arith
  Knows-kept idle (_ ∷ cs) {m} {t} j (holding v) stands e h there k = ground arith
  Knows-kept _ cs {m} {t} j (holding v) stands e h there k =
      let q = place i below in let r = place j h in ground arith
  Knows-kept p cs j _ stands e h there k = tt

Step-Inv : {n : ℕ} {s u : System} → Inv n s → Step n s u → Inv n u
Step-Inv {n} {s} inv (pick i {m} {t} below e) =
    let (sound, freed_once, open_box, closed_box, k, l, np) =
      move-memory inv i below (s.threads i).pc (s.threads i).calls refl (inv.knows i below)
        (inv.not_peeking i below) (inv.calls_locked i below) e in
    record {
      lock = move-LockInv inv.lock i below (s.threads i).pc (s.threads i).calls refl e;
      sound = sound;
      freed_once = freed_once;
      open_box = open_box;
      closed_box = closed_box;
      knows = λ j h. elim (Bool-cases (i == j)) [
        | inl same ↦ rw same k
        | inr other ↦ rw other (
            Knows-kept inv i below (s.threads i).pc (s.threads i).calls j (s.threads j).pc refl e h
              refl (inv.knows j h))
      ];
      calls_locked = λ j h. elim (Bool-cases (i == j)) [
        | inl same ↦ rw same l
        | inr other ↦ rw other (inv.calls_locked j h)
      ];
      not_peeking = λ j h. elim (Bool-cases (i == j)) [
        | inl same ↦ rw same np
        | inr other ↦ rw other (inv.not_peeking j h)
      ];
    }

pub initial-LockInv : (n p : ℕ) (calls : ℕ → List Call) → LockInv n (initial p calls)
initial-LockInv n p calls = record {
  readers = omega (arith, sum_of-zero reads (initial p calls).threads n (λ i h. refl));
  writers = omega (
    arith,
    sum_of-zero waits (initial p calls).threads n (λ i h. refl),
    sum_of-zero works (initial p calls).threads n (λ i h. refl),
    sum_of-zero clears (initial p calls).threads n (λ i h. refl),
  );
  exclusive = λ h. omega (
    arith,
    sum_of-zero works (initial p calls).threads n (λ i h. refl),
    sum_of-zero clears (initial p calls).threads n (λ i h. refl),
  );
}

pub initial-Inv :
    (n p : ℕ) (calls : ℕ → List Call)
    → p ≢ 0
    → ((j : ℕ) → j < n → AreLocked (calls j))
    → Inv n (initial p calls)
initial-Inv n p calls nz guarded = record {
  lock = initial-LockInv n p calls;
  sound = refl;
  freed_once = refl;
  open_box = λ h. omega (arith, sum_of-zero clears (initial p calls).threads n (λ i h. refl));
  closed_box = λ h. absurd (nz h);
  knows = λ j h. tt;
  calls_locked = guarded;
  not_peeking = λ j h. tt;
}

pub Steps-Inv : {n : ℕ} {s u : System} {k : ℕ} → Inv n s → Steps n s k u → Inv n u
Steps-Inv inv Steps.here = inv
Steps-Inv inv (Steps.next run step) = Step-Inv (Steps-Inv inv run) step

-- Any number of goroutines call the methods of one new, open object and `Close`, all of them under the
-- object's lock, in any order and any interleaving. Then in every state that they reach, C was never given a
-- box that is gone; the destructor has run at most once; while no `Close` is under way, the
-- pointer is set and the box lives, or both are gone.
pub locked_calls_sound :
    (n p k : ℕ) (calls : ℕ → List Call) {s : System}
    → p ≢ 0
    → ((j : ℕ) → j < n → AreLocked (calls j))
    → Steps n (initial p calls) k s
    → (s.memory.fault ≡ false)
      × (count s.memory.live + s.memory.frees ≡ 1)
      × ((s.memory.announced ≡ true)
          ⊎ ((s.memory.ptr ≢ 0) × (s.memory.live ≡ true))
          ⊎ ((s.memory.ptr ≡ 0) × (s.memory.live ≡ false)))
locked_calls_sound n p k calls {s} nz guarded run =
    let inv = Steps-Inv (initial-Inv n p calls nz guarded) run in
    let lock = inv.lock in
    (
      inv.sound,
      inv.freed_once,
      elim (Bool-cases s.memory.announced) [
        | inl busy ↦ inl busy
        | inr free ↦ inr (elim (Bool-cases (s.memory.ptr == 0)) [
          | inl closed ↦ inr (ground arith, ground arith)
          | inr set ↦ inl (ground arith, ground arith)
        ])
      ],
    )
