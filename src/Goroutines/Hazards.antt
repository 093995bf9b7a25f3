-- ===== src/Goroutines/Hazards.antt =====
-- What can go wrong where the object's lock is taken twice, or not taken.
use gluau.Prelude.{
  ℕ, ◌<◌, ◌≡◌, refl, ◌≢◌, true, some, List, ◌∷◌, ◌==◌, Bool-cases, ap, ◌∙◌, inl, inr, arith,
}
use gluau.Goroutines.{
  Call, idle, outer, visiting, peeked, announcing, locked, holding, freed, Thread, Memory, at,
  opened, used, destroyed, with_reader, enter, step, System, set_thread, Step, pick, Steps, initial,
}
use gluau.Goroutines.Counting.{le-sum_of}
use gluau.Goroutines.Invariant.{reads, waits, LockInv, move-LockInv_any}
use gluau.Goroutines.Safety.{initial-LockInv}

-- Goroutine `i` holds the read lock and asks for it again, while goroutine `j` waits to close.
record Stuck (n i j : ℕ) (is js : List Call) (s : System) : Type 0 where
  lock : LockInv n s
  reader : s.threads i ≡ at visiting is
  writer : s.threads j ≡ at announcing js

visiting_waits :
    (m : Memory) {m' : Memory} {t : Thread} {cs : List Call} (o : Thread)
    → m.announced ≡ true
    → o ≡ at visiting cs
    → step m o.pc o.calls ≢ some (m', t)
unfolding step
visiting_waits m o busy stands e = let e' = rw stands at e in ground arith

announcing_waits :
    (m : Memory) {m' : Memory} {t : Thread} {cs : List Call} (o : Thread)
    → 0 < m.readers
    → o ≡ at announcing cs
    → step m o.pc o.calls ≢ some (m', t)
unfolding step
announcing_waits m o held stands e = let e' = rw stands at e in ground arith

module _ {n i j : ℕ} {is js : List Call} (i_below : i < n) (j_below : j < n) where
  held_by_both :
      {s : System} → Stuck n i j is js s → (s.memory.announced ≡ true) × (0 < s.memory.readers)
  held_by_both {s} stuck =
      let a = le-sum_of reads s.threads n i i_below in
      let b = le-sum_of waits s.threads n j j_below in
      let own : reads (s.threads i) ≡ 1 = rw stuck.reader in
      let wait : waits (s.threads j) ≡ 1 = rw stuck.writer in let lock = stuck.lock in ground arith

  Step-Stuck : {s u : System} → Stuck n i j is js s → Step n s u → Stuck n i j is js u
  unfolding step
  Step-Stuck {s} stuck (pick x {m} {t} below e) =
      let (announced, readers) = held_by_both stuck in
      record {
        lock = move-LockInv_any stuck.lock (pick x below e);
        reader = elim (Bool-cases (x == i)) [
          | inl same ↦ absurd (
              visiting_waits s.memory (s.threads x) announced
                (ap s.threads (ground arith) ∙ stuck.reader) e)
          | inr other ↦ rw other stuck.reader
        ];
        writer = elim (Bool-cases (x == j)) [
          | inl same ↦ absurd (
              announcing_waits s.memory (s.threads x) readers
                (ap s.threads (ground arith) ∙ stuck.writer) e)
          | inr other ↦ rw other stuck.writer
        ];
      }

  Steps-Stuck :
      {s : System} {k : ℕ} {u : System} → Stuck n i j is js s → Steps n s k u → Stuck n i j is js u
  Steps-Stuck stuck Steps.here = stuck
  Steps-Stuck stuck (Steps.next run step) = Step-Stuck (Steps-Stuck stuck run) step

-- From the start, `i` has read-locked the object and is about to do so again, and `j` waits in `Lock`.
unfoldable pub meeting : ℕ → ℕ → ℕ → (ℕ → List Call) → List Call → List Call → System
meeting p i j calls is js = record {
  memory = record (opened p) { readers = 1; announced = true };
  threads =
      set_thread
        (set_thread (set_thread (λ x. at idle (calls x)) i (at outer is)) i (at visiting is)) j
        (at announcing js);
}

reader_then_writer :
    (n p i j : ℕ) (calls : ℕ → List Call) (is js : List Call)
    → p ≢ 0
    → i < n
    → j < n
    → i ≢ j
    → calls i ≡ Call.iterate ∷ is
    → calls j ≡ Call.close ∷ js
    → Steps n (initial p calls) 3 (meeting p i j calls is js)
unfolding meeting step enter
reader_then_writer n p i j calls is js nz i_below j_below apart reads_twice closes =
    Steps.next
      (Steps.next
        (Steps.next Steps.here
          (pick i {m = with_reader (opened p)} {t = at outer is} i_below (rw reads_twice)))
        (pick i {m = with_reader (opened p)} {t = at visiting is} i_below (ground arith)))
      (pick j j_below (ground arith))

Steps-LockInv :
    {n : ℕ} {s : System} {k : ℕ} {u : System} → LockInv n s → Steps n s k u → LockInv n u
Steps-LockInv inv Steps.here = inv
Steps-LockInv inv (Steps.next run step) = move-LockInv_any (Steps-LockInv inv run) step

-- At a new, open object, the first call of one goroutine is a method with a read lock that asks for the
-- same read lock again (`ForEach` with a callback that uses its table, `Call` with the function itself
-- among the arguments), that of another is `Close`, and others make any calls. Then the state `meeting`, where the first is
-- before its second read lock and the other in `Lock`, is reached from the start in three steps, and in
-- no state reached from there has either of the two moved, whatever the others do.
pub nested_read_deadlocks :
    (n p i j : ℕ) (calls : ℕ → List Call) (is js : List Call) {k : ℕ} {u : System}
    → p ≢ 0
    → i < n
    → j < n
    → i ≢ j
    → calls i ≡ Call.iterate ∷ is
    → calls j ≡ Call.close ∷ js
    → Steps n (meeting p i j calls is js) k u
    → Steps n (initial p calls) 3 (meeting p i j calls is js)
      × (u.threads i ≡ at visiting is)
      × (u.threads j ≡ at announcing js)
unfolding meeting
nested_read_deadlocks n p i j calls is js nz i_below j_below apart reads_twice closes later =
    let run = reader_then_writer n p i j calls is js nz i_below j_below apart reads_twice closes in
    let stuck : Stuck n i j is js (meeting p i j calls is js) = record {
      lock = Steps-LockInv (initial-LockInv n p calls) run;
      reader = ground arith;
      writer = ground arith;
    } in
    let end = Steps-Stuck i_below j_below stuck later in (run, end.reader, end.writer)

-- The goroutine `i` has used the box that `j` has just freed.
freed_and_used : ℕ → ℕ → ℕ → (ℕ → List Call) → List Call → List Call → System
freed_and_used p i j calls is js = record {
  memory = used (destroyed (record (opened p) { announced = true }));
  threads = set_thread (set_thread (holds (λ x. at idle (calls x))) j (at freed js)) i (at idle is);
}
  where
    holds : (ℕ → Thread) → ℕ → Thread
    holds f =
        set_thread
          (set_thread (set_thread (set_thread f i (at (peeked p) is)) j (at announcing js)) j
            (at locked js))
          j (at (holding p) js)

-- At a new, open object, the first call of one goroutine reads the pointer without the lock
-- (`ErrorVariant.Bytes`, the other table of `Equals` and `SetMetatable`), and that of another is `Close`.
-- Then there is an order of their steps in which
-- C is given the box after it was freed.
pub unlocked_use_after_free :
    (n p i j : ℕ) (calls : ℕ → List Call) (is js : List Call)
    → p ≢ 0
    → i < n
    → j < n
    → i ≢ j
    → calls i ≡ Call.peek ∷ is
    → calls j ≡ Call.close ∷ js
    → (s : System) × Steps n (initial p calls) 6 s × (s.memory.fault ≡ true)
unfolding freed_and_used step enter
unlocked_use_after_free n p i j calls is js nz i_below j_below apart peeks closes =
    let held = record (opened p) { announced = true } in
    (
      freed_and_used p i j calls is js,
      Steps.next
          (Steps.next
            (Steps.next
              (Steps.next
                (Steps.next
                  (Steps.next Steps.here
                    (pick i {m = opened p} {t = at (peeked p) is} i_below (rw peeks)))
                  (pick j {m = held} {t = at announcing js} j_below (ground arith)))
                (pick j {m = held} {t = at locked js} j_below (ground arith)))
              (pick j {m = held} {t = at (holding p) js} j_below (ground arith)))
            (pick j {m = destroyed held} {t = at freed js} j_below (ground arith)))
          (pick i i_below (ground arith)),
      refl,
    )
