-- ===== src/Goroutines/Invariant.antt =====
-- Who holds the lock, and what the holders know of the object.
use gluau.Prelude.{ℕ, ◌+◌, ◌≤◌, ◌<◌, ◌≡◌, refl, Bool, some, List, [], ◌∷◌, if◌then◌else◌, arith}
use gluau.Goroutines.{
  Call, Pc, idle, entered, loaded, leaving, outer, visiting, inner, inner_leaving, announcing,
  locked, holding, freed, unlocking, Thread, Memory, enter, step, System, set_thread, Step, pick,
}
use gluau.Goroutines.Counting.{sum_of, sum_of-set_thread, le-sum_of}

-- The read locks that a goroutine holds.
abbrev pub reads : Thread → ℕ
reads t = by_pc t.pc
  where
    by_pc : Pc → ℕ
    by_pc entered = 1
    by_pc (loaded p) = 1
    by_pc leaving = 1
    by_pc outer = 1
    by_pc visiting = 1
    by_pc inner = 2
    by_pc inner_leaving = 2
    by_pc _ = 0

-- Whether it waits in `Lock`, is inside `Close`, or has run the destructor and not cleared `ptr`.
abbrev pub waits : Thread → ℕ
waits t = by_pc t.pc
  where
    by_pc : Pc → ℕ
    by_pc announcing = 1
    by_pc _ = 0

abbrev pub works : Thread → ℕ
works t = by_pc t.pc
  where
    by_pc : Pc → ℕ
    by_pc locked = 1
    by_pc (holding p) = 1
    by_pc unlocking = 1
    by_pc _ = 0

abbrev pub clears : Thread → ℕ
clears t = by_pc t.pc
  where
    by_pc : Pc → ℕ
    by_pc freed = 1
    by_pc _ = 0

abbrev pub count : Bool → ℕ
count b = if b then 1 else 0

-- The lock says who holds it.
pub record LockInv (n : ℕ) (s : System) : Type 0 where
  pub readers : s.memory.readers ≡ sum_of reads n s.threads
  pub writers :
      sum_of waits n s.threads + sum_of works n s.threads + sum_of clears n s.threads
      ≡ count s.memory.announced
  pub exclusive :
      0 < sum_of reads n s.threads → sum_of works n s.threads + sum_of clears n s.threads ≡ 0

module _ {n : ℕ} {s : System} (inv : LockInv n s) (i : ℕ) (below : i < n) where
  -- The sums before and after goroutine `i` becomes `t`.
  pub record Change (t : Thread) : Type 0 where
    pub read_sum :
        sum_of reads n (set_thread s.threads i t) + reads (s.threads i)
        ≡ sum_of reads n s.threads + reads t
    pub wait_sum :
        sum_of waits n (set_thread s.threads i t) + waits (s.threads i)
        ≡ sum_of waits n s.threads + waits t
    pub work_sum :
        sum_of works n (set_thread s.threads i t) + works (s.threads i)
        ≡ sum_of works n s.threads + works t
    pub clear_sum :
        sum_of clears n (set_thread s.threads i t) + clears (s.threads i)
        ≡ sum_of clears n s.threads + clears t
    pub own_reads : reads (s.threads i) ≤ sum_of reads n s.threads

  pub change : (t : Thread) → Change t
  change t = record {
    read_sum = sum_of-set_thread reads s.threads n i t below;
    wait_sum = sum_of-set_thread waits s.threads n i t below;
    work_sum = sum_of-set_thread works s.threads n i t below;
    clear_sum = sum_of-set_thread clears s.threads n i t below;
    own_reads = le-sum_of reads s.threads n i below;
  }

  -- Each step keeps the lock's invariant.
  pub move-LockInv :
      (p : Pc) (cs : List Call) {m : Memory} {t : Thread}
      → (s.threads i).pc ≡ p
      → step s.memory p cs ≡ some (m, t)
      → LockInv n (record { memory = m; threads = set_thread s.threads i t })
  unfolding step enter
  move-LockInv entered cs {m} {t} stands e = let c = change t in ground arith
  move-LockInv idle [] {m} {t} stands e = let c = change t in ground arith
  move-LockInv idle (Call.read ∷ cs) {m} {t} stands e = let c = change t in ground arith
  move-LockInv idle (_ ∷ cs) {m} {t} stands e = let c = change t in ground arith
  move-LockInv _ cs {m} {t} stands e = let c = change t in ground arith

pub move-LockInv_any : {n : ℕ} {s u : System} → LockInv n s → Step n s u → LockInv n u
move-LockInv_any {s = s} inv (pick i {m} {t} below e) =
    move-LockInv inv i below (s.threads i).pc (s.threads i).calls refl e
