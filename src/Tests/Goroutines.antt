-- ===== src/Tests/Goroutines.antt =====
-- Two goroutines at one object: the theorems on concrete calls.
use gluau.Prelude.{
  ℕ, zero, suc, ◌+◌, ◌*◌, ◌≤◌, ◌<◌, ◌≡◌, ◌≢◌, ◌⊎◌, refl, true, false, List, [], ◌∷◌, arith,
}
use gluau.Goroutines.{
  Call, idle, entered, outer, visiting, peeked, announcing, step, enter, System, set_thread, Step,
  pick, Steps, opened, with_reader, at, initial,
}
use gluau.Goroutines.Invariant.{count}
use gluau.Goroutines.Safety.{AreLocked, locked_calls_sound}
use gluau.Goroutines.Progress.{AreFlat, AllDone, calls_of, flat_calls_progress}
use gluau.Goroutines.Closing.{closed_memory, close_completes}
use gluau.Goroutines.Hazards.{meeting, nested_read_deadlocks, unlocked_use_after_free}

-- The first reads twice, the second closes.
abbrev two : ℕ → List Call
two zero = Call.read ∷ Call.read ∷ []
two (suc i) = Call.close ∷ []

-- The first reads, and the second waits in `Lock`.
abbrev reading : System
reading = record {
  memory = record (opened 7) { readers = 1; announced = true };
  threads =
      set_thread (set_thread (λ i. at idle (two i)) 0 (at entered (Call.read ∷ []))) 1
        (at announcing []);
}

starts_reading : Steps 2 (initial 7 two) 2 reading
unfolding step enter
starts_reading =
    Steps.next
      (Steps.next Steps.here
        (pick 0 {m = with_reader (opened 7)} {t = at entered (Call.read ∷ [])} (omega arith) refl))
      (pick 1 (omega arith) refl)

two-AreLocked : (i : ℕ) → i < 2 → AreLocked (two i)
two-AreLocked zero h = tt
two-AreLocked (suc i) h = tt

two-AreFlat : (i : ℕ) → i < 2 → AreFlat (two i)
two-AreFlat zero h = tt
two-AreFlat (suc i) h = tt

locked_calls_sound_example :
    (reading.memory.fault ≡ false)
    × (count reading.memory.live + reading.memory.frees ≡ 1)
    × ((reading.memory.announced ≡ true)
        ⊎ ((reading.memory.ptr ≢ 0) × (reading.memory.live ≡ true))
        ⊎ ((reading.memory.ptr ≡ 0) × (reading.memory.live ≡ false)))
locked_calls_sound_example = locked_calls_sound 2 7 2 two (omega arith) two-AreLocked starts_reading

flat_calls_progress_example : ((u : System) × Step 2 reading u) ⊎ AllDone 2 reading
flat_calls_progress_example = flat_calls_progress 2 7 2 two two-AreFlat starts_reading

close_completes_example :
    (l : ℕ) × (u : System) × Steps 2 reading l u
    × AllDone 2 u
    × (u.memory ≡ closed_memory)
    × (2 + l ≤ 6 * calls_of 2 two)
close_completes_example =
    close_completes 2 7 2 two 1 (omega arith) two-AreLocked two-AreFlat (omega arith) refl
      starts_reading

-- The first iterates, the second closes, and a third peeks while they wait.
abbrev nested_and_third : ℕ → List Call
nested_and_third zero = Call.iterate ∷ []
nested_and_third (suc zero) = Call.close ∷ []
nested_and_third (suc (suc i)) = Call.peek ∷ []

third_peeked : System
third_peeked = record {
  memory = (meeting 7 0 1 nested_and_third [] []).memory;
  threads = set_thread (meeting 7 0 1 nested_and_third [] []).threads 2 (at (peeked 7) []);
}

third_peeks : Steps 3 (meeting 7 0 1 nested_and_third [] []) 1 third_peeked
unfolding meeting third_peeked step enter
third_peeks = Steps.next Steps.here (pick 2 (omega arith) refl)

nested_read_deadlocks_example :
    Steps 3 (initial 7 nested_and_third) 3 (meeting 7 0 1 nested_and_third [] [])
    × (third_peeked.threads 0 ≡ at visiting [])
    × (third_peeked.threads 1 ≡ at announcing [])
nested_read_deadlocks_example =
    nested_read_deadlocks 3 7 0 1 nested_and_third [] [] (omega arith) (omega arith) (omega arith)
      (omega arith) refl refl third_peeks

-- The first uses the pointer without the lock, the second closes.
abbrev unlocked : ℕ → List Call
unlocked zero = Call.peek ∷ []
unlocked (suc i) = Call.close ∷ []

unlocked_use_after_free_example :
    (s : System) × Steps 2 (initial 7 unlocked) 6 s × (s.memory.fault ≡ true)
unlocked_use_after_free_example =
    unlocked_use_after_free 2 7 0 1 unlocked [] [] (omega arith) (omega arith) (omega arith)
      (omega arith) refl refl

-- Two goroutines that iterate and read; the first is in its callback.
abbrev reads_only : ℕ → List Call
reads_only zero = Call.iterate ∷ []
reads_only (suc i) = Call.read ∷ Call.peek ∷ []

abbrev iterating : System
iterating = record {
  memory = with_reader (opened 7);
  threads = set_thread (λ i. at idle (reads_only i)) 0 (at outer []);
}

iterates : Steps 2 (initial 7 reads_only) 1 iterating
unfolding step enter
iterates = Steps.next Steps.here (pick 0 (omega arith) refl)
