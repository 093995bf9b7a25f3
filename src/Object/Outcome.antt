-- ===== src/Object/Outcome.antt =====
-- `Close` in every state of the object and its lock.
use gluau.Prelude.{
  ℕ, ◌≡◌, inl, inr, Bool, true, false, ◌||◌, not, some, ◌==◌, if◌then◌else◌, Bool-cases, arith,
}
use gluau.World.{Object, World, returned, blocked}
use gluau.Object.{lock, close}
use gluau.Object.Locks.{get_object-some}
use gluau.Object.Closing.{IsIdle}
use gluau.Object.Sound.{IsSound}
use gluau.Object.Lifetime.{closing, close-idle}

-- Somebody reads or closes the object.
abbrev pub is_busy : Object → Bool
is_busy ob = ob.writing || not (ob.readers == 0)

IsIdle-not_busy : (ob : Object) → is_busy ob ≡ false → IsIdle ob
IsIdle-not_busy ob quiet = record { readers = ground arith; writing = ground arith }

module _ {L : Type 0} {w : World L} (s : IsSound w) (o : ℕ) {ob : Object}
    (here : w.objects o ≡ some ob) where
  close-busy : is_busy ob ≡ true → close o w ≡ blocked
  unfolding close lock
  close-busy busy = rw (get_object-some o w here, busy)

  -- `Close` waits exactly while somebody reads or closes the object. Else it returns: an open object has
  -- its box freed, by the destructor of its table, and its pointer and finalizer cleared, and of a closed
  -- one nothing changes; in both cases the lock is free again, and no other object or box is touched.
  pub close-outcome : close o w ≡ (if is_busy ob then blocked else returned tt (closing o ob w))
  close-outcome = elim (Bool-cases (is_busy ob)) [
    | inl busy ↦ rw busy (close-busy busy)
    | inr quiet ↦ rw quiet (close-idle s o here (IsIdle-not_busy ob quiet))
  ]
