-- ===== src/Object/Locks.antt =====
-- The read lock of vm/object.go: what `RLock`, a body and `RUnlock` do together.
use gluau.Prelude.{
  ℕ, ◌+◌, ◌-◌, ◌≡◌, ap, false, some, Bytes, update, update_self, update-update, update_same, arith,
}
use gluau.World.{Object, World, returned, failed, panicked, undefined, Go}
use gluau.Object.{get_object, set_object, rlock, runlock, reading}

abbrev pub locked : Object → Object
locked ob = record ob { readers = ob.readers + 1 }

-- The world with one more reader of `o`.
abbrev pub held : {L : Type 0} → ℕ → Object → World L → World L
held o ob w = record w { objects = update w.objects o (some (locked ob)) }

pub readers_back : (ob : Object) → record (locked ob) { readers = ob.readers + 1 - 1 } ≡ ob
readers_back ob = ap (λ (n : ℕ). record ob { readers = n }) (omega arith)

module _ {L : Type 0} (o : ℕ) where
  pub get_object-some :
      (w : World L) {ob : Object} → w.objects o ≡ some ob → get_object o w ≡ returned ob w
  unfolding get_object
  get_object-some w here = rw (here, get_object)

  pub rlock-held :
      (w : World L) {ob : Object}
      → w.objects o ≡ some ob
      → ob.writing ≡ false
      → rlock o w ≡ returned tt (held o ob w)
  unfolding rlock set_object
  rlock-held w here free = rw (get_object-some w here, free)

  pub runlock-held :
      (w : World L) {ob : Object} → w.objects o ≡ some ob → runlock o (held o ob w) ≡ returned tt w
  unfolding runlock set_object
  runlock-held w {ob} here = rw (get_object-some (held o ob w) (update_self w.objects o _)) (
      ap (λ f. returned tt (record w { objects = f }))
        (rw (update-update w.objects o, readers_back ob) (update_same w.objects o _ here)))

  -- A body that leaves the lock alone runs between the two as if they were not there.
  pub reading-held :
      {A : Type 0} (body : Go L A) (w w' : World L) {ob : Object} (a : A)
      → w.objects o ≡ some ob
      → ob.writing ≡ false
      → w'.objects o ≡ some ob
      → body (held o ob w) ≡ returned a (held o ob w')
      → reading (some o) body w ≡ returned a w'
  unfolding reading
  reading-held body w w' a here free there run =
      rw (rlock-held w here free, run, runlock-held w' there)

  pub reading-failed :
      {A : Type 0} (body : Go L A) (w w' : World L) {ob : Object} (e : Bytes)
      → w.objects o ≡ some ob
      → ob.writing ≡ false
      → w'.objects o ≡ some ob
      → body (held o ob w) ≡ failed e (held o ob w')
      → reading (some o) body w ≡ failed e w'
  unfolding reading
  reading-failed body w w' e here free there run =
      rw (rlock-held w here free, run, runlock-held w' there)

  pub reading-panicked :
      {A : Type 0} (body : Go L A) (w w' : World L) {ob : Object} (e : Bytes)
      → w.objects o ≡ some ob
      → ob.writing ≡ false
      → w'.objects o ≡ some ob
      → body (held o ob w) ≡ panicked e (held o ob w')
      → reading (some o) body w ≡ panicked e w'
  unfolding reading
  reading-panicked body w w' e here free there run =
      rw (rlock-held w here free, run, runlock-held w' there)

  pub reading-undefined :
      {A : Type 0} (body : Go L A) (w : World L) {ob : Object}
      → w.objects o ≡ some ob
      → ob.writing ≡ false
      → body (held o ob w) ≡ undefined
      → reading (some o) body w ≡ undefined
  unfolding reading
  reading-undefined body w here free run = rw (rlock-held w here free, run)
