-- ===== src/Object/Closing.antt =====
-- `Close` of vm/object.go: it frees once, waits for readers, and does nothing afterwards.
use gluau.Prelude.{
  ℕ, ◌≡◌, sym, ◌≢◌, ap, Bool, true, false, Option, none, some, update, update_self, update-update,
  update_same, ==-ne, ◌==◌, arith,
}
use gluau.World.{Object, Dtor, Box, World, returned, blocked}
use gluau.Ffi.Boxes.{frees}
use gluau.Ffi.Ownership.{without, run_dtor-without}
use gluau.Object.{set_object, lock, unlock, run_tab, close_locked, close}
use gluau.Object.Locks.{get_object-some}

-- An object that nobody reads or closes.
pub record IsIdle (ob : Object) : Type 0 where
  pub readers : ob.readers ≡ 0
  pub writing : ob.writing ≡ false

abbrev pub shut : Object → Object
shut ob = record ob { ptr = 0; finalizer = false }

abbrev owned : Object → Object
owned ob = record ob { writing = true }

released : {ob : Object} → IsIdle ob → record (owned ob) { writing = false } ≡ ob
released {ob} idle = ap (λ (b : Bool). record ob { writing = b }) (sym idle.writing)

module _ {L : Type 0} (o : ℕ) where
  abbrev taken : Object → World L → World L
  taken ob w = record w { objects = update w.objects o (some (owned ob)) }

  -- The world after the first `Close`.
  abbrev pub after_close : Object → World L → World L
  after_close ob w = record w {
    objects = update w.objects o (some (shut ob));
    boxes = update w.boxes ob.ptr none;
  }

  module _ (w : World L) {ob : Object} (here : w.objects o ≡ some ob) where
    lock-idle : IsIdle ob → lock o w ≡ returned tt (taken ob w)
    unfolding lock set_object
    lock-idle idle = rw (get_object-some o w here, idle.writing, idle.readers)

    pub lock-reader : ob.readers ≢ 0 → lock o w ≡ blocked
    unfolding lock
    lock-reader busy = rw (get_object-some o w here) (ground arith)

    -- `Close` waits while somebody reads the object.
    pub close-reader : ob.readers ≢ 0 → close o w ≡ blocked
    unfolding close
    close-reader busy = rw (lock-reader busy)

    pub unlock-some :
        unlock o w
        ≡ returned tt
            (record w { objects = update w.objects o (some (record ob { writing = false })) })
    unfolding unlock set_object
    unlock-some = rw (get_object-some o w here)

    unlock-taken : IsIdle ob → unlock o (taken ob w) ≡ returned tt w
    unfolding unlock set_object
    unlock-taken idle = rw (get_object-some o (taken ob w) (update_self w.objects o _)) (
        ap (λ f. returned tt (record w { objects = f }))
          (rw (update-update w.objects o, released idle) (update_same w.objects o _ here)))

    close_locked-closed : ob.ptr ≡ 0 → close_locked o w ≡ returned tt w
    unfolding close_locked
    close_locked-closed gone = rw (get_object-some o w here, is_zero)
      where
        is_zero : (ob.ptr == 0) ≡ true
        is_zero = ground arith

    run_tab-without :
        (t : Option Dtor) {d : Dtor} {b : Box}
        → t ≡ some d
        → ob.ptr ≢ 0
        → w.boxes ob.ptr ≡ some b
        → frees d b ≡ true
        → run_tab t ob.ptr w ≡ returned tt (without w ob.ptr)
    unfolding run_tab
    run_tab-without t {d} named ne there fits = rw named (run_dtor-without w d ob.ptr ne there fits)

    close_locked-open :
        {d : Dtor} {b : Box}
        → ob.ptr ≢ 0
        → ob.tab.dtor ≡ some d
        → w.boxes ob.ptr ≡ some b
        → frees d b ≡ true
        → close_locked o w ≡ returned tt (after_close ob w)
    unfolding close_locked set_object
    close_locked-open ne named there fits = rw (
      get_object-some o w here,
      ==-ne ob.ptr 0 ne,
      run_tab-without ob.tab.dtor named ne there fits,
      get_object-some o (without w ob.ptr) here,
    )

  module _ (w : World L) {ob : Object} (here : w.objects o ≡ some ob) (idle : IsIdle ob) where
    still : (taken ob w).objects o ≡ some (owned ob)
    still = update_self w.objects o _

    -- A closed object stays as it is.
    pub close-closed : ob.ptr ≡ 0 → close o w ≡ returned tt w
    unfolding close
    close-closed gone = rw (
      lock-idle w here idle,
      close_locked-closed (taken ob w) still gone,
      unlock-taken w here idle,
    )

    -- An open object frees its box and forgets it.
    pub close-open :
        {d : Dtor} {b : Box}
        → ob.ptr ≢ 0
        → ob.tab.dtor ≡ some d
        → w.boxes ob.ptr ≡ some b
        → frees d b ≡ true
        → close o w ≡ returned tt (after_close ob w)
    unfolding close
    close-open ne named there fits =
        rw
          (
            lock-idle w here idle,
            close_locked-open (taken ob w) still ne named there fits,
            unlock-some (after_close (owned ob) (taken ob w))
                (update_self (update w.objects o (some (owned ob))) o (some (shut (owned ob)))),
          )
          (ap (λ f. returned tt (record (after_close ob w) { objects = f }))
            (rw (update-update (update w.objects o _) o, update-update w.objects o)
              (ap (λ x. update w.objects o (some x)) (ap shut (released idle)))))
