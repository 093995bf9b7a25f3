-- ===== src/Object.antt =====
-- vm/object.go: the managed pointer to a Rust-owned handle, behind a read-write lock.
pub mod Locks
pub mod Closing
pub mod Sound
pub mod Lifetime
pub mod Outcome
pub mod Making
use gluau.Prelude.{
  ℕ, ◌+◌, ◌-◌, true, false, ◌||◌, Option, none, some, text, update, ◌==◌, not, if◌then◌else◌,
}
use gluau.World.{
  Run, failed, panicked, Object, ObjectTab, Dtor, returned, undefined, blocked, Go, pure, fail,
  ◌>>=◌, ◌>>◌, deferring, nil_dereference,
}
use gluau.Ffi.Boxes.{run_dtor}

module _ {L : Type 0} where
  unfoldable pub get_object : ℕ → Go L Object
  get_object o w = elim (w.objects o) [ none ↦ undefined | some ob ↦ returned ob w ]

  unfoldable pub set_object : ℕ → Object → Go L (Unit {0})
  set_object o ob w = returned tt (record w { objects = update w.objects o (some ob) })

  -- Go's method calls through a nil `*object` panic.
  abbrev pub deref : Option ℕ → Go L ℕ
  deref none = nil_dereference
  deref (some o) = pure o

  unfoldable pub new_object : ℕ → ObjectTab → Go L (Option ℕ)
  new_object ptr tab w =
      if ptr == 0
      then returned none w
      else returned (some w.next_object) (record w {
        objects = update w.objects w.next_object (
            some (record { ptr = ptr; tab = tab; readers = 0; writing = false; finalizer = true }));
        next_object = w.next_object + 1;
      })

  -- `sync.RWMutex`
  abbrev pub wait : Go L (Unit {0})
  wait _ = blocked

  unfoldable pub rlock : ℕ → Go L (Unit {0})
  unfolding get_object set_object
  rlock o = do
    ob ← get_object o
    if ob.writing then wait else set_object o (record ob { readers = ob.readers + 1 })

  unfoldable pub runlock : ℕ → Go L (Unit {0})
  unfolding get_object set_object
  runlock o = do ob ← get_object o; set_object o (record ob { readers = ob.readers - 1 })

  unfoldable pub lock : ℕ → Go L (Unit {0})
  unfolding get_object set_object
  lock o = do
    ob ← get_object o
    if ob.writing || not (ob.readers == 0)
        then wait
        else set_object o (record ob { writing = true })

  unfoldable pub unlock : ℕ → Go L (Unit {0})
  unfolding get_object set_object
  unlock o = do ob ← get_object o; set_object o (record ob { writing = false })

  -- `o.RLock(); defer o.RUnlock(); body`
  unfoldable pub reading : {A : Type 0} → Option ℕ → Go L A → Go L A
  unfolding rlock runlock
  reading o body = do o' ← deref o; rlock o'; deferring (runlock o') body

  unfoldable pub pointer_no_lock : Option ℕ → Go L ℕ
  unfolding get_object
  pointer_no_lock o = do
    o' ← deref o
    ob ← get_object o'
    if ob.ptr == 0 then fail (text "cannot use closed object") else pure ob.ptr

  unfoldable pub pointer_lock : Option ℕ → Go L ℕ
  unfolding reading pointer_no_lock
  pointer_lock o = reading o (pointer_no_lock o)

  unfoldable pub run_tab : Option Dtor → ℕ → Go L (Unit {0})
  unfolding run_dtor
  run_tab none p = pure tt
  run_tab (some d) p = run_dtor d p

  close_locked : ℕ → Go L (Unit {0})
  unfolding get_object set_object run_tab
  close_locked o = do
    ob ← get_object o
    if ob.ptr == 0 then pure tt else do
      run_tab ob.tab.dtor ob.ptr
      now ← get_object o
      set_object o (record now { ptr = 0; finalizer = false })

  unfoldable pub close : ℕ → Go L (Unit {0})
  unfolding lock unlock close_locked
  close o = do lock o; deferring (unlock o) (close_locked o)

  -- The garbage collector runs the finalizer that `newObject` sets, if it is still set.
  unfoldable pub finalize : ℕ → Go L (Unit {0})
  unfolding get_object close
  finalize o = do ob ← get_object o; if ob.finalizer then close o else pure tt

  -- `if err != nil { return d }`, for the methods that return no error.
  abbrev pub unless_closed : {A : Type 0} → Run L ℕ → A → (ℕ → Go L A) → Run L A
  unless_closed (returned p w) d body = body p w
  unless_closed (failed e w) d body = returned d w
  unless_closed (panicked e w) d body = panicked e w
  unless_closed undefined d body = undefined
  unless_closed blocked d body = blocked
