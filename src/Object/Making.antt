-- ===== src/Object/Making.antt =====
-- A method that makes an object while it holds a read lock.
use gluau.Prelude.{
  ℕ, ◌≡◌, ◌≢◌, ap, fun_ext, Option, false, some, update, update_self, update_ne, ◌∙◌, arith,
}
use gluau.World.{Object, ObjectTab, World, Go, returned}
use gluau.Object.{set_object, runlock, reading}
use gluau.Object.Locks.{get_object-some, held, rlock-held, readers_back}
use gluau.Object.Sound.{with_object}

module _ {ℓ} {A : Type ℓ} where
  -- Writing `u`, then another key, then what was there before `u`.
  undo :
      (f : ℕ → Option A) (k n : ℕ) (u v old : Option A)
      → f k ≡ old
      → n ≢ k
      → update (update (update f k u) n v) k old ≡ update f n v
  undo f k n u v old here ne = fun_ext λ j. ground arith

module _ {L : Type 0} (o : ℕ) (p : ℕ) (tab : ObjectTab) where
  -- The lock is given back, and the new object stays.
  runlock-made :
      (w : World L) {ob : Object}
      → w.objects o ≡ some ob
      → w.next_object ≢ o
      → runlock o (with_object p tab (held o ob w)) ≡ returned tt (with_object p tab w)
  unfolding runlock set_object
  runlock-made w {ob} here ne =
      rw
        (get_object-some o (with_object p tab (held o ob w))
          (update_ne (held o ob w).objects w.next_object _ o ne ∙ update_self w.objects o _))
        (ap (λ f. returned tt (record (with_object p tab w) { objects = f }))
          (rw (readers_back ob) (undo w.objects o w.next_object _ _ (some ob) here ne)))

  pub reading-made :
      {A : Type 0} (body : Go L A) (w v : World L) {ob : Object} (a : A)
      → w.objects o ≡ some ob
      → ob.writing ≡ false
      → v.objects o ≡ some ob
      → v.next_object ≢ o
      → body (held o ob w) ≡ returned a (with_object p tab (held o ob v))
      → reading (some o) body w ≡ returned a (with_object p tab v)
  unfolding reading
  reading-made body w v a here free there ne run =
      rw (rlock-held o w here free, run, runlock-made v there ne)
