-- ===== src/Object/Sound.antt =====
-- The invariant of the objects: each open one owns a live box of the type that its destructor frees,
-- and no two own the same box.
use gluau.Prelude.{
  ℕ, ◌+◌, ◌≤◌, ◌<◌, ◌≡◌, refl, sym, ◌∙◌, ◌≢◌, subst, inl, inr, true, false, none, some, update,
  update_ne, ◌==◌, ==-ne, Bool-cases, arith,
}
use gluau.World.{Object, ObjectTab, Dtor, Box, World, returned}
use gluau.Ffi.Boxes.{frees}
use gluau.Ffi.Ownership.{with_box, without}
use gluau.Object.{new_object}
use gluau.Object.Closing.{after_close}

-- The box of an open object is there, and is of the type that its destructor frees.
pub record Owns {L : Type 0} (w : World L) (ob : Object) : Type 0 where
  pub dtor : Dtor
  pub box : Box
  pub named : ob.tab.dtor ≡ some dtor
  pub there : w.boxes ob.ptr ≡ some box
  pub fits : frees dtor box ≡ true

pub record IsSound {L : Type 0} (w : World L) : Type 0 where
  pub null : w.boxes 0 ≡ none
  pub positive : 0 < w.next_box
  pub fresh_box : (p : ℕ) → w.next_box ≤ p → w.boxes p ≡ none
  pub fresh_object : (o : ℕ) → w.next_object ≤ o → w.objects o ≡ none
  pub owns : (o : ℕ) (ob : Object) → w.objects o ≡ some ob → ob.ptr ≢ 0 → Owns w ob
  pub apart :
      (i j : ℕ) (a b : Object)
      → w.objects i ≡ some a
      → w.objects j ≡ some b
      → a.ptr ≢ 0
      → a.ptr ≡ b.ptr
      → i ≡ j

-- Only the box counts for who owns it.
pub Owns-move :
    {L : Type 0} {v w : World L} {ob : Object}
    → Owns v ob
    → w.boxes ob.ptr ≡ v.boxes ob.ptr
    → Owns w ob
Owns-move had same = record {
  dtor = had.dtor;
  box = had.box;
  named = had.named;
  there = same ∙ had.there;
  fits = had.fits;
}

-- No object owns the box.
abbrev pub Unowned : {L : Type 0} → World L → ℕ → Type 0
Unowned w p = (o : ℕ) (ob : Object) → w.objects o ≡ some ob → ob.ptr ≢ p

module _ {L : Type 0} {w : World L} (s : IsSound w) where
  -- What is left after a close: the object is shut, so it owns nothing, and the others keep theirs.
  module _ (o : ℕ) {ob : Object} (here : w.objects o ≡ some ob) (ne : ob.ptr ≢ 0) where
    kept_object :
        (i : ℕ) (a : Object)
        → (after_close o ob w).objects i ≡ some a
        → a.ptr ≢ 0
        → (o ≢ i) × (w.objects i ≡ some a)
    kept_object i a e open_ptr = ground arith

    after_close-Owns :
        (i : ℕ) (a : Object)
        → (after_close o ob w).objects i ≡ some a
        → a.ptr ≢ 0
        → Owns (after_close o ob w) a
    after_close-Owns i a e open_ptr = Owns-move had (update_ne w.boxes ob.ptr none a.ptr other)
      where
        was : (o ≢ i) × (w.objects i ≡ some a)
        was = kept_object i a e open_ptr

        had : Owns w a
        had = s.owns i a was.1 open_ptr

        other : ob.ptr ≢ a.ptr
        other same = was.0 (s.apart o i ob a here was.1 ne same)

    pub after_close-IsSound : IsSound (after_close o ob w)
    after_close-IsSound = record {
      null = ground (arith, s.null);
      positive = s.positive;
      fresh_box = λ p h. ground (arith, s.fresh_box p h);
      fresh_object = λ i h. ground (arith, s.fresh_object i h);
      owns = after_close-Owns;
      apart = λ i j a b p q open_ptr same.
          s.apart i j a b (kept_object i a p open_ptr).1
            (kept_object j b q (λ z. open_ptr (same ∙ z))).1 open_ptr same;
    }

-- The world after `newObject` of a pointer that is not null.
abbrev pub new_handle : ℕ → ObjectTab → Object
new_handle p tab = record { ptr = p; tab = tab; readers = 0; writing = false; finalizer = true }

abbrev pub with_object : {L : Type 0} → ℕ → ObjectTab → World L → World L
with_object p tab w = record w {
  objects = update w.objects w.next_object (some (new_handle p tab));
  next_object = w.next_object + 1;
}

module _ {L : Type 0} (w : World L) where
  pub new_object-some :
      (p : ℕ) (tab : ObjectTab)
      → p ≢ 0
      → new_object p tab w ≡ returned (some w.next_object) (with_object p tab w)
  unfolding new_object
  new_object-some p tab ne = rw (==-ne p 0 ne)

  fresh_handle :
      {p : ℕ} {tab : ObjectTab} (i : ℕ) (a : Object)
      → (with_object p tab w).objects i ≡ some a
      → (w.next_object == i) ≡ true
      → new_handle p tab ≡ a
  fresh_handle i a e new = ground arith

  -- `newObject` of a live box that nobody owns makes a sound world.
  pub with_object-IsSound :
      {p : ℕ} {tab : ObjectTab}
      → IsSound w
      → Unowned w p
      → Owns w (new_handle p tab)
      → IsSound (with_object p tab w)
  with_object-IsSound {p} {tab} s free own = record {
    null = s.null;
    positive = s.positive;
    fresh_box = s.fresh_box;
    fresh_object = λ i h. ground (arith, s.fresh_object i);
    owns = λ i a e ne. elim (Bool-cases (w.next_object == i)) [
      | inl new ↦
          subst (λ x. Owns (with_object p tab w) x) (fresh_handle i a e new) (Owns-move own refl)
      | inr old ↦ Owns-move (s.owns i a (ground arith) ne) refl
    ];
    apart = λ i j a b e f ne same. ground (arith, s.apart i j a b, free i a, free j b);
  }

  -- A fresh box keeps the world sound, and nobody owns it.
  pub with_box-IsSound : (b : Box) → IsSound w → IsSound (with_box w b)
  with_box-IsSound b s = record {
    null = ground (arith, s.null, s.positive);
    positive = omega (arith, s.positive);
    fresh_box = λ p h. ground (arith, s.fresh_box p);
    fresh_object = s.fresh_object;
    owns = λ o ob e ne.
        let had = s.owns o ob e ne in Owns-move had (ground (arith, had.there, s.fresh_box ob.ptr));
    apart = s.apart;
  }

  pub with_box-Unowned : (b : Box) → IsSound w → Unowned (with_box w b) w.next_box
  with_box-Unowned b s o ob e same =
      let had = s.owns o ob e (λ z. omega (arith, s.positive)) in
      ground (arith, had.there, s.fresh_box ob.ptr)

  -- Freeing a box that nobody owns keeps the world sound.
  pub without-IsSound : (p : ℕ) → IsSound w → Unowned w p → IsSound (without w p)
  without-IsSound p s free = record {
    null = ground (arith, s.null);
    positive = s.positive;
    fresh_box = λ q h. ground (arith, s.fresh_box q h);
    fresh_object = s.fresh_object;
    owns = λ o ob e ne.
        Owns-move (s.owns o ob e ne)
          (update_ne w.boxes p none ob.ptr λ same. free o ob e (sym same));
    apart = s.apart;
  }
