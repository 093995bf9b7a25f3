-- ===== src/Object/Lifetime.antt =====
-- Any sequence of `Close` calls and finalizers: each box is freed once, and nothing else changes.
use gluau.Prelude.{
  ℕ, ◌≡◌, refl, ◌∙◌, ◌≢◌, inl, inr, Bool, true, false, ◌||◌, none, some, List, [], ◌∷◌, update,
  ◌==◌, ==-eq, if◌then◌else◌, Bool-cases, arith,
}
use gluau.World.{Object, World, returned, Go, pure, ◌>>◌}
use gluau.Object.{close}
use gluau.Object.Closing.{IsIdle, shut, after_close, close-open, close-closed}
use gluau.Object.Sound.{IsSound, after_close-IsSound}

-- No goroutine is reading or closing an object.
abbrev pub IsQuiet : {L : Type 0} → World L → Type 0
IsQuiet w = (i : ℕ) (a : Object) → w.objects i ≡ some a → IsIdle a

abbrev pub closed_as : Object → Object
closed_as ob = if ob.ptr == 0 then ob else shut ob

module _ {L : Type 0} where
  abbrev pub closing : ℕ → Object → World L → World L
  closing o ob w = if ob.ptr == 0 then w else after_close o ob w

  -- Where nobody reads or closes the object, `Close` returns.
  pub close-idle :
      {w : World L} (s : IsSound w) (o : ℕ) {ob : Object} (here : w.objects o ≡ some ob)
      → IsIdle ob
      → close o w ≡ returned tt (closing o ob w)
  close-idle {w} s o {ob} here idle = elim (Bool-cases (ob.ptr == 0)) [
    | inl gone ↦ rw gone (close-closed o w here idle (==-eq ob.ptr 0 gone))
    | inr more ↦
        let own = s.owns o ob here (ground arith) in
        rw more (close-open o w here idle (ground arith) own.named own.there own.fits)
  ]

  module _ {w : World L} (s : IsSound w) (q : IsQuiet w) (o : ℕ) {ob : Object}
      (here : w.objects o ≡ some ob) where
    -- `Close` always returns, and leaves a sound world.
    pub close-closing : close o w ≡ returned tt (closing o ob w)
    close-closing = close-idle s o here (q o ob here)

    pub closing-IsSound : IsSound (closing o ob w)
    closing-IsSound = elim (Bool-cases (ob.ptr == 0)) [
      | inl gone ↦ rw gone s
      | inr more ↦ rw more (after_close-IsSound s o here (ground arith))
    ]

    pub closing-objects :
        (i : ℕ) → (closing o ob w).objects i ≡ update w.objects o (some (closed_as ob)) i
    closing-objects i = ground (arith, ==-eq o i)

    pub closing-freed : ob.ptr ≢ 0 → (closing o ob w).boxes ob.ptr ≡ none
    closing-freed ne = ground arith

    pub closing-boxes : (p : ℕ) → ob.ptr ≢ p → (closing o ob w).boxes p ≡ w.boxes p
    closing-boxes p ne = ground arith

    pub closing-none : (p : ℕ) → w.boxes p ≡ none → (closing o ob w).boxes p ≡ none
    closing-none p e = ground arith

    pub closing-IsQuiet : IsQuiet (closing o ob w)
    closing-IsQuiet i a e = ground (arith, q i a, q o ob)

abbrev pub has : ℕ → List ℕ → Bool
has i [] = false
has i (o ∷ os) = (o == i) || has i os

abbrev pub AreObjects : {L : Type 0} → World L → List ℕ → Type 0
AreObjects w [] = Unit
AreObjects w (o ∷ os) = ((ob : Object) × (w.objects o ≡ some ob)) × AreObjects w os

-- What closing the objects `os` leaves of `w`.
pub record Closed {L : Type 0} (w : World L) (os : List ℕ) (w' : World L) : Type 0 where
  pub sound : IsSound w'
  pub quiet : IsQuiet w'
  pub shut_down :
      (i : ℕ) (a : Object)
      → has i os ≡ true
      → w.objects i ≡ some a
      → w'.objects i ≡ some (closed_as a)
  pub others : (i : ℕ) → has i os ≡ false → w'.objects i ≡ w.objects i
  pub freed :
      (i : ℕ) (a : Object)
      → has i os ≡ true
      → w.objects i ≡ some a
      → a.ptr ≢ 0
      → w'.boxes a.ptr ≡ none
  pub gone : (p : ℕ) → w.boxes p ≡ none → w'.boxes p ≡ none
  pub kept :
      (p : ℕ)
      → p ≢ 0
      → ((i : ℕ) (a : Object) → has i os ≡ true → w.objects i ≡ some a → a.ptr ≢ p)
      → w'.boxes p ≡ w.boxes p

module _ {L : Type 0} where
  unfoldable pub close_all : List ℕ → Go L (Unit {0})
  close_all [] = pure tt
  close_all (o ∷ os) = close o >> close_all os

  AreObjects-closing :
      (w : World L) (o : ℕ) (ob : Object) (os : List ℕ)
      → AreObjects w os
      → AreObjects (closing o ob w) os
  AreObjects-closing w o ob [] all = tt
  AreObjects-closing w o ob (i ∷ os) all = (
    elim (Bool-cases (ob.ptr == 0)) [
      | inl gone ↦ rw gone all.0
      | inr more ↦ rw more (elim (Bool-cases (o == i)) [
        | inl same ↦ (shut ob, ground arith)
        | inr differ ↦ (all.0.0, ground (arith, all.0.1))
      ])
    ],
    AreObjects-closing w o ob os all.1,
  )

  module _ {w : World L} (s : IsSound w) (q : IsQuiet w) (o : ℕ) {ob : Object}
      (here : w.objects o ≡ some ob) (os : List ℕ) {w' : World L}
      (c : Closed (closing o ob w) os w') where
    Closed-cons : Closed w (o ∷ os) w'
    Closed-cons = record {
      sound = c.sound;
      quiet = c.quiet;
      shut_down = λ i a m e. ground (
        arith,
        closing-objects s q o here i,
        c.shut_down i (closed_as ob),
        c.shut_down i a,
        c.others i,
        ==-eq o i,
      );
      others = λ i m. ground (arith, c.others i, closing-objects s q o here i);
      freed = λ i a m e ne. elim (Bool-cases (o == i)) [
        | inl same ↦ c.gone a.ptr (ground (arith, ==-eq o i))
        | inr differ ↦ c.freed i a (ground arith) (ground (arith, closing-objects s q o here i)) ne
      ];
      gone = λ p e. c.gone p (closing-none s q o here p e);
      kept = λ p ne un.
          c.kept p ne (λ i a m e. ground (arith, un i a, closing-objects s q o here i))
          ∙ closing-boxes s q o here p (un o ob (ground arith) here);
    }

  -- Closing objects in any order, some of them repeatedly, always returns: every box of a listed
  -- object is freed, every other box and object is as before, and the world stays sound.
  pub close_all-Closed :
      (w : World L) (os : List ℕ)
      → IsSound w
      → IsQuiet w
      → AreObjects w os
      → (w' : World L) × (close_all os w ≡ returned tt w') × Closed w os w'
  unfolding close_all
  close_all-Closed w [] s q all = (
    w,
    refl,
    record {
      sound = s;
      quiet = q;
      shut_down = λ i a m e. cc;
      others = λ i m. refl;
      freed = λ i a m e ne. cc;
      gone = λ p e. e;
      kept = λ p ne un. refl;
    },
  )
  close_all-Closed w (o ∷ os) s q all =
      let (ob, here) = all.0 in
      let (w', run, c) =
        close_all-Closed (closing o ob w) os (closing-IsSound s q o here)
          (closing-IsQuiet s q o here) (AreObjects-closing w o ob os all.1) in
      (w', rw (close-closing s q o here) run, Closed-cons s q o here os c)
