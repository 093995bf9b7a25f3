-- ===== src/Value/Typing/Safe.antt =====
-- Runs that begin in a world `v`, keep what is there, and neither panic, wait nor do anything undefined;
-- and methods that run under the read lock of an object.
use gluau.Prelude.{
  ◌+◌, ◌-◌, ℕ, ◌≡◌, ◌∙◌, refl, sym, ap, some, inl, inr, update, update_self, ◌==◌, ==-eq,
  Bool-cases, arith,
}
use gluau.World.{
  Object, ObjectTab, World, Run, returned, failed, panicked, undefined, blocked, Go, and_then,
  conclude,
}
use gluau.Object.{runlock, set_object, reading}
use gluau.Object.Locks.{locked, held, get_object-some, readers_back, rlock-held}
use gluau.Object.Sound.{Unowned}
use gluau.Value.Typing.{IsCalm, Ensures, Settled}
use gluau.Value.Typing.Keeping.{Settled-trans}
use gluau.Value.Typing.Closed.{Stays}

-- A run that keeps what is in `v`, also when it returns an error; its value has the property `P`.
abbrev pub Safe : {L A : Type 0} → World L → (A → World L → Type 0) → Run L A → Type 0
Safe v P r = Ensures (λ a u. Settled v u × P a u) (Settled v) r

module _ {L A B : Type 0} (v : World L) (P : A → World L → Type 0) (Q : B → World L → Type 0) where
  pub Safe-and_then :
      (r : Run L A) (k : A → Go L B)
      → Safe v P r
      → ((a : A) (u : World L) → Settled v u → P a u → Safe v Q (k a u))
      → Safe v Q (and_then r k)
  Safe-and_then (returned a w) k had later = later a w had.0 had.1
  Safe-and_then (failed e w) k had later = had
  Safe-and_then (panicked e w) k had later = absurd had
  Safe-and_then undefined k had later = absurd had
  Safe-and_then blocked k had later = absurd had

module _ {L A : Type 0} {v w : World L} (P Q : A → World L → Type 0) where
  -- The same run, seen from an earlier world, with what follows of its value.
  pub Safe-since :
      (r : Run L A)
      → Settled v w
      → Safe w P r
      → ((a : A) (u : World L) → Settled w u → P a u → Q a u)
      → Safe v Q r
  Safe-since (returned a u) since had f = (Settled-trans since had.0, f a u had.0 had.1)
  Safe-since (failed e u) since had f = Settled-trans since had
  Safe-since (panicked e u) since had f = absurd had
  Safe-since undefined since had f = absurd had
  Safe-since blocked since had f = absurd had

-- One object changed in its readers and nothing else.
module _ {L : Type 0} (u : World L) (o : ℕ) {a : Object} (n : ℕ) (here : u.objects o ≡ some a) where
  abbrev pub recounted : World L
  recounted = record u { objects = update u.objects o (some (record a { readers = n })) }

  was :
      (i : ℕ) (b : Object)
      → recounted.objects i ≡ some b
      → (c : Object) × (u.objects i ≡ some c)
        × (c.ptr ≡ b.ptr)
        × (c.tab ≡ b.tab)
        × (c.writing ≡ b.writing)
  was i b e = elim (Bool-cases (o == i)) [
    | inl same ↦ (a, ground (arith, ==-eq o i), ground arith, ground arith, ground arith)
    | inr differ ↦ (b, ground arith, refl, refl, refl)
  ]

  pub recounted-IsCalm : IsCalm u → IsCalm recounted
  recounted-IsCalm calm = record {
    sound = record {
      null = calm.sound.null;
      positive = calm.sound.positive;
      fresh_box = calm.sound.fresh_box;
      fresh_object = λ i h. ground (arith, calm.sound.fresh_object i, ==-eq o i);
      owns = λ i b e ne.
          let (c, there, ptr, tab, writing) = was i b e in
          let own = calm.sound.owns i c there (λ z. ne (sym ptr ∙ z)) in
          record {
            dtor = own.dtor;
            box = own.box;
            named = ap (λ (t : ObjectTab). t.dtor) (sym tab) ∙ own.named;
            there = ap u.boxes (sym ptr) ∙ own.there;
            fits = own.fits;
          };
      apart = λ i j b c e f ne same.
          let (b', there, ptr, _, _) = was i b e in
          let (c', there', ptr', _, _) = was j c f in
          calm.sound.apart i j b' c' there there' (λ z. ne (sym ptr ∙ z)) (ptr ∙ same ∙ sym ptr');
    };
    free = λ i b e. let (c, there, _, _, writing) = was i b e in sym writing ∙ calm.free i c there;
  }

  pub recounted-Stays : Stays u recounted
  recounted-Stays = record {
    objects = λ t i h. elim (Bool-cases (o == i)) [
      | inl same ↦ record {
        object = record a { readers = n };
        there = ground arith;
        made_with = ground (arith, h.there, h.made_with, ==-eq o i);
      }
      | inr differ ↦ record {
        object = h.object;
        there = ground (arith, h.there);
        made_with = h.made_with;
      }
    ];
    threads = λ p r e. e;
    buffers = λ p r e. e;
  }

  pub recounted-Unowned : (p : ℕ) → Unowned u p → Unowned recounted p
  recounted-Unowned p free i b e =
      let (c, there, ptr, _, _) = was i b e in λ same. free i c there (ptr ∙ same)

module _ {L : Type 0} (w : World L) (o : ℕ) {ob : Object} (here : w.objects o ≡ some ob) where
  module _ {u : World L} (had : Settled (held o ob w) u) where
    still : u.objects o ≡ some (locked ob)
    still = had.keeps.objects o (locked ob) (update_self w.objects o _)

    -- The world after `RUnlock`.
    abbrev released : World L
    released = recounted u o (ob.readers + 1 - 1) still

    released-same : released.objects o ≡ some ob
    released-same = update_self u.objects o _ ∙ ap some (readers_back ob)

    runlock-released : runlock o u ≡ returned tt released
    unfolding runlock set_object
    runlock-released = rw (get_object-some o u still) refl

    released-Settled : Settled w released
    released-Settled = record {
      calm = recounted-IsCalm u o _ still had.calm;
      keeps = record {
        objects = λ i b e. elim (Bool-cases (o == i)) [
          | inl same ↦ ground (arith, released-same, ==-eq o i)
          | inr differ ↦ ground (arith, had.keeps.objects i b)
        ];
        boxes = had.keeps.boxes;
        unowned = λ p c e free.
            recounted-Unowned u o _ still p
              (had.keeps.unowned p c e (recounted-Unowned w o _ here p free));
        arrivals = λ i b e. elim (Bool-cases (o == i)) [
          | inl same ↦ inl (ground (arith, released-same, ==-eq o i))
          | inr differ ↦ elim (had.keeps.arrivals i b (ground arith)) [
            | inl old ↦ inl (ground arith)
            | inr idle ↦ inr idle
          ]
        ];
      };
    }

  module _ {A : Type 0} (P : A → World L → Type 0)
      (lasts : (a : A) (u t : World L) → Stays u t → P a u → P a t) where
    conclude-Safe : (r : Run L A) → Safe (held o ob w) P r → Safe w P (conclude r (runlock o))
    conclude-Safe (returned a u) had =
        rw (runlock-released had.0)
          (released-Settled had.0, lasts a u _ (recounted-Stays u o _ (still had.0)) had.1)
    conclude-Safe (failed e u) had = rw (runlock-released had) (released-Settled had)
    conclude-Safe (panicked e u) had = absurd had
    conclude-Safe undefined had = absurd had
    conclude-Safe blocked had = absurd had

    -- A method whose body is safe under the read lock gives the lock back.
    pub reading-Safe :
        (body : Go L A)
        → IsCalm w
        → Safe (held o ob w) P (body (held o ob w))
        → Safe w P (reading (some o) body w)
    unfolding reading
    reading-Safe body calm had =
        rw (rlock-held o w here (calm.free o ob here)) (conclude-Safe (body (held o ob w)) had)
