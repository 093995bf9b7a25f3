-- ===== src/References/Represents.antt =====
-- When a world of objects and boxes represents the abstract store, and what keeps it so.
use gluau.Prelude.{
  ℕ, ◌+◌, ◌<◌, ◌≡◌, sym, ◌∙◌, ◌≢◌, ap, subst, false, Option, none, some, update_self, ◌==◌, ==-eq,
  Bool-cases, Option-cases, inl, inr, arith,
}
use gluau.World.{Object, Box, ref_box, World}
use gluau.Ffi.Ownership.{with_box, without}
use gluau.Object.Sound.{IsSound, new_handle, with_box-IsSound, with_box-Unowned, without-IsSound}
use gluau.Object.Lifetime.{
  IsQuiet, closed_as, closing, closing-IsSound, closing-IsQuiet, closing-objects, closing-boxes,
  closing-freed, closing-none,
}
use gluau.Value.Cloning.{Cloned, kind_of, tab_of, returned_world, returned_world-IsSound}
use gluau.References.{Entry, Store, entry, added, cut}

-- The pointer of an object, and the box it points to, are those of an entry.
abbrev pub Targets : {L : Type 0} → World L → Object → Cloned → Option ℕ → Type 0
Targets w ob k none = ob.ptr ≡ 0
Targets w ob k (some r) = (ob.ptr ≢ 0) × (w.boxes ob.ptr ≡ some (ref_box (kind_of k) r))

pub record Holds {L : Type 0} (w : World L) (o : ℕ) (e : Entry) : Type 0 where
  pub object : Object
  pub there : w.objects o ≡ some object
  pub targets : Targets w object e.kind e.target

-- An object that the box belongs to.
pub record Owner {L : Type 0} (w : World L) (p : ℕ) : Type 0 where
  pub number : ℕ
  pub object : Object
  pub there : w.objects number ≡ some object
  pub points : object.ptr ≡ p

-- Each value of the store is an object over a box of its own with the same target, and there is no
-- box that no object frees.
pub record Represents {L : Type 0} (w : World L) (σ : Store) : Type 0 where
  pub sound : IsSound w
  pub quiet : IsQuiet w
  pub next : w.next_object ≡ σ.next
  pub holds : (o : ℕ) (e : Entry) → σ.entries o ≡ some e → Holds w o e
  pub owned : (p : ℕ) (b : Box) → w.boxes p ≡ some b → Owner w p

-- A box that is there is one that has been allocated.
used_box :
    {L : Type 0} {w : World L} (s : IsSound w) (p : ℕ) {b : Box}
    → w.boxes p ≡ some b
    → p < w.next_box
used_box s p there = ground (arith, s.fresh_box p)

used_object :
    {L : Type 0} {w : World L} (s : IsSound w) (o : ℕ) {a : Object}
    → w.objects o ≡ some a
    → o < w.next_object
used_object s o there = ground (arith, s.fresh_object o)

Targets-move :
    {L : Type 0} (v w : World L) (ob : Object) (k : Cloned) (t : Option ℕ)
    → Targets v ob k t
    → ((b : Box) → v.boxes ob.ptr ≡ some b → w.boxes ob.ptr ≡ v.boxes ob.ptr)
    → Targets w ob k t
Targets-move v w ob k none had same = had
Targets-move v w ob k (some r) had same = (had.0, same _ had.1 ∙ had.1)

module _ {L : Type 0} {w : World L} {σ : Store} (rep : Represents w σ) where
  -- Go receives a reference.
  module _ (k : Cloned) (r : ℕ) where
    arrival-Holds :
        (o : ℕ) (e : Entry) → (added σ k r).entries o ≡ some e → Holds (returned_world w k r) o e
    arrival-Holds o e named = elim (Bool-cases (w.next_object == o)) [
      | inl new ↦
          subst (λ x. Holds (returned_world w k r) o x) {x = entry k (some r)}
            (ground (arith, rep.next))
            (record {
              object = new_handle w.next_box (tab_of k);
              there = ground arith;
              targets = (ground (arith, rep.sound.positive), update_self w.boxes w.next_box _);
            })
      | inr old ↦
          let had = rep.holds o e (ground (arith, rep.next)) in
          record {
            object = had.object;
            there = ground (arith, had.there);
            targets =
                Targets-move w (returned_world w k r) had.object e.kind e.target had.targets
                  (λ b h. ground (arith, used_box rep.sound had.object.ptr h));
          }
    ]

    arrival-owned :
        (p : ℕ) (b : Box) → (returned_world w k r).boxes p ≡ some b → Owner (returned_world w k r) p
    arrival-owned p b there = elim (Bool-cases (w.next_box == p)) [
      | inl new ↦ record {
        number = w.next_object;
        object = new_handle w.next_box (tab_of k);
        there = update_self w.objects w.next_object _;
        points = ground arith;
      }
      | inr old ↦
          let owner = rep.owned p b (ground arith) in
          record {
            number = owner.number;
            object = owner.object;
            there = ground (arith, owner.there, used_object rep.sound owner.number owner.there);
            points = owner.points;
          }
    ]

    pub arrival-Represents : Represents (returned_world w k r) (added σ k r)
    arrival-Represents = record {
      sound = returned_world-IsSound w k r rep.sound;
      quiet = λ i a e. elim (Bool-cases (w.next_object == i)) [
        | inl new ↦ ground arith
        | inr old ↦ rep.quiet i a (ground arith)
      ];
      next = ap (λ (n : ℕ). n + 1) rep.next;
      holds = arrival-Holds;
      owned = arrival-owned;
    }

  -- `Close`.
  module _ (k : Cloned) (o : ℕ) {ob : Object} (here : w.objects o ≡ some ob) where
    cut-ptr :
        (i : ℕ) (a : Object) → (o == i) ≡ false → w.objects i ≡ some a → a.ptr ≢ 0 → ob.ptr ≢ a.ptr
    cut-ptr i a other there open_ptr same = absurd (ground (arith, rep.sound.apart o i ob a))

    cut-Holds : (i : ℕ) (e : Entry) → (cut σ k o).entries i ≡ some e → Holds (closing o ob w) i e
    cut-Holds i e named = elim (Bool-cases (o == i)) [
      | inl same ↦
          subst (λ x. Holds (closing o ob w) i x) {x = entry k none} (ground arith)
            (record {
              object = closed_as ob;
              there = ground (arith, closing-objects rep.sound rep.quiet o here i);
              targets = ground arith;
            })
      | inr other ↦
          let had = rep.holds i e (ground arith) in
          record {
            object = had.object;
            there = ground (arith, had.there, closing-objects rep.sound rep.quiet o here i);
            targets = Targets-move w (closing o ob w) had.object e.kind e.target had.targets λ b h.
                closing-boxes rep.sound rep.quiet o here had.object.ptr
                  (cut-ptr i had.object other had.there (ground (arith, rep.sound.null)));
          }
    ]

    kept_box : (p : ℕ) (b : Box) → (closing o ob w).boxes p ≡ some b → w.boxes p ≡ some b
    kept_box p b there = ground (
      arith,
      closing-none rep.sound rep.quiet o here p,
      Option-cases (w.boxes p),
      closing-boxes rep.sound rep.quiet o here p,
    )

    kept_owner :
        (p : ℕ) (b : Box)
        → (closing o ob w).boxes p ≡ some b
        → (owner : Owner w p) → (o == owner.number) ≡ false
    kept_owner p b there owner = ground (
      arith,
      owner.there,
      owner.points,
      ==-eq o owner.number,
      closing-freed rep.sound rep.quiet o here,
      rep.sound.null,
      kept_box p b there,
    )

    cut-owned : (p : ℕ) (b : Box) → (closing o ob w).boxes p ≡ some b → Owner (closing o ob w) p
    cut-owned p b there =
        let owner = rep.owned p b (kept_box p b there) in
        record {
          number = owner.number;
          object = owner.object;
          there = ground (
            arith,
            owner.there,
            kept_owner p b there owner,
            closing-objects rep.sound rep.quiet o here owner.number,
          );
          points = owner.points;
        }

    pub cut-Represents : Represents (closing o ob w) (cut σ k o)
    cut-Represents = record {
      sound = closing-IsSound rep.sound rep.quiet o here;
      quiet = closing-IsQuiet rep.sound rep.quiet o here;
      next = ground (arith, rep.next);
      holds = cut-Holds;
      owned = cut-owned;
    }

  -- Rust takes over a copy, and is done with it.
  module _ (b : Box) where
    abbrev pub spent : World L
    spent = without (with_box w b) w.next_box

    spent-boxes : (p : ℕ) → spent.boxes p ≡ w.boxes p
    spent-boxes p = ground (arith, rep.sound.fresh_box w.next_box, ==-eq w.next_box p)

    pub spent-Represents : Represents spent σ
    spent-Represents = record {
      sound =
          without-IsSound (with_box w b) w.next_box (with_box-IsSound w b rep.sound)
            (with_box-Unowned w b rep.sound);
      quiet = rep.quiet;
      next = rep.next;
      holds = λ o e named.
          let had = rep.holds o e named in
          record {
            object = had.object;
            there = had.there;
            targets =
                Targets-move w spent had.object e.kind e.target had.targets
                  λ c h. spent-boxes had.object.ptr;
          };
      owned = λ p c there.
          let owner = rep.owned p c (sym (spent-boxes p) ∙ there) in
          record {
            number = owner.number;
            object = owner.object;
            there = owner.there;
            points = owner.points;
          };
    }
