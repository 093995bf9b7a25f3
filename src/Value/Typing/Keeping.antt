-- ===== src/Value/Typing/Keeping.antt =====
-- What keeps a world calm, and the values of it typed.
use gluau.Prelude.{
  Option-cases, ℕ, ◌≡◌, ◌≢◌, refl, Option, some, true, inl, inr, update_self, ◌==◌, ==-eq,
  Bool-cases, arith,
}
use gluau.World.{ObjectTab, Dtor, Box, World}
use gluau.Ffi.Boxes.{frees}
use gluau.Ffi.Ownership.{with_box, without}
use gluau.Object.Sound.{
  new_handle, with_object, with_object-IsSound, with_box-IsSound, with_box-Unowned, without-IsSound,
}
use gluau.Handles.{GoLuaVmWrapper}
use gluau.Value.Types.{Value}
use gluau.Value.Typing.{
  IsCalm, Has, IsVm, wrapping, IsTyped, plain, cloned, table, error, thread, buffer, IsNew, Keeps,
  Settled,
}

module _ {L : Type 0} where
  pub Keeps-refl : (w : World L) → Keeps w w
  Keeps-refl w = record {
    objects = λ o ob e. e;
    boxes = λ p b e. e;
    unowned = λ p b e free. free;
    arrivals = λ o ob e. inl e;
  }

  pub Keeps-trans : {u v w : World L} → Keeps u v → Keeps v w → Keeps u w
  Keeps-trans f g = record {
    objects = λ o ob e. g.objects o ob (f.objects o ob e);
    boxes = λ p b e. g.boxes p b (f.boxes p b e);
    unowned = λ p b e free. g.unowned p b (f.boxes p b e) (f.unowned p b e free);
    arrivals =
        λ o ob e. elim (g.arrivals o ob e) [ inl old ↦ f.arrivals o ob old | inr idle ↦ inr idle ];
  }

  Has-Keeps : {v w : World L} {tab : ObjectTab} {o : ℕ} → Keeps v w → Has v tab o → Has w tab o
  Has-Keeps keeps had = record {
    object = had.object;
    there = keeps.objects _ had.object had.there;
    made_with = had.made_with;
  }

  pub IsVm-Keeps : {v w : World L} {l : Option GoLuaVmWrapper} → Keeps v w → IsVm v l → IsVm w l
  IsVm-Keeps keeps (wrapping h) = wrapping (Has-Keeps keeps h)

  pub IsTyped-Keeps : {v w : World L} {x : Value} → Keeps v w → IsTyped v x → IsTyped w x
  IsTyped-Keeps keeps (plain h) = plain h
  IsTyped-Keeps keeps (cloned k f h) = cloned k f (Has-Keeps keeps h)
  IsTyped-Keeps keeps (table vm h) = table (IsVm-Keeps keeps vm) (Has-Keeps keeps h)
  IsTyped-Keeps keeps (error h) = error (Has-Keeps keeps h)
  IsTyped-Keeps keeps (thread h) = thread (keeps.boxes _ _ h)
  IsTyped-Keeps keeps (buffer h) = buffer (keeps.boxes _ _ h)

  module _ {w : World L} (calm : IsCalm w) where
    module _ (b : Box) where
      pub with_box-IsCalm : IsCalm (with_box w b)
      with_box-IsCalm = record { sound = with_box-IsSound w b calm.sound; free = calm.free }

      pub with_box-Keeps : Keeps w (with_box w b)
      with_box-Keeps = record {
        objects = λ o ob e. e;
        boxes = λ p c e. ground (arith, calm.sound.fresh_box p);
        unowned = λ p c e free. free;
        arrivals = λ o ob e. inl e;
      }

      pub with_box-IsNew : IsNew w (with_box w b) b w.next_box
      with_box-IsNew = record {
        there = update_self w.boxes w.next_box _;
        fresh = calm.sound.fresh_box w.next_box (omega arith);
        unowned = with_box-Unowned w b calm.sound;
      }

      pub with_box-Settled : Settled w (with_box w b)
      with_box-Settled = record { calm = with_box-IsCalm; keeps = with_box-Keeps }

  -- The receiver takes a box of its own over.
  pub without-Settled :
      {v w : World L} {b : Box} {p : ℕ} → Settled v w → IsNew v w b p → Settled v (without w p)
  without-Settled {v} {w} {b} {p} had new = record {
    calm = record { sound = without-IsSound w p had.calm.sound new.unowned; free = had.calm.free };
    keeps = record {
      objects = had.keeps.objects;
      boxes = λ q c e. ground (arith, new.fresh, had.keeps.boxes q c e, ==-eq p q);
      unowned = had.keeps.unowned;
      arrivals = had.keeps.arrivals;
    };
  }

  pub Settled-refl : {w : World L} → IsCalm w → Settled w w
  Settled-refl {w} calm = record { calm = calm; keeps = Keeps-refl w }

  pub Settled-trans : {u v w : World L} → Settled u v → Settled v w → Settled u w
  Settled-trans f g = record { calm = g.calm; keeps = Keeps-trans f.keeps g.keeps }

  -- A box that is new stays so while things are kept, and is new since any earlier world.
  pub IsNew-Keeps : {v w u : World L} {b : Box} {p : ℕ} → IsNew v w b p → Keeps w u → IsNew v u b p
  IsNew-Keeps new keeps = record {
    there = keeps.boxes _ _ new.there;
    fresh = new.fresh;
    unowned = keeps.unowned _ _ new.there new.unowned;
  }

  pub IsNew-since : {v w u : World L} {b : Box} {p : ℕ} → Keeps v w → IsNew w u b p → IsNew v u b p
  IsNew-since {v} {p = p} keeps new = record {
    there = new.there;
    fresh = elim (Option-cases (v.boxes p)) [
      | inl e ↦ e
      | inr (c, e) ↦ absurd (ground (arith, keeps.boxes p c e, new.fresh))
    ];
    unowned = new.unowned;
  }

  -- A new object takes a new box over that its destructor frees.
  module _ {v w : World L} {b : Box} {p : ℕ} (had : Settled v w) (new : IsNew v w b p) where
    pub not_null : p ≢ 0
    not_null = ground (arith, had.calm.sound.null, new.there)

    abbrev pub adopting : Dtor → World L
    adopting d = with_object p (record { dtor = some d }) w

    adopting-IsCalm : (d : Dtor) → frees d b ≡ true → IsCalm (adopting d)
    adopting-IsCalm d fits = record {
      sound =
          with_object-IsSound w had.calm.sound new.unowned
            (record { dtor = d; box = b; named = refl; there = new.there; fits = fits });
      free = λ i a e. elim (Bool-cases (w.next_object == i)) [
        | inl is_new ↦ ground arith
        | inr old ↦ had.calm.free i a (ground arith)
      ];
    }

    adopting-Keeps : (d : Dtor) → Keeps v (adopting d)
    adopting-Keeps d = record {
      objects = λ o ob e. ground (arith, had.calm.sound.fresh_object o, had.keeps.objects o ob e);
      boxes = had.keeps.boxes;
      unowned = λ q c e free o ob there. elim (Bool-cases (w.next_object == o)) [
        | inl is_new ↦ λ same. ground (arith, new.fresh)
        | inr old ↦ had.keeps.unowned q c e free o ob (ground arith)
      ];
      arrivals = λ o ob e. elim (Bool-cases (w.next_object == o)) [
        | inl is_new ↦ inr (record { readers = ground arith; writing = ground arith })
        | inr old ↦ had.keeps.arrivals o ob (ground arith)
      ];
    }

    pub adopting-Settled : (d : Dtor) → frees d b ≡ true → Settled v (adopting d)
    adopting-Settled d fits = record { calm = adopting-IsCalm d fits; keeps = adopting-Keeps d }

    pub adopting-Has : (d : Dtor) → Has (adopting d) (record { dtor = some d }) w.next_object
    adopting-Has d = record {
      object = new_handle p (record { dtor = some d });
      there = update_self w.objects w.next_object _;
      made_with = refl;
    }
