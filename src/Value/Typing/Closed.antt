-- ===== src/Value/Typing/Closed.antt =====
-- What `Close` leaves of the values of a program: closed objects keep their types, and no destructor frees
-- the box of a thread or a buffer.
use gluau.Prelude.{
  ℕ, ◌≡◌, ◌≢◌, ◌∙◌, refl, false, some, Option, inl, inr, ◌==◌, ==-eq, Bool-cases, arith,
}
use gluau.World.{
  RefKind, Object, ObjectTab, Dtor, free_lua_vm, free_string, free_table, free_function,
  free_userdata, free_error, ref_box, World,
}
use gluau.Ffi.Boxes.{frees}
use gluau.Object.Lifetime.{
  IsQuiet, closed_as, closing, close-closing, closing-IsSound, closing-IsQuiet, closing-objects,
  closing-boxes,
}
use gluau.Handles.{
  GoLuaVmWrapper, lua_vm_tab, close_vm, close_string, close_table, close_function, close_user_data,
  close_error,
}
use gluau.Value.Types.{Value, close}
use gluau.Value.Cloning.{strings, functions, userdata}
use gluau.Value.Typing.{
  IsCalm, Ensures, Has, IsPlain, IsVm, wrapping, IsTyped, plain, cloned, table, error, thread,
  buffer, Keeps,
}
use gluau.Value.Typing.Keeping.{Keeps-refl}

-- Objects keep their tables, and the boxes of threads and buffers stay.
pub record Stays {L : Type 0} (v w : World L) : Type 0 where
  pub objects : (t : ObjectTab) (o : ℕ) → Has v t o → Has w t o
  pub threads :
      (p r : ℕ)
      → v.boxes p ≡ some (ref_box RefKind.thread r)
      → w.boxes p ≡ some (ref_box RefKind.thread r)
  pub buffers :
      (p r : ℕ)
      → v.boxes p ≡ some (ref_box RefKind.buffer r)
      → w.boxes p ≡ some (ref_box RefKind.buffer r)

frees-thread : (d : Dtor) (r : ℕ) → frees d (ref_box RefKind.thread r) ≡ false
frees-thread free_lua_vm r = refl
frees-thread free_string r = refl
frees-thread free_table r = refl
frees-thread free_function r = refl
frees-thread free_userdata r = refl
frees-thread free_error r = refl

frees-buffer : (d : Dtor) (r : ℕ) → frees d (ref_box RefKind.buffer r) ≡ false
frees-buffer free_lua_vm r = refl
frees-buffer free_string r = refl
frees-buffer free_table r = refl
frees-buffer free_function r = refl
frees-buffer free_userdata r = refl
frees-buffer free_error r = refl

module _ {L : Type 0} where
  pub Keeps-Stays : {v w : World L} → Keeps v w → Stays v w
  Keeps-Stays keeps = record {
    objects = λ t o h. record {
      object = h.object;
      there = keeps.objects o h.object h.there;
      made_with = h.made_with;
    };
    threads = λ p r e. keeps.boxes p _ e;
    buffers = λ p r e. keeps.boxes p _ e;
  }

  pub Stays-trans : {u v w : World L} → Stays u v → Stays v w → Stays u w
  Stays-trans f g = record {
    objects = λ t o h. g.objects t o (f.objects t o h);
    threads = λ p r e. g.threads p r (f.threads p r e);
    buffers = λ p r e. g.buffers p r (f.buffers p r e);
  }

  pub IsVm-Stays : {v w : World L} {l : Option GoLuaVmWrapper} → Stays v w → IsVm v l → IsVm w l
  IsVm-Stays stays (wrapping h) = wrapping (stays.objects _ _ h)

  pub IsTyped-Stays : {v w : World L} {x : Value} → Stays v w → IsTyped v x → IsTyped w x
  IsTyped-Stays stays (plain h) = plain h
  IsTyped-Stays stays (cloned k f h) = cloned k f (stays.objects _ _ h)
  IsTyped-Stays stays (table vm h) = table (IsVm-Stays stays vm) (stays.objects _ _ h)
  IsTyped-Stays stays (error h) = error (stays.objects _ _ h)
  IsTyped-Stays stays (thread h) = thread (stays.threads _ _ h)
  IsTyped-Stays stays (buffer h) = buffer (stays.buffers _ _ h)

  -- The end of a call that leaves a calm world and every value its type.
  abbrev pub Rests : World L → World L → Type 0
  Rests w u = IsCalm u × IsQuiet u × Stays w u

  -- New objects are idle.
  pub Keeps-IsQuiet : {v w : World L} → Keeps v w → IsQuiet v → IsQuiet w
  Keeps-IsQuiet keeps quiet o ob e = elim (keeps.arrivals o ob e) [
    | inl old ↦ quiet o ob old
    | inr idle ↦ idle
  ]

  module _ {w : World L} (calm : IsCalm w) (quiet : IsQuiet w) (o : ℕ) {ob : Object}
      (here : w.objects o ≡ some ob) where
    other_box :
        (p : ℕ) {k : RefKind} {r : ℕ}
        → ((d : Dtor) → frees d (ref_box k r) ≡ false)
        → w.boxes p ≡ some (ref_box k r)
        → (closing o ob w).boxes p ≡ some (ref_box k r)
    other_box p never there = elim (Bool-cases (ob.ptr == p)) [
      | inl same ↦
          let ne : ob.ptr ≢ 0 = ground (arith, calm.sound.null, ==-eq ob.ptr p) in
          let own = calm.sound.owns o ob here ne in
          absurd (ground (arith, own.there, own.fits, never own.dtor, ==-eq ob.ptr p))
      | inr differ ↦ closing-boxes calm.sound quiet o here p (ground arith) ∙ there
    ]

    closing-Has : (t : ObjectTab) (i : ℕ) → Has w t i → Has (closing o ob w) t i
    closing-Has t i h = elim (Bool-cases (o == i)) [
      | inl same ↦ record {
        object = closed_as ob;
        there = ground (arith, closing-objects calm.sound quiet o here i);
        made_with = ground (arith, h.there, h.made_with, ==-eq o i);
      }
      | inr differ ↦ record {
        object = h.object;
        there = ground (arith, h.there, closing-objects calm.sound quiet o here i);
        made_with = h.made_with;
      }
    ]

    pub closing-Rests : Rests w (closing o ob w)
    closing-Rests = (
      record {
        sound = closing-IsSound calm.sound quiet o here;
        free = λ i a e. (closing-IsQuiet calm.sound quiet o here i a e).writing;
      },
      closing-IsQuiet calm.sound quiet o here,
      record {
        objects = closing-Has;
        threads = λ p r e. other_box p (λ d. frees-thread d r) e;
        buffers = λ p r e. other_box p (λ d. frees-buffer d r) e;
      },
    )

  module _ {w : World L} (calm : IsCalm w) (quiet : IsQuiet w) where
    pub Rests-refl : Rests w w
    Rests-refl = (calm, quiet, Keeps-Stays (Keeps-refl w))

    -- `Close` of a typed value returns.
    abbrev Closes : Value → Type 0
    Closes v = Ensures (λ (x : Unit {0}) u. Rests w u) (λ u. ⊥) (close v w)

    close_plain : (v : Value) → IsPlain v → Closes v
    unfolding close
    close_plain Value.nil h = Rests-refl
    close_plain (Value.boolean b) h = Rests-refl
    close_plain (Value.light_user_data p) h = Rests-refl
    close_plain (Value.integer n) h = Rests-refl
    close_plain (Value.number n) h = Rests-refl
    close_plain (Value.vector x y z) h = Rests-refl
    close_plain (Value.string s) h = absurd h
    close_plain (Value.table t) h = absurd h
    close_plain (Value.function f) h = absurd h
    close_plain (Value.thread p) h = absurd h
    close_plain (Value.user_data u) h = absurd h
    close_plain (Value.buffer p) h = absurd h
    close_plain (Value.error e) h = absurd h
    close_plain Value.other h = Rests-refl
    close_plain (Value.go_string s) h = Rests-refl

    pub close-Rests : (v : Value) → IsTyped w v → Closes v
    unfolding close close_string close_table close_function close_user_data close_error
    close-Rests v (plain h) = close_plain v h
    close-Rests v (cloned {o} strings f h) =
        rw (close-closing calm.sound quiet o h.there) (closing-Rests calm quiet o h.there)
    close-Rests v (cloned {o} functions f h) =
        rw (close-closing calm.sound quiet o h.there) (closing-Rests calm quiet o h.there)
    close-Rests v (cloned {o} userdata f h) =
        rw (close-closing calm.sound quiet o h.there) (closing-Rests calm quiet o h.there)
    close-Rests v (table {o} vm h) =
        rw (close-closing calm.sound quiet o h.there) (closing-Rests calm quiet o h.there)
    close-Rests v (error {o} h) =
        rw (close-closing calm.sound quiet o h.there) (closing-Rests calm quiet o h.there)
    close-Rests v (thread h) = Rests-refl
    close-Rests v (buffer h) = Rests-refl

    pub close_vm-Rests :
        (i : ℕ)
        → Has w lua_vm_tab i
        → Ensures
            (λ (x : Unit {0}) u. Rests w u)
            (λ u. ⊥)
            (close_vm (some (record { obj = some i })) w)
    unfolding close_vm
    close_vm-Rests i h =
        rw (close-closing calm.sound quiet i h.there) (closing-Rests calm quiet i h.there)
