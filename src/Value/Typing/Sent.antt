-- ===== src/Value/Typing/Sent.antt =====
-- `valueToC` of a typed value: every kind but tables, which it mislabels.
use gluau.Prelude.{
  ℕ, ◌≡◌, ◌≢◌, true, false, some, Option, inl, inr, ◌==◌, ==-eq, ==-ne, Bool, Bool-cases, arith,
}
use gluau.World.{RefKind, ref_box, error_box, World}
use gluau.Mluau.{Mluau}
use gluau.Ffi.Boxes.{c_string}
use gluau.Ffi.Ownership.{with_box}
use gluau.Object.Locks.{reading-held}
use gluau.Handles.{GoLuaVmWrapper, error_variant_tab, lua_vm_tab}
use gluau.Value.Types.{LuaValueType, Value}
use gluau.Value.Clone.{c_value, word}
use gluau.Value.Convert.{convert, direct_value_to_c, value_to_c}
use gluau.Value.Cloning.{
  Cloned, strings, functions, userdata, kind_of, type_for, tab_of, wrap, clone_ref-with_box,
  value_to_c-wrap,
}
use gluau.Value.ErrorValues.{error_over, convert-error}
use gluau.Value.Refused.{Held, value_to_c-closed}
use gluau.Value.Typing.{
  IsCalm, Ensures, Ensures-and_then, Has, IsPlain, IsTyped, plain, cloned, table, error, thread,
  buffer, Settled, Handed,
}
use gluau.Value.Typing.Boxes.{Has-ref, Has-error}
use gluau.Value.Typing.Keeping.{with_box-IsNew, with_box-Settled, Settled-refl}
use gluau.Value.Typing.Made.{MakesStrings, IsMade, create_string_as_ptr-IsMade}

abbrev pub is_table : Value → Bool
is_table (Value.table t) = true
is_table _ = false

module _ {L : Type 0} (m : Mluau L) {w : World L} (calm : IsCalm w) where
  -- The world with a copy of the box `b`, to be handed over under the tag `t`.
  copied_ref :
      (k : Cloned) (r : ℕ)
      → Handed w (c_value (type_for k) (word w.next_box)) (with_box w (ref_box (kind_of k) r))
  copied_ref strings r = record {
    settled = with_box-Settled calm (ref_box RefKind.string r);
    fits = (r, with_box-IsNew calm (ref_box RefKind.string r));
  }
  copied_ref functions r = record {
    settled = with_box-Settled calm (ref_box RefKind.function r);
    fits = (r, with_box-IsNew calm (ref_box RefKind.function r));
  }
  copied_ref userdata r = record {
    settled = with_box-Settled calm (ref_box RefKind.user_data r);
    fits = (r, with_box-IsNew calm (ref_box RefKind.user_data r));
  }

  module _ (l : Option GoLuaVmWrapper) where
    abbrev Sends : Value → Type 0
    Sends v = Ensures (Handed w) (Settled w) (value_to_c m l (some v) w)

  module _ {o : ℕ} (l : Option GoLuaVmWrapper) where
    closed-Sends :
        (k : Cloned) (f : Option GoLuaVmWrapper) (h : Has w (tab_of k) o)
        → h.object.ptr ≡ 0
        → Sends l (wrap k f o)
    closed-Sends strings f h gone =
        rw (value_to_c-closed m o w h.there (calm.free o h.object h.there) Held.strings l f gone)
          (Settled-refl calm)
    closed-Sends functions f h gone =
        rw (value_to_c-closed m o w h.there (calm.free o h.object h.there) Held.functions l f gone)
          (Settled-refl calm)
    closed-Sends userdata f h gone =
        rw (value_to_c-closed m o w h.there (calm.free o h.object h.there) Held.userdata l f gone)
          (Settled-refl calm)

    cloned-Sends :
        (k : Cloned) (f : Option GoLuaVmWrapper) (h : Has w (tab_of k) o) → Sends l (wrap k f o)
    cloned-Sends k f h = elim (Bool-cases (h.object.ptr == 0)) [
      | inl gone ↦ closed-Sends k f h (==-eq h.object.ptr 0 gone)
      | inr more ↦
          let ne : h.object.ptr ≢ 0 = ground arith in
          let (r, there) = Has-ref calm.sound k h ne in
          rw (value_to_c-wrap m o w h.there ne k l f (calm.free o h.object h.there) there)
            (copied_ref k r)
    ]

    error-Sends : (h : Has w error_variant_tab o) → Sends l (error_over o)
    unfolding value_to_c
    error-Sends h = elim (Bool-cases (h.object.ptr == 0)) [
      | inl gone ↦
          rw
            (value_to_c-closed m o w h.there (calm.free o h.object h.there) Held.errors l l
              (==-eq h.object.ptr 0 gone))
            (Settled-refl calm)
      | inr more ↦
          let ne : h.object.ptr ≢ 0 = ground arith in
          let (e, there) = Has-error calm.sound h ne in
          rw
            (reading-held o (convert m l (error_over o)) w
              (with_box w (error_box (c_string (m.lossy e)))) _ h.there
              (calm.free o h.object h.there) h.there (convert-error m o w e h.there ne there l))
            (record {
              settled = with_box-Settled calm (error_box (c_string (m.lossy e)));
              fits = (c_string (m.lossy e), with_box-IsNew calm (error_box (c_string (m.lossy e))));
            })
    ]

  module _ (l : Option GoLuaVmWrapper) {p r : ℕ} where
    thread-Sends :
        w.boxes p ≡ some (ref_box RefKind.thread r)
        → Ensures (Handed w) (Settled w) (value_to_c m l (some (Value.thread p)) w)
    unfolding value_to_c convert direct_value_to_c
    thread-Sends there =
        let ne : p ≢ 0 = ground (arith, calm.sound.null) in
        rw (==-ne p 0 ne, clone_ref-with_box RefKind.thread LuaValueType.thread p w ne there)
          (record {
            settled = with_box-Settled calm (ref_box RefKind.thread r);
            fits = (r, with_box-IsNew calm (ref_box RefKind.thread r));
          })

    buffer-Sends :
        w.boxes p ≡ some (ref_box RefKind.buffer r)
        → Ensures (Handed w) (Settled w) (value_to_c m l (some (Value.buffer p)) w)
    unfolding value_to_c convert direct_value_to_c
    buffer-Sends there =
        let ne : p ≢ 0 = ground (arith, calm.sound.null) in
        rw (==-ne p 0 ne, clone_ref-with_box RefKind.buffer LuaValueType.buffer p w ne there)
          (record {
            settled = with_box-Settled calm (ref_box RefKind.buffer r);
            fits = (r, with_box-IsNew calm (ref_box RefKind.buffer r));
          })

  module _ (makes : MakesStrings m) {i : ℕ} (vm : Has w lua_vm_tab i) where
    abbrev wrapper : Option GoLuaVmWrapper
    wrapper = some (record { obj = some i })

    plain-Sends :
        (v : Value) → IsPlain v → Ensures (Handed w) (Settled w) (value_to_c m wrapper (some v) w)
    unfolding value_to_c convert direct_value_to_c
    plain-Sends Value.nil h = record { settled = Settled-refl calm; fits = tt }
    plain-Sends (Value.boolean b) h = record { settled = Settled-refl calm; fits = tt }
    plain-Sends (Value.light_user_data p) h = record { settled = Settled-refl calm; fits = tt }
    plain-Sends (Value.integer n) h = record { settled = Settled-refl calm; fits = tt }
    plain-Sends (Value.number n) h = record { settled = Settled-refl calm; fits = tt }
    plain-Sends (Value.vector x y z) h = record { settled = Settled-refl calm; fits = tt }
    plain-Sends (Value.string s) h = absurd h
    plain-Sends (Value.table t) h = absurd h
    plain-Sends (Value.function f) h = absurd h
    plain-Sends (Value.thread p) h = absurd h
    plain-Sends (Value.user_data u) h = absurd h
    plain-Sends (Value.buffer p) h = absurd h
    plain-Sends (Value.error e) h = absurd h
    plain-Sends Value.other h = record { settled = Settled-refl calm; fits = tt }
    plain-Sends (Value.go_string s) h =
        Ensures-and_then (Handed w) (Handed w) (Settled w) _ _
          (Ensures-and_then (IsMade m makes calm vm s) (Handed w) (Settled w) _ _
            (create_string_as_ptr-IsMade m makes calm vm s)
            (λ p u made. record { settled = made.0; fits = made.1 }))
          (λ c u handed. handed)

    -- A typed value that is no table becomes a typed C value of its own; or `valueToC` returns an error, as
    -- for a closed object. What was there before stays, and no lock is held.
    pub value_to_c-Handed :
        (v : Value)
        → IsTyped w v
        → is_table v ≡ false
        → Ensures (Handed w) (Settled w) (value_to_c m wrapper (some v) w)
    value_to_c-Handed v (plain h) other = plain-Sends v h
    value_to_c-Handed v (cloned k f h) other = cloned-Sends wrapper k f h
    value_to_c-Handed v (table machine h) other = absurd cc
    value_to_c-Handed v (error h) other = error-Sends wrapper h
    value_to_c-Handed v (thread h) other = thread-Sends wrapper h
    value_to_c-Handed v (buffer h) other = buffer-Sends wrapper h
