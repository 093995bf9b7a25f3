-- ===== src/Value/Typing/Arriving.antt =====
-- Go receives any Lua value that it can read: `from_owned` of value.rs, then `valueFromC`.
use gluau.Prelude.{ℕ, ◌≡◌, refl, some, none, Option}
use gluau.World.{
  RefKind, LuaValue, ObjectTab, free_string, free_table, free_function, free_userdata, free_error,
  Box, ref_box, error_box, World, returned, Go, ◌>>=◌,
}
use gluau.Ffi.Boxes.{c_string}
use gluau.Ffi.Ownership.{with_box}
use gluau.Object.{new_object}
use gluau.Object.Sound.{with_object, new_object-some}
use gluau.Handles.{
  GoLuaVmWrapper, string_tab, table_tab, function_tab, userdata_tab, error_variant_tab,
}
use gluau.Value.Types.{LuaValueType, Value}
use gluau.Value.Clone.{GoLuaValue, Payload, c_value, from_owned}
use gluau.Value.Convert.{value_from_c}
use gluau.Value.Cloning.{strings, functions, userdata}
use gluau.Value.Typing.{
  IsCalm, Ensures, Ensures-and_then, Fits, Handed, IsVm, IsTyped, plain, cloned, table, error,
  thread, buffer, IsNew, Settled,
}
use gluau.Value.Typing.Keeping.{
  not_null, adopting-Settled, adopting-Has, IsVm-Keeps, with_box-IsNew, with_box-Settled,
  Settled-refl,
}

-- A light userdata is left out, since `valueFromC` reads the memory behind it; a virtual machine is no
-- Lua value.
abbrev pub IsReadable : LuaValue → Type 0
IsReadable LuaValue.nil = Unit
IsReadable (LuaValue.boolean b) = Unit
IsReadable (LuaValue.light_user_data p) = ⊥
IsReadable (LuaValue.integer i) = Unit
IsReadable (LuaValue.number n) = Unit
IsReadable (LuaValue.vector x y z) = Unit
IsReadable (LuaValue.ref RefKind.string r) = Unit
IsReadable (LuaValue.ref RefKind.table r) = Unit
IsReadable (LuaValue.ref RefKind.function r) = Unit
IsReadable (LuaValue.ref RefKind.thread r) = Unit
IsReadable (LuaValue.ref RefKind.user_data r) = Unit
IsReadable (LuaValue.ref RefKind.buffer r) = Unit
IsReadable (LuaValue.ref RefKind.lua_vm r) = ⊥
IsReadable (LuaValue.error e) = Unit
IsReadable LuaValue.other = Unit

-- Not a light userdata.
abbrev pub IsReadableTag : LuaValueType → Type 0
IsReadableTag LuaValueType.light_user_data = ⊥
IsReadableTag _ = Unit

module _ {L : Type 0} where
  unfoldable pub receive : Option GoLuaVmWrapper → LuaValue → Go L Value
  unfolding from_owned value_from_c
  receive l x = from_owned x >>= value_from_c l

  -- What `from_owned` hands to Go.
  abbrev pub Boxed : World L → GoLuaValue → World L → Type 0
  Boxed w c u = Handed w c u × IsReadableTag c.tag

  module _ {w : World L} (calm : IsCalm w) where
    abbrev boxed_ref :
        (k : RefKind) (r : ℕ) → IsNew w (with_box w (ref_box k r)) (ref_box k r) w.next_box
    boxed_ref k r = with_box-IsNew calm (ref_box k r)

    pub from_owned-Boxed :
        (x : LuaValue) → IsReadable x → Ensures (Boxed w) (λ u. ⊥) (from_owned x w)
    unfolding from_owned
    from_owned-Boxed LuaValue.nil h = (record { settled = Settled-refl calm; fits = tt }, tt)
    from_owned-Boxed (LuaValue.boolean b) h =
        (record { settled = Settled-refl calm; fits = tt }, tt)
    from_owned-Boxed (LuaValue.integer i) h =
        (record { settled = Settled-refl calm; fits = tt }, tt)
    from_owned-Boxed (LuaValue.number n) h = (record { settled = Settled-refl calm; fits = tt }, tt)
    from_owned-Boxed (LuaValue.vector x y z) h =
        (record { settled = Settled-refl calm; fits = tt }, tt)
    from_owned-Boxed LuaValue.other h = (record { settled = Settled-refl calm; fits = tt }, tt)
    from_owned-Boxed (LuaValue.light_user_data p) h = absurd h
    from_owned-Boxed (LuaValue.ref RefKind.lua_vm r) h = absurd h
    from_owned-Boxed (LuaValue.ref RefKind.string r) h = (
      record {
        settled = with_box-Settled calm (ref_box RefKind.string r);
        fits = (r, boxed_ref RefKind.string r);
      },
      tt,
    )
    from_owned-Boxed (LuaValue.ref RefKind.table r) h = (
      record {
        settled = with_box-Settled calm (ref_box RefKind.table r);
        fits = (r, boxed_ref RefKind.table r);
      },
      tt,
    )
    from_owned-Boxed (LuaValue.ref RefKind.function r) h = (
      record {
        settled = with_box-Settled calm (ref_box RefKind.function r);
        fits = (r, boxed_ref RefKind.function r);
      },
      tt,
    )
    from_owned-Boxed (LuaValue.ref RefKind.thread r) h = (
      record {
        settled = with_box-Settled calm (ref_box RefKind.thread r);
        fits = (r, boxed_ref RefKind.thread r);
      },
      tt,
    )
    from_owned-Boxed (LuaValue.ref RefKind.user_data r) h = (
      record {
        settled = with_box-Settled calm (ref_box RefKind.user_data r);
        fits = (r, boxed_ref RefKind.user_data r);
      },
      tt,
    )
    from_owned-Boxed (LuaValue.ref RefKind.buffer r) h = (
      record {
        settled = with_box-Settled calm (ref_box RefKind.buffer r);
        fits = (r, boxed_ref RefKind.buffer r);
      },
      tt,
    )
    from_owned-Boxed (LuaValue.error e) h = (
      record {
        settled = with_box-Settled calm (error_box (c_string e));
        fits = (c_string e, with_box-IsNew calm (error_box (c_string e)));
      },
      tt,
    )

  -- A value, typed, at the end of the call that made it.
  abbrev pub Arrives : World L → Value → World L → Type 0
  Arrives v x u = Settled v u × IsTyped u x

  module _ {v w : World L} (had : Settled v w) (l : Option GoLuaVmWrapper) (vm : IsVm v l)
      (d : Payload) where
    made :
        {b : Box} (new : IsNew v w b d.lo) (t : ObjectTab)
        → new_object d.lo t w ≡ returned (some w.next_object) (with_object d.lo t w)
    made new t = new_object-some w d.lo t (not_null had new)

    tagged_arrival :
        (t : LuaValueType)
        → Fits v w t d.lo
        → IsReadableTag t
        → Ensures (Arrives v) (λ u. ⊥) (value_from_c l (c_value t d) w)
    unfolding value_from_c
    tagged_arrival LuaValueType.nil fits h = (had, plain tt)
    tagged_arrival LuaValueType.boolean fits h = (had, plain tt)
    tagged_arrival LuaValueType.integer fits h = (had, plain tt)
    tagged_arrival LuaValueType.number fits h = (had, plain tt)
    tagged_arrival LuaValueType.vector fits h = (had, plain tt)
    tagged_arrival LuaValueType.other fits h = (had, plain tt)
    tagged_arrival LuaValueType.light_user_data fits h = absurd h
    tagged_arrival LuaValueType.custom_go_string fits h = absurd fits
    tagged_arrival LuaValueType.string fits h = rw (made fits.1 string_tab) (
      adopting-Settled had fits.1 free_string refl,
      cloned strings none (adopting-Has had fits.1 free_string),
    )
    tagged_arrival LuaValueType.function fits h = rw (made fits.1 function_tab) (
      adopting-Settled had fits.1 free_function refl,
      cloned functions none (adopting-Has had fits.1 free_function),
    )
    tagged_arrival LuaValueType.user_data fits h = rw (made fits.1 userdata_tab) (
      adopting-Settled had fits.1 free_userdata refl,
      cloned userdata none (adopting-Has had fits.1 free_userdata),
    )
    tagged_arrival LuaValueType.table fits h = rw (made fits.1 table_tab) (
      adopting-Settled had fits.1 free_table refl,
      table (IsVm-Keeps (adopting-Settled had fits.1 free_table refl).keeps vm)
          (adopting-Has had fits.1 free_table),
    )
    tagged_arrival LuaValueType.error fits h =
        rw (made fits.1 error_variant_tab)
          (adopting-Settled had fits.1 free_error refl, error (adopting-Has had fits.1 free_error))
    tagged_arrival LuaValueType.thread fits h = (had, thread fits.1.there)
    tagged_arrival LuaValueType.buffer fits h = (had, buffer fits.1.there)

  -- `valueFromC` makes a typed Go value of a typed C value.
  pub value_from_c-Arrives :
      (v : World L) (l : Option GoLuaVmWrapper) (c : GoLuaValue) (w : World L)
      → IsVm v l
      → Boxed v c w
      → Ensures (Arrives v) (λ u. ⊥) (value_from_c l c w)
  value_from_c-Arrives v l c w vm boxed =
      tagged_arrival boxed.0.settled l vm c.payload c.tag boxed.0.fits boxed.1

  pub receive-Arrives :
      {w : World L} (calm : IsCalm w) (l : Option GoLuaVmWrapper) (x : LuaValue)
      → IsVm w l
      → IsReadable x
      → Ensures (Arrives w) (λ u. ⊥) (receive l x w)
  unfolding receive
  receive-Arrives {w} calm l x vm readable =
      Ensures-and_then (Boxed w) (Arrives w) (λ u. ⊥) _ _ (from_owned-Boxed calm x readable)
        (λ c u boxed. value_from_c-Arrives w l c u vm boxed)
