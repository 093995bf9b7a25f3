-- ===== src/Value/ErrorValues.antt =====
-- An error value on its way to Rust and back.
use gluau.Prelude.{ℕ, ◌≡◌, refl, ◌≢◌, false, Option, some, Bytes, update_self, ==-ne, arith}
use gluau.World.{Object, error_box, free_error, World, returned}
use gluau.Mluau.{Mluau}
use gluau.Ffi.Boxes.{c_string}
use gluau.Ffi.Ownership.{with_box, read_error-some}
use gluau.Object.Locks.{held, reading-held}
use gluau.Object.Sound.{
  IsSound, new_handle, with_object, new_object-some, with_object-IsSound, with_box-IsSound,
  with_box-Unowned,
}
use gluau.Handles.{GoLuaVmWrapper, error_variant_tab}
use gluau.Value.Types.{LuaValueType, Value}
use gluau.Value.Clone.{c_value, word, clone_error}
use gluau.Value.Convert.{convert, value_to_c, value_from_c}
use gluau.Value.Scalars.{there_and_back}
use gluau.Value.Cloning.{Copied, open_pointer-open}

abbrev pub error_over : ℕ → Value
error_over o = Value.error (some (record { object = some o }))

module _ {L : Type 0} (m : Mluau L) (o : ℕ) (w : World L) {ob : Object} (e : Bytes)
    (here : w.objects o ≡ some ob) (ne : ob.ptr ≢ 0)
    (there : w.boxes ob.ptr ≡ some (error_box e)) where
  abbrev cloned : World L
  cloned = with_box w (error_box (c_string (m.lossy e)))

  pub convert-error :
      (l : Option GoLuaVmWrapper)
      → convert m l (error_over o) (held o ob w)
        ≡ returned (c_value LuaValueType.error (word w.next_box)) (held o ob cloned)
  unfolding convert clone_error
  convert-error l = rw (
    open_pointer-open o _ (held o ob w) (update_self w.objects o _) ne,
    ==-ne ob.ptr 0 ne,
    read_error-some (held o ob w) ob.ptr there,
  )

  -- An error that goes to Rust and comes back is a new object over a box of its own; its text is the old
  -- one as Rust's lossy UTF-8 conversion shows it, or `Invalid error string` if that has a NUL. The old
  -- object and its box are as before, and the world stays sound.
  pub there_and_back-error :
      (l f : Option GoLuaVmWrapper)
      → IsSound w
      → ob.writing ≡ false
      → (w' : World L) × (there_and_back m l f (error_over o) w
          ≡ returned (error_over w.next_object) w')
        × Copied w o ob (error_box (c_string (m.lossy e))) w'
  unfolding there_and_back value_to_c value_from_c
  there_and_back-error l f s free = (
    with_object w.next_box error_variant_tab cloned,
    rw (
      reading-held o (convert m l (error_over o)) w cloned _ here free here (convert-error l),
      new_object-some cloned w.next_box error_variant_tab (ground (arith, s.positive)),
    ),
    record {
      copy = new_handle w.next_box error_variant_tab;
      sound =
          with_object-IsSound cloned (with_box-IsSound w (error_box (c_string (m.lossy e))) s)
            (with_box-Unowned w (error_box (c_string (m.lossy e))) s)
            (record {
              dtor = free_error;
              box = error_box (c_string (m.lossy e));
              named = refl;
              there = update_self w.boxes w.next_box _;
              fits = refl;
            });
      old_object = ground (arith, s.fresh_object o);
      old_box = ground (arith, s.fresh_box ob.ptr);
      new_object = update_self w.objects w.next_object _;
      new_box = update_self w.boxes w.next_box _;
      other_box = ground (arith, s.fresh_box ob.ptr);
      other_object = ground (arith, s.fresh_object o);
    },
  )
