-- ===== src/Value/Cloning.antt =====
-- The values with an object that `valueToC` clones: strings, functions and userdata. Tables are in
-- Value/Refused.antt.
use gluau.Prelude.{
  ℕ, ◌<◌, ◌≡◌, refl, ◌≢◌, false, Option, none, some, Bytes, update_self, ==-ne, arith,
}
use gluau.World.{
  RefKind, Object, ObjectTab, free_string, free_function, free_userdata, Box, ref_box, World,
  returned,
}
use gluau.Mluau.{Mluau}
use gluau.Ffi.Ownership.{with_box, read_ref-some}
use gluau.Object.{reading, pointer_no_lock}
use gluau.Object.Locks.{get_object-some, held, reading-held}
use gluau.Object.Sound.{
  IsSound, Owns, new_handle, with_object, new_object-some, with_object-IsSound, with_box-IsSound,
  with_box-Unowned,
}
use gluau.Handles.{GoLuaVmWrapper, string_tab, function_tab, userdata_tab}
use gluau.Value.Types.{LuaValueType, Value}
use gluau.Value.Clone.{c_value, word, clone_ref}
use gluau.Value.Convert.{open_pointer, convert, value_to_c, value_from_c}
use gluau.Value.Scalars.{there_and_back}

-- The kinds of value that are cloned as what they are.
pub data Cloned : Type 0 where
  strings functions userdata : Cloned

abbrev pub kind_of : Cloned → RefKind
kind_of strings = RefKind.string
kind_of functions = RefKind.function
kind_of userdata = RefKind.user_data

abbrev pub type_for : Cloned → LuaValueType
type_for strings = LuaValueType.string
type_for functions = LuaValueType.function
type_for userdata = LuaValueType.user_data

abbrev pub tab_of : Cloned → ObjectTab
tab_of strings = string_tab
tab_of functions = function_tab
tab_of userdata = userdata_tab

-- The value of kind `k` over the object `o`.
abbrev pub wrap : Cloned → Option GoLuaVmWrapper → ℕ → Value
wrap strings l o = Value.string (some (record { object = some o }))
wrap functions l o = Value.function (some (record { object = some o; lua = l }))
wrap userdata l o = Value.user_data (some (record { lua = l; object = some o }))

-- `w'` has one more object than `w`, with a box of its own that holds `b`; the object `o`, which is
-- `ob` in `w`, and its box are as they were.
pub record Copied {L : Type 0} (w : World L) (o : ℕ) (ob : Object) (b : Box) (w' : World L)
    : Type 0 where
  pub copy : Object
  pub sound : IsSound w'
  pub old_object : w'.objects o ≡ some ob
  pub old_box : w'.boxes ob.ptr ≡ w.boxes ob.ptr
  pub new_object : w'.objects w.next_object ≡ some copy
  pub new_box : w'.boxes copy.ptr ≡ some b
  pub other_box : copy.ptr ≢ ob.ptr
  pub other_object : w.next_object ≢ o

module _ {L : Type 0} where
  pub pointer_no_lock-open :
      (o : ℕ) (w : World L) {ob : Object}
      → w.objects o ≡ some ob
      → ob.ptr ≢ 0
      → pointer_no_lock (some o) w ≡ returned ob.ptr w
  unfolding pointer_no_lock
  pointer_no_lock-open o w {ob} here ne = rw (get_object-some o w here, ==-ne ob.ptr 0 ne)

  pub open_pointer-open :
      (o : ℕ) (message : Bytes) (w : World L) {ob : Object}
      → w.objects o ≡ some ob
      → ob.ptr ≢ 0
      → open_pointer (some o) message w ≡ returned ob.ptr w
  unfolding open_pointer
  open_pointer-open o message w here ne = rw (pointer_no_lock-open o w here ne)

  pub clone_ref-with_box :
      (k : RefKind) (t : LuaValueType) (p : ℕ) (w : World L) {r : ℕ}
      → p ≢ 0
      → w.boxes p ≡ some (ref_box k r)
      → clone_ref k t p w ≡ returned (c_value t (word w.next_box)) (with_box w (ref_box k r))
  unfolding clone_ref
  clone_ref-with_box k t p w ne there = rw (==-ne p 0 ne, read_ref-some w k p there)

  module _ (m : Mluau L) (o : ℕ) (w : World L) {ob : Object} (here : w.objects o ≡ some ob)
      (ne : ob.ptr ≢ 0) where
    convert-wrap :
        (k : Cloned) (l f : Option GoLuaVmWrapper) {r : ℕ}
        → w.boxes ob.ptr ≡ some (ref_box (kind_of k) r)
        → convert m l (wrap k f o) w
          ≡ returned (c_value (type_for k) (word w.next_box)) (with_box w (ref_box (kind_of k) r))
    unfolding convert
    convert-wrap strings l f there =
        rw (open_pointer-open o _ w here ne) (clone_ref-with_box _ _ ob.ptr w ne there)
    convert-wrap functions l f there =
        rw (open_pointer-open o _ w here ne) (clone_ref-with_box _ _ ob.ptr w ne there)
    convert-wrap userdata l f there =
        rw (open_pointer-open o _ w here ne) (clone_ref-with_box _ _ ob.ptr w ne there)

  abbrev pub cloned : World L → Cloned → ℕ → World L
  cloned w k r = with_box w (ref_box (kind_of k) r)

  module _ (w : World L) where
    -- The world after Go has received a value of kind `k` that refers to `r`.
    abbrev pub returned_world : Cloned → ℕ → World L
    returned_world k r = with_object w.next_box (tab_of k) (cloned w k r)

    pub from_c-wrap :
        (k : Cloned) (f : Option GoLuaVmWrapper) (r : ℕ)
        → 0 < w.next_box
        → value_from_c f (c_value (type_for k) (word w.next_box)) (cloned w k r)
          ≡ returned (wrap k none w.next_object) (returned_world k r)
    unfolding value_from_c
    from_c-wrap strings f r pos =
        rw (new_object-some (cloned w strings r) w.next_box string_tab (ground arith))
    from_c-wrap functions f r pos =
        rw (new_object-some (cloned w functions r) w.next_box function_tab (ground arith))
    from_c-wrap userdata f r pos =
        rw (new_object-some (cloned w userdata r) w.next_box userdata_tab (ground arith))

    cloned-Owns : (k : Cloned) (r : ℕ) → Owns (cloned w k r) (new_handle w.next_box (tab_of k))
    cloned-Owns strings r = record {
      dtor = free_string;
      box = ref_box RefKind.string r;
      named = refl;
      there = update_self w.boxes w.next_box _;
      fits = refl;
    }
    cloned-Owns functions r = record {
      dtor = free_function;
      box = ref_box RefKind.function r;
      named = refl;
      there = update_self w.boxes w.next_box _;
      fits = refl;
    }
    cloned-Owns userdata r = record {
      dtor = free_userdata;
      box = ref_box RefKind.user_data r;
      named = refl;
      there = update_self w.boxes w.next_box _;
      fits = refl;
    }

    pub returned_world-IsSound : (k : Cloned) (r : ℕ) → IsSound w → IsSound (returned_world k r)
    returned_world-IsSound k r s =
        with_object-IsSound (cloned w k r) (with_box-IsSound w (ref_box (kind_of k) r) s)
          (with_box-Unowned w (ref_box (kind_of k) r) s) (cloned-Owns k r)

  module _ (m : Mluau L) (o : ℕ) (w : World L) {ob : Object} (here : w.objects o ≡ some ob)
      (ne : ob.ptr ≢ 0) where
    convert_locked :
        (k : Cloned) (l f : Option GoLuaVmWrapper) {r : ℕ}
        → ob.writing ≡ false
        → w.boxes ob.ptr ≡ some (ref_box (kind_of k) r)
        → reading (some o) (convert m l (wrap k f o)) w
          ≡ returned (c_value (type_for k) (word w.next_box)) (cloned w k r)
    convert_locked k l f {r} free there =
        reading-held o (convert m l (wrap k f o)) w (cloned w k r) _ here free here run
      where
        run :
            convert m l (wrap k f o) (held o ob w)
            ≡ returned (c_value (type_for k) (word w.next_box)) (held o ob (cloned w k r))
        run = convert-wrap m o (held o ob w) (update_self w.objects o _) ne k l f there

    -- `valueToC` hands Rust a box of its own, and leaves the object, its lock and its box alone.
    pub value_to_c-wrap :
        (k : Cloned) (l f : Option GoLuaVmWrapper) {r : ℕ}
        → ob.writing ≡ false
        → w.boxes ob.ptr ≡ some (ref_box (kind_of k) r)
        → value_to_c m l (some (wrap k f o)) w
          ≡ returned (c_value (type_for k) (word w.next_box)) (cloned w k r)
    unfolding value_to_c
    value_to_c-wrap strings l f free there = convert_locked strings l f free there
    value_to_c-wrap functions l f free there = convert_locked functions l f free there
    value_to_c-wrap userdata l f free there = convert_locked userdata l f free there

    pub there_and_back-wrap :
        (k : Cloned) (l f f' : Option GoLuaVmWrapper) {r : ℕ}
        → 0 < w.next_box
        → ob.writing ≡ false
        → w.boxes ob.ptr ≡ some (ref_box (kind_of k) r)
        → there_and_back m l f' (wrap k f o) w
          ≡ returned (wrap k none w.next_object) (returned_world w k r)
    unfolding there_and_back
    there_and_back-wrap k l f f' pos free there =
        rw (value_to_c-wrap k l f free there) (from_c-wrap w k f' _ pos)

    -- A string, function or userdata that goes to Rust and comes back is a new object over a box of
    -- its own, which refers to the same Lua object. The old object and its box are as before, and
    -- the world stays sound.
    pub there_and_back-clone :
        (k : Cloned) (l f f' : Option GoLuaVmWrapper) {r : ℕ}
        → IsSound w
        → ob.writing ≡ false
        → w.boxes ob.ptr ≡ some (ref_box (kind_of k) r)
        → (w' : World L) × (there_and_back m l f' (wrap k f o) w
            ≡ returned (wrap k none w.next_object) w')
          × Copied w o ob (ref_box (kind_of k) r) w'
    there_and_back-clone k l f f' {r} s free there = (
      returned_world w k r,
      there_and_back-wrap k l f f' s.positive free there,
      record {
        copy = new_handle w.next_box (tab_of k);
        sound = returned_world-IsSound w k r s;
        old_object = ground (arith, s.fresh_object o);
        old_box = ground (arith, s.fresh_box ob.ptr);
        new_object = update_self w.objects w.next_object _;
        new_box = update_self w.boxes w.next_box _;
        other_box = ground (arith, s.fresh_box ob.ptr);
        other_object = ground (arith, s.fresh_object o);
      },
    )
