-- ===== src/Value/Refused.antt =====
-- The values that `valueToC` refuses, and the tables that it mislabels.
use gluau.Prelude.{
  ℕ, ◌≡◌, refl, ◌≢◌, true, false, Option, some, Bytes, text, update_self, ==-ne, ◌==◌, arith,
}
use gluau.World.{RefKind, Object, ref_box, World, failed, undefined}
use gluau.Mluau.{Mluau}
use gluau.Ffi.Ownership.{read_ref-wrong}
use gluau.Object.{reading, pointer_no_lock}
use gluau.Object.Locks.{get_object-some, held, reading-failed, reading-undefined}
use gluau.Handles.{GoLuaVmWrapper}
use gluau.Value.Types.{Value}
use gluau.Value.Clone.{clone_ref}
use gluau.Value.Convert.{open_pointer, convert, value_to_c}
use gluau.Value.Cloning.{open_pointer-open}

-- The five kinds of value that hold an object.
pub data Held : Type 0 where
  strings tables functions userdata errors : Held

abbrev pub value_over : Held → Option GoLuaVmWrapper → ℕ → Value
value_over strings l o = Value.string (some (record { object = some o }))
value_over tables l o = Value.table (some (record { lua = l; object = some o }))
value_over functions l o = Value.function (some (record { object = some o; lua = l }))
value_over userdata l o = Value.user_data (some (record { lua = l; object = some o }))
value_over errors l o = Value.error (some (record { object = some o }))

abbrev pub closed_message : Held → Bytes
closed_message strings = text "cannot convert closed LuaString to C value"
closed_message tables = text "cannot convert closed LuaTable to C value"
closed_message functions = text "cannot convert closed LuaFunction to C value"
closed_message userdata = text "cannot convert closed LuaUserData to C value"
closed_message errors = text "cannot convert closed ErrorVariant to C value"

module _ {L : Type 0} where
  pub pointer_no_lock-closed :
      (o : ℕ) (w : World L) {ob : Object}
      → w.objects o ≡ some ob
      → ob.ptr ≡ 0
      → pointer_no_lock (some o) w ≡ failed (text "cannot use closed object") w
  unfolding pointer_no_lock
  pointer_no_lock-closed o w {ob} here gone = rw (get_object-some o w here, is_zero)
    where
      is_zero : (ob.ptr == 0) ≡ true
      is_zero = ground arith

  open_pointer-closed :
      (o : ℕ) (message : Bytes) (w : World L) {ob : Object}
      → w.objects o ≡ some ob
      → ob.ptr ≡ 0
      → open_pointer (some o) message w ≡ failed message w
  unfolding open_pointer
  open_pointer-closed o message w here gone = rw (pointer_no_lock-closed o w here gone)

  module _ (m : Mluau L) (o : ℕ) (w : World L) {ob : Object} (here : w.objects o ≡ some ob) where
    convert-closed :
        (k : Held) (l f : Option GoLuaVmWrapper)
        → ob.ptr ≡ 0
        → convert m l (value_over k f o) w ≡ failed (closed_message k) w
    unfolding convert
    convert-closed strings l f gone = rw (open_pointer-closed o _ w here gone)
    convert-closed tables l f gone = rw (open_pointer-closed o _ w here gone)
    convert-closed functions l f gone = rw (open_pointer-closed o _ w here gone)
    convert-closed userdata l f gone = rw (open_pointer-closed o _ w here gone)
    convert-closed errors l f gone = rw (open_pointer-closed o _ w here gone)

    -- Rust would read the box of the table as that of a string.
    convert-table :
        (l f : Option GoLuaVmWrapper) {r : ℕ}
        → ob.ptr ≢ 0
        → w.boxes ob.ptr ≡ some (ref_box RefKind.table r)
        → convert m l (value_over tables f o) w ≡ undefined
    unfolding convert clone_ref
    convert-table l f ne there = rw (
      open_pointer-open o _ w here ne,
      ==-ne ob.ptr 0 ne,
      read_ref-wrong w RefKind.string RefKind.table ob.ptr there refl,
    )

  module _ (m : Mluau L) (o : ℕ) (w : World L) {ob : Object} (here : w.objects o ≡ some ob)
      (free : ob.writing ≡ false) where
    closed_locked :
        (k : Held) (l f : Option GoLuaVmWrapper)
        → ob.ptr ≡ 0
        → reading (some o) (convert m l (value_over k f o)) w ≡ failed (closed_message k) w
    closed_locked k l f gone =
        reading-failed o (convert m l (value_over k f o)) w w _ here free here
          (convert-closed m o (held o ob w) (update_self w.objects o _) k l f gone)

    -- A closed string, table, function, userdata or error is refused with the message of its kind,
    -- and the world, locks included, is as before.
    pub value_to_c-closed :
        (k : Held) (l f : Option GoLuaVmWrapper)
        → ob.ptr ≡ 0
        → value_to_c m l (some (value_over k f o)) w ≡ failed (closed_message k) w
    unfolding value_to_c
    value_to_c-closed strings l f gone = closed_locked strings l f gone
    value_to_c-closed tables l f gone = closed_locked tables l f gone
    value_to_c-closed functions l f gone = closed_locked functions l f gone
    value_to_c-closed userdata l f gone = closed_locked userdata l f gone
    value_to_c-closed errors l f gone = closed_locked errors l f gone

    -- An open table gets the tag of a string, so Rust clones its box at the wrong type.
    pub value_to_c-table :
        (l f : Option GoLuaVmWrapper) {r : ℕ}
        → ob.ptr ≢ 0
        → w.boxes ob.ptr ≡ some (ref_box RefKind.table r)
        → value_to_c m l (some (value_over tables f o)) w ≡ undefined
    unfolding value_to_c
    value_to_c-table l f ne there =
        reading-undefined o (convert m l (value_over tables f o)) w here free
          (convert-table m o (held o ob w) (update_self w.objects o _) l f ne there)
