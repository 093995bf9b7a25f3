-- ===== src/Table/Keys.antt =====
-- A call on an open table whose key is a string, function or userdata: what it has done by the time
-- that Rust holds a copy of the key.
use gluau.Prelude.{
  ℕ, ◌≡◌, refl, ◌∙◌, ◌≢◌, false, Option, some, update_self, update_ne, ==-ne, arith,
}
use gluau.World.{Object, RefKind, ref_box, LuaValue, World, returned}
use gluau.Mluau.{Mluau}
use gluau.Ffi.Ownership.{without, take_ref-some, read_ref-some}
use gluau.Ffi.Boxes.{read_ref}
use gluau.Object.Locks.{held}
use gluau.Object.Sound.{IsSound, with_box-IsSound, with_box-Unowned, without-IsSound}
use gluau.Handles.{GoLuaVmWrapper}
use gluau.Value.Clone.{GoLuaValue, c_value, word, take_value, to_value_from_owned}
use gluau.Value.Convert.{value_to_c}
use gluau.Value.Cloning.{
  Cloned, strings, functions, userdata, kind_of, type_for, wrap, cloned, value_to_c-wrap,
  pointer_no_lock-open,
}
use gluau.Table.{inner_ptr}
use gluau.Table.Calls.{table_over}

-- An open table `t` over the object `o`, and an open key over another object.
pub record Ready {L : Type 0} (w : World L) (o : ℕ) (k : Cloned) (i : ℕ) : Type 0 where
  pub table : Object
  pub table_ref : ℕ
  pub key : Object
  pub key_ref : ℕ
  pub sound : IsSound w
  pub table_here : w.objects o ≡ some table
  pub table_free : table.writing ≡ false
  pub table_open : table.ptr ≢ 0
  pub table_box : w.boxes table.ptr ≡ some (ref_box RefKind.table table_ref)
  pub key_here : w.objects i ≡ some key
  pub key_free : key.writing ≡ false
  pub key_open : key.ptr ≢ 0
  pub key_box : w.boxes key.ptr ≡ some (ref_box (kind_of k) key_ref)
  pub different : o ≢ i

to_value-tag :
    {L : Type 0} (m : Mluau L) (k : Cloned) (p : ℕ) (v : World L)
    → to_value_from_owned m (c_value (type_for k) (word p)) v ≡ take_value (kind_of k) p v
unfolding to_value_from_owned
to_value-tag m strings p v = refl
to_value-tag m functions p v = refl
to_value-tag m userdata p v = refl

module _ {L : Type 0} (m : Mluau L) {w : World L} {o : ℕ} {k : Cloned} {i : ℕ}
    (r : Ready w o k i) where
  abbrev pub sent_key : LuaValue
  sent_key = LuaValue.ref (kind_of k) r.key_ref

  abbrev pub c_key : GoLuaValue
  c_key = c_value (type_for k) (word w.next_box)

  -- The world in which Rust has its copy of the key.
  abbrev pub keyed : World L
  keyed = cloned w k r.key_ref

  pub inner_ptr-ready :
      (lua : Option GoLuaVmWrapper)
      → inner_ptr (table_over lua o) (held o r.table w) ≡ returned r.table.ptr (held o r.table w)
  unfolding inner_ptr
  inner_ptr-ready lua =
      pointer_no_lock-open o (held o r.table w) (update_self w.objects o _) r.table_open

  pub value_to_c-key :
      (lua f : Option GoLuaVmWrapper)
      → value_to_c m lua (some (wrap k f i)) (held o r.table w)
        ≡ returned c_key (held o r.table keyed)
  value_to_c-key lua f =
      value_to_c-wrap m i (held o r.table w) (update_ne w.objects o _ i r.different ∙ r.key_here)
        r.key_open k lua f r.key_free r.key_box

  -- Rust moves the key out of its box and frees the box.
  abbrev pub spent : World L
  spent = without keyed w.next_box

  pub spent-IsSound : IsSound spent
  spent-IsSound =
      without-IsSound keyed w.next_box (with_box-IsSound w (ref_box (kind_of k) r.key_ref) r.sound)
        (with_box-Unowned w (ref_box (kind_of k) r.key_ref) r.sound)

  take_value-key :
      take_value (kind_of k) w.next_box (held o r.table keyed)
      ≡ returned sent_key (held o r.table spent)
  unfolding take_value
  take_value-key = rw (
    ==-ne w.next_box 0 (ground (arith, r.sound.positive)),
    take_ref-some (held o r.table keyed) (kind_of k) w.next_box (update_self w.boxes w.next_box _),
  )

  pub to_value-key :
      to_value_from_owned m c_key (held o r.table keyed) ≡ returned sent_key (held o r.table spent)
  to_value-key = to_value-tag m k w.next_box (held o r.table keyed) ∙ take_value-key

  pub read_ref-table :
      read_ref RefKind.table r.table.ptr (held o r.table keyed)
      ≡ returned r.table_ref (held o r.table keyed)
  read_ref-table =
      read_ref-some (held o r.table keyed) RefKind.table r.table.ptr
        (update_ne w.boxes w.next_box _ r.table.ptr fresh ∙ r.table_box)
    where
      fresh : w.next_box ≢ r.table.ptr
      fresh e = ground (arith, r.table_box, r.sound.fresh_box r.table.ptr)
