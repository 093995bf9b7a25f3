-- ===== src/Userdata/Data.antt =====
-- What `AssociatedData` gives back.
use gluau.Prelude.{ℕ, ◌≡◌, refl, ◌≢◌, false, Option, none, some, text, update_self, ==-ne, arith}
use gluau.World.{
  DynamicData, dynamic, RefKind, Object, ref_box, World, Run, Go, returned, failed, ◌>>=◌,
}
use gluau.Mluau.{Mluau, ok}
use gluau.Handles.{GoLuaVmWrapper}
use gluau.Ffi.Ownership.{read_ref-some}
use gluau.Object.{pointer_no_lock}
use gluau.Object.Locks.{held, reading-held, reading-failed}
use gluau.Result.{c_result, go_result}
use gluau.Value.Cloning.{pointer_no_lock-open}
use gluau.Callback.{get_dynamic_data}
use gluau.Callback.Registry.{IsConsistent, handle_value-some, dynamic_at-some}
use gluau.Userdata.{valid_data, data_of, luago_get_userdata_handle, associated_data}

-- The value of the data, and an error for nil.
abbrev pub data_result : {L : Type 0} → Option ℕ → World L → Run L (Option ℕ)
data_result none w = failed (text "internal error: handle is invalid") w
data_result (some v) w = returned (some v) w

module _ {L : Type 0} (m : Mluau L) (o r h c : ℕ) (w : World L) {ob : Object} (d : DynamicData)
    (here : w.objects o ≡ some ob) (free : ob.writing ≡ false) (ne : ob.ptr ≢ 0)
    (there : w.boxes ob.ptr ≡ some (ref_box RefKind.user_data r))
    (names : (u : World L) → m.dynamic_data r u ≡ returned (ok h) u) (s : IsConsistent w)
    (used : w.handles h ≡ some c) (at : w.cells c ≡ some (dynamic d)) where
  not_null : h ≢ 0
  not_null = ground (arith, s.null, used)

  body : Go L (Option ℕ)
  body = do
    ptr ← pointer_no_lock (some o)
    res ← luago_get_userdata_handle m ptr
    value ← go_result res
    data_of value

  body-data_result :
      (value : Option ℕ) → d.value ≡ value → body (held o ob w) ≡ data_result value (held o ob w)
  unfolding body luago_get_userdata_handle data_of get_dynamic_data c_result go_result
  body-data_result value is =
      rw
        (
          pointer_no_lock-open o u (update_self w.objects o _) ne,
          ==-ne ob.ptr 0 ne,
          read_ref-some u RefKind.user_data ob.ptr there,
          names,
          ==-ne h 0 not_null,
          handle_value-some h c u used,
          dynamic_at-some c d u at,
          is,
        )
        (valid_data-data_result value)
    where
      u : World L
      u = held o ob w

      valid_data-data_result : (x : Option ℕ) → valid_data x u ≡ data_result x u
      valid_data-data_result none = refl
      valid_data-data_result (some v) = refl

  pub associated_data-value :
      (l : Option GoLuaVmWrapper) (value : Option ℕ)
      → d.value ≡ value
      → associated_data m (record { lua = l; object = some o }) w ≡ data_result value w
  unfolding associated_data body
  associated_data-value l none is =
      reading-failed o body w w _ here free here (body-data_result none is)
  associated_data-value l (some v) is =
      reading-held o body w w _ here free here (body-data_result (some v) is)

  -- `AssociatedData` of an open userdata whose handle is in use for Go data gives that data, and
  -- fails with an internal error if the data is nil; the world, locks included, is as before.
  pub associated_data-data_result :
      associated_data m (record { lua = none; object = some o }) w ≡ data_result d.value w
  associated_data-data_result = associated_data-value none d.value refl
