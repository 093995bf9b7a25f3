-- ===== src/Value/Typing/Made.antt =====
-- `createStringAsPtr` of vm/vm.go on a virtual machine that may be closed, with every answer of mluau.
use gluau.Prelude.{
  ℕ, ◌≡◌, ◌≢◌, some, Bytes, inl, inr, update_self, ◌==◌, ==-eq, Bool-cases, text, arith,
}
use gluau.World.{RefKind, Box, ref_box, error_text, World, Go, returned, ◌>>=◌}
use gluau.Mluau.{Mluau, LuaResult, ok, err}
use gluau.Ffi.Ownership.{with_box, without, read_ref-some}
use gluau.Object.{pointer_no_lock}
use gluau.Object.Locks.{held, reading-held, reading-failed}
use gluau.Handles.{lua_vm_tab}
use gluau.Result.{without_nul, go_result}
use gluau.Result.Errors.{c_string-without_nul, go_result-error}
use gluau.Value.Cloning.{pointer_no_lock-open}
use gluau.Value.Refused.{pointer_no_lock-closed}
use gluau.Value.Taking.{slice-to_slice}
use gluau.Vm.Strings.{with_lua, luago_create_string, create_string_as_ptr, to_slice}
use gluau.Value.Typing.{IsCalm, Ensures, Has, IsNew, Settled}
use gluau.Value.Typing.Keeping.{
  with_box-Settled, with_box-IsNew, without-Settled, Settled-refl, Settled-trans,
}
use gluau.Value.Typing.Boxes.{Has-vm}

-- mluau answers with a string or an error, and touches nothing but the state of Lua.
abbrev pub MakesStrings : {L : Type 0} → Mluau L → Type 0
MakesStrings {L} m =
    (vm : ℕ) (s : Bytes) (u : World L)
    → (res : LuaResult ℕ) × (x : L) × (m.create_string vm s u ≡ returned res (record u { lua = x }))

module _ {L : Type 0} where
  -- The same world with another state of Lua.
  abbrev pub relua : World L → L → World L
  relua w x = record w { lua = x }

  pub relua-Settled : {w : World L} → IsCalm w → (x : L) → Settled w (relua w x)
  relua-Settled calm x = record {
    calm = record {
      sound = record {
        null = calm.sound.null;
        positive = calm.sound.positive;
        fresh_box = calm.sound.fresh_box;
        fresh_object = calm.sound.fresh_object;
        owns = λ o ob e ne.
            let own = calm.sound.owns o ob e ne in
            record {
              dtor = own.dtor;
              box = own.box;
              named = own.named;
              there = own.there;
              fits = own.fits;
            };
        apart = calm.sound.apart;
      };
      free = calm.free;
    };
    keeps = record {
      objects = λ o ob e. e;
      boxes = λ p b e. e;
      unowned = λ p b e free. free;
      arrivals = λ o ob e. inl e;
    };
  }

module _ {L : Type 0} (m : Mluau L) (makes : MakesStrings m) {w : World L} (calm : IsCalm w) {i : ℕ}
    (vm : Has w lua_vm_tab i) (s : Bytes) where
  -- A box with a Lua string, as the call's result.
  abbrev pub IsMade : ℕ → World L → Type 0
  IsMade p u = Settled w u × ((r : ℕ) × IsNew w u (ref_box RefKind.string r) p)

  -- The call under the lock.
  body : Go L ℕ
  body = do
    lua ← pointer_no_lock (some i)
    res ← luago_create_string m lua (to_slice s)
    go_result res

  module _ (x : L) where
    abbrev grown : Box → World L
    grown b = with_box (relua w x) b

    grown-Settled : (b : Box) → Settled w (grown b)
    grown-Settled b =
        Settled-trans (relua-Settled calm x) (with_box-Settled (relua-Settled calm x).calm b)

    grown-IsNew : (b : Box) → IsNew w (grown b) b w.next_box
    grown-IsNew b =
        let new = with_box-IsNew (relua-Settled calm x).calm b in
        record { there = new.there; fresh = new.fresh; unowned = new.unowned }

    module _ (ne : vm.object.ptr ≢ 0) {r : ℕ}
        (there : w.boxes vm.object.ptr ≡ some (ref_box RefKind.lua_vm r)) where
      abbrev inside : World L
      inside = held i vm.object w

      called :
          (res : LuaResult ℕ)
          → m.create_string r s inside ≡ returned res (relua inside x)
          → Ensures IsMade (Settled w) (create_string_as_ptr m (some (record { obj = some i })) s w)
      unfolding create_string_as_ptr with_lua luago_create_string go_result body
      called (ok q) runs =
          rw
            (reading-held i body w (grown (ref_box RefKind.string q)) w.next_box vm.there
              (calm.free i vm.object vm.there) vm.there
              (rw (
                pointer_no_lock-open i inside (update_self w.objects i _) ne,
                slice-to_slice s,
                read_ref-some inside RefKind.lua_vm vm.object.ptr there,
                runs,
              )))
            (grown-Settled (ref_box RefKind.string q), (q, grown-IsNew (ref_box RefKind.string q)))
      called (err e) runs =
          rw
            (reading-failed i body w (without (grown (error_text (without_nul e))) w.next_box)
              (without_nul e) vm.there (calm.free i vm.object vm.there) vm.there
              (rw
                (
                  pointer_no_lock-open i inside (update_self w.objects i _) ne,
                  slice-to_slice s,
                  read_ref-some inside RefKind.lua_vm vm.object.ptr there,
                  runs,
                  c_string-without_nul e,
                )
                (go_result-error (record { value = 0; error = w.next_box })
                  (with_box (relua inside x) (error_text (without_nul e)))
                  (ground (arith, calm.sound.positive)) (update_self w.boxes w.next_box _))))
            (without-Settled (grown-Settled (error_text (without_nul e)))
              (grown-IsNew (error_text (without_nul e))))

  -- The string is made, or the error of mluau or of the closed virtual machine comes back; what was there
  -- before stays.
  pub create_string_as_ptr-IsMade :
      Ensures IsMade (Settled w) (create_string_as_ptr m (some (record { obj = some i })) s w)
  unfolding create_string_as_ptr with_lua body
  create_string_as_ptr-IsMade = elim (Bool-cases (vm.object.ptr == 0)) [
    | inl gone ↦
        rw
          (reading-failed i body w w (text "cannot use closed object") vm.there
            (calm.free i vm.object vm.there) vm.there
            (rw (
              pointer_no_lock-closed i (held i vm.object w) (update_self w.objects i _)
                (==-eq vm.object.ptr 0 gone))))
          (Settled-refl calm)
    | inr more ↦
        let ne : vm.object.ptr ≢ 0 = ground arith in
        let (r, there) = Has-vm calm.sound vm ne in
        let (res, x, runs) = makes r s (held i vm.object w) in called x ne there res runs
  ]
