-- ===== src/Strings/Creation.antt =====
-- `CreateString` of vm/vm.go, and `Bytes` of what it has made.
use gluau.Prelude.{
  ℕ, ◌^◌, ◌<◌, ◌≡◌, refl, ◌≢◌, false, some, Bytes, length, update_self, update_ne, ==-ne, arith,
}
use gluau.World.{RefKind, Object, free_string, ref_box, World, Go, returned, pure, ◌>>=◌}
use gluau.Mluau.{Mluau, ok}
use gluau.Ffi.Ownership.{with_box, read_ref-some}
use gluau.Object.{pointer_no_lock, new_object}
use gluau.Object.Locks.{held}
use gluau.Object.Making.{reading-made}
use gluau.Object.Sound.{
  IsSound, with_object, with_object-IsSound, with_box-IsSound, with_box-Unowned,
}
use gluau.Handles.{LuaString, string_tab}
use gluau.Result.{boxed_result, go_result}
use gluau.Value.Cloning.{pointer_no_lock-open}
use gluau.Value.Taking.{slice-to_slice}
use gluau.Vm.Strings.{to_slice, with_lua, luago_create_string, create_string}
use gluau.Strings.{bytes}
use gluau.Strings.Copying.{bytes-exact}

module _ {L : Type 0} (m : Mluau L) {w : World L} (i v r : ℕ) (s : Bytes) {ob : Object}
    (sound : IsSound w) (here : w.objects i ≡ some ob) (free : ob.writing ≡ false)
    (set : ob.ptr ≢ 0) (there : w.boxes ob.ptr ≡ some (ref_box RefKind.lua_vm v))
    (makes : (u : World L) → m.create_string v s u ≡ returned (ok r) u) where
  -- The world after `CreateString`.
  after : World L
  after = with_object w.next_box string_tab (with_box w (ref_box RefKind.string r))

  -- `CreateString` under the lock.
  body : Go L LuaString
  body = do
    lua ← pointer_no_lock (some i)
    res ← luago_create_string m lua (to_slice s)
    p ← go_result res
    o ← new_object p string_tab
    pure (record { object = o })

  create_string-after :
      create_string m (some (record { obj = some i })) s w
      ≡ returned (record { object = some w.next_object }) after
  unfolding create_string with_lua luago_create_string boxed_result go_result after body
  create_string-after =
      reading-made i w.next_box string_tab body w (with_box w (ref_box RefKind.string r)) _ here
        free here (ground (arith, sound.fresh_object i))
        (rw (
          pointer_no_lock-open i (held i ob w) (update_self w.objects i _) set,
          slice-to_slice s,
          read_ref-some (held i ob w) RefKind.lua_vm ob.ptr there,
          makes,
          ==-ne w.next_box 0 (ground (arith, sound.positive)),
        ))

  after-IsSound : IsSound after
  unfolding after
  after-IsSound =
      with_object-IsSound (with_box w (ref_box RefKind.string r))
        (with_box-IsSound w (ref_box RefKind.string r) sound)
        (with_box-Unowned w (ref_box RefKind.string r) sound)
        (record {
          dtor = free_string;
          box = ref_box RefKind.string r;
          named = refl;
          there = update_self w.boxes w.next_box _;
          fits = refl;
        })

  -- The virtual machine is open, and mluau makes a string `r` of the bytes `s`, from which it reads the
  -- same bytes. Then `CreateString` returns a new string, the empty one included, in a sound world with
  -- the other objects and boxes as before, and `Bytes` of it gives back `s`, if that has fewer than
  -- 2 ^ 31 bytes.
  pub bytes-create_string :
      ((u : World L) → m.as_bytes r u ≡ returned s u)
      → length s < 2 ^ 31
      → (t : LuaString) × (w' : World L) × (create_string m (some (record { obj = some i })) s w
          ≡ returned t w')
        × (bytes m t w' ≡ returned (some s) w')
        × ((o : ℕ) → w.next_object ≢ o → w'.objects o ≡ w.objects o)
        × ((p : ℕ) → w.next_box ≢ p → w'.boxes p ≡ w.boxes p)
        × IsSound w'
  unfolding after
  bytes-create_string reads short = (
    record { object = some w.next_object },
    after,
    create_string-after,
    (bytes-exact m w.next_object r s after (update_self w.objects w.next_object _) refl
          (ground (arith, sound.positive)) (update_self w.boxes w.next_box _) reads).1
        short,
    λ o ne. update_ne w.objects w.next_object _ o ne,
    λ p ne. update_ne w.boxes w.next_box _ p ne,
    after-IsSound,
  )
