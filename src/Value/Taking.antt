-- ===== src/Value/Taking.antt =====
-- Rust takes over a value with a box, and what becomes of a Go string that is sent.
use gluau.Prelude.{ℕ, ◌≡◌, refl, ◌≢◌, false, some, [], ◌∷◌, Bytes, update_self, ==-ne, arith}
use gluau.World.{RefKind, LuaValue, Object, Go, ref_box, World, returned, ◌>>=◌}
use gluau.Mluau.{Mluau, ok}
use gluau.Ffi.Ownership.{with_box, without, take_ref-some, read_ref-some}
use gluau.Object.{pointer_no_lock}
use gluau.Object.Locks.{held, reading-held}
use gluau.Object.Sound.{IsSound, with_box-IsSound, with_box-Unowned, without-IsSound}
use gluau.Result.{boxed_result, go_result}
use gluau.Value.Types.{Value}
use gluau.Value.Clone.{c_value, word, to_value_from_owned, take_value}
use gluau.Value.Convert.{convert, direct_value_to_c, value_to_c}
use gluau.Value.Cloning.{
  Cloned, strings, functions, userdata, kind_of, type_for, pointer_no_lock-open,
}
use gluau.Vm.Strings.{slice, to_slice, with_lua, luago_create_string, create_string_as_ptr}

module _ {L : Type 0} (m : Mluau L) (w : World L) where
  pub take_value-ref :
      (j : RefKind) (p : ℕ) {r : ℕ}
      → p ≢ 0
      → w.boxes p ≡ some (ref_box j r)
      → take_value j p w ≡ returned (LuaValue.ref j r) (without w p)
  unfolding take_value
  take_value-ref j p ne there = rw (==-ne p 0 ne, take_ref-some w j p there)

  -- Rust takes a value of kind `k` over with its box.
  pub to_value_from_owned-ref :
      (k : Cloned) (p : ℕ) {r : ℕ}
      → p ≢ 0
      → w.boxes p ≡ some (ref_box (kind_of k) r)
      → to_value_from_owned m (c_value (type_for k) (word p)) w
        ≡ returned (LuaValue.ref (kind_of k) r) (without w p)
  unfolding to_value_from_owned
  to_value_from_owned-ref strings p ne there = take_value-ref RefKind.string p ne there
  to_value_from_owned-ref functions p ne there = take_value-ref RefKind.function p ne there
  to_value_from_owned-ref userdata p ne there = take_value-ref RefKind.user_data p ne there

-- An empty string is made of a null pointer.
pub slice-to_slice : (s : Bytes) → slice (to_slice s) ≡ s
slice-to_slice [] = refl
slice-to_slice (b ∷ s) = refl

module _ {L : Type 0} (m : Mluau L) {w : World L} (i v r : ℕ) (s : Bytes) {ob : Object}
    (sound : IsSound w) (here : w.objects i ≡ some ob) (free : ob.writing ≡ false)
    (set : ob.ptr ≢ 0) (there : w.boxes ob.ptr ≡ some (ref_box RefKind.lua_vm v))
    (makes : (u : World L) → m.create_string v s u ≡ returned (ok r) u) where
  -- The world with the box of the new Lua string.
  stringed : World L
  stringed = with_box w (ref_box RefKind.string r)

  -- `createStringAsPtr` under the lock.
  body : Go L ℕ
  body = do
    lua ← pointer_no_lock (some i)
    res ← luago_create_string m lua (to_slice s)
    go_result res

  create_string_as_ptr-stringed :
      create_string_as_ptr m (some (record { obj = some i })) s w ≡ returned w.next_box stringed
  unfolding create_string_as_ptr with_lua luago_create_string boxed_result go_result stringed body
  create_string_as_ptr-stringed =
      reading-held i body w (with_box w (ref_box RefKind.string r)) w.next_box here free here (
        rw (
          pointer_no_lock-open i (held i ob w) (update_self w.objects i _) set,
          slice-to_slice s,
          read_ref-some (held i ob w) RefKind.lua_vm ob.ptr there,
          makes,
        ))

  -- A Go string goes to Rust as a new Lua string of its bytes, the empty string included. Rust takes it
  -- over and frees its box: every box, object and lock is as before, so nothing is left allocated.
  pub go_string-sent :
      (w' : World L) × ((value_to_c m (some (record { obj = some i })) (some (Value.go_string s))
            >>= to_value_from_owned m)
          w
        ≡ returned (LuaValue.ref RefKind.string r) w')
      × ((p : ℕ) → w'.boxes p ≡ w.boxes p)
      × ((o : ℕ) → w'.objects o ≡ w.objects o)
      × IsSound w'
  unfolding value_to_c convert direct_value_to_c stringed
  go_string-sent = (
    without stringed w.next_box,
    rw (
      create_string_as_ptr-stringed,
      to_value_from_owned-ref m stringed strings w.next_box {r = r} (ground (arith, sound.positive))
          (update_self w.boxes w.next_box _),
    ),
    λ p. ground (arith, sound.fresh_box p),
    λ o. refl,
    without-IsSound stringed w.next_box (with_box-IsSound w (ref_box RefKind.string r) sound)
        (with_box-Unowned w (ref_box RefKind.string r) sound),
  )
