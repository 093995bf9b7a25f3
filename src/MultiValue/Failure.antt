-- ===== src/MultiValue/Failure.antt =====
-- A list with a value that cannot be converted: the multi-value is freed again.
use gluau.Prelude.{
  ℕ, ◌+◌, ◌≡◌, refl, ◌≢◌, false, Option, none, some, List, [], ◌∷◌, ◌++◌, map, update, update_self,
  ==-ne, arith,
}
use gluau.World.{LuaValue, Object, multi_box, World, returned, failed}
use gluau.Mluau.{Mluau}
use gluau.Ffi.Multi.{is_multi, luago_free_multivalue, luago_create_multivalue_with_capacity}
use gluau.Ffi.Ownership.{without, drop_if-without}
use gluau.Object.Sound.{IsSound}
use gluau.Handles.{GoLuaVmWrapper}
use gluau.Value.Types.{Value}
use gluau.Value.Sending.{sent}
use gluau.Value.Refused.{Held, value_over, closed_message, value_to_c-closed}
use gluau.MultiValue.{
  LuaMultiValue, close, push, push_all, new_multi_value_with_capacity, multi_value_from_values,
}
use gluau.MultiValue.Transfer.{AreScalars, holding, push_all-append}

module _ {L : Type 0} (m : Mluau L) (mv : LuaMultiValue) (ne : mv.ptr ≢ 0) (w : World L) where
  pub close-holding :
      (xs : List LuaValue)
      → close mv (holding mv ne xs w)
        ≡ returned (record mv { ptr = 0 }) (without (holding mv ne xs w) mv.ptr)
  unfolding close luago_free_multivalue
  close-holding xs = rw (
    ==-ne mv.ptr 0 ne,
    drop_if-without (holding mv ne xs w) is_multi mv.ptr (update_self w.boxes mv.ptr _) refl,
  )

  push_all-closed :
      (xs : List LuaValue) (k : Held) (f : Option GoLuaVmWrapper) (o : ℕ) {ob : Object}
      (rest : List (Option Value))
      → w.objects o ≡ some ob
      → ob.writing ≡ false
      → ob.ptr ≡ 0
      → push_all m mv (some (value_over k f o) ∷ rest) (holding mv ne xs w)
        ≡ failed (closed_message k) (without (holding mv ne xs w) mv.ptr)
  unfolding push_all push
  push_all-closed xs k f o rest here free gone =
      rw (value_to_c-closed m o (holding mv ne xs w) here free k mv.lua f gone, close-holding xs)

-- If scalars come first and then a closed object, `multiValueFromValues` fails with the message for
-- it, whatever follows, and every box and object is as before.
pub multi_value_from_values-closed :
    {L : Type 0} (m : Mluau L) (l f : Option GoLuaVmWrapper) (w : World L) (vs : List Value)
    (k : Held) (o : ℕ) {ob : Object} (rest : List (Option Value))
    → IsSound w
    → AreScalars vs
    → w.objects o ≡ some ob
    → ob.writing ≡ false
    → ob.ptr ≡ 0
    → (w' : World L) × (multi_value_from_values m l
          (map some vs ++ some (value_over k f o) ∷ rest)
          w
        ≡ failed (closed_message k) w')
      × ((p : ℕ) → w'.boxes p ≡ w.boxes p)
      × ((i : ℕ) → w'.objects i ≡ w.objects i)
unfolding multi_value_from_values new_multi_value_with_capacity
    luago_create_multivalue_with_capacity
multi_value_from_values-closed {L} m l f w vs k o rest s scalars here free gone = (
  record w {
    boxes = update (update w.boxes w.next_box (some (multi_box (map sent vs)))) w.next_box none;
    next_box = w.next_box + 1;
  },
  rw
      (
        ==-ne w.next_box 0 ne,
        push_all-append mv ne big m [] vs (some (value_over k f o) ∷ rest) scalars,
      )
      (rw (push_all-closed m mv ne big (map sent vs) k f o rest here free gone)),
  λ p. ground (arith, s.fresh_box p),
  λ i. refl,
)
  where
    mv : LuaMultiValue
    mv = record { lua = l; ptr = w.next_box }

    ne : w.next_box ≢ 0
    ne = ground (arith, s.positive)

    big : World L
    big = record w { next_box = w.next_box + 1 }
