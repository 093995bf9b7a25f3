-- ===== src/MultiValue/Transfer.antt =====
-- A list of scalars that becomes a multi-value and is taken out again.
use mathlib.Core.List.{append_assoc, append-nil}
use gluau.Prelude.{
  ◌+◌, ◌<◌, ◌≡◌, ◌≢◌, ap, ◌∙◌, subst, length-map, Option, some, List, [], ◌∷◌, ◌++◌, map, update,
  update_self, update-update, ==-ne, length, arith,
}
use gluau.World.{LuaValue, multi_box, World, returned, Go, ◌>>=◌, store}
use gluau.Mluau.{Mluau}
use gluau.Ffi.Multi.{
  read_multi, luago_multivalue_push, luago_multivalue_pop, luago_multivalue_len,
  luago_create_multivalue_with_capacity,
}
use gluau.Ffi.Ownership.{with_box, load-some, store-some}
use gluau.Handles.{GoLuaVmWrapper}
use gluau.Value.Types.{Value}
use gluau.Value.Scalars.{IsScalar}
use gluau.Value.Sending.{
  sent, received, value_to_c-encode, to_value-encode, from_owned-sent, from_c-received,
}
use gluau.MultiValue.{
  LuaMultiValue, pop, len, take_loop, take, new_multi_value_with_capacity, push, push_all,
  multi_value_from_values,
}

abbrev pub AreScalars : List Value → Type 0
AreScalars [] = Unit
AreScalars (v ∷ vs) = IsScalar v × AreScalars vs

module _ {L : Type 0} (mv : LuaMultiValue) (ne : mv.ptr ≢ 0) where
  -- The world in which the multi-value holds `xs`.
  abbrev pub holding : List LuaValue → World L → World L
  holding xs w = record w { boxes = update w.boxes mv.ptr (some (multi_box xs)) }

  module _ (w : World L) where
    read_multi-holding :
        (xs : List LuaValue) → read_multi mv.ptr (holding xs w) ≡ returned xs (holding xs w)
    unfolding read_multi
    read_multi-holding xs =
        rw (==-ne mv.ptr 0 ne, load-some (holding xs w) mv.ptr (update_self w.boxes mv.ptr _))

    store-holding :
        (xs ys : List LuaValue)
        → store mv.ptr (multi_box ys) (holding xs w) ≡ returned tt (holding ys w)
    unfolding store
    store-holding xs ys =
        rw (store-some (holding xs w) mv.ptr (multi_box ys) (update_self w.boxes mv.ptr _))
          (ap (λ f. returned tt (record w { boxes = f })) (update-update w.boxes mv.ptr _ _))

    pub push-holding :
        (m : Mluau L) (xs : List LuaValue) (v : Value)
        → IsScalar v
        → push m mv (some v) (holding xs w) ≡ returned tt (holding (xs ++ sent v ∷ []) w)
    unfolding push luago_multivalue_push
    push-holding m xs v h =
        rw
          (
            value_to_c-encode m mv.lua v (holding xs w) h,
            read_multi-holding xs,
            to_value-encode m v (holding xs w) h,
          )
          (store-holding xs (xs ++ sent v ∷ []))

    pub push_all-append :
        (m : Mluau L) (xs : List LuaValue) (vs : List Value) (rest : List (Option Value))
        → AreScalars vs
        → push_all m mv (map some vs ++ rest) (holding xs w)
          ≡ push_all m mv rest (holding (xs ++ map sent vs) w)
    unfolding push_all
    push_all-append m xs [] rest h = rw (append-nil xs)
    push_all-append m xs (v ∷ vs) rest h = rw (push-holding m xs v h.0) (
        push_all-append m (xs ++ sent v ∷ []) vs rest h.1
        ∙ ap (λ ys. push_all m mv rest (holding ys w))
            (append_assoc xs (sent v ∷ []) (map sent vs)))

    push_all-holding :
        (m : Mluau L) (vs : List Value)
        → AreScalars vs
        → push_all m mv (map some vs) (holding [] w) ≡ returned tt (holding (map sent vs) w)
    unfolding push_all
    push_all-holding m vs h =
        subst (λ ys. push_all m mv ys (holding [] w) ≡ returned tt (holding (map sent vs) w))
          (append-nil (map some vs)) (push_all-append m [] vs [] h)

    -- `pop` takes the first value of the multi-value.
    pop-holding :
        (v : Value) (xs : List LuaValue)
        → IsScalar v
        → pop mv (holding (sent v ∷ xs) w) ≡ returned (received v) (holding xs w)
    unfolding pop luago_multivalue_pop
    pop-holding v xs h =
        rw
          (
            read_multi-holding (sent v ∷ xs),
            store-holding (sent v ∷ xs) xs,
            from_owned-sent v (holding xs w) h,
          )
          (from_c-received mv.lua v (holding xs w) h)

    take_loop-holding :
        (vs acc : List Value)
        → AreScalars vs
        → take_loop mv (length vs) acc (holding (map sent vs) w)
          ≡ returned (acc ++ map received vs) (holding [] w)
    unfolding take_loop
    take_loop-holding [] acc h = rw (append-nil acc)
    take_loop-holding (v ∷ vs) acc h = rw (pop-holding v (map sent vs) h.0) (
        take_loop-holding vs (acc ++ received v ∷ []) h.1
        ∙ ap (λ ys. returned ys (holding [] w))
            (append_assoc acc (received v ∷ []) (map received vs)))

    pub take-holding :
        (vs : List Value)
        → AreScalars vs
        → take mv (holding (map sent vs) w) ≡ returned (map received vs) (holding [] w)
    unfolding take len luago_multivalue_len
    take-holding vs h =
        rw (read_multi-holding (map sent vs), length-map sent vs) (take_loop-holding vs [] h)

module _ {L : Type 0} (m : Mluau L) where
  unfoldable pub transfer : Option GoLuaVmWrapper → List (Option Value) → Go L (List Value)
  unfolding multi_value_from_values take
  transfer l vs = multi_value_from_values m l vs >>= take

module _ {L : Type 0} (m : Mluau L) (l : Option GoLuaVmWrapper) (w : World L) (vs : List Value)
    (positive : 0 < w.next_box) (scalars : AreScalars vs) where
  abbrev pub made : LuaMultiValue
  made = record { lua = l; ptr = w.next_box }

  abbrev pub grown : World L
  grown = record w { next_box = w.next_box + 1 }

  pub not_null : w.next_box ≢ 0
  not_null = ground arith

  -- `multiValueFromValues` of scalars makes one box, which holds their Lua values in order.
  pub multi_value_from_values-sent :
      multi_value_from_values m l (map some vs) w
      ≡ returned made (with_box w (multi_box (map sent vs)))
  unfolding multi_value_from_values new_multi_value_with_capacity
      luago_create_multivalue_with_capacity
  multi_value_from_values-sent =
      rw (==-ne w.next_box 0 not_null, push_all-holding made not_null grown m vs scalars)

  -- What comes out of a multi-value made of scalars is those scalars in their order, with nil for
  -- each `ValueOther`; the multi-value is left empty, and no other box or object is touched.
  pub take-multi_value_from_values :
      transfer m l (map some vs) w ≡ returned (map received vs) (with_box w (multi_box []))
  unfolding transfer
  take-multi_value_from_values =
      rw multi_value_from_values-sent (take-holding made not_null grown vs scalars)
