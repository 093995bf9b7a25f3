-- ===== src/Function/Detached.antt =====
-- A function that Go has received from Lua: `valueFromC` gives it no virtual machine.
use gluau.Prelude.{
  ℕ, ◌+◌, ◌≡◌, refl, ◌≢◌, Option, none, some, List, [], ◌∷◌, ◌++◌, map, Bytes, text, update_self,
  ==-ne, arith,
}
use gluau.World.{
  RefKind, Object, World, Go, ref_box, multi_box, returned, panicked, pure, ◌>>=◌, ◌>>◌,
}
use gluau.Mluau.{Mluau}
use gluau.Ffi.Multi.{luago_create_multivalue_with_capacity}
use gluau.Ffi.Ownership.{with_box}
use gluau.Object.Locks.{held, reading-panicked}
use gluau.Object.Sound.{IsSound, new_handle, with_object, new_object-some}
use gluau.Handles.{GoLuaVmWrapper, LuaFunction, function_tab}
use gluau.Value.Types.{LuaValueType, Value}
use gluau.Value.Clone.{c_value, word}
use gluau.Value.Convert.{value_from_c}
use gluau.Value.Cloning.{pointer_no_lock-open}
use gluau.Value.Sending.{sent}
use gluau.Object.{pointer_no_lock}
use gluau.Result.{go_result}
use gluau.MultiValue.{
  take, close, push, push_all, new_multi_value_with_capacity, multi_value_from_values,
}
use gluau.MultiValue.Transfer.{AreScalars, push_all-append}
use gluau.Function.{luago_function_call, call}

abbrev pub nil_pointer : Bytes
nil_pointer = text "invalid memory address or nil pointer dereference"

module _ {L : Type 0} (m : Mluau L) (vs : List Value) (s : Bytes) (rest : List (Option Value))
    (scalars : AreScalars vs) where
  -- The list that holds the values before the Go string is left behind.
  multi_value_from_values-panics :
      (w : World L)
      → w.next_box ≢ 0
      → multi_value_from_values m none (map some vs ++ some (Value.go_string s) ∷ rest) w
        ≡ panicked nil_pointer (with_box w (multi_box (map sent vs)))
  unfolding multi_value_from_values new_multi_value_with_capacity
      luago_create_multivalue_with_capacity push_all push
  multi_value_from_values-panics w ne = rw (
    ==-ne w.next_box 0 ne,
    push_all-append (record { lua = none; ptr = w.next_box }) ne
        (record w { next_box = w.next_box + 1 }) m [] vs (some (Value.go_string s) ∷ rest) scalars,
  )

  args : List (Option Value)
  args = map some vs ++ some (Value.go_string s) ∷ rest

  body : ℕ → Go L (List Value)
  unfolding args
  body o = do
    ptr ← pointer_no_lock (some o)
    mw ← multi_value_from_values m none args
    res ← luago_function_call m ptr mw.ptr
    p ← go_result res
    values ← take (record { lua = none; ptr = p })
    close (record { lua = none; ptr = p })
    pure values

  body-panics :
      (o : ℕ) (w : World L) {ob : Object}
      → w.objects o ≡ some ob
      → ob.ptr ≢ 0
      → w.next_box ≢ 0
      → body o w ≡ panicked nil_pointer (with_box w (multi_box (map sent vs)))
  unfolding body
  body-panics o w here ne pos =
      rw (pointer_no_lock-open o w here ne, multi_value_from_values-panics w pos)

  -- Where valueFromC makes a LuaFunction of a box of Rust, the function has no virtual machine. `Call`
  -- of it with a Go string among the arguments, after any scalars, therefore panics at a nil pointer;
  -- the lock of the function is given back, and the list of the scalars is left allocated.
  pub call-detached :
      (l : Option GoLuaVmWrapper) (p r : ℕ) (w : World L)
      → IsSound w
      → p ≢ 0
      → w.boxes p ≡ some (ref_box RefKind.function r)
      → (f : LuaFunction) × (v : World L) × (w' : World L) × (value_from_c l
            (c_value LuaValueType.function (word p))
            w
          ≡ returned (Value.function (some f)) v)
        × (call m f (map some vs ++ some (Value.go_string s) ∷ rest) v ≡ panicked nil_pointer w')
        × ((o : ℕ) → w'.objects o ≡ v.objects o)
        × (w.boxes v.next_box ≡ none)
        × (w'.boxes v.next_box ≡ some (multi_box (map sent vs)))
  unfolding value_from_c call body args
  call-detached l p r w sound ne there =
      let made = with_object p function_tab w in
      let ob = new_handle p function_tab in
      (
        record { object = some w.next_object; lua = none },
        made,
        with_box made (multi_box (map sent vs)),
        rw (new_object-some w p function_tab ne),
        reading-panicked w.next_object (body w.next_object) made
            (with_box made (multi_box (map sent vs))) nil_pointer
            (update_self w.objects w.next_object _) refl (update_self w.objects w.next_object _)
            (body-panics w.next_object (held w.next_object ob made)
              (update_self made.objects w.next_object _) ne (ground (arith, sound.positive))),
        λ o. refl,
        sound.fresh_box w.next_box (omega arith),
        update_self w.boxes w.next_box _,
      )
