-- ===== src/FunctionCallback/Panicking.antt =====
-- A Go function that panics while Lua calls it.
use gluau.Prelude.{
  ℕ, ◌+◌, ◌<◌, ◌≡◌, refl, ◌≢◌, Option, none, some, List, [], ◌++◌, map, Bytes, text, ==-ne, arith,
}
use gluau.World.{RefKind, World, ref_box, multi_box, error_box, returned, panicked, alloc}
use gluau.Mluau.{Mluau, err}
use gluau.Ffi.Boxes.{c_string, luago_error_new, luago_error_free, is_error}
use gluau.Ffi.Multi.{luago_free_multivalue}
use gluau.Ffi.Ownership.{with_box, without, release-some, drop_if-without, read_error-some}
use gluau.MultiValue.{LuaMultiValue}
use gluau.Object.Sound.{IsSound, with_object, new_object-some}
use gluau.Handles.{GoLuaVmWrapper, lua_vm_tab}
use gluau.Value.Types.{Value}
use gluau.Value.Sending.{sent, received}
use gluau.MultiValue.Transfer.{AreScalars, take-holding}
use gluau.FunctionCallback.{FunctionFn, report, respond, function_callback, result_of, lua_callback}

abbrev pub panic_text : Bytes → Bytes
panic_text r = text "panic in CreateFunction callback: " ++ r

-- The world in which the function runs: a box for its virtual machine `v`, one for the arguments,
-- which are taken out, and an object for the virtual machine.
abbrev pub inside : {L : Type 0} → ℕ → World L → World L
inside v w =
    with_object w.next_box lua_vm_tab
      (with_box (with_box w (ref_box RefKind.lua_vm v)) (multi_box []))

module _ {L : Type 0} (m : Mluau L) (l : Option GoLuaVmWrapper) (fn : FunctionFn L) (v : ℕ)
    (vs : List Value) (scalars : AreScalars vs) (r : Bytes) (w : World L) (s : IsSound w) where
  -- The world before the arguments are taken out, but for their box.
  entered : World L
  entered = record (with_box w (ref_box RefKind.lua_vm v)) { next_box = w.next_box + 1 + 1 }

  arguments : LuaMultiValue
  arguments = record { lua = l; ptr = w.next_box + 1 }

  not_null : w.next_box ≢ 0
  not_null = ground (arith, s.positive)

  module _ (u : World L) (args_left : u.boxes (w.next_box + 1) ≡ some (multi_box []))
      (positive : 0 < u.next_box) (fresh : u.boxes u.next_box ≡ none) where
    respond-panicked :
        fn (record { obj = some w.next_object }) (map received vs) (inside v w) ≡ panicked r u
        → respond m l fn w.next_box
            (w.next_box + 1)
            (with_box (with_box w (ref_box RefKind.lua_vm v)) (multi_box (map sent vs)))
          ≡ panicked r u
    unfolding respond entered arguments
    respond-panicked panics =
        rw
          (
            take-holding arguments (ground arith) entered vs scalars,
            new_object-some (with_box (with_box w (ref_box RefKind.lua_vm v)) (multi_box []))
                w.next_box lua_vm_tab not_null,
            panics,
          )
          refl

    reported : World L
    reported = with_box u (error_box (c_string (panic_text r)))

    report-reported :
        report (panic_text r) u ≡ returned (record { values = 0; error = u.next_box }) reported
    unfolding report text luago_error_new alloc reported
    report-reported = refl

    -- The arguments are freed by Rust, and so is the error.
    finished : World L
    finished = without (without reported (w.next_box + 1)) u.next_box

    differ : w.next_box + 1 ≢ u.next_box
    differ = ground arith

    result_of-reported :
        result_of m (record { values = 0; error = u.next_box }) (without reported (w.next_box + 1))
        ≡ returned (err (m.external (m.lossy (c_string (panic_text r))))) finished
    unfolding result_of luago_free_multivalue luago_error_free reported finished
    result_of-reported =
        rw
          (
            ==-ne u.next_box 0 (ground arith),
            read_error-some (without reported (w.next_box + 1)) u.next_box
                {e = c_string (panic_text r)} (ground (arith, differ)),
            drop_if-without (without reported (w.next_box + 1)) is_error u.next_box
                {b = error_box (c_string (panic_text r))} (ground (arith, differ)) refl,
          )
          refl

    -- If a Go function panics when Lua calls it with scalars, the panic stays on the Go side: mluau
    -- gets an error with the message. The function may have left any world in which the box of its
    -- arguments is as it got it and the next address is free. That box and the one of the error are
    -- freed, every other box and every object is as the function left it: the virtual machine made
    -- for the call, too, which nobody closes.
    pub lua_callback-panic :
        fn (record { obj = some w.next_object }) (map received vs) (inside v w) ≡ panicked r u
        → (w' : World L) × (lua_callback m l fn v (map sent vs) w
            ≡ returned (err (m.external (m.lossy (c_string (panic_text r))))) w')
          × (w'.boxes (w.next_box + 1) ≡ none)
          × ((p : ℕ) → w.next_box + 1 ≢ p → w'.boxes p ≡ u.boxes p)
          × ((i : ℕ) → w'.objects i ≡ u.objects i)
    unfolding lua_callback alloc function_callback reported finished
    lua_callback-panic panics = (
      finished,
      rw
          (
            respond-panicked panics,
            report-reported,
            release-some reported (w.next_box + 1) {b = multi_box []} (ground (arith, differ)),
          )
          result_of-reported,
      ground (arith, differ),
      λ p ne. ground (arith, fresh),
      λ i. refl,
    )
