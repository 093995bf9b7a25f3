-- ===== src/Function/Calling.antt =====
-- A call of a Lua function with scalars.
use gluau.Prelude.{ℕ, ◌+◌, ◌≡◌, ◌≢◌, ◌<◌, ◌≤◌, Option, none, some, List, [], map, arith}
use gluau.World.{RefKind, Object, World, Go, ref_box, multi_box, pure, ◌>>◌, returned, ◌>>=◌}
use gluau.Mluau.{Mluau, ok}
use gluau.Ffi.Ownership.{with_box, without}
use gluau.Object.{pointer_no_lock}
use gluau.Handles.{GoLuaVmWrapper}
use gluau.Result.{go_result}
use gluau.Value.Types.{Value}
use gluau.Value.Sending.{sent}
use gluau.MultiValue.{LuaMultiValue, multi_value_from_values, take, close}
use gluau.MultiValue.Transfer.{AreScalars, holding}
use gluau.Function.{luago_function_call, call}

module _ {L : Type 0} (m : Mluau L) (l : Option GoLuaVmWrapper) (f : ℕ) (args outs : List Value)
    (scalars : AreScalars args) (scalar_outs : AreScalars outs)
    (gives : (u : World L) → m.call f (map sent args) u ≡ returned (ok (map sent outs)) u) where
  module _ (u : World L) (positive : 0 < u.next_box)
      (fresh : (q : ℕ) → u.next_box ≤ q → u.boxes q ≡ none) (p : ℕ) (ne : p ≢ 0)
      (there : u.boxes p ≡ some (ref_box RefKind.function f)) where
    -- The arguments in their box.
    sending : World L
    sending = with_box u (multi_box (map sent args))

    -- The results in theirs, and the arguments' box freed.
    answered : World L
    answered = without (with_box sending (multi_box (map sent outs))) u.next_box

    results : LuaMultiValue
    results = record { lua = none; ptr = u.next_box + 1 }

    result_ptr : results.ptr ≢ 0
    unfolding results
    result_ptr = ground arith

    -- With the box of the results freed, too.
    finished : World L
    finished = without (holding results result_ptr [] answered) (u.next_box + 1)

  body : ℕ → Go L (List Value)
  body o = do
    ptr ← pointer_no_lock (some o)
    mw ← multi_value_from_values m l (map some args)
    res ← luago_function_call m ptr mw.ptr
    p ← go_result res
    values ← take (record { lua = none; ptr = p })
    close (record { lua = none; ptr = p })
    pure values
