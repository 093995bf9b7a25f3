-- ===== src/Tests/Typing.antt =====
-- A program over a virtual machine and a table.
use gluau.Prelude.{◌≡◌, refl, none, some, List, [], ◌∷◌, text, arith}
use gluau.World.{RefKind, LuaValue, free_lua_vm, free_table, ref_box, World, Run, returned}
use gluau.Mluau.{ok}
use gluau.Ffi.Ownership.{with_box}
use gluau.Handles.{lua_vm_tab, table_tab}
use gluau.Object.{close}
use gluau.Object.Lifetime.{IsQuiet}
use gluau.Object.Sound.{new_handle, with_object}
use gluau.Value.Types.{Value}
use gluau.Value.Typing.{IsCalm, Has, plain}
use gluau.Value.Typing.Keeping.{Settled-refl, with_box-Settled, with_box-IsNew, adopting-Settled}
use gluau.Value.Typing.Runs.{Step, AreTyped}
use gluau.Value.Typing.Safe.{Safe}
use gluau.Table.Answers.Open.{IsAfter, perform-ask}
use gluau.Table.Calls.{Answer, Call, perform, table_over}
use gluau.Table.Typing.Obedient.{IsObedient, IsTypedAnswer}
use gluau.Table.Typing.Methods.{perform-typed}
use gluau.Table.Typing.Programs.{Request, Action, step, call, AreAllowed, run_actions}
use gluau.Table.Typing.Programs.Safety.{run_actions-typed}
use gluau.Tests.Demo.{Lua, lua, nothing, nothing-IsSound}

lua-IsObedient : IsObedient lua
lua-IsObedient = record {
  strings = λ vm s u. (ok 7, tt, refl);
  clear = λ t u calm. (Settled-refl calm, tt);
  contains_key = λ t k u calm. (Settled-refl calm, tt);
  equals = λ t s u calm. (Settled-refl calm, tt);
  get = λ t k u calm. (Settled-refl calm, tt);
  is_empty = λ t u calm. (Settled-refl calm, tt);
  is_readonly = λ t u calm. (Settled-refl calm, tt);
  len = λ t u calm. (Settled-refl calm, tt);
  metatable = λ t u calm. (Settled-refl calm, tt);
  pop = λ t u calm. (Settled-refl calm, tt);
  push = λ t k u calm. (Settled-refl calm, tt);
  raw_get = λ t k u calm. (Settled-refl calm, tt);
  raw_insert = λ t n k u calm. (Settled-refl calm, tt);
  raw_len = λ t u calm. (Settled-refl calm, tt);
  raw_pop = λ t u calm. (Settled-refl calm, tt);
  raw_push = λ t k u calm. (Settled-refl calm, tt);
  raw_remove = λ t k u calm. (Settled-refl calm, tt);
  raw_set = λ t k x u calm. (Settled-refl calm, tt);
  set = λ t k x u calm. (Settled-refl calm, tt);
  set_metatable = λ t mt u calm. (Settled-refl calm, tt);
  table_to_pointer = λ t u calm. (Settled-refl calm, tt);
  table_debug = λ t u calm. (Settled-refl calm, tt);
  set_readonly = λ t b u calm. (Settled-refl calm, tt);
  set_safeenv = λ t b u calm. (Settled-refl calm, tt);
}

nothing-IsCalm : IsCalm nothing
nothing-IsCalm = record { sound = nothing-IsSound; free = λ o ob e. cc }

-- Object 0 is an open virtual machine.
abbrev machine : World Lua
machine = with_object 1 lua_vm_tab (with_box nothing (ref_box RefKind.lua_vm 1))

-- Object 1 is an open table of it.
abbrev tabled : World Lua
tabled = with_object 2 table_tab (with_box machine (ref_box RefKind.table 9))

machine-IsCalm : IsCalm machine
machine-IsCalm =
    (adopting-Settled (with_box-Settled nothing-IsCalm (ref_box RefKind.lua_vm 1))
      (with_box-IsNew nothing-IsCalm (ref_box RefKind.lua_vm 1)) free_lua_vm refl).calm

machine-IsQuiet : IsQuiet machine
machine-IsQuiet o ob e = ground arith

machine-Has : Has machine lua_vm_tab 0
machine-Has = record { object = new_handle 1 lua_vm_tab; there = refl; made_with = refl }

tabled-IsCalm : IsCalm tabled
tabled-IsCalm =
    (adopting-Settled (with_box-Settled machine-IsCalm (ref_box RefKind.table 9))
      (with_box-IsNew machine-IsCalm (ref_box RefKind.table 9)) free_table refl).calm

vm_there : Has tabled lua_vm_tab 0
vm_there = record { object = new_handle 1 lua_vm_tab; there = refl; made_with = refl }

table_there : Has tabled table_tab 1
table_there = record { object = new_handle 2 table_tab; there = refl; made_with = refl }

-- Writes a Go string under a Lua string and reads it, closes the key, which then is refused, then the
-- virtual machine, so that the Go string is refused too, and at last the table.
abbrev program : List Action
program =
    step (Step.receive (LuaValue.ref RefKind.table 9))
    ∷ step (Step.receive (LuaValue.ref RefKind.string 7))
    ∷ step (Step.make (Value.go_string (text "hi")))
    ∷ call 2 (Request.set 1 0)
    ∷ call 2 (Request.get 1)
    ∷ call 3 (Request.equals 3)
    ∷ step (Step.close 2)
    ∷ call 3 (Request.set 2 1)
    ∷ step Step.close_vm
    ∷ call 3 (Request.push 1)
    ∷ step (Step.close 3)
    ∷ call 3 Request.clear
    ∷ step (Step.close 3)
    ∷ []

program-AreAllowed : AreAllowed program
program-AreAllowed =
    (tt, (tt, (tt, (tt, (tt, (tt, (tt, (tt, (tt, (tt, (tt, (tt, (tt, tt)))))))))))))

run_actions-typed_example :
    (us : List Value) × (u : World Lua) × (run_actions lua
        (some (record { obj = some 0 }))
        program
        []
        machine
      ≡ returned us u)
    × IsCalm u
    × IsQuiet u
    × AreTyped u us
run_actions-typed_example =
    run_actions-typed lua lua-IsObedient 0 program [] program-AreAllowed machine-IsCalm
      machine-IsQuiet machine-Has tt

perform-typed_example : Safe tabled IsTypedAnswer (
    perform lua
      (table_over (some (record { obj = some 0 })) 1)
      (Call.set (some (Value.go_string (text "hi"))) (some (Value.integer 5)))
      tabled)
perform-typed_example =
    perform-typed lua lua-IsObedient tabled-IsCalm 0 vm_there 1 table_there
      (Call.set (some (Value.go_string (text "hi"))) (some (Value.integer 5)))
      ((plain tt, refl), (plain tt, refl))

-- What the program has at its end.
abbrev values_of : Run Lua (List Value) → List Value
values_of (returned us w) = us
values_of _ = []

program-values :
    values_of (run_actions lua (some (record { obj = some 0 })) program [] machine)
    ≡ Value.integer 5
      ∷ Value.go_string (text "hi")
      ∷ Value.string (some (record { object = some 2 }))
      ∷ Value.table (some (record { lua = some (record { obj = some 0 }); object = some 1 }))
      ∷ []
unfolding run_actions text close
program-values = refl

perform-ask_example :
    (w' : World Lua) × (perform lua (table_over none 1) (Call.get (some (Value.integer 3))) tabled
      ≡ returned (Answer.value (Value.integer 5)) w')
    × IsAfter tabled tt w'
perform-ask_example =
    perform-ask lua tabled-IsCalm.sound none {r = 9} refl refl (λ e. cc) refl
      (Call.get (some (Value.integer 3))) (ok (LuaValue.integer 5)) tt (omega arith) (omega arith)
      refl
