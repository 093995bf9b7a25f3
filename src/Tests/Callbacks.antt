-- ===== src/Tests/Callbacks.antt =====
-- The theorems on callbacks, userdata and iterations, at small worlds.
use gluau.Prelude.{ℕ, ◌≡◌, refl, ◌≢◌, none, some, [], ◌∷◌, List, text, arith}
use gluau.World.{
  Cell, dynamic, DynamicData, RefKind, LuaValue, ref_box, World, Go, pure, returned, panicked,
  ◌>>=◌,
}
use gluau.Mluau.{ok, err}
use gluau.Ffi.Ownership.{with_box}
use gluau.Object.Sound.{with_object}
use gluau.Handles.{userdata_tab, LuaTable}
use gluau.Value.Types.{Value}
use gluau.Callback.{misuse, get_dynamic_data}
use gluau.Callback.Registry.{IsConsistent, registered, drop_trampoline, registered-IsConsistent}
use gluau.Callback.Life.{drop_trampoline-once}
use gluau.Userdata.{associated_data}
use gluau.Userdata.Data.{data_result, associated_data-data_result}
use gluau.Table.Iterate.{Iteration, pair_entry, iterate, finish}
use gluau.Table.Ranging.{visit}
use gluau.Table.PairLoop.{pair_loop, iterate-pair_loop}
use gluau.World.{panic}
use gluau.Ffi.Boxes.{c_string, has_nul}
use gluau.FunctionCallback.{FunctionFn, lua_callback}
use gluau.FunctionCallback.Panicking.{inside, panic_text, lua_callback-panic}
use gluau.Handles.{function_tab, error_variant_tab}
use gluau.World.{error_box}
use gluau.Vm.Create.{create_error_variant}
use gluau.Tests.Demo.{nothing-IsSound, Lua, lua, nothing}

nothing-IsConsistent : IsConsistent nothing
nothing-IsConsistent = record {
  positive = omega arith;
  null = refl;
  fresh_handle = λ h le. refl;
  fresh_cell = λ c le. refl;
  named = λ h c e. cc;
}

-- The Go value 42.
abbrev answer : DynamicData
answer = record { drop = some 0; value = some 42; cgo_handle = 1 }

abbrev user_world : World Lua
user_world =
    with_object 1 userdata_tab
      (with_box (registered nothing (dynamic answer)) (ref_box RefKind.user_data 12))

user_world-IsConsistent : IsConsistent user_world
user_world-IsConsistent =
    let s : IsConsistent (registered nothing (dynamic answer)) =
      registered-IsConsistent nothing (dynamic answer) refl nothing-IsConsistent in
    record {
      positive = s.positive;
      null = s.null;
      fresh_handle = s.fresh_handle;
      fresh_cell = s.fresh_cell;
      named = s.named;
    }

abbrev prints : ℕ → Go Lua (Unit {0})
prints f = pure tt

drop_trampoline-once_example :
    (w' : World Lua) × (drop_trampoline prints (dynamic answer) 1 user_world ≡ returned tt w')
    × IsConsistent w'
    × (w'.handles 1 ≡ none)
    × ((k : ℕ) → 1 ≢ k → w'.handles k ≡ user_world.handles k)
    × ((y : Cell) → drop_trampoline prints y 1 w' ≡ panicked misuse w')
    × (get_dynamic_data 1 w' ≡ panicked misuse w')
drop_trampoline-once_example =
    drop_trampoline-once prints (dynamic answer) 1 1 user_world user_world-IsConsistent
      (λ f u. refl) refl refl

associated_data-data_result_example :
    associated_data lua (record { lua = none; object = some 0 }) user_world
    ≡ data_result (some 42) user_world
associated_data-data_result_example =
    associated_data-data_result lua 0 12 1 1 user_world answer refl refl (omega arith) refl
      (λ u. refl) user_world-IsConsistent refl refl

abbrev pairs : List (LuaValue × LuaValue)
pairs = (LuaValue.integer 1, LuaValue.integer 7) ∷ (LuaValue.integer 2, LuaValue.integer 8) ∷ []

-- An mluau that visits the pairs.
abbrev over_pairs : Iteration Lua (LuaValue × LuaValue)
over_pairs r f st = visit f pairs (ok tt) st

-- A callback that panics at the first pair.
abbrev stops : Value → Value → Go Lua (Unit {0})
stops k v = panic (text "enough")

abbrev any_table : LuaTable
any_table = record { lua = none; object = none }

iterate-pair_loop_example :
    (iterate lua over_pairs 9 (pair_entry any_table stops) >>= finish) nothing
    ≡ pair_loop any_table stops (ok tt) pairs nothing
iterate-pair_loop_example =
    iterate-pair_loop lua over_pairs 9 any_table stops pairs (ok tt) nothing (λ f u. refl)

abbrev one_value : List Value
one_value = Value.integer 3 ∷ []

-- A Go function that gives back the number 4.
abbrev gives : FunctionFn Lua
gives vm vs = pure (some (Value.integer 4) ∷ [])

-- A Go function that makes an error and then panics.
abbrev panics : FunctionFn Lua
unfolding create_error_variant
panics vm vs = do e ← create_error_variant (97 ∷ []); panic (text "oops")

-- What it leaves.
abbrev made_error : World Lua
made_error = with_object 3 error_variant_tab (with_box (inside 1 nothing) (error_box (97 ∷ [])))

lua_callback-panic_example :
    (w' : World Lua) × (lua_callback lua none panics 1 (LuaValue.integer 3 ∷ []) nothing
      ≡ returned (err (c_string (panic_text (text "oops")))) w')
    × (w'.boxes 2 ≡ none)
    × ((p : ℕ) → 2 ≢ p → w'.boxes p ≡ made_error.boxes p)
    × ((i : ℕ) → w'.objects i ≡ made_error.objects i)
unfolding panics has_nul
lua_callback-panic_example =
    lua_callback-panic lua none panics 1 one_value (omega arith, tt) (text "oops") nothing
      nothing-IsSound made_error refl (omega arith) refl refl

-- A world with an open function.
abbrev function_world : World Lua
function_world = with_object 1 function_tab (with_box nothing (ref_box RefKind.function 11))
