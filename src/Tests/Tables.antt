-- ===== src/Tests/Tables.antt =====
-- The theorems on tables, at the small world.
use gluau.Prelude.{ℕ, ◌≡◌, refl, none, some, arith}
use gluau.World.{LuaValue, pure, RefKind, World, returned, failed, ref_box, ◌>>◌}
use gluau.Handles.{string_tab, table_tab}
use gluau.Object.Sound.{IsSound, Unowned, new_handle}
use gluau.Value.Types.{Value}
use gluau.Value.Cloning.{Cloned, wrap}
use gluau.Value.Refused.{Held, value_over, closed_message}
use gluau.Table.{set, raw_set, get}
use gluau.Table.Calls.{table_over, outcome}
use gluau.Table.Iterate.{Iteration}
use gluau.Table.Closed.{Method, on_closed_method, run_method, method-closed}
use gluau.Mluau.{ok}
use gluau.Table.Keys.{Ready}
use gluau.Table.Leak.{set-leaks}
use gluau.Table.Writing.{get-set}
use gluau.Tests.Demo.{Lua, lua, world, world-IsSound}

-- Iterations that visit nothing.
abbrev no_pairs : Iteration Lua (LuaValue × LuaValue)
no_pairs r f st = pure (st, ok tt)

abbrev no_values : Iteration Lua LuaValue
no_values r f st = pure (st, ok tt)

abbrev asks : Method Lua
asks = Method.each (λ k v. pure tt)

method-closed_example :
    run_method lua no_pairs no_values (λ p. pure tt) none 2 asks world
    ≡ outcome (on_closed_method asks) world
method-closed_example =
    method-closed lua no_pairs no_values (λ p. pure tt) none 2 world refl refl refl asks

-- Table 1 and the string 0 as its key.
abbrev ready : Ready world 1 Cloned.strings 0
ready = record {
  table = new_handle 2 table_tab;
  table_ref = 9;
  key = new_handle 1 string_tab;
  key_ref = 7;
  sound = world-IsSound;
  table_here = refl;
  table_free = refl;
  table_open = omega arith;
  table_box = refl;
  key_here = refl;
  key_free = refl;
  key_open = omega arith;
  key_box = refl;
  different = omega arith;
}

set-leaks_example :
    (w' : World Lua) × (set lua
        (table_over none 1)
        (some (wrap Cloned.strings none 0))
        (some (value_over Held.strings none 2))
        world
      ≡ failed (closed_message Held.strings) w')
    × (raw_set lua
          (table_over none 1)
          (some (wrap Cloned.strings none 0))
          (some (value_over Held.strings none 2))
          world
        ≡ failed (closed_message Held.strings) w')
    × IsSound w'
    × (world.boxes world.next_box ≡ none)
    × (w'.boxes world.next_box ≡ some (ref_box RefKind.string 7))
    × Unowned w' world.next_box
set-leaks_example = set-leaks lua none none none Held.strings 2 ready refl refl refl

get-set_example :
    (w' : World Lua) × ((set lua
            (table_over none 1)
            (some (wrap Cloned.strings none 0))
            (some (Value.integer 5))
          >> get lua (table_over none 1) (some (wrap Cloned.strings none 0)))
        world
      ≡ returned (Value.integer 5) w')
    × ((p : ℕ) → w'.boxes p ≡ world.boxes p)
    × ((j : ℕ) → w'.objects j ≡ world.objects j)
    × (w'.lua ≡ tt)
    × IsSound w'
get-set_example =
    get-set lua none none (Value.integer 5) ready (omega arith) (λ l. l) (λ u. refl) (λ u e. refl)
