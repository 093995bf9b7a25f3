-- ===== src/Tests/Sequences.antt =====
-- `ForEachValue` over two values, with a callback that stops at the first.
use gluau.Prelude.{◌≡◌, refl, none, some, List, [], ◌∷◌, text}
use gluau.World.{LuaValue, World, Go, fail, ◌>>=◌}
use gluau.Mluau.{ok}
use gluau.Handles.{LuaTable}
use gluau.Value.Types.{Value}
use gluau.Table.Iterate.{Iteration, value_entry, iterate_values, finish_values, return_errv}
use gluau.Table.Ranging.{visit}
use gluau.Table.Sequence.{values_error, SameThings, iterate_values-until_error}
use gluau.Tests.Demo.{Lua, lua, nothing, nothing-IsSound}

abbrev two_values : List LuaValue
two_values = LuaValue.integer 7 ∷ LuaValue.integer 8 ∷ []

-- An mluau that visits the values.
abbrev over_values : Iteration Lua LuaValue
over_values r f st = visit f two_values (ok tt) st

abbrev refuses : Value → Go Lua (Unit {0})
refuses v = fail (text "enough")

abbrev no_table : LuaTable
no_table = record { lua = none; object = none }

iterate_values-until_error_example :
    (u : World Lua) × ((iterate_values lua over_values 9 (value_entry no_table refuses)
          >>= finish_values)
        nothing
      ≡ return_errv (values_error (ok tt) (some (text "enough"))) u)
    × SameThings nothing u
unfolding value_entry
iterate_values-until_error_example =
    iterate_values-until_error lua over_values 9 two_values (ok tt) (value_entry no_table refuses)
      nothing (λ f u. refl) refl refl nothing-IsSound
