-- ===== src/Tests/Values.antt =====
-- The theorems on values and multi-values, at the small world.
use gluau.Prelude.{ℕ, ◌≡◌, refl, ◌↔◌, true, none, some, [], ◌∷◌, ◌++◌, map, arith, List}
use gluau.World.{RefKind, World, returned, failed, undefined, multi_box, ref_box}
use gluau.Handles.{string_tab}
use gluau.Ffi.Ownership.{with_box}
use gluau.Object.Sound.{new_handle}
use gluau.Value.Types.{Value}
use gluau.Value.Convert.{value_to_c}
use gluau.Value.Scalars.{there_and_back, there_and_back-scalar, there_and_back-light}
use gluau.Value.Cloning.{Cloned, wrap, Copied, there_and_back-clone}
use gluau.Value.Refused.{Held, value_over, closed_message, value_to_c-closed, value_to_c-table}
use gluau.Value.ErrorValues.{error_over, there_and_back-error}
use gluau.Ffi.Boxes.{c_string}
use gluau.World.{error_box, free_error}
use gluau.Handles.{error_variant_tab}
use gluau.Prelude.{Bytes, text}
use gluau.Object.Sound.{
  IsSound, with_object, with_object-IsSound, with_box-IsSound, with_box-Unowned,
}
use gluau.Tests.Demo.{nothing, nothing-IsSound}
use gluau.MultiValue.{multi_value_from_values}
use gluau.MultiValue.Transfer.{transfer, take-multi_value_from_values}
use gluau.MultiValue.Failure.{multi_value_from_values-closed}
use gluau.Tests.Demo.{Lua, lua, open_world, open_world-IsSound, world, world-IsSound}

there_and_back-scalar_example :
    there_and_back lua none none (Value.vector 1 2 3) world ≡ returned (Value.vector 1 2 3) world
there_and_back-scalar_example =
    there_and_back-scalar lua none none (Value.vector 1 2 3) world (omega arith)

there_and_back-light_example :
    (there_and_back lua none none (Value.light_user_data 16) world
      ≡ returned (Value.light_user_data 16) world)
    ↔ (world.words 16 ≡ some 16)
there_and_back-light_example = there_and_back-light lua none none 16 world

there_and_back-clone_example :
    (w' : World Lua) × (there_and_back lua none none (wrap Cloned.strings none 0) open_world
      ≡ returned (wrap Cloned.strings none 3) w')
    × Copied open_world 0 (new_handle 1 string_tab) (ref_box RefKind.string 7) w'
there_and_back-clone_example =
    there_and_back-clone lua 0 open_world refl (omega arith) Cloned.strings none none none
      open_world-IsSound refl refl

value_to_c-closed_example :
    value_to_c lua none (some (value_over Held.strings none 2)) world
    ≡ failed (closed_message Held.strings) world
value_to_c-closed_example = value_to_c-closed lua 2 world refl refl Held.strings none none refl

value_to_c-table_example :
    value_to_c lua none (some (value_over Held.tables none 1)) world ≡ undefined
value_to_c-table_example = value_to_c-table lua 1 world refl refl none none (omega arith) refl

abbrev numbers : List Value
numbers = Value.integer 3 ∷ Value.other ∷ Value.boolean true ∷ []

take-multi_value_from_values_example :
    transfer lua none (map some numbers) world
    ≡ returned
        (Value.integer 3 ∷ Value.nil ∷ Value.boolean true ∷ [])
        (with_box world (multi_box []))
take-multi_value_from_values_example =
    take-multi_value_from_values lua none world numbers (omega arith) (omega arith, (tt, (tt, tt)))

multi_value_from_values-closed_example :
    (w' : World Lua) × (multi_value_from_values lua none
        (map some numbers ++ some (value_over Held.strings none 2) ∷ none ∷ [])
        world
      ≡ failed (closed_message Held.strings) w')
    × ((p : ℕ) → w'.boxes p ≡ world.boxes p)
    × ((i : ℕ) → w'.objects i ≡ world.objects i)
multi_value_from_values-closed_example =
    multi_value_from_values-closed lua none none world numbers Held.strings 2 (none ∷ [])
      world-IsSound (omega arith, (tt, (tt, tt))) refl refl refl

-- An open error.
abbrev bad : Bytes
bad = text "bad"

abbrev error_world : World Lua
error_world = with_object 1 error_variant_tab (with_box nothing (error_box bad))

error_world-IsSound : IsSound error_world
error_world-IsSound =
    with_object-IsSound (with_box nothing (error_box bad))
      (with_box-IsSound nothing (error_box bad) nothing-IsSound)
      (with_box-Unowned nothing (error_box bad) nothing-IsSound)
      (record { dtor = free_error; box = error_box bad; named = refl; there = refl; fits = refl })

there_and_back-error_example :
    (w' : World Lua) × (there_and_back lua none none (error_over 0) error_world
      ≡ returned (error_over 1) w')
    × Copied error_world 0 (new_handle 1 error_variant_tab) (error_box (c_string bad)) w'
there_and_back-error_example =
    there_and_back-error lua 0 error_world bad refl (omega arith) refl none none error_world-IsSound
      refl
