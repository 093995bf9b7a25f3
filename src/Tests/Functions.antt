-- ===== src/Tests/Functions.antt =====
-- A function that Go receives from Lua and calls with a number and a Go string.
use gluau.Prelude.{ℕ, ◌≡◌, refl, none, some, [], ◌∷◌, text, arith}
use gluau.World.{RefKind, LuaValue, World, ref_box, multi_box, returned, panicked}
use gluau.Ffi.Ownership.{with_box}
use gluau.Object.Sound.{IsSound, with_box-IsSound}
use gluau.Handles.{LuaFunction}
use gluau.Value.Types.{LuaValueType, Value}
use gluau.Value.Clone.{c_value, word}
use gluau.Value.Convert.{value_from_c}
use gluau.Function.{call}
use gluau.Function.Detached.{nil_pointer, call-detached}
use gluau.Tests.Demo.{Lua, lua, nothing, nothing-IsSound}

abbrev function_box : World Lua
function_box = with_box nothing (ref_box RefKind.function 11)

function_box-IsSound : IsSound function_box
function_box-IsSound = with_box-IsSound nothing (ref_box RefKind.function 11) nothing-IsSound

call-detached_example :
    (f : LuaFunction) × (v : World Lua) × (w' : World Lua) × (value_from_c none
        (c_value LuaValueType.function (word 1))
        function_box
      ≡ returned (Value.function (some f)) v)
    × (call lua f (some (Value.integer 3) ∷ some (Value.go_string (text "x")) ∷ []) v
        ≡ panicked nil_pointer w')
    × ((o : ℕ) → w'.objects o ≡ v.objects o)
    × (function_box.boxes v.next_box ≡ none)
    × (w'.boxes v.next_box ≡ some (multi_box (LuaValue.integer 3 ∷ [])))
call-detached_example =
    call-detached lua (Value.integer 3 ∷ []) (text "x") [] (omega arith, tt) none 1 11 function_box
      function_box-IsSound (omega arith) refl
