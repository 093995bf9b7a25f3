-- ===== src/Tests/Objects.antt =====
-- The theorems on objects, at the small world.
use gluau.Prelude.{◌≡◌, refl, [], ◌∷◌, if◌then◌else◌}
use gluau.World.{World, returned, blocked}
use gluau.Handles.{string_tab}
use gluau.Object.{close}
use gluau.Object.Outcome.{is_busy, close-outcome}
use gluau.Object.Sound.{new_handle}
use gluau.Object.Lifetime.{close_all, Closed, close_all-Closed, closing}
use gluau.Tests.Demo.{Lua, open_world, open_world-IsSound, open_world-IsQuiet}

close_all-Closed_example :
    (w' : World Lua) × (close_all (2 ∷ 0 ∷ 2 ∷ []) open_world ≡ returned tt w')
    × Closed open_world (2 ∷ 0 ∷ 2 ∷ []) w'
close_all-Closed_example =
    close_all-Closed open_world (2 ∷ 0 ∷ 2 ∷ []) open_world-IsSound open_world-IsQuiet (
      (new_handle 3 string_tab, refl),
      ((new_handle 1 string_tab, refl), ((new_handle 3 string_tab, refl), tt)),
    )

close-outcome_example : close 0 open_world ≡ (
    if is_busy (new_handle 1 string_tab)
    then blocked
    else returned tt (closing 0 (new_handle 1 string_tab) open_world))
close-outcome_example = close-outcome open_world-IsSound 0 refl
