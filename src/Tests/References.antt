-- ===== src/Tests/References.antt =====
-- A run of commands from the empty world.
use gluau.Prelude.{◌≡◌, refl, none, List, [], ◌∷◌}
use gluau.World.{RefKind, LuaValue, World, returned}
use gluau.Value.Cloning.{strings, functions, wrap}
use gluau.Value.Refused.{Held, closed_message}
use gluau.References.{
  Command, receive, close, copy, send, Answer, made, done, sent, refused, perform_all, Store, added,
  cut, Answers,
}
use gluau.References.Represents.{Represents}
use gluau.References.Refinement.{perform_all-Answers}
use gluau.Tests.Demo.{Lua, lua, nothing, nothing-IsSound}

abbrev no_values : Store
no_values = record { entries = λ o. none; next = 0 }

nothing-Represents : Represents nothing no_values
nothing-Represents = record {
  sound = nothing-IsSound;
  quiet = λ i a e. cc;
  next = refl;
  holds = λ o e named. cc;
  owned = λ p b there. cc;
}

-- A string is received and copied, the first of the two is closed, the second still goes to Lua, and
-- the first is refused; a function comes in between.
abbrev commands : List Command
commands =
    receive strings 7
    ∷ copy strings 0
    ∷ close strings 0
    ∷ receive functions 4
    ∷ send strings 1
    ∷ send strings 0
    ∷ close strings 0
    ∷ []

abbrev answers : List Answer
answers =
    made (wrap strings none 0)
    ∷ made (wrap strings none 1)
    ∷ done
    ∷ made (wrap functions none 2)
    ∷ sent (LuaValue.ref RefKind.string 7)
    ∷ refused (closed_message Held.strings)
    ∷ done
    ∷ []

abbrev at_end : Store
at_end =
    cut (added (cut (added (added no_values strings 7) strings 7) strings 0) functions 4) strings 0

commands-Answers : Answers no_values commands answers at_end
commands-Answers = Answers.go refl (
    Answers.go refl (
      Answers.go refl
        (Answers.go refl (Answers.go refl (Answers.go refl (Answers.go refl Answers.stop))))))

perform_all-Answers_example :
    (w' : World Lua) × (perform_all lua none commands nothing ≡ returned answers w')
    × Represents w' at_end
perform_all-Answers_example = perform_all-Answers lua none commands-Answers nothing-Represents
