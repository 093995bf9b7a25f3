-- ===== src/Table/Answers/Open.antt =====
-- Every method of an open table but ForEach and ForEachValue, run on scalars: the answer is mluau's.
use gluau.Prelude.{ℕ, ◌≡◌, ◌≢◌, refl, false, true, Option, none, some, Bytes, arith}
use gluau.World.{RefKind, LuaValue, Object, ref_box, World, Run, Go, returned, failed}
use gluau.Mluau.{Mluau, LuaResult, ok, err}
use gluau.Ffi.Boxes.{c_string}
use gluau.Ffi.Tables.{
  luago_table_clear, luago_table_contains_key, luago_table_equals, luago_table_get,
  luago_table_is_empty, luago_table_is_readonly, luago_table_len, luago_table_metatable,
  luago_table_pop, luago_table_push, luago_table_raw_get, luago_table_raw_insert,
  luago_table_raw_len, luago_table_raw_pop, luago_table_raw_push, luago_table_raw_remove,
  luago_table_raw_set, luago_table_set, luago_table_set_metatable, luago_table_set_readonly,
  luago_table_set_safeenv, luago_table_to_pointer, luago_table_debug,
}
use gluau.Object.{reading}
use gluau.Object.Locks.{held}
use gluau.Object.Sound.{IsSound}
use gluau.Handles.{GoLuaVmWrapper}
use gluau.Result.{without_nul}
use gluau.Value.Types.{Value}
use gluau.Value.Typing.Made.{relua}
use gluau.Table.{inner_ptr, other_ptr}
use gluau.Table.Calls.{
  Call, Answer, nothing, flag, count, value, table, answered, perform, table_over,
}
use gluau.Table.Answers.{scalar_of, Reply, ask, IsAskable, answered_by, answer_to, IsPlainReply}
use gluau.Table.Answers.Shapes.{
  texted, ended, ended-answered_by, plain-ended, handing-ended, value-ended, value_handing-ended,
  writing-ended, defaulting-ended,
}
use gluau.Table.Answers.Others.{comparing-ended, setting-ended, finding-ended, showing-ended}
use gluau.Table.Typing.Bodies.{
  plain_body, value_body, plain_handing, value_handing, writing, defaulting, finding, comparing,
  setting,
}

-- The end of a call that gives an answer or an error.
abbrev pub concluded : {L A : Type 0} → LuaResult A → World L → Run L A
concluded (ok a) w = returned a w
concluded (err e) w = failed (without_nul e) w

-- Only the state of Lua is another one.
pub record IsAfter {L : Type 0} (w : World L) (s : L) (w' : World L) : Type 0 where
  pub boxes : (p : ℕ) → w'.boxes p ≡ w.boxes p
  pub objects : (o : ℕ) → w'.objects o ≡ w.objects o
  pub lua : w'.lua ≡ s

module _ {L : Type 0} {w : World L} (sound : IsSound w) (s : L) where
  -- A call ends with the answer `x`, and Lua in the state `s`.
  abbrev pub Concludes : {A : Type 0} → LuaResult A → Run L A → Type 0
  Concludes x run = (w' : World L) × (run ≡ concluded x w') × IsAfter w s w'

  texted-IsAfter : (e : Bytes) → IsAfter w s (texted e (relua w s))
  texted-IsAfter e = record {
    boxes = λ p. ground (arith, sound.fresh_box p);
    objects = λ o. refl;
    lua = refl;
  }

  ended-Concludes : {A : Type 0} (x : LuaResult A) → Concludes x (ended x (relua w s))
  ended-Concludes (ok a) =
      (relua w s, refl, record { boxes = λ p. refl; objects = λ o. refl; lua = refl })
  ended-Concludes (err e) =
      (texted (without_nul e) (relua w s), refl, texted-IsAfter (without_nul e))

  -- What a method makes of the result.
  answered-Concludes :
      {A : Type 0} (f : A → Answer) (x : LuaResult A) (run : Go L A)
      → run w ≡ ended x (relua w s)
      → Concludes (answered_by f x) (answered f run w)
  answered-Concludes f x run says =
      rw (says, ended-answered_by f x (relua w s)) (ended-Concludes (answered_by f x))

  direct-Concludes :
      {A : Type 0} (f : A → Answer) (x : A) (run : Go L A)
      → run w ≡ returned x (relua w s)
      → Concludes (ok (f x)) (answered f run w)
  direct-Concludes f x run says = answered-Concludes f (ok x) run says

  composed :
      (x : LuaResult LuaValue)
      → answered_by value (answered_by scalar_of x) ≡ answered_by (λ y. value (scalar_of y)) x
  composed (ok x) = refl
  composed (err e) = refl

  value-Concludes :
      (x : LuaResult LuaValue) (run : Go L Value)
      → run w ≡ ended (answered_by scalar_of x) (relua w s)
      → Concludes (answered_by (λ y. value (scalar_of y)) x) (answered value run w)
  value-Concludes x run says =
      rw (← composed x) (answered-Concludes value (answered_by scalar_of x) run says)

module _ {L : Type 0} (m : Mluau L) {w : World L} (sound : IsSound w) (l : Option GoLuaVmWrapper)
    {o r : ℕ} {ob : Object} (here : w.objects o ≡ some ob) (free : ob.writing ≡ false)
    (set : ob.ptr ≢ 0) (there : w.boxes ob.ptr ≡ some (ref_box RefKind.table r)) where
  -- Any method but ForEach and ForEachValue of an open table whose lock no writer holds, in a sound
  -- world, with arguments that are scalars or open tables: if mluau's operation of the same name, on the
  -- Lua table behind it and the Lua values of the arguments, gives `x` and only changes the state of
  -- Lua, and `x` has no Lua object, error value or light userdata in it, then the method gives `x` in
  -- Go's form, or mluau's error without its NULs. Lua is left in that state, and every box, object and
  -- lock is as before.
  pub perform-ask :
      (c : Call) (x : Reply c) (s : L)
      → IsAskable w c
      → IsPlainReply c x
      → ask m w r c (held o ob w) ≡ returned x (relua (held o ob w) s)
      → Concludes sound s (answer_to c_string c x) (perform m (table_over l o) c w)
  unfolding perform inner_ptr other_ptr luago_table_clear luago_table_contains_key
      luago_table_equals luago_table_get luago_table_is_empty luago_table_is_readonly
      luago_table_len luago_table_metatable luago_table_pop luago_table_push luago_table_raw_get
      luago_table_raw_insert luago_table_raw_len luago_table_raw_pop luago_table_raw_push
      luago_table_raw_remove luago_table_raw_set luago_table_set luago_table_set_metatable
      luago_table_set_readonly luago_table_set_safeenv luago_table_to_pointer luago_table_debug
  perform-ask Call.clear x s given plain says =
      answered-Concludes sound s (λ a. nothing) x (reading (some o) (plain_body m l o tt m.clear))
        (plain-ended m sound l here free set there tt x s m.clear says)
  perform-ask (Call.contains_key none) x s given plain says = absurd given
  perform-ask (Call.contains_key (some k)) x s given plain says =
      answered-Concludes sound s flag x
        (reading (some o) (plain_handing m l o false (some k) m.contains_key))
        (handing-ended m sound l here free set there false x s k m.contains_key given says)
  perform-ask (Call.equals none) x s given plain says = absurd given
  perform-ask (Call.equals (some t)) x s given plain says =
      answered-Concludes sound s flag x (reading (some o) (comparing m l o false t m.equals))
        (comparing-ended m sound l here free set there false t m.equals x s given says)
  perform-ask (Call.get none) x s given plain says = absurd given
  perform-ask (Call.get (some k)) x s given plain says =
      value-Concludes sound s x (reading (some o) (value_handing m l o (some k) m.get))
        (value_handing-ended m sound l here free set there x s plain k m.get given says)
  perform-ask Call.is_empty x s given plain says =
      direct-Concludes sound s flag x (reading (some o) (defaulting m l o true true m.is_empty))
        (defaulting-ended m sound l here free set there x s true true m.is_empty says)
  perform-ask Call.is_readonly x s given plain says =
      direct-Concludes sound s flag x (reading (some o) (defaulting m l o true true m.is_readonly))
        (defaulting-ended m sound l here free set there x s true true m.is_readonly says)
  perform-ask Call.len x s given plain says =
      answered-Concludes sound s count x (reading (some o) (plain_body m l o 0 m.len))
        (plain-ended m sound l here free set there 0 x s m.len says)
  perform-ask Call.metatable x s given plain says =
      direct-Concludes sound s table none (reading (some o) (finding m l o m.metatable))
        (finding-ended m sound l here free set there m.metatable x s plain says)
  perform-ask Call.pop x s given plain says =
      value-Concludes sound s x (reading (some o) (value_body m l o m.pop))
        (value-ended m sound l here free set there x s plain m.pop says)
  perform-ask (Call.push none) x s given plain says = absurd given
  perform-ask (Call.push (some k)) x s given plain says =
      answered-Concludes sound s (λ a. nothing) x
        (reading (some o) (plain_handing m l o tt (some k) m.push))
        (handing-ended m sound l here free set there tt x s k m.push given says)
  perform-ask (Call.raw_get none) x s given plain says = absurd given
  perform-ask (Call.raw_get (some k)) x s given plain says =
      value-Concludes sound s x (reading (some o) (value_handing m l o (some k) m.raw_get))
        (value_handing-ended m sound l here free set there x s plain k m.raw_get given says)
  perform-ask (Call.raw_insert i none) x s given plain says = absurd given
  perform-ask (Call.raw_insert i (some k)) x s given plain says =
      answered-Concludes sound s (λ a. nothing) x
        (reading (some o) (plain_handing m l o tt (some k) (λ t. m.raw_insert t i)))
        (handing-ended m sound l here free set there tt x s k (λ t. m.raw_insert t i) given says)
  perform-ask Call.raw_len x s given plain says =
      direct-Concludes sound s count x (reading (some o) (defaulting m l o 0 0 m.raw_len))
        (defaulting-ended m sound l here free set there x s 0 0 m.raw_len says)
  perform-ask Call.raw_pop x s given plain says =
      value-Concludes sound s x (reading (some o) (value_body m l o m.raw_pop))
        (value-ended m sound l here free set there x s plain m.raw_pop says)
  perform-ask (Call.raw_push none) x s given plain says = absurd given
  perform-ask (Call.raw_push (some k)) x s given plain says =
      answered-Concludes sound s (λ a. nothing) x
        (reading (some o) (plain_handing m l o tt (some k) m.raw_push))
        (handing-ended m sound l here free set there tt x s k m.raw_push given says)
  perform-ask (Call.raw_remove none) x s given plain says = absurd given
  perform-ask (Call.raw_remove (some k)) x s given plain says =
      answered-Concludes sound s (λ a. nothing) x
        (reading (some o) (plain_handing m l o tt (some k) m.raw_remove))
        (handing-ended m sound l here free set there tt x s k m.raw_remove given says)
  perform-ask (Call.raw_set none v) x s given plain says = absurd given.0
  perform-ask (Call.raw_set (some k) none) x s given plain says = absurd given.1
  perform-ask (Call.raw_set (some k) (some v)) x s given plain says =
      answered-Concludes sound s (λ a. nothing) x
        (reading (some o) (writing m l o (some k) (some v) m.raw_set))
        (writing-ended m sound l here free set there x s k v m.raw_set given.0 given.1 says)
  perform-ask (Call.set none v) x s given plain says = absurd given.0
  perform-ask (Call.set (some k) none) x s given plain says = absurd given.1
  perform-ask (Call.set (some k) (some v)) x s given plain says =
      answered-Concludes sound s (λ a. nothing) x
        (reading (some o) (writing m l o (some k) (some v) m.set))
        (writing-ended m sound l here free set there x s k v m.set given.0 given.1 says)
  perform-ask (Call.set_metatable t) x s given plain says =
      answered-Concludes sound s (λ a. nothing) x
        (reading (some o) (setting m l o t m.set_metatable))
        (setting-ended m sound l here free set there m.set_metatable x s t given says)
  perform-ask (Call.set_readonly b) x s given plain says =
      direct-Concludes sound s (λ a. nothing) x
        (reading (some o) (defaulting m l o tt tt (λ t. m.set_readonly t b)))
        (defaulting-ended m sound l here free set there x s tt tt (λ t. m.set_readonly t b) says)
  perform-ask (Call.set_safe_env b) x s given plain says =
      direct-Concludes sound s (λ a. nothing) x
        (reading (some o) (defaulting m l o tt tt (λ t. m.set_safeenv t b)))
        (defaulting-ended m sound l here free set there x s tt tt (λ t. m.set_safeenv t b) says)
  perform-ask Call.pointer x s given plain says =
      direct-Concludes sound s count x (reading (some o) (defaulting m l o 0 0 m.table_to_pointer))
        (defaulting-ended m sound l here free set there x s 0 0 m.table_to_pointer says)
  perform-ask Call.to_string x s given plain says = (
    texted (c_string x) (relua w s),
    rw (showing-ended m sound l here free set there m.table_debug x s says) refl,
    texted-IsAfter sound s (c_string x),
  )
