-- ===== src/Value/Scalars.antt =====
-- The values that carry no object, on their way to Rust and back.
use gluau.Prelude.{
  ℕ, ◌^◌, ◌<◌, ◌≡◌, refl, true, false, Option, some, arith, inl, inr, ◌↔◌, Option-cases,
}
use gluau.World.{World, returned, Go, ◌>>=◌}
use gluau.Mluau.{Mluau}
use gluau.Handles.{GoLuaVmWrapper}
use gluau.Value.Types.{Value}
use gluau.Value.Convert.{c_word, value_from_c, value_to_c}

-- Values without an object or a pointer, in the range of their Go types.
abbrev pub IsScalar : Value → Type 0
IsScalar Value.nil = Unit
IsScalar (Value.boolean b) = Unit
IsScalar (Value.light_user_data p) = ⊥
IsScalar (Value.integer i) = i < 2 ^ 64
IsScalar (Value.number n) = n < 2 ^ 64
IsScalar (Value.vector x y z) = (x < 2 ^ 32) × (y < 2 ^ 32) × (z < 2 ^ 32)
IsScalar (Value.string s) = ⊥
IsScalar (Value.table t) = ⊥
IsScalar (Value.function f) = ⊥
IsScalar (Value.thread p) = ⊥
IsScalar (Value.user_data u) = ⊥
IsScalar (Value.buffer p) = ⊥
IsScalar (Value.error e) = ⊥
IsScalar Value.other = Unit
IsScalar (Value.go_string s) = ⊥

module _ {L : Type 0} (m : Mluau L) where
  -- A Go value as it arrives when Rust sends back what it was given.
  unfoldable pub there_and_back : Option GoLuaVmWrapper → Option GoLuaVmWrapper → Value → Go L Value
  unfolding value_to_c value_from_c
  there_and_back l k v = value_to_c m l (some v) >>= value_from_c k

  -- A scalar (nil, a Boolean, an integer, a number or a vector in the range of its type, or
  -- `ValueOther`) comes back as it was, and the world is not touched.
  pub there_and_back-scalar :
      (l k : Option GoLuaVmWrapper) (v : Value) (w : World L)
      → IsScalar v
      → there_and_back l k v w ≡ returned v w
  unfolding there_and_back
  there_and_back-scalar l k Value.nil w h = refl
  there_and_back-scalar l k (Value.boolean true) w h = refl
  there_and_back-scalar l k (Value.boolean false) w h = refl
  there_and_back-scalar l k (Value.light_user_data p) w h = absurd h
  there_and_back-scalar l k (Value.integer i) w h = refl
  there_and_back-scalar l k (Value.number n) w h = refl
  there_and_back-scalar l k (Value.vector x y z) w h = ground arith
  there_and_back-scalar l k (Value.string s) w h = absurd h
  there_and_back-scalar l k (Value.table t) w h = absurd h
  there_and_back-scalar l k (Value.function f) w h = absurd h
  there_and_back-scalar l k (Value.thread p) w h = absurd h
  there_and_back-scalar l k (Value.user_data u) w h = absurd h
  there_and_back-scalar l k (Value.buffer p) w h = absurd h
  there_and_back-scalar l k (Value.error e) w h = absurd h
  there_and_back-scalar l k Value.other w h = refl
  there_and_back-scalar l k (Value.go_string s) w h = absurd h

  -- A light userdata comes back as it was exactly when the word that it points to is its own
  -- address.
  pub there_and_back-light :
      (l k : Option GoLuaVmWrapper) (p : ℕ) (w : World L)
      → (there_and_back l k (Value.light_user_data p) w ≡ returned (Value.light_user_data p) w)
        ↔ (w.words p ≡ some p)
  unfolding there_and_back c_word
  there_and_back-light l k p w = elim (Option-cases (w.words p)) [
    | inl e ↦ rw (e, c_word) (λ h. cc, λ h. cc)
    | inr (n, e) ↦ rw (e, c_word) (λ h. ground arith, λ h. ground arith)
  ]
