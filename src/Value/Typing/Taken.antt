-- ===== src/Value/Typing/Taken.antt =====
-- Rust takes a typed C value over: `to_value_from_owned` of value.rs.
use gluau.Prelude.{update_ne, ℕ, ◌≢◌, none, refl, ◌∙◌, ==-ne, Bytes}
use gluau.World.{RefKind, Box, ref_box, error_box, World}
use gluau.Mluau.{Mluau}
use gluau.Ffi.Boxes.{luago_error_free}
use gluau.Ffi.Ownership.{without, read_error-some, drop_if-without}
use gluau.Value.Types.{LuaValueType}
use gluau.Value.Clone.{GoLuaValue, Payload, c_value, take_value, take_error, to_value_from_owned}
use gluau.Value.Taking.{take_value-ref}
use gluau.Value.Typing.{Ensures, IsNew, Fits, Settled}
use gluau.Value.Typing.Keeping.{not_null, without-Settled}

-- The box at `q`, if there is one, is not that of the C value.
abbrev pub IsOther : LuaValueType → ℕ → ℕ → Type 0
IsOther LuaValueType.nil p q = Unit
IsOther LuaValueType.boolean p q = Unit
IsOther LuaValueType.light_user_data p q = Unit
IsOther LuaValueType.integer p q = Unit
IsOther LuaValueType.number p q = Unit
IsOther LuaValueType.vector p q = Unit
IsOther LuaValueType.other p q = Unit
IsOther LuaValueType.custom_go_string p q = Unit
IsOther LuaValueType.string p q = p ≢ q
IsOther LuaValueType.table p q = p ≢ q
IsOther LuaValueType.function p q = p ≢ q
IsOther LuaValueType.thread p q = p ≢ q
IsOther LuaValueType.user_data p q = p ≢ q
IsOther LuaValueType.buffer p q = p ≢ q
IsOther LuaValueType.error p q = p ≢ q

module _ {L : Type 0} (m : Mluau L) {v w : World L} (had : Settled v w) where
  without-others : (p : ℕ) (b : Box) (q : ℕ) → p ≢ q → IsNew v w b q → IsNew v (without w p) b q
  without-others p b q ne new = record {
    there = update_ne w.boxes p none q ne ∙ new.there;
    fresh = new.fresh;
    unowned = new.unowned;
  }

  take_value-Left :
      (k : RefKind) (p : ℕ) {r : ℕ}
      → IsNew v w (ref_box k r) p
      → Ensures
          (λ _ u. Settled v u × ((b : Box) (q : ℕ) → p ≢ q → IsNew v w b q → IsNew v u b q))
          (λ u. ⊥)
          (take_value k p w)
  take_value-Left k p new =
      rw (take_value-ref m w k p (not_null had new) new.there)
        (without-Settled had new, without-others p)

  take_error-Left :
      (p : ℕ) {e : Bytes}
      → IsNew v w (error_box e) p
      → Ensures
          (λ _ u. Settled v u × ((b : Box) (q : ℕ) → p ≢ q → IsNew v w b q → IsNew v u b q))
          (λ u. ⊥)
          (take_error m p w)
  unfolding take_error luago_error_free
  take_error-Left p new =
      rw
        (
          ==-ne p 0 (not_null had new),
          read_error-some w p new.there,
          drop_if-without w _ p new.there refl,
        )
        (without-Settled had new, without-others p)

  taken :
      (t : LuaValueType) (d : Payload)
      → Fits v w t d.lo
      → Ensures
          (λ _ u.
            Settled v u × ((b : Box) (q : ℕ) → IsOther t d.lo q → IsNew v w b q → IsNew v u b q))
          (λ u. ⊥)
          (to_value_from_owned m (c_value t d) w)
  unfolding to_value_from_owned
  taken LuaValueType.nil d fits = (had, λ b q other new. new)
  taken LuaValueType.boolean d fits = (had, λ b q other new. new)
  taken LuaValueType.light_user_data d fits = (had, λ b q other new. new)
  taken LuaValueType.integer d fits = (had, λ b q other new. new)
  taken LuaValueType.number d fits = (had, λ b q other new. new)
  taken LuaValueType.vector d fits = (had, λ b q other new. new)
  taken LuaValueType.other d fits = (had, λ b q other new. new)
  taken LuaValueType.string d fits = take_value-Left RefKind.string d.lo fits.1
  taken LuaValueType.table d fits = take_value-Left RefKind.table d.lo fits.1
  taken LuaValueType.function d fits = take_value-Left RefKind.function d.lo fits.1
  taken LuaValueType.thread d fits = take_value-Left RefKind.thread d.lo fits.1
  taken LuaValueType.user_data d fits = take_value-Left RefKind.user_data d.lo fits.1
  taken LuaValueType.buffer d fits = take_value-Left RefKind.buffer d.lo fits.1
  taken LuaValueType.error d fits = take_error-Left d.lo fits.1
  taken LuaValueType.custom_go_string d fits = absurd fits

-- Rust can always take a typed C value over: it reads the box at the kind that the tag says, and frees it.
-- What was there before the value was made is there afterwards.
pub to_value_from_owned-Settled :
    {L : Type 0} (m : Mluau L) {v w : World L}
    → Settled v w
    → (c : GoLuaValue) → Fits v w c.tag c.payload.lo
    → Ensures
        (λ _ u.
          Settled v u
          × ((b : Box) (q : ℕ) → IsOther c.tag c.payload.lo q → IsNew v w b q → IsNew v u b q))
        (λ u. ⊥)
        (to_value_from_owned m c w)
to_value_from_owned-Settled m had c fits = taken m had c.tag c.payload fits
