-- ===== src/Value/Typing/Waiting.antt =====
-- A typed C value that waits to be taken over, while the world goes on.
use gluau.Prelude.{ℕ, ◌≢◌, ap, arith}
use gluau.World.{Box, World}
use gluau.Value.Types.{LuaValueType}
use gluau.Value.Typing.{IsNew, Fits, Keeps}
use gluau.Value.Typing.Keeping.{IsNew-Keeps, IsNew-since}
use gluau.Value.Typing.Taken.{IsOther}

module _ {L : Type 0} where
  pub Fits-Keeps :
      (v w u : World L) (t : LuaValueType) (p : ℕ) → Keeps w u → Fits v w t p → Fits v u t p
  Fits-Keeps v w u LuaValueType.nil p keeps fits = tt
  Fits-Keeps v w u LuaValueType.boolean p keeps fits = tt
  Fits-Keeps v w u LuaValueType.light_user_data p keeps fits = tt
  Fits-Keeps v w u LuaValueType.integer p keeps fits = tt
  Fits-Keeps v w u LuaValueType.number p keeps fits = tt
  Fits-Keeps v w u LuaValueType.vector p keeps fits = tt
  Fits-Keeps v w u LuaValueType.other p keeps fits = tt
  Fits-Keeps v w u LuaValueType.string p keeps fits = (fits.0, IsNew-Keeps fits.1 keeps)
  Fits-Keeps v w u LuaValueType.table p keeps fits = (fits.0, IsNew-Keeps fits.1 keeps)
  Fits-Keeps v w u LuaValueType.function p keeps fits = (fits.0, IsNew-Keeps fits.1 keeps)
  Fits-Keeps v w u LuaValueType.thread p keeps fits = (fits.0, IsNew-Keeps fits.1 keeps)
  Fits-Keeps v w u LuaValueType.user_data p keeps fits = (fits.0, IsNew-Keeps fits.1 keeps)
  Fits-Keeps v w u LuaValueType.buffer p keeps fits = (fits.0, IsNew-Keeps fits.1 keeps)
  Fits-Keeps v w u LuaValueType.error p keeps fits = (fits.0, IsNew-Keeps fits.1 keeps)
  Fits-Keeps v w u LuaValueType.custom_go_string p keeps fits = absurd fits

  pub Fits-since :
      (v w u : World L) (t : LuaValueType) (p : ℕ) → Keeps v w → Fits w u t p → Fits v u t p
  Fits-since v w u LuaValueType.nil p keeps fits = tt
  Fits-since v w u LuaValueType.boolean p keeps fits = tt
  Fits-since v w u LuaValueType.light_user_data p keeps fits = tt
  Fits-since v w u LuaValueType.integer p keeps fits = tt
  Fits-since v w u LuaValueType.number p keeps fits = tt
  Fits-since v w u LuaValueType.vector p keeps fits = tt
  Fits-since v w u LuaValueType.other p keeps fits = tt
  Fits-since v w u LuaValueType.string p keeps fits = (fits.0, IsNew-since keeps fits.1)
  Fits-since v w u LuaValueType.table p keeps fits = (fits.0, IsNew-since keeps fits.1)
  Fits-since v w u LuaValueType.function p keeps fits = (fits.0, IsNew-since keeps fits.1)
  Fits-since v w u LuaValueType.thread p keeps fits = (fits.0, IsNew-since keeps fits.1)
  Fits-since v w u LuaValueType.user_data p keeps fits = (fits.0, IsNew-since keeps fits.1)
  Fits-since v w u LuaValueType.buffer p keeps fits = (fits.0, IsNew-since keeps fits.1)
  Fits-since v w u LuaValueType.error p keeps fits = (fits.0, IsNew-since keeps fits.1)
  Fits-since v w u LuaValueType.custom_go_string p keeps fits = absurd fits

  distinct : {v w u : World L} {b c : Box} {p q : ℕ} → IsNew v w b p → IsNew w u c q → p ≢ q
  distinct {w = w} old new same = ground (arith, old.there, new.fresh, ap w.boxes same)

  -- The box of a C value is not one that is made later.
  pub Fits-IsOther :
      (v w u : World L) (t : LuaValueType) {c : Box} (p q : ℕ)
      → Fits v w t p
      → IsNew w u c q
      → IsOther t p q
  Fits-IsOther v w u LuaValueType.nil p q fits new = tt
  Fits-IsOther v w u LuaValueType.boolean p q fits new = tt
  Fits-IsOther v w u LuaValueType.light_user_data p q fits new = tt
  Fits-IsOther v w u LuaValueType.integer p q fits new = tt
  Fits-IsOther v w u LuaValueType.number p q fits new = tt
  Fits-IsOther v w u LuaValueType.vector p q fits new = tt
  Fits-IsOther v w u LuaValueType.other p q fits new = tt
  Fits-IsOther v w u LuaValueType.string p q fits new = distinct fits.1 new
  Fits-IsOther v w u LuaValueType.table p q fits new = distinct fits.1 new
  Fits-IsOther v w u LuaValueType.function p q fits new = distinct fits.1 new
  Fits-IsOther v w u LuaValueType.thread p q fits new = distinct fits.1 new
  Fits-IsOther v w u LuaValueType.user_data p q fits new = distinct fits.1 new
  Fits-IsOther v w u LuaValueType.buffer p q fits new = distinct fits.1 new
  Fits-IsOther v w u LuaValueType.error p q fits new = distinct fits.1 new
  Fits-IsOther v w u LuaValueType.custom_go_string p q fits new = absurd fits

  -- Of two C values that are made one after the other, the second stays when the first is taken over.
  pub Fits-others :
      (v w u x y : World L) (s t : LuaValueType) (p q : ℕ)
      → Fits v w s p
      → Fits w u t q
      → Fits v x t q
      → ((b : Box) (r : ℕ) → IsOther s p r → IsNew v x b r → IsNew v y b r)
      → Fits v y t q
  Fits-others v w u x y s LuaValueType.nil p q first second now keep = tt
  Fits-others v w u x y s LuaValueType.boolean p q first second now keep = tt
  Fits-others v w u x y s LuaValueType.light_user_data p q first second now keep = tt
  Fits-others v w u x y s LuaValueType.integer p q first second now keep = tt
  Fits-others v w u x y s LuaValueType.number p q first second now keep = tt
  Fits-others v w u x y s LuaValueType.vector p q first second now keep = tt
  Fits-others v w u x y s LuaValueType.other p q first second now keep = tt
  Fits-others v w u x y s LuaValueType.string p q first second now keep =
      (now.0, keep _ _ (Fits-IsOther v w u s p q first second.1) now.1)
  Fits-others v w u x y s LuaValueType.table p q first second now keep =
      (now.0, keep _ _ (Fits-IsOther v w u s p q first second.1) now.1)
  Fits-others v w u x y s LuaValueType.function p q first second now keep =
      (now.0, keep _ _ (Fits-IsOther v w u s p q first second.1) now.1)
  Fits-others v w u x y s LuaValueType.thread p q first second now keep =
      (now.0, keep _ _ (Fits-IsOther v w u s p q first second.1) now.1)
  Fits-others v w u x y s LuaValueType.user_data p q first second now keep =
      (now.0, keep _ _ (Fits-IsOther v w u s p q first second.1) now.1)
  Fits-others v w u x y s LuaValueType.buffer p q first second now keep =
      (now.0, keep _ _ (Fits-IsOther v w u s p q first second.1) now.1)
  Fits-others v w u x y s LuaValueType.error p q first second now keep =
      (now.0, keep _ _ (Fits-IsOther v w u s p q first second.1) now.1)
  Fits-others v w u x y s LuaValueType.custom_go_string p q first second now keep = absurd second
