-- ===== src/Table/Typing/Shapes.antt =====
-- The bodies of the methods of a table, by what they take and give: each is safe in the world in which the
-- method holds its lock.
use gluau.Prelude.{ℕ, some, Option}
use gluau.World.{LuaValue, World, Go, ◌>>=◌}
use gluau.Mluau.{LuaResult}
use gluau.Ffi.Tables.{with_table, value_result}
use gluau.Object.{pointer_no_lock}
use gluau.Handles.{GoLuaVmWrapper, table_tab}
use gluau.Result.{CResult, c_result, go_result}
use gluau.Value.Clone.{GoLuaValue, c_nil}
use gluau.Value.Convert.{value_from_c}
use gluau.Value.Typing.{IsCalm, Ensures-weaken, Has, IsVm, IsTyped, Settled}
use gluau.Value.Typing.Keeping.{Settled-refl}
use gluau.Value.Typing.Arriving.{Arrives, Boxed, value_from_c-Arrives}
use gluau.Value.Typing.Safe.{Safe, Safe-and_then}
use gluau.Table.Typing.Steps.{
  Obeys, TableAt, Results, IsReadableResult, pointer-Safe, with_table-Safe, obeyed, c_result-Safe,
  value_result-Safe, go_result-Safe,
}

-- A result of which nothing is asked.
abbrev pub Any : {L A : Type 0} → A → World L → Type 0
Any a w = Unit

abbrev pub Whatever : {A : Type 0} → A → Type 0
Whatever a = Unit

module _ {L : Type 0} {v : World L} (calm : IsCalm v) (o : ℕ) (tb : Has v table_tab o) where
  -- The pointer is read, and Rust looks behind it.
  module _ {A B : Type 0} (P : CResult A → World L → Type 0) (Q : B → World L → Type 0) (d : A)
      (body : ℕ → Go L (CResult A)) (k : CResult A → Go L B)
      (runs : (r : ℕ) (u : World L) → Settled v u → Safe v P (body r u))
      (ends : (x : CResult A) (u : World L) → Settled v u → P x u → Safe v Q (k x u)) where
    abbrev pub asking : Go L B
    asking = do ptr ← pointer_no_lock (some o); res ← with_table ptr d body; k res

    pub asking-Safe : Safe v Q (asking v)
    asking-Safe =
        Safe-and_then v (λ p t. TableAt v p) Q _ _ (pointer-Safe calm (Settled-refl calm) o tb)
          (λ p u had at_.
            Safe-and_then v P Q _ _ (with_table-Safe calm had P p d body at_ (runs at_.0 u had))
              ends)

  module _ {A : Type 0} (d : A) (op : ℕ → Go L (LuaResult A))
      (obeys : (r : ℕ) → Obeys Whatever (op r)) where
    pub plain-Safe : Safe v Any (
        (do
          ptr ← pointer_no_lock (some o)
          res ← with_table ptr d (λ r. op r >>= c_result d)
          go_result res)
          v)
    plain-Safe =
        asking-Safe (Results v Any) Any d (λ r. op r >>= c_result d) (λ res. go_result res)
          (λ r u had.
            Safe-and_then v (λ a t. Unit {0}) (Results v Any) _ _
              (obeyed calm had Whatever (op r) (obeys r)) (λ a t s h. c_result-Safe calm s d a))
          (λ x u had rs. go_result-Safe calm had Any x rs)

  -- What comes of a value that mluau gives.
  arriving-Safe :
      (l : Option GoLuaVmWrapper) (c : GoLuaValue) (u : World L)
      → IsVm v l
      → Boxed v c u
      → Safe v (λ x t. IsTyped t x) (value_from_c l c u)
  arriving-Safe l c u vm boxed =
      Ensures-weaken (Arrives v) (λ x t. Settled v t × IsTyped t x) (λ t. ⊥) (Settled v) _
        (value_from_c-Arrives v l c u vm boxed) (λ x t a. a) (λ t bad. absurd bad)

  pub value_end-Safe :
      (l : Option GoLuaVmWrapper)
      → IsVm v l
      → (x : CResult GoLuaValue) (u : World L) → Settled v u
      → Results v (Boxed v) x u
      → Safe v (λ y t. IsTyped t y) ((do c ← go_result x; value_from_c l c) u)
  value_end-Safe l vm x u had rs =
      Safe-and_then v (Boxed v) (λ y t. IsTyped t y) _ _ (go_result-Safe calm had (Boxed v) x rs)
        (λ c t s boxed. arriving-Safe l c t vm boxed)

  module _ (l : Option GoLuaVmWrapper) (vm : IsVm v l) (op : ℕ → Go L (LuaResult LuaValue))
      (obeys : (r : ℕ) → Obeys IsReadableResult (op r)) where
    pub value-Safe :
        Safe v
          (λ x t. IsTyped t x)
          ((do
            ptr ← pointer_no_lock (some o)
            res ← with_table ptr c_nil (λ r. op r >>= value_result)
            c ← go_result res
            value_from_c l c)
            v)
    value-Safe =
        asking-Safe (Results v (Boxed v)) (λ x t. IsTyped t x) c_nil (λ r. op r >>= value_result)
          (λ res. do c ← go_result res; value_from_c l c)
          (λ r u had.
            Safe-and_then v (λ a t. IsReadableResult a) (Results v (Boxed v)) _ _
              (obeyed calm had IsReadableResult (op r) (obeys r))
              (λ a t s h. value_result-Safe calm s a h))
          (value_end-Safe l vm)
