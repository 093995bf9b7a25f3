-- ===== src/Table/Typing/Others.antt =====
-- The methods of a table that read another table: `Equals` and `SetMetatable`.
use gluau.Prelude.{ℕ, ◌≡◌, refl, none, some, Option, inl, inr, ◌⊎◌, ==-ne}
use gluau.World.{RefKind, World, Go, ◌>>=◌}
use gluau.Mluau.{Mluau, LuaResult}
use gluau.Ffi.Ownership.{read_ref-some}
use gluau.Ffi.Tables.{with_table, metatable_arg}
use gluau.Handles.{GoLuaVmWrapper, LuaTable, table_tab}
use gluau.Result.{CResult, c_result, go_result}
use gluau.Value.Typing.{IsCalm, Ensures-weaken, Has, Settled}
use gluau.Value.Typing.Keeping.{Settled-refl}
use gluau.Value.Typing.Safe.{Safe, Safe-and_then}
use gluau.Table.{inner_ptr, metatable_ptr}
use gluau.Table.Calls.{table_over}
use gluau.Table.Typing.Steps.{
  Obeys, TableAt, Results, pointer-Safe, table_not_null, with_table-Safe, obeyed, c_result-Safe,
  go_result-Safe,
}
use gluau.Table.Typing.Shapes.{Any, Whatever}
use gluau.Table.Typing.Defaults.{over, AreTablesOf}

module _ {L : Type 0} (m : Mluau L) {v : World L} (calm : IsCalm v) (l : Option GoLuaVmWrapper)
    (o : ℕ) (tb : Has v table_tab o) where
  -- The pointer of a second table, which is read without its lock.
  module _ {A : Type 0} (d : A) (l2 : Option GoLuaVmWrapper) (o2 : ℕ) (tb2 : Has v table_tab o2)
      (op : ℕ → ℕ → Go L (LuaResult A)) (obeys : (r s : ℕ) → Obeys Whatever (op r s)) where
    abbrev compares : ℕ → ℕ → Go L (CResult A)
    compares q r = with_table q d λ s. do y ← op r s; c_result d y

    pub comparing-Safe : Safe v Any (
        (do
          ptr ← inner_ptr (table_over l o)
          ptr2 ← inner_ptr (table_over l2 o2)
          res ← with_table ptr d (compares ptr2)
          go_result res)
          v)
    unfolding inner_ptr
    comparing-Safe =
        Safe-and_then v (λ p t. TableAt v p) Any _ _ (pointer-Safe calm (Settled-refl calm) o tb)
          (λ p u had at_.
            Safe-and_then v (λ q t. TableAt v q) Any _ _ (pointer-Safe calm had o2 tb2)
              (λ q t s at2.
                Safe-and_then v (Results v Any) Any _ _
                  (with_table-Safe calm s (Results v Any) p d (compares q) at_ (
                    with_table-Safe calm s (Results v Any) q d
                      (λ r. do y ← op at_.0 r; c_result d y) at2
                      (Safe-and_then v (λ y x. Unit {0}) (Results v Any) _ _
                        (obeyed calm s Whatever (op at_.0 at2.0) (obeys at_.0 at2.0))
                        (λ y x s2 h. c_result-Safe calm s2 d y))))
                  (λ y x s2 rs. go_result-Safe calm s2 Any y rs)))

  -- A metatable, or nil for none.
  module _ (op : ℕ → Option ℕ → Go L (LuaResult (Unit {0})))
      (obeys : (r : ℕ) (s : Option ℕ) → Obeys Whatever (op r s)) where
    abbrev sets : ℕ → ℕ → Go L (CResult (Unit {0}))
    sets q r = do mt ← metatable_arg m q; y ← op r mt; c_result tt y

    -- The pointer of the metatable.
    abbrev Given : ℕ → Type 0
    Given q = (q ≡ 0) ⊎ TableAt v q

    sets-Safe :
        (q r : ℕ) (t : World L) → Settled v t → Given q → Safe v (Results v Any) (sets q r t)
    sets-Safe q r t s (inl null) = rw null (
        Safe-and_then v (λ y x. Unit {0}) (Results v Any) _ _
          (obeyed calm s Whatever (op r none) (obeys r none))
          (λ y x s2 h. c_result-Safe calm s2 tt y))
    sets-Safe q r t s (inr at_) =
        rw
          (
            ==-ne q 0 (table_not_null calm s q at_),
            read_ref-some t RefKind.table q (s.keeps.boxes q _ at_.1),
          )
          (Safe-and_then v (λ y x. Unit {0}) (Results v Any) _ _
            (obeyed calm s Whatever (op r (some at_.0)) (obeys r (some at_.0)))
            (λ y x s2 h. c_result-Safe calm s2 tt y))

    metatable_ptr-Safe :
        (mt : Option LuaTable) (u : World L)
        → AreTablesOf mt v
        → Settled v u
        → Safe v (λ q t. Given q) (metatable_ptr m mt u)
    unfolding inner_ptr
    metatable_ptr-Safe none u typed had = (had, inl refl)
    metatable_ptr-Safe (some t) u (over {o = o2} machine h) had =
        Ensures-weaken (λ q x. Settled v x × TableAt v q) (λ q x. Settled v x × Given q) (Settled v)
          (Settled v) _ (pointer-Safe calm had o2 h) (λ q x a. (a.0, inr a.1)) (λ x s. s)

    pub setting-Safe :
        (mt : Option LuaTable)
        → AreTablesOf mt v
        → Safe v Any (
            (do
              ptr ← inner_ptr (table_over l o)
              ptr2 ← metatable_ptr m mt
              res ← with_table ptr tt (sets ptr2)
              go_result res)
              v)
    unfolding inner_ptr
    setting-Safe mt typed =
        Safe-and_then v (λ p t. TableAt v p) Any _ _ (pointer-Safe calm (Settled-refl calm) o tb)
          (λ p u had at_.
            Safe-and_then v (λ q t. Given q) Any _ _ (metatable_ptr-Safe mt u typed had)
              (λ q t s given.
                Safe-and_then v (Results v Any) Any _ _
                  (with_table-Safe calm s (Results v Any) p tt (sets q) at_
                    (sets-Safe q at_.0 t s given))
                  (λ y x s2 rs. go_result-Safe calm s2 Any y rs)))
