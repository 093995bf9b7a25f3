-- ===== src/Table/Typing/Arguments.antt =====
-- The methods of a table that hand one or two values over to Rust.
use gluau.Prelude.{ℕ, some, Option}
use gluau.World.{LuaValue, World, Go, ◌>>=◌}
use gluau.Mluau.{Mluau, LuaResult}
use gluau.Ffi.Tables.{with_table, value_result}
use gluau.Object.{pointer_no_lock}
use gluau.Handles.{GoLuaVmWrapper, table_tab, lua_vm_tab}
use gluau.Result.{CResult, c_result, go_result}
use gluau.Value.Types.{Value}
use gluau.Value.Clone.{GoLuaValue, c_nil, to_value_from_owned}
use gluau.Value.Convert.{value_to_c, value_from_c}
use gluau.Value.Typing.{IsCalm, Has, wrapping, IsTyped, Fits, Settled}
use gluau.Value.Typing.Keeping.{Settled-refl}
use gluau.Value.Typing.Arriving.{Boxed}
use gluau.Value.Typing.Made.{MakesStrings}
use gluau.Value.Typing.Safe.{Safe, Safe-and_then, Safe-since}
use gluau.Value.Typing.Waiting.{Fits-Keeps, Fits-since, Fits-others}
use gluau.Table.Typing.Steps.{
  Obeys, TableAt, IsArgument, Results, IsReadableResult, Others, pointer-Safe, with_table-Safe,
  obeyed, c_result-Safe, value_result-Safe, go_result-Safe, take-Safe, argument-Safe,
}
use gluau.Table.Typing.Shapes.{Any, Whatever, value_end-Safe}

module _ {L : Type 0} (m : Mluau L) (makes : MakesStrings m) {v : World L} (calm : IsCalm v) (i : ℕ)
    (vm : Has v lua_vm_tab i) (o : ℕ) (tb : Has v table_tab o) where
  abbrev wrapper : Option GoLuaVmWrapper
  wrapper = some (record { obj = some i })

  -- The C value of the argument waits.
  abbrev Waits : GoLuaValue → World L → Type 0
  Waits c t = Fits v t c.tag c.payload.lo

  first-Safe :
      (x : Option Value) (u : World L)
      → IsArgument v x
      → Settled v u
      → Safe v Waits (value_to_c m wrapper x u)
  first-Safe x u arg had =
      Safe-since (λ c t. Fits u t c.tag c.payload.lo) Waits _ had
        (argument-Safe calm had m makes vm x arg)
        (λ c t s fits. Fits-since v u t c.tag c.payload.lo had.keeps fits)

  module _ {A B : Type 0} (P : CResult A → World L → Type 0) (Q : B → World L → Type 0) (d : A)
      (x : Option Value) (arg : IsArgument v x) (body : ℕ → LuaValue → Go L (CResult A))
      (k : CResult A → Go L B)
      (runs : (r : ℕ) (a : LuaValue) (u : World L) → Settled v u → Safe v P (body r a u))
      (ends : (y : CResult A) (u : World L) → Settled v u → P y u → Safe v Q (k y u)) where
    pub handing-Safe : Safe v Q (
        (do
          ptr ← pointer_no_lock (some o)
          c ← value_to_c m wrapper x
          res ← with_table ptr d (λ r. do a ← to_value_from_owned m c; body r a)
          k res)
          v)
    handing-Safe =
        Safe-and_then v (λ p t. TableAt v p) Q _ _ (pointer-Safe calm (Settled-refl calm) o tb)
          (λ p u had at_. Safe-and_then v Waits Q _ _ (first-Safe x u arg had) (λ c t s waits.
            Safe-and_then v P Q _ _
              (with_table-Safe calm s P p d (λ r. do a ← to_value_from_owned m c; body r a) at_
                (Safe-and_then v (λ a y. Others calm s c y) P _ _ (take-Safe calm s m c waits)
                  (λ a y left others. runs at_.0 a y left)))
              ends))

  module _ {A : Type 0} (d : A) (x : Option Value) (arg : IsArgument v x)
      (op : ℕ → LuaValue → Go L (LuaResult A))
      (obeys : (r : ℕ) (a : LuaValue) → Obeys Whatever (op r a)) where
    pub plain_handing-Safe : Safe v Any (
        (do
          ptr ← pointer_no_lock (some o)
          c ← value_to_c m wrapper x
          res ← with_table ptr d (λ r. do a ← to_value_from_owned m c; y ← op r a; c_result d y)
          go_result res)
          v)
    plain_handing-Safe =
        handing-Safe (Results v Any) Any d x arg (λ r a. do y ← op r a; c_result d y)
          (λ res. go_result res)
          (λ r a u had.
            Safe-and_then v (λ y t. Unit {0}) (Results v Any) _ _
              (obeyed calm had Whatever (op r a) (obeys r a)) (λ y t s h. c_result-Safe calm s d y))
          (λ y u had rs. go_result-Safe calm had Any y rs)

  module _ (x : Option Value) (arg : IsArgument v x) (op : ℕ → LuaValue → Go L (LuaResult LuaValue))
      (obeys : (r : ℕ) (a : LuaValue) → Obeys IsReadableResult (op r a)) where
    pub value_handing-Safe :
        Safe v
          (λ y t. IsTyped t y)
          ((do
            ptr ← pointer_no_lock (some o)
            c ← value_to_c m wrapper x
            res ←
                with_table ptr c_nil
                  (λ r. do a ← to_value_from_owned m c; y ← op r a; value_result y)
            z ← go_result res
            value_from_c wrapper z)
            v)
    value_handing-Safe =
        handing-Safe (Results v (Boxed v)) (λ y t. IsTyped t y) c_nil x arg
          (λ r a. do y ← op r a; value_result y)
          (λ res. do z ← go_result res; value_from_c wrapper z)
          (λ r a u had.
            Safe-and_then v (λ y t. IsReadableResult y) (Results v (Boxed v)) _ _
              (obeyed calm had IsReadableResult (op r a) (obeys r a))
              (λ y t s h. value_result-Safe calm s y h))
          (value_end-Safe calm o tb wrapper (wrapping vm))

  -- Two C values, the second made after the first.
  abbrev Both : World L → GoLuaValue → GoLuaValue → World L → Type 0
  Both u c e t = Fits v t c.tag c.payload.lo × Fits u t e.tag e.payload.lo

  second-Safe :
      (x : Option Value) (c : GoLuaValue) (u : World L)
      → IsArgument v x
      → Settled v u
      → Waits c u
      → Safe v (Both u c) (value_to_c m wrapper x u)
  second-Safe x c u arg had waits =
      Safe-since (λ e t. Fits u t e.tag e.payload.lo) (Both u c) _ had
        (argument-Safe calm had m makes vm x arg)
        (λ e t s fits. (Fits-Keeps v u t c.tag c.payload.lo s.keeps waits, fits))

  module _ (x y : Option Value) (arg : IsArgument v x) (arg2 : IsArgument v y)
      (op : ℕ → LuaValue → LuaValue → Go L (LuaResult (Unit {0})))
      (obeys : (r : ℕ) (a b : LuaValue) → Obeys Whatever (op r a b)) where
    abbrev writes : GoLuaValue → GoLuaValue → ℕ → Go L (CResult (Unit {0}))
    writes c e r = do
      a ← to_value_from_owned m c
      b ← to_value_from_owned m e
      z ← op r a b
      c_result tt z

    writes-Safe :
        (c e : GoLuaValue) (r : ℕ) (u t : World L)
        → Settled v u
        → Waits c u
        → Settled v t
        → Both u c e t
        → Safe v (Results v Any) (writes c e r t)
    writes-Safe c e r u t before waits had both =
        Safe-and_then v (λ a s. Others calm had c s) (Results v Any) _ _
          (take-Safe calm had m c both.0)
          (λ a s left others.
            Safe-and_then v (λ b z. Others calm left e z) (Results v Any) _ _
              (take-Safe calm left m e (
                Fits-others v u t t s c.tag e.tag c.payload.lo e.payload.lo waits both.1
                  (Fits-since v u t e.tag e.payload.lo before.keeps both.1) others))
              (λ b z left2 others2.
                Safe-and_then v (λ q w. Unit {0}) (Results v Any) _ _
                  (obeyed calm left2 Whatever (op r a b) (obeys r a b))
                  (λ q w s2 h. c_result-Safe calm s2 tt q)))

    pub writing-Safe : Safe v Any (
        (do
          ptr ← pointer_no_lock (some o)
          c ← value_to_c m wrapper x
          e ← value_to_c m wrapper y
          res ← with_table ptr tt (writes c e)
          go_result res)
          v)
    writing-Safe =
        Safe-and_then v (λ p t. TableAt v p) Any _ _ (pointer-Safe calm (Settled-refl calm) o tb)
          (λ p u had at_. Safe-and_then v Waits Any _ _ (first-Safe x u arg had) (λ c t s waits.
            Safe-and_then v (Both t c) Any _ _ (second-Safe y c t arg2 s waits) (λ e z s2 both.
              Safe-and_then v (Results v Any) Any _ _
                (with_table-Safe calm s2 (Results v Any) p tt (writes c e) at_
                  (writes-Safe c e at_.0 t z s waits s2 both))
                (λ q w s3 rs. go_result-Safe calm s3 Any q rs))))
