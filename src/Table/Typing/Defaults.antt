-- ===== src/Table/Typing/Defaults.antt =====
-- The methods of a table that return a fixed answer on a closed one, and those that read another table.
use gluau.Prelude.{
  ℕ, ◌≡◌, refl, none, some, Option, Bytes, inl, inr, ◌⊎◌, [], ◌==◌, ==-ne, if◌then◌else◌,
}
use gluau.World.{
  RefKind, free_table, ref_box, error_text, World, Run, returned, failed, panicked, undefined,
  blocked, Go, pure, ◌>>=◌, alloc,
}
use gluau.Mluau.{Mluau}
use gluau.Ffi.Boxes.{read_ref, c_string}
use gluau.Ffi.Ownership.{read_ref-some, load-some, release-some}
use gluau.Ffi.Tables.{box_metatable}
use gluau.Object.{unless_closed}
use gluau.Object.Sound.{new_object-some}
use gluau.Handles.{GoLuaVmWrapper, LuaTable, table_tab}
use gluau.Result.{move_error_to_go}
use gluau.Value.Typing.{IsCalm, Has, IsVm, IsNew, Settled}
use gluau.Value.Typing.Keeping.{
  not_null, Settled-refl, Settled-trans, IsNew-since, with_box-Settled, with_box-IsNew,
  without-Settled, adopting-Settled, adopting-Has, IsVm-Keeps,
}
use gluau.Value.Typing.Safe.{Safe, Safe-and_then}
use gluau.Table.{inner_ptr, or_default, metatable_of}
use gluau.Table.Calls.{table_over}
use gluau.Table.Typing.Steps.{Obeys, TableAt, pointer-Safe, table_not_null, obeyed}
use gluau.Table.Typing.Shapes.{Any, Whatever}

-- A table whose object was made as one.
pub data IsTableOf {L : Type 0} (w : World L) : LuaTable → Type 0 where
  over :
      {o : ℕ} {l : Option GoLuaVmWrapper}
      → IsVm w l
      → Has w table_tab o
      → IsTableOf w (table_over l o)

abbrev pub AreTablesOf : {L : Type 0} → Option LuaTable → World L → Type 0
AreTablesOf none w = Unit
AreTablesOf (some t) w = IsTableOf w t

module _ {L A : Type 0} (v : World L) (Q : A → World L → Type 0) (d : A) (body : ℕ → Go L A) where
  unless_closed-Safe :
      (r : Run L ℕ)
      → Safe v (λ p t. TableAt v p) r
      → ((w : World L) → Q d w)
      → ((p : ℕ) (w : World L) → Settled v w → TableAt v p → Safe v Q (body p w))
      → Safe v Q (unless_closed r d body)
  unless_closed-Safe (returned p w) had fixed runs = runs p w had.0 had.1
  unless_closed-Safe (failed e w) had fixed runs = (had, fixed w)
  unless_closed-Safe (panicked e w) had fixed runs = absurd had
  unless_closed-Safe undefined had fixed runs = absurd had
  unless_closed-Safe blocked had fixed runs = absurd had

module _ {L : Type 0} (m : Mluau L) {v : World L} (calm : IsCalm v) (l : Option GoLuaVmWrapper)
    (o : ℕ) (tb : Has v table_tab o) where
  looking :
      {A : Type 0} (Q : A → World L → Type 0) (d : A) (op : ℕ → Go L A) (p : ℕ) (w : World L)
      → Settled v w
      → (at_ : TableAt v p) → Safe v Q (op at_.0 w)
      → Safe v Q ((if p == 0 then pure d else read_ref RefKind.table p >>= op) w)
  looking Q d op p w had at_ safe =
      rw
        (
          ==-ne p 0 (table_not_null calm had p at_),
          read_ref-some w RefKind.table p (had.keeps.boxes p _ at_.1),
        )
        safe

  -- `d` on a closed table, else what mluau says.
  pub defaulting-Safe :
      {A : Type 0} (d e : A) (op : ℕ → Go L A)
      → ((r : ℕ) → Obeys Whatever (op r))
      → Safe v Any (
          or_default
            (table_over l o)
            d
            (λ p. if p == 0 then pure e else read_ref RefKind.table p >>= op)
            v)
  unfolding inner_ptr
  defaulting-Safe d e op obeys =
      unless_closed-Safe v Any d _ _ (pointer-Safe calm (Settled-refl calm) o tb) (λ w. tt)
        (λ p w had at_.
          looking Any e op p w had at_ (obeyed calm had Whatever (op at_.0) (obeys at_.0)))

  -- A box for the metatable, or null.
  abbrev Metatable : ℕ → World L → Type 0
  Metatable q t = (q ≡ 0) ⊎ ((r : ℕ) × IsNew v t (ref_box RefKind.table r) q)

  box_metatable-Safe :
      (mt : Option ℕ) (w : World L) → Settled v w → Safe v Metatable (box_metatable m mt w)
  unfolding alloc
  box_metatable-Safe none w had = (had, inl refl)
  box_metatable-Safe (some r) w had = (
    Settled-trans had (with_box-Settled had.calm (ref_box RefKind.table r)),
    inr (r, IsNew-since had.keeps (with_box-IsNew had.calm (ref_box RefKind.table r))),
  )

  metatable_of-Safe :
      (q : ℕ) (w : World L)
      → IsVm v l
      → Settled v w
      → Metatable q w
      → Safe v AreTablesOf (metatable_of m (table_over l o) q w)
  metatable_of-Safe q w vm had (inl null) = rw null (had, tt)
  metatable_of-Safe q w vm had (inr (r, new)) =
      rw (==-ne q 0 (not_null had new), new_object-some w q table_tab (not_null had new))
        (
          adopting-Settled had new free_table refl,
          over (IsVm-Keeps (adopting-Settled had new free_table refl).keeps vm)
              (adopting-Has had new free_table),
        )

  pub metatable-Safe :
      IsVm v l
      → (op : ℕ → Go L (Option ℕ)) → ((r : ℕ) → Obeys Whatever (op r))
      → Safe v AreTablesOf (
          or_default
            (table_over l o)
            none
            (λ p.
              (if p == 0
                then pure 0
                else (read_ref RefKind.table p >>= λ t. do mt ← op t; box_metatable m mt))
              >>= metatable_of m (table_over l o))
            v)
  unfolding inner_ptr
  metatable-Safe vm op obeys =
      unless_closed-Safe v AreTablesOf none _ _ (pointer-Safe calm (Settled-refl calm) o tb)
        (λ w. tt)
        (λ p w had at_.
          Safe-and_then v Metatable AreTablesOf _ _
            (looking Metatable 0 (λ t. do mt ← op t; box_metatable m mt) p w had at_
              (Safe-and_then v (λ a t. Unit {0}) Metatable _ _
                (obeyed calm had Whatever (op at_.0) (obeys at_.0))
                (λ mt t s h. box_metatable-Safe mt t s)))
            (λ q t s new. metatable_of-Safe q t vm s new))

  -- The text of a table comes in a box that Go frees.
  abbrev Text : ℕ → World L → Type 0
  Text q t = (e : Bytes) × IsNew v t (error_text e) q

  move-Safe : (q : ℕ) (w : World L) → Settled v w → Text q w → Safe v Any (move_error_to_go q w)
  unfolding move_error_to_go
  move-Safe q w had (e, new) =
      rw (==-ne q 0 (not_null had new), load-some w q new.there, release-some w q new.there)
        (without-Settled had new, tt)

  pub debug-Safe :
      (op : ℕ → Go L Bytes)
      → ((r : ℕ) → Obeys Whatever (op r))
      → Safe v Any (
          or_default
            (table_over l o)
            []
            (λ p.
              (if p == 0
                then pure 0
                else (read_ref RefKind.table p >>= λ t. do
                  s ← op t
                  alloc (error_text (c_string s))))
              >>= move_error_to_go)
            v)
  unfolding inner_ptr alloc
  debug-Safe op obeys =
      unless_closed-Safe v Any [] _ _ (pointer-Safe calm (Settled-refl calm) o tb) (λ w. tt)
        (λ p w had at_.
          Safe-and_then v Text Any _ _
            (looking Text 0 (λ t. do s ← op t; alloc (error_text (c_string s))) p w had at_
              (Safe-and_then v (λ a t. Unit {0}) Text _ _
                (obeyed calm had Whatever (op at_.0) (obeys at_.0))
                (λ x t s h. (
                  Settled-trans s (with_box-Settled s.calm (error_text (c_string x))),
                  (
                    c_string x,
                    IsNew-since s.keeps (with_box-IsNew s.calm (error_text (c_string x))),
                  ),
                ))))
            (λ q t s new. move-Safe q t s new))
