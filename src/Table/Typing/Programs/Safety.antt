-- ===== src/Table/Typing/Programs/Safety.antt =====
-- The type safety of programs, by cases on their actions.
use gluau.Prelude.{
  ℕ, ◌≡◌, ◌≢◌, ◌∙◌, refl, sym, subst, Option, none, some, List, [], ◌∷◌, inl, inr, Bool-cases,
}
use gluau.World.{World, returned}
use gluau.Mluau.{Mluau}
use gluau.Handles.{GoLuaVmWrapper, LuaTable, lua_vm_tab}
use gluau.Object.Lifetime.{IsQuiet}
use gluau.Value.Types.{Value}
use gluau.Value.Typing.{
  IsCalm, Ensures, Ensures-and_then, Ensures-on_error, Ensures-returned, Ensures-weaken, Has,
  IsPlain, wrapping, IsTyped, plain, cloned, error, thread, buffer, Settled,
}
use gluau.Value.Cloning
use gluau.Value.Typing
use gluau.Value.Typing.Runs
use gluau.Value.Typing.Closed.{Keeps-Stays, Keeps-IsQuiet}
use gluau.Value.Typing.Runs.{
  Step, IsLegal, nth, nth-IsTyped, some-inj, run_step, AreTyped, AreTyped-Stays, run_step-Stands,
}
use gluau.Value.Typing.Sent.{is_table}
use gluau.Table.Calls.{Call, Answer, nothing, flag, count, value, table, bytes, perform}
use gluau.Table.Typing.Steps.{IsArgument}
use gluau.Table.Typing.Defaults.{IsTableOf, over, AreTablesOf}
use gluau.Table.Typing.Methods.{perform-typed}
use gluau.Table.Typing.Obedient.{IsObedient, IsTypedCall, IsTypedAnswer}
use gluau.Table.Typing.Programs.{
  Request, no_table, pick, table_of, table_in, with_other, resolve, keep, Action, step, call,
  IsAllowed, AreAllowed, call_on, run_action, run_actions,
}

plain-table_of : (v : Value) → IsPlain v → table_of v ≡ none
plain-table_of (Value.table t) h = absurd h
plain-table_of _ h = refl

some-ne : {A : Type 0} {a : A} → ◌≢◌ {A = Option A} none (some a)
some-ne e = cc

module _ {L : Type 0} {w : World L} where
  table_of-IsTableOf :
      (v : Value) {t : LuaTable} → IsTyped w v → table_of v ≡ some t → IsTableOf w t
  table_of-IsTableOf v (plain h) e = absurd (some-ne (sym (plain-table_of v h) ∙ e))
  table_of-IsTableOf v (cloned Cloning.strings f h) e = absurd cc
  table_of-IsTableOf v (cloned Cloning.functions f h) e = absurd cc
  table_of-IsTableOf v (cloned Cloning.userdata f h) e = absurd cc
  table_of-IsTableOf v (Typing.table vm h) e = subst (IsTableOf w) (some-inj e) (over vm h)
  table_of-IsTableOf v (error h) e = absurd cc
  table_of-IsTableOf v (thread h) e = absurd cc
  table_of-IsTableOf v (buffer h) e = absurd cc

  found_table :
      (o : Option Value) {t : LuaTable}
      → ((v : Value) → o ≡ some v → IsTyped w v)
      → elim o [ none ↦ none | some v ↦ table_of v ] ≡ some t
      → IsTableOf w t
  found_table none typed e = absurd cc
  found_table (some v) typed e = table_of-IsTableOf v (typed v refl) e

  found-IsArgument :
      (o : Option Value) → ((v : Value) → o ≡ some v → IsTyped w v) → IsArgument w (no_table o)
  found-IsArgument none typed = tt
  found-IsArgument (some v) typed = elim (Bool-cases (is_table v)) [
    | inl t ↦ rw t tt
    | inr f ↦ rw f (typed v refl, f)
  ]

  table_in-AreTablesOf :
      (o : Option LuaTable) → ((t : LuaTable) → o ≡ some t → IsTableOf w t) → AreTablesOf o w
  table_in-AreTablesOf none typed = tt
  table_in-AreTablesOf (some t) typed = typed t refl

  equals-IsTypedCall :
      (o : Option LuaTable) {c : Call}
      → ((t : LuaTable) → o ≡ some t → IsTableOf w t)
      → with_other o ≡ some c
      → IsTypedCall w c
  equals-IsTypedCall none typed e = absurd cc
  equals-IsTypedCall (some t) typed e = subst (IsTypedCall w) (some-inj e) (typed t refl)

module _ {L : Type 0} (w : World L) where
  keep-AreTyped :
      (a : Answer) (vs : List Value) → IsTypedAnswer a w → AreTyped w vs → AreTyped w (keep a vs)
  keep-AreTyped nothing vs h typed = typed
  keep-AreTyped (flag b) vs h typed = typed
  keep-AreTyped (count n) vs h typed = typed
  keep-AreTyped (value v) vs h typed = (h, typed)
  keep-AreTyped (table none) vs h typed = typed
  keep-AreTyped (table (some t)) vs (over vm h) typed = (Typing.table vm h, typed)
  keep-AreTyped (bytes s) vs h typed = typed

module _ {L : Type 0} (w : World L) (vs : List Value) (typed : AreTyped w vs) where
  pick-IsArgument : (n : ℕ) → IsArgument w (pick vs n)
  pick-IsArgument n = found-IsArgument (nth vs n) λ v e. nth-IsTyped vs n typed e

  table_in-IsTableOf : (n : ℕ) (t : LuaTable) → table_in vs n ≡ some t → IsTableOf w t
  table_in-IsTableOf n t e = found_table (nth vs n) (λ v h. nth-IsTyped vs n typed h) e

  resolve-IsTypedCall : (r : Request) {c : Call} → resolve vs r ≡ some c → IsTypedCall w c
  resolve-IsTypedCall Request.clear e = subst (IsTypedCall w) (some-inj e) tt
  resolve-IsTypedCall (Request.contains_key k) e =
      subst (IsTypedCall w) (some-inj e) (pick-IsArgument k)
  resolve-IsTypedCall (Request.equals k) e =
      equals-IsTypedCall (table_in vs k) (table_in-IsTableOf k) e
  resolve-IsTypedCall (Request.get k) e = subst (IsTypedCall w) (some-inj e) (pick-IsArgument k)
  resolve-IsTypedCall Request.is_empty e = subst (IsTypedCall w) (some-inj e) tt
  resolve-IsTypedCall Request.is_readonly e = subst (IsTypedCall w) (some-inj e) tt
  resolve-IsTypedCall Request.len e = subst (IsTypedCall w) (some-inj e) tt
  resolve-IsTypedCall Request.metatable e = subst (IsTypedCall w) (some-inj e) tt
  resolve-IsTypedCall Request.pop e = subst (IsTypedCall w) (some-inj e) tt
  resolve-IsTypedCall (Request.push k) e = subst (IsTypedCall w) (some-inj e) (pick-IsArgument k)
  resolve-IsTypedCall (Request.raw_get k) e = subst (IsTypedCall w) (some-inj e) (pick-IsArgument k)
  resolve-IsTypedCall (Request.raw_insert i k) e =
      subst (IsTypedCall w) (some-inj e) (pick-IsArgument k)
  resolve-IsTypedCall Request.raw_len e = subst (IsTypedCall w) (some-inj e) tt
  resolve-IsTypedCall Request.raw_pop e = subst (IsTypedCall w) (some-inj e) tt
  resolve-IsTypedCall (Request.raw_push k) e =
      subst (IsTypedCall w) (some-inj e) (pick-IsArgument k)
  resolve-IsTypedCall (Request.raw_remove k) e =
      subst (IsTypedCall w) (some-inj e) (pick-IsArgument k)
  resolve-IsTypedCall (Request.raw_set k x) e =
      subst (IsTypedCall w) (some-inj e) (pick-IsArgument k, pick-IsArgument x)
  resolve-IsTypedCall (Request.set k x) e =
      subst (IsTypedCall w) (some-inj e) (pick-IsArgument k, pick-IsArgument x)
  resolve-IsTypedCall (Request.set_metatable k) e =
      subst (IsTypedCall w) (some-inj e)
        (table_in-AreTablesOf (table_in vs k) (table_in-IsTableOf k))
  resolve-IsTypedCall (Request.set_readonly b) e = subst (IsTypedCall w) (some-inj e) tt
  resolve-IsTypedCall (Request.set_safe_env b) e = subst (IsTypedCall w) (some-inj e) tt
  resolve-IsTypedCall Request.pointer e = subst (IsTypedCall w) (some-inj e) tt
  resolve-IsTypedCall Request.to_string e = subst (IsTypedCall w) (some-inj e) tt

module _ {L : Type 0} (m : Mluau L) (obedient : IsObedient m) (i : ℕ) where
  abbrev pub wrapper : Option GoLuaVmWrapper
  wrapper = some (record { obj = some i })

  -- A calm and quiet world in which the values of the program are typed.
  abbrev Stands : List Value → World L → Type 0
  Stands = Runs.Stands m obedient.strings i

  module _ {w : World L} (vs : List Value) (stands : Stands vs w) where
    kept : (us : List Value) (u : World L) → Settled w u → AreTyped u us → Stands us u
    kept us u s typed =
        (s.calm, Keeps-IsQuiet s.keeps stands.1, (Keeps-Stays s.keeps).objects _ _ stands.2, typed)

    as_before : (u : World L) → Settled w u → Stands vs u
    as_before u s = kept vs u s (AreTyped-Stays vs (Keeps-Stays s.keeps) stands.3)

    call_on-Stands :
        (t : Option LuaTable) (c : Option Call)
        → ((x : LuaTable) → t ≡ some x → IsTableOf w x)
        → ((d : Call) → c ≡ some d → IsTypedCall w d)
        → Ensures Stands (λ u. ⊥) (call_on m wrapper t c vs w)
    unfolding call_on
    call_on-Stands none c t_typed c_typed = stands
    call_on-Stands (some t) none t_typed c_typed = stands
    call_on-Stands (some t) (some c) t_typed c_typed =
        Ensures-on_error Stands (Settled w) (λ u. ⊥) _ _
          (Ensures-and_then (λ a u. Settled w u × IsTypedAnswer a u) Stands (Settled w) _ _
            (on_table t (t_typed t refl) c (c_typed c refl))
            (λ a u h.
              kept (keep a vs) u h.0
                (keep-AreTyped u a vs h.1 (AreTyped-Stays vs (Keeps-Stays h.0.keeps) stands.3))))
          (λ e u s. as_before u s)
      where
        on_table :
            (x : LuaTable)
            → IsTableOf w x
            → (d : Call) → IsTypedCall w d
            → Ensures (λ a u. Settled w u × IsTypedAnswer a u) (Settled w) (perform m x d w)
        on_table x (over (wrapping {i = j} h) tb) d h2 =
            perform-typed m obedient stands.0 j h _ tb d h2

    run_action-Stands :
        (a : Action) → IsAllowed a → Ensures Stands (λ u. ⊥) (run_action m wrapper a vs w)
    unfolding run_action
    run_action-Stands (step s) allowed =
        run_step-Stands m obedient.strings i stands.0 stands.1 stands.2 vs stands.3 s allowed
    run_action-Stands (call k r) allowed =
        call_on-Stands (table_in vs k) (resolve vs r) (table_in-IsTableOf w vs stands.3 k)
          (λ c e. resolve-IsTypedCall w vs stands.3 r e)

  run_actions-Stands :
      (as_ : List Action) {w : World L} (vs : List Value)
      → AreAllowed as_
      → Stands vs w
      → Ensures Stands (λ u. ⊥) (run_actions m wrapper as_ vs w)
  unfolding run_actions
  run_actions-Stands [] vs allowed stands = stands
  run_actions-Stands (a ∷ as_) vs allowed stands =
      Ensures-and_then Stands Stands (λ u. ⊥) _ _ (run_action-Stands vs stands a allowed.0)
        (λ us u now. run_actions-Stands as_ us allowed.1 now)

  -- A program receives Lua values (all but light userdata), makes plain values, sends those of its values
  -- that are no tables, calls any method of its tables but ForEach and ForEachValue, with such values and
  -- with other tables, closes values, repeatedly too, and may close the virtual machine, in any order;
  -- it goes on after an error. From a calm, quiet world in which its values are typed, and with a mluau
  -- that keeps what is in the world and hands out no light userdata, the run returns: it does not panic, wait for a lock, or read or free a box that is gone or of
  -- another kind. At its end the world is calm, every lock is free, and its values, with those that the
  -- methods gave it, are typed.
  pub run_actions-typed :
      (as_ : List Action) {w : World L} (vs : List Value)
      → AreAllowed as_
      → IsCalm w
      → IsQuiet w
      → Has w lua_vm_tab i
      → AreTyped w vs
      → (us : List Value) × (u : World L) × (run_actions m wrapper as_ vs w ≡ returned us u)
        × IsCalm u
        × IsQuiet u
        × AreTyped u us
  run_actions-typed as_ {w} vs allowed calm quiet vm typed =
      let (us, u, run, stands) =
        Ensures-returned Stands (run_actions m wrapper as_ vs w)
          (run_actions-Stands as_ vs allowed (calm, quiet, vm, typed)) in
      (us, u, run, stands.0, stands.1, stands.3)
