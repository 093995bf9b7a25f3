-- ===== src/Table/Typing/Steps.antt =====
-- The steps that the methods of a table are made of: reading its pointer, converting an argument, taking
-- it over, calling mluau, and handing the result or the error back. Each keeps what was in the world `v`
-- in which the method began.
use gluau.Prelude.{
  ℕ, ◌≡◌, ◌≢◌, refl, none, some, Option, Bytes, false, inl, inr, ◌⊎◌, ◌==◌, ==-eq, ==-ne,
  Bool-cases, arith,
}
use gluau.World.{RefKind, LuaValue, Box, ref_box, error_text, World, Go}
use gluau.Mluau.{Mluau, LuaResult, ok, err}
use gluau.Ffi.Ownership.{read_ref-some}
use gluau.Ffi.Tables.{with_table, value_result}
use gluau.Object.{pointer_no_lock}
use gluau.Handles.{table_tab, lua_vm_tab}
use gluau.Result.{CResult, without_nul, c_result, go_result}
use gluau.Result.Errors.{c_result-err, go_result-error}
use gluau.Value.Types.{Value}
use gluau.Value.Clone.{GoLuaValue, c_nil, to_value_from_owned}
use gluau.Value.Convert.{value_to_c}
use gluau.Value.Cloning.{pointer_no_lock-open}
use gluau.Value.Refused.{pointer_no_lock-closed}
use gluau.Value.Typing.{IsCalm, Ensures-weaken, Has, IsTyped, IsNew, Fits, Settled, Handed}
use gluau.Value.Typing.Boxes.{Has-table}
use gluau.Value.Typing.Keeping.{
  not_null, Settled-refl, Settled-trans, IsTyped-Keeps, IsNew-since, with_box-Settled,
  with_box-IsNew, without-Settled,
}
use gluau.Value.Typing.Arriving.{IsReadable, Boxed, from_owned-Boxed}
use gluau.Value.Typing.Made.{MakesStrings}
use gluau.Value.Typing.Sent.{is_table, value_to_c-Handed}
use gluau.Value.Typing.Safe.{Safe, Safe-and_then, Safe-since}
use gluau.Value.Typing.Taken.{IsOther, to_value_from_owned-Settled}
use gluau.Value.Typing.Waiting.{Fits-since}

-- An action of mluau that keeps what is in any calm world, whatever Go code it calls back.
abbrev pub Obeys : {L A : Type 0} → (A → Type 0) → Go L A → Type 0
Obeys {L} P op = (u : World L) → IsCalm u → Safe u (λ a x. P a) (op u)

-- There is a table behind the pointer.
abbrev pub TableAt : {L : Type 0} → World L → ℕ → Type 0
TableAt v p = (r : ℕ) × (v.boxes p ≡ some (ref_box RefKind.table r))

-- An argument: a typed value that is no table. A nil one is refused.
abbrev pub IsArgument : {L : Type 0} → World L → Option Value → Type 0
IsArgument w none = Unit
IsArgument w (some x) = IsTyped w x × (is_table x ≡ false)

-- The result of a call of the C interface: a value with `Q`, or an error text that waits to be freed.
abbrev pub Results :
    {L A : Type 0} → World L → (A → World L → Type 0) → CResult A → World L → Type 0
Results v Q r u = ((r.error ≡ 0) × Q r.value u) ⊎ ((e : Bytes) × IsNew v u (error_text e) r.error)

abbrev pub IsReadableResult : LuaResult LuaValue → Type 0
IsReadableResult (ok x) = IsReadable x
IsReadableResult (err e) = Unit

module _ {L : Type 0} {v : World L} (calm : IsCalm v) where
  module _ {u : World L} (had : Settled v u) where
    -- The pointer of an object that was there at the beginning, or the error of a closed one.
    pub pointer-Safe :
        (o : ℕ) → Has v table_tab o → Safe v (λ p t. TableAt v p) (pointer_no_lock (some o) u)
    pointer-Safe o h = elim (Bool-cases (h.object.ptr == 0)) [
      | inl gone ↦
          rw
            (pointer_no_lock-closed o u (had.keeps.objects o h.object h.there)
              (==-eq h.object.ptr 0 gone))
            had
      | inr more ↦
          let ne : h.object.ptr ≢ 0 = ground arith in
          rw (pointer_no_lock-open o u (had.keeps.objects o h.object h.there) ne)
            (had, Has-table calm.sound h ne)
    ]

    pub table_not_null : (p : ℕ) → TableAt v p → p ≢ 0
    table_not_null p at_ = ground (arith, calm.sound.null, at_.1)

    pub with_table-Safe :
        {A : Type 0} (Q : CResult A → World L → Type 0) (p : ℕ) (d : A)
        (body : ℕ → Go L (CResult A))
        → (at_ : TableAt v p) → Safe v Q (body at_.0 u)
        → Safe v Q (with_table p d body u)
    with_table-Safe Q p d body at_ safe =
        rw
          (
            ==-ne p 0 (table_not_null p at_),
            read_ref-some u RefKind.table p (had.keeps.boxes p _ at_.1),
          )
          safe

    pub obeyed :
        {A : Type 0} (P : A → Type 0) (op : Go L A) → Obeys P op → Safe v (λ a t. P a) (op u)
    obeyed P op obeys =
        Safe-since (λ a t. P a) (λ a t. P a) (op u) had (obeys u had.calm) (λ a t s h. h)

    -- An error text of mluau is boxed.
    errored :
        {A : Type 0} (Q : A → World L → Type 0) (d : A) (e : Bytes)
        → Safe v (Results v Q) (c_result d (err e) u)
    errored Q d e = rw (c_result-err d e u) (
      Settled-trans had (with_box-Settled had.calm (error_text (without_nul e))),
      inr (
        without_nul e,
        IsNew-since had.keeps (with_box-IsNew had.calm (error_text (without_nul e))),
      ),
    )

    pub c_result-Safe :
        {A : Type 0} (d : A) (r : LuaResult A)
        → Safe v (Results v (λ a t. Unit {0})) (c_result d r u)
    unfolding c_result
    c_result-Safe d (ok a) = (had, inl (refl, tt))
    c_result-Safe d (err e) = errored (λ a t. Unit {0}) d e

    pub value_result-Safe :
        (r : LuaResult LuaValue)
        → IsReadableResult r
        → Safe v (Results v (Boxed v)) (value_result r u)
    unfolding value_result c_result
    value_result-Safe (ok x) readable =
        Safe-and_then v (Boxed v) (Results v (Boxed v)) _ _
          (Safe-since (Boxed u) (Boxed v) _ had
            (Ensures-weaken (Boxed u) (λ c t. Settled u t × Boxed u c t) (λ t. ⊥) (Settled u) _
              (from_owned-Boxed had.calm x readable) (λ c t b. (b.0.settled, b))
              (λ t bad. absurd bad))
            (λ c t s b. (
              record {
                settled = Settled-trans had b.0.settled;
                fits = Fits-since v u t c.tag c.payload.lo had.keeps b.0.fits;
              },
              b.1,
            )))
          (λ c t s b. (s, inl (refl, b)))
    value_result-Safe (err e) readable = errored (Boxed v) c_nil e

    -- Go returns the value, or frees the text and returns it as the error.
    pub go_result-Safe :
        {A : Type 0} (Q : A → World L → Type 0) (r : CResult A)
        → Results v Q r u
        → Safe v Q (go_result r u)
    unfolding go_result
    go_result-Safe Q r (inl (none_, q)) = rw none_ (had, q)
    go_result-Safe Q r (inr (e, new)) =
        rw (go_result-error r u (not_null had new) new.there) (without-Settled had new)

    -- The other new boxes stay new.
    abbrev pub Others : GoLuaValue → World L → Type 0
    Others c t = (b : Box) (q : ℕ) → IsOther c.tag c.payload.lo q → IsNew v u b q → IsNew v t b q

    pub take-Safe :
        (m : Mluau L) (c : GoLuaValue)
        → Fits v u c.tag c.payload.lo
        → Safe v (λ x t. Others c t) (to_value_from_owned m c u)
    take-Safe m c fits =
        Ensures-weaken (λ x t. Settled v t × Others c t) (λ x t. Settled v t × Others c t) (λ t. ⊥)
          (Settled v) _ (to_value_from_owned-Settled m had c fits) (λ x t h. h)
          (λ t bad. absurd bad)

    module _ (m : Mluau L) (makes : MakesStrings m) {i : ℕ} (vm : Has v lua_vm_tab i) where
      vm_here : Has u lua_vm_tab i
      vm_here = record {
        object = vm.object;
        there = had.keeps.objects i vm.object vm.there;
        made_with = vm.made_with;
      }

      -- A typed C value, new since `u`.
      pub argument-Safe :
          (x : Option Value)
          → IsArgument v x
          → Safe u
              (λ c t. Fits u t c.tag c.payload.lo)
              (value_to_c m (some (record { obj = some i })) x u)
      unfolding value_to_c
      argument-Safe none arg = Settled-refl had.calm
      argument-Safe (some x) arg =
          Ensures-weaken (Handed u) (λ c t. Settled u t × Fits u t c.tag c.payload.lo) (Settled u)
            (Settled u) _
            (value_to_c-Handed m had.calm makes vm_here x (IsTyped-Keeps had.keeps arg.0) arg.1)
            (λ c t h. (h.settled, h.fits)) (λ t s. s)
