-- ===== src/Table/Answers/Shapes.antt =====
-- The bodies of the methods of an open table, run on scalar arguments: what mluau says is what they return.
use gluau.Prelude.{
  ℕ, ◌<◌, ◌≡◌, ◌≢◌, refl, true, false, Option, some, Bytes, update_self, ==-ne, arith,
}
use gluau.World.{
  RefKind, LuaValue, Object, ref_box, error_text, World, Run, Go, returned, failed, pure, ◌>>=◌,
  and_then,
}
use gluau.Mluau.{Mluau, LuaResult, ok, err}
use gluau.Ffi.Ownership.{with_box, without, read_ref-some}
use gluau.Ffi.Tables.{value_result, with_table}
use gluau.Object.{reading, pointer_no_lock}
use gluau.Object.Locks.{held, reading-held, reading-failed}
use gluau.Object.Sound.{IsSound}
use gluau.Handles.{GoLuaVmWrapper}
use gluau.Result.{CResult, without_nul, c_result, go_result}
use gluau.Result.Errors.{c_result-err, go_result-error}
use gluau.Value.Types.{Value}
use gluau.Value.Clone.{c_nil, from_owned}
use gluau.Value.Convert.{value_from_c}
use gluau.Value.Cloning.{pointer_no_lock-open}
use gluau.Value.Scalars.{IsScalar}
use gluau.Value.Sending.{sent, value_to_c-encode, to_value-encode}
use gluau.Value.Typing.Made.{relua}
use gluau.Table.{inner_ptr}
use gluau.Table.Answers.{scalar_of, IsLuaScalar, IsScalarReply, answered_by}
use gluau.Table.Typing.Bodies.{
  plain_body, value_body, plain_handing, value_handing, writing, defaulting,
}

module _ {L : Type 0} where
  -- The world after an error text was boxed, read and freed.
  abbrev pub texted : Bytes → World L → World L
  texted e u = without (with_box u (error_text e)) u.next_box

  -- How a method ends on mluau's answer.
  abbrev pub ended : {A : Type 0} → LuaResult A → World L → Run L A
  ended (ok a) u = returned a u
  ended (err e) u = failed (without_nul e) (texted (without_nul e) u)

  pub ended-answered_by :
      {A B : Type 0} (f : A → B) (x : LuaResult A) (u : World L)
      → and_then (ended x u) (λ a. pure (f a)) ≡ ended (answered_by f x) u
  ended-answered_by f (ok a) u = refl
  ended-answered_by f (err e) u = refl

  passed-err :
      {A : Type 0} (d : A) (e : Bytes) (u : World L)
      → 0 < u.next_box
      → (c_result d (err e) >>= go_result) u ≡ ended (err e) u
  passed-err d e u pos = rw (c_result-err d e u) (
      go_result-error (record { value = d; error = u.next_box })
        (with_box u (error_text (without_nul e))) (ground arith) (update_self u.boxes u.next_box _))

  pub passed :
      {A : Type 0} (d : A) (x : LuaResult A) (u : World L)
      → 0 < u.next_box
      → (c_result d x >>= go_result) u ≡ ended x u
  unfolding c_result go_result
  passed d (ok a) u pos = refl
  passed d (err e) u pos = passed-err d e u pos

  value_result-err :
      (e : Bytes) (u : World L)
      → value_result (err e) u
        ≡ returned
            (record { value = c_nil; error = u.next_box })
            (with_box u (error_text (without_nul e)))
  unfolding value_result
  value_result-err e u = c_result-err c_nil e u

  back :
      (l : Option GoLuaVmWrapper) (x : LuaValue) (u : World L)
      → IsLuaScalar x
      → (do res ← value_result (ok x); c ← go_result res; value_from_c l c) u
        ≡ returned (scalar_of x) u
  unfolding value_result from_owned c_result go_result value_from_c
  back l LuaValue.nil u h = refl
  back l (LuaValue.boolean true) u h = refl
  back l (LuaValue.boolean false) u h = refl
  back l (LuaValue.light_user_data p) u h = absurd h
  back l (LuaValue.integer i) u h = refl
  back l (LuaValue.number n) u h = refl
  back l (LuaValue.vector x y z) u h = ground arith
  back l (LuaValue.ref k r) u h = absurd h
  back l (LuaValue.error e) u h = absurd h
  back l LuaValue.other u h = refl

  -- A value that mluau gives, on its way to Go.
  passed_value :
      (l : Option GoLuaVmWrapper) (x : LuaResult LuaValue) (u : World L)
      → 0 < u.next_box
      → IsScalarReply x
      → (do res ← value_result x; c ← go_result res; value_from_c l c) u
        ≡ ended (answered_by scalar_of x) u
  passed_value l (ok x) u pos h = back l x u h
  passed_value l (err e) u pos h = rw (
    value_result-err e u,
    go_result-error (record { value = c_nil; error = u.next_box })
        (with_box u (error_text (without_nul e))) (ground arith) (update_self u.boxes u.next_box _),
  )

module _ {L : Type 0} (m : Mluau L) {w : World L} (sound : IsSound w) (l : Option GoLuaVmWrapper)
    {o r : ℕ} {ob : Object} (here : w.objects o ≡ some ob) (free : ob.writing ≡ false)
    (set : ob.ptr ≢ 0) (there : w.boxes ob.ptr ≡ some (ref_box RefKind.table r)) where
  -- The world in which the method holds its lock.
  abbrev pub inside : World L
  inside = held o ob w

  pub run-reading :
      {A : Type 0} (body : Go L A) (x : LuaResult A) (s : L)
      → body inside ≡ ended x (held o ob (relua w s))
      → reading (some o) body w ≡ ended x (relua w s)
  run-reading body (ok a) s run = reading-held o body w (relua w s) a here free here run
  run-reading body (err e) s run =
      reading-failed o body w (texted (without_nul e) (relua w s)) (without_nul e) here free here
        run

  pub pointer : pointer_no_lock (some o) inside ≡ returned ob.ptr inside
  pointer = pointer_no_lock-open o inside (update_self w.objects o _) set

  behind :
      {A : Type 0} (d : A) (body : ℕ → Go L (CResult A))
      → with_table ob.ptr d body inside ≡ body r inside
  behind d body = rw (==-ne ob.ptr 0 set, read_ref-some inside RefKind.table ob.ptr there) refl

  module _ {A : Type 0} (d : A) (x : LuaResult A) (s : L) where
    pub plain-ended :
        (op : ℕ → Go L (LuaResult A))
        → op r inside ≡ returned x (relua inside s)
        → reading (some o) (plain_body m l o d op) w ≡ ended x (relua w s)
    plain-ended op says = run-reading (plain_body m l o d op) x s (
        rw (pointer, ==-ne ob.ptr 0 set, read_ref-some inside RefKind.table ob.ptr there, says)
          (passed d x (relua inside s) sound.positive))

    pub handing-ended :
        (v : Value) (op : ℕ → LuaValue → Go L (LuaResult A))
        → IsScalar v
        → op r (sent v) inside ≡ returned x (relua inside s)
        → reading (some o) (plain_handing m l o d (some v) op) w ≡ ended x (relua w s)
    handing-ended v op scalar says = run-reading (plain_handing m l o d (some v) op) x s (
        rw
          (
            pointer,
            value_to_c-encode m l v inside scalar,
            ==-ne ob.ptr 0 set,
            read_ref-some inside RefKind.table ob.ptr there,
            to_value-encode m v inside scalar,
            says,
          )
          (passed d x (relua inside s) sound.positive))

  module _ (x : LuaResult LuaValue) (s : L) (scalar : IsScalarReply x) where
    pub value-ended :
        (op : ℕ → Go L (LuaResult LuaValue))
        → op r inside ≡ returned x (relua inside s)
        → reading (some o) (value_body m l o op) w ≡ ended (answered_by scalar_of x) (relua w s)
    value-ended op says = run-reading (value_body m l o op) (answered_by scalar_of x) s (
        rw (pointer, ==-ne ob.ptr 0 set, read_ref-some inside RefKind.table ob.ptr there, says)
          (passed_value l x (relua inside s) sound.positive scalar))

    pub value_handing-ended :
        (v : Value) (op : ℕ → LuaValue → Go L (LuaResult LuaValue))
        → IsScalar v
        → op r (sent v) inside ≡ returned x (relua inside s)
        → reading (some o) (value_handing m l o (some v) op) w
          ≡ ended (answered_by scalar_of x) (relua w s)
    value_handing-ended v op given says =
        run-reading (value_handing m l o (some v) op) (answered_by scalar_of x) s (
          rw
            (
              pointer,
              value_to_c-encode m l v inside given,
              ==-ne ob.ptr 0 set,
              read_ref-some inside RefKind.table ob.ptr there,
              to_value-encode m v inside given,
              says,
            )
            (passed_value l x (relua inside s) sound.positive scalar))

  module _ (x : LuaResult (Unit {0})) (s : L) where
    pub writing-ended :
        (k v : Value) (op : ℕ → LuaValue → LuaValue → Go L (LuaResult (Unit {0})))
        → IsScalar k
        → IsScalar v
        → op r (sent k) (sent v) inside ≡ returned x (relua inside s)
        → reading (some o) (writing m l o (some k) (some v) op) w ≡ ended x (relua w s)
    writing-ended k v op given given2 says = run-reading (writing m l o (some k) (some v) op) x s (
        rw
          (
            pointer,
            value_to_c-encode m l k inside given,
            value_to_c-encode m l v inside given2,
            ==-ne ob.ptr 0 set,
            read_ref-some inside RefKind.table ob.ptr there,
            to_value-encode m k inside given,
            to_value-encode m v inside given2,
            says,
          )
          (passed tt x (relua inside s) sound.positive))

  module _ {A : Type 0} (x : A) (s : L) where
    pub defaulting-ended :
        (d e : A) (op : ℕ → Go L A)
        → op r inside ≡ returned x (relua inside s)
        → reading (some o) (defaulting m l o d e op) w ≡ returned x (relua w s)
    unfolding inner_ptr
    defaulting-ended d e op says =
        run-reading (defaulting m l o d e op) (ok x) s
          (rw (pointer, ==-ne ob.ptr 0 set, read_ref-some inside RefKind.table ob.ptr there, says))
