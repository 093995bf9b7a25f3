-- ===== src/Table/Answers/Others.antt =====
-- The methods that give or take another table, and the text of a table.
use gluau.Prelude.{
  ℕ, ◌≡◌, ◌≢◌, ◌∙◌, refl, sym, false, Option, none, some, Bytes, inl, inr, update_self, ◌==◌, ==-eq,
  ==-ne, Bool-cases, arith,
}
use gluau.World.{RefKind, Object, ref_box, error_text, World, Go, returned, alloc}
use gluau.Mluau.{Mluau, LuaResult, ok}
use gluau.Ffi.Boxes.{c_string}
use gluau.Ffi.Ownership.{with_box, read_ref-some, load-some, release-some}
use gluau.Object.{reading, pointer_no_lock}
use gluau.Object.Locks.{held, locked, reading-held}
use gluau.Object.Sound.{IsSound}
use gluau.Handles.{GoLuaVmWrapper, LuaTable}
use gluau.Result.{move_error_to_go}
use gluau.Value.Cloning.{pointer_no_lock-open}
use gluau.Value.Typing.Made.{relua}
use gluau.Table.{inner_ptr}
use gluau.Table.Calls.{table_over}
use gluau.Table.Answers.{IsNone, IsOpenTable, open_over, AreOpenTables, ref_of, refs_of}
use gluau.Table.Answers.Shapes.{texted, ended, passed, pointer, run-reading}
use gluau.Table.Typing.Bodies.{finding, showing, comparing, setting}

module _ {L : Type 0} (m : Mluau L) {w : World L} (sound : IsSound w) (l : Option GoLuaVmWrapper)
    {o r : ℕ} {ob : Object} (here : w.objects o ≡ some ob) (free : ob.writing ≡ false)
    (set : ob.ptr ≢ 0) (there : w.boxes ob.ptr ≡ some (ref_box RefKind.table r)) where
  -- The world in which the method holds its lock.
  abbrev locked_world : World L
  locked_world = held o ob w

  still_there :
      (i : ℕ) {a : Object}
      → w.objects i ≡ some a
      → (b : Object) × (locked_world.objects i ≡ some b) × (b.ptr ≡ a.ptr)
  still_there i {a} e = elim (Bool-cases (o == i)) [
    | inl same ↦ (locked ob, ground (arith, ==-eq o i), ground (arith, ==-eq o i))
    | inr differ ↦ (a, ground arith, refl)
  ]

  -- The pointer of another table, or of the same one once more.
  other_pointer :
      (i : ℕ) {a : Object}
      → w.objects i ≡ some a
      → a.ptr ≢ 0
      → pointer_no_lock (some i) locked_world ≡ returned a.ptr locked_world
  other_pointer i {a} e ne =
      let (b, found, same) = still_there i e in
      rw (pointer_no_lock-open i locked_world found (λ z. ne (sym same ∙ z)), same) refl

  ref_of-table :
      (i : ℕ) {a : Object} {k : ℕ}
      → w.objects i ≡ some a
      → w.boxes a.ptr ≡ some (ref_box RefKind.table k)
      → (k' : Option GoLuaVmWrapper) → ref_of w (table_over k' i) ≡ k
  ref_of-table i e at_ k' = rw (e, at_) refl

  pub comparing-ended :
      {A : Type 0} (d : A) (t : LuaTable) (op : ℕ → ℕ → Go L (LuaResult A)) (x : LuaResult A)
      (s : L)
      → IsOpenTable w t
      → op r (ref_of w t) locked_world ≡ returned x (relua locked_world s)
      → reading (some o) (comparing m l o d t op) w ≡ ended x (relua w s)
  unfolding inner_ptr
  comparing-ended d _ op x s (open_over {o = i} {ob = a} l2 e ne at_) says =
      run-reading m sound l here free set there (comparing m l o d (table_over l2 i) op) x s (
        rw
          (
            pointer m sound l here free set there,
            other_pointer i e ne,
            ==-ne ob.ptr 0 set,
            read_ref-some locked_world RefKind.table ob.ptr there,
            ==-ne a.ptr 0 ne,
            read_ref-some locked_world RefKind.table a.ptr at_,
            ← ref_of-table i e at_ l2,
            says,
          )
          (passed d x (relua locked_world s) sound.positive))

  module _ (op : ℕ → Option ℕ → Go L (LuaResult (Unit {0}))) (x : LuaResult (Unit {0}))
      (s : L) where
    pub setting-ended :
        (mt : Option LuaTable)
        → AreOpenTables w mt
        → op r (refs_of w mt) locked_world ≡ returned x (relua locked_world s)
        → reading (some o) (setting m l o mt op) w ≡ ended x (relua w s)
    unfolding inner_ptr
    setting-ended none is_open says =
        run-reading m sound l here free set there (setting m l o none op) x s (
          rw
            (
              pointer m sound l here free set there,
              ==-ne ob.ptr 0 set,
              read_ref-some locked_world RefKind.table ob.ptr there,
              says,
            )
            (passed tt x (relua locked_world s) sound.positive))
    setting-ended (some _) (open_over {o = i} {ob = a} l2 e ne at_) says =
        run-reading m sound l here free set there (setting m l o (some (table_over l2 i)) op) x s (
          rw
            (
              pointer m sound l here free set there,
              other_pointer i e ne,
              ==-ne ob.ptr 0 set,
              read_ref-some locked_world RefKind.table ob.ptr there,
              ==-ne a.ptr 0 ne,
              read_ref-some locked_world RefKind.table a.ptr at_,
              ← ref_of-table i e at_ l2,
              says,
            )
            (passed tt x (relua locked_world s) sound.positive))

  pub finding-ended :
      (op : ℕ → Go L (Option ℕ)) (x : Option ℕ) (s : L)
      → IsNone x
      → op r locked_world ≡ returned x (relua locked_world s)
      → reading (some o) (finding m l o op) w ≡ returned none (relua w s)
  unfolding inner_ptr
  finding-ended op none s is_none says =
      run-reading m sound l here free set there (finding m l o op) (ok none) s (
        rw (
          pointer m sound l here free set there,
          ==-ne ob.ptr 0 set,
          read_ref-some locked_world RefKind.table ob.ptr there,
          says,
        ))
  finding-ended op (some t) s is_none says = absurd is_none

  -- The text comes in a box that is freed again.
  pub showing-ended :
      (op : ℕ → Go L Bytes) (x : Bytes) (s : L)
      → op r locked_world ≡ returned x (relua locked_world s)
      → reading (some o) (showing m l o op) w
        ≡ returned (c_string x) (texted (c_string x) (relua w s))
  unfolding inner_ptr alloc move_error_to_go
  showing-ended op x s says =
      reading-held o (showing m l o op) w (texted (c_string x) (relua w s)) (c_string x) here free
        here
        (rw (
          pointer m sound l here free set there,
          ==-ne ob.ptr 0 set,
          read_ref-some locked_world RefKind.table ob.ptr there,
          says,
          ==-ne w.next_box 0 (ground (arith, sound.positive)),
          load-some (with_box (relua locked_world s) (error_text (c_string x))) w.next_box
              (update_self w.boxes w.next_box _),
          release-some (with_box (relua locked_world s) (error_text (c_string x))) w.next_box
              (update_self w.boxes w.next_box _),
        ))
