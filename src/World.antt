-- ===== src/World.antt =====
-- What the Go side and the Rust side share: the Go objects of vm/object.go with their locks, the
-- boxes that Rust allocates, and the ways in which a call of Go code can end.
--
-- Addresses are numbers, 0 is the nil pointer, and no address is handed out twice. `L` is the
-- state of the Lua virtual machine, which belongs to the crate mluau.
use gluau.Prelude.{ℕ, ◌+◌, Bool, Option, none, some, List, Bytes, text, update, ◌==◌}

-- The mluau types of which Rust hands boxes to Go.
pub data RefKind : Type 0 where
  string table function thread user_data buffer lua_vm : RefKind

abbrev pub kind_code : RefKind → ℕ
kind_code string = 6
kind_code table = 7
kind_code function = 8
kind_code thread = 9
kind_code user_data = 10
kind_code buffer = 11
kind_code lua_vm = 14

abbrev pub same_kind : RefKind → RefKind → Bool
same_kind j k = kind_code j == kind_code k

-- `mluau::Value`. A reference is a number, integers and floats are their bit patterns.
pub data LuaValue : Type 0 where
  nil : LuaValue
  boolean : Bool → LuaValue
  light_user_data : ℕ → LuaValue
  integer : ℕ → LuaValue
  number : ℕ → LuaValue
  vector : ℕ → ℕ → ℕ → LuaValue
  ref : RefKind → ℕ → LuaValue
  error : Bytes → LuaValue
  other : LuaValue

-- What a pointer from Rust points to: a handle of a Lua object, an `ErrorVariant`, a
-- `GoMultiValue`, a `ChunkString`, or the text of a result's error.
pub data Box : Type 0 where
  ref_box : RefKind → ℕ → Box
  error_box : Bytes → Box
  multi_box : List LuaValue → Box
  chunk_box : Bytes → Box
  error_text : Bytes → Box

-- The destructors that the object tables of the Go files name.
pub data Dtor : Type 0 where
  free_lua_vm free_string free_table free_function free_userdata free_error : Dtor

pub record ObjectTab : Type 0 where
  pub dtor : Option Dtor

-- An `object`: its read-write lock is the number of readers and whether a writer holds it.
pub record Object : Type 0 where
  pub ptr : ℕ
  pub tab : ObjectTab
  pub readers : ℕ
  pub writing : Bool
  pub finalizer : Bool

-- `goCallback` and `dynamicData` of vm/callback.go. A Go closure is a number; a nil one is `none`, and
-- so is a nil `any`.
pub record GoCallback : Type 0 where
  pub handle : Option ℕ
  pub drop : Option ℕ
  pub cgo_handle : ℕ

pub record DynamicData : Type 0 where
  pub drop : Option ℕ
  pub value : Option ℕ
  pub cgo_handle : ℕ

pub data Cell : Type 0 where
  callback : GoCallback → Cell
  dynamic : DynamicData → Cell

pub record World (L : Type 0) : Type 0 where
  pub objects : ℕ → Option Object
  pub next_object : ℕ
  pub boxes : ℕ → Option Box
  pub next_box : ℕ
  -- the words of C memory that Go may read through a light userdata
  pub words : ℕ → Option ℕ
  -- the Go structs that Rust knows by a cgo handle, and the handles that are in use
  pub cells : ℕ → Option Cell
  pub next_cell : ℕ
  pub handles : ℕ → Option ℕ
  pub next_handle : ℕ
  pub lua : L

-- The end of a call: it returned, it returned a non-nil error, it panicked, it did what Rust or C
-- leaves undefined, or it waits for a lock that is held.
pub data Run (L A : Type 0) : Type 0 where
  returned : A → World L → Run L A
  failed : Bytes → World L → Run L A
  panicked : Bytes → World L → Run L A
  undefined : Run L A
  blocked : Run L A

abbrev pub Go : Type 0 → Type 0 → Type 0
Go L A = World L → Run L A

module _ {L A : Type 0} where
  abbrev pub pure : A → Go L A
  pure a w = returned a w

  abbrev pub fail : Bytes → Go L A
  fail e w = failed e w

  abbrev pub panic : Bytes → Go L A
  panic e w = panicked e w

  abbrev pub and_then : {B : Type 0} → Run L A → (A → Go L B) → Run L B
  and_then (returned a w) k = k a w
  and_then (failed e w) k = failed e w
  and_then (panicked e w) k = panicked e w
  and_then undefined k = undefined
  and_then blocked k = blocked

  -- A caller that looks at the error instead of returning it.
  abbrev pub on_error : Run L A → (Bytes → Go L A) → Run L A
  on_error (returned a w) h = returned a w
  on_error (failed e w) h = h e w
  on_error (panicked e w) h = panicked e w
  on_error undefined h = undefined
  on_error blocked h = blocked

infixl 5 ◌>>=◌ ◌>>◌
abbrev pub ◌>>=◌ : {L A B : Type 0} → Go L A → (A → Go L B) → Go L B
◌>>=◌ m k w = and_then (m w) k

abbrev pub ◌>>◌ : {L A B : Type 0} → Go L A → Go L B → Go L B
◌>>◌ m k w = and_then (m w) (λ _. k)

abbrev pub catch : {L A : Type 0} → Go L A → (Bytes → Go L A) → Go L A
catch m h w = on_error (m w) h

module _ {L A : Type 0} where
  -- The deferred call runs on each way out, and its own panic replaces the result.
  abbrev pub settle : Run L (Unit {0}) → (World L → Run L A) → Run L A
  settle (returned _ w) k = k w
  settle (failed e w) k = failed e w
  settle (panicked e w) k = panicked e w
  settle undefined k = undefined
  settle blocked k = blocked

  abbrev pub conclude : Run L A → Go L (Unit {0}) → Run L A
  conclude (returned a w) d = settle (d w) (returned a)
  conclude (failed e w) d = settle (d w) (failed e)
  conclude (panicked e w) d = settle (d w) (panicked e)
  conclude undefined d = undefined
  conclude blocked d = blocked

  abbrev pub deferring : Go L (Unit {0}) → Go L A → Go L A
  deferring d m w = conclude (m w) d

  abbrev pub nil_dereference : Go L A
  nil_dereference = panic (text "invalid memory address or nil pointer dereference")

module _ {L : Type 0} where
  -- `Box::into_raw(Box::new(b))`
  unfoldable pub alloc : Box → Go L ℕ
  alloc b w =
      returned w.next_box
        (record w { boxes = update w.boxes w.next_box (some b); next_box = w.next_box + 1 })

  -- `&*p`, at a pointer that is not null
  unfoldable pub load : ℕ → Go L Box
  load p w = elim (w.boxes p) [ none ↦ undefined | some b ↦ returned b w ]

  unfoldable pub store : ℕ → Box → Go L (Unit {0})
  store p b w = elim (w.boxes p) [
    | none ↦ undefined
    | some _ ↦ returned tt (record w { boxes = update w.boxes p (some b) })
  ]

  -- `drop(Box::from_raw(p))`
  unfoldable pub release : ℕ → Go L (Unit {0})
  release p w = elim (w.boxes p) [
    | none ↦ undefined
    | some _ ↦ returned tt (record w { boxes = update w.boxes p none })
  ]
