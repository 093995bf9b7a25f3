-- ===== src/Tests/Demo.antt =====
-- A Lua in which every key holds the number 5, and a world with an open string, an open table and a
-- closed string.
use gluau.Prelude.{ℕ, ◌≡◌, refl, true, false, none, some, [], ◌∷◌, arith}
use gluau.World.{RefKind, LuaValue, ref_box, World, Go, pure, free_string, free_table}
use gluau.Mluau.{Mluau, LuaResult, ok}
use gluau.Handles.{string_tab, table_tab}
use gluau.Ffi.Ownership.{with_box}
use gluau.Object.Sound.{
  IsSound, Owns, new_handle, with_object, with_object-IsSound, with_box-IsSound, with_box-Unowned,
}
use gluau.Object.Lifetime.{IsQuiet, closing, closing-IsSound}

abbrev pub Lua : Type 0
Lua = Unit {0}

abbrev five : LuaValue
five = LuaValue.integer 5

abbrev yields : {A : Type 0} → A → Go Lua (LuaResult A)
yields a = pure (ok a)

abbrev pub lua : Mluau Lua
lua = record {
  lossy = λ s. s;
  is_utf8 = λ s. true;
  external = λ s. s;
  call = λ f args. yields (five ∷ []);
  load_chunk = λ vm opts. yields 11;
  set_compiler = λ vm opts. pure tt;
  create_function = λ vm f. yields 11;
  create_dynamic_userdata = λ vm h mt. yields 12;
  dynamic_data = λ u. yields 1;
  new_lua = pure 1;
  create_string = λ vm s. yields 7;
  create_table = λ vm. yields 9;
  create_table_with_capacity = λ vm narr nrec. yields 9;
  set_memory_limit = λ vm limit. yields tt;
  as_bytes = λ s. pure (104 ∷ 105 ∷ []);
  as_bytes_with_nul = λ s. pure (104 ∷ 105 ∷ 0 ∷ []);
  string_to_pointer = λ s. pure s;
  clear = λ t. yields tt;
  contains_key = λ t k. yields true;
  equals = λ t u. yields true;
  get = λ t k. yields five;
  is_empty = λ t. pure false;
  is_readonly = λ t. pure false;
  len = λ t. yields 1;
  metatable = λ t. pure none;
  pop = λ t. yields five;
  push = λ t v. yields tt;
  raw_get = λ t k. yields five;
  raw_insert = λ t i v. yields tt;
  raw_len = λ t. pure 1;
  raw_pop = λ t. yields five;
  raw_push = λ t v. yields tt;
  raw_remove = λ t k. yields tt;
  raw_set = λ t k v. yields tt;
  set = λ t k v. yields tt;
  set_metatable = λ t mt. yields tt;
  table_to_pointer = λ t. pure t;
  table_debug = λ t. pure [];
  set_readonly = λ t b. pure tt;
  set_safeenv = λ t b. pure tt;
}

abbrev pub nothing : World Lua
nothing = record {
  objects = λ o. none;
  next_object = 0;
  boxes = λ p. none;
  next_box = 1;
  words = λ p. none;
  cells = λ p. none;
  next_cell = 1;
  handles = λ h. none;
  next_handle = 1;
  lua = tt;
}

abbrev hello : World Lua
hello = with_object 1 string_tab (with_box nothing (ref_box RefKind.string 7))

abbrev tabled : World Lua
tabled = with_object 2 table_tab (with_box hello (ref_box RefKind.table 9))

-- Objects 0, 1 and 2 are an open string, an open table and an open string.
abbrev pub open_world : World Lua
open_world = with_object 3 string_tab (with_box tabled (ref_box RefKind.string 8))

-- The same with object 2 closed.
abbrev pub world : World Lua
world = closing 2 (new_handle 3 string_tab) open_world

pub nothing-IsSound : IsSound nothing
nothing-IsSound = record {
  null = refl;
  positive = omega arith;
  fresh_box = λ p h. refl;
  fresh_object = λ o h. refl;
  owns = λ o ob e. cc;
  apart = λ i j a b e. cc;
}

pub string-Owns :
    (r p : ℕ) (w : World Lua)
    → w.boxes p ≡ some (ref_box RefKind.string r)
    → Owns w (new_handle p string_tab)
string-Owns r p w there = record {
  dtor = free_string;
  box = ref_box RefKind.string r;
  named = refl;
  there = there;
  fits = refl;
}

pub table-Owns :
    (r p : ℕ) (w : World Lua)
    → w.boxes p ≡ some (ref_box RefKind.table r)
    → Owns w (new_handle p table_tab)
table-Owns r p w there = record {
  dtor = free_table;
  box = ref_box RefKind.table r;
  named = refl;
  there = there;
  fits = refl;
}

hello-IsSound : IsSound hello
hello-IsSound =
    with_object-IsSound (with_box nothing (ref_box RefKind.string 7))
      (with_box-IsSound nothing (ref_box RefKind.string 7) nothing-IsSound)
      (with_box-Unowned nothing (ref_box RefKind.string 7) nothing-IsSound) (string-Owns 7 1 _ refl)

tabled-IsSound : IsSound tabled
tabled-IsSound =
    with_object-IsSound (with_box hello (ref_box RefKind.table 9))
      (with_box-IsSound hello (ref_box RefKind.table 9) hello-IsSound)
      (with_box-Unowned hello (ref_box RefKind.table 9) hello-IsSound) (table-Owns 9 2 _ refl)

pub open_world-IsSound : IsSound open_world
open_world-IsSound =
    with_object-IsSound (with_box tabled (ref_box RefKind.string 8))
      (with_box-IsSound tabled (ref_box RefKind.string 8) tabled-IsSound)
      (with_box-Unowned tabled (ref_box RefKind.string 8) tabled-IsSound) (string-Owns 8 3 _ refl)

pub open_world-IsQuiet : IsQuiet open_world
open_world-IsQuiet o ob e = ground arith

pub world-IsSound : IsSound world
world-IsSound = closing-IsSound open_world-IsSound open_world-IsQuiet 2 refl
