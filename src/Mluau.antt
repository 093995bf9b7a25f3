-- ===== src/Mluau.antt =====
-- What gluau takes from the crate mluau and from Rust's standard library, as a parameter. An
-- operation of mluau is any action on the world: it may run Lua code that calls back into Go.
use gluau.Prelude.{ℕ, Bool, Option, List, Bytes}
use gluau.World.{LuaValue, Go}

-- `mluau::Result`, its error as the text that `format!("{err}")` gives.
pub data LuaResult (A : Type 0) : Type 0 where
  ok : A → LuaResult A
  err : Bytes → LuaResult A

-- What a chunk is compiled with: the four levels of `mluau::Compiler`.
pub record CompilerSettings : Type 0 where
  pub optimization_level : ℕ
  pub debug_level : ℕ
  pub type_info_level : ℕ
  pub coverage_level : ℕ

-- A chunk as mluau's builder collects it: `binary` is the mode.
pub record Chunk : Type 0 where
  pub code : Bytes
  pub name : Option Bytes
  pub environment : Option ℕ
  pub binary : Bool
  pub compiler : Option CompilerSettings

pub record Mluau (L : Type 0) : Type 0 where
  -- `CStr::to_string_lossy` and `String::from_utf8_lossy`
  pub lossy : Bytes → Bytes
  -- whether `CStr::to_str` succeeds
  pub is_utf8 : Bytes → Bool
  -- `format!("{}", Error::external(s))`
  pub external : Bytes → Bytes
  pub new_lua : Go L ℕ
  pub call : ℕ → List LuaValue → Go L (LuaResult (List LuaValue))
  pub load_chunk : ℕ → Chunk → Go L (LuaResult ℕ)
  pub set_compiler : ℕ → CompilerSettings → Go L (Unit {0})
  pub create_function : ℕ → ℕ → Go L (LuaResult ℕ)
  pub create_dynamic_userdata : ℕ → ℕ → ℕ → Go L (LuaResult ℕ)
  -- the handle in the `DynamicData` of a userdata
  pub dynamic_data : ℕ → Go L (LuaResult ℕ)
  pub create_string : ℕ → Bytes → Go L (LuaResult ℕ)
  pub create_table : ℕ → Go L (LuaResult ℕ)
  pub create_table_with_capacity : ℕ → ℕ → ℕ → Go L (LuaResult ℕ)
  pub set_memory_limit : ℕ → ℕ → Go L (LuaResult (Unit {0}))
  pub as_bytes : ℕ → Go L Bytes
  pub as_bytes_with_nul : ℕ → Go L Bytes
  pub string_to_pointer : ℕ → Go L ℕ
  pub clear : ℕ → Go L (LuaResult (Unit {0}))
  pub contains_key : ℕ → LuaValue → Go L (LuaResult Bool)
  pub equals : ℕ → ℕ → Go L (LuaResult Bool)
  pub get : ℕ → LuaValue → Go L (LuaResult LuaValue)
  pub is_empty : ℕ → Go L Bool
  pub is_readonly : ℕ → Go L Bool
  pub len : ℕ → Go L (LuaResult ℕ)
  pub metatable : ℕ → Go L (Option ℕ)
  pub pop : ℕ → Go L (LuaResult LuaValue)
  pub push : ℕ → LuaValue → Go L (LuaResult (Unit {0}))
  pub raw_get : ℕ → LuaValue → Go L (LuaResult LuaValue)
  pub raw_insert : ℕ → ℕ → LuaValue → Go L (LuaResult (Unit {0}))
  pub raw_len : ℕ → Go L ℕ
  pub raw_pop : ℕ → Go L (LuaResult LuaValue)
  pub raw_push : ℕ → LuaValue → Go L (LuaResult (Unit {0}))
  pub raw_remove : ℕ → LuaValue → Go L (LuaResult (Unit {0}))
  pub raw_set : ℕ → LuaValue → LuaValue → Go L (LuaResult (Unit {0}))
  pub set : ℕ → LuaValue → LuaValue → Go L (LuaResult (Unit {0}))
  pub set_metatable : ℕ → Option ℕ → Go L (LuaResult (Unit {0}))
  pub table_to_pointer : ℕ → Go L ℕ
  -- `format!("{lua_table:#?}")`
  pub table_debug : ℕ → Go L Bytes
  pub set_readonly : ℕ → Bool → Go L (Unit {0})
  pub set_safeenv : ℕ → Bool → Go L (Unit {0})
