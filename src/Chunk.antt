-- ===== src/Chunk.antt =====
-- vm/chunk.go and rustlib/rustlib/src/chunk.rs: a chunk of Lua code with its options.
pub mod Loading
pub mod Loaded
pub mod Empty
use gluau.Prelude.{
  ℕ, ◌%◌, ◌^◌, Bool, true, false, Option, none, some, [], ◌∷◌, Bytes, text, ◌==◌, ◌||◌,
  if◌then◌else◌, map,
}
use gluau.World.{table, function, lua_vm, chunk_box, Go, pure, ◌>>=◌, ◌>>◌, catch, alloc, release}
use gluau.Mluau.{Mluau, Chunk, err}
use gluau.Ffi.Boxes.{read_ref, read_chunk}
use gluau.Object.{reading, pointer_no_lock, new_object}
use gluau.Handles.{GoLuaVmWrapper, LuaTable, LuaFunction, function_tab}
use gluau.Result.{CResult, c_result, boxed_result, go_result}
use gluau.Compiler.{CompilerOpts, CompilerLevels, to_uint8, to_c, to_compiler}
use gluau.Vm.Strings.{with_lua}

pub record ChunkOpts : Type 0 where
  pub name : Bytes
  pub env : Option LuaTable
  pub mode : ℕ
  pub compiler_opts : Option CompilerOpts
  pub code : Bytes

-- `struct ChunkOpts` of C. The compiler options are a pointer into Go's stack, or null.
pub record CChunkOpts : Type 0 where
  pub name : ℕ
  pub env : ℕ
  pub mode : ℕ
  pub compiler_opts : Option CompilerLevels
  pub code : ℕ

abbrev pub map_option : {A B : Type 0} → (A → B) → Option A → Option B
map_option f none = none
map_option f (some a) = some (f a)

-- Mode 1 is binary, and every other byte is text.
abbrev pub is_binary : ℕ → Bool
is_binary mode = mode == 1

module _ {L : Type 0} where
  -- `newChunkString`, and `luago_chunk_string_new` for what is not empty
  unfoldable pub new_chunk_string : Bytes → Go L ℕ
  unfolding alloc
  new_chunk_string [] = pure 0
  new_chunk_string (b ∷ s) = alloc (chunk_box (b ∷ s))

  abbrev pub take_name : (Bytes → Bytes) → ℕ → Go L (Option Bytes)
  take_name lossy p =
      if p == 0 then pure none else do s ← read_chunk p; release p; pure (some (lossy s))

  abbrev pub environment_at : ℕ → Go L (Option ℕ)
  environment_at p = if p == 0 then pure none else do r ← read_ref table p; pure (some r)

  -- The environment is read-locked until the end; a closed one counts as none.
  abbrev pub with_env : {A : Type 0} → Option LuaTable → (ℕ → Go L A) → Go L A
  with_env none body = body 0
  with_env (some t) body =
      reading t.object (catch (pointer_no_lock t.object) (λ _. pure 0) >>= body)

module _ {L : Type 0} (m : Mluau L) where
  -- What `luago_load_chunk` does when neither pointer is null. The code is freed last.
  unfoldable pub load_at : ℕ → CChunkOpts → Go L (CResult ℕ)
  unfolding read_ref read_chunk release boxed_result
  load_at lua opts = do
    vm ← read_ref lua_vm lua
    code ← read_chunk opts.code
    name ← take_name m.lossy opts.name
    env ← environment_at opts.env
    r ← m.load_chunk vm (record {
      code = code;
      name = name;
      environment = env;
      binary = is_binary opts.mode;
      compiler = map_option to_compiler opts.compiler_opts;
    })
    res ← boxed_result function r
    release opts.code
    pure res

  unfoldable pub luago_load_chunk : ℕ → CChunkOpts → Go L (CResult ℕ)
  unfolding load_at c_result
  luago_load_chunk lua opts =
      if lua == 0 || opts.code == 0
      then c_result 0 (err (text "LuaVmWrapper pointer or ChunkOpts code is null"))
      else load_at lua opts

  -- What `LoadChunk` does with the pointers of the virtual machine and of the environment.
  unfoldable pub load_with : Option GoLuaVmWrapper → ChunkOpts → ℕ → ℕ → Go L LuaFunction
  unfolding new_chunk_string luago_load_chunk go_result new_object
  load_with l opts lua env = do
    name ← new_chunk_string opts.name
    code ← new_chunk_string opts.code
    res ← luago_load_chunk lua (record {
      name = name;
      env = env;
      mode = to_uint8 opts.mode;
      compiler_opts = map_option to_c opts.compiler_opts;
      code = code;
    })
    p ← go_result res
    o ← new_object p function_tab
    pure (record { object = o; lua = l })

  unfoldable pub load_chunk : Option GoLuaVmWrapper → ChunkOpts → Go L LuaFunction
  unfolding with_lua reading pointer_no_lock load_with
  load_chunk l opts = with_lua l λ lua. with_env opts.env (load_with l opts lua)
