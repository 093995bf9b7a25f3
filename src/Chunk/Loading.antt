-- ===== src/Chunk/Loading.antt =====
-- What `LoadChunk` hands to mluau, and what it leaves behind.
use gluau.Prelude.{
  ℕ, ◌+◌, ◌<◌, ◌≤◌, ◌≡◌, ◌≢◌, Option, none, some, [], ◌∷◌, Bytes, update_self, update_ne, update,
  ==-ne, ◌∙◌, arith,
}
use gluau.World.{RefKind, Box, ref_box, chunk_box, World, returned, alloc}
use gluau.Mluau.{Mluau, Chunk, ok}
use gluau.Ffi.Ownership.{with_box, without, read_ref-some, read_chunk-some, release-some}
use gluau.Object.Sound.{with_object, new_object-some}
use gluau.Handles.{GoLuaVmWrapper, LuaTable, function_tab}
use gluau.Result.{boxed_result}
use gluau.Compiler.{CompilerOpts, to_uint8, to_c, to_compiler}
use gluau.Chunk.{
  ChunkOpts, map_option, is_binary, new_chunk_string, environment_at, load_at, luago_load_chunk,
  load_with,
}

-- An empty name is no name.
abbrev pub name_of : (Bytes → Bytes) → Bytes → Option Bytes
name_of lossy [] = none
name_of lossy (b ∷ s) = some (lossy (b ∷ s))

-- The chunk that `opts` describe, in the environment `env`.
abbrev pub described : {L : Type 0} → Mluau L → ChunkOpts → Option ℕ → Chunk
described m opts env = record {
  code = opts.code;
  name = name_of m.lossy opts.name;
  environment = env;
  binary = is_binary (to_uint8 opts.mode);
  compiler = map_option to_compiler (map_option to_c opts.compiler_opts);
}

-- The boxes after the load: the chunk strings are gone, and the function is there.
abbrev pub left : Bytes → Bytes → ℕ → (ℕ → Option Box) → ℕ → ℕ → Option Box
left [] code f boxes n =
    update
      (update (update boxes n (some (chunk_box code))) (n + 1) (some (ref_box RefKind.function f)))
      n none
left (b ∷ name) code f boxes n =
    update
      (update
        (update
          (update (update boxes n (some (chunk_box (b ∷ name)))) (n + 1) (some (chunk_box code))) n
          none)
        (n + 1 + 1) (some (ref_box RefKind.function f)))
      (n + 1) none

-- The box of the function, where the next box was `n`.
abbrev pub box_for : Bytes → ℕ → ℕ
box_for [] n = n + 1
box_for (b ∷ name) n = n + 1 + 1

module _ {L : Type 0} where
  -- The pointer `p` is null for no environment, and else the box of the table.
  abbrev pub EnvAt : World L → ℕ → Option ℕ → Type 0
  EnvAt w p none = p ≡ 0
  EnvAt w p (some t) = (p ≢ 0) × (w.boxes p ≡ some (ref_box RefKind.table t))

  abbrev pub function_box : Bytes → World L → ℕ
  function_box name u = box_for name u.next_box

  abbrev pub loaded : Bytes → Bytes → ℕ → World L → World L
  loaded name code f u = record u {
    boxes = left name code f u.boxes u.next_box;
    next_box = function_box name u + 1;
  }

  environment_at-EnvAt :
      (u : World L) (p : ℕ) (env : Option ℕ) → EnvAt u p env → environment_at p u ≡ returned env u
  environment_at-EnvAt u p none h = rw h
  environment_at-EnvAt u p (some t) h = rw (==-ne p 0 h.0, read_ref-some u RefKind.table p h.1)

module _ {L : Type 0} (u : World L) (fresh : (p : ℕ) → u.next_box ≤ p → u.boxes p ≡ none) where
  -- A live box is not at an address that is still to come.
  old_box : (n p : ℕ) {a : Box} → u.next_box ≤ n → u.boxes p ≡ some a → n ≢ p
  old_box n p h there same = ground (arith, fresh p)

  EnvAt-kept :
      (u' : World L) (p : ℕ) (env : Option ℕ)
      → ((t : ℕ) → u.boxes p ≡ some (ref_box RefKind.table t) → u'.boxes p ≡ u.boxes p)
      → EnvAt u p env
      → EnvAt u' p env
  EnvAt-kept u' p none same h = h
  EnvAt-kept u' p (some t) same h = (h.0, same t h.1 ∙ h.1)

-- Options with code in them.
abbrev pub options : Bytes → Option LuaTable → ℕ → Option CompilerOpts → ℕ → Bytes → ChunkOpts
options name tab mode copts b s = record {
  name = name;
  env = tab;
  mode = mode;
  compiler_opts = copts;
  code = b ∷ s;
}

module _ {L : Type 0} (m : Mluau L) (tab : Option LuaTable) (mode : ℕ) (copts : Option CompilerOpts)
    (b : ℕ) (s : Bytes) (l : Option GoLuaVmWrapper) (v f : ℕ) (env : Option ℕ) where
  -- `LoadChunk` under its locks.
  pub load_with-loaded :
      (name : Bytes) (lua p : ℕ) (u : World L)
      → ((x : World L)
          → m.load_chunk v (described m (options name tab mode copts b s) env) x
            ≡ returned (ok f) x)
      → 0 < u.next_box
      → ((q : ℕ) → u.next_box ≤ q → u.boxes q ≡ none)
      → lua ≢ 0
      → u.boxes lua ≡ some (ref_box RefKind.lua_vm v)
      → EnvAt u p env
      → load_with m l (options name tab mode copts b s) lua p u
        ≡ returned
            (record { object = some u.next_object; lua = l })
            (with_object (function_box name u) function_tab (loaded name (b ∷ s) f u))
  unfolding load_with new_chunk_string alloc luago_load_chunk load_at boxed_result
  load_with-loaded [] lua p u loads positive fresh ne there h = rw (
    ==-ne lua 0 ne,
    ==-ne u.next_box 0 (ground (arith, positive)),
    read_ref-some one RefKind.lua_vm lua (kept lua there ∙ there),
    read_chunk-some one u.next_box (update_self u.boxes u.next_box _),
    environment_at-EnvAt one p env (EnvAt-kept u fresh one p env (λ t e. kept p e) h),
    loads,
    release-some made u.next_box {b = chunk_box (b ∷ s)} (ground arith),
    new_object-some (without made u.next_box) (u.next_box + 1) function_tab (ground arith),
  )
    where
      one : World L
      one = with_box u (chunk_box (b ∷ s))

      made : World L
      made = with_box one (ref_box RefKind.function f)

      kept : (q : ℕ) {a : Box} → u.boxes q ≡ some a → one.boxes q ≡ u.boxes q
      kept q e = update_ne u.boxes u.next_box _ q (old_box u fresh u.next_box q (omega arith) e)
  load_with-loaded (c ∷ name) lua p u loads positive fresh ne there h = rw (
    ==-ne lua 0 ne,
    ==-ne (u.next_box + 1) 0 (ground arith),
    read_ref-some both RefKind.lua_vm lua (kept lua there ∙ there),
    read_chunk-some both (u.next_box + 1) (update_self one.boxes one.next_box _),
    ==-ne u.next_box 0 (ground (arith, positive)),
    read_chunk-some both u.next_box {s = c ∷ name} (ground arith),
    release-some both u.next_box {b = chunk_box (c ∷ name)} (ground arith),
    environment_at-EnvAt unnamed p env (EnvAt-kept u fresh unnamed p env (λ t e. gone p e) h),
    loads,
    release-some made (u.next_box + 1) {b = chunk_box (b ∷ s)} (ground arith),
    new_object-some (without made (u.next_box + 1)) (u.next_box + 1 + 1) function_tab
        (ground arith),
  )
    where
      one : World L
      one = with_box u (chunk_box (c ∷ name))

      both : World L
      both = with_box one (chunk_box (b ∷ s))

      unnamed : World L
      unnamed = without both u.next_box

      made : World L
      made = with_box unnamed (ref_box RefKind.function f)

      kept : (q : ℕ) {a : Box} → u.boxes q ≡ some a → both.boxes q ≡ u.boxes q
      kept q e = ground (
        arith,
        old_box u fresh u.next_box q (omega arith) e,
        old_box u fresh (u.next_box + 1) q (omega arith) e,
      )

      gone : (q : ℕ) {a : Box} → u.boxes q ≡ some a → unnamed.boxes q ≡ u.boxes q
      gone q e = ground (
        arith,
        old_box u fresh u.next_box q (omega arith) e,
        old_box u fresh (u.next_box + 1) q (omega arith) e,
      )
