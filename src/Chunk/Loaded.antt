-- ===== src/Chunk/Loaded.antt =====
-- What `LoadChunk` gives: a new object over the function that mluau compiled.
use gluau.Prelude.{
  ℕ, ◌+◌, ◌≡◌, refl, ◌≢◌, false, Option, none, some, [], ◌∷◌, Bytes, ap, update_self, update_ne,
  ◌∙◌, arith,
}
use gluau.World.{
  Go, catch, pure, ◌>>=◌, RefKind, Object, ref_box, chunk_box, World, returned, free_function,
}
use gluau.Mluau.{Mluau, ok}
use gluau.Ffi.Ownership.{with_box, without}
use gluau.Object.{reading, pointer_no_lock}
use gluau.Object.Locks.{held, locked, get_object-some}
use gluau.Object.Sound.{
  IsSound, Owns, new_handle, with_object, with_object-IsSound, with_box-IsSound, with_box-Unowned,
  without-IsSound,
}
use gluau.Object.Making.{reading-made}
use gluau.Handles.{GoLuaVmWrapper, LuaTable, LuaFunction, function_tab}
use gluau.Compiler.{CompilerOpts}
use gluau.Chunk.{load_with, load_chunk}
use gluau.Value.Cloning.{pointer_no_lock-open}
use gluau.Chunk.Loading.{EnvAt, described, options, loaded, function_box, load_with-loaded}
use gluau.Vm.Strings.{with_lua}
use gluau.Chunk.{with_env}

module _ {L : Type 0} where
  pointer_or_null :
      (j : ℕ) (u : World L) (eb : Object)
      → u.objects j ≡ some (locked eb)
      → catch (pointer_no_lock (some j)) (λ _. pure 0) u ≡ returned eb.ptr u
  unfolding pointer_no_lock
  pointer_or_null j u eb at = rw (get_object-some j u at) (ground arith)

  with_env-some :
      {A : Type 0} (t : LuaTable) (j : ℕ)
      → t.object ≡ some j
      → (body : ℕ → Go L A)
      → with_env (some t) body
        ≡ reading (some j) (catch (pointer_no_lock (some j)) (λ _. pure 0) >>= body)
  with_env-some t j is body = rw is refl

  -- What `LoadChunk` gets for the option `Env`: none, a closed table, or an open one.
  abbrev pub EnvIs : World L → Option LuaTable → Option ℕ → Type 0
  EnvIs w none env = env ≡ none
  EnvIs w (some t) env =
      (j : ℕ) × (eb : Object) × (t.object ≡ some j)
      × (w.objects j ≡ some eb)
      × (eb.writing ≡ false)
      × EnvAt w eb.ptr env

  different :
      (w : World L) (i j : ℕ) {ob eb : Object} (env : Option ℕ) {v : ℕ}
      → w.objects i ≡ some ob
      → ob.ptr ≢ 0
      → w.boxes ob.ptr ≡ some (ref_box RefKind.lua_vm v)
      → w.objects j ≡ some eb
      → EnvAt w eb.ptr env
      → i ≢ j
  different w i j none here ne vm there h same = ground arith
  different w i j (some t) here ne vm there h same = ground arith

  function-Owns :
      (f : ℕ) {p : ℕ} (w : World L)
      → w.boxes p ≡ some (ref_box RefKind.function f)
      → Owns w (new_handle p function_tab)
  function-Owns f w there = record {
    dtor = free_function;
    box = ref_box RefKind.function f;
    named = refl;
    there = there;
    fits = refl;
  }

  loaded-IsSound :
      (name : Bytes) (b : ℕ) (s : Bytes) (f : ℕ) (w : World L)
      → IsSound w
      → IsSound (with_object (function_box name w) function_tab (loaded name (b ∷ s) f w))
  loaded-IsSound [] b s f w sound =
      with_object-IsSound (without made w.next_box)
        (without-IsSound made w.next_box (with_box-IsSound one (ref_box RefKind.function f) first)
          (with_box-Unowned w (chunk_box (b ∷ s)) sound))
        (with_box-Unowned one (ref_box RefKind.function f) first) (function-Owns f _ (ground arith))
    where
      one : World L
      one = with_box w (chunk_box (b ∷ s))

      first : IsSound one
      first = with_box-IsSound w (chunk_box (b ∷ s)) sound

      made : World L
      made = with_box one (ref_box RefKind.function f)
  loaded-IsSound (c ∷ name) b s f w sound =
      with_object-IsSound (without made (w.next_box + 1))
        (without-IsSound made (w.next_box + 1)
          (with_box-IsSound unnamed (ref_box RefKind.function f) third)
          (with_box-Unowned one (chunk_box (b ∷ s)) first))
        (with_box-Unowned unnamed (ref_box RefKind.function f) third)
        (function-Owns f _ (ground arith))
    where
      one : World L
      one = with_box w (chunk_box (c ∷ name))

      first : IsSound one
      first = with_box-IsSound w (chunk_box (c ∷ name)) sound

      both : World L
      both = with_box one (chunk_box (b ∷ s))

      unnamed : World L
      unnamed = without both w.next_box

      third : IsSound unnamed
      third =
          without-IsSound both w.next_box (with_box-IsSound one (chunk_box (b ∷ s)) first)
            (with_box-Unowned w (chunk_box (c ∷ name)) sound)

      made : World L
      made = with_box unnamed (ref_box RefKind.function f)

  loaded-boxes :
      (name : Bytes) (b : ℕ) (s : Bytes) (f : ℕ) (w : World L)
      → IsSound w
      → (p : ℕ) → function_box name w ≢ p
      → (loaded name (b ∷ s) f w).boxes p ≡ w.boxes p
  loaded-boxes [] b s f w sound p ne = ground (arith, sound.fresh_box p)
  loaded-boxes (c ∷ name) b s f w sound p ne = ground (arith, sound.fresh_box p)

  loaded-function :
      (name : Bytes) (b : ℕ) (s : Bytes) (f : ℕ) (w : World L)
      → (loaded name (b ∷ s) f w).boxes (function_box name w) ≡ some (ref_box RefKind.function f)
  loaded-function [] b s f w = ground arith
  loaded-function (c ∷ name) b s f w = ground arith

abbrev pub vm_over : ℕ → Option GoLuaVmWrapper
vm_over i = some (record { obj = some i })

module _ {L : Type 0} (m : Mluau L) (mode : ℕ) (copts : Option CompilerOpts) (b : ℕ)
    (s name : Bytes) (i : ℕ) (v f : ℕ) where
  abbrev LoadsAs : Option LuaTable → Option ℕ → Type 0
  LoadsAs tab env =
      (x : World L)
      → m.load_chunk v (described m (options name tab mode copts b s) env) x ≡ returned (ok f) x

  -- Under the lock of the virtual machine.
  with_env-loaded :
      (tab : Option LuaTable) (env : Option ℕ) (w : World L) {ob : Object}
      → IsSound w
      → w.objects i ≡ some ob
      → ob.ptr ≢ 0
      → w.boxes ob.ptr ≡ some (ref_box RefKind.lua_vm v)
      → EnvIs w tab env
      → LoadsAs tab env
      → with_env tab
          (load_with m (vm_over i) (options name tab mode copts b s) ob.ptr)
          (held i ob w)
        ≡ returned
            (record { object = some w.next_object; lua = vm_over i })
            (with_object (function_box name w) function_tab (held i ob (loaded name (b ∷ s) f w)))
  with_env-loaded none env w {ob} sound here ne there h loads =
      load_with-loaded m none mode copts b s (vm_over i) v f env name ob.ptr 0 (held i ob w) loads
        sound.positive sound.fresh_box ne there (rw h refl)
  with_env-loaded (some t) env w {ob} sound here ne there (j, eb, is, at, free, h) loads =
      ap (λ g. g (held i ob w)) (with_env-some t j is body)
      ∙ reading-made j (function_box name w) function_tab
          (catch (pointer_no_lock (some j)) (λ _. pure 0) >>= body) (held i ob w)
          (held i ob (loaded name (b ∷ s) f w)) _ still free still new run
    where
      body : ℕ → Go L LuaFunction
      body = load_with m (vm_over i) (options name (some t) mode copts b s) ob.ptr

      still : (held i ob w).objects j ≡ some eb
      still = update_ne w.objects i _ j (different w i j env here ne there at h) ∙ at

      new : w.next_object ≢ j
      new = ground (arith, sound.fresh_object w.next_object)

      run :
          (catch (pointer_no_lock (some j)) (λ _. pure 0) >>= body) (held j eb (held i ob w))
          ≡ returned
              (record { object = some w.next_object; lua = vm_over i })
              (with_object
                (function_box name w)
                function_tab
                (held j eb (held i ob (loaded name (b ∷ s) f w))))
      run =
          rw
            (pointer_or_null j (held j eb (held i ob w)) eb (update_self (held i ob w).objects j _))
            (load_with-loaded m (some t) mode copts b s (vm_over i) v f env name ob.ptr eb.ptr
              (held j eb (held i ob w)) loads sound.positive sound.fresh_box ne there h)

  -- `LoadChunk` of a chunk with code in it asks mluau for exactly the chunk that the options
  -- describe: an empty name counts as none, a closed environment as none, and the mode and the
  -- compiler's levels are their low bytes. If mluau gives a function for it, a new object over a
  -- box of its own holds that function, every other box and object is as before, so no chunk
  -- string is left, and the ownership invariant holds.
  pub load_chunk-loaded :
      (tab : Option LuaTable) (env : Option ℕ) (w : World L) {ob : Object}
      → IsSound w
      → w.objects i ≡ some ob
      → ob.writing ≡ false
      → ob.ptr ≢ 0
      → w.boxes ob.ptr ≡ some (ref_box RefKind.lua_vm v)
      → EnvIs w tab env
      → LoadsAs tab env
      → (w' : World L) × (q : ℕ) × (load_chunk m (vm_over i) (options name tab mode copts b s) w
          ≡ returned (record { object = some w.next_object; lua = vm_over i }) w')
        × (w'.objects w.next_object ≡ some (new_handle q function_tab))
        × (w'.boxes q ≡ some (ref_box RefKind.function f))
        × ((p : ℕ) → q ≢ p → w'.boxes p ≡ w.boxes p)
        × ((o : ℕ) → w.next_object ≢ o → w'.objects o ≡ w.objects o)
        × IsSound w'
  unfolding load_chunk with_lua
  load_chunk-loaded tab env w {ob} sound here free ne there h loads = (
    with_object (function_box name w) function_tab (loaded name (b ∷ s) f w),
    function_box name w,
    reading-made i (function_box name w) function_tab
        (pointer_no_lock (some i) >>= λ lua.
          with_env tab (load_with m (vm_over i) (options name tab mode copts b s) lua))
        w (loaded name (b ∷ s) f w) _ here free here
        (ground (arith, sound.fresh_object w.next_object))
        (rw (pointer_no_lock-open i (held i ob w) (update_self w.objects i _) ne)
          (with_env-loaded tab env w sound here ne there h loads)),
    update_self w.objects w.next_object _,
    loaded-function name b s f w,
    loaded-boxes name b s f w sound,
    λ o ne. update_ne w.objects w.next_object _ o ne,
    loaded-IsSound name b s f w sound,
  )
