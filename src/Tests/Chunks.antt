-- ===== src/Tests/Chunks.antt =====
-- The theorems on chunks, errors and strings, at a world with an open virtual machine.
use gluau.Prelude.{
  Bytes, ◌≡◌, refl, ◌↔◌, ◌<◌, ◌^◌, ◌≢◌, ℕ, false, none, some, [], ◌∷◌, length, arith,
}
use gluau.World.{RefKind, LuaValue, World, ref_box, chunk_box, returned, failed, free_lua_vm, ◌>>=◌}
use gluau.Mluau.{err}
use gluau.Ffi.Boxes.{has_nul}
use gluau.Ffi.Ownership.{with_box}
use gluau.Object.Sound.{
  IsSound, Unowned, new_handle, with_object, with_object-IsSound, with_box-IsSound,
  with_box-Unowned,
}
use gluau.Handles.{lua_vm_tab, function_tab}
use gluau.Result.{without_nul}
use gluau.Result.Errors.{passed_on, passed_on-err}
use gluau.Vm.Create.{create_error_variant}
use gluau.Chunk.{load_chunk}
use gluau.Chunk.Loading.{options}
use gluau.Chunk.Loaded.{vm_over, load_chunk-loaded}
use gluau.Chunk.Empty.{null_message, no_code, load_chunk-empty}
use gluau.Strings.{bytes, error_bytes}
use gluau.Strings.Copying.{bytes-exact, error_text_of, error_bytes-create_error_variant}
use gluau.Tests.Demo.{Lua, lua, nothing, nothing-IsSound, open_world, open_world-IsSound}

abbrev vm_world : World Lua
vm_world = with_object 1 lua_vm_tab (with_box nothing (ref_box RefKind.lua_vm 1))

vm_world-IsSound : IsSound vm_world
vm_world-IsSound =
    with_object-IsSound (with_box nothing (ref_box RefKind.lua_vm 1))
      (with_box-IsSound nothing (ref_box RefKind.lua_vm 1) nothing-IsSound)
      (with_box-Unowned nothing (ref_box RefKind.lua_vm 1) nothing-IsSound)
      (record {
        dtor = free_lua_vm;
        box = ref_box RefKind.lua_vm 1;
        named = refl;
        there = refl;
        fits = refl;
      })

load_chunk-loaded_example :
    (w' : World Lua) × (q : ℕ) × (load_chunk lua
        (vm_over 0)
        (options (97 ∷ []) none 257 none 98 [])
        vm_world
      ≡ returned (record { object = some 1; lua = vm_over 0 }) w')
    × (w'.objects 1 ≡ some (new_handle q function_tab))
    × (w'.boxes q ≡ some (ref_box RefKind.function 11))
    × ((p : ℕ) → q ≢ p → w'.boxes p ≡ vm_world.boxes p)
    × ((o : ℕ) → 1 ≢ o → w'.objects o ≡ vm_world.objects o)
    × IsSound w'
load_chunk-loaded_example =
    load_chunk-loaded lua 257 none 98 [] (97 ∷ []) 0 1 11 none none vm_world vm_world-IsSound refl
      refl (omega arith) refl refl (λ x. refl)

load_chunk-empty_example :
    (w' : World Lua) × (load_chunk lua (vm_over 0) (no_code (97 ∷ []) 0 none) vm_world
      ≡ failed null_message w')
    × IsSound w'
    × (vm_world.boxes vm_world.next_box ≡ none)
    × (w'.boxes vm_world.next_box ≡ some (chunk_box (97 ∷ [])))
    × Unowned w' vm_world.next_box
load_chunk-empty_example =
    load_chunk-empty lua 0 97 [] 0 none vm_world vm_world-IsSound refl refl (omega arith)

passed_on-err_example :
    (w' : World Lua) × (passed_on LuaValue.nil (err (97 ∷ 0 ∷ [])) vm_world
      ≡ failed (without_nul (97 ∷ 0 ∷ [])) w')
    × (has_nul (without_nul (97 ∷ 0 ∷ [])) ≡ false)
    × ((p : ℕ) → w'.boxes p ≡ vm_world.boxes p)
    × ((o : ℕ) → w'.objects o ≡ vm_world.objects o)
    × IsSound w'
passed_on-err_example = passed_on-err LuaValue.nil (97 ∷ 0 ∷ []) vm_world vm_world-IsSound

abbrev hi : Bytes
hi = 104 ∷ 105 ∷ []

bytes-exact_example :
    (bytes lua (record { object = some 0 }) open_world ≡ returned (some hi) open_world)
    ↔ (length hi < 2 ^ 31)
bytes-exact_example = bytes-exact lua 0 7 hi open_world refl refl (omega arith) refl (λ u. refl)

error_bytes-create_error_variant_example :
    (w' : World Lua) × ((create_error_variant (97 ∷ []) >>= error_bytes lua) open_world
      ≡ returned (some (error_text_of lua (97 ∷ []))) w')
    × IsSound w'
error_bytes-create_error_variant_example =
    error_bytes-create_error_variant lua (97 ∷ []) open_world open_world-IsSound (omega arith)
