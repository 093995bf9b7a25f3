-- ===== src/Callback.antt =====
-- vm/callback.go, and the wrappers of rustlib's lib.rs and userdata.rs that call it: Go closures and
-- Go values that Rust knows by a cgo handle. A closure is a number, and `call` says what it does.
pub mod Registry
pub mod Life
use gluau.Prelude.{ℕ, ◌+◌, Option, none, some, Bytes, text, update, ◌==◌, if◌then◌else◌}
use gluau.World.{
  GoCallback, DynamicData, Cell, callback, dynamic, returned, panicked, undefined, Go, World, pure,
  panic, ◌>>=◌, ◌>>◌, nil_dereference,
}

abbrev pub misuse : Bytes
misuse = text "runtime/cgo: misuse of an invalid Handle"

module _ {L : Type 0} where
  -- `cgo.NewHandle`, `Handle.Value` and `Handle.Delete`
  unfoldable pub new_handle : ℕ → Go L ℕ
  new_handle c w = returned w.next_handle (record w {
    handles = update w.handles w.next_handle (some c);
    next_handle = w.next_handle + 1;
  })

  unfoldable pub handle_value : ℕ → Go L ℕ
  handle_value h w = elim (w.handles h) [ none ↦ panicked misuse w | some c ↦ returned c w ]

  unfoldable pub handle_delete : ℕ → Go L (Unit {0})
  handle_delete h w = elim (w.handles h) [
    | none ↦ panicked misuse w
    | some c ↦ returned tt (record w { handles = update w.handles h none })
  ]

  -- `&goCallback{…}`, and reads and writes through the pointer
  unfoldable pub new_cell : Cell → Go L ℕ
  new_cell x w =
      returned w.next_cell
        (record w { cells = update w.cells w.next_cell (some x); next_cell = w.next_cell + 1 })

  unfoldable pub get_cell : ℕ → Go L Cell
  get_cell c w = elim (w.cells c) [ none ↦ undefined | some x ↦ returned x w ]

  unfoldable pub set_cell : ℕ → Cell → Go L (Unit {0})
  set_cell c x w = returned tt (record w { cells = update w.cells c (some x) })

  -- The type assertions on what a handle holds.
  abbrev pub as_callback : Cell → Go L GoCallback
  as_callback (callback g) = pure g
  as_callback (dynamic d) = panic (text "interface conversion")

  abbrev pub as_dynamic : Cell → Go L DynamicData
  as_dynamic (callback g) = panic (text "interface conversion")
  as_dynamic (dynamic d) = pure d

  unfoldable pub callback_at : ℕ → Go L GoCallback
  unfolding get_cell
  callback_at c = get_cell c >>= as_callback

  unfoldable pub dynamic_at : ℕ → Go L DynamicData
  unfolding get_cell
  dynamic_at c = get_cell c >>= as_dynamic

  unfoldable pub new_go_callback : Option ℕ → Option ℕ → Go L ℕ
  unfolding new_cell new_handle set_cell
  new_go_callback fn ondrop = do
    c ← new_cell (callback (record { handle = fn; drop = ondrop; cgo_handle = 0 }))
    h ← new_handle c
    set_cell c (callback (record { handle = fn; drop = ondrop; cgo_handle = h }))
    pure c

  unfoldable pub callback_to_c : ℕ → Go L ℕ
  unfolding callback_at
  callback_to_c c = do
    g ← callback_at c
    if g.cgo_handle == 0
        then panic (text "GoCallback is nil or already dropped")
        else pure g.cgo_handle

  abbrev pub invoke : {A : Type 0} → (ℕ → Go L A) → Option ℕ → Go L A
  invoke call none = nil_dereference
  invoke call (some f) = call f

  -- The trampoline, behind the test of Rust's `IGoCallbackWrapper::callback`, which is the same; `d`
  -- is what the caller is left with when the handle is null.
  unfoldable pub go_callback_trampoline : {A : Type 0} → (ℕ → Go L A) → A → ℕ → Go L A
  unfolding handle_value callback_at
  go_callback_trampoline call d h =
      if h == 0 then pure d else do c ← handle_value h; g ← callback_at c; invoke call g.handle

  unfoldable pub new_dynamic_data : Option ℕ → Option ℕ → Go L ℕ
  unfolding new_cell new_handle set_cell
  new_dynamic_data value ondrop = do
    c ← new_cell (dynamic (record { drop = ondrop; value = value; cgo_handle = 0 }))
    h ← new_handle c
    set_cell c (dynamic (record { drop = ondrop; value = value; cgo_handle = h }))
    pure c

  unfoldable pub get_dynamic_data : ℕ → Go L (Option ℕ)
  unfolding handle_value dynamic_at
  get_dynamic_data h =
      if h == 0 then pure none else do c ← handle_value h; d ← dynamic_at c; pure d.value

  unfoldable pub dynamic_to_c : ℕ → Go L ℕ
  unfolding dynamic_at
  dynamic_to_c c = do
    d ← dynamic_at c
    if d.cgo_handle == 0
        then panic (text "dynamicData is nil or already dropped")
        else pure d.cgo_handle

module _ {L : Type 0} (call : ℕ → Go L (Unit {0})) where
  abbrev pub run_drop : Option ℕ → Go L (Unit {0})
  run_drop none = pure tt
  run_drop (some f) = call f

  unfoldable pub drop_callback : ℕ → Go L (Unit {0})
  unfolding callback_at handle_delete set_cell
  drop_callback c = do
    g ← callback_at c
    if g.cgo_handle == 0 then pure tt else do
      run_drop g.drop
      handle_delete g.cgo_handle
      set_cell c (callback (record { handle = none; drop = none; cgo_handle = 0 }))

  unfoldable pub go_drop_trampoline : ℕ → Go L (Unit {0})
  unfolding handle_value callback_at drop_callback
  go_drop_trampoline h = do
    c ← handle_value h
    g ← callback_at c
    if g.cgo_handle == 0 then pure tt else drop_callback c

  unfoldable pub drop_dynamic : ℕ → Go L (Unit {0})
  unfolding dynamic_at handle_delete set_cell
  drop_dynamic c = do
    d ← dynamic_at c
    if d.cgo_handle == 0 then pure tt else do
      run_drop d.drop
      handle_delete d.cgo_handle
      set_cell c (dynamic (record { drop = none; value = none; cgo_handle = 0 }))

  unfoldable pub dyn_drop_trampoline : ℕ → Go L (Unit {0})
  unfolding handle_value dynamic_at drop_dynamic
  dyn_drop_trampoline h = do
    c ← handle_value h
    d ← dynamic_at c
    if d.cgo_handle == 0 then pure tt else drop_dynamic c

  -- `Drop` of `IGoCallbackWrapper` and of `DynamicData`
  unfoldable pub drop_wrapper : ℕ → Go L (Unit {0})
  unfolding go_drop_trampoline
  drop_wrapper h = if h == 0 then pure tt else go_drop_trampoline h

  unfoldable pub drop_data : ℕ → Go L (Unit {0})
  unfolding dyn_drop_trampoline
  drop_data h = if h == 0 then pure tt else dyn_drop_trampoline h
