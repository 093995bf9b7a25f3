-- ===== src/Callback/Registry.antt =====
-- The life of a registered callback or value: it is there until it is dropped, and is dropped once.
use gluau.Prelude.{
  ℕ, ◌+◌, ◌<◌, ◌≤◌, ◌≡◌, refl, ◌≢◌, Option, none, some, update, inl, inr, Bool-cases, ◌==◌, ==-ne,
  arith,
}
use gluau.World.{GoCallback, DynamicData, Cell, callback, dynamic, Go, World, returned, ◌>>=◌}
use gluau.Callback.{
  handle_value, handle_delete, get_cell, set_cell, callback_at, dynamic_at, new_go_callback,
  callback_to_c, new_dynamic_data, dynamic_to_c, run_drop, drop_callback, go_drop_trampoline,
  drop_dynamic, dyn_drop_trampoline,
}

abbrev pub cgo_handle_of : Cell → ℕ
cgo_handle_of (callback g) = g.cgo_handle
cgo_handle_of (dynamic d) = d.cgo_handle

-- Each handle in use leads to a cell that names it, and the numbers to come are free.
pub record IsConsistent {L : Type 0} (w : World L) : Type 0 where
  pub positive : 0 < w.next_handle
  pub null : w.handles 0 ≡ none
  pub fresh_handle : (h : ℕ) → w.next_handle ≤ h → w.handles h ≡ none
  pub fresh_cell : (c : ℕ) → w.next_cell ≤ c → w.cells c ≡ none
  pub named :
      (h c : ℕ) → w.handles h ≡ some c → (x : Cell) × (w.cells c ≡ some x) × (cgo_handle_of x ≡ h)

module _ {L : Type 0} where
  -- The world after a cell `x` was registered.
  abbrev pub registered : World L → Cell → World L
  registered w x = record w {
    cells = update w.cells w.next_cell (some x);
    next_cell = w.next_cell + 1;
    handles = update w.handles w.next_handle (some w.next_cell);
    next_handle = w.next_handle + 1;
  }

  -- The world after the cell `c` under the handle `h` was dropped.
  abbrev pub dropped : World L → ℕ → ℕ → Cell → World L
  dropped w h c x = record w {
    cells = update w.cells c (some x);
    handles = update w.handles h none;
  }

  pub registered-IsConsistent :
      (w : World L) (x : Cell)
      → cgo_handle_of x ≡ w.next_handle
      → IsConsistent w
      → IsConsistent (registered w x)
  registered-IsConsistent w x names s = record {
    positive = omega (arith, s.positive);
    null = ground (arith, s.null, s.positive);
    fresh_handle = λ h le. ground (arith, s.fresh_handle h);
    fresh_cell = λ c le. ground (arith, s.fresh_cell c);
    named = λ h c e. elim (Bool-cases (w.next_handle == h)) [
      | inl new ↦ (x, ground arith, ground arith)
      | inr old ↦
          let was : (y : Cell) × (w.cells c ≡ some y) × (cgo_handle_of y ≡ h) =
            s.named h c (ground arith) in
          (was.0, ground (arith, was.1, s.fresh_cell c), was.2)
    ];
  }

  pub dropped-IsConsistent :
      (w : World L) (h c : ℕ) (x : Cell)
      → w.handles h ≡ some c
      → IsConsistent w
      → IsConsistent (dropped w h c x)
  dropped-IsConsistent w h c x there s = record {
    positive = s.positive;
    null = ground (arith, s.null);
    fresh_handle = λ h' le. ground (arith, s.fresh_handle h' le);
    fresh_cell = λ c' le. ground (arith, s.fresh_cell c' le, s.named h c there);
    named = λ h' c' e.
        let was : (y : Cell) × (w.cells c' ≡ some y) × (cgo_handle_of y ≡ h') =
          s.named h' c' (ground arith) in
        let own : (y : Cell) × (w.cells c ≡ some y) × (cgo_handle_of y ≡ h) = s.named h c there in
        (was.0, ground (arith, was.1, was.2, own.1, own.2), was.2);
  }

-- `newGoCallback` or `newDynamicData`, and `ToC`.
unfoldable pub register : {L : Type 0} → Cell → Go L ℕ
unfolding new_go_callback new_dynamic_data callback_to_c dynamic_to_c
register (callback g) = new_go_callback g.handle g.drop >>= callback_to_c
register (dynamic d) = new_dynamic_data d.value d.drop >>= dynamic_to_c

-- What a drop leaves in the cell.
abbrev pub emptied : Cell → Cell
emptied (callback g) = callback (record { handle = none; drop = none; cgo_handle = 0 })
emptied (dynamic d) = dynamic (record { drop = none; value = none; cgo_handle = 0 })

module _ {L : Type 0} where
  pub handle_value-some :
      (h c : ℕ) (w : World L) → w.handles h ≡ some c → handle_value h w ≡ returned c w
  unfolding handle_value
  handle_value-some h c w there = rw (there, handle_value) refl

  handle_delete-some :
      (h c : ℕ) (w : World L)
      → w.handles h ≡ some c
      → handle_delete h w ≡ returned tt (record w { handles = update w.handles h none })
  unfolding handle_delete
  handle_delete-some h c w there = rw (there, handle_delete) refl

  get_cell-some :
      (c : ℕ) (x : Cell) (w : World L) → w.cells c ≡ some x → get_cell c w ≡ returned x w
  unfolding get_cell
  get_cell-some c x w at = rw (at, get_cell) refl

  pub callback_at-some :
      (c : ℕ) (g : GoCallback) (w : World L)
      → w.cells c ≡ some (callback g)
      → callback_at c w ≡ returned g w
  unfolding callback_at
  callback_at-some c g w at = rw (get_cell-some c (callback g) w at) refl

  pub dynamic_at-some :
      (c : ℕ) (d : DynamicData) (w : World L)
      → w.cells c ≡ some (dynamic d)
      → dynamic_at c w ≡ returned d w
  unfolding dynamic_at
  dynamic_at-some c d w at = rw (get_cell-some c (dynamic d) w at) refl

module _ {L : Type 0} (call : ℕ → Go L (Unit {0})) where
  -- The trampoline by which Rust drops what is in a cell.
  unfoldable pub drop_trampoline : Cell → ℕ → Go L (Unit {0})
  unfolding go_drop_trampoline dyn_drop_trampoline
  drop_trampoline (callback g) = go_drop_trampoline call
  drop_trampoline (dynamic d) = dyn_drop_trampoline call

  run_drop-quiet :
      (d : Option ℕ) (w : World L)
      → ((f : ℕ) (u : World L) → call f u ≡ returned tt u)
      → run_drop call d w ≡ returned tt w
  run_drop-quiet none w quiet = refl
  run_drop-quiet (some f) w quiet = quiet f w

  pub drop_trampoline-dropped :
      (x : Cell) (h c : ℕ) (w : World L)
      → ((f : ℕ) (u : World L) → call f u ≡ returned tt u)
      → w.handles h ≡ some c
      → w.cells c ≡ some x
      → cgo_handle_of x ≡ h
      → h ≢ 0
      → drop_trampoline x h w ≡ returned tt (dropped w h c (emptied x))
  unfolding drop_trampoline go_drop_trampoline dyn_drop_trampoline drop_callback drop_dynamic
      set_cell
  drop_trampoline-dropped (callback g) h c w quiet there at own ne =
      rw
        (
          handle_value-some h c w there,
          callback_at-some c g w at,
          own,
          ==-ne h 0 ne,
          callback_at-some c g w at,
          own,
          ==-ne h 0 ne,
          run_drop-quiet g.drop w quiet,
          handle_delete-some h c w there,
        )
        refl
  drop_trampoline-dropped (dynamic d) h c w quiet there at own ne =
      rw
        (
          handle_value-some h c w there,
          dynamic_at-some c d w at,
          own,
          ==-ne h 0 ne,
          dynamic_at-some c d w at,
          own,
          ==-ne h 0 ne,
          run_drop-quiet d.drop w quiet,
          handle_delete-some h c w there,
        )
        refl
