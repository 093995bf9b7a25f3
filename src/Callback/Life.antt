-- ===== src/Callback/Life.antt =====
-- What a new registration gives, and what the drop of one does.
use gluau.Prelude.{
  ℕ, ◌≡◌, refl, ◌≢◌, none, some, update_self, update_ne, update-update, ==-ne, arith,
}
use gluau.World.{DynamicData, Cell, callback, dynamic, Go, World, returned, panicked, ◌>>=◌}
use gluau.Callback.{
  misuse, new_handle, handle_value, new_cell, set_cell, new_go_callback, callback_to_c,
  new_dynamic_data, get_dynamic_data, dynamic_to_c, go_drop_trampoline, dyn_drop_trampoline,
}
use gluau.Callback.Registry.{
  IsConsistent, cgo_handle_of, registered, dropped, registered-IsConsistent, dropped-IsConsistent,
  register, drop_trampoline, emptied, handle_value-some, callback_at-some, dynamic_at-some,
  drop_trampoline-dropped,
}

-- A cell that knows its handle.
abbrev pub named_as : Cell → ℕ → Cell
named_as (callback g) h = callback (record g { cgo_handle = h })
named_as (dynamic d) h = dynamic (record d { cgo_handle = h })

cgo_handle_of-named_as : (x : Cell) (h : ℕ) → cgo_handle_of (named_as x h) ≡ h
cgo_handle_of-named_as (callback g) h = refl
cgo_handle_of-named_as (dynamic d) h = refl

module _ {L : Type 0} (w : World L) (s : IsConsistent w) where
  not_null : w.next_handle ≢ 0
  not_null = ground (arith, s.positive)

  pub register-registered :
      (x : Cell) → register x w ≡ returned w.next_handle (registered w (named_as x w.next_handle))
  unfolding register new_go_callback new_dynamic_data callback_to_c dynamic_to_c new_cell new_handle
      set_cell
  register-registered (callback g) =
      rw
        (
          update-update w.cells w.next_cell (some (named_as (callback g) 0))
              (some (named_as (callback g) w.next_handle)),
          callback_at-some w.next_cell (record g { cgo_handle = w.next_handle })
              (registered w (named_as (callback g) w.next_handle))
              (update_self w.cells w.next_cell _),
          ==-ne w.next_handle 0 not_null,
        )
        refl
  register-registered (dynamic d) =
      rw
        (
          update-update w.cells w.next_cell (some (named_as (dynamic d) 0))
              (some (named_as (dynamic d) w.next_handle)),
          dynamic_at-some w.next_cell (record d { cgo_handle = w.next_handle })
              (registered w (named_as (dynamic d) w.next_handle))
              (update_self w.cells w.next_cell _),
          ==-ne w.next_handle 0 not_null,
        )
        refl

module _ {L : Type 0} where
  handle_value-none :
      (h : ℕ) (w : World L) → w.handles h ≡ none → handle_value h w ≡ panicked misuse w
  unfolding handle_value
  handle_value-none h w gone = rw (gone, handle_value) refl

  -- A Go value that is registered for a userdata is what its handle gives back, and the registry is
  -- still consistent.
  get_dynamic_data-register :
      (d : DynamicData) (w : World L)
      → IsConsistent w
      → (w' : World L) × ((register (dynamic d) >>= get_dynamic_data) w ≡ returned d.value w')
        × IsConsistent w'
  unfolding get_dynamic_data
  get_dynamic_data-register d w s = (
    registered w (named_as (dynamic d) w.next_handle),
    rw
        (
          register-registered w s (dynamic d),
          ==-ne w.next_handle 0 (not_null w s),
          handle_value-some w.next_handle w.next_cell
              (registered w (named_as (dynamic d) w.next_handle))
              (update_self w.handles w.next_handle _),
          dynamic_at-some w.next_cell (record d { cgo_handle = w.next_handle })
              (registered w (named_as (dynamic d) w.next_handle))
              (update_self w.cells w.next_cell _),
        )
        refl,
    registered-IsConsistent w (named_as (dynamic d) w.next_handle)
        (cgo_handle_of-named_as (dynamic d) w.next_handle) s,
  )

  module _ (call : ℕ → Go L (Unit {0})) where
    drop_trampoline-none :
        (x : Cell) (h : ℕ) (w : World L)
        → w.handles h ≡ none
        → drop_trampoline call x h w ≡ panicked misuse w
    unfolding drop_trampoline go_drop_trampoline dyn_drop_trampoline
    drop_trampoline-none (callback g) h w gone = rw (handle_value-none h w gone) refl
    drop_trampoline-none (dynamic d) h w gone = rw (handle_value-none h w gone) refl

    -- In a consistent registry a callback or value is dropped once: if its drop closure leaves the
    -- world alone, Rust's drop frees its handle and no other, and keeps the registry consistent; a
    -- second drop by that handle panics, and so does a read of the data.
    pub drop_trampoline-once :
        (x : Cell) (h c : ℕ) (w : World L)
        → IsConsistent w
        → ((f : ℕ) (u : World L) → call f u ≡ returned tt u)
        → w.handles h ≡ some c
        → w.cells c ≡ some x
        → (w' : World L) × (drop_trampoline call x h w ≡ returned tt w')
          × IsConsistent w'
          × (w'.handles h ≡ none)
          × ((k : ℕ) → h ≢ k → w'.handles k ≡ w.handles k)
          × ((y : Cell) → drop_trampoline call y h w' ≡ panicked misuse w')
          × (get_dynamic_data h w' ≡ panicked misuse w')
    unfolding get_dynamic_data
    drop_trampoline-once x h c w s quiet there at = (
      after,
      drop_trampoline-dropped call x h c w quiet there at own ne,
      dropped-IsConsistent w h c (emptied x) there s,
      gone,
      λ k other. update_ne w.handles h none k other,
      λ y. drop_trampoline-none y h after gone,
      rw (==-ne h 0 ne, handle_value-none h after gone) refl,
    )
      where
        after : World L
        after = dropped w h c (emptied x)

        gone : after.handles h ≡ none
        gone = update_self w.handles h none

        ne : h ≢ 0
        ne = ground (arith, s.null, there)

        own : cgo_handle_of x ≡ h
        own =
            let n : (y : Cell) × (w.cells c ≡ some y) × (cgo_handle_of y ≡ h) = s.named h c there in
            ground (arith, n.1, n.2, at)
