-- ===== src/Table/Leak.antt =====
-- `Set` and `RawSet` with a value that cannot be converted: the copy of the key is left behind.
use gluau.Prelude.{ℕ, ◌≡◌, ◌≢◌, ◌∙◌, false, Option, none, some, update_self, update_ne, arith}
use gluau.World.{Object, ref_box, World, failed}
use gluau.Mluau.{Mluau}
use gluau.Object.Locks.{held, rlock-held, runlock-held}
use gluau.Object.Sound.{IsSound, Unowned, with_box-IsSound, with_box-Unowned}
use gluau.Handles.{GoLuaVmWrapper}
use gluau.Value.Convert.{value_to_c}
use gluau.Value.Cloning.{Cloned, kind_of, wrap}
use gluau.Value.Refused.{Held, value_over, closed_message, value_to_c-closed}
use gluau.Table.{raw_set, set}
use gluau.Table.Calls.{table_over}
use gluau.Table.Keys.{Ready, keyed, inner_ptr-ready, value_to_c-key}

-- With an open key and a closed value, `Set` and `RawSet` fail with the message for the value, and
-- leave a live box, the copy of the key, that no object owns; so nothing will free it.
pub set-leaks :
    {L : Type 0} (m : Mluau L) {w : World L} {o i : ℕ} {k : Cloned}
    (lua f g : Option GoLuaVmWrapper) (h : Held) (j : ℕ) {ob : Object} (r : Ready w o k i)
    → w.objects j ≡ some ob
    → ob.writing ≡ false
    → ob.ptr ≡ 0
    → (w' : World L) × (set m (table_over lua o) (some (wrap k f i)) (some (value_over h g j)) w
        ≡ failed (closed_message h) w')
      × (raw_set m (table_over lua o) (some (wrap k f i)) (some (value_over h g j)) w
          ≡ failed (closed_message h) w')
      × IsSound w'
      × (w.boxes w.next_box ≡ none)
      × (w'.boxes w.next_box ≡ some (ref_box (kind_of k) r.key_ref))
      × Unowned w' w.next_box
unfolding set raw_set
set-leaks {L} m {w} {o} {i} {k} lua f g h j {ob} r here free gone = (
  keyed m r,
  rw (
    rlock-held o w r.table_here r.table_free,
    inner_ptr-ready m r lua,
    value_to_c-key m r lua f,
    refused,
    runlock-held o (keyed m r) r.table_here,
  ),
  rw (
    rlock-held o w r.table_here r.table_free,
    inner_ptr-ready m r lua,
    value_to_c-key m r lua f,
    refused,
    runlock-held o (keyed m r) r.table_here,
  ),
  with_box-IsSound w (ref_box (kind_of k) r.key_ref) r.sound,
  r.sound.fresh_box w.next_box (omega arith),
  update_self w.boxes w.next_box _,
  with_box-Unowned w (ref_box (kind_of k) r.key_ref) r.sound,
)
  where
    other : o ≢ j
    other e = ground (arith, r.table_here, r.table_open)

    refused :
        value_to_c m lua (some (value_over h g j)) (held o r.table (keyed m r))
        ≡ failed (closed_message h) (held o r.table (keyed m r))
    refused =
        value_to_c-closed m j (held o r.table (keyed m r)) (update_ne w.objects o _ j other ∙ here)
          free h lua g gone
