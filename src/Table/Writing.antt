-- ===== src/Table/Writing.antt =====
-- `Set` and then `Get`.
use gluau.Prelude.{ℕ, ◌≡◌, refl, ◌∙◌, Option, some, ==-ne, arith}
use gluau.World.{World, returned, ◌>>◌}
use gluau.Mluau.{Mluau, ok}
use gluau.Object.Locks.{held, rlock-held, runlock-held}
use gluau.Object.Sound.{IsSound, Owns-move}
use gluau.Handles.{GoLuaVmWrapper}
use gluau.Result.{c_result, go_result}
use gluau.Value.Types.{Value}
use gluau.Value.Scalars.{IsScalar}
use gluau.Value.Sending.{sent, received, value_to_c-encode, to_value-encode}
use gluau.Value.Cloning.{Cloned, wrap}
use gluau.Table.{set, get}
use gluau.Table.Calls.{table_over}
use gluau.Table.Keys.{
  Ready, sent_key, spent, spent-IsSound, keyed, inner_ptr-ready, value_to_c-key, read_ref-table,
  to_value-key,
}
use gluau.Table.Lookup.{get-found}

module _ {L : Type 0} (m : Mluau L) {w : World L} {o i : ℕ} {k : Cloned}
    (lua f : Option GoLuaVmWrapper) (v : Value) (r : Ready w o k i) (scalar : IsScalar v)
    (put : L → L) where
  -- The world after `Set`.
  abbrev written : World L
  written = record (spent m r) { lua = put w.lua }

  set-written :
      ((u : World L)
        → m.set r.table_ref (sent_key m r) (sent v) u
          ≡ returned (ok tt) (record u { lua = put u.lua }))
      → set m (table_over lua o) (some (wrap k f i)) (some v) w ≡ returned tt written
  unfolding set c_result go_result
  set-written stores = rw (
    rlock-held o w r.table_here r.table_free,
    inner_ptr-ready m r lua,
    value_to_c-key m r lua f,
    value_to_c-encode m lua v (held o r.table (keyed m r)) scalar,
    ==-ne r.table.ptr 0 r.table_open,
    read_ref-table m r,
    to_value-key m r,
    to_value-encode m v (held o r.table (spent m r)) scalar,
    stores,
    runlock-held o written r.table_here,
  )

  -- The box of the key is gone again.
  written-boxes : (p : ℕ) → written.boxes p ≡ w.boxes p
  written-boxes p = ground (arith, r.sound.fresh_box p)

  written-IsSound : IsSound written
  written-IsSound = record {
    null = written-boxes 0 ∙ r.sound.null;
    positive = omega arith;
    fresh_box = λ p h. written-boxes p ∙ r.sound.fresh_box p (omega arith);
    fresh_object = r.sound.fresh_object;
    owns = λ j ob e ne. Owns-move (r.sound.owns j ob e ne) (written-boxes ob.ptr);
    apart = r.sound.apart;
  }

  written-Ready : Ready written o k i
  written-Ready = record {
    table = r.table;
    table_ref = r.table_ref;
    key = r.key;
    key_ref = r.key_ref;
    sound = written-IsSound;
    table_here = r.table_here;
    table_free = r.table_free;
    table_open = r.table_open;
    table_box = written-boxes r.table.ptr ∙ r.table_box;
    key_here = r.key_here;
    key_free = r.key_free;
    key_open = r.key_open;
    key_box = written-boxes r.key.ptr ∙ r.key_box;
    different = r.different;
  }

  -- mluau's `set` stores the scalar under the key, and touches nothing but the state of Lua; `get` finds
  -- it there afterwards. Then `Set` of an open key and a scalar returns, `Get` of the same key returns the
  -- scalar (nil for `ValueOther`), and every box, object and lock is as before.
  pub get-set :
      ((u : World L)
        → m.set r.table_ref (sent_key m r) (sent v) u
          ≡ returned (ok tt) (record u { lua = put u.lua }))
      → ((u : World L)
          → u.lua ≡ put w.lua
          → m.get r.table_ref (sent_key m r) u ≡ returned (ok (sent v)) u)
      → (w' : World L) × ((set m (table_over lua o) (some (wrap k f i)) (some v)
              >> get m (table_over lua o) (some (wrap k f i)))
            w
          ≡ returned (received v) w')
        × ((p : ℕ) → w'.boxes p ≡ w.boxes p)
        × ((j : ℕ) → w'.objects j ≡ w.objects j)
        × (w'.lua ≡ put w.lua)
        × IsSound w'
  unfolding written-Ready
  get-set stores finds = (
    spent m written-Ready,
    rw (set-written stores) (
        get-found m lua f v written-Ready scalar
          (finds (held o r.table (spent m written-Ready)) refl)),
    λ p. ground (arith, written-boxes p, written-IsSound.fresh_box p),
    λ j. refl,
    refl,
    spent-IsSound m written-Ready,
  )
