-- ===== src/Userdata/Creation.antt =====
-- `CreateUserData`, and `AssociatedData` of what it has made.
use gluau.Prelude.{
  ℕ, ◌≡◌, refl, sym, ap, ◌∙◌, ◌≢◌, false, Option, some, update_self, update_ne, ==-ne, arith,
}
use gluau.World.{
  and_then, DynamicData, dynamic, RefKind, Object, ref_box, World, Go, returned, pure, ◌>>=◌,
}
use gluau.Mluau.{Mluau, ok}
use gluau.Ffi.Ownership.{with_box, read_ref-some}
use gluau.Object.{pointer_no_lock, new_object, reading}
use gluau.Object.Locks.{held}
use gluau.Object.Making.{reading-made}
use gluau.Object.Sound.{IsSound, with_object}
use gluau.Handles.{GoLuaVmWrapper, LuaUserData, userdata_tab}
use gluau.Result.{boxed_result, go_result}
use gluau.Value.Cloning.{pointer_no_lock-open}
use gluau.Callback.{new_dynamic_data, dynamic_to_c}
use gluau.Callback.Registry.{IsConsistent, registered, registered-IsConsistent, register}
use gluau.Callback.Life.{register-registered}
use gluau.Table.Ranging.{and_then_assoc}
use gluau.Vm.Strings.{with_lua}
use gluau.Userdata.{luago_create_userdata, create_with, create_user_data, associated_data}
use gluau.Userdata.Data.{data_result, associated_data-value}

-- The Go data of a new userdata.
abbrev pub data_cell : Option ℕ → ℕ → DynamicData
data_cell value h = record { drop = some 0; value = value; cgo_handle = h }

module _ {L : Type 0} (value : Option ℕ) where
  -- `newDynamicData(…)` and `ToC()` give the next handle.
  register_then :
      {A : Type 0} (k : ℕ → Go L A) (w : World L)
      → IsConsistent w
      → (new_dynamic_data value (some 0) >>= λ c. dynamic_to_c c >>= k) w
        ≡ k w.next_handle (registered w (dynamic (data_cell value w.next_handle)))
  unfolding register
  register_then k w s =
      sym (and_then_assoc (new_dynamic_data value (some 0) w) dynamic_to_c k)
      ∙ ap (λ r. and_then r k) (register-registered w s (dynamic (data_cell value 0)))

  -- The world after the data was registered and Rust has boxed the userdata.
  abbrev boxed : ℕ → World L → World L
  boxed r w =
      with_box (registered w (dynamic (data_cell value w.next_handle)))
        (ref_box RefKind.user_data r)

module _ {L : Type 0} (m : Mluau L) (call : ℕ → Go L (Unit {0})) (l : Option GoLuaVmWrapper)
    (value : Option ℕ) (v t r : ℕ) where
  -- `CreateUserData` from the call of Rust on.
  creating : ℕ → ℕ → ℕ → Go L LuaUserData
  creating p q h = do
    res ← luago_create_userdata m call p h q
    ud ← go_result res
    o ← new_object ud userdata_tab
    pure (record { lua = l; object = o })

  create_with-boxed :
      (p q : ℕ) (w : World L)
      → IsConsistent w
      → ((u : World L) → m.create_dynamic_userdata v w.next_handle t u ≡ returned (ok r) u)
      → p ≢ 0
      → q ≢ 0
      → w.next_box ≢ 0
      → w.boxes p ≡ some (ref_box RefKind.lua_vm v)
      → w.boxes q ≡ some (ref_box RefKind.table t)
      → create_with m call l value p q w
        ≡ returned
            (record { lua = l; object = some w.next_object })
            (with_object w.next_box userdata_tab (boxed value r w))
  unfolding create_with creating luago_create_userdata boxed_result go_result
  create_with-boxed p q w s makes pne qne pos vm mt =
      register_then value (creating p q) w s
      ∙ rw (
        ==-ne p 0 pne,
        ==-ne q 0 qne,
        read_ref-some (registered w (dynamic (data_cell value w.next_handle))) RefKind.lua_vm p vm,
        read_ref-some (registered w (dynamic (data_cell value w.next_handle))) RefKind.table q mt,
        makes,
        ==-ne w.next_box 0 pos,
      )

-- The registry does not depend on objects.
held-IsConsistent :
    {L : Type 0} (o : ℕ) (ob : Object) (w : World L) → IsConsistent w → IsConsistent (held o ob w)
held-IsConsistent o ob w s = record {
  positive = s.positive;
  null = s.null;
  fresh_handle = s.fresh_handle;
  fresh_cell = s.fresh_cell;
  named = s.named;
}

abbrev pub vm_at : ℕ → Option GoLuaVmWrapper
vm_at i = some (record { obj = some i })

-- An object that is open over a box with `r`, and that nobody closes.
pub record IsOpen {L : Type 0} (w : World L) (k : RefKind) (o r : ℕ) : Type 0 where
  pub object : Object
  pub here : w.objects o ≡ some object
  pub free : object.writing ≡ false
  pub set : object.ptr ≢ 0
  pub there : w.boxes object.ptr ≡ some (ref_box k r)

module _ {L : Type 0} (m : Mluau L) (call : ℕ → Go L (Unit {0})) (value : Option ℕ) {w : World L}
    (i j v t r : ℕ) (sound : IsSound w) (s : IsConsistent w) (vm : IsOpen w RefKind.lua_vm i v)
    (mt : IsOpen w RefKind.table j t)
    (makes : (u : World L)
      → m.create_dynamic_userdata v w.next_handle t u ≡ returned (ok r) u) where
  made : LuaUserData
  made = record { lua = vm_at i; object = some w.next_object }

  apart : i ≢ j
  apart same = absurd (ground (arith, vm.here, mt.here))

  -- Under the lock of the virtual machine.
  under_vm : World L
  under_vm = held i vm.object w

  used_object : (o : ℕ) (ob : Object) → w.objects o ≡ some ob → w.next_object ≢ o
  used_object o ob here = ground (arith, sound.fresh_object o)

  here_under_vm : under_vm.objects j ≡ some mt.object
  unfolding under_vm
  here_under_vm = update_ne w.objects i _ j apart ∙ mt.here

  inner :
      reading
        (some j)
        (pointer_no_lock (some j) >>= create_with m call (vm_at i) value vm.object.ptr)
        under_vm
      ≡ returned made (with_object w.next_box userdata_tab (boxed value r under_vm))
  unfolding made under_vm
  inner =
      reading-made j w.next_box userdata_tab
        (pointer_no_lock (some j) >>= create_with m call (vm_at i) value vm.object.ptr) under_vm
        (boxed value r under_vm) made here_under_vm mt.free here_under_vm
        (used_object j mt.object mt.here)
        (rw
          (pointer_no_lock-open j (held j mt.object under_vm) (update_self under_vm.objects j _)
            mt.set)
          (create_with-boxed m call (vm_at i) value v t r vm.object.ptr mt.object.ptr
            (held j mt.object under_vm)
            (held-IsConsistent j mt.object under_vm (held-IsConsistent i vm.object w s)) makes
            vm.set mt.set (ground (arith, sound.positive)) vm.there mt.there))

  -- The world after `CreateUserData`.
  after : World L
  after = with_object w.next_box userdata_tab (boxed value r w)

  create_user_data-made :
      (lt : Option GoLuaVmWrapper)
      → create_user_data m call (vm_at i) value (some (record { lua = lt; object = some j })) w
        ≡ returned made after
  unfolding create_user_data with_lua after under_vm
  create_user_data-made lt =
      reading-made i w.next_box userdata_tab
        (pointer_no_lock (some i) >>= λ p.
          reading (some j) (pointer_no_lock (some j) >>= create_with m call (vm_at i) value p))
        w (boxed value r w) made vm.here vm.free vm.here (used_object i vm.object vm.here)
        (rw (pointer_no_lock-open i under_vm (update_self w.objects i _) vm.set) inner)

  after-IsConsistent : IsConsistent after
  unfolding after
  after-IsConsistent =
      let was = registered-IsConsistent w (dynamic (data_cell value w.next_handle)) refl s in
      record {
        positive = was.positive;
        null = was.null;
        fresh_handle = was.fresh_handle;
        fresh_cell = was.fresh_cell;
        named = was.named;
      }

  -- The virtual machine and the metatable are open, and mluau makes a userdata that keeps the handle
  -- it is given. Then `CreateUserData` returns a new userdata, with a box of its own, and
  -- `AssociatedData` of it gives back the Go value, or an internal error if that is nil. The other objects,
  -- with their locks, and the other boxes are as before, and the registry of handles is consistent.
  pub associated_data-create_user_data :
      (lt : Option GoLuaVmWrapper)
      → ((u : World L) → m.dynamic_data r u ≡ returned (ok w.next_handle) u)
      → (ud : LuaUserData) × (w' : World L) × (create_user_data m call
            (vm_at i)
            value
            (some (record { lua = lt; object = some j }))
            w
          ≡ returned ud w')
        × (associated_data m ud w' ≡ data_result value w')
        × ((o : ℕ) → w.next_object ≢ o → w'.objects o ≡ w.objects o)
        × ((p : ℕ) → w.next_box ≢ p → w'.boxes p ≡ w.boxes p)
        × IsConsistent w'
  unfolding after made
  associated_data-create_user_data lt keeps = (
    made,
    after,
    create_user_data-made lt,
    associated_data-value m w.next_object r w.next_handle w.next_cell after
        (data_cell value w.next_handle) (update_self w.objects w.next_object _) refl
        (ground (arith, sound.positive)) (update_self w.boxes w.next_box _) keeps after-IsConsistent
        (update_self w.handles w.next_handle _) (update_self w.cells w.next_cell _) (vm_at i) value
        refl,
    λ o ne. update_ne w.objects w.next_object _ o ne,
    λ p ne. update_ne w.boxes w.next_box _ p ne,
    after-IsConsistent,
  )
