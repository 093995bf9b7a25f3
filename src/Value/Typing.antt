-- ===== src/Value/Typing.antt =====
-- Types for the values of vm/value.go: which objects and boxes of a world a value may name. The Go code
-- casts a value's pointer, and Rust the box behind it, on the tag alone.
pub mod Boxes
pub mod Keeping
pub mod Taken
pub mod Made
pub mod Sent
pub mod Arriving
pub mod Closed
pub mod Safe
pub mod Waiting
pub mod Runs
use gluau.Prelude.{
  ◌⊎◌, ℕ, refl, Bytes, ◌≡◌, ◌≢◌, Option, none, some, true, false, Bool, List, [], ◌∷◌,
}
use gluau.World.{
  RefKind, Object, ObjectTab, Box, ref_box, error_box, World, Run, returned, failed, panicked,
  undefined, blocked, Go, and_then, on_error,
}
use gluau.Handles.{GoLuaVmWrapper, lua_vm_tab, table_tab, error_variant_tab}
use gluau.Object.Sound.{IsSound, Unowned}
use gluau.Object.Closing.{IsIdle}
use gluau.Value.Types.{LuaValueType, Value}
use gluau.Value.Clone.{GoLuaValue}
use gluau.Value.Cloning.{Cloned, tab_of, wrap}
use gluau.Value.ErrorValues.{error_over}

-- A sound world in which no object is being closed; some may be read.
pub record IsCalm {L : Type 0} (w : World L) : Type 0 where
  pub sound : IsSound w
  pub free : (o : ℕ) (ob : Object) → w.objects o ≡ some ob → ob.writing ≡ false

-- A run that returns with `P`, or returns an error with `E`. It neither panics nor waits, and does
-- nothing undefined.
abbrev pub Ensures : {L A : Type 0} → (A → World L → Type 0) → (World L → Type 0) → Run L A → Type 0
Ensures P E (returned a w) = P a w
Ensures P E (failed e w) = E w
Ensures P E (panicked e w) = ⊥
Ensures P E undefined = ⊥
Ensures P E blocked = ⊥

module _ {L A B : Type 0} (P : A → World L → Type 0) (Q : B → World L → Type 0)
    (E : World L → Type 0) where
  pub Ensures-and_then :
      (r : Run L A) (k : A → Go L B)
      → Ensures P E r
      → ((a : A) (w : World L) → P a w → Ensures Q E (k a w))
      → Ensures Q E (and_then r k)
  Ensures-and_then (returned a w) k had later = later a w had
  Ensures-and_then (failed e w) k had later = had
  Ensures-and_then (panicked e w) k had later = absurd had
  Ensures-and_then undefined k had later = absurd had
  Ensures-and_then blocked k had later = absurd had

module _ {L A : Type 0} (P : A → World L → Type 0) (E D : World L → Type 0) where
  pub Ensures-on_error :
      (r : Run L A) (k : Bytes → Go L A)
      → Ensures P E r
      → ((e : Bytes) (w : World L) → E w → Ensures P D (k e w))
      → Ensures P D (on_error r k)
  Ensures-on_error (returned a w) k had later = had
  Ensures-on_error (failed e w) k had later = later e w had
  Ensures-on_error (panicked e w) k had later = absurd had
  Ensures-on_error undefined k had later = absurd had
  Ensures-on_error blocked k had later = absurd had

module _ {L A : Type 0} (P Q : A → World L → Type 0) (E D : World L → Type 0) where
  pub Ensures-weaken :
      (r : Run L A)
      → Ensures P E r
      → ((a : A) (w : World L) → P a w → Q a w)
      → ((w : World L) → E w → D w)
      → Ensures Q D r
  Ensures-weaken (returned a w) had f g = f a w had
  Ensures-weaken (failed e w) had f g = g w had
  Ensures-weaken (panicked e w) had f g = absurd had
  Ensures-weaken undefined had f g = absurd had
  Ensures-weaken blocked had f g = absurd had

-- A run that cannot fail returns.
pub Ensures-returned :
    {L A : Type 0} (P : A → World L → Type 0) (r : Run L A)
    → Ensures P (λ w. ⊥) r
    → (a : A) × (w : World L) × (r ≡ returned a w) × P a w
Ensures-returned P (returned a w) had = (a, w, refl, had)
Ensures-returned P (failed e w) had = absurd had
Ensures-returned P (panicked e w) had = absurd had
Ensures-returned P undefined had = absurd had
Ensures-returned P blocked had = absurd had

-- `o` is an object of the table `tab`, open or closed.
pub record Has {L : Type 0} (w : World L) (tab : ObjectTab) (o : ℕ) : Type 0 where
  pub object : Object
  pub there : w.objects o ≡ some object
  pub made_with : object.tab ≡ tab

-- The values that are numbers, texts and bare addresses.
abbrev pub IsPlain : Value → Type 0
IsPlain Value.nil = Unit
IsPlain (Value.boolean b) = Unit
IsPlain (Value.light_user_data p) = Unit
IsPlain (Value.integer i) = Unit
IsPlain (Value.number n) = Unit
IsPlain (Value.vector x y z) = Unit
IsPlain (Value.string s) = ⊥
IsPlain (Value.table t) = ⊥
IsPlain (Value.function f) = ⊥
IsPlain (Value.thread p) = ⊥
IsPlain (Value.user_data u) = ⊥
IsPlain (Value.buffer p) = ⊥
IsPlain (Value.error e) = ⊥
IsPlain Value.other = Unit
IsPlain (Value.go_string s) = Unit

abbrev pub table_value : Option GoLuaVmWrapper → ℕ → Value
table_value l o = Value.table (some (record { lua = l; object = some o }))

-- The wrapper of a virtual machine, open or closed.
pub data IsVm {L : Type 0} (w : World L) : Option GoLuaVmWrapper → Type 0 where
  wrapping : {i : ℕ} → Has w lua_vm_tab i → IsVm w (some (record { obj = some i }))

-- A Go value whose object was made with the object table of its type, or whose bare pointer leads to
-- a box of its kind. A table knows its virtual machine.
pub data IsTyped {L : Type 0} (w : World L) : Value → Type 0 where
  plain : {v : Value} → IsPlain v → IsTyped w v
  cloned :
      {o : ℕ} (k : Cloned) (f : Option GoLuaVmWrapper) → Has w (tab_of k) o → IsTyped w (wrap k f o)
  table :
      {o : ℕ} {l : Option GoLuaVmWrapper}
      → IsVm w l
      → Has w table_tab o
      → IsTyped w (table_value l o)
  error : {o : ℕ} → Has w error_variant_tab o → IsTyped w (error_over o)
  thread : {p r : ℕ} → w.boxes p ≡ some (ref_box RefKind.thread r) → IsTyped w (Value.thread p)
  buffer : {p r : ℕ} → w.boxes p ≡ some (ref_box RefKind.buffer r) → IsTyped w (Value.buffer p)

-- A box of `w'` that is not one of `w`, and that no object frees.
pub record IsNew {L : Type 0} (w w' : World L) (b : Box) (p : ℕ) : Type 0 where
  pub there : w'.boxes p ≡ some b
  pub fresh : w.boxes p ≡ none
  pub unowned : Unowned w' p

-- A C value of `w'` that is the receiver's own: its box, where its tag has one, is of that kind and new
-- since `w`.
abbrev pub Fits : {L : Type 0} → World L → World L → LuaValueType → ℕ → Type 0
Fits w w' LuaValueType.nil p = Unit
Fits w w' LuaValueType.boolean p = Unit
Fits w w' LuaValueType.light_user_data p = Unit
Fits w w' LuaValueType.integer p = Unit
Fits w w' LuaValueType.number p = Unit
Fits w w' LuaValueType.vector p = Unit
Fits w w' LuaValueType.string p = (r : ℕ) × IsNew w w' (ref_box RefKind.string r) p
Fits w w' LuaValueType.table p = (r : ℕ) × IsNew w w' (ref_box RefKind.table r) p
Fits w w' LuaValueType.function p = (r : ℕ) × IsNew w w' (ref_box RefKind.function r) p
Fits w w' LuaValueType.thread p = (r : ℕ) × IsNew w w' (ref_box RefKind.thread r) p
Fits w w' LuaValueType.user_data p = (r : ℕ) × IsNew w w' (ref_box RefKind.user_data r) p
Fits w w' LuaValueType.buffer p = (r : ℕ) × IsNew w w' (ref_box RefKind.buffer r) p
Fits w w' LuaValueType.error p = (e : List ℕ) × IsNew w w' (error_box e) p
Fits w w' LuaValueType.other p = Unit
Fits w w' LuaValueType.custom_go_string p = ⊥

-- Every object and every box of `w` is in `w'` as it was, no object has got a box of `w`, and the new
-- objects are idle.
pub record Keeps {L : Type 0} (w w' : World L) : Type 0 where
  pub objects : (o : ℕ) (ob : Object) → w.objects o ≡ some ob → w'.objects o ≡ some ob
  pub boxes : (p : ℕ) (b : Box) → w.boxes p ≡ some b → w'.boxes p ≡ some b
  pub unowned : (p : ℕ) (b : Box) → w.boxes p ≡ some b → Unowned w p → Unowned w' p
  pub arrivals :
      (o : ℕ) (ob : Object) → w'.objects o ≡ some ob → (w.objects o ≡ some ob) ⊎ IsIdle ob

-- The end of a conversion that began in `w` and kept all that was there.
pub record Settled {L : Type 0} (w w' : World L) : Type 0 where
  pub calm : IsCalm w'
  pub keeps : Keeps w w'

-- A C value, typed, at the end of a conversion.
pub record Handed {L : Type 0} (w : World L) (c : GoLuaValue) (w' : World L) : Type 0 where
  pub settled : Settled w w'
  pub fits : Fits w w' c.tag c.payload.lo
