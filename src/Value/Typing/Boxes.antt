-- ===== src/Value/Typing/Boxes.antt =====
-- The box behind an object of a known type.
use gluau.Prelude.{ℕ, ◌≡◌, ◌≢◌, ◌∙◌, refl, sym, ap, some, true, Bytes}
use gluau.World.{
  RefKind, string, table, function, thread, user_data, buffer, lua_vm, same_kind, ObjectTab, Dtor,
  free_lua_vm, free_string, free_table, free_function, free_userdata, free_error, Box, ref_box,
  error_box, multi_box, chunk_box, error_text, World,
}
use gluau.Ffi.Boxes.{is_ref, is_error, frees}
use gluau.Object.Sound.{IsSound, Owns}
use gluau.Handles.{table_tab, error_variant_tab, lua_vm_tab}
use gluau.Value.Cloning.{Cloned, strings, functions, userdata, kind_of, tab_of}
use gluau.Value.Typing.{Has}

same_kind-eq : (j k : RefKind) → same_kind j k ≡ true → j ≡ k
same_kind-eq string string e = refl
same_kind-eq table table e = refl
same_kind-eq function function e = refl
same_kind-eq thread thread e = refl
same_kind-eq user_data user_data e = refl
same_kind-eq buffer buffer e = refl
same_kind-eq lua_vm lua_vm e = refl
same_kind-eq _ _ e = cc

is_ref-ref_box : (k : RefKind) (b : Box) → is_ref k b ≡ true → (r : ℕ) × (b ≡ ref_box k r)
is_ref-ref_box k (ref_box j r) e = (r, ap (λ x. ref_box x r) (sym (same_kind-eq k j e)))
is_ref-ref_box k (error_box s) e = cc
is_ref-ref_box k (multi_box vs) e = cc
is_ref-ref_box k (chunk_box s) e = cc
is_ref-ref_box k (error_text s) e = cc

is_error-error_box : (b : Box) → is_error b ≡ true → (e : Bytes) × (b ≡ error_box e)
is_error-error_box (ref_box j r) e = cc
is_error-error_box (error_box s) e = (s, refl)
is_error-error_box (multi_box vs) e = cc
is_error-error_box (chunk_box s) e = cc
is_error-error_box (error_text s) e = cc

freed_ref :
    (k : Cloned) (d : Dtor) (b : Box)
    → (tab_of k).dtor ≡ some d
    → frees d b ≡ true
    → (r : ℕ) × (b ≡ ref_box (kind_of k) r)
freed_ref strings free_string b named fits = is_ref-ref_box string b fits
freed_ref functions free_function b named fits = is_ref-ref_box function b fits
freed_ref userdata free_userdata b named fits = is_ref-ref_box user_data b fits
freed_ref _ _ b named fits = absurd cc

freed_error :
    (d : Dtor) (b : Box)
    → error_variant_tab.dtor ≡ some d
    → frees d b ≡ true
    → (e : Bytes) × (b ≡ error_box e)
freed_error free_error b named fits = is_error-error_box b fits
freed_error _ b named fits = absurd cc

freed_vm :
    (d : Dtor) (b : Box)
    → lua_vm_tab.dtor ≡ some d
    → frees d b ≡ true
    → (r : ℕ) × (b ≡ ref_box lua_vm r)
freed_vm free_lua_vm b named fits = is_ref-ref_box lua_vm b fits
freed_vm _ b named fits = absurd cc

freed_table :
    (d : Dtor) (b : Box)
    → table_tab.dtor ≡ some d
    → frees d b ≡ true
    → (r : ℕ) × (b ≡ ref_box table r)
freed_table free_table b named fits = is_ref-ref_box table b fits
freed_table _ b named fits = absurd cc

module _ {L : Type 0} {w : World L} (s : IsSound w) {o : ℕ} where
  dtor_of : {t : ObjectTab} (h : Has w t o) (own : Owns w h.object) → t.dtor ≡ some own.dtor
  dtor_of h own = ap (λ (t : ObjectTab). t.dtor) (sym h.made_with) ∙ own.named

  -- An open object with the table of strings, functions or userdata has a box of that kind.
  pub Has-ref :
      (k : Cloned) (h : Has w (tab_of k) o)
      → h.object.ptr ≢ 0
      → (r : ℕ) × (w.boxes h.object.ptr ≡ some (ref_box (kind_of k) r))
  Has-ref k h ne =
      let own = s.owns o h.object h.there ne in
      let (r, is) = freed_ref k own.dtor own.box (dtor_of h own) own.fits in
      (r, own.there ∙ ap some is)

  pub Has-error :
      (h : Has w error_variant_tab o)
      → h.object.ptr ≢ 0
      → (e : Bytes) × (w.boxes h.object.ptr ≡ some (error_box e))
  Has-error h ne =
      let own = s.owns o h.object h.there ne in
      let (e, is) = freed_error own.dtor own.box (dtor_of h own) own.fits in
      (e, own.there ∙ ap some is)

  pub Has-vm :
      (h : Has w lua_vm_tab o)
      → h.object.ptr ≢ 0
      → (r : ℕ) × (w.boxes h.object.ptr ≡ some (ref_box lua_vm r))
  Has-vm h ne =
      let own = s.owns o h.object h.there ne in
      let (r, is) = freed_vm own.dtor own.box (dtor_of h own) own.fits in
      (r, own.there ∙ ap some is)

  pub Has-table :
      (h : Has w table_tab o)
      → h.object.ptr ≢ 0
      → (r : ℕ) × (w.boxes h.object.ptr ≡ some (ref_box table r))
  Has-table h ne =
      let own = s.owns o h.object h.there ne in
      let (r, is) = freed_table own.dtor own.box (dtor_of h own) own.fits in
      (r, own.there ∙ ap some is)
