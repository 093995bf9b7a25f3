-- ===== src/References/Moves.antt =====
-- What each command does in a world that represents the store.
use gluau.Prelude.{ℕ, ◌<◌, ◌≡◌, refl, ◌≢◌, false, Option, none, some, update_self, arith}
use gluau.World.{LuaValue, Object, ref_box, World, returned, failed}
use gluau.Mluau.{Mluau}
use gluau.Handles.{GoLuaVmWrapper, close_string, close_function, close_user_data}
use gluau.Ffi.Ownership.{without}
use gluau.Object.Lifetime.{closing, close-closing}
use gluau.Value.Types
use gluau.Value.Types.{LuaValueType, Value}
use gluau.Value.Clone.{c_value, word, from_owned}
use gluau.Value.Convert.{value_to_c}
use gluau.Value.Scalars.{there_and_back}
use gluau.Value.Cloning.{
  Cloned, strings, functions, userdata, kind_of, type_for, wrap, cloned, returned_world,
  from_c-wrap, there_and_back-wrap, value_to_c-wrap,
}
use gluau.Value.Taking.{to_value_from_owned-ref}
use gluau.Value.Refused.{closed_message, value_to_c-closed}
use gluau.References.{
  made, done, sent, refused, receive, close, copy, send, perform, held_of, Store,
}
use gluau.References.Represents.{Represents}

module _ {L : Type 0} (m : Mluau L) (l : Option GoLuaVmWrapper) (w : World L) where
  -- `from_owned` boxes a reference.
  from_owned-ref :
      (k : Cloned) (r : ℕ)
      → from_owned (LuaValue.ref (kind_of k) r) w
        ≡ returned (c_value (type_for k) (word w.next_box)) (cloned w k r)
  unfolding from_owned
  from_owned-ref strings r = refl
  from_owned-ref functions r = refl
  from_owned-ref userdata r = refl

  pub perform-receive :
      (k : Cloned) (r : ℕ)
      → 0 < w.next_box
      → perform m l (receive k r) w
        ≡ returned (made (wrap k none w.next_object)) (returned_world w k r)
  unfolding perform
  perform-receive k r pos = rw (from_owned-ref k r, from_c-wrap w k l r pos)

module _ {L : Type 0} (m : Mluau L) (l : Option GoLuaVmWrapper) {w : World L} {σ : Store}
    (rep : Represents w σ) (o : ℕ) {ob : Object} (here : w.objects o ≡ some ob) where
  close-wrap : (k : Cloned) → Types.close (wrap k l o) w ≡ returned tt (closing o ob w)
  unfolding Types.close close_string close_function close_user_data
  close-wrap strings = close-closing rep.sound rep.quiet o here
  close-wrap functions = close-closing rep.sound rep.quiet o here
  close-wrap userdata = close-closing rep.sound rep.quiet o here

  idle : ob.writing ≡ false
  idle = (rep.quiet o ob here).writing

  value_to_c-refused :
      (k : Cloned)
      → ob.ptr ≡ 0
      → value_to_c m l (some (wrap k l o)) w ≡ failed (closed_message (held_of k)) w
  value_to_c-refused strings gone = value_to_c-closed m o w here idle (held_of strings) l l gone
  value_to_c-refused functions gone = value_to_c-closed m o w here idle (held_of functions) l l gone
  value_to_c-refused userdata gone = value_to_c-closed m o w here idle (held_of userdata) l l gone

module _ {L : Type 0} (m : Mluau L) (l : Option GoLuaVmWrapper) {w : World L} {σ : Store}
    (rep : Represents w σ) (k : Cloned) (o : ℕ) {ob : Object} (here : w.objects o ≡ some ob) where
  pub perform-close : perform m l (close k o) w ≡ returned done (closing o ob w)
  unfolding perform
  perform-close = rw (close-wrap m l rep o here k)

  pub perform-copy_closed :
      ob.ptr ≡ 0 → perform m l (copy k o) w ≡ returned (refused (closed_message (held_of k))) w
  unfolding perform there_and_back
  perform-copy_closed gone = rw (value_to_c-refused m l rep o here k gone)

  pub perform-send_closed :
      ob.ptr ≡ 0 → perform m l (send k o) w ≡ returned (refused (closed_message (held_of k))) w
  unfolding perform
  perform-send_closed gone = rw (value_to_c-refused m l rep o here k gone)

  module _ {r : ℕ} (ne : ob.ptr ≢ 0) (there : w.boxes ob.ptr ≡ some (ref_box (kind_of k) r)) where
    pub perform-copy_open :
        perform m l (copy k o) w
        ≡ returned (made (wrap k none w.next_object)) (returned_world w k r)
    unfolding perform
    perform-copy_open =
        rw
          (there_and_back-wrap m o w here ne k l l l rep.sound.positive (idle m l rep o here) there)

    pub perform-send_open :
        perform m l (send k o) w
        ≡ returned (sent (LuaValue.ref (kind_of k) r)) (without (cloned w k r) w.next_box)
    unfolding perform
    perform-send_open = rw (
      value_to_c-wrap m o w here ne k l l (idle m l rep o here) there,
      to_value_from_owned-ref m (cloned w k r) k w.next_box (omega (arith, rep.sound.positive))
          (update_self w.boxes w.next_box _),
    )
