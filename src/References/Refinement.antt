-- ===== src/References/Refinement.antt =====
-- Runs of the commands give the answers of the abstract store.
use gluau.Prelude.{ℕ, ◌≡◌, refl, subst, true, Option, none, some, List, arith}
use gluau.World.{same_kind, ref_box, World, returned}
use gluau.Mluau.{Mluau}
use gluau.Object.Lifetime.{closing}
use gluau.Handles.{GoLuaVmWrapper}
use gluau.Value.Cloning.{Cloned, strings, functions, userdata, kind_of, wrap, returned_world}
use gluau.References.{
  Command, receive, close, copy, send, Answer, made, done, added, cut, perform, perform_all, Entry,
  entry, Store, target_of, answer, Answers, copied, sent_off,
}
use gluau.References.Represents.{
  Represents, Holds, arrival-Represents, cut-Represents, spent, spent-Represents,
}
use gluau.References.Moves.{
  perform-receive, perform-close, perform-copy_closed, perform-copy_open, perform-send_closed,
  perform-send_open,
}

kinds_eq : (j k : Cloned) → same_kind (kind_of j) (kind_of k) ≡ true → j ≡ k
kinds_eq strings strings e = refl
kinds_eq functions functions e = refl
kinds_eq userdata userdata e = refl
kinds_eq _ _ e = cc

target_of-some :
    (k : Cloned) (x : Option Entry) {t : Option ℕ} → target_of k x ≡ some t → x ≡ some (entry k t)
target_of-some k none e = cc
target_of-some k (some x) e = ground (arith, kinds_eq k x.kind)

some-inj : {A : Type 0} {a b : A} → some a ≡ some b → a ≡ b
some-inj e = cc

answer_found :
    (x : Option (Option ℕ)) (f : Option ℕ → Answer × Store) {p : Answer × Store}
    → (elim x [ none ↦ none | some t ↦ some (f t) ]) ≡ some p
    → (t : Option ℕ) × (x ≡ some t) × (f t ≡ p)
answer_found none f e = cc
answer_found (some t) f e = (t, refl, some-inj e)

module _ {L : Type 0} (m : Mluau L) (l : Option GoLuaVmWrapper) where
  -- A command ends in a world that represents the store after it, with the same answer.
  abbrev Meets : World L → Command → Answer × Store → Type 0
  Meets w c p = (w' : World L) × (perform m l c w ≡ returned p.0 w') × Represents w' p.1

  module _ {w : World L} {σ : Store} (rep : Represents w σ) where
    receive-Meets :
        (k : Cloned) (r : ℕ) → Meets w (receive k r) (made (wrap k none σ.next), added σ k r)
    receive-Meets k r = (
      returned_world w k r,
      rw (← rep.next) (perform-receive m l w k r rep.sound.positive),
      arrival-Represents rep k r,
    )

    close-Meets :
        (k : Cloned) (o : ℕ) (t : Option ℕ)
        → Holds w o (entry k t)
        → Meets w (close k o) (done, cut σ k o)
    close-Meets k o t had = (
      closing o had.object w,
      perform-close m l rep k o had.there,
      cut-Represents rep k o had.there,
    )

    copy-Meets :
        (k : Cloned) (o : ℕ) (t : Option ℕ)
        → Holds w o (entry k t)
        → Meets w (copy k o) (copied σ k t)
    copy-Meets k o none had = (w, perform-copy_closed m l rep k o had.there had.targets, rep)
    copy-Meets k o (some r) had = (
      returned_world w k r,
      rw (← rep.next) (perform-copy_open m l rep k o had.there had.targets.0 had.targets.1),
      arrival-Represents rep k r,
    )

    send-Meets :
        (k : Cloned) (o : ℕ) (t : Option ℕ)
        → Holds w o (entry k t)
        → Meets w (send k o) (sent_off σ k t)
    send-Meets k o none had = (w, perform-send_closed m l rep k o had.there had.targets, rep)
    send-Meets k o (some r) had = (
      spent rep (ref_box (kind_of k) r),
      perform-send_open m l rep k o had.there had.targets.0 had.targets.1,
      spent-Represents rep (ref_box (kind_of k) r),
    )

    found_there :
        (k : Cloned) (o : ℕ) (t : Option ℕ)
        → target_of k (σ.entries o) ≡ some t
        → Holds w o (entry k t)
    found_there k o t found = rep.holds o (entry k t) (target_of-some k (σ.entries o) found)

    -- One command.
    command-Meets : (c : Command) (p : Answer × Store) → answer σ c ≡ some p → Meets w c p
    command-Meets (receive k r) p e = subst (Meets w (receive k r)) (some-inj e) (receive-Meets k r)
    command-Meets (close k o) p e =
        let (t, found, same) =
          answer_found (target_of k (σ.entries o)) (λ t. (done, cut σ k o)) e in
        subst (Meets w (close k o)) same (close-Meets k o t (found_there k o t found))
    command-Meets (copy k o) p e =
        let (t, found, same) = answer_found (target_of k (σ.entries o)) (copied σ k) e in
        subst (Meets w (copy k o)) same (copy-Meets k o t (found_there k o t found))
    command-Meets (send k o) p e =
        let (t, found, same) = answer_found (target_of k (σ.entries o)) (sent_off σ k) e in
        subst (Meets w (send k o)) same (send-Meets k o t (found_there k o t found))

  -- Users receive, copy, send and close strings, functions and userdata in any order, with repetitions
  -- and after a close too, but only values that they have. From a world that represents the abstract
  -- store, the run returns; its answers are the abstract ones (a new value, the reference that Lua
  -- gets, or the refusal of a closed value); and the world at its end represents the abstract store at
  -- its end: every open value has a box of its own for its target, and no box is left without an owner.
  pub perform_all-Answers :
      {σ : Store} {cs : List Command} {as_ : List Answer} {τ : Store} {w : World L}
      → Answers σ cs as_ τ
      → Represents w σ
      → (w' : World L) × (perform_all m l cs w ≡ returned as_ w') × Represents w' τ
  unfolding perform_all
  perform_all-Answers {w = w} Answers.stop rep = (w, refl, rep)
  perform_all-Answers (Answers.go {c = c} first later) rep =
      let (v, run, rep') = command-Meets rep c _ first in
      let (w', rest, end) = perform_all-Answers later rep' in (w', rw (run, rest), end)
