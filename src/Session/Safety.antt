-- ===== src/Session/Safety.antt =====
-- What the mailbox guarantees about a session, over all sequences of commands.
use pipane.Base.{
  ◌≤◌, ℕ, ◌≡◌, ◌≢◌, Option, none, some, List, [], ◌∷◌, arith, ok, err, inl, inr, Result-cases,
}
use pipane.Base.Exec.{Exec, ◌>>=◌, pure}
use pipane.Session.Phase.{Phase, detached, Lease}
use pipane.Session.Actor.{
  other_event, user_message_end, transition, sync_steering_queue, remove_steering_by_index,
  dequeue_steering, enqueue_steering, clear_steering, Error, illegal_transition, Document, Actor,
  ProcessEvent, agent_start, agent_end, agent_settled, new_actor, assert_available, attach,
  begin_turn, set_turn_event_cleanup, mark_failed, owns,
}
use pipane.Session.Events.{advance, apply_process_event, ignored}
use pipane.Session.Detach.{detach}
use pipane.Session.Mailbox.{
  Command, perform, run_mailbox, checks, begins, fails, detaches, clears, attaches, sets_cleanup,
  applies, steers, unsteers, unsteers_at,
}
use pipane.Session.Ownership.{
  Inv, new_actor-Inv, attach-Inv, begin_turn-Inv, set_turn_event_cleanup-Inv, mark_failed-Inv,
  detach-Inv, enqueue_steering-Inv, remove_steering_by_index-Inv, dequeue_steering-Inv,
  clear_steering-Inv, apply_process_event-Inv, advance_ok,
}

pub then-state :
    {S A : Type 0} (m : Exec Error S A) (s : S) → (◌>>=◌ {0, 0} m (λ _. pure tt) s).1 ≡ (m s).1
then-state m s = elim (Result-cases (m s).0) [
  | inl (a, e) ↦ ground arith
  | inr (x, e) ↦ ground arith
]

module _ {Doc : Type 0} (api : Document Doc) where
  perform-Inv : (c : Command Doc) (a : Actor Doc) → Inv a → Inv (perform api c a).1
  unfolding perform assert_available
  perform-Inv checks a v = ground arith
  perform-Inv begins a v = rw (then-state begin_turn a) (begin_turn-Inv a v)
  perform-Inv fails a v = mark_failed-Inv a v
  perform-Inv detaches a v = rw (then-state detach a) (detach-Inv a v)
  perform-Inv clears a v = clear_steering-Inv api a v
  perform-Inv (attaches lease doc) a v = attach-Inv lease doc a v
  perform-Inv (sets_cleanup g c) a v = set_turn_event_cleanup-Inv g c a v
  perform-Inv (applies proc g e messages) a v =
      rw (then-state (apply_process_event api proc g e messages) a)
        (apply_process_event-Inv api proc g e messages a v)
  perform-Inv (steers t) a v = enqueue_steering-Inv api t a v
  perform-Inv (unsteers t) a v = dequeue_steering-Inv api t a v
  perform-Inv (unsteers_at i) a v = remove_steering_by_index-Inv api i a v

  run_mailbox-Inv : (cs : List (Command Doc)) (a : Actor Doc) → Inv a → Inv (run_mailbox api cs a).1
  unfolding run_mailbox
  run_mailbox-Inv [] a v = v
  run_mailbox-Inv (c ∷ cs) a v = run_mailbox-Inv cs (perform api c a).1 (perform-Inv c a v)

  -- After any commands on a new session: the phases it published are a path of legal transitions
  -- that ends in its phase; what it attached and released alternates, and leads to the lease it
  -- holds; it holds a lease and a document exactly when it is not detached; and it is never left
  -- half way through attaching or releasing.
  pub mailbox-Inv : (cs : List (Command Doc)) → Inv (run_mailbox api cs new_actor).1
  mailbox-Inv cs = run_mailbox-Inv cs new_actor new_actor-Inv

  -- In a session with the invariant, no command meets an illegal transition.
  pub perform-ne-illegal :
      (c : Command Doc) (a : Actor Doc) (from to : Phase)
      → Inv a
      → (perform api c a).0 ≢ err (illegal_transition from to)
  unfolding perform assert_available begin_turn mark_failed detach attach set_turn_event_cleanup
      apply_process_event
  perform-ne-illegal checks a from to v e = ground arith
  perform-ne-illegal begins a from to v e = ground arith
  perform-ne-illegal fails a from to v e = ground arith
  perform-ne-illegal detaches a from to v e = ground arith
  perform-ne-illegal (attaches lease doc) a from to v e = ground arith
  perform-ne-illegal (sets_cleanup g c) a from to v e = ground arith
  perform-ne-illegal (applies proc g event messages) a from to v e =
      ground (arith, advance_ok api event a v)
  perform-ne-illegal clears a from to v e = ground arith
  perform-ne-illegal (steers t) a from to v e = ground arith
  perform-ne-illegal (unsteers t) a from to v e = ground arith
  perform-ne-illegal (unsteers_at i) a from to v e = ground arith

  -- A session with the invariant that holds a lease and a document is detached without an error:
  -- it returns both, and keeps neither them nor anything of the turn.
  pub detach_lem :
      (a : Actor Doc) (lease : Lease) (doc : Doc)
      → Inv a
      → a.lease ≡ some lease
      → a.session ≡ some doc
      → let (r, a') = detach a in
        (r ≡ ok (some (lease.process, doc)))
        × (a'.phase ≡ detached)
        × (a'.lease ≡ none)
        × (a'.session ≡ none)
        × (a'.steering_queue ≡ [])
        × (a'.turn_event_cleanup ≡ none)
  unfolding detach
  detach_lem a lease doc v l d = ground arith

  apply_process_event-grows :
      (proc g : ℕ) (event : ProcessEvent) (messages : Option ℕ) (a : Actor Doc)
      → a.turn_generation ≤ (apply_process_event api proc g event messages a).1.turn_generation
  unfolding apply_process_event advance clear_steering dequeue_steering sync_steering_queue
      transition
  apply_process_event-grows proc g agent_start messages a = ground arith
  apply_process_event-grows proc g agent_end messages a = ground arith
  apply_process_event-grows proc g agent_settled messages a = ground arith
  apply_process_event-grows proc g (user_message_end content) messages a = ground arith
  apply_process_event-grows proc g (other_event n) messages a = ground arith

  perform-grows :
      (c : Command Doc) (a : Actor Doc) → a.turn_generation ≤ (perform api c a).1.turn_generation
  unfolding perform assert_available begin_turn mark_failed detach attach set_turn_event_cleanup
      apply_process_event advance clear_steering enqueue_steering dequeue_steering
      remove_steering_by_index sync_steering_queue
  perform-grows checks a = ground arith
  perform-grows begins a = ground arith
  perform-grows fails a = ground arith
  perform-grows detaches a = ground arith
  perform-grows (attaches lease doc) a = ground arith
  perform-grows (sets_cleanup g c) a = ground arith
  perform-grows (applies proc g event messages) a =
      rw (then-state (apply_process_event api proc g event messages) a)
        (apply_process_event-grows proc g event messages a)
  perform-grows clears a = ground arith
  perform-grows (steers t) a = ground arith
  perform-grows (unsteers t) a = ground arith
  perform-grows (unsteers_at i) a = ground arith

  run_mailbox-grows :
      (cs : List (Command Doc)) (a : Actor Doc)
      → a.turn_generation ≤ (run_mailbox api cs a).1.turn_generation
  unfolding run_mailbox
  run_mailbox-grows [] a = omega arith
  run_mailbox-grows (c ∷ cs) a =
      omega (arith, perform-grows c a, run_mailbox-grows cs (perform api c a).1)

  -- A generation is never used again: once a turn has begun, and whatever commands follow, an event
  -- that carries a generation from before that turn is ignored and changes nothing.
  pub begin_turn-ignores :
      (cs : List (Command Doc)) (a : Actor Doc) (proc generation g : ℕ) (e : ProcessEvent)
      (messages : Option ℕ)
      → (begin_turn a).0 ≡ ok g
      → generation ≤ a.turn_generation
      → let b = (run_mailbox api cs (begin_turn a).1).1 in
        apply_process_event api proc generation e messages b ≡ (ok ignored, b)
  unfolding begin_turn apply_process_event owns
  begin_turn-ignores cs a proc generation g e messages began before =
      ground (arith, run_mailbox-grows cs (begin_turn a).1)
