-- ===== src/Registry/Index.antt =====
-- What a command of an actor does to the index of processes of src/server/session-registry.ts.
use pipane.Base.{
  ◌||◌, Result-cases, inr, length, inl, leb, ◌∙◌, Option-cases, Bool-cases, ℕ, ◌≡◌, refl, false,
  not, Option, none, some, List, [], ◌∷◌, if◌then◌else◌, same, is_some, arith, sym, subst,
}
use pipane.Base.Dict.{Dict, get, put, remove, get-put, get-remove}
use pipane.Base.Exec.{modify, Exec, ◌>>=◌}
use pipane.Session.Phase.{
  detached, attaching, releasing, same_phase, Lease, ActorEvent, attached, detached_from, Effect,
  emits,
}
use pipane.Session.Actor.{
  owns, Error, is_empty, index_of, Document, Actor, ProcessEvent, agent_start, agent_end,
  agent_settled, user_message_end, assert_available, transition, attach, begin_turn,
  set_turn_event_cleanup, mark_failed, enqueue_steering, remove_steering_by_index, dequeue_steering,
  clear_steering, sync_steering_queue,
}
use pipane.Session.Events.{apply_process_event, advance, deliver, settle, update_document}
use pipane.Session.Detach.{detach}
use pipane.Session.Safety.{then-state}
use pipane.Session.Mailbox.{
  Command, perform, checks, begins, fails, detaches, clears, attaches, sets_cleanup, applies,
  steers, unsteers, unsteers_at,
}
use pipane.Registry.State.{leased}

-- The index after an event of the actor at `o`, and after all of a log.
abbrev pub index_event : ℕ → ActorEvent → Dict ℕ → Dict ℕ
index_event o (attached p) m = put p o m
index_event o (detached_from p) m = if same (get p m) (some o) then remove p m else m
index_event o _ m = m

unfoldable pub index_log : ℕ → List Effect → Dict ℕ → Dict ℕ
index_log o [] m = m
index_log o (emits e ∷ log) m = index_event o e (index_log o log m)
index_log o (_ ∷ log) m = index_log o log m

module _ {Doc : Type 0} where
  -- A lease and a document are held exactly outside the detached phase, and between commands nothing
  -- is half attached or half released.
  pub record Held (a : Actor Doc) : Type 0 where
    pub owned : is_some a.lease ≡ not (same_phase a.phase detached)
    pub together : is_some a.session ≡ is_some a.lease
    pub attached_fully : same_phase a.phase attaching ≡ false
    pub released_fully : same_phase a.phase releasing ≡ false

  -- A step that keeps the lease, and whose log leaves the index alone.
  record Quiet (o : ℕ) (a a' : Actor Doc) : Type 0 where
    lease : a'.lease ≡ a.lease
    held : Held a → Held a'
    index : (m : Dict ℕ) → index_log o a'.log m ≡ index_log o a.log m

  Quiet-refl : {o : ℕ} {a : Actor Doc} → Quiet o a a
  Quiet-refl = record { lease = refl; held = λ v. v; index = λ m. refl }

  Quiet-trans : {o : ℕ} {a b c : Actor Doc} → Quiet o a b → Quiet o b c → Quiet o a c
  Quiet-trans x y = record {
    lease = y.lease ∙ x.lease;
    held = λ v. y.held (x.held v);
    index = λ m. y.index m ∙ x.index m;
  }

  then-Quiet {ℓ₁ ℓ₂} :
      {A : Type ℓ₁} {B : Type ℓ₂} (o : ℕ) (m : Exec Error (Actor Doc) A)
      (k : A → Exec Error (Actor Doc) B) (a : Actor Doc)
      → Quiet o a (m a).1
      → ((x : A) → Quiet o (m a).1 (k x (m a).1).1)
      → Quiet o a (◌>>=◌ m k a).1
  then-Quiet o m k a first second = elim (Result-cases (m a).0) [
    | inl (x, done) ↦ rw done (Quiet-trans first (second x))
    | inr (e, failed) ↦ rw failed first
  ]

  module _ (o : ℕ) (a : Actor Doc) where
    begin_turn-Quiet : Quiet o a (begin_turn a).1
    unfolding begin_turn index_log
    begin_turn-Quiet = record {
      lease = ground arith;
      held = λ v. ground (arith, v.owned);
      index = λ m. ground arith;
    }

    mark_failed-Quiet : Quiet o a (mark_failed a).1
    unfolding mark_failed index_log
    mark_failed-Quiet = record {
      lease = ground arith;
      held = λ v. ground (arith, v.owned);
      index = λ m. ground arith;
    }

    set_turn_event_cleanup-Quiet : (g c : ℕ) → Quiet o a (set_turn_event_cleanup g c a).1
    unfolding set_turn_event_cleanup index_log
    set_turn_event_cleanup-Quiet g c = record {
      lease = ground arith;
      held = λ v. ground (arith, v.owned);
      index = λ m. ground arith;
    }

    assert_available-Quiet : Quiet o a (assert_available a).1
    unfolding assert_available
    assert_available-Quiet = record {
      lease = ground arith;
      held = λ v. ground (arith, v.owned);
      index = λ m. ground arith;
    }

    settle-Quiet : Quiet o a (settle a).1
    unfolding transition index_log
    settle-Quiet = record {
      lease = ground arith;
      held = λ v. ground (arith, v.owned);
      index = λ m. ground arith;
    }

module _ {Doc : Type 0} (api : Document Doc) (o : ℕ) where
  sync_steering_queue-Quiet :
      (queue : List ℕ) (a : Actor Doc) → Quiet o a (sync_steering_queue api queue a)
  unfolding sync_steering_queue index_log
  sync_steering_queue-Quiet queue a = record {
    lease = refl;
    held = λ v. ground (arith, v.owned);
    index = λ m. refl;
  }

  dequeue_steering-Quiet : (t : ℕ) (a : Actor Doc) → Quiet o a (dequeue_steering api t a).1
  unfolding dequeue_steering
  dequeue_steering-Quiet t a = elim (Option-cases (index_of t a.steering_queue)) [
    | inl nowhere ↦ rw (nowhere, dequeue_steering) Quiet-refl
    | inr (i, found) ↦ rw (found, dequeue_steering) (sync_steering_queue-Quiet _ a)
  ]

  remove_steering_by_index-Quiet :
      (i : ℕ) (a : Actor Doc) → Quiet o a (remove_steering_by_index api i a).1
  unfolding remove_steering_by_index
  remove_steering_by_index-Quiet i a = elim (Bool-cases (leb (length a.steering_queue) i)) [
    | inl outside ↦ rw outside Quiet-refl
    | inr inside ↦ rw inside (sync_steering_queue-Quiet _ a)
  ]

  clear_steering-Quiet : (a : Actor Doc) → Quiet o a (clear_steering api a)
  unfolding clear_steering
  clear_steering-Quiet a = elim (Bool-cases (is_empty a.steering_queue)) [
    | inl empty ↦ rw empty Quiet-refl
    | inr full ↦ rw full (sync_steering_queue-Quiet [] a)
  ]

  advance-Quiet : (e : ProcessEvent) (a : Actor Doc) → Quiet o a (advance api e a).1
  unfolding advance index_log
  advance-Quiet agent_start a = record {
    lease = ground arith;
    held = λ v. ground (arith, v.owned);
    index = λ m. ground arith;
  }
  advance-Quiet agent_end a =
      then-Quiet o settle (λ _. modify (clear_steering api)) a (settle-Quiet o a)
        (λ x. clear_steering-Quiet (settle a).1)
  advance-Quiet agent_settled a = settle-Quiet o a
  advance-Quiet _ a = Quiet-refl

  deliver-Quiet : (e : ProcessEvent) (a : Actor Doc) → Quiet o a (deliver api e a)
  deliver-Quiet (user_message_end content) a = dequeue_steering-Quiet _ a
  deliver-Quiet _ a = Quiet-refl

  document-Quiet :
      (e : ProcessEvent) (messages : Option ℕ) (a : Actor Doc)
      → Quiet o a (record a { session = update_document api e messages a.session })
  document-Quiet e messages a = record {
    lease = refl;
    held = λ v. ground (arith, v.owned);
    index = λ m. refl;
  }

  apply_process_event-Quiet :
      (proc generation : ℕ) (e : ProcessEvent) (messages : Option ℕ) (a : Actor Doc)
      → Quiet o a (apply_process_event api proc generation e messages a).1
  unfolding apply_process_event
  apply_process_event-Quiet proc generation e messages a =
      elim (Bool-cases (not (owns proc (some generation) a) || not (is_some a.session))) [
        | inl ignored ↦ rw ignored Quiet-refl
        | inr applied ↦ rw applied (
            then-Quiet o (advance api e) _ a (advance-Quiet e a) (λ x.
              Quiet-trans (document-Quiet e messages (advance api e a).1) (
                deliver-Quiet e (record ((advance api e a).1) {
                  session = update_document api e messages (advance api e a).1.session;
                }))))
      ]

-- From the index m and the lease before, the log leads to the index that has the lease after.
module _ {Doc : Type 0} where
  pub record Moves (o : ℕ) (m : Dict ℕ) (a a' : Actor Doc) : Type 0 where
    pub held : Held a'
    pub indexed :
        (p : ℕ)
        → get p (index_log o a'.log m) ≡ (
            if same (leased a'.lease) (some p)
            then some o
            else if same (leased a.lease) (some p)
            then none
            else get p m)
    pub fresh :
        (p : ℕ)
        → leased a'.lease ≡ some p
        → get p m ≡ (if same (leased a.lease) (some p) then some o else none)

  -- A process is attached only where the index has nobody for it.
  abbrev pub Free : Command Doc → Dict ℕ → Type 0
  Free (attaches l doc) m = get l.process m ≡ none
  Free _ m = Unit

module _ {Doc : Type 0} (o : ℕ) (m : Dict ℕ) (a : Actor Doc) (v : Held a) (empty : a.log ≡ [])
    (own : (p : ℕ) → leased a.lease ≡ some p → get p m ≡ some o) where
  Quiet-Moves : (a' : Actor Doc) → Quiet o a a' → Moves o m a a'
  unfolding index_log
  Quiet-Moves a' q = record {
    held = q.held v;
    indexed = λ p. ground (arith, q.lease, q.index m, empty, own p);
    fresh = λ p e. ground (arith, q.lease, own p, e);
  }

  attach-Moves : (l : Lease) (doc : Doc) → get l.process m ≡ none → Moves o m a (attach l doc a).1
  unfolding attach index_log
  attach-Moves l doc free = record {
    held = ground (arith, v.owned);
    indexed = λ p. grind (arith, get-put, get-remove, v.owned, empty, own p);
    fresh = λ p e. ground (arith, v.owned, own p, e);
  }

  detach-Moves : Moves o m a (detach a).1
  unfolding detach index_log
  detach-Moves = record {
    held = ground (arith, v.owned);
    indexed = λ p. grind (arith, get-put, get-remove, v.owned, empty, own p);
    fresh = λ p e. ground (arith, v.owned, own p, e);
  }

  pub perform-Moves :
      (api : Document Doc) (c : Command Doc) → Free c m → Moves o m a (perform api c a).1
  unfolding perform enqueue_steering
  perform-Moves api checks free = Quiet-Moves _ (assert_available-Quiet o a)
  perform-Moves api begins free =
      Quiet-Moves _ (then-Quiet o begin_turn _ a (begin_turn-Quiet o a) (λ x. Quiet-refl))
  perform-Moves api fails free = Quiet-Moves _ (mark_failed-Quiet o a)
  perform-Moves api detaches free = subst (Moves o m a) (sym (then-state detach a)) detach-Moves
  perform-Moves api clears free = Quiet-Moves _ (clear_steering-Quiet api o a)
  perform-Moves api (attaches l doc) free = attach-Moves l doc free
  perform-Moves api (sets_cleanup g c) free = Quiet-Moves _ (set_turn_event_cleanup-Quiet o a g c)
  perform-Moves api (applies proc g e messages) free = Quiet-Moves _ (
      then-Quiet o (apply_process_event api proc g e messages) _ a
        (apply_process_event-Quiet api o proc g e messages a) (λ x. Quiet-refl))
  perform-Moves api (steers t) free = Quiet-Moves _ (sync_steering_queue-Quiet api o _ a)
  perform-Moves api (unsteers t) free = Quiet-Moves _ (dequeue_steering-Quiet api o t a)
  perform-Moves api (unsteers_at i) free = Quiet-Moves _ (remove_steering_by_index-Quiet api o i a)
