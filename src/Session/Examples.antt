-- ===== src/Session/Examples.antt =====
-- The theorems on src/server/session-actor.ts at one session, with a number as its document.
use pipane.Base.{ℕ, ◌≡◌, ◌≢◌, ◌+◌, refl, true, none, some, List, [], ◌∷◌, ok, err, arith}
use pipane.Session.Phase.{Lease, detached, ready, starting}
use pipane.Session.Actor.{
  illegal_transition, Document, Actor, agent_start, new_actor, attach, begin_turn, transition,
}
use pipane.Session.Events.{apply_process_event, ignored}
use pipane.Session.Detach.{detach}
use pipane.Session.Ownership.{Inv, new_actor-Inv, attach-Inv}
use pipane.Session.Mailbox.{
  Command, attaches, begins, steers, applies, detaches, perform, run_mailbox,
}
use pipane.Session.Safety.{mailbox-Inv, perform-ne-illegal, detach_lem, begin_turn-ignores}

abbrev counter : Document ℕ
counter = record {
  apply_event = λ n e. n + 1;
  changes = λ n e. true;
  replace_messages = λ n m. m;
  set_steering = λ n q. n;
  join = λ texts. 0;
}

abbrev held : Lease
held = record { id = 1; process = 4 }

abbrev attached_actor : Actor ℕ
attached_actor = (attach held 0 new_actor).1

attached_actor-Inv : Inv attached_actor
attached_actor-Inv = attach-Inv held 0 new_actor new_actor-Inv

abbrev one_turn : List (Command ℕ)
one_turn =
    attaches held 0 ∷ begins ∷ applies 4 1 agent_start none ∷ steers 8 ∷ begins ∷ detaches ∷ []

mailbox-Inv_example : Inv (run_mailbox counter one_turn new_actor).1
mailbox-Inv_example = mailbox-Inv counter one_turn

perform-ne-illegal_example :
    (perform counter begins attached_actor).0 ≢ err (illegal_transition ready starting)
perform-ne-illegal_example =
    perform-ne-illegal counter begins attached_actor ready starting attached_actor-Inv

attached_lease : attached_actor.lease ≡ some held
unfolding attach transition new_actor
attached_lease = refl

attached_session : attached_actor.session ≡ some 0
unfolding attach transition new_actor
attached_session = refl

detach_lem_example :
    let (r, a) = detach attached_actor in
    (r ≡ ok (some (4, 0)))
    × (a.phase ≡ detached)
    × (a.lease ≡ none)
    × (a.session ≡ none)
    × (a.steering_queue ≡ [])
    × (a.turn_event_cleanup ≡ none)
detach_lem_example =
    detach_lem counter attached_actor held 0 attached_actor-Inv attached_lease attached_session

turn_begun : (begin_turn attached_actor).0 ≡ ok 1
unfolding begin_turn attach transition new_actor
turn_begun = refl

begin_turn-ignores_example :
    let b = (run_mailbox counter one_turn (begin_turn attached_actor).1).1 in
    apply_process_event counter 4 0 agent_start none b ≡ (ok ignored, b)
begin_turn-ignores_example =
    begin_turn-ignores counter one_turn attached_actor 4 0 1 agent_start none turn_begun
      (omega arith)
