-- ===== src/Registry/Examples.antt =====
-- The theorem on src/server/session-registry.ts at one session, with a number as its document.
use pipane.Base.{ℕ, ◌≡◌, ◌+◌, refl, true, none, List, [], ◌∷◌, arith}
use pipane.Base.Dict.{get}
use pipane.Session.Phase.{Lease}
use pipane.Session.Actor.{Document}
use pipane.Session.Mailbox.{attaches, begins, detaches}
use pipane.Registry.State.{
  Registry, get_or_create, RegistryCall, gets, gets_pending, promotes, commands, call, run_calls,
}
use pipane.Registry.Ownership.{Indexed, FreeCalls, run_calls-Indexed}

abbrev tally : Document ℕ
tally = record {
  apply_event = λ n e. n + 1;
  changes = λ n e. true;
  replace_messages = λ n m. m;
  set_steering = λ n q. n;
  join = λ texts. 0;
}

abbrev nobody : Registry ℕ
nobody = record {
  actors = [];
  actors_by_process = [];
  pending_actors = [];
  statuses = [];
  emitted = [];
  objects = [];
  next_object = 0;
}

nobody-Indexed : Indexed nobody
unfolding get
nobody-Indexed = record {
  known = λ p o e. ground arith;
  found = λ p o e. ground arith;
  named = λ path o x e f. ground arith;
  stored = λ path o e. ground arith;
  held = λ o x e. ground arith;
  numbered = λ o e. ground arith;
}

abbrev four : Lease
four = record { id = 1; process = 4 }

-- The session 9 runs a turn on the process 4 and lets it go; the session 8 waits to be promoted.
abbrev session_calls : List (RegistryCall ℕ)
session_calls =
    gets 9
    ∷ commands 0 (attaches four 0)
    ∷ commands 0 begins
    ∷ gets_pending 8
    ∷ commands 0 detaches
    ∷ promotes 8
    ∷ []

four_free : get 4 (call tally (gets 9) nobody).actors_by_process ≡ none
unfolding call get_or_create get
four_free = refl

session_calls_free : FreeCalls tally session_calls nobody
session_calls_free = (tt, (four_free, (tt, (tt, (tt, (tt, tt))))))

run_calls-Indexed_example : Indexed (run_calls tally session_calls nobody)
run_calls-Indexed_example =
    run_calls-Indexed tally session_calls nobody session_calls_free nobody-Indexed
