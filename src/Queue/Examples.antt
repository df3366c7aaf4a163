-- ===== src/Queue/Examples.antt =====
-- The theorem on src/server/frame-connection.ts with a codec that sends a frame as two messages.
use pipane.Base.{ℕ, ◌+◌, true, false, none, some, List, [], ◌∷◌}
use pipane.Queue.Lanes.{Codec}
use pipane.Queue.Accounting.{Accounted}
use pipane.Queue.History.{
  Call, sends, streams, cancels, flushes, closes, new_queue, run, run-Accounted,
}

abbrev pairs : Codec
pairs = record {
  frame_id = λ number key. number;
  encode = λ frame id. some (
      record { value = frame; byte_length = 3 }
      ∷ record { value = frame + 1; byte_length = 5 }
      ∷ []);
  cancellation = λ id. record { value = id; byte_length = 2 };
  cancellation_id = λ id. id;
}

abbrev traffic : List (ℕ × Call)
traffic =
    (1, streams (10 ∷ 20 ∷ []) true (some 4))
    ∷ (0, sends 30 false none)
    ∷ (1, cancels 4)
    ∷ (2, flushes)
    ∷ (0, closes)
    ∷ []

run-Accounted_example : Accounted (run pairs traffic new_queue)
run-Accounted_example = run-Accounted pairs traffic
