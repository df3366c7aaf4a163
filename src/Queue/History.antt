-- ===== src/Queue/History.antt =====
-- Any use of PrioritizedFrameQueue, src/server/frame-connection.ts, by its carriers.
use pipane.Base.{
  if◌then◌else◌, ℕ, ◌≡◌, ◌+◌, ◌++◌, Bool, true, false, Option, List, [], ◌∷◌, arith, Result-cases,
  inl, inr, refl,
}
use pipane.Queue.Lanes.{remaining_bytes, Frame, whole, Queue, Codec, create_frame, control_bytes}
use pipane.Queue.Flush.{clear, flush, enqueue, enqueue_sequence, cancel}
use pipane.Queue.Accounting.{
  Accounted, bulk_bytes, control-append_one, bulk-append_one, create_frame-counted,
  create_frame-Same, clear-Accounted, cancel_transfer-Accounted, flush-Accounted,
}

-- A call, with the number of rounds for which the carrier takes messages. `closes` is the clear of a
-- carrier that closes.
pub data Call : Type 0 where
  sends : (frame : ℕ) → (bulk_lane : Bool) → (key : Option ℕ) → Call
  streams : (frames : List ℕ) → (bulk_lane : Bool) → (key : Option ℕ) → Call
  cancels : (key : ℕ) → Call
  flushes closes : Call

abbrev pub new_queue : Queue
new_queue = record {
  control = [];
  bulk = [];
  next_frame_id = 0;
  queued_bytes = 0;
  written = [];
  failures = 0;
}

module _ (codec : Codec) where
  unfoldable pub step : ℕ × Call → Queue → Queue
  step (rounds, sends frame bulk_lane key) q = (enqueue codec rounds frame bulk_lane key q).1
  step (rounds, streams frames bulk_lane key) q =
      (enqueue_sequence codec rounds frames bulk_lane key q).1
  step (rounds, cancels key) q = cancel codec rounds key q
  step (rounds, flushes) q = flush codec rounds q
  step (rounds, closes) q = clear q

  unfoldable pub run : List (ℕ × Call) → Queue → Queue
  run [] q = q
  run (c ∷ cs) q = run cs (step c q)

  pushed-Accounted :
      (bulk_lane : Bool) (f : Frame) (q : Queue)
      → q.queued_bytes ≡ control_bytes q.control + bulk_bytes q.bulk + remaining_bytes f
      → Accounted (
          if bulk_lane
          then record q { bulk = q.bulk ++ (whole f ∷ []) }
          else record q { control = q.control ++ (f ∷ []) })
  pushed-Accounted true f q v = omega (arith, v, bulk-append_one q.bulk (whole f))
  pushed-Accounted false f q v = omega (arith, v, control-append_one q.control f)

  enqueue-Accounted :
      (rounds frame : ℕ) (bulk_lane : Bool) (key : Option ℕ) (q : Queue)
      → Accounted q
      → Accounted (enqueue codec rounds frame bulk_lane key q).1
  unfolding enqueue
  enqueue-Accounted rounds frame bulk_lane key q v =
      let (same_control, same_bulk) = create_frame-Same codec frame key q in
      elim (Result-cases (create_frame codec frame key q).0) [
        | inr (x, failed) ↦
            rw (failed, enqueue) (clear-Accounted (create_frame codec frame key q).1)
        | inl (f, made) ↦
            let counted = create_frame-counted codec frame key q f made in
            rw (made, enqueue)
              (flush-Accounted codec rounds _ (
                pushed-Accounted bulk_lane f _
                  (ground (arith, counted, same_control, same_bulk, v))))
      ]

  step-Accounted : (c : ℕ × Call) (q : Queue) → Accounted q → Accounted (step c q)
  unfolding step enqueue_sequence cancel
  step-Accounted (rounds, sends frame bulk_lane key) q v =
      enqueue-Accounted rounds frame bulk_lane key q v
  step-Accounted (rounds, streams frames false key) q v = v
  step-Accounted (rounds, streams frames true key) q v =
      flush-Accounted codec rounds _ (grind (arith, v, bulk-append_one))
  step-Accounted (rounds, cancels key) q v =
      flush-Accounted codec rounds _ (cancel_transfer-Accounted codec q key v)
  step-Accounted (rounds, flushes) q v = flush-Accounted codec rounds q v
  step-Accounted (rounds, closes) q v = clear-Accounted q

  run-from : (cs : List (ℕ × Call)) (q : Queue) → Accounted q → Accounted (run cs q)
  unfolding run
  run-from [] q v = v
  run-from (c ∷ cs) q v = run-from cs (step c q) (step-Accounted c q v)

  -- Whatever is sent, streamed, cancelled and flushed through a new queue, failures and closing
  -- included, the bytes that it counts are the bytes of the messages that it still has to write.
  pub run-Accounted : (cs : List (ℕ × Call)) → Accounted (run cs new_queue)
  unfolding control_bytes bulk_bytes
  run-Accounted cs = run-from cs new_queue refl
