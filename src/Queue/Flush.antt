-- ===== src/Queue/Flush.antt =====
-- src/server/frame-connection.ts: flush, enqueue and enqueueSequence of PrioritizedFrameQueue. A
-- carrier's `canWrite` is the number of rounds for which it says yes, and its `write` does not throw.
use pipane.Base.{
  ℕ, zero, suc, ◌+◌, ◌-◌, ◌==◌, Bool, true, false, Option, none, some, List, [], ◌∷◌, ◌++◌, Result,
  ok, err, get_elem?, length, if◌then◌else◌,
}
use pipane.Queue.Lanes.{
  QueueError, not_bulk, PhysicalMessage, Frame, Sequence, Bulk, whole, lazy, Queue, Codec,
  create_frame, key_or_none, cancel_transfer,
}

-- clear
abbrev pub clear : Queue → Queue
clear q = record q { control = []; bulk = []; queued_bytes = 0 }

-- onFailure of both carriers: they close, which clears the queue.
abbrev pub fail : Queue → Queue
fail q = clear (record q { failures = q.failures + 1 })

-- A message is written: the frame and the queue behind it.
abbrev pub write_message : PhysicalMessage → Queue → Queue
write_message m q = record q {
  written = m.value ∷ q.written;
  queued_bytes = q.queued_bytes - m.byte_length;
}

abbrev pub advanced : Frame → Frame
advanced f = record f { next_index = f.next_index + 1 }

abbrev pub is_complete : Frame → Bool
is_complete f = f.next_index + 1 == length f.messages

-- One round's result: does the loop go on?
unfoldable pub write_control : Frame → List Frame → Queue → Bool × Queue
write_control f fs q = elim (get_elem? f.messages f.next_index) [
  | none ↦ (false, fail q)
  | some m ↦
      (true, record (write_message m q) { control = if is_complete f then fs else advanced f ∷ fs })
]

unfoldable pub write_whole : Frame → List Bulk → Queue → Bool × Queue
write_whole f bs q = elim (get_elem? f.messages f.next_index) [
  | none ↦ (false, fail q)
  | some m ↦ (
    true,
    record (write_message m q) { bulk = if is_complete f then bs else whole (advanced f) ∷ bs },
  )
]

unfoldable pub write_current : Frame → Sequence → List Bulk → Queue → Bool × Queue
write_current f s bs q = elim (get_elem? f.messages f.next_index) [
  | none ↦ (false, fail q)
  | some m ↦ (
    true,
    record (write_message m q) {
      bulk = lazy (record s { current = if is_complete f then none else some (advanced f) }) ∷ bs;
    },
  )
]

module _ (codec : Codec) where
  -- What an attempt to make the next frame of a sequence leads to.
  unfoldable pub begin_frame : Sequence → List Bulk → Result QueueError Frame × Queue → Bool × Queue
  begin_frame s bs (err e, q) = (false, fail q)
  begin_frame s bs (ok f, q) =
      let begun : Sequence = record s { current = some f } in
      write_current f begun bs (record q { bulk = lazy begun ∷ bs })

  -- The next frame of an iterator.
  unfoldable pub pull : List ℕ → Sequence → List Bulk → Queue → Bool × Queue
  pull [] s bs q = (true, record q { bulk = bs })
  pull (frame ∷ frames) s bs q =
      let taken : Sequence = record s { iterator = frames } in
      begin_frame taken bs
        (create_frame codec frame s.transfer_key (record q { bulk = lazy taken ∷ bs }))

  unfoldable pub write_bulk : List Bulk → Queue → Bool × Queue
  write_bulk [] q = (false, q)
  write_bulk (whole f ∷ bs) q = write_whole f bs q
  write_bulk (lazy s ∷ bs) q = elim s.current [
    | none ↦ pull s.iterator s bs q
    | some f ↦ write_current f s bs q
  ]

  -- One round of the loop of flush: control before bulk.
  unfoldable pub flush_round : Queue → Bool × Queue
  flush_round q = elim q.control [ [] ↦ write_bulk q.bulk q | f ∷ fs ↦ write_control f fs q ]

  -- flush
  unfoldable pub flush : ℕ → Queue → Queue
  flush zero q = q
  flush (suc rounds) q =
      let (more, q') = flush_round q in let rest = flush rounds q' in if more then rest else q'

  -- enqueue: a failure is reported and thrown.
  unfoldable pub enqueue : ℕ → ℕ → Bool → Option ℕ → Queue → Result QueueError (Unit {0}) × Queue
  enqueue rounds frame bulk_lane key q =
      let (created, q') = create_frame codec frame key q in
      elim created [
        | err e ↦ (err e, fail q')
        | ok f ↦ (
          ok tt,
          flush rounds (
              if bulk_lane
              then record q' { bulk = q'.bulk ++ (whole f ∷ []) }
              else record q' { control = q'.control ++ (f ∷ []) }),
        )
      ]

  -- enqueueSequence
  unfoldable pub enqueue_sequence :
      ℕ → List ℕ → Bool → Option ℕ → Queue → Result QueueError (Unit {0}) × Queue
  enqueue_sequence rounds frames bulk_lane key q =
      if bulk_lane
      then (
        ok tt,
        flush rounds (record q {
          bulk =
              q.bulk
              ++ (lazy
                    (record { iterator = frames; current = none; transfer_key = key_or_none key })
                  ∷ []);
        }),
      )
      else (err not_bulk, q)

  -- cancelTransfer
  unfoldable pub cancel : ℕ → ℕ → Queue → Queue
  cancel rounds key q = flush rounds (cancel_transfer codec key q)
