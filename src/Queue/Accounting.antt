-- ===== src/Queue/Accounting.antt =====
-- The byte count of PrioritizedFrameQueue, src/server/frame-connection.ts.
use pipane.Base.{
  ℕ, zero, suc, ◌≡◌, ◌+◌, refl, true, Option, none, some, List, [], ◌∷◌, ◌++◌, arith, Result, ok,
  err, get_elem?, length, drop, drop_cons, Option-cases, Bool-cases, inl, inr, Result-cases,
}
use native.Mathlib.Numerals.{add-one}
use pipane.Queue.Lanes.{
  QueueError, PhysicalMessage, Frame, Sequence, Bulk, whole, lazy, Queue, Codec, total_bytes,
  remaining_bytes, item_bytes, sweep_control, sweep_bulk, create_frame, cancellation_frames,
  control_bytes, cancel_transfer,
}
use pipane.Queue.Flush.{
  clear, write_control, write_whole, write_current, begin_frame, pull, write_bulk, flush_round,
  flush, is_complete, advanced,
}

-- What the bulk lane still has to write of the frames that it has made.
unfoldable pub bulk_bytes : List Bulk → ℕ
bulk_bytes [] = 0
bulk_bytes (b ∷ bs) = item_bytes b + bulk_bytes bs

-- The count is what is still to be written.
abbrev pub Accounted : Queue → Type 0
Accounted q = q.queued_bytes ≡ control_bytes q.control + bulk_bytes q.bulk

pub clear-Accounted : (q : Queue) → Accounted (clear q)
unfolding control_bytes bulk_bytes
clear-Accounted q = refl

drop-next :
    (ms : List PhysicalMessage) (n : ℕ) (m : PhysicalMessage)
    → get_elem? ms n ≡ some m
    → total_bytes (drop n ms) ≡ m.byte_length + total_bytes (drop (n + 1) ms)
unfolding total_bytes
drop-next ms n m e = rw (add-one, drop_cons ms n m e) refl

drop-all : (ms : List PhysicalMessage) (n : ℕ) → n ≡ length ms → total_bytes (drop n ms) ≡ 0
unfolding total_bytes
drop-all [] zero e = refl
drop-all [] (suc n) e = refl
drop-all (x ∷ xs) zero e = omega (arith, e)
drop-all (x ∷ xs) (suc n) e = drop-all xs n (omega (arith, e))

control-append :
    (fs gs : List Frame) → control_bytes (fs ++ gs) ≡ control_bytes fs + control_bytes gs
unfolding control_bytes
control-append [] gs = omega arith
control-append (f ∷ fs) gs = omega (arith, control-append fs gs)

bulk-append : (bs cs : List Bulk) → bulk_bytes (bs ++ cs) ≡ bulk_bytes bs + bulk_bytes cs
unfolding bulk_bytes
bulk-append [] cs = omega arith
bulk-append (b ∷ bs) cs = omega (arith, bulk-append bs cs)

pub control-append_one :
    (fs : List Frame) (f : Frame)
    → control_bytes (fs ++ (f ∷ [])) ≡ control_bytes fs + remaining_bytes f
unfolding control_bytes
control-append_one fs f = omega (arith, control-append fs (f ∷ []))

pub bulk-append_one :
    (bs : List Bulk) (b : Bulk) → bulk_bytes (bs ++ (b ∷ [])) ≡ bulk_bytes bs + item_bytes b
unfolding bulk_bytes
bulk-append_one bs b = omega (arith, bulk-append bs (b ∷ []))

control-sweep :
    (key : ℕ) (fs : List Frame)
    → control_bytes (sweep_control key fs).kept + (sweep_control key fs).freed ≡ control_bytes fs
unfolding sweep_control control_bytes
control-sweep key [] = refl
control-sweep key (f ∷ fs) = ground (arith, control-sweep key fs)

bulk-sweep :
    (key : ℕ) (bs : List Bulk)
    → bulk_bytes (sweep_bulk key bs).kept + (sweep_bulk key bs).freed ≡ bulk_bytes bs
unfolding sweep_bulk bulk_bytes
bulk-sweep key [] = refl
bulk-sweep key (b ∷ bs) = ground (arith, bulk-sweep key bs)

-- What a frame has left once its next message is written, complete or not.
after_write :
    (f : Frame) (m : PhysicalMessage)
    → get_elem? f.messages f.next_index ≡ some m
    → (remaining_bytes f ≡ m.byte_length + remaining_bytes (advanced f))
      × (is_complete f ≡ true → remaining_bytes (advanced f) ≡ 0)
after_write f m e = (
  drop-next f.messages f.next_index m e,
  λ c. drop-all f.messages (f.next_index + 1) (ground arith),
)

write_control-Accounted :
    (f : Frame) (fs : List Frame) (q : Queue)
    → q.queued_bytes ≡ remaining_bytes f + control_bytes fs + bulk_bytes q.bulk
    → q.control ≡ f ∷ fs
    → Accounted (write_control f fs q).1
unfolding write_control control_bytes
write_control-Accounted f fs q e c = elim (Option-cases (get_elem? f.messages f.next_index)) [
  | inl missing ↦
      rw (missing, write_control) (clear-Accounted (record q { failures = q.failures + 1 }))
  | inr (m, found) ↦
      let left = after_write f m found in
      elim (Bool-cases (is_complete f)) [
        | inl done ↦ let none_left = left.1 done in ground (arith, left.0, none_left)
        | inr more ↦ ground (arith, left.0)
      ]
]

write_whole-Accounted :
    (f : Frame) (bs : List Bulk) (q : Queue)
    → q.queued_bytes ≡ control_bytes q.control + remaining_bytes f + bulk_bytes bs
    → q.bulk ≡ whole f ∷ bs
    → Accounted (write_whole f bs q).1
unfolding write_whole bulk_bytes control_bytes
write_whole-Accounted f bs q e c = elim (Option-cases (get_elem? f.messages f.next_index)) [
  | inl missing ↦ ground arith
  | inr (m, found) ↦
      let left = after_write f m found in
      elim (Bool-cases (is_complete f)) [
        | inl done ↦ let none_left = left.1 done in ground (arith, left.0, none_left)
        | inr more ↦ ground (arith, left.0)
      ]
]

write_current-Accounted :
    (f : Frame) (s : Sequence) (bs : List Bulk) (q : Queue)
    → q.queued_bytes ≡ control_bytes q.control + remaining_bytes f + bulk_bytes bs
    → q.bulk ≡ lazy s ∷ bs
    → s.current ≡ some f
    → Accounted (write_current f s bs q).1
unfolding write_current bulk_bytes control_bytes
write_current-Accounted f s bs q e c d = elim (Option-cases (get_elem? f.messages f.next_index)) [
  | inl missing ↦ ground arith
  | inr (m, found) ↦
      let left = after_write f m found in
      elim (Bool-cases (is_complete f)) [
        | inl done ↦ let none_left = left.1 done in ground (arith, left.0, none_left)
        | inr more ↦ ground (arith, left.0)
      ]
]

module _ (codec : Codec) where
  pub create_frame-counted :
      (frame : ℕ) (key : Option ℕ) (q : Queue) (f : Frame)
      → (create_frame codec frame key q).0 ≡ ok f
      → (create_frame codec frame key q).1.queued_bytes ≡ q.queued_bytes + remaining_bytes f
  unfolding create_frame
  create_frame-counted frame key q f e = ground arith

  pub create_frame-Same :
      (frame : ℕ) (key : Option ℕ) (q : Queue)
      → ((create_frame codec frame key q).1.control ≡ q.control)
        × ((create_frame codec frame key q).1.bulk ≡ q.bulk)
  unfolding create_frame
  create_frame-Same frame key q = (ground arith, ground arith)

  pub cancel_transfer-Accounted :
      (q : Queue) (key : ℕ) → Accounted q → Accounted (cancel_transfer codec key q)
  unfolding cancel_transfer
  cancel_transfer-Accounted q key v = omega (
    arith,
    v,
    control-sweep key q.control,
    bulk-sweep key q.bulk,
    control-append
        (cancellation_frames codec
          ((sweep_control key q.control).ids ++ (sweep_bulk key q.bulk).ids))
        (sweep_control key q.control).kept,
  )

  begin_frame-Accounted :
      (s : Sequence) (bs : List Bulk) (r : Result QueueError Frame × Queue)
      → (f : Frame) → r.0 ≡ ok f
      → r.1.queued_bytes ≡ control_bytes r.1.control + remaining_bytes f + bulk_bytes bs
      → Accounted (begin_frame codec s bs r).1
  unfolding begin_frame bulk_bytes
  begin_frame-Accounted s bs (err x, q) f e h = absurd (ground arith)
  begin_frame-Accounted s bs (ok g, q) f e h =
      write_current-Accounted g (record s { current = some g }) bs
        (record q { bulk = lazy (record s { current = some g }) ∷ bs }) (ground arith) refl refl

  begin_frame-failed :
      (s : Sequence) (bs : List Bulk) (r : Result QueueError Frame × Queue) (x : QueueError)
      → r.0 ≡ err x
      → Accounted (begin_frame codec s bs r).1
  unfolding begin_frame
  begin_frame-failed s bs (err x, q) y e = clear-Accounted (record q { failures = q.failures + 1 })
  begin_frame-failed s bs (ok g, q) y e = absurd (ground arith)

  pull-Accounted :
      (frames : List ℕ) (s : Sequence) (bs : List Bulk) (q : Queue)
      → q.queued_bytes ≡ control_bytes q.control + bulk_bytes bs
      → s.current ≡ none
      → Accounted (pull codec frames s bs q).1
  unfolding pull bulk_bytes
  pull-Accounted [] s bs q v d = v
  pull-Accounted (frame ∷ frames) s bs q v d =
      let taken : Sequence = record s { iterator = frames } in
      let q₁ : Queue = record q { bulk = lazy taken ∷ bs } in
      let (same_control, same_bulk) = create_frame-Same frame s.transfer_key q₁ in
      elim (Result-cases (create_frame codec frame s.transfer_key q₁).0) [
        | inl (f, made) ↦ begin_frame-Accounted taken bs _ f made (
            let counted = create_frame-counted frame s.transfer_key q₁ f made in
            ground (arith, counted, same_control, v))
        | inr (x, failed) ↦ begin_frame-failed taken bs _ x failed
      ]

  write_bulk-Accounted :
      (bs : List Bulk) (q : Queue) → q.bulk ≡ bs → Accounted q → Accounted (write_bulk codec bs q).1
  unfolding write_bulk bulk_bytes
  write_bulk-Accounted [] q b v = v
  write_bulk-Accounted (whole f ∷ bs) q b v = write_whole-Accounted f bs q (ground arith) b
  write_bulk-Accounted (lazy s ∷ bs) q b v = elim (Option-cases s.current) [
    | inl nothing ↦
        rw (nothing, write_bulk) (pull-Accounted s.iterator s bs q (ground arith) nothing)
    | inr (f, begun) ↦
        rw (begun, write_bulk) (write_current-Accounted f s bs q (ground arith) b begun)
  ]

  round-from :
      (fs : List Frame) (q : Queue)
      → q.control ≡ fs
      → Accounted q
      → Accounted (flush_round codec q).1
  unfolding flush_round control_bytes
  round-from [] q c v = rw (c, flush_round) (write_bulk-Accounted q.bulk q refl v)
  round-from (f ∷ fs) q c v = rw (c, flush_round) (write_control-Accounted f fs q (ground arith) c)

  pub flush-Accounted : (rounds : ℕ) (q : Queue) → Accounted q → Accounted (flush codec rounds q)
  unfolding flush
  flush-Accounted zero q v = v
  flush-Accounted (suc rounds) q v =
      let next = round-from q.control q refl v in
      let rest = flush-Accounted rounds (flush_round codec q).1 next in ground (arith, next, rest)
