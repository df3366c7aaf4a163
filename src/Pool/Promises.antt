-- ===== src/Pool/Promises.antt =====
-- What a process's channel of src/server/process-pool.ts keeps of its requests: each promise ends once.
use pipane.Base.{
  ℕ, ◌≡◌, ◌+◌, ◌==◌, refl, true, Bool, not, ◌&&◌, is_some, Option, none, some, List, [], ◌∷◌, arith,
  inl, inr, Option-cases, contains, contains-without, contains-cons, leb, ltb, if◌then◌else◌,
}
use pipane.Base.Dict.{Dict, get, put, remove}
use pipane.Pool.Requests.{
  Response, Outcome, timed_out, ended, Channel, new_channel, send_rpc, settle, settle_response,
  receive_with, expire, reject_each, reject_all,
}

-- How often a key stands in a list of entries.
pub occurs {ℓ} : {V : Type ℓ} → ℕ → List (ℕ × V) → ℕ
occurs k [] = 0
occurs k ((j, v) ∷ m) = let rest = occurs k m in if j == k then rest + 1 else rest

module _ {ℓ} {V : Type ℓ} where
  occurs-get : (k : ℕ) (m : Dict V) → is_some (get k m) ≡ ltb 0 (occurs k m)
  unfolding get occurs
  occurs-get k [] = refl
  occurs-get k ((j, v) ∷ m) = ground (arith, occurs-get k m)

  occurs-put :
      (k j : ℕ) (v : V) (m : Dict V)
      → occurs k m ≡ 0
      → occurs j (put k v m) ≡ (if k == j then 1 else occurs j m)
  unfolding put occurs
  occurs-put k j v [] e = ground arith
  occurs-put k j v ((i, w) ∷ m) e = ground (arith, occurs-put k j v m)

  occurs-remove :
      (k j : ℕ) (m : Dict V) → occurs j (remove k m) ≡ (if k == j then 0 else occurs j m)
  unfolding remove occurs
  occurs-remove k j [] = ground arith
  occurs-remove k j ((i, w) ∷ m) = ground (arith, occurs-remove k j m)

-- Was the request sent?
abbrev pub was_sent : ℕ → Channel → Bool
was_sent id c = leb 1 id && leb id c.request_id

-- A timer runs for each pending request, and a request that was sent is either pending, or its
-- promise has ended, once.
pub record Once (c : Channel) : Type 0 where
  pub running : (id : ℕ) → contains id c.timers ≡ ltb 0 (occurs id c.pending)
  pub once : (id : ℕ) → occurs id c.settled + occurs id c.pending ≡ (if was_sent id c then 1 else 0)

pub new_channel-Once : Once new_channel
unfolding occurs contains
new_channel-Once = record { running = λ id. refl; once = λ id. ground arith }

pub send_rpc-Once : (command : ℕ) (c : Channel) → Once c → Once (send_rpc command c)
unfolding send_rpc
send_rpc-Once command c v =
    let fresh : occurs (c.request_id + 1) c.pending ≡ 0 =
      ground (arith, v.once (c.request_id + 1)) in
    record {
      running = λ id. ground (
        arith,
        v.running id,
        contains-cons id (c.request_id + 1) c.timers,
        occurs-put (c.request_id + 1) id command c.pending fresh,
      );
      once =
          λ id. ground (arith, v.once id, occurs-put (c.request_id + 1) id command c.pending fresh);
    }

-- A request that is pending ends.
settle-Once :
    (id : ℕ) (o : Outcome) (c : Channel)
    → ltb 0 (occurs id c.pending) ≡ true
    → Once c
    → Once (settle id o (record c { pending = remove id c.pending }))
unfolding settle occurs
settle-Once id o c there v = record {
  running = λ j.
      ground (arith, v.running j, contains-without id j c.timers, occurs-remove id j c.pending);
  once = λ j. ground (arith, v.once j, occurs-remove id j c.pending);
}

pub expire-Once : (id : ℕ) (c : Channel) → contains id c.timers ≡ true → Once c → Once (expire id c)
unfolding expire
expire-Once id c runs v = settle-Once id timed_out c (ground (arith, v.running id, runs)) v

pub receive_with-Once :
    (id : Option ℕ) (r : Response) (c : Channel) → Once c → Once (receive_with id r c)
unfolding receive_with settle_response
receive_with-Once none r c v = v
receive_with-Once (some id) r c v = elim (Option-cases (get id c.pending)) [
  | inl nobody ↦ rw (nobody, settle_response) v
  | inr (command, found) ↦
      let there = occurs-get id c.pending in
      rw (found, settle_response) (settle-Once id _ c (ground (arith, there, found)) v)
]

reject_each-occurs :
    (es : Dict ℕ) (c : Channel) (id : ℕ)
    → occurs id (reject_each es c).settled ≡ occurs id c.settled + occurs id es
unfolding reject_each settle occurs
reject_each-occurs [] c id = omega arith
reject_each-occurs ((j, command) ∷ es) c id =
    ground (arith, reject_each-occurs es (settle j ended c) id)

reject_each-timers :
    (es : Dict ℕ) (c : Channel) (id : ℕ)
    → contains id (reject_each es c).timers ≡ (contains id c.timers && not (ltb 0 (occurs id es)))
unfolding reject_each settle occurs
reject_each-timers [] c id = ground arith
reject_each-timers ((j, command) ∷ es) c id =
    ground (arith, reject_each-timers es (settle j ended c) id, contains-without j id c.timers)

reject_each-id : (es : Dict ℕ) (c : Channel) → (reject_each es c).request_id ≡ c.request_id
unfolding reject_each settle
reject_each-id [] c = refl
reject_each-id ((j, command) ∷ es) c = reject_each-id es (settle j ended c)

pub reject_all-Once : (c : Channel) → Once c → Once (reject_all c)
unfolding reject_all occurs
reject_all-Once c v = record {
  running = λ id. ground (arith, v.running id, reject_each-timers c.pending c id);
  once = λ id.
      ground (arith, v.once id, reject_each-occurs c.pending c id, reject_each-id c.pending c);
}

-- The promise of a request that was sent has ended, or there is no such promise any more.
abbrev pub Closed : ℕ → Channel → Type 0
Closed id c = (was_sent id c ≡ true) × (occurs id c.pending ≡ 0)

pub occurs-settled : (id : ℕ) (c : Channel) → Once c → Closed id c → occurs id c.settled ≡ 1
occurs-settled id c v h = ground (arith, v.once id, h.0, h.1)

pub send_rpc-Closed :
    (id command : ℕ) (c : Channel) → Once c → Closed id c → Closed id (send_rpc command c)
unfolding send_rpc
send_rpc-Closed id command c v h =
    let fresh : occurs (c.request_id + 1) c.pending ≡ 0 =
      ground (arith, v.once (c.request_id + 1)) in
    (
      ground (arith, h.0),
      ground (arith, h.0, h.1, occurs-put (c.request_id + 1) id command c.pending fresh),
    )

pub settle-Closed :
    (id j : ℕ) (o : Outcome) (c : Channel)
    → Closed id c
    → Closed id (settle j o (record c { pending = remove j c.pending }))
unfolding settle
settle-Closed id j o c h = (h.0, ground (arith, h.1, occurs-remove j id c.pending))

pub receive_with-Closed :
    (id : ℕ) (j : Option ℕ) (r : Response) (c : Channel)
    → Closed id c
    → Closed id (receive_with j r c)
unfolding receive_with settle_response
receive_with-Closed id none r c h = h
receive_with-Closed id (some j) r c h = elim (Option-cases (get j c.pending)) [
  | inl nobody ↦ rw (nobody, settle_response) h
  | inr (command, found) ↦ rw (found, settle_response) (settle-Closed id j _ c h)
]

-- At the end of the process no promise is left.
pub reject_all-Closed : (id : ℕ) (c : Channel) → was_sent id c ≡ true → Closed id (reject_all c)
unfolding reject_all occurs
reject_all-Closed id c h = (ground (arith, h, reject_each-id c.pending c), refl)

-- When its timer fires, nor does the request's.
pub expire-Closed : (id : ℕ) (c : Channel) → was_sent id c ≡ true → Closed id (expire id c)
unfolding expire settle
expire-Closed id c h = (h, ground (arith, occurs-remove id id c.pending))
