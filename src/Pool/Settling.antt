-- ===== src/Pool/Settling.antt =====
-- How often the promise of a request ends, src/server/process-pool.ts.
use pipane.Base.{
  ℕ, ◌≡◌, ◌==◌, refl, true, false, Bool, some, List, [], ◌∷◌, arith, inl, inr, Bool-cases, contains,
  subst, sym,
}
use pipane.Base.Dict.{get, put, get-put}
use pipane.Pool.Operations.{decommission, finalize_process}
use pipane.Pool.Requests.{
  update, Response, timed_out, Channel, send_rpc, receive, expire, reject_all, Serving, channel,
  ServingEvent, pool_does, sends, answers, fires, ends, serve, serve_all,
}
use pipane.Pool.Promises.{
  occurs, was_sent, Once, send_rpc-Once, expire-Once, receive_with-Once, reject_all-Once, Closed,
  occurs-settled, send_rpc-Closed, settle-Closed, receive_with-Closed, reject_all-Closed,
  expire-Closed,
}

update_cases {ℓ} :
    (P : Channel → Type ℓ) (p q : ℕ) (f : Channel → Channel) (s : Serving)
    → P (channel p s)
    → ((q ≡ p) → P (f (channel p s)))
    → P (channel p (update q f s))
unfolding channel
update_cases P p q f s other here = elim (Bool-cases (q == p)) [
  | inl this ↦
      let same : q ≡ p = ground arith in
      let e : get p (put q (f (channel q s)) s.channels) ≡ some (f (channel q s)) =
        grind (arith, get-put) in
      rw e (subst (λ x. P (f (channel x s))) (sym same) (here same))
  | inr another ↦
      let e : get p (put q (f (channel q s)) s.channels) ≡ get p s.channels =
        grind (arith, get-put) in
      rw e other
]

channel-update :
    (p : ℕ) (f : Channel → Channel) (s : Serving) → channel p (update p f s) ≡ f (channel p s)
unfolding channel
channel-update p f s =
    let e : get p (put p (f (channel p s)) s.channels) ≡ some (f (channel p s)) =
      grind (arith, get-put) in
    rw e refl

module _ (exists : ℕ → Bool) where
  -- What one event does to the channel of p.
  serve_cases {ℓ} :
      (P : Channel → Type ℓ) (p : ℕ) (e : ServingEvent) (s : Serving)
      → P (channel p s)
      → ((command : ℕ) → P (channel p s) → P (send_rpc command (channel p s)))
      → ((r : Response) → P (channel p s) → P (receive r (channel p s)))
      → ((id : ℕ)
          → contains id (channel p s).timers ≡ true
          → P (channel p s)
          → P (expire id (channel p s)))
      → (P (channel p s) → P (reject_all (channel p s)))
      → P (channel p (serve exists e s))
  unfolding serve channel
  serve_cases P p (pool_does e) s h on_send on_receive on_expire on_end = h
  serve_cases P p (sends q command) s h on_send on_receive on_expire on_end =
      elim (Bool-cases (contains q s.pool.exited)) [
        | inl dead ↦ rw (dead, serve) h
        | inr alive ↦
            rw (alive, serve)
              (update_cases P p q (send_rpc command) s h (λ same. on_send command h))
      ]
  serve_cases P p (answers q r) s h on_send on_receive on_expire on_end =
      elim (Bool-cases (contains q s.pool.finalized)) [
        | inl gone ↦ rw (gone, serve) h
        | inr reads ↦
            rw (reads, serve) (update_cases P p q (receive r) s h (λ same. on_receive r h))
      ]
  serve_cases P p (fires q id) s h on_send on_receive on_expire on_end =
      elim (Bool-cases (contains id (channel q s).timers)) [
        | inr stopped ↦ rw (stopped, serve) h
        | inl runs ↦
            let left : Serving = record s { pool = (decommission q s.pool).1 } in
            rw (runs, serve)
              (update_cases P p q (expire id) left h (λ same.
                on_expire id (subst (λ x. contains id (channel x s).timers ≡ true) same runs) h))
      ]
  serve_cases P p (ends q) s h on_send on_receive on_expire on_end =
      elim (Bool-cases (contains q s.pool.finalized)) [
        | inl gone ↦ rw (gone, serve) h
        | inr there ↦
            let left : Serving = record s { pool = finalize_process q s.pool } in
            rw (there, serve) (update_cases P p q reject_all left h (λ same. on_end h))
      ]

  serve-Once :
      (p : ℕ) (e : ServingEvent) (s : Serving)
      → Once (channel p s)
      → Once (channel p (serve exists e s))
  unfolding receive
  serve-Once p e s v =
      serve_cases Once p e s v (λ command. send_rpc-Once command (channel p s))
        (λ r. receive_with-Once r.id r (channel p s))
        (λ id runs v. expire-Once id (channel p s) runs v) (reject_all-Once (channel p s))

  serve-Closed :
      (p id : ℕ) (e : ServingEvent) (s : Serving)
      → Once (channel p s)
      → Closed id (channel p s)
      → Closed id (channel p (serve exists e s))
  unfolding receive expire
  serve-Closed p id e s v h =
      serve_cases (Closed id) p e s h (λ command. send_rpc-Closed id command (channel p s) v)
        (λ r. receive_with-Closed id r.id r (channel p s))
        (λ j runs. settle-Closed id j timed_out (channel p s))
        (λ h. reject_all-Closed id (channel p s) h.0)

  -- From channels where it holds, whatever is sent, answered, timed out and ended, in any order: a
  -- timer runs exactly for the pending requests, and a request that was sent is either pending, or
  -- its promise has ended exactly once.
  pub serve_all-Once :
      (p : ℕ) (es : List ServingEvent) (s : Serving)
      → Once (channel p s)
      → Once (channel p (serve_all exists es s))
  unfolding serve_all
  serve_all-Once p [] s v = v
  serve_all-Once p (e ∷ es) s v = serve_all-Once p es (serve exists e s) (serve-Once p e s v)

  stays_settled :
      (p id : ℕ) (es : List ServingEvent) (s : Serving)
      → Once (channel p s)
      → Closed id (channel p s)
      → occurs id (channel p (serve_all exists es s)).settled ≡ 1
  unfolding serve_all
  stays_settled p id [] s v h = occurs-settled id (channel p s) v h
  stays_settled p id (e ∷ es) s v h =
      stays_settled p id es (serve exists e s) (serve-Once p e s v) (serve-Closed p id e s v h)

  -- The time of a request is up, or its process ends for the first time.
  pub data Concludes (p id : ℕ) (s : Serving) : ServingEvent → Type 0 where
    at_timeout : Concludes p id s (fires p id)
    at_end : contains p s.pool.finalized ≡ false → Concludes p id s (ends p)

  conclude-Closed :
      (p id : ℕ) (e : ServingEvent) (s : Serving)
      → Once (channel p s)
      → was_sent id (channel p s) ≡ true
      → Concludes p id s e
      → Closed id (channel p (serve exists e s))
  unfolding serve channel
  conclude-Closed p id _ s v sent at_timeout =
      elim (Bool-cases (contains id (channel p s).timers)) [
        | inr stopped ↦ rw (stopped, serve) (sent, ground (arith, v.running id, stopped))
        | inl runs ↦
            let left : Serving = record s { pool = (decommission p s.pool).1 } in
            rw (runs, serve)
              (subst (Closed id) (sym (channel-update p (expire id) left))
                (expire-Closed id (channel p s) sent))
      ]
  conclude-Closed p id _ s v sent (at_end alive) =
      let left : Serving = record s { pool = finalize_process p s.pool } in
      rw (alive, serve)
        (subst (Closed id) (sym (channel-update p reject_all left))
          (reject_all-Closed id (channel p s) sent))

  -- From channels where a timer runs exactly for the pending requests and each request's promise is
  -- pending or has ended once: a request that was sent has its promise ended, exactly once, from when
  -- its time is up or its process has ended on, whatever happens then.
  pub serve_all-settled :
      (p id : ℕ) (e : ServingEvent) (es : List ServingEvent) (s : Serving)
      → Once (channel p s)
      → was_sent id (channel p s) ≡ true
      → Concludes p id s e
      → occurs id (channel p (serve_all exists (e ∷ es) s)).settled ≡ 1
  unfolding serve_all
  serve_all-settled p id e es s v sent ends_it =
      stays_settled p id es (serve exists e s) (serve-Once p e s v)
        (conclude-Closed p id e s v sent ends_it)
