-- ===== src/Backend/History.antt =====
-- A history of a backend's trust store, src/server/backend-trust-store.ts: any calls of its methods,
-- in any order.
use pipane.Base.{ℕ, Option, List, [], ◌∷◌}
use pipane.Trust.Types.{Claims}
use pipane.Backend.Store.{
  Store, list_active_pairings, create_pairing, consume_pairing, authorize_ticket, mark_ticket_used,
  complete_pairing, apply_revocation,
}

-- A method that changes the store, with the random values that it draws.
pub data Call : Type 0 where
  lists : Call
  creates : (id secret ttl : ℕ) → Call
  consumes : (id secret : ℕ) → Call
  authorizes marks : Claims → Call
  completes : (account : ℕ) → Call
  revokes : (account : ℕ) → Option ℕ → Call

module _ (hash_secret : ℕ → ℕ) where
  -- The store after one call at a time of the clock.
  unfoldable pub step : ℕ × Call → Store → Store
  step (now, lists) s = (list_active_pairings now s).1
  step (now, creates id secret ttl) s = (create_pairing hash_secret now id secret ttl s).1
  step (now, consumes id secret) s = (consume_pairing hash_secret now id secret s).1
  step (now, authorizes claims) s = (authorize_ticket now claims s).1
  step (now, marks claims) s = (mark_ticket_used claims s).1
  step (now, completes account) s = (complete_pairing account s).1
  step (now, revokes account device) s = apply_revocation now account device s

  unfoldable pub run : List (ℕ × Call) → Store → Store
  run [] s = s
  run (c ∷ cs) s = run cs (step c s)
