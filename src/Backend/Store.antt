-- ===== src/Backend/Store.antt =====
-- src/server/backend-trust-store.ts: the stored state and the methods of BackendTrustStore. The
-- hash of a secret is a parameter.
use pipane.Base.{
  ℕ, ◌+◌, Bool, true, false, not, ◌&&◌, ◌||◌, Option, none, some, List, [], ◌∷◌, Result, ok, err,
  ◌>>◌, throw_if, ltb, leb, same, ◌==◌, ◌!=◌, if◌then◌else◌, truthy, is_some,
}
use pipane.Base.Dict.{Dict, get, put, retain, some_dropped}
use pipane.Trust.Types.{TicketKind, pairing, connection, Claims}

pub data Error : Type 0 where
  lifetime_out_of_range pairing_missing invalid_secret ticket_already_used account_not_owner : Error
  device_revoked already_owned secret_required confirmation_mismatch : Error

pub record Pairing : Type 0 where
  pub pair_id : ℕ
  pub secret_hash : ℕ
  pub expires_at : ℕ
  pub used_at : Option ℕ

pub record Trusted : Type 0 where
  pub owner_account_id : Option ℕ
  pub pairings : Dict Pairing
  pub used_tickets : Dict ℕ
  pub revoked_devices : Dict ℕ

-- `disk` is what the file at `filePath` holds.
pub record Store : Type 0 where
  pub state : Trusted
  pub disk : Trusted

pub record Capability : Type 0 where
  pub pair_id : ℕ
  pub secret : ℕ
  pub expires_at : ℕ

abbrev pub max_ttl : ℕ
max_ttl = 900000

-- persist
abbrev pub persist : Store → Store
persist s = record s { disk = s.state }

abbrev pub live_pairing : ℕ → Pairing → Bool
live_pairing now p = ltb now p.expires_at

abbrev pub live_ticket : ℕ → ℕ → Bool
live_ticket now expires_at = ltb now expires_at

-- prune: what has expired goes; the file is written if anything went.
unfoldable pub prune : ℕ → Store → Store
prune now s =
    let kept = record s {
      state = record (s.state) {
        pairings = retain (live_pairing now) s.state.pairings;
        used_tickets = retain (live_ticket now) s.state.used_tickets;
      };
    } in
    if some_dropped (live_pairing now) s.state.pairings
      || some_dropped (live_ticket now) s.state.used_tickets
    then persist kept
    else kept

-- The pairings that are neither used nor expired, with their expiry.
unfoldable pub active_pairings : ℕ → Dict Pairing → List (ℕ × ℕ)
active_pairings now [] = []
active_pairings now ((id, p) ∷ ps) =
    let rest = active_pairings now ps in
    if not (is_some p.used_at) && ltb now p.expires_at
    then (p.pair_id, p.expires_at) ∷ rest
    else rest

-- listActivePairings
unfoldable pub list_active_pairings : ℕ → Store → List (ℕ × ℕ) × Store
list_active_pairings now s =
    let kept = prune now s in (active_pairings now kept.state.pairings, kept)

module _ (hash_secret : ℕ → ℕ) where
  -- createPairing; `id` and `secret` are the random values that it draws.
  unfoldable pub create_pairing : ℕ → ℕ → ℕ → ℕ → Store → Result Error Capability × Store
  create_pairing now id secret ttl s =
      if ttl == 0 || ltb max_ttl ttl
      then (err lifetime_out_of_range, s)
      else (let kept = prune now s in
          let pair : Pairing = record {
            pair_id = id;
            secret_hash = hash_secret secret;
            expires_at = now + ttl;
            used_at = none;
          } in
          (
            ok (record { pair_id = id; secret = secret; expires_at = now + ttl }),
            persist (record kept {
              state = record (kept.state) { pairings = put id pair kept.state.pairings };
            }),
          ))

  -- The checks of consumePairing.
  unfoldable pub check_pairing : ℕ → ℕ → Option Pairing → Result Error Pairing
  check_pairing now secret none = err pairing_missing
  check_pairing now secret (some p) = do
    throw_if (leb p.expires_at now || is_some p.used_at) pairing_missing
    throw_if (hash_secret secret != p.secret_hash) invalid_secret
    ok p

  -- consumePairing
  unfoldable pub consume_pairing : ℕ → ℕ → ℕ → Store → Result Error (Unit {0}) × Store
  consume_pairing now id secret s = elim (check_pairing now secret (get id s.state.pairings)) [
    | err e ↦ (err e, s)
    | ok p ↦ (
      ok tt,
      persist (record s {
        state = record (s.state) {
          pairings = put id (record p { used_at = some now }) s.state.pairings;
        };
      }),
    )
  ]

abbrev pub is_connection : TicketKind → Bool
is_connection pairing = false
is_connection connection = true

-- The checks of authorizeTicket.
unfoldable pub check_ticket : Claims → Trusted → Result Error (Unit {0})
check_ticket claims t = do
  throw_if (is_some (get claims.ticket_id t.used_tickets)) ticket_already_used
  throw_if
      (is_connection claims.kind
        && (not (truthy claims.account_id) || not (same claims.account_id t.owner_account_id)))
      account_not_owner
  throw_if (is_connection claims.kind && is_some (get claims.device_id t.revoked_devices))
      device_revoked

-- authorizeTicket
unfoldable pub authorize_ticket : ℕ → Claims → Store → Result Error (Unit {0}) × Store
authorize_ticket now claims s = let kept = prune now s in (check_ticket claims kept.state, kept)

-- markTicketUsed
unfoldable pub mark_ticket_used : Claims → Store → Result Error (Unit {0}) × Store
mark_ticket_used claims s =
    if is_some (get claims.ticket_id s.state.used_tickets) then (err ticket_already_used, s) else (
      ok tt,
      persist (record s {
        state = record (s.state) {
          used_tickets = put claims.ticket_id claims.expires_at s.state.used_tickets;
        };
      }),
    )

-- completePairing
unfoldable pub complete_pairing : ℕ → Store → Result Error (Unit {0}) × Store
complete_pairing account s =
    if truthy s.state.owner_account_id && not (same s.state.owner_account_id (some account))
    then (err already_owned, s)
    else (
      ok tt,
      persist (record s { state = record (s.state) { owner_account_id = some account } }),
    )

-- What applyRevocation writes: with a device, its revocation, and without one, that there is no
-- owner.
abbrev revoked_state : ℕ → Option ℕ → Trusted → Trusted
revoked_state now none t = record t { owner_account_id = none }
revoked_state now (some d) t =
    if d == 0
    then record t { owner_account_id = none }
    else record t { revoked_devices = put d now t.revoked_devices }

-- applyRevocation
unfoldable pub apply_revocation : ℕ → ℕ → Option ℕ → Store → Store
apply_revocation now account device s =
    if same s.state.owner_account_id (some account)
    then persist (record s { state = revoked_state now device s.state })
    else s
