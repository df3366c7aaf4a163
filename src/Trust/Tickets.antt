-- ===== src/Trust/Tickets.antt =====
-- Connection tickets: issuePairingTicket, issueConnectionTicket, verifyTicket and
-- consumeRouteTicket of src/rendezvous/trust-store.ts, and the clock checks of
-- verifyConnectionTicket in src/shared/node-trust-crypto.ts.
use pipane.Base.{
  ℕ, ◌+◌, not, Option, none, some, Result, ok, err, ◌>>=◌, ◌>>◌, throw_if, ltb, leb, same, is_some,
  if◌then◌else◌,
}
use pipane.Base.Dict.{get, put}
use pipane.Trust.Types.{
  Error, backend_not_authorized, ticket_expired, ticket_from_future, ticket_used, pair, connect,
  Device, Challenge, pairing, connection, Claims, State, Store, Crypto,
}
use pipane.Trust.Challenges.{consume_challenge, require_active_device, prune, persist}

-- An index by an optional string: an absent one is converted to the string "undefined", whose
-- number is 1 here.
abbrev pub key_of : Option ℕ → ℕ
key_of none = 1
key_of (some s) = s

abbrev pub account_of : Option Device → Option ℕ
account_of none = none
account_of (some d) = some d.account_id

pairing_claims : ℕ → ℕ → ℕ → State → Challenge → Claims
pairing_claims now ttl id state c = record {
  kind = pairing;
  ticket_id = id;
  backend_id = key_of c.backend_id;
  connection_id = key_of c.connection_id;
  device_id = c.device_id;
  device_public_key = c.device_public_key;
  account_id = account_of (get c.device_id state.devices);
  pair_id = c.pair_id;
  issued_at = now;
  expires_at = now + ttl;
}

connection_claims : ℕ → ℕ → ℕ → Challenge → Device → Claims
connection_claims now ttl id c d = record {
  kind = connection;
  ticket_id = id;
  backend_id = key_of c.backend_id;
  connection_id = key_of c.connection_id;
  device_id = d.device_id;
  device_public_key = d.public_key;
  account_id = some d.account_id;
  pair_id = none;
  issued_at = now;
  expires_at = now + ttl;
}

-- The checks of verifyConnectionTicket that read the clock.
unfoldable pub check_ticket_time : ℕ → Claims → Result Error Claims
check_ticket_time now claims = do
  throw_if (leb claims.expires_at now) ticket_expired
  throw_if (ltb (now + 30000) claims.issued_at) ticket_from_future
  ok claims

module _ (crypto : Crypto) where
  -- issuePairingTicket; `id` is the random ticket id.
  unfoldable pub issue_pairing_ticket : ℕ → ℕ → ℕ → ℕ → Store → Result Error (ℕ × Claims) × Store
  unfolding pairing_claims
  issue_pairing_ticket now id challenge_id signature s =
      let (checked, s') = consume_challenge crypto now challenge_id signature pair s in
      elim checked [
        | err e ↦ (err e, s')
        | ok c ↦
            let claims = pairing_claims now s'.ticket_ttl id s'.state c in
            (ok (crypto.sign_ticket claims, claims), s')
      ]

  -- What issueConnectionTicket does with a challenge that has passed its checks.
  unfoldable pub connection_ticket : ℕ → ℕ → ℕ → State → Challenge → Result Error (ℕ × Claims)
  unfolding connection_claims
  connection_ticket now ttl id state c = do
    device ← require_active_device state c.device_id
    throw_if (not (same (get (key_of c.backend_id) state.backend_owners) (some device.account_id)))
        backend_not_authorized
    ok (
      crypto.sign_ticket (connection_claims now ttl id c device),
      connection_claims now ttl id c device,
    )

  -- issueConnectionTicket
  unfoldable pub issue_connection_ticket : ℕ → ℕ → ℕ → ℕ → Store → Result Error (ℕ × Claims) × Store
  issue_connection_ticket now id challenge_id signature s =
      let (checked, s') = consume_challenge crypto now challenge_id signature connect s in
      (checked >>= connection_ticket now s'.ticket_ttl id s'.state, s')

  -- verifyTicket, verifyConnectionTicket
  unfoldable pub verify_ticket : ℕ → ℕ → Result Error Claims
  verify_ticket now ticket = crypto.open_ticket ticket >>= check_ticket_time now

  -- consumeRouteTicket after the verification.
  unfoldable pub spend_ticket : ℕ → Claims → Store → Result Error Claims × Store
  spend_ticket now claims s =
      let kept = prune now s in
      if is_some (get claims.ticket_id kept.state.used_tickets) then (err ticket_used, kept) else (
        ok claims,
        persist (record kept {
          state = record (kept.state) {
            used_tickets = put claims.ticket_id claims.expires_at kept.state.used_tickets;
          };
        }),
      )

  -- consumeRouteTicket
  unfoldable pub consume_route_ticket : ℕ → ℕ → Store → Result Error Claims × Store
  consume_route_ticket now ticket s = elim (verify_ticket now ticket) [
    | err e ↦ (err e, s)
    | ok claims ↦ spend_ticket now claims s
  ]
