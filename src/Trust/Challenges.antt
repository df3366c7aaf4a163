-- ===== src/Trust/Challenges.antt =====
-- src/rendezvous/trust-store.ts: createChallenge, consumeChallenge and the checks that they use,
-- prune and persist.
use pipane.Base.{
  ℕ, ◌+◌, ◌≡◌, arith, Bool, true, false, not, ◌&&◌, ◌||◌, Option, none, some, Result, ok, err,
  ◌>>=◌, ◌>>◌, throw_if, or_throw, ltb, leb, ◌!=◌, if◌then◌else◌, truthy, is_some,
}
use pipane.Base.Dict.{get, put, remove, retain, some_dropped}
use pipane.Trust.Types.{
  Error, unsupported_purpose, backend_id_required, connection_id_required, pair_id_required,
  target_device_id_required, invite_missing, device_unknown_or_revoked, public_key_mismatch,
  existing_device_required, invalid_public_key, challenge_missing, wrong_purpose, invalid_signature,
  Purpose, pair, connect, discover, create_device_invite, accept_device_invite, revoke_device,
  revoke_backend, unsupported, Device, Invite, Request, Challenge, State, Store, Crypto,
}

-- `purpose === other`
abbrev pub same_purpose : Purpose → Purpose → Bool
same_purpose pair pair = true
same_purpose connect connect = true
same_purpose discover discover = true
same_purpose create_device_invite create_device_invite = true
same_purpose accept_device_invite accept_device_invite = true
same_purpose revoke_device revoke_device = true
same_purpose revoke_backend revoke_backend = true
same_purpose _ _ = false

-- persist
unfoldable pub persist : Store → Store
persist s = record s { disk = s.state }

abbrev pub live_challenge : ℕ → Challenge → Bool
live_challenge now c = ltb now c.expires_at

abbrev pub live_invite : ℕ → Invite → Bool
live_invite now i = ltb now i.expires_at

abbrev pub live_ticket : ℕ → ℕ → Bool
live_ticket now expires_at = ltb now expires_at

-- prune: what has expired goes; the file is written if the stored state changed.
unfoldable pub prune : ℕ → Store → Store
unfolding persist
prune now s =
    let kept = record s {
      challenges = retain (live_challenge now) s.challenges;
      state = record (s.state) {
        device_invites = retain (live_invite now) s.state.device_invites;
        used_tickets = retain (live_ticket now) s.state.used_tickets;
      };
    } in
    if some_dropped (live_invite now) s.state.device_invites
      || some_dropped (live_ticket now) s.state.used_tickets
    then persist kept
    else kept

-- What is left of the stored state.
abbrev pub pruned : ℕ → State → State
pruned now state = record state {
  device_invites = retain (live_invite now) state.device_invites;
  used_tickets = retain (live_ticket now) state.used_tickets;
}

pub state-prune : (now : ℕ) (s : Store) → (prune now s).state ≡ pruned now s.state
unfolding prune
state-prune now s = ground arith

abbrev needs_backend : Purpose → Bool
needs_backend discover = false
needs_backend create_device_invite = false
needs_backend accept_device_invite = false
needs_backend _ = true

-- The invite that an acceptance names, with `!request.pairId` checked first.
abbrev invite_known : State → Option ℕ → Bool
invite_known state none = false
invite_known state (some id) = id != 0 && is_some (get id state.device_invites)

-- validateChallengeContext
unfoldable pub validate_challenge_context : State → Request → Result Error (Unit {0})
validate_challenge_context state r = do
  throw_if (same_purpose r.purpose unsupported) unsupported_purpose
  throw_if (needs_backend r.purpose && not (truthy r.backend_id)) backend_id_required
  throw_if
      ((same_purpose r.purpose pair || same_purpose r.purpose connect)
        && not (truthy r.connection_id))
      connection_id_required
  throw_if (same_purpose r.purpose pair && not (truthy r.pair_id)) pair_id_required
  throw_if (same_purpose r.purpose accept_device_invite && not (invite_known state r.pair_id))
      invite_missing
  throw_if (same_purpose r.purpose revoke_device && not (truthy r.target_device_id))
      target_device_id_required

-- May a device that the store does not know ask for this challenge?
abbrev pub admits_new_device : Purpose → Bool
admits_new_device pair = true
admits_new_device accept_device_invite = true
admits_new_device _ = false

-- A device's id and public key.
pub record Identity : Type 0 where
  pub device_id : ℕ
  pub public_key : ℕ

-- `request.devicePublicKey && request.devicePublicKey !== device.publicKey`
abbrev other_key : Option ℕ → ℕ → Bool
other_key none key = false
other_key (some k) key = k != 0 && k != key

known_identity : Request → Device → Result Error Identity
known_identity r d = do
  throw_if (is_some d.revoked_at) device_unknown_or_revoked
  throw_if (other_key r.device_public_key d.public_key) public_key_mismatch
  ok (record { device_id = d.device_id; public_key = d.public_key })

module _ (crypto : Crypto) where
  open crypto use {derive_device_id, verify_device_signature}

  -- An unknown id that the request gives with its key: the id must be the key's.
  new_identity : Purpose → ℕ → Option ℕ → Result Error Identity
  new_identity purpose id none = err device_unknown_or_revoked
  new_identity purpose id (some key) = do
    throw_if (not (admits_new_device purpose && key != 0)) device_unknown_or_revoked
    derived ← or_throw (derive_device_id key) invalid_public_key
    throw_if (derived != id) device_unknown_or_revoked
    ok (record { device_id = id; public_key = key })

  -- A request without an id: the id is derived from the key.
  derived_identity : Purpose → Option ℕ → Result Error Identity
  derived_identity purpose none = err existing_device_required
  derived_identity purpose (some key) = do
    throw_if (not (admits_new_device purpose && key != 0)) existing_device_required
    derived ← or_throw (derive_device_id key) invalid_public_key
    ok (record { device_id = derived; public_key = key })

  with_id : State → Request → ℕ → Result Error Identity
  unfolding known_identity new_identity
  with_id state r id = elim (get id state.devices) [
    | none ↦ new_identity r.purpose id r.device_public_key
    | some d ↦ known_identity r d
  ]

  -- resolveChallengeIdentity
  unfoldable pub resolve_challenge_identity : State → Request → Result Error Identity
  unfolding with_id derived_identity
  resolve_challenge_identity state r = elim r.device_id [
    | none ↦ derived_identity r.purpose r.device_public_key
    | some id ↦
        if id != 0 then with_id state r id else derived_identity r.purpose r.device_public_key
  ]

  new_challenge : ℕ → ℕ → ℕ → Request → Identity → ℕ → Challenge
  new_challenge now id nonce r who ttl = record {
    challenge_id = id;
    nonce = nonce;
    purpose = r.purpose;
    device_id = who.device_id;
    device_public_key = who.public_key;
    backend_id = r.backend_id;
    connection_id = r.connection_id;
    pair_id = r.pair_id;
    target_device_id = r.target_device_id;
    expires_at = now + ttl;
  }

  -- createChallenge; `id` and `nonce` are the random values that it draws.
  unfoldable pub create_challenge : ℕ → ℕ → ℕ → Request → Store → Result Error Challenge × Store
  unfolding new_challenge
  create_challenge now id nonce r s =
      let kept = prune now s in
      elim (validate_challenge_context kept.state r >> resolve_challenge_identity kept.state r) [
        | err e ↦ (err e, kept)
        | ok who ↦
            let c = new_challenge now id nonce r who kept.challenge_ttl in
            (ok c, record kept { challenges = put id c kept.challenges })
      ]

  -- The checks of consumeChallenge.
  unfoldable pub check_challenge : ℕ → ℕ → Purpose → Option Challenge → Result Error Challenge
  check_challenge now signature expected none = err challenge_missing
  check_challenge now signature expected (some c) = do
    throw_if (leb c.expires_at now) challenge_missing
    throw_if (not (same_purpose c.purpose expected)) wrong_purpose
    throw_if (not (verify_device_signature c.device_public_key c signature)) invalid_signature
    ok c

  -- consumeChallenge: the challenge is gone whatever the checks say.
  unfoldable pub consume_challenge : ℕ → ℕ → ℕ → Purpose → Store → Result Error Challenge × Store
  consume_challenge now id signature expected s = (
    check_challenge now signature expected (get id s.challenges),
    record s { challenges = remove id s.challenges },
  )

-- requireActiveDevice
unfoldable pub require_active_device : State → ℕ → Result Error Device
require_active_device state id = do
  device ← or_throw (get id state.devices) device_unknown_or_revoked
  throw_if (is_some device.revoked_at) device_unknown_or_revoked
  ok device
