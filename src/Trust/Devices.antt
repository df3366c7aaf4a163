-- ===== src/Trust/Devices.antt =====
-- What an authorised device may do to its account, of src/rendezvous/trust-store.ts: list its
-- backends, invite a new device, accept an invite, and revoke a device or a backend.
use pipane.Base.{
  ℕ, ◌+◌, Bool, false, not, Option, none, some, List, [], ◌∷◌, ◌++◌, Result, ok, err, ◌>>=◌, ◌>>◌,
  throw_if, or_throw, leb, ◌==◌, ◌!=◌, if◌then◌else◌, same, is_some, without,
}
use pipane.Base.Dict.{get, put, remove}
use pipane.Trust.Types.{
  Error, invite_mismatch, invite_missing, invalid_invite_secret, already_has_access,
  belongs_to_other, invite_account_missing, target_not_in_account, backend_not_in_account,
  account_missing, discover, create_device_invite, accept_device_invite, revoke_device,
  revoke_backend, Device, Invite, Challenge, State, Store, Crypto,
}
use pipane.Trust.Challenges.{consume_challenge, require_active_device, persist}
use pipane.Trust.Tickets.{key_of}

pub record InviteCapability : Type 0 where
  pub invite_id : ℕ
  pub secret : ℕ
  pub expires_at : ℕ

pub record RevocationResult : Type 0 where
  pub account_id : ℕ
  pub device_id : Option ℕ
  pub backend_id : Option ℕ

-- A result and the state to be written, of an operation that writes only when it succeeds.
abbrev pub commit {ℓ} : {A : Type ℓ} → Result Error (A × State) → Store → Result Error A × Store
commit (err e) s = (err e, s)
commit (ok (a, state)) s = (ok a, persist (record s { state = state }))

abbrev pub invite_ttl : ℕ
invite_ttl = 600000

-- What listAuthorizedBackendIds reads. A device without its account is a TypeError.
unfoldable pub backends_of : State → Challenge → Result Error (List ℕ)
backends_of state c = do
  device ← require_active_device state c.device_id
  account ← or_throw (get device.account_id state.accounts) account_missing
  ok account.backend_ids

-- createDeviceInvite behind its challenge.
unfoldable pub make_invite :
    Crypto → ℕ → ℕ → ℕ → State → Challenge → Result Error (InviteCapability × State)
make_invite crypto now id secret state c = do
  actor ← require_active_device state c.device_id
  ok (
    record { invite_id = id; secret = secret; expires_at = now + invite_ttl },
    record state {
      device_invites =
          put id
            (record {
              invite_id = id;
              secret_hash = crypto.hash_invite_secret secret;
              account_id = actor.account_id;
              created_by_device_id = actor.device_id;
              created_at = now;
              expires_at = now + invite_ttl;
            })
            state.device_invites;
    },
  )

check_stranger : Invite → Option Device → Result Error (Unit {0})
check_stranger invite none = ok tt
check_stranger invite (some d) =
    if d.account_id == invite.account_id then err already_has_access else err belongs_to_other

-- acceptDeviceInvite behind its challenge.
unfoldable pub take_invite : Crypto → ℕ → ℕ → ℕ → State → Challenge → Result Error ((ℕ × ℕ) × State)
unfolding check_stranger
take_invite crypto now invite_id secret state c = do
  throw_if (not (same c.pair_id (some invite_id))) invite_mismatch
  invite ← or_throw (get invite_id state.device_invites) invite_missing
  throw_if (leb invite.expires_at now) invite_missing
  throw_if (crypto.hash_invite_secret secret != invite.secret_hash) invalid_invite_secret
  check_stranger invite (get c.device_id state.devices)
  account ← or_throw (get invite.account_id state.accounts) invite_account_missing
  ok (
    (account.account_id, c.device_id),
    record state {
      accounts =
          put invite.account_id
            (record account { device_ids = account.device_ids ++ c.device_id ∷ [] }) state.accounts;
      devices =
          put c.device_id
            (record {
              device_id = c.device_id;
              public_key = c.device_public_key;
              account_id = account.account_id;
              created_at = now;
              revoked_at = none;
            })
            state.devices;
      device_invites = remove invite_id state.device_invites;
    },
  )

-- revokeDevice behind its challenge. The target is looked up by the challenge's optional id.
unfoldable pub drop_device : ℕ → State → Challenge → Result Error (RevocationResult × State)
drop_device now state c = do
  actor ← require_active_device state c.device_id
  target ← or_throw (get (key_of c.target_device_id) state.devices) target_not_in_account
  throw_if (target.account_id != actor.account_id) target_not_in_account
  ok (
    record { account_id = actor.account_id; device_id = some target.device_id; backend_id = none },
    record state {
      devices =
          put (key_of c.target_device_id) (record target { revoked_at = some now }) state.devices;
    },
  )

-- revokeBackend behind its challenge. An actor without its account is a TypeError, which the code
-- meets after the owner is gone; the model's error leaves the state as it was.
unfoldable pub drop_backend : ℕ → State → Challenge → Result Error (RevocationResult × State)
drop_backend now state c =
    let backend = key_of c.backend_id in
    do
      actor ← require_active_device state c.device_id
      throw_if (not (same (get backend state.backend_owners) (some actor.account_id)))
          backend_not_in_account
      account ← or_throw (get actor.account_id state.accounts) account_missing
      ok (
        record { account_id = actor.account_id; device_id = none; backend_id = c.backend_id },
        record state {
          backend_owners = remove backend state.backend_owners;
          backend_revocations =
              put backend (record { account_id = actor.account_id; revoked_at = now })
                state.backend_revocations;
          accounts =
              put actor.account_id
                (record account { backend_ids = without backend account.backend_ids })
                state.accounts;
        },
      )

module _ (crypto : Crypto) (now challenge_id signature : ℕ) where
  -- listAuthorizedBackendIds
  unfoldable pub list_authorized_backend_ids : Store → Result Error (List ℕ) × Store
  list_authorized_backend_ids s =
      let (checked, s') = consume_challenge crypto now challenge_id signature discover s in
      (checked >>= backends_of s'.state, s')

  -- createDeviceInvite; `id` and `secret` are the random values that it draws.
  unfoldable pub create_invite : ℕ → ℕ → Store → Result Error InviteCapability × Store
  create_invite id secret s =
      let (checked, s') =
        consume_challenge crypto now challenge_id signature create_device_invite s in
      commit (checked >>= make_invite crypto now id secret s'.state) s'

  -- acceptDeviceInvite
  unfoldable pub accept_invite : ℕ → ℕ → Store → Result Error (ℕ × ℕ) × Store
  accept_invite invite_id secret s =
      let (checked, s') =
        consume_challenge crypto now challenge_id signature accept_device_invite s in
      commit (checked >>= take_invite crypto now invite_id secret s'.state) s'

  -- revokeDevice
  unfoldable pub revoke_a_device : Store → Result Error RevocationResult × Store
  revoke_a_device s =
      let (checked, s') = consume_challenge crypto now challenge_id signature revoke_device s in
      commit (checked >>= drop_device now s'.state) s'

  -- revokeBackend
  unfoldable pub revoke_a_backend : Store → Result Error RevocationResult × Store
  revoke_a_backend s =
      let (checked, s') = consume_challenge crypto now challenge_id signature revoke_backend s in
      commit (checked >>= drop_backend now s'.state) s'

-- isDeviceActive
unfoldable pub is_device_active : State → ℕ → Bool
is_device_active state id = elim (get id state.devices) [
  | none ↦ false
  | some d ↦ not (is_some d.revoked_at)
]

-- getBackendOwner
unfoldable pub get_backend_owner : State → ℕ → Option ℕ
get_backend_owner state id = get id state.backend_owners

-- getPendingBackendRevocation
unfoldable pub get_pending_backend_revocation : State → ℕ → Option RevocationResult
get_pending_backend_revocation state id = elim (get id state.backend_revocations) [
  | none ↦ none
  | some r ↦ some (record { account_id = r.account_id; device_id = none; backend_id = some id })
]
