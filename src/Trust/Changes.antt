-- ===== src/Trust/Changes.antt =====
-- src/rendezvous/trust-store.ts: what accepting an invite and revoking a device require, and what they
-- change.
use pipane.Base.{Option-cases, ℕ, ◌≡◌, ◌≢◌, none, some, List, [], arith, ◌<◌, ok, inl, inr, true}
use pipane.Base.Dict.{get, get-put, get-remove}
use pipane.Trust.Types.{
  accept_device_invite, revoke_device, Challenge, Device, Invite, Store, Crypto,
}
use pipane.Trust.Challenges.{persist, check_challenge, consume_challenge, require_active_device}
use pipane.Trust.Devices.{
  take_invite, drop_device, RevocationResult, accept_invite, revoke_a_device,
}
use pipane.Trust.Tickets.{key_of}
use pipane.Trust.History.{Call, run, Inv, run-Inv, SoundCalls}
use pipane.Trust.Keys.{KeysStored, opened-KeysStored}

module _ (crypto : Crypto) where
  -- What a revocation of a device rests on, and its effect: s' is the store after it.
  pub record Revoked (now : ℕ) (s : Store) (challenge signature : ℕ) (r : RevocationResult)
      (s' : Store) : Type 0 where
    pub asked : Challenge
    pub actor : Device
    pub target : Device
    pub pending : get challenge s.challenges ≡ some asked
    pub in_time : now < asked.expires_at
    pub for_revoking : asked.purpose ≡ revoke_device
    pub known : get asked.device_id s.state.devices ≡ some actor
    pub not_revoked : actor.revoked_at ≡ none
    pub signed : crypto.verify_device_signature actor.public_key asked signature ≡ true
    pub targeted : get (key_of asked.target_device_id) s.state.devices ≡ some target
    pub same_account : target.account_id ≡ actor.account_id
    pub named : r.device_id ≡ some (key_of asked.target_device_id)
    pub revoked :
        get (key_of asked.target_device_id) s'.state.devices
        ≡ some (record target { revoked_at = some now })
    pub others :
        (d : ℕ) → d ≢ key_of asked.target_device_id → get d s'.state.devices ≡ get d s.state.devices
    pub owners : s'.state.backend_owners ≡ s.state.backend_owners
    pub written : s'.disk ≡ s'.state

  revoke_a_device-Keyed :
      (now challenge signature : ℕ) (r : RevocationResult) (s : Store)
      → Inv crypto s
      → KeysStored crypto s
      → (revoke_a_device crypto now challenge signature s).0 ≡ ok r
      → Revoked now s challenge signature r (revoke_a_device crypto now challenge signature s).1
  unfolding revoke_a_device drop_device consume_challenge check_challenge require_active_device
      persist
  revoke_a_device-Keyed now challenge signature r s v keys e =
      elim (Option-cases (get challenge s.challenges)) [
        | inl missing ↦ absurd (ground arith)
        | inr (c, found) ↦
            let stored = keys challenge c found in
            elim (Option-cases (get c.device_id s.state.devices)) [
              | inl unknown ↦ absurd (ground arith)
              | inr (actor, known) ↦
                  elim (Option-cases (get (key_of c.target_device_id) s.state.devices)) [
                    | inl untargeted ↦ absurd (ground arith)
                    | inr (target, targeted) ↦ record {
                      asked = c;
                      actor = actor;
                      target = target;
                      pending = found;
                      in_time = ground arith;
                      for_revoking = ground arith;
                      known = known;
                      not_revoked = ground arith;
                      signed = ground (arith, stored);
                      targeted = targeted;
                      same_account = ground arith;
                      named = ground (arith, v.consistent.device_keyed _ target targeted);
                      revoked = grind (arith, get-put);
                      others = λ d other. grind (arith, get-put);
                      owners = ground arith;
                      written = ground arith;
                    }
                  ]
            ]
      ]

  -- After any history of sound calls on a store with the invariant and nothing pending, a device is
  -- revoked only for a pending, unexpired challenge for that purpose, signed by the stored key of
  -- a device that is not revoked and has the target's account. The target is then marked as revoked
  -- now, every other device and the owners of backends stay as they are, and the file is written.
  pub revoke_a_device-Revoked :
      (now challenge signature : ℕ) (r : RevocationResult) (cs : List (ℕ × Call)) (s : Store)
      → Inv crypto s
      → s.challenges ≡ []
      → SoundCalls crypto cs
      → let t = run crypto cs s in
        (revoke_a_device crypto now challenge signature t).0 ≡ ok r
        → Revoked now t challenge signature r (revoke_a_device crypto now challenge signature t).1
  revoke_a_device-Revoked now challenge signature r cs s v clear sound e =
      revoke_a_device-Keyed now challenge signature r (run crypto cs s)
        (run-Inv crypto cs s sound v) (opened-KeysStored crypto cs s v clear sound) e

  -- What a new device's access by an invite rests on, and its effect: s' is the store after it.
  pub record Admitted (now : ℕ) (s : Store) (challenge signature invite_id secret : ℕ) (r : ℕ × ℕ)
      (s' : Store) : Type 0 where
    pub asked : Challenge
    pub invite : Invite
    pub pending : get challenge s.challenges ≡ some asked
    pub in_time : now < asked.expires_at
    pub for_accepting : asked.purpose ≡ accept_device_invite
    pub own_key : crypto.derive_device_id asked.device_public_key ≡ some asked.device_id
    pub signed : crypto.verify_device_signature asked.device_public_key asked signature ≡ true
    pub for_invite : asked.pair_id ≡ some invite_id
    pub invited : get invite_id s.state.device_invites ≡ some invite
    pub invite_in_time : now < invite.expires_at
    pub secret_known : crypto.hash_invite_secret secret ≡ invite.secret_hash
    pub stranger : get asked.device_id s.state.devices ≡ none
    pub answer : r ≡ (invite.account_id, asked.device_id)
    pub admitted :
        get asked.device_id s'.state.devices
        ≡ some (record {
          device_id = asked.device_id;
          public_key = asked.device_public_key;
          account_id = invite.account_id;
          created_at = now;
          revoked_at = none;
        })
    pub others : (d : ℕ) → d ≢ asked.device_id → get d s'.state.devices ≡ get d s.state.devices
    pub spent : get invite_id s'.state.device_invites ≡ none
    pub owners : s'.state.backend_owners ≡ s.state.backend_owners
    pub written : s'.disk ≡ s'.state

  -- In a store with the invariant, an invite is accepted only for a pending, unexpired challenge for
  -- that purpose that names the invite, signed by a key that the device's id is derived from, with
  -- the secret of an invite that is stored and not expired, by a device that the store did not know.
  -- The device then belongs to the invite's account, the invite is gone, every other device and the
  -- owners of backends stay as they are, and the file is written.
  pub accept_invite-Admitted :
      (now challenge signature invite_id secret : ℕ) (r : ℕ × ℕ) (s : Store)
      → Inv crypto s
      → (accept_invite crypto now challenge signature invite_id secret s).0 ≡ ok r
      → Admitted now s challenge signature invite_id secret r
          (accept_invite crypto now challenge signature invite_id secret s).1
  unfolding accept_invite take_invite consume_challenge check_challenge persist
  accept_invite-Admitted now challenge signature invite_id secret r s v e =
      elim (Option-cases (get challenge s.challenges)) [
        | inl missing ↦ absurd (ground arith)
        | inr (c, found) ↦
            let derived = v.challenge_derived challenge c found in
            elim (Option-cases (get invite_id s.state.device_invites)) [
              | inl uninvited ↦ absurd (ground arith)
              | inr (invite, invited) ↦ record {
                asked = c;
                invite = invite;
                pending = found;
                in_time = ground arith;
                for_accepting = ground arith;
                own_key = derived;
                signed = ground arith;
                for_invite = ground arith;
                invited = invited;
                invite_in_time = ground arith;
                secret_known = ground arith;
                stranger = ground arith;
                answer = grind (arith, v.consistent.account_keyed);
                admitted = grind (arith, get-put, v.consistent.account_keyed);
                others = λ d other. grind (arith, get-put);
                spent = grind (arith, get-remove);
                owners = ground arith;
                written = ground arith;
              }
            ]
      ]
