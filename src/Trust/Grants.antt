-- ===== src/Trust/Grants.antt =====
-- src/rendezvous/trust-store.ts: what a connection ticket requires of the device that asks for it.
use pipane.Base.{
  Option-cases, ℕ, ◌≡◌, refl, none, some, List, [], arith, ◌<◌, ◌+◌, ok, is_some, inl, inr, true,
}
use pipane.Base.Dict.{get}
use pipane.Trust.Types.{connect, Claims, Challenge, Device, Store, Crypto}
use pipane.Trust.Tickets.{key_of, issue_connection_ticket}
use pipane.Trust.Devices.{is_device_active, get_backend_owner}
use pipane.Trust.History.{Call, run, Inv, run-Inv, SoundCalls}
use pipane.Trust.Authorization.{issue_connection_ticket-Passed}
use pipane.Trust.Keys.{opened-KeysStored}

module _ (crypto : Crypto) where
  -- What a connection ticket rests on. The key is the stored device's.
  pub record Granted (now : ℕ) (s : Store) (challenge signature : ℕ) (claims : Claims)
      : Type 0 where
    pub asked : Challenge
    pub device : Device
    pub pending : get challenge s.challenges ≡ some asked
    pub in_time : now < asked.expires_at
    pub for_connecting : asked.purpose ≡ connect
    pub known : get claims.device_id s.state.devices ≡ some device
    pub not_revoked : device.revoked_at ≡ none
    pub signed : crypto.verify_device_signature device.public_key asked signature ≡ true
    pub for_backend : claims.backend_id ≡ key_of asked.backend_id
    pub owned : get claims.backend_id s.state.backend_owners ≡ claims.account_id
    pub for_account : is_some claims.account_id ≡ true
    pub lasting : claims.expires_at ≡ now + s.ticket_ttl

  -- After any history of sound calls on a store with the invariant and nothing pending, a connection
  -- ticket is issued only for a pending, unexpired challenge to connect, signed by the stored key
  -- of the device that the ticket names, which is not revoked, and for the challenge's backend,
  -- whose owner is the account that the ticket names; it lasts for the store's ticket lifetime.
  pub issue_connection_ticket-Granted :
      (now id challenge signature ticket : ℕ) (claims : Claims) (cs : List (ℕ × Call)) (s : Store)
      → Inv crypto s
      → s.challenges ≡ []
      → SoundCalls crypto cs
      → let t = run crypto cs s in
        (issue_connection_ticket crypto now id challenge signature t).0 ≡ ok (ticket, claims)
        → Granted now t challenge signature claims
  unfolding is_device_active get_backend_owner
  issue_connection_ticket-Granted now id challenge signature ticket claims cs s v clear sound e =
      let t = run crypto cs s in
      let kept = run-Inv crypto cs s sound v in
      let passed =
        issue_connection_ticket-Passed crypto now id challenge signature ticket claims t
          kept.consistent e in
      let keys = opened-KeysStored crypto cs s v clear sound in
      let stored = keys challenge passed.asked passed.pending (rw passed.for_connecting refl) in
      elim (Option-cases (get passed.asked.device_id t.state.devices)) [
        | inl missing ↦ absurd (ground (arith, stored, missing))
        | inr (device, found) ↦ record {
          asked = passed.asked;
          device = device;
          pending = passed.pending;
          in_time = passed.in_time;
          for_connecting = passed.for_connecting;
          known = ground (arith, found, passed.for_device);
          not_revoked = ground (arith, passed.active, found);
          signed = ground (arith, passed.signed, stored, found);
          for_backend = passed.for_backend;
          owned = passed.owned;
          for_account = passed.for_account;
          lasting = passed.lasting;
        }
      ]
