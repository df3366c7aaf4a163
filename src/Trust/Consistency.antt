-- ===== src/Trust/Consistency.antt =====
-- What hasConsistentReferences of src/rendezvous/trust-store.ts asks of a stored state, said of
-- lookups, and that the writes of the operations keep it.
use pipane.Base.{
  ℕ, ◌≡◌, ◌≢◌, Bool, false, ◌||◌, Option, none, some, List, arith, ◌==◌, same, contains,
  contains-nil, contains-concat, contains-without, ok, inl, inr, Bool-cases,
}
use pipane.Base.Dict.{get, get-put, get-remove, get-retain}
use pipane.Trust.Types.{Account, Device, Invite, Claims, Challenge, State, Crypto}
use pipane.Trust.Challenges.{pruned, require_active_device}
use pipane.Trust.Tickets.{account_of}
use pipane.Trust.Pairing.{add_id, account_or_new, device_or_new, apply_pairing, pairing_account}
use pipane.Trust.Devices.{make_invite, take_invite, drop_device, drop_backend}

abbrev pub has_device : ℕ → Option Account → Bool
has_device d none = false
has_device d (some account) = contains d account.device_ids

abbrev pub has_backend : ℕ → Option Account → Bool
has_backend b none = false
has_backend b (some account) = contains b account.backend_ids

-- Accounts and devices name each other, and so do accounts and backends; what is stored under a key
-- carries the key; a device's id is its key's; an invite's author is a device of its account.
pub record Consistent (crypto : Crypto) (s : State) : Type 0 where
  pub devices_agree :
      (a d : ℕ) → has_device d (get a s.accounts) ≡ same (account_of (get d s.devices)) (some a)
  pub backends_agree :
      (a b : ℕ) → has_backend b (get a s.accounts) ≡ same (get b s.backend_owners) (some a)
  pub account_keyed : (a : ℕ) (acc : Account) → get a s.accounts ≡ some acc → acc.account_id ≡ a
  pub device_keyed : (d : ℕ) (dev : Device) → get d s.devices ≡ some dev → dev.device_id ≡ d
  pub device_derived :
      (d : ℕ) (dev : Device)
      → get d s.devices ≡ some dev
      → crypto.derive_device_id dev.public_key ≡ some d
  pub invite_rooted :
      (i : ℕ) (inv : Invite)
      → get i s.device_invites ≡ some inv
      → account_of (get inv.created_by_device_id s.devices) ≡ some inv.account_id
  pub owner_named : (b : ℕ) → get b s.backend_owners ≢ some 0

contains-add_id : (a b : ℕ) (xs : List ℕ) → contains b (add_id a xs) ≡ (a == b || contains b xs)
unfolding add_id
contains-add_id a b xs = elim (Bool-cases (contains a xs)) [
  | inl old ↦ ground (arith)
  | inr new ↦ rw new (contains-concat a b xs)
]

module _ (crypto : Crypto) {s : State} (h : Consistent crypto s) (c : Challenge) where
  module _ (now : ℕ) where
    pub drop_device-Consistent :
        (r : _) (s' : State) → drop_device now s c ≡ ok (r, s') → Consistent crypto s'
    unfolding drop_device require_active_device
    drop_device-Consistent r s' e = record {
      devices_agree = λ a d. grind (arith, h.devices_agree a d, get-put);
      backends_agree = λ a b. ground (arith, h.backends_agree a b);
      account_keyed = λ a acc p. ground (arith, h.account_keyed a acc);
      device_keyed = λ d dev p. grind (arith, h.device_keyed, get-put);
      device_derived = λ d dev p. grind (arith, h.device_derived, get-put);
      invite_rooted = λ i inv p. grind (arith, h.invite_rooted i inv, get-put);
      owner_named = λ b. ground (arith, h.owner_named b);
    }

    pub drop_backend-Consistent :
        (r : _) (s' : State) → drop_backend now s c ≡ ok (r, s') → Consistent crypto s'
    unfolding drop_backend require_active_device
    drop_backend-Consistent r s' e = record {
      devices_agree = λ a d. grind (arith, h.devices_agree a d, get-put);
      backends_agree =
          λ a b. grind (arith, h.backends_agree a b, get-put, get-remove, contains-without);
      account_keyed = λ a acc p. grind (arith, h.account_keyed, get-put);
      device_keyed = λ d dev p. ground (arith, h.device_keyed d dev);
      device_derived = λ d dev p. ground (arith, h.device_derived d dev);
      invite_rooted = λ i inv p. ground (arith, h.invite_rooted i inv);
      owner_named = λ b. grind (arith, h.owner_named b, get-remove);
    }

    pub make_invite-Consistent :
        (id secret : ℕ) (r : _) (s' : State)
        → make_invite crypto now id secret s c ≡ ok (r, s')
        → Consistent crypto s'
    unfolding make_invite require_active_device
    make_invite-Consistent id secret r s' e = record {
      devices_agree = λ a d. ground (arith, h.devices_agree a d);
      backends_agree = λ a b. ground (arith, h.backends_agree a b);
      account_keyed = λ a acc p. ground (arith, h.account_keyed a acc);
      device_keyed = λ d dev p. ground (arith, h.device_keyed d dev);
      device_derived = λ d dev p. ground (arith, h.device_derived d dev);
      invite_rooted = λ i inv p. grind (arith, h.invite_rooted i inv, h.device_keyed, get-put);
      owner_named = λ b. ground (arith, h.owner_named b);
    }

    pub take_invite-Consistent :
        (id secret : ℕ) (r : _) (s' : State)
        → crypto.derive_device_id c.device_public_key ≡ some c.device_id
        → take_invite crypto now id secret s c ≡ ok (r, s')
        → Consistent crypto s'
    unfolding take_invite
    take_invite-Consistent id secret r s' key e = record {
      devices_agree =
          λ a d. grind (arith, h.devices_agree a d, h.account_keyed, contains-concat, get-put);
      backends_agree = λ a b. grind (arith, h.backends_agree a b, get-put);
      account_keyed = λ a acc p. grind (arith, h.account_keyed, get-put);
      device_keyed = λ d dev p. grind (arith, h.device_keyed, get-put);
      device_derived = λ d dev p. grind (arith, h.device_derived, get-put);
      invite_rooted = λ i inv p. grind (arith, h.invite_rooted i inv, get-put, get-remove);
      owner_named = λ b. ground (arith, h.owner_named b);
    }

module _ (crypto : Crypto) {s : State} (h : Consistent crypto s) where
  pub apply_pairing-Consistent :
      (claims : Claims) (now fresh pair_id account_id : ℕ)
      → crypto.derive_device_id claims.device_public_key ≡ some claims.device_id
      → claims.account_id ≢ some 0
      → fresh ≢ 0
      → pairing_account fresh claims s ≡ ok account_id
      → Consistent crypto (apply_pairing now account_id pair_id claims s)
  unfolding apply_pairing pairing_account account_or_new device_or_new
  apply_pairing-Consistent claims now fresh pair_id account_id key named nonzero e = record {
    devices_agree =
        λ a d. grind (arith, h.devices_agree a d, contains-add_id, contains-nil, get-put);
    backends_agree = λ a b.
        grind (arith, h.backends_agree a b, h.owner_named, contains-add_id, contains-nil, get-put);
    account_keyed = λ a acc p. grind (arith, h.account_keyed, get-put);
    device_keyed = λ d dev p. grind (arith, h.device_keyed, get-put);
    device_derived = λ d dev p. grind (arith, h.device_derived, get-put);
    invite_rooted = λ i inv p. grind (arith, h.invite_rooted i inv, get-put);
    owner_named = λ b. grind (arith, h.owner_named b, get-put);
  }

  pub pruned-Consistent : (now : ℕ) → Consistent crypto (pruned now s)
  pruned-Consistent now = record {
    devices_agree = h.devices_agree;
    backends_agree = h.backends_agree;
    account_keyed = h.account_keyed;
    device_keyed = h.device_keyed;
    device_derived = h.device_derived;
    invite_rooted = λ i inv p. grind (arith, h.invite_rooted i inv, get-retain);
    owner_named = h.owner_named;
  }

  -- The tickets spent are no part of the references.
  pub with_tickets-Consistent : (t : _) → Consistent crypto (record s { used_tickets = t })
  with_tickets-Consistent t = record {
    devices_agree = h.devices_agree;
    backends_agree = h.backends_agree;
    account_keyed = h.account_keyed;
    device_keyed = h.device_keyed;
    device_derived = h.device_derived;
    invite_rooted = h.invite_rooted;
    owner_named = h.owner_named;
  }
