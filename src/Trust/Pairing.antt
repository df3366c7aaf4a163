-- ===== src/Trust/Pairing.antt =====
-- confirmPairing of src/rendezvous/trust-store.ts.
use pipane.Base.{
  ◌≡◌, ℕ, Bool, true, false, not, ◌&&◌, arith, Option, none, some, List, [], ◌∷◌, ◌++◌, Result, ok,
  err, ◌>>◌, throw_if, ◌!=◌, if◌then◌else◌, contains, same, truthy,
}
use pipane.Base.Dict.{get, put, remove}
use pipane.Trust.Types.{
  Error, not_a_pairing, capability_used, backend_owned_by_other, device_revoked,
  public_key_mismatch, device_account_mismatch, device_of_other_account, Account, Device,
  Completion, TicketKind, pairing, connection, Claims, State, Store,
}
use pipane.Trust.Challenges.{persist}

pub record Confirmation : Type 0 where
  pub account_id : ℕ
  pub device_id : ℕ
  pub backend_id : ℕ

abbrev is_pairing : TicketKind → Bool
is_pairing pairing = true
is_pairing connection = false

-- `a ?? b`
abbrev pub or_else : Option ℕ → Option ℕ → Option ℕ
or_else none b = b
or_else (some a) b = some a

-- `if (!accountId) accountId = fresh`
abbrev pub or_fresh : ℕ → Option ℕ → ℕ
or_fresh fresh none = fresh
or_fresh fresh (some a) = if a != 0 then a else fresh

-- The checks on a device that the store knows already.
check_known_device : Claims → Option Device → Result Error (Unit {0})
check_known_device claims none = ok tt
check_known_device claims (some d) = do
  throw_if (truthy d.revoked_at) device_revoked
  throw_if (d.public_key != claims.device_public_key) public_key_mismatch
  throw_if (not (same claims.account_id (some d.account_id))) device_account_mismatch

check_device_account : ℕ → Option Device → Result Error (Unit {0})
check_device_account account_id none = ok tt
check_device_account account_id (some d) =
    throw_if (d.account_id != account_id) device_of_other_account

-- The account that a first confirmation grants, once all checks pass.
unfoldable pub pairing_account : ℕ → Claims → State → Result Error ℕ
unfolding check_known_device check_device_account
pairing_account fresh claims state =
    let owner = get claims.backend_id state.backend_owners in
    let device = get claims.device_id state.devices in
    let account_id = or_fresh fresh (or_else claims.account_id owner) in
    throw_if (truthy claims.account_id && truthy owner && not (same claims.account_id owner))
      backend_owned_by_other
    >> check_known_device claims device
    >> check_device_account account_id device
    >> ok account_id

-- `if (!ids.includes(id)) ids.push(id)`
unfoldable pub add_id : ℕ → List ℕ → List ℕ
add_id id ids = if contains id ids then ids else ids ++ id ∷ []

-- `accounts[accountId] ?? { … }`
unfoldable pub account_or_new : ℕ → ℕ → Option Account → Account
account_or_new now id none = record {
  account_id = id;
  device_ids = [];
  backend_ids = [];
  created_at = now;
}
account_or_new now id (some account) = account

-- `existingDevice ?? { … }`
unfoldable pub device_or_new : ℕ → ℕ → Claims → Option Device → Device
device_or_new now account_id claims none = record {
  device_id = claims.device_id;
  public_key = claims.device_public_key;
  account_id = account_id;
  created_at = now;
  revoked_at = none;
}
device_or_new now account_id claims (some d) = d

-- The writes of confirmPairing.
unfoldable pub apply_pairing : ℕ → ℕ → ℕ → Claims → State → State
apply_pairing now account_id pair_id claims state =
    let account = account_or_new now account_id (get account_id state.accounts) in
    record state {
      accounts =
          put account_id
            (record account {
              device_ids = add_id claims.device_id account.device_ids;
              backend_ids = add_id claims.backend_id account.backend_ids;
            })
            state.accounts;
      devices =
          put claims.device_id
            (device_or_new now account_id claims (get claims.device_id state.devices))
            state.devices;
      backend_owners = put claims.backend_id account_id state.backend_owners;
      backend_revocations = remove claims.backend_id state.backend_revocations;
      pairing_completions =
          put pair_id
            (record {
              pair_id = pair_id;
              ticket_id = claims.ticket_id;
              account_id = account_id;
              device_id = claims.device_id;
              backend_id = claims.backend_id;
              completed_at = now;
            })
            state.pairing_completions;
    }

-- A capability that was completed before answers again for the same ticket only.
unfoldable pub repeat_pairing : Claims → Completion → Result Error Confirmation
repeat_pairing claims prior =
    if prior.ticket_id != claims.ticket_id
    then err capability_used
    else ok (record {
      account_id = prior.account_id;
      device_id = prior.device_id;
      backend_id = prior.backend_id;
    })

unfoldable pub first_pairing : ℕ → ℕ → ℕ → Claims → Store → Result Error Confirmation × Store
first_pairing now fresh pair_id claims s = elim (pairing_account fresh claims s.state) [
  | err e ↦ (err e, s)
  | ok account_id ↦ (
    ok (record {
      account_id = account_id;
      device_id = claims.device_id;
      backend_id = claims.backend_id;
    }),
    persist (record s { state = apply_pairing now account_id pair_id claims s.state }),
  )
]

pairing_for : ℕ → ℕ → ℕ → Claims → Store → Result Error Confirmation × Store
pairing_for now fresh pair_id claims s = elim (get pair_id s.state.pairing_completions) [
  | none ↦ first_pairing now fresh pair_id claims s
  | some prior ↦ (repeat_pairing claims prior, s)
]

with_pair_id : ℕ → ℕ → Option ℕ → Claims → Store → Result Error Confirmation × Store
unfolding pairing_for
with_pair_id now fresh none claims s = (err not_a_pairing, s)
with_pair_id now fresh (some pair_id) claims s =
    if is_pairing claims.kind && pair_id != 0
    then pairing_for now fresh pair_id claims s
    else (err not_a_pairing, s)

-- confirmPairing; `fresh` is the random id of an account that it may create.
unfoldable pub confirm_pairing : ℕ → ℕ → Claims → Store → Result Error Confirmation × Store
unfolding with_pair_id
confirm_pairing now fresh claims s = with_pair_id now fresh claims.pair_id claims s

module _ {ℓ} (P : Store → Type ℓ) (now fresh : ℕ) (claims : Claims) (s : Store) (unchanged : P s)
    (first : (pair_id : ℕ)
      → get pair_id s.state.pairing_completions ≡ none
      → P (first_pairing now fresh pair_id claims s).1) where
  with_pair_id_cases : (o : Option ℕ) → P (with_pair_id now fresh o claims s).1
  unfolding with_pair_id
  with_pair_id_cases none = unchanged
  with_pair_id_cases (some pair_id) = ground (arith, first pair_id)

  -- A confirmation leaves the store as it was, or it is the first one for its capability.
  pub confirm_cases : P (confirm_pairing now fresh claims s).1
  unfolding confirm_pairing
  confirm_cases = with_pair_id_cases claims.pair_id
