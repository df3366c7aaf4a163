-- ===== src/Trust/Types.antt =====
-- The records of the rendezvous server's trust store (src/rendezvous/trust-store.ts), of the device
-- challenges and ticket claims (src/shared/trust-protocol.ts), and of the platform's cryptography.
use pipane.Base.{ℕ, Bool, Option, List, Result}
use pipane.Base.Dict.{Dict}

pub data Error : Type 0 where
  unsupported_purpose backend_id_required connection_id_required pair_id_required : Error
  target_device_id_required invite_missing device_unknown_or_revoked public_key_mismatch : Error
  existing_device_required invalid_public_key challenge_missing wrong_purpose : Error
  invalid_signature backend_not_authorized malformed_ticket ticket_expired : Error
  ticket_from_future ticket_used not_a_pairing capability_used backend_owned_by_other : Error
  device_revoked device_account_mismatch device_of_other_account invite_mismatch : Error
  invalid_invite_secret already_has_access belongs_to_other invite_account_missing : Error
  target_not_in_account backend_not_in_account account_missing : Error

-- `unsupported` stands for every other string that a request may carry.
pub data Purpose : Type 0 where
  pair connect discover create_device_invite accept_device_invite : Purpose
  revoke_device revoke_backend unsupported : Purpose

pub record Account : Type 0 where
  pub account_id : ℕ
  pub device_ids : List ℕ
  pub backend_ids : List ℕ
  pub created_at : ℕ

pub record Device : Type 0 where
  pub device_id : ℕ
  pub public_key : ℕ
  pub account_id : ℕ
  pub created_at : ℕ
  pub revoked_at : Option ℕ

pub record Revocation : Type 0 where
  pub account_id : ℕ
  pub revoked_at : ℕ

pub record Completion : Type 0 where
  pub pair_id : ℕ
  pub ticket_id : ℕ
  pub account_id : ℕ
  pub device_id : ℕ
  pub backend_id : ℕ
  pub completed_at : ℕ

pub record Invite : Type 0 where
  pub invite_id : ℕ
  pub secret_hash : ℕ
  pub account_id : ℕ
  pub created_by_device_id : ℕ
  pub created_at : ℕ
  pub expires_at : ℕ

pub record Request : Type 0 where
  pub purpose : Purpose
  pub device_id : Option ℕ
  pub device_public_key : Option ℕ
  pub backend_id : Option ℕ
  pub connection_id : Option ℕ
  pub pair_id : Option ℕ
  pub target_device_id : Option ℕ

pub record Challenge : Type 0 where
  pub challenge_id : ℕ
  pub nonce : ℕ
  pub purpose : Purpose
  pub device_id : ℕ
  pub device_public_key : ℕ
  pub backend_id : Option ℕ
  pub connection_id : Option ℕ
  pub pair_id : Option ℕ
  pub target_device_id : Option ℕ
  pub expires_at : ℕ

pub data TicketKind : Type 0 where
  pairing connection : TicketKind

pub record Claims : Type 0 where
  pub kind : TicketKind
  pub ticket_id : ℕ
  pub backend_id : ℕ
  pub connection_id : ℕ
  pub device_id : ℕ
  pub device_public_key : ℕ
  pub account_id : Option ℕ
  pub pair_id : Option ℕ
  pub issued_at : ℕ
  pub expires_at : ℕ

pub record State : Type 0 where
  pub accounts : Dict Account
  pub devices : Dict Device
  pub backend_owners : Dict ℕ
  pub backend_revocations : Dict Revocation
  pub pairing_completions : Dict Completion
  pub device_invites : Dict Invite
  pub used_tickets : Dict ℕ

-- `disk` is what the file at `statePath` holds: `persist` replaces it by an atomic rename.
pub record Store : Type 0 where
  pub state : State
  pub challenges : Dict Challenge
  pub disk : State
  pub challenge_ttl : ℕ
  pub ticket_ttl : ℕ

-- The platform's cryptography. `none` and an error stand for an exception.
pub record Crypto : Type 0 where
  pub derive_device_id : ℕ → Option ℕ
  pub verify_device_signature : ℕ → Challenge → ℕ → Bool
  pub hash_invite_secret : ℕ → ℕ
  pub sign_ticket : Claims → ℕ
  pub open_ticket : ℕ → Result Error Claims
