-- ===== src/Hub/Types.antt =====
-- The records of src/rendezvous/rendezvous-hub.ts, and the commands and messages of
-- src/shared/rendezvous-protocol.ts that it handles. A socket is a number; texts of errors, metadata
-- and ICE servers are left out of messages.
use pipane.Base.{Bool, ℕ, Option, List}
use pipane.Base.Dict.{Dict}
use pipane.Trust.Types.{Claims, Store}

pub record Registered : Type 0 where
  pub backend_id : ℕ
  pub public_key : ℕ
  pub socket : ℕ

pub record Handshake : Type 0 where
  pub nonce : ℕ
  pub registered : Option Registered

pub record Route : Type 0 where
  pub connection_id : ℕ
  pub backend_id : ℕ
  pub browser : ℕ
  pub ticket : ℕ
  pub claims : Claims
  pub offer_sdp : Option ℕ
  pub answer_sdp : Option ℕ

pub record ActivePairing : Type 0 where
  pub pair_id : ℕ
  pub backend_id : ℕ
  pub expires_at : ℕ

pub data SdpType : Type 0 where
  offer answer : SdpType

pub data IceSignal : Type 0 where
  description : SdpType → (sdp : ℕ) → IceSignal
  candidate : ℕ → IceSignal

pub record Binding : Type 0 where
  pub backend_id : ℕ
  pub public_key : ℕ
  pub connection_id : ℕ
  pub offer_sha256 : ℕ
  pub answer_sha256 : ℕ
  pub dtls_fingerprint : ℕ
  pub expires_at : ℕ
  pub signature : ℕ

pub data BackendCommand : Type 0 where
  register_backend : (public_key signature : ℕ) → BackendCommand
  open_pairing : (pair_id expires_at : ℕ) → BackendCommand
  confirm_pairing : (connection_id : ℕ) → BackendCommand
  relays : (connection_id : ℕ) → IceSignal → BackendCommand
  binds : (connection_id : ℕ) → Binding → BackendCommand
  closes : (connection_id : ℕ) → BackendCommand

pub data BrowserCommand : Type 0 where
  connect_backend : (backend_id ticket : ℕ) → BrowserCommand
  signals : (connection_id : ℕ) → IceSignal → BrowserCommand
  leaves : (connection_id : ℕ) → BrowserCommand

pub data ErrorCode : Type 0 where
  invalid_json unsupported_version unknown_message unauthorized_connection invalid_message
        invalid_pairing invalid_ticket backend_offline :
      ErrorCode

pub data HubMessage : Type 0 where
  challenge : (nonce : ℕ) → HubMessage
  registered_as : (backend_id : ℕ) → HubMessage
  authorization_revoked : (account_id : ℕ) → (device_id : Option ℕ) → HubMessage
  pairing_opened : (pair_id expires_at : ℕ) → HubMessage
  pairing_confirmed : (connection_id pair_id account_id device_id : ℕ) → HubMessage
  connection_request : (connection_id ticket : ℕ) → HubMessage
  connection_closed : (connection_id : ℕ) → HubMessage
  signal : (connection_id : ℕ) → IceSignal → HubMessage
  connection_binding : (connection_id : ℕ) → Binding → HubMessage
  backend_connected : (backend_id connection_id : ℕ) → HubMessage
  failed : ErrorCode → (connection_id : Option ℕ) → HubMessage

-- `backends`, `routes` and `browserRoutes`. A BrowserRoute is an object that both maps share and that
-- changes: the maps hold its place in `objects`.
pub record Links : Type 0 where
  pub backends : Dict Registered
  pub routes : Dict ℕ
  pub browser_routes : Dict ℕ
  pub objects : Dict Route
  pub next_object : ℕ

-- `open_sockets` are those whose readyState is OPEN; `sent` lists what was sent, the newest first.
pub record Hub : Type 0 where
  pub trust : Store
  pub handshakes : Dict Handshake
  pub links : Links
  pub pairings : Dict ActivePairing
  pub open_sockets : List ℕ
  pub sent : List (ℕ × HubMessage)

-- The platform's part of src/server/backend-identity.ts. `none` stands for an exception.
pub record Identity : Type 0 where
  pub verify_backend_challenge : (public_key nonce signature : ℕ) → Bool
  pub derive_backend_id : ℕ → Option ℕ
  pub sha256 : ℕ → ℕ
  pub extract_dtls_fingerprint : ℕ → Option ℕ
  pub verify_backend_identity_binding : Binding → Bool
