-- ===== src/Hub/RegisterSteps.antt =====
-- How backends come and go in src/rendezvous/rendezvous-hub.ts keeps the hub sound.
use pipane.Base.{ℕ, ◌≢◌, ◌==◌, inl, inr, Option, none, some, Option-cases, Bool-cases}
use pipane.Base.Dict.{get}
use pipane.Trust.Devices.{get_pending_backend_revocation}
use pipane.Hub.Types.{
  Registered, Handshake, BackendCommand, register_backend, open_pairing, confirm_pairing, relays,
  binds, closes, Hub, Identity,
}
use pipane.Hub.Routes.{has_socket}
use pipane.Hub.Backends.{
  handle_known, remove_current, replace_previous, set_registered, register_derived, register,
  handle_unregistered, handle_handshake, handle_backend_message, remove_handshake,
  remove_backend_socket,
}
use pipane.Hub.Sound.{Sound}
use pipane.Hub.Keeping.{remove_registered_backend-Sound, put_backend-Sound}
use pipane.Hub.BackendSteps.{handle_registered-Sound}

module _ (identity : Identity) where
  replace_previous-Sound :
      (previous : Option Registered) (socket : ℕ) (h : Hub)
      → Sound h
      → Sound (replace_previous identity previous socket h)
  unfolding replace_previous
  replace_previous-Sound none socket h v = v
  replace_previous-Sound (some b) socket h v = elim (Bool-cases (b.socket == socket)) [
    | inl own ↦ rw (own, replace_previous) v
    | inr other ↦ rw (other, replace_previous) (remove_registered_backend-Sound b h v)
  ]

  set_registered-Sound :
      (socket : ℕ) (hs : Handshake) (key id : ℕ) (h : Hub)
      → Sound h
      → Sound (set_registered identity socket hs key id h)
  unfolding set_registered
  set_registered-Sound socket hs key id h v =
      let cleared = replace_previous identity (get id h.links.backends) socket h in
      let kept =
        put_backend-Sound (record { backend_id = id; public_key = key; socket = socket }) cleared
          (replace_previous-Sound (get id h.links.backends) socket h v) in
      elim (Option-cases (get_pending_backend_revocation cleared.trust.state id)) [
        | inl nothing ↦ rw (nothing, set_registered) kept
        | inr (r, pending) ↦ rw (pending, set_registered) kept
      ]

  register-Sound :
      (socket : ℕ) (hs : Handshake) (key sig : ℕ) (h : Hub)
      → Sound h
      → Sound (register identity socket hs key sig h)
  unfolding register register_derived
  register-Sound socket hs key sig h v =
      elim (Bool-cases (identity.verify_backend_challenge key hs.nonce sig)) [
        | inr invalid ↦ rw (invalid, register) v
        | inl valid ↦ elim (Option-cases (identity.derive_backend_id key)) [
          | inl bad ↦ rw (valid, register) (rw bad v)
          | inr (id, good) ↦
              rw (valid, register) (rw good (set_registered-Sound socket hs key id h v))
        ]
      ]

  handle_unregistered-Sound :
      (socket : ℕ) (hs : Handshake) (command : BackendCommand) (h : Hub)
      → Sound h
      → Sound (handle_unregistered identity socket hs command h)
  unfolding handle_unregistered
  handle_unregistered-Sound socket hs (register_backend key sig) h v =
      register-Sound socket hs key sig h v
  handle_unregistered-Sound socket hs (open_pairing p x) h v = v
  handle_unregistered-Sound socket hs (confirm_pairing c) h v = v
  handle_unregistered-Sound socket hs (relays c s) h v = v
  handle_unregistered-Sound socket hs (binds c x) h v = v
  handle_unregistered-Sound socket hs (closes c) h v = v

  handle_known-Sound :
      (now fresh socket : ℕ) (hs : Handshake) (found : Option Registered) (command : BackendCommand)
      (h : Hub)
      → fresh ≢ 0
      → Sound h
      → Sound (handle_known identity now fresh socket hs found command h)
  handle_known-Sound now fresh socket hs none command h n v =
      handle_unregistered-Sound socket hs command h v
  handle_known-Sound now fresh socket hs (some b) command h n v =
      handle_registered-Sound b identity now fresh command h n v

  handle_handshake-Sound :
      (now fresh socket : ℕ) (found : Option Handshake) (command : BackendCommand) (h : Hub)
      → fresh ≢ 0
      → Sound h
      → Sound (handle_handshake identity now fresh socket found command h)
  unfolding handle_handshake
  handle_handshake-Sound now fresh socket none command h n v = v
  handle_handshake-Sound now fresh socket (some hs) command h n v =
      handle_known-Sound now fresh socket hs hs.registered command h n v

  pub handle_backend_message-Sound :
      (now fresh socket : ℕ) (command : BackendCommand) (h : Hub)
      → fresh ≢ 0
      → Sound h
      → Sound (handle_backend_message identity now fresh socket command h)
  unfolding handle_backend_message
  handle_backend_message-Sound now fresh socket command h n v =
      handle_handshake-Sound now fresh socket (get socket h.handshakes) command h n v

remove_current-Sound :
    (socket : ℕ) (found : Option Registered) (h : Hub)
    → Sound h
    → Sound (remove_current socket found h)
remove_current-Sound socket none h v = v
remove_current-Sound socket (some b) h v =
    elim (Bool-cases (has_socket (get b.backend_id h.links.backends) socket)) [
      | inl own ↦ rw (own, remove_current) (remove_registered_backend-Sound b h v)
      | inr other ↦ rw (other, remove_current) v
    ]

remove_handshake-Sound :
    (socket : ℕ) (found : Option Handshake) (h : Hub)
    → Sound h
    → Sound (remove_handshake socket found h)
unfolding remove_handshake
remove_handshake-Sound socket none h v = v
remove_handshake-Sound socket (some hs) h v = remove_current-Sound socket hs.registered _ v

pub remove_backend_socket-Sound :
    (socket : ℕ) (h : Hub) → Sound h → Sound (remove_backend_socket socket h)
unfolding remove_backend_socket
remove_backend_socket-Sound socket h v = remove_handshake-Sound socket (get socket h.handshakes) h v
