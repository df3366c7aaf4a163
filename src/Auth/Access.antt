-- ===== src/Auth/Access.antt =====
-- What it takes to pass the guard of src/server/auth-guard.ts.
use pipane.Base.{
  ◌&&◌, if◌then◌else◌, ◌≡◌, ◌⊎◌, ◌↔◌, inl, inr, Bool, true, false, not, Option, none, some, arith,
  refl,
}
use pipane.Sync.Patch.{Text}
use pipane.Auth.Guard.{
  Web, Guard, HttpRequest, has_valid_cookie, is_local_request, is_same_http_origin,
  is_loopback_origin, check_origin, is_authorized_web_socket_request, is_authorized_request,
}

module _ (web : Web) where
  -- The page that opens the WebSocket is of the same origin, or the client is no browser.
  abbrev pub SameOrigin : Option Text → Option Text → Type 0
  SameOrigin none host = Unit
  SameOrigin (some origin) host = is_same_http_origin web origin host ≡ true

  -- The page is of a loopback host.
  abbrev pub FromLoopback : Option Text → Type 0
  FromLoopback none = Unit
  FromLoopback (some origin) = is_loopback_origin web (web.parse_url origin) ≡ true

  web_socket_cases :
      (o host : Option Text) (c l : Bool)
      → ((if not c && not l then false else check_origin web c l o host) ≡ true)
        ↔ (SameOrigin o host × ((c ≡ true) ⊎ ((l ≡ true) × FromLoopback o)))
  unfolding check_origin
  web_socket_cases none host true l = (λ e. (tt, inl refl), λ h. refl)
  web_socket_cases none host false true = (λ e. (tt, inr (refl, tt)), λ h. refl)
  web_socket_cases none host false false = (λ e. ground arith, λ h. ground arith)
  web_socket_cases (some o) host true l = (λ e. ground arith, λ h. ground arith)
  web_socket_cases (some o) host false true = (λ e. ground arith, λ h. ground arith)
  web_socket_cases (some o) host false false = (λ e. ground arith, λ h. ground arith)

  -- A WebSocket is opened exactly where the page, if any, has the backend's own origin, and the
  -- request has the token's cookie, or comes from this machine under the bypass and, if a page sent
  -- it, from a loopback host.
  pub is_authorized_web_socket_request_lem :
      (g : Guard) (r : HttpRequest)
      → (is_authorized_web_socket_request web g r ≡ true) ↔ (
          SameOrigin r.origin r.host
          × ((has_valid_cookie web g r ≡ true)
              ⊎ ((is_local_request g r.remote_address ≡ true) × FromLoopback r.origin)))
  unfolding is_authorized_web_socket_request
  is_authorized_web_socket_request_lem g r =
      web_socket_cases r.origin r.host (has_valid_cookie web g r)
        (is_local_request g r.remote_address)

  -- Without the bypass, an HTTP request or a WebSocket is accepted only with the token's cookie.
  pub cookie_needed :
      (g : Guard) (r : HttpRequest)
      → g.allow_local_bypass ≡ false
      → (is_authorized_request web g r ≡ true) ⊎ (is_authorized_web_socket_request web g r ≡ true)
      → has_valid_cookie web g r ≡ true
  unfolding is_authorized_request is_authorized_web_socket_request is_local_request
  cookie_needed g r off (inl e) = ground arith
  cookie_needed g r off (inr e) = ground arith
