-- ===== src/Auth/Examples.antt =====
-- The theorems on src/server/auth-guard.ts at one request, where every origin is a loopback URL.
use pipane.Base.{◌≡◌, ◌⊎◌, ◌↔◌, inl, refl, true, false, none, some, [], ◌∷◌}
use pipane.Sync.Patch.{text_eq}
use pipane.Auth.Guard.{
  Web, Guard, HttpRequest, cut, split, secrets_equal, is_local_request, store_cookie, read_cookie,
  read_cookies, cookie_value, has_valid_cookie, is_authorized_request,
  is_authorized_web_socket_request,
}
use pipane.Auth.Access.{
  SameOrigin, FromLoopback, is_authorized_web_socket_request_lem, cookie_needed,
}

abbrev plain_web : Web
plain_web = record {
  trim = λ t. t;
  lower = λ t. t;
  decode_component = λ t. some t;
  parse_url = λ t. none;
}

abbrev guard : Guard
guard = record { token = 7 ∷ 8 ∷ []; allow_local_bypass = false }

-- The header "pipane_auth=" with the token.
abbrev request : HttpRequest
request = record {
  remote_address = none;
  cookie = some (112 ∷ 105 ∷ 112 ∷ 97 ∷ 110 ∷ 101 ∷ 95 ∷ 97 ∷ 117 ∷ 116 ∷ 104 ∷ 61 ∷ 7 ∷ 8 ∷ []);
  origin = none;
  host = none;
}

is_authorized_web_socket_request_lem_example :
    (is_authorized_web_socket_request plain_web guard request ≡ true) ↔ (
      SameOrigin plain_web none none
      × ((has_valid_cookie plain_web guard request ≡ true)
          ⊎ ((is_local_request guard none ≡ true) × FromLoopback plain_web none)))
is_authorized_web_socket_request_lem_example =
    is_authorized_web_socket_request_lem plain_web guard request

accepted : is_authorized_request plain_web guard request ≡ true
unfolding is_authorized_request has_valid_cookie cookie_value read_cookies read_cookie store_cookie
    cut split secrets_equal text_eq is_local_request
accepted = refl

cookie_needed_example : has_valid_cookie plain_web guard request ≡ true
cookie_needed_example = cookie_needed plain_web guard request refl (inl accepted)
