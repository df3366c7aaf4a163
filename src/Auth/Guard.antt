-- ===== src/Auth/Guard.antt =====
-- AuthGuard of src/server/auth-guard.ts. A text is the list of its UTF-16 units; trim, toLowerCase,
-- decodeURIComponent and URL are the platform's.
use pipane.Base.{
  ℕ, ◌==◌, Bool, true, false, not, ◌&&◌, ◌||◌, Option, none, some, List, [], ◌∷◌, if◌then◌else◌,
}
use pipane.Sync.Patch.{Text, text_eq}

pub record Url : Type 0 where
  pub protocol : Text
  pub host : Text
  pub hostname : Text
  pub username : Text
  pub password : Text

pub record Web : Type 0 where
  pub trim : Text → Text
  pub lower : Text → Text
  pub decode_component : Text → Option Text
  pub parse_url : Text → Option Url

pub record Guard : Type 0 where
  pub token : Text
  pub allow_local_bypass : Bool

pub record HttpRequest : Type 0 where
  pub remote_address : Option Text
  pub cookie : Option Text
  pub origin : Option Text
  pub host : Option Text

-- "pipane_auth"
abbrev auth_cookie_name : Text
auth_cookie_name = 112 ∷ 105 ∷ 112 ∷ 97 ∷ 110 ∷ 101 ∷ 95 ∷ 97 ∷ 117 ∷ 116 ∷ 104 ∷ []

-- "127.0.0.1", "::1", "localhost", "http:" and "https:"
abbrev ipv4_loopback : Text
ipv4_loopback = 49 ∷ 50 ∷ 55 ∷ 46 ∷ 48 ∷ 46 ∷ 48 ∷ 46 ∷ 49 ∷ []

abbrev ipv6_loopback : Text
ipv6_loopback = 58 ∷ 58 ∷ 49 ∷ []

abbrev localhost : Text
localhost = 108 ∷ 111 ∷ 99 ∷ 97 ∷ 108 ∷ 104 ∷ 111 ∷ 115 ∷ 116 ∷ []

abbrev http : Text
http = 104 ∷ 116 ∷ 116 ∷ 112 ∷ 58 ∷ []

abbrev https : Text
https = 104 ∷ 116 ∷ 116 ∷ 112 ∷ 115 ∷ 58 ∷ []

-- A text cut at the first unit c: what is before it, and what is behind it, if it is there.
unfoldable pub cut : ℕ → Text → Text × Option Text
cut c [] = ([], none)
cut c (x ∷ xs) =
    let (before, behind) = cut c xs in if x == c then ([], some xs) else (x ∷ before, behind)

-- `header.split(";")`
unfoldable pub split : ℕ → Text → List Text
split c [] = [] ∷ []
split c (x ∷ xs) = elim (split c xs) [
  | [] ↦ []
  | part ∷ parts ↦ if x == c then [] ∷ part ∷ parts else (x ∷ part) ∷ parts
]

-- secretsEqual
unfoldable pub secrets_equal : Option Text → Text → Bool
secrets_equal none expected = false
secrets_equal (some actual) expected = text_eq actual expected

abbrev one_of : Text → Text → Text → Text → Bool
one_of x a b c = text_eq x a || text_eq x b || text_eq x c

-- isLocalRequest
unfoldable pub is_local_request : Guard → Option Text → Bool
is_local_request g none = false
is_local_request g (some address) =
    g.allow_local_bypass
    && one_of address ipv4_loopback ipv6_loopback
        (58 ∷ 58 ∷ 102 ∷ 102 ∷ 102 ∷ 102 ∷ 58 ∷ ipv4_loopback)

-- `hostname.replace(/^\[|\]$/gu, "")`
abbrev strip_front : Text → Text
strip_front [] = []
strip_front (x ∷ xs) = if x == 91 then xs else x ∷ xs

unfoldable pub strip_back : Text → Text
strip_back [] = []
strip_back (x ∷ xs) =
    let rest = strip_back xs in elim xs [ [] ↦ if x == 93 then [] else x ∷ [] | _ ∷ _ ↦ x ∷ rest ]

module _ (web : Web) where
  open web use {trim, lower, decode_component, parse_url}

  -- A part of the cookie header, cut at its first "=": the value that it gives the name, or what
  -- there was. A value that does not decode gives none.
  unfoldable pub store_cookie : Text → Option Text → Text × Option Text → Option Text
  store_cookie name found (key, none) = found
  store_cookie name found ([], some value) = found
  store_cookie name found (k ∷ ks, some value) =
      if text_eq (trim (k ∷ ks)) name
      then elim (decode_component (trim value)) [ none ↦ found | some v ↦ some v ]
      else found

  unfoldable pub read_cookie : Text → Option Text → Text → Option Text
  read_cookie name found part = store_cookie name found (cut 61 part)

  unfoldable pub read_cookies : Text → Option Text → List Text → Option Text
  read_cookies name found [] = found
  read_cookies name found (part ∷ parts) = read_cookies name (read_cookie name found part) parts

  -- `this.parseCookies(header)[name]`: the last part that gives the name a value counts.
  unfoldable pub cookie_value : Text → Option Text → Option Text
  cookie_value name none = none
  cookie_value name (some header) = read_cookies name none (split 59 header)

  -- hasValidCookie
  unfoldable pub has_valid_cookie : Guard → HttpRequest → Bool
  has_valid_cookie g r = secrets_equal (cookie_value auth_cookie_name r.cookie) g.token

  -- isAuthorizedRequest
  unfoldable pub is_authorized_request : Guard → HttpRequest → Bool
  is_authorized_request g r = has_valid_cookie g r || is_local_request g r.remote_address

  unfoldable pub same_host : Option Url → Text → Bool
  same_host none host = false
  same_host (some u) host =
      (text_eq u.protocol http || text_eq u.protocol https)
      && text_eq (lower u.host) (lower host)
      && text_eq u.username []
      && text_eq u.password []

  -- isSameHttpOrigin
  unfoldable pub is_same_http_origin : Text → Option Text → Bool
  is_same_http_origin origin none = false
  is_same_http_origin origin (some host) =
      not (text_eq host []) && same_host (parse_url origin) host

  -- isLoopbackHostname
  unfoldable pub is_loopback_hostname : Text → Bool
  is_loopback_hostname hostname =
      one_of (lower (strip_back (strip_front hostname))) localhost ipv4_loopback ipv6_loopback

  -- `isLoopbackHostname(new URL(origin).hostname)`, for an origin that parses.
  unfoldable pub is_loopback_origin : Option Url → Bool
  is_loopback_origin none = false
  is_loopback_origin (some u) = is_loopback_hostname u.hostname

  unfoldable pub check_origin : Bool → Bool → Option Text → Option Text → Bool
  check_origin cookie_authorized local_authorized none host = cookie_authorized || local_authorized
  check_origin cookie_authorized local_authorized (some origin) host =
      if not (is_same_http_origin origin host)
      then false
      else if not cookie_authorized && local_authorized
      then is_loopback_origin (parse_url origin)
      else true

  -- isAuthorizedWebSocketRequest
  unfoldable pub is_authorized_web_socket_request : Guard → HttpRequest → Bool
  is_authorized_web_socket_request g r =
      let cookie_authorized = has_valid_cookie g r in
      let local_authorized = is_local_request g r.remote_address in
      if not cookie_authorized && not local_authorized
      then false
      else check_origin cookie_authorized local_authorized r.origin r.host
