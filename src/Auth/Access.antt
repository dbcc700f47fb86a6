-- ===== src/Auth/Access.antt =====
-- backend/app/core/security.py and the log-in of api/routes_auth.py: who may call what.
pub mod Guard
mod Example
use taoli.Base.{
  ℕ, String, Bool, true, false, not, ◌&&◌, ◌||◌, Option, none, some, is_some, get_or, List, [], ◌∷◌,
  if◌then◌else◌, ◌==◌, nat_eq, string_eq, pair_eq, contains,
}
use taoli.Base.Text.{lower, char_count}
use taoli.Models.Identity.{Time}
use taoli.PairValidation.{strip}
use taoli.Auth.Totp.{Crypto, decode_secret}
use taoli.Auth.Store.{AuthStore, Login, LoginResult, login, authenticate}

-- The settings of core/config.py that decide on access.
pub record AccessSettings : Type 0 where
  pub environment : String
  pub dashboard_password : String
  pub dashboard_totp_secret : String
  pub dashboard_api_token : String
  pub dashboard_session_days : ℕ
  pub dashboard_auth_disabled : Bool

-- The parts of a request that decide on access; a missing header is the empty text.
pub record AccessRequest : Type 0 where
  pub method : String
  pub path : String
  pub api_token : String
  pub cookie : Option String

abbrev pub public_api_routes : List (String × String)
public_api_routes =
    ("GET", "/api/health")
    ∷ ("GET", "/api/health/live")
    ∷ ("GET", "/api/health/ready")
    ∷ ("GET", "/api/features")
    ∷ ("POST", "/api/auth/login")
    ∷ []

-- The request goes on, with the hash of the session that it was admitted by, or gets an error.
pub data Access : Type 0 where
  granted : Option String → Access
  unauthorized : Access
  unavailable : Access

pub development_bypass : AccessSettings → Bool
development_bypass settings =
    contains (lower (strip settings.environment)) ("test" ∷ "local" ∷ "development" ∷ [])
    && settings.dashboard_auth_disabled

module _ (crypto : Crypto) where
  pub auth_configured : AccessSettings → Bool
  auth_configured settings =
      not (settings.dashboard_password == "")
      && is_some (decode_secret crypto settings.dashboard_totp_secret)

  pub has_api_token : AccessSettings → AccessRequest → Bool
  has_api_token settings request =
      char_count settings.dashboard_api_token == 64
      && not (settings.dashboard_api_token == settings.dashboard_password)
      && settings.dashboard_api_token == request.api_token

  -- `store`: none before the store is opened. `raises`: whether the database raises.
  pub by_session : AccessRequest → Option AuthStore → Time → Bool → Bool → Access
  by_session request none now written raises = unauthorized
  by_session request (some store) now written raises =
      if raises
      then unavailable
      else elim (authenticate crypto request.cookie now written store).0 [
        | none ↦ unauthorized
        | some hashed ↦ granted (some hashed)
      ]

  -- `session_only` and `allow_bypass` are the keyword arguments.
  pub require_authentication :
      AccessSettings → AccessRequest → Bool → Bool → Option AuthStore → Time → Bool → Bool → Access
  unfolding development_bypass auth_configured has_api_token by_session
  require_authentication settings request session_only allow_bypass store now written raises =
      let by_cookie = by_session request store now written raises in
      if not session_only && allow_bypass && development_bypass settings
      then granted none
      else if not (auth_configured settings)
      then unauthorized
      else if not session_only && has_api_token settings request
      then granted none
      else by_cookie

  pub require_dashboard_password :
      AccessSettings → AccessRequest → Option AuthStore → Time → Bool → Bool → Access
  unfolding require_authentication
  require_dashboard_password settings request store now written raises =
      if contains (request.method, request.path) public_api_routes
      then granted none
      else require_authentication settings request false true store now written raises

-- The fields of the body of a login that are texts; both are missing if it is no JSON object, or is
-- longer than 8192 bytes.
pub record LoginBody : Type 0 where
  pub password : Option String
  pub given : Option String

-- Who asks: the address and the browser, as `client_ip` and `browser_label` name them.
pub record Client : Type 0 where
  pub ip : String
  pub browser : String

-- The answer, and the event that is notified: a cookie with the token, or an error.
pub data LoginResponse : Type 0 where
  signed_in : String → LoginResponse
  wrong : Bool → LoginResponse
  too_many : Bool → LoginResponse
  failure : LoginResponse

-- The arguments of the store: a field that is no text makes the password wrong.
abbrev pub attempt_of : AccessSettings → LoginBody → Client → Time → String → Login
attempt_of settings body client now token =
    let valid_shape = is_some body.password && is_some body.given in
    record {
      password_ok =
          settings.dashboard_password == (if valid_shape then get_or body.password "" else "")
          && valid_shape;
      secret = settings.dashboard_totp_secret;
      given = if valid_shape then get_or body.given "" else "";
      ip = client.ip;
      browser = client.browser;
      now = now;
      days = settings.dashboard_session_days;
      token = token;
    }

abbrev pub respond : LoginResult → LoginResponse
respond result =
    if result.rate_limited
    then too_many result.notify_rate_limit
    else elim result.token [ none ↦ wrong result.ip_locked | some token ↦ signed_in token ]

module _ (crypto : Crypto) where
  -- The route POST /login. A store that raises is as it was.
  pub login_route :
      AccessSettings → LoginBody → Client → Time → String → AuthStore → LoginResponse × AuthStore
  unfolding auth_configured
  login_route settings body client now token store =
      let answered : LoginResponse × AuthStore =
        elim (login crypto (attempt_of settings body client now token) store) [
          | none ↦ (failure, store)
          | some (result, after) ↦ (respond result, after)
        ] in
      if not (auth_configured crypto settings) then (wrong false, store) else answered
