-- ===== src/Auth/Access/Example.antt =====
-- A log-in over the route, and a request with its cookie (core/security.py, api/routes_auth.py).
use taoli.Base.{
  ℕ, ◌+◌, ◌*◌, ◌≤◌, ◌/◌, true, false, not, ◌&&◌, ◌||◌, some, ◌==◌, nat_eq, string_eq, pair_eq,
  contains, ◌≡◌, refl,
}
use taoli.Base.Text.{char_count}
use taoli.Models.Identity.{second}
use taoli.Auth.Totp.{totp_at, exceeds}
use taoli.Auth.Totp.Example.{counting, secret_decodes}
use taoli.Auth.Store.{new_store}
use taoli.Auth.Store.Example.{request, after_login, login_succeeds}
use taoli.Auth.Access.{
  AccessSettings, AccessRequest, public_api_routes, development_bypass, auth_configured,
  require_dashboard_password, LoginBody, Client, signed_in, login_route,
}
use taoli.Auth.Access.Guard.{is_granted, has_store_session, access_iff, login_route_lem}

abbrev settings : AccessSettings
settings = record {
  environment = "production";
  dashboard_password = "a long password";
  dashboard_totp_secret = "ORSXG5A";
  dashboard_api_token = "";
  dashboard_session_days = 30;
  dashboard_auth_disabled = false;
}

abbrev body : LoginBody
body = record { password = some "a long password"; given = some "000003" }

abbrev client : Client
client = record { ip = "10.0.0.1"; browser = "Firefox / Linux" }

signs_in :
    (login_route counting settings body client (90 * second) request.token new_store).0
    ≡ signed_in request.token
unfolding login_route auth_configured
signs_in = rw (secret_decodes, login_succeeds) refl

login_route_lem_example :
    (c : ℕ) × (auth_configured counting settings ≡ true)
    × (body.password ≡ some settings.dashboard_password)
    × (totp_at counting "ORSXG5A" c ≡ body.given)
    × (exceeds c new_store.last_counter ≡ true)
    × (c ≤ 90 * second / (30 * second) + 1)
    × (90 * second / (30 * second) ≤ c + 1)
login_route_lem_example =
    login_route_lem counting settings body client (90 * second) request.token request.token
      new_store signs_in

abbrev with_cookie : AccessRequest
with_cookie = record {
  method = "GET";
  path = "/api/opportunities";
  api_token = "";
  cookie = some request.token;
}

access_iff_example :
    is_granted (
      require_dashboard_password counting settings with_cookie
        (some after_login)
        (100 * second)
        true
        false)
    ≡ (contains (with_cookie.method, with_cookie.path) public_api_routes
        || development_bypass settings
        || auth_configured counting settings
          && (char_count settings.dashboard_api_token == 64
                && not (settings.dashboard_api_token == settings.dashboard_password)
                && settings.dashboard_api_token == with_cookie.api_token
              || has_store_session counting with_cookie (some after_login) (100 * second) false))
access_iff_example =
    access_iff counting settings with_cookie (some after_login) (100 * second) true false
