-- ===== src/Auth/Access/Guard.antt =====
-- Which requests core/security.py lets pass, and which log-ins succeed.
use taoli.Base.{
  ℕ, ◌+◌, ◌≤◌, ◌/◌, ◌*◌, String, Bool, true, false, not, ◌&&◌, ◌||◌, Option, none, some, is_some,
  ◌==◌, nat_eq, string_eq, pair_eq, ==_iff, contains, any, arith, ap, ◌∙◌, ◌≡◌, refl, Bool-cases,
  inl, inr, Option-cases,
}
use taoli.Base.Text.{char_count}
use taoli.Models.Identity.{Time, second}
use taoli.Auth.Totp.{Crypto, totp_at, exceeds}
use taoli.Auth.Store.{AuthStore, login, is_live, all_hex, authenticate}
use taoli.Auth.Store.Replay.{login-IsGranted}
use taoli.Auth.Store.Sessions.{authenticate-is_some, authenticate-none}
use taoli.Auth.Access.{
  AccessSettings, AccessRequest, Access, granted, unauthorized, unavailable, public_api_routes,
  development_bypass, auth_configured, has_api_token, by_session, require_authentication,
  require_dashboard_password, LoginBody, Client, signed_in, attempt_of, login_route,
}

abbrev pub is_granted : Access → Bool
is_granted (granted hashed) = true
is_granted unauthorized = false
is_granted unavailable = false

module _ (crypto : Crypto) where
  -- The cookie holds 64 hexadecimal digits, and a live session of the store has their hash.
  abbrev pub has_session : Option String → Time → AuthStore → Bool
  has_session none now store = false
  has_session (some token) now store =
      char_count token == 64
      && all_hex token
      && any (is_live (crypto.sha256 token) now) store.sessions

  abbrev pub has_store_session : AccessRequest → Option AuthStore → Time → Bool → Bool
  has_store_session request none now raises = false
  has_store_session request (some store) now raises =
      not raises && has_session request.cookie now store

  authenticate-has_session :
      (cookie : Option String) (now : Time) (written : Bool) (store : AuthStore)
      → is_some (authenticate crypto cookie now written store).0 ≡ has_session cookie now store
  authenticate-has_session none now written store =
      ap is_some (authenticate-none crypto now written store)
  authenticate-has_session (some token) now written store =
      authenticate-is_some crypto token now written store

  by_session-is_granted :
      (request : AccessRequest) (store : Option AuthStore) (now : Time) (written raises : Bool)
      → is_granted (by_session crypto request store now written raises)
        ≡ has_store_session request store now raises
  unfolding by_session
  by_session-is_granted request none now written raises = refl
  by_session-is_granted request (some store) now written raises =
      ground (arith, authenticate-has_session request.cookie now written store)

  -- A request passes if and only if its route is public, the development bypass is on, or the login is
  -- configured and the request has the token of the interface, where that is 64 characters long and not
  -- the password, or the token of a live session, where the store is open and its database does not raise.
  pub access_iff :
      (settings : AccessSettings) (request : AccessRequest) (store : Option AuthStore) (now : Time)
      (written raises : Bool)
      → is_granted (require_dashboard_password crypto settings request store now written raises) ≡ (
          contains (request.method, request.path) public_api_routes
          || development_bypass settings
          || auth_configured crypto settings
            && (char_count settings.dashboard_api_token == 64
                  && not (settings.dashboard_api_token == settings.dashboard_password)
                  && settings.dashboard_api_token == request.api_token
                || has_store_session request store now raises))
  unfolding require_dashboard_password require_authentication has_api_token
  access_iff settings request store now written raises =
      ground (arith, by_session-is_granted request store now written raises)

  attempt-password_ok :
      (settings : AccessSettings) (body : LoginBody) (client : Client) (now : Time) (token : String)
      → (attempt_of settings body client now token).password_ok ≡ true
      → (body.password ≡ some settings.dashboard_password)
        × (some (attempt_of settings body client now token).given ≡ body.given)
  attempt-password_ok settings body client now token h = elim (Option-cases body.password) [
    | inl missing ↦ absurd (ground (arith, missing, h))
    | inr (p, is_text) ↦ elim (Option-cases body.given) [
      | inl missing ↦ absurd (ground (arith, is_text, missing, h))
      | inr (g, is_code) ↦ (
        ground (arith, is_text, is_code, h, ==_iff settings.dashboard_password p),
        ground (arith, is_text, is_code),
      )
    ]
  ]

  -- A log-in over the route gives a cookie only if the login is configured, the body's password is the
  -- one of the settings, and its code is that of a counter which is greater than every one used before
  -- and at most one step of thirty seconds away.
  pub login_route_lem :
      (settings : AccessSettings) (body : LoginBody) (client : Client) (now : Time)
      (token cookie : String) (store : AuthStore)
      → (login_route crypto settings body client now token store).0 ≡ signed_in cookie
      → (c : ℕ) × (auth_configured crypto settings ≡ true)
        × (body.password ≡ some settings.dashboard_password)
        × (totp_at crypto settings.dashboard_totp_secret c ≡ body.given)
        × (exceeds c store.last_counter ≡ true)
        × (c ≤ now / (30 * second) + 1)
        × (now / (30 * second) ≤ c + 1)
  unfolding login_route
  login_route_lem settings body client now token cookie store h =
      let q = attempt_of settings body client now token in
      elim (Bool-cases (auth_configured crypto settings)) [
        | inr not_ready ↦ absurd (ground (arith, not_ready, h))
        | inl ready ↦ elim (Option-cases (login crypto q store)) [
          | inl raised ↦ absurd (ground (arith, ready, raised, h))
          | inr ((r, t), found) ↦
              let (c, allowed, last) =
                login-IsGranted crypto q store t r found (ground (arith, ready, found, h)) in
              let (password, given) =
                attempt-password_ok settings body client now token allowed.2 in
              (c, ready, password, allowed.0.0 ∙ given, allowed.0.1, allowed.1.0, allowed.1.1)
        ]
      ]
