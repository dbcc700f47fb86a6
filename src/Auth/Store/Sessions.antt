-- ===== src/Auth/Store/Sessions.antt =====
-- How long a token of db/auth.py is accepted.
use mathlib.Core.Path.{subst}
use taoli.Base.{
  String, Bool, true, false, not, ◌&&◌, ◌||◌, none, some, is_some, List, [], ◌∷◌, if◌then◌else◌,
  ◌==◌, nat_eq, string_eq, ==_iff, arith, ◌≡◌, refl, ◌∙◌, All, IfSome, Bool-cases, inl, inr, ltb,
  any, any-append, any-map, any-ext, any-keep_if-false, any-map-false, any-imp-false, any-never,
  keep_if,
}
use taoli.Base.Text.{char_count}
use taoli.Models.Identity.{Time}
use taoli.Auth.Totp.{Crypto}
use taoli.Auth.Store.{
  Session, AuthStore, Login, admit, rate_limit, fail_login, login, is_live, find_live, see, all_hex,
  authenticate, revoke, new_session,
}
use taoli.Auth.Store.Calls.{
  AuthCall, log_in, read, log_out, apply_auth_call, apply_auth_calls, apply_auth_calls_inv,
  apply_auth_call_cases, succeed_rule, login_rule,
}

-- The session of the token is there and was not revoked.
abbrev pub is_open : String → Session → Bool
is_open hashed e = e.id_hash == hashed && not (is_some e.revoked_at)

-- Tests that the last view of a session does not change.
abbrev pub IgnoresView : (Session → Bool) → Type 0
IgnoresView test = (e : Session) (at : Time) → test (record e { last_seen_at = at }) ≡ test e

pub any-see :
    (test : Session → Bool)
    → IgnoresView test
    → (hashed : String) (at : Time) (es : List Session) → any test (see hashed at es) ≡ any test es
unfolding see
any-see test ignores hashed at es =
    any-map test (λ e. if e.id_hash == hashed then record e { last_seen_at = at } else e) es
    ∙ any-ext (λ e. test (if e.id_hash == hashed then record e { last_seen_at = at } else e)) test
        es (λ e. either (e.id_hash == hashed) e)
  where
    either :
        (b : Bool) (e : Session) → test (if b then record e { last_seen_at = at } else e) ≡ test e
    either true e = ignores e at
    either false e = refl

find_live-is_some :
    (hashed : String) (now : Time) (es : List Session)
    → is_some (find_live hashed now es) ≡ any (is_live hashed now) es
unfolding find_live is_live
find_live-is_some hashed now [] = refl
find_live-is_some hashed now (e ∷ es) = elim (Bool-cases (is_live hashed now e)) [
  | inl live ↦ rw live refl
  | inr other ↦ rw other (find_live-is_some hashed now es)
]

module _ (crypto : Crypto) where
  -- A token of 64 hexadecimal digits is accepted if and only if its session is live.
  pub authenticate-is_some :
      (token : String) (now : Time) (written : Bool) (s : AuthStore)
      → is_some (authenticate crypto (some token) now written s).0 ≡ (
          char_count token == 64
          && all_hex token
          && any (is_live (crypto.sha256 token) now) s.sessions)
  unfolding authenticate
  authenticate-is_some token now written s =
      ground (arith, find_live-is_some (crypto.sha256 token) now s.sessions)

  pub authenticate-none :
      (now : Time) (written : Bool) (s : AuthStore)
      → (authenticate crypto none now written s).0 ≡ none
  unfolding authenticate
  authenticate-none now written s = refl

  -- No session of the hash is open.
  abbrev IsClosed : String → AuthStore → Type 0
  IsClosed hashed s = any (is_open hashed) s.sessions ≡ false

  -- A call that does not open a session of the hash.
  abbrev pub IsForeign : String → AuthCall → Type 0
  IsForeign hashed (log_in q) = (crypto.sha256 q.token == hashed) ≡ false
  IsForeign hashed (read token now written) = Unit
  IsForeign hashed (log_out current now all_sessions) = Unit

  login-IsClosed :
      (hashed : String) (q : Login) (s : AuthStore)
      → (crypto.sha256 q.token == hashed) ≡ false
      → IsClosed hashed s
      → IfSome (λ x. IsClosed hashed x.1) (login crypto q s)
  unfolding admit rate_limit fail_login
  login-IsClosed hashed q s foreign h =
      let kept = λ (e : Session). ltb q.now e.expires_at && not (is_some e.revoked_at) in
      let admitted = any-keep_if-false (is_open hashed) kept s.sessions h in
      login_rule crypto q s (λ x. IsClosed hashed x.1) h
        (λ free. (
          admitted,
          λ open_to. admitted,
          λ counter open_to granted.
              succeed_rule crypto q counter (admit q s) (λ x. IsClosed hashed x.1)
                (λ fresh.
                  rw
                    (
                      any-append (is_open hashed) (keep_if kept s.sessions)
                          (new_session crypto q ∷ []),
                      admitted,
                      foreign,
                    )
                    refl),
        ))

  revoke-IsClosed :
      (hashed current : String) (now : Time) (all_sessions : Bool) (s : AuthStore)
      → IsClosed hashed s
      → IsClosed hashed (revoke current now all_sessions s)
  unfolding revoke
  revoke-IsClosed hashed current now all_sessions s h =
      any-map-false (is_open hashed) (is_open hashed) _ s.sessions
        (λ e closed.
          revoked (if all_sessions then not (is_some e.revoked_at) else e.id_hash == current) e
            closed)
        h
    where
      revoked :
          (b : Bool) (e : Session)
          → is_open hashed e ≡ false
          → is_open hashed (if b then record e { revoked_at = some now } else e) ≡ false
      revoked true e closed = ground arith
      revoked false e closed = closed

  -- A log-out closes the sessions that it names.
  revoke-closes :
      (hashed current : String) (now : Time) (all_sessions : Bool) (s : AuthStore)
      → (all_sessions || hashed == current) ≡ true
      → IsClosed hashed (revoke current now all_sessions s)
  unfolding revoke
  revoke-closes hashed current now all_sessions s named =
      any-map-false (λ e. false) (is_open hashed) _ s.sessions
        (λ e none_of. closes all_sessions e named) (any-never s.sessions)
    where
      closes :
          (b : Bool) (e : Session)
          → (b || hashed == current) ≡ true
          → is_open hashed (
              if (if b then not (is_some e.revoked_at) else e.id_hash == current)
              then record e { revoked_at = some now }
              else e)
            ≡ false
      closes true e named = ground arith
      closes false e named = ground (arith, (==_iff hashed current).0 named)

  apply_auth_call-IsClosed :
      (hashed : String) (call : AuthCall) (s : AuthStore)
      → IsForeign hashed call
      → IsClosed hashed s
      → IsClosed hashed (apply_auth_call crypto call s)
  apply_auth_call-IsClosed hashed call s foreign h =
      apply_auth_call_cases crypto (IsClosed hashed) call s h
        (λ other at. any-see (is_open hashed) (λ e at. refl) other at s.sessions ∙ h)
        (λ current now all_sessions e. revoke-IsClosed hashed current now all_sessions s h)
        (λ q e. login-IsClosed hashed q s (subst (IsForeign hashed) e foreign) h)

  closed-authenticate :
      (token : String) (now : Time) (written : Bool) (s : AuthStore)
      → IsClosed (crypto.sha256 token) s
      → is_some (authenticate crypto (some token) now written s).0 ≡ false
  unfolding is_live
  closed-authenticate token now written s h =
      let none_live =
        any-imp-false (is_open (crypto.sha256 token)) (is_live (crypto.sha256 token) now) s.sessions
          (λ e closed. ground (arith, closed)) h in
      ground (arith, authenticate-is_some token now written s, none_live)

  -- After a log-out of a session, or of all, the token of the session is never accepted again, whatever
  -- calls follow, unless a login is given the same hash once more.
  pub logout_is_final :
      (token current : String) (now at : Time) (all_sessions written : Bool) (s : AuthStore)
      (calls : List AuthCall)
      → (all_sessions || crypto.sha256 token == current) ≡ true
      → All (IsForeign (crypto.sha256 token)) calls
      → is_some
          (authenticate crypto
            (some token)
            at
            written
            (apply_auth_calls crypto calls (revoke current now all_sessions s))).0
        ≡ false
  logout_is_final token current now at all_sessions written s calls named foreign =
      closed-authenticate token at written
        (apply_auth_calls crypto calls (revoke current now all_sessions s))
        (apply_auth_calls_inv crypto (IsForeign (crypto.sha256 token))
          (IsClosed (crypto.sha256 token)) (apply_auth_call-IsClosed (crypto.sha256 token)) calls
          (revoke current now all_sessions s) foreign
          (revoke-closes (crypto.sha256 token) current now all_sessions s named))
