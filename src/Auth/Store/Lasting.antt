-- ===== src/Auth/Store/Lasting.antt =====
-- A session of db/auth.py lasts until it ends or is revoked.
use mathlib.Core.Path.{subst}
use taoli.Base.{
  ◌+◌, ◌*◌, ◌<◌, String, Bool, true, false, not, ◌&&◌, some, is_some, List, [], ◌∷◌, ◌==◌, nat_eq,
  string_eq, ==_iff, ==_self, arith, ◌≡◌, refl, ◌∙◌, All, IfSome, ltb, any, any-append, any-keep_if,
  any-map-true, any-imp-true, keep_if,
}
use taoli.Base.Text.{char_count}
use taoli.Models.Identity.{Time, second}
use taoli.Auth.Totp.{Crypto}
use taoli.Auth.Store.{
  Session, AuthStore, Login, LoginResult, admit, rate_limit, fail_login, login, is_live, all_hex,
  authenticate, revoke, new_session,
}
use taoli.Auth.Store.Calls.{
  AuthCall, log_in, read, log_out, apply_auth_call, apply_auth_calls, apply_auth_calls_inv,
  apply_auth_call_cases, succeed_rule, login_rule,
}
use taoli.Auth.Store.Sessions.{is_open, any-see, authenticate-is_some}

-- The session of the hash is open and ends at an instant.
abbrev is_valid : String → Time → Session → Bool
is_valid hashed until e = is_open hashed e && e.expires_at == until

abbrev IsValid : String → Time → AuthStore → Type 0
IsValid hashed until s = any (is_valid hashed until) s.sessions ≡ true

-- A login before the end of the session, or a log-out of another session.
abbrev pub IsHarmless : String → Time → AuthCall → Type 0
IsHarmless hashed until (log_in q) = q.now < until
IsHarmless hashed until (read token now written) = Unit
IsHarmless hashed until (log_out current now all_sessions) =
    (all_sessions ≡ false) × ((hashed == current) ≡ false)

module _ (crypto : Crypto) where
  module _ (hashed : String) (until : Time) where
    login-IsValid :
        (q : Login) (s : AuthStore)
        → q.now < until
        → IsValid hashed until s
        → IfSome (λ x. IsValid hashed until x.1) (login crypto q s)
    unfolding admit rate_limit fail_login
    login-IsValid q s soon h =
        let kept = λ (e : Session). ltb q.now e.expires_at && not (is_some e.revoked_at) in
        let admitted =
          any-keep_if (is_valid hashed until) kept s.sessions
            (λ e valid. ground (arith, valid, soon))
          ∙ h in
        login_rule crypto q s (λ x. IsValid hashed until x.1) h
          (λ free. (
            admitted,
            λ open_to. admitted,
            λ counter open_to granted.
                succeed_rule crypto q counter (admit q s) (λ x. IsValid hashed until x.1)
                  (λ fresh.
                    rw
                      (
                        any-append (is_valid hashed until) (keep_if kept s.sessions)
                            (new_session crypto q ∷ []),
                        admitted,
                      )
                      refl),
          ))

    revoke-IsValid :
        (current : String) (now : Time) (s : AuthStore)
        → (hashed == current) ≡ false
        → IsValid hashed until s
        → IsValid hashed until (revoke current now false s)
    unfolding revoke
    revoke-IsValid current now s other h =
        any-map-true (is_valid hashed until) (is_valid hashed until) _ s.sessions
          (λ e valid. ground (
            arith,
            valid,
            other,
            ==_iff e.id_hash current,
            ==_iff e.id_hash hashed,
            ==_iff hashed current,
          ))
          h

    apply_auth_call-IsValid :
        (call : AuthCall) (s : AuthStore)
        → IsHarmless hashed until call
        → IsValid hashed until s
        → IsValid hashed until (apply_auth_call crypto call s)
    apply_auth_call-IsValid call s harmless h =
        apply_auth_call_cases crypto (IsValid hashed until) call s h
          (λ other at. any-see (is_valid hashed until) (λ e at. refl) other at s.sessions ∙ h)
          (λ current now all_sessions e.
            revoked current now all_sessions (subst (IsHarmless hashed until) e harmless))
          (λ q e. login-IsValid q s (subst (IsHarmless hashed until) e harmless) h)
      where
        revoked :
            (current : String) (now : Time) (all_sessions : Bool)
            → (all_sessions ≡ false) × ((hashed == current) ≡ false)
            → IsValid hashed until (revoke current now all_sessions s)
        revoked current now true k = cc (k.0)
        revoked current now false k = revoke-IsValid current now s k.1 h

  login_issues :
      (q : Login) (s : AuthStore)
      → IfSome
          (λ x.
            is_some x.0.token ≡ true
            → IsValid (crypto.sha256 q.token) (q.now + q.days * 86400 * second) x.1)
          (login crypto q s)
  unfolding rate_limit fail_login
  login_issues q s =
      let P : LoginResult × AuthStore → Type 0 = λ x.
        is_some x.0.token ≡ true
        → IsValid (crypto.sha256 q.token) (q.now + q.days * 86400 * second) x.1 in
      login_rule crypto q s P (λ h. cc)
        (λ free. (
          λ h. cc,
          λ open_to h. cc,
          λ counter open_to granted. succeed_rule crypto q counter (admit q s) P (λ fresh given.
              ground (
                arith,
                any-append (is_valid (crypto.sha256 q.token) (q.now + q.days * 86400 * second))
                    (admit q s).sessions (new_session crypto q ∷ []),
                ==_self (crypto.sha256 q.token),
              )),
        ))

  -- The token that a login gives, of 64 hexadecimal digits, is accepted until its session ends after the
  -- days that were asked for, whatever calls lie in between: logins before that end, and log-outs of
  -- sessions with other hashes.
  pub token_lasts :
      (q : Login) (s t : AuthStore) (r : LoginResult) (calls : List AuthCall) (at : Time)
      (written : Bool)
      → login crypto q s ≡ some (r, t)
      → is_some r.token ≡ true
      → (char_count q.token == 64 && all_hex q.token) ≡ true
      → All (IsHarmless (crypto.sha256 q.token) (q.now + q.days * 86400 * second)) calls
      → at < q.now + q.days * 86400 * second
      → is_some (authenticate crypto (some q.token) at written (apply_auth_calls crypto calls t)).0
        ≡ true
  unfolding is_live
  token_lasts q s t r calls at written h given hex harmless soon =
      let hashed = crypto.sha256 q.token in
      let until = q.now + q.days * 86400 * second in
      let issued =
        subst (IfSome (λ x. is_some x.0.token ≡ true → IsValid hashed until x.1)) h
          (login_issues q s) given in
      let valid =
        apply_auth_calls_inv crypto (IsHarmless hashed until) (IsValid hashed until)
          (apply_auth_call-IsValid hashed until) calls t harmless issued in
      let live =
        any-imp-true (is_valid hashed until) (is_live hashed at)
          (apply_auth_calls crypto calls t).sessions
          (λ e good. ground (arith, good, soon, ==_iff e.expires_at until)) valid in
      ground (
        arith,
        authenticate-is_some crypto q.token at written (apply_auth_calls crypto calls t),
        live,
        hex,
      )
