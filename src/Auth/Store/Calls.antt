-- ===== src/Auth/Store/Calls.antt =====
-- Sequences of calls of the store of db/auth.py, and the rules for what holds after them.
use mathlib.Core.Path.{subst}
use taoli.Base.{
  ℕ, String, Bool, true, false, Option, none, some, is_some, any, List, [], ◌∷◌, if◌then◌else◌,
  string_eq, leb, length, keep_if, ◌≡◌, refl, All, IfSome, >>=-IfSome, Bool-cases, inl, inr, not,
  ◌&&◌, ◌||◌, ◌==◌, nat_eq, ◌/◌, ◌*◌,
}
use taoli.Base.Dict
use taoli.Base.Text.{char_count}
use taoli.Models.Identity.{Time, second}
use taoli.Auth.Totp.{Crypto, matching_counter}
use taoli.Auth.Totp.Codes.{IsMatch, IsNearby, matching_counter_lem}
use taoli.Auth.Store.{
  AuthStore, Login, LoginResult, refused, admit, rate_limit, fail_login, succeed, issue_session,
  decide, verify, login, authenticate, revoke, scope_of, is_within, Session, see, all_hex,
  find_live,
}

pub data AuthCall : Type 0 where
  log_in : Login → AuthCall
  read : Option String → Time → Bool → AuthCall
  log_out : String → Time → Bool → AuthCall

module _ (crypto : Crypto) where
  -- The store after an attempt to log in, which is the one before it if the attempt raises.
  abbrev pub kept : AuthStore → Option (LoginResult × AuthStore) → AuthStore
  kept s none = s
  kept s (some (r, t)) = t

  unfoldable pub apply_auth_call : AuthCall → AuthStore → AuthStore
  unfolding login authenticate revoke
  apply_auth_call (log_in q) s = kept s (login crypto q s)
  apply_auth_call (read token now written) s = (authenticate crypto token now written s).1
  apply_auth_call (log_out current now all_sessions) s = revoke current now all_sessions s

  unfoldable pub apply_auth_calls : List AuthCall → AuthStore → AuthStore
  unfolding apply_auth_call
  apply_auth_calls [] s = s
  apply_auth_calls (call ∷ calls) s = apply_auth_calls calls (apply_auth_call call s)

  -- An invariant of the calls that satisfy a condition.
  pub apply_auth_calls_inv :
      (Allowed : AuthCall → Type 0) (P : AuthStore → Type 0)
      → ((call : AuthCall) (s : AuthStore) → Allowed call → P s → P (apply_auth_call call s))
      → (calls : List AuthCall) (s : AuthStore) → All Allowed calls
      → P s
      → P (apply_auth_calls calls s)
  unfolding apply_auth_calls
  apply_auth_calls_inv Allowed P keep [] s h p = p
  apply_auth_calls_inv Allowed P keep (call ∷ calls) s h p =
      apply_auth_calls_inv Allowed P keep calls (apply_auth_call call s) h.1 (keep call s h.0 p)

  -- A counter that a login may be granted with.
  abbrev pub IsGranted : Login → AuthStore → ℕ → Type 0
  IsGranted q s counter =
      IsMatch crypto q.secret q.given s.last_counter counter
      × IsNearby (q.now / (30 * second)) counter
      × (q.password_ok ≡ true)

  pub succeed_rule :
      (q : Login) (c : ℕ) (s : AuthStore) (P : LoginResult × AuthStore → Type 0)
      → (any (λ e. e.id_hash == crypto.sha256 q.token) s.sessions ≡ false
          → P (issue_session crypto q c s))
      → IfSome P (succeed crypto q c s)
  unfolding succeed
  succeed_rule q c s P h =
      elim (Bool-cases (any (λ e. e.id_hash == crypto.sha256 q.token) s.sessions)) [
        | inl taken ↦ rw taken tt
        | inr fresh ↦ rw fresh (h fresh)
      ]

  decide_rule :
      (q : Login) (s : AuthStore) (P : LoginResult × AuthStore → Type 0)
      → P (fail_login q s)
      → ((counter : ℕ) → IsGranted q s counter → IfSome P (succeed crypto q counter s))
      → (candidate : Option ℕ)
      → IfSome
          (λ c.
            IsMatch crypto q.secret q.given s.last_counter c × IsNearby (q.now / (30 * second)) c)
          candidate
      → IfSome P (decide crypto q candidate s)
  unfolding decide
  decide_rule q s P failed succeeded none h = failed
  decide_rule q s P failed succeeded (some counter) h = elim (Bool-cases q.password_ok) [
    | inl good ↦ rw good (succeeded counter (h.0, h.1, good))
    | inr bad ↦ rw bad failed
  ]

  verify_rule :
      (q : Login) (s : AuthStore) (P : LoginResult × AuthStore → Type 0)
      → P (fail_login q s)
      → ((counter : ℕ) → IsGranted q s counter → IfSome P (succeed crypto q counter s))
      → IfSome P (verify crypto q s)
  unfolding verify
  verify_rule q s P failed succeeded =
      >>=-IfSome P (matching_counter crypto q.secret q.given q.now s.last_counter) _ (λ candidate e.
        decide_rule q s P failed succeeded candidate (
          subst
            (IfSome (
              IfSome (λ c.
                IsMatch crypto q.secret q.given s.last_counter c
                × IsNearby (q.now / (30 * second)) c)))
            e (matching_counter_lem crypto q.secret q.given s.last_counter q.now)))

  abbrev pub is_locked : Login → AuthStore → Bool
  is_locked q s = is_some (Dict.get (scope_of q.ip) (admit q s).locks)

  -- A property of the outcome of `login`, from its branches.
  pub login_rule :
      (q : Login) (s : AuthStore) (P : LoginResult × AuthStore → Type 0)
      → P (rate_limit q s)
      → (leb 30 (length (keep_if (is_within q.now 60) s.attempts)) ≡ false
          → P (refused, admit q s)
            × (is_locked q s ≡ false → P (fail_login q (admit q s)))
            × ((counter : ℕ)
                → is_locked q s ≡ false
                → IsGranted q (admit q s) counter
                → IfSome P (succeed crypto q counter (admit q s))))
      → IfSome P (login crypto q s)
  unfolding login
  login_rule q s P limited admitted =
      elim (Bool-cases (leb 30 (length (keep_if (is_within q.now 60) s.attempts)))) [
        | inl full ↦ rw full limited
        | inr free ↦ rw free (elim (Bool-cases (is_locked q s)) [
          | inl locked ↦ rw locked (admitted free).0
          | inr open_to ↦ rw open_to (
              verify_rule q (admit q s) P ((admitted free).1 open_to)
                (λ counter granted. (admitted free).2 counter open_to granted))
        ])
      ]

  pub apply_auth_call-log_in :
      (q : Login) (s : AuthStore) → apply_auth_call (log_in q) s ≡ kept s (login crypto q s)
  unfolding apply_auth_call
  apply_auth_call-log_in q s = refl

  apply_log_in :
      (P : AuthStore → Type 0) (q : Login) (s : AuthStore)
      → P s
      → IfSome (λ x. P x.1) (login crypto q s)
      → P (apply_auth_call (log_in q) s)
  unfolding apply_auth_call
  apply_log_in P q s before after = of_result (login crypto q s) after
    where
      of_result : (o : Option (LoginResult × AuthStore)) → IfSome (λ x. P x.1) o → P (kept s o)
      of_result none h = before
      of_result (some (r, t)) h = h

  authenticate_rule :
      (P : AuthStore → Type 0) (token : Option String) (now : Time) (written : Bool) (s : AuthStore)
      → P s
      → ((hashed : String) (at : Time) → P (record s { sessions = see hashed at s.sessions }))
      → P (authenticate crypto token now written s).1
  unfolding authenticate
  authenticate_rule P none now written s h seen = h
  authenticate_rule P (some token) now written s h seen =
      elim (Bool-cases (not (char_count token == 64) || not (all_hex token))) [
        | inl bad ↦ rw bad h
        | inr good ↦ rw good (found (find_live (crypto.sha256 token) now s.sessions))
      ]
    where
      touched :
          (b : Bool) (hashed : String)
          → P (if b then record s { sessions = see hashed now s.sessions } else s)
      touched true hashed = seen hashed now
      touched false hashed = h

      found :
          (o : Option Session)
          → P
              (elim o as (λ o. Option String × AuthStore) [
                | none ↦ (none, s)
                | some e ↦ (
                  some (crypto.sha256 token),
                  if not (is_within now 60 e.last_seen_at) && written
                      then record s { sessions = see (crypto.sha256 token) now s.sessions }
                      else s,
                )
              ]).1
      found none = h
      found (some e) =
          touched (not (is_within now 60 e.last_seen_at) && written) (crypto.sha256 token)

  -- A property is kept by a call if it is kept by what the calls do.
  pub apply_auth_call_cases :
      (P : AuthStore → Type 0) (call : AuthCall) (s : AuthStore)
      → P s
      → ((hashed : String) (at : Time) → P (record s { sessions = see hashed at s.sessions }))
      → ((current : String) (now : Time) (all_sessions : Bool)
          → call ≡ log_out current now all_sessions
          → P (revoke current now all_sessions s))
      → ((q : Login) → call ≡ log_in q → IfSome (λ x. P x.1) (login crypto q s))
      → P (apply_auth_call call s)
  unfolding apply_auth_call
  apply_auth_call_cases P (log_in q) s before seen revoked logins =
      apply_log_in P q s before (logins q refl)
  apply_auth_call_cases P (read token now written) s before seen revoked logins =
      authenticate_rule P token now written s before seen
  apply_auth_call_cases P (log_out current now all_sessions) s before seen revoked logins =
      revoked current now all_sessions refl

  -- A property that does not depend on the sessions is kept if the logins keep it.
  pub apply_auth_call_rule :
      (P : AuthStore → Type 0) (call : AuthCall) (s : AuthStore)
      → P s
      → ((es : List Session) → P (record s { sessions = es }))
      → ((q : Login) → call ≡ log_in q → IfSome (λ x. P x.1) (login crypto q s))
      → P (apply_auth_call call s)
  unfolding revoke
  apply_auth_call_rule P call s before others logins =
      apply_auth_call_cases P call s before (λ hashed at. others _)
        (λ current now all_sessions e. others _) logins
