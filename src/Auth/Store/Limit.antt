-- ===== src/Auth/Store/Limit.antt =====
-- The budget of thirty attempts a minute (db/auth.py).
use taoli.Base.{
  ℕ, ◌+◌, ◌≤◌, false, Option, none, some, List, [], ◌∷◌, ◌++◌, if◌then◌else◌, arith, ◌≡◌, refl, All,
  IfSome, leb, length, length-append, keep_if, length-keep_if,
}
use taoli.Models.Identity.{Time}
use taoli.Auth.Totp.{Crypto}
use taoli.Auth.Store.{
  AuthStore, Login, LoginResult, refused, admit, rate_limit, fail_login, succeed, login, is_within,
  new_store,
}
use taoli.Auth.Store.Calls.{
  AuthCall, log_in, read, log_out, kept, apply_auth_call, apply_auth_call-log_in,
  apply_auth_call_rule, succeed_rule, login_rule,
}

-- How many of the attempts lie less than a minute back.
pub count_recent : Time → List Time → ℕ
count_recent now [] = 0
count_recent now (at ∷ ats) = (if is_within now 60 at then 1 else 0) + count_recent now ats

count_recent-append :
    (now : Time) (xs ys : List Time)
    → count_recent now (xs ++ ys) ≡ count_recent now xs + count_recent now ys
unfolding count_recent
count_recent-append now [] ys = omega arith
count_recent-append now (x ∷ xs) ys = omega (arith, count_recent-append now xs ys)

count_recent-le-length : (now : Time) (xs : List Time) → count_recent now xs ≤ length xs
unfolding count_recent
count_recent-le-length now [] = omega arith
count_recent-le-length now (x ∷ xs) = ground (arith, count_recent-le-length now xs)

-- What an earlier attempt deletes is not recent.
count_recent-keep_if :
    (earlier now : Time) (xs : List Time)
    → earlier ≤ now
    → count_recent now (keep_if (is_within earlier 60) xs) ≡ count_recent now xs
unfolding count_recent
count_recent-keep_if earlier now [] h = refl
count_recent-keep_if earlier now (x ∷ xs) h = ground (arith, count_recent-keep_if earlier now xs h)

-- An attempt to log in is not later than `now`.
abbrev pub IsPast : Time → AuthCall → Type 0
IsPast now (log_in q) = q.now ≤ now
IsPast now (read token at written) = Unit
IsPast now (log_out current at all_sessions) = Unit

-- The time of an attempt that is not refused by the budget.
abbrev pub admitted_at : Login → LoginResult → List Time
admitted_at q r = if r.rate_limited then [] else q.now ∷ []

abbrev pub of_login : Login → Option (LoginResult × AuthStore) → List Time
of_login q none = []
of_login q (some (r, t)) = admitted_at q r

module _ (crypto : Crypto) where
  abbrev pub admitted_by : AuthCall → AuthStore → List Time
  admitted_by (log_in q) s = of_login q (login crypto q s)
  admitted_by (read token now written) s = []
  admitted_by (log_out current now all_sessions) s = []

  pub admitted : List AuthCall → AuthStore → List Time
  admitted [] s = []
  admitted (call ∷ calls) s = admitted_by call s ++ admitted calls (apply_auth_call crypto call s)

  module _ (now : Time) where
    abbrev IsCounted : Login → AuthStore → LoginResult × AuthStore → Type 0
    IsCounted q s (r, t) =
        (length t.attempts ≤ 30)
        × (count_recent now t.attempts
            ≡ count_recent now s.attempts + count_recent now (admitted_at q r))

    admit-IsCounted :
        (q : Login) (s : AuthStore) (t : AuthStore) (r : LoginResult)
        → q.now ≤ now
        → leb 30 (length (keep_if (is_within q.now 60) s.attempts)) ≡ false
        → t.attempts ≡ keep_if (is_within q.now 60) s.attempts ++ (q.now ∷ [])
        → r.rate_limited ≡ false
        → IsCounted q s (r, t)
    unfolding count_recent
    admit-IsCounted q s t r past free same admits =
        rw (same, admits)
          (
            ground
                (arith, free, length-append (keep_if (is_within q.now 60) s.attempts) (q.now ∷ [])),
            omega (
              arith,
              count_recent-append now (keep_if (is_within q.now 60) s.attempts) (q.now ∷ []),
              count_recent-keep_if q.now now s.attempts past,
            ),
          )

    succeed-IsCounted :
        (q : Login) (s : AuthStore) (c : ℕ)
        → IsCounted q s (refused, admit q s)
        → IfSome (IsCounted q s) (succeed crypto q c (admit q s))
    succeed-IsCounted q s c h = succeed_rule crypto q c (admit q s) (IsCounted q s) (λ fresh. h)

    login-IsCounted :
        (q : Login) (s : AuthStore)
        → q.now ≤ now
        → length s.attempts ≤ 30
        → IfSome (IsCounted q s) (login crypto q s)
    unfolding admit rate_limit fail_login count_recent
    login-IsCounted q s past short =
        login_rule crypto q s (IsCounted q s)
          (
            omega (arith, length-keep_if (is_within q.now 60) s.attempts),
            omega (arith, count_recent-keep_if q.now now s.attempts past),
          )
          (λ free.
            let both = admit-IsCounted q s (admit q s) refused past free refl refl in
            (both, λ open_to. both, λ counter open_to granted. succeed-IsCounted q s counter both))

    -- The recent attempts in the store are those before the call and the one that it admits.
    abbrev IsCountedBy : AuthStore → List Time → AuthStore → Type 0
    IsCountedBy s ats t =
        (length t.attempts ≤ 30)
        × (count_recent now t.attempts ≡ count_recent now s.attempts + count_recent now ats)

    kept-IsCountedBy :
        (q : Login) (s : AuthStore) (o : Option (LoginResult × AuthStore))
        → length s.attempts ≤ 30
        → IfSome (IsCounted q s) o
        → IsCountedBy s (of_login q o) (kept crypto s o)
    unfolding count_recent
    kept-IsCountedBy q s none short h = (short, omega arith)
    kept-IsCountedBy q s (some (r, t)) short h = h

    apply_auth_call-IsCountedBy :
        (call : AuthCall) (s : AuthStore)
        → IsPast now call
        → length s.attempts ≤ 30
        → IsCountedBy s (admitted_by call s) (apply_auth_call crypto call s)
    unfolding count_recent
    apply_auth_call-IsCountedBy (log_in q) s past short =
        rw (apply_auth_call-log_in crypto q s)
          (kept-IsCountedBy q s (login crypto q s) short (login-IsCounted q s past short))
    apply_auth_call-IsCountedBy (read token at written) s past short =
        apply_auth_call_rule crypto (IsCountedBy s []) (read token at written) s
          (short, omega arith) (λ es. (short, omega arith)) (λ q e. absurd (cc e))
    apply_auth_call-IsCountedBy (log_out current at all_sessions) s past short =
        apply_auth_call_rule crypto (IsCountedBy s []) (log_out current at all_sessions) s
          (short, omega arith) (λ es. (short, omega arith)) (λ q e. absurd (cc e))

    admitted-le :
        (calls : List AuthCall) (s : AuthStore)
        → All (IsPast now) calls
        → length s.attempts ≤ 30
        → count_recent now s.attempts + count_recent now (admitted calls s) ≤ 30
    unfolding admitted count_recent
    admitted-le [] s past short = omega (arith, count_recent-le-length now s.attempts)
    admitted-le (call ∷ calls) s past short =
        let step = apply_auth_call-IsCountedBy call s past.0 short in
        omega (
          arith,
          step,
          admitted-le calls (apply_auth_call crypto call s) past.1 step.0,
          count_recent-append now (admitted_by call s)
              (admitted calls (apply_auth_call crypto call s)),
        )

  -- Of the attempts of any number of calls of a new store, at most thirty are admitted within one minute:
  -- whatever instant is not before any attempt, at most thirty admitted ones lie less than sixty seconds
  -- before it.
  pub admitted_bounds :
      (now : Time) (calls : List AuthCall)
      → All (IsPast now) calls
      → count_recent now (admitted calls new_store) ≤ 30
  unfolding count_recent
  admitted_bounds now calls past = omega (arith, admitted-le now calls new_store past (omega arith))
