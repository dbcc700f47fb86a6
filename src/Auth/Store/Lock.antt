-- ===== src/Auth/Store/Lock.antt =====
-- The lock of an address after five failures (db/auth.py).
use mathlib.Core.Path.{subst}
use taoli.Base.{
  ◌+◌, ◌*◌, ◌<◌, String, Bool, true, false, Option, none, some, is_some, List, [], ◌∷◌,
  if◌then◌else◌, ◌==◌, string_eq, ==_iff, ==_self, arith, ◌≡◌, refl, ap, All, IfSome, Bool-cases,
  inl, inr, ltb, leb, count, map, ◌++◌,
}
use taoli.Base.Dict
use taoli.Models.Identity.{Time, second}
use taoli.Auth.Totp.{Crypto}
use taoli.Auth.Store.{AuthStore, Login, LoginResult, admit, rate_limit, fail_login, login, scope_of}
use taoli.Auth.Store.Calls.{
  AuthCall, log_in, read, log_out, apply_auth_call, apply_auth_calls, apply_auth_calls_inv,
  apply_auth_call_rule, succeed_rule, login_rule,
}

-- The address is locked up to an instant.
abbrev IsLockedUntil : Time → String → AuthStore → Type 0
IsLockedUntil until ip s = Dict.get (scope_of ip) s.locks ≡ some until

-- An attempt to log in comes before the end of the lock.
abbrev pub IsBefore : Time → AuthCall → Type 0
IsBefore until (log_in q) = q.now < until
IsBefore until (read token now written) = Unit
IsBefore until (log_out current now all_sessions) = Unit

module _ (crypto : Crypto) where
  fail_login-IsLockedUntil :
      (q : Login) (s : AuthStore)
      → (fail_login q s).0.ip_locked ≡ true
      → IsLockedUntil (q.now + 900 * second) q.ip (fail_login q s).1
  unfolding fail_login
  fail_login-IsLockedUntil q s h =
      rw
        (
          h,
          Dict.get-set (scope_of q.ip) (scope_of q.ip) (q.now + 900 * second) s.locks,
          ==_self (scope_of q.ip),
        )
        refl

  login-IsLockedUntil :
      (q : Login) (s : AuthStore)
      → IfSome
          (λ x. x.0.ip_locked ≡ true → IsLockedUntil (q.now + 900 * second) q.ip x.1)
          (login crypto q s)
  unfolding rate_limit
  login-IsLockedUntil q s =
      login_rule crypto q s
        (λ x. x.0.ip_locked ≡ true → IsLockedUntil (q.now + 900 * second) q.ip x.1) (λ h. cc)
        (λ free. (
          λ h. cc,
          λ open_to. fail_login-IsLockedUntil q (admit q s),
          λ counter open_to granted.
              succeed_rule crypto q counter (admit q s)
                (λ x. x.0.ip_locked ≡ true → IsLockedUntil (q.now + 900 * second) q.ip x.1)
                (λ fresh h. cc),
        ))

  -- A write under a key that is free does not touch another key.
  set-get :
      (b : Bool) (k j : String) (v u : Time) (d : Dict.Dict String Time)
      → is_some (Dict.get j d) ≡ false
      → Dict.get k d ≡ some u
      → Dict.get k (if b then Dict.set j v d else d) ≡ some u
  set-get false k j v u d free h = h
  set-get true k j v u d free h = elim (Bool-cases (j == k)) [
    | inl same ↦ absurd (cc (free, h, ap (λ i. is_some (Dict.get i d)) ((==_iff j k).0 same)))
    | inr other ↦ rw (Dict.get-set j k v d, other) h
  ]

  module _ (until : Time) (ip : String) where
    admit-IsLockedUntil :
        (q : Login) (s : AuthStore)
        → q.now < until
        → IsLockedUntil until ip s
        → IsLockedUntil until ip (admit q s)
    unfolding admit
    admit-IsLockedUntil q s soon h =
        Dict.get-keep_if (λ e. ltb q.now e.1) (scope_of ip) until s.locks h (ground (arith, soon))

    -- An address with another lock, or none, does not touch this one.
    fail_login-keeps :
        (q : Login) (s : AuthStore)
        → is_some (Dict.get (scope_of q.ip) s.locks) ≡ false
        → IsLockedUntil until ip s
        → IsLockedUntil until ip (fail_login q s).1
    unfolding fail_login
    fail_login-keeps q s open_to h =
        set-get (leb 5 (count q.ip (map (λ e. e.0) (s.failures ++ ((q.ip, q.now) ∷ [])))))
          (scope_of ip) (scope_of q.ip) (q.now + 900 * second) until s.locks open_to h

    -- A login before the end of the lock keeps it, and yields no token to the address.
    abbrev IsKept : Login → LoginResult × AuthStore → Type 0
    IsKept q x = IsLockedUntil until ip x.1 × (q.ip ≡ ip → x.0.token ≡ none)

    login-IsKept :
        (q : Login) (s : AuthStore)
        → q.now < until
        → IsLockedUntil until ip s
        → IfSome (IsKept q) (login crypto q s)
    unfolding rate_limit fail_login
    login-IsKept q s soon h =
        let held = admit-IsLockedUntil q s soon h in
        login_rule crypto q s (IsKept q) (h, λ same. refl)
          (λ free. (
            (held, λ same. refl),
            λ open_to. (fail_login-keeps q (admit q s) open_to held, λ same. refl),
            λ counter open_to granted.
                succeed_rule crypto q counter (admit q s) (IsKept q)
                  (λ fresh. (held, λ same. absurd (still_locked q (admit q s) same held open_to))),
          ))
      where
        still_locked :
            (q : Login) (t : AuthStore)
            → q.ip ≡ ip
            → IsLockedUntil until ip t
            → is_some (Dict.get (scope_of q.ip) t.locks) ≡ false
            → ⊥
        still_locked q t same k open_to =
            cc (k, open_to, ap (λ i. is_some (Dict.get (scope_of i) t.locks)) same)

    apply_auth_call-IsLockedUntil :
        (call : AuthCall) (s : AuthStore)
        → IsBefore until call
        → IsLockedUntil until ip s
        → IsLockedUntil until ip (apply_auth_call crypto call s)
    apply_auth_call-IsLockedUntil call s soon h =
        apply_auth_call_rule crypto (IsLockedUntil until ip) call s h (λ es. h)
          (λ q e.
            first_of_both q (login crypto q s) (login-IsKept q s (subst (IsBefore until) e soon) h))
      where
        first_of_both :
            (q : Login) (o : Option (LoginResult × AuthStore))
            → IfSome (IsKept q) o
            → IfSome (λ x. IsLockedUntil until ip x.1) o
        first_of_both q none k = tt
        first_of_both q (some x) k = k.0

  -- A login that locks its address is followed by
  -- fifteen minutes in which no login from the address yields a token, whatever calls lie in between,
  -- the right password and a right code included.
  pub lock_holds :
      (q q' : Login) (s t v : AuthStore) (r r' : LoginResult) (calls : List AuthCall)
      → login crypto q s ≡ some (r, t)
      → r.ip_locked ≡ true
      → All (IsBefore (q.now + 900 * second)) calls
      → q'.ip ≡ q.ip
      → q'.now < q.now + 900 * second
      → login crypto q' (apply_auth_calls crypto calls t) ≡ some (r', v)
      → r'.token ≡ none
  lock_holds q q' s t v r r' calls h locked before same soon h' =
      let until = q.now + 900 * second in
      let at_first =
        subst (IfSome (λ x. x.0.ip_locked ≡ true → IsLockedUntil until q.ip x.1)) h
          (login-IsLockedUntil q s) locked in
      let at_last =
        apply_auth_calls_inv crypto (IsBefore until) (IsLockedUntil until q.ip)
          (apply_auth_call-IsLockedUntil until q.ip) calls t before at_first in
      (subst (IfSome (IsKept until q.ip q')) h'
          (login-IsKept until q.ip q' (apply_auth_calls crypto calls t) soon at_last)).1
        same
