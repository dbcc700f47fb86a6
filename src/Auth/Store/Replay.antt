-- ===== src/Auth/Store/Replay.antt =====
-- One-time codes are used once (db/auth.py).
use mathlib.Core.Path.{subst}
use taoli.Base.{
  ℕ, ◌+◌, ◌≤◌, ◌<◌, ◌/◌, ◌*◌, true, Option, none, some, is_some, List, [], ◌∷◌, string_eq, arith,
  ◌≡◌, refl, All, IfSome,
}
use taoli.Base.Number.{ℤ, pos, negsuc}
use taoli.Models.Identity.{second}
use taoli.Auth.Totp.{Crypto, exceeds, totp_at}
use taoli.Auth.Store.{AuthStore, Login, LoginResult, admit, rate_limit, fail_login, succeed, login}
use taoli.Auth.Store.Calls.{
  AuthCall, apply_auth_call, apply_auth_calls, apply_auth_calls_inv, apply_auth_call_rule,
  succeed_rule, login_rule, IsGranted,
}

-- A counter that may still be used in the later store could be used in the earlier one.
abbrev IsLater : AuthStore → AuthStore → Type 0
IsLater s t = (c : ℕ) → exceeds c t.last_counter ≡ true → exceeds c s.last_counter ≡ true

module _ (crypto : Crypto) where
  abbrev IsConsumed : Login → AuthStore → LoginResult × AuthStore → Type 0
  IsConsumed q s x =
      IsLater s x.1
      × (is_some x.0.token ≡ true → (c : ℕ) × IsGranted crypto q s c × (x.1.last_counter ≡ pos c))

  succeed-IsConsumed :
      (q : Login) (s : AuthStore) (c : ℕ)
      → IsGranted crypto q s c
      → IfSome (IsConsumed q s) (succeed crypto q c s)
  succeed-IsConsumed q s c granted = succeed_rule crypto q c s (IsConsumed q s) (λ fresh.
      (λ d h. exceeds-trans s.last_counter c d granted.0.1 h, λ token. (c, granted, refl)))
    where
      exceeds-trans :
          (last : ℤ) (c d : ℕ)
          → exceeds c last ≡ true
          → exceeds d (pos c) ≡ true
          → exceeds d last ≡ true
      exceeds-trans (pos n) c d h k = ground arith
      exceeds-trans (negsuc n) c d h k = refl

  login-IsConsumed : (q : Login) (s : AuthStore) → IfSome (IsConsumed q s) (login crypto q s)
  unfolding admit rate_limit fail_login
  login-IsConsumed q s =
      login_rule crypto q s (IsConsumed q s) (λ c h. h, λ token. cc)
        (λ free. (
          (λ c h. h, λ token. cc),
          λ open_to. (λ c h. h, λ token. cc),
          λ counter open_to granted. succeed-IsConsumed q (admit q s) counter granted,
        ))

  apply_auth_call-IsLater :
      (s : AuthStore) (call : AuthCall) (t : AuthStore)
      → IsLater s t
      → IsLater s (apply_auth_call crypto call t)
  apply_auth_call-IsLater s call t h =
      apply_auth_call_rule crypto (IsLater s) call t h (λ es. h)
        (λ q e. imp q (login crypto q t) (login-IsConsumed q t))
    where
      imp :
          (q : Login) (o : Option (LoginResult × AuthStore))
          → IfSome (IsConsumed q t) o
          → IfSome (λ x. IsLater s x.1) o
      imp q none k = tt
      imp q (some x) k = λ c later. h c (k.0 c later)

  apply_auth_calls-IsLater :
      (calls : List AuthCall) (s : AuthStore) → IsLater s (apply_auth_calls crypto calls s)
  apply_auth_calls-IsLater calls s =
      apply_auth_calls_inv crypto (λ call. Unit {0}) (IsLater s)
        (λ call t allowed h. apply_auth_call-IsLater s call t h) calls s (all_allowed calls)
        (λ c h. h)
    where
      all_allowed : (calls : List AuthCall) → All (λ call. Unit {0}) calls
      all_allowed [] = tt
      all_allowed (call ∷ calls) = (tt, all_allowed calls)

  pub login-IsGranted :
      (q : Login) (s t : AuthStore) (r : LoginResult)
      → login crypto q s ≡ some (r, t)
      → is_some r.token ≡ true
      → (c : ℕ) × IsGranted crypto q s c × (t.last_counter ≡ pos c)
  login-IsGranted q s t r h token =
      (subst (IfSome (IsConsumed q s)) h (login-IsConsumed q s)).1 token

  -- A login that yields a token had the right password and the code of a counter at most one step of
  -- thirty seconds away from its time. A later login that yields a token, whatever calls lie between the
  -- two, had the code of a greater counter, so that no code is accepted twice.
  pub no_replay :
      (first second_login : Login) (s t v : AuthStore) (r r' : LoginResult) (calls : List AuthCall)
      → login crypto first s ≡ some (r, t)
      → is_some r.token ≡ true
      → login crypto second_login (apply_auth_calls crypto calls t) ≡ some (r', v)
      → is_some r'.token ≡ true
      → (c c' : ℕ) × (first.password_ok ≡ true)
        × (totp_at crypto first.secret c ≡ some first.given)
        × (c ≤ first.now / (30 * second) + 1)
        × (first.now / (30 * second) ≤ c + 1)
        × (totp_at crypto second_login.secret c' ≡ some second_login.given)
        × (c < c')
  no_replay first second_login s t v r r' calls h token h' token' =
      let (c, granted, last) = login-IsGranted first s t r h token in
      let (c', granted', last') =
        login-IsGranted second_login (apply_auth_calls crypto calls t) v r' h' token' in
      let later = apply_auth_calls-IsLater calls t c' granted'.0.1 in
      (
        c,
        c',
        granted.2,
        granted.0.0,
        granted.1.0,
        granted.1.1,
        granted'.0.0,
        ground (arith, later, last),
      )
