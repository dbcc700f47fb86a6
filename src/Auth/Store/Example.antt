-- ===== src/Auth/Store/Example.antt =====
-- A log-in at the third code, and what follows it (db/auth.py).
use taoli.Base.{
  ℕ, ◌+◌, ◌*◌, ◌<◌, ◌≤◌, ◌/◌, String, true, false, none, some, is_some, List, [], ◌∷◌, ◌++◌, ◌≡◌,
  refl, arith, string_eq,
}
use taoli.Base.Dict
use taoli.Base.Number.{pos}
use taoli.Base.Text.{char_count}
use taoli.Models.Identity.{second}
use taoli.Auth.Totp.{totp_at}
use taoli.Auth.Totp.Example.{counting, third_matches, fourth_matches}
use taoli.Auth.Store.{
  AuthStore, Login, refused, new_store, new_session, login, admit, verify, decide, succeed,
  fail_login, revoke, authenticate, all_hex,
}
use taoli.Auth.Store.Calls.{AuthCall, log_in, log_out, apply_auth_calls, apply_auth_call}
use taoli.Auth.Store.Replay.{no_replay}
use taoli.Auth.Store.Limit.{admitted, count_recent, admitted_bounds}
use taoli.Auth.Store.Lock.{lock_holds}
use taoli.Auth.Store.Sessions.{logout_is_final}
use taoli.Auth.Store.Lasting.{token_lasts}

abbrev token : String
token = "0123456789abcdef0123456789abcdef0123456789abcdef0123456789abcdef"

abbrev pub request : Login
request = record {
  password_ok = true;
  secret = "ORSXG5A";
  given = "000003";
  ip = "10.0.0.1";
  browser = "Firefox / Linux";
  now = 90 * second;
  days = 30;
  token = token;
}

abbrev pub after_login : AuthStore
after_login = record new_store {
  sessions = new_session counting request ∷ [];
  last_counter = pos 3;
  attempts = (90 * second) ∷ [];
}

pub login_succeeds :
    login counting request new_store ≡ some (record refused { token = some token }, after_login)
unfolding login admit verify decide succeed Dict.get
login_succeeds = rw (third_matches) refl

abbrev other_logout : List AuthCall
other_logout = log_out "another" (100 * second) false ∷ []

abbrev second_request : Login
second_request = record request { given = "000004"; now = 120 * second; token = "" }

abbrev after_second : AuthStore
after_second = record new_store {
  sessions = new_session counting request ∷ new_session counting second_request ∷ [];
  last_counter = pos 4;
  attempts = (90 * second) ∷ (120 * second) ∷ [];
}

second_succeeds :
    login counting second_request (apply_auth_calls counting other_logout after_login)
    ≡ some (record refused { token = some "" }, after_second)
unfolding login admit verify decide succeed Dict.get apply_auth_calls apply_auth_call revoke
second_succeeds = rw (fourth_matches) refl

no_replay_example :
    (c c' : ℕ) × (request.password_ok ≡ true)
    × (totp_at counting "ORSXG5A" c ≡ some "000003")
    × (c ≤ 90 * second / (30 * second) + 1)
    × (90 * second / (30 * second) ≤ c + 1)
    × (totp_at counting "ORSXG5A" c' ≡ some "000004")
    × (c < c')
no_replay_example =
    no_replay counting request second_request new_store after_login after_second
      (record refused { token = some token }) (record refused { token = some "" }) other_logout
      login_succeeds refl second_succeeds refl

admitted_bounds_example :
    count_recent (120 * second) (admitted counting (log_in request ∷ other_logout) new_store) ≤ 30
admitted_bounds_example =
    admitted_bounds counting (120 * second) (log_in request ∷ other_logout) (omega arith, (tt, tt))

-- Four failures of the address, and a fifth.
abbrev four_failures : AuthStore
four_failures = record new_store {
  failures =
      ("10.0.0.1", 80 * second)
      ∷ ("10.0.0.1", 81 * second)
      ∷ ("10.0.0.1", 82 * second)
      ∷ ("10.0.0.1", 83 * second)
      ∷ [];
}

abbrev wrong_password : Login
wrong_password = record request { password_ok = false }

abbrev after_fifth : AuthStore
after_fifth = record new_store {
  failures = four_failures.failures ++ (("10.0.0.1", 90 * second) ∷ []);
  locks = ("ip:10.0.0.1", 990 * second) ∷ [];
  attempts = (90 * second) ∷ [];
}

fifth_locks :
    login counting wrong_password four_failures
    ≡ some (record refused { ip_locked = true }, after_fifth)
unfolding login admit verify decide fail_login Dict.get Dict.set
fifth_locks = rw (third_matches) refl

abbrev after_refusal : AuthStore
after_refusal = record after_fifth { attempts = (90 * second) ∷ (120 * second) ∷ [] }

right_but_locked :
    login counting second_request (apply_auth_calls counting other_logout after_fifth)
    ≡ some (refused, after_refusal)
unfolding login admit Dict.get apply_auth_calls apply_auth_call revoke
right_but_locked = refl

lock_holds_example : refused.token ≡ none
lock_holds_example =
    lock_holds counting wrong_password second_request four_failures after_fifth after_refusal
      (record refused { ip_locked = true }) refused other_logout fifth_locks refl (tt, tt) refl
      (omega arith) right_but_locked

logout_is_final_example :
    is_some
      (authenticate counting
        (some token)
        (110 * second)
        true
        (apply_auth_calls counting other_logout (revoke token (95 * second) false after_login))).0
    ≡ false
logout_is_final_example =
    logout_is_final counting token token (95 * second) (110 * second) false true after_login
      other_logout refl (tt, tt)

token_lasts_example :
    is_some
      (authenticate counting
        (some token)
        (86400 * second)
        true
        (apply_auth_calls counting other_logout after_login)).0
    ≡ true
unfolding all_hex char_count
token_lasts_example =
    token_lasts counting request new_store after_login (record refused { token = some token })
      other_logout (86400 * second) true login_succeeds refl refl ((refl, refl), tt) (omega arith)
