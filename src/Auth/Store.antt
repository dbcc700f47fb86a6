-- ===== src/Auth/Store.antt =====
-- backend/app/db/auth.py: sessions, the last counter, failures, locks and attempts. A statement on the
-- database is the change of the list that stands for its table; a transaction that raises changes nothing.
pub mod Calls
pub mod Replay
pub mod Limit
pub mod Lock
pub mod Sessions
pub mod Lasting
pub mod Example
use Prim.Native.Char.{Char, code}
use Prim.Native.String.{◌++◌ as text_append}
use taoli.Base.{
  ℕ, zero, suc, ◌+◌, ◌*◌, String, Bool, true, false, not, ◌&&◌, ◌||◌, Option, none, some, is_some,
  List, [], ◌∷◌, ◌++◌, if◌then◌else◌, ◌==◌, nat_eq, string_eq, ltb, leb, length, keep_if, any, map,
  count, ◌>>=◌,
}
use taoli.Base.Dict
use taoli.Base.Dict.{Dict}
use taoli.Base.Number.{ℤ, pos, negsuc}
use taoli.Models.Identity.{Time, second}
use taoli.Base.Text.{char_count}
use taoli.Auth.Totp.{Crypto, matching_counter}

pub record Session : Type 0 where
  pub id_hash : String
  pub created_at : Time
  pub expires_at : Time
  pub last_seen_at : Time
  pub ip : String
  pub user_agent : String
  pub revoked_at : Option Time

pub record AuthStore : Type 0 where
  pub sessions : List Session
  pub last_counter : ℤ
  pub failures : List (String × Time)
  pub locks : Dict String Time
  pub attempts : List Time
  pub notice : Option Time

-- The tables of AUTH_SCHEMA when they are new.
abbrev pub new_store : AuthStore
new_store = record {
  sessions = [];
  last_counter = negsuc 0;
  failures = [];
  locks = [];
  attempts = [];
  notice = none;
}

-- `AuthStore.open`
pub open_store : AuthStore → AuthStore
open_store s = record s { locks = Dict.pop "global" s.locks }

pub record LoginResult : Type 0 where
  pub token : Option String
  pub ip_locked : Bool
  pub rate_limited : Bool
  pub notify_rate_limit : Bool

abbrev pub refused : LoginResult
refused = record {
  token = none;
  ip_locked = false;
  rate_limited = false;
  notify_rate_limit = false;
}

-- The arguments of `login`, with the token that `secrets.token_hex` returns.
pub record Login : Type 0 where
  pub password_ok : Bool
  pub secret : String
  pub given : String
  pub ip : String
  pub browser : String
  pub now : Time
  pub days : ℕ
  pub token : String

abbrev pub scope_of : String → String
scope_of ip = text_append "ip:" ip

-- An instant that lies less than so many seconds back, or ahead.
abbrev pub is_within : Time → ℕ → Time → Bool
is_within now seconds at = ltb now (at + seconds * second)

-- What every admitted attempt deletes and records.
pub admit : Login → AuthStore → AuthStore
admit q s = record s {
  attempts = keep_if (is_within q.now 60) s.attempts ++ (q.now ∷ []);
  failures = keep_if (λ e. is_within q.now 900 e.1) s.failures;
  locks = keep_if (λ e. ltb q.now e.1) s.locks;
  sessions = keep_if (λ e. ltb q.now e.expires_at && not (is_some e.revoked_at)) s.sessions;
}

pub rate_limit : Login → AuthStore → LoginResult × AuthStore
rate_limit q s =
    let notify : Bool = elim s.notice [ none ↦ true | some at ↦ not (is_within q.now 900 at) ] in
    (
      record refused { rate_limited = true; notify_rate_limit = notify },
      record s {
        attempts = keep_if (is_within q.now 60) s.attempts;
        notice = if notify then some q.now else s.notice;
      },
    )

pub fail_login : Login → AuthStore → LoginResult × AuthStore
fail_login q s =
    let failures = s.failures ++ ((q.ip, q.now) ∷ []) in
    let locked = leb 5 (count q.ip (map (λ e. e.0) failures)) in
    (
      record refused { ip_locked = locked },
      record s {
        failures = failures;
        locks = if locked then Dict.set (scope_of q.ip) (q.now + 900 * second) s.locks else s.locks;
      },
    )

-- A character of "0123456789abcdef".
abbrev is_hex : Char → Bool
is_hex c = leb 48 (code c) && leb (code c) 57 || leb 97 (code c) && leb (code c) 102

pub all_hex : String → Bool
all_hex String.[] = true
all_hex (String.◌∷◌ c s) = is_hex c && all_hex s

-- `SELECT last_seen_at FROM auth_sessions WHERE ...`
pub is_live : String → Time → Session → Bool
is_live hashed now e = e.id_hash == hashed && ltb now e.expires_at && not (is_some e.revoked_at)

pub find_live : String → Time → List Session → Option Session
find_live hashed now [] = none
find_live hashed now (e ∷ es) = if is_live hashed now e then some e else find_live hashed now es

pub see : String → Time → List Session → List Session
see hashed now es = map (λ e. if e.id_hash == hashed then record e { last_seen_at = now } else e) es

pub revoke : String → Time → Bool → AuthStore → AuthStore
revoke current now all_sessions s = record s {
  sessions =
      map
        (λ e.
          if (if all_sessions then not (is_some e.revoked_at) else e.id_hash == current)
          then record e { revoked_at = some now }
          else e)
        s.sessions;
}

module _ (crypto : Crypto) where
  abbrev pub new_session : Login → Session
  new_session q = record {
    id_hash = crypto.sha256 q.token;
    created_at = q.now;
    expires_at = q.now + q.days * 86400 * second;
    last_seen_at = q.now;
    ip = q.ip;
    user_agent = q.browser;
    revoked_at = none;
  }

  abbrev pub issue_session : Login → ℕ → AuthStore → LoginResult × AuthStore
  issue_session q counter s = (
    record refused { token = some q.token },
    record s { last_counter = pos counter; sessions = s.sessions ++ (new_session q ∷ []) },
  )

  -- The insertion of a session raises if its hash is taken.
  pub succeed : Login → ℕ → AuthStore → Option (LoginResult × AuthStore)
  succeed q counter s =
      if any (λ e. e.id_hash == crypto.sha256 q.token) s.sessions
      then none
      else some (issue_session q counter s)

  pub decide : Login → Option ℕ → AuthStore → Option (LoginResult × AuthStore)
  unfolding succeed fail_login
  decide q none s = some (fail_login q s)
  decide q (some counter) s = if q.password_ok then succeed q counter s else some (fail_login q s)

  pub verify : Login → AuthStore → Option (LoginResult × AuthStore)
  unfolding decide
  verify q s = do
    candidate ← matching_counter crypto q.secret q.given q.now s.last_counter
    decide q candidate s

  -- `none` is an exception, after which the transaction is rolled back.
  pub login : Login → AuthStore → Option (LoginResult × AuthStore)
  unfolding verify admit rate_limit
  login q s =
      let admitted = admit q s in
      if leb 30 (length (keep_if (is_within q.now 60) s.attempts))
      then some (rate_limit q s)
      else if is_some (Dict.get (scope_of q.ip) admitted.locks)
      then some (refused, admitted)
      else verify q admitted

  -- `written`: whether the database takes the update, which a lock may prevent.
  pub authenticate : Option String → Time → Bool → AuthStore → Option String × AuthStore
  unfolding all_hex find_live see is_live
  authenticate none now written s = (none, s)
  authenticate (some token) now written s =
      let hashed = crypto.sha256 token in
      let seen : Option String × AuthStore = elim (find_live hashed now s.sessions) [
        | none ↦ (none, s)
        | some e ↦ (
          some hashed,
          if not (is_within now 60 e.last_seen_at) && written
              then record s { sessions = see hashed now s.sessions }
              else s,
        )
      ] in
      if not (char_count token == 64) || not (all_hex token) then (none, s) else seen
