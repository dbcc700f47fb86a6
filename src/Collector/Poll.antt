-- ===== src/Collector/Poll.antt =====
-- How the errors of a poll are classified, and when a poll is repeated (collector.py). The two
-- fetches of the adapter are parameters.
use text.Mathlib.Text.{find?}
use taoli.Base.{
  String, Bool, true, not, ◌&&◌, ◌||◌, none, some, List, [], ◌∷◌, if◌then◌else◌, is_some, any,
  is_empty, ◌≡◌, arith,
}
use taoli.Base.Dict.{Dict}
use taoli.Base.Text.{lower}
use taoli.Collector.{AdapterPollResult, legal_restriction_cooldown_seconds}

-- `token in text`
abbrev pub has_text : String → String → Bool
has_text token text = is_some (find? text token)

pub is_transient_http_timeout : String → Bool
is_transient_http_timeout message =
    any (λ token. has_text token (lower message))
      ("pooltimeout" ∷ "pool timeout" ∷ "connecttimeout" ∷ "connect timeout" ∷ "readtimeout"
        ∷ "read timeout" ∷ "writetimeout" ∷ "write timeout" ∷ [])

pub is_http_legal_restriction : String → Bool
is_http_legal_restriction message =
    let normalized = lower message in
    has_text "451" normalized
    && (has_text "client error" normalized
        || has_text "httpstatuserror" normalized
        || has_text "status" normalized)

-- `any(test(message) for message in errors.values())`
abbrev pub any_message : (String → Bool) → Dict String String → Bool
any_message test errors = any (λ error. test error.1) errors

pub has_pool_error : Dict String String → Bool
has_pool_error errors =
    any_message (λ message. has_text "pool" (lower message) && is_transient_http_timeout message)
      errors

pub has_http_timeout : Dict String String → Bool
has_http_timeout errors = any_message is_transient_http_timeout errors

pub has_http_legal_restriction : Dict String String → Bool
has_http_legal_restriction errors = any_message is_http_legal_restriction errors

-- `_poll_adapter`: after an error of the connection pool the client is reset and fetches once more.
pub poll_adapter :
    {M : Type 0} → List M × Dict String String → List M × Dict String String → AdapterPollResult M
poll_adapter first second_fetch =
    let pool_error_seen = has_pool_error first.1 in
    let (markets, errors) = if pool_error_seen then second_fetch else first in
    record {
      markets = markets;
      errors = errors;
      should_cool_down =
          not (is_empty errors) && (pool_error_seen || has_http_timeout errors || is_empty markets);
      cooldown_seconds =
          if has_http_legal_restriction errors
          then some legal_restriction_cooldown_seconds
          else none;
    }

pool_implies_timeout :
    (errors : Dict String String) → has_pool_error errors ≡ true → has_http_timeout errors ≡ true
unfolding has_pool_error has_http_timeout
pool_implies_timeout [] h = h
pool_implies_timeout (error ∷ errors) h = ground (arith, h, pool_implies_timeout errors)
