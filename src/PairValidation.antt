-- ===== src/PairValidation.antt =====
-- backend/app/services/pair_validation.py, and MarketKey of models/market_identity.py: what a pair of
-- quotes may be used for. Parameters: `is_finite` is `math.isfinite`, and `fingerprint` the SHA-256 of
-- the quotes' JSON text.
pub mod Pair
use text.Mathlib.Text.{find?}
use Prim.Native.Char.{Char, code}
use Prim.Native.String.{◌++◌ as text_append}
use taoli.Base.{
  ℕ, zero, suc, ◌+◌, ◌*◌, String, Bool, true, false, not, ◌&&◌, ◌||◌, Option, none, some, List, [],
  ◌∷◌, ◌++◌, if◌then◌else◌, ◌==◌, nat_eq, string_eq, any, map, contains, is_empty, is_some, or_else,
  get_or, ltb, leb, min,
}
use taoli.Base.Number.{Float, ◌⊕◌, ◌⊖◌, ◌⊗◌, ◌⊘◌, ◌<?◌, ◌≤?◌, nought, of_nat, abs, max_of, pos}
use taoli.Base.Text.{lower, char_count}
use taoli.Models.Identity.{
  Time, second, age_exceeds, ComparisonKind, same_asset, custom_cross_asset, IdentityRelation, same,
  different, unresolved, conflict, AnomalyStatus, normal, pending_review, passed, QuoteStatus,
  executable, reference, invalid, UnitStatus, verified, unverified, IssueLeg, buy, sell, pair,
  MarketKey, ValidationIssue, PairCapabilities, PairValidationResult,
}
use taoli.Models.Market.{MarketSnapshot, MarketType, market_type_value}

-- `str.strip`, for the white space of ASCII.
abbrev is_space : Char → Bool
is_space c = code c == 32 || leb 9 (code c) && leb (code c) 13

strip_left : String → String
strip_left String.[] = String.[]
strip_left (String.◌∷◌ c s) = let rest = strip_left s in if is_space c then rest else String.◌∷◌ c s

strip_right : String → String
strip_right String.[] = String.[]
strip_right (String.◌∷◌ c s) =
    let rest = strip_right s in if is_space c && rest == "" then "" else String.◌∷◌ c rest

pub strip : String → String
unfolding strip_left strip_right
strip text = strip_right (strip_left text)

-- `text.split(":", 1)[0]`
pub before_colon : String → String
before_colon String.[] = String.[]
before_colon (String.◌∷◌ c s) =
    let rest = before_colon s in if code c == 58 then "" else String.◌∷◌ c rest

-- A text that is there and not empty.
abbrev pub is_given : Option String → Bool
is_given none = false
is_given (some text) = not (text == "")

-- The last checks of `normalize`.
exact_key : String → String → String → Option String → Option MarketKey
exact_key exchange market_type raw_symbol dex =
    if exchange == "" || raw_symbol == ""
    then none
    else some (record {
      exchange = exchange;
      market_type = market_type;
      dex = dex;
      raw_symbol = raw_symbol;
    })

-- The market prefix of a raw symbol on Hyperliquid.
market_prefix : String → String
unfolding before_colon
market_prefix raw_symbol =
    if is_some (find? raw_symbol ":") then lower (before_colon raw_symbol) else "main"

-- A perpetual of Hyperliquid gets the exchange of its prefix; no other market has one.
normalized_key : String → String → String → Option String → Option MarketKey
unfolding exact_key market_prefix
normalized_key exchange market_type raw_symbol dex =
    let prefix = market_prefix raw_symbol in
    let perpetual = exact_key exchange market_type raw_symbol (some prefix) in
    let other = exact_key exchange market_type raw_symbol dex in
    if exchange == "hyperliquid" && market_type == "future"
    then elim dex [ none ↦ perpetual | some given ↦ if prefix == given then perpetual else none ]
    else (if is_given dex then none else other)

-- The bounds of the fields' lengths.
abbrev fits : String → ℕ → Bool
fits text limit = not (text == "") && leb (char_count text) limit

-- `MarketKey.from_snapshot` with the validator `normalize`; `none` is the `ValueError`.
pub market_key : {W : Type 0} → MarketSnapshot W → Option MarketKey
unfolding strip normalized_key char_count
market_key row =
    let dex : Option String = elim row.dex [
      | none ↦ none
      | some text ↦ if text == "" then none else some (lower (strip text))
    ] in
    let key =
      normalized_key (lower (strip row.exchange)) (market_type_value row.market_type)
        (strip row.raw_symbol) dex in
    if fits row.exchange 64 && fits row.raw_symbol 160 then key else none

abbrev pub issue_if : Bool → ValidationIssue → List ValidationIssue → List ValidationIssue
issue_if test issue issues = if test then issues ++ (issue ∷ []) else issues

abbrev pub issue : String → String → IssueLeg → ValidationIssue
issue code message leg = record { code = code; message = message; leg = leg }

abbrev pub ends_after : Time → Option Time → Bool
ends_after now none = false
ends_after now (some until) = ltb now until

module _ {W : Type 0} where
  -- The time of a quote.
  abbrev pub observed_at : MarketSnapshot W → Time
  observed_at row = get_or (or_else row.book_timestamp row.upstream_timestamp) row.timestamp

  -- The identity is known, with evidence that still holds.
  pub identity_verified : Time → MarketSnapshot W → Bool
  identity_verified now row =
      row.identity_status == "verified"
      && is_given row.asset_id
      && ends_after now row.binding_valid_until

  pub is_reference_only : MarketSnapshot W → Bool
  is_reference_only row =
      not (row.quote_kind == "book")
      || any (λ field. contains (lower field) ("bid" ∷ "ask" ∷ [])) row.estimated_fields

  pub is_stale : ℕ → Time → MarketSnapshot W → Bool
  is_stale stale_after_seconds now row =
      age_exceeds now (observed_at row) (pos stale_after_seconds)
      || ltb (now + 5 * second) (observed_at row)

  -- `row.original_quote_currency or row.quote`
  pub quote_currency : MarketSnapshot W → String
  quote_currency row = elim row.original_quote_currency [
    | none ↦ row.quote
    | some currency ↦ if currency == "" then row.quote else currency
  ]

  pub lacks_conversion : Time → MarketSnapshot W → Bool
  unfolding quote_currency
  lacks_conversion now row =
      not (quote_currency row == "USDT")
      && (not (is_given row.quote_conversion_source)
          || not (ends_after now row.quote_conversion_valid_until))

  pub has_local_time : MarketSnapshot W → Bool
  has_local_time row =
      is_some row.book_timestamp && not (row.quote_time_source == "upstream")
      || not (is_some row.book_timestamp) && not (is_some row.upstream_timestamp)

  pub leg_warnings : IssueLeg → MarketSnapshot W → List ValidationIssue
  unfolding has_local_time
  leg_warnings leg row =
      issue_if (not (is_some row.volume_24h_usdt)) (issue "UNKNOWN_VOLUME" "本侧 24h 成交额未知" leg) (
        issue_if (has_local_time row) (issue "LOCAL_RECEIVE_TIME" "来源未提供上游行情时间，时效按本地接收时间计算" leg) [])

  -- The instants that a leg adds to `valid_until`.
  pub leg_valid_until : ℕ → Time → MarketSnapshot W → List Time
  leg_valid_until stale_after_seconds now row =
      (elim row.binding_valid_until [ none ↦ [] | some until ↦ until ∷ [] ])
      ++ ((observed_at row + stale_after_seconds * second)
          ∷ (if quote_currency row == "USDT" || lacks_conversion now row
              then []
              else elim row.quote_conversion_valid_until [ none ↦ [] | some until ↦ until ∷ [] ]))

module _ {W : Type 0} ⦃f : Float W⦄ (is_finite : W → Bool) where
  pub is_invalid_book : MarketSnapshot W → Bool
  is_invalid_book row =
      not (is_finite row.bid)
      || not (is_finite row.ask)
      || row.bid ≤? nought
      || row.ask ≤? nought
      || row.ask <? row.bid

  -- The blockers of one leg, in the code's order.
  pub leg_blockers : ℕ → Time → IssueLeg → MarketSnapshot W → List ValidationIssue
  unfolding is_invalid_book
  leg_blockers stale_after_seconds now leg row =
      let conflicted = row.identity_status == "conflict" in
      let b₁ =
        issue_if (not (is_some (market_key row)))
          (issue "DEX_IDENTITY_CONFLICT" "DEX 与原始市场代码冲突" leg) [] in
      let b₂ = issue_if conflicted (issue "ASSET_IDENTITY_CONFLICT" "资产或合约规格与核验记录冲突" leg) b₁ in
      let b₃ =
        issue_if (not conflicted && not (identity_verified now row))
          (issue "ASSET_IDENTITY_UNVERIFIED" "资产身份待核验或证据已过期" leg) b₂ in
      let b₄ =
        issue_if (not (row.unit_status == "verified")) (issue "UNIT_UNVERIFIED" "价格与合约单位待核验" leg)
          b₃ in
      let b₅ =
        issue_if (is_reference_only row) (issue "REFERENCE_QUOTE_ONLY" "仅有参考价格，缺少真实买卖报价" leg) b₄ in
      let b₆ = issue_if (is_invalid_book row) (issue "INVALID_ORDER_BOOK" "盘口价格无效或倒挂" leg) b₅ in
      let b₇ =
        issue_if (row.contract_kind == "inverse")
          (issue "INCOMPATIBLE_CONTRACT_SPEC" "反向合约的成交与数量换算尚未核验" leg) b₆ in
      let b₈ =
        issue_if (is_stale stale_after_seconds now row) (issue "STALE_LEG_QUOTE" "报价已过期或时间异常" leg)
          b₇ in
      issue_if (lacks_conversion now row)
        (issue "QUOTE_CONVERSION_UNVERIFIED" (text_append (quote_currency row) " 到 USDT 缺少有效换算")
          leg)
        b₈
