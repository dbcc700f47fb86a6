-- ===== src/Models/Identity.antt =====
-- backend/app/models/market_identity.py: exact markets, and the outcome of the check of a pair.
use taoli.Base.{ℕ, suc, ◌+◌, ◌*◌, ltb, String, Bool, Option, List}
use taoli.Base.Number.{ℤ, pos, negsuc}

-- An instant, in microseconds since the epoch, UTC: the resolution of `datetime`.
abbrev pub Time : Type 0
Time = ℕ

abbrev pub second : ℕ
second = 1000000

-- `(now - at).total_seconds() > seconds`.
abbrev pub age_exceeds : Time → Time → ℤ → Bool
age_exceeds now at (pos n) = ltb (at + n * second) now
age_exceeds now at (negsuc n) = ltb at (now + suc n * second)

-- `(now - at).total_seconds() < seconds`, for a count of seconds that is not negative.
abbrev pub age_below : Time → Time → ℕ → Bool
age_below now at n = ltb now (at + n * second)

pub data ComparisonKind : Type 0 where
  same_asset custom_cross_asset : ComparisonKind

pub data IdentityRelation : Type 0 where
  same different unresolved conflict : IdentityRelation

pub data AnomalyStatus : Type 0 where
  normal pending_review passed failed : AnomalyStatus

pub data QuoteStatus : Type 0 where
  executable reference invalid : QuoteStatus

pub data UnitStatus : Type 0 where
  verified unverified : UnitStatus

pub data IssueLeg : Type 0 where
  buy sell pair : IssueLeg

pub record MarketKey : Type 0 where
  pub exchange : String
  pub market_type : String
  pub dex : Option String
  pub raw_symbol : String

pub record ValidationIssue : Type 0 where
  pub code : String
  pub message : String
  pub leg : IssueLeg

pub record PairCapabilities : Type 0 where
  pub raw_market_view : Bool
  pub reference_comparison : Bool
  pub same_asset_opportunity : Bool
  pub strategy_alert : Bool
  pub automatic_card : Bool
  pub manual_card : Bool

pub record PairValidationResult : Type 0 where
  pub registry_revision : ℤ
  pub comparison_kind : ComparisonKind
  pub identity_relation : IdentityRelation
  pub unit_status : UnitStatus
  pub quote_status : QuoteStatus
  pub anomaly_status : AnomalyStatus
  pub buy_market : Option MarketKey
  pub sell_market : Option MarketKey
  pub buy_asset_id : Option String
  pub sell_asset_id : Option String
  pub buy_revision : ℤ
  pub sell_revision : ℤ
  pub buy_spec_fingerprint : Option String
  pub sell_spec_fingerprint : Option String
  pub quote_fingerprint : String
  pub blockers : List ValidationIssue
  pub warnings : List ValidationIssue
  pub capabilities : PairCapabilities
  pub validated_at : Time
  pub expires_at : Time
