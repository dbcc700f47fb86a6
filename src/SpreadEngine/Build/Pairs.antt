-- ===== src/SpreadEngine/Build/Pairs.antt =====
-- The pairs of a group in spread_engine.py and the market types of their legs.
use taoli.Base.{
  Bool, true, false, ◌&&◌, List, [], ◌∷◌, if◌then◌else◌, ◌==◌, pair_eq, map, ◌≡◌, refl, All,
  All-append, All-imp, All-keep_if,
}
use taoli.Models.Market.{
  MarketSnapshot, MarketType, spot, future, market_type_eq, OpportunityType, sf, ff, ss,
  opportunity_type_eq,
}
use taoli.SpreadEngine.Build.{pairs_of, product, combinations, of_type}

-- The market types that a kind of opportunity is between.
abbrev pub types_fit : OpportunityType → MarketType → MarketType → Bool
types_fit sf buy_type sell_type = buy_type == spot && sell_type == future
types_fit ff buy_type sell_type = buy_type == future && sell_type == future
types_fit ss buy_type sell_type = buy_type == spot && sell_type == spot

pub All-if {ℓ κ} :
    {A : Type ℓ} (P : A → Type κ) (b : Bool) (xs ys : List A)
    → (b ≡ true → All P xs)
    → (b ≡ false → All P ys)
    → All P (if b then xs else ys)
All-if P true xs ys h k = h refl
All-if P false xs ys h k = k refl

pub All-map {ℓ κ ι} :
    {A : Type ℓ} {B : Type κ} (P : B → Type ι) (f : A → B) (xs : List A)
    → All (λ a. P (f a)) xs
    → All P (map f xs)
All-map P f [] h = tt
All-map P f (x ∷ xs) h = (h.0, All-map P f xs h.1)

module _ {W : Type 0} where
  -- A pair that may be traded as it stands.
  abbrev pub IsAllowed : OpportunityType → MarketSnapshot W × MarketSnapshot W → Type 0
  IsAllowed mode p = types_fit mode p.0.market_type p.1.market_type ≡ true

  abbrev IsOf : MarketType → MarketSnapshot W → Type 0
  IsOf t leg = (leg.market_type == t) ≡ true

  All-IsOf : (t : MarketType) (legs : List (MarketSnapshot W)) → All (IsOf t) (of_type t legs)
  All-IsOf t legs = All-keep_if (IsOf t) (λ leg. leg.market_type == t) legs (always legs)
    where
      always :
          (xs : List (MarketSnapshot W))
          → All (λ leg. (leg.market_type == t) ≡ true → IsOf t leg) xs
      always [] = tt
      always (x ∷ xs) = (λ h. h, always xs)

  product-All :
      (P Q : MarketSnapshot W → Type 0) (xs ys : List (MarketSnapshot W))
      → All P xs
      → All Q ys
      → All (λ p. P p.0 × Q p.1) (product xs ys)
  unfolding product
  product-All P Q [] ys h k = tt
  product-All P Q (x ∷ xs) ys h k =
      All-append (λ p. P p.0 × Q p.1) (map (λ y. (x, y)) ys) (product xs ys)
        (All-map (λ p. P p.0 × Q p.1) (λ y. (x, y)) ys
          (All-imp Q (λ y. P x × Q y) ys (λ y q. (h.0, q)) k))
        (product-All P Q xs ys h.1 k)

  combinations-All :
      (P : MarketSnapshot W → Type 0) (xs : List (MarketSnapshot W))
      → All P xs
      → All (λ p. P p.0 × P p.1) (combinations xs)
  unfolding combinations
  combinations-All P [] h = tt
  combinations-All P (x ∷ xs) h =
      All-append (λ p. P p.0 × P p.1) (map (λ y. (x, y)) xs) (combinations xs)
        (All-map (λ p. P p.0 × P p.1) (λ y. (x, y)) xs
          (All-imp P (λ y. P x × P y) xs (λ y q. (h.0, q)) h.1))
        (combinations-All P xs h.1)

  pub pairs_of-IsAllowed :
      (mode : OpportunityType) (legs : List (MarketSnapshot W))
      → All (IsAllowed mode) (pairs_of mode legs)
  unfolding pairs_of
  pairs_of-IsAllowed sf legs =
      All-imp (λ p. IsOf spot p.0 × IsOf future p.1) (IsAllowed sf) (pairs_of sf legs)
        (λ p h. rw (h.0, h.1) refl)
        (product-All (IsOf spot) (IsOf future) (of_type spot legs) (of_type future legs)
          (All-IsOf spot legs) (All-IsOf future legs))
  pairs_of-IsAllowed ff legs =
      All-imp (λ p. IsOf future p.0 × IsOf future p.1) (IsAllowed ff) (pairs_of ff legs)
        (λ p h. rw (h.0, h.1) refl)
        (combinations-All (IsOf future) (of_type future legs) (All-IsOf future legs))
  pairs_of-IsAllowed ss legs =
      All-imp (λ p. IsOf spot p.0 × IsOf spot p.1) (IsAllowed ss) (pairs_of ss legs)
        (λ p h. rw (h.0, h.1) refl)
        (combinations-All (IsOf spot) (of_type spot legs) (All-IsOf spot legs))
