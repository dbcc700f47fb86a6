-- ===== src/Filters/Included.antt =====
-- What passes the filters of data_filters.py.
use taoli.Base.{
  Bool, true, false, Option, none, some, List, [], ◌∷◌, All, ◌≡◌, refl, if◌then◌else◌, IfSome,
  ◌>>=◌, All-keep_if,
}
use taoli.Models.Identity.{Time}
use taoli.Models.Market.{MarketSnapshot, Opportunity}
use taoli.Models.Settings.{RiskSettings}
use taoli.Sessions.{Zone}
use taoli.Filters.{
  filter_opportunities, opportunity_is_included, market_is_included, filter_markets,
}

module _ {W : Type 0} (zone : Zone) (settings : RiskSettings W) (now : Time)
    (P : Opportunity W → Type 0) where
  abbrev pub IsIncluded : Opportunity W → Type 0
  IsIncluded o = P o × (opportunity_is_included zone settings now o ≡ some true)

  filter_one-IsIncluded :
      (o : Opportunity W) (included : Option Bool) (rest : Option (List (Opportunity W)))
      → opportunity_is_included zone settings now o ≡ included
      → P o
      → IfSome (All IsIncluded) rest
      → IfSome (All IsIncluded) (do b ← included; os ← rest; some (if b then o ∷ os else os))
  filter_one-IsIncluded o none rest e p h = tt
  filter_one-IsIncluded o (some b) none e p h = tt
  filter_one-IsIncluded o (some true) (some os) e p h = ((p, e), h)
  filter_one-IsIncluded o (some false) (some os) e p h = h

  -- What was true of the opportunities is true of those that pass, which are included.
  pub filter_opportunities-IsIncluded :
      (os : List (Opportunity W))
      → All P os
      → IfSome (All IsIncluded) (filter_opportunities zone settings now os)
  unfolding filter_opportunities
  filter_opportunities-IsIncluded [] h = tt
  filter_opportunities-IsIncluded (o ∷ os) h =
      filter_one-IsIncluded o (opportunity_is_included zone settings now o)
        (filter_opportunities zone settings now os) refl h.0
        (filter_opportunities-IsIncluded os h.1)

All-true :
    {A : Type 0} (test : A → Bool) (xs : List A) → All (λ x. test x ≡ true → test x ≡ true) xs
All-true test [] = tt
All-true test (x ∷ xs) = (λ h. h, All-true test xs)

pub filter_markets-is_included :
    {W : Type 0} (settings : RiskSettings W) (markets : List (MarketSnapshot W))
    → All (λ m. market_is_included settings m ≡ true) (filter_markets markets settings)
unfolding filter_markets
filter_markets-is_included settings markets =
    All-keep_if (λ m. market_is_included settings m ≡ true) (market_is_included settings) markets
      (All-true (market_is_included settings) markets)
