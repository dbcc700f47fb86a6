-- ===== src/Sessions/Previous.antt =====
-- The last trading day before a date (market_sessions.py).
use mathlib.Core.Path.{subst}
use taoli.Base.{
  ℕ, zero, suc, ◌≤◌, ◌<◌, ◌≡◌, ◌↔◌, refl, true, false, Option, none, some, is_some, List, arith,
  inl, inr, Bool-cases, ◌==◌, nat_eq, IfSome, ==_iff, sym, ap,
}
use taoli.Sessions.{is_closed, trading_day_until, previous_trading_day}

-- The last day before one on which the exchange is open.
abbrev pub IsLastOpen : List ℕ → ℕ → ℕ → Type 0
IsLastOpen holidays day d =
    (d < day)
    × (is_closed holidays d ≡ false)
    × ((e : ℕ) → d < e → e < day → is_closed holidays e ≡ true)

module _ (holidays : List ℕ) where
  trading_day_until-IsLastOpen :
      (n : ℕ) → IfSome (IsLastOpen holidays (suc n)) (trading_day_until holidays n)
  unfolding trading_day_until
  trading_day_until-IsLastOpen zero = tt
  trading_day_until-IsLastOpen (suc n) = elim (Bool-cases (is_closed holidays (suc n))) [
    | inl closed ↦
        rw closed (extend (trading_day_until holidays n) (trading_day_until-IsLastOpen n) closed)
    | inr open_day ↦ rw open_day (omega arith, open_day, λ e h k. absurd (omega (arith, h, k)))
  ]
    where
      extend :
          (o : Option ℕ)
          → IfSome (IsLastOpen holidays (suc n)) o
          → is_closed holidays (suc n) ≡ true
          → IfSome (IsLastOpen holidays (suc (suc n))) o
      extend none h closed = tt
      extend (some d) (lt, is_open, between) closed = (
        omega (arith, lt),
        is_open,
        λ e h k. elim (Bool-cases (e == suc n)) [
          | inl same ↦
              subst (λ x. is_closed holidays x ≡ true) (sym ((==_iff e (suc n)).0 same)) closed
          | inr other ↦ between e h (ground (arith, other, k))
        ],
      )

  trading_day_until-is_some :
      (n d : ℕ)
      → 1 ≤ d
      → d ≤ n
      → is_closed holidays d ≡ false
      → is_some (trading_day_until holidays n) ≡ true
  unfolding trading_day_until
  trading_day_until-is_some zero d h k o = absurd (omega (arith, h, k))
  trading_day_until-is_some (suc n) d h k o = elim (Bool-cases (is_closed holidays (suc n))) [
    | inl closed ↦ rw closed (trading_day_until-is_some n d h (before closed) o)
    | inr open_day ↦ rw open_day refl
  ]
    where
      before : is_closed holidays (suc n) ≡ true → d ≤ n
      before closed = elim (Bool-cases (d == suc n)) [
        | inl same ↦
            absurd (ground (arith, closed, ap (is_closed holidays) ((==_iff d (suc n)).0 same), o))
        | inr other ↦ ground (arith, other, k)
      ]

  last_open_unique : (day a b : ℕ) → IsLastOpen holidays day a → IsLastOpen holidays day b → a ≡ b
  last_open_unique day a b h k = ground (arith, h.0, k.0, h.1, k.1, h.2 b, k.2 a)

  pub previous_trading_day-IsLastOpen :
      (day e : ℕ)
      → 1 ≤ e
      → e < day
      → is_closed holidays e ≡ false
      → (p : ℕ) × (previous_trading_day day holidays ≡ some p)
        × ((x : ℕ) → (x ≡ p) ↔ IsLastOpen holidays day x)
  unfolding previous_trading_day
  previous_trading_day-IsLastOpen zero e one lt open_day = absurd (omega (arith, lt))
  previous_trading_day-IsLastOpen (suc n) e one lt open_day =
      of_result (trading_day_until holidays n) refl
    where
      of_result :
          (o : Option ℕ)
          → trading_day_until holidays n ≡ o
          → (p : ℕ) × (trading_day_until holidays n ≡ some p)
            × ((x : ℕ) → (x ≡ p) ↔ IsLastOpen holidays (suc n) x)
      of_result none eq =
          absurd
            (ground (arith, eq, trading_day_until-is_some n e one (omega (arith, lt)) open_day))
      of_result (some p) eq =
          let last =
            subst (IfSome (IsLastOpen holidays (suc n))) eq (trading_day_until-IsLastOpen n) in
          (
            p,
            eq,
            λ x. (
              λ same. subst (IsLastOpen holidays (suc n)) (sym same) last,
              λ h. last_open_unique (suc n) x p h last,
            ),
          )
