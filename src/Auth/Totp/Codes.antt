-- ===== src/Auth/Totp/Codes.antt =====
-- Which counter `matching_counter` of core/totp.py returns.
use taoli.Base.{
  ℕ, zero, suc, ◌+◌, ◌≤◌, ◌/◌, ◌*◌, String, true, ◌&&◌, Option, none, some, List, [], ◌∷◌,
  if◌then◌else◌, ◌==◌, string_eq, ==_iff, arith, ◌≡◌, All, max, Bool-cases, inl, inr, leb, IfSome,
  >>=-IfSome, ap, ◌∙◌,
}
use mathlib.Core.Path.{subst}
use taoli.Base.Number.{ℤ}
use taoli.Models.Identity.{Time, second}
use taoli.Auth.Totp.{
  Crypto, exceeds, max_counter, nearby, totp_at, matches, matching_counter, has_digits,
}

-- A counter at most one step away from the present.
abbrev pub IsNearby : ℕ → ℕ → Type 0
IsNearby current counter = (counter ≤ current + 1) × (current ≤ counter + 1)

nearby-All : (current : ℕ) → All (IsNearby current) (nearby current)
nearby-All zero = omega arith
nearby-All (suc c) = omega arith

max-cases : (P : ℕ → Type 0) (m n : ℕ) → P m → P n → P (max m n)
max-cases P m n h k = elim (Bool-cases (leb m n)) [
  | inl le ↦ subst P (ground (arith, le)) k
  | inr gt ↦ subst P (ground (arith, gt)) h
]

max_counter-IfSome : (P : ℕ → Type 0) (cs : List ℕ) → All P cs → IfSome P (max_counter cs)
max_counter-IfSome P [] h = tt
max_counter-IfSome P (c ∷ cs) h = larger (max_counter cs) (max_counter-IfSome P cs h.1)
  where
    larger :
        (o : Option ℕ) → IfSome P o → IfSome P (elim o [ none ↦ some c | some m ↦ some (max c m) ])
    larger none k = h.0
    larger (some m) k = max-cases P c m h.0 k

module _ (crypto : Crypto) (secret given : String) (last : ℤ) where
  abbrev pub IsMatch : ℕ → Type 0
  IsMatch counter = (totp_at crypto secret counter ≡ some given) × (exceeds counter last ≡ true)

  module _ (R : ℕ → Type 0) where
    add-IsMatch :
        (c : ℕ) (expected : String) (rest : List ℕ)
        → R c
        → totp_at crypto secret c ≡ some expected
        → All (λ c. IsMatch c × R c) rest
        → All
            (λ c. IsMatch c × R c)
            (if expected == given && exceeds c last then c ∷ rest else rest)
    add-IsMatch c expected rest r e h = elim (Bool-cases (expected == given && exceeds c last)) [
      | inl both ↦ rw both (
        (
          (
            e ∙ ap (λ t. some t) ((==_iff expected given).0 (ground (arith, both))),
            ground (arith, both),
          ),
          r,
        ),
        h,
      )
      | inr other ↦ rw other h
    ]

    matches-All :
        (counters : List ℕ)
        → All R counters
        → IfSome (All (λ c. IsMatch c × R c)) (matches crypto secret given last counters)
    unfolding matches
    matches-All [] h = tt
    matches-All (c ∷ cs) h =
        let rest = matches-All cs h.1 in
        >>=-IfSome (All (λ c. IsMatch c × R c)) (totp_at crypto secret c) _ (λ expected e.
          >>=-IfSome (All (λ c. IsMatch c × R c)) (matches crypto secret given last cs) _
            (λ found e'.
              add-IsMatch c expected found h.0 e
                (subst (IfSome (All (λ c. IsMatch c × R c))) e' rest)))

  -- A counter that is returned is at most one step away from the present.
  pub matching_counter_lem :
      (now : Time)
      → IfSome
          (IfSome (λ c. IsMatch c × IsNearby (now / (30 * second)) c))
          (matching_counter crypto secret given now last)
  unfolding matching_counter
  matching_counter_lem now =
      let current = now / (30 * second) in
      let Found = λ (c : ℕ). IsMatch c × IsNearby current c in
      elim (Bool-cases (has_digits 6 given)) [
        | inl six ↦ rw six (
            >>=-IfSome (IfSome Found) (matches crypto secret given last (nearby current)) _
              (λ found e. max_counter-IfSome Found found (
                subst (IfSome (All Found)) e
                  (matches-All (IsNearby current) (nearby current) (nearby-All current)))))
        | inr other ↦ rw other tt
      ]
