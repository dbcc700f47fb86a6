-- ===== src/GateTwap/Size.antt =====
-- A plan of gate_twap.py splits the position exactly: nothing is ordered twice or beyond it.
mod Example
use taoli.Models.GateTwap.{GateTwapContractRules, GateTwapPlan, GateTwapPlanSlice, GateTwapRequest}
use taoli.Base.{
  String, ℕ, zero, suc, ◌+◌, Bool, true, false, not, ◌&&◌, Option, none, some, is_some, get_or,
  List, [], ◌∷◌, map, length, keep_if, All, ◌≡◌, refl, ap, sym, ◌∙◌, arith, if◌then◌else◌,
  Bool-cases, inl, inr, ◌==◌, nat_eq,
}
use taoli.Base.Number.{
  Float, ◌⊕◌, ◌⊖◌, ◌⊗◌, ◌⊘◌, ◌<?◌, ◌≤?◌, ◌==?◌, nought, of_nat, min_of, sum_from,
}
use taoli.Models.Identity.{Time}
use taoli.GateTwap.{
  Conversions, decimal_or_one, floor_order_size, asked_size, slice_at, idle_slice, plan_slices,
  initial_abs, planned, build_plan,
}

-- What the plan relies on of decimals: an order on values that are not NaN, exact differences and sums
-- of amounts, and that the quotient is rounded down.
pub record IsExact (W D : Type 0) ⦃g : Float D⦄ (conv : Conversions W D) : Type 0 where
  pub lt_iff : (a b : D) → g.lt a b ≡ not (g.le b a)
  pub le_refl : (a : D) → g.le a a ≡ true
  pub le_trans : (a b c : D) → g.le a b ≡ true → g.le b c ≡ true → g.le a c ≡ true
  pub sub_nonneg : (a b : D) → g.le b a ≡ true → g.le (g.ratio 0 1) (g.sub a b) ≡ true
  pub sub-add : (a b c : D) → g.le b a ≡ true → g.add (g.sub a b) (g.add c b) ≡ g.add a c
  pub round_down_le :
      (a step : D)
      → g.le step (g.ratio 0 1) ≡ false
      → g.le (g.mul (conv.round_down (g.div a step)) step) a ≡ true

module _ {W D : Type 0} ⦃f : Float W⦄ ⦃g : Float D⦄ (conv : Conversions W D)
    (request : GateTwapRequest W) (start_at : Time) (index : ℕ) where
  slice_at-skipped_reason :
      (raw order left : D) (reason : Option String)
      → (slice_at conv request start_at index raw order left reason).skipped_reason ≡ reason
  unfolding slice_at
  slice_at-skipped_reason raw order left reason = refl

  slice_at-order_size :
      (raw order left : D) (reason : Option String)
      → (slice_at conv request start_at index raw order left reason).order_size ≡ conv.float order
  unfolding slice_at
  slice_at-order_size raw order left reason = refl

  idle_slice-is_skipped :
      (left : D) (reason : String)
      → is_some (idle_slice conv request start_at index left reason).skipped_reason ≡ true
  unfolding idle_slice slice_at
  idle_slice-is_skipped left reason = refl

module _ {W D : Type 0} ⦃f : Float W⦄ ⦃g : Float D⦄ (conv : Conversions W D)
    (exact : IsExact W D conv) (rules : GateTwapContractRules W)
    (steps : (decimal_or_one conv rules.order_size_step ≤? nought) ≡ false) where
  -- An order that is sent has at least the minimum size.
  abbrev pub IsOrder : D → Type 0
  IsOrder d = ((d ≤? nought) ≡ false) × ((decimal_or_one conv rules.order_size_min ≤? d) ≡ true)

  floor_order_size-le :
      (raw : D)
      → (floor_order_size conv raw rules ≤? nought) ≡ false
      → ((floor_order_size conv raw rules ≤? raw) ≡ true)
        × IsOrder (floor_order_size conv raw rules)
  unfolding floor_order_size
  floor_order_size-le raw h = ground (
    arith,
    h,
    exact.le_refl nought,
    exact.round_down_le raw (decimal_or_one conv rules.order_size_step) steps,
  )

  min_of-le : (a b : D) → (min_of a b ≤? b) ≡ true
  min_of-le a b = ground (arith, exact.lt_iff b a, exact.le_refl b)

  abbrev pub is_sent : GateTwapPlanSlice W → Bool
  is_sent slice = not (is_some slice.skipped_reason)

  abbrev pub sent_sizes : List (GateTwapPlanSlice W) → List W
  sent_sizes slices = map (λ s. s.order_size) (keep_if is_sent slices)

  -- The slices order some sizes, whose sum and what remains make up what was there.
  abbrev pub IsSplit : D → D → List (GateTwapPlanSlice W) × D × D → Type 0
  IsSplit left total (slices, rest, sum) =
      (ds : List D) × (sent_sizes slices ≡ map conv.float ds)
      × (sum ≡ sum_from total ds)
      × ((rest ⊕ sum) ≡ (left ⊕ total))
      × ((nought ≤? rest) ≡ true)
      × All IsOrder ds

  module _ (request : GateTwapRequest W) (start_at : Time) (order_count : ℕ) (whole : D) where
    skip-IsSplit :
        (slice : GateTwapPlanSlice W) (left total : D) (x : List (GateTwapPlanSlice W) × D × D)
        → is_some slice.skipped_reason ≡ true
        → IsSplit left total x
        → IsSplit left total (slice ∷ x.0, x.1, x.2)
    skip-IsSplit slice left total (slices, rest, sum) h (ds, sizes, sums, splits, nonneg, all) =
        (ds, ground (arith, h, sizes), sums, splits, nonneg, all)

    send-IsSplit :
        (slice : GateTwapPlanSlice W) (order left total : D)
        (x : List (GateTwapPlanSlice W) × D × D)
        → slice.skipped_reason ≡ none
        → slice.order_size ≡ conv.float order
        → IsOrder order
        → (order ≤? left) ≡ true
        → IsSplit (left ⊖ order) (total ⊕ order) x
        → IsSplit left total (slice ∷ x.0, x.1, x.2)
    send-IsSplit slice order left total (slices, rest, sum) h size fits le
          (ds, sizes, sums, splits, nonneg, all) =
        (
          order ∷ ds,
          ground (arith, h, size, sizes),
          sums,
          splits ∙ exact.sub-add left order total le,
          nonneg,
          (fits, all),
        )

    plan_slices-IsSplit :
        (turns index : ℕ) (left total : D)
        → (nought ≤? left) ≡ true
        → IsSplit left total
            (plan_slices conv request rules start_at order_count whole turns index left total)
    unfolding plan_slices
    plan_slices-IsSplit zero index left total h = ([], refl, refl, refl, h, tt)
    plan_slices-IsSplit (suc turns) index left total h =
        let raw = asked_size conv request order_count whole left index in
        let order = floor_order_size conv (min_of raw left) rules in
        let idle =
          plan_slices conv request rules start_at order_count whole turns (index + 1) left total in
        let more =
          plan_slices conv request rules start_at order_count whole turns (index + 1) (left ⊖ order)
            (total ⊕ order) in
        elim (Bool-cases (left ≤? nought)) [
          | inl empty ↦ rw empty (
              skip-IsSplit (idle_slice conv request start_at index left "no remaining position")
                left total idle (idle_slice-is_skipped conv request start_at index left _)
                (plan_slices-IsSplit turns (index + 1) left total h))
          | inr full ↦ elim (Bool-cases (order ≤? nought)) [
            | inl small ↦
                rw (full, small)
                  (skip-IsSplit
                    (slice_at conv request start_at index raw order left
                      (some "below Gate minimum order size"))
                    left total idle
                    (ap is_some
                      (slice_at-skipped_reason conv request start_at index raw order left _))
                    (plan_slices-IsSplit turns (index + 1) left total h))
            | inr fits ↦
                let (le, sized) = floor_order_size-le (min_of raw left) fits in
                let le_left = exact.le_trans order (min_of raw left) left le (min_of-le raw left) in
                rw (full, fits)
                  (send-IsSplit (slice_at conv request start_at index raw order (left ⊖ order) none)
                    order left total more
                    (slice_at-skipped_reason conv request start_at index raw order (left ⊖ order)
                      none)
                    (slice_at-order_size conv request start_at index raw order (left ⊖ order) none)
                    sized le_left
                    (plan_slices-IsSplit turns (index + 1) (left ⊖ order) (total ⊕ order)
                      (exact.sub_nonneg left order le_left)))
          ]
        ]

    length-plan_slices :
        (turns index : ℕ) (left total : D)
        → length
            (plan_slices conv request rules start_at order_count whole turns index left total).0
          ≡ turns
    unfolding plan_slices
    length-plan_slices zero index left total = refl
    length-plan_slices (suc turns) index left total =
        let raw = asked_size conv request order_count whole left index in
        let order = floor_order_size conv (min_of raw left) rules in
        ground (
          arith,
          length-plan_slices turns (index + 1) left total,
          length-plan_slices turns (index + 1) (left ⊖ order) (total ⊕ order),
        )

  -- The orders of a plan and what remains make up the position.
  abbrev pub IsExactPlan : D → GateTwapPlan W → Type 0
  IsExactPlan size plan =
      (ds : List D) × (rest : D) × (sent_sizes plan.slices ≡ map conv.float ds)
      × (plan.total_planned_size ≡ conv.float (sum_from nought ds))
      × ((rest ⊕ sum_from nought ds) ≡ (size ⊕ nought))
      × ((nought ≤? rest) ≡ true)
      × All IsOrder ds
      × (length plan.slices ≡ plan.order_count)

  -- A plan of a position of a known size that is not negative has a slice for each interval. The sizes
  -- of the slices that are not skipped are positive and at least the minimum; their sum is the planned
  -- total, and with what remains, which is not negative, it makes up the position. The order step is
  -- positive, and decimals compute exactly.
  pub build_plan_lem :
      (request : GateTwapRequest W) (has_credentials : Bool) (position : Option D) (now : Time)
      (size : D)
      → initial_abs conv request position ≡ some size
      → (nought ≤? size) ≡ true
      → IsExactPlan size (build_plan conv request rules has_credentials position now)
  unfolding build_plan planned
  build_plan_lem request has_credentials position now size known nonneg =
      let count = conv.floor_count (request.duration_seconds ⊘ request.interval_seconds) in
      let start = get_or request.start_at now in
      let x = plan_slices conv request rules start count size count 0 size nought in
      let (ds, sizes, sums, splits, rest, all) =
        plan_slices-IsSplit request start count size count 0 size nought nonneg in
      (
        ds,
        x.1,
        rw known sizes,
        rw known (ap conv.float sums),
        ap (◌⊕◌ x.1) (sym sums) ∙ splits,
        rest,
        all,
        rw known (length-plan_slices request start count size count 0 size nought),
      )
