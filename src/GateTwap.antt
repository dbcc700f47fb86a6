-- ===== src/GateTwap.antt =====
-- backend/app/services/gate_twap.py: a sale in slices over time. `W` is the type
-- of a `float` and `D` that of a `Decimal`, up to `normalize`.
pub mod Size
pub mod Payload
pub mod Job
pub mod Manager
pub mod Example
use Prim.Native.Char.{Char, code}
use Prim.Native.String.{◌++◌ as text_append}
use text.Mathlib.Text.{find?}
use taoli.Models.GateTwap.{
  GateTwapContractRules, GateTwapPlan, GateTwapPlanSlice, GateTwapRequest, Side, SliceMode, buy,
  initial, remaining, sell,
}
use taoli.Base.{
  ℕ, zero, suc, ◌+◌, String, Bool, true, false, not, ◌&&◌, ◌||◌, Option, none, some, is_some,
  get_or, List, [], ◌∷◌, ◌++◌, if◌then◌else◌, ◌==◌, nat_eq, string_eq,
}
use taoli.Base.Number.{
  Float, ◌⊕◌, ◌⊖◌, ◌⊗◌, ◌⊘◌, ◌<?◌, ◌≤?◌, ◌==?◌, nought, of_nat, negate, min_of, max_of,
}
use taoli.Base.Text.{upper, lower}
use taoli.Models.Identity.{Time}
use taoli.PairValidation.{strip}
use taoli.Aliases.{base_from_symbol}

-- The conversions of the language: `Decimal(str(x))`, `float(d)`, `to_integral_value` towards zero,
-- `int(math.floor(x))`, and the instant some intervals after another.
pub record Conversions (W D : Type 0) : Type 0 where
  pub decimal : W → D
  pub float : D → W
  pub round_down : D → D
  pub floor_count : W → ℕ
  pub after : Time → ℕ → W → Time

-- `value.replace("-", "_")`
pub underscored : String → String
underscored String.[] = String.[]
underscored (String.◌∷◌ c s) =
    let rest = underscored s in if code c == 45 then text_append "_" rest else String.◌∷◌ c rest

pub normalize_contract : String → String
unfolding underscored
normalize_contract raw =
    let value = underscored (upper (strip raw)) in
    if not (is_some (find? value "_")) && not (base_from_symbol value == value)
    then text_append (base_from_symbol value) "_USDT"
    else value

module _ {W D : Type 0} ⦃f : Float W⦄ ⦃g : Float D⦄ (conv : Conversions W D) where
  -- `decimal_from(value, 1) or 1`
  pub decimal_or_one : W → D
  decimal_or_one value = let d = conv.decimal value in if d ==? nought then of_nat 1 else d

  pub floor_order_size : D → GateTwapContractRules W → D
  unfolding decimal_or_one
  floor_order_size raw_abs_size rules =
      let step = decimal_or_one rules.order_size_step in
      let floored = conv.round_down (raw_abs_size ⊘ step) ⊗ step in
      if raw_abs_size ≤? nought
      then nought
      else if decimal_or_one rules.order_size_min ≤? floored
      then floored
      else nought

  pub signed_size : Side → D → D
  signed_size sell abs_size = negate abs_size
  signed_size buy abs_size = abs_size

  pub reducible_size : Side → D → D
  reducible_size sell signed_position =
      if nought <? signed_position then signed_position else nought
  reducible_size buy signed_position =
      if signed_position <? nought then negate signed_position else nought

  -- The size that a slice asks for.
  pub asked_size : GateTwapRequest W → ℕ → D → D → ℕ → D
  asked_size request order_count whole left index =
      let percent = conv.decimal request.percent ⊘ of_nat 100 in
      if request.last_order_all && index + 1 == order_count
      then left
      else elim request.slice_mode [ remaining ↦ left ⊗ percent | initial ↦ whole ⊗ percent ]

  pub slice_at : GateTwapRequest W → Time → ℕ → D → D → D → Option String → GateTwapPlanSlice W
  unfolding signed_size
  slice_at request start_at index raw order left reason = record {
    index = index + 1;
    scheduled_at = conv.after start_at index request.interval_seconds;
    raw_size = conv.float raw;
    order_size = conv.float order;
    signed_order_size = conv.float (signed_size request.side order);
    remaining_after = conv.float (max_of left nought);
    skipped_reason = reason;
  }

  -- The slices that have no position to reduce.
  pub idle_slice : GateTwapRequest W → Time → ℕ → D → String → GateTwapPlanSlice W
  idle_slice request start_at index left reason =
      record (slice_at request start_at index nought nought left (some reason)) {
        raw_size = nought;
        order_size = nought;
        signed_order_size = nought;
      }

  -- The loop of `build_plan` with a known size, from an index on with so many turns left: the slices,
  -- what remains, and the total.
  pub plan_slices :
      GateTwapRequest W
      → GateTwapContractRules W
      → Time
      → ℕ
      → D
      → ℕ
      → ℕ
      → D
      → D
      → List (GateTwapPlanSlice W) × D × D
  unfolding floor_order_size asked_size
  plan_slices request rules start_at order_count whole zero index left total = ([], left, total)
  plan_slices request rules start_at order_count whole (suc turns) index left total =
      let raw = asked_size request order_count whole left index in
      let order = floor_order_size (min_of raw left) rules in
      let (idle, idle_left, idle_total) =
        plan_slices request rules start_at order_count whole turns (index + 1) left total in
      let (more, more_left, more_total) =
        plan_slices request rules start_at order_count whole turns (index + 1) (left ⊖ order)
          (total ⊕ order) in
      if left ≤? nought
      then (
        idle_slice request start_at index left "no remaining position" ∷ idle,
        idle_left,
        idle_total,
      )
      else if order ≤? nought
      then (
        slice_at request start_at index raw order left (some "below Gate minimum order size")
            ∷ idle,
        idle_left,
        idle_total,
      )
      else (
        slice_at request start_at index raw order (left ⊖ order) none ∷ more,
        more_left,
        more_total,
      )

  -- The slices of a plan whose size is unknown.
  pub unknown_slices : GateTwapRequest W → Time → ℕ → ℕ → List (GateTwapPlanSlice W)
  unknown_slices request start_at zero index = []
  unknown_slices request start_at (suc turns) index =
      idle_slice request start_at index nought "no position size available"
      ∷ unknown_slices request start_at turns (index + 1)

  pub initial_abs : GateTwapRequest W → Option D → Option D
  unfolding reducible_size
  initial_abs request signed_position_size = elim request.initial_size [
    | some size ↦ some (conv.decimal size)
    | none ↦ elim signed_position_size [
      | some position ↦ some (reducible_size request.side position)
      | none ↦ none
    ]
  ]

  abbrev pub is_remaining : SliceMode → Bool
  is_remaining remaining = true
  is_remaining initial = false

  pub plan_warnings : GateTwapRequest W → ℕ → Option D → List String
  plan_warnings request order_count whole =
      (if order_count == 0 then "duration / interval produced zero orders" ∷ [] else [])
      ++ (elim whole [
        | none ↦ "initial size is unknown; provide initial_size or configure Gate API keys" ∷ []
        | some size ↦
            if size ≤? nought then "no reducible position for the selected side" ∷ [] else []
      ])
      ++ (if is_remaining request.slice_mode && request.last_order_all
          then "last_order_all will clear the remainder on the final slice" ∷ []
          else [])

  -- The slices and their total; without a known size nothing is planned.
  pub planned :
      GateTwapRequest W
      → GateTwapContractRules W
      → Time
      → ℕ
      → Option D
      → List (GateTwapPlanSlice W) × D
  planned request rules start_at order_count none =
      (unknown_slices request start_at order_count 0, nought)
  planned request rules start_at order_count (some size) =
      let (slices, left, total) =
        plan_slices request rules start_at order_count size order_count 0 size nought in
      (slices, total)

  pub build_plan :
      GateTwapRequest W → GateTwapContractRules W → Bool → Option D → Time → GateTwapPlan W
  build_plan request rules has_credentials signed_position_size now =
      let contract = normalize_contract request.contract in
      let settle = lower request.settle in
      let order_count = conv.floor_count (request.duration_seconds ⊘ request.interval_seconds) in
      let start_at = get_or request.start_at now in
      let whole = initial_abs request signed_position_size in
      let (slices, total) = planned request rules start_at order_count whole in
      record {
        request = record request { contract = contract; settle = settle };
        contract = contract;
        settle = settle;
        side = request.side;
        order_count = order_count;
        initial_size = elim whole [ none ↦ none | some size ↦ some (conv.float size) ];
        signed_position_size = elim signed_position_size [
          | none ↦ none
          | some size ↦ some (conv.float size)
        ];
        has_credentials = has_credentials;
        rules = rules;
        total_planned_size = conv.float total;
        slices = slices;
        warnings = plan_warnings request order_count whole;
      }
