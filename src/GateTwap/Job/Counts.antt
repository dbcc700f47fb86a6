-- ===== src/GateTwap/Job/Counts.antt =====
-- The slices that a job of gate_twap.py has done, with its orders and its counters.
use taoli.Models.GateTwap.{
  GateTwapJobEvent, GateTwapJobStatus, GateTwapPlan, GateTwapPlanSlice, GateTwapRequest, Order,
}
use taoli.Base.{
  ◌+◌, ◌≤◌, Bool, true, false, not, List, [], ◌∷◌, ◌++◌, map, length, length-append, keep_if, ◌≡◌,
  refl, ap, sym, ◌∙◌, arith, if◌then◌else◌, append-nil, keep_if-append, append_one-append,
}
use mathlib.Core.List.{map-append}
use taoli.Base.Number.{Float, ◌⊕◌, nought, sum_from}
use taoli.GateTwap.Job.{
  Run, JobPhase, not_started, next, sleeping, submitting, over, Texts, order_of, is_skipped,
  with_event, count_order,
}

module _ {W : Type 0} where
  abbrev pub is_ordered : GateTwapPlanSlice W → Bool
  is_ordered item = not (is_skipped item)

  -- Where a job stands: the slices done, the one whose order is out, and those that are left.
  abbrev pub IsAt :
      JobPhase W
      → List (GateTwapPlanSlice W)
      → List (GateTwapPlanSlice W)
      → List (GateTwapPlanSlice W)
      → Type 0
  IsAt not_started done pending rest = (done ≡ []) × (pending ≡ [])
  IsAt (next items) done pending rest = (pending ≡ []) × (rest ≡ items)
  IsAt (sleeping item items) done pending rest = (pending ≡ []) × (rest ≡ item ∷ items)
  IsAt (submitting item items) done pending rest =
      (pending ≡ item ∷ []) × (rest ≡ items) × (is_skipped item ≡ false)
  IsAt over done pending rest = length pending ≤ 1

  pub kept_one :
      (test : GateTwapPlanSlice W → Bool) (done : List (GateTwapPlanSlice W))
      (item : GateTwapPlanSlice W)
      → test item ≡ true
      → keep_if test (done ++ (item ∷ [])) ≡ keep_if test done ++ (item ∷ [])
  kept_one test done item h = ground (arith, h, keep_if-append test done (item ∷ []))

  pub dropped_one :
      (test : GateTwapPlanSlice W → Bool) (done : List (GateTwapPlanSlice W))
      (item : GateTwapPlanSlice W)
      → test item ≡ false
      → keep_if test (done ++ (item ∷ [])) ≡ keep_if test done
  dropped_one test done item h =
      ground (arith, h, keep_if-append test done (item ∷ []), append-nil (keep_if test done))

  pub sum_from-one :
      ⦃f : Float W⦄ (acc : W) (xs : List (GateTwapPlanSlice W)) (item : GateTwapPlanSlice W)
      → sum_from acc (map (λ s. s.order_size) (xs ++ (item ∷ [])))
        ≡ (sum_from acc (map (λ s. s.order_size) xs) ⊕ item.order_size)
  sum_from-one acc [] item = refl
  sum_from-one acc (x ∷ xs) item = sum_from-one (acc ⊕ x.order_size) xs item

module _ {W : Type 0} ⦃f : Float W⦄ (texts : Texts W) (plan : GateTwapPlan W)
    (request : GateTwapRequest W) (live : Bool) where
  -- The orders of the slices that are not skipped, one each, where the job is live.
  abbrev pub orders_of : List (GateTwapPlanSlice W) → List Order
  orders_of items =
      if live then map (order_of texts plan request) (keep_if is_ordered items) else []

  -- The counters of a job that has done some slices.
  abbrev pub IsCounted : GateTwapJobStatus W → List (GateTwapPlanSlice W) → Type 0
  IsCounted job done =
      (job.skipped_orders ≡ length (keep_if is_skipped done))
      × (job.completed_orders ≡ length (keep_if is_ordered done))
      × (job.total_order_size ≡ sum_from nought (map (λ s. s.order_size) (keep_if is_ordered done)))
      × (job.plan ≡ plan)
      × (job.request ≡ request)
      × (job.live ≡ live)

  -- The slices of the plan that are done, the one whose order is out, and those that are left, with the
  -- orders and the counters that go with them.
  abbrev pub IsLawful : Run W → Type 0
  IsLawful run =
      (done : List (GateTwapPlanSlice W)) × (pending : List (GateTwapPlanSlice W)) × (rest : List
        (GateTwapPlanSlice W))
      × (((done ++ pending) ++ rest) ≡ plan.slices)
      × IsAt run.phase done pending rest
      × (run.submitted ≡ orders_of (done ++ pending))
      × IsCounted run.job done

  pub orders_of-one :
      (done : List (GateTwapPlanSlice W)) (item : GateTwapPlanSlice W)
      → is_skipped item ≡ false
      → live ≡ true
      → orders_of (done ++ (item ∷ [])) ≡ orders_of done ++ (order_of texts plan request item ∷ [])
  orders_of-one done item h l = ground (
    arith,
    l,
    kept_one is_ordered done item (ap not h),
    map-append (order_of texts plan request) (keep_if is_ordered done) (item ∷ []),
  )

  pub orders_of-same :
      (xs ys : List (GateTwapPlanSlice W))
      → keep_if is_ordered xs ≡ keep_if is_ordered ys
      → orders_of xs ≡ orders_of ys
  orders_of-same xs ys e = ap (λ zs. if live then map (order_of texts plan request) zs else []) e

  pub no_orders : (xs : List (GateTwapPlanSlice W)) → live ≡ false → orders_of xs ≡ []
  no_orders xs h = ground (arith, h)

  pub skip-IsCounted :
      (job : GateTwapJobStatus W) (event : GateTwapJobEvent) (done : List (GateTwapPlanSlice W))
      (item : GateTwapPlanSlice W)
      → is_skipped item ≡ true
      → IsCounted job done
      → IsCounted
          (with_event event (record job { skipped_orders = job.skipped_orders + 1 }))
          (done ++ (item ∷ []))
  skip-IsCounted job event done item h (skips, counts, total, p, r, l) =
      let kept = kept_one is_skipped done item h in
      let dropped = dropped_one is_ordered done item (ap not h) in
      (
        omega (arith, skips, ap length kept, length-append (keep_if is_skipped done) (item ∷ [])),
        counts ∙ sym (ap length dropped),
        total ∙ sym (ap (λ xs. sum_from nought (map (λ s. s.order_size) xs)) dropped),
        p,
        r,
        l,
      )

  pub order-IsCounted :
      (event : GateTwapJobEvent) (done : List (GateTwapPlanSlice W)) (item : GateTwapPlanSlice W)
      (items : List (GateTwapPlanSlice W)) (run : Run W)
      → is_skipped item ≡ false
      → IsCounted run.job done
      → IsCounted (count_order texts event item items run).job (done ++ (item ∷ []))
  unfolding count_order
  order-IsCounted event done item items run h (skips, counts, total, p, r, l) =
      let kept = kept_one is_ordered done item (ap not h) in
      let dropped = dropped_one is_skipped done item h in
      (
        skips ∙ sym (ap length dropped),
        omega (arith, counts, ap length kept, length-append (keep_if is_ordered done) (item ∷ [])),
        ap (λ w. w ⊕ item.order_size) total
            ∙ sym (sum_from-one nought (keep_if is_ordered done) item)
            ∙ sym (ap (λ xs. sum_from nought (map (λ s. s.order_size) xs)) kept),
        p,
        r,
        l,
      )

  -- The slices of a plan after one is done.
  pub after_one :
      (done : List (GateTwapPlanSlice W)) (item : GateTwapPlanSlice W)
      (items : List (GateTwapPlanSlice W))
      → (done ++ (item ∷ items)) ≡ plan.slices
      → (((done ++ (item ∷ [])) ++ []) ++ items) ≡ plan.slices
  after_one done item items h =
      ap (λ xs. xs ++ items) (append-nil (done ++ (item ∷ [])))
      ∙ append_one-append done item items
      ∙ h
