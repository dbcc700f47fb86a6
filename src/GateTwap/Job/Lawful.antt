-- ===== src/GateTwap/Job/Lawful.antt =====
-- What a job of gate_twap.py has done at any time, whatever happens to it.
use taoli.Models.GateTwap.{
  GateTwapJobEvent, GateTwapPlan, GateTwapPlanSlice, GateTwapRequest, info, warning,
}
use taoli.Base.{
  ◌≤◌, String, Bool, false, not, none, some, List, [], ◌∷◌, ◌++◌, length, ltb, keep_if, ◌≡◌, refl,
  ap, sym, ◌∙◌, arith, append-nil, if-rule, append_one-append,
}
use mathlib.Core.Path.{subst, ap₂}
use Prim.Native.String.{◌++◌ as text_append}
use taoli.Base.Number.{Float}
use taoli.Models.Identity.{Time}
use taoli.GateTwap.Job.{
  Run, JobPhase, not_started, next, sleeping, submitting, over, JobAction, turn, woken, cancel_call,
  answered, refused, Texts, order_of, is_skipped, note, cancel_job, fail_job, count_order, act_on,
  begin, complete, step_from, step_job, run_job,
}
use taoli.GateTwap.Job.Counts.{
  is_ordered, IsAt, dropped_one, orders_of, IsCounted, IsLawful, orders_of-one, orders_of-same,
  no_orders, skip-IsCounted, order-IsCounted, after_one,
}

module _ {W : Type 0} ⦃f : Float W⦄ (texts : Texts W) (plan : GateTwapPlan W)
    (request : GateTwapRequest W) (live : Bool) where
  act_on-IsLawful :
      (now : Time) (item : GateTwapPlanSlice W) (items done : List (GateTwapPlanSlice W))
      (run : Run W)
      → (done ++ (item ∷ items)) ≡ plan.slices
      → run.submitted ≡ orders_of texts plan request live done
      → IsCounted texts plan request live run.job done
      → IsLawful texts plan request live (act_on texts now item items run)
  unfolding act_on
  act_on-IsLawful now item items done run slices out counted =
      let after = done ++ (item ∷ []) in
      let order = order_of texts run.job.plan run.job.request item in
      let dry_event =
        note now info (text_append "Dry slice " (text_append (texts.index item.index) " generated"))
          (some order) none in
      let reason : String = elim item.skipped_reason [ none ↦ "" | some text ↦ text ] in
      let skip_event =
        note now warning
          (text_append "Slice "
            (text_append (texts.index item.index) (text_append " skipped: " reason)))
          none none in
      let (skips, counts, total, p, r, l) = counted in
      if-rule (IsLawful texts plan request live) (is_skipped item) _ _
        (λ skipped. (
          after,
          [],
          items,
          after_one texts plan request live done item items slices,
          (refl, refl),
          out
              ∙ sym (
                  orders_of-same texts plan request live (after ++ []) done (
                    ap (keep_if is_ordered) (append-nil after)
                    ∙ dropped_one is_ordered done item (ap not skipped))),
          skip-IsCounted texts plan request live run.job skip_event done item skipped counted,
        ))
        (λ ordered.
          if-rule (IsLawful texts plan request live) run.job.live _ _
            (λ is_live. (
              done,
              item ∷ [],
              items,
              append_one-append done item items ∙ slices,
              (refl, refl, ordered),
              ap₂ (λ xs x. xs ++ (x ∷ [])) out (ap₂ (λ a b. order_of texts a b item) p r)
                  ∙ sym (orders_of-one texts plan request live done item ordered (sym l ∙ is_live)),
              counted,
            ))
            (λ dry. (
              after,
              [],
              items,
              after_one texts plan request live done item items slices,
              (refl, refl),
              out
                  ∙ no_orders texts plan request live done (sym l ∙ dry)
                  ∙ sym (no_orders texts plan request live (after ++ []) (sym l ∙ dry)),
              order-IsCounted texts plan request live dry_event done item items run ordered counted,
            )))

  -- The order that is out is done once the exchange has answered.
  answered-IsLawful :
      (event : GateTwapJobEvent) (item : GateTwapPlanSlice W)
      (done items : List (GateTwapPlanSlice W)) (run : Run W)
      → (((done ++ (item ∷ [])) ++ items) ≡ plan.slices)
      → is_skipped item ≡ false
      → run.submitted ≡ orders_of texts plan request live (done ++ (item ∷ []))
      → IsCounted texts plan request live run.job done
      → IsLawful texts plan request live (count_order texts event item items run)
  unfolding count_order
  answered-IsLawful event item done items run slices ordered out counted =
      let after = done ++ (item ∷ []) in
      (
        after,
        [],
        items,
        ap (λ xs. xs ++ items) (append-nil after) ∙ slices,
        (refl, refl),
        out ∙ sym (ap (orders_of texts plan request live) (append-nil after)),
        order-IsCounted texts plan request live event done item items run ordered counted,
      )

  pending-length :
      (phase : JobPhase W) (done pending rest : List (GateTwapPlanSlice W))
      → IsAt phase done pending rest
      → length pending ≤ 1
  pending-length not_started done pending rest h = omega (arith, ap length h.1)
  pending-length (next items) done pending rest h = omega (arith, ap length h.0)
  pending-length (sleeping item items) done pending rest h = omega (arith, ap length h.0)
  pending-length (submitting item items) done pending rest h = omega (arith, ap length h.0)
  pending-length over done pending rest h = h

  -- A job that ends, as it stands, with its counters.
  ends-IsLawful :
      (run ended : Run W)
      → ended.phase ≡ over
      → ended.submitted ≡ run.submitted
      → ((done : List (GateTwapPlanSlice W))
          → IsCounted texts plan request live run.job done
          → IsCounted texts plan request live ended.job done)
      → IsLawful texts plan request live run
      → IsLawful texts plan request live ended
  ends-IsLawful run ended e same counts (done, pending, rest, slices, at, out, counted) = (
    done,
    pending,
    rest,
    slices,
    subst (λ ph. IsAt ph done pending rest) (sym e) (pending-length run.phase done pending rest at),
    same ∙ out,
    counts done counted,
  )

  cancel_job-IsLawful :
      (now : Time) (run : Run W)
      → IsLawful texts plan request live run
      → IsLawful texts plan request live (cancel_job now run)
  unfolding cancel_job
  cancel_job-IsLawful now run = ends-IsLawful run (cancel_job now run) refl refl (λ done h. h)

  fail_job-IsLawful :
      (now : Time) (message : String) (run : Run W)
      → IsLawful texts plan request live run
      → IsLawful texts plan request live (fail_job now message run)
  unfolding fail_job
  fail_job-IsLawful now message run =
      ends-IsLawful run (fail_job now message run) refl refl (λ done h. h)

  complete-IsLawful :
      (now : Time) (run : Run W)
      → IsLawful texts plan request live run
      → IsLawful texts plan request live (complete texts now run)
  unfolding complete
  complete-IsLawful now run = ends-IsLawful run (complete texts now run) refl refl (λ done h. h)

  begin-IsLawful :
      (now : Time) (run : Run W)
      → run.phase ≡ not_started
      → IsLawful texts plan request live run
      → IsLawful texts plan request live (begin texts now run)
  unfolding begin
  begin-IsLawful now run e (done, pending, rest, slices, at, out, counted) =
      let (none_done, none_out) = subst (λ ph. IsAt ph done pending rest) e at in
      (
        done,
        pending,
        rest,
        slices,
        (
          none_out,
          sym (ap₂ (λ a b. (a ++ b) ++ rest) none_done none_out)
              ∙ slices
              ∙ sym (ap (λ plan. plan.slices) counted.3),
        ),
        out,
        counted,
      )

  at_slice-IsLawful :
      (now : Time) (item : GateTwapPlanSlice W)
      (items done pending rest : List (GateTwapPlanSlice W)) (run : Run W)
      → pending ≡ []
      → rest ≡ item ∷ items
      → (((done ++ pending) ++ rest) ≡ plan.slices)
      → run.submitted ≡ orders_of texts plan request live (done ++ pending)
      → IsCounted texts plan request live run.job done
      → IsLawful texts plan request live (act_on texts now item items run)
  at_slice-IsLawful now item items done pending rest run no_order left slices out counted =
      act_on-IsLawful now item items done run
        (sym (ap (λ xs. xs ++ (item ∷ items)) (append-nil done))
          ∙ sym (ap₂ (λ a b. (done ++ a) ++ b) no_order left)
          ∙ slices)
        (out
          ∙ ap (λ a. orders_of texts plan request live (done ++ a)) no_order
          ∙ ap (orders_of texts plan request live) (append-nil done))
        counted

  step_from-IsLawful :
      (phase : JobPhase W) (action : JobAction) (run : Run W)
      → run.phase ≡ phase
      → IsLawful texts plan request live run
      → IsLawful texts plan request live (step_from texts phase action run)
  unfolding step_from
  step_from-IsLawful not_started (turn now) run e h = begin-IsLawful now run e h
  step_from-IsLawful (next []) (turn now) run e h = complete-IsLawful now run h
  step_from-IsLawful (next (item ∷ items)) (turn now) run e
        (done, pending, rest, slices, at, out, counted) =
      let (no_order, left) = subst (λ ph. IsAt ph done pending rest) e at in
      if-rule (IsLawful texts plan request live) (ltb now item.scheduled_at)
        (record run { phase = sleeping item items }) (act_on texts now item items run)
        (λ early. (done, pending, rest, slices, (no_order, left), out, counted))
        (λ late.
          at_slice-IsLawful now item items done pending rest run no_order left slices out counted)
  step_from-IsLawful (sleeping item items) (woken now) run e
        (done, pending, rest, slices, at, out, counted) =
      let (no_order, left) = subst (λ ph. IsAt ph done pending rest) e at in
      at_slice-IsLawful now item items done pending rest run no_order left slices out counted
  step_from-IsLawful (submitting item items) (answered now response) run e
        (done, pending, rest, slices, at, out, counted) =
      let (order, left, ordered) = subst (λ ph. IsAt ph done pending rest) e at in
      answered-IsLawful
        (note now info
          (text_append "Live slice " (text_append (texts.index item.index) " submitted"))
          (some (order_of texts run.job.plan run.job.request item)) (some response))
        item done items run (sym (ap₂ (λ a b. (done ++ a) ++ b) order left) ∙ slices) ordered
        (out ∙ ap (λ a. orders_of texts plan request live (done ++ a)) order) counted
  step_from-IsLawful (submitting item items) (refused now message) run e h =
      fail_job-IsLawful now message run h
  step_from-IsLawful phase (cancel_call now) run e h = cancel_job-IsLawful now run h
  step_from-IsLawful phase action run e h = h

  pub run_job-IsLawful :
      (actions : List JobAction) (run : Run W)
      → IsLawful texts plan request live run
      → IsLawful texts plan request live (run_job texts actions run)
  unfolding run_job step_job
  run_job-IsLawful [] run h = h
  run_job-IsLawful (action ∷ actions) run h =
      run_job-IsLawful actions (step_job texts action run)
        (step_from-IsLawful run.phase action run refl h)
