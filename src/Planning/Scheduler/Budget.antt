-- ===== src/Planning/Scheduler/Budget.antt =====
-- `schedule_plan`: the optional tasks stay within the weekly hours.
use dext.Base.{
  ◌≡◌, refl, sym, subst, String, false, Option, none, some, List, [], ◌∷◌, ◌++◌, arith, ok,
  Bool-cases, inl, inr,
}
use dext.Base.Floats.{Floats, IsStrict, fmax}
use dext.Planning.Types.{
  Date, TemplateTask, PhaseTemplate, PlanTask, PlanPhase, PlanGenerationRequest, with_kind,
}
use dext.Planning.Scheduler.Steps.{
  PlaceStep, skipped, dropped, placed, place_all_induction, place_phases_nil, phase_step, scheduled,
}
use dext.Planning.Scheduler.Placing.{
  Progress, ScheduledPlan, Ranges, place_phases, schedule_plan, new_task, new_phase, no_progress,
  blocked_dates, optional_budget,
}

module _ (fl : Floats) where
  open fl use {Float, of_ℕ, add, gt}

  abbrev hours_of : Option Float → Float
  hours_of none = of_ℕ 0
  hours_of (some h) = h

  -- The hours of the tasks, added up from `acc` in order.
  pub sum_hours : Float → List (PlanTask Float) → Float
  sum_hours acc [] = acc
  sum_hours acc (t ∷ rest) = sum_hours (add acc (hours_of t.estimated_hours)) rest

  sum_hours-snoc :
      (acc : Float) (ts : List (PlanTask Float)) (t : PlanTask Float)
      → sum_hours acc (ts ++ t ∷ []) ≡ add (sum_hours acc ts) (hours_of t.estimated_hours)
  unfolding sum_hours
  sum_hours-snoc acc [] t = refl
  sum_hours-snoc acc (u ∷ ts) t = sum_hours-snoc (add acc (hours_of u.estimated_hours)) ts t

  hours-with_kind : (t : PlanTask Float) → (with_kind fl t).estimated_hours ≡ t.estimated_hours
  unfolding with_kind
  hours-with_kind t = ground arith

  module _ (level : String) (budget : Float) (blocked : List Date) where
    record IsWithin (s : Progress Float) : Type 0 where
      counted : sum_hours (of_ℕ 0) s.optional_tasks ≡ s.optional_used
      below : gt s.optional_used budget ≡ false

    module _ (key : String) (start end : Date) where
      step-IsWithin :
          (s : Progress Float) (item : TemplateTask Float) (s' : Progress Float)
          → PlaceStep fl level budget blocked key start end s item s'
          → IsWithin s
          → IsWithin s'
      step-IsWithin s item s' (skipped el e) w = subst IsWithin (sym e) w
      step-IsWithin s item s' (dropped el op e) w =
          subst IsWithin (sym e) (record { counted = w.counted; below = w.below })
      step-IsWithin s item s' (placed due el free within e) w =
          subst IsWithin (sym e) (elim (Bool-cases item.required) [
            | inl r ↦ rw r (record { counted = w.counted; below = w.below })
            | inr r ↦ rw r (record {
              counted = ground (
                arith,
                sum_hours-snoc (of_ℕ 0) s.optional_tasks
                    (with_kind fl (new_task fl key item start due)),
                hours-with_kind (new_task fl key item start due),
              );
              below = rw r at within;
            })
          ])

    module _ (ranges : Ranges) where
      phases-IsWithin :
          (templates : List (PhaseTemplate Float)) (s : Progress Float) (phases : List PlanPhase)
          {result : Progress Float × List PlanPhase}
          → place_phases fl level budget blocked ranges s phases templates ≡ ok result
          → IsWithin s
          → IsWithin result.0
      phases-IsWithin [] s phases h w =
          subst (λ (r : Progress Float × List PlanPhase). IsWithin r.0)
            (place_phases_nil fl level budget blocked ranges s phases h) w
      phases-IsWithin (t ∷ rest) s phases h w =
          let st = phase_step fl level budget blocked ranges s phases t rest h in
          phases-IsWithin rest st.after
            (phases ++ new_phase fl t st.start st.end st.after.phase_task_ids ∷ []) st.others
            (place_all_induction fl level budget blocked t.key st.start st.end IsWithin
              (step-IsWithin t.key st.start st.end) t.tasks (record s { phase_task_ids = [] })
              st.items_placed (record { counted = w.counted; below = w.below }))

  module _ (strict : IsStrict fl) where
    zero-not-above : (x : Float) → gt (of_ℕ 0) (fmax fl (of_ℕ 0) x) ≡ false
    zero-not-above x = elim (Bool-cases (gt x (of_ℕ 0))) [
      | inl above ↦ rw above (strict.asymm _ _ above)
      | inr below ↦ rw below (strict.irrefl _)
    ]

    -- The hours of a plan's optional tasks, added up in order, do not exceed the budget of the
    -- request: its weekly hours times the weeks until the target date. It is assumed of floats
    -- only that `>` is irreflexive and asymmetric.
    pub schedule_plan-budget :
        (request : PlanGenerationRequest) (templates : List (PhaseTemplate Float))
        (plan : ScheduledPlan Float)
        → schedule_plan fl request templates ≡ ok plan
        → gt (sum_hours (of_ℕ 0) plan.optional_tasks) (optional_budget fl request) ≡ false
    unfolding optional_budget
    schedule_plan-budget request templates plan h =
        let done = scheduled fl request templates plan h in
        let budget = optional_budget fl request in
        let within =
          phases-IsWithin request.experience_level budget (blocked_dates fl request) done.ranges
            templates (no_progress fl) [] done.placed_all
            (record { counted = unfold sum_hours in refl; below = zero-not-above _ }) in
        subst (λ (p : ScheduledPlan Float). gt (sum_hours (of_ℕ 0) p.optional_tasks) budget ≡ false)
          done.plan_eq (rw within.counted within.below)
