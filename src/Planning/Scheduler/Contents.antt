-- ===== src/Planning/Scheduler/Contents.antt =====
-- `schedule_plan`: the plan has the templates' phases and their required tasks.
use dext.Base.{
  ◌≡◌, sym, ap, ◌∙◌, subst, String, ◌&&◌, List, [], ◌∷◌, ◌++◌, map, append-nil, append_assoc, arith,
  append, ok, if◌then◌else◌,
}
use mathlib.Core.List.{map-append}
use dext.Base.Floats.{Floats}
use dext.Planning.Types.{
  Date, TemplateTask, PhaseTemplate, PlanTask, PlanPhase, PlanGenerationRequest, with_kind,
}
use dext.Planning.Scheduler.Ranges.{eligible}
use dext.Planning.Scheduler.Steps.{
  PlaceStep, skipped, dropped, placed, place_all_step, place_all_nil, place_phases_nil, phase_step,
  scheduled,
}
use dext.Planning.Scheduler.Placing.{
  Progress, ScheduledPlan, Ranges, place_all, place_phases, schedule_plan, new_task, new_phase,
  no_progress, blocked_dates, optional_budget,
}

module _ {F : Type 0} (level : String) where
  -- The ids of the required tasks that the experience level admits.
  abbrev pub required_of : String → List (TemplateTask F) → List String
  required_of key [] = []
  required_of key (item ∷ items) =
      let rest = required_of key items in
      if eligible item level && item.required
      then append "task:" (append key (append ":" item.key)) ∷ rest
      else rest

  abbrev pub all_required : List (PhaseTemplate F) → List String
  all_required [] = []
  all_required (t ∷ rest) = required_of t.key t.tasks ++ all_required rest

abbrev pub ids : {F : Type 0} → List (PlanTask F) → List String
ids = map (λ t. t.task_id)

module _ (fl : Floats) where
  open fl use {Float}

  task_id-with_kind : (t : PlanTask Float) → (with_kind fl t).task_id ≡ t.task_id
  unfolding with_kind
  task_id-with_kind t = ground arith

  module _ (level : String) (budget : Float) (blocked : List Date) (key : String)
      (start end : Date) where
    step-ids :
        (s : Progress Float) (item : TemplateTask Float) (s' : Progress Float)
        → PlaceStep fl level budget blocked key start end s item s'
        → ids s'.required_tasks ≡ ids s.required_tasks ++ required_of level key (item ∷ [])
    step-ids s item s' (skipped el e) = ground (arith, append-nil (ids s.required_tasks))
    step-ids s item s' (dropped el op e) = ground (arith, append-nil (ids s.required_tasks))
    step-ids s item s' (placed due el free within e) =
        let task = with_kind fl (new_task fl key item start due) in
        ground (
          arith,
          append-nil (ids s.required_tasks),
          task_id-with_kind (new_task fl key item start due),
          map-append (λ (t : PlanTask Float). t.task_id) s.required_tasks (task ∷ []),
        )

    loop-ids :
        (items : List (TemplateTask Float)) (s : Progress Float) {s' : Progress Float}
        → place_all fl level budget blocked key start end s items ≡ ok s'
        → ids s'.required_tasks ≡ ids s.required_tasks ++ required_of level key items
    loop-ids [] s h = rw (append-nil, ← place_all_nil fl level budget blocked key start end s h)
    loop-ids (item ∷ items) s h =
        let (next, step, rest) =
          place_all_step fl level budget blocked key start end s item items h in
        ground (
          arith,
          loop-ids items next rest,
          step-ids s item next step,
          append_assoc (ids s.required_tasks) (required_of level key (item ∷ []))
              (required_of level key items),
        )

  module _ (level : String) (budget : Float) (blocked : List Date) (ranges : Ranges) where
    abbrev keys : List PlanPhase → List String
    keys = map (λ p. p.key)

    abbrev template_keys : List (PhaseTemplate Float) → List String
    template_keys = map (λ t. t.key)

    phases-ids :
        (templates : List (PhaseTemplate Float)) (s : Progress Float) (phases : List PlanPhase)
        {result : Progress Float × List PlanPhase}
        → place_phases fl level budget blocked ranges s phases templates ≡ ok result
        → (ids result.0.required_tasks ≡ ids s.required_tasks ++ all_required level templates)
          × (keys result.1 ≡ keys phases ++ template_keys templates)
    phases-ids [] s phases h =
        let e = place_phases_nil fl level budget blocked ranges s phases h in
        (
          rw (append-nil)
              (ap (λ (r : Progress Float × List PlanPhase). ids r.0.required_tasks) (sym e)),
          rw (append-nil) (ap (λ (r : Progress Float × List PlanPhase). keys r.1) (sym e)),
        )
    phases-ids (t ∷ rest) s phases h =
        let st = phase_step fl level budget blocked ranges s phases t rest h in
        let phase = new_phase fl t st.start st.end st.after.phase_task_ids in
        let (more_ids, more_keys) = phases-ids rest st.after (phases ++ phase ∷ []) st.others in
        let here =
          loop-ids level budget blocked t.key st.start st.end t.tasks
            (record s { phase_task_ids = [] }) st.items_placed in
        (
          more_ids
              ∙ ap (λ (l : List String). l ++ all_required level rest) here
              ∙ append_assoc (ids s.required_tasks) (required_of level t.key t.tasks)
                  (all_required level rest),
          more_keys
              ∙ ap (λ (l : List String). l ++ template_keys rest)
                  (map-append (λ (p : PlanPhase). p.key) phases (phase ∷ []))
              ∙ append_assoc (keys phases) (t.key ∷ []) (template_keys rest),
        )

  -- A scheduled plan has one phase for each template, in order, and its required tasks are exactly
  -- the required tasks of the templates that the experience level admits, in order: none is
  -- dropped and none is added.
  pub schedule_plan-required :
      (request : PlanGenerationRequest) (templates : List (PhaseTemplate Float))
      (plan : ScheduledPlan Float)
      → schedule_plan fl request templates ≡ ok plan
      → (ids plan.tasks ≡ all_required request.experience_level templates)
        × (map (λ p. p.key) plan.phases ≡ map (λ t. t.key) templates)
  schedule_plan-required request templates plan h =
      let done = scheduled fl request templates plan h in
      subst
        (λ (p : ScheduledPlan Float).
          (ids p.tasks ≡ all_required request.experience_level templates)
          × (map (λ p. p.key) p.phases ≡ map (λ t. t.key) templates))
        done.plan_eq
        (phases-ids request.experience_level (optional_budget fl request) (blocked_dates fl request)
          done.ranges templates (no_progress fl) [] done.placed_all)
