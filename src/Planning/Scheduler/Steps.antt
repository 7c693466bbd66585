-- ===== src/Planning/Scheduler/Steps.antt =====
-- The successful steps of `schedule_plan`'s loops, inverted once for all proofs about them.
use dext.Base.{
  ◌≡◌, String, Bool, true, false, not, ◌&&◌, some, List, [], ◌∷◌, ◌++◌, arith, ok, bind-ok, subst,
  ok-injective, Option-cases, Bool-cases, inl, inr,
}
use dext.Base.Floats.{Floats}
use dext.Planning.Types.{
  Date, PlanGenerationRequest, TemplateTask, PhaseTemplate, PlanTask, PlanPhase, check_task,
  check_phase, with_kind,
}
use dext.Planning.Scheduler.Ranges.{available_due_date, eligible}
use dext.Planning.Scheduler.Placing.{
  Progress, Ranges, place, place_all, place_phases, new_task, note_task, drop_task, new_phase,
  range_at, ScheduledPlan, schedule_plan, optional_budget, blocked_dates, no_progress, plan_ranges,
  scheduled_plan, after_deadline,
}

pub check_phase-eq-ok : (p : PlanPhase) {q : PlanPhase} → check_phase p ≡ ok q → q ≡ p
unfolding check_phase
check_phase-eq-ok p h = ground arith

module _ (fl : Floats) where
  open fl use {Float}

  pub check_task-eq-ok :
      (t : PlanTask Float) {u : PlanTask Float} → check_task fl t ≡ ok u → u ≡ with_kind fl t
  unfolding check_task
  check_task-eq-ok t h = ground arith

  module _ (level : String) (budget : Float) (blocked : List Date) (key : String)
      (start end : Date) where
    abbrev over_budget : Progress Float → TemplateTask Float → Bool
    over_budget s item =
        not item.required && fl.gt (fl.add s.optional_used item.estimated_hours) budget

    -- An item is skipped, dropped or placed.
    pub data PlaceStep (s : Progress Float) (item : TemplateTask Float) (s' : Progress Float)
        : Type 0 where
      skipped : eligible item level ≡ false → s' ≡ s → PlaceStep s item s'
      dropped :
          eligible item level ≡ true
          → item.required ≡ false
          → s' ≡ drop_task fl s item
          → PlaceStep s item s'
      placed :
          (due : Date)
          → eligible item level ≡ true
          → available_due_date start end blocked ≡ some due
          → over_budget s item ≡ false
          → s' ≡ note_task fl s item (with_kind fl (new_task fl key item start due))
          → PlaceStep s item s'

    module _ (s : Progress Float) (item : TemplateTask Float) where
      place_due :
          (due : Date) {s' : Progress Float}
          → eligible item level ≡ true
          → available_due_date start end blocked ≡ some due
          → place fl level budget blocked key start end s item ≡ ok s'
          → PlaceStep s item s'
      unfolding place
      place_due due el free h = elim (Bool-cases (over_budget s item)) [
        | inl over ↦ dropped el (ground arith) (ground arith)
        | inr within ↦
            let (task, made, noted) =
              bind-ok (check_task fl (new_task fl key item start due))
                (λ t. ok (note_task fl s item t)) (rw (el, free, within) at h) in
            placed due el free within (cc (check_task-eq-ok (new_task fl key item start due) made))
      ]

      pub place_step :
          {s' : Progress Float}
          → place fl level budget blocked key start end s item ≡ ok s'
          → PlaceStep s item s'
      unfolding place
      place_step h = elim (Bool-cases (eligible item level)) [
        | inr el ↦ skipped el (ground arith)
        | inl el ↦ elim (Option-cases (available_due_date start end blocked)) [
          | inl none_free ↦ dropped el (ground arith) (ground arith)
          | inr (due, free) ↦ place_due due el free h
        ]
      ]

    -- A round of the loop over a template's tasks.
    pub place_all_step :
        (s : Progress Float) (item : TemplateTask Float) (items : List (TemplateTask Float))
        {s' : Progress Float}
        → place_all fl level budget blocked key start end s (item ∷ items) ≡ ok s'
        → (next : Progress Float) × PlaceStep s item next
          × (place_all fl level budget blocked key start end next items ≡ ok s')
    unfolding place_all
    place_all_step s item items h =
        let (next, step, rest) =
          bind-ok (place fl level budget blocked key start end s item)
            (λ next. place_all fl level budget blocked key start end next items) h in
        (next, place_step s item step, rest)

    pub place_all_nil :
        (s : Progress Float) {s' : Progress Float}
        → place_all fl level budget blocked key start end s [] ≡ ok s'
        → s ≡ s'
    unfolding place_all
    place_all_nil s h = ok-injective h

    -- An invariant of the single steps is one of the loop over a template's tasks.
    pub place_all_induction :
        (P : Progress Float → Type 0)
        → ((s : Progress Float) (item : TemplateTask Float) (s' : Progress Float)
            → PlaceStep s item s'
            → P s
            → P s')
        → (items : List (TemplateTask Float)) (s : Progress Float) {s' : Progress Float}
        → place_all fl level budget blocked key start end s items ≡ ok s'
        → P s
        → P s'
    place_all_induction P keep [] s h p = subst P (place_all_nil s h) p
    place_all_induction P keep (item ∷ items) s h p =
        let (next, step, rest) = place_all_step s item items h in
        place_all_induction P keep items next rest (keep s item next step p)

  -- One round of the loop over the templates.
  pub record PhaseStep (level : String) (budget : Float) (blocked : List Date) (ranges : Ranges)
      (s : Progress Float) (phases : List PlanPhase) (t : PhaseTemplate Float)
      (rest : List (PhaseTemplate Float)) (result : Progress Float × List PlanPhase) : Type 0 where
    pub start : Date
    pub end : Date
    pub after : Progress Float
    pub in_range : range_at ranges t.key ≡ ok (start, end)
    pub items_placed :
        place_all fl level budget blocked t.key start end (record s { phase_task_ids = [] }) t.tasks
        ≡ ok after
    pub others :
        place_phases fl level budget blocked ranges after
          (phases ++ new_phase fl t start end after.phase_task_ids ∷ [])
          rest
        ≡ ok result

  pub place_phases_nil :
      (level : String) (budget : Float) (blocked : List Date) (ranges : Ranges) (s : Progress Float)
      (phases : List PlanPhase) {result : Progress Float × List PlanPhase}
      → place_phases fl level budget blocked ranges s phases [] ≡ ok result
      → ◌≡◌ {A = Progress Float × List PlanPhase} (s, phases) result
  unfolding place_phases
  place_phases_nil level budget blocked ranges s phases h = ok-injective h

  pub phase_step :
      (level : String) (budget : Float) (blocked : List Date) (ranges : Ranges) (s : Progress Float)
      (phases : List PlanPhase) (t : PhaseTemplate Float) (rest : List (PhaseTemplate Float))
      {result : Progress Float × List PlanPhase}
      → place_phases fl level budget blocked ranges s phases (t ∷ rest) ≡ ok result
      → PhaseStep level budget blocked ranges s phases t rest result
  unfolding place_phases
  phase_step level budget blocked ranges s phases t rest {result} h =
      let (range, found, h₁) = bind-ok (range_at ranges t.key) _ h in
      let (after, items, h₂) =
        bind-ok
          (place_all fl level budget blocked t.key range.0 range.1
            (record s { phase_task_ids = [] }) t.tasks)
          _ h₁ in
      let (phase, made, h₃) =
        bind-ok (check_phase (new_phase fl t range.0 range.1 after.phase_task_ids)) _ h₂ in
      record {
        start = range.0;
        end = range.1;
        after = after;
        in_range = found;
        items_placed = items;
        others =
            rw (check_phase-eq-ok (new_phase fl t range.0 range.1 after.phase_task_ids) made) at h₃;
      }

  -- A successful `schedule_plan`, up to its last loop.
  pub record Scheduled (request : PlanGenerationRequest) (templates : List (PhaseTemplate Float))
      (plan : ScheduledPlan Float) : Type 0 where
    pub ranges : Ranges
    pub result : Progress Float × List PlanPhase
    pub placed_all :
        place_phases fl request.experience_level
          (optional_budget fl request)
          (blocked_dates fl request)
          ranges
          (no_progress fl)
          []
          templates
        ≡ ok result
    pub plan_eq : scheduled_plan fl result ≡ plan

  pub scheduled :
      (request : PlanGenerationRequest) (templates : List (PhaseTemplate Float))
      (plan : ScheduledPlan Float)
      → schedule_plan fl request templates ≡ ok plan
      → Scheduled request templates plan
  unfolding schedule_plan
  scheduled request templates plan h = elim (Bool-cases (after_deadline fl request)) [
    | inl late ↦ cc (rw late at h)
    | inr in_time ↦
        let (ranges, _, h₁) = bind-ok (plan_ranges fl request templates) _ (rw in_time at h) in
        let (result, all, h₂) =
          bind-ok
            (place_phases fl request.experience_level (optional_budget fl request)
              (blocked_dates fl request) ranges (no_progress fl) [] templates)
            (λ r. ok (scheduled_plan fl r)) h₁ in
        record { ranges = ranges; result = result; placed_all = all; plan_eq = ok-injective h₂ }
  ]
