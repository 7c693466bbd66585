-- ===== src/Planning/Scheduler/Placing.antt =====
-- `schedule_plan` of planning/scheduler.py, with the bodies of its loops as functions.
use dext.Base.{
  ◌+◌, ◌-◌, String, Bool, false, not, ◌&&◌, none, some, List, [], ◌∷◌, ◌++◌, ltb, elem, any,
  keep_if, append, or_else, if◌then◌else◌, ◌==◌, Result, ok, raise, ◌>>=◌,
}
use dext.Base.Floats.{Floats, fmax}
use dext.Planning.Types.{
  Date, PlanGenerationRequest, TemplateTask, PhaseTemplate, PlanTask, PlanPhase, PlanError,
  scheduling_error, value_error, key_error, index_error, check_task, check_phase,
}
use dext.Planning.Scheduler.Ranges.{allocate_ranges, available_due_date, eligible}

-- The lists and the counter that the loop over a template's tasks appends to.
pub record Progress (F : Type 0) : Type 0 where
  pub required_tasks : List (PlanTask F)
  pub optional_tasks : List (PlanTask F)
  pub dropped : List String
  pub optional_used : F
  pub phase_task_ids : List String

pub record ScheduledPlan (F : Type 0) : Type 0 where
  pub phases : List PlanPhase
  pub tasks : List (PlanTask F)
  pub optional_tasks : List (PlanTask F)
  pub dropped_optional_labels : List String

-- The dictionary `ranges`, which is only written and read by key: the latest entry stands first.
abbrev pub Ranges : Type 0
Ranges = List (String × (Date × Date))

unfoldable pub range_at : Ranges → String → Result PlanError (Date × Date)
range_at [] key = raise (key_error key)
range_at ((k, r) ∷ rest) key = if k == key then ok r else range_at rest key

unfoldable pub last_range : List (Date × Date) → Result PlanError (Date × Date)
last_range [] = raise index_error
last_range (r ∷ []) = ok r
last_range (r ∷ s ∷ rest) = last_range (s ∷ rest)

module _ (fl : Floats) where
  open fl use {Float, of_ℕ, add, mul, div, gt}

  abbrev pub new_task : String → TemplateTask Float → Date → Date → PlanTask Float
  new_task template_key item start due = record {
    task_id = append "task:" (append template_key (append ":" item.key));
    phase_id = append "phase:" template_key;
    label = item.label;
    is_mandatory = item.required;
    estimated_weeks = none;
    depends_on = [];
    kind = if item.required then "required" else "optional";
    estimated_hours = some item.estimated_hours;
    start_date = some start;
    due_date = some due;
  }

  -- The appends that follow the construction of a task.
  abbrev pub note_task : Progress Float → TemplateTask Float → PlanTask Float → Progress Float
  note_task s item task =
      if item.required
      then record s {
        required_tasks = s.required_tasks ++ task ∷ [];
        phase_task_ids = s.phase_task_ids ++ task.task_id ∷ [];
      }
      else record s {
        optional_tasks = s.optional_tasks ++ task ∷ [];
        optional_used = add s.optional_used item.estimated_hours;
        phase_task_ids = s.phase_task_ids ++ task.task_id ∷ [];
      }

  abbrev pub drop_task : Progress Float → TemplateTask Float → Progress Float
  drop_task s item = record s { dropped = s.dropped ++ item.label ∷ [] }

  -- The body of `for item in template.tasks`.
  unfoldable pub place :
      String
      → Float
      → List Date
      → String
      → Date
      → Date
      → Progress Float
      → TemplateTask Float
      → Result PlanError (Progress Float)
  unfolding eligible
  place experience_level budget blocked template_key start end s item =
      if not (eligible item experience_level)
      then ok s
      else elim (available_due_date start end blocked) [
        | none ↦
            if item.required
            then raise (scheduling_error (append "mandatory task cannot be scheduled: " item.key))
            else ok (drop_task s item)
        | some due ↦
            if not item.required && gt (add s.optional_used item.estimated_hours) budget
            then ok (drop_task s item)
            else (do
              task ← check_task fl (new_task template_key item start due)
              ok (note_task s item task))
      ]

  unfoldable pub place_all :
      String
      → Float
      → List Date
      → String
      → Date
      → Date
      → Progress Float
      → List (TemplateTask Float)
      → Result PlanError (Progress Float)
  unfolding place
  place_all level budget blocked key start end s [] = ok s
  place_all level budget blocked key start end s (item ∷ items) = do
    s' ← place level budget blocked key start end s item
    place_all level budget blocked key start end s' items

  abbrev pub new_phase : PhaseTemplate Float → Date → Date → List String → PlanPhase
  new_phase t start end ids = record {
    phase_id = append "phase:" t.key;
    key = t.key;
    label = t.label;
    start_date = start;
    end_date = end;
    task_ids = ids;
  }

  -- The loop `for template in templates`: the phases, and what the tasks' loops have gathered.
  unfoldable pub place_phases :
      String
      → Float
      → List Date
      → Ranges
      → Progress Float
      → List PlanPhase
      → List (PhaseTemplate Float)
      → Result PlanError (Progress Float × List PlanPhase)
  unfolding place_all range_at check_phase
  place_phases level budget blocked ranges s phases [] = ok (s, phases)
  place_phases level budget blocked ranges s phases (t ∷ rest) = do
    (start, end) ← range_at ranges t.key
    let fresh = record s { phase_task_ids = [] }
    s' ← place_all level budget blocked t.key start end fresh t.tasks
    phase ← check_phase (new_phase t start end s'.phase_task_ids)
    place_phases level budget blocked ranges s' (phases ++ phase ∷ []) rest

  abbrev pub post_keys : String → List String
  post_keys time_model =
      if time_model == "submission_deadline"
      then "defense_prep" ∷ []
      else "event_sprint" ∷ "recovery" ∷ []

  -- `{template.key: value for template, value in zip(pre, pre_ranges, strict=True)}`
  unfoldable pub phase_ranges :
      Ranges → List (PhaseTemplate Float) → List (Date × Date) → Result PlanError Ranges
  phase_ranges acc [] [] = ok acc
  phase_ranges acc (t ∷ ts) (r ∷ rs) = phase_ranges ((t.key, r) ∷ acc) ts rs
  phase_ranges acc _ _ = raise (value_error "zip() arguments have different lengths")

  -- The ranges that the two time models add.
  unfoldable pub post_ranges :
      PlanGenerationRequest
      → List (PhaseTemplate Float)
      → List (Date × Date)
      → Ranges
      → Result PlanError Ranges
  unfolding last_range
  post_ranges request templates pre_ranges ranges =
      if request.time_model == "submission_deadline"
      then (let defense_end = or_else request.defense_date (request.target_date + 14) in
          let defense : Date × Date = (request.target_date + 1, defense_end) in
          if any (λ t. t.key == "submission") templates
          then (do
            r ← last_range pre_ranges
            ok (("defense_prep", defense) ∷ ("submission", r) ∷ ranges))
          else ok (("defense_prep", defense) ∷ ranges))
      else (let event_end = or_else request.event_end_date request.target_date in
          if ltb event_end request.target_date
          then raise (scheduling_error "event window ends before it starts")
          else ok (
              ("recovery", (event_end + 1, event_end + 7))
              ∷ ("event_sprint", (request.target_date, event_end))
              ∷ ranges))

  -- `weekly_hours * total_weeks`. A target before today gives `max(1.0, ...)` its 1.0, as 0 days do.
  unfoldable pub optional_budget : PlanGenerationRequest → Float
  optional_budget request =
      let days = request.target_date - request.calendar_today in
      let total_weeks = fmax fl (of_ℕ 1) (div (of_ℕ days) (of_ℕ 7)) in
      fmax fl (of_ℕ 0) (mul (of_ℕ request.weekly_hours) total_weeks)

  abbrev pub no_progress : Progress Float
  no_progress = record {
    required_tasks = [];
    optional_tasks = [];
    dropped = [];
    optional_used = of_ℕ 0;
    phase_task_ids = [];
  }

  abbrev pub blocked_dates : PlanGenerationRequest → List Date
  blocked_dates request = request.constraints.exam_dates ++ request.constraints.unavailable_dates

  abbrev pub after_deadline : PlanGenerationRequest → Bool
  after_deadline request = elim request.constraints.school_deadline [
    | none ↦ false
    | some deadline ↦ ltb deadline request.target_date
  ]

  -- The statements of `schedule_plan` that fill the dictionary `ranges`.
  unfoldable pub plan_ranges :
      PlanGenerationRequest → List (PhaseTemplate Float) → Result PlanError Ranges
  unfolding allocate_ranges phase_ranges post_ranges
  plan_ranges request templates = do
    let pre = keep_if (λ t. not (elem t.key (post_keys request.time_model))) templates
    pre_ranges ← allocate_ranges fl request.calendar_today request.target_date pre
    phased ← phase_ranges [] pre pre_ranges
    post_ranges request templates pre_ranges phased

  abbrev pub scheduled_plan : Progress Float × List PlanPhase → ScheduledPlan Float
  scheduled_plan (s, phases) = record {
    phases = phases;
    tasks = s.required_tasks;
    optional_tasks = s.optional_tasks;
    dropped_optional_labels = s.dropped;
  }

  unfoldable pub schedule_plan :
      PlanGenerationRequest → List (PhaseTemplate Float) → Result PlanError (ScheduledPlan Float)
  unfolding plan_ranges optional_budget place_phases
  schedule_plan request templates =
      if after_deadline request
      then raise (scheduling_error "target date is after the school deadline")
      else do
        ranges ← plan_ranges request templates
        result ←
            place_phases request.experience_level (optional_budget request) (blocked_dates request)
              ranges no_progress [] templates
        ok (scheduled_plan result)
