-- ===== src/Planning/Types.antt =====
-- The values of planning/schemas.py and contracts/plan.py, with the checks that their constructors
-- make. A date is its proleptic Gregorian ordinal, `date.toordinal()`.
use dext.Base.{
  ℕ, String, Bool, true, false, not, ◌&&◌, ◌||◌, Option, none, some, List, [], ◌∷◌, ◌++◌, map, ltb,
  leb, elem, any, is_empty, append, if◌then◌else◌, ◌==◌, Result, ok, raise,
}
use dext.Base.Floats.{Floats}
use dext.Base.Text.{is_blank}
use dext.Grounded.Types.{SourceRef}

abbrev pub Date : Type 0
Date = ℕ

pub record PlanConstraints : Type 0 where
  pub exam_dates : List Date
  pub unavailable_dates : List Date
  pub team_status : Option String
  pub school_deadline : Option Date

-- `student_context` is passed on to the generation and never read here.
pub record PlanGenerationRequest : Type 0 where
  pub competition_id : String
  pub calendar_today : Date
  pub target_date : Date
  pub weekly_hours : ℕ
  pub experience_level : String
  pub time_model : String
  pub event_end_date : Option Date
  pub defense_date : Option Date
  pub constraints : PlanConstraints

-- The exceptions of the planning code: `PlanSchedulingError`, and the built-in ones.
pub data PlanError : Type 0 where
  scheduling_error : String → PlanError
  value_error : String → PlanError
  key_error : String → PlanError
  type_error : String → PlanError
  index_error : PlanError

pub data ErrorSeverity : Type 0 where
  warning error : ErrorSeverity

pub data CompetitionErrorCode : Type 0 where
  knowledge_base_unavailable knowledge_base_stale catalog_unavailable : CompetitionErrorCode
  no_candidates_after_filters needs_clarification invalid_request : CompetitionErrorCode
  stale_fact unsafe_advice unauthorized_contact generation_unavailable : CompetitionErrorCode
  generation_fallback plan_invalid change_card_rejected : CompetitionErrorCode
  plan_revision_stale llm_unavailable : CompetitionErrorCode

pub record CompetitionError : Type 0 where
  pub code : CompetitionErrorCode
  pub severity : ErrorSeverity
  pub message : String

module _ (F : Type 0) where
  pub record TemplateTask : Type 0 where
    pub key : String
    pub label : String
    pub estimated_hours : F
    pub required : Bool
    pub min_experience : String

  pub record PhaseTemplate : Type 0 where
    pub key : String
    pub label : String
    pub weight : F
    pub tasks : List TemplateTask

  pub record PlanTask : Type 0 where
    pub task_id : String
    pub phase_id : String
    pub label : String
    pub is_mandatory : Bool
    pub estimated_weeks : Option F
    pub depends_on : List String
    pub kind : String
    pub estimated_hours : Option F
    pub start_date : Option Date
    pub due_date : Option Date

pub record PlanPhase : Type 0 where
  pub phase_id : String
  pub key : String
  pub label : String
  pub start_date : Date
  pub end_date : Date
  pub task_ids : List String

module _ (F : Type 0) where
  pub record PreparationPlanDraft : Type 0 where
    pub plan_id : String
    pub competition_id : String
    pub time_model : String
    pub target_date : Option Date
    pub event_end_date : Option Date
    pub defense_date : Option Date
    pub phases : List PlanPhase
    pub tasks : List (PlanTask F)
    pub optional_tasks : List (PlanTask F)
    pub milestones : List String
    pub calendar_items : List String
    pub risk_register : List String
    pub internal_source_refs : List SourceRef
    pub warnings : List CompetitionError
    pub revision : ℕ

  pub record PlanGenerationResult : Type 0 where
    pub draft : Option PreparationPlanDraft
    pub issues : List CompetitionError
    pub generation_profile_version : String

-- `a and b and test(a, b)` on two optional dates
abbrev pub both : (Date → Date → Bool) → Option Date → Option Date → Bool
both test (some a) (some b) = test a b
both test _ _ = false

abbrev pub time_models : List String
time_models = "submission_deadline" ∷ "competition_window" ∷ []

abbrev pub task_kinds : List String
task_kinds = "required" ∷ "optional" ∷ "user_added" ∷ []

-- The ids form a set as large as the list.
unfoldable pub distinct : List String → Bool
distinct [] = true
distinct (x ∷ xs) = not (elem x xs) && distinct xs

-- `PlanPhase.__post_init__`
unfoldable pub check_phase : PlanPhase → Result PlanError PlanPhase
unfolding is_blank
check_phase p =
    if p.phase_id == "" || p.key == "" || is_blank p.label
    then raise (value_error "plan phase id, key and label must be non-empty")
    else if ltb p.end_date p.start_date
    then raise (value_error "phase start_date must not be after end_date")
    else ok p

module _ (fl : Floats) where
  open fl use {Float, of_ℕ, le}

  -- `value is not None and value <= 0`
  abbrev not_positive : Option Float → Bool
  not_positive none = false
  not_positive (some h) = le h (of_ℕ 0)

  -- The assignment `self.kind = "required"` of a mandatory task.
  unfoldable pub with_kind : PlanTask Float → PlanTask Float
  with_kind t =
      if t.is_mandatory && not (t.kind == "required") then record t { kind = "required" } else t

  -- `PlanTask.__post_init__`
  unfoldable pub check_task : PlanTask Float → Result PlanError (PlanTask Float)
  unfolding is_blank with_kind
  check_task t =
      if t.task_id == "" || t.phase_id == "" || is_blank t.label
      then raise (value_error "plan task id, phase id and label must be non-empty")
      else if not (elem t.kind task_kinds)
      then raise (value_error (append "unsupported plan task kind: " t.kind))
      else if not_positive t.estimated_weeks
      then raise (value_error "estimated_weeks must be positive")
      else if not_positive t.estimated_hours
      then raise (value_error "estimated_hours must be positive")
      else if both (λ a b. ltb b a) t.start_date t.due_date
      then raise (value_error "task start_date must not be after due_date")
      else ok (with_kind t)

  abbrev phase_ids : PreparationPlanDraft Float → List String
  phase_ids d = map (λ p. p.phase_id) d.phases

  abbrev all_tasks : PreparationPlanDraft Float → List (PlanTask Float)
  all_tasks d = d.tasks ++ d.optional_tasks

  -- `PreparationPlanDraft.__post_init__`
  unfoldable pub check_draft :
      PreparationPlanDraft Float → Result PlanError (PreparationPlanDraft Float)
  unfolding distinct
  check_draft d =
      if d.plan_id == "" || d.competition_id == ""
      then raise (value_error "plan_id and competition_id must be non-empty")
      else if not (elem d.time_model time_models)
      then raise (value_error (append "unsupported time_model: " d.time_model))
      else if both (λ end target. ltb end target) d.event_end_date d.target_date
      then raise (value_error "event_end_date must not be before target_date")
      else if both (λ defense target. leb defense target) d.defense_date d.target_date
      then raise (value_error "defense_date must be after target_date")
      else if not (distinct (phase_ids d))
      then raise (value_error "phase ids must be unique")
      else if not (distinct (map (λ t. t.task_id) (all_tasks d)))
      then raise (value_error "task ids must be unique")
      else if not (is_empty d.phases)
          && any (λ t. not (elem t.phase_id (phase_ids d))) (all_tasks d)
      then raise (value_error "every task phase_id must reference a plan phase")
      else ok d
