-- ===== src/Planning/Generator/Generate.antt =====
-- `_validate_request` and `PreparationPlanGenerator.generate` of planning/generator.py.
use dext.Base.{
  ◌+◌, String, Bool, true, false, not, ◌&&◌, Option, none, some, List, [], ◌∷◌, ◌++◌, map, leb,
  nat_eq, elem, any, is_empty, is_some, append, or_else, if◌then◌else◌, ◌==◌, Result, ok, raise,
  ◌>>=◌,
}
use dext.Base.Floats.{Floats}
use dext.Base.Text.{decimal}
use dext.Planning.Types.{
  Date, PlanGenerationRequest, PreparationPlanDraft, PlanGenerationResult, PlanError,
  scheduling_error, value_error, CompetitionError, plan_invalid, catalog_unavailable,
  knowledge_base_stale, warning, error, time_models, check_draft,
}
use dext.Planning.Card.{CompetitionCard}
use dext.Planning.Templates.{build_phase_templates}
use dext.Planning.Scheduler.{ScheduledPlan, schedule_plan}
use dext.Planning.Validation.{validate_plan}
use dext.Planning.Generator.Personalize.{Profile, Pipeline, Personalized, issue, join, personalize}

abbrev pub levels : List String
levels = "beginner" ∷ "intermediate" ∷ "experienced" ∷ []

-- The first rule that the request breaks.
unfoldable pub validate_request : PlanGenerationRequest → Option String
validate_request r =
    if r.competition_id == ""
    then some "competition_id is required"
    else if not (elem r.time_model time_models)
    then some "unsupported time_model"
    else if not (elem r.experience_level levels)
    then some "unsupported experience_level"
    else if nat_eq r.weekly_hours 0
    then some "weekly_hours must be positive"
    else if leb r.target_date r.calendar_today
    then some "target_date must be after calendar_today"
    else if r.time_model == "competition_window" && is_some r.defense_date
    then some "competition_window must not define defense_date"
    else if r.time_model == "submission_deadline" && is_some r.event_end_date
    then some "submission_deadline must not define event_end_date"
    else none

abbrev is_error : CompetitionError → Bool
is_error e = elim e.severity [ warning ↦ false | error ↦ true ]

module _ {F : Type 0} where
  -- `PlanGenerationResult.__post_init__`
  unfoldable pub check_result : PlanGenerationResult F → Result PlanError (PlanGenerationResult F)
  check_result r =
      if r.generation_profile_version == ""
      then raise (value_error "generation_profile_version must be non-empty")
      else if any is_error r.issues && is_some r.draft
      then raise (value_error "fatal plan generation issues require draft=None")
      else if not (any is_error r.issues) && not (is_some r.draft)
      then raise (value_error "successful plan generation requires a draft")
      else ok r

  -- A result with one error and no draft
  abbrev pub rejected : CompetitionError → Result PlanError (PlanGenerationResult F)
  rejected e =
      check_result (record {
        draft = none;
        issues = e ∷ [];
        generation_profile_version = "competition.plan.v1";
      })

-- `isoformat` of a date and the `uuid5` of a text in the URL namespace are the standard library's.
module _ (fl : Floats) (number_of : String → Option fl.Float) (isoformat : Date → String)
    (uuid5 : String → String) where
  open fl use {Float}

  unfoldable pub plan_id : PlanGenerationRequest → String
  unfolding join decimal
  plan_id r = append "plan_" (
      uuid5 (
        join "|" (
          r.competition_id
          ∷ isoformat r.calendar_today
          ∷ isoformat r.target_date
          ∷ r.time_model
          ∷ decimal r.weekly_hours
          ∷ r.experience_level
          ∷ [])))

  abbrev pub plan_warnings : PlanGenerationRequest → ScheduledPlan Float → List CompetitionError
  plan_warnings r s =
      (if is_empty s.dropped_optional_labels
        then []
        else issue plan_invalid warning
            "optional tasks omitted because of budget or unavailable dates"
          ∷ [])
      ++ (if r.time_model == "competition_window" && not (is_some r.event_end_date)
          then issue knowledge_base_stale warning
              "event end date is uncertain; verify the current competition notice"
            ∷ []
          else [])

  -- The draft before personalization, through its constructor's checks.
  unfoldable pub make_draft :
      PlanGenerationRequest
      → CompetitionCard
      → ScheduledPlan Float
      → Result PlanError (PreparationPlanDraft Float)
  unfolding plan_id check_draft
  make_draft r card s = check_draft fl (record {
    plan_id = plan_id r;
    competition_id = r.competition_id;
    time_model = r.time_model;
    target_date = some r.target_date;
    event_end_date = r.event_end_date;
    defense_date =
        if r.time_model == "submission_deadline"
        then some (or_else r.defense_date (r.target_date + 14))
        else none;
    phases = s.phases;
    tasks = s.tasks;
    optional_tasks = s.optional_tasks;
    milestones = map (λ p. p.label) s.phases;
    calendar_items =
        map
          (λ p.
            append p.key
              (append ":" (append (isoformat p.start_date) (append ":" (isoformat p.end_date)))))
          s.phases;
    risk_register = card.risk_flags;
    internal_source_refs = card.internal_source_refs;
    warnings = plan_warnings r s;
    revision = 0;
  })

  -- The result of a personalized draft: what was generated with issues lists them in the draft.
  abbrev finish :
      List CompetitionError
      → Option Profile
      → Personalized fl number_of
      → Result PlanError (PlanGenerationResult Float)
  finish warnings profile (personalized, issues) =
      let version = elim profile as (λ _. String) [
        | none ↦ "competition.plan.v1"
        | some p ↦ p.version
      ] in
      (do
        draft ←
            (if is_empty issues
              then ok personalized
              else check_draft fl (record personalized { warnings = warnings ++ issues }))
        check_result (record {
          draft = some draft;
          issues = warnings ++ issues;
          generation_profile_version = version;
        }))

  module _ (pipeline : Option Pipeline) (profile : Option Profile) (build_id : String) where
    -- From a scheduled plan on.
    abbrev from_schedule :
        PlanGenerationRequest
        → CompetitionCard
        → ScheduledPlan Float
        → Result PlanError (PlanGenerationResult Float)
    from_schedule r card s = do
      draft ← make_draft r card s
      if is_empty (validate_plan draft)
          then (do
            personalized ← personalize fl number_of r card draft pipeline profile build_id
            finish (plan_warnings r s) profile personalized)
          else rejected (issue plan_invalid error (join "; " (validate_plan draft)))

    -- `except PlanSchedulingError`
    abbrev scheduled_or :
        PlanGenerationRequest
        → CompetitionCard
        → Result PlanError (ScheduledPlan Float)
        → Result PlanError (PlanGenerationResult Float)
    scheduled_or r card (raise (scheduling_error message)) =
        rejected (issue plan_invalid error message)
    scheduled_or r card (raise e) = raise e
    scheduled_or r card (ok s) = from_schedule r card s

    abbrev with_card :
        PlanGenerationRequest
        → Option CompetitionCard
        → Result PlanError (PlanGenerationResult Float)
    with_card r none = rejected (issue catalog_unavailable error "competition not found")
    with_card r (some card) =
        scheduled_or r card
          (schedule_plan fl r (build_phase_templates fl card r.time_model r.experience_level))

    -- `card` is what the catalog port returns, and `profile` the one that was given or loaded.
    unfoldable pub generate :
        PlanGenerationRequest
        → Option CompetitionCard
        → Result PlanError (PlanGenerationResult Float)
    unfolding validate_request make_draft check_result personalize schedule_plan validate_plan
        build_phase_templates
    generate r card = elim (validate_request r) [
      | some message ↦ rejected (issue plan_invalid error message)
      | none ↦ with_card r card
    ]
