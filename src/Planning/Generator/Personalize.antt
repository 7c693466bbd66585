-- ===== src/Planning/Generator/Personalize.antt =====
-- `_fact_bundle` and `_personalize` of planning/generator.py.
use dext.Base.{
  ℕ, ◌+◌, ◌-◌, String, false, Option, none, some, List, [], ◌∷◌, ◌++◌, map, is_empty, append,
  or_else, if◌then◌else◌, ◌==◌, Result, ok, raise, ◌>>=◌,
}
use dext.Base.Floats.{Floats, fmax}
use dext.Base.Text.{decimal}
use dext.Grounded.Output.{Value}
use dext.Grounded.Types.{SourceRef, fact, FactItem, fact_item, FactBundle, GenerationWarning}
use dext.Planning.Types.{
  Date, PlanGenerationRequest, PlanTask, PlanPhase, PreparationPlanDraft, PlanError, key_error,
  CompetitionError, CompetitionErrorCode, generation_fallback, ErrorSeverity, warning, check_task,
  check_phase, check_draft,
}
use dext.Planning.Card.{CompetitionCard}
use dext.Planning.Scheduler.{available_due_date}
use dext.Planning.Validation.{Suggestion, phase_by_key, validate_personalization_output}

-- What the code reads of a `PlanGenerationProfile` itself.
pub record Profile : Type 0 where
  pub version : String
  pub system_prompt_id : String
  pub safety_domain : String
  pub operation_id : String
  pub max_optional_tasks_per_phase : ℕ

-- The arguments of the pipeline's call that depend on the request.
pub record PipelineInput : Type 0 where
  pub competition_id : String
  pub time_model : String
  pub experience_level : String
  pub weekly_hours : ℕ
  pub phase_keys : List String
  pub fact_bundle : FactBundle
  pub profile : Profile

pub record Generated : Type 0 where
  pub output : Value
  pub warnings : List GenerationWarning

-- The constrained generation; `none` is a timeout, an `OSError` or a `RuntimeError`.
abbrev pub Pipeline : Type 0
Pipeline = PipelineInput → Option Generated

-- `"; ".join(parts)`
unfoldable pub join : String → List String → String
join sep [] = ""
join sep (p ∷ []) = p
join sep (p ∷ q ∷ rest) = append p (append sep (join sep (q ∷ rest)))

abbrev pub issue : CompetitionErrorCode → ErrorSeverity → String → CompetitionError
issue code severity message = record { code = code; severity = severity; message = message }

abbrev pub fallback_warning : String → CompetitionError
fallback_warning message = issue generation_fallback warning message

-- A fact for each field that is not empty.
unfoldable pub facts_of : List SourceRef → List (String × String) → List FactItem
unfolding fact_item
facts_of refs [] = []
facts_of refs ((name, value) ∷ rest) =
    let more = facts_of refs rest in
    let item =
      fact_item
        (record { field_name = name; value = value; content_class = fact; source_refs = refs }) in
    if value == "" then more else item ∷ more

unfoldable pub fact_bundle : CompetitionCard → String → FactBundle
unfolding facts_of join
fact_bundle card build_id = record {
  build_id = build_id;
  subject_id = card.competition_id;
  facts = facts_of card.internal_source_refs (
      ("category", card.category)
      ∷ ("summary", card.summary)
      ∷ ("eligibility", card.eligibility)
      ∷ ("preparation_focus", join "; " card.preparation_focus)
      ∷ []);
  source_refs = card.internal_source_refs;
}

module _ (fl : Floats) (number_of : String → Option fl.Float) where
  open fl use {Float, of_ℕ, add, mul, div, gt}

  abbrev pub ai_task : String → PlanPhase → ℕ → Date → Suggestion Float → PlanTask Float
  ai_task phase_key phase index due s = record {
    task_id = append "task:" (append phase_key (append ":ai:" (decimal index)));
    phase_id = phase.phase_id;
    label = s.title;
    is_mandatory = false;
    estimated_weeks = none;
    depends_on = [];
    kind = "optional";
    estimated_hours = some s.hours;
    start_date = some phase.start_date;
    due_date = some due;
  }

  -- The hours used and the tasks added so far; `none` once the budget is exceeded.
  abbrev pub Additions : Type 0
  Additions = Option (Float × List (PlanTask Float))

  -- The loop over the suggestions of a phase.
  unfoldable pub add_tasks :
      Float
      → String
      → PlanPhase
      → Date
      → ℕ
      → Float
      → List (PlanTask Float)
      → List (Suggestion Float)
      → Result PlanError Additions
  add_tasks budget key phase due index used added [] = ok (some (used, added))
  add_tasks budget key phase due index used added (s ∷ rest) =
      let more = λ (task : PlanTask Float).
        add_tasks budget key phase due (index + 1) (add used s.hours) (added ++ task ∷ []) rest in
      if gt (add used s.hours) budget
      then ok none
      else (do task ← check_task fl (ai_task key phase index due s); more task)

  abbrev pub then_more :
      Result PlanError Additions
      → (Float → List (PlanTask Float) → Result PlanError Additions)
      → Result PlanError Additions
  then_more (raise e) f = raise e
  then_more (ok none) f = ok none
  then_more (ok (some (used, added))) f = f used added

  -- One phase of the checked output. Its tasks are due on the phase's latest free date, down to
  -- which the `while` loop steps; without one they are left out.
  unfoldable pub add_phase :
      Float
      → List Date
      → List PlanPhase
      → Float
      → List (PlanTask Float)
      → String
      → List (Suggestion Float)
      → Result PlanError Additions
  unfolding add_tasks phase_by_key
  add_phase budget blocked phases used added key suggestions = elim (phase_by_key phases key) [
    | none ↦ raise (key_error key)
    | some phase ↦ elim (available_due_date phase.start_date phase.end_date blocked) [
      | none ↦ ok (some (used, added))
      | some due ↦ add_tasks budget key phase due 0 used added suggestions
    ]
  ]

  -- The loop over `output.items()`.
  unfoldable pub additions_loop :
      Float
      → List Date
      → List PlanPhase
      → Float
      → List (PlanTask Float)
      → List (String × List (Suggestion Float))
      → Result PlanError Additions
  unfolding add_phase
  additions_loop budget blocked phases used added [] = ok (some (used, added))
  additions_loop budget blocked phases used added ((key, suggestions) ∷ rest) =
      then_more (add_phase budget blocked phases used added key suggestions)
        (λ used' added'. additions_loop budget blocked phases used' added' rest)

  -- `additions_by_phase.get(phase_id, ())`
  unfoldable pub ids_of_phase : String → List (PlanTask Float) → List String
  ids_of_phase phase_id [] = []
  ids_of_phase phase_id (t ∷ rest) =
      let more = ids_of_phase phase_id rest in
      if t.phase_id == phase_id then t.task_id ∷ more else more

  unfoldable pub extend_phases :
      List (PlanTask Float) → List PlanPhase → Result PlanError (List PlanPhase)
  unfolding ids_of_phase check_phase
  extend_phases added [] = ok []
  extend_phases added (p ∷ rest) = do
    p' ← check_phase (record p { task_ids = p.task_ids ++ ids_of_phase p.phase_id added })
    rest' ← extend_phases added rest
    ok (p' ∷ rest')

  -- `sum(task.estimated_hours or 0.0 for task in optional_tasks)`
  unfoldable pub used_hours : Float → List (PlanTask Float) → Float
  used_hours acc [] = acc
  used_hours acc (t ∷ rest) = used_hours (add acc (or_else t.estimated_hours (of_ℕ 0))) rest

  abbrev pub total_budget : PlanGenerationRequest → Float
  total_budget request =
      mul (of_ℕ request.weekly_hours)
        (fmax fl (of_ℕ 1) (div (of_ℕ (request.target_date - request.calendar_today)) (of_ℕ 7)))

  abbrev pub Personalized : Type 0
  Personalized = PreparationPlanDraft Float × List CompetitionError

  abbrev pub fall_back : PreparationPlanDraft Float → String → Result PlanError Personalized
  fall_back draft message = ok (draft, fallback_warning message ∷ [])

  -- The draft with the additions, once they fit the budget.
  abbrev pub extended : PreparationPlanDraft Float → Additions → Result PlanError Personalized
  extended draft none =
      fall_back draft
        "generated personalization exceeds the available weekly-hours budget; grounded template used"
  extended draft (some (used, added)) = do
    phases ← extend_phases added draft.phases
    personalized ←
        check_draft fl
          (record draft { phases = phases; optional_tasks = draft.optional_tasks ++ added })
    ok (personalized, [])

  abbrev pub with_output :
      PlanGenerationRequest
      → PreparationPlanDraft Float
      → Option (List (String × List (Suggestion Float)))
      → Result PlanError Personalized
  with_output request draft none =
      fall_back draft "generated personalization failed schema validation; grounded template used"
  with_output request draft (some output) = do
    additions ←
        additions_loop (total_budget request)
          (request.constraints.exam_dates ++ request.constraints.unavailable_dates) draft.phases
          (used_hours (of_ℕ 0) draft.optional_tasks) [] output
    extended draft additions

  abbrev pub with_generated :
      PlanGenerationRequest
      → PreparationPlanDraft Float
      → Profile
      → Option Generated
      → Result PlanError Personalized
  with_generated request draft profile none =
      fall_back draft "generation provider failed; grounded template used"
  with_generated request draft profile (some generated) =
      if is_empty generated.warnings
      then (do
        output ←
            validate_personalization_output fl number_of (map (λ p. p.key) draft.phases)
              profile.max_optional_tasks_per_phase generated.output
        with_output request draft output)
      else fall_back draft "generated personalization was rejected; grounded template used"

  unfoldable pub personalize :
      PlanGenerationRequest
      → CompetitionCard
      → PreparationPlanDraft Float
      → Option Pipeline
      → Option Profile
      → String
      → Result PlanError Personalized
  unfolding fact_bundle additions_loop used_hours extend_phases
  personalize request card draft (some pipeline) (some profile) build_id =
      with_generated request draft profile (
        pipeline (record {
          competition_id = request.competition_id;
          time_model = request.time_model;
          experience_level = request.experience_level;
          weekly_hours = request.weekly_hours;
          phase_keys = map (λ p. p.key) draft.phases;
          fact_bundle = fact_bundle card build_id;
          profile = profile;
        }))
  personalize request card draft _ _ build_id =
      fall_back draft "generation unavailable; grounded template used"
