-- ===== src/Planning/Tests.antt =====
-- Planning at concrete inputs, over floats that are natural numbers.
use dext.Base.{
  ℕ, ◌+◌, ◌*◌, ◌≡◌, refl, String, true, false, Option, none, some, List, [], ◌∷◌, map, arith, ltb,
  leb, length, drop, or_else, ok, raise, if◌then◌else◌, ◌==◌,
}
use Prim.Native.Nat.{◌/◌}
use mathlib.Core.List.{head?}
use dext.Base.Floats.{Floats, IsStrict}
use dext.Base.Text.{decimal}
use dext.Planning.Types.{
  Date, PlanGenerationRequest, PreparationPlanDraft, PhaseTemplate, PlanTask, check_task,
  check_draft,
}
use dext.Planning.Card.{CompetitionCard}
use dext.Planning.Templates.{build_phase_templates}
use dext.Planning.Scheduler.{
  ScheduledPlan, schedule_plan, allocate_ranges, available_due_date, optional_budget,
}
use dext.Planning.Scheduler.Partition.{Tiles, allocate_ranges-Tiles}
use dext.Planning.Scheduler.DueDate.{DueDate, available_due_date-DueDate}
use dext.Planning.Scheduler.Placement.{ArePlaced, span, schedule_plan-ArePlaced}
use dext.Planning.Scheduler.Contents.{ids, all_required, schedule_plan-required}
use dext.Planning.Scheduler.Budget.{sum_hours, schedule_plan-budget}
use dext.Grounded.Output.{Value, str, atom, arr, obj, nil, cons, end, field}
use dext.Planning.Validation.{validate_personalization_output}
use dext.Planning.Generator.{Profile, Pipeline, personalize}
use dext.Planning.Generator.Additions.{IsPersonalized, personalize-IsPersonalized}

abbrev pub whole : Floats
whole = record {
  Float = ℕ;
  of_ℕ = λ n. n;
  hundredths = λ n. n;
  add = λ a b. a + b;
  mul = λ a b. a * b;
  div = λ a b. a / b;
  gt = λ a b. ltb b a;
  le = λ a b. leb a b;
  round = λ a. a;
}

whole-IsStrict : IsStrict whole
whole-IsStrict = record { irrefl = λ a. ground arith; asymm = λ a b h. ground arith }

abbrev pub card : CompetitionCard
card = record {
  competition_id = "c-1";
  display_name = "数学建模竞赛";
  category = "数学建模";
  tags = [];
  summary = "";
  eligibility = "";
  schedule = "";
  team_policy = "team";
  materials = [];
  ai_compliance = "";
  preparation_focus = [];
  risk_flags = [];
  official_links = [];
  internal_source_refs = [];
  in_2024_catalog = true;
  last_verified = none;
  field_evidence = [];
}

abbrev pub request : PlanGenerationRequest
request = record {
  competition_id = "c-1";
  calendar_today = 738000;
  target_date = 738010;
  weekly_hours = 14;
  experience_level = "experienced";
  time_model = "submission_deadline";
  event_end_date = none;
  defense_date = none;
  constraints = record {
    exam_dates = 738010 ∷ 738009 ∷ [];
    unavailable_dates = [];
    team_status = none;
    school_deadline = none;
  };
}

abbrev templates : List (PhaseTemplate ℕ)
templates = build_phase_templates whole card "submission_deadline" "experienced"

abbrev first_template : PhaseTemplate ℕ
first_template = or_else (head? templates) (record { key = ""; label = ""; weight = 0; tasks = [] })

abbrev other_templates : List (PhaseTemplate ℕ)
other_templates = drop 1 templates

abbrev sample_plan : ScheduledPlan ℕ
sample_plan = elim (schedule_plan whole request templates) [
  | ok p ↦ p
  | raise e ↦ record { phases = []; tasks = []; optional_tasks = []; dropped_optional_labels = [] }
]

program : Unit {0}
unfolding schedule_plan build_phase_templates available_due_date check_task check_draft personalize
    validate_personalization_output decimal
program = tt

planned : schedule_plan whole request templates ≡ ok sample_plan
unfolding program
planned = refl

-- Both the budget and the calendar leave something out.
dropped_labels : sample_plan.dropped_optional_labels ≡ "复现高质量案例或代码" ∷ "进行压力问答和验收" ∷ []
unfolding program
dropped_labels = refl

allocate_ranges-Tiles_example :
    (ranges : List (Date × Date)) × (allocate_ranges whole 738000 738010 templates ≡ ok ranges)
    × Tiles 738000 738010 ranges
    × (length ranges ≡ length templates)
unfolding build_phase_templates
allocate_ranges-Tiles_example =
    allocate_ranges-Tiles whole 738000 738010 first_template other_templates (omega arith)

available_due_date-DueDate_example :
    DueDate 738000 738010 (738010 ∷ []) (available_due_date 738000 738010 (738010 ∷ []))
available_due_date-DueDate_example = available_due_date-DueDate 738000 738010 (738010 ∷ [])

schedule_plan-ArePlaced_example :
    ArePlaced ℕ
      (738010 ∷ 738009 ∷ [])
      (map span sample_plan.phases)
      sample_plan.tasks
      sample_plan.optional_tasks
schedule_plan-ArePlaced_example =
    schedule_plan-ArePlaced whole request templates sample_plan planned

schedule_plan-required_example :
    (ids sample_plan.tasks ≡ all_required "experienced" templates)
    × (map (λ p. p.key) sample_plan.phases ≡ map (λ t. t.key) templates)
schedule_plan-required_example = schedule_plan-required whole request templates sample_plan planned

schedule_plan-budget_example :
    ltb (optional_budget whole request) (sum_hours whole 0 sample_plan.optional_tasks) ≡ false
schedule_plan-budget_example =
    schedule_plan-budget whole whole-IsStrict request templates sample_plan planned

-- A draft of the plan, and a generation that adds a task to its first phase.
abbrev draft : PreparationPlanDraft ℕ
draft = record {
  plan_id = "plan_1";
  competition_id = "c-1";
  time_model = "submission_deadline";
  target_date = some 738010;
  event_end_date = none;
  defense_date = some 738024;
  phases = sample_plan.phases;
  tasks = sample_plan.tasks;
  optional_tasks = sample_plan.optional_tasks;
  milestones = [];
  calendar_items = [];
  risk_register = [];
  internal_source_refs = [];
  warnings = [];
  revision = 0;
}

abbrev profile : Profile
profile = record {
  version = "v1";
  system_prompt_id = "p";
  safety_domain = "competition";
  operation_id = "plan";
  max_optional_tasks_per_phase = 3;
}

abbrev suggestion : Value
suggestion = obj (field "title" (str " 读论文 ") (field "estimated_hours" (atom "2") end))

abbrev suggest : Pipeline
suggest input = some (record {
  output = obj (
      field "phases"
        (arr (
          cons
            (obj (
              field "key" (str "foundation")
                (field "optional_tasks" (arr (cons suggestion nil)) end)))
            nil))
        end);
  warnings = [];
})

abbrev two : String → Option ℕ
two a = if a == "2" then some 2 else none

abbrev longer : PreparationPlanDraft ℕ
longer = elim (personalize whole two request card draft (some suggest) (some profile) "b1") [
  | ok (d, issues) ↦ d
  | raise e ↦ draft
]

personalized :
    personalize whole two request card draft (some suggest) (some profile) "b1" ≡ ok (longer, [])
unfolding program
personalized = refl

added_label :
    map (λ (t : PlanTask ℕ). t.label) longer.optional_tasks
    ≡ "复现一套往届题流程" ∷ "进行阶段复盘并修正方案" ∷ "读论文" ∷ []
unfolding program
added_label = refl

personalize-IsPersonalized_example : IsPersonalized whole two request draft longer
personalize-IsPersonalized_example =
    personalize-IsPersonalized whole two request draft card (some suggest) (some profile) "b1"
      personalized
