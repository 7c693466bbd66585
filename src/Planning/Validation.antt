-- ===== src/Planning/Validation.antt =====
-- planning/validation.py: the issues of a plan draft, and the check of a generated personalization.
use dext.Base.{
  ℕ, suc, String, Bool, true, not, ◌&&◌, ◌||◌, Option, none, some, List, [], ◌∷◌, ◌++◌, ltb, leb,
  nat_eq, elem, any, is_empty, if◌then◌else◌, ◌==◌, Result, ok, raise,
}
use mathlib.Core.Option
use dext.Base.Floats.{Floats}
use dext.Base.Text.{strip, is_blank}
use dext.Grounded.Output.{Value, Values, Fields, str, atom, arr, obj, nil, cons, end, field}
use dext.Planning.Types.{PlanPhase, PreparationPlanDraft, PlanError, type_error}

-- `{phase.key: phase for phase in phases}.get(key)`: the last phase of that key.
unfoldable pub phase_by_key : List PlanPhase → String → Option PlanPhase
phase_by_key [] key = none
phase_by_key (p ∷ rest) key =
    let later = phase_by_key rest key in
    elim later [ some q ↦ some q | none ↦ if p.key == key then some p else none ]

module _ {F : Type 0} where
  abbrev defense_issues : PreparationPlanDraft F → List String
  defense_issues draft = elim (phase_by_key draft.phases "defense_prep") [
    | none ↦ "submission plan requires defense_prep" ∷ []
    | some defense ↦ elim draft.target_date [
      | none ↦ []
      | some target ↦
          if leb defense.start_date target
          then "defense_prep must start after submission" ∷ []
          else []
    ]
  ]

  abbrev event_issues : PreparationPlanDraft F → List String
  event_issues draft = elim (phase_by_key draft.phases "event_sprint") [
    | none ↦ "competition window plan requires event_sprint" ∷ []
    | some event ↦ elim draft.target_date [
      | none ↦ []
      | some target ↦
          if nat_eq event.start_date target
          then []
          else "event_sprint must start at the event window" ∷ []
    ]
  ]

  unfoldable pub validate_plan : PreparationPlanDraft F → List String
  unfolding phase_by_key
  validate_plan draft =
      (if draft.time_model == "submission_deadline" then defense_issues draft else [])
      ++ (if draft.time_model == "competition_window" then event_issues draft else [])
      ++ (if is_empty draft.tasks || any (λ t. not t.is_mandatory) draft.tasks
          then "required task collection is invalid" ∷ []
          else [])

-- A task of a generated personalization that has been checked.
pub record Suggestion (F : Type 0) : Type 0 where
  pub title : String
  pub hours : F

-- `mapping.get(key)` of a JSON object, whose keys are distinct
unfoldable pub get_field : Fields → String → Option Value
get_field end key = none
get_field (field k v fs) key = if k == key then some v else get_field fs key

-- `not set(mapping) - allowed`
unfoldable pub only_keys : List String → Fields → Bool
only_keys allowed end = true
only_keys allowed (field k v fs) = elem k allowed && only_keys allowed fs

abbrev as_list : Option Value → Option Values
as_list (some (arr vs)) = some vs
as_list _ = none

-- `phase.get("optional_tasks", [])`, if it is a list
abbrev tasks_list : Option Value → Option Values
tasks_list none = some nil
tasks_list (some (arr vs)) = some vs
tasks_list (some _) = none

unfoldable pub count_values : Values → ℕ
count_values nil = 0
count_values (cons v vs) = suc (count_values vs)

-- `result[key] = tasks`, which keeps the place of a key that is there
unfoldable pub put_tasks :
    {F : Type 0}
    → String
    → List (Suggestion F)
    → List (String × List (Suggestion F))
    → List (String × List (Suggestion F))
put_tasks key tasks [] = (key, tasks) ∷ []
put_tasks key tasks ((k, ts) ∷ rest) =
    let more = put_tasks key tasks rest in if k == key then (key, tasks) ∷ rest else (k, ts) ∷ more

-- `number_of` is the value of an atom that is an `int` or a `float` and no Boolean, of the JSON
-- reader's.
module _ (fl : Floats) (number_of : String → Option fl.Float) where
  open fl use {Float, of_ℕ, le}

  abbrev check_fields : Option Value → Option Value → Option (Suggestion Float)
  check_fields (some (str title)) (some (atom a)) = elim (number_of a) [
    | none ↦ none
    | some hours ↦
        if is_blank title || le hours (of_ℕ 0)
        then none
        else some (record { title = strip title; hours = hours })
  ]
  check_fields _ _ = none

  unfoldable pub check_suggestion : Value → Option (Suggestion Float)
  unfolding get_field only_keys is_blank
  check_suggestion (obj fs) =
      if only_keys ("title" ∷ "estimated_hours" ∷ []) fs
      then check_fields (get_field fs "title") (get_field fs "estimated_hours")
      else none
  check_suggestion v = none

  unfoldable pub check_suggestions : Values → Option (List (Suggestion Float))
  unfolding check_suggestion
  check_suggestions nil = some []
  check_suggestions (cons v vs) = elim (check_suggestion v) [
    | none ↦ none
    | some s ↦ Option.map (λ rest. s ∷ rest) (check_suggestions vs)
  ]

  -- A task list per phase key; `none` is a refusal.
  abbrev pub Checked : Type 0
  Checked = Option (List (String × List (Suggestion Float)))

  module _ (known_phase_keys : List String) (max_optional_tasks : ℕ) where
    abbrev check_tasks : String → Option Values → Option (String × List (Suggestion Float))
    check_tasks key none = none
    check_tasks key (some vs) =
        if not (elem key known_phase_keys) || ltb max_optional_tasks (count_values vs)
        then none
        else Option.map (λ ts. (key, ts)) (check_suggestions vs)

    -- A list or an object is no member of a set: the test `key not in known_phase_keys` raises.
    abbrev check_key :
        Option Value → Option Values → Result PlanError (Option (String × List (Suggestion Float)))
    check_key none tasks = ok none
    check_key (some (str key)) tasks = ok (check_tasks key tasks)
    check_key (some (atom a)) tasks = ok none
    check_key (some (arr vs)) tasks = raise (type_error "unhashable type: 'list'")
    check_key (some (obj fs)) tasks = raise (type_error "unhashable type: 'dict'")

    unfoldable pub check_phase_output :
        Value → Result PlanError (Option (String × List (Suggestion Float)))
    unfolding check_suggestions count_values get_field only_keys
    check_phase_output (obj fs) =
        if only_keys ("key" ∷ "optional_tasks" ∷ "personalized_advice" ∷ []) fs
        then check_key (get_field fs "key") (tasks_list (get_field fs "optional_tasks"))
        else ok none
    check_phase_output v = ok none

    -- The loop over the phases; it returns at the first one that is refused.
    unfoldable pub check_phases :
        List (String × List (Suggestion Float)) → Values → Result PlanError Checked
    unfolding check_phase_output put_tasks
    check_phases result nil = ok (some result)
    check_phases result (cons v vs) = elim (check_phase_output v) [
      | raise e ↦ raise e
      | ok none ↦ ok none
      | ok (some (key, tasks)) ↦ check_phases (put_tasks key tasks result) vs
    ]

    unfoldable pub validate_personalization_output : Value → Result PlanError Checked
    unfolding check_phases get_field only_keys
    validate_personalization_output (obj fs) =
        if only_keys ("phases" ∷ "global_advice" ∷ []) fs
        then elim (as_list (get_field fs "phases")) [
          | none ↦ ok none
          | some vs ↦ check_phases [] vs
        ]
        else ok none
    validate_personalization_output v = ok none
