-- ===== src/Planning/Scheduler/Ranges.antt =====
-- `_allocate_ranges`, `_available_due_date` and `_eligible` of planning/scheduler.py.
use dext.Base.{
  ℕ, zero, suc, ◌+◌, ◌-◌, min, max, String, Bool, not, ◌&&◌, Option, none, some, List, [], ◌∷◌, ltb,
  leb, nat_elem, length, is_empty, if◌then◌else◌, ◌==◌, Result, ok, raise,
}
use dext.Base.Floats.{Floats}
use dext.Planning.Types.{Date, TemplateTask, PhaseTemplate, PlanError, scheduling_error}

module _ (fl : Floats) where
  open fl use {Float, of_ℕ, add, mul, div, round}

  -- `sum(template.weight for template in templates)`
  unfoldable pub total_weight_from : Float → List (PhaseTemplate Float) → Float
  total_weight_from acc [] = acc
  total_weight_from acc (t ∷ rest) = total_weight_from (add acc t.weight) rest

  -- The days of a phase that is not the last.
  unfoldable pub share : ℕ → Float → ℕ → ℕ → PhaseTemplate Float → ℕ
  share total_days total_weight remaining_days phases_left t =
      min (max 1 (round (div (mul (of_ℕ total_days) t.weight) total_weight)))
        (remaining_days - phases_left)

  -- The loop over the templates. Ordinals are positive, so `cursor + days - 1` is not cut off.
  unfoldable pub allocate_from :
      ℕ → Float → Date → ℕ → List (PhaseTemplate Float) → List (Date × Date)
  unfolding share
  allocate_from total_days total_weight cursor remaining_days [] = []
  allocate_from total_days total_weight cursor remaining_days (t ∷ rest) =
      let days =
        if is_empty rest
        then remaining_days
        else share total_days total_weight remaining_days (length rest) t in
      let phase_end = cursor + days - 1 in
      (cursor, phase_end)
      ∷ allocate_from total_days total_weight (phase_end + 1) (remaining_days - days) rest

  -- `(end - start).days + 1` is `end + 1 - start`; where that is negative it is below the number of
  -- templates, as 0 is.
  unfoldable pub allocate_ranges :
      Date → Date → List (PhaseTemplate Float) → Result PlanError (List (Date × Date))
  unfolding allocate_from total_weight_from
  allocate_ranges start end templates =
      if is_empty templates
      then ok []
      else let total_days = end + 1 - start in
        if ltb total_days (length templates)
        then raise (scheduling_error "not enough calendar days for mandatory phases")
        else let total_weight = total_weight_from (of_ℕ 0) templates in
          ok (allocate_from total_days total_weight start total_days templates)

-- The `while` loop, which steps down from `candidate`; below the ordinal 0 it has ended.
unfoldable pub available_due_date : Date → Date → List Date → Option Date
available_due_date start zero blocked =
    if leb start 0 && not (nat_elem 0 blocked) then some 0 else none
available_due_date start (suc candidate) blocked =
    let earlier = available_due_date start candidate blocked in
    if leb start (suc candidate)
    then if nat_elem (suc candidate) blocked then earlier else some (suc candidate)
    else none

-- `order.get(level, 0)`
unfoldable pub rank : String → ℕ
rank level = if level == "intermediate" then 1 else if level == "experienced" then 2 else 0

unfoldable pub eligible : {F : Type 0} → TemplateTask F → String → Bool
unfolding rank
eligible item experience_level = leb (rank item.min_experience) (rank experience_level)
