-- ===== src/Planning/Scheduler/Placement.antt =====
-- `schedule_plan`: each task lies inside its phase, on a date that is not blocked.
use dext.Base.{
  ◌≤◌, ◌≡◌, refl, sym, String, Bool, true, false, some, List, [], ◌∷◌, ◌++◌, map, arith, nat_elem,
  append, ok, subst, ok-injective, Bool-cases, inl, inr, OneOf, OneOf-append_left,
  OneOf-append_right, All, All-append, All-imp,
}
use mathlib.Core.List.{map-append}
use dext.Base.Floats.{Floats}
use dext.Planning.Types.{
  Date, TemplateTask, PhaseTemplate, PlanTask, PlanPhase, with_kind, PlanGenerationRequest,
}
use dext.Planning.Scheduler.DueDate.{DueDate, available_due_date-DueDate}
use dext.Planning.Scheduler.Steps.{
  PlaceStep, skipped, dropped, placed, place_all_induction, phase_step, scheduled,
}
use dext.Planning.Scheduler.Placing.{
  Progress, ScheduledPlan, Ranges, place_phases, schedule_plan, new_task, note_task, blocked_dates,
  optional_budget, no_progress, new_phase,
}

-- The id and the range of a phase.
abbrev pub span : PlanPhase → String × Date × Date
span p = (p.phase_id, p.start_date, p.end_date)

module _ (F : Type 0) where
  -- The task starts with the phase that it names, and its due date is a free date of that phase.
  pub record IsPlaced (mandatory : Bool) (blocked : List Date) (spans : List (String × Date × Date))
      (t : PlanTask F) : Type 0 where
    pub start : Date
    pub due : Date
    pub end : Date
    pub at_start : t.start_date ≡ some start
    pub at_due : t.due_date ≡ some due
    pub in_phase : OneOf (t.phase_id, start, end) spans
    pub from : start ≤ due
    pub to : due ≤ end
    pub free : nat_elem due blocked ≡ false
    pub kept_kind : t.is_mandatory ≡ mandatory

  pub record ArePlaced (blocked : List Date) (spans : List (String × Date × Date))
      (required optional : List (PlanTask F)) : Type 0 where
    pub required_placed : All (IsPlaced true blocked spans) required
    pub optional_placed : All (IsPlaced false blocked spans) optional

module _ {F : Type 0} {blocked : List Date} where
  IsPlaced-append :
      {m : Bool} (spans more : List (String × Date × Date)) (t : PlanTask F)
      → IsPlaced F m blocked spans t
      → IsPlaced F m blocked (spans ++ more) t
  IsPlaced-append spans more t p = record {
    start = p.start;
    due = p.due;
    end = p.end;
    at_start = p.at_start;
    at_due = p.at_due;
    in_phase = OneOf-append_left _ spans more p.in_phase;
    from = p.from;
    to = p.to;
    free = p.free;
    kept_kind = p.kept_kind;
  }

  ArePlaced-append :
      (spans more : List (String × Date × Date)) (required optional : List (PlanTask F))
      → ArePlaced F blocked spans required optional
      → ArePlaced F blocked (spans ++ more) required optional
  ArePlaced-append spans more required optional h = record {
    required_placed = All-imp _ _ required (IsPlaced-append spans more) h.required_placed;
    optional_placed = All-imp _ _ optional (IsPlaced-append spans more) h.optional_placed;
  }

module _ (fl : Floats) where
  open fl use {Float}

  module _ (level : String) (budget : Float) (blocked : List Date) (key : String) (start end : Date)
      (spans : List (String × Date × Date))
      (in_spans : OneOf (append "phase:" key, start, end) spans) where
    abbrev Good : Progress Float → Type 0
    Good s = ArePlaced Float blocked spans s.required_tasks s.optional_tasks

    new_task-IsPlaced :
        (item : TemplateTask Float) (due : Date)
        → DueDate start end blocked (some due)
        → IsPlaced Float item.required blocked spans (with_kind fl (new_task fl key item start due))
    unfolding with_kind
    new_task-IsPlaced item due d = record {
      start = start;
      due = due;
      end = end;
      at_start = ground arith;
      at_due = ground arith;
      in_phase = ground (arith, in_spans);
      from = d.0;
      to = d.1;
      free = d.2;
      kept_kind = ground arith;
    }

    noted-IsPlaced :
        (s : Progress Float) (item : TemplateTask Float) (t : PlanTask Float)
        → Good s
        → IsPlaced Float item.required blocked spans t
        → Good (note_task fl s item t)
    noted-IsPlaced s item t g p = elim (Bool-cases item.required) [
      | inl e ↦ rw e (record {
        required_placed = All-append _ s.required_tasks _ g.required_placed (rw e at p, tt);
        optional_placed = g.optional_placed;
      })
      | inr e ↦ rw e (record {
        required_placed = g.required_placed;
        optional_placed = All-append _ s.optional_tasks _ g.optional_placed (rw e at p, tt);
      })
    ]

    step-Good :
        (s : Progress Float) (item : TemplateTask Float) (s' : Progress Float)
        → PlaceStep fl level budget blocked key start end s item s'
        → Good s
        → Good s'
    step-Good s item s' (skipped el e) g = subst Good (sym e) g
    step-Good s item s' (dropped el op e) g =
        subst Good (sym e)
          (record { required_placed = g.required_placed; optional_placed = g.optional_placed })
    step-Good s item s' (placed due el free within e) g = subst Good (sym e) (
        noted-IsPlaced s item _ g (
          new_task-IsPlaced item due (
            subst (DueDate start end blocked) free (available_due_date-DueDate start end blocked))))

  module _ (level : String) (budget : Float) (blocked : List Date) (ranges : Ranges) where
    abbrev AllGood : List PlanPhase → Progress Float → Type 0
    AllGood phases s = ArePlaced Float blocked (map span phases) s.required_tasks s.optional_tasks

    place_phases-AllGood :
        (templates : List (PhaseTemplate Float)) (s : Progress Float) (phases : List PlanPhase)
        {result : Progress Float × List PlanPhase}
        → place_phases fl level budget blocked ranges s phases templates ≡ ok result
        → AllGood phases s
        → AllGood result.1 result.0
    unfolding place_phases
    place_phases-AllGood [] s phases h g =
        subst (λ (r : Progress Float × List PlanPhase). AllGood r.1 r.0) (ok-injective h) g
    place_phases-AllGood (t ∷ rest) s phases h g =
        let st = phase_step fl level budget blocked ranges s phases t rest h in
        let phase = new_phase fl t st.start st.end st.after.phase_task_ids in
        let spans = map span phases in
        let good =
          place_all_induction fl level budget blocked t.key st.start st.end
            (λ s'.
              ArePlaced Float blocked (spans ++ span phase ∷ []) s'.required_tasks
                s'.optional_tasks)
            (step-Good level budget blocked t.key st.start st.end (spans ++ span phase ∷ [])
              (OneOf-append_right _ spans _ (inl refl)))
            t.tasks (record s { phase_task_ids = [] }) st.items_placed
            (ArePlaced-append spans (span phase ∷ []) s.required_tasks s.optional_tasks g) in
        place_phases-AllGood rest st.after (phases ++ phase ∷ []) st.others
          (rw (map-append span phases (phase ∷ [])) good)

  -- In a scheduled plan every task starts with the phase of the plan that it names, and its due
  -- date is a date of that phase's range that is neither an exam date nor an unavailable one; the
  -- required tasks are the mandatory ones.
  pub schedule_plan-ArePlaced :
      (request : PlanGenerationRequest) (templates : List (PhaseTemplate Float))
      (plan : ScheduledPlan Float)
      → schedule_plan fl request templates ≡ ok plan
      → ArePlaced Float
          (blocked_dates fl request)
          (map span plan.phases)
          plan.tasks
          plan.optional_tasks
  schedule_plan-ArePlaced request templates plan h =
      let done = scheduled fl request templates plan h in
      subst
        (λ (p : ScheduledPlan Float).
          ArePlaced Float (blocked_dates fl request) (map span p.phases) p.tasks p.optional_tasks)
        done.plan_eq
        (place_phases-AllGood request.experience_level (optional_budget fl request)
          (blocked_dates fl request) done.ranges templates (no_progress fl) [] done.placed_all
          (record { required_placed = tt; optional_placed = tt }))
