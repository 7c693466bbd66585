-- ===== src/Planning/Generator/Additions.antt =====
-- `_personalize`: generated suggestions only add optional tasks, on free dates and within the hours.
use dext.Base.{
  ℕ, ◌+◌, ◌≡◌, refl, sym, ap, ◌∙◌, subst, ◌⊎◌, String, false, Option, none, some, List, [], ◌∷◌,
  ◌++◌, map, append-nil, arith, or_else, is_empty, Result, ok, raise, bind-ok, ok-injective,
  Bool-cases, Option-cases, inl, inr, OneOf, OneOf-map, All, All-append, ◌==◌,
}
use dext.Base.Floats.{Floats}
use dext.Planning.Types.{
  Date, PlanGenerationRequest, PlanTask, PlanPhase, PreparationPlanDraft, CompetitionError,
  PlanError, check_task, check_phase, check_draft, with_kind,
}
use dext.Planning.Card.{CompetitionCard}
use dext.Planning.Scheduler.{available_due_date}
use dext.Planning.Scheduler.DueDate.{DueDate, available_due_date-DueDate}
use dext.Planning.Scheduler.Placement.{IsPlaced, span}
use dext.Planning.Scheduler.Steps.{check_task-eq-ok, check_phase-eq-ok}
use dext.Planning.Validation.{Suggestion, phase_by_key, validate_personalization_output}
use dext.Planning.Generator.Personalize.{
  Profile, Pipeline, Generated, ai_task, add_tasks, add_phase, Additions, additions_loop,
  extend_phases, ids_of_phase, used_hours, total_budget, Personalized, personalize, with_output,
  with_generated, extended, then_more,
}

phase_by_key-OneOf :
    (phases : List PlanPhase) (key : String) {p : PlanPhase}
    → phase_by_key phases key ≡ some p
    → OneOf p phases
unfolding phase_by_key
phase_by_key-OneOf [] key h = cc
phase_by_key-OneOf (q ∷ rest) key h = elim (Option-cases (phase_by_key rest key)) [
  | inl absent ↦ elim (Bool-cases (q.key == key)) [
    | inl same ↦ inl (ground arith)
    | inr other ↦ cc (rw (absent, other) at h)
  ]
  | inr (r, later) ↦ inr (phase_by_key-OneOf rest key (later ∙ (rw later at h)))
]

module _ (fl : Floats) (number_of : String → Option fl.Float) where
  open fl use {Float, of_ℕ, gt}

  then_more_cases :
      (r : Result PlanError (Additions fl number_of))
      (f : Float → List (PlanTask Float) → Result PlanError (Additions fl number_of))
      {result : Additions fl number_of}
      → then_more fl number_of r f ≡ ok result
      → (result ≡ none)
        ⊎ ((ua : Float × List (PlanTask Float)) × (r ≡ ok (some ua)) × (f ua.0 ua.1 ≡ ok result))
  then_more_cases (raise e) f h = cc
  then_more_cases (ok none) f h = inl (sym (ok-injective h))
  then_more_cases (ok (some (u, a))) f h = inr ((u, a), refl, h)

  used_hours-append :
      (acc : Float) (ts us : List (PlanTask Float))
      → used_hours fl number_of acc (ts ++ us)
        ≡ used_hours fl number_of (used_hours fl number_of acc ts) us
  unfolding used_hours
  used_hours-append acc [] us = refl
  used_hours-append acc (t ∷ ts) us =
      used_hours-append (fl.add acc (or_else t.estimated_hours (of_ℕ 0))) ts us

  check_ai_task :
      (key : String) (phase : PlanPhase) (index : ℕ) (due : Date) (s : Suggestion Float)
      {t : PlanTask Float}
      → check_task fl (ai_task fl number_of key phase index due s) ≡ ok t
      → t ≡ ai_task fl number_of key phase index due s
  unfolding with_kind
  check_ai_task key phase index due s h =
      check_task-eq-ok fl (ai_task fl number_of key phase index due s) h

  module _ (budget base : Float) (blocked : List Date) (phases : List PlanPhase) where
    -- What the loops keep of the hours used and the tasks added.
    pub record Fits (used : Float) (added : List (PlanTask Float)) : Type 0 where
      pub counted : used_hours fl number_of base added ≡ used
      pub placed : All (IsPlaced Float false blocked (map span phases)) added
      pub below : (added ≡ []) ⊎ (gt used budget ≡ false)

    abbrev FitsResult : Additions fl number_of → Type 0
    FitsResult none = Unit
    FitsResult (some (used, added)) = Fits used added

    add_tasks-Fits :
        (key : String) (phase : PlanPhase) (due : Date)
        → OneOf phase phases
        → DueDate phase.start_date phase.end_date blocked (some due)
        → (suggestions : List (Suggestion Float)) (index : ℕ) (used : Float)
          (added : List (PlanTask Float)) {result : Additions fl number_of}
        → add_tasks fl number_of budget key phase due index used added suggestions ≡ ok result
        → Fits used added
        → FitsResult result
    unfolding add_tasks
    add_tasks-Fits key phase due one d [] index used added h f = subst FitsResult (ok-injective h) f
    add_tasks-Fits key phase due one d (s ∷ rest) index used added h f =
        elim (Bool-cases (gt (fl.add used s.hours) budget)) [
          | inl over ↦ subst FitsResult (ok-injective (rw over at h)) tt
          | inr within ↦
              let task = ai_task fl number_of key phase index due s in
              let (t, made, more) = bind-ok (check_task fl task) _ (rw within at h) in
              let e = check_ai_task key phase index due s made in
              add_tasks-Fits key phase due one d rest (index + 1) (fl.add used s.hours)
                (added ++ task ∷ []) (rw e at more)
                (record {
                  counted =
                      used_hours-append base added (task ∷ [])
                      ∙ ap (λ (u : Float). used_hours fl number_of u (task ∷ [])) f.counted
                      ∙ unfold used_hours in refl;
                  placed = All-append _ added (task ∷ []) f.placed (
                    record {
                      start = phase.start_date;
                      due = due;
                      end = phase.end_date;
                      at_start = refl;
                      at_due = refl;
                      in_phase = OneOf-map span phase phases one;
                      from = d.0;
                      to = d.1;
                      free = d.2;
                      kept_kind = refl;
                    },
                    tt,
                  );
                  below = inr within;
                })
        ]

    add_phase-Fits :
        (used : Float) (added : List (PlanTask Float)) (key : String)
        (suggestions : List (Suggestion Float)) {result : Additions fl number_of}
        → add_phase fl number_of budget blocked phases used added key suggestions ≡ ok result
        → Fits used added
        → FitsResult result
    unfolding add_phase
    add_phase-Fits used added key suggestions h f = elim (Option-cases (phase_by_key phases key)) [
      | inl absent ↦ cc (rw (absent, add_phase) at h)
      | inr (phase, found) ↦
          elim (Option-cases (available_due_date phase.start_date phase.end_date blocked)) [
            | inl full ↦ subst FitsResult (ok-injective (rw (found, full, add_phase) at h)) f
            | inr (due, free) ↦
                add_tasks-Fits key phase due (phase_by_key-OneOf phases key found)
                  (subst (DueDate phase.start_date phase.end_date blocked) free
                    (available_due_date-DueDate phase.start_date phase.end_date blocked))
                  suggestions 0 used added (rw (found, free, add_phase) at h) f
          ]
    ]

    loop-Fits :
        (output : List (String × List (Suggestion Float))) (used : Float)
        (added : List (PlanTask Float)) {result : Additions fl number_of}
        → additions_loop fl number_of budget blocked phases used added output ≡ ok result
        → Fits used added
        → FitsResult result
    unfolding additions_loop
    loop-Fits [] used added h f = subst FitsResult (ok-injective h) f
    loop-Fits ((key, suggestions) ∷ rest) used added h f =
        elim (then_more_cases
          (add_phase fl number_of budget blocked phases used added key suggestions)
          (λ used' added'. additions_loop fl number_of budget blocked phases used' added' rest) h) [
            | inl e ↦ subst FitsResult (sym e) tt
            | inr ((used', added'), first, more) ↦
                loop-Fits rest used' added' more (add_phase-Fits used added key suggestions first f)
          ]

    ids-extend_phases :
        (added : List (PlanTask Float)) (ps : List PlanPhase) {qs : List PlanPhase}
        → extend_phases fl number_of added ps ≡ ok qs
        → map span qs ≡ map span ps
    unfolding extend_phases
    ids-extend_phases added [] h = ap (map span) (sym (ok-injective h))
    ids-extend_phases added (p ∷ ps) {qs} h =
        let p' = record p { task_ids = p.task_ids ++ ids_of_phase fl number_of p.phase_id added } in
        let (q, made, h₁) = bind-ok (check_phase p') _ h in
        let (rest, others, h₂) =
          bind-ok (extend_phases fl number_of added ps) (λ rest. ok (q ∷ rest)) h₁ in
        let e = check_phase-eq-ok p' made in
        ap (map span) (sym (ok-injective h₂))
        ∙ ap (λ (x : PlanPhase). span x ∷ map span rest) e
        ∙ ap (λ (l : List (String × Date × Date)). span p ∷ l) (ids-extend_phases added ps others)

  -- What personalization may change in a draft.
  pub record IsPersonalized (request : PlanGenerationRequest)
      (draft result : PreparationPlanDraft Float) : Type 0 where
    pub same_tasks : result.tasks ≡ draft.tasks
    pub same_spans : map span result.phases ≡ map span draft.phases
    pub added : List (PlanTask Float)
    pub appended : result.optional_tasks ≡ draft.optional_tasks ++ added
    pub placed :
        All
          (IsPlaced Float false
            (request.constraints.exam_dates ++ request.constraints.unavailable_dates)
            (map span draft.phases))
          added
    pub within :
        (added ≡ [])
        ⊎ (gt
              (used_hours fl number_of (of_ℕ 0) result.optional_tasks)
              (total_budget fl number_of request)
            ≡ false)

  check_draft-eq-ok :
      (d : PreparationPlanDraft Float) {e : PreparationPlanDraft Float}
      → check_draft fl d ≡ ok e
      → e ≡ d
  unfolding check_draft
  check_draft-eq-ok d h = ground arith

  module _ (request : PlanGenerationRequest) (draft : PreparationPlanDraft Float) where
    abbrev blocked : List Date
    blocked = request.constraints.exam_dates ++ request.constraints.unavailable_dates

    abbrev base : Float
    base = used_hours fl number_of (of_ℕ 0) draft.optional_tasks

    abbrev IsKept : Personalized fl number_of → Type 0
    IsKept (result, issues) = IsPersonalized request draft result

    unchanged : IsPersonalized request draft draft
    unchanged = record {
      same_tasks = refl;
      same_spans = refl;
      added = [];
      appended = sym (append-nil draft.optional_tasks);
      placed = tt;
      within = inl refl;
    }

    extended-IsKept :
        (additions : Additions fl number_of) {result : Personalized fl number_of}
        → FitsResult (total_budget fl number_of request) base blocked draft.phases additions
        → extended fl number_of draft additions ≡ ok result
        → IsKept result
    extended-IsKept none f h = subst IsKept (ok-injective h) unchanged
    extended-IsKept (some (used, added)) f h =
        let (phases, longer, h₁) = bind-ok (extend_phases fl number_of added draft.phases) _ h in
        let next = record draft {
          phases = phases;
          optional_tasks = draft.optional_tasks ++ added;
        } in
        let (made, checked, h₂) = bind-ok (check_draft fl next) (λ p. ok (p, [])) h₁ in
        subst IsKept
          (ap (λ (d : PreparationPlanDraft Float). (d, [])) (sym (check_draft-eq-ok next checked))
            ∙ ok-injective h₂)
          (record {
            same_tasks = refl;
            same_spans =
                ids-extend_phases (total_budget fl number_of request) base blocked draft.phases
                  added draft.phases longer;
            added = added;
            appended = refl;
            placed = f.placed;
            within = elim f.below [
              | inl e ↦ inl e
              | inr b ↦
                  inr (rw (used_hours-append (of_ℕ 0) draft.optional_tasks added ∙ f.counted) b)
            ];
          })

    with_output-IsKept :
        (output : Option (List (String × List (Suggestion Float))))
        {result : Personalized fl number_of}
        → with_output fl number_of request draft output ≡ ok result
        → IsKept result
    with_output-IsKept none h = subst IsKept (ok-injective h) unchanged
    with_output-IsKept (some output) h =
        let budget = total_budget fl number_of request in
        let (additions, looped, h₁) =
          bind-ok (additions_loop fl number_of budget blocked draft.phases base [] output)
            (extended fl number_of draft) h in
        extended-IsKept additions
          (loop-Fits budget base blocked draft.phases output base [] looped
            (record { counted = unfold used_hours in refl; placed = tt; below = inl refl }))
          h₁

    with_generated-IsKept :
        (profile : Profile) (generated : Option Generated) {result : Personalized fl number_of}
        → with_generated fl number_of request draft profile generated ≡ ok result
        → IsKept result
    with_generated-IsKept profile none h = subst IsKept (ok-injective h) unchanged
    with_generated-IsKept profile (some g) h = elim (Bool-cases (is_empty g.warnings)) [
      | inl clean ↦
          let (output, _, h₁) =
            bind-ok
              (validate_personalization_output fl number_of (map (λ p. p.key) draft.phases)
                profile.max_optional_tasks_per_phase g.output)
              (with_output fl number_of request draft) (rw clean at h) in
          with_output-IsKept output h₁
      | inr warned ↦ subst IsKept (ok-injective (rw warned at h)) unchanged
    ]

    -- Whatever the generation answers, a personalized draft has the required tasks and the phase
    -- ranges that it had; its optional tasks are the old ones followed by added ones, each due on
    -- a free date of its phase; and if any was added, the hours of all optional tasks do not
    -- exceed the budget.
    pub personalize-IsPersonalized :
        (card : CompetitionCard) (pipeline : Option Pipeline) (profile : Option Profile)
        (build_id : String) {result : PreparationPlanDraft Float} {issues : List CompetitionError}
        → personalize fl number_of request card draft pipeline profile build_id
          ≡ ok (result, issues)
        → IsPersonalized request draft result
    unfolding personalize
    personalize-IsPersonalized card none profile build_id h =
        subst IsKept (ok-injective h) unchanged
    personalize-IsPersonalized card (some pipeline) none build_id h =
        subst IsKept (ok-injective h) unchanged
    personalize-IsPersonalized card (some pipeline) (some profile) build_id h =
        with_generated-IsKept profile _ h
