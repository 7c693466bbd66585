-- ===== src/Crawl/Run/Queued.antt =====
-- What is in progress is on a queue or with a worker, or the driver has crashed on it.
use dext.Base.{
  ℕ, suc, zero, ◌≡◌, refl, sym, subst, Option, none, some, List, [], ◌∷◌, ◌++◌, map, Option-cases,
  inl, inr, OneOf, All, OneOf-append_left, OneOf-append_right, OneOf-append_cases,
}
use dext.Crawl.Tables.{All-update_rows_cases}
use dext.Crawl.Types.{in_progress, retry, GraphNode, Database}
use dext.Crawl.Store.{RowIds, same_status}
use dext.Crawl.Store.Laws.{map-append}
use dext.Crawl.Store.Reset.{reconcile}
use dext.Crawl.Driver.{
  Outside, ExtractTask, DecideTask, Pass, handled, raised, finished, sleeps, driver_pass,
}
use dext.Crawl.Driver.Covered.{IsCovered, Covers, Covers-more, task_ids, queued}
use dext.Crawl.Driver.Loop.{Passes, driver_pass-Passes}
use dext.Crawl.Extract.{Extractor}
use dext.Crawl.Extract.Covered.{process_extract_task-Covers}
use dext.Crawl.Run.{
  CrawlState, Event, drive, take_task, work_off, driven, with_task, pick, worked, drive_on, next,
  run, resumed,
}

-- The nodes of the tasks on the queues and with the workers.
abbrev pub held : CrawlState → List ℕ
held c = queued c.engine ++ task_ids c.taken

-- The node that the driver has crashed on, if it has.
abbrev crashed_on : Option ℕ → List ℕ
crashed_on none = []
crashed_on (some id) = id ∷ []

abbrev pub NoneLost : CrawlState → Type 0
NoneLost c = Covers (crashed_on c.crashed ++ held c) c.engine.db.nodes

-- Behind the same ids.
OneOf-behind :
    (first before next : List ℕ) (a : ℕ)
    → (OneOf a before → OneOf a next)
    → OneOf a (first ++ before)
    → OneOf a (first ++ next)
OneOf-behind first before next a more h = elim (OneOf-append_cases a first before h) [
  | inl one ↦ OneOf-append_left a first next one
  | inr one ↦ OneOf-append_right a first next (more one)
]

All-any : (nodes : List GraphNode) → All (λ n. Unit {0}) nodes
All-any [] = tt
All-any (n ∷ nodes) = (tt, All-any nodes)

reconcile-Covers : (ids : List ℕ) (db : Database) → Covers ids (reconcile db).nodes
unfolding reconcile
reconcile-Covers ids db =
    All-update_rows_cases (λ n. Unit) (IsCovered ids) (λ n. same_status n.status in_progress)
      (λ n. record n { status = retry }) db.nodes (λ n t u. inl refl) (λ n f u. inl f)
      (All-any db.nodes)

OneOf-swap :
    (a : ℕ) (xs zs : List ℕ) (t : ℕ) → OneOf a ((t ∷ xs) ++ zs) → OneOf a (xs ++ (zs ++ t ∷ []))
OneOf-swap a xs zs t (inl same) =
    OneOf-append_right a xs (zs ++ t ∷ []) (OneOf-append_right a zs (t ∷ []) (inl same))
OneOf-swap a xs zs t (inr one) = elim (OneOf-append_cases a xs zs one) [
  | inl first ↦ OneOf-append_left a xs (zs ++ t ∷ []) first
  | inr second ↦ OneOf-append_right a xs (zs ++ t ∷ []) (OneOf-append_left a zs (t ∷ []) second)
]

-- The two parts of a pick have the tasks of the list.
pick-ids :
    (n : ℕ) (tasks : List ExtractTask) (t : ExtractTask) (others : List ExtractTask) (a : ℕ)
    → pick n tasks ≡ some (t, others)
    → OneOf a (task_ids tasks)
    → OneOf a (t.node_id ∷ task_ids others)
unfolding pick
pick-ids n [] t others a h one = elim one [ ]
pick-ids zero (x ∷ tasks) t others a h one =
    let same : ◌≡◌ {A = ExtractTask × List ExtractTask} (x, tasks) (t, others) = cc h in
    subst (λ (p : ExtractTask × List ExtractTask). OneOf a (p.0.node_id ∷ task_ids p.1)) same one
pick-ids (suc n) (x ∷ tasks) t others a h one = elim (Option-cases (pick n tasks)) [
  | inl missing ↦ let bad = rw missing at h in cc bad
  | inr ((t', others'), found) ↦
      let same : ◌≡◌ {A = ExtractTask × List ExtractTask} (t', x ∷ others') (t, others) =
        cc (rw found at h) in
      subst (λ (p : ExtractTask × List ExtractTask). OneOf a (p.0.node_id ∷ task_ids p.1)) same
        (elim one [
          | inl here ↦ inr (inl here)
          | inr there ↦ elim (pick-ids n tasks t' others' a found there) [
            | inl chosen ↦ inl chosen
            | inr other ↦ inr (inr other)
          ]
        ])
]

NoneLost-driven :
    (now : ℕ) (pass : Pass) (c : CrawlState)
    → c.crashed ≡ none
    → Passes c.engine now pass
    → Covers (held c) c.engine.db.nodes
    → NoneLost (driven pass c)
NoneLost-driven now (handled node e) c runs (free, there, tried, kept, covered) h =
    rw runs (covered (task_ids c.taken) h)
NoneLost-driven now (raised node error e) c runs (malformed, tried, kept, covered) h =
    covered (task_ids c.taken) h
NoneLost-driven now (finished e) c runs (idle, covered, none_due) h =
    rw runs (covered (task_ids c.taken) h)
NoneLost-driven now (sleeps e) c runs (busy, tried, covered, none_due) h =
    rw runs (covered (task_ids c.taken) h)

abbrev decide_ids : CrawlState → List ℕ
decide_ids c = map (λ (t : DecideTask). t.node.id) c.engine.decision_queue

NoneLost-take :
    (tasks : List ExtractTask) (c : CrawlState)
    → c.engine.extract_queue ≡ tasks
    → NoneLost c
    → NoneLost (with_task tasks c)
NoneLost-take [] c same h = h
NoneLost-take (t ∷ rest) c same h =
    Covers-more (crashed_on c.crashed ++ held c)
      (crashed_on c.crashed ++ held (with_task (t ∷ rest) c)) c.engine.db.nodes
      (λ a. OneOf-behind (crashed_on c.crashed) (held c) (held (with_task (t ∷ rest) c)) a (λ one.
        subst (λ ids. OneOf a ((task_ids rest ++ decide_ids c) ++ ids))
          (sym (map-append (λ (x : ExtractTask). x.node_id) c.taken (t ∷ [])))
          (OneOf-swap a (task_ids rest ++ decide_ids c) (task_ids c.taken) t.node_id (
            subst (λ tasks. OneOf a ((task_ids tasks ++ decide_ids c) ++ task_ids c.taken)) same
              one))))
      h

picked_one :
    (n : ℕ) (c : CrawlState) (t : ExtractTask) (others : List ExtractTask) (a : ℕ)
    → pick n c.taken ≡ some (t, others)
    → OneOf a (held c)
    → OneOf a (t.node_id ∷ (queued c.engine ++ task_ids others))
picked_one n c t others a found one =
    elim (OneOf-append_cases a (queued c.engine) (task_ids c.taken) one) [
      | inl first ↦ inr (OneOf-append_left a (queued c.engine) (task_ids others) first)
      | inr second ↦ elim (pick-ids n c.taken t others a found second) [
        | inl here ↦ inl here
        | inr other ↦ inr (OneOf-append_right a (queued c.engine) (task_ids others) other)
      ]
    ]

module _ (out : Outside) (new_id : RowIds) (extractor : Extractor) where
  NoneLost-worked :
      (n now : ℕ) (c : CrawlState) (picked : Option (ExtractTask × List ExtractTask))
      → pick n c.taken ≡ picked
      → NoneLost c
      → NoneLost (worked out new_id extractor picked now c)
  NoneLost-worked n now c none found h = h
  NoneLost-worked n now c (some (t, others)) found h =
      let first = crashed_on c.crashed in
      let others_held = queued c.engine ++ task_ids others in
      process_extract_task-Covers (first ++ others_held) new_id extractor t now
        (record { db = c.engine.db; people = c.people })
        (Covers-more (first ++ held c) (t.node_id ∷ (first ++ others_held)) c.engine.db.nodes
          (λ a one. elim (OneOf-append_cases a first (held c) one) [
            | inl crash ↦ inr (OneOf-append_left a first others_held crash)
            | inr waiting ↦ elim (picked_one n c t others a found waiting) [
              | inl here ↦ inl here
              | inr other ↦ inr (OneOf-append_right a first others_held other)
            ]
          ])
          h)

  NoneLost-drive_on :
      (crashed : Option ℕ) (now : ℕ) (c : CrawlState)
      → c.crashed ≡ crashed
      → NoneLost c
      → NoneLost (drive_on crashed (driver_pass out now c.engine) c)
  NoneLost-drive_on (some id) now c is_crashed h = h
  NoneLost-drive_on none now c runs h =
      NoneLost-driven now (driver_pass out now c.engine) c runs
        (driver_pass-Passes out now c.engine) (rw runs at h)

  NoneLost-next :
      (event : Event) (c : CrawlState) → NoneLost c → NoneLost (next out new_id extractor event c)
  unfolding next
  NoneLost-next (drive now) c h = NoneLost-drive_on c.crashed now c refl h
  NoneLost-next take_task c h = NoneLost-take c.engine.extract_queue c refl h
  NoneLost-next (work_off n now) c h = NoneLost-worked n now c (pick n c.taken) refl h

  NoneLost-run :
      (events : List Event) (c : CrawlState)
      → NoneLost c
      → NoneLost (run out new_id extractor events c)
  unfolding run
  NoneLost-run [] c h = h
  NoneLost-run (event ∷ events) c h =
      NoneLost-run events (next out new_id extractor event c) (NoneLost-next event c h)

  -- After a resume, whatever the driver and the extraction workers do, in whatever order, while no
  -- decision worker runs, a node that is in progress always has a task on a queue or with a worker,
  -- or is the one whose handling has raised and so ended the driver.
  pub run-NoneLost :
      (c : CrawlState) (events : List Event)
      → NoneLost (run out new_id extractor events (resumed c))
  unfolding resumed
  run-NoneLost c events = NoneLost-run events _ (reconcile-Covers (held c) c.engine.db)
