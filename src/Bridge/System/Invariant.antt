-- ===== src/Bridge/System/Invariant.antt =====
-- No job is lost, and every job is counted once.
use dext.Base.{
  ℕ, suc, ◌+◌, ◌≡◌, refl, sym, ap, ◌∙◌, subst, ◌⊎◌, inl, inr, String, true, false, Option, none,
  some, List, [], ◌∷◌, length, nat_eq, Bool-cases, OneOf, if◌then◌else◌, arith,
}
use dext.Bridge.Types.{FetchResult, JobStatus, pending, assigned, completed, failed, skipped}
use dext.Bridge.Queue.{
  FetchQueue, set_job, set_status, take_from, is_assigned, clear_slot, finish, remove_job, discard,
  in_slot, counts,
}
use dext.Bridge.Fetcher.{Waiter}
use dext.Bridge.System.{Waiting, asleep, answered, set_fetch}

-- A job is pending or in flight.
abbrev pub InQueue : ℕ → FetchQueue → Type 0
InQueue a q = OneOf a q.pending_jobs ⊎ (q.assigned_job ≡ some a)

abbrev pub IsCounted : ℕ → FetchQueue → Type 0
IsCounted created q =
    created
    ≡ length q.pending_jobs
      + in_slot q.assigned_job
      + q.completed_count
      + q.failed_count
      + q.skipped_count

-- A job that a fetch sleeps on, and whose future is not done, is in the queue.
abbrev pub IsLive : FetchQueue → (ℕ → Waiting) → Type 0
IsLive q fetches =
    (a : ℕ) (w : Waiter) → fetches a ≡ asleep w → (q.jobs a).future ≡ none → InQueue a q

abbrev pub Invariant : ℕ → FetchQueue → (ℕ → Waiting) → Type 0
Invariant created q fetches = IsCounted created q × IsLive q fetches

pub future-set_status :
    (a b : ℕ) (status : JobStatus) (q : FetchQueue)
    → ((set_status a status q).jobs b).future ≡ (q.jobs b).future
future-set_status a b status q = elim (Bool-cases (nat_eq b a)) [
  | inl same ↦ let here : b ≡ a = ground (arith, same) in rw (same, here) refl
  | inr other ↦ rw other refl
]

length-remove_job : (a : ℕ) (xs : List ℕ) → OneOf a xs → length xs ≡ suc (length (remove_job a xs))
unfolding remove_job
length-remove_job a [] h = elim h [ ]
length-remove_job a (x ∷ xs) h = elim (Bool-cases (nat_eq a x)) [
  | inl same ↦ rw same refl
  | inr other ↦ elim h [
    | inl here ↦ absurd (ground (arith, other, here))
    | inr there ↦ rw other (ap suc (length-remove_job a xs there))
  ]
]

remove_job-other :
    (a b : ℕ) (xs : List ℕ) → nat_eq b a ≡ false → OneOf b xs → OneOf b (remove_job a xs)
unfolding remove_job
remove_job-other a b [] other h = h
remove_job-other a b (x ∷ xs) other h = elim (Bool-cases (nat_eq a x)) [
  | inl same ↦ elim h [
    | inl here ↦ absurd (ground (arith, same, other, here))
    | inr there ↦ rw same there
  ]
  | inr apart ↦ elim h [
    | inl here ↦ rw apart (inl here)
    | inr there ↦ rw apart (inr (remove_job-other a b xs other there))
  ]
]

clear_slot-other :
    (a b : ℕ) (slot : Option ℕ) → nat_eq b a ≡ false → slot ≡ some b → clear_slot a slot ≡ some b
clear_slot-other a b none other h = cc h
clear_slot-other a b (some c) other h =
    let same : c ≡ b = cc h in
    let apart : nat_eq a c ≡ false = ground (arith, other, same) in rw apart h

in_slot-clear : (a : ℕ) (slot : Option ℕ) → slot ≡ some a → clear_slot a slot ≡ none
in_slot-clear a none h = refl
in_slot-clear a (some c) h =
    let same : nat_eq a c ≡ true = (let e : c ≡ a = cc h in ground (arith, e)) in rw same refl

-- The states that end a job.
abbrev pub IsTerminal : JobStatus → Type 0
IsTerminal pending = ⊥
IsTerminal assigned = ⊥
IsTerminal completed = Unit
IsTerminal failed = Unit
IsTerminal skipped = Unit

IsCounted-finish :
    (n a : ℕ) (status : JobStatus) (q : FetchQueue)
    → IsTerminal status
    → q.assigned_job ≡ some a
    → IsCounted n q
    → IsCounted n (finish a status q)
unfolding finish
IsCounted-finish n a pending q t h c = elim t [ ]
IsCounted-finish n a assigned q t h c = elim t [ ]
IsCounted-finish n a completed q t h c =
    rw (in_slot-clear a q.assigned_job h) (omega (arith, rw h at c))
IsCounted-finish n a failed q t h c =
    rw (in_slot-clear a q.assigned_job h) (omega (arith, rw h at c))
IsCounted-finish n a skipped q t h c =
    rw (in_slot-clear a q.assigned_job h) (omega (arith, rw h at c))

future-set_future :
    (a b : ℕ) (result : FetchResult) (q : FetchQueue)
    → ((set_job a (record (q.jobs a) { future = some result }) q).jobs b).future
      ≡ (if nat_eq b a then some result else (q.jobs b).future)
future-set_future a b result q = elim (Bool-cases (nat_eq b a)) [
  | inl same ↦ rw same refl
  | inr other ↦ rw other refl
]

module _ (n a : ℕ) (q : FetchQueue) (fetches : ℕ → Waiting)
    (invariant : Invariant n q fetches) where
  abbrev set_future : FetchResult → FetchQueue
  set_future result = set_job a (record (q.jobs a) { future = some result }) q

  InQueue-cleared :
      (b : ℕ)
      → nat_eq b a ≡ false
      → InQueue b q
      → OneOf b q.pending_jobs ⊎ (clear_slot a q.assigned_job ≡ some b)
  InQueue-cleared b other (inl queued) = inl queued
  InQueue-cleared b other (inr held) = inr (clear_slot-other a b q.assigned_job other held)

  abbrev finish_slot : FetchResult → JobStatus → FetchQueue
  finish_slot result status = record (set_future result) {
    assigned_job = clear_slot a q.assigned_job;
    completed_count = q.completed_count + counts completed status;
    failed_count = q.failed_count + counts failed status;
    skipped_count = q.skipped_count + counts skipped status;
  }

  pub Invariant-finish :
      (status : JobStatus) (result : FetchResult)
      → IsTerminal status
      → q.assigned_job ≡ some a
      → Invariant n (finish a status (set_future result)) fetches
  unfolding finish
  Invariant-finish status result t h = (
    IsCounted-finish n a status (set_future result) t h invariant.0,
    λ b w sleeps undone.
        let before =
          sym (future-set_future a b result q)
          ∙ sym (future-set_status a b status (finish_slot result status))
          ∙ undone in
        elim (Bool-cases (nat_eq b a)) [
          | inl same ↦ cc (rw same at before)
          | inr other ↦ InQueue-cleared b other (invariant.1 b w sleeps (rw other at before))
        ],
  )

  discard_slot : FetchQueue
  discard_slot = record q {
    assigned_job = clear_slot a q.assigned_job;
    pending_jobs =
        if is_assigned a q.assigned_job then q.pending_jobs else remove_job a q.pending_jobs;
    failed_count = q.failed_count + 1;
  }

  -- A discarded job was pending or in flight.
  IsCounted-discard :
      (slot : Option ℕ)
      → q.assigned_job ≡ slot
      → InQueue a q
      → n
        ≡ length (if is_assigned a slot then q.pending_jobs else remove_job a q.pending_jobs)
          + in_slot (clear_slot a slot)
          + q.completed_count
          + (q.failed_count + 1)
          + q.skipped_count
  IsCounted-discard none e (inl queued) =
      omega (arith, rw e at invariant.0, length-remove_job a q.pending_jobs queued)
  IsCounted-discard none e (inr held) = cc (sym e ∙ held)
  IsCounted-discard (some c) e inq = elim (Bool-cases (nat_eq a c)) [
    | inl same ↦ rw same (omega (arith, rw e at invariant.0))
    | inr other ↦ elim inq [
      | inl queued ↦
          rw other (omega (arith, rw e at invariant.0, length-remove_job a q.pending_jobs queued))
      | inr held ↦ let here : c ≡ a = cc (sym e ∙ held) in absurd (ground (arith, other, here))
    ]
  ]

  InQueue-discarded : (b : ℕ) → nat_eq b a ≡ false → InQueue b q → InQueue b discard_slot
  unfolding discard_slot
  InQueue-discarded b other (inr held) = inr (clear_slot-other a b q.assigned_job other held)
  InQueue-discarded b other (inl queued) = elim (Bool-cases (is_assigned a q.assigned_job)) [
    | inl mine ↦ rw mine (inl queued)
    | inr theirs ↦ rw theirs (inl (remove_job-other a b q.pending_jobs other queued))
  ]

  pub Invariant-discard :
      (result : FetchResult)
      → InQueue a q
      → Invariant n (discard a q) (set_fetch a (answered result) fetches)
  unfolding discard discard_slot
  Invariant-discard result inq = (
    IsCounted-discard q.assigned_job refl inq,
    λ b w sleeps undone. elim (Bool-cases (nat_eq b a)) [
      | inl same ↦ cc (rw same at sleeps)
      | inr other ↦ InQueue-discarded b other (
          invariant.1 b w (rw other at sleeps)
            (sym (future-set_status a b failed discard_slot) ∙ undone))
    ],
  )

  -- The fetch goes back to sleep, or gets the result that its future has.
  pub Invariant-asleep :
      (before later : Waiter)
      → fetches a ≡ asleep before
      → Invariant n q (set_fetch a (asleep later) fetches)
  Invariant-asleep before later e = (
    invariant.0,
    λ b w sleeps undone. elim (Bool-cases (nat_eq b a)) [
      | inl same ↦
          let here : b ≡ a = ground (arith, same) in
          invariant.1 b before (ap fetches here ∙ e) undone
      | inr other ↦ invariant.1 b w (rw other at sleeps) undone
    ],
  )

  pub Invariant-answered :
      (result : FetchResult) → Invariant n q (set_fetch a (answered result) fetches)
  Invariant-answered result = (
    invariant.0,
    λ b w sleeps undone. elim (Bool-cases (nat_eq b a)) [
      | inl same ↦ cc (rw same at sleeps)
      | inr other ↦ invariant.1 b w (rw other at sleeps) undone
    ],
  )

  -- A change of a job that leaves its future, as an override makes.
  pub Invariant-set_url :
      (url : String) → Invariant n (set_job a (record (q.jobs a) { url = url }) q) fetches
  Invariant-set_url url = (
    invariant.0,
    λ b w sleeps undone. elim (Bool-cases (nat_eq b a)) [
      | inl same ↦
          let here : b ≡ a = ground (arith, same) in
          invariant.1 b w sleeps (ap (λ x. (q.jobs x).future) here ∙ rw same at undone)
      | inr other ↦ invariant.1 b w sleeps (rw other at undone)
    ],
  )

pub Invariant-take_from :
    (n : ℕ) (q : FetchQueue) (fetches : ℕ → Waiting) (slot : Option ℕ) (queued : List ℕ)
    → q.assigned_job ≡ slot
    → q.pending_jobs ≡ queued
    → Invariant n q fetches
    → Invariant n (take_from slot queued q).1 fetches
Invariant-take_from n q fetches (some b) queued e f invariant = invariant
Invariant-take_from n q fetches none [] e f invariant = invariant
Invariant-take_from n q fetches none (a ∷ rest) e f invariant =
    let count : IsCounted n (record q { pending_jobs = a ∷ rest; assigned_job = none }) =
      rw (e, f) at invariant.0 in
    (
      omega (arith, count),
      λ b w sleeps undone.
          let inq = invariant.1 b w sleeps (
            sym (
              future-set_status a b assigned
                (record q { pending_jobs = rest; assigned_job = some a }))
            ∙ undone) in
          taken b inq,
    )
  where
    taken : (b : ℕ) → InQueue b q → OneOf b rest ⊎ (some a ≡ some b)
    taken b (inl p) = elim (subst (OneOf b) f p) [
      | inl here ↦ inr (ap some (sym here))
      | inr there ↦ inl there
    ]
    taken b (inr held) = cc (sym e ∙ held)
