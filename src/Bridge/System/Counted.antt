-- ===== src/Bridge/System/Counted.antt =====
-- The invariant at every reachable state.
use dext.Base.{
  ℕ, ◌+◌, ◌≡◌, refl, inl, inr, String, Bool, true, false, Option, none, some, List, [], ◌∷◌,
  length-append, nat_eq, Bool-cases, OneOf-append_left, OneOf-append_right, arith, is_some, ◌==◌,
}
use dext.Bridge.Types.{PaginationState, FetchResult, JobStatus, FetchJob}
use dext.Bridge.UrlPolicy.{is_allowed_fetch_host, has_explicit_port}
use dext.Bridge.Queue.{FetchQueue, enqueue, take_next, find_in, find, stats}
use dext.Bridge.Fetcher.{
  Outside, Bridge, failed_result, unresolved, resolvable, resolve_found, fetch, start_fetch, job_of,
  add_job, next_job, complete_outcome, complete, fail, skip, override_found, override_allowed,
  override, record_frontend_heartbeat, Waiter, start_wait, tick, round_on, times_out, wait_round,
}
use dext.Bridge.System.{
  Waiting, no_fetch, asleep, answered, System, Event, fetch_called, next_called, complete_called,
  fail_called, skip_called, override_called, heartbeat, wake, set_fetch, started, rounded, woken,
  step, Reachable, new, after,
}
use dext.Bridge.System.Invariant.{
  InQueue, Invariant, IsTerminal, Invariant-finish, Invariant-discard, Invariant-asleep,
  Invariant-answered, Invariant-set_url, Invariant-take_from,
}

abbrev Holds : Bridge → (ℕ → Waiting) → Type 0
Holds b fetches = Invariant b.created b.queue fetches

find_in-assigned :
    (slot : Option ℕ) (id : String) (jobs : ℕ → FetchJob) (a : ℕ)
    → find_in slot id jobs ≡ some a
    → slot ≡ some a
find_in-assigned none id jobs a h = cc h
find_in-assigned (some c) id jobs a h = elim (Bool-cases ((jobs c).id == id)) [
  | inl t ↦ rw t at h
  | inr f ↦ let bad = rw f at h in cc bad
]

unresolved→found : (o : Option ℕ) (q : FetchQueue) (a : ℕ) → unresolved o q ≡ some a → o ≡ some a
unresolved→found none q a h = cc h
unresolved→found (some c) q a h = elim (Bool-cases (is_some (q.jobs c).future)) [
  | inl t ↦ let bad = rw t at h in cc bad
  | inr f ↦ rw f at h
]

resolvable-assigned :
    (id : String) (b : Bridge) (a : ℕ) → resolvable id b ≡ some a → b.queue.assigned_job ≡ some a
unfolding resolvable find
resolvable-assigned id b a h =
    find_in-assigned b.queue.assigned_job id b.queue.jobs a
      (unresolved→found (find_in b.queue.assigned_job id b.queue.jobs) b.queue a h)

resolve_found-Holds :
    (found : Option ℕ) (outcome : ℕ → FetchResult × JobStatus) (b : Bridge) (fetches : ℕ → Waiting)
    → ((a : ℕ) → found ≡ some a → b.queue.assigned_job ≡ some a)
    → ((a : ℕ) → IsTerminal (outcome a).1)
    → Holds b fetches
    → Holds (resolve_found found outcome b).1 fetches
unfolding resolve_found
resolve_found-Holds none outcome b fetches h t inv = inv
resolve_found-Holds (some a) outcome b fetches h t inv =
    Invariant-finish b.created a b.queue fetches inv (outcome a).1 (outcome a).0 (t a) (h a refl)

override_found-Holds :
    (out : Outside) (found : Option ℕ) (url : String) (b : Bridge) (fetches : ℕ → Waiting)
    → Holds b fetches
    → Holds (override_found out found url b).1 fetches
override_found-Holds out none url b fetches inv = inv
override_found-Holds out (some a) url b fetches inv =
    Invariant-set_url b.created a b.queue fetches inv url

override_allowed-Holds :
    (out : Outside) (allowed : Option Bool) (id url : String) (b : Bridge) (fetches : ℕ → Waiting)
    → Holds b fetches
    → Holds (override_allowed out allowed id url b).1 fetches
unfolding override_allowed
override_allowed-Holds out none id url b fetches inv = inv
override_allowed-Holds out (some false) id url b fetches inv = inv
override_allowed-Holds out (some true) id url b fetches inv =
    override_found-Holds out (find id b.queue) url b fetches inv

tick-Holds :
    (a now : ℕ) (w : Waiter) (s : System) (timeout : Bool)
    → s.fetches a ≡ asleep w
    → (s.bridge.queue.jobs a).future ≡ none
    → Holds s.bridge s.fetches
    → Holds
        (rounded a (tick a now w s.bridge timeout) s).bridge
        (rounded a (tick a now w s.bridge timeout) s).fetches
unfolding tick
tick-Holds a now w s true sleeps undone inv =
    Invariant-discard s.bridge.created a s.bridge.queue s.fetches inv
      (failed_result (s.bridge.queue.jobs a) "timeout") (inv.1 a w sleeps undone)
tick-Holds a now w s false sleeps undone inv =
    Invariant-asleep s.bridge.created a s.bridge.queue s.fetches inv w _ sleeps

round_on-Holds :
    (a now : ℕ) (w : Waiter) (s : System) (future : Option FetchResult)
    → (s.bridge.queue.jobs a).future ≡ future
    → s.fetches a ≡ asleep w
    → Holds s.bridge s.fetches
    → Holds
        (rounded a (round_on future a now w s.bridge) s).bridge
        (rounded a (round_on future a now w s.bridge) s).fetches
unfolding round_on
round_on-Holds a now w s (some result) e sleeps inv =
    Invariant-answered s.bridge.created a s.bridge.queue s.fetches inv result
round_on-Holds a now w s none e sleeps inv =
    tick-Holds a now w s (times_out now w s.bridge) sleeps e inv

woken-Holds :
    (a now : ℕ) (w : Waiting) (s : System)
    → s.fetches a ≡ w
    → Holds s.bridge s.fetches
    → Holds (woken a now w s).bridge (woken a now w s).fetches
unfolding woken wait_round
woken-Holds a now (asleep w) s e inv =
    round_on-Holds a now w s (s.bridge.queue.jobs a).future refl e inv
woken-Holds a now no_fetch s e inv = inv
woken-Holds a now (answered result) s e inv = inv

future-add_job :
    (out : Outside) (job : FetchJob) (b : Bridge) (a : ℕ)
    → nat_eq a b.created ≡ false
    → ((add_job out job b).queue.jobs a).future ≡ (b.queue.jobs a).future
unfolding add_job enqueue
future-add_job out job b a other = rw other refl

add_job-Holds :
    (out : Outside) (job : FetchJob) (b : Bridge) (fetches : ℕ → Waiting) (w : Waiter)
    → Holds b fetches
    → Holds (add_job out job b) (set_fetch b.created (asleep w) fetches)
unfolding add_job enqueue
add_job-Holds out job b fetches w inv = (
  omega (arith, inv.0, length-append b.queue.pending_jobs (b.created ∷ [])),
  λ a v sleeps undone. elim (Bool-cases (nat_eq a b.created)) [
    | inl same ↦
        inl
          (OneOf-append_right a b.queue.pending_jobs (b.created ∷ []) (inl (ground (arith, same))))
    | inr other ↦ elim (inv.1 a v (rw other at sleeps) (rw other at undone)) [
      | inl queued ↦ inl (OneOf-append_left a b.queue.pending_jobs (b.created ∷ []) queued)
      | inr held ↦ inr held
    ]
  ],
)

started-Holds :
    (out : Outside) (now : ℕ) (allowed : Option Bool) (job : FetchJob) (s : System)
    → Holds s.bridge s.fetches
    → Holds
        (started now (start_fetch out allowed job s.bridge) s).bridge
        (started now (start_fetch out allowed job s.bridge) s).fetches
unfolding started start_fetch
started-Holds out now none job s inv = inv
started-Holds out now (some false) job s inv = inv
started-Holds out now (some true) job s inv =
    add_job-Holds out job s.bridge s.fetches (start_wait now (add_job out job s.bridge)) inv

complete_outcome-IsTerminal :
    (out : Outside) (html url title : String) (pages : List PaginationState) (job : FetchJob)
    → IsTerminal (complete_outcome out html url title pages job).1
unfolding complete_outcome
complete_outcome-IsTerminal out html url title pages job =
    elim (Bool-cases (has_explicit_port out.urlsplit out.lower url)) [
      | inl port ↦ rw port tt
      | inr none_named ↦ rw none_named tt
    ]

override-Holds :
    (out : Outside) (id url : String) (b : Bridge) (fetches : ℕ → Waiting)
    → Holds b fetches
    → Holds (override out id url b).1 fetches
unfolding override
override-Holds out id url b fetches inv =
    elim (Bool-cases (has_explicit_port out.urlsplit out.lower url)) [
      | inl port ↦ rw port inv
      | inr none_named ↦ rw none_named (
          override_allowed-Holds out (is_allowed_fetch_host out.urlsplit out.lower url) id url b
            fetches inv)
    ]

step-Holds :
    (out : Outside) (e : Event) (s : System)
    → Holds s.bridge s.fetches
    → Holds (step out e s).bridge (step out e s).fetches
unfolding step fetch next_job complete fail skip record_frontend_heartbeat take_next
step-Holds out (fetch_called url context identity_url action now) s inv =
    started-Holds out now (is_allowed_fetch_host out.urlsplit out.lower url)
      (job_of out url context identity_url action now s.bridge) s inv
step-Holds out next_called s inv =
    let q = s.bridge.queue in
    Invariant-take_from s.bridge.created q s.fetches q.assigned_job q.pending_jobs refl refl inv
step-Holds out (complete_called id html url title pages) s inv =
    resolve_found-Holds (resolvable id s.bridge)
      (λ a. complete_outcome out html url title pages (s.bridge.queue.jobs a)) s.bridge s.fetches
      (resolvable-assigned id s.bridge)
      (λ a. complete_outcome-IsTerminal out html url title pages (s.bridge.queue.jobs a)) inv
step-Holds out (fail_called id message) s inv =
    resolve_found-Holds (resolvable id s.bridge) _ s.bridge s.fetches
      (resolvable-assigned id s.bridge) (λ a. tt) inv
step-Holds out (skip_called id reason) s inv =
    resolve_found-Holds (resolvable id s.bridge) _ s.bridge s.fetches
      (resolvable-assigned id s.bridge) (λ a. tt) inv
step-Holds out (override_called id url) s inv = override-Holds out id url s.bridge s.fetches inv
step-Holds out (heartbeat beat) s inv = inv
step-Holds out (wake a now) s inv = woken-Holds a now (s.fetches a) s refl inv

Reachable-Holds :
    (out : Outside) {timeout stale : ℕ} {s : System}
    → Reachable out timeout stale s
    → Holds s.bridge s.fetches
Reachable-Holds out new = (omega arith, λ a w sleeps undone. cc sleeps)
Reachable-Holds out (after {s} e before) = step-Holds out e s (Reachable-Holds out before)

-- At every state that events lead to, each job that was ever created is counted exactly once in the
-- stats: as pending, assigned, completed, failed or skipped, time-outs among the failed.
pub every_job_counted :
    (out : Outside) (timeout stale : ℕ) (s : System)
    → Reachable out timeout stale s
    → s.bridge.created
      ≡ (stats s.bridge.queue).pending_jobs
        + (stats s.bridge.queue).assigned_jobs
        + (stats s.bridge.queue).completed_jobs
        + (stats s.bridge.queue).failed_jobs
        + (stats s.bridge.queue).skipped_jobs
unfolding stats
every_job_counted out timeout stale s r = (Reachable-Holds out r).0

-- At every state that events lead to, a job that a fetch still waits on and that has no result is
-- pending or in flight: no waiting fetch has lost its job.
pub waiting_job_queued :
    (out : Outside) (timeout stale : ℕ) (s : System)
    → Reachable out timeout stale s
    → (a : ℕ) (w : Waiter) → s.fetches a ≡ asleep w
    → (s.bridge.queue.jobs a).future ≡ none
    → InQueue a s.bridge.queue
waiting_job_queued out timeout stale s r a w sleeps undone =
    (Reachable-Holds out r).1 a w sleeps undone
