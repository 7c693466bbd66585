-- ===== src/Bridge/System/Ordered.antt =====
-- The order in which jobs are handed out.
use dext.Base.{
  ℕ, suc, ◌+◌, ◌≤◌, ◌≡◌, refl, inl, inr, String, Bool, true, false, Option, none, some, List, [],
  ◌∷◌, ◌++◌, nat_eq, Bool-cases, if◌then◌else◌, arith,
}
use dext.Bridge.Types.{FetchResult, JobStatus, FetchJob}
use dext.Bridge.UrlPolicy.{is_allowed_fetch_host, has_explicit_port}
use dext.Bridge.Queue.{
  FetchQueue, enqueue, take_from, take_next, is_assigned, clear_slot, finish, remove_job, discard,
  find,
}
use dext.Bridge.Fetcher.{
  Outside, Bridge, resolve, resolvable, resolve_found, fetch, start_fetch, job_of, add_job,
  next_job, complete, fail, skip, override_found, override_allowed, override,
  record_frontend_heartbeat, Waiter, tick, round_on, times_out, wait_round,
}
use dext.Bridge.System.{
  Waiting, no_fetch, asleep, answered, System, Event, fetch_called, next_called, complete_called,
  fail_called, skip_called, override_called, heartbeat, wake, started, rounded, woken, step,
  Reachable, new, after,
}

-- The addresses increase, from `lo` on and below `hi`.
abbrev pub Ascends : ℕ → List ℕ → ℕ → Type 0
Ascends lo [] hi = lo ≤ hi
Ascends lo (x ∷ xs) hi = (lo ≤ x) × Ascends (suc x) xs hi

-- The first address that may stand behind the job in flight.
abbrev pub behind : Option ℕ → ℕ
behind none = 0
behind (some a) = suc a

abbrev pub IsOrdered : Bridge → Type 0
IsOrdered b = Ascends (behind b.queue.assigned_job) b.queue.pending_jobs b.created

Ascends-from : (lo lo' : ℕ) (xs : List ℕ) (hi : ℕ) → lo ≤ lo' → Ascends lo' xs hi → Ascends lo xs hi
Ascends-from lo lo' [] hi le h = omega (arith, le, h)
Ascends-from lo lo' (x ∷ xs) hi le h = (omega (arith, le, h.0), h.1)

Ascends-append :
    (lo : ℕ) (xs : List ℕ) (hi : ℕ) → Ascends lo xs hi → Ascends lo (xs ++ hi ∷ []) (hi + 1)
Ascends-append lo [] hi h = (h, omega arith)
Ascends-append lo (x ∷ xs) hi h = (h.0, Ascends-append (suc x) xs hi h.1)

Ascends-remove_job :
    (a lo : ℕ) (xs : List ℕ) (hi : ℕ) → Ascends lo xs hi → Ascends lo (remove_job a xs) hi
unfolding remove_job
Ascends-remove_job a lo [] hi h = h
Ascends-remove_job a lo (x ∷ xs) hi h = elim (Bool-cases (nat_eq a x)) [
  | inl same ↦ rw (same, Ascends) (Ascends-from lo (suc x) xs hi (omega (arith, h.0)) h.1)
  | inr other ↦ rw (other, Ascends) (h.0, Ascends-remove_job a (suc x) xs hi h.1)
]

behind-clear : (a : ℕ) (slot : Option ℕ) → behind (clear_slot a slot) ≤ behind slot
behind-clear a none = omega arith
behind-clear a (some c) = elim (Bool-cases (nat_eq a c)) [
  | inl same ↦ rw same (omega arith)
  | inr other ↦ rw other (omega arith)
]

clear-IsOrdered :
    (a : ℕ) (slot : Option ℕ) (xs : List ℕ) (hi : ℕ)
    → Ascends (behind slot) xs hi
    → Ascends (behind (clear_slot a slot)) xs hi
clear-IsOrdered a slot xs hi h =
    Ascends-from (behind (clear_slot a slot)) (behind slot) xs hi (behind-clear a slot) h

resolve_found-IsOrdered :
    (found : Option ℕ) (outcome : ℕ → FetchResult × JobStatus) (b : Bridge)
    → IsOrdered b
    → IsOrdered (resolve_found found outcome b).1
unfolding resolve_found resolve finish
resolve_found-IsOrdered none outcome b h = h
resolve_found-IsOrdered (some a) outcome b h =
    clear-IsOrdered a b.queue.assigned_job b.queue.pending_jobs b.created h

override_found-IsOrdered :
    (out : Outside) (found : Option ℕ) (url : String) (b : Bridge)
    → IsOrdered b
    → IsOrdered (override_found out found url b).1
override_found-IsOrdered out none url b h = h
override_found-IsOrdered out (some a) url b h = h

override_allowed-IsOrdered :
    (out : Outside) (allowed : Option Bool) (id url : String) (b : Bridge)
    → IsOrdered b
    → IsOrdered (override_allowed out allowed id url b).1
unfolding override_allowed
override_allowed-IsOrdered out none id url b h = h
override_allowed-IsOrdered out (some false) id url b h = h
override_allowed-IsOrdered out (some true) id url b h =
    override_found-IsOrdered out (find id b.queue) url b h

override-IsOrdered :
    (out : Outside) (id url : String) (b : Bridge)
    → IsOrdered b
    → IsOrdered (override out id url b).1
unfolding override
override-IsOrdered out id url b h =
    elim (Bool-cases (has_explicit_port out.urlsplit out.lower url)) [
      | inl port ↦ rw port h
      | inr none_named ↦ rw none_named (
          override_allowed-IsOrdered out (is_allowed_fetch_host out.urlsplit out.lower url) id url b
            h)
    ]

take_from-IsOrdered :
    (slot : Option ℕ) (queued : List ℕ) (q : FetchQueue) (hi : ℕ)
    → q.assigned_job ≡ slot
    → q.pending_jobs ≡ queued
    → Ascends (behind q.assigned_job) q.pending_jobs hi
    → Ascends
        (behind (take_from slot queued q).1.assigned_job)
        (take_from slot queued q).1.pending_jobs
        hi
take_from-IsOrdered (some b) queued q hi e f h = h
take_from-IsOrdered none [] q hi e f h = h
take_from-IsOrdered none (a ∷ rest) q hi e f h =
    let all : Ascends 0 (a ∷ rest) hi = rw (e, f) at h in all.1

started-IsOrdered :
    (out : Outside) (now : ℕ) (allowed : Option Bool) (job : FetchJob) (s : System)
    → IsOrdered s.bridge
    → IsOrdered (started now (start_fetch out allowed job s.bridge) s).bridge
unfolding started start_fetch add_job enqueue
started-IsOrdered out now none job s h = h
started-IsOrdered out now (some false) job s h = h
started-IsOrdered out now (some true) job s h =
    Ascends-append (behind s.bridge.queue.assigned_job) s.bridge.queue.pending_jobs s.bridge.created
      h

tick-IsOrdered :
    (a now : ℕ) (w : Waiter) (s : System) (timeout : Bool)
    → IsOrdered s.bridge
    → IsOrdered (rounded a (tick a now w s.bridge timeout) s).bridge
unfolding tick discard
tick-IsOrdered a now w s true h =
    let q = s.bridge.queue in
    clear-IsOrdered a q.assigned_job
      (if is_assigned a q.assigned_job then q.pending_jobs else remove_job a q.pending_jobs)
      s.bridge.created
      (elim (Bool-cases (is_assigned a q.assigned_job)) [
        | inl mine ↦ rw mine h
        | inr theirs ↦
            rw theirs
              (Ascends-remove_job a (behind q.assigned_job) q.pending_jobs s.bridge.created h)
      ])
tick-IsOrdered a now w s false h = h

round_on-IsOrdered :
    (a now : ℕ) (w : Waiter) (s : System) (future : Option FetchResult)
    → IsOrdered s.bridge
    → IsOrdered (rounded a (round_on future a now w s.bridge) s).bridge
unfolding round_on
round_on-IsOrdered a now w s (some result) h = h
round_on-IsOrdered a now w s none h = tick-IsOrdered a now w s (times_out now w s.bridge) h

woken-IsOrdered :
    (a now : ℕ) (w : Waiting) (s : System) → IsOrdered s.bridge → IsOrdered (woken a now w s).bridge
unfolding woken wait_round
woken-IsOrdered a now (asleep w) s h = round_on-IsOrdered a now w s (s.bridge.queue.jobs a).future h
woken-IsOrdered a now no_fetch s h = h
woken-IsOrdered a now (answered result) s h = h

step-IsOrdered :
    (out : Outside) (e : Event) (s : System) → IsOrdered s.bridge → IsOrdered (step out e s).bridge
unfolding step fetch next_job complete fail skip record_frontend_heartbeat take_next
step-IsOrdered out (fetch_called url context identity_url action now) s h =
    started-IsOrdered out now (is_allowed_fetch_host out.urlsplit out.lower url)
      (job_of out url context identity_url action now s.bridge) s h
step-IsOrdered out next_called s h =
    let q = s.bridge.queue in
    take_from-IsOrdered q.assigned_job q.pending_jobs q s.bridge.created refl refl h
step-IsOrdered out (complete_called id html url title pages) s h =
    resolve_found-IsOrdered (resolvable id s.bridge) _ s.bridge h
step-IsOrdered out (fail_called id message) s h =
    resolve_found-IsOrdered (resolvable id s.bridge) _ s.bridge h
step-IsOrdered out (skip_called id reason) s h =
    resolve_found-IsOrdered (resolvable id s.bridge) _ s.bridge h
step-IsOrdered out (override_called id url) s h = override-IsOrdered out id url s.bridge h
step-IsOrdered out (heartbeat beat) s h = h
step-IsOrdered out (wake a now) s h = woken-IsOrdered a now (s.fetches a) s h

Reachable-IsOrdered :
    (out : Outside) {timeout stale : ℕ} {s : System}
    → Reachable out timeout stale s
    → IsOrdered s.bridge
Reachable-IsOrdered out new = omega arith
Reachable-IsOrdered out (after {s} e before) =
    step-IsOrdered out e s (Reachable-IsOrdered out before)

-- First in, first out: at every state that events lead to, the pending jobs stand in the order in
-- which they were created, each once, and the job in flight, if there is one, was created before all
-- of them.
pub jobs_first_in_first_out :
    (out : Outside) (timeout stale : ℕ) (s : System)
    → Reachable out timeout stale s
    → Ascends (behind s.bridge.queue.assigned_job) s.bridge.queue.pending_jobs s.bridge.created
jobs_first_in_first_out out timeout stale s r = Reachable-IsOrdered out r
