-- ===== src/Bridge/System/Final.antt =====
-- A result, once it is there, stays.
use dext.Base.{
  ℕ, ◌+◌, ◌<◌, ◌≡◌, refl, sym, ap, ◌∙◌, inl, inr, String, Bool, true, false, Option, none, some,
  List, [], ◌∷◌, nat_eq, Bool-cases, if◌then◌else◌, arith, is_some,
}
use dext.Bridge.Types.{FetchResult, JobStatus, assigned, failed, FetchJob}
use dext.Bridge.UrlPolicy.{is_allowed_fetch_host, has_explicit_port}
use dext.Bridge.Queue.{
  FetchQueue, enqueue, take_from, take_next, is_assigned, clear_slot, finish, remove_job, discard,
  find,
}
use dext.Bridge.Fetcher.{
  Outside, Bridge, resolve, unresolved, resolvable, resolve_found, fetch, start_fetch, job_of,
  add_job, next_job, complete, fail, skip, override_found, override_allowed, override,
  record_frontend_heartbeat, Waiter, tick, round_on, times_out, wait_round,
}
use dext.Bridge.System.{
  Waiting, no_fetch, asleep, answered, System, Event, fetch_called, next_called, complete_called,
  fail_called, skip_called, override_called, heartbeat, wake, set_fetch, started, rounded, woken,
  step,
}
use dext.Bridge.System.Invariant.{future-set_status}

module _ (a : ℕ) where
  -- The result of the job stays.
  abbrev Keeps : FetchQueue → FetchQueue → Type 0
  Keeps q q' = (r : FetchResult) → (q.jobs a).future ≡ some r → (q'.jobs a).future ≡ some r

  unresolved-undone :
      (found : Option ℕ) (q : FetchQueue) (c : ℕ)
      → unresolved found q ≡ some c
      → is_some (q.jobs c).future ≡ false
  unresolved-undone none q c h = cc h
  unresolved-undone (some d) q c h = elim (Bool-cases (is_some (q.jobs d).future)) [
    | inl done ↦ let bad = rw done at h in cc bad
    | inr undone ↦
        let same : d ≡ c = cc (rw undone at h) in
        ap (λ x. is_some (q.jobs x).future) (sym same) ∙ undone
  ]

  resolve-Keeps :
      (c : ℕ) (result : FetchResult) (status : JobStatus) (b : Bridge)
      → is_some (b.queue.jobs c).future ≡ false
      → Keeps b.queue (resolve c result status b).queue
  unfolding resolve finish
  resolve-Keeps c result status b undone r h = elim (Bool-cases (nat_eq a c)) [
    | inr other ↦ rw other h
    | inl same ↦
        let here : a ≡ c = ground (arith, same) in
        let full : true ≡ false =
          sym (ap is_some h) ∙ ap (λ x. is_some (b.queue.jobs x).future) here ∙ undone in
        cc full
  ]

  resolve_found-Keeps :
      (found : Option ℕ) (outcome : ℕ → FetchResult × JobStatus) (b : Bridge)
      → ((c : ℕ) → found ≡ some c → is_some (b.queue.jobs c).future ≡ false)
      → Keeps b.queue (resolve_found found outcome b).1.queue
  unfolding resolve_found
  resolve_found-Keeps none outcome b undone r h = h
  resolve_found-Keeps (some c) outcome b undone r h =
      resolve-Keeps c (outcome c).0 (outcome c).1 b (undone c refl) r h

  resolvable-undone :
      (id : String) (b : Bridge) (c : ℕ)
      → resolvable id b ≡ some c
      → is_some (b.queue.jobs c).future ≡ false
  unfolding resolvable
  resolvable-undone id b c h = unresolved-undone (find id b.queue) b.queue c h

  take_from-Keeps :
      (slot : Option ℕ) (queued : List ℕ) (q : FetchQueue) → Keeps q (take_from slot queued q).1
  take_from-Keeps (some b) queued q r h = h
  take_from-Keeps none [] q r h = h
  take_from-Keeps none (c ∷ rest) q r h =
      future-set_status c a assigned (record q { pending_jobs = rest; assigned_job = some c }) ∙ h

  override_found-Keeps :
      (out : Outside) (found : Option ℕ) (url : String) (b : Bridge)
      → Keeps b.queue (override_found out found url b).1.queue
  override_found-Keeps out none url b r h = h
  override_found-Keeps out (some c) url b r h = elim (Bool-cases (nat_eq a c)) [
    | inl same ↦ let here : c ≡ a = ground (arith, same) in rw (same, here) h
    | inr other ↦ rw other h
  ]

  override_allowed-Keeps :
      (out : Outside) (allowed : Option Bool) (id url : String) (b : Bridge)
      → Keeps b.queue (override_allowed out allowed id url b).1.queue
  unfolding override_allowed
  override_allowed-Keeps out none id url b r h = h
  override_allowed-Keeps out (some false) id url b r h = h
  override_allowed-Keeps out (some true) id url b r h =
      override_found-Keeps out (find id b.queue) url b r h

  override-Keeps :
      (out : Outside) (id url : String) (b : Bridge) → Keeps b.queue (override out id url b).1.queue
  unfolding override
  override-Keeps out id url b r h =
      elim (Bool-cases (has_explicit_port out.urlsplit out.lower url)) [
        | inl port ↦ rw port h
        | inr none_named ↦ rw none_named (
            override_allowed-Keeps out (is_allowed_fetch_host out.urlsplit out.lower url) id url b r
              h)
      ]

  -- The result of the job and the answer of its fetch stay.
  abbrev Stays : System → System → Type 0
  Stays s s' =
      (r : FetchResult)
      → ((s.bridge.queue.jobs a).future ≡ some r → (s'.bridge.queue.jobs a).future ≡ some r)
        × (s.fetches a ≡ answered r → s'.fetches a ≡ answered r)

  started-Stays :
      (out : Outside) (now : ℕ) (allowed : Option Bool) (job : FetchJob) (s : System)
      → a < s.bridge.created
      → Stays s (started now (start_fetch out allowed job s.bridge) s)
  unfolding started start_fetch add_job enqueue
  started-Stays out now none job s born r = (λ h. h, λ h. h)
  started-Stays out now (some false) job s born r = (λ h. h, λ h. h)
  started-Stays out now (some true) job s born r =
      let older : nat_eq a s.bridge.created ≡ false = ground (arith, born) in
      (λ h. rw older h, λ h. rw older h)

  set_fetch-Stays :
      (c : ℕ) (before : Waiter) (later : Waiting) (fetches : ℕ → Waiting) (r : FetchResult)
      → fetches c ≡ asleep before
      → fetches a ≡ answered r
      → set_fetch c later fetches a ≡ answered r
  set_fetch-Stays c before later fetches r sleeps h = elim (Bool-cases (nat_eq a c)) [
    | inl same ↦
        let here : a ≡ c = ground (arith, same) in
        let clash : answered r ≡ asleep before = sym h ∙ ap fetches here ∙ sleeps in cc clash
    | inr other ↦ rw other h
  ]

  tick-Stays :
      (c now : ℕ) (w : Waiter) (s : System) (timeout : Bool)
      → s.fetches c ≡ asleep w
      → Stays s (rounded c (tick c now w s.bridge timeout) s)
  unfolding tick discard
  tick-Stays c now w s true sleeps r = (
    λ h.
        future-set_status c a failed (record s.bridge.queue {
          assigned_job = clear_slot c s.bridge.queue.assigned_job;
          pending_jobs =
              if is_assigned c s.bridge.queue.assigned_job
              then s.bridge.queue.pending_jobs
              else remove_job c s.bridge.queue.pending_jobs;
          failed_count = s.bridge.queue.failed_count + 1;
        })
        ∙ h,
    set_fetch-Stays c w _ s.fetches r sleeps,
  )
  tick-Stays c now w s false sleeps r = (λ h. h, set_fetch-Stays c w _ s.fetches r sleeps)

  round_on-Stays :
      (c now : ℕ) (w : Waiter) (s : System) (future : Option FetchResult)
      → s.fetches c ≡ asleep w
      → Stays s (rounded c (round_on future c now w s.bridge) s)
  unfolding round_on
  round_on-Stays c now w s (some result) sleeps r =
      (λ h. h, set_fetch-Stays c w (answered result) s.fetches r sleeps)
  round_on-Stays c now w s none sleeps r = tick-Stays c now w s (times_out now w s.bridge) sleeps r

  woken-Stays : (c now : ℕ) (w : Waiting) (s : System) → s.fetches c ≡ w → Stays s (woken c now w s)
  unfolding woken wait_round
  woken-Stays c now (asleep w) s e r = round_on-Stays c now w s (s.bridge.queue.jobs c).future e r
  woken-Stays c now no_fetch s e r = (λ h. h, λ h. h)
  woken-Stays c now (answered result) s e r = (λ h. h, λ h. h)

step-Stays :
    (out : Outside) (e : Event) (s : System) (a : ℕ)
    → a < s.bridge.created
    → Stays a s (step out e s)
unfolding step fetch next_job complete fail skip record_frontend_heartbeat take_next
step-Stays out (fetch_called url context identity_url action now) s a born r =
    started-Stays a out now (is_allowed_fetch_host out.urlsplit out.lower url)
      (job_of out url context identity_url action now s.bridge) s born r
step-Stays out next_called s a born r = (
  take_from-Keeps a s.bridge.queue.assigned_job s.bridge.queue.pending_jobs s.bridge.queue r,
  λ h. h,
)
step-Stays out (complete_called id html url title pages) s a born r = (
  resolve_found-Keeps a (resolvable id s.bridge) _ s.bridge (resolvable-undone a id s.bridge) r,
  λ h. h,
)
step-Stays out (fail_called id message) s a born r = (
  resolve_found-Keeps a (resolvable id s.bridge) _ s.bridge (resolvable-undone a id s.bridge) r,
  λ h. h,
)
step-Stays out (skip_called id reason) s a born r = (
  resolve_found-Keeps a (resolvable id s.bridge) _ s.bridge (resolvable-undone a id s.bridge) r,
  λ h. h,
)
step-Stays out (override_called id url) s a born r =
    (override-Keeps a out id url s.bridge r, λ h. h)
step-Stays out (heartbeat beat) s a born r = (λ h. h, λ h. h)
step-Stays out (wake c now) s a born r = woken-Stays a c now (s.fetches c) s refl r

-- No event changes the result of a job that has one: a job is resolved at most once.
pub result_is_final :
    (out : Outside) (e : Event) (s : System) (a : ℕ) (r : FetchResult)
    → a < s.bridge.created
    → (s.bridge.queue.jobs a).future ≡ some r
    → ((step out e s).bridge.queue.jobs a).future ≡ some r
result_is_final out e s a r born h = (step-Stays out e s a born r).0 h
