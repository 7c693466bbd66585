-- ===== src/Bridge/Fetcher.antt =====
-- fetcher.py: the fetch entry point, the resolution of jobs, and the wait for one.
use dext.Base.{
  ℕ, ◌+◌, ◌-◌, ◌*◌, min, String, Bool, true, false, ◌&&◌, Option, none, some, List, [], leb,
  is_some, or_else, if◌then◌else◌, ◌==◌,
}
use dext.Base.Text.{strip}
use dext.Bridge.Types.{
  PaginationState, FetchResult, FetchAction, JobStatus, pending, completed, failed, skipped,
  JobContext, FetchJob,
}
use dext.Bridge.UrlPolicy.{UrlSplit, is_allowed_fetch_host, has_explicit_port}
use dext.Bridge.Mojibake.{Codecs, repair_mojibake_text}
use dext.Bridge.Queue.{FetchQueue, new_queue, set_job, enqueue, take_next, find, finish, discard}
use dext.Bridge.Health.{FrontendHealth, FrontendHeartbeat, is_alive, record_heartbeat}

-- What the bridge uses of the standard library: addresses taken apart, lower case, codecs, and the
-- id that uuid4 gives to the n-th job.
pub record Outside : Type 0 where
  pub urlsplit : UrlSplit
  pub lower : String → String
  pub codecs : Codecs
  pub new_job_id : ℕ → String

-- `HumanFetcherBridge`; `created` counts the jobs, and is the address of the next.
pub record Bridge : Type 0 where
  pub timeout_seconds : ℕ
  pub queue : FetchQueue
  pub created : ℕ
  pub health : FrontendHealth

abbrev pub new_bridge : ℕ → ℕ → Bridge
new_bridge timeout stale = record {
  timeout_seconds = timeout;
  queue = new_queue;
  created = 0;
  health = record { stale_after = stale; latest = none };
}

-- `a or b` on texts
abbrev pub text_or : Option String → String → String
text_or none b = b
text_or (some a) b = if a == "" then b else a

abbrev pub failed_result : FetchJob → String → FetchResult
failed_result job block_reason = record {
  identity_url = text_or job.identity_url job.url;
  requested_url = job.url;
  final_url = job.url;
  status_code = none;
  html = "";
  title = "";
  pagination_states = [];
  block_reason = some block_reason;
}

-- `job.future.set_result(result)`, then `finish`
unfoldable pub resolve : ℕ → FetchResult → JobStatus → Bridge → Bridge
unfolding finish
resolve a result status b =
    let job = b.queue.jobs a in
    record b { queue = finish a status (set_job a (record job { future = some result }) b.queue) }

abbrev pub unresolved : Option ℕ → FetchQueue → Option ℕ
unresolved none q = none
unresolved (some a) q = if is_some (q.jobs a).future then none else some a

unfoldable pub resolvable : String → Bridge → Option ℕ
unfolding find
resolvable id b = unresolved (find id b.queue) b.queue

-- A resolution that is made only if the id is the job's in flight.
unfoldable pub resolve_found : Option ℕ → (ℕ → FetchResult × JobStatus) → Bridge → Bool × Bridge
unfolding resolve
resolve_found none outcome b = (false, b)
resolve_found (some a) outcome b = (true, resolve a (outcome a).0 (outcome a).1 b)

-- What starts a fetch: the job's address, or a result at once, or the exception of `urlsplit`.
pub data Fetch : Type 0 where
  waits : ℕ → Fetch
  refused : FetchResult → Fetch
  invalid_url : Fetch

module _ (out : Outside) where
  open out use {urlsplit, lower, codecs, new_job_id}

  abbrev pub job_of :
      String → JobContext → Option String → Option FetchAction → ℕ → Bridge → FetchJob
  job_of url context identity_url action now b = record {
    id = new_job_id b.created;
    url = url;
    context = context;
    created_at = now;
    timeout_seconds = b.timeout_seconds;
    identity_url = identity_url;
    action = action;
    status = pending;
    future = none;
  }

  -- The new job in the queue.
  unfoldable pub add_job : FetchJob → Bridge → Bridge
  unfolding enqueue
  add_job job b = record b {
    queue = enqueue b.created (set_job b.created job b.queue);
    created = b.created + 1;
  }

  unfoldable pub start_fetch : Option Bool → FetchJob → Bridge → Fetch × Bridge
  unfolding add_job
  start_fetch none job b = (invalid_url, b)
  start_fetch (some false) job b = (refused (failed_result job "invalid_url:host_not_allowed"), b)
  start_fetch (some true) job b = (waits b.created, add_job job b)

  -- `fetch`, to where it waits
  unfoldable pub fetch :
      String → JobContext → Option String → Option FetchAction → ℕ → Bridge → Fetch × Bridge
  unfolding is_allowed_fetch_host add_job start_fetch
  fetch url context identity_url action now b =
      start_fetch (is_allowed_fetch_host urlsplit lower url)
        (job_of url context identity_url action now b) b

  unfoldable pub next_job : Bridge → Option ℕ × Bridge
  unfolding take_next
  next_job b = let taken = take_next b.queue in (taken.0, record b { queue = taken.1 })

  unfoldable pub complete_outcome :
      String → String → String → List PaginationState → FetchJob → FetchResult × JobStatus
  unfolding has_explicit_port repair_mojibake_text
  complete_outcome html final_url title pages job =
      if has_explicit_port urlsplit lower final_url
      then (failed_result job "invalid_url:explicit_port", failed)
      else (
        record {
          identity_url = text_or job.identity_url job.url;
          requested_url = job.url;
          final_url = final_url;
          status_code = none;
          html = repair_mojibake_text codecs html;
          title = repair_mojibake_text codecs title;
          pagination_states = pages;
          block_reason = none;
        },
        completed,
      )

  unfoldable pub complete :
      String → String → String → String → List PaginationState → Bridge → Bool × Bridge
  unfolding resolvable resolve_found complete_outcome
  complete id html final_url title pages b =
      resolve_found (resolvable id b)
        (λ a. complete_outcome html final_url title pages (b.queue.jobs a)) b

  unfoldable pub fail : String → String → Bridge → Bool × Bridge
  unfolding resolvable resolve_found strip
  fail id message b =
      resolve_found (resolvable id b)
        (λ a.
          (failed_result (b.queue.jobs a) (text_or (some (strip message)) "human_failed"), failed))
        b

  unfoldable pub skip : String → Option String → Bridge → Bool × Bridge
  unfolding resolvable resolve_found strip
  skip id reason b =
      resolve_found (resolvable id b)
        (λ a. (
          failed_result (b.queue.jobs a) (text_or (some (strip (or_else reason ""))) "human_skip"),
          skipped,
        ))
        b

  abbrev pub override_found : Option ℕ → String → Bridge → Option ℕ × Bridge
  override_found none new_url b = (none, b)
  override_found (some a) new_url b =
      (some a, record b { queue = set_job a (record (b.queue.jobs a) { url = new_url }) b.queue })

  unfoldable pub override_allowed :
      Option Bool → String → String → Bridge → Option (Option ℕ) × Bridge
  unfolding find
  override_allowed none id new_url b = (none, b)
  override_allowed (some false) id new_url b = (some none, b)
  override_allowed (some true) id new_url b =
      let found = override_found (find id b.queue) new_url b in (some found.0, found.1)

  -- No result where the second test raises the ValueError of `urlsplit`.
  unfoldable pub override : String → String → Bridge → Option (Option ℕ) × Bridge
  unfolding has_explicit_port is_allowed_fetch_host override_allowed
  override id new_url b =
      if has_explicit_port urlsplit lower new_url
      then (some none, b)
      else override_allowed (is_allowed_fetch_host urlsplit lower new_url) id new_url b

unfoldable pub record_frontend_heartbeat : FrontendHeartbeat → Bridge → Bridge
unfolding record_heartbeat
record_frontend_heartbeat beat b = record b { health = record_heartbeat beat b.health }

-- The local variables of `_wait_for_job`; times in milliseconds.
pub record Waiter : Type 0 where
  pub active_elapsed : ℕ
  pub last_tick : ℕ
  pub timeout_counting : Bool

abbrev pub fetch_wait_poll : ℕ
fetch_wait_poll = 50

unfoldable pub start_wait : ℕ → Bridge → Waiter
unfolding is_alive
start_wait now b = record {
  active_elapsed = 0;
  last_tick = now;
  timeout_counting = is_alive now b.health;
}

-- A round of the wait: the fetch returns, or sleeps for some time.
pub data Round : Type 0 where
  returned : FetchResult → Round
  sleeping : Waiter → ℕ → Round

abbrev pub elapsed_at : ℕ → Waiter → ℕ
elapsed_at now w =
    if w.timeout_counting then w.active_elapsed + (now - w.last_tick) else w.active_elapsed

abbrev pub times_out : ℕ → Waiter → Bridge → Bool
times_out now w b = w.timeout_counting && leb (b.timeout_seconds * 1000) (elapsed_at now w)

-- The round of a job whose future is not done.
unfoldable pub tick : ℕ → ℕ → Waiter → Bridge → Bool → Round × Bridge
unfolding is_alive discard
tick a now w b true =
    (returned (failed_result (b.queue.jobs a) "timeout"), record b { queue = discard a b.queue })
tick a now w b false =
    let alive = is_alive now b.health in
    (
      sleeping
          (record { active_elapsed = elapsed_at now w; last_tick = now; timeout_counting = alive })
          (if alive
            then min fetch_wait_poll (b.timeout_seconds * 1000 - elapsed_at now w)
            else fetch_wait_poll),
      b,
    )

unfoldable pub round_on : Option FetchResult → ℕ → ℕ → Waiter → Bridge → Round × Bridge
unfolding tick
round_on (some result) a now w b = (returned result, b)
round_on none a now w b = tick a now w b (times_out now w b)

-- One pass of the loop of `_wait_for_job`, from the test of the future to the sleep. The test after
-- the sleep is the one that the next pass starts with: nothing runs between the two.
unfoldable pub wait_round : ℕ → ℕ → Waiter → Bridge → Round × Bridge
unfolding round_on
wait_round a now w b = round_on (b.queue.jobs a).future a now w b
