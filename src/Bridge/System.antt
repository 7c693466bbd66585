-- ===== src/Bridge/System.antt =====
-- The bridge with the fetches that wait on it: one event of the event loop after the other.
pub mod Invariant
pub mod Counted
pub mod Ordered
pub mod Final
pub mod Answers
use dext.Base.{ℕ, ◌+◌, String, Bool, Option, none, some, List, nat_eq, if◌then◌else◌, ◌≡◌}
use dext.Bridge.Types.{PaginationState, FetchResult, FetchAction, JobStatus, JobContext, FetchJob}
use dext.Bridge.Health.{FrontendHeartbeat, is_alive}
use dext.Bridge.Queue.{discard}
use dext.Bridge.Fetcher.{
  Outside, Bridge, new_bridge, Fetch, waits, refused, invalid_url, fetch, next_job, complete, fail,
  skip, override, record_frontend_heartbeat, Waiter, start_wait, Round, returned, sleeping,
  wait_round,
}

-- A fetch, by the address of its job.
pub data Waiting : Type 0 where
  no_fetch : Waiting
  asleep : Waiter → Waiting
  answered : FetchResult → Waiting

pub record System : Type 0 where
  pub bridge : Bridge
  pub fetches : ℕ → Waiting

-- What the event loop may run next; `wake` is a pass of the wait on a job.
pub data Event : Type 0 where
  fetch_called : String → JobContext → Option String → Option FetchAction → ℕ → Event
  next_called : Event
  complete_called : String → String → String → String → List PaginationState → Event
  fail_called : String → String → Event
  skip_called : String → Option String → Event
  override_called : String → String → Event
  heartbeat : FrontendHeartbeat → Event
  wake : ℕ → ℕ → Event

abbrev pub set_fetch : ℕ → Waiting → (ℕ → Waiting) → ℕ → Waiting
set_fetch a w fetches b = if nat_eq b a then w else fetches b

abbrev pub new_system : ℕ → ℕ → System
new_system timeout stale = record { bridge = new_bridge timeout stale; fetches = λ a. no_fetch }

unfoldable pub started : ℕ → Fetch × Bridge → System → System
unfolding start_wait
started now (waits a, b) s = record {
  bridge = b;
  fetches = set_fetch a (asleep (start_wait now b)) s.fetches;
}
started now (refused result, b) s = record s { bridge = b }
started now (invalid_url, b) s = record s { bridge = b }

abbrev pub rounded : ℕ → Round × Bridge → System → System
rounded a (returned result, b) s = record {
  bridge = b;
  fetches = set_fetch a (answered result) s.fetches;
}
rounded a (sleeping w time, b) s = record { bridge = b; fetches = set_fetch a (asleep w) s.fetches }

unfoldable pub woken : ℕ → ℕ → Waiting → System → System
unfolding wait_round
woken a now (asleep w) s = rounded a (wait_round a now w s.bridge) s
woken a now _ s = s

module _ (out : Outside) where
  unfoldable pub step : Event → System → System
  unfolding fetch next_job complete fail skip override record_frontend_heartbeat woken started
  step (fetch_called url context identity_url action now) s =
      started now (fetch out url context identity_url action now s.bridge) s
  step next_called s = record s { bridge = (next_job out s.bridge).1 }
  step (complete_called id html final_url title pages) s = record s {
    bridge = (complete out id html final_url title pages s.bridge).1;
  }
  step (fail_called id message) s = record s { bridge = (fail out id message s.bridge).1 }
  step (skip_called id reason) s = record s { bridge = (skip out id reason s.bridge).1 }
  step (override_called id url) s = record s { bridge = (override out id url s.bridge).1 }
  step (heartbeat beat) s = record s { bridge = record_frontend_heartbeat beat s.bridge }
  step (wake a now) s = woken a now (s.fetches a) s

  -- The states that some events lead to.
  pub data Reachable (timeout stale : ℕ) : System → Type 0 where
    new : Reachable timeout stale (new_system timeout stale)
    after :
        {s : System} (e : Event) → Reachable timeout stale s → Reachable timeout stale (step e s)
