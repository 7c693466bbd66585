-- ===== src/Bridge/System/Answers.antt =====
-- What the resolution of a job answers, and what the fetch that waits on it returns.
use dext.Base.{ℕ, ◌≡◌, refl, String, true, false, Option, some, List, nat_eq, or_else, arith}
use dext.Base.Text.{strip}
use dext.Bridge.Types.{PaginationState, FetchResult, JobStatus, failed, skipped, FetchJob}
use dext.Bridge.Queue.{finish}
use dext.Bridge.Fetcher.{
  Outside, Bridge, failed_result, text_or, resolve, resolvable, resolve_found, complete_outcome,
  complete, fail, skip, Waiter, returned, round_on, wait_round,
}

same_address : (a : ℕ) → nat_eq a a ≡ true
same_address a = ground arith

future-resolve :
    (a : ℕ) (result : FetchResult) (status : JobStatus) (b : Bridge)
    → ((resolve a result status b).queue.jobs a).future ≡ some result
unfolding resolve finish
future-resolve a result status b = rw (same_address a) refl

wait_round-resolve :
    (a now : ℕ) (w : Waiter) (result : FetchResult) (status : JobStatus) (b : Bridge)
    → (wait_round a now w (resolve a result status b)).0 ≡ returned result
unfolding wait_round round_on
wait_round-resolve a now w result status b = rw (future-resolve a result status b) refl

module _ (out : Outside) (id : String) (b : Bridge) (a : ℕ) (found : resolvable id b ≡ some a) where
  abbrev job : FetchJob
  job = b.queue.jobs a

  -- Once the job in flight is completed, failed or skipped by its id, the call says so, and the
  -- fetch that waits on the job returns exactly the result that the call made, whenever it runs
  -- next, also if its time is over by then.
  pub resolved_job_is_returned :
      (html final_url title message : String) (reason : Option String)
      (pages : List PaginationState) (now : ℕ) (w : Waiter)
      → ((complete out id html final_url title pages b).0 ≡ true)
        × ((wait_round a now w (complete out id html final_url title pages b).1).0
            ≡ returned (complete_outcome out html final_url title pages job).0)
        × ((fail out id message b).0 ≡ true)
        × ((wait_round a now w (fail out id message b).1).0
            ≡ returned (failed_result job (text_or (some (strip message)) "human_failed")))
        × ((skip out id reason b).0 ≡ true)
        × ((wait_round a now w (skip out id reason b).1).0
            ≡ returned
                (failed_result job (text_or (some (strip (or_else reason ""))) "human_skip")))
  unfolding complete fail skip resolve_found
  resolved_job_is_returned html final_url title message reason pages now w = (
    rw found refl,
    rw found (wait_round-resolve a now w _ _ b),
    rw found refl,
    rw found (wait_round-resolve a now w _ failed b),
    rw found refl,
    rw found (wait_round-resolve a now w _ skipped b),
  )

-- The three calls with some id and arguments answer false and leave the bridge as it is.
abbrev pub Refused :
    Outside
    → String
    → String
    → String
    → String
    → String
    → Option String
    → List PaginationState
    → Bridge
    → Type 0
Refused out id html final_url title message reason pages b =
    (complete out id html final_url title pages b ≡ (false, b))
    × (fail out id message b ≡ (false, b))
    × (skip out id reason b ≡ (false, b))
