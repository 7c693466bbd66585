-- ===== src/Bridge/Queue.antt =====
-- queue.py: the queue of fetch jobs, with one job in flight.
use dext.Base.{
  ℕ, ◌+◌, String, Bool, false, Option, none, some, List, [], ◌∷◌, ◌++◌, length, nat_eq,
  if◌then◌else◌, ◌==◌,
}
use dext.Bridge.Types.{
  JobStatus, pending, assigned, completed, failed, skipped, QueueStats, FetchJob, no_job,
}

-- `FetchQueue`. Jobs are objects that the queue, the bridge and the waiting fetches share: they are
-- referred to by address, and stand in `jobs`.
pub record FetchQueue : Type 0 where
  pub jobs : ℕ → FetchJob
  pub pending_jobs : List ℕ
  pub assigned_job : Option ℕ
  pub completed_count : ℕ
  pub failed_count : ℕ
  pub skipped_count : ℕ

abbrev pub new_queue : FetchQueue
new_queue = record {
  jobs = λ a. no_job;
  pending_jobs = [];
  assigned_job = none;
  completed_count = 0;
  failed_count = 0;
  skipped_count = 0;
}

-- An assignment to a job's fields.
abbrev pub set_job : ℕ → FetchJob → FetchQueue → FetchQueue
set_job a job q = record q { jobs = λ b. if nat_eq b a then job else q.jobs b }

abbrev pub set_status : ℕ → JobStatus → FetchQueue → FetchQueue
set_status a status q = set_job a (record (q.jobs a) { status = status }) q

unfoldable pub enqueue : ℕ → FetchQueue → FetchQueue
enqueue a q = set_status a pending (record q { pending_jobs = q.pending_jobs ++ a ∷ [] })

abbrev pub take_from : Option ℕ → List ℕ → FetchQueue → Option ℕ × FetchQueue
take_from (some b) waiting q = (none, q)
take_from none [] q = (none, q)
take_from none (a ∷ rest) q =
    (some a, set_status a assigned (record q { pending_jobs = rest; assigned_job = some a }))

unfoldable pub take_next : FetchQueue → Option ℕ × FetchQueue
take_next q = take_from q.assigned_job q.pending_jobs q

abbrev pub find_in : Option ℕ → String → (ℕ → FetchJob) → Option ℕ
find_in none id jobs = none
find_in (some a) id jobs = if (jobs a).id == id then some a else none

unfoldable pub find : String → FetchQueue → Option ℕ
find id q = find_in q.assigned_job id q.jobs

-- `self._assigned is job`
abbrev pub is_assigned : ℕ → Option ℕ → Bool
is_assigned a none = false
is_assigned a (some b) = nat_eq a b

-- The slot that is left by the job, if it was in it.
abbrev pub clear_slot : ℕ → Option ℕ → Option ℕ
clear_slot a slot = if is_assigned a slot then none else slot

-- What a terminal state adds to the counter of a state.
abbrev pub counts : JobStatus → JobStatus → ℕ
counts completed completed = 1
counts failed failed = 1
counts skipped skipped = 1
counts _ _ = 0

unfoldable pub finish : ℕ → JobStatus → FetchQueue → FetchQueue
finish a status q = set_status a status (record q {
  assigned_job = clear_slot a q.assigned_job;
  completed_count = q.completed_count + counts completed status;
  failed_count = q.failed_count + counts failed status;
  skipped_count = q.skipped_count + counts skipped status;
})

-- `self._pending.remove(job)`, where a job that is not in it is passed over. Jobs have distinct ids,
-- from uuid4, so `==` on them is identity.
unfoldable pub remove_job : ℕ → List ℕ → List ℕ
remove_job a [] = []
remove_job a (b ∷ rest) = let later = remove_job a rest in if nat_eq a b then rest else b ∷ later

unfoldable pub discard : ℕ → FetchQueue → FetchQueue
unfolding remove_job
discard a q = set_status a failed (record q {
  assigned_job = clear_slot a q.assigned_job;
  pending_jobs =
      if is_assigned a q.assigned_job then q.pending_jobs else remove_job a q.pending_jobs;
  failed_count = q.failed_count + 1;
})

abbrev pub in_slot : Option ℕ → ℕ
in_slot none = 0
in_slot (some a) = 1

unfoldable pub stats : FetchQueue → QueueStats
stats q = record {
  pending_jobs = length q.pending_jobs;
  assigned_jobs = in_slot q.assigned_job;
  completed_jobs = q.completed_count;
  failed_jobs = q.failed_count;
  skipped_jobs = q.skipped_count;
}
