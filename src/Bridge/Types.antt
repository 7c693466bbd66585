-- ===== src/Bridge/Types.antt =====
-- types.py, queue.py: jobs, their results, and the counts of a queue.
use dext.Base.{ℕ, String, Bool, Option, none, List, []}

pub record PaginationState : Type 0 where
  pub kind : String
  pub state_id : String
  pub label : String
  pub page_index : ℕ
  pub form_name : String
  pub form_fields : List (String × String)
  pub submit : Bool
  pub synthetic_url : String
  pub url : String
  pub total_pages : Option ℕ

pub record FetchResult : Type 0 where
  pub identity_url : String
  pub requested_url : String
  pub final_url : String
  pub status_code : Option ℕ
  pub html : String
  pub title : String
  pub pagination_states : List PaginationState
  pub block_reason : Option String

pub record FetchAction : Type 0 where
  pub kind : String
  pub form_name : Option String
  pub form_fields : Option (List (String × String))
  pub submit : Option Bool
  pub synthetic_url : Option String
  pub label : Option String
  pub page_index : Option ℕ
  pub state_id : Option String

pub data JobStatus : Type 0 where
  pending assigned completed failed skipped : JobStatus

pub record JobContext : Type 0 where
  pub university_name : String
  pub agent_state : String
  pub intent : String
  pub parent_url : String
  pub depth : ℕ
  pub org_unit_name : String
  pub hints : List String

pub record QueueStats : Type 0 where
  pub pending_jobs : ℕ
  pub assigned_jobs : ℕ
  pub completed_jobs : ℕ
  pub failed_jobs : ℕ
  pub skipped_jobs : ℕ

-- A job; its future is done where it has a result.
pub record FetchJob : Type 0 where
  pub id : String
  pub url : String
  pub context : JobContext
  pub created_at : ℕ
  pub timeout_seconds : ℕ
  pub identity_url : Option String
  pub action : Option FetchAction
  pub status : JobStatus
  pub future : Option FetchResult

-- What stands at an address that no job has.
abbrev pub no_context : JobContext
no_context = record {
  university_name = "";
  agent_state = "";
  intent = "";
  parent_url = "";
  depth = 0;
  org_unit_name = "";
  hints = [];
}

abbrev pub no_job : FetchJob
no_job = record {
  id = "";
  url = "";
  context = no_context;
  created_at = 0;
  timeout_seconds = 0;
  identity_url = none;
  action = none;
  status = JobStatus.pending;
  future = none;
}
