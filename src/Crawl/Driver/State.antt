-- ===== src/Crawl/Driver/State.antt =====
-- The state of the engine: its throttle, its summary and the tasks that it queues.
use dext.Base.{
  ℕ, ◌+◌, ◌-◌, ◌*◌, min, String, Option, none, some, List, [], nat_eq, or_else, append, Result,
  if◌then◌else◌,
}
use Prim.Native.Nat.{◌^◌}
use dext.Base.Dicts.{get}
use dext.Repositories.Snapshots.{Json, string, texts}
use dext.Bridge.Types.{FetchAction, FetchResult, PaginationState}
use dext.Bridge.Fetcher.{text_or}
use dext.Crawl.Types.{PageSnapshot, ClaimedNode, Metadata, Database, ExtractionFailure}
use dext.Crawl.Store.{DatabaseError}
use dext.Crawl.Retry.{Texts}

-- `RateThrottle`; times in whole milliseconds.
pub record RateThrottle : Type 0 where
  pub base_ms : ℕ
  pub max_ms : ℕ
  pub wait_until : ℕ
  pub attempt : ℕ

unfoldable pub on_rate_limited : ℕ → RateThrottle → RateThrottle
on_rate_limited now t =
    let attempt = min (t.attempt + 1) 8 in
    record t { attempt = attempt; wait_until = now + min (t.base_ms * 2 ^ (attempt - 1)) t.max_ms }

unfoldable pub on_success : RateThrottle → RateThrottle
on_success t = if nat_eq t.attempt 0 then t else record t { attempt = 0; wait_until = 0 }

-- What `maybe_wait` sleeps.
unfoldable pub wait_time : ℕ → RateThrottle → ℕ
wait_time now t = t.wait_until - now

pub record CrawlSummary : Type 0 where
  pub fetched : ℕ
  pub fetch_failed : ℕ
  pub dispatched : ℕ
  pub done_nodes : ℕ
  pub failed_nodes : ℕ
  pub skipped_nodes : ℕ
  pub retry_nodes : ℕ
  pub pending_nodes : ℕ
  pub in_progress_nodes : ℕ
  pub professors : ℕ
  pub status : String

pub record ExtractTask : Type 0 where
  pub node_id : ℕ
  pub node_key : String
  pub snapshot : PageSnapshot
  pub org_unit_id : Option ℕ
  pub org_unit_name : String
  pub attempt_count : ℕ

pub record DecideTask : Type 0 where
  pub node : ClaimedNode
  pub snapshot : PageSnapshot
  pub raw_html : String
  pub reported_pagination_states : List PaginationState

-- `CrawlEngine`, with the tables that its storage writes.
pub record Engine : Type 0 where
  pub db : Database
  pub run_id : ℕ
  pub org_unit_ids : List ℕ
  pub attempted : List String
  pub throttle : RateThrottle
  pub summary : CrawlSummary
  pub decision_queue : List DecideTask
  pub extract_queue : List ExtractTask
  pub decisions_in_flight : ℕ
  pub extractions_in_flight : ℕ

-- What the driver lets through: an error of the tables, or `ValueError` of a malformed address.
pub data DriverError : Type 0 where
  database_error : DatabaseError → DriverError
  value_error : String → DriverError

-- What the driver takes from elsewhere: the bridge's answer to a fetch, the parser of pages and the
-- reader of a node's fetch action, and texts. The fetch and the parser split the addresses that they meet
-- and raise `ValueError` for a malformed one.
pub record Outside : Type 0 where
  pub fetch_page : ClaimedNode → String → Option FetchAction → Result String FetchResult
  pub build_snapshot : String → String → String → String → Result String PageSnapshot
  pub fetch_action_from_metadata : Option Metadata → Option FetchAction
  pub texts_used : Texts

abbrev text_json : Option Json → Option String
text_json (some (string s)) = some s
text_json _ = none

-- `metadata.get("identity_url") or node.url`; the engine writes texts there.
unfoldable pub identity_url_for : ClaimedNode → String
unfolding get
identity_url_for node =
    text_or (text_json (get texts "identity_url" (or_else node.metadata []))) node.url

abbrev pub count_fetch_failed : Engine → Engine
count_fetch_failed e = record e {
  summary = record e.summary { fetch_failed = e.summary.fetch_failed + 1 };
}

abbrev pub failure_of : String → Option String → String → ExtractionFailure
failure_of reason resolver source_url = record {
  failure_type = some (append "fetch:" reason);
  resolver = resolver;
  raw_arguments_preview = none;
  professor_name_hint = none;
  source_url = some source_url;
}
