-- ===== src/Crawl/Driver.antt =====
-- engine/driver.py: the loop that claims nodes, fetches their pages and hands them to the workers.
mod State
mod Process
pub mod Covered
pub mod Kept
pub mod Loop
pub mod Pauses
pub mod Summary
pub mod Once
pub mod Cached
unfoldable pub use State.{on_rate_limited, on_success, wait_time, identity_url_for}
pub use State.{
  RateThrottle, CrawlSummary, ExtractTask, DecideTask, Engine, Outside, count_fetch_failed,
  failure_of, DriverError, database_error, value_error,
}
unfoldable pub use Process.{
  fail_fetch, skip_unavailable, dispatch_snapshot, process_page, process_fresh_result,
  process_cached_result, handle_claimed_node,
}
pub use Process.{
  extract_task, decide_task, mark, failed_cache, page_cache, count_fetched, handle_with, Outcome,
  or_value_error,
}
use dext.Base.{
  ℕ, zero, suc, ◌+◌, ◌-◌, ◌*◌, min, max, String, Bool, true, false, not, ◌&&◌, ◌||◌, Option, none,
  some, List, [], ◌∷◌, ◌++◌, length, keep_if, is_some, is_empty, nat_eq, nat_elem, or_else, append,
  Result, ok, raise, ◌>>=◌, if◌then◌else◌, ◌==◌,
}
use Prim.Native.Nat.{◌^◌}
use dext.Base.Dicts.{get}
use dext.Repositories.Snapshots.{Json, string, texts}
use dext.Bridge.Types.{FetchAction, FetchResult, PaginationState, JobContext}
use dext.Bridge.Fetcher.{text_or}
use dext.Crawl.Types.{
  NodeType, org_listing_url, org_unit, detail_url, type_value, NodeStatus, done, failed, skipped,
  pending, in_progress, retry, GraphNode, PageCache, PageSnapshot, ClaimedNode, Metadata, Database,
  ExtractionFailure,
}
use dext.Crawl.Store.{
  DatabaseError, same_type, same_status, get_page_cache, save_page_cache, record_failure, mark_node,
}
use dext.Crawl.Claim.{ClaimQuery, claim_next}
use dext.Crawl.Retry.{
  Texts, RetryDecision, classify_fetch_failure, assess_terminal_unavailable_page,
}

-- A pass of `_driver_loop`: it handles a node, or raises, or finds none and returns, or sleeps. The
-- engine is the one after it.
pub data Pass : Type 0 where
  handled : ClaimedNode → Engine → Pass
  raised : ClaimedNode → DriverError → Engine → Pass
  finished : Engine → Pass
  sleeps : Engine → Pass

abbrev pub is_idle : Engine → Bool
is_idle e =
    is_empty e.decision_queue
    && (is_empty e.extract_queue
        && (nat_eq e.decisions_in_flight 0 && nat_eq e.extractions_in_flight 0))

abbrev pub pass_of : ClaimedNode → Outcome → Pass
pass_of node (ok e) = handled node e
pass_of node (raise (error, e)) = raised node error e

-- After a node that was handled comes the next pass.
abbrev pub run_on : (Engine → Option Pass) → Pass → Option Pass
run_on loop (handled node e) = loop e
run_on loop (raised node error e) = some (raised node error e)
run_on loop (finished e) = some (finished e)
run_on loop (sleeps e) = some (sleeps e)

abbrev pub query_of : Engine → ClaimQuery
query_of e = record { exclude_node_keys = e.attempted; types = []; org_unit_ids = e.org_unit_ids }

module _ (out : Outside) where
  abbrev pub run_pass : Option ClaimedNode × Database → ℕ → Engine → Pass
  run_pass (none, db) now e =
      if is_idle e then finished (record e { db = db }) else sleeps (record e { db = db })
  run_pass (some node, db) now e = pass_of node (
      handle_claimed_node out node now
        (record e { db = db; attempted = node.node_key ∷ e.attempted }))

  unfoldable pub driver_pass : ℕ → Engine → Pass
  unfolding claim_next handle_claimed_node
  driver_pass now e = run_pass (claim_next e.run_id (query_of e) now e.db) now e

  -- The passes of `_driver_loop` up to the first that handles no node, at instants that the clock
  -- gives, on fuel. After a sleep the loop begins anew with what the workers have left.
  unfoldable pub run_to_pause : ℕ → (ℕ → ℕ) → Engine → Option Pass
  unfolding driver_pass
  run_to_pause zero clock e = none
  run_to_pause (suc fuel) clock e = run_on (run_to_pause fuel clock) (driver_pass (clock fuel) e)

abbrev pub has_status : NodeStatus → GraphNode → Bool
has_status status n = same_status n.status status

abbrev of_units : Option ℕ → List ℕ → Bool
of_units none ids = false
of_units (some id) ids = nat_elem id ids

abbrev pub in_units : List ℕ → GraphNode → Bool
in_units ids n = is_empty ids || of_units n.org_unit_id ids

-- The counts of the final summary, from the nodes of the chosen units and the number of professors.
unfoldable pub build_summary : ℕ → Engine → CrawlSummary
build_summary professors e =
    let nodes = keep_if (in_units e.org_unit_ids) e.db.nodes in
    let of_status = λ (status : NodeStatus). length (keep_if (has_status status) nodes) in
    let blocking = of_status failed + of_status retry + of_status pending + of_status in_progress in
    record e.summary {
      done_nodes = of_status done;
      failed_nodes = of_status failed;
      skipped_nodes = of_status skipped;
      retry_nodes = of_status retry;
      pending_nodes = of_status pending;
      in_progress_nodes = of_status in_progress;
      professors = professors;
      status = if nat_eq blocking 0 then "completed" else "failed";
    }
