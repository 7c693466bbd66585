-- ===== src/Crawl/Driver/Process.antt =====
-- What the driver does with a fetched or cached page.
use dext.Base.{
  false, ℕ, ◌+◌, String, Option, none, some, List, [], ◌∷◌, ◌++◌, or_else, append, Result, ok,
  raise, if◌then◌else◌, ◌==◌,
}
use dext.Bridge.Types.{FetchAction, FetchResult, PaginationState}
use dext.Bridge.Fetcher.{text_or}
use dext.Crawl.Types.{
  detail_url, NodeStatus, skipped, PageCache, PageSnapshot, ClaimedNode, Database,
}
use dext.Crawl.Store.{
  DatabaseError, same_type, get_page_cache, save_page_cache, record_failure, mark_node,
}
use dext.Crawl.Retry.{Texts, classify_fetch_failure, assess_terminal_unavailable_page}
use dext.Crawl.Driver.State.{
  ExtractTask, DecideTask, on_rate_limited, on_success, identity_url_for, Engine, Outside,
  count_fetch_failed, failure_of, DriverError, database_error, value_error,
}

-- The engine afterwards, also where something is raised: what was committed stays.
abbrev pub Outcome : Type 0
Outcome = Result (DriverError × Engine) Engine

abbrev pub or_value_error : {A : Type 0} → Result String A → Engine → (A → Outcome) → Outcome
or_value_error (ok a) e go_on = go_on a
or_value_error (raise text) e go_on = raise (value_error text, e)

abbrev written : Result DatabaseError Database → Engine → Outcome
written (ok db) e = ok (record e { db = db })
written (raise error) e = raise (database_error error, e)

-- `mark_node`, which raises only for a node that is missing.
abbrev pub mark : ℕ → NodeStatus → Option String → Option String → ℕ → Engine → Outcome
mark id status last_error content_hash now e =
    written (mark_node id status last_error content_hash none false now e.db) e

-- A failed fetch: it is noted, and the node gets the status that its reason is classified as.
unfoldable pub fail_fetch : Texts → String → Option ℕ → String → ℕ → ℕ → Engine → Outcome
unfolding classify_fetch_failure record_failure mark_node on_rate_limited
fail_fetch used reason status_code source_url node_id now e =
    let decision = classify_fetch_failure used (some reason) status_code in
    let noted = record e {
      db = record_failure (failure_of reason decision.resolver source_url) e.db;
    } in
    let slowed =
      if or_else decision.resolver "" == "rate_limited"
      then record noted { throttle = on_rate_limited now noted.throttle }
      else noted in
    mark node_id decision.status decision.last_error none now slowed

abbrev pub failed_cache : FetchResult → PageCache
failed_cache r = record {
  url = r.identity_url;
  final_url = some r.final_url;
  status_code = r.status_code;
  text_snapshot = none;
  links = none;
  link_signals = none;
  block_reason = r.block_reason;
  html_snapshot = some r.html;
  page_hash = none;
  title = some r.title;
  fetch_action = none;
  snapshot_encoding = "utf-8";
}

abbrev terminal_reason : Option String → Option String
terminal_reason none = none
terminal_reason (some terminal) = some (append "terminal_unavailable:" terminal)

abbrev pub page_cache : FetchResult → PageSnapshot → Option String → Option FetchAction → PageCache
page_cache r s terminal action = record {
  url = r.identity_url;
  final_url = some r.final_url;
  status_code = r.status_code;
  text_snapshot = some s.text_snapshot;
  links = some s.links;
  link_signals = some s.link_signals;
  block_reason = terminal_reason terminal;
  html_snapshot = some r.html;
  page_hash = some s.content_hash;
  title = some s.title;
  fetch_action = action;
  snapshot_encoding = "utf-8";
}

-- A page that will never be usable: the node is skipped.
unfoldable pub skip_unavailable : String → String → PageSnapshot → ℕ → ℕ → Engine → Outcome
unfolding record_failure mark_node
skip_unavailable terminal source_url snapshot node_id now e =
    let reason = append "terminal_unavailable:" terminal in
    let noted = record e {
      db = record_failure (failure_of reason (some "dropped") source_url) e.db;
    } in
    mark node_id skipped (some reason) (some snapshot.content_hash) now noted

abbrev count_dispatched : Engine → Engine
count_dispatched e = record e {
  summary = record e.summary { dispatched = e.summary.dispatched + 1 };
}

abbrev pub extract_task : ClaimedNode → PageSnapshot → ExtractTask
extract_task node snapshot = record {
  node_id = node.id;
  node_key = node.node_key;
  snapshot = snapshot;
  org_unit_id = node.org_unit_id;
  org_unit_name = or_else node.org_unit_name "";
  attempt_count = node.attempt_count;
}

abbrev pub decide_task : ClaimedNode → PageSnapshot → String → List PaginationState → DecideTask
decide_task node snapshot raw_html states = record {
  node = node;
  snapshot = snapshot;
  raw_html = raw_html;
  reported_pagination_states = states;
}

unfoldable pub dispatch_snapshot :
    ClaimedNode → PageSnapshot → String → List PaginationState → Engine → Engine
dispatch_snapshot node snapshot raw_html states e = count_dispatched (
    if same_type node.node_type detail_url
    then record e { extract_queue = e.extract_queue ++ extract_task node snapshot ∷ [] }
    else record e {
      decision_queue = e.decision_queue ++ decide_task node snapshot raw_html states ∷ [];
    })

abbrev pub count_fetched : Engine → Engine
count_fetched e = record e { summary = record e.summary { fetched = e.summary.fetched + 1 } }

module _ (out : Outside) where
  open out use {build_snapshot, fetch_action_from_metadata, texts_used}

  -- After the page is in the cache.
  abbrev use_fresh : Option String → ClaimedNode → FetchResult → PageSnapshot → ℕ → Engine → Outcome
  use_fresh (some terminal) node r snapshot now e =
      skip_unavailable terminal r.identity_url snapshot node.id now (count_fetch_failed e)
  use_fresh none node r snapshot now e =
      ok (dispatch_snapshot node snapshot r.html r.pagination_states e)

  abbrev relax : Option String → Engine → Engine
  relax none e = record e { throttle = on_success e.throttle }
  relax (some terminal) e = e

  -- `process_fresh_result` of a result without block reason
  unfoldable pub process_page :
      ClaimedNode → Option FetchAction → FetchResult → ℕ → Engine → Outcome
  unfolding assess_terminal_unavailable_page on_success save_page_cache skip_unavailable
      dispatch_snapshot
  process_page node action r now e =
      or_value_error (build_snapshot r.html r.identity_url r.final_url r.title) e (λ snapshot.
        let terminal = assess_terminal_unavailable_page texts_used snapshot r.status_code in
        let relaxed = relax terminal e in
        use_fresh terminal node r snapshot now (record relaxed {
          db = save_page_cache (page_cache r snapshot terminal action) relaxed.db;
        }))

  -- `if result.block_reason`
  unfoldable pub process_fresh_result :
      ClaimedNode → Option FetchAction → FetchResult → ℕ → Engine → Outcome
  unfolding process_page fail_fetch save_page_cache
  process_fresh_result node action r now e =
      if or_else r.block_reason "" == ""
      then process_page node action r now e
      else (let counted = count_fetch_failed e in
          fail_fetch texts_used (or_else r.block_reason "") r.status_code r.identity_url node.id now
            (record counted { db = save_page_cache (failed_cache r) counted.db }))

  abbrev use_cached : Option String → ClaimedNode → PageCache → PageSnapshot → ℕ → Engine → Outcome
  use_cached (some terminal) node cache snapshot now e =
      skip_unavailable terminal cache.url snapshot node.id now (count_fetch_failed e)
  use_cached none node cache snapshot now e =
      ok (dispatch_snapshot node snapshot (or_else cache.html_snapshot "") [] e)

  unfoldable pub process_cached_result : ClaimedNode → PageCache → ℕ → Engine → Outcome
  unfolding assess_terminal_unavailable_page skip_unavailable dispatch_snapshot fail_fetch
  process_cached_result node cache now e =
      if or_else cache.html_snapshot "" == ""
      then fail_fetch texts_used (text_or cache.block_reason "cached_no_html") cache.status_code
          cache.url node.id now (count_fetch_failed e)
      else or_value_error
          (build_snapshot (or_else cache.html_snapshot "") cache.url
            (text_or cache.final_url cache.url) (or_else cache.title ""))
          e
          (λ snapshot.
            use_cached (assess_terminal_unavailable_page texts_used snapshot cache.status_code) node
              cache snapshot now e)

  abbrev pub handle_with : Option PageCache → ClaimedNode → ℕ → Engine → Outcome
  handle_with (some cache) node now e = process_cached_result node cache now e
  handle_with none node now e =
      let action = fetch_action_from_metadata node.metadata in
      or_value_error (out.fetch_page node (identity_url_for node) action) e
        (λ r. process_fresh_result node action r now (count_fetched e))

  unfoldable pub handle_claimed_node : ClaimedNode → ℕ → Engine → Outcome
  unfolding get_page_cache identity_url_for process_fresh_result process_cached_result
  handle_claimed_node node now e =
      handle_with (get_page_cache (identity_url_for node) e.db) node now e
