-- ===== src/Crawl/Store.antt =====
-- storage/writer.py: the commands of the single writer on the tables.
mod Rows
mod Runs
pub mod Reset
pub mod Laws
pub mod Integrity
pub mod Recorded
unfoldable pub use Runs.{start_run, finish_run, update_university_status}
pub use Runs.{new_run, update_first}
unfoldable pub use Rows.{set_defaults, rediscovered}
pub use Rows.{
  same_type, same_status, is_terminal, fill, merge_metadata, DatabaseError, RowIds, new_unit,
  fill_text, renamed, has_url, takes_name, new_node, has_key, node_ids, unit_exists, written_unit,
  is_edge, node_exists, new_edge, new_attempt, integrity_error, no_result_found,
  multiple_results_found,
}
use text.Mathlib.Text.{starts_with}
use Prim.Native.String.{len, slice}
use dext.Base.{
  ℕ, ◌+◌, max, min, String, Bool, true, false, not, ◌&&◌, ◌||◌, Option, none, some, List, [], ◌∷◌,
  ◌++◌, map, length, nat_eq, elem, is_some, is_empty, nat_elem, or_else, any, keep_if, append,
  Result, ok, raise, ◌>>=◌, if◌then◌else◌, ◌==◌,
}
use dext.Base.Dicts.{get}
use dext.Repositories.Snapshots.{Json, texts}
use dext.Crawl.Tables.{select_row, update_rows}
use dext.Crawl.Types.{
  NodeType, faculty_list_url, faculty_followup_url, pagination_url, detail_url, type_value,
  EdgeType, edge_value, NodeStatus, pending, in_progress, retry, done, failed, skipped,
  status_value, Metadata, GraphNode, GraphEdge, OrgUnit, PageCache, ExtractionAttempt,
  ExtractionFailure, OrgUnitSpec, NodeSpec, Database,
}

module _ (new_id : RowIds) where
  abbrev pub upsert_unit_at :
      Option OrgUnit → OrgUnitSpec → Database → Result DatabaseError (ℕ × Database)
  upsert_unit_at (some existing) spec db = ok (
    existing.id,
    record db { org_units = update_rows (has_url spec.url) (renamed spec) db.org_units },
  )
  upsert_unit_at none spec db =
      let id = new_id (map (λ (u : OrgUnit). u.id) db.org_units) in
      ok (id, record db { org_units = db.org_units ++ new_unit id spec ∷ [] })

  -- Names and addresses are unique columns. The row is looked up by its address alone.
  unfoldable pub upsert_org_unit : OrgUnitSpec → Database → Result DatabaseError (ℕ × Database)
  unfolding select_row update_rows
  upsert_org_unit spec db =
      if any (takes_name spec) db.org_units
      then raise (integrity_error "org_units.name")
      else upsert_unit_at (select_row (has_url spec.url) db.org_units) spec db

  unfoldable pub upsert_node_at :
      Option GraphNode → NodeSpec → Database → Result DatabaseError (ℕ × Database)
  unfolding update_rows rediscovered
  upsert_node_at (some existing) spec db =
      if unit_exists (written_unit existing spec) db
      then ok (
        existing.id,
        record db { nodes = update_rows (has_key spec.node_key) (rediscovered spec) db.nodes },
      )
      else raise (integrity_error "crawl_graph_nodes.org_unit_id")
  upsert_node_at none spec db =
      let id = new_id (node_ids db) in
      if unit_exists spec.org_unit_id db
      then ok (id, record db { nodes = db.nodes ++ new_node id spec ∷ [] })
      else raise (integrity_error "crawl_graph_nodes.org_unit_id")

  unfoldable pub upsert_node : NodeSpec → Database → Result DatabaseError (ℕ × Database)
  unfolding select_row upsert_node_at
  upsert_node spec db = upsert_node_at (select_row (has_key spec.node_key) db.nodes) spec db

  abbrev pub add_edge_at :
      Option GraphEdge
      → ℕ
      → ℕ
      → EdgeType
      → Option ℕ
      → Option Metadata
      → Database
      → Result DatabaseError (ℕ × Database)
  add_edge_at (some existing) from_id to_id t confidence metadata db = ok (existing.id, db)
  add_edge_at none from_id to_id t confidence metadata db =
      let id = new_id (map (λ (e : GraphEdge). e.id) db.edges) in
      if node_exists from_id db && node_exists to_id db
      then ok (
        id,
        record db { edges = db.edges ++ new_edge id from_id to_id t confidence metadata ∷ [] },
      )
      else raise (integrity_error "crawl_graph_edges.node_id")

  unfoldable pub add_edge :
      ℕ → ℕ → EdgeType → Option ℕ → Option Metadata → Database → Result DatabaseError (ℕ × Database)
  unfolding select_row
  add_edge from_id to_id t confidence metadata db =
      add_edge_at (select_row (is_edge from_id to_id t) db.edges) from_id to_id t confidence
        metadata db

  unfoldable pub record_attempt :
      ℕ → ℕ → String → Option String → Database → Result DatabaseError (ℕ × Database)
  record_attempt node_id attempt status input_cache_url db =
      let id = new_id (map (λ (a : ExtractionAttempt). a.id) db.attempts) in
      if node_exists node_id db
      then ok (
        id,
        record db {
          attempts = db.attempts ++ new_attempt id node_id attempt status input_cache_url ∷ [];
        },
      )
      else raise (integrity_error "crawl_extraction_attempts.graph_node_id")

abbrev pub has_id : ℕ → GraphNode → Bool
has_id id n = nat_eq n.id id

-- What `mark_node` sets, at an instant.
unfoldable pub marked :
    NodeStatus → Option String → Option String → Option ℕ → Bool → ℕ → GraphNode → GraphNode
marked status last_error content_hash next_retry_at attempt_inc now n = record n {
  status = status;
  last_error = fill last_error n.last_error;
  content_hash = fill content_hash n.content_hash;
  next_retry_at = fill next_retry_at n.next_retry_at;
  attempt_count = if attempt_inc then n.attempt_count + 1 else n.attempt_count;
  completed_at = if is_terminal status then some now else n.completed_at;
}

-- `scalar_one` raises where there is no such node.
unfoldable pub mark_node :
    ℕ
    → NodeStatus
    → Option String
    → Option String
    → Option ℕ
    → Bool
    → ℕ
    → Database
    → Result DatabaseError Database
unfolding select_row update_rows marked
mark_node id status last_error content_hash next_retry_at attempt_inc now db =
    if is_some (select_row (has_id id) db.nodes)
    then ok (record db {
      nodes =
          update_rows (has_id id)
            (marked status last_error content_hash next_retry_at attempt_inc now) db.nodes;
    })
    else raise no_result_found

-- `WHERE org_unit_id = :id`, which no row without a unit fulfils
abbrev pub of_unit : ℕ → Option ℕ → Bool
of_unit id none = false
of_unit id (some other) = nat_eq other id

abbrev pub one_of_types : List NodeType → NodeType → Bool
one_of_types types t = any (same_type t) types

unfoldable pub count_subtree_facet_nodes : ℕ → Database → ℕ
count_subtree_facet_nodes org_unit_id db = length (
    keep_if
      (λ n.
        of_unit org_unit_id n.org_unit_id
        && one_of_types (faculty_list_url ∷ faculty_followup_url ∷ pagination_url ∷ []) n.node_type)
      db.nodes)

-- `url[len(prefix):]`
abbrev rest_of : String → String → String
rest_of url prefix = slice url (len prefix) (len url)

unfoldable pub scheme_variants : String → List String
scheme_variants url =
    if starts_with url "https://"
    then url ∷ append "http://" (rest_of url "https://") ∷ []
    else if starts_with url "http://"
    then url ∷ append "https://" (rest_of url "http://") ∷ []
    else url ∷ []

abbrev lower_of : ℕ → Option ℕ → ℕ
lower_of id none = id
lower_of id (some other) = min id other

-- The row with the lowest id of those that a condition selects.
unfoldable pub lowest_id : (GraphNode → Bool) → List GraphNode → Option ℕ
lowest_id p [] = none
lowest_id p (n ∷ rest) =
    let later = lowest_id p rest in if p n then some (lower_of n.id later) else later

abbrev is_done_detail : String → ℕ → GraphNode → Bool
is_done_detail url exclude n =
    same_type n.node_type detail_url
    && (elem n.url (scheme_variants url)
        && (same_status n.status done && not (nat_eq n.id exclude)))

unfoldable pub find_done_detail_for_url : String → ℕ → Database → Option ℕ
unfolding scheme_variants lowest_id
find_done_detail_for_url url exclude_node_id db =
    lowest_id (is_done_detail url exclude_node_id) db.nodes

abbrev pub is_cache_of : String → PageCache → Bool
is_cache_of url c = c.url == url

unfoldable pub get_page_cache : String → Database → Option PageCache
unfolding select_row
get_page_cache url db = select_row (is_cache_of url) db.caches

-- The columns that are written into the row at the address of the payload.
abbrev pub overwritten : PageCache → PageCache → PageCache
overwritten payload c = record c {
  final_url = payload.final_url;
  status_code = payload.status_code;
  text_snapshot = payload.text_snapshot;
  links = payload.links;
  link_signals = payload.link_signals;
  block_reason = payload.block_reason;
  html_snapshot = payload.html_snapshot;
  page_hash = payload.page_hash;
  title = payload.title;
  fetch_action = payload.fetch_action;
  snapshot_encoding = payload.snapshot_encoding;
}

-- Every column is written, of the row at that address or a new one.
unfoldable pub save_page_cache : PageCache → Database → Database
unfolding select_row update_rows
save_page_cache payload db = record db {
  caches =
      if is_some (select_row (is_cache_of payload.url) db.caches)
      then update_rows (is_cache_of payload.url) (overwritten payload) db.caches
      else db.caches ++ payload ∷ [];
}

unfoldable pub finish_attempt :
    ℕ → String → Option String → Option String → ℕ → Database → Result DatabaseError Database
unfolding select_row update_rows
finish_attempt id status raw_output_preview failure_type now db =
    let chosen : ExtractionAttempt → Bool = λ a. nat_eq a.id id in
    if is_some (select_row chosen db.attempts)
    then ok (record db {
      attempts =
          update_rows chosen
            (λ a. record a {
              status = status;
              raw_output_preview = fill raw_output_preview a.raw_output_preview;
              failure_type = fill failure_type a.failure_type;
              finished_at = some now;
            })
            db.attempts;
    })
    else raise no_result_found

unfoldable pub record_failure : ExtractionFailure → Database → Database
record_failure failure db = record db { failures = db.failures ++ failure ∷ [] }

unfoldable pub update_org_unit_status : ℕ → String → Database → Database
unfolding update_rows
update_org_unit_status id status db = record db {
  org_units = update_rows (λ u. nat_eq u.id id) (λ u. record u { status = status }) db.org_units;
}
