-- ===== src/Crawl/Commands.antt =====
-- The commands of the writer as one step function on the tables.
mod Graph
pub mod Sound
use dext.Base.{
  ℕ, ◌+◌, ◌≤◌, ◌≡◌, refl, sym, subst, String, Bool, true, false, ◌&&◌, Option, none, some, List,
  map, [], ◌∷◌, Bool-cases, Option-cases, inl, inr, OneOf, All-append, Result, ok, raise, nat_elem,
  nat_eq, arith, is_some, any, ◌==◌,
}
use dext.Crawl.Tables.{select_row, update_rows, delete_rows, select_row-none, All-update_rows}
use dext.Crawl.Types.{
  EdgeType, NodeStatus, retry, GraphNode, GraphEdge, PageCache, ExtractionAttempt,
  ExtractionFailure, OrgUnit, OrgUnitSpec, NodeSpec, Metadata, Database,
}
use dext.Crawl.Store.{
  RowIds, DatabaseError, has_key, has_id, node_ids, new_node, rediscovered, unit_exists,
  written_unit, upsert_node_at, upsert_node, has_url, takes_name, upsert_org_unit, node_exists,
  is_edge, add_edge_at, add_edge, record_attempt, marked, mark_node, save_page_cache,
  finish_attempt, record_failure, start_run, finish_run, update_university_status,
  update_org_unit_status,
}
use dext.Crawl.Store.Laws.{nat_elem→OneOf, Distinct-same}
use dext.Crawl.Store.Reset.{
  reset_node, is_deletable, is_entrypoint, ids_of, touches, reset_org_unit_subtree,
  reset_bad_detail_snapshots, reconcile,
}
use dext.Crawl.Store.Integrity.{
  ids_in, IsJoined, IsOfNode, IsSound, IsFresh, IsSound-update_nodes, IsSound-append_node,
  IsSound-delete_nodes, key_is_new,
}
use dext.Crawl.People.{ProfessorPayload, PythonTexts, save_professors}
use dext.Crawl.Extract.{Storage, no_result}
use dext.Crawl.Claim.{ClaimQuery, is_claimable, first_in_order, claimed, claim, claim_next}
use dext.Crawl.Claim.Best.{Finds, first_in_order-Finds}

-- The commands that change the tables, with the instant of their run, and the repair of a resume.
pub data Command : Type 0 where
  upsert_org_unit_of : OrgUnitSpec → Command
  upsert_node_of : NodeSpec → Command
  add_edge_of : ℕ → ℕ → EdgeType → Option ℕ → Option Metadata → Command
  mark_node_of : ℕ → NodeStatus → Option String → Option String → Option ℕ → Bool → ℕ → Command
  claim_next_of : ℕ → ClaimQuery → ℕ → Command
  save_page_cache_of : PageCache → Command
  save_professors_of : List ProfessorPayload → Option ℕ → String → Command
  record_attempt_of : ℕ → ℕ → String → Option String → Command
  finish_attempt_of : ℕ → String → Option String → Option String → ℕ → Command
  record_failure_of : ExtractionFailure → Command
  start_run_of : String → Option String → Option String → ℕ → Command
  finish_run_of : ℕ → String → Option String → ℕ → Command
  update_university_status_of : String → Command
  update_org_unit_status_of : ℕ → String → Command
  reset_org_unit_subtree_of : ℕ → Command
  reset_bad_detail_snapshots_of : Command
  reconcile_of : Command

-- A command that raises is rolled back.
abbrev pub rolled_back {ℓ} :
    {A : Type ℓ} → Result DatabaseError A → (A → Database) → Database → Database
rolled_back (ok a) after db = after a
rolled_back (raise e) after db = db

-- Whether a command is a mark that counts an attempt.
abbrev pub counts_attempt : Command → Bool
counts_attempt (mark_node_of id status last_error content_hash next_retry_at attempt_inc now) =
    attempt_inc
counts_attempt _ = false

module _ (new_id : RowIds) where
  -- The tables but those of people
  unfoldable pub run_graph_command : Command → Database → Database
  unfolding upsert_org_unit upsert_node add_edge mark_node claim_next save_page_cache record_attempt
      finish_attempt record_failure start_run finish_run update_university_status
      update_org_unit_status reset_org_unit_subtree reset_bad_detail_snapshots reconcile
  run_graph_command (upsert_org_unit_of spec) db =
      rolled_back (upsert_org_unit new_id spec db) (λ r. r.1) db
  run_graph_command (upsert_node_of spec) db =
      rolled_back (upsert_node new_id spec db) (λ r. r.1) db
  run_graph_command (add_edge_of from_id to_id t confidence metadata) db =
      rolled_back (add_edge new_id from_id to_id t confidence metadata db) (λ r. r.1) db
  run_graph_command (mark_node_of id status last_error content_hash next_retry_at attempt_inc now)
        db =
      rolled_back (mark_node id status last_error content_hash next_retry_at attempt_inc now db)
        (λ r. r) db
  run_graph_command (claim_next_of run_id query now) db = (claim_next run_id query now db).1
  run_graph_command (save_page_cache_of payload) db = save_page_cache payload db
  run_graph_command (record_attempt_of node_id attempt status url) db =
      rolled_back (record_attempt new_id node_id attempt status url db) (λ r. r.1) db
  run_graph_command (finish_attempt_of id status preview failure_type now) db =
      rolled_back (finish_attempt id status preview failure_type now db) (λ r. r) db
  run_graph_command (record_failure_of failure) db = record_failure failure db
  run_graph_command (start_run_of mode settings backup_path now) db =
      (start_run new_id mode settings backup_path now db).1
  run_graph_command (finish_run_of id status summary now) db =
      rolled_back (finish_run id status summary now db) (λ r. r) db
  run_graph_command (update_university_status_of status) db = update_university_status status db
  run_graph_command (update_org_unit_status_of id status) db = update_org_unit_status id status db
  run_graph_command (reset_org_unit_subtree_of id) db = (reset_org_unit_subtree id db).1
  run_graph_command reset_bad_detail_snapshots_of db = (reset_bad_detail_snapshots db).1
  run_graph_command reconcile_of db = reconcile db
  run_graph_command (save_professors_of payloads org_unit_id org_unit_name) db = db

  -- `DBWriter.run`, for one command
  unfoldable pub run_command : PythonTexts → Command → Storage → Storage
  unfolding save_professors run_graph_command
  run_command py (save_professors_of payloads org_unit_id org_unit_name) st =
      let (people, failures) =
        save_professors new_id (map (λ (u : OrgUnit). u.id) st.db.org_units) py payloads org_unit_id
          org_unit_name (record st.people { result = no_result }, st.db.failures) in
      record { db = record st.db { failures = failures }; people = people }
  run_command py c st = record st { db = run_graph_command c st.db }
