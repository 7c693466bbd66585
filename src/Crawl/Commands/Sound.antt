-- ===== src/Crawl/Commands/Sound.antt =====
-- The integrity of the tables, whatever commands run.
use dext.Base.{◌≡◌, refl, false, Bool-cases, inl, inr, nat_eq, is_some}
use dext.Crawl.Tables.{select_row}
use dext.Crawl.Types.{CrawlRun, Database}
use dext.Crawl.Store.{
  RowIds, has_key, upsert_node, is_edge, add_edge, save_page_cache, record_failure, start_run,
  finish_run, update_university_status, update_org_unit_status,
}
use dext.Crawl.Store.Integrity.{IsSound, IsFresh}
use dext.Crawl.Claim.{is_claimable, first_in_order, claim_next}
use dext.Crawl.Claim.Best.{first_in_order-Finds}
use dext.Crawl.People.{PythonTexts}
use dext.Crawl.Extract.{Storage}
use dext.Crawl.Commands.{
  Command, upsert_org_unit_of, upsert_node_of, add_edge_of, mark_node_of, claim_next_of,
  save_page_cache_of, record_attempt_of, finish_attempt_of, record_failure_of,
  update_org_unit_status_of, reset_org_unit_subtree_of, reset_bad_detail_snapshots_of, reconcile_of,
  save_professors_of, start_run_of, finish_run_of, update_university_status_of, counts_attempt,
  run_graph_command, run_command,
}
use dext.Crawl.Commands.Graph.{
  upsert_unit-IsSound, upsert_node_at-IsSound, add_edge_at-IsSound, mark_node-IsSound,
  claim-IsSound, record_attempt-IsSound, finish_attempt-IsSound, reset_subtree-IsSound,
  reset_bad-IsSound, reconcile-IsSound,
}

run_graph_command-IsSound :
    (new_id : RowIds)
    → IsFresh new_id
    → (c : Command) (db : Database) → counts_attempt c ≡ false
    → IsSound db
    → IsSound (run_graph_command new_id c db)
unfolding run_graph_command upsert_node add_edge claim_next save_page_cache record_failure start_run
    finish_run update_university_status update_org_unit_status
run_graph_command-IsSound new_id fresh (upsert_org_unit_of spec) db uncounted sound =
    upsert_unit-IsSound new_id fresh db sound spec
run_graph_command-IsSound new_id fresh (upsert_node_of spec) db uncounted sound =
    upsert_node_at-IsSound new_id fresh db sound spec (select_row (has_key spec.node_key) db.nodes)
      refl
run_graph_command-IsSound new_id fresh (add_edge_of from_id to_id t confidence metadata) db
      uncounted sound =
    add_edge_at-IsSound new_id fresh db sound (select_row (is_edge from_id to_id t) db.edges)
      from_id to_id t confidence metadata
run_graph_command-IsSound new_id fresh
      (mark_node_of id status last_error content_hash next_retry_at attempt_inc now) db uncounted
      sound =
    mark_node-IsSound new_id fresh db sound id status last_error content_hash next_retry_at
      attempt_inc now uncounted
run_graph_command-IsSound new_id fresh (claim_next_of run_id query now) db uncounted sound =
    claim-IsSound new_id fresh db sound run_id now query
      (first_in_order (is_claimable query now) db.nodes)
      (first_in_order-Finds (is_claimable query now) db.nodes)
run_graph_command-IsSound new_id fresh (save_page_cache_of payload) db uncounted sound = sound
run_graph_command-IsSound new_id fresh (record_attempt_of node_id attempt status url) db uncounted
      sound =
    record_attempt-IsSound new_id fresh db sound node_id attempt status url
run_graph_command-IsSound new_id fresh (finish_attempt_of id status preview failure_type now) db
      uncounted sound =
    finish_attempt-IsSound new_id fresh db sound id status preview failure_type now
run_graph_command-IsSound new_id fresh (record_failure_of failure) db uncounted sound = sound
run_graph_command-IsSound new_id fresh (save_professors_of payloads unit name) db uncounted sound =
    sound
run_graph_command-IsSound new_id fresh (start_run_of mode settings backup now) db uncounted sound =
    sound
run_graph_command-IsSound new_id fresh (finish_run_of id status summary now) db uncounted sound =
    elim (Bool-cases (is_some (select_row (λ (r : CrawlRun). nat_eq r.id id) db.runs))) [
      | inl there ↦ rw there sound
      | inr missing ↦ rw missing sound
    ]
run_graph_command-IsSound new_id fresh (update_university_status_of status) db uncounted sound =
    sound
run_graph_command-IsSound new_id fresh (update_org_unit_status_of id status) db uncounted sound =
    sound
run_graph_command-IsSound new_id fresh (reset_org_unit_subtree_of id) db uncounted sound =
    reset_subtree-IsSound new_id fresh db sound id
run_graph_command-IsSound new_id fresh reset_bad_detail_snapshots_of db uncounted sound =
    reset_bad-IsSound new_id fresh db sound
run_graph_command-IsSound new_id fresh reconcile_of db uncounted sound =
    reconcile-IsSound new_id db sound

-- Whatever command that changes tables the writer runs, raising or not, the tables stay sound if new
-- row ids are fresh and the command is no mark that counts an attempt: keys and ids of nodes are
-- unique, no node has more attempts than its bound, and every edge and every extraction attempt
-- refers to nodes that exist.
pub run_command-IsSound :
    (new_id : RowIds)
    → IsFresh new_id
    → (py : PythonTexts) (c : Command) (st : Storage) → counts_attempt c ≡ false
    → IsSound st.db
    → IsSound (run_command new_id py c st).db
unfolding run_command
run_command-IsSound new_id fresh py (save_professors_of payloads unit name) st uncounted sound =
    sound
run_command-IsSound new_id fresh py (upsert_org_unit_of spec) st uncounted sound =
    run_graph_command-IsSound new_id fresh (upsert_org_unit_of spec) st.db uncounted sound
run_command-IsSound new_id fresh py (upsert_node_of spec) st uncounted sound =
    run_graph_command-IsSound new_id fresh (upsert_node_of spec) st.db uncounted sound
run_command-IsSound new_id fresh py (add_edge_of from_id to_id t confidence metadata) st uncounted
      sound =
    run_graph_command-IsSound new_id fresh (add_edge_of from_id to_id t confidence metadata) st.db
      uncounted sound
run_command-IsSound new_id fresh py
      (mark_node_of id status last_error content_hash next_retry_at attempt_inc now) st uncounted
      sound =
    run_graph_command-IsSound new_id fresh
      (mark_node_of id status last_error content_hash next_retry_at attempt_inc now) st.db uncounted
      sound
run_command-IsSound new_id fresh py (claim_next_of run_id query now) st uncounted sound =
    run_graph_command-IsSound new_id fresh (claim_next_of run_id query now) st.db uncounted sound
run_command-IsSound new_id fresh py (save_page_cache_of payload) st uncounted sound =
    run_graph_command-IsSound new_id fresh (save_page_cache_of payload) st.db uncounted sound
run_command-IsSound new_id fresh py (record_attempt_of node_id attempt status url) st uncounted
      sound =
    run_graph_command-IsSound new_id fresh (record_attempt_of node_id attempt status url) st.db
      uncounted sound
run_command-IsSound new_id fresh py (finish_attempt_of id status preview failure_type now) st
      uncounted sound =
    run_graph_command-IsSound new_id fresh (finish_attempt_of id status preview failure_type now)
      st.db uncounted sound
run_command-IsSound new_id fresh py (record_failure_of failure) st uncounted sound =
    run_graph_command-IsSound new_id fresh (record_failure_of failure) st.db uncounted sound
run_command-IsSound new_id fresh py (start_run_of mode settings backup now) st uncounted sound =
    run_graph_command-IsSound new_id fresh (start_run_of mode settings backup now) st.db uncounted
      sound
run_command-IsSound new_id fresh py (finish_run_of id status summary now) st uncounted sound =
    run_graph_command-IsSound new_id fresh (finish_run_of id status summary now) st.db uncounted
      sound
run_command-IsSound new_id fresh py (update_university_status_of status) st uncounted sound =
    run_graph_command-IsSound new_id fresh (update_university_status_of status) st.db uncounted
      sound
run_command-IsSound new_id fresh py (update_org_unit_status_of id status) st uncounted sound =
    run_graph_command-IsSound new_id fresh (update_org_unit_status_of id status) st.db uncounted
      sound
run_command-IsSound new_id fresh py (reset_org_unit_subtree_of id) st uncounted sound =
    run_graph_command-IsSound new_id fresh (reset_org_unit_subtree_of id) st.db uncounted sound
run_command-IsSound new_id fresh py reset_bad_detail_snapshots_of st uncounted sound =
    run_graph_command-IsSound new_id fresh reset_bad_detail_snapshots_of st.db uncounted sound
run_command-IsSound new_id fresh py reconcile_of st uncounted sound =
    run_graph_command-IsSound new_id fresh reconcile_of st.db uncounted sound
