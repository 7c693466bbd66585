-- ===== src/Crawl/Driver/Kept.antt =====
-- What handling a claimed node leaves: the node keys of the tables and the keys that were attempted.
use dext.Base.{
  ℕ, ◌≡◌, refl, String, true, false, Option, none, some, List, [], ◌∷◌, ◌++◌, Bool-cases,
  Option-cases, Result-cases, inl, inr, is_some, or_else, append, OneOf, ok, raise, ◌==◌, nat_eq,
  arith,
}
use dext.Bridge.Types.{FetchAction, FetchResult, PaginationState}
use dext.Bridge.Fetcher.{text_or}
use dext.Crawl.Tables.{select_row, map-update_rows}
use dext.Crawl.Types.{
  NodeStatus, skipped, detail_url, GraphNode, PageCache, ClaimedNode, PageSnapshot,
}
use dext.Crawl.Store.{
  has_id, get_page_cache, save_page_cache, record_failure, mark_node, marked, same_type,
}
use dext.Crawl.Store.Integrity.{keys_of, ids_in}
use dext.Crawl.Retry.{Texts, classify_fetch_failure, assess_terminal_unavailable_page}
use dext.Crawl.Driver.Covered.{
  IsLeft, Covers, queued, Covers-more, Covers-mark, OneOf-beside, OneOf-extract_task,
  OneOf-decide_task, classify_fetch_failure-IsLeft,
}
use dext.Crawl.Driver.{
  Outside, Engine, DriverError, database_error, value_error, Outcome, extract_task, decide_task,
  failure_of, count_fetch_failed, failed_cache, mark, fail_fetch, skip_unavailable,
  dispatch_snapshot, process_page, process_fresh_result, process_cached_result, handle_claimed_node,
  identity_url_for,
}

-- The same node keys and attempted keys; and if all nodes in progress but one were on a queue or held
-- elsewhere, they all are.
abbrev pub Same : ℕ → Engine → Engine → Type 0
Same id e e' =
    (keys_of e'.db.nodes ≡ keys_of e.db.nodes)
    × (e'.attempted ≡ e.attempted)
    × ((held : List ℕ)
        → Covers (id ∷ (queued e ++ held)) e.db.nodes
        → Covers (queued e' ++ held) e'.db.nodes)

-- The same keys, and what was covered but for the node still is: the node is left where it was.
abbrev pub IsLeftOpen : ℕ → Engine → Engine → Type 0
IsLeftOpen id e e' =
    (keys_of e'.db.nodes ≡ keys_of e.db.nodes)
    × (e'.attempted ≡ e.attempted)
    × ((held : List ℕ)
        → Covers (id ∷ (queued e ++ held)) e.db.nodes
        → Covers (id ∷ (queued e' ++ held)) e'.db.nodes)

abbrev pub RaisesOpen : ℕ → Engine → DriverError → Engine → Type 0
RaisesOpen id e (database_error error) e' = ⊥
RaisesOpen id e (value_error text) e' = IsLeftOpen id e e'

-- What the code makes of the engine: it returns with the node settled or queued, or raises, which it
-- does for an address alone, and leaves the node open.
abbrev pub Handles : ℕ → Engine → Outcome → Type 0
Handles id e (ok e') = Same id e e'
Handles id e (raise (error, e')) = RaisesOpen id e error e'

pub select_row-id :
    (id : ℕ) (nodes : List GraphNode)
    → OneOf id (ids_in nodes)
    → is_some (select_row (has_id id) nodes) ≡ true
unfolding select_row
select_row-id id [] h = elim h [ ]
select_row-id id (n ∷ nodes) h = elim (Bool-cases (nat_eq n.id id)) [
  | inl t ↦ rw t refl
  | inr f ↦ elim h [
    | inl here ↦ ground (arith, here, f)
    | inr there ↦ rw f (select_row-id id nodes there)
  ]
]

mark-Handles :
    (id : ℕ) (status : NodeStatus) (last_error content_hash : Option String) (now : ℕ) (e : Engine)
    → OneOf id (ids_in e.db.nodes)
    → IsLeft status
    → Handles id e (mark id status last_error content_hash now e)
unfolding mark_node marked
mark-Handles id status last_error content_hash now e h left = rw (select_row-id id e.db.nodes h) (
  map-update_rows (λ n. n.node_key) (has_id id)
      (marked status last_error content_hash none false now) e.db.nodes (λ n. refl),
  refl,
  λ held. Covers-mark (queued e ++ held) id now status last_error content_hash e.db.nodes left,
)

fail_fetch-Handles :
    (used : Texts) (reason : String) (code : Option ℕ) (url : String) (id now : ℕ) (e : Engine)
    → OneOf id (ids_in e.db.nodes)
    → Handles id e (fail_fetch used reason code url id now e)
unfolding fail_fetch record_failure
fail_fetch-Handles used reason code url id now e h =
    let left = classify_fetch_failure-IsLeft used (some reason) code in
    elim (Bool-cases
      (or_else (classify_fetch_failure used (some reason) code).resolver "" == "rate_limited")) [
        | inl limited ↦ rw limited (mark-Handles id _ _ none now _ h left)
        | inr free ↦ rw free (mark-Handles id _ _ none now _ h left)
      ]

skip_unavailable-Handles :
    (terminal url : String) (snapshot : PageSnapshot) (id now : ℕ) (e : Engine)
    → OneOf id (ids_in e.db.nodes)
    → Handles id e (skip_unavailable terminal url snapshot id now e)
unfolding skip_unavailable record_failure
skip_unavailable-Handles terminal url snapshot id now e h =
    mark-Handles id skipped (some (append "terminal_unavailable:" terminal))
      (some snapshot.content_hash) now
      (record e {
        db =
            record_failure
              (failure_of (append "terminal_unavailable:" terminal) (some "dropped") url) e.db;
      })
      h tt

dispatch_snapshot-Same :
    (node : ClaimedNode) (snapshot : PageSnapshot) (html : String) (states : List PaginationState)
    (e : Engine)
    → Same node.id e (dispatch_snapshot node snapshot html states e)
unfolding dispatch_snapshot
dispatch_snapshot-Same node snapshot html states e =
    elim (Bool-cases (same_type node.node_type detail_url)) [
      | inl t ↦ rw t (
        refl,
        refl,
        λ held. Covers-more (node.id ∷ (queued e ++ held)) _ e.db.nodes (
            OneOf-beside node.id (queued e) _ held
              (OneOf-extract_task e (extract_task node snapshot))),
      )
      | inr f ↦ rw f (
        refl,
        refl,
        λ held. Covers-more (node.id ∷ (queued e ++ held)) _ e.db.nodes (
            OneOf-beside node.id (queued e) _ held
              (OneOf-decide_task e (decide_task node snapshot html states))),
      )
    ]

module _ (out : Outside) (node : ClaimedNode) where
  process_page-Handles :
      (action : Option FetchAction) (r : FetchResult) (now : ℕ) (e : Engine)
      → OneOf node.id (ids_in e.db.nodes)
      → Handles node.id e (process_page out node action r now e)
  unfolding process_page save_page_cache
  process_page-Handles action r now e h =
      elim (Result-cases (out.build_snapshot r.html r.identity_url r.final_url r.title)) [
        | inr (text, malformed) ↦ rw malformed (refl, refl, λ held covered. covered)
        | inl (snapshot, built) ↦
            elim (Option-cases
              (assess_terminal_unavailable_page out.texts_used snapshot r.status_code)) [
                | inl page ↦
                    rw (built, page)
                      (dispatch_snapshot-Same node snapshot r.html r.pagination_states _)
                | inr (terminal, gone) ↦
                    rw (built, gone)
                      (skip_unavailable-Handles terminal r.identity_url snapshot node.id now _ h)
              ]
      ]

  process_fresh_result-Handles :
      (action : Option FetchAction) (r : FetchResult) (now : ℕ) (e : Engine)
      → OneOf node.id (ids_in e.db.nodes)
      → Handles node.id e (process_fresh_result out node action r now e)
  unfolding process_fresh_result save_page_cache
  process_fresh_result-Handles action r now e h =
      let counted = count_fetch_failed e in
      elim (Bool-cases (or_else r.block_reason "" == "")) [
        | inl page ↦ rw page (process_page-Handles action r now e h)
        | inr failing ↦ rw failing (
            fail_fetch-Handles out.texts_used (or_else r.block_reason "") r.status_code
              r.identity_url node.id now
              (record counted { db = save_page_cache (failed_cache r) counted.db }) h)
      ]

  process_cached_result-Handles :
      (cache : PageCache) (now : ℕ) (e : Engine)
      → OneOf node.id (ids_in e.db.nodes)
      → Handles node.id e (process_cached_result out node cache now e)
  unfolding process_cached_result
  process_cached_result-Handles cache now e h =
      let html = or_else cache.html_snapshot "" in
      let final_url = text_or cache.final_url cache.url in
      elim (Bool-cases (html == "")) [
        | inl nothing ↦ rw nothing (
            fail_fetch-Handles out.texts_used (text_or cache.block_reason "cached_no_html")
              cache.status_code cache.url node.id now (count_fetch_failed e) h)
        | inr page ↦
            elim (Result-cases
              (out.build_snapshot html cache.url final_url (or_else cache.title ""))) [
                | inr (text, malformed) ↦ rw (page, malformed) (refl, refl, λ held covered. covered)
                | inl (snapshot, built) ↦
                    elim (Option-cases (
                      assess_terminal_unavailable_page out.texts_used snapshot cache.status_code)) [
                        | inl good ↦
                            rw (page, built, good) (dispatch_snapshot-Same node snapshot html [] _)
                        | inr (terminal, gone) ↦
                            rw (page, built, gone)
                              (skip_unavailable-Handles terminal cache.url snapshot node.id now
                                (count_fetch_failed e) h)
                      ]
              ]
      ]

  -- Where the node is in the table, only a malformed address makes its handling raise.
  pub handle_claimed_node-Handles :
      (now : ℕ) (e : Engine)
      → OneOf node.id (ids_in e.db.nodes)
      → Handles node.id e (handle_claimed_node out node now e)
  unfolding handle_claimed_node
  handle_claimed_node-Handles now e h =
      elim (Option-cases (get_page_cache (identity_url_for node) e.db)) [
        | inl missing ↦
            let action = out.fetch_action_from_metadata node.metadata in
            elim (Result-cases (out.fetch_page node (identity_url_for node) action)) [
              | inl (r, fetched) ↦
                  rw (missing, fetched) (process_fresh_result-Handles action r now _ h)
              | inr (text, malformed) ↦
                  rw (missing, malformed) (refl, refl, λ held covered. covered)
            ]
        | inr (cache, held) ↦ rw held (process_cached_result-Handles cache now e h)
      ]
