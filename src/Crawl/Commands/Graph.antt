-- ===== src/Crawl/Commands/Graph.antt =====
-- Each command on the crawl graph keeps the tables sound.
use dext.Base.{
  ℕ, ◌+◌, ◌≤◌, ◌≡◌, refl, sym, subst, String, Bool, true, false, ◌&&◌, Option, none, some, [], ◌∷◌,
  Bool-cases, Option-cases, inl, inr, OneOf, All-append, Result, nat_elem, nat_eq, arith, is_some,
  any, ◌==◌,
}
use dext.Crawl.Tables.{select_row, update_rows, delete_rows, select_row-none, All-update_rows}
use dext.Crawl.Types.{
  EdgeType, NodeStatus, retry, GraphNode, GraphEdge, ExtractionAttempt, OrgUnitSpec, NodeSpec,
  Metadata, Database,
}
use dext.Crawl.Store.{
  RowIds, DatabaseError, has_key, has_id, node_ids, new_node, rediscovered, unit_exists,
  written_unit, upsert_node_at, has_url, takes_name, upsert_org_unit, node_exists, add_edge_at,
  record_attempt, marked, mark_node, finish_attempt,
}
use dext.Crawl.Store.Laws.{nat_elem→OneOf, Distinct-same}
use dext.Crawl.Store.Reset.{
  reset_node, is_deletable, is_entrypoint, ids_of, touches, reset_org_unit_subtree,
  reset_bad_detail_snapshots, reconcile,
}
use dext.Crawl.Store.Integrity.{
  ids_in, IsJoined, IsOfNode, IsSound, IsFresh, IsSound-update_nodes, IsSound-append_node,
  IsSound-delete_nodes, key_is_new,
}
use dext.Crawl.Claim.{ClaimQuery, is_claimable, claimed, claim}
use dext.Crawl.Claim.Best.{Finds}
use dext.Crawl.Commands.{rolled_back}

claimable-bound :
    (n : GraphNode) (query : ClaimQuery) (now : ℕ)
    → is_claimable query now n ≡ true
    → (n.attempt_count + 1) ≤ n.max_attempts
unfolding is_claimable
claimable-bound n query now good = ground (arith, good)

module _ (new_id : RowIds) where
  module _ (fresh : IsFresh new_id) (db : Database) (sound : IsSound db) where
    abbrev SoundAfter {ℓ} : {A : Type ℓ} → Result DatabaseError A → (A → Database) → Type 0
    SoundAfter r after = IsSound (rolled_back r after db)

    pub upsert_unit-IsSound :
        (spec : OrgUnitSpec) → SoundAfter (upsert_org_unit new_id spec db) (λ r. r.1)
    unfolding upsert_org_unit
    upsert_unit-IsSound spec = elim (Bool-cases (any (takes_name spec) db.org_units)) [
      | inl taken ↦ rw taken sound
      | inr free ↦ elim (Option-cases (select_row (has_url spec.url) db.org_units)) [
        | inl none_there ↦ rw (free, none_there) sound
        | inr (u, there) ↦ rw (free, there) sound
      ]
    ]

    pub rediscovered-IsSound :
        (spec : NodeSpec)
        → IsSound
            (record db { nodes = update_rows (has_key spec.node_key) (rediscovered spec) db.nodes })
    unfolding rediscovered
    rediscovered-IsSound spec =
        IsSound-update_nodes db sound (has_key spec.node_key) (rediscovered spec) (λ n. refl)
          (λ n. refl) (λ n m t bound. bound)

    pub upsert_node_at-IsSound :
        (spec : NodeSpec) (found : Option GraphNode)
        → select_row (has_key spec.node_key) db.nodes ≡ found
        → SoundAfter (upsert_node_at new_id found spec db) (λ r. r.1)
    unfolding upsert_node_at
    upsert_node_at-IsSound spec (some n) e =
        elim (Bool-cases (unit_exists (written_unit n spec) db)) [
          | inl there ↦ rw there (rediscovered-IsSound spec)
          | inr missing ↦ rw missing sound
        ]
    upsert_node_at-IsSound spec none e = elim (Bool-cases (unit_exists spec.org_unit_id db)) [
      | inl there ↦ rw there (
          IsSound-append_node db sound (new_node (new_id (node_ids db)) spec)
            (key_is_new spec.node_key db.nodes (select_row-none (has_key spec.node_key) db.nodes e))
            (fresh (node_ids db)) (omega arith))
      | inr missing ↦ rw missing sound
    ]

    pub add_edge_at-IsSound :
        (found : Option GraphEdge) (from_id to_id : ℕ) (t : EdgeType) (confidence : Option ℕ)
        (metadata : Option Metadata)
        → SoundAfter (add_edge_at new_id found from_id to_id t confidence metadata db) (λ r. r.1)
    add_edge_at-IsSound (some e) from_id to_id t confidence metadata = sound
    add_edge_at-IsSound none from_id to_id t confidence metadata =
        elim (Bool-cases (node_exists from_id db && node_exists to_id db)) [
          | inr missing ↦ rw missing sound
          | inl there ↦
              let (keys, ids, bounded, joined, of_node) = sound in
              let start = nat_elem→OneOf from_id (node_ids db) (ground (arith, there)) in
              let end = nat_elem→OneOf to_id (node_ids db) (ground (arith, there)) in
              rw there (
                keys,
                ids,
                bounded,
                All-append (IsJoined (ids_in db.nodes)) db.edges (_ ∷ []) joined ((start, end), tt),
                of_node,
              )
        ]

    pub record_attempt-IsSound :
        (node_id attempt : ℕ) (status : String) (url : Option String)
        → SoundAfter (record_attempt new_id node_id attempt status url db) (λ r. r.1)
    unfolding record_attempt
    record_attempt-IsSound node_id attempt status url = elim (Bool-cases (node_exists node_id db)) [
      | inr missing ↦ rw missing sound
      | inl there ↦
          let (keys, ids, bounded, joined, of_node) = sound in
          rw there (
            keys,
            ids,
            bounded,
            joined,
            All-append (IsOfNode (ids_in db.nodes)) db.attempts (_ ∷ []) of_node
                (nat_elem→OneOf node_id (node_ids db) there, tt),
          )
    ]

    pub mark_node-IsSound :
        (id : ℕ) (status : NodeStatus) (last_error content_hash : Option String)
        (next_retry_at : Option ℕ) (attempt_inc : Bool) (now : ℕ)
        → attempt_inc ≡ false
        → SoundAfter
            (mark_node id status last_error content_hash next_retry_at attempt_inc now db)
            (λ r. r)
    unfolding mark_node marked
    mark_node-IsSound id status last_error content_hash next_retry_at attempt_inc now uncounted =
        elim (Bool-cases (is_some (select_row (has_id id) db.nodes))) [
          | inr missing ↦ rw missing sound
          | inl there ↦ rw there (
              IsSound-update_nodes db sound (has_id id)
                (marked status last_error content_hash next_retry_at attempt_inc now) (λ n. refl)
                (λ n. refl) (λ n m t bound. rw uncounted bound))
        ]

    pub claim-IsSound :
        (run_id now : ℕ) (query : ClaimQuery) (found : Option GraphNode)
        → Finds (is_claimable query now) db.nodes found
        → IsSound (claim found run_id now db).1
    unfolding claim claimed
    claim-IsSound run_id now query none h = sound
    claim-IsSound run_id now query (some n) (one, good, all) =
        IsSound-update_nodes db sound (has_id n.id) (claimed run_id now) (λ m. refl) (λ m. refl)
          (λ m among same bound.
            let here : m ≡ n =
              Distinct-same (λ (k : GraphNode). k.id) m n db.nodes sound.1 among one
                (ground (arith, same)) in
            let room : (n.attempt_count + 1) ≤ n.max_attempts = claimable-bound n query now good in
            subst (λ (k : GraphNode). (k.attempt_count + 1) ≤ k.max_attempts) (sym here) room)

    pub update_attempts-IsSound :
        (p : ExtractionAttempt → Bool) (f : ExtractionAttempt → ExtractionAttempt)
        → ((a : ExtractionAttempt) → (f a).graph_node_id ≡ a.graph_node_id)
        → IsSound (record db { attempts = update_rows p f db.attempts })
    update_attempts-IsSound p f same =
        let (keys, ids, bounded, joined, of_node) = sound in
        (
          keys,
          ids,
          bounded,
          joined,
          All-update_rows (IsOfNode (ids_in db.nodes)) p f db.attempts
              (λ a among t m. subst (λ i. OneOf i (ids_in db.nodes)) (sym (same a)) m) of_node,
        )

    pub finish_attempt-IsSound :
        (id : ℕ) (status : String) (preview failure_type : Option String) (now : ℕ)
        → SoundAfter (finish_attempt id status preview failure_type now db) (λ r. r)
    unfolding finish_attempt
    finish_attempt-IsSound id status preview failure_type now =
        elim (Bool-cases
          (is_some (select_row (λ (a : ExtractionAttempt). nat_eq a.id id) db.attempts))) [
            | inr missing ↦ rw missing sound
            | inl there ↦ rw there (update_attempts-IsSound (λ a. nat_eq a.id id) _ (λ a. refl))
          ]

    pub reset_subtree-IsSound : (id : ℕ) → IsSound (reset_org_unit_subtree id db).1
    unfolding reset_org_unit_subtree reset_node
    reset_subtree-IsSound id =
        let deleted = ids_of (is_deletable id) db in
        IsSound-update_nodes
          (record db {
            nodes = delete_rows (λ n. nat_elem n.id deleted) db.nodes;
            edges = delete_rows (touches deleted) db.edges;
            attempts = delete_rows (λ a. nat_elem a.graph_node_id deleted) db.attempts;
          })
          (IsSound-delete_nodes db sound deleted)
          (λ n. nat_elem n.id (ids_of (is_entrypoint id) db)) reset_node (λ n. refl) (λ n. refl)
          (λ n among t bound. omega arith)

    pub reset_bad-IsSound : IsSound (reset_bad_detail_snapshots db).1
    unfolding reset_bad_detail_snapshots reset_node
    reset_bad-IsSound =
        IsSound-update_nodes db sound _ reset_node (λ n. refl) (λ n. refl)
          (λ n among t bound. omega arith)

  pub reconcile-IsSound : (db : Database) → IsSound db → IsSound (reconcile db)
  unfolding reconcile
  reconcile-IsSound db sound =
      let nodes =
        IsSound-update_nodes db sound _ (λ n. record n { status = retry }) (λ n. refl) (λ n. refl)
          (λ n among t bound. bound) in
      (
        nodes.0,
        nodes.1,
        nodes.2,
        nodes.3,
        All-update_rows (IsOfNode _) (λ a. a.status == "running")
            (λ a. record a { status = "retry" }) db.attempts (λ a among t m. m) nodes.4,
      )
