-- ===== src/Crawl/Store/Integrity.antt =====
-- The integrity of the tables under every command of the writer.
use dext.Base.{
  ℕ, ◌≤◌, ◌≡◌, sym, ◌∙◌, subst, String, Bool, true, false, List, [], ◌∷◌, ◌++◌, map, inl, inr,
  OneOf, OneOf-append_left, All, All-append, All-imp, nat_elem, arith, ◌==◌, eq_iff,
}
use dext.Crawl.Tables.{update_rows, delete_rows, All-update_rows, All-delete_rows, map-update_rows}
use dext.Crawl.Types.{GraphNode, GraphEdge, ExtractionAttempt, Database}
use dext.Crawl.Store.{RowIds, has_key}
use dext.Crawl.Store.Laws.{
  Distinct, Distinct-append, map-append, Distinct-delete_rows, OneOf-kept, All-delete_rows_kept,
}
use dext.Crawl.Store.Reset.{touches}

abbrev pub IsBounded : GraphNode → Type 0
IsBounded n = n.attempt_count ≤ n.max_attempts

abbrev pub keys_of : List GraphNode → List String
keys_of nodes = map (λ (n : GraphNode). n.node_key) nodes

abbrev pub ids_in : List GraphNode → List ℕ
ids_in nodes = map (λ (n : GraphNode). n.id) nodes

abbrev pub IsJoined : List ℕ → GraphEdge → Type 0
IsJoined ids e = OneOf e.from_node_id ids × OneOf e.to_node_id ids

abbrev pub IsOfNode : List ℕ → ExtractionAttempt → Type 0
IsOfNode ids a = OneOf a.graph_node_id ids

-- Keys and ids of nodes are unique, no node has more attempts than it may, and edges and attempts
-- refer to nodes that exist.
abbrev pub IsSound : Database → Type 0
IsSound db =
    Distinct (keys_of db.nodes)
    × Distinct (ids_in db.nodes)
    × All IsBounded db.nodes
    × All (IsJoined (ids_in db.nodes)) db.edges
    × All (IsOfNode (ids_in db.nodes)) db.attempts

-- A row id that is given to a new row is none of the table's.
abbrev pub IsFresh : RowIds → Type 0
IsFresh new_id = (ids : List ℕ) → ¬ OneOf (new_id ids) ids

module _ (db : Database) (sound : IsSound db) where
  -- An update of nodes that keeps keys, ids and the bound.
  pub IsSound-update_nodes :
      (p : GraphNode → Bool) (f : GraphNode → GraphNode)
      → ((n : GraphNode) → (f n).node_key ≡ n.node_key)
      → ((n : GraphNode) → (f n).id ≡ n.id)
      → ((n : GraphNode) → OneOf n db.nodes → p n ≡ true → IsBounded n → IsBounded (f n))
      → IsSound (record db { nodes = update_rows p f db.nodes })
  IsSound-update_nodes p f keys ids bound =
      let (unique_keys, unique_ids, bounded, joined, of_node) = sound in
      let same_keys = map-update_rows (λ (n : GraphNode). n.node_key) p f db.nodes keys in
      let same_ids = map-update_rows (λ (n : GraphNode). n.id) p f db.nodes ids in
      (
        subst Distinct (sym same_keys) unique_keys,
        subst Distinct (sym same_ids) unique_ids,
        All-update_rows IsBounded p f db.nodes bound bounded,
        subst (λ is. All (IsJoined is) db.edges) (sym same_ids) joined,
        subst (λ is. All (IsOfNode is) db.attempts) (sym same_ids) of_node,
      )

  pub IsSound-append_node :
      (n : GraphNode)
      → ¬ OneOf n.node_key (keys_of db.nodes)
      → ¬ OneOf n.id (ids_in db.nodes)
      → IsBounded n
      → IsSound (record db { nodes = db.nodes ++ n ∷ [] })
  IsSound-append_node n new_key new_id bound =
      let (unique_keys, unique_ids, bounded, joined, of_node) = sound in
      let keys = map-append (λ (m : GraphNode). m.node_key) db.nodes (n ∷ []) in
      let ids = map-append (λ (m : GraphNode). m.id) db.nodes (n ∷ []) in
      let later = λ (i : ℕ) (m : OneOf i (ids_in db.nodes)).
        OneOf-append_left i (ids_in db.nodes) (n.id ∷ []) m in
      (
        subst Distinct (sym keys)
            (Distinct-append (keys_of db.nodes) n.node_key unique_keys new_key),
        subst Distinct (sym ids) (Distinct-append (ids_in db.nodes) n.id unique_ids new_id),
        All-append IsBounded db.nodes (n ∷ []) bounded (bound, tt),
        subst (λ is. All (IsJoined is) db.edges) (sym ids)
            (All-imp _ _ db.edges (λ e j. (later e.from_node_id j.0, later e.to_node_id j.1))
              joined),
        subst (λ is. All (IsOfNode is) db.attempts) (sym ids)
            (All-imp _ _ db.attempts (λ a m. later a.graph_node_id m) of_node),
      )

  -- A deletion of nodes with the edges and attempts that refer to them.
  pub IsSound-delete_nodes :
      (deleted : List ℕ)
      → IsSound (record db {
        nodes = delete_rows (λ n. nat_elem n.id deleted) db.nodes;
        edges = delete_rows (touches deleted) db.edges;
        attempts = delete_rows (λ a. nat_elem a.graph_node_id deleted) db.attempts;
      })
  IsSound-delete_nodes deleted =
      let (unique_keys, unique_ids, bounded, joined, of_node) = sound in
      let gone = λ (n : GraphNode). nat_elem n.id deleted in
      let kept = λ (i : ℕ) (free : nat_elem i deleted ≡ false) (m : OneOf i (ids_in db.nodes)).
        OneOf-kept (λ (n : GraphNode). n.id) deleted i db.nodes free m in
      (
        Distinct-delete_rows (λ (n : GraphNode). n.node_key) gone db.nodes unique_keys,
        Distinct-delete_rows (λ (n : GraphNode). n.id) gone db.nodes unique_ids,
        All-delete_rows IsBounded gone db.nodes bounded,
        All-delete_rows_kept _ _ (touches deleted) db.edges
            (λ e free j. (
              kept e.from_node_id (ground (arith, free)) j.0,
              kept e.to_node_id (ground (arith, free)) j.1,
            ))
            joined,
        All-delete_rows_kept _ _ (λ a. nat_elem a.graph_node_id deleted) db.attempts
            (λ a free m. kept a.graph_node_id free m) of_node,
      )

pub key_is_new :
    (key : String) (nodes : List GraphNode)
    → All (λ n. has_key key n ≡ false) nodes
    → ¬ OneOf key (keys_of nodes)
key_is_new key [] all h = elim h [ ]
key_is_new key (n ∷ nodes) (other, all) (inl here) =
    let same : (n.node_key == key) ≡ true = (eq_iff n.node_key key).1 (sym here) in
    let clash : true ≡ false = sym same ∙ other in cc clash
key_is_new key (n ∷ nodes) (other, all) (inr there) = key_is_new key nodes all there
