-- ===== src/Crawl/Store/Reset.antt =====
-- The resets of storage/writer.py, and the reconciliation of storage/lifecycle.py.
use dext.Base.{
  ℕ, ◌+◌, String, Bool, true, false, not, ◌&&◌, ◌||◌, Option, none, some, List, [], ◌∷◌, ◌++◌, map,
  length, nat_eq, nat_elem, elem, keep_if, or_else, any, leb, ◌==◌, if◌then◌else◌,
}
use Prim.Native.Char.{code}
use Prim.Native.String.{String as Text}
use dext.Crawl.Tables.{update_rows, delete_rows}
use dext.Crawl.Types.{
  NodeType, org_unit, faculty_list_url, pagination_url, faculty_followup_url, detail_url, pending,
  in_progress, retry, GraphNode, GraphEdge, PageCache, Database,
}
use dext.Crawl.Store.{same_type, same_status, of_unit, one_of_types}

-- The values that a reset gives to a node.
unfoldable pub reset_node : GraphNode → GraphNode
reset_node n = record n {
  status = pending;
  attempt_count = 0;
  last_error = none;
  content_hash = none;
  claimed_at = none;
  completed_at = none;
  next_retry_at = none;
}

abbrev pub deletable_types : List NodeType
deletable_types = detail_url ∷ faculty_followup_url ∷ pagination_url ∷ []

abbrev pub entrypoint_types : List NodeType
entrypoint_types = org_unit ∷ faculty_list_url ∷ []

abbrev pub is_deletable : ℕ → GraphNode → Bool
is_deletable org_unit_id n =
    of_unit org_unit_id n.org_unit_id && one_of_types deletable_types n.node_type

abbrev pub is_entrypoint : ℕ → GraphNode → Bool
is_entrypoint org_unit_id n =
    of_unit org_unit_id n.org_unit_id && one_of_types entrypoint_types n.node_type

abbrev pub ids_of : (GraphNode → Bool) → Database → List ℕ
ids_of p db = map (λ (n : GraphNode). n.id) (keep_if p db.nodes)

abbrev pub urls_of : (GraphNode → Bool) → Database → List String
urls_of p db = keep_if (λ u. not (u == "")) (map (λ (n : GraphNode). n.url) (keep_if p db.nodes))

abbrev pub touches : List ℕ → GraphEdge → Bool
touches ids e = nat_elem e.from_node_id ids || nat_elem e.to_node_id ids

pub record ResetCounts : Type 0 where
  pub nodes_deleted : ℕ
  pub entrypoints_reset : ℕ
  pub edges_deleted : ℕ
  pub caches_deleted : ℕ

-- Where no row is selected the statements are left out, which changes nothing: they would select none.
unfoldable pub reset_org_unit_subtree : ℕ → Database → ResetCounts × Database
unfolding update_rows delete_rows reset_node
reset_org_unit_subtree id db =
    let deleted = ids_of (is_deletable id) db in
    let kept = ids_of (is_entrypoint id) db in
    let urls = urls_of (is_deletable id) db ++ urls_of (is_entrypoint id) db in
    (
      record {
        nodes_deleted = length deleted;
        entrypoints_reset = length kept;
        edges_deleted = length (keep_if (touches deleted) db.edges);
        caches_deleted = length (keep_if (λ (c : PageCache). elem c.url urls) db.caches);
      },
      record db {
        edges = delete_rows (touches deleted) db.edges;
        attempts = delete_rows (λ a. nat_elem a.graph_node_id deleted) db.attempts;
        nodes =
            update_rows (λ n. nat_elem n.id kept) reset_node
              (delete_rows (λ n. nat_elem n.id deleted) db.nodes);
        caches = delete_rows (λ c. elem c.url urls) db.caches;
        org_units =
            update_rows (λ u. nat_eq u.id id) (λ u. record u { status = "pending" }) db.org_units;
      },
    )

-- Only tabs, line ends and spaces: what `trim` with these characters leaves is empty.
unfoldable pub is_trimmed_away : String → Bool
is_trimmed_away Text.[] = true
is_trimmed_away (Text.◌∷◌ c s) =
    let rest = is_trimmed_away s in nat_elem (code c) (9 ∷ 10 ∷ 13 ∷ 32 ∷ []) && rest

abbrev is_bad_text : Option String → Bool
is_bad_text none = true
is_bad_text (some t) = is_trimmed_away t

abbrev lower_ascii : ℕ → ℕ
lower_ascii c = if leb 65 c && leb c 90 then c + 32 else c

-- SQLite's `LIKE` of the pattern and `%`: an underscore stands for any character, and the case of
-- ASCII letters does not count.
unfoldable pub is_like_prefix : String → String → Bool
is_like_prefix Text.[] s = true
is_like_prefix (Text.◌∷◌ p pattern_rest) Text.[] = false
is_like_prefix (Text.◌∷◌ p pattern_rest) (Text.◌∷◌ c s) =
    let rest = is_like_prefix pattern_rest s in
    (nat_eq (code p) 95 || nat_eq (lower_ascii (code p)) (lower_ascii (code c))) && rest

-- The cache of a page whose capture failed.
unfoldable pub is_bad_snapshot : PageCache → Bool
unfolding is_trimmed_away is_like_prefix
is_bad_snapshot c =
    is_bad_text c.text_snapshot
    || is_like_prefix "terminal_unavailable:empty_page" (or_else c.block_reason "")

abbrev pub has_bad_snapshot : Database → GraphNode → Bool
unfolding is_bad_snapshot
has_bad_snapshot db n =
    same_type n.node_type detail_url
    && any (λ (c : PageCache). c.url == n.url && is_bad_snapshot c) db.caches

-- The nodes that are reset, and the caches that are deleted. Addresses of caches are their key, so
-- that the join has one row for a node.
unfoldable pub reset_bad_detail_snapshots : Database → (ℕ × ℕ) × Database
unfolding has_bad_snapshot reset_node update_rows delete_rows
reset_bad_detail_snapshots db =
    let ids = ids_of (has_bad_snapshot db) db in
    let urls = urls_of (has_bad_snapshot db) db in
    (
      (length ids, length (keep_if (λ (c : PageCache). elem c.url urls) db.caches)),
      record db {
        nodes = update_rows (λ n. nat_elem n.id ids) reset_node db.nodes;
        caches = delete_rows (λ c. elem c.url urls) db.caches;
      },
    )

-- `open_resume`, of what a crash has left.
unfoldable pub reconcile : Database → Database
unfolding update_rows
reconcile db = record db {
  nodes =
      update_rows (λ n. same_status n.status in_progress) (λ n. record n { status = retry })
        db.nodes;
  org_units =
      update_rows (λ u. u.status == "in_progress") (λ u. record u { status = "pending" })
        db.org_units;
  attempts =
      update_rows (λ a. a.status == "running") (λ a. record a { status = "retry" }) db.attempts;
}
