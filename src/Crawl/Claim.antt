-- ===== src/Crawl/Claim.antt =====
-- `_claim_next` of storage/writer.py: the next node to work on.
pub mod Best
use dext.Base.{
  ℕ, ◌+◌, String, Bool, true, false, not, ◌&&◌, ◌||◌, Option, none, some, List, [], ◌∷◌, ltb, leb,
  nat_eq, elem, nat_elem, is_empty, if◌then◌else◌, ◌==◌, keep_if,
}
use dext.Crawl.Tables.{update_rows}
use dext.Crawl.Types.{
  NodeType, NodeStatus, pending, in_progress, retry, GraphNode, ClaimedNode, Database,
}
use dext.Crawl.Store.{same_status, one_of_types, has_id}

-- What a claim asks for: a set that is empty does not restrict.
pub record ClaimQuery : Type 0 where
  pub exclude_node_keys : List String
  pub types : List NodeType
  pub org_unit_ids : List ℕ

abbrev in_set : Option ℕ → List ℕ → Bool
in_set none ids = false
in_set (some id) ids = nat_elem id ids

abbrev is_due : Option ℕ → ℕ → Bool
is_due none now = true
is_due (some at) now = leb at now

-- The conditions of the statement.
unfoldable pub is_claimable : ClaimQuery → ℕ → GraphNode → Bool
is_claimable q now n =
    (same_status n.status pending || same_status n.status retry)
    && ltb n.attempt_count n.max_attempts
    && is_due n.next_retry_at now
    && (is_empty q.types || one_of_types q.types n.node_type)
    && (is_empty q.org_unit_ids || in_set n.org_unit_id q.org_unit_ids)
    && (is_empty q.exclude_node_keys || not (elem n.node_key q.exclude_node_keys))

-- `ORDER BY priority_score DESC, id ASC`: the first comes before the second.
abbrev pub comes_first : GraphNode → GraphNode → Bool
comes_first a b =
    ltb b.priority_score a.priority_score
    || (nat_eq a.priority_score b.priority_score && leb a.id b.id)

abbrev pub earlier : GraphNode → Option GraphNode → GraphNode
earlier n none = n
earlier n (some m) = if comes_first n m then n else m

-- `LIMIT 1` of the rows in that order.
unfoldable pub first_in_order : (GraphNode → Bool) → List GraphNode → Option GraphNode
first_in_order p [] = none
first_in_order p (n ∷ rest) =
    let later = first_in_order p rest in if p n then some (earlier n later) else later

unfoldable pub claimed : ℕ → ℕ → GraphNode → GraphNode
claimed run_id now n = record n {
  status = in_progress;
  claimed_at = some now;
  run_id = some run_id;
  attempt_count = n.attempt_count + 1;
}

abbrev pub claimed_node : GraphNode → ClaimedNode
claimed_node n = record {
  id = n.id;
  node_key = n.node_key;
  node_type = n.node_type;
  url = n.url;
  org_unit_id = n.org_unit_id;
  org_unit_name = n.org_unit_name;
  depth = n.depth;
  attempt_count = n.attempt_count;
  priority_score = n.priority_score;
  content_hash = n.content_hash;
  metadata = n.metadata;
}

unfoldable pub claim : Option GraphNode → ℕ → ℕ → Database → Option ClaimedNode × Database
unfolding claimed update_rows
claim none run_id now db = (none, db)
claim (some n) run_id now db = (
  some (claimed_node (claimed run_id now n)),
  record db { nodes = update_rows (has_id n.id) (claimed run_id now) db.nodes },
)

unfoldable pub claim_next : ℕ → ClaimQuery → ℕ → Database → Option ClaimedNode × Database
unfolding is_claimable first_in_order claim
claim_next run_id query now db =
    claim (first_in_order (is_claimable query now) db.nodes) run_id now db
