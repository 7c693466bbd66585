-- ===== src/Crawl/Store/Rows.antt =====
-- The rows that the commands write, and the tests that select rows.
use dext.Base.{
  ℕ, max, String, Bool, true, false, not, ◌&&◌, Option, none, some, List, [], ◌∷◌, ◌++◌, map,
  nat_eq, is_some, is_empty, nat_elem, or_else, if◌then◌else◌, ◌==◌,
}
use dext.Base.Dicts.{get}
use dext.Repositories.Snapshots.{texts}
use dext.Crawl.Types.{
  NodeType, type_value, EdgeType, edge_value, NodeStatus, done, failed, skipped, status_value,
  Metadata, GraphNode, GraphEdge, OrgUnit, ExtractionAttempt, OrgUnitSpec, NodeSpec, Database,
}

abbrev pub same_type : NodeType → NodeType → Bool
same_type a b = type_value a == type_value b

abbrev pub same_status : NodeStatus → NodeStatus → Bool
same_status a b = status_value a == status_value b

abbrev pub is_terminal : NodeStatus → Bool
is_terminal done = true
is_terminal failed = true
is_terminal skipped = true
is_terminal _ = false

-- `existing if existing is not None else new`
abbrev pub fill {ℓ} : {A : Type ℓ} → Option A → Option A → Option A
fill (some a) new = some a
fill none new = new

-- `metadata.setdefault(key, value)` for the pairs of the spec
unfoldable pub set_defaults : Metadata → Metadata → Metadata
unfolding get
set_defaults held [] = held
set_defaults held ((key, value) ∷ rest) =
    set_defaults (if is_some (get texts key held) then held else held ++ (key, value) ∷ []) rest

abbrev pub merge_metadata : Option Metadata → Option Metadata → Option Metadata
unfolding set_defaults
merge_metadata held none = held
merge_metadata held (some new) =
    if is_empty new then held else some (set_defaults (or_else held []) new)

-- Of the database: the unique columns, which raise IntegrityError, and rows that are missing.
pub data DatabaseError : Type 0 where
  integrity_error : String → DatabaseError
  no_result_found multiple_results_found : DatabaseError

-- The id that a table gives to a new row, from the ids that it has.
abbrev pub RowIds : Type 0
RowIds = List ℕ → ℕ

abbrev pub new_unit : ℕ → OrgUnitSpec → OrgUnit
new_unit id spec = record {
  id = id;
  name = spec.name;
  url = spec.url;
  kind = some spec.kind;
  status = spec.status;
  discovered_from_url = spec.discovered_from_url;
}

-- `if not existing.kind`, of a text that may be missing or empty
abbrev pub fill_text : Option String → Option String → Option String
fill_text none new = new
fill_text (some a) new = if a == "" then new else some a

abbrev pub renamed : OrgUnitSpec → OrgUnit → OrgUnit
renamed spec u = record u {
  name = spec.name;
  kind = fill_text u.kind (some spec.kind);
  discovered_from_url = fill_text u.discovered_from_url spec.discovered_from_url;
}

abbrev pub has_url : String → OrgUnit → Bool
has_url url u = u.url == url

-- Another unit than the one at this address has the name.
abbrev pub takes_name : OrgUnitSpec → OrgUnit → Bool
takes_name spec u = u.name == spec.name && not (u.url == spec.url)

abbrev pub new_node : ℕ → NodeSpec → GraphNode
new_node id spec = record {
  id = id;
  node_key = spec.node_key;
  node_type = spec.node_type;
  url = spec.url;
  org_unit_id = spec.org_unit_id;
  org_unit_name = spec.org_unit_name;
  status = spec.status;
  priority_score = spec.priority_score;
  base_priority = spec.base_priority;
  confidence = spec.confidence;
  depth = spec.depth;
  attempt_count = 0;
  max_attempts = spec.max_attempts;
  last_error = none;
  run_id = spec.run_id;
  claimed_at = none;
  completed_at = none;
  next_retry_at = none;
  content_hash = none;
  metadata = spec.metadata;
}

abbrev pub has_key : String → GraphNode → Bool
has_key key n = n.node_key == key

-- What a re-discovery changes in the node.
unfoldable pub rediscovered : NodeSpec → GraphNode → GraphNode
unfolding merge_metadata
rediscovered spec n = record n {
  priority_score = max n.priority_score spec.priority_score;
  base_priority = max n.base_priority spec.base_priority;
  org_unit_id = fill n.org_unit_id spec.org_unit_id;
  org_unit_name = fill n.org_unit_name spec.org_unit_name;
  confidence = fill n.confidence spec.confidence;
  metadata = merge_metadata n.metadata spec.metadata;
}

abbrev pub node_ids : Database → List ℕ
node_ids db = map (λ (n : GraphNode). n.id) db.nodes

-- Foreign keys are checked: a unit that is written into a node must exist.
abbrev pub unit_exists : Option ℕ → Database → Bool
unit_exists none db = true
unit_exists (some id) db = nat_elem id (map (λ (u : OrgUnit). u.id) db.org_units)

-- The unit that a re-discovery writes, if it writes one.
abbrev pub written_unit : GraphNode → NodeSpec → Option ℕ
written_unit n spec = if is_some n.org_unit_id then none else spec.org_unit_id

abbrev pub is_edge : ℕ → ℕ → EdgeType → GraphEdge → Bool
is_edge from_id to_id t e =
    nat_eq e.from_node_id from_id
    && (nat_eq e.to_node_id to_id && edge_value e.edge_type == edge_value t)

abbrev pub node_exists : ℕ → Database → Bool
node_exists id db = nat_elem id (node_ids db)

abbrev pub new_edge : ℕ → ℕ → ℕ → EdgeType → Option ℕ → Option Metadata → GraphEdge
new_edge id from_id to_id t confidence metadata = record {
  id = id;
  from_node_id = from_id;
  to_node_id = to_id;
  edge_type = t;
  confidence = confidence;
  metadata = metadata;
}

abbrev pub new_attempt : ℕ → ℕ → ℕ → String → Option String → ExtractionAttempt
new_attempt id node_id attempt status input_cache_url = record {
  id = id;
  graph_node_id = node_id;
  attempt = attempt;
  status = status;
  prompt_hash = none;
  input_cache_url = input_cache_url;
  raw_output_preview = none;
  failure_type = none;
  finished_at = none;
}
