-- ===== src/Crawl/Keys.antt =====
-- priorities.py, `node_key_for` of storage/dedup.py, and the node specs of engine/seeds.py.
use dext.Base.{
  ℕ, String, Bool, Option, none, some, append, Result, ok, raise, ◌>>=◌, ◌==◌, if◌then◌else◌,
}
use dext.Base.Text.{decimal}
use dext.Crawl.Types.{
  NodeType, org_listing_url, org_unit, faculty_list_url, pagination_url, faculty_followup_url,
  detail_url, type_value, NodeStatus, Metadata, NodeSpec,
}

-- `BASE_PRIORITY_BY_TYPE`
abbrev pub priority_for : NodeType → ℕ
priority_for org_listing_url = 100
priority_for org_unit = 90
priority_for faculty_list_url = 80
priority_for pagination_url = 70
priority_for faculty_followup_url = 65
priority_for detail_url = 50

-- `SUBTREE_PRIORITY_BY_TYPE.get(node_type, BASE_PRIORITY_BY_TYPE[node_type])`
abbrev pub subtree_priority_for : NodeType → ℕ
subtree_priority_for faculty_list_url = 180
subtree_priority_for pagination_url = 170
subtree_priority_for faculty_followup_url = 165
subtree_priority_for detail_url = 150
subtree_priority_for t = priority_for t

abbrev key_of_unit : Option ℕ → Option String → Result String String
key_of_unit (some id) name = ok (append "org_unit:id:" (decimal id))
key_of_unit none none = raise "org_unit node_key needs org_unit_id or normalized_name"
key_of_unit none (some name) =
    if name == ""
    then raise "org_unit node_key needs org_unit_id or normalized_name"
    else ok (append "org_unit:name:" name)

abbrev key_of_url : NodeType → Option String → Result String String
key_of_url t none = raise (append (type_value t) " node_key needs normalized_url")
key_of_url t (some url) =
    if url == ""
    then raise (append (type_value t) " node_key needs normalized_url")
    else ok (append "url:" url)

-- The exception is a ValueError with that text.
unfoldable pub node_key_for :
    NodeType → Option String → Option ℕ → Option String → Result String String
unfolding decimal
node_key_for org_unit normalized_url org_unit_id normalized_name =
    key_of_unit org_unit_id normalized_name
node_key_for t normalized_url org_unit_id normalized_name = key_of_url t normalized_url

-- What `node_spec` and `org_node_spec` take besides the type and the address.
pub record SpecOptions : Type 0 where
  pub run_id : Option ℕ
  pub org_unit_id : Option ℕ
  pub org_unit_name : Option String
  pub depth : ℕ
  pub metadata : Option Metadata
  pub status : NodeStatus
  pub confidence : Option ℕ
  pub max_attempts : ℕ

abbrev pub spec_of : String → NodeType → String → ℕ → SpecOptions → NodeSpec
spec_of key t url priority o = record {
  node_key = key;
  node_type = t;
  url = url;
  org_unit_id = o.org_unit_id;
  org_unit_name = o.org_unit_name;
  status = o.status;
  priority_score = priority;
  base_priority = priority;
  confidence = o.confidence;
  depth = o.depth;
  max_attempts = o.max_attempts;
  run_id = o.run_id;
  metadata = o.metadata;
}

abbrev key_url : Option String → String → String
key_url none url = url
key_url (some k) url = if k == "" then url else k

unfoldable pub node_spec :
    NodeType → String → Option String → Bool → SpecOptions → Result String NodeSpec
unfolding node_key_for
node_spec t url node_key_url subtree o = do
  key ← node_key_for t (some (key_url node_key_url url)) o.org_unit_id none
  ok (spec_of key t url (if subtree then subtree_priority_for t else priority_for t) o)

unfoldable pub org_node_spec : String → String → SpecOptions → Result String NodeSpec
unfolding node_key_for
org_node_spec org_unit_name url o = do
  key ← node_key_for org_unit none o.org_unit_id (some org_unit_name)
  ok (
      spec_of key org_unit url (priority_for org_unit)
        (record o { org_unit_name = some org_unit_name; confidence = none }))
