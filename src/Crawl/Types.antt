-- ===== src/Crawl/Types.antt =====
-- storage/models.py, storage/writer.py: nodes, edges, caches, and what commands take and return.
use dext.Base.{ℕ, String, Option, List}
use dext.Repositories.Snapshots.{Json}
use dext.Bridge.Types.{FetchAction}

pub data NodeType : Type 0 where
  org_listing_url org_unit faculty_list_url pagination_url faculty_followup_url detail_url :
      NodeType

-- The values of the enumeration, by which it compares.
abbrev pub type_value : NodeType → String
type_value org_listing_url = "org_listing_url"
type_value org_unit = "org_unit"
type_value faculty_list_url = "faculty_list_url"
type_value pagination_url = "pagination_url"
type_value faculty_followup_url = "faculty_followup_url"
type_value detail_url = "detail_url"

pub data EdgeType : Type 0 where
  seeded_from_manifest discovered_on_page belongs_to_org_unit pagination_of detail_candidate_of
        blocked_by :
      EdgeType

abbrev pub edge_value : EdgeType → String
edge_value seeded_from_manifest = "seeded_from_manifest"
edge_value discovered_on_page = "discovered_on_page"
edge_value belongs_to_org_unit = "belongs_to_org_unit"
edge_value pagination_of = "pagination_of"
edge_value detail_candidate_of = "detail_candidate_of"
edge_value blocked_by = "blocked_by"

pub data NodeStatus : Type 0 where
  pending in_progress retry done failed skipped : NodeStatus

abbrev pub status_value : NodeStatus → String
status_value pending = "pending"
status_value in_progress = "in_progress"
status_value retry = "retry"
status_value done = "done"
status_value failed = "failed"
status_value skipped = "skipped"

abbrev pub Metadata : Type 0
Metadata = List (String × Json)

-- Priorities are whole numbers, and of a confidence, which is only stored, any number stands for it.
-- An instant is a number in the order of its ISO text.
pub record GraphNode : Type 0 where
  pub id : ℕ
  pub node_key : String
  pub node_type : NodeType
  pub url : String
  pub org_unit_id : Option ℕ
  pub org_unit_name : Option String
  pub status : NodeStatus
  pub priority_score : ℕ
  pub base_priority : ℕ
  pub confidence : Option ℕ
  pub depth : ℕ
  pub attempt_count : ℕ
  pub max_attempts : ℕ
  pub last_error : Option String
  pub run_id : Option ℕ
  pub claimed_at : Option ℕ
  pub completed_at : Option ℕ
  pub next_retry_at : Option ℕ
  pub content_hash : Option String
  pub metadata : Option Metadata

pub record GraphEdge : Type 0 where
  pub id : ℕ
  pub from_node_id : ℕ
  pub to_node_id : ℕ
  pub edge_type : EdgeType
  pub confidence : Option ℕ
  pub metadata : Option Metadata

pub record OrgUnit : Type 0 where
  pub id : ℕ
  pub name : String
  pub url : String
  pub kind : Option String
  pub status : String
  pub discovered_from_url : Option String

-- Links, signals and fetch actions are only stored: they stand as their JSON text.
pub record PageCache : Type 0 where
  pub url : String
  pub final_url : Option String
  pub status_code : Option ℕ
  pub text_snapshot : Option String
  pub links : Option (List String)
  pub link_signals : Option (List String)
  pub block_reason : Option String
  pub html_snapshot : Option String
  pub page_hash : Option String
  pub title : Option String
  pub fetch_action : Option FetchAction
  pub snapshot_encoding : String

pub record ExtractionAttempt : Type 0 where
  pub id : ℕ
  pub graph_node_id : ℕ
  pub attempt : ℕ
  pub status : String
  pub prompt_hash : Option String
  pub input_cache_url : Option String
  pub raw_output_preview : Option String
  pub failure_type : Option String
  pub finished_at : Option ℕ

pub record ExtractionFailure : Type 0 where
  pub failure_type : Option String
  pub resolver : Option String
  pub raw_arguments_preview : Option String
  pub professor_name_hint : Option String
  pub source_url : Option String

pub record OrgUnitSpec : Type 0 where
  pub name : String
  pub url : String
  pub kind : String
  pub status : String
  pub discovered_from_url : Option String

pub record NodeSpec : Type 0 where
  pub node_key : String
  pub node_type : NodeType
  pub url : String
  pub org_unit_id : Option ℕ
  pub org_unit_name : Option String
  pub status : NodeStatus
  pub priority_score : ℕ
  pub base_priority : ℕ
  pub confidence : Option ℕ
  pub depth : ℕ
  pub max_attempts : ℕ
  pub run_id : Option ℕ
  pub metadata : Option Metadata

pub record ClaimedNode : Type 0 where
  pub id : ℕ
  pub node_key : String
  pub node_type : NodeType
  pub url : String
  pub org_unit_id : Option ℕ
  pub org_unit_name : Option String
  pub depth : ℕ
  pub attempt_count : ℕ
  pub priority_score : ℕ
  pub content_hash : Option String
  pub metadata : Option Metadata

-- `CrawlRun`; settings and summary are only stored and stand as their JSON text.
pub record CrawlRun : Type 0 where
  pub id : ℕ
  pub mode : String
  pub started_at : Option ℕ
  pub finished_at : Option ℕ
  pub status : String
  pub backup_path : Option String
  pub settings : Option String
  pub summary : Option String

-- The columns of `UniversityMeta` that the writer sets, and its id.
pub record UniversityMeta : Type 0 where
  pub id : ℕ
  pub crawl_status : String
  pub last_run_id : Option ℕ

-- The tables that the crawl writes.
pub record Database : Type 0 where
  pub org_units : List OrgUnit
  pub nodes : List GraphNode
  pub edges : List GraphEdge
  pub caches : List PageCache
  pub attempts : List ExtractionAttempt
  pub failures : List ExtractionFailure
  pub runs : List CrawlRun
  pub university : List UniversityMeta

-- `PageSnapshot`, what page parsing makes of a page
pub record PageSnapshot : Type 0 where
  pub url : String
  pub final_url : String
  pub title : String
  pub text_snapshot : String
  pub links : List String
  pub link_signals : List String
  pub content_hash : String
