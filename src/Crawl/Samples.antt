-- ===== src/Crawl/Samples.antt =====
-- Data for concrete runs of the crawl: a unit with one list page and one detail page.
use dext.Base.{ℕ, suc, String, false, none, some, List, [], ◌∷◌, max, ok, raise}
use dext.Bridge.Types.{FetchResult}
use dext.Crawl.Types.{
  NodeType, faculty_list_url, detail_url, pending, GraphNode, OrgUnit, PageCache, ClaimedNode,
  PageSnapshot, Database,
}
use dext.Crawl.Store.{RowIds}
use dext.Crawl.Claim.{ClaimQuery}
use dext.Crawl.Driver.{
  CrawlSummary, Outcome, ExtractTask, Engine, Outside, Pass, handled, sleeps, finished,
  failed_cache,
}
use dext.Crawl.People.{ProfessorPayload}
use dext.Crawl.Extract.{Storage, Extractor}
use dext.Crawl.Run.{CrawlState, Event, drive, take_task, work_off}

abbrev pub node_of : ℕ → String → NodeType → ℕ → GraphNode
node_of id url t priority = record {
  id = id;
  node_key = url;
  node_type = t;
  url = url;
  org_unit_id = some 1;
  org_unit_name = some "School of Computing";
  status = pending;
  priority_score = priority;
  base_priority = priority;
  confidence = none;
  depth = 1;
  attempt_count = 0;
  max_attempts = 3;
  last_error = none;
  run_id = none;
  claimed_at = none;
  completed_at = none;
  next_retry_at = none;
  content_hash = none;
  metadata = none;
}

abbrev pub list_url : String
list_url = "https://cs.x.edu.cn/teachers"

abbrev pub ada_url : String
ada_url = "https://cs.x.edu.cn/ada"

abbrev pub computing : OrgUnit
computing = record {
  id = 1;
  name = "School of Computing";
  url = "https://cs.x.edu.cn/";
  kind = none;
  status = "pending";
  discovered_from_url = none;
}

abbrev pub two_nodes : Database
two_nodes = record {
  org_units = computing ∷ [];
  nodes = node_of 1 list_url faculty_list_url 70 ∷ node_of 2 ada_url detail_url 100 ∷ [];
  edges = [];
  caches = [];
  attempts = [];
  failures = [];
  runs = [];
  university = record { id = 1; crawl_status = "pending"; last_run_id = none } ∷ [];
}

abbrev pub any_node : ClaimQuery
any_node = record { exclude_node_keys = []; types = []; org_unit_ids = [] }

-- One more than the highest id.
abbrev pub highest : List ℕ → ℕ
highest [] = 0
highest (id ∷ ids) = max id (highest ids)

abbrev pub next_id : RowIds
next_id ids = suc (highest ids)

abbrev pub nothing_yet : CrawlSummary
nothing_yet = record {
  fetched = 0;
  fetch_failed = 0;
  dispatched = 0;
  done_nodes = 0;
  failed_nodes = 0;
  skipped_nodes = 0;
  retry_nodes = 0;
  pending_nodes = 0;
  in_progress_nodes = 0;
  professors = 0;
  status = "running";
}

abbrev pub engine : Engine
engine = record {
  db = two_nodes;
  run_id = 7;
  org_unit_ids = [];
  attempted = [];
  throttle = record { base_ms = 2000; max_ms = 60000; wait_until = 0; attempt = 0 };
  summary = nothing_yet;
  decision_queue = [];
  extract_queue = [];
  decisions_in_flight = 0;
  extractions_in_flight = 0;
}

abbrev pub timeout_of : String → FetchResult
timeout_of url = record {
  requested_url = url;
  final_url = url;
  html = "";
  title = "";
  status_code = none;
  block_reason = some "fetch_timeout";
  pagination_states = [];
  identity_url = url;
}

abbrev pub page_of : String → FetchResult
page_of url = record (timeout_of url) { html = "<a href='http://[x'>"; block_reason = none }

abbrev pub ada_page : PageSnapshot
ada_page = record {
  url = ada_url;
  final_url = ada_url;
  title = "Ada";
  text_snapshot = "Ada, professor of computing";
  links = [];
  link_signals = [];
  content_hash = "a1";
}

-- Every fetch times out.
abbrev pub outside : Outside
outside = record {
  fetch_page = λ node url action. ok (timeout_of url);
  build_snapshot = λ html url final_url title. ok ada_page;
  fetch_action_from_metadata = λ metadata. none;
  texts_used = record { lower = λ s. s; mentions_404 = λ s. false };
}

abbrev pub ada_claimed : ClaimedNode
ada_claimed = record {
  id = 2;
  node_key = ada_url;
  node_type = detail_url;
  url = ada_url;
  org_unit_id = some 1;
  org_unit_name = some "School of Computing";
  depth = 1;
  attempt_count = 1;
  priority_score = 100;
  content_hash = none;
  metadata = none;
}

abbrev pub engine_of : Pass → Engine
engine_of (handled node e) = e
engine_of (finished e) = e
engine_of (sleeps e) = e
engine_of _ = engine

abbrev pub ada_cache : PageCache
ada_cache = failed_cache (timeout_of ada_url)

abbrev pub engine_in : Outcome → Engine
engine_in (ok e) = e
engine_in (raise error) = engine

abbrev pub payload_of : String → ProfessorPayload
payload_of name = record {
  name = name;
  title = some "professor";
  research_areas = none;
  email = none;
  phone = none;
  homepage = none;
  external_link = none;
  bio = none;
  enrollment_pref = none;
  publications = none;
}

abbrev pub extractor : Extractor
extractor = record {
  extract = λ snapshot unit name attempt. ok (record {
    payloads = payload_of "Ada" ∷ payload_of "Grace" ∷ [];
    failure_type = none;
    raw_preview = "two";
    recoverable = false;
    exclusion_reason = none;
  });
  error_text = λ e. "error";
  py = record { nfkc = λ s. s; casefold = λ s. s; preview = λ p. p.name };
  invalid_json_max_retry = 1;
}

abbrev pub storage : Storage
storage = record {
  db = two_nodes;
  people = record {
    professors = [];
    affiliations = [];
    academicians = [];
    result = record {
      inserted = 0;
      updated = 0;
      affiliations_added = 0;
      academicians = 0;
      save_errors = 0;
    };
  };
}

abbrev pub ada_task : ExtractTask
ada_task = record {
  node_id = 2;
  node_key = ada_url;
  snapshot = ada_page;
  org_unit_id = some 1;
  org_unit_name = "School of Computing";
  attempt_count = 1;
}

abbrev pub crawling : CrawlState
crawling = record { engine = engine; people = storage.people; taken = []; crashed = none }

abbrev pub detail_events : List Event
detail_events = drive 1000 ∷ take_task ∷ work_off 0 2000 ∷ drive 3000 ∷ []
