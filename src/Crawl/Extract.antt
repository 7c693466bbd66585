-- ===== src/Crawl/Extract.antt =====
-- engine/workers.py: a worker takes a detail page, extracts its professors and settles its node.
pub mod Settled
pub mod Covered
use dext.Base.{
  ℕ, ◌+◌, ◌-◌, String, Bool, true, false, not, ◌&&◌, Option, none, some, List, [], ◌∷◌, ◌++◌, map,
  nat_eq, elem, is_empty, or_else, append, Result, ok, raise, ◌>>=◌, if◌then◌else◌, ◌==◌,
}
use dext.Base.Text.{decimal}
use dext.Crawl.Types.{
  NodeStatus, done, failed, skipped, retry, OrgUnit, ExtractionFailure, Database, PageSnapshot,
}
use dext.Crawl.Retry.{RetryDecision, ExtractionResult, classify_extraction_failure}
use dext.Crawl.Store.{
  DatabaseError, RowIds, same_status, mark_node, find_done_detail_for_url, record_attempt,
  finish_attempt, record_failure,
}
use dext.Crawl.People.{ProfessorPayload, SaveResult, People, PythonTexts, save_professors, given}
use dext.Crawl.Driver.{ExtractTask}

-- The tables, those of people included.
pub record Storage : Type 0 where
  pub db : Database
  pub people : People

-- How an attempt ends: what is written of the attempt, what is noted as a failure, and what is written
-- of the node.
pub record Ending : Type 0 where
  pub attempt_status : String
  pub raw_preview : Option String
  pub attempt_failure : Option String
  pub noted : Option ExtractionFailure
  pub node_status : NodeStatus
  pub last_error : Option String
  pub content_hash : Option String

-- `extract_professors`, which asks a language model and raises with some text, and texts of Python.
pub record Extractor : Type 0 where
  pub extract :
      PageSnapshot → Option ℕ → String → ℕ → Result String (ExtractionResult ProfessorPayload)
  pub error_text : DatabaseError → String
  pub py : PythonTexts
  pub invalid_json_max_retry : ℕ

-- The codes of `EXCLUSION_CATEGORIES`
abbrev exclusion_codes : List String
exclusion_codes =
    "sino_foreign_joint" ∷ "arts" ∷ "sports" ∷ "continuing_education" ∷ "basic_education_center"
    ∷ "experiment_center" ∷ "under_construction" ∷ "excellence_engineer" ∷ "academy"
    ∷ "namesake_college" ∷ "freshman_college" ∷ "postdoc" ∷ "retired" ∷ "administration"
    ∷ "support_role" ∷ "personnel_work" ∷ "party_building" ∷ "student_affairs" ∷ "finance_admin"
    ∷ "lecture_event" ∷ "visiting_professor" ∷ "industry_mentor" ∷ "foreign_faculty"
    ∷ "adjunct_mentor" ∷ []

unfoldable pub is_valid_exclusion_reason : Option String → Bool
is_valid_exclusion_reason none = false
is_valid_exclusion_reason (some code) = not (code == "") && elem code exclusion_codes

abbrev pub note : Option ExtractionFailure → Database → Database
unfolding record_failure
note none db = db
note (some failure) db = record_failure failure db

-- The tables that commands leave, each committed by itself, and what the last of them has raised.
abbrev pub Outcome : Type 0
Outcome = Database × Option DatabaseError

abbrev pub committed : Result DatabaseError Database → Database → Outcome
committed (ok db) before = (db, none)
committed (raise error) before = (before, some error)

abbrev pub mark_noted : ℕ → ℕ → Ending → Outcome → Outcome
mark_noted node_id now ending (db, some error) = (db, some error)
mark_noted node_id now ending (db, none) =
    let noted = note ending.noted db in
    committed
      (mark_node node_id ending.node_status ending.last_error ending.content_hash none false now
        noted)
      noted

-- The attempt is finished, then a failure is noted, then the node is marked.
unfoldable pub conclude : ℕ → ℕ → ℕ → Ending → Database → Outcome
unfolding finish_attempt mark_node note
conclude node_id attempt_id now ending db = mark_noted node_id now ending (
    committed
      (finish_attempt attempt_id ending.attempt_status ending.raw_preview ending.attempt_failure now
        db)
      db)

abbrev pub payloads_with_system_homepage : List ProfessorPayload → String → List ProfessorPayload
payloads_with_system_homepage payloads homepage =
    map {A = ProfessorPayload} {B = ProfessorPayload} (λ p. record p { homepage = some homepage })
      payloads

abbrev noted_failure : Option String → Option String → String → String → ExtractionFailure
noted_failure failure_type resolver preview source_url = record {
  failure_type = failure_type;
  resolver = resolver;
  raw_arguments_preview = some preview;
  professor_name_hint = none;
  source_url = some source_url;
}

abbrev pub duplicate_url : ℕ → PageSnapshot → Ending
duplicate_url reused snapshot = record {
  attempt_status = "skipped";
  raw_preview = none;
  attempt_failure = some "duplicate_url";
  noted = none;
  node_status = done;
  last_error = some (append "duplicate_url_reused:" (decimal reused));
  content_hash = some snapshot.content_hash;
}

abbrev pub save_error : String → String → Ending
save_error preview source_url = record {
  attempt_status = "failed";
  raw_preview = some preview;
  attempt_failure = some "save_error";
  noted = some (noted_failure (some "save_error") (some "dropped") preview source_url);
  node_status = failed;
  last_error = some "save_error";
  content_hash = none;
}

abbrev pub succeeded : String → PageSnapshot → Ending
succeeded preview snapshot = record {
  attempt_status = "succeeded";
  raw_preview = some preview;
  attempt_failure = none;
  noted = none;
  node_status = done;
  last_error = none;
  content_hash = some snapshot.content_hash;
}

abbrev pub excluded : String → Option String → Ending
excluded preview reason = record {
  attempt_status = "skipped";
  raw_preview = some preview;
  attempt_failure = some "excluded";
  noted = none;
  node_status = skipped;
  last_error = some (append "excluded:" (or_else reason ""));
  content_hash = none;
}

abbrev pub unextracted : RetryDecision → Option String → String → String → Ending
unextracted decision failure_type preview source_url = record {
  attempt_status = if same_status decision.status retry then "retry" else "failed";
  raw_preview = some preview;
  attempt_failure = failure_type;
  noted = some (noted_failure failure_type decision.resolver preview source_url);
  node_status = decision.status;
  last_error = decision.last_error;
  content_hash = none;
}

abbrev pub no_result : SaveResult
no_result = record {
  inserted = 0;
  updated = 0;
  affiliations_added = 0;
  academicians = 0;
  save_errors = 0;
}

module _ (new_id : RowIds) (out : Extractor) where
  open out use {extract, error_text, py, invalid_json_max_retry}

  -- The payloads of a page, with its address, are saved.
  unfoldable pub save_page : ExtractTask → List ProfessorPayload → Storage → Storage
  unfolding save_professors
  save_page task payloads st =
      let (people, failures) =
        save_professors new_id (map (λ (u : OrgUnit). u.id) st.db.org_units) py
          (payloads_with_system_homepage payloads task.snapshot.url) task.org_unit_id
          task.org_unit_name (record st.people { result = no_result }, st.db.failures) in
      record { db = record st.db { failures = failures }; people = people }

  abbrev pub saved_ending : ExtractTask → String → ℕ → Ending
  saved_ending task preview save_errors =
      if nat_eq save_errors 0
      then succeeded preview task.snapshot
      else save_error preview task.snapshot.url

  abbrev pub empty_ending : ExtractTask → ExtractionResult ProfessorPayload → Ending
  empty_ending task r =
      if is_valid_exclusion_reason r.exclusion_reason
      then excluded r.raw_preview r.exclusion_reason
      else unextracted
          (classify_extraction_failure r.failure_type r.recoverable (task.attempt_count - 1)
            invalid_json_max_retry)
          r.failure_type r.raw_preview task.snapshot.url

  -- What the outcome of the extraction leads to, the professors saved.
  unfoldable pub settle_extraction :
      ExtractTask → Result String (ExtractionResult ProfessorPayload) → Storage → Ending × Storage
  unfolding save_page is_valid_exclusion_reason classify_extraction_failure
  settle_extraction task (raise text) st = (save_error text task.snapshot.url, st)
  settle_extraction task (ok r) st =
      if is_empty r.payloads
      then (empty_ending task r, st)
      else (let saved = save_page task r.payloads st in
          (saved_ending task r.raw_preview saved.people.result.save_errors, saved))

  -- The except clause, for what the commands raise
  abbrev pub or_save_error : ExtractTask → ℕ → ℕ → Outcome → Outcome
  or_save_error task attempt_id now (db, none) = (db, none)
  or_save_error task attempt_id now (db, some error) =
      conclude task.node_id attempt_id now (save_error (error_text error) task.snapshot.url) db

  abbrev pub with_people : People → Outcome → Storage × Option DatabaseError
  with_people people (db, raised) = (record { db = db; people = people }, raised)

  abbrev pub conclude_extraction :
      ExtractTask → ℕ → ℕ → Ending × Storage → Storage × Option DatabaseError
  conclude_extraction task attempt_id now (ending, saved) =
      with_people saved.people
        (or_save_error task attempt_id now (conclude task.node_id attempt_id now ending saved.db))

  abbrev pub after_record :
      Option ℕ
      → ExtractTask
      → ℕ
      → Storage
      → Result DatabaseError (ℕ × Database)
      → Storage × Option DatabaseError
  after_record reused task now st (raise error) = (st, some error)
  after_record (some reused) task now st (ok (attempt_id, db)) =
      with_people st.people
        (conclude task.node_id attempt_id now (duplicate_url reused task.snapshot) db)
  after_record none task now st (ok (attempt_id, db)) = conclude_extraction task attempt_id now (
      settle_extraction task
        (extract task.snapshot task.org_unit_id task.org_unit_name (task.attempt_count - 1))
        (record st { db = db }))

  -- The tables at the end, and what was raised out of the task.
  unfoldable pub process_extract_task : ExtractTask → ℕ → Storage → Storage × Option DatabaseError
  unfolding find_done_detail_for_url record_attempt settle_extraction conclude
  process_extract_task task now st =
      after_record (find_done_detail_for_url task.snapshot.url task.node_id st.db) task now st (
        record_attempt new_id task.node_id task.attempt_count "running" (some task.snapshot.url)
          st.db)
