-- ===== src/Crawl/Extract/Settled.antt =====
-- A detail node that a worker takes is settled, and so is its attempt.
use dext.Base.{
  ℕ, ◌-◌, ◌≤◌, ◌≡◌, refl, sym, ap, ◌∙◌, subst, ◌⊎◌, String, Bool, true, false, Option, none, some,
  List, [], ◌∷◌, ◌++◌, map, Bool-cases, inl, inr, is_some, is_empty, nat_eq, ltb, All, Result, ok,
  raise, ◌==◌, arith,
}
use dext.Bridge.Fetcher.{text_or}
use dext.Crawl.Tables.{select_row, update_rows}
use dext.Crawl.Types.{OrgUnit, ExtractionAttempt, ExtractionFailure, Database}
use dext.Crawl.Retry.{ExtractionResult, classify_extraction_failure}
use dext.Crawl.Store.{
  DatabaseError, RowIds, node_exists, new_attempt, has_id, marked, mark_node, record_attempt,
  finish_attempt, find_done_detail_for_url,
}
use dext.Crawl.Store.Integrity.{ids_in}
use dext.Crawl.Store.Laws.{nat_elem→OneOf}
use dext.Crawl.Driver.{ExtractTask}
use dext.Crawl.Driver.Covered.{IsLeft}
use dext.Crawl.Driver.Kept.{select_row-id}
use dext.Crawl.People.{ProfessorPayload}
use dext.Crawl.People.OnePage.{one_page_inserts_one}
use dext.Crawl.Extract.{
  Storage, Ending, Extractor, is_valid_exclusion_reason, note, Outcome, mark_noted, conclude,
  payloads_with_system_homepage, duplicate_url, save_page, saved_ending, empty_ending,
  settle_extraction, or_save_error, conclude_extraction, after_record, process_extract_task,
}

-- Nothing is raised, the rows of the node are left in one of these statuses, and those of the attempt
-- are finished.
abbrev pub IsSettled : ℕ → ℕ → ℕ → Database × Option DatabaseError → Type 0
IsSettled node_id attempt_id now (db, raised) =
    (raised ≡ none)
    × All (λ n. ((nat_eq n.id node_id ≡ false) ⊎ IsLeft n.status)) db.nodes
    × All (λ a. ((nat_eq a.id attempt_id ≡ false) ⊎ (a.finished_at ≡ some now))) db.attempts

update_rows-hit :
    {Row : Type 0} (Q : Row → Type 0) (p : Row → Bool) (f : Row → Row) (rows : List Row)
    → ((r : Row) → Q (f r))
    → All (λ r. ((p r ≡ false) ⊎ Q r)) (update_rows p f rows)
unfolding update_rows
update_rows-hit Q p f [] hits = tt
update_rows-hit Q p f (r ∷ rows) hits = elim (Bool-cases (p r)) [
  | inl t ↦ rw (t, All) (inr (hits r), update_rows-hit Q p f rows hits)
  | inr e ↦ rw (e, All) (inl e, update_rows-hit Q p f rows hits)
]

pub select_row-last :
    {Row : Type 0} (p : Row → Bool) (rows : List Row) (r : Row)
    → p r ≡ true
    → is_some (select_row p (rows ++ r ∷ [])) ≡ true
unfolding select_row
select_row-last p [] r h = rw h refl
select_row-last p (x ∷ rows) r h = elim (Bool-cases (p x)) [
  | inl t ↦ rw t refl
  | inr f ↦ rw f (select_row-last p rows r h)
]

pub note-frame :
    (noted : Option ExtractionFailure) (db : Database)
    → ((note noted db).nodes ≡ db.nodes) × ((note noted db).attempts ≡ db.attempts)
unfolding note
note-frame none db = (refl, refl)
note-frame (some failure) db = (refl, refl)

abbrev pub HasNode : ℕ → Database → Type 0
HasNode id db = is_some (select_row (has_id id) db.nodes) ≡ true

abbrev pub HasAttempt : ℕ → Database → Type 0
HasAttempt id db = is_some (select_row (λ a. nat_eq a.id id) db.attempts) ≡ true

mark_noted-IsSettled :
    (node_id attempt_id now : ℕ) (ending : Ending) (db : Database)
    → IsLeft ending.node_status
    → HasNode node_id db
    → All (λ a. ((nat_eq a.id attempt_id ≡ false) ⊎ (a.finished_at ≡ some now))) db.attempts
    → IsSettled node_id attempt_id now (mark_noted node_id now ending (db, none))
unfolding mark_node
mark_noted-IsSettled node_id attempt_id now ending db left node attempts =
    let (nodes_same, attempts_same) = note-frame ending.noted db in
    let there : HasNode node_id (note ending.noted db) =
      ap (λ ns. is_some (select_row (has_id node_id) ns)) nodes_same ∙ node in
    rw there (
      refl,
      update_rows-hit (λ n. IsLeft n.status) (has_id node_id)
          (marked ending.node_status ending.last_error ending.content_hash none false now)
          (note ending.noted db).nodes (λ n. left),
      subst (All (λ a. ((nat_eq a.id attempt_id ≡ false) ⊎ (a.finished_at ≡ some now))))
          (sym attempts_same) attempts,
    )

pub conclude-IsSettled :
    (node_id attempt_id now : ℕ) (ending : Ending) (db : Database)
    → IsLeft ending.node_status
    → HasNode node_id db
    → HasAttempt attempt_id db
    → IsSettled node_id attempt_id now (conclude node_id attempt_id now ending db)
unfolding conclude finish_attempt
conclude-IsSettled node_id attempt_id now ending db left node attempt = rw attempt (
    mark_noted-IsSettled node_id attempt_id now ending _ left node (
      update_rows-hit (λ a. a.finished_at ≡ some now) (λ a. nat_eq a.id attempt_id) _ db.attempts
        (λ a. refl)))

classify-IsLeft :
    (failure_type : Option String) (recoverable : Bool) (index bound : ℕ)
    → IsLeft (classify_extraction_failure failure_type recoverable index bound).status
unfolding classify_extraction_failure
classify-IsLeft failure_type recoverable index bound =
    elim (Bool-cases (text_or failure_type "extraction_failed" == "invalid_json")) [
      | inl json ↦ elim (Bool-cases (ltb index bound)) [
        | inl more ↦ rw (json, more) tt
        | inr last ↦ rw (json, last) tt
      ]
      | inr other ↦
          elim (Bool-cases (text_or failure_type "extraction_failed" == "no_structured_data")) [
            | inl nothing ↦ elim (Bool-cases recoverable) [
              | inl can ↦ rw (other, nothing, can) tt
              | inr cannot ↦ rw (other, nothing, cannot) tt
            ]
            | inr else_where ↦ rw (other, else_where) tt
          ]
    ]

module _ (new_id : RowIds) (out : Extractor) where
  empty_ending-IsLeft :
      (task : ExtractTask) (r : ExtractionResult ProfessorPayload)
      → IsLeft (empty_ending new_id out task r).node_status
  empty_ending-IsLeft task r = elim (Bool-cases (is_valid_exclusion_reason r.exclusion_reason)) [
    | inl valid ↦ rw valid tt
    | inr invalid ↦ rw invalid (
        classify-IsLeft r.failure_type r.recoverable (task.attempt_count - 1)
          out.invalid_json_max_retry)
  ]

  saved_ending-IsLeft :
      (task : ExtractTask) (preview : String) (errors : ℕ)
      → IsLeft (saved_ending new_id out task preview errors).node_status
  saved_ending-IsLeft task preview errors = elim (Bool-cases (nat_eq errors 0)) [
    | inl all_saved ↦ rw all_saved tt
    | inr some_failed ↦ rw some_failed tt
  ]

  -- The ending leaves the node, and the extraction touches neither nodes nor attempts.
  abbrev pub Fits : Storage → Ending × Storage → Type 0
  Fits st (ending, saved) =
      IsLeft ending.node_status
      × (saved.db.nodes ≡ st.db.nodes)
      × (saved.db.attempts ≡ st.db.attempts)

  pub settle_extraction-Fits :
      (task : ExtractTask) (outcome : Result String (ExtractionResult ProfessorPayload))
      (st : Storage)
      → Fits st (settle_extraction new_id out task outcome st)
  unfolding settle_extraction save_page
  settle_extraction-Fits task (raise text) st = (tt, refl, refl)
  settle_extraction-Fits task (ok r) st = elim (Bool-cases (is_empty r.payloads)) [
    | inl none_found ↦ rw none_found (empty_ending-IsLeft task r, refl, refl)
    | inr found ↦ rw found (saved_ending-IsLeft task r.raw_preview _, refl, refl)
  ]

  or_save_error-id :
      (task : ExtractTask) (node_id attempt_id now : ℕ) (outcome : Outcome)
      → IsSettled node_id attempt_id now outcome
      → IsSettled node_id attempt_id now (or_save_error new_id out task attempt_id now outcome)
  or_save_error-id task node_id attempt_id now (db, none) settled = settled
  or_save_error-id task node_id attempt_id now (db, some error) (raised, nodes, attempts) =
      cc raised

  conclude_extraction-IsSettled :
      (task : ExtractTask) (attempt_id now : ℕ) (st : Storage) (reached : Ending × Storage)
      → Fits st reached
      → HasNode task.node_id st.db
      → HasAttempt attempt_id st.db
      → IsSettled task.node_id attempt_id now (
        (conclude_extraction new_id out task attempt_id now reached).0.db,
        (conclude_extraction new_id out task attempt_id now reached).1,
      )
  conclude_extraction-IsSettled task attempt_id now st (ending, saved) (left, nodes, attempts) node
        attempt =
      or_save_error-id task task.node_id attempt_id now
        (conclude task.node_id attempt_id now ending saved.db)
        (conclude-IsSettled task.node_id attempt_id now ending saved.db left
          (ap (λ ns. is_some (select_row (has_id task.node_id) ns)) nodes ∙ node)
          (ap
              (λ rows.
                is_some (select_row (λ (a : ExtractionAttempt). nat_eq a.id attempt_id) rows))
              attempts
            ∙ attempt))

  after_record-IsSettled :
      (reused : Option ℕ) (task : ExtractTask) (attempt_id now : ℕ) (st : Storage) (db : Database)
      → HasNode task.node_id db
      → HasAttempt attempt_id db
      → IsSettled task.node_id attempt_id now (
        (after_record new_id out reused task now st (ok (attempt_id, db))).0.db,
        (after_record new_id out reused task now st (ok (attempt_id, db))).1,
      )
  after_record-IsSettled (some r) task attempt_id now st db node attempt =
      conclude-IsSettled task.node_id attempt_id now (duplicate_url r task.snapshot) db tt node
        attempt
  after_record-IsSettled none task attempt_id now st db node attempt =
      let outcome =
        out.extract task.snapshot task.org_unit_id task.org_unit_name (task.attempt_count - 1) in
      conclude_extraction-IsSettled task attempt_id now (record st { db = db })
        (settle_extraction new_id out task outcome (record st { db = db }))
        (settle_extraction-Fits task outcome (record st { db = db })) node attempt

  -- A task whose node is in the tables is worked off without an exception, whatever the extraction
  -- returns or raises: in the end the node is not in progress but done, skipped, failed or to retry,
  -- and the attempt of the task is finished.
  pub process_extract_task-IsSettled :
      (task : ExtractTask) (now : ℕ) (st : Storage)
      → node_exists task.node_id st.db ≡ true
      → IsSettled task.node_id (new_id (map (λ (a : ExtractionAttempt). a.id) st.db.attempts)) now (
        (process_extract_task new_id out task now st).0.db,
        (process_extract_task new_id out task now st).1,
      )
  unfolding process_extract_task record_attempt
  process_extract_task-IsSettled task now st there =
      let id = new_id (map (λ (a : ExtractionAttempt). a.id) st.db.attempts) in
      let attempt =
        new_attempt id task.node_id task.attempt_count "running" (some task.snapshot.url) in
      rw there (
        after_record-IsSettled (find_done_detail_for_url task.snapshot.url task.node_id st.db) task
          id now st (record st.db { attempts = st.db.attempts ++ attempt ∷ [] })
          (select_row-id task.node_id st.db.nodes
            (nat_elem→OneOf task.node_id (ids_in st.db.nodes) there))
          (select_row-last (λ a. nat_eq a.id id) st.db.attempts attempt (ground arith)))

  All-homepage :
      (h : String) (payloads : List ProfessorPayload)
      → All (λ p. p.homepage ≡ some h) (payloads_with_system_homepage payloads h)
  All-homepage h [] = tt
  All-homepage h (p ∷ rest) = (refl, All-homepage h rest)

  -- However many professors the extraction finds on a page with an address, at most one is inserted:
  -- the worker gives all of them the address of the page as homepage, and the merge takes a professor
  -- of the same homepage for the same person.
  pub page_inserts_one_professor :
      (task : ExtractTask) (payloads : List ProfessorPayload) (st : Storage)
      → (task.snapshot.url == "") ≡ false
      → (save_page new_id out task payloads st).people.result.inserted ≤ 1
  unfolding save_page
  page_inserts_one_professor task payloads st solid =
      one_page_inserts_one new_id (map (λ (u : OrgUnit). u.id) st.db.org_units) out.py
        task.snapshot.url solid (payloads_with_system_homepage payloads task.snapshot.url)
        task.org_unit_id task.org_unit_name _ st.db.failures
        (All-homepage task.snapshot.url payloads) refl
