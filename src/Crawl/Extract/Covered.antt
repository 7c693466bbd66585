-- ===== src/Crawl/Extract/Covered.antt =====
-- A worked-off task needs no task any more: its node is not in progress.
use dext.Base.{
  ℕ, ◌-◌, ◌≡◌, sym, ap, ◌∙◌, subst, false, Option, none, some, List, [], ◌∷◌, ◌++◌, map, nat_eq,
  nat_elem, Bool-cases, inl, inr, is_some, ok, arith,
}
use dext.Crawl.Tables.{select_row}
use dext.Crawl.Types.{GraphNode, ExtractionAttempt, Database}
use dext.Crawl.Store.{
  RowIds, node_exists, new_attempt, has_id, mark_node, record_attempt, finish_attempt,
  find_done_detail_for_url,
}
use dext.Crawl.Store.Integrity.{ids_in}
use dext.Crawl.Store.Laws.{nat_elem→OneOf}
use dext.Crawl.Driver.{ExtractTask}
use dext.Crawl.Driver.Covered.{IsLeft, Covers, Covers-mark}
use dext.Crawl.Driver.Kept.{select_row-id}
use dext.Crawl.Extract.{
  Storage, Ending, Extractor, note, Outcome, mark_noted, conclude, duplicate_url, settle_extraction,
  or_save_error, conclude_extraction, after_record, process_extract_task,
}
use dext.Crawl.Extract.Settled.{
  select_row-last, note-frame, HasNode, HasAttempt, conclude-IsSettled, Fits,
  settle_extraction-Fits,
}

module _ (ids : List ℕ) where
  mark_noted-Covers :
      (node_id now : ℕ) (ending : Ending) (db : Database)
      → IsLeft ending.node_status
      → HasNode node_id db
      → Covers (node_id ∷ ids) db.nodes
      → Covers ids (mark_noted node_id now ending (db, none)).0.nodes
  unfolding mark_node
  mark_noted-Covers node_id now ending db left node covered =
      let same = (note-frame ending.noted db).0 in
      let there : HasNode node_id (note ending.noted db) =
        ap (λ ns. is_some (select_row (has_id node_id) ns)) same ∙ node in
      rw there (
        Covers-mark ids node_id now ending.node_status ending.last_error ending.content_hash
          (note ending.noted db).nodes left (subst (Covers (node_id ∷ ids)) (sym same) covered))

  conclude-Covers :
      (node_id attempt_id now : ℕ) (ending : Ending) (db : Database)
      → IsLeft ending.node_status
      → HasNode node_id db
      → HasAttempt attempt_id db
      → Covers (node_id ∷ ids) db.nodes
      → Covers ids (conclude node_id attempt_id now ending db).0.nodes
  unfolding conclude finish_attempt
  conclude-Covers node_id attempt_id now ending db left node attempt covered =
      rw attempt (mark_noted-Covers node_id now ending _ left node covered)

  module _ (new_id : RowIds) (out : Extractor) where
    or_save_error-Covers :
        (task : ExtractTask) (attempt_id now : ℕ) (outcome : Outcome)
        → outcome.1 ≡ none
        → Covers ids outcome.0.nodes
        → Covers ids (or_save_error new_id out task attempt_id now outcome).0.nodes
    or_save_error-Covers task attempt_id now (db, none) returned covered = covered
    or_save_error-Covers task attempt_id now (db, some error) returned covered = cc returned

    conclude_extraction-Covers :
        (task : ExtractTask) (attempt_id now : ℕ) (st : Storage) (reached : Ending × Storage)
        → Fits new_id out st reached
        → HasNode task.node_id st.db
        → HasAttempt attempt_id st.db
        → Covers (task.node_id ∷ ids) st.db.nodes
        → Covers ids (conclude_extraction new_id out task attempt_id now reached).0.db.nodes
    conclude_extraction-Covers task attempt_id now st (ending, saved) (left, nodes, attempts) node
          attempt covered =
        let here = ap (λ ns. is_some (select_row (has_id task.node_id) ns)) nodes ∙ node in
        let held =
          ap (λ rows. is_some (select_row (λ (a : ExtractionAttempt). nat_eq a.id attempt_id) rows))
            attempts
          ∙ attempt in
        or_save_error-Covers task attempt_id now
          (conclude task.node_id attempt_id now ending saved.db)
          (conclude-IsSettled task.node_id attempt_id now ending saved.db left here held).0
          (conclude-Covers task.node_id attempt_id now ending saved.db left here held
            (subst (Covers (task.node_id ∷ ids)) (sym nodes) covered))

    after_record-Covers :
        (reused : Option ℕ) (task : ExtractTask) (attempt_id now : ℕ) (st : Storage) (db : Database)
        → HasNode task.node_id db
        → HasAttempt attempt_id db
        → Covers (task.node_id ∷ ids) db.nodes
        → Covers ids (after_record new_id out reused task now st (ok (attempt_id, db))).0.db.nodes
    after_record-Covers (some r) task attempt_id now st db node attempt covered =
        conclude-Covers task.node_id attempt_id now (duplicate_url r task.snapshot) db tt node
          attempt covered
    after_record-Covers none task attempt_id now st db node attempt covered =
        let outcome =
          out.extract task.snapshot task.org_unit_id task.org_unit_name (task.attempt_count - 1) in
        conclude_extraction-Covers task attempt_id now (record st { db = db })
          (settle_extraction new_id out task outcome (record st { db = db }))
          (settle_extraction-Fits new_id out task outcome (record st { db = db })) node attempt
          covered

  -- Without a row of the id there is nothing that its task covers.
  Covers-absent :
      (id : ℕ) (nodes : List GraphNode)
      → nat_elem id (ids_in nodes) ≡ false
      → Covers (id ∷ ids) nodes
      → Covers ids nodes
  Covers-absent id [] absent h = tt
  Covers-absent id (n ∷ nodes) absent (h, rest) = elim (Bool-cases (nat_eq id n.id)) [
    | inl t ↦ let bad = rw t at absent in cc bad
    | inr f ↦
        let later = Covers-absent id nodes (rw f at absent) rest in
        elim h [
          | inl idle ↦ (inl idle, later)
          | inr one ↦ elim one [
            | inl same ↦ ground (arith, f, same)
            | inr there ↦ (inr there, later)
          ]
        ]
  ]

  pub process_extract_task-Covers :
      (new_id : RowIds) (out : Extractor) (task : ExtractTask) (now : ℕ) (st : Storage)
      → Covers (task.node_id ∷ ids) st.db.nodes
      → Covers ids (process_extract_task new_id out task now st).0.db.nodes
  unfolding process_extract_task record_attempt
  process_extract_task-Covers new_id out task now st covered =
      elim (Bool-cases (node_exists task.node_id st.db)) [
        | inr absent ↦ rw absent (Covers-absent task.node_id st.db.nodes absent covered)
        | inl there ↦
            let id = new_id (map (λ (a : ExtractionAttempt). a.id) st.db.attempts) in
            let attempt =
              new_attempt id task.node_id task.attempt_count "running" (some task.snapshot.url) in
            rw there (
              after_record-Covers new_id out
                (find_done_detail_for_url task.snapshot.url task.node_id st.db) task id now st
                (record st.db { attempts = st.db.attempts ++ attempt ∷ [] })
                (select_row-id task.node_id st.db.nodes
                  (nat_elem→OneOf task.node_id (ids_in st.db.nodes) there))
                (select_row-last (λ a. nat_eq a.id id) st.db.attempts attempt (ground arith))
                covered)
      ]
