-- ===== src/Crawl/Store/Runs.antt =====
-- storage/writer.py: the commands on the rows of crawl runs and of the university.
use dext.Base.{
  ℕ, String, Bool, Option, none, some, List, [], ◌∷◌, ◌++◌, map, nat_eq, is_some, Result, ok, raise,
  if◌then◌else◌,
}
use dext.Crawl.Tables.{select_row, update_rows}
use dext.Crawl.Types.{CrawlRun, UniversityMeta, Database}
use dext.Crawl.Store.Rows.{DatabaseError, RowIds, fill, no_result_found}

abbrev pub new_run : ℕ → String → Option String → Option String → ℕ → CrawlRun
new_run id mode settings backup_path now = record {
  id = id;
  mode = mode;
  started_at = some now;
  finished_at = none;
  status = "running";
  backup_path = backup_path;
  settings = settings;
  summary = none;
}

-- `scalars().first()` of the university's row, which is written if there is one.
abbrev pub update_first :
    (UniversityMeta → UniversityMeta) → List UniversityMeta → List UniversityMeta
update_first f [] = []
update_first f (meta ∷ rest) = f meta ∷ rest

module _ (new_id : RowIds) where
  unfoldable pub start_run : String → Option String → Option String → ℕ → Database → ℕ × Database
  start_run mode settings backup_path now db =
      let id = new_id (map (λ (r : CrawlRun). r.id) db.runs) in
      (
        id,
        record db {
          runs = db.runs ++ new_run id mode settings backup_path now ∷ [];
          university = update_first (λ m. record m { last_run_id = some id }) db.university;
        },
      )

unfoldable pub finish_run :
    ℕ → String → Option String → ℕ → Database → Result DatabaseError Database
unfolding select_row update_rows
finish_run id status summary now db =
    let chosen : CrawlRun → Bool = λ r. nat_eq r.id id in
    if is_some (select_row chosen db.runs)
    then ok (record db {
      runs =
          update_rows chosen
            (λ r. record r {
              status = status;
              finished_at = some now;
              summary = fill summary r.summary;
            })
            db.runs;
    })
    else raise no_result_found

unfoldable pub update_university_status : String → Database → Database
update_university_status status db = record db {
  university = update_first (λ m. record m { crawl_status = status }) db.university;
}
