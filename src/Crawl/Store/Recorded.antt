-- ===== src/Crawl/Store/Recorded.antt =====
-- The row of a run, from its start to its end.
use dext.Base.{ℕ, ◌≡◌, String, Bool, Option, some, List, [], ◌∷◌, map, nat_eq}
use dext.Crawl.Types.{CrawlRun, UniversityMeta}
use dext.Crawl.Store.{fill}

abbrev has_run_id : ℕ → CrawlRun → Bool
has_run_id id r = nat_eq r.id id

abbrev run_ids : List CrawlRun → List ℕ
run_ids runs = map (λ (r : CrawlRun). r.id) runs

-- What the end of a run writes into its row.
abbrev pub ended : String → Option String → ℕ → CrawlRun → CrawlRun
ended status summary now r = record r {
  status = status;
  finished_at = some now;
  summary = fill summary r.summary;
}

-- The university's row, if there is one, has the run as its last.
abbrev pub NamesRun : ℕ → List UniversityMeta → Type 0
NamesRun id [] = Unit
NamesRun id (meta ∷ rest) = meta.last_run_id ≡ some id
