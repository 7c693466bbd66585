-- ===== src/Crawl/People.antt =====
-- storage/dedup.py: professors and academicians, merged as they are saved.
mod Rows
pub mod Frame
pub mod OnePage
unfoldable pub use Rows.{merge_fill, merge_changes, drop_dots, name_key, one_or_none}
pub use Rows.{
  ProfessorPayload, Professor, Academician, ProfessorAffiliation, SaveResult, People, given, equals,
  fill_empty, looks_like_academician, PythonTexts, in_unit, count_updated, or_search, is_affiliated,
  or_first,
}
use Prim.Native.Char.{code}
use dext.Base.{
  ℕ, ◌+◌, String, Bool, true, false, not, ◌&&◌, ◌||◌, Option, none, some, List, [], ◌∷◌, ◌++◌, map,
  nat_eq, nat_elem, is_some, is_empty, or_else, any, keep_if, Result, ok, raise, ◌>>=◌,
  if◌then◌else◌, ◌==◌,
}
use dext.Base.Text.{strip}
use dext.Crawl.Tables.{select_row, update_rows}
use dext.Crawl.Types.{ExtractionFailure}
use dext.Crawl.Retry.{contains}
use dext.Crawl.Store.{DatabaseError, integrity_error, multiple_results_found, RowIds}

-- The ids of the units that are there, for the foreign keys.
module _ (new_id : RowIds) (units : List ℕ) (py : PythonTexts) where
  abbrev pub checked_unit : Option ℕ → Result DatabaseError ℕ
  checked_unit none = raise (integrity_error "org_unit_id")
  checked_unit (some id) =
      if nat_elem id units then ok id else raise (integrity_error "org_unit_id")

  abbrev pub affiliate :
      Option ProfessorAffiliation → ℕ → Option ℕ → People → Result DatabaseError People
  affiliate (some existing) professor_id org_unit_id s = ok s
  affiliate none professor_id org_unit_id s = do
    unit ← checked_unit org_unit_id
    ok (record s {
      affiliations =
          s.affiliations
          ++ record {
            id = new_id (map (λ (a : ProfessorAffiliation). a.id) s.affiliations);
            professor_id = professor_id;
            org_unit_id = unit;
          }
            ∷ [];
      result = record s.result { affiliations_added = s.result.affiliations_added + 1 };
    })

  unfoldable pub ensure_affiliation : ℕ → Option ℕ → People → Result DatabaseError People
  unfolding one_or_none
  ensure_affiliation professor_id org_unit_id s = do
    exists ← one_or_none (
        keep_if (λ a. nat_eq a.professor_id professor_id && in_unit org_unit_id a.org_unit_id)
          s.affiliations)
    affiliate exists professor_id org_unit_id s

  unfoldable pub find_academician :
      ProfessorPayload → String → Option ℕ → People → Result DatabaseError (Option Academician)
  unfolding one_or_none
  find_academician p nk org_unit_id s = do
    let search = λ (q : Academician → Bool).
        one_or_none (keep_if (λ a. in_unit org_unit_id a.org_unit_id && q a) s.academicians)
    by_name ← search (λ a. a.name_key == nk)
    by_homepage ← or_search by_name (given p.homepage) (search (λ a. equals a.homepage p.homepage))
    or_search by_homepage (given p.external_link)
        (search (λ a. equals a.external_link p.external_link))

  abbrev filled_academician : ProfessorPayload → Academician → Academician
  filled_academician p a = record a {
    title = fill_empty a.title p.title;
    homepage = fill_empty a.homepage p.homepage;
    external_link = fill_empty a.external_link p.external_link;
  }

  abbrev pub takes_key : ProfessorPayload → String → ℕ → Academician → Bool
  takes_key p nk unit a = nat_eq a.org_unit_id unit && (a.name == p.name || a.name_key == nk)

  abbrev pub add_academician : ProfessorPayload → String → ℕ → People → Result DatabaseError People
  add_academician p nk unit s =
      if any (takes_key p nk unit) s.academicians
      then raise (integrity_error "academicians.name")
      else ok (record s {
        academicians =
            s.academicians
            ++ record {
              id = new_id (map (λ (a : Academician). a.id) s.academicians);
              name = p.name;
              name_key = nk;
              org_unit_id = unit;
              title = p.title;
              homepage = p.homepage;
              external_link = p.external_link;
            }
              ∷ [];
        result = record s.result { academicians = s.result.academicians + 1 };
      })

  abbrev pub write_academician :
      Option Academician
      → ProfessorPayload
      → String
      → Option ℕ
      → People
      → Result DatabaseError People
  write_academician (some existing) p nk org_unit_id s = ok (
      count_updated (record s {
        academicians =
            update_rows (λ a. nat_eq a.id existing.id) (filled_academician p) s.academicians;
      }))
  write_academician none p nk org_unit_id s = do
    unit ← checked_unit org_unit_id
    add_academician p nk unit s

  unfoldable pub save_academician :
      ProfessorPayload → String → Option ℕ → People → Result DatabaseError People
  unfolding find_academician update_rows
  save_academician p nk org_unit_id s = do
    existing ← find_academician p nk org_unit_id s
    write_academician existing p nk org_unit_id s

  -- The professor of the unit with the name, else the first with the address of mail. Rows come in
  -- the order of their table.
  abbrev pub match_by_email : ProfessorPayload → String → Option ℕ → People → Option Professor
  match_by_email p nk org_unit_id s =
      or_first
        (select_row (λ c. is_affiliated org_unit_id s.affiliations c && name_key py c.name == nk)
          s.professors)
        (given p.email) (select_row (λ c. equals c.email p.email) s.professors)

  -- The professor that a payload is about; else one of the homepage, else one of the link.
  unfoldable pub find_match : ProfessorPayload → String → Option ℕ → People → Option Professor
  unfolding name_key select_row
  find_match p nk org_unit_id s =
      let by_homepage =
        or_first (match_by_email p nk org_unit_id s) (given p.homepage)
          (select_row (λ c. equals c.homepage p.homepage) s.professors) in
      or_first by_homepage (given p.external_link)
        (select_row (λ c. equals c.external_link p.external_link) s.professors)

  abbrev pub new_professor : ℕ → String → ProfessorPayload → Professor
  new_professor id org_unit_name p = record {
    id = id;
    name = p.name;
    org_unit_name = org_unit_name;
    title = p.title;
    research_areas = p.research_areas;
    email = p.email;
    phone = p.phone;
    homepage = p.homepage;
    external_link = p.external_link;
    bio = p.bio;
    enrollment_pref = p.enrollment_pref;
    publications = p.publications;
  }

  abbrev pub merged_into : ProfessorPayload → Professor → People → People
  merged_into p found s =
      if merge_changes p found
      then count_updated (record s {
        professors = update_rows (λ c. nat_eq c.id found.id) (merge_fill p) s.professors;
      })
      else s

  abbrev pub count_inserted : People → People
  count_inserted s = record s { result = record s.result { inserted = s.result.inserted + 1 } }

  abbrev pub write_professor :
      Option Professor → ProfessorPayload → Option ℕ → String → People → Result DatabaseError People
  write_professor (some found) p org_unit_id org_unit_name s = do
    joined ← ensure_affiliation found.id org_unit_id s
    ok (merged_into p found joined)
  write_professor none p org_unit_id org_unit_name s = do
    let id = new_id (map (λ (c : Professor). c.id) s.professors)
    joined ←
        ensure_affiliation id org_unit_id
          (record s { professors = s.professors ++ new_professor id org_unit_name p ∷ [] })
    ok (count_inserted joined)

  -- One payload, in its savepoint.
  unfoldable pub save_one :
      ProfessorPayload → Option ℕ → String → People → Result DatabaseError People
  unfolding name_key save_academician find_match merge_changes merge_fill update_rows
      ensure_affiliation
  save_one p org_unit_id org_unit_name s =
      let nk = name_key py p.name in
      if looks_like_academician p.title
      then save_academician p nk org_unit_id s
      else write_professor (find_match p nk org_unit_id s) p org_unit_id org_unit_name s

  abbrev pub save_failure : ProfessorPayload → ExtractionFailure
  save_failure p = record {
    failure_type = some "save_error";
    resolver = some "dropped";
    raw_arguments_preview = some (py.preview p);
    professor_name_hint = some p.name;
    source_url = p.homepage;
  }

  -- A payload that raises is rolled back, counted and noted.
  abbrev pub settle :
      Result DatabaseError People
      → ProfessorPayload
      → People × List ExtractionFailure
      → People × List ExtractionFailure
  settle (ok s') p (s, failures) = (s', failures)
  settle (raise error) p (s, failures) = (
    record s { result = record s.result { save_errors = s.result.save_errors + 1 } },
    failures ++ save_failure p ∷ [],
  )

  unfoldable pub save_professors :
      List ProfessorPayload
      → Option ℕ
      → String
      → People × List ExtractionFailure
      → People × List ExtractionFailure
  unfolding save_one
  save_professors [] org_unit_id org_unit_name st = st
  save_professors (p ∷ rest) org_unit_id org_unit_name st =
      save_professors rest org_unit_id org_unit_name
        (settle (save_one p org_unit_id org_unit_name st.0) p st)
