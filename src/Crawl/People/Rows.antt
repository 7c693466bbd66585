-- ===== src/Crawl/People/Rows.antt =====
-- Payloads, rows and counts of people, and what a merge does to a row.
use Prim.Native.Char.{code}
use dext.Base.{
  ℕ, ◌+◌, String, Bool, false, not, ◌&&◌, ◌||◌, Option, none, some, List, [], ◌∷◌, nat_eq, nat_elem,
  any, Result, ok, raise, if◌then◌else◌, ◌==◌,
}
use dext.Base.Text.{strip}
use dext.Crawl.Retry.{contains}
use dext.Crawl.Store.{DatabaseError, multiple_results_found}

pub record ProfessorPayload : Type 0 where
  pub name : String
  pub title : Option String
  pub research_areas : Option String
  pub email : Option String
  pub phone : Option String
  pub homepage : Option String
  pub external_link : Option String
  pub bio : Option String
  pub enrollment_pref : Option String
  pub publications : Option String

pub record Professor : Type 0 where
  pub id : ℕ
  pub name : String
  pub org_unit_name : String
  pub title : Option String
  pub research_areas : Option String
  pub email : Option String
  pub phone : Option String
  pub homepage : Option String
  pub external_link : Option String
  pub bio : Option String
  pub enrollment_pref : Option String
  pub publications : Option String

pub record Academician : Type 0 where
  pub id : ℕ
  pub name : String
  pub name_key : String
  pub org_unit_id : ℕ
  pub title : Option String
  pub homepage : Option String
  pub external_link : Option String

pub record ProfessorAffiliation : Type 0 where
  pub id : ℕ
  pub professor_id : ℕ
  pub org_unit_id : ℕ

pub record SaveResult : Type 0 where
  pub inserted : ℕ
  pub updated : ℕ
  pub affiliations_added : ℕ
  pub academicians : ℕ
  pub save_errors : ℕ

-- The three tables of people, and the counts of the batch so far.
pub record People : Type 0 where
  pub professors : List Professor
  pub affiliations : List ProfessorAffiliation
  pub academicians : List Academician
  pub result : SaveResult

-- A text of a nullable column is there and not empty.
abbrev pub given : Option String → Bool
given none = false
given (some s) = not (s == "")

abbrev pub equals : Option String → Option String → Bool
equals (some a) (some b) = a == b
equals _ _ = false

-- `_merge_fill` of one field
abbrev pub fill_empty : Option String → Option String → Option String
fill_empty current new = if given current then current else if given new then new else current

abbrev fills : Option String → Option String → Bool
fills current new = not (given current) && given new

unfoldable pub merge_fill : ProfessorPayload → Professor → Professor
merge_fill p prof = record prof {
  title = fill_empty prof.title p.title;
  research_areas = fill_empty prof.research_areas p.research_areas;
  email = fill_empty prof.email p.email;
  phone = fill_empty prof.phone p.phone;
  homepage = fill_empty prof.homepage p.homepage;
  external_link = fill_empty prof.external_link p.external_link;
  bio = fill_empty prof.bio p.bio;
  enrollment_pref = fill_empty prof.enrollment_pref p.enrollment_pref;
  publications = fill_empty prof.publications p.publications;
}

-- What `_merge_fill` returns: whether a field is filled.
unfoldable pub merge_changes : ProfessorPayload → Professor → Bool
merge_changes p prof =
    fills prof.title p.title
    || fills prof.research_areas p.research_areas
    || fills prof.email p.email
    || fills prof.phone p.phone
    || fills prof.homepage p.homepage
    || fills prof.external_link p.external_link
    || fills prof.bio p.bio
    || fills prof.enrollment_pref p.enrollment_pref
    || fills prof.publications p.publications

abbrev pub looks_like_academician : Option String → Bool
looks_like_academician none = false
looks_like_academician (some title) = contains title "院士"

-- `_DECORATIVE_DOTS`, by their code points
abbrev decorative_dots : List ℕ
decorative_dots = 0xb7 ∷ 0x2022 ∷ 0x2219 ∷ 0x30fb ∷ 0xff65 ∷ 0x2027 ∷ []

unfoldable pub drop_dots : String → String
drop_dots String.[] = ""
drop_dots (String.◌∷◌ c s) =
    let rest = drop_dots s in if nat_elem (code c) decorative_dots then rest else String.◌∷◌ c rest

-- What the merge takes from Python: normal form NFKC, case folding, and `repr(p)[:500]`.
pub record PythonTexts : Type 0 where
  pub nfkc : String → String
  pub casefold : String → String
  pub preview : ProfessorPayload → String

unfoldable pub name_key : PythonTexts → String → String
unfolding strip drop_dots
name_key py name = py.casefold (drop_dots (py.nfkc (strip name)))

-- `scalar_one_or_none`
unfoldable pub one_or_none {ℓ} : {Row : Type ℓ} → List Row → Result DatabaseError (Option Row)
one_or_none [] = ok none
one_or_none (x ∷ []) = ok (some x)
one_or_none (x ∷ y ∷ rest) = raise multiple_results_found

-- `WHERE org_unit_id = :id`; a missing id selects the rows without one, and there is none.
abbrev pub in_unit : Option ℕ → ℕ → Bool
in_unit none id = false
in_unit (some wanted) id = nat_eq id wanted

abbrev pub count_updated : People → People
count_updated s = record s { result = record s.result { updated = s.result.updated + 1 } }

abbrev pub or_search {ℓ} :
    {A : Type ℓ}
    → Option A
    → Bool
    → Result DatabaseError (Option A)
    → Result DatabaseError (Option A)
or_search (some x) also later = ok (some x)
or_search none also later = if also then later else ok none

abbrev pub is_affiliated : Option ℕ → List ProfessorAffiliation → Professor → Bool
is_affiliated org_unit_id affiliations prof =
    any (λ a. nat_eq a.professor_id prof.id && in_unit org_unit_id a.org_unit_id) affiliations

abbrev pub or_first : Option Professor → Bool → Option Professor → Option Professor
or_first (some x) also later = some x
or_first none also later = if also then later else none
