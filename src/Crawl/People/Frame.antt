-- ===== src/Crawl/People/Frame.antt =====
-- What the merge leaves alone: affiliations and academicians do not touch the professors.
use dext.Base.{
  ℕ, ◌≡◌, sym, ap, String, Option, none, some, List, Bool-cases, inl, inr, ok, bind-ok,
  ok-injective, any,
}
use dext.Crawl.Store.{RowIds}
use dext.Crawl.People.{
  ProfessorPayload, ProfessorAffiliation, Academician, People, PythonTexts, ensure_affiliation,
  affiliate, save_academician, write_academician, checked_unit, add_academician, takes_key,
  find_academician,
}

module _ (new_id : RowIds) (units : List ℕ) (py : PythonTexts) where
  affiliate-frame :
      (exists : Option ProfessorAffiliation) (professor_id : ℕ) (unit : Option ℕ) (s s' : People)
      → affiliate new_id units py exists professor_id unit s ≡ ok s'
      → (s'.professors ≡ s.professors) × (s'.result.inserted ≡ s.result.inserted)
  affiliate-frame (some a) professor_id unit s s' h =
      let same : s ≡ s' = ok-injective h in
      (
        sym (ap (λ (x : People). x.professors) same),
        sym (ap (λ (x : People). x.result.inserted) same),
      )
  affiliate-frame none professor_id unit s s' h =
      let (u, checked, added) = bind-ok (checked_unit new_id units py unit) _ h in
      let same = ok-injective added in
      (
        sym (ap (λ (x : People). x.professors) same),
        sym (ap (λ (x : People). x.result.inserted) same),
      )

  -- An affiliation touches neither the professors nor the number of inserted ones.
  pub ensure_affiliation-frame :
      (professor_id : ℕ) (unit : Option ℕ) (s s' : People)
      → ensure_affiliation new_id units py professor_id unit s ≡ ok s'
      → (s'.professors ≡ s.professors) × (s'.result.inserted ≡ s.result.inserted)
  unfolding ensure_affiliation
  ensure_affiliation-frame professor_id unit s s' h =
      let (exists, searched, joined) =
        bind-ok _ (λ x. affiliate new_id units py x professor_id unit s) h in
      affiliate-frame exists professor_id unit s s' joined

  write_academician-frame :
      (existing : Option Academician) (p : ProfessorPayload) (nk : String) (unit : Option ℕ)
      (s s' : People)
      → write_academician new_id units py existing p nk unit s ≡ ok s'
      → (s'.professors ≡ s.professors) × (s'.result.inserted ≡ s.result.inserted)
  write_academician-frame (some a) p nk unit s s' h =
      let same = ok-injective h in
      (
        sym (ap (λ (x : People). x.professors) same),
        sym (ap (λ (x : People). x.result.inserted) same),
      )
  write_academician-frame none p nk unit s s' h =
      let (u, checked, added) =
        bind-ok (checked_unit new_id units py unit) (λ u. add_academician new_id units py p nk u s)
          h in
      elim (Bool-cases (any (takes_key new_id units py p nk u) s.academicians)) [
        | inl taken ↦ let bad = rw taken at added in cc bad
        | inr free ↦
            let same = ok-injective (rw free at added) in
            (
              sym (ap (λ (x : People). x.professors) same),
              sym (ap (λ (x : People). x.result.inserted) same),
            )
      ]

  pub save_academician-frame :
      (p : ProfessorPayload) (nk : String) (unit : Option ℕ) (s s' : People)
      → save_academician new_id units py p nk unit s ≡ ok s'
      → (s'.professors ≡ s.professors) × (s'.result.inserted ≡ s.result.inserted)
  unfolding save_academician
  save_academician-frame p nk unit s s' h =
      let (existing, found, written) =
        bind-ok (find_academician new_id units py p nk unit s)
          (λ x. write_academician new_id units py x p nk unit s) h in
      write_academician-frame existing p nk unit s s' written
