-- ===== src/Crawl/People/OnePage.antt =====
-- What the merge makes of the payloads of one page, which all have the page's address as homepage.
use dext.Base.{
  ℕ, ◌+◌, ◌≤◌, ◌≡◌, refl, sym, ap, ◌∙◌, subst, ◌⊎◌, String, Bool, true, false, not, Option, none,
  some, List, [], ◌∷◌, ◌++◌, map, Bool-cases, inl, inr, is_some, All, Result, ok, raise, bind-ok,
  ok-injective, if◌then◌else◌, ◌==◌, eq_iff, arith,
}
use dext.Crawl.Tables.{select_row, update_rows}
use dext.Crawl.Types.{ExtractionFailure}
use dext.Crawl.Store.{DatabaseError, RowIds}
use dext.Crawl.People.{
  ProfessorPayload, Professor, People, PythonTexts, given, equals, fill_empty, merge_fill,
  ensure_affiliation, find_match, new_professor, merged_into, write_professor, save_one, settle,
  save_professors, merge_changes, or_first, match_by_email, looks_like_academician, name_key,
}
use dext.Crawl.People.Frame.{ensure_affiliation-frame, save_academician-frame}

-- A professor with that homepage is there.
abbrev HasPage : String → List Professor → Type 0
HasPage h rows = is_some (select_row (λ c. equals c.homepage (some h)) rows) ≡ true

-- The step has inserted nobody, and left a professor of the page, if there was one; or it has inserted
-- one, who has the page.
abbrev Adds : String → People → People → Type 0
Adds h s s' =
    ((s'.result.inserted ≡ s.result.inserted) × (HasPage h s.professors → HasPage h s'.professors))
    ⊎ (HasPage h s.professors → ⊥)
      × (s'.result.inserted ≡ s.result.inserted + 1)
      × HasPage h s'.professors

or_first_later :
    (x : Option Professor) (also : Bool) (later : Option Professor)
    → also ≡ true
    → is_some later ≡ true
    → is_some (or_first x also later) ≡ true
or_first_later (some c) also later asked found = refl
or_first_later none also later asked found = rw asked found

or_first_sooner :
    (x : Option Professor) (also : Bool) (later : Option Professor)
    → is_some x ≡ true
    → is_some (or_first x also later) ≡ true
or_first_sooner (some c) also later found = refl
or_first_sooner none also later found = cc found

HasPage-append :
    (h : String) (rows : List Professor) (c : Professor)
    → c.homepage ≡ some h
    → HasPage h (rows ++ c ∷ [])
unfolding select_row
HasPage-append h [] c has = rw (has, (eq_iff h h).1 refl) refl
HasPage-append h (r ∷ rows) c has = elim (Bool-cases (equals r.homepage (some h))) [
  | inl t ↦ rw t refl
  | inr f ↦ rw f (HasPage-append h rows c has)
]

HasPage-update :
    (h : String) (chosen : Professor → Bool) (f : Professor → Professor) (rows : List Professor)
    → ((c : Professor) → equals c.homepage (some h) ≡ true → equals (f c).homepage (some h) ≡ true)
    → HasPage h rows
    → HasPage h (update_rows chosen f rows)
unfolding select_row update_rows
HasPage-update h chosen f [] keeps has = has
HasPage-update h chosen f (r ∷ rows) keeps has = elim (Bool-cases (equals r.homepage (some h))) [
  | inl t ↦ elim (Bool-cases (chosen r)) [
    | inl hit ↦ rw hit (rw (keeps r t) refl)
    | inr other ↦ rw other (rw t refl)
  ]
  | inr e ↦
      let later = HasPage-update h chosen f rows keeps (rw e at has) in
      elim (Bool-cases (equals (if chosen r then f r else r).homepage (some h))) [
        | inl now ↦ rw now refl
        | inr never ↦ rw never later
      ]
]

-- A homepage that is not empty stays.
fill_empty-page :
    (h : String) (current new : Option String)
    → (h == "") ≡ false
    → equals current (some h) ≡ true
    → equals (fill_empty current new) (some h) ≡ true
fill_empty-page h none new solid same = cc same
fill_empty-page h (some c) new solid same =
    let page : c ≡ h = (eq_iff c h).0 same in
    let kept : given (some c) ≡ true = ap (λ x. not (x == "")) page ∙ ap not solid in rw kept same

merge_fill-page :
    (h : String) (p : ProfessorPayload) (c : Professor)
    → (h == "") ≡ false
    → equals c.homepage (some h) ≡ true
    → equals (merge_fill p c).homepage (some h) ≡ true
unfolding merge_fill
merge_fill-page h p c solid same = fill_empty-page h c.homepage p.homepage solid same

merged_into-frame :
    (new_id : RowIds) (units : List ℕ) (py : PythonTexts) (h : String) (p : ProfessorPayload)
    (found : Professor) (s : People)
    → (h == "") ≡ false
    → ((merged_into new_id units py p found s).result.inserted ≡ s.result.inserted)
      × (HasPage h s.professors → HasPage h (merged_into new_id units py p found s).professors)
merged_into-frame new_id units py h p found s solid = elim (Bool-cases (merge_changes p found)) [
  | inl changed ↦
      rw changed
        (refl, HasPage-update h _ (merge_fill p) s.professors (λ c. merge_fill-page h p c solid))
  | inr same ↦ rw same (refl, λ has. has)
]

module _ (new_id : RowIds) (units : List ℕ) (py : PythonTexts) (h : String)
    (solid : (h == "") ≡ false) where
  find_match-page :
      (p : ProfessorPayload) (nk : String) (unit : Option ℕ) (s : People)
      → p.homepage ≡ some h
      → HasPage h s.professors
      → is_some (find_match new_id units py p nk unit s) ≡ true
  unfolding find_match
  find_match-page p nk unit s own has =
      let asked : given p.homepage ≡ true = ap given own ∙ ap not solid in
      let there : is_some (select_row (λ c. equals c.homepage p.homepage) s.professors) ≡ true =
        ap (λ page. is_some (select_row (λ c. equals c.homepage page) s.professors)) own ∙ has in
      let by_homepage = select_row (λ c. equals c.homepage p.homepage) s.professors in
      let by_email = match_by_email new_id units py p nk unit s in
      or_first_sooner (or_first by_email (given p.homepage) by_homepage) (given p.external_link)
        (select_row (λ c. equals c.external_link p.external_link) s.professors)
        (or_first_later by_email (given p.homepage) by_homepage asked there)

  write_professor-Adds :
      (found : Option Professor) (p : ProfessorPayload) (unit : Option ℕ) (unit_name : String)
      (s s' : People)
      → p.homepage ≡ some h
      → (HasPage h s.professors → is_some found ≡ true)
      → write_professor new_id units py found p unit unit_name s ≡ ok s'
      → Adds h s s'
  write_professor-Adds (some c) p unit unit_name s s' own found written =
      let (joined, affiliated, merged) =
        bind-ok (ensure_affiliation new_id units py c.id unit s) _ written in
      let (people, count) =
        ensure_affiliation-frame new_id units py c.id unit s joined affiliated in
      let (same, kept) = merged_into-frame new_id units py h p c joined solid in
      let end = ok-injective merged in
      inl (
        sym (ap (λ (x : People). x.result.inserted) end) ∙ same ∙ count,
        λ has.
            subst (λ (x : People). HasPage h x.professors) end
              (kept (subst (HasPage h) (sym people) has)),
      )
  write_professor-Adds none p unit unit_name s s' own found written =
      let c =
        new_professor new_id units py (new_id (map (λ (c : Professor). c.id) s.professors))
          unit_name p in
      let (joined, affiliated, counted) =
        bind-ok
          (ensure_affiliation new_id units py c.id unit
            (record s { professors = s.professors ++ c ∷ [] }))
          _ written in
      let (people, count) =
        ensure_affiliation-frame new_id units py c.id unit
          (record s { professors = s.professors ++ c ∷ [] }) joined affiliated in
      let end = ok-injective counted in
      inr (
        λ has. let bad = found has in cc bad,
        sym (ap (λ (x : People). x.result.inserted) end) ∙ ap (λ n. n + 1) count,
        subst (λ (x : People). HasPage h x.professors) end
            (subst (HasPage h) (sym people) (HasPage-append h s.professors c own)),
      )

  save_one-Adds :
      (p : ProfessorPayload) (unit : Option ℕ) (unit_name : String) (s s' : People)
      → p.homepage ≡ some h
      → save_one new_id units py p unit unit_name s ≡ ok s'
      → Adds h s s'
  unfolding save_one
  save_one-Adds p unit unit_name s s' own saved =
      elim (Bool-cases (looks_like_academician p.title)) [
        | inl academician ↦
            let (people, count) =
              save_academician-frame new_id units py p (name_key py p.name) unit s s'
                (rw academician at saved) in
            inl (count, λ has. subst (HasPage h) (sym people) has)
        | inr ordinary ↦
            write_professor-Adds _ p unit unit_name s s' own
              (find_match-page p (name_key py p.name) unit s own) (rw ordinary at saved)
      ]

  -- At most one professor inserted, who has the page.
  abbrev AtMostOne : People → Type 0
  AtMostOne s = (s.result.inserted ≡ 0) ⊎ (s.result.inserted ≡ 1) × HasPage h s.professors

  AtMostOne-Adds : (s s' : People) → AtMostOne s → Adds h s s' → AtMostOne s'
  AtMostOne-Adds s s' (inl zero_before) (inl (same, keeps)) = inl (same ∙ zero_before)
  AtMostOne-Adds s s' (inr (one, has)) (inl (same, keeps)) = inr (same ∙ one, keeps has)
  AtMostOne-Adds s s' (inl zero_before) (inr (free, more, has)) =
      inr (more ∙ ap (λ n. n + 1) zero_before, has)
  AtMostOne-Adds s s' (inr (one, has)) (inr (free, more, has')) = absurd (free has)

  settle-AtMostOne :
      (p : ProfessorPayload) (r : Result DatabaseError People) (s : People)
      (failures : List ExtractionFailure)
      → ((s' : People) → r ≡ ok s' → Adds h s s')
      → AtMostOne s
      → AtMostOne (settle new_id units py r p (s, failures)).0
  settle-AtMostOne p (ok s') s failures adds before = AtMostOne-Adds s s' before (adds s' refl)
  settle-AtMostOne p (raise error) s failures adds before = before

  save_professors-AtMostOne :
      (payloads : List ProfessorPayload) (unit : Option ℕ) (unit_name : String) (s : People)
      (failures : List ExtractionFailure)
      → All (λ p. p.homepage ≡ some h) payloads
      → AtMostOne s
      → AtMostOne (save_professors new_id units py payloads unit unit_name (s, failures)).0
  unfolding save_professors
  save_professors-AtMostOne [] unit unit_name s failures own before = before
  save_professors-AtMostOne (p ∷ rest) unit unit_name s failures (own, owns) before =
      let r = save_one new_id units py p unit unit_name s in
      let settled = settle new_id units py r p (s, failures) in
      save_professors-AtMostOne rest unit unit_name settled.0 settled.1 owns
        (settle-AtMostOne p r s failures (λ s'. save_one-Adds p unit unit_name s s' own) before)

  -- Of the payloads of one page, to all of which the worker gives the address of the page as homepage,
  -- at most one is inserted as a professor, however many people the page lists: the others are merged
  -- into a professor that is there.
  pub one_page_inserts_one :
      (payloads : List ProfessorPayload) (unit : Option ℕ) (unit_name : String) (s : People)
      (failures : List ExtractionFailure)
      → All (λ p. p.homepage ≡ some h) payloads
      → s.result.inserted ≡ 0
      → (save_professors new_id units py payloads unit unit_name (s, failures)).0.result.inserted
        ≤ 1
  one_page_inserts_one payloads unit unit_name s failures own empty =
      elim (save_professors-AtMostOne payloads unit unit_name s failures own (inl empty)) [
        | inl nobody ↦ omega (arith, nobody)
        | inr (one, has) ↦ omega (arith, one)
      ]
