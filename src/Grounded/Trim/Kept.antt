-- ===== src/Grounded/Trim/Kept.antt =====
-- What `trim` keeps.
use dext.Base.{
  ℕ, ◌+◌, ◌-◌, ◌≤◌, ◌≡◌, String, Bool, true, false, not, ◌&&◌, List, [], ◌∷◌, arith, nat_eq, leb,
  keep_if, Bool-cases, inl, inr, All, if◌then◌else◌,
}
use dext.Grounded.Types.{SourceRef, FactItem, FactBundle}
use dext.Grounded.Trim.{
  Matching, ref_has_contact, item_has_contact, item_matches_query, estimate_tokens, trim_facts,
  is_used, trim,
}

module _ (m : Matching) where
  -- The tokens of the items that no query term hits.
  pub spent : List String → List FactItem → ℕ
  spent terms [] = 0
  spent terms (item ∷ rest) =
      (if item_matches_query m terms item then 0 else estimate_tokens m item.value)
      + spent terms rest

  -- `kept` is a part of `items`, in order, that leaves out an item only if it carries a contact
  -- or is not hit by the query.
  pub data IsSelection (terms : List String) : List FactItem → List FactItem → Type 0 where
    none_left : IsSelection terms [] []
    keep :
        {items kept : List FactItem} (item : FactItem)
        → item_has_contact m item ≡ false
        → IsSelection terms items kept
        → IsSelection terms (item ∷ items) (item ∷ kept)
    leave_contact :
        {items kept : List FactItem} (item : FactItem)
        → item_has_contact m item ≡ true
        → IsSelection terms items kept
        → IsSelection terms (item ∷ items) kept
    leave_other :
        {items kept : List FactItem} (item : FactItem)
        → item_matches_query m terms item ≡ false
        → IsSelection terms items kept
        → IsSelection terms (item ∷ items) kept

  trim_facts-IsSelection :
      (terms : List String) (budget remaining : ℕ) (items : List FactItem)
      → IsSelection terms items (trim_facts m terms budget remaining items)
  unfolding trim_facts
  trim_facts-IsSelection terms budget remaining [] = none_left
  trim_facts-IsSelection terms budget remaining (item ∷ rest) =
      let skip = trim_facts-IsSelection terms budget remaining rest in
      let spend =
        trim_facts-IsSelection terms budget (remaining - estimate_tokens m item.value) rest in
      elim (Bool-cases (item_has_contact m item)) [
        | inl contact ↦ rw contact (leave_contact item contact skip)
        | inr clean ↦ elim (Bool-cases (item_matches_query m terms item)) [
          | inl hit ↦ rw (clean, hit) (keep item clean skip)
          | inr other ↦ elim (Bool-cases (nat_eq budget 0)) [
            | inl no_budget ↦ rw (clean, other, no_budget) (leave_other item other skip)
            | inr budgeted ↦ elim (Bool-cases (leb (estimate_tokens m item.value) remaining)) [
              | inl fits ↦ rw (clean, other, budgeted, fits) (keep item clean spend)
              | inr over ↦ rw (clean, other, budgeted, over) (leave_other item other skip)
            ]
          ]
        ]
      ]

  spent-trim_facts :
      (terms : List String) (budget remaining : ℕ) (items : List FactItem)
      → spent terms (trim_facts m terms budget remaining items) ≤ remaining
  unfolding trim_facts spent
  spent-trim_facts terms budget remaining [] = omega arith
  spent-trim_facts terms budget remaining (item ∷ rest) = ground (
    arith,
    spent-trim_facts terms budget remaining rest,
    spent-trim_facts terms budget (remaining - estimate_tokens m item.value) rest,
  )

  keep_if-All :
      (P : SourceRef → Bool) (refs : List SourceRef) → All (λ r. P r ≡ true) (keep_if P refs)
  keep_if-All P [] = tt
  keep_if-All P (r ∷ rest) = elim (Bool-cases (P r)) [
    | inl t ↦ rw (t, All) (t, keep_if-All P rest)
    | inr f ↦ rw (f, All) (keep_if-All P rest)
  ]

  -- The kept facts are the bundle's, in order, without those that carry a contact; one without a
  -- contact that a query term hits is always kept, whatever the budget; the tokens of the kept facts
  -- that no term hits are within the budget; and each kept reference is used by a kept fact and
  -- carries no contact.
  pub trim-IsSelection :
      (bundle : FactBundle) (budget : ℕ) (terms : List String)
      → IsSelection terms bundle.facts (trim m bundle budget terms).facts
        × (spent terms (trim m bundle budget terms).facts ≤ budget)
        × All
            (λ r.
              (is_used m (trim m bundle budget terms).facts r && not (ref_has_contact m r)) ≡ true)
            (trim m bundle budget terms).source_refs
  unfolding trim
  trim-IsSelection bundle budget terms = (
    trim_facts-IsSelection terms budget budget bundle.facts,
    spent-trim_facts terms budget budget bundle.facts,
    keep_if-All
        (λ r.
          is_used m (trim_facts m terms budget budget bundle.facts) r && not (ref_has_contact m r))
        bundle.source_refs,
  )
