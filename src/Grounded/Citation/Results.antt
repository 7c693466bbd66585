-- ===== src/Grounded/Citation/Results.antt =====
-- Validated results: their citations, what is dropped, and two gaps of the canonical identity.
use text.Mathlib.TextLemmas.{append_assoc as str_append_assoc}
use dext.Base.{
  ◌≡◌, refl, ap, ◌∙◌, String, Bool, true, false, ◌||◌, some, List, [], ◌∷◌, map, arith, append,
  Bool-cases, inl, inr, All, eq_iff,
}
use dext.Grounded.Types.{SourceRef, FactBundle, GenerationResult}
use dext.Grounded.Citation.{
  Surroundings, Context, Key, key_of, key_eq, has_key, ref_content_hash, validate_claims, cited_of,
  unique_refs, validate,
}
use dext.Grounded.Citation.Laws.{
  IsGenuine, IsCited, validate_claims-IsCited, cited_of-IsGenuine, key_eq→≡,
}

-- No two references have one document, heading and chunk.
abbrev pub HasUniqueKeys : List SourceRef → Type 0
HasUniqueKeys [] = Unit
HasUniqueKeys (r ∷ rest) = (has_key (key_of r) (map key_of rest) ≡ false) × HasUniqueKeys rest

or_right : (a : Bool) {b : Bool} → b ≡ true → (a || b) ≡ true
or_right true h = refl
or_right false h = h

or_left : {a : Bool} (b : Bool) → a ≡ true → (a || b) ≡ true
or_left b h = ground arith

key_eq_refl : (k : Key) → key_eq k k ≡ true
key_eq_refl k = ground (arith, eq_iff k.0 k.0, eq_iff k.1 k.1, eq_iff k.2 k.2)

module _ (env : Surroundings) where
  unique_refs-All :
      (P : SourceRef → Type 0) (seen : List Key) (refs : List SourceRef)
      → All P refs
      → All P (unique_refs env seen refs)
  unfolding unique_refs
  unique_refs-All P seen [] h = tt
  unique_refs-All P seen (r ∷ rest) h = elim (Bool-cases (has_key (key_of r) seen)) [
    | inl old ↦ rw (old, All) (unique_refs-All P seen rest h.1)
    | inr new ↦ rw (new, All) (h.0, unique_refs-All P (key_of r ∷ seen) rest h.1)
  ]

  -- No key of the result was seen before.
  unique_refs-unseen :
      (k : Key) (seen : List Key) (refs : List SourceRef)
      → has_key k seen ≡ true
      → has_key k (map key_of (unique_refs env seen refs)) ≡ false
  unfolding unique_refs
  unique_refs-unseen k seen [] h = refl
  unique_refs-unseen k seen (r ∷ rest) h = elim (Bool-cases (has_key (key_of r) seen)) [
    | inl old ↦ rw old (unique_refs-unseen k seen rest h)
    | inr new ↦
        let later =
          unique_refs-unseen k (key_of r ∷ seen) rest (or_right (key_eq k (key_of r)) h) in
        elim (Bool-cases (key_eq k (key_of r))) [
          | inl same ↦ cc (new, h, key_eq→≡ k (key_of r) same)
          | inr other ↦ rw (new, other) later
        ]
  ]

  unique_refs-HasUniqueKeys :
      (seen : List Key) (refs : List SourceRef) → HasUniqueKeys (unique_refs env seen refs)
  unfolding unique_refs
  unique_refs-HasUniqueKeys seen [] = tt
  unique_refs-HasUniqueKeys seen (r ∷ rest) = elim (Bool-cases (has_key (key_of r) seen)) [
    | inl old ↦ rw (old, HasUniqueKeys) (unique_refs-HasUniqueKeys seen rest)
    | inr new ↦
        rw (new, HasUniqueKeys)
          (
            unique_refs-unseen (key_of r) (key_of r ∷ seen) rest
                (or_left (has_key (key_of r) seen) (key_eq_refl (key_of r))),
            unique_refs-HasUniqueKeys (key_of r ∷ seen) rest,
          )
  ]

  -- After validation every kept claim obeys the rule of its class: a fact cites at least one
  -- reference and only the bundle's own, an advice cites only references that agree with one of
  -- the bundle in document, heading, chunk and content digest and keeps a context reference only
  -- if it is valid, and an uncertain claim cites nothing. The result's list of citations has only
  -- references that so agree, and no two with one document, heading and chunk.
  pub validate-IsCited :
      (result : GenerationResult) (bundle : FactBundle) (context : Context)
      → All (IsCited env bundle.source_refs context) (validate env result bundle context).claims
        × All (IsGenuine env bundle.source_refs) (validate env result bundle context).cited_refs
        × HasUniqueKeys (validate env result bundle context).cited_refs
  unfolding validate
  validate-IsCited result bundle context =
      let sources = bundle.source_refs in
      let loop = validate_claims env sources context result.claims in
      let kept = validate_claims-IsCited env sources context result.claims in
      (
        kept,
        unique_refs-All (IsGenuine env sources) [] (cited_of env loop.kept)
            (cited_of-IsGenuine env sources context loop.kept kept),
        unique_refs-HasUniqueKeys [] (cited_of env loop.kept),
      )

  -- The digest joins quote and address by a unit separator and does not escape it: a quote that
  -- goes on behind a separator has the digest of the shorter quote with the longer address.
  ref_content_hash_joins :
      (ref : SourceRef) (quote middle address : String)
      → ref_content_hash env (record ref {
        quote_or_summary = append quote (append "\u{1f}" middle);
        official_url = some address;
      })
        ≡ ref_content_hash env (record ref {
          quote_or_summary = quote;
          official_url = some (append middle (append "\u{1f}" address));
        })
  unfolding ref_content_hash
  ref_content_hash_joins ref quote middle address = ap env.digest (
      str_append_assoc quote (append "\u{1f}" middle) (append "\u{1f}" address)
      ∙ ap (append quote) (str_append_assoc "\u{1f}" middle (append "\u{1f}" address)))
