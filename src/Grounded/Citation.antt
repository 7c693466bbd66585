-- ===== src/Grounded/Citation.antt =====
-- citation.py: validation of the claims' citations against the fact bundle.
pub mod Laws
pub mod Results
use dext.Base.{
  ℕ, zero, suc, ◌+◌, String, Bool, true, false, not, ◌&&◌, ◌||◌, Option, none, some, List, [], ◌∷◌,
  ◌++◌, nat_eq, elem, is_empty, append, or_else, if◌then◌else◌, ◌==◌,
}
use dext.Base.Text.{decimal}
use dext.Grounded.Output.{Value, remove_output_fragments, empty_output}
use dext.Grounded.Types.{
  SourceRef, UserContextRef, ContentClass, fact, advice, uncertain, FactBundle, GenerationWarning,
  Claim, GenerationResult,
}

-- The identity of a reference: its document, heading and chunk.
abbrev pub Key : Type 0
Key = String × String × String

abbrev pub key_of : SourceRef → Key
key_of ref = (ref.doc_path, ref.heading_path, ref.chunk_hash)

abbrev pub key_eq : Key → Key → Bool
key_eq a b = a.0 == b.0 && (a.1 == b.1 && a.2 == b.2)

abbrev pub has_key : Key → List Key → Bool
has_key k [] = false
has_key k (j ∷ js) = key_eq k j || has_key k js

-- A value of the student's context: a text, or the length of a collection.
pub data ContextValue : Type 0 where
  absent : ContextValue
  single : String → ContextValue
  several : ℕ → ContextValue

-- What the validator uses of its surroundings: the digest of a text (SHA-256), the messages of the
-- rules, the fields of a student's context that may be cited, and that context by field name.
pub record Surroundings : Type 0 where
  pub digest : String → String
  pub warning_message : String → String
  pub student_context_fields : List String
  pub repr : String → String

abbrev pub Context : Type 0
Context = Option (String → ContextValue)

-- `value not in (None, "")`, or the truth of a collection
abbrev pub has_context_value : Context → String → Bool
has_context_value none name = false
has_context_value (some ctx) name = elim (ctx name) [
  | absent ↦ false
  | single s ↦ not (s == "")
  | several n ↦ not (nat_eq n 0)
]

-- `ref.value_bucket == getattr(student_context, ref.field, None)`
abbrev pub bucket_matches : Option String → ContextValue → Bool
bucket_matches none absent = true
bucket_matches (some b) (single s) = b == s
bucket_matches _ _ = false

abbrev pub context_bucket : Context → String → ContextValue
context_bucket none name = absent
context_bucket (some ctx) name = ctx name

unfoldable pub valid_user_context_ref : UserContextRef → Context → List String → Bool
valid_user_context_ref ref context allowed_fields =
    if not (elem ref.field_name allowed_fields) || not (has_context_value context ref.field_name)
    then false
    else if elem ref.field_name ("gpa_bucket" ∷ "rank_bucket" ∷ [])
    then bucket_matches ref.value_bucket (context_bucket context ref.field_name)
    else true

module _ (env : Surroundings) where
  open env use {digest, warning_message, student_context_fields, repr}

  abbrev pub hash_payload : SourceRef → String
  hash_payload ref = append ref.quote_or_summary (append "\u{1f}" (or_else ref.official_url ""))

  unfoldable pub ref_content_hash : SourceRef → String
  ref_content_hash ref = digest (hash_payload ref)

  -- `index.get(key)` of the index that is filled in order: the last reference with that key, with
  -- its digest.
  unfoldable pub bundle_ref : List SourceRef → Key → Option (SourceRef × String)
  unfolding ref_content_hash
  bundle_ref [] k = none
  bundle_ref (ref ∷ rest) k =
      let later = bundle_ref rest k in
      elim later [
        | some entry ↦ some entry
        | none ↦ if key_eq (key_of ref) k then some (ref, ref_content_hash ref) else none
      ]

  -- The canonical reference of one that is reported, if it is genuine.
  unfoldable pub resolve_ref : List SourceRef → SourceRef → Option SourceRef
  unfolding bundle_ref ref_content_hash
  resolve_ref sources ref = elim (bundle_ref sources (key_of ref)) [
    | none ↦ none
    | some (canonical, hash) ↦ if ref_content_hash ref == hash then some canonical else none
  ]

  -- One round: a canonical reference is appended, or a fabricated one is counted.
  abbrev pub note_ref : Option SourceRef → List SourceRef × ℕ → List SourceRef × ℕ
  note_ref none (canonical, fabricated) = (canonical, fabricated + 1)
  note_ref (some c) (canonical, fabricated) = (c ∷ canonical, fabricated)

  -- `_resolve_refs`: the canonical references, and the number of fabricated ones.
  unfoldable pub resolve_refs : List SourceRef → List SourceRef → List SourceRef × ℕ
  unfolding resolve_ref
  resolve_refs sources [] = ([], 0)
  resolve_refs sources (ref ∷ rest) = note_ref (resolve_ref sources ref) (resolve_refs sources rest)

  abbrev pub claim_warning : String → String → Claim → GenerationWarning
  claim_warning code suffix claim = record {
    code = code;
    message = append (warning_message code) suffix;
    claim_text = some claim.text;
  }

  abbrev fabricated_warning : ℕ → Claim → GenerationWarning
  fabricated_warning n = claim_warning "fabricated_ref" (append ": " (decimal n))

  abbrev pub Validated : Type 0
  Validated = Option Claim × List GenerationWarning

  -- The references of a fact.
  unfoldable pub validate_fact : List SourceRef → Claim → Validated
  unfolding resolve_refs
  validate_fact sources claim =
      if is_empty claim.fact_refs
      then (
        some (record claim { content_class = uncertain }),
        claim_warning "fact_ref_missing" "" claim ∷ [],
      )
      else (let resolved = resolve_refs sources claim.fact_refs in
          if nat_eq resolved.1 0
          then (some (record claim { fact_refs = resolved.0 }), [])
          else (none, fabricated_warning resolved.1 claim ∷ []))

  -- The context reference of an advice: kept, or stripped with a warning.
  unfoldable pub strip_context : Context → Claim → Claim × List GenerationWarning
  unfolding valid_user_context_ref
  strip_context context claim = elim claim.user_context_ref [
    | none ↦ (claim, [])
    | some ref ↦
        if valid_user_context_ref ref context student_context_fields then (claim, []) else (
          record claim { user_context_ref = none },
          claim_warning "fabricated_user_context" (append " " (repr ref.field_name)) claim ∷ [],
        )
  ]

  -- The references of an advice, after its context reference.
  unfoldable pub validate_advice_refs : List SourceRef → List GenerationWarning → Claim → Validated
  unfolding resolve_refs
  validate_advice_refs sources warnings claim =
      if is_empty claim.fact_refs
      then (some claim, warnings)
      else (let resolved = resolve_refs sources claim.fact_refs in
          if nat_eq resolved.1 0
          then (some claim, warnings)
          else (let warnings' = warnings ++ fabricated_warning resolved.1 claim ∷ [] in
              if is_empty resolved.0
              then (none, warnings')
              else (some (record claim { fact_refs = resolved.0 }), warnings')))

  -- The branches on the class of the claim.
  unfoldable pub validate_as : ContentClass → List SourceRef → Context → Claim → Validated
  unfolding validate_fact strip_context validate_advice_refs
  validate_as fact sources context claim = validate_fact sources claim
  validate_as advice sources context claim =
      let (claim', warnings) = strip_context context claim in
      validate_advice_refs sources warnings claim'
  validate_as uncertain sources context claim =
      if is_empty claim.fact_refs then (some claim, []) else (
        some (record claim { fact_refs = [] }),
        claim_warning "uncertain_claim_with_refs" "" claim ∷ [],
      )

  unfoldable pub validate_claim : List SourceRef → Context → Claim → Validated
  unfolding validate_as
  validate_claim sources context claim = validate_as claim.content_class sources context claim

  pub record Loop : Type 0 where
    pub kept : List Claim
    pub dropped : List String
    pub warnings : List GenerationWarning

  -- One round: a claim is kept or its text noted, and its warnings are appended.
  abbrev pub note_claim : String → Validated → Loop → Loop
  note_claim text (none, warnings) more = record more {
    dropped = text ∷ more.dropped;
    warnings = warnings ++ more.warnings;
  }
  note_claim text (some c, warnings) more = record more {
    kept = c ∷ more.kept;
    warnings = warnings ++ more.warnings;
  }

  -- The loop over the claims.
  unfoldable pub validate_claims : List SourceRef → Context → List Claim → Loop
  unfolding validate_claim
  validate_claims sources context [] = record { kept = []; dropped = []; warnings = [] }
  validate_claims sources context (claim ∷ rest) =
      note_claim claim.text (validate_claim sources context claim)
        (validate_claims sources context rest)

  -- `cited`, the references of the kept claims
  unfoldable pub cited_of : List Claim → List SourceRef
  cited_of [] = []
  cited_of (c ∷ rest) = c.fact_refs ++ cited_of rest

  -- The first reference of each key that is not in `seen`.
  unfoldable pub unique_refs : List Key → List SourceRef → List SourceRef
  unique_refs seen [] = []
  unique_refs seen (ref ∷ rest) =
      let skip = unique_refs seen rest in
      let keep = unique_refs (key_of ref ∷ seen) rest in
      if has_key (key_of ref) seen then skip else ref ∷ keep

  unfoldable pub validate : GenerationResult → FactBundle → Context → GenerationResult
  unfolding validate_claims cited_of unique_refs remove_output_fragments empty_output
  validate result bundle context =
      let loop = validate_claims bundle.source_refs context result.claims in
      let nothing_left = not (is_empty result.claims) && is_empty loop.kept in
      let no_output : GenerationWarning = record {
        code = "no_grounded_output";
        message = warning_message "no_grounded_output";
        claim_text = none;
      } in
      record {
        output =
            if nothing_left
            then empty_output result.output
            else remove_output_fragments result.output loop.dropped;
        claims = loop.kept;
        cited_refs = unique_refs [] (cited_of loop.kept);
        warnings =
            (result.warnings ++ loop.warnings) ++ (if nothing_left then no_output ∷ [] else []);
      }
