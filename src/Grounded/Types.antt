-- ===== src/Grounded/Types.antt =====
-- source_ref.py, content.py, fact_bundle.py, claims.py: references, facts and claims.
use dext.Base.{String, Option, some, List, [], ◌∷◌, is_empty, if◌then◌else◌}
use dext.Grounded.Output.{Value}

pub record SourceRef : Type 0 where
  pub doc_path : String
  pub heading_path : String
  pub chunk_hash : String
  pub quote_or_summary : String
  pub official_url : Option String
  pub last_verified : Option String

pub record UserContextRef : Type 0 where
  pub field_name : String
  pub value_bucket : Option String
  pub quote_or_summary : String

pub data ContentClass : Type 0 where
  fact advice uncertain : ContentClass

pub record FactItem : Type 0 where
  pub field_name : String
  pub value : String
  pub content_class : ContentClass
  pub source_refs : List SourceRef

-- `FactItem.__post_init__`: a fact with no source is uncertain.
unfoldable pub fact_item : FactItem → FactItem
fact_item f = if is_empty f.source_refs then record f { content_class = uncertain } else f

pub record FactBundle : Type 0 where
  pub build_id : String
  pub subject_id : String
  pub facts : List FactItem
  pub source_refs : List SourceRef

pub record GenerationWarning : Type 0 where
  pub code : String
  pub message : String
  pub claim_text : Option String

pub record Claim : Type 0 where
  pub text : String
  pub content_class : ContentClass
  pub fact_refs : List SourceRef
  pub user_context_ref : Option UserContextRef

pub record GenerationResult : Type 0 where
  pub output : Value
  pub claims : List Claim
  pub cited_refs : List SourceRef
  pub warnings : List GenerationWarning

abbrev shape_warning : String → String → Claim → GenerationWarning
shape_warning code message c = record { code = code; message = message; claim_text = some c.text }

-- `Claim.validate`
unfoldable pub claim_shape : Claim → List GenerationWarning
claim_shape c = elim c.content_class [
  | fact ↦
      if is_empty c.fact_refs
      then shape_warning "fact_ref_missing" "fact claim must carry non-empty fact_refs" c ∷ []
      else []
  | advice ↦ []
  | uncertain ↦
      if is_empty c.fact_refs
      then []
      else shape_warning "uncertain_claim_with_refs"
          "uncertain claim must not carry fact_refs as if certain" c
        ∷ []
]
