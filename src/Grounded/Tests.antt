-- ===== src/Grounded/Tests.antt =====
-- The citation validator and the trimming at concrete inputs.
use dext.Base.{
  ◌≤◌, ◌≡◌, refl, String, true, not, ◌&&◌, none, some, List, [], ◌∷◌, All, ◌==◌, if◌then◌else◌,
}
use dext.Base.Text.{decimal}
use dext.Grounded.Output.{str, obj, field, end, remove_output_fragments}
use dext.Grounded.Types.{SourceRef, fact, advice, FactBundle, Claim, GenerationResult}
use dext.Grounded.Citation.{
  Surroundings, Context, single, absent, resolve_refs, validate_advice_refs, validate,
}
use dext.Grounded.Citation.Laws.{IsGenuine, IsCited}
use dext.Grounded.Citation.Results.{HasUniqueKeys, validate-IsCited}
use dext.Grounded.Trim.{Matching, is_used, ref_has_contact, trim}
use dext.Grounded.Trim.Kept.{IsSelection, spent, trim-IsSelection}

-- A digest that keeps the text.
abbrev surroundings : Surroundings
surroundings = record {
  digest = λ s. s;
  warning_message = λ s. s;
  student_context_fields = "school" ∷ "gpa_bucket" ∷ [];
  repr = λ s. s;
}

abbrev ref_a : SourceRef
ref_a = record {
  doc_path = "a.md";
  heading_path = "报名";
  chunk_hash = "h1";
  quote_or_summary = "九月报名";
  official_url = none;
  last_verified = some "2025-01-01";
}

-- The reference as a model may report it: an older verification, or another quote.
abbrev older : SourceRef
older = record ref_a { last_verified = none }

abbrev forged : SourceRef
forged = record ref_a { quote_or_summary = "十月报名" }

abbrev claim_of : String → List SourceRef → Claim
claim_of t refs = record {
  text = t;
  content_class = fact;
  fact_refs = refs;
  user_context_ref = none;
}

abbrev result : GenerationResult
result = record {
  output = obj (field "answer" (str "九月报名。十月报名。") end);
  claims =
      claim_of "九月报名。" (older ∷ [])
      ∷ claim_of "十月报名。" (forged ∷ [])
      ∷ record (claim_of "多练习" (older ∷ older ∷ [])) { content_class = advice }
      ∷ [];
  cited_refs = [];
  warnings = [];
}

abbrev bundle : FactBundle
bundle = record {
  build_id = "b1";
  subject_id = "c-1";
  facts =
      record {
        field_name = "schedule";
        value = "九月报名";
        content_class = fact;
        source_refs = ref_a ∷ [];
      }
      ∷ record { field_name = "contact"; value = "@ 邮箱"; content_class = fact; source_refs = [] }
      ∷ [];
  source_refs = ref_a ∷ [];
}

abbrev context : Context
context = some (λ name. if name == "school" then single "x" else absent)

program : Unit {0}
unfolding validate resolve_refs validate_advice_refs decimal remove_output_fragments trim
program = tt

-- The forged claim is dropped and its text removed; the fact gets the bundle's own reference.
abbrev validated : GenerationResult
validated = record {
  output = obj (field "answer" (str "九月报名。") end);
  claims =
      claim_of "九月报名。" (ref_a ∷ [])
      ∷ record (claim_of "多练习" (older ∷ older ∷ [])) { content_class = advice }
      ∷ [];
  cited_refs = ref_a ∷ [];
  warnings =
      record { code = "fabricated_ref"; message = "fabricated_ref: 1"; claim_text = some "十月报名。" }
      ∷ [];
}

validates : validate surroundings result bundle context ≡ validated
unfolding program
validates = refl

validate-IsCited_example :
    All
      (IsCited surroundings (ref_a ∷ []) context)
      (validate surroundings result bundle context).claims
    × All
        (IsGenuine surroundings (ref_a ∷ []))
        (validate surroundings result bundle context).cited_refs
    × HasUniqueKeys (validate surroundings result bundle context).cited_refs
validate-IsCited_example = validate-IsCited surroundings result bundle context

-- Contacts carry an at sign; a term is found where it is the text.
abbrev matching : Matching
matching = record { has_contact = λ s. s == "@ 邮箱"; mentions = λ t s. t == s }

abbrev trimmed : FactBundle
trimmed = trim matching bundle 2 ("竞赛" ∷ [])

trim-IsSelection_example :
    IsSelection matching ("竞赛" ∷ []) bundle.facts trimmed.facts
    × (spent matching ("竞赛" ∷ []) trimmed.facts ≤ 2)
    × All
        (λ r. (is_used matching trimmed.facts r && not (ref_has_contact matching r)) ≡ true)
        trimmed.source_refs
trim-IsSelection_example = trim-IsSelection matching bundle 2 ("竞赛" ∷ [])
