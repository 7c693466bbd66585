-- ===== src/Planning/Card.antt =====
-- contracts/catalog.py: the competition card, and the categories that the catalog admits.
use dext.Base.{String, Bool, Option, List, [], ◌∷◌}
use dext.Grounded.Types.{SourceRef}

pub data CatalogEvidenceStatus : Type 0 where
  grounded uncertain conflict : CatalogEvidenceStatus

pub record CompetitionFieldEvidence : Type 0 where
  pub field_name : String
  pub values : List String
  pub status : CatalogEvidenceStatus
  pub source_refs : List SourceRef
  pub review_notice : Option String

-- The values of `CompetitionCategory`
abbrev pub competition_categories : List String
competition_categories =
    "计算机" ∷ "电子与信息" ∷ "机器人与人工智能" ∷ "工学" ∷ "理学" ∷ "医学与生命科学" ∷ "经管" ∷ "语言与艺术" ∷ "综合与创业" ∷ "数学建模" ∷ []

pub record CompetitionCard : Type 0 where
  pub competition_id : String
  pub display_name : String
  pub category : String
  pub tags : List String
  pub summary : String
  pub eligibility : String
  pub schedule : String
  pub team_policy : String
  pub materials : List String
  pub ai_compliance : String
  pub preparation_focus : List String
  pub risk_flags : List String
  pub official_links : List String
  pub internal_source_refs : List SourceRef
  pub in_2024_catalog : Bool
  pub last_verified : Option String
  pub field_evidence : List CompetitionFieldEvidence
