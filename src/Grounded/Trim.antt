-- ===== src/Grounded/Trim.antt =====
-- trim.py: the facts of a bundle that fit a token budget.
pub mod Kept
use Prim.Native.Nat.{◌/◌}
use dext.Base.{
  ℕ, zero, ◌+◌, ◌-◌, String, Bool, true, false, not, ◌&&◌, ◌||◌, Option, none, some, List, [], ◌∷◌,
  ◌++◌, ltb, leb, nat_eq, any, keep_if, or_else, if◌then◌else◌, ◌==◌,
}
use Prim.Native.String.{count}
use dext.Grounded.Types.{SourceRef, FactItem, FactBundle}

-- What the code uses of the rules and of the standard library's texts: whether a contact pattern
-- is found in a text, and whether a query term is, both in lower case.
pub record Matching : Type 0 where
  pub has_contact : String → Bool
  pub mentions : String → String → Bool

module _ (m : Matching) where
  open m use {has_contact, mentions}

  -- The texts of a reference that are searched for contacts.
  unfoldable pub ref_has_contact : SourceRef → Bool
  ref_has_contact ref = any has_contact (
      ref.doc_path
      ∷ ref.heading_path
      ∷ ref.chunk_hash
      ∷ ref.quote_or_summary
      ∷ or_else ref.official_url ""
      ∷ or_else ref.last_verified ""
      ∷ [])

  unfoldable pub item_has_contact : FactItem → Bool
  unfolding ref_has_contact
  item_has_contact item = has_contact item.value || any ref_has_contact item.source_refs

  unfoldable pub item_matches_query : List String → FactItem → Bool
  item_matches_query terms item =
      any (λ t. mentions t item.value) terms
      || any (λ r. any (λ t. mentions t r.quote_or_summary) terms) item.source_refs

  -- `len(text) // 4`, of characters
  unfoldable pub estimate_tokens : String → ℕ
  estimate_tokens s = count s / 4

  -- The loop over the facts. A budget that is not positive is 0 here: no other item is kept then.
  unfoldable pub trim_facts : List String → ℕ → ℕ → List FactItem → List FactItem
  unfolding item_has_contact item_matches_query estimate_tokens
  trim_facts terms token_budget remaining [] = []
  trim_facts terms token_budget remaining (item ∷ rest) =
      let skip = trim_facts terms token_budget remaining rest in
      let spend = trim_facts terms token_budget (remaining - estimate_tokens item.value) rest in
      if item_has_contact item
      then skip
      else if item_matches_query terms item
      then item ∷ skip
      else if nat_eq token_budget 0
      then skip
      else if leb (estimate_tokens item.value) remaining
      then item ∷ spend
      else skip

  abbrev pub same_option : Option String → Option String → Bool
  same_option none none = true
  same_option (some a) (some b) = a == b
  same_option _ _ = false

  -- The identity of a reference here: five of its fields.
  unfoldable pub same_ref : SourceRef → SourceRef → Bool
  same_ref a b =
      a.doc_path == b.doc_path
      && (a.heading_path == b.heading_path
          && (a.chunk_hash == b.chunk_hash
              && (a.quote_or_summary == b.quote_or_summary
                  && same_option a.official_url b.official_url)))

  unfoldable pub is_used : List FactItem → SourceRef → Bool
  unfolding same_ref
  is_used kept ref = any (λ item. any (λ r. same_ref ref r) item.source_refs) kept

  unfoldable pub trim : FactBundle → ℕ → List String → FactBundle
  unfolding trim_facts is_used
  trim bundle token_budget terms =
      let kept = trim_facts terms token_budget token_budget bundle.facts in
      record {
        build_id = bundle.build_id;
        subject_id = bundle.subject_id;
        facts = kept;
        source_refs =
            keep_if (λ ref. is_used kept ref && not (ref_has_contact ref)) bundle.source_refs;
      }
