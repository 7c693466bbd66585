-- ===== src/Crawl/Retry.antt =====
-- engine/retry.py: what becomes of a node after a failed fetch, an unusable page or a failed extraction.
use Prim.Native.String.{count}
use text.Mathlib.Text.{find?, starts_with}
use dext.Base.{
  ℕ, String, Bool, true, false, ◌&&◌, ◌||◌, Option, none, some, List, [], ◌∷◌, ltb, leb, nat_elem,
  elem, any, is_some, is_empty, append, if◌then◌else◌, ◌==◌,
}
use dext.Base.Text.{strip, is_blank, decimal}
use dext.Bridge.Fetcher.{text_or}
use dext.Crawl.Types.{NodeStatus, retry, failed, skipped, PageSnapshot}

pub record RetryDecision : Type 0 where
  pub status : NodeStatus
  pub last_error : Option String
  pub resolver : Option String
  pub retryable : Bool

abbrev pub rate_limited : List ℕ
rate_limited = 429 ∷ []

abbrev pub gateway : List ℕ
gateway = 502 ∷ 503 ∷ 504 ∷ []

abbrev pub retry_as : String → String → RetryDecision
retry_as last_error resolver = record {
  status = retry;
  last_error = some last_error;
  resolver = some resolver;
  retryable = true;
}

abbrev pub dropped_as : NodeStatus → String → RetryDecision
dropped_as status last_error = record {
  status = status;
  last_error = some last_error;
  resolver = some "dropped";
  retryable = false;
}

-- `token in text`
abbrev pub contains : String → String → Bool
contains text token = is_some (find? text token)

-- What the code uses of the standard library: lower case, and the regular expression `\b404\b`.
pub record Texts : Type 0 where
  pub lower : String → String
  pub mentions_404 : String → Bool

module _ (texts : Texts) where
  open texts use {lower, mentions_404}

  abbrev is_terminal_unavailable_reason : String → Bool
  is_terminal_unavailable_reason reason = starts_with reason "terminal_unavailable:"

  abbrev pub classify_reason : String → String → RetryDecision
  classify_reason reason lowered =
      if elem lowered ("human_skip" ∷ "wechat_redirect" ∷ "offsite_redirect" ∷ [])
      then dropped_as skipped reason
      else if is_terminal_unavailable_reason lowered
      then dropped_as skipped reason
      else if lowered == "bad_url" || starts_with lowered "invalid_url"
      then dropped_as failed reason
      else retry_as reason "retry"

  -- `(block_reason or "fetch_failed").strip() or "fetch_failed"`
  abbrev pub reason_of : Option String → String
  reason_of block_reason =
      text_or (some (strip (text_or block_reason "fetch_failed"))) "fetch_failed"

  abbrev pub http : ℕ → String
  http code = append "http_" (decimal code)

  abbrev pub classify_code : Option ℕ → Option String → RetryDecision
  classify_code none block_reason =
      classify_reason (reason_of block_reason) (lower (reason_of block_reason))
  classify_code (some code) block_reason =
      if nat_elem code rate_limited
      then retry_as (http code) "rate_limited"
      else if nat_elem code gateway
      then retry_as (http code) "retry"
      else classify_reason (reason_of block_reason) (lower (reason_of block_reason))

  unfoldable pub classify_fetch_failure : Option String → Option ℕ → RetryDecision
  unfolding strip decimal
  classify_fetch_failure block_reason status_code = classify_code status_code block_reason

  abbrev unavailable_tokens : List String
  unavailable_tokens =
      "not found" ∷ "page not found" ∷ "页面不存在" ∷ "网页不存在" ∷ "未找到页面" ∷ "找不到页面" ∷ "访问的页面不存在"
      ∷ "您访问的页面不存在" ∷ "信息不存在" ∷ "该信息不存在" ∷ "文章不存在" ∷ []

  abbrev removed_tokens : List String
  removed_tokens =
      "内容已撤销" ∷ "内容被撤销" ∷ "该内容已被删除" ∷ "内容已被删除" ∷ "文章已被删除" ∷ "信息已被删除" ∷ "该信息已删除" ∷ "已下线" ∷ "页面已下线"
      ∷ "内容已失效" ∷ []

  unfoldable pub has_terminal_unavailable_text : String → Bool
  has_terminal_unavailable_text text =
      if text == "" then false else mentions_404 text || any (contains text) unavailable_tokens

  unfoldable pub has_removed_text : String → Bool
  has_removed_text text = if text == "" then false else any (contains text) removed_tokens

  abbrev is_404 : Option ℕ → Bool
  is_404 none = false
  is_404 (some code) = nat_elem code (404 ∷ [])

  abbrev haystack : PageSnapshot → String
  haystack s = lower (strip (append s.title (append "\n" s.text_snapshot)))

  unfoldable pub assess_terminal_unavailable_page : PageSnapshot → Option ℕ → Option String
  unfolding strip is_blank has_terminal_unavailable_text has_removed_text
  assess_terminal_unavailable_page snapshot status_code =
      if is_404 status_code
      then some "not_found"
      else if is_blank snapshot.text_snapshot && is_empty snapshot.links
      then some "empty_page"
      else if leb (count snapshot.text_snapshot) 4000
          && has_terminal_unavailable_text (haystack snapshot)
      then some "not_found"
      else if leb (count snapshot.text_snapshot) 4000 && has_removed_text (haystack snapshot)
      then some "content_removed"
      else none

-- `ExtractionResult`, of the extraction by a language model; the payloads are a type of its own, and of
-- `recoverable` only the truth counts.
pub record ExtractionResult (Payload : Type 0) : Type 0 where
  pub payloads : List Payload
  pub failure_type : Option String
  pub raw_preview : String
  pub recoverable : Bool
  pub exclusion_reason : Option String

-- Of the failure type, whether the failure is recoverable, the index of the attempt and the bound.
unfoldable pub classify_extraction_failure : Option String → Bool → ℕ → ℕ → RetryDecision
classify_extraction_failure failure_type recoverable attempt_index invalid_json_max_retry =
    let kind = text_or failure_type "extraction_failed" in
    if kind == "invalid_json"
    then (if ltb attempt_index invalid_json_max_retry
        then retry_as "invalid_json" "retry"
        else retry_as "invalid_json_retry_exhausted" "retry")
    else if kind == "no_structured_data"
    then (if recoverable
        then retry_as "rich_detail_no_structured_data" "retry"
        else dropped_as failed "no_structured_data")
    else dropped_as failed kind
