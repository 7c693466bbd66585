-- ===== src/Crawl/Driver/Cached.antt =====
-- What the page cache makes of a failed fetch.
use dext.Base.{
  ℕ, ◌≡◌, refl, sym, ap, ◌∙◌, String, true, false, Option, none, some, List, [], ◌∷◌, ◌++◌,
  Bool-cases, inl, inr, is_some, or_else, ok, Result-cases, ◌==◌, eq_iff, ok-injective, nat_eq,
}
use dext.Bridge.Types.{FetchAction, FetchResult}
use dext.Crawl.Tables.{select_row, update_rows}
use dext.Crawl.Types.{NodeStatus, PageCache, ClaimedNode, Database}
use dext.Crawl.Store.{
  is_cache_of, overwritten, get_page_cache, save_page_cache, record_failure, mark_node,
}
use dext.Crawl.Retry.{Texts, classify_fetch_failure}
use dext.Crawl.Driver.{
  Outside, Engine, count_fetch_failed, mark, fail_fetch, failed_cache, identity_url_for,
  process_fresh_result, process_cached_result, handle_claimed_node,
}

url_same : (url : String) → (url == url) ≡ true
url_same url = (eq_iff url url).1 refl

overwritten-same : (payload c : PageCache) → c.url ≡ payload.url → overwritten payload c ≡ payload
overwritten-same payload c same = ap (λ url. record payload { url = url }) same

select_row-update :
    (payload : PageCache) (caches : List PageCache)
    → is_some (select_row (is_cache_of payload.url) caches) ≡ true
    → select_row
        (is_cache_of payload.url)
        (update_rows (is_cache_of payload.url) (overwritten payload) caches)
      ≡ some payload
unfolding select_row update_rows
select_row-update payload [] h = cc h
select_row-update payload (c ∷ caches) h = elim (Bool-cases (c.url == payload.url)) [
  | inl t ↦ rw t (rw t (ap some (overwritten-same payload c ((eq_iff c.url payload.url).0 t))))
  | inr f ↦ rw f (rw f (select_row-update payload caches (rw f at h)))
]

select_row-append :
    (payload : PageCache) (caches : List PageCache)
    → is_some (select_row (is_cache_of payload.url) caches) ≡ false
    → select_row (is_cache_of payload.url) (caches ++ payload ∷ []) ≡ some payload
unfolding select_row
select_row-append payload [] h = rw (url_same payload.url) refl
select_row-append payload (c ∷ caches) h = elim (Bool-cases (c.url == payload.url)) [
  | inl t ↦ let bad = rw t at h in cc bad
  | inr f ↦ rw f (select_row-append payload caches (rw f at h))
]

select_row-update_other :
    (url : String) (payload : PageCache) (caches : List PageCache)
    → (payload.url == url) ≡ false
    → select_row
        (is_cache_of url)
        (update_rows (is_cache_of payload.url) (overwritten payload) caches)
      ≡ select_row (is_cache_of url) caches
unfolding select_row update_rows
select_row-update_other url payload [] other = refl
select_row-update_other url payload (c ∷ caches) other = elim (Bool-cases (c.url == payload.url)) [
  | inl t ↦
      let apart : (c.url == url) ≡ false =
        ap (λ u. u == url) ((eq_iff c.url payload.url).0 t) ∙ other in
      rw t (rw apart (select_row-update_other url payload caches other))
  | inr f ↦ rw f (rw (select_row-update_other url payload caches other) refl)
]

select_row-append_other :
    (url : String) (payload : PageCache) (caches : List PageCache)
    → (payload.url == url) ≡ false
    → select_row (is_cache_of url) (caches ++ payload ∷ []) ≡ select_row (is_cache_of url) caches
unfolding select_row
select_row-append_other url payload [] other = rw other refl
select_row-append_other url payload (c ∷ caches) other =
    rw (select_row-append_other url payload caches other) refl

pub get-save_page_cache :
    (payload : PageCache) (db : Database)
    → get_page_cache payload.url (save_page_cache payload db) ≡ some payload
unfolding get_page_cache save_page_cache
get-save_page_cache payload db =
    elim (Bool-cases (is_some (select_row (is_cache_of payload.url) db.caches))) [
      | inl there ↦ rw there (select_row-update payload db.caches there)
      | inr new ↦ rw new (select_row-append payload db.caches new)
    ]

-- A page that is saved is what its address gives from then on, each column of it, also where there
-- was a page at that address; what every other address gives is as before.
pub page_cache_round_trip :
    (payload : PageCache) (db : Database) (url : String)
    → (payload.url == url) ≡ false
    → (get_page_cache payload.url (save_page_cache payload db) ≡ some payload)
      × (get_page_cache url (save_page_cache payload db) ≡ get_page_cache url db)
unfolding get_page_cache save_page_cache
page_cache_round_trip payload db url other = (
  get-save_page_cache payload db,
  elim (Bool-cases (is_some (select_row (is_cache_of payload.url) db.caches))) [
    | inl there ↦ rw there (select_row-update_other url payload db.caches other)
    | inr new ↦ rw new (select_row-append_other url payload db.caches other)
  ],
)

caches-mark_node :
    (id : ℕ) (status : NodeStatus) (last_error content_hash : Option String) (now : ℕ)
    (db : Database) {db' : Database}
    → mark_node id status last_error content_hash none false now db ≡ ok db'
    → db'.caches ≡ db.caches
unfolding mark_node
caches-mark_node id status last_error content_hash now db h =
    elim (Bool-cases (is_some (select_row (λ n. nat_eq n.id id) db.nodes))) [
      | inl there ↦ sym (ap (λ (d : Database). d.caches) (ok-injective (rw there at h)))
      | inr missing ↦ let bad = rw missing at h in cc bad
    ]

caches-mark :
    (id : ℕ) (status : NodeStatus) (last_error content_hash : Option String) (now : ℕ) (e : Engine)
    {e' : Engine}
    → mark id status last_error content_hash now e ≡ ok e'
    → e'.db.caches ≡ e.db.caches
caches-mark id status last_error content_hash now e h =
    elim (Result-cases (mark_node id status last_error content_hash none false now e.db)) [
      | inl (db, is_marked) ↦
          sym (ap (λ (d : Engine). d.db.caches) (ok-injective (rw is_marked at h)))
          ∙ caches-mark_node id status last_error content_hash now e.db is_marked
      | inr (error, failing) ↦ let bad = rw failing at h in cc bad
    ]

caches-fail_fetch :
    (used : Texts) (reason : String) (code : Option ℕ) (url : String) (id now : ℕ) (e : Engine)
    {e' : Engine}
    → fail_fetch used reason code url id now e ≡ ok e'
    → e'.db.caches ≡ e.db.caches
unfolding fail_fetch record_failure
caches-fail_fetch used reason code url id now e h =
    elim (Bool-cases
      (or_else (classify_fetch_failure used (some reason) code).resolver "" == "rate_limited")) [
        | inl limited ↦ caches-mark id _ _ none now _ (rw limited at h)
        | inr free ↦ caches-mark id _ _ none now _ (rw free at h)
      ]

module _ (out : Outside) (node : ClaimedNode) (action : Option FetchAction) (r : FetchResult)
    (reason : String) (blocked : r.block_reason ≡ some reason) (given : (reason == "") ≡ false)
    (empty : r.html ≡ "") where
  failed_cache-saved :
      (now : ℕ) (e e' : Engine)
      → process_fresh_result out node action r now e ≡ ok e'
      → get_page_cache r.identity_url e'.db ≡ some (failed_cache r)
  unfolding process_fresh_result get_page_cache
  failed_cache-saved now e e' h =
      let reason_given : (or_else r.block_reason "" == "") ≡ false =
        ap (λ b. or_else b "" == "") blocked ∙ given in
      let failed = rw reason_given at h in
      ap (select_row (is_cache_of r.identity_url)) (
        caches-fail_fetch out.texts_used (or_else r.block_reason "") r.status_code r.identity_url
          node.id now _ failed)
      ∙ get-save_page_cache (failed_cache r) e.db

  -- A fetch that failed, with a reason and no page, as all failures of the bridge have it, is never
  -- tried again: whatever node of that address is claimed later in the same tables, and whatever the
  -- bridge would answer then, the bridge is not asked, and the node fails by the old reason once more,
  -- also if that reason was one to retry.
  pub failed_fetch_is_replayed :
      (now now' : ℕ) (e e' : Engine) (out' : Outside) (node' : ClaimedNode)
      → process_fresh_result out node action r now e ≡ ok e'
      → identity_url_for node' ≡ r.identity_url
      → handle_claimed_node out' node' now' e'
        ≡ fail_fetch out'.texts_used reason r.status_code r.identity_url node'.id now'
            (count_fetch_failed e')
  unfolding handle_claimed_node process_cached_result
  failed_fetch_is_replayed now now' e e' out' node' h same =
      let held : get_page_cache (identity_url_for node') e'.db ≡ some (failed_cache r) =
        ap (λ url. get_page_cache url e'.db) same ∙ failed_cache-saved now e e' h in
      rw (held, empty, blocked, given) refl
