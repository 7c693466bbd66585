-- ===== src/Crawl/Driver/Covered.antt =====
-- Nodes in progress and the queues: a node that is worked on is on one of them.
use text.Mathlib.Text.{starts_with}
use dext.Base.{
  ℕ, ◌≡◌, refl, sym, subst, elem, nat_elem, ◌||◌, if◌then◌else◌, ◌⊎◌, Bool, true, false, String,
  Option, none, some, List, [], ◌∷◌, ◌++◌, map, inl, inr, OneOf, All, OneOf-append_left,
  OneOf-append_right, OneOf-append_cases, ◌==◌, arith,
}
use dext.Crawl.Tables.{update_rows, All-update_rows_cases}
use dext.Crawl.Types.{NodeStatus, pending, in_progress, retry, done, failed, skipped, GraphNode}
use dext.Crawl.Store.{has_id, same_status, marked}
use dext.Crawl.Claim.{claimed}
use dext.Crawl.Store.Laws.{map-append}
use dext.Crawl.Retry.{
  Texts, RetryDecision, rate_limited, gateway, retry_as, dropped_as, http, reason_of,
  classify_reason, classify_fetch_failure,
}
use dext.Crawl.Driver.State.{Engine, ExtractTask, DecideTask}

-- The statuses in which the handling of a node leaves it.
abbrev pub IsLeft : NodeStatus → Type 0
IsLeft pending = ⊥
IsLeft in_progress = ⊥
IsLeft retry = Unit
IsLeft done = Unit
IsLeft failed = Unit
IsLeft skipped = Unit

IsLeft-idle : (s : NodeStatus) → IsLeft s → same_status s in_progress ≡ false
IsLeft-idle pending h = elim h [ ]
IsLeft-idle in_progress h = elim h [ ]
IsLeft-idle retry h = refl
IsLeft-idle done h = refl
IsLeft-idle failed h = refl
IsLeft-idle skipped h = refl

-- Every node in progress is one of these.
abbrev pub IsCovered : List ℕ → GraphNode → Type 0
IsCovered ids n = (same_status n.status in_progress ≡ false) ⊎ OneOf n.id ids

abbrev pub Covers : List ℕ → List GraphNode → Type 0
Covers ids nodes = All (IsCovered ids) nodes

abbrev pub task_ids : List ExtractTask → List ℕ
task_ids tasks = map (λ (t : ExtractTask). t.node_id) tasks

-- The nodes of the tasks on the queues.
abbrev pub queued : Engine → List ℕ
queued e = task_ids e.extract_queue ++ map (λ (t : DecideTask). t.node.id) e.decision_queue

pub Covers-more :
    (ids ids' : List ℕ) (nodes : List GraphNode)
    → ((a : ℕ) → OneOf a ids → OneOf a ids')
    → Covers ids nodes
    → Covers ids' nodes
Covers-more ids ids' [] more h = tt
Covers-more ids ids' (n ∷ nodes) more (inl idle, rest) =
    (inl idle, Covers-more ids ids' nodes more rest)
Covers-more ids ids' (n ∷ nodes) more (inr one, rest) =
    (inr (more n.id one), Covers-more ids ids' nodes more rest)

pub Covers-claim :
    (ids : List ℕ) (id run_id now : ℕ) (nodes : List GraphNode)
    → Covers ids nodes
    → Covers (id ∷ ids) (update_rows (has_id id) (claimed run_id now) nodes)
unfolding claimed
Covers-claim ids id run_id now nodes h =
    All-update_rows_cases (IsCovered ids) (IsCovered (id ∷ ids)) (has_id id) (claimed run_id now)
      nodes (λ n t covered. inr (inl (ground (arith, t))))
      (λ n f covered. elim covered [ inl idle ↦ inl idle | inr one ↦ inr (inr one) ]) h

other_one :
    (ids : List ℕ) (id : ℕ) (n : GraphNode)
    → has_id id n ≡ false
    → IsCovered (id ∷ ids) n
    → IsCovered ids n
other_one ids id n f (inl idle) = inl idle
other_one ids id n f (inr (inl same)) = absurd (ground (arith, f, same))
other_one ids id n f (inr (inr there)) = inr there

pub Covers-mark :
    (ids : List ℕ) (id now : ℕ) (status : NodeStatus) (last_error content_hash : Option String)
    (nodes : List GraphNode)
    → IsLeft status
    → Covers (id ∷ ids) nodes
    → Covers ids
        (update_rows (has_id id) (marked status last_error content_hash none false now) nodes)
unfolding marked
Covers-mark ids id now status last_error content_hash nodes left h =
    All-update_rows_cases (IsCovered (id ∷ ids)) (IsCovered ids) (has_id id)
      (marked status last_error content_hash none false now) nodes
      (λ n t covered. inl (IsLeft-idle status left)) (other_one ids id) h

OneOf-added :
    {A : Type 0} (f : A → ℕ) (t : A) (xs : List A) (a : ℕ)
    → OneOf a (f t ∷ map f xs)
    → OneOf a (map f (xs ++ t ∷ []))
OneOf-added f t xs a h = subst (OneOf a) (sym (map-append f xs (t ∷ []))) (elim h [
  | inl same ↦ OneOf-append_right a (map f xs) (f t ∷ []) (inl same)
  | inr one ↦ OneOf-append_left a (map f xs) (f t ∷ []) one
])

-- A task more covers its node, on either queue.
pub OneOf-extract_task :
    (e : Engine) (t : ExtractTask) (a : ℕ)
    → OneOf a (t.node_id ∷ queued e)
    → OneOf a (queued (record e { extract_queue = e.extract_queue ++ t ∷ [] }))
OneOf-extract_task e t a h =
    let f : ExtractTask → ℕ = λ x. x.node_id in
    let g : DecideTask → ℕ = λ x. x.node.id in
    elim (OneOf-append_cases a (t.node_id ∷ map f e.extract_queue) (map g e.decision_queue) h) [
      | inl first ↦
          OneOf-append_left a (map f (e.extract_queue ++ t ∷ [])) (map g e.decision_queue)
            (OneOf-added f t e.extract_queue a first)
      | inr second ↦
          OneOf-append_right a (map f (e.extract_queue ++ t ∷ [])) (map g e.decision_queue) second
    ]

pub OneOf-decide_task :
    (e : Engine) (t : DecideTask) (a : ℕ)
    → OneOf a (t.node.id ∷ queued e)
    → OneOf a (queued (record e { decision_queue = e.decision_queue ++ t ∷ [] }))
OneOf-decide_task e t a h =
    let f : ExtractTask → ℕ = λ x. x.node_id in
    let g : DecideTask → ℕ = λ x. x.node.id in
    let add = λ (one : OneOf a (t.node.id ∷ map g e.decision_queue)).
      OneOf-append_right a (map f e.extract_queue) (map g (e.decision_queue ++ t ∷ []))
        (OneOf-added g t e.decision_queue a one) in
    elim h [
      | inl same ↦ add (inl same)
      | inr one ↦ elim (OneOf-append_cases a (map f e.extract_queue) (map g e.decision_queue) one) [
        | inl first ↦
            OneOf-append_left a (map f e.extract_queue) (map g (e.decision_queue ++ t ∷ [])) first
        | inr second ↦ add (inr second)
      ]
    ]

pub OneOf-beside :
    (id : ℕ) (before after_it held : List ℕ)
    → ((a : ℕ) → OneOf a (id ∷ before) → OneOf a after_it)
    → (a : ℕ) → OneOf a (id ∷ (before ++ held))
    → OneOf a (after_it ++ held)
OneOf-beside id before after_it held more a h = elim (OneOf-append_cases a (id ∷ before) held h) [
  | inl first ↦ OneOf-append_left a after_it held (more a first)
  | inr second ↦ OneOf-append_right a after_it held second
]

if-IsLeft :
    (b : Bool) (x y : RetryDecision)
    → IsLeft x.status
    → IsLeft y.status
    → IsLeft (if b then x else y).status
if-IsLeft true x y left_x left_y = left_x
if-IsLeft false x y left_x left_y = left_y

classify_reason-IsLeft :
    (used : Texts) (reason lowered : String) → IsLeft (classify_reason used reason lowered).status
classify_reason-IsLeft used reason lowered =
    if-IsLeft (elem lowered ("human_skip" ∷ "wechat_redirect" ∷ "offsite_redirect" ∷ []))
      (dropped_as skipped reason) _ tt
      (if-IsLeft (starts_with lowered "terminal_unavailable:") (dropped_as skipped reason) _ tt (
        if-IsLeft (lowered == "bad_url" || starts_with lowered "invalid_url")
          (dropped_as failed reason) (retry_as reason "retry") tt tt))

pub classify_fetch_failure-IsLeft :
    (used : Texts) (reason : Option String) (code : Option ℕ)
    → IsLeft (classify_fetch_failure used reason code).status
unfolding classify_fetch_failure
classify_fetch_failure-IsLeft used reason none =
    classify_reason-IsLeft used (reason_of used reason) (used.lower (reason_of used reason))
classify_fetch_failure-IsLeft used reason (some code) =
    if-IsLeft (nat_elem code rate_limited) (retry_as (http used code) "rate_limited") _ tt (
      if-IsLeft (nat_elem code gateway) (retry_as (http used code) "retry")
        (classify_reason used (reason_of used reason) (used.lower (reason_of used reason))) tt
        (classify_reason-IsLeft used (reason_of used reason) (used.lower (reason_of used reason))))
