-- ===== src/Crawl/Driver/Summary.antt =====
-- What the final summary says of the nodes.
use dext.Base.{
  ℕ, ◌+◌, ◌≡◌, refl, ap, ◌⊎◌, ◌↔◌, true, List, [], ◌∷◌, length, keep_if, All, inl, inr, nat_eq,
  if◌then◌else◌, Bool-cases, ◌==◌, eq_iff, arith,
}
use dext.Crawl.Types.{NodeStatus, done, failed, skipped, pending, in_progress, retry, GraphNode}
use dext.Crawl.Store.{same_status}
use dext.Crawl.Driver.{Engine, CrawlSummary, has_status, in_units, build_summary}

abbrev count : NodeStatus → List GraphNode → ℕ
count status nodes = length (keep_if (has_status status) nodes)

abbrev blocking : List GraphNode → ℕ
blocking nodes =
    count failed nodes + count retry nodes + count pending nodes + count in_progress nodes

abbrev pub IsSettled : GraphNode → Type 0
IsSettled n = (n.status ≡ done) ⊎ (n.status ≡ skipped)

abbrev hit : NodeStatus → NodeStatus → ℕ
hit status wanted = if same_status status wanted then 1 else 0

count-step :
    (wanted : NodeStatus) (n : GraphNode) (nodes : List GraphNode)
    → count wanted (n ∷ nodes) ≡ hit n.status wanted + count wanted nodes
count-step wanted n nodes = elim (Bool-cases (has_status wanted n)) [
  | inl t ↦ rw t (omega arith)
  | inr f ↦ rw f (omega arith)
]

-- The statuses that block the completion.
abbrev blocks : NodeStatus → ℕ
blocks done = 0
blocks skipped = 0
blocks failed = 1
blocks retry = 1
blocks pending = 1
blocks in_progress = 1

hit-blocks :
    (s : NodeStatus) → hit s failed + hit s retry + hit s pending + hit s in_progress ≡ blocks s
hit-blocks pending = refl
hit-blocks in_progress = refl
hit-blocks retry = refl
hit-blocks done = refl
hit-blocks failed = refl
hit-blocks skipped = refl

hit-one :
    (s : NodeStatus)
    → hit s done + hit s failed + hit s skipped + hit s retry + hit s pending + hit s in_progress
      ≡ 1
hit-one pending = refl
hit-one in_progress = refl
hit-one retry = refl
hit-one done = refl
hit-one failed = refl
hit-one skipped = refl

settled : (s : NodeStatus) → blocks s ≡ 0 → (s ≡ done) ⊎ (s ≡ skipped)
settled pending h = absurd (omega (arith, h))
settled in_progress h = absurd (omega (arith, h))
settled retry h = absurd (omega (arith, h))
settled failed h = absurd (omega (arith, h))
settled done h = inl refl
settled skipped h = inr refl

unblocking : (s : NodeStatus) → (s ≡ done) ⊎ (s ≡ skipped) → blocks s ≡ 0
unblocking s (inl e) = ap blocks e
unblocking s (inr e) = ap blocks e

blocking-step :
    (n : GraphNode) (nodes : List GraphNode)
    → blocking (n ∷ nodes) ≡ blocks n.status + blocking nodes
blocking-step n nodes = omega (
  arith,
  count-step failed n nodes,
  count-step retry n nodes,
  count-step pending n nodes,
  count-step in_progress n nodes,
  hit-blocks n.status,
)

blocking_iff : (nodes : List GraphNode) → (blocking nodes ≡ 0) ↔ All IsSettled nodes
blocking_iff [] = (λ h. tt, λ h. refl)
blocking_iff (n ∷ nodes) = (
  λ h. (
    settled n.status (omega (arith, h, blocking-step n nodes)),
    (blocking_iff nodes).0 (omega (arith, h, blocking-step n nodes)),
  ),
  λ h. omega (arith, blocking-step n nodes, unblocking n.status h.0, (blocking_iff nodes).1 h.1),
)

abbrev pub total : CrawlSummary → ℕ
total s =
    s.done_nodes + s.failed_nodes + s.skipped_nodes + s.retry_nodes + s.pending_nodes
    + s.in_progress_nodes

abbrev count_all : List GraphNode → ℕ
count_all nodes =
    count done nodes
    + count failed nodes
    + count skipped nodes
    + count retry nodes
    + count pending nodes
    + count in_progress nodes

count_all-length : (nodes : List GraphNode) → count_all nodes ≡ length nodes
count_all-length [] = refl
count_all-length (n ∷ nodes) = omega (
  arith,
  count-step done n nodes,
  count-step failed n nodes,
  count-step skipped n nodes,
  count-step retry n nodes,
  count-step pending n nodes,
  count-step in_progress n nodes,
  hit-one n.status,
  count_all-length nodes,
)

completed_iff_IsSettled :
    (professors : ℕ) (e : Engine)
    → ((build_summary professors e).status ≡ "completed")
      ↔ All IsSettled (keep_if (in_units e.org_unit_ids) e.db.nodes)
unfolding build_summary
completed_iff_IsSettled professors e =
    let nodes = keep_if (in_units e.org_unit_ids) e.db.nodes in
    elim (Bool-cases (nat_eq (blocking nodes) 0)) [
      | inl none_left ↦
          rw none_left (λ h. (blocking_iff nodes).0 (ground (arith, none_left)), λ h. refl)
      | inr some_left ↦ rw some_left (
        λ h.
            let bad : ("failed" == "completed") ≡ true = (eq_iff "failed" "completed").1 h in
            cc bad,
        λ h.
            let zero_left : blocking nodes ≡ 0 = (blocking_iff nodes).1 h in
            ground (arith, zero_left, some_left),
      )
    ]

-- The counts of the summary add up to the number of the nodes of the chosen units, and the crawl is
-- reported as completed exactly if each of these nodes is done or skipped.
pub summary_tells_nodes :
    (professors : ℕ) (e : Engine)
    → (total (build_summary professors e) ≡ length (keep_if (in_units e.org_unit_ids) e.db.nodes))
      × (((build_summary professors e).status ≡ "completed")
          ↔ All IsSettled (keep_if (in_units e.org_unit_ids) e.db.nodes))
unfolding build_summary
summary_tells_nodes professors e = (
  count_all-length (keep_if (in_units e.org_unit_ids) e.db.nodes),
  completed_iff_IsSettled professors e,
)
