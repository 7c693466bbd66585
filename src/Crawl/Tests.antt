-- ===== src/Crawl/Tests.antt =====
-- The crawl at concrete inputs.
use dext.Base.{
  ℕ, ◌≤◌, ◌≡◌, refl, sym, ap, ◌↔◌, ◌⊎◌, inl, inr, true, false, none, some, List, [], ◌∷◌, nat_eq,
  keep_if, map, OneOf, All, ok, raise, arith, ◌==◌,
}
use dext.Crawl.Types.{GraphNode}
use dext.Crawl.Store.{get_page_cache, save_page_cache}
use dext.Crawl.Store.Reset.{is_like_prefix}
use dext.Crawl.Store.Laws.{Distinct}
use dext.Crawl.Store.Integrity.{IsSound, IsFresh}
use dext.Crawl.Claim.{claim_next}
use dext.Crawl.Commands.{claim_next_of, run_command}
use dext.Crawl.Commands.Sound.{run_command-IsSound}
use dext.Crawl.Driver.{
  Engine, handled, driver_pass, run_to_pause, process_fresh_result, handle_claimed_node, fail_fetch,
  identity_url_for, build_summary, in_units, count_fetch_failed,
}
use dext.Crawl.Driver.Once.{starts, handles, node_handled_once}
use dext.Crawl.Driver.Pauses.{Pauses}
use dext.Crawl.Driver.Summary.{IsSettled, total, summary_tells_nodes}
use dext.Crawl.Driver.Cached.{page_cache_round_trip, failed_fetch_is_replayed}
use dext.Crawl.People.{Professor}
use dext.Crawl.Extract.{save_page, process_extract_task}
use dext.Crawl.Driver.Covered.{IsLeft}
use dext.Crawl.Extract.Settled.{process_extract_task-IsSettled, page_inserts_one_professor}
use dext.Crawl.Run.{run, resumed}
use dext.Crawl.Run.Queued.{NoneLost, run-NoneLost}
use dext.Crawl.Names.{clean_org_unit_name}
use dext.Crawl.Names.Balanced.{brackets_of, IsBalanced}
use dext.Crawl.Names.Kept.{clean_org_unit_name-brackets_of}
use dext.Crawl.Samples.{
  page_of, list_url, ada_url, two_nodes, any_node, highest, next_id, engine, timeout_of, outside,
  ada_claimed, engine_of, ada_cache, engine_in, payload_of, extractor, storage, ada_task, crawling,
  detail_events,
}

-- The detail page comes first, by its priority.
detail_first :
    map (λ (n : GraphNode). n.attempt_count) (claim_next 7 any_node 1000 two_nodes).1.nodes
    ≡ 0 ∷ 1 ∷ []
unfolding claim_next
detail_first = refl

OneOf-highest : (a : ℕ) (ids : List ℕ) → OneOf a ids → a ≤ highest ids
OneOf-highest a [] h = elim h [ ]
OneOf-highest a (id ∷ ids) (inl here) = omega (arith, here)
OneOf-highest a (id ∷ ids) (inr there) = omega (arith, OneOf-highest a ids there)

next_id-IsFresh : IsFresh next_id
next_id-IsFresh ids h = omega (arith, OneOf-highest (next_id ids) ids h)

urls_differ : list_url ≡ ada_url → ⊥
urls_differ h =
    let same : (list_url == ada_url) ≡ true = ap (λ u. list_url == u) (sym h) in
    let bad : false ≡ true = same in cc bad

two_nodes-IsSound : IsSound two_nodes
two_nodes-IsSound = (
  (λ h. elim h [ inl same ↦ urls_differ same | inr h ↦ elim h [ ] ], (λ h. elim h [ ], tt)),
  (λ h. elim h [ inl same ↦ omega (arith, same) | inr h ↦ elim h [ ] ], (λ h. elim h [ ], tt)),
  (omega arith, (omega arith, tt)),
  tt,
  tt,
)

run_command-IsSound_example :
    IsSound (run_command next_id extractor.py (claim_next_of 7 any_node 1000) storage).db
run_command-IsSound_example =
    run_command-IsSound next_id next_id-IsFresh extractor.py (claim_next_of 7 any_node 1000) storage
      refl two_nodes-IsSound

program : Unit {0}
unfolding driver_pass run_to_pause process_fresh_result handle_claimed_node save_page
    process_extract_task fail_fetch identity_url_for
program = tt

abbrev after_ada : Engine
unfolding driver_pass
after_ada = engine_of (driver_pass outside 1000 engine)

ada_handled : driver_pass outside 1000 engine ≡ handled ada_claimed after_ada
unfolding program
ada_handled = refl

node_handled_once_example : Distinct (ada_url ∷ []) × (after_ada.attempted ≡ ada_url ∷ [])
node_handled_once_example = node_handled_once outside engine refl (handles 1000 starts ada_handled)

summary_tells_nodes_example :
    (total (build_summary 0 engine) ≡ 2)
    × (((build_summary 0 engine).status ≡ "completed")
        ↔ All IsSettled (keep_if (in_units []) two_nodes.nodes))
summary_tells_nodes_example = summary_tells_nodes 0 engine

lists_differ : (ada_url == list_url) ≡ false
lists_differ = refl

page_cache_round_trip_example :
    (get_page_cache ada_url (save_page_cache ada_cache two_nodes) ≡ some ada_cache)
    × (get_page_cache list_url (save_page_cache ada_cache two_nodes)
        ≡ get_page_cache list_url two_nodes)
page_cache_round_trip_example = page_cache_round_trip ada_cache two_nodes list_url lists_differ

abbrev timed_out : Engine
unfolding process_fresh_result
timed_out =
    engine_in (process_fresh_result outside ada_claimed none (timeout_of ada_url) 1000 engine)

ada_timed_out :
    process_fresh_result outside ada_claimed none (timeout_of ada_url) 1000 engine ≡ ok timed_out
unfolding program
ada_timed_out = refl

ada_identity : identity_url_for ada_claimed ≡ ada_url
unfolding program
ada_identity = refl

failed_fetch_is_replayed_example :
    handle_claimed_node outside ada_claimed 9000 timed_out
    ≡ fail_fetch outside.texts_used "fetch_timeout" none ada_url 2 9000
        (count_fetch_failed timed_out)
failed_fetch_is_replayed_example =
    failed_fetch_is_replayed outside ada_claimed none (timeout_of ada_url) "fetch_timeout" refl refl
      refl 1000 9000 engine timed_out outside ada_claimed ada_timed_out ada_identity

process_extract_task-IsSettled_example :
    ((process_extract_task next_id extractor ada_task 1000 storage).1 ≡ none)
    × All
        (λ n. ((nat_eq n.id 2 ≡ false) ⊎ IsLeft n.status))
        (process_extract_task next_id extractor ada_task 1000 storage).0.db.nodes
    × All
        (λ a. ((nat_eq a.id 1 ≡ false) ⊎ (a.finished_at ≡ some 1000)))
        (process_extract_task next_id extractor ada_task 1000 storage).0.db.attempts
process_extract_task-IsSettled_example =
    process_extract_task-IsSettled next_id extractor ada_task 1000 storage refl

page_inserts_one_professor_example :
    (save_page next_id extractor ada_task
      (payload_of "Ada" ∷ payload_of "Grace" ∷ [])
      storage).people.result.inserted
    ≤ 1
page_inserts_one_professor_example =
    page_inserts_one_professor next_id extractor ada_task
      (payload_of "Ada" ∷ payload_of "Grace" ∷ []) storage refl

-- Of two professors of one page the second is not inserted.
one_of_two :
    map
      (λ (c : Professor). c.name)
      (save_page next_id extractor ada_task
        (payload_of "Ada" ∷ payload_of "Grace" ∷ [])
        storage).people.professors
    ≡ "Ada" ∷ []
unfolding program
one_of_two = refl

-- A closing bracket of the wrong form is left out, and what is open is closed.
untidy_name : clean_org_unit_name (some " 计算机 ( AI 方向 ） 学院（软件") ≡ some "计算机(AI 方向学院（软件）)"
unfolding clean_org_unit_name
untidy_name = refl

clean_org_unit_name-brackets_of_example :
    (("计算机(AI 方向学院（软件）)" == "") ≡ false)
    × IsBalanced (brackets_of "计算机(AI 方向学院（软件）)")
    × (IsBalanced (brackets_of " 计算机 ( AI 方向 ） 学院（软件")
        ↔ (brackets_of "计算机(AI 方向学院（软件）)" ≡ brackets_of " 计算机 ( AI 方向 ） 学院（软件"))
clean_org_unit_name-brackets_of_example =
    clean_org_unit_name-brackets_of " 计算机 ( AI 方向 ） 学院（软件" "计算机(AI 方向学院（软件）)" untidy_name

-- A page with a malformed link: its handling raises, and its node is left in progress.
malformed_link :
    (run
      (record outside {
        fetch_page = λ node url action. ok (page_of url);
        build_snapshot = λ html url final_url title. raise "Invalid IPv6 URL";
      })
      next_id
      extractor
      detail_events
      (resumed crawling)).crashed
    ≡ some 2
unfolding program run resumed
malformed_link = refl

-- `LIKE` does not look at the case of letters, and its underscores stand for any character.
like_any_case :
    is_like_prefix "terminal_unavailable:empty_page" "Terminal-unavailable:EMPTY page." ≡ true
unfolding is_like_prefix
like_any_case = refl

run-NoneLost_example : NoneLost (run outside next_id extractor detail_events (resumed crawling))
run-NoneLost_example = run-NoneLost outside next_id extractor crawling detail_events
