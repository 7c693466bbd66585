-- ===== src/Bridge/Tests.antt =====
-- The bridge at concrete inputs: two fetches, the first of which is completed.
use dext.Base.{
  ◌∷◌, ◌<◌, arith, ◌+◌, ◌≤◌, ◌≡◌, refl, true, false, none, some, [], or_else, nat_eq, if◌then◌else◌,
}
use dext.Base.Text.{strip}
use dext.Bridge.Types.{FetchResult, no_context}
use dext.Bridge.Mojibake.{Codecs, suspicion, repair_mojibake_text, suspicion-repair}
use dext.Bridge.Queue.{stats}
use dext.Bridge.Fetcher.{
  Outside, failed_result, text_or, resolvable, complete_outcome, complete, fail, skip, Waiter,
  returned, wait_round, start_wait, override,
}
use dext.Bridge.System.{
  Event, Reachable, System, after, asleep, complete_called, fetch_called, new, new_system,
  next_called, skip_called, step, wake,
}
use dext.Bridge.System.Invariant.{InQueue}
use dext.Bridge.Decision.{
  PendingDecision, DecisionCenter, resolved, begin_resolve, resolve_decision,
  decision_resolved_once, decision_resolved_twice,
}
use dext.Bridge.System.Ordered.{Ascends, behind, jobs_first_in_first_out}
use dext.Bridge.System.Final.{result_is_final}
use dext.Bridge.System.Counted.{every_job_counted, waiting_job_queued}
use dext.Bridge.System.Answers.{resolved_job_is_returned}

-- Every address is of one site, no text is Latin-1, and the jobs are named after their number.
abbrev codecs : Codecs
codecs = record { encode_latin1 = λ s. none; decode_utf8 = λ bytes. none }

abbrev outside : Outside
outside = record {
  urlsplit = λ s.
      some (record { scheme = "https"; netloc = "cs.x.edu.cn"; hostname = some "cs.x.edu.cn" });
  lower = λ s. s;
  codecs = codecs;
  new_job_id = λ n. if nat_eq n 0 then "first" else "second";
}

abbrev first_event : Event
first_event = fetch_called "https://cs.x.edu.cn/a" no_context none none 1000

abbrev second_event : Event
second_event = fetch_called "https://cs.x.edu.cn/b" no_context none none 1000

abbrev two_fetches : System
two_fetches = step outside second_event (step outside first_event (new_system 60 15000))

abbrev in_flight : System
in_flight = step outside next_called two_fetches

in_flight-Reachable : Reachable outside 60 15000 in_flight
in_flight-Reachable = after next_called (after second_event (after first_event new))

program : Unit {0}
unfolding step stats resolvable complete fail skip wait_round start_wait override
    repair_mojibake_text
program = tt

counted : (stats in_flight.bridge.queue).assigned_jobs ≡ 1
unfolding program
counted = refl

every_job_counted_example :
    in_flight.bridge.created
    ≡ (stats in_flight.bridge.queue).pending_jobs
      + (stats in_flight.bridge.queue).assigned_jobs
      + (stats in_flight.bridge.queue).completed_jobs
      + (stats in_flight.bridge.queue).failed_jobs
      + (stats in_flight.bridge.queue).skipped_jobs
every_job_counted_example = every_job_counted outside 60 15000 in_flight in_flight-Reachable

abbrev waiter : Waiter
waiter = record { active_elapsed = 0; last_tick = 1000; timeout_counting = false }

second_sleeps : in_flight.fetches 1 ≡ asleep waiter
unfolding program
second_sleeps = refl

second_undone : (in_flight.bridge.queue.jobs 1).future ≡ none
unfolding program
second_undone = refl

waiting_job_queued_example : InQueue 1 in_flight.bridge.queue
waiting_job_queued_example =
    waiting_job_queued outside 60 15000 in_flight in_flight-Reachable 1 waiter second_sleeps
      second_undone

first_resolvable : resolvable "first" in_flight.bridge ≡ some 0
unfolding program
first_resolvable = refl

resolved_job_is_returned_example :
    ((complete outside "first" "<p>" "https://cs.x.edu.cn/a" "A" [] in_flight.bridge).0 ≡ true)
    × ((wait_round 0 99000 waiter
          (complete outside "first" "<p>" "https://cs.x.edu.cn/a" "A" [] in_flight.bridge).1).0
        ≡ returned
            (complete_outcome outside "<p>" "https://cs.x.edu.cn/a" "A" []
              (in_flight.bridge.queue.jobs 0)).0)
    × ((fail outside "first" " no " in_flight.bridge).0 ≡ true)
    × ((wait_round 0 99000 waiter (fail outside "first" " no " in_flight.bridge).1).0
        ≡ returned (
            failed_result
              (in_flight.bridge.queue.jobs 0)
              (text_or (some (strip " no ")) "human_failed")))
    × ((skip outside "first" none in_flight.bridge).0 ≡ true)
    × ((wait_round 0 99000 waiter (skip outside "first" none in_flight.bridge).1).0
        ≡ returned (
            failed_result
              (in_flight.bridge.queue.jobs 0)
              (text_or (some (strip (or_else none ""))) "human_skip")))
resolved_job_is_returned_example =
    resolved_job_is_returned outside "first" in_flight.bridge 0 first_resolvable "<p>"
      "https://cs.x.edu.cn/a" "A" " no " none [] 99000 waiter

suspicion-repair_example : suspicion (repair_mojibake_text codecs "é中") ≤ suspicion "é中"
suspicion-repair_example = suspicion-repair codecs "é中"

jobs_first_in_first_out_example :
    Ascends
      (behind in_flight.bridge.queue.assigned_job)
      in_flight.bridge.queue.pending_jobs
      in_flight.bridge.created
jobs_first_in_first_out_example =
    jobs_first_in_first_out outside 60 15000 in_flight in_flight-Reachable

abbrev skipped_state : System
skipped_state = step outside (wake 0 3000) (step outside (skip_called "first" none) in_flight)

abbrev skip_result : FetchResult
skip_result = failed_result (in_flight.bridge.queue.jobs 0) "human_skip"

first_exists : 0 < skipped_state.bridge.created
unfolding program
first_exists = omega arith

first_skipped : (skipped_state.bridge.queue.jobs 0).future ≡ some skip_result
unfolding program
first_skipped = refl

abbrev late : Event
late = complete_called "first" "<p>" "https://cs.x.edu.cn/a" "A" []

result_is_final_example :
    ((step outside late skipped_state).bridge.queue.jobs 0).future ≡ some skip_result
result_is_final_example =
    result_is_final outside late skipped_state 0 skip_result first_exists first_skipped

abbrev decision : PendingDecision
decision = record {
  id = "d1";
  kind = "detail_failures";
  org_unit_name = "CS";
  failure_count = 3;
  sample_urls = [];
  suggested_action = "skip";
  status = "pending";
  action = none;
  created_at = 1;
  resolved_at = none;
}

abbrev center : DecisionCenter
center = record { pending_decision = some decision; has_callback = true; calls = [] }

decision_resolved_once_example :
    ((resolve_decision "d1" "skip" 5 center).0 ≡ true)
    × ((resolve_decision "d1" "skip" 5 center).1.calls ≡ (resolved "skip" 5 decision, "skip") ∷ [])
    × (resolve_decision "d1" "retry" 6 (resolve_decision "d1" "skip" 5 center).1
        ≡ (false, (resolve_decision "d1" "skip" 5 center).1))
decision_resolved_once_example =
    decision_resolved_once center decision refl refl "d1" "skip" 5 refl "d1" "retry" 6

decision_resolved_twice_example :
    ((begin_resolve "d1" "retry" 6 (begin_resolve "d1" "skip" 5 center).1).0 ≡ true)
    × ((begin_resolve "d1" "retry" 6 (begin_resolve "d1" "skip" 5 center).1).1.calls
        ≡ (resolved "retry" 6 (resolved "skip" 5 decision), "retry")
          ∷ (resolved "skip" 5 decision, "skip")
          ∷ [])
decision_resolved_twice_example =
    decision_resolved_twice center decision refl refl "skip" "retry" 5 6 refl
