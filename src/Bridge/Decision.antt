-- ===== src/Bridge/Decision.antt =====
-- decision.py: the one decision that waits for a human.
use dext.Base.{
  ℕ, ◌≡◌, refl, String, Bool, true, false, Option, none, some, List, ◌∷◌, if◌then◌else◌, ◌==◌,
}

pub record PendingDecision : Type 0 where
  pub id : String
  pub kind : String
  pub org_unit_name : String
  pub failure_count : ℕ
  pub sample_urls : List String
  pub suggested_action : String
  pub status : String
  pub action : Option String
  pub created_at : ℕ
  pub resolved_at : Option ℕ

-- `DecisionCenter`; the calls of the callback are noted, the latest first.
pub record DecisionCenter : Type 0 where
  pub pending_decision : Option PendingDecision
  pub has_callback : Bool
  pub calls : List (PendingDecision × String)

unfoldable pub on_resolve : DecisionCenter → DecisionCenter
on_resolve c = record c { has_callback = true }

unfoldable pub set_decision : PendingDecision → DecisionCenter → DecisionCenter
set_decision d c = record c { pending_decision = some d }

abbrev pub resolved : String → ℕ → PendingDecision → PendingDecision
resolved action now d = record d {
  action = some action;
  status = "resolved";
  resolved_at = some now;
}

abbrev pub call_back : PendingDecision → String → DecisionCenter → DecisionCenter
call_back d action c = if c.has_callback then record c { calls = (d, action) ∷ c.calls } else c

abbrev pub resolve_pending :
    Option PendingDecision → String → String → ℕ → DecisionCenter → Bool × DecisionCenter
resolve_pending none id action now c = (false, c)
resolve_pending (some d) id action now c =
    if d.id == id
    then (
      true,
      call_back (resolved action now d) action
          (record c { pending_decision = some (resolved action now d) }),
    )
    else (false, c)

-- `resolve` up to where it awaits what the callback returned; false if it has returned False.
unfoldable pub begin_resolve : String → String → ℕ → DecisionCenter → Bool × DecisionCenter
begin_resolve id action now c = resolve_pending c.pending_decision id action now c

-- `resolve` from there on
unfoldable pub end_resolve : DecisionCenter → DecisionCenter
end_resolve c = record c { pending_decision = none }

-- `resolve` that nothing else runs during
unfoldable pub resolve_decision : String → String → ℕ → DecisionCenter → Bool × DecisionCenter
unfolding begin_resolve end_resolve
resolve_decision id action now c =
    let begun = begin_resolve id action now c in
    if begun.0 then (true, end_resolve begun.1) else begun

module _ (c : DecisionCenter) (d : PendingDecision) (held : c.pending_decision ≡ some d)
    (callback : c.has_callback ≡ true) where
  -- With a callback, and where nothing runs while the callback is awaited, the id of the waiting
  -- decision resolves it, with one call of the callback; after that every id is refused and changes
  -- nothing.
  pub decision_resolved_once :
      (id action : String) (now : ℕ)
      → (d.id == id) ≡ true
      → (id' action' : String) (now' : ℕ)
      → ((resolve_decision id action now c).0 ≡ true)
        × ((resolve_decision id action now c).1.calls ≡ (resolved action now d, action) ∷ c.calls)
        × (resolve_decision id' action' now' (resolve_decision id action now c).1
            ≡ (false, (resolve_decision id action now c).1))
  unfolding resolve_decision begin_resolve end_resolve
  decision_resolved_once id action now same id' action' now' =
      (rw (held, same) refl, rw (held, same, callback) refl, rw (held, same, callback) refl)

  -- With a callback: while the callback of a resolution is awaited the decision still waits, so that
  -- a second resolution with its id is accepted then, too, and the callback is called for both.
  pub decision_resolved_twice :
      (action action' : String) (now now' : ℕ)
      → (d.id == d.id) ≡ true
      → ((begin_resolve d.id action' now' (begin_resolve d.id action now c).1).0 ≡ true)
        × ((begin_resolve d.id action' now' (begin_resolve d.id action now c).1).1.calls
            ≡ (resolved action' now' (resolved action now d), action')
              ∷ (resolved action now d, action)
              ∷ c.calls)
  unfolding begin_resolve
  decision_resolved_twice action action' now now' same =
      (rw (held, same, callback, same) refl, rw (held, same, callback, same) refl)
