-- ===== src/Repositories/Tests.antt =====
-- The repositories at concrete inputs.
use dext.Base.{
  ℕ, ◌≤◌, ◌≡◌, refl, ◌≢◌, String, none, some, List, [], ◌∷◌, length, Result, ok, raise, inl, subst,
  Bool, true, false, ◌==◌,
}
use dext.Base.Text.{decimal}
use dext.Repositories.Snapshots.{Snapshot, number, string, revision}
use dext.Repositories.Plans.{
  Repository, new_repository, get_plan, list_plans, replay, create_or_replace_plan,
  save_new_revision, delete_plan,
}
use dext.Repositories.Plans.Owners.{save, after, other_owner_unaffected}
use dext.Repositories.Plans.Replay.{retry_is_replayed, retry_after_delete}
use dext.Repositories.Plans.Revisions.{
  HoldsFrom, IsNext, writes_never_lower_revision, save_new_revision-IsNext,
}
use dext.Repositories.History.{
  last_of, turns_of, list_turns, append_turn, append_all, list_turns-append_all,
}

abbrev snapshot : ℕ → Snapshot
snapshot n = ("id", string " p1 ") ∷ ("revision", number n) ∷ []

program : Unit {0}
unfolding create_or_replace_plan save_new_revision delete_plan get_plan list_plans replay decimal
    after list_turns append_turn append_all
program = tt

abbrev held : Repository
held = (create_or_replace_plan "ada" (snapshot 3) "k1" new_repository).1

created : create_or_replace_plan "ada" (snapshot 3) "k1" new_repository ≡ (ok (snapshot 3), held)
unfolding program
created = refl

abbrev next : Repository
next = (save_new_revision "ada" "p1" (snapshot 4) "k2" held).1

saved : save_new_revision "ada" "p1" (snapshot 4) "k2" held ≡ (ok (snapshot 4), next)
unfolding program
saved = refl

abbrev is_ok {ℓ κ} : {E : Type ℓ} {A : Type κ} → Result E A → Bool
is_ok (ok a) = true
is_ok (raise e) = false

-- A revision that skips one is refused.
skipped : is_ok (save_new_revision "ada" "p1" (snapshot 5) "k2" held).0 ≡ false
unfolding program
skipped = refl

abbrev ada : String
ada = "ada"

abbrev eve : String
eve = "eve"

IsAda : Bool → Type 0
IsAda true = Unit
IsAda false = ⊥

ada_not_eve : ada ≢ eve
unfolding IsAda
ada_not_eve e = subst (λ (s : String). IsAda (s == ada)) e tt

other_owner_unaffected_example :
    (get_plan ada "p1" (after eve (save "p1" (snapshot 4) "k2") held) ≡ get_plan ada "p1" held)
    × (list_plans ada (after eve (save "p1" (snapshot 4) "k2") held) ≡ list_plans ada held)
    × (replay ada "k1" (after eve (save "p1" (snapshot 4) "k2") held) ≡ replay ada "k1" held)
other_owner_unaffected_example =
    other_owner_unaffected ada eve ada_not_eve (save "p1" (snapshot 4) "k2") held "p1" "k1"

retry_is_replayed_example :
    (create_or_replace_plan "ada" (snapshot 9) "k1" held ≡ (ok (snapshot 3), held))
    × (save_new_revision "ada" "p2" (snapshot 9) "k1" held ≡ (ok (snapshot 3), held))
retry_is_replayed_example =
    retry_is_replayed "ada" "k1" "p1" (snapshot 3) (snapshot 3) (snapshot 9) new_repository held
      (inl created) "p2"

retry_after_delete_example :
    (get_plan "ada" "p1" (delete_plan "ada" "p1" held).1 ≡ none)
    × (create_or_replace_plan "ada" (snapshot 3) "k1" (delete_plan "ada" "p1" held).1
        ≡ (ok (snapshot 3), (delete_plan "ada" "p1" held).1))
retry_after_delete_example =
    retry_after_delete "ada" "k1" "p1" (snapshot 3) (snapshot 3) new_repository held created

held_plan : get_plan "ada" "p1" held ≡ some (snapshot 3)
unfolding program
held_plan = refl

held_revision : revision (snapshot 3) ≡ ok 3
unfolding revision
held_revision = refl

writes_never_lower_revision_example :
    HoldsFrom "ada" "p1" 3 (create_or_replace_plan "ada" (snapshot 2) "k2" held).1
    × HoldsFrom "ada" "p1" 3 (save_new_revision "ada" "p1" (snapshot 2) "k2" held).1
writes_never_lower_revision_example =
    writes_never_lower_revision "ada" "p1" "k2" (snapshot 2) held "p1" (snapshot 3) 3 held_plan
      held_revision

fresh : replay "ada" "k2" held ≡ none
unfolding program
fresh = refl

save_new_revision-IsNext_example :
    IsNext "ada" "p1" (snapshot 4) held
    × (get_plan "ada" "p1" next ≡ some (snapshot 4))
    × (snapshot 4 ≡ snapshot 4)
save_new_revision-IsNext_example =
    save_new_revision-IsNext "ada" "p1" "k2" (snapshot 4) (snapshot 4) held next fresh saved

no_turns : turns_of {Turn = ℕ} ("ada", "p1") [] ≡ []
unfolding program
no_turns = refl

abbrev three : List ℕ
three = 7 ∷ 8 ∷ 9 ∷ []

list_turns-append_all_example :
    (list_turns ("ada", "p1") 1 (append_all 2 ("ada", "p1") three []) ≡ last_of 1 (last_of 2 three))
    × (length (turns_of ("ada", "p1") (append_all 2 ("ada", "p1") three [])) ≤ 2)
list_turns-append_all_example = list_turns-append_all 1 ("ada", "p1") three 1 [] no_turns
