-- ===== src/Repositories/Plans.antt =====
-- plans.py: the in-memory repository of preparation plans.
pub mod Replay
pub mod Owners
pub mod Revisions
use dext.Base.{
  ℕ, suc, ◌+◌, String, Bool, true, false, not, ◌&&◌, Option, none, some, List, [], ◌∷◌, map, length,
  keep_if, ltb, nat_eq, is_some, Result, ok, raise, ◌>>=◌, if◌then◌else◌, ◌==◌, eq_iff, ◌≡◌, refl,
  ap, or_else, Bool-cases, inl, inr, ◌↔◌, arith,
}
use dext.Base.Dicts.{Keys, get, put, pop}
use dext.Repositories.Snapshots.{
  Snapshot, RepositoryError, value_error, revision_conflict, not_found, texts, plan_id, revision,
}

abbrev pub IdemKey : Type 0
IdemKey = String × String

abbrev pub same_pair : IdemKey → IdemKey → Bool
same_pair a b = a.0 == b.0 && a.1 == b.1

pub same_pair_iff : (a b : IdemKey) → (same_pair a b ≡ true) ↔ (a ≡ b)
same_pair_iff (a, x) (b, y) = (
  λ h. cc ((eq_iff a b).0 (ground arith), (eq_iff x y).0 (ground arith)),
  λ e. ground (arith, (eq_iff a b).1 (ap (λ p. p.0) e), (eq_iff x y).1 (ap (λ p. p.1) e)),
)

abbrev pub pairs : Keys IdemKey
pairs = record { same = same_pair; same_iff = same_pair_iff }

abbrev pub OwnerPlans : Type 0
OwnerPlans = List (String × Snapshot)

-- `InMemoryPreparationPlanRepository`
pub record Repository : Type 0 where
  pub plans : List (String × OwnerPlans)
  pub idempotency : List (IdemKey × Snapshot)

abbrev pub new_repository : Repository
new_repository = record { plans = []; idempotency = [] }

-- `self._plans.get(owner_id, {})`
unfoldable pub owner_plans : String → Repository → OwnerPlans
unfolding get
owner_plans owner r = or_else (get texts owner r.plans) []

unfoldable pub list_plans : String → Repository → List Snapshot
unfolding owner_plans
list_plans owner r = map (λ entry. entry.1) (owner_plans owner r)

unfoldable pub get_plan : String → String → Repository → Option Snapshot
unfolding owner_plans get
get_plan owner id r = get texts id (owner_plans owner r)

-- `self._plans[owner_id]`, which makes an entry for the owner
unfoldable pub touch_owner : String → Repository → Repository
unfolding put owner_plans
touch_owner owner r = record r { plans = put texts owner (owner_plans owner r) r.plans }

-- The two assignments of a successful write.
unfoldable pub store_plan : String → String → String → Snapshot → Repository → Repository
unfolding put owner_plans
store_plan owner id idempotency_key snapshot r = record {
  plans = put texts owner (put texts id snapshot (owner_plans owner r)) r.plans;
  idempotency = put pairs (owner, idempotency_key) snapshot r.idempotency;
}

-- What a write returns or raises, and the repository after it.
abbrev pub Write : Type 0
Write = Result RepositoryError Snapshot × Repository

unfoldable pub replay : String → String → Repository → Option Snapshot
unfolding get
replay owner idempotency_key r = get pairs (owner, idempotency_key) r.idempotency

-- The early return of a write whose idempotency key is known, or the write.
abbrev pub replay_or : Option Snapshot → Repository → Write → Write
replay_or (some stored) r write = (ok stored, r)
replay_or none r write = write

-- `current is not None and incoming_revision < _revision(current)`
unfoldable pub is_older : ℕ → Option Snapshot → Result RepositoryError Bool
unfolding revision
is_older incoming none = ok false
is_older incoming (some current) = do held ← revision current; ok (ltb incoming held)

-- The id and the revision of a snapshot that comes in.
abbrev pub intent : Snapshot → Result RepositoryError (String × ℕ)
intent snapshot = do id ← plan_id snapshot; incoming ← revision snapshot; ok (id, incoming)

-- `create_or_replace_plan` from the test of the persisted revision on.
abbrev pub replace_plan :
    String → String → String → Snapshot → Repository → Result RepositoryError Bool → Write
replace_plan owner id key snapshot r (raise e) = (raise e, r)
replace_plan owner id key snapshot r (ok true) =
    (raise (revision_conflict "incoming revision is older than persisted revision"), r)
replace_plan owner id key snapshot r (ok false) = (ok snapshot, store_plan owner id key snapshot r)

-- `create_or_replace_plan` after the look-up of the idempotency key and the reading of the snapshot.
abbrev pub create_plan :
    String → String → Snapshot → Repository → Result RepositoryError (String × ℕ) → Write
create_plan owner key snapshot r (raise e) = (raise e, r)
create_plan owner key snapshot r (ok (id, incoming)) =
    let touched = touch_owner owner r in
    replace_plan owner id key snapshot touched (is_older incoming (get_plan owner id touched))

unfoldable pub create_or_replace_plan : String → Snapshot → String → Repository → Write
unfolding replay plan_id revision touch_owner is_older get_plan store_plan
create_or_replace_plan owner snapshot idempotency_key r =
    replay_or (replay owner idempotency_key r) r
      (create_plan owner idempotency_key snapshot r (intent snapshot))

abbrev pub own_id_is : String → String → Result RepositoryError (Unit {0})
own_id_is id own_id =
    if own_id == id then ok tt else raise (value_error "path plan_id must match plan snapshot id")

abbrev pub persisted : String → Option Snapshot → Result RepositoryError Snapshot
persisted id none = raise (not_found id)
persisted id (some current) = ok current

abbrev pub check_next : ℕ → ℕ → Result RepositoryError (Unit {0})
check_next incoming held =
    if nat_eq incoming (held + 1)
    then ok tt
    else raise (revision_conflict "incoming revision must be exactly current revision + 1")

-- The checks of `save_new_revision` after the look-up of the idempotency key.
unfoldable pub check_revision :
    String → String → Snapshot → Repository → Result RepositoryError (Unit {0})
unfolding plan_id revision get_plan
check_revision owner id snapshot r = do
  own_id ← plan_id snapshot
  matches ← own_id_is id own_id
  current ← persisted id (get_plan owner id r)
  incoming ← revision snapshot
  held ← revision current
  check_next incoming held

abbrev pub save_revision :
    String → String → String → Snapshot → Repository → Result RepositoryError (Unit {0}) → Write
save_revision owner id key snapshot r (raise e) = (raise e, r)
save_revision owner id key snapshot r (ok u) = (ok snapshot, store_plan owner id key snapshot r)

unfoldable pub save_new_revision : String → String → Snapshot → String → Repository → Write
unfolding replay check_revision store_plan
save_new_revision owner id snapshot idempotency_key r =
    replay_or (replay owner idempotency_key r) r
      (save_revision owner id idempotency_key snapshot r (check_revision owner id snapshot r))

-- `self._plans.get(owner_id, {}).pop(plan_id, None)`: an owner that has no entry gets none.
abbrev pub without_plan :
    String → String → List (String × OwnerPlans) → Option OwnerPlans → List (String × OwnerPlans)
without_plan owner id plans none = plans
without_plan owner id plans (some own) = put texts owner (pop texts id own) plans

unfoldable pub delete_plan : String → String → Repository → Bool × Repository
unfolding get put pop get_plan
delete_plan owner id r = (
  is_some (get_plan owner id r),
  record r { plans = without_plan owner id r.plans (get texts owner r.plans) },
)

unfoldable pub cleanup_owner : String → Repository → ℕ × Repository
unfolding owner_plans pop
cleanup_owner owner r = (
  length (owner_plans owner r),
  record {
    plans = pop texts owner r.plans;
    idempotency = keep_if (λ entry. not (entry.0.0 == owner)) r.idempotency;
  },
)
