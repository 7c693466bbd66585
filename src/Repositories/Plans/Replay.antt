-- ===== src/Repositories/Plans/Replay.antt =====
-- Idempotency keys: what a repeated write returns.
use dext.Base.{
  ℕ, ◌≡◌, refl, ◌∙◌, subst, String, Bool, true, false, Option, none, some, Result, ok, raise,
  or_else, List, [], ◌⊎◌, inl, inr,
}
use dext.Base.Dicts.{get, pop, get-put, get-pop}
use dext.Repositories.Snapshots.{Snapshot, RepositoryError, texts}
use dext.Repositories.Plans.{
  pairs, OwnerPlans, Repository, owner_plans, get_plan, touch_owner, store_plan, Write, replay_or,
  replay, is_older, intent, replace_plan, create_plan, create_or_replace_plan, check_revision,
  save_revision, save_new_revision, without_plan, delete_plan,
}

module _ (owner key : String) where
  -- What a successful write returns is what its idempotency key replays from then on.
  abbrev Remembers : Write → Type 0
  Remembers (ok s, r) = replay owner key r ≡ some s
  Remembers (raise e, r) = Unit

  replay-store_plan :
      (id : String) (snapshot : Snapshot) (r : Repository)
      → replay owner key (store_plan owner id key snapshot r) ≡ some snapshot
  unfolding replay store_plan
  replay-store_plan id snapshot r = get-put pairs (owner, key) snapshot r.idempotency

  replace_plan-Remembers :
      (id : String) (snapshot : Snapshot) (r : Repository) (older : Result RepositoryError Bool)
      → Remembers (replace_plan owner id key snapshot r older)
  replace_plan-Remembers id snapshot r (raise e) = tt
  replace_plan-Remembers id snapshot r (ok true) = tt
  replace_plan-Remembers id snapshot r (ok false) = replay-store_plan id snapshot r

  create_plan-Remembers :
      (snapshot : Snapshot) (r : Repository) (wanted : Result RepositoryError (String × ℕ))
      → Remembers (create_plan owner key snapshot r wanted)
  create_plan-Remembers snapshot r (raise e) = tt
  create_plan-Remembers snapshot r (ok (id, incoming)) =
      let touched = touch_owner owner r in
      replace_plan-Remembers id snapshot touched (is_older incoming (get_plan owner id touched))

  save_revision-Remembers :
      (id : String) (snapshot : Snapshot) (r : Repository)
      (checked : Result RepositoryError (Unit {0}))
      → Remembers (save_revision owner id key snapshot r checked)
  save_revision-Remembers id snapshot r (raise e) = tt
  save_revision-Remembers id snapshot r (ok u) = replay-store_plan id snapshot r

  replay_or-Remembers :
      (r : Repository) (write : Write) (stored : Option Snapshot)
      → replay owner key r ≡ stored
      → Remembers write
      → Remembers (replay_or stored r write)
  replay_or-Remembers r write (some s) e h = e
  replay_or-Remembers r write none e h = h

  create-Remembers :
      (snapshot : Snapshot) (r : Repository)
      → Remembers (create_or_replace_plan owner snapshot key r)
  unfolding create_or_replace_plan
  create-Remembers snapshot r =
      replay_or-Remembers r (create_plan owner key snapshot r (intent snapshot))
        (replay owner key r) refl (create_plan-Remembers snapshot r (intent snapshot))

  save-Remembers :
      (id : String) (snapshot : Snapshot) (r : Repository)
      → Remembers (save_new_revision owner id snapshot key r)
  unfolding save_new_revision
  save-Remembers id snapshot r =
      let checked = check_revision owner id snapshot r in
      replay_or-Remembers r (save_revision owner id key snapshot r checked) (replay owner key r)
        refl (save_revision-Remembers id snapshot r checked)

  -- A write under a key that is remembered: nothing changes and the stored snapshot is returned.
  create_again :
      (again stored : Snapshot) (r : Repository)
      → replay owner key r ≡ some stored
      → create_or_replace_plan owner again key r ≡ (ok stored, r)
  unfolding create_or_replace_plan
  create_again again stored r e = rw e refl

  save_again :
      (id : String) (again stored : Snapshot) (r : Repository)
      → replay owner key r ≡ some stored
      → save_new_revision owner id again key r ≡ (ok stored, r)
  unfolding save_new_revision
  save_again id again stored r e = rw e refl

  -- After a create or a save that succeeded, every create and every save of that owner under the
  -- same idempotency key, whatever plan it names and whatever snapshot it brings, returns the
  -- snapshot that was stored and leaves the repository as it is.
  pub retry_is_replayed :
      (id : String) (snapshot stored again : Snapshot) (r r' : Repository)
      → (create_or_replace_plan owner snapshot key r ≡ (ok stored, r'))
        ⊎ (save_new_revision owner id snapshot key r ≡ (ok stored, r'))
      → (other_id : String)
      → (create_or_replace_plan owner again key r' ≡ (ok stored, r'))
        × (save_new_revision owner other_id again key r' ≡ (ok stored, r'))
  retry_is_replayed id snapshot stored again r r' (inl created) other_id =
      let known = subst Remembers created (create-Remembers snapshot r) in
      (create_again again stored r' known, save_again other_id again stored r' known)
  retry_is_replayed id snapshot stored again r r' (inr saved) other_id =
      let known = subst Remembers saved (save-Remembers id snapshot r) in
      (create_again again stored r' known, save_again other_id again stored r' known)

  without_plan-gone :
      (id : String) (plans : List (String × OwnerPlans)) (own : Option OwnerPlans)
      → get texts owner plans ≡ own
      → get texts id (or_else (get texts owner (without_plan owner id plans own)) []) ≡ none
  unfolding get
  without_plan-gone id plans none e = rw e refl
  without_plan-gone id plans (some own) e =
      rw (get-put texts owner (pop texts id own) plans) (get-pop texts id own)

  pub get_plan-delete_plan :
      (id : String) (r : Repository) → get_plan owner id (delete_plan owner id r).1 ≡ none
  unfolding get_plan delete_plan owner_plans
  get_plan-delete_plan id r = without_plan-gone id r.plans (get texts owner r.plans) refl

  replay-delete_plan :
      (id : String) (r : Repository)
      → replay owner key (delete_plan owner id r).1 ≡ replay owner key r
  unfolding replay delete_plan
  replay-delete_plan id r = refl

  -- A deletion does not forget the idempotency key of the create: the plan is absent after it, and
  -- the same create sent again returns the deleted snapshot and stores nothing.
  pub retry_after_delete :
      (id : String) (snapshot stored : Snapshot) (r r' : Repository)
      → create_or_replace_plan owner snapshot key r ≡ (ok stored, r')
      → (get_plan owner id (delete_plan owner id r').1 ≡ none)
        × (create_or_replace_plan owner snapshot key (delete_plan owner id r').1
            ≡ (ok stored, (delete_plan owner id r').1))
  retry_after_delete id snapshot stored r r' created = (
    get_plan-delete_plan id r',
    create_again snapshot stored (delete_plan owner id r').1
        (replay-delete_plan id r' ∙ subst Remembers created (create-Remembers snapshot r)),
  )
