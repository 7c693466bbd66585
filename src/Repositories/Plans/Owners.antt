-- ===== src/Repositories/Plans/Owners.antt =====
-- An operation of one owner does not show in the data of another.
use dext.Base.{
  ℕ, ◌≡◌, refl, sym, ap, ◌∙◌, subst, ◌≢◌, String, Bool, true, false, not, Option, none, some, List,
  [], ◌∷◌, keep_if, or_else, Result, ok, raise, Bool-cases, inl, inr, ◌==◌, arith, eq_iff, map,
}
use dext.Base.Dicts.{get, put, pop, other_key, get-put_other, get-pop_other}
use dext.Repositories.Snapshots.{Snapshot, RepositoryError, texts}
use dext.Repositories.Plans.{
  IdemKey, pairs, OwnerPlans, Repository, owner_plans, list_plans, get_plan, touch_owner,
  store_plan, Write, replay_or, replay, is_older, intent, replace_plan, create_plan,
  create_or_replace_plan, check_revision, save_revision, save_new_revision, without_plan,
  delete_plan, cleanup_owner,
}

-- What an owner can see of a repository is the same in two of them.
abbrev pub LooksSame : String → Repository → Repository → Type 0
LooksSame owner r r' =
    (owner_plans owner r' ≡ owner_plans owner r)
    × ((key : String) → replay owner key r' ≡ replay owner key r)

module _ (other owner : String) (apart : (other == owner) ≡ false) where
  LooksSame-put :
      (r : Repository) (own : OwnerPlans)
      → owner_plans other (record r { plans = put texts owner own r.plans }) ≡ owner_plans other r
  unfolding owner_plans
  LooksSame-put r own = ap (λ o. or_else o []) (get-put_other texts other owner own r.plans apart)

  touch_owner-LooksSame : (r : Repository) → LooksSame other r (touch_owner owner r)
  unfolding touch_owner replay
  touch_owner-LooksSame r = (LooksSame-put r (owner_plans owner r), λ key. refl)

  store_plan-LooksSame :
      (id key : String) (snapshot : Snapshot) (r : Repository)
      → LooksSame other r (store_plan owner id key snapshot r)
  unfolding store_plan replay owner_plans
  store_plan-LooksSame id key snapshot r = (
    ap (λ o. or_else o [])
        (get-put_other texts other owner (put texts id snapshot (owner_plans owner r)) r.plans
          apart),
    λ k. get-put_other pairs (other, k) (owner, key) snapshot r.idempotency (ground (arith, apart)),
  )

  replace_plan-LooksSame :
      (id key : String) (snapshot : Snapshot) (r : Repository) (older : Result RepositoryError Bool)
      → LooksSame other r (replace_plan owner id key snapshot r older).1
  replace_plan-LooksSame id key snapshot r (raise e) = (refl, λ k. refl)
  replace_plan-LooksSame id key snapshot r (ok true) = (refl, λ k. refl)
  replace_plan-LooksSame id key snapshot r (ok false) = store_plan-LooksSame id key snapshot r

  replay_or-LooksSame :
      (stored : Option Snapshot) (r : Repository) (write : Write)
      → LooksSame other r write.1
      → LooksSame other r (replay_or stored r write).1
  replay_or-LooksSame (some s) r write h = (refl, λ k. refl)
  replay_or-LooksSame none r write h = h

  create_plan-LooksSame :
      (key : String) (snapshot : Snapshot) (r : Repository)
      (wanted : Result RepositoryError (String × ℕ))
      → LooksSame other r (create_plan owner key snapshot r wanted).1
  create_plan-LooksSame key snapshot r (raise e) = (refl, λ k. refl)
  create_plan-LooksSame key snapshot r (ok (id, incoming)) =
      let touched = touch_owner owner r in
      let opened = touch_owner-LooksSame r in
      let replaced =
        replace_plan-LooksSame id key snapshot touched
          (is_older incoming (get_plan owner id touched)) in
      (replaced.0 ∙ opened.0, λ k. replaced.1 k ∙ opened.1 k)

  create-LooksSame :
      (snapshot : Snapshot) (key : String) (r : Repository)
      → LooksSame other r (create_or_replace_plan owner snapshot key r).1
  unfolding create_or_replace_plan
  create-LooksSame snapshot key r =
      replay_or-LooksSame (replay owner key r) r
        (create_plan owner key snapshot r (intent snapshot))
        (create_plan-LooksSame key snapshot r (intent snapshot))

  save_revision-LooksSame :
      (id key : String) (snapshot : Snapshot) (r : Repository)
      (checked : Result RepositoryError (Unit {0}))
      → LooksSame other r (save_revision owner id key snapshot r checked).1
  save_revision-LooksSame id key snapshot r (raise e) = (refl, λ k. refl)
  save_revision-LooksSame id key snapshot r (ok u) = store_plan-LooksSame id key snapshot r

  save-LooksSame :
      (id : String) (snapshot : Snapshot) (key : String) (r : Repository)
      → LooksSame other r (save_new_revision owner id snapshot key r).1
  unfolding save_new_revision
  save-LooksSame id snapshot key r =
      let checked = check_revision owner id snapshot r in
      replay_or-LooksSame (replay owner key r) r (save_revision owner id key snapshot r checked)
        (save_revision-LooksSame id key snapshot r checked)

  without_plan-other :
      (id : String) (plans : List (String × OwnerPlans)) (own : Option OwnerPlans)
      → get texts other (without_plan owner id plans own) ≡ get texts other plans
  without_plan-other id plans none = refl
  without_plan-other id plans (some own) =
      get-put_other texts other owner (pop texts id own) plans apart

  delete-LooksSame : (id : String) (r : Repository) → LooksSame other r (delete_plan owner id r).1
  unfolding delete_plan owner_plans replay
  delete-LooksSame id r = (
    ap (λ o. or_else o []) (without_plan-other id r.plans (get texts owner r.plans)),
    λ key. refl,
  )

  get-keep_if_other :
      (key : String) (entries : List (IdemKey × Snapshot))
      → get pairs (other, key) (keep_if (λ entry. not (entry.0.0 == owner)) entries)
        ≡ get pairs (other, key) entries
  unfolding get
  get-keep_if_other key [] = refl
  get-keep_if_other key (((o, k), s) ∷ rest) = elim (Bool-cases (o == owner)) [
    | inl mine ↦
        let different = subst (λ x. (other == x) ≡ false) (sym ((eq_iff o owner).0 mine)) apart in
        rw (mine, different) (get-keep_if_other key rest)
    | inr theirs ↦ rw (theirs, get) (rw (get-keep_if_other key rest) refl)
  ]

  cleanup-LooksSame : (r : Repository) → LooksSame other r (cleanup_owner owner r).1
  unfolding cleanup_owner owner_plans replay
  cleanup-LooksSame r = (
    ap (λ o. or_else o []) (get-pop_other texts other owner r.plans apart),
    λ key. get-keep_if_other key r.idempotency,
  )

-- The state-changing operations of the repository.
pub data Operation : Type 0 where
  create_or_replace : Snapshot → String → Operation
  save : String → Snapshot → String → Operation
  delete : String → Operation
  cleanup : Operation

-- The repository after an operation of an owner.
unfoldable pub after : String → Operation → Repository → Repository
unfolding create_or_replace_plan save_new_revision delete_plan cleanup_owner
after owner (create_or_replace snapshot key) r = (create_or_replace_plan owner snapshot key r).1
after owner (save id snapshot key) r = (save_new_revision owner id snapshot key r).1
after owner (delete id) r = (delete_plan owner id r).1
after owner cleanup r = (cleanup_owner owner r).1

after-LooksSame :
    (other owner : String)
    → (other == owner) ≡ false
    → (op : Operation) (r : Repository) → LooksSame other r (after owner op r)
unfolding after
after-LooksSame other owner apart (create_or_replace snapshot key) r =
    create-LooksSame other owner apart snapshot key r
after-LooksSame other owner apart (save id snapshot key) r =
    save-LooksSame other owner apart id snapshot key r
after-LooksSame other owner apart (delete id) r = delete-LooksSame other owner apart id r
after-LooksSame other owner apart cleanup r = cleanup-LooksSame other owner apart r

-- No create, save, delete or clean-up of one owner, on any branch, changes a plan that another owner
-- gets or lists, nor what a write of that other owner under any idempotency key replays.
pub other_owner_unaffected :
    (other owner : String)
    → other ≢ owner
    → (op : Operation) (r : Repository) (id key : String)
    → (get_plan other id (after owner op r) ≡ get_plan other id r)
      × (list_plans other (after owner op r) ≡ list_plans other r)
      × (replay other key (after owner op r) ≡ replay other key r)
unfolding get_plan list_plans
other_owner_unaffected other owner different op r id key =
    let same = after-LooksSame other owner (other_key texts other owner different) op r in
    (ap (get texts id) same.0, ap (map (λ (e : String × Snapshot). e.1)) same.0, same.1 key)
