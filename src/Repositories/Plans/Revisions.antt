-- ===== src/Repositories/Plans/Revisions.antt =====
-- Revisions: what is stored is well formed, and writes never lower a revision.
use dext.Base.{
  ℕ, ◌+◌, ◌≤◌, ◌≡◌, refl, sym, ap, ◌∙◌, subst, String, Bool, true, false, Option, none, some, [],
  or_else, Result, ok, raise, bind-ok, ok-injective, Bool-cases, inl, inr, ltb, nat_eq, ◌==◌,
  eq_iff, arith,
}
use dext.Base.Dicts.{get, put, get-put, get-put_other}
use dext.Repositories.Snapshots.{Snapshot, RepositoryError, texts, plan_id, revision}
use dext.Repositories.Plans.{
  Repository, owner_plans, get_plan, touch_owner, store_plan, Write, replay_or, replay, is_older,
  intent, own_id_is, persisted, check_next, replace_plan, create_plan, create_or_replace_plan,
  check_revision, save_revision, save_new_revision,
}

-- A snapshot that is fit to be stored under an id: it has that id and a revision.
abbrev pub IsStored : String → Snapshot → Type 0
IsStored id s = (plan_id s ≡ ok id) × ((n : ℕ) × (revision s ≡ ok n))

module _ (owner : String) where
  get_plan-touch_owner :
      (id : String) (r : Repository) → get_plan owner id (touch_owner owner r) ≡ get_plan owner id r
  unfolding get_plan touch_owner owner_plans
  get_plan-touch_owner id r =
      rw (get-put texts owner (or_else (get texts owner r.plans) []) r.plans) refl

  pub get_plan-store_plan :
      (id key : String) (s : Snapshot) (r : Repository)
      → get_plan owner id (store_plan owner id key s r) ≡ some s
  unfolding get_plan store_plan owner_plans
  get_plan-store_plan id key s r =
      rw (get-put texts owner (put texts id s (or_else (get texts owner r.plans) [])) r.plans)
        (get-put texts id s (or_else (get texts owner r.plans) []))

  get_plan-store_plan_other :
      (other id key : String) (s : Snapshot) (r : Repository)
      → (other == id) ≡ false
      → get_plan owner other (store_plan owner id key s r) ≡ get_plan owner other r
  unfolding get_plan store_plan owner_plans
  get_plan-store_plan_other other id key s r apart =
      rw (get-put texts owner (put texts id s (or_else (get texts owner r.plans) [])) r.plans)
        (get-put_other texts other id s (or_else (get texts owner r.plans) []) apart)

  intent-IsStored :
      (s : Snapshot) {id : String} {n : ℕ}
      → intent s ≡ ok (id, n)
      → (plan_id s ≡ ok id) × (revision s ≡ ok n)
  intent-IsStored s h =
      let (i, named, rest) = bind-ok (plan_id s) _ h in
      let (m, numbered, e) = bind-ok (revision s) _ rest in (named ∙ cc e, numbered ∙ cc e)

  -- The relation of the owner's plans before and after a write: a plan that was held is held at a
  -- revision that is not lower.
  abbrev Grows : Repository → Repository → Type 0
  Grows r r' =
      (id : String) (s : Snapshot) (n : ℕ)
      → get_plan owner id r ≡ some s
      → revision s ≡ ok n
      → (s' : Snapshot) × (m : ℕ) × (get_plan owner id r' ≡ some s')
        × (revision s' ≡ ok m)
        × (n ≤ m)

  Grows-refl : (r : Repository) → Grows r r
  Grows-refl r id s n held numbered = (s, n, held, numbered, omega arith)

  store_plan-Grows :
      (id key : String) (snapshot : Snapshot) (m : ℕ) (r : Repository)
      → revision snapshot ≡ ok m
      → ((s : Snapshot) (n : ℕ) → get_plan owner id r ≡ some s → revision s ≡ ok n → n ≤ m)
      → Grows r (store_plan owner id key snapshot r)
  store_plan-Grows id key snapshot m r numbered below i s n held e = elim (Bool-cases (i == id)) [
    | inl same ↦
        let here = (eq_iff i id).0 same in
        (
          snapshot,
          m,
          subst (λ x. get_plan owner x (store_plan owner id key snapshot r) ≡ some snapshot)
              (sym here) (get_plan-store_plan id key snapshot r),
          numbered,
          below s n (subst (λ x. get_plan owner x r ≡ some s) here held) e,
        )
    | inr apart ↦ (s, n, get_plan-store_plan_other i id key snapshot r apart ∙ held, e, omega arith)
  ]

  is_older-bound :
      (m : ℕ) (current : Option Snapshot)
      → is_older m current ≡ ok false
      → (s : Snapshot) (n : ℕ) → current ≡ some s
      → revision s ≡ ok n
      → n ≤ m
  unfolding is_older
  is_older-bound m none h s n held e = cc
  is_older-bound m (some current) h s n held e =
      let (k, numbered, newer) = bind-ok (revision current) _ h in
      let same : current ≡ s = cc held in
      let same_n : k ≡ n = cc (sym numbered ∙ ap revision same ∙ e) in
      let kept : ltb m k ≡ false = cc newer in ground (arith, same_n, kept)

  replace_plan-Grows :
      (id key : String) (snapshot : Snapshot) (m : ℕ) (r : Repository)
      (older : Result RepositoryError Bool)
      → is_older m (get_plan owner id r) ≡ older
      → revision snapshot ≡ ok m
      → Grows r (replace_plan owner id key snapshot r older).1
  replace_plan-Grows id key snapshot m r (raise e) h numbered = Grows-refl r
  replace_plan-Grows id key snapshot m r (ok true) h numbered = Grows-refl r
  replace_plan-Grows id key snapshot m r (ok false) h numbered =
      store_plan-Grows id key snapshot m r numbered
        (λ s n held e. is_older-bound m (get_plan owner id r) h s n held e)

  create_plan-Grows :
      (key : String) (snapshot : Snapshot) (r : Repository)
      (wanted : Result RepositoryError (String × ℕ))
      → intent snapshot ≡ wanted
      → Grows r (create_plan owner key snapshot r wanted).1
  create_plan-Grows key snapshot r (raise x) h i s n held e = Grows-refl r i s n held e
  create_plan-Grows key snapshot r (ok (id, m)) h i s n held e =
      let touched = touch_owner owner r in
      replace_plan-Grows id key snapshot m touched (is_older m (get_plan owner id touched)) refl
        (intent-IsStored snapshot h).1 i s n (get_plan-touch_owner i r ∙ held) e

  replay_or-Grows :
      (stored : Option Snapshot) (r : Repository) (write : Write)
      → Grows r write.1
      → Grows r (replay_or stored r write).1
  replay_or-Grows (some s) r write h = Grows-refl r
  replay_or-Grows none r write h = h

  -- What `save_new_revision` has checked.
  abbrev pub IsNext : String → Snapshot → Repository → Type 0
  IsNext id snapshot r =
      (current : Snapshot) × (held : ℕ) × (plan_id snapshot ≡ ok id)
      × (get_plan owner id r ≡ some current)
      × (revision current ≡ ok held)
      × (revision snapshot ≡ ok (held + 1))

  own_id_is→≡ : (id own : String) {u : Unit {0}} → own_id_is id own ≡ ok u → own ≡ id
  own_id_is→≡ id own h = elim (Bool-cases (own == id)) [
    | inl same ↦ (eq_iff own id).0 same
    | inr apart ↦ let bad = rw apart at h in cc bad
  ]

  persisted→≡ :
      (id : String) (o : Option Snapshot) {s : Snapshot} → persisted id o ≡ ok s → o ≡ some s
  persisted→≡ id none h = cc
  persisted→≡ id (some t) h = cc h

  check_next→≡ : (m held : ℕ) {u : Unit {0}} → check_next m held ≡ ok u → m ≡ held + 1
  check_next→≡ m held h = elim (Bool-cases (nat_eq m (held + 1))) [
    | inl same ↦ ground (arith, same)
    | inr apart ↦ let bad = rw apart at h in cc bad
  ]

  check_revision-IsNext :
      (id : String) (snapshot : Snapshot) (r : Repository) {u : Unit {0}}
      → check_revision owner id snapshot r ≡ ok u
      → IsNext id snapshot r
  unfolding check_revision
  check_revision-IsNext id snapshot r h =
      let (own, named, h1) = bind-ok (plan_id snapshot) _ h in
      let (u1, matches, h2) = bind-ok (own_id_is id own) _ h1 in
      let (current, held, h3) = bind-ok (persisted id (get_plan owner id r)) _ h2 in
      let (m, numbered, h4) = bind-ok (revision snapshot) _ h3 in
      let (n, old, h5) = bind-ok (revision current) _ h4 in
      (
        current,
        n,
        named ∙ ap ok (own_id_is→≡ id own matches),
        persisted→≡ id (get_plan owner id r) held,
        old,
        numbered ∙ ap ok (check_next→≡ m n h5),
      )

  save_revision-Grows :
      (id key : String) (snapshot : Snapshot) (r : Repository)
      (checked : Result RepositoryError (Unit {0}))
      → check_revision owner id snapshot r ≡ checked
      → Grows r (save_revision owner id key snapshot r checked).1
  save_revision-Grows id key snapshot r (raise e) h = Grows-refl r
  save_revision-Grows id key snapshot r (ok u) h =
      let (current, n, named, held, old, numbered) = check_revision-IsNext id snapshot r h in
      store_plan-Grows id key snapshot (n + 1) r numbered (λ s k held' e.
        let same : current ≡ s = cc (sym held ∙ held') in
        let same_n : n ≡ k = cc (sym old ∙ ap revision same ∙ e) in omega (arith, same_n))

  create-Grows :
      (snapshot : Snapshot) (key : String) (r : Repository)
      → Grows r (create_or_replace_plan owner snapshot key r).1
  unfolding create_or_replace_plan
  create-Grows snapshot key r =
      replay_or-Grows (replay owner key r) r (create_plan owner key snapshot r (intent snapshot))
        (create_plan-Grows key snapshot r (intent snapshot) refl)

  save-Grows :
      (id : String) (snapshot : Snapshot) (key : String) (r : Repository)
      → Grows r (save_new_revision owner id snapshot key r).1
  unfolding save_new_revision
  save-Grows id snapshot key r =
      let checked = check_revision owner id snapshot r in
      replay_or-Grows (replay owner key r) r (save_revision owner id key snapshot r checked)
        (save_revision-Grows id key snapshot r checked refl)

  -- The owner holds the plan at that revision or a later one.
  abbrev pub HoldsFrom : String → ℕ → Repository → Type 0
  HoldsFrom id n r =
      (s : Snapshot) × (m : ℕ) × (get_plan owner id r ≡ some s) × (revision s ≡ ok m) × (n ≤ m)

  -- Whatever a create or a save does, replay and refusal included, a plan that its owner held is
  -- held after it, at a revision that is not lower than before.
  pub writes_never_lower_revision :
      (id key : String) (snapshot : Snapshot) (r : Repository) (held_id : String) (held : Snapshot)
      (n : ℕ)
      → get_plan owner held_id r ≡ some held
      → revision held ≡ ok n
      → HoldsFrom held_id n (create_or_replace_plan owner snapshot key r).1
        × HoldsFrom held_id n (save_new_revision owner id snapshot key r).1
  writes_never_lower_revision id key snapshot r held_id held n has numbered = (
    create-Grows snapshot key r held_id held n has numbered,
    save-Grows id snapshot key r held_id held n has numbered,
  )

  save_or_replay :
      (id key : String) (snapshot : Snapshot) (r : Repository)
      (checked : Result RepositoryError (Unit {0})) {stored : Snapshot} {r' : Repository}
      → check_revision owner id snapshot r ≡ checked
      → save_revision owner id key snapshot r checked ≡ (ok stored, r')
      → IsNext id snapshot r × (get_plan owner id r' ≡ some snapshot) × (stored ≡ snapshot)
  save_or_replay id key snapshot r (raise e) h saved = cc (ap (λ (w : Write). w.0) saved)
  save_or_replay id key snapshot r (ok u) h saved = (
    check_revision-IsNext id snapshot r h,
    subst (λ x. get_plan owner id x ≡ some snapshot) (ap (λ (w : Write). w.1) saved)
        (get_plan-store_plan id key snapshot r),
    sym (ok-injective (ap (λ (w : Write). w.0) saved)),
  )

  -- A save under a fresh idempotency key that succeeds had a snapshot of the plan it names, whose
  -- revision is one more than that of the plan held before, and afterwards the owner gets exactly
  -- that snapshot.
  pub save_new_revision-IsNext :
      (id key : String) (snapshot stored : Snapshot) (r r' : Repository)
      → replay owner key r ≡ none
      → save_new_revision owner id snapshot key r ≡ (ok stored, r')
      → IsNext id snapshot r × (get_plan owner id r' ≡ some snapshot) × (stored ≡ snapshot)
  unfolding save_new_revision
  save_new_revision-IsNext id key snapshot stored r r' fresh saved =
      save_or_replay id key snapshot r (check_revision owner id snapshot r) refl (rw fresh at saved)
