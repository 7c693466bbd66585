-- ===== src/Crawl/Driver/Loop.antt =====
-- What a pass of the driver's loop leaves.
use dext.Base.{◌++◌}
use dext.Base.{
  ℕ, ◌≡◌, refl, sym, ap, ◌∙◌, subst, String, Bool, true, false, not, Option, none, some, List, [],
  ◌∷◌, elem, is_empty, Bool-cases, inl, inr, OneOf, OneOf-map, All, ok, raise, ◌==◌, eq_iff, ◌||◌,
  ◌&&◌,
}
use dext.Crawl.Tables.{update_rows, map-update_rows}
use dext.Crawl.Types.{GraphNode, ClaimedNode, Database}
use dext.Crawl.Store.{has_id}
use dext.Crawl.Store.Integrity.{keys_of, ids_in}
use dext.Crawl.Claim.{ClaimQuery, is_claimable, claimed, claimed_node}
use dext.Crawl.Claim.Best.{Claims, claim_next-Claims}
use dext.Crawl.Driver.{
  Outside, Engine, Outcome, DriverError, database_error, value_error, Pass, handled, raised,
  finished, sleeps, pass_of, run_pass, query_of, driver_pass, is_idle,
}
use dext.Crawl.Driver.Covered.{Covers, queued, Covers-claim}
use dext.Crawl.Driver.Kept.{Handles, handle_claimed_node-Handles}

and_right : (a b : Bool) → (a && b) ≡ true → b ≡ true
and_right false b h = cc h
and_right true b h = h

pub elem_of : (x : String) (xs : List String) → OneOf x xs → elem x xs ≡ true
elem_of x [] h = elim h [ ]
elem_of x (y ∷ ys) (inl here) = rw ((eq_iff x y).1 here) refl
elem_of x (y ∷ ys) (inr there) = elim (Bool-cases (x == y)) [
  | inl t ↦ rw t refl
  | inr f ↦ rw f (elem_of x ys there)
]

not_excluded :
    (x : String) (xs : List String) → (is_empty xs || not (elem x xs)) ≡ true → elem x xs ≡ false
not_excluded x [] h = refl
not_excluded x (y ∷ ys) h = elim (Bool-cases (elem x (y ∷ ys))) [
  | inl t ↦ let bad = rw t at h in cc bad
  | inr f ↦ f
]

claimable_key :
    (q : ClaimQuery) (now : ℕ) (n : GraphNode)
    → is_claimable q now n ≡ true
    → elem n.node_key q.exclude_node_keys ≡ false
unfolding is_claimable
claimable_key q now n h = not_excluded n.node_key q.exclude_node_keys (and_right _ _ h)

abbrev pub IsValueError : DriverError → Type 0
IsValueError (database_error error) = ⊥
IsValueError (value_error text) = Unit

-- What a pass makes of the engine before it.
abbrev pub Passes : Engine → ℕ → Pass → Type 0
Passes e now (handled node e') =
    (elem node.node_key e.attempted ≡ false)
    × OneOf node.node_key (keys_of e.db.nodes)
    × (e'.attempted ≡ node.node_key ∷ e.attempted)
    × (keys_of e'.db.nodes ≡ keys_of e.db.nodes)
    × ((held : List ℕ)
        → Covers (queued e ++ held) e.db.nodes
        → Covers (queued e' ++ held) e'.db.nodes)
Passes e now (raised node error e') =
    IsValueError error
    × (e'.attempted ≡ node.node_key ∷ e.attempted)
    × (keys_of e'.db.nodes ≡ keys_of e.db.nodes)
    × ((held : List ℕ)
        → Covers (queued e ++ held) e.db.nodes
        → Covers (node.id ∷ (queued e' ++ held)) e'.db.nodes)
Passes e now (finished e') =
    (is_idle e' ≡ true)
    × ((held : List ℕ)
        → Covers (queued e ++ held) e.db.nodes
        → Covers (queued e' ++ held) e'.db.nodes)
    × All (λ n. is_claimable (query_of e') now n ≡ false) e'.db.nodes
Passes e now (sleeps e') =
    (is_idle e' ≡ false)
    × (e'.attempted ≡ e.attempted)
    × ((held : List ℕ)
        → Covers (queued e ++ held) e.db.nodes
        → Covers (queued e' ++ held) e'.db.nodes)
    × All (λ n. is_claimable (query_of e') now n ≡ false) e'.db.nodes

column_keys :
    (run_id now : ℕ) (id : ℕ) (nodes : List GraphNode)
    → keys_of (update_rows (has_id id) (claimed run_id now) nodes) ≡ keys_of nodes
unfolding claimed
column_keys run_id now id nodes =
    map-update_rows (λ n. n.node_key) (has_id id) (claimed run_id now) nodes (λ n. refl)

column_ids :
    (run_id now : ℕ) (id : ℕ) (nodes : List GraphNode)
    → ids_in (update_rows (has_id id) (claimed run_id now) nodes) ≡ ids_in nodes
unfolding claimed
column_ids run_id now id nodes =
    map-update_rows (λ n. n.id) (has_id id) (claimed run_id now) nodes (λ n. refl)

key_claimed :
    (run_id now : ℕ) (n : GraphNode) → (claimed_node (claimed run_id now n)).node_key ≡ n.node_key
unfolding claimed
key_claimed run_id now n = refl

id_claimed : (run_id now : ℕ) (n : GraphNode) → (claimed_node (claimed run_id now n)).id ≡ n.id
unfolding claimed
id_claimed run_id now n = refl

-- After a claim the engine handles the node with these tables and attempted keys.
abbrev attempting : ClaimedNode → Database → Engine → Engine
attempting c db e = record e { db = db; attempted = c.node_key ∷ e.attempted }

handled-Passes :
    (e : Engine) (now : ℕ) (c : ClaimedNode) (db : Database) (r : Outcome)
    → elem c.node_key e.attempted ≡ false
    → OneOf c.node_key (keys_of e.db.nodes)
    → keys_of db.nodes ≡ keys_of e.db.nodes
    → ((held : List ℕ)
        → Covers (queued e ++ held) e.db.nodes
        → Covers (c.id ∷ (queued e ++ held)) db.nodes)
    → Handles c.id (attempting c db e) r
    → Passes e now (pass_of c r)
handled-Passes e now c db (raise (database_error error, e')) free there same claims never =
    elim never [ ]
handled-Passes e now c db (raise (value_error text, e')) free there same claims
      (keys, tried, covered) =
    (tt, tried, keys ∙ same, λ held h. covered held (claims held h))
handled-Passes e now c db (ok e') free there same claims (keys, tried, covered) =
    (free, there, tried, keys ∙ same, λ held h. covered held (claims held h))

module _ (out : Outside) where
  run_pass-Passes :
      (e : Engine) (now : ℕ) (answer : Option ClaimedNode × Database)
      → Claims e.run_id (query_of e) now e.db answer
      → Passes e now (run_pass out answer now e)
  run_pass-Passes e now (none, db') (free, same) =
      let covered : (held : List ℕ)
          → Covers (queued e ++ held) e.db.nodes
          → Covers (queued e ++ held) db'.nodes =
        λ held h. subst (λ (db : Database). Covers (queued e ++ held) db.nodes) (sym same) h in
      let none_due : All (λ n. is_claimable (query_of e) now n ≡ false) db'.nodes =
        subst (λ (db : Database). All (λ n. is_claimable (query_of e) now n ≡ false) db.nodes)
          (sym same) free in
      elim (Bool-cases (is_idle e)) [
        | inl idle ↦ rw idle (idle, covered, none_due)
        | inr busy ↦ rw busy (busy, refl, covered, none_due)
      ]
  run_pass-Passes e now (some c, db') (n, (one, due, first), is_c, same) =
      let key : c.node_key ≡ n.node_key =
        ap (λ (x : ClaimedNode). x.node_key) is_c ∙ key_claimed e.run_id now n in
      let id : c.id ≡ n.id = ap (λ (x : ClaimedNode). x.id) is_c ∙ id_claimed e.run_id now n in
      let ids : ids_in db'.nodes ≡ ids_in e.db.nodes =
        ap (λ (x : Database). ids_in x.nodes) same ∙ column_ids e.run_id now n.id e.db.nodes in
      let there : OneOf c.id (ids_in db'.nodes) =
        subst (λ i. OneOf i (ids_in db'.nodes)) (sym id)
          (subst (OneOf n.id) (sym ids) (OneOf-map (λ (x : GraphNode). x.id) n e.db.nodes one)) in
      handled-Passes e now c db' _
        (subst (λ k. elem k e.attempted ≡ false) (sym key) (claimable_key (query_of e) now n due))
        (subst (λ k. OneOf k (keys_of e.db.nodes)) (sym key)
          (OneOf-map (λ (x : GraphNode). x.node_key) n e.db.nodes one))
        (ap (λ (x : Database). keys_of x.nodes) same ∙ column_keys e.run_id now n.id e.db.nodes)
        (λ held h.
          subst (λ (x : Database). Covers (c.id ∷ (queued e ++ held)) x.nodes) (sym same)
            (subst
              (λ i.
                Covers (i ∷ (queued e ++ held))
                  (update_rows (has_id n.id) (claimed e.run_id now) e.db.nodes))
              (sym id) (Covers-claim (queued e ++ held) n.id e.run_id now e.db.nodes h)))
        (handle_claimed_node-Handles out c now (attempting c db' e) there)

  pub driver_pass-Passes : (now : ℕ) (e : Engine) → Passes e now (driver_pass out now e)
  unfolding driver_pass
  driver_pass-Passes now e =
      run_pass-Passes e now _ (claim_next-Claims e.run_id (query_of e) now e.db)
