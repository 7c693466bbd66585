-- ===== src/Crawl/Claim/Best.antt =====
-- What a claim takes: a node that comes first of the claimable ones.
use dext.Base.{
  ℕ, ◌≡◌, refl, sym, subst, Bool, true, false, Option, none, some, List, [], ◌∷◌, Bool-cases, inl,
  inr, OneOf, All, arith, ◌⊎◌,
}
use dext.Crawl.Tables.{update_rows}
use dext.Crawl.Types.{GraphNode, ClaimedNode, Database}
use dext.Crawl.Store.{has_id}
use dext.Crawl.Claim.{
  ClaimQuery, is_claimable, comes_first, earlier, first_in_order, claimed, claimed_node, claim,
  claim_next,
}

-- The node fulfils the condition, and comes before every other row that does.
abbrev pub IsFirst : (GraphNode → Bool) → List GraphNode → GraphNode → Type 0
IsFirst p rows n =
    OneOf n rows × (p n ≡ true) × All (λ m. ((p m ≡ false) ⊎ (comes_first n m ≡ true))) rows

comes_first_refl : (n : GraphNode) → comes_first n n ≡ true
comes_first_refl n = ground arith

comes_first_total : (n m : GraphNode) → comes_first n m ≡ false → comes_first m n ≡ true
comes_first_total n m h = ground arith

comes_first_trans :
    (a b c : GraphNode) → comes_first a b ≡ true → comes_first b c ≡ true → comes_first a c ≡ true
comes_first_trans a b c h k = ground arith

All-first :
    (p : GraphNode → Bool) (a b : GraphNode) (rows : List GraphNode)
    → comes_first a b ≡ true
    → All (λ m. ((p m ≡ false) ⊎ (comes_first b m ≡ true))) rows
    → All (λ m. ((p m ≡ false) ⊎ (comes_first a m ≡ true))) rows
All-first p a b [] h all = tt
All-first p a b (m ∷ rows) h (inl out, all) = (inl out, All-first p a b rows h all)
All-first p a b (m ∷ rows) h (inr after, all) =
    (inr (comes_first_trans a b m h after), All-first p a b rows h all)

All-none :
    (p : GraphNode → Bool) (a : GraphNode) (rows : List GraphNode)
    → All (λ m. p m ≡ false) rows
    → All (λ m. ((p m ≡ false) ⊎ (comes_first a m ≡ true))) rows
All-none p a [] all = tt
All-none p a (m ∷ rows) (out, all) = (inl out, All-none p a rows all)

-- What a search of a table has found.
abbrev pub Finds : (GraphNode → Bool) → List GraphNode → Option GraphNode → Type 0
Finds p rows none = All (λ m. p m ≡ false) rows
Finds p rows (some n) = IsFirst p rows n

Finds-step :
    (p : GraphNode → Bool) (n : GraphNode) (rows : List GraphNode) (later : Option GraphNode)
    → p n ≡ true
    → Finds p rows later
    → IsFirst p (n ∷ rows) (earlier n later)
Finds-step p n rows none t all = (inl refl, t, (inr (comes_first_refl n), All-none p n rows all))
Finds-step p n rows (some m) t (one, good, all) = elim (Bool-cases (comes_first n m)) [
  | inl before ↦
      let same : earlier n (some m) ≡ n = rw before refl in
      subst (IsFirst p (n ∷ rows)) (sym same)
        (inl refl, t, (inr (comes_first_refl n), All-first p n m rows before all))
  | inr after ↦
      let same : earlier n (some m) ≡ m = rw after refl in
      subst (IsFirst p (n ∷ rows)) (sym same)
        (inr one, good, (inr (comes_first_total n m after), all))
]

Finds-skip :
    (p : GraphNode → Bool) (n : GraphNode) (rows : List GraphNode) (later : Option GraphNode)
    → p n ≡ false
    → Finds p rows later
    → Finds p (n ∷ rows) later
Finds-skip p n rows none f all = (f, all)
Finds-skip p n rows (some m) f (one, good, all) = (inr one, good, (inl f, all))

pub first_in_order-Finds :
    (p : GraphNode → Bool) (rows : List GraphNode) → Finds p rows (first_in_order p rows)
unfolding first_in_order
first_in_order-Finds p [] = tt
first_in_order-Finds p (n ∷ rows) = elim (Bool-cases (p n)) [
  | inl t ↦ rw t (Finds-step p n rows (first_in_order p rows) t (first_in_order-Finds p rows))
  | inr f ↦ rw f (Finds-skip p n rows (first_in_order p rows) f (first_in_order-Finds p rows))
]

-- What a claim answers and leaves: the row it has taken, or that there is none and nothing changes.
abbrev pub Claims : ℕ → ClaimQuery → ℕ → Database → Option ClaimedNode × Database → Type 0
Claims run_id query now db (none, db') =
    All (λ n. is_claimable query now n ≡ false) db.nodes × (db' ≡ db)
Claims run_id query now db (some c, db') =
    (n : GraphNode) × IsFirst (is_claimable query now) db.nodes n
    × (c ≡ claimed_node (claimed run_id now n))
    × (db' ≡ record db { nodes = update_rows (has_id n.id) (claimed run_id now) db.nodes })

claim-Claims :
    (run_id now : ℕ) (query : ClaimQuery) (db : Database) (found : Option GraphNode)
    → Finds (is_claimable query now) db.nodes found
    → Claims run_id query now db (claim found run_id now db)
unfolding claim
claim-Claims run_id now query db none h = (h, refl)
claim-Claims run_id now query db (some n) h = (n, h, refl, refl)

pub claim_next-Claims :
    (run_id : ℕ) (query : ClaimQuery) (now : ℕ) (db : Database)
    → Claims run_id query now db (claim_next run_id query now db)
unfolding claim_next
claim_next-Claims run_id query now db =
    claim-Claims run_id now query db (first_in_order (is_claimable query now) db.nodes)
      (first_in_order-Finds (is_claimable query now) db.nodes)
