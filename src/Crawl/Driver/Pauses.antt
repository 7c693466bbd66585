-- ===== src/Crawl/Driver/Pauses.antt =====
-- The driver's loop comes to a pass that finds no node.
use dext.Base.{
  ℕ, suc, ◌≡◌, String, true, false, Option, none, some, List, [], ◌∷◌, elem, All, if◌then◌else◌,
}
use dext.Crawl.Claim.{is_claimable}
use dext.Crawl.Driver.{Pass, handled, raised, finished, sleeps, query_of, is_idle}
use dext.Crawl.Driver.Loop.{IsValueError}

-- How many keys were not attempted.
abbrev untried : List String → List String → ℕ
untried attempted [] = 0
untried attempted (k ∷ keys) =
    let rest = untried attempted keys in if elem k attempted then rest else suc rest

-- How a stretch of passes may end: with an error of an address; or where at some instant no node is
-- to be claimed, by a return if nothing is queued or in flight, or else by a sleep.
abbrev pub Paused : Pass → Type 0
Paused (handled node e) = ⊥
Paused (raised node error e) = IsValueError error
Paused (finished e) =
    (is_idle e ≡ true) × ((now : ℕ) × All (λ n. is_claimable (query_of e) now n ≡ false) e.db.nodes)
Paused (sleeps e) =
    (is_idle e ≡ false)
    × ((now : ℕ) × All (λ n. is_claimable (query_of e) now n ≡ false) e.db.nodes)

abbrev pub Pauses : Option Pass → Type 0
Pauses none = ⊥
Pauses (some pass) = Paused pass
