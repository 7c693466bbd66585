-- ===== src/Planning/Scheduler/DueDate.antt =====
-- `_available_due_date`: the latest date of the range that is not blocked.
use dext.Base.{
  ℕ, zero, suc, ◌≤◌, ◌<◌, ◌≡◌, true, false, Option, none, some, List, arith, nat_elem, leb, ◌⊎◌,
  inl, inr, Bool-cases,
}
use native.Mathlib.Decide.{dec_le}
use dext.Planning.Types.{Date}
use dext.Planning.Scheduler.Ranges.{available_due_date}

leb-true : {a b : ℕ} → a ≤ b → leb a b ≡ true
leb-true h = ground arith

leb-false : {a b : ℕ} → ¬ (a ≤ b) → leb a b ≡ false
leb-false h = ground arith

zero_of_le : {d : ℕ} → d ≤ 0 → d ≡ 0
zero_of_le h = omega arith

-- What the result says of the dates from `start` to `end`.
abbrev pub DueDate : Date → Date → List Date → Option Date → Type 0
DueDate start end blocked none = (d : Date) → start ≤ d → d ≤ end → nat_elem d blocked ≡ true
DueDate start end blocked (some due) =
    (start ≤ due)
    × (due ≤ end)
    × (nat_elem due blocked ≡ false)
    × ((d : Date) → due < d → d ≤ end → nat_elem d blocked ≡ true)

le_suc_cases : (d n : ℕ) → d ≤ suc n → (d ≤ n) ⊎ (d ≡ suc n)
le_suc_cases d n h = elim (dec_le d n) [ yes le ↦ inl le | no gt ↦ inr (omega arith) ]

module _ (start end : Date) (blocked : List Date) (here : nat_elem (suc end) blocked ≡ true) where
  blocked_up :
      (d : Date) → (d ≤ end → nat_elem d blocked ≡ true) → d ≤ suc end → nat_elem d blocked ≡ true
  blocked_up d below le = elim (le_suc_cases d end le) [ inl h ↦ below h | inr e ↦ rw e here ]

  DueDate-suc : (r : Option Date) → DueDate start end blocked r → DueDate start (suc end) blocked r
  DueDate-suc none h = λ d from to. blocked_up d (h d from) to
  DueDate-suc (some due) h = (h.0, omega arith, h.2, λ d from to. blocked_up d (h.3 d from) to)

-- The result is the latest free date of the range, and there is none exactly when all are blocked.
pub available_due_date-DueDate :
    (start end : Date) (blocked : List Date)
    → DueDate start end blocked (available_due_date start end blocked)
unfolding available_due_date
available_due_date-DueDate start zero blocked = elim (dec_le start 0) [
  | yes le ↦ elim (Bool-cases (nat_elem 0 blocked)) [
    | inl e ↦ rw (leb-true le, e) (λ d from to. rw (zero_of_le to) e)
    | inr e ↦ rw (leb-true le, e) (le, omega arith, e, λ d from to. absurd (omega arith))
  ]
  | no gt ↦ rw (leb-false gt) (λ d from to. absurd (omega arith))
]
available_due_date-DueDate start (suc end) blocked = elim (dec_le start (suc end)) [
  | yes le ↦ elim (Bool-cases (nat_elem (suc end) blocked)) [
    | inl e ↦
        rw (leb-true le, e)
          (DueDate-suc start end blocked e _ (available_due_date-DueDate start end blocked))
    | inr e ↦ rw (leb-true le, e) (le, omega arith, e, λ d from to. absurd (omega arith))
  ]
  | no gt ↦ rw (leb-false gt) (λ d from to. absurd (omega arith))
]
