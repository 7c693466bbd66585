-- ===== src/Repositories/Snapshots.antt =====
-- plans.py: plan snapshots, their id and revision.
use dext.Base.{
  ℕ, zero, suc, String, Bool, true, false, List, if◌then◌else◌, Option, none, some, Result, ok,
  raise, append, ◌==◌, eq_iff,
}
use dext.Base.Text.{strip, decimal}
use dext.Base.Dicts.{Keys, get}

-- A value of a snapshot. What is no text, number or Boolean is `other`, with its truth and its `str`.
pub data Json : Type 0 where
  null : Json
  boolean : Bool → Json
  number : ℕ → Json
  negative : ℕ → Json
  string : String → Json
  other : Bool → String → Json

abbrev pub texts : Keys String
texts = record { same = λ a b. a == b; same_iff = λ a b. eq_iff a b }

abbrev pub Snapshot : Type 0
Snapshot = List (String × Json)

pub data RepositoryError : Type 0 where
  value_error : String → RepositoryError
  revision_conflict : String → RepositoryError
  not_found : String → RepositoryError

-- `str(value or "")`; `negative n` is the number `-(n + 1)`.
abbrev pub text_of : Option Json → String
text_of none = ""
text_of (some null) = ""
text_of (some (boolean true)) = "True"
text_of (some (boolean false)) = ""
text_of (some (number zero)) = ""
text_of (some (number (suc n))) = decimal (suc n)
text_of (some (negative n)) = append "-" (decimal (suc n))
text_of (some (string s)) = s
text_of (some (other true s)) = s
text_of (some (other false s)) = ""

abbrev pub id_text : Snapshot → String
id_text snapshot = strip (text_of (get texts "id" snapshot))

unfoldable pub plan_id : Snapshot → Result RepositoryError String
unfolding get strip decimal
plan_id snapshot =
    if id_text snapshot == ""
    then raise (value_error "plan snapshot id is required")
    else ok (id_text snapshot)

abbrev pub revision_of : Option Json → Result RepositoryError ℕ
revision_of (some (number n)) = ok n
revision_of _ = raise (value_error "plan snapshot revision must be a non-negative integer")

unfoldable pub revision : Snapshot → Result RepositoryError ℕ
unfolding get
revision snapshot = revision_of (get texts "revision" snapshot)
