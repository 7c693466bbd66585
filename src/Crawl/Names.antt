-- ===== src/Crawl/Names.antt =====
-- engine/names.py: the display names of organisations, with their brackets closed.
pub mod Balanced
pub mod Kept
use Prim.Native.Char.{Char, code}
use dext.Base.{
  ℕ, String, Bool, true, false, not, ◌&&◌, ◌||◌, Option, none, some, List, [], ◌∷◌, nat_eq,
  if◌then◌else◌, ◌==◌,
}
use dext.Base.Text.{is_space, strip}

-- `_OPEN_TO_CLOSE` on code points: ( and ) with 40 and 41, and their full-width forms.
abbrev pub is_open : ℕ → Bool
is_open c = nat_eq c 40 || nat_eq c 0xff08

abbrev pub is_close : ℕ → Bool
is_close c = nat_eq c 41 || nat_eq c 0xff09

-- `_OPEN_TO_CLOSE[c]`
abbrev pub closing : ℕ → ℕ
closing o = if nat_eq o 40 then 41 else 0xff09

abbrev pub bracket : ℕ → Char
bracket c = if nat_eq c 41 then ")" else "）"

-- `_WS.sub(" ", s)`: every run of white space becomes one blank.
unfoldable pub collapse_from : Bool → String → String
unfolding is_space
collapse_from within String.[] = ""
collapse_from within (String.◌∷◌ c s) =
    let rest = collapse_from (is_space (code c)) s in
    if is_space (code c) then (if within then rest else String.◌∷◌ " " rest) else String.◌∷◌ c rest

abbrev pub collapse : String → String
collapse s = collapse_from false s

-- The text starts with such a bracket.
abbrev pub starts : (ℕ → Bool) → String → Bool
starts p String.[] = false
starts p (String.◌∷◌ c s) = p (code c)

-- `re.sub(r"\s*([…])\s*", r"\1", s)` in two passes: no space before such a bracket, none after it.
unfoldable pub drop_before : (ℕ → Bool) → String → String
unfolding is_space
drop_before p String.[] = ""
drop_before p (String.◌∷◌ c s) =
    let rest = drop_before p s in
    if is_space (code c) && starts p rest then rest else String.◌∷◌ c rest

unfoldable pub drop_after : (ℕ → Bool) → Bool → String → String
unfolding is_space
drop_after p behind String.[] = ""
drop_after p behind (String.◌∷◌ c s) =
    let rest = drop_after p (if is_space (code c) then behind else p (code c)) s in
    if is_space (code c) && behind then rest else String.◌∷◌ c rest

-- The closing brackets of those that are still open.
unfoldable pub close_all : List ℕ → String
close_all [] = ""
close_all (o ∷ stack) = String.◌∷◌ (bracket (closing o)) (close_all stack)

abbrev pub matches : List ℕ → ℕ → Bool
matches [] c = false
matches (o ∷ stack) c = nat_eq (closing o) c

abbrev pub popped : List ℕ → List ℕ
popped [] = []
popped (o ∷ stack) = stack

-- The stack after a character.
abbrev pub stack_after : List ℕ → ℕ → List ℕ
stack_after stack c =
    if is_open c then c ∷ stack else if is_close c && matches stack c then popped stack else stack

-- The loop with its stack of open brackets: a closing one that does not match is left out.
unfoldable pub balance : List ℕ → String → String
unfolding close_all
balance stack String.[] = close_all stack
balance stack (String.◌∷◌ c s) =
    let rest = balance (stack_after stack (code c)) s in
    if is_close (code c) && not (matches stack (code c)) then rest else String.◌∷◌ c rest

abbrev pub unless_empty : String → Option String
unless_empty s = if s == "" then none else some s

-- Without the space around brackets.
abbrev pub respaced : String → String
respaced s =
    let opened = drop_after is_open false (drop_before is_open s) in
    drop_after is_close false (drop_before is_close opened)

unfoldable pub tidy : String → String
unfolding drop_before drop_after balance collapse_from strip
tidy s = strip (collapse (balance [] (respaced s)))

unfoldable pub clean_org_unit_name : Option String → Option String
unfolding tidy collapse_from strip
clean_org_unit_name none = none
clean_org_unit_name (some name) =
    let s = strip (collapse name) in if s == "" then none else unless_empty (tidy s)
