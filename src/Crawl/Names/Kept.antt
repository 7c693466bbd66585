-- ===== src/Crawl/Names/Kept.antt =====
-- What cleaning keeps: brackets that are balanced already.
use Prim.Native.Char.{code}
use dext.Base.{
  ℕ, ◌≡◌, ◌↔◌, refl, sym, ap, ◌∙◌, subst, String, Bool, true, false, ◌&&◌, some, List, [], ◌∷◌,
  ◌++◌, nat_eq, nat_eq_iff, is_empty, Bool-cases, inl, inr, if◌then◌else◌, ◌==◌, arith, append-nil,
  append_assoc,
}
use dext.Base.Text.{is_space, strip}
use dext.Crawl.Names.{
  is_open, is_close, closing, collapse, drop_before, drop_after, matches, popped, balance,
  close_all, respaced, tidy, clean_org_unit_name, starts,
}
use dext.Crawl.Names.Balanced.{
  is_bracket, brackets_of, IsBalanced, no_bracket, pair, space_is_free, brackets_of-collapse,
  brackets_of-strip, clean_org_unit_name-IsBalanced,
}

-- The brackets close those of the stack, as a test.
abbrev accepts : List ℕ → List ℕ → Bool
accepts stack [] = is_empty stack
accepts stack (b ∷ brackets) =
    if is_open b
    then accepts (b ∷ stack) brackets
    else matches stack b && accepts (popped stack) brackets

closing_fits : (o : ℕ) → is_open o ≡ true → is_open (closing o) ≡ false
closing_fits o opens = elim (Bool-cases (nat_eq o 40)) [
  | inl half ↦ rw half refl
  | inr full ↦ rw full refl
]

accepts-balanced :
    {brackets : List ℕ} (stack tail : List ℕ)
    → IsBalanced brackets
    → accepts stack (brackets ++ tail) ≡ accepts stack tail
accepts-balanced stack tail no_bracket = refl
accepts-balanced stack tail (pair {o} {inner} {rest} opens in_pair behind) = rw opens (
    ap (accepts (o ∷ stack)) (append_assoc inner (closing o ∷ rest) tail)
    ∙ accepts-balanced (o ∷ stack) (closing o ∷ (rest ++ tail)) in_pair
    ∙ rw (closing_fits o opens, (nat_eq_iff (closing o) (closing o)).1 refl)
        (accepts-balanced stack tail behind))

balance-kept :
    (stack : List ℕ) (s : String)
    → accepts stack (brackets_of s) ≡ true
    → brackets_of (balance stack s) ≡ brackets_of s
unfolding balance brackets_of close_all
balance-kept [] String.[] h = refl
balance-kept (o ∷ stack) String.[] h = cc h
balance-kept stack (String.◌∷◌ c s) h = elim (Bool-cases (is_open (code c))) [
  | inl o ↦
      let plain : is_close (code c) ≡ false = ground (arith, o) in
      let bracketed : is_bracket (code c) ≡ true = rw o refl in
      let onwards : accepts (code c ∷ stack) (brackets_of s) ≡ true = rw o at (
        subst (λ b. accepts stack (if b then code c ∷ brackets_of s else brackets_of s) ≡ true)
          bracketed h) in
      rw (o, plain) (rw bracketed (ap (λ r. code c ∷ r) (balance-kept (code c ∷ stack) s onwards)))
  | inr no_open ↦ elim (Bool-cases (is_close (code c))) [
    | inl x ↦
        let bracketed : is_bracket (code c) ≡ true = rw (no_open, x) refl in
        let test : (matches stack (code c) && accepts (popped stack) (brackets_of s)) ≡ true =
          rw no_open at (
            subst (λ b. accepts stack (if b then code c ∷ brackets_of s else brackets_of s) ≡ true)
              bracketed h) in
        elim (Bool-cases (matches stack (code c))) [
          | inl fits ↦
              let onwards : accepts (popped stack) (brackets_of s) ≡ true = rw fits at test in
              rw (no_open, x, fits)
                (rw bracketed (ap (λ r. code c ∷ r) (balance-kept (popped stack) s onwards)))
          | inr unfit ↦ let bad = rw unfit at test in cc bad
        ]
    | inr other ↦
        let free : is_bracket (code c) ≡ false = rw (no_open, other) refl in
        let onwards : accepts stack (brackets_of s) ≡ true =
          subst (λ b. accepts stack (if b then code c ∷ brackets_of s else brackets_of s) ≡ true)
            free h in
        rw (no_open, other) (rw free (balance-kept stack s onwards))
  ]
]

brackets_of-drop_before :
    (p : ℕ → Bool) (s : String) → brackets_of (drop_before p s) ≡ brackets_of s
unfolding drop_before brackets_of
brackets_of-drop_before p String.[] = refl
brackets_of-drop_before p (String.◌∷◌ c s) = elim (Bool-cases (is_space (code c))) [
  | inl space ↦ elim (Bool-cases (starts p (drop_before p s))) [
    | inl t ↦ rw (space, t, space_is_free (code c) space) (brackets_of-drop_before p s)
    | inr f ↦ rw (space, f) (rw (brackets_of-drop_before p s) refl)
  ]
  | inr solid ↦ rw solid (rw (brackets_of-drop_before p s) refl)
]

brackets_of-drop_after :
    (p : ℕ → Bool) (behind : Bool) (s : String)
    → brackets_of (drop_after p behind s) ≡ brackets_of s
unfolding drop_after brackets_of
brackets_of-drop_after p behind String.[] = refl
brackets_of-drop_after p true (String.◌∷◌ c s) = elim (Bool-cases (is_space (code c))) [
  | inl space ↦ rw (space, space_is_free (code c) space) (brackets_of-drop_after p true s)
  | inr solid ↦ rw solid (rw (brackets_of-drop_after p (p (code c)) s) refl)
]
brackets_of-drop_after p false (String.◌∷◌ c s) = elim (Bool-cases (is_space (code c))) [
  | inl space ↦ rw space (rw (brackets_of-drop_after p false s) refl)
  | inr solid ↦ rw solid (rw (brackets_of-drop_after p (p (code c)) s) refl)
]

brackets_of-respaced : (s : String) → brackets_of (respaced s) ≡ brackets_of s
brackets_of-respaced s =
    let opened = drop_after is_open false (drop_before is_open s) in
    brackets_of-drop_after is_close false (drop_before is_close opened)
    ∙ brackets_of-drop_before is_close opened
    ∙ brackets_of-drop_after is_open false (drop_before is_open s)
    ∙ brackets_of-drop_before is_open s

tidy-kept : (s : String) → IsBalanced (brackets_of s) → brackets_of (tidy s) ≡ brackets_of s
unfolding tidy
tidy-kept s balanced =
    let same = brackets_of-respaced s in
    let accepted : accepts [] (brackets_of (respaced s)) ≡ true =
      ap (accepts []) (same ∙ sym (append-nil (brackets_of s))) ∙ accepts-balanced [] [] balanced in
    brackets_of-strip (collapse (balance [] (respaced s)))
    ∙ brackets_of-collapse false (balance [] (respaced s))
    ∙ balance-kept [] (respaced s) accepted
    ∙ same

cleaned_is_tidy :
    (name cleaned : String)
    → clean_org_unit_name (some name) ≡ some cleaned
    → tidy (strip (collapse name)) ≡ cleaned
unfolding clean_org_unit_name
cleaned_is_tidy name cleaned h = elim (Bool-cases (strip (collapse name) == "")) [
  | inl blank ↦ let bad = rw blank at h in cc bad
  | inr text ↦ elim (Bool-cases (tidy (strip (collapse name)) == "")) [
    | inl empty ↦ let bad = rw (text, empty) at h in cc bad
    | inr full ↦ cc (rw (text, full) at h)
  ]
]

-- A cleaned name is not empty and has balanced brackets, each closed by the one of its form; it has the
-- brackets of the name, in order, exactly if those are balanced already.
pub clean_org_unit_name-brackets_of :
    (name cleaned : String)
    → clean_org_unit_name (some name) ≡ some cleaned
    → ((cleaned == "") ≡ false)
      × IsBalanced (brackets_of cleaned)
      × (IsBalanced (brackets_of name) ↔ (brackets_of cleaned ≡ brackets_of name))
clean_org_unit_name-brackets_of name cleaned h =
    let (full, balanced) = clean_org_unit_name-IsBalanced (some name) cleaned h in
    let plain = brackets_of-strip (collapse name) ∙ brackets_of-collapse false name in
    (
      full,
      balanced,
      (
        λ before.
            ap brackets_of (sym (cleaned_is_tidy name cleaned h))
            ∙ tidy-kept (strip (collapse name)) (subst IsBalanced (sym plain) before)
            ∙ plain,
        λ same. subst IsBalanced same balanced,
      ),
    )
