-- ===== src/Crawl/Names/Balanced.antt =====
-- The brackets of a cleaned name.
use Prim.Native.Char.{code}
use dext.Base.{
  ℕ, ◌≡◌, refl, sym, ap, ◌∙◌, subst, String, Bool, true, false, ◌||◌, Option, none, some, List, [],
  ◌∷◌, ◌++◌, nat_eq, Bool-cases, inl, inr, if◌then◌else◌, ◌==◌, eq_iff, arith, All, nat_eq_iff,
  append_assoc,
}
use dext.Base.Text.{is_space, strip, strip_left, strip_right}
use dext.Crawl.Names.{
  is_open, is_close, closing, bracket, collapse_from, collapse, close_all, matches, popped, balance,
  respaced, tidy, clean_org_unit_name,
}

abbrev pub is_bracket : ℕ → Bool
is_bracket c = is_open c || is_close c

-- The brackets of a text, by their code points.
unfoldable pub brackets_of : String → List ℕ
brackets_of String.[] = []
brackets_of (String.◌∷◌ c s) =
    let rest = brackets_of s in if is_bracket (code c) then code c ∷ rest else rest

-- Every bracket is closed by the one of its form, and pairs do not overlap.
pub data IsBalanced : List ℕ → Type 0 where
  no_bracket : IsBalanced []
  pair :
      {o : ℕ} {inner rest : List ℕ}
      → is_open o ≡ true
      → IsBalanced inner
      → IsBalanced rest
      → IsBalanced (o ∷ (inner ++ closing o ∷ rest))

-- The brackets close those of the stack, one after the other, with balanced ones in between.
abbrev Closes : List ℕ → List ℕ → Type 0
Closes [] r = IsBalanced r
Closes (o ∷ stack) r =
    (inner : List ℕ) × ((rest : List ℕ) × (r ≡ inner ++ closing o ∷ rest)
      × IsBalanced inner
      × Closes stack rest)

Closes-open :
    (o : ℕ) (stack r : List ℕ) → is_open o ≡ true → Closes (o ∷ stack) r → Closes stack (o ∷ r)
Closes-open o [] r opens (inner, (rest, same, balanced, closed)) =
    subst (λ x. IsBalanced (o ∷ x)) (sym same) (pair opens balanced closed)
Closes-open o (p ∷ stack) r opens
      (inner, (rest, same, balanced, (inner', (rest', same', balanced', closed)))) =
    (
      o ∷ (inner ++ closing o ∷ inner'),
      (
        rest',
        ap (λ x. o ∷ x)
            (same
              ∙ ap (λ x. inner ++ closing o ∷ x) same'
              ∙ sym (append_assoc inner (closing o ∷ inner') (closing p ∷ rest'))),
        pair opens balanced balanced',
        closed,
      ),
    )

brackets_of-bracket :
    (o : ℕ) (s : String)
    → is_open o ≡ true
    → brackets_of (String.◌∷◌ (bracket (closing o)) s) ≡ closing o ∷ brackets_of s
unfolding brackets_of
brackets_of-bracket o s opens = elim (Bool-cases (nat_eq o 40)) [
  | inl half ↦ rw half refl
  | inr full ↦ rw full refl
]

abbrev AllOpen : List ℕ → Type 0
AllOpen stack = All (λ o. is_open o ≡ true) stack

close_all-Closes : (stack : List ℕ) → AllOpen stack → Closes stack (brackets_of (close_all stack))
unfolding close_all brackets_of
close_all-Closes [] opens = no_bracket
close_all-Closes (o ∷ stack) (open_o, opens) = (
  [],
  (
    brackets_of (close_all stack),
    brackets_of-bracket o (close_all stack) open_o,
    no_bracket,
    close_all-Closes stack opens,
  ),
)

Closes-close :
    (stack : List ℕ) (c : ℕ) (r : List ℕ)
    → matches stack c ≡ true
    → Closes (popped stack) r
    → Closes stack (c ∷ r)
Closes-close [] c r fits closed = cc fits
Closes-close (o ∷ stack) c r fits closed =
    let same : closing o ≡ c = (nat_eq_iff (closing o) c).0 fits in
    ([], (r, ap (λ x. x ∷ r) (sym same), no_bracket, closed))

AllOpen-popped : (stack : List ℕ) → AllOpen stack → AllOpen (popped stack)
AllOpen-popped [] opens = tt
AllOpen-popped (o ∷ stack) (open_o, opens) = opens

balance-Closes :
    (stack : List ℕ) (s : String) → AllOpen stack → Closes stack (brackets_of (balance stack s))
unfolding balance brackets_of
balance-Closes stack String.[] opens = close_all-Closes stack opens
balance-Closes stack (String.◌∷◌ c s) opens = elim (Bool-cases (is_open (code c))) [
  | inl o ↦
      let plain : is_close (code c) ≡ false = ground (arith, o) in
      let bracketed : is_bracket (code c) ≡ true = rw o refl in
      rw (o, plain, Closes, AllOpen)
        (rw bracketed
          (Closes-open (code c) stack _ o (balance-Closes (code c ∷ stack) s (o, opens))))
  | inr no_open ↦ elim (Bool-cases (is_close (code c))) [
    | inl x ↦ elim (Bool-cases (matches stack (code c))) [
      | inl fits ↦
          let bracketed : is_bracket (code c) ≡ true = rw (no_open, x) refl in
          rw (no_open, x, fits, Closes, AllOpen)
            (rw bracketed (
              Closes-close stack (code c) _ fits
                (balance-Closes (popped stack) s (AllOpen-popped stack opens))))
      | inr unfit ↦ rw (no_open, x, unfit, Closes, AllOpen) (balance-Closes stack s opens)
    ]
    | inr other ↦
        let free : is_bracket (code c) ≡ false = rw (no_open, other) refl in
        rw (no_open, other, Closes, AllOpen) (rw free (balance-Closes stack s opens))
  ]
]

pub space_is_free : (c : ℕ) → is_space c ≡ true → is_bracket c ≡ false
unfolding is_space
space_is_free c h = ground (arith, h)

-- White space is no bracket: what is done to it leaves the brackets.
pub brackets_of-collapse :
    (within : Bool) (s : String) → brackets_of (collapse_from within s) ≡ brackets_of s
unfolding collapse_from brackets_of
brackets_of-collapse within String.[] = refl
brackets_of-collapse within (String.◌∷◌ c s) = elim (Bool-cases (is_space (code c))) [
  | inl space ↦
      rw (space, space_is_free (code c) space)
        (elim within
          as (λ w.
            brackets_of (if w then collapse_from true s else String.◌∷◌ " " (collapse_from true s))
            ≡ brackets_of s) [
              | true ↦ brackets_of-collapse true s
              | false ↦ brackets_of-collapse true s
            ])
  | inr solid ↦ rw solid (rw (brackets_of-collapse false s) refl)
]

brackets_of-strip_left : (s : String) → brackets_of (strip_left s) ≡ brackets_of s
unfolding strip_left brackets_of
brackets_of-strip_left String.[] = refl
brackets_of-strip_left (String.◌∷◌ c s) = elim (Bool-cases (is_space (code c))) [
  | inl space ↦ rw (space, space_is_free (code c) space) (brackets_of-strip_left s)
  | inr solid ↦ rw solid refl
]

brackets_of-strip_right : (s : String) → brackets_of (strip_right s) ≡ brackets_of s
unfolding strip_right brackets_of
brackets_of-strip_right String.[] = refl
brackets_of-strip_right (String.◌∷◌ c s) = elim (Bool-cases (is_space (code c))) [
  | inl space ↦ elim (Bool-cases (strip_right s == "")) [
    | inl blank ↦
        rw (space, blank, space_is_free (code c) space)
          (ap brackets_of (sym ((eq_iff (strip_right s) "").0 blank)) ∙ brackets_of-strip_right s)
    | inr more ↦ rw (space, more) (rw (brackets_of-strip_right s) refl)
  ]
  | inr solid ↦ rw solid (rw (brackets_of-strip_right s) refl)
]

pub brackets_of-strip : (s : String) → brackets_of (strip s) ≡ brackets_of s
unfolding strip
brackets_of-strip s = brackets_of-strip_right (strip_left s) ∙ brackets_of-strip_left s

tidy-IsBalanced : (s : String) → IsBalanced (brackets_of (tidy s))
unfolding tidy
tidy-IsBalanced s =
    let balanced = balance [] (respaced s) in
    subst IsBalanced
      (sym (brackets_of-strip (collapse balanced) ∙ brackets_of-collapse false balanced))
      (balance-Closes [] (respaced s) tt)

-- Where cleaning gives a name, it is not empty, and its brackets are balanced, each closed by the one of
-- its form, however the brackets stood before.
pub clean_org_unit_name-IsBalanced :
    (name : Option String) (cleaned : String)
    → clean_org_unit_name name ≡ some cleaned
    → ((cleaned == "") ≡ false) × IsBalanced (brackets_of cleaned)
unfolding clean_org_unit_name
clean_org_unit_name-IsBalanced none cleaned h = cc h
clean_org_unit_name-IsBalanced (some name) cleaned h =
    elim (Bool-cases (strip (collapse name) == "")) [
      | inl blank ↦ let bad = rw blank at h in cc bad
      | inr text ↦
          let t = tidy (strip (collapse name)) in
          elim (Bool-cases (t == "")) [
            | inl empty ↦ let bad = rw (text, empty) at h in cc bad
            | inr full ↦
                let same : t ≡ cleaned = cc (rw (text, full) at h) in
                (
                  subst (λ x. (x == "") ≡ false) same full,
                  subst (λ x. IsBalanced (brackets_of x)) same
                      (tidy-IsBalanced (strip (collapse name))),
                )
          ]
    ]
