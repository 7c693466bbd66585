-- ===== src/Crawl/Store/Laws.antt =====
-- Columns without repetition, and references from one table to another.
use dext.Base.{
  ℕ, ◌≡◌, refl, sym, ap, ◌∙◌, subst, ◌⊎◌, Bool, true, false, List, [], ◌∷◌, ◌++◌, map, Bool-cases,
  inl, inr, OneOf, OneOf-append_cases, OneOf-map, All, nat_elem, nat_eq, arith,
}
use dext.Crawl.Tables.{delete_rows}

-- No two elements are equal.
abbrev pub Distinct : {A : Type 0} → List A → Type 0
Distinct [] = Unit
Distinct (x ∷ xs) = (¬ OneOf x xs) × Distinct xs

pub Distinct-append :
    {A : Type 0} (xs : List A) (a : A) → Distinct xs → ¬ OneOf a xs → Distinct (xs ++ a ∷ [])
Distinct-append [] a d fresh = (λ h. elim h [ ], tt)
Distinct-append (x ∷ xs) a (out, d) fresh = (
  λ h. elim (OneOf-append_cases x xs (a ∷ []) h) [
    | inl one ↦ out one
    | inr last ↦ elim last [ inl same ↦ fresh (inl (sym same)) | inr h ↦ elim h [ ] ]
  ],
  Distinct-append xs a d (λ h. fresh (inr h)),
)

pub map-append :
    {A B : Type 0} (f : A → B) (xs ys : List A) → map f (xs ++ ys) ≡ map f xs ++ map f ys
map-append f [] ys = refl
map-append f (x ∷ xs) ys = ap (λ r. f x ∷ r) (map-append f xs ys)

module _ {Row A : Type 0} (column : Row → A) (p : Row → Bool) where
  pub OneOf-delete_rows :
      (a : A) (rows : List Row)
      → OneOf a (map column (delete_rows p rows))
      → OneOf a (map column rows)
  unfolding delete_rows
  OneOf-delete_rows a [] h = h
  OneOf-delete_rows a (r ∷ rows) h = elim (Bool-cases (p r)) [
    | inl t ↦ inr (OneOf-delete_rows a rows (rw t at h))
    | inr f ↦
        let h' : (a ≡ column r) ⊎ OneOf a (map column (delete_rows p rows)) = rw f at h in
        elim h' [ inl here ↦ inl here | inr there ↦ inr (OneOf-delete_rows a rows there) ]
  ]

  pub Distinct-delete_rows :
      (rows : List Row) → Distinct (map column rows) → Distinct (map column (delete_rows p rows))
  unfolding delete_rows
  Distinct-delete_rows [] d = tt
  Distinct-delete_rows (r ∷ rows) (out, d) = elim (Bool-cases (p r)) [
    | inl t ↦ rw t (Distinct-delete_rows rows d)
    | inr f ↦ rw f ((λ h. out (OneOf-delete_rows (column r) rows h), Distinct-delete_rows rows d))
  ]

pub nat_elem→OneOf : (a : ℕ) (xs : List ℕ) → nat_elem a xs ≡ true → OneOf a xs
nat_elem→OneOf a [] h = cc h
nat_elem→OneOf a (x ∷ xs) h = elim (Bool-cases (nat_eq a x)) [
  | inl t ↦ inl (ground (arith, t))
  | inr f ↦ inr (nat_elem→OneOf a xs (rw f at h))
]

-- A value that is not among the deleted ones is still in the column.
pub OneOf-kept :
    {Row : Type 0} (column : Row → ℕ) (deleted : List ℕ) (a : ℕ) (rows : List Row)
    → nat_elem a deleted ≡ false
    → OneOf a (map column rows)
    → OneOf a (map column (delete_rows (λ r. nat_elem (column r) deleted) rows))
unfolding delete_rows
OneOf-kept column deleted a [] free h = h
OneOf-kept column deleted a (r ∷ rows) free h = elim (Bool-cases (nat_elem (column r) deleted)) [
  | inl gone ↦ elim h [
    | inl here ↦
        let clash : true ≡ false = sym gone ∙ ap (λ x. nat_elem x deleted) (sym here) ∙ free in
        cc clash
    | inr there ↦ rw gone (OneOf-kept column deleted a rows free there)
  ]
  | inr kept ↦ elim h [
    | inl here ↦ rw kept (inl here)
    | inr there ↦ rw kept (inr (OneOf-kept column deleted a rows free there))
  ]
]

-- What is left after a deletion fulfils the negated condition, too.
pub All-delete_rows_kept :
    {Row : Type 0} (P Q : Row → Type 0) (p : Row → Bool) (rows : List Row)
    → ((r : Row) → p r ≡ false → P r → Q r)
    → All P rows
    → All Q (delete_rows p rows)
unfolding delete_rows
All-delete_rows_kept P Q p [] keeps all = tt
All-delete_rows_kept P Q p (r ∷ rows) keeps (h, all) = elim (Bool-cases (p r)) [
  | inl t ↦ rw (t, All) (All-delete_rows_kept P Q p rows keeps all)
  | inr f ↦ rw (f, All) (keeps r f h, All-delete_rows_kept P Q p rows keeps all)
]

-- Rows with one value in a column that has no repetition are the same.
pub Distinct-same :
    {Row A : Type 0} (column : Row → A) (x y : Row) (rows : List Row)
    → Distinct (map column rows)
    → OneOf x rows
    → OneOf y rows
    → column x ≡ column y
    → x ≡ y
Distinct-same column x y [] d hx hy e = elim hx [ ]
Distinct-same column x y (r ∷ rows) (out, d) (inl hx) (inl hy) e = hx ∙ sym hy
Distinct-same column x y (r ∷ rows) (out, d) (inl hx) (inr hy) e = absurd (
    out
      (subst (λ c. OneOf c (map column rows)) (sym e ∙ ap column hx) (OneOf-map column y rows hy)))
Distinct-same column x y (r ∷ rows) (out, d) (inr hx) (inl hy) e =
    absurd
      (out (subst (λ c. OneOf c (map column rows)) (e ∙ ap column hy) (OneOf-map column x rows hx)))
Distinct-same column x y (r ∷ rows) (out, d) (inr hx) (inr hy) e =
    Distinct-same column x y rows d hx hy e
