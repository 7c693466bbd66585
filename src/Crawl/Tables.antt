-- ===== src/Crawl/Tables.antt =====
-- Tables of a database as lists of rows: select, update and delete.
use dext.Base.{
  ◌≡◌, refl, sym, ap, subst, Bool, true, false, Option, none, some, List, [], ◌∷◌, map, Bool-cases,
  inl, inr, if◌then◌else◌, OneOf, All,
}

module _ {Row : Type 0} where
  -- The first row that the condition selects.
  unfoldable pub select_row : (Row → Bool) → List Row → Option Row
  select_row p [] = none
  select_row p (x ∷ xs) = let later = select_row p xs in if p x then some x else later

  -- The rows after an update of those that the condition selects.
  unfoldable pub update_rows : (Row → Bool) → (Row → Row) → List Row → List Row
  update_rows p f [] = []
  update_rows p f (x ∷ xs) = (if p x then f x else x) ∷ update_rows p f xs

  unfoldable pub delete_rows : (Row → Bool) → List Row → List Row
  delete_rows p [] = []
  delete_rows p (x ∷ xs) = let rest = delete_rows p xs in if p x then rest else x ∷ rest

  -- A selected row is one of the table's, and it fulfils the condition.
  pub select_row-found :
      (p : Row → Bool) (xs : List Row) (x : Row)
      → select_row p xs ≡ some x
      → OneOf x xs × (p x ≡ true)
  unfolding select_row
  select_row-found p [] x h = cc h
  select_row-found p (y ∷ ys) x h = elim (Bool-cases (p y)) [
    | inl t ↦ let same : y ≡ x = cc (rw t at h) in (inl (sym same), subst (λ z. p z ≡ true) same t)
    | inr f ↦ let later = select_row-found p ys x (rw f at h) in (inr later.0, later.1)
  ]

  pub select_row-none :
      (p : Row → Bool) (xs : List Row) → select_row p xs ≡ none → All (λ x. p x ≡ false) xs
  unfolding select_row
  select_row-none p [] h = tt
  select_row-none p (y ∷ ys) h = elim (Bool-cases (p y)) [
    | inl t ↦ cc (rw t at h)
    | inr f ↦ (f, select_row-none p ys (rw f at h))
  ]

  -- An update that keeps a property of rows keeps it of the table.
  pub All-update_rows :
      (P : Row → Type 0) (p : Row → Bool) (f : Row → Row) (xs : List Row)
      → ((x : Row) → OneOf x xs → p x ≡ true → P x → P (f x))
      → All P xs
      → All P (update_rows p f xs)
  unfolding update_rows
  All-update_rows P p f [] kept h = tt
  All-update_rows P p f (x ∷ xs) kept h = elim (Bool-cases (p x)) [
    | inl t ↦
        rw (t, All) (kept x (inl refl) t h.0, All-update_rows P p f xs (λ y m. kept y (inr m)) h.1)
    | inr e ↦ rw (e, All) (h.0, All-update_rows P p f xs (λ y m. kept y (inr m)) h.1)
  ]

  pub if-cases :
      (P : Row → Type 0) (b : Bool) (x y : Row)
      → (b ≡ true → P x)
      → (b ≡ false → P y)
      → P (if b then x else y)
  if-cases P true x y hx hy = hx refl
  if-cases P false x y hx hy = hy refl

  -- What an update makes of a property of the rows, the chosen ones and the others.
  pub All-update_rows_cases :
      (P Q : Row → Type 0) (p : Row → Bool) (f : Row → Row) (xs : List Row)
      → ((x : Row) → p x ≡ true → P x → Q (f x))
      → ((x : Row) → p x ≡ false → P x → Q x)
      → All P xs
      → All Q (update_rows p f xs)
  unfolding update_rows
  All-update_rows_cases P Q p f [] chosen other h = tt
  All-update_rows_cases P Q p f (x ∷ xs) chosen other (h, rest) = (
    if-cases Q (p x) (f x) x (λ t. chosen x t h) (λ e. other x e h),
    All-update_rows_cases P Q p f xs chosen other rest,
  )

  pub All-delete_rows :
      (P : Row → Type 0) (p : Row → Bool) (xs : List Row) → All P xs → All P (delete_rows p xs)
  unfolding delete_rows
  All-delete_rows P p [] h = tt
  All-delete_rows P p (x ∷ xs) h = elim (Bool-cases (p x)) [
    | inl t ↦ rw (t, All) (All-delete_rows P p xs h.1)
    | inr e ↦ rw (e, All) (h.0, All-delete_rows P p xs h.1)
  ]

  -- An update that leaves a column leaves the list of its values.
  pub map-update_rows :
      {A : Type 0} (column : Row → A) (p : Row → Bool) (f : Row → Row) (xs : List Row)
      → ((x : Row) → column (f x) ≡ column x)
      → map column (update_rows p f xs) ≡ map column xs
  unfolding update_rows
  map-update_rows column p f [] same = refl
  map-update_rows column p f (x ∷ xs) same = elim (Bool-cases (p x)) [
    | inl t ↦ rw (t, map-update_rows column p f xs same) (ap (λ c. c ∷ map column xs) (same x))
    | inr e ↦ rw (e, map-update_rows column p f xs same) refl
  ]
