-- ===== src/Base/Lists.antt =====
-- Lists measured by native numbers, under the library's names, and predicates on their elements.
use Prim.Native.Nat.{ℕ, zero, suc, ◌+◌, ◌-◌}
use mathlib.Core.Path.{◌≡◌, refl, sym, ap, subst}
use mathlib.Core.Logic.{◌⊎◌, inl, inr}
use mathlib.Core.Bool.{Bool, true, false, ◌||◌, ◌&&◌}
use mathlib.Core.List.{List, [], ◌∷◌, ◌++◌, map}
use native.Mathlib.Omega.{arith}
use dext.Base.Tests.{if◌then◌else◌}

module _ {ℓ} {A : Type ℓ} where
  abbrev pub length : List A → ℕ
  length [] = 0
  length (x ∷ xs) = suc (length xs)

  abbrev pub is_empty : List A → Bool
  is_empty [] = true
  is_empty (x ∷ xs) = false

  abbrev pub take : ℕ → List A → List A
  take zero xs = []
  take (suc n) [] = []
  take (suc n) (x ∷ xs) = x ∷ take n xs

  abbrev pub drop : ℕ → List A → List A
  drop zero xs = xs
  drop (suc n) [] = []
  drop (suc n) (x ∷ xs) = drop n xs

  abbrev pub any : (A → Bool) → List A → Bool
  any p [] = false
  any p (x ∷ xs) = p x || any p xs

  abbrev pub all : (A → Bool) → List A → Bool
  all p [] = true
  all p (x ∷ xs) = p x && all p xs

  -- `[x for x in xs if p(x)]`
  abbrev pub keep_if : (A → Bool) → List A → List A
  keep_if p [] = []
  keep_if p (x ∷ xs) = let rest = keep_if p xs in if p x then x ∷ rest else rest

  pub length-append : (xs ys : List A) → length (xs ++ ys) ≡ length xs + length ys
  length-append [] ys = omega arith
  length-append (x ∷ xs) ys = omega (arith, length-append xs ys)

  pub length-drop : (n : ℕ) (xs : List A) → length (drop n xs) ≡ length xs - n
  length-drop zero xs = omega arith
  length-drop (suc n) [] = omega arith
  length-drop (suc n) (x ∷ xs) = omega (arith, length-drop n xs)

-- The element is one of the list's.
abbrev pub OneOf : {A : Type 0} → A → List A → Type 0
OneOf a [] = ⊥
OneOf a (x ∷ xs) = (a ≡ x) ⊎ OneOf a xs

-- Every element has the property.
abbrev pub All : {A : Type 0} → (A → Type 0) → List A → Type 0
All P [] = Unit
All P (x ∷ xs) = P x × All P xs

module _ {A : Type 0} where
  pub OneOf-append_left : (a : A) (xs ys : List A) → OneOf a xs → OneOf a (xs ++ ys)
  OneOf-append_left a [] ys h = elim h [ ]
  OneOf-append_left a (x ∷ xs) ys (inl e) = inl e
  OneOf-append_left a (x ∷ xs) ys (inr h) = inr (OneOf-append_left a xs ys h)

  pub OneOf-append_right : (a : A) (xs ys : List A) → OneOf a ys → OneOf a (xs ++ ys)
  OneOf-append_right a [] ys h = h
  OneOf-append_right a (x ∷ xs) ys h = inr (OneOf-append_right a xs ys h)

  pub OneOf-append_cases : (a : A) (xs ys : List A) → OneOf a (xs ++ ys) → OneOf a xs ⊎ OneOf a ys
  OneOf-append_cases a [] ys h = inr h
  OneOf-append_cases a (x ∷ xs) ys (inl e) = inl (inl e)
  OneOf-append_cases a (x ∷ xs) ys (inr h) = elim (OneOf-append_cases a xs ys h) [
    | inl l ↦ inl (inr l)
    | inr r ↦ inr r
  ]

  module _ (P : A → Type 0) where
    pub All-append : (xs ys : List A) → All P xs → All P ys → All P (xs ++ ys)
    All-append [] ys hx hy = hy
    All-append (x ∷ xs) ys hx hy = (hx.0, All-append xs ys hx.1 hy)

    pub All-at : (a : A) (xs : List A) → All P xs → OneOf a xs → P a
    All-at a [] h m = elim m [ ]
    All-at a (x ∷ xs) h (inl e) = subst P (sym e) h.0
    All-at a (x ∷ xs) h (inr m) = All-at a xs h.1 m

    pub All-intro : (xs : List A) → ((a : A) → OneOf a xs → P a) → All P xs
    All-intro [] f = tt
    All-intro (x ∷ xs) f = (f x (inl refl), All-intro xs (λ a m. f a (inr m)))

-- A longer list of a stronger property.
pub All-imp :
    {A : Type 0} (P Q : A → Type 0) (xs : List A) → ((a : A) → P a → Q a) → All P xs → All Q xs
All-imp P Q [] f h = tt
All-imp P Q (x ∷ xs) f h = (f x h.0, All-imp P Q xs f h.1)

pub OneOf-map :
    {A B : Type 0} (f : A → B) (a : A) (xs : List A) → OneOf a xs → OneOf (f a) (map f xs)
OneOf-map f a [] h = elim h [ ]
OneOf-map f a (x ∷ xs) (inl e) = inl (ap f e)
OneOf-map f a (x ∷ xs) (inr h) = inr (OneOf-map f a xs h)
