-- ===== src/Base/Dicts.antt =====
-- Python's dict as a list of entries in insertion order.
use mathlib.Core.Path.{◌≡◌, refl, subst}
use mathlib.Core.Logic.{◌↔◌, ◌≢◌, inl, inr}
use mathlib.Core.Bool.{Bool, true, false}
use mathlib.Core.List.{List, [], ◌∷◌}
use mathlib.Core.Option.{Option, none, some}
use dext.Base.Tests.{Bool-cases, if◌then◌else◌}

-- The equality test of a type of keys.
pub record Keys (K : Type 0) : Type 0 where
  pub same : K → K → Bool
  pub same_iff : (a b : K) → (same a b ≡ true) ↔ (a ≡ b)

module _ {K : Type 0} (keys : Keys K) where
  open keys use {same, same_iff}

  pub same_refl : (k : K) → same k k ≡ true
  same_refl k = (same_iff k k).1 refl

  pub other_key : (a b : K) → a ≢ b → same a b ≡ false
  other_key a b other = elim (Bool-cases (same a b)) [
    | inl t ↦ elim (other ((same_iff a b).0 t)) [ ]
    | inr f ↦ f
  ]

module _ {K V : Type 0} (keys : Keys K) where
  open keys use {same, same_iff}

  -- `d.get(k)`
  unfoldable pub get : K → List (K × V) → Option V
  get k [] = none
  get k ((j, v) ∷ rest) = let later = get k rest in if same k j then some v else later

  -- `d[k] = v`: in place, or at the end.
  unfoldable pub put : K → V → List (K × V) → List (K × V)
  put k v [] = (k, v) ∷ []
  put k v ((j, w) ∷ rest) =
      let later = put k v rest in if same k j then (j, v) ∷ rest else (j, w) ∷ later

  -- `d.pop(k, None)`, the entries that are left
  unfoldable pub pop : K → List (K × V) → List (K × V)
  pop k [] = []
  pop k ((j, w) ∷ rest) = let later = pop k rest in if same k j then later else (j, w) ∷ later

  pub get-put : (k : K) (v : V) (d : List (K × V)) → get k (put k v d) ≡ some v
  unfolding get put
  get-put k v [] = rw (same_refl keys k) refl
  get-put k v ((j, w) ∷ rest) = elim (Bool-cases (same k j)) [
    | inl t ↦ rw (t, get) (rw t refl)
    | inr f ↦ rw (f, get) (rw f (get-put k v rest))
  ]

  pub get-put_other :
      (i k : K) (v : V) (d : List (K × V)) → same i k ≡ false → get i (put k v d) ≡ get i d
  unfolding get put
  get-put_other i k v [] other = rw other refl
  get-put_other i k v ((j, w) ∷ rest) other = elim (Bool-cases (same k j)) [
    | inl t ↦
        let apart = subst (λ x. same i x ≡ false) ((same_iff k j).0 t) other in
        rw (t, get) (rw apart refl)
    | inr f ↦ rw (f, get) (rw (get-put_other i k v rest other) refl)
  ]

  pub get-pop : (k : K) (d : List (K × V)) → get k (pop k d) ≡ none
  unfolding get pop
  get-pop k [] = refl
  get-pop k ((j, w) ∷ rest) = elim (Bool-cases (same k j)) [
    | inl t ↦ rw (t, get) (get-pop k rest)
    | inr f ↦ rw (f, get) (rw f (get-pop k rest))
  ]

  pub get-pop_other : (i k : K) (d : List (K × V)) → same i k ≡ false → get i (pop k d) ≡ get i d
  unfolding get pop
  get-pop_other i k [] other = refl
  get-pop_other i k ((j, w) ∷ rest) other = elim (Bool-cases (same k j)) [
    | inl t ↦
        let apart = subst (λ x. same i x ≡ false) ((same_iff k j).0 t) other in
        rw (t, get) (rw apart (get-pop_other i k rest other))
    | inr f ↦ rw (f, get) (rw (get-pop_other i k rest other) refl)
  ]
