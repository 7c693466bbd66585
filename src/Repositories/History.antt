-- ===== src/Repositories/History.antt =====
-- plans.py: the assistant's turns per plan, the last ones of which are kept, and the clean-up of an
-- owner's remote data.
use dext.Base.{
  ℕ, zero, suc, ◌+◌, ◌-◌, ◌≤◌, ◌≡◌, refl, sym, ap, ◌∙◌, subst, String, not, List, [], ◌∷◌, ◌++◌,
  append-nil, append_assoc, length, drop, keep_if, ltb, or_else, Bool-cases, inl, inr,
  if◌then◌else◌, ◌==◌, arith, length-append, length-drop,
}
use dext.Base.Dicts.{get, put, pop, get-put}
use dext.Repositories.Plans.{IdemKey, pairs, Repository}
use dext.Repositories.Plans as Plans

-- `InMemoryPreparationAssistantHistoryRepository`: the turns by owner and plan.
abbrev pub Turns : Type 0 → Type 0
Turns Turn = List (IdemKey × List Turn)

module _ {Turn : Type 0} where
  -- `xs[-n:]`, which is the whole list for 0
  unfoldable pub last_of : ℕ → List Turn → List Turn
  last_of zero xs = xs
  last_of (suc n) xs = drop (length xs - suc n) xs

  unfoldable pub turns_of : IdemKey → Turns Turn → List Turn
  unfolding get
  turns_of key h = or_else (get pairs key h) []

  abbrev pub within : ℕ → List Turn → List Turn
  within max_turns turns = if ltb max_turns (length turns) then last_of max_turns turns else turns

  unfoldable pub append_turn : ℕ → IdemKey → Turn → Turns Turn → Turns Turn
  unfolding turns_of put last_of
  append_turn max_turns key turn h =
      put pairs key (within max_turns (turns_of key h ++ turn ∷ [])) h

  unfoldable pub list_turns : IdemKey → ℕ → Turns Turn → List Turn
  unfolding turns_of last_of
  list_turns key limit h = last_of limit (turns_of key h)

  unfoldable pub delete_turns : IdemKey → Turns Turn → ℕ × Turns Turn
  unfolding turns_of pop
  delete_turns key h = (length (turns_of key h), pop pairs key h)

  -- `sum(len(self._turns[key]) for key in keys)`
  unfoldable pub count_turns : String → Turns Turn → ℕ
  count_turns owner [] = 0
  count_turns owner ((key, turns) ∷ rest) =
      (if key.0 == owner then length turns else 0) + count_turns owner rest

  unfoldable pub cleanup_history : String → Turns Turn → ℕ × Turns Turn
  unfolding count_turns
  cleanup_history owner h = (count_turns owner h, keep_if (λ entry. not (entry.0.0 == owner)) h)

  -- `cleanup_owner_remote_data`: the plans and the turns that were deleted.
  unfoldable pub cleanup_owner_remote_data :
      String → Repository → Turns Turn → (ℕ × ℕ) × (Repository × Turns Turn)
  unfolding cleanup_history Plans.cleanup_owner
  cleanup_owner_remote_data owner plans history =
      let cleaned = cleanup_history owner history in
      let left = Plans.cleanup_owner owner plans in ((left.0, cleaned.0), (left.1, cleaned.1))

  last_of-short : (n : ℕ) (xs : List Turn) → length xs ≤ suc n → last_of (suc n) xs ≡ xs
  unfolding last_of
  last_of-short n xs h = let nothing : length xs - suc n ≡ 0 = omega (arith, h) in rw nothing refl

  last_of-long :
      (n : ℕ) (x : Turn) (xs : List Turn)
      → suc n ≤ length xs
      → last_of (suc n) (x ∷ xs) ≡ last_of (suc n) xs
  unfolding last_of
  last_of-long n x xs h =
      let more : suc (length xs) - suc n ≡ suc (length xs - suc n) = omega (arith, h) in
      rw more refl

  length-last_of : (n : ℕ) (xs : List Turn) → length (last_of (suc n) xs) ≤ suc n
  unfolding last_of
  length-last_of n xs = omega (arith, length-drop (length xs - suc n) xs)

  last_of-append :
      (n : ℕ) (xs : List Turn) (t : Turn)
      → last_of (suc n) (last_of (suc n) xs ++ t ∷ []) ≡ last_of (suc n) (xs ++ t ∷ [])
  last_of-append n [] t =
      ap (λ held. last_of (suc n) (held ++ t ∷ [])) (last_of-short n [] (omega arith))
  last_of-append n (x ∷ xs) t = elim (Bool-cases (ltb n (length xs))) [
    | inl long ↦
        rw
          (
            last_of-long n x xs (ground (arith, long)),
            last_of-long n x (xs ++ t ∷ []) (ground (arith, long, length-append xs (t ∷ []))),
          )
          (last_of-append n xs t)
    | inr short ↦ rw (last_of-short n (x ∷ xs) (ground (arith, short))) refl
  ]

  within-last_of : (n : ℕ) (xs : List Turn) → within (suc n) xs ≡ last_of (suc n) xs
  within-last_of n xs = elim (Bool-cases (ltb (suc n) (length xs))) [
    | inl over ↦ rw over refl
    | inr fits ↦ rw fits (sym (last_of-short n xs (ground (arith, fits))))
  ]

  -- Turns Turn appended one after the other.
  unfoldable pub append_all : ℕ → IdemKey → List Turn → Turns Turn → Turns Turn
  unfolding append_turn
  append_all max_turns key [] h = h
  append_all max_turns key (t ∷ ts) h = append_all max_turns key ts (append_turn max_turns key t h)

  turns_of-append_turn :
      (n : ℕ) (key : IdemKey) (t : Turn) (h : Turns Turn)
      → turns_of key (append_turn (suc n) key t h) ≡ last_of (suc n) (turns_of key h ++ t ∷ [])
  unfolding turns_of append_turn
  turns_of-append_turn n key t h =
      rw (get-put pairs key (within (suc n) (or_else (get pairs key h) [] ++ t ∷ [])) h)
        (within-last_of n (or_else (get pairs key h) [] ++ t ∷ []))

  append_all_from :
      (n : ℕ) (key : IdemKey) (ts log : List Turn) (h : Turns Turn)
      → turns_of key h ≡ last_of (suc n) log
      → turns_of key (append_all (suc n) key ts h) ≡ last_of (suc n) (log ++ ts)
  unfolding append_all
  append_all_from n key [] log h e = e ∙ ap (last_of (suc n)) (sym (append-nil log))
  append_all_from n key (t ∷ ts) log h e =
      append_all_from n key ts (log ++ t ∷ []) (append_turn (suc n) key t h) (
        turns_of-append_turn n key t h
        ∙ ap (λ held. last_of (suc n) (held ++ t ∷ [])) e
        ∙ last_of-append n log t)
      ∙ ap (last_of (suc n)) (append_assoc log (t ∷ []) ts)

  -- However many turns are appended to a plan of a history that has none, what is held of it are the
  -- last `max_turns_per_plan` of them, in order, and so never more than that; the bound is at least 1.
  pub list_turns-append_all :
      (n : ℕ) (key : IdemKey) (ts : List Turn) (limit : ℕ) (h : Turns Turn)
      → turns_of key h ≡ []
      → (list_turns key limit (append_all (suc n) key ts h) ≡ last_of limit (last_of (suc n) ts))
        × (length (turns_of key (append_all (suc n) key ts h)) ≤ suc n)
  unfolding list_turns
  list_turns-append_all n key ts limit h empty =
      let held = append_all_from n key ts [] h (empty ∙ sym (last_of-short n [] (omega arith))) in
      (ap (last_of limit) held, subst (λ xs. length xs ≤ suc n) (sym held) (length-last_of n ts))
