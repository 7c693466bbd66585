-- ===== src/Grounded/Citation/Laws.antt =====
-- What a validated result guarantees of its citations.
use dext.Base.{
  ℕ, ◌≡◌, refl, sym, ◌∙◌, subst, String, true, false, Option, none, some, List, [], ◌∷◌, arith,
  is_empty, nat_eq, Bool-cases, Option-cases, inl, inr, OneOf, All, All-append, All-imp, ◌==◌,
  eq_iff,
}
use dext.Grounded.Types.{
  SourceRef, UserContextRef, ContentClass, fact, advice, uncertain, GenerationWarning, Claim,
}
use dext.Grounded.Citation.{
  Surroundings, Context, Key, key_of, key_eq, bundle_ref, ref_content_hash, resolve_ref, note_ref,
  resolve_refs, validate_fact, strip_context, validate_advice_refs, validate_as, validate_claim,
  note_claim, validate_claims, cited_of, valid_user_context_ref, Validated, Loop,
}

pub key_eq→≡ : (a b : Key) → key_eq a b ≡ true → a ≡ b
key_eq→≡ a b h = ground (arith, eq_iff a.0 b.0, eq_iff a.1 b.1, eq_iff a.2 b.2)

module _ (env : Surroundings) where
  -- A reference of the sources has the same document, heading and chunk, and the same content.
  pub record IsGenuine (sources : List SourceRef) (ref : SourceRef) : Type 0 where
    pub canonical : SourceRef
    pub listed : OneOf canonical sources
    pub same_key : key_of canonical ≡ key_of ref
    pub same_content : ref_content_hash env canonical ≡ ref_content_hash env ref

  -- What the index holds for a key.
  record IsIndexed (sources : List SourceRef) (k : Key) (entry : SourceRef × String) : Type 0 where
    listed : OneOf entry.0 sources
    at_key : key_of entry.0 ≡ k
    hashed : ref_content_hash env entry.0 ≡ entry.1

  bundle_ref-IsIndexed :
      (sources : List SourceRef) (k : Key) {entry : SourceRef × String}
      → bundle_ref env sources k ≡ some entry
      → IsIndexed sources k entry
  unfolding bundle_ref
  bundle_ref-IsIndexed [] k h = cc
  bundle_ref-IsIndexed (ref ∷ rest) k h = elim (Option-cases (bundle_ref env rest k)) [
    | inr (e, later) ↦
        let i = bundle_ref-IsIndexed rest k (later ∙ (rw later at h)) in
        record { listed = inr i.listed; at_key = i.at_key; hashed = i.hashed }
    | inl absent ↦ elim (Bool-cases (key_eq (key_of ref) k)) [
      | inl same ↦ record {
        listed = inl (ground arith);
        at_key = ground (arith, key_eq→≡ (key_of ref) k same);
        hashed = ground arith;
      }
      | inr other ↦ cc (rw (absent, other) at h)
    ]
  ]

  listed-IsGenuine :
      (sources : List SourceRef) (c : SourceRef) → OneOf c sources → IsGenuine sources c
  listed-IsGenuine sources c h = record {
    canonical = c;
    listed = h;
    same_key = refl;
    same_content = refl;
  }

  resolve_ref-some :
      (sources : List SourceRef) (ref : SourceRef) {c : SourceRef}
      → resolve_ref env sources ref ≡ some c
      → OneOf c sources × IsGenuine sources ref
  unfolding resolve_ref
  resolve_ref-some sources ref {c} h = elim (Option-cases (bundle_ref env sources (key_of ref))) [
    | inl absent ↦ cc (rw (absent, resolve_ref) at h)
    | inr (entry, found) ↦
        let i = bundle_ref-IsIndexed sources (key_of ref) found in
        elim (Bool-cases (ref_content_hash env ref == entry.1)) [
          | inr other ↦ cc (rw (found, other, resolve_ref) at h)
          | inl same ↦
              let e : entry.0 ≡ c = cc (rw (found, same, resolve_ref) at h) in
              (
                subst (λ x. OneOf x sources) e i.listed,
                record {
                  canonical = entry.0;
                  listed = i.listed;
                  same_key = i.at_key;
                  same_content =
                      i.hashed ∙ sym ((eq_iff (ref_content_hash env ref) entry.1).0 same);
                },
              )
        ]
  ]

  note_ref-canonical :
      (sources : List SourceRef) (ref : SourceRef) (o : Option SourceRef) (r : List SourceRef × ℕ)
      → resolve_ref env sources ref ≡ o
      → All (λ c. OneOf c sources) r.0
      → All (λ c. OneOf c sources) (note_ref env o r).0
  note_ref-canonical sources ref none r e h = h
  note_ref-canonical sources ref (some c) r e h = ((resolve_ref-some sources ref e).0, h)

  resolve_refs-canonical :
      (sources refs : List SourceRef) → All (λ c. OneOf c sources) (resolve_refs env sources refs).0
  unfolding resolve_refs
  resolve_refs-canonical sources [] = tt
  resolve_refs-canonical sources (ref ∷ rest) =
      note_ref-canonical sources ref _ (resolve_refs env sources rest) refl
        (resolve_refs-canonical sources rest)

  note_ref-IsGenuine :
      (sources : List SourceRef) (ref : SourceRef) (rest : List SourceRef) (o : Option SourceRef)
      (r : List SourceRef × ℕ)
      → resolve_ref env sources ref ≡ o
      → (r.1 ≡ 0 → All (IsGenuine sources) rest)
      → (note_ref env o r).1 ≡ 0
      → All (IsGenuine sources) (ref ∷ rest) × (is_empty (note_ref env o r).0 ≡ false)
  note_ref-IsGenuine sources ref rest none r e f h = absurd (omega arith)
  note_ref-IsGenuine sources ref rest (some c) r e f h =
      (((resolve_ref-some sources ref e).1, f h), refl)

  -- Without a fabricated reference all are genuine, and each has its canonical one.
  resolve_refs-IsGenuine :
      (sources refs : List SourceRef)
      → (resolve_refs env sources refs).1 ≡ 0
      → All (IsGenuine sources) refs × (is_empty (resolve_refs env sources refs).0 ≡ is_empty refs)
  unfolding resolve_refs
  resolve_refs-IsGenuine sources [] h = (tt, refl)
  resolve_refs-IsGenuine sources (ref ∷ rest) h =
      note_ref-IsGenuine sources ref rest _ (resolve_refs env sources rest) refl
        (λ e. (resolve_refs-IsGenuine sources rest e).0) h

  -- A context reference, if there is one, is valid.
  abbrev pub IsValidContext : Context → Option UserContextRef → Type 0
  IsValidContext context none = Unit
  IsValidContext context (some ref) =
      valid_user_context_ref ref context env.student_context_fields ≡ true

  IsValidContext-intro :
      (context : Context) (given : Option UserContextRef)
      → ((ref : UserContextRef)
          → given ≡ some ref
          → valid_user_context_ref ref context env.student_context_fields ≡ true)
      → IsValidContext context given
  IsValidContext-intro context none valid = tt
  IsValidContext-intro context (some ref) valid = valid ref refl

  -- The rule of each class for a kept claim: a fact has references, all of them the bundle's own;
  -- an advice cites what is genuine, and a context reference only if it is valid; an uncertain
  -- claim cites nothing.
  abbrev pub ClassRuleOf : List SourceRef → Context → Claim → ContentClass → Type 0
  ClassRuleOf sources context c fact =
      (is_empty c.fact_refs ≡ false) × All (λ r. OneOf r sources) c.fact_refs
  ClassRuleOf sources context c advice =
      All (IsGenuine sources) c.fact_refs × IsValidContext context c.user_context_ref
  ClassRuleOf sources context c uncertain = c.fact_refs ≡ []

  abbrev pub IsCited : List SourceRef → Context → Claim → Type 0
  IsCited sources context c = ClassRuleOf sources context c c.content_class

  abbrev Kept : (Claim → Type 0) → Validated env → Type 0
  Kept P r = elim r.0 [ none ↦ Unit | some c ↦ P c ]

  is_empty→≡ : {A : Type 0} (xs : List A) → is_empty xs ≡ true → xs ≡ []
  is_empty→≡ [] h = refl
  is_empty→≡ (x ∷ xs) h = cc

  module _ (sources : List SourceRef) (context : Context) where
    validate_fact-IsCited :
        (c : Claim)
        → c.content_class ≡ fact
        → Kept (IsCited sources context) (validate_fact env sources c)
    unfolding validate_fact
    validate_fact-IsCited c e = elim (Bool-cases (is_empty c.fact_refs)) [
      | inl none_given ↦ rw none_given (is_empty→≡ c.fact_refs none_given)
      | inr given ↦ elim (Bool-cases (nat_eq (resolve_refs env sources c.fact_refs).1 0)) [
        | inr fabricated ↦ rw (given, fabricated) tt
        | inl genuine ↦
            rw (given, genuine, e)
              (
                (resolve_refs-IsGenuine sources c.fact_refs (ground arith)).1 ∙ given,
                resolve_refs-canonical sources c.fact_refs,
              )
      ]
    ]

    strip_context-valid :
        (c : Claim) (ref : UserContextRef)
        → (strip_context env context c).0.user_context_ref ≡ some ref
        → valid_user_context_ref ref context env.student_context_fields ≡ true
    unfolding strip_context
    strip_context-valid c ref h = elim (Option-cases c.user_context_ref) [
      | inl none_given ↦ cc (rw (none_given, strip_context) at h)
      | inr (u, given) ↦
          elim (Bool-cases (valid_user_context_ref u context env.student_context_fields)) [
            | inl valid ↦ ground arith
            | inr invalid ↦ cc (rw (given, invalid, strip_context) at h)
          ]
    ]

    same-strip_context :
        (c : Claim)
        → ((strip_context env context c).0.content_class ≡ c.content_class)
          × ((strip_context env context c).0.fact_refs ≡ c.fact_refs)
    unfolding strip_context
    same-strip_context c = ground arith

    abbrev ClassRule : Claim → ContentClass → Type 0
    ClassRule = ClassRuleOf sources context

    advice-IsCited :
        (c : Claim)
        → c.content_class ≡ advice
        → All (IsGenuine sources) c.fact_refs
        → IsValidContext context c.user_context_ref
        → IsCited sources context c
    advice-IsCited c e refs ctx = rw e (refs, ctx)

    validate_advice-IsCited :
        (c : Claim) (warnings : List GenerationWarning)
        → c.content_class ≡ advice
        → IsValidContext context c.user_context_ref
        → Kept (IsCited sources context) (validate_advice_refs env sources warnings c)
    unfolding validate_advice_refs
    validate_advice-IsCited c warnings e ctx = elim (Bool-cases (is_empty c.fact_refs)) [
      | inl none_given ↦ rw none_given (
          advice-IsCited c e
            (subst (All (IsGenuine sources)) (sym (is_empty→≡ c.fact_refs none_given)) tt) ctx)
      | inr given ↦ elim (Bool-cases (nat_eq (resolve_refs env sources c.fact_refs).1 0)) [
        | inl genuine ↦
            rw (given, genuine)
              (advice-IsCited c e (resolve_refs-IsGenuine sources c.fact_refs (ground arith)).0 ctx)
        | inr fabricated ↦ elim (Bool-cases (is_empty (resolve_refs env sources c.fact_refs).0)) [
          | inl all_fabricated ↦ rw (given, fabricated, all_fabricated) tt
          | inr some_left ↦
              rw (given, fabricated, some_left)
                (advice-IsCited (record c { fact_refs = (resolve_refs env sources c.fact_refs).0 })
                  e
                  (All-imp _ _ (resolve_refs env sources c.fact_refs).0 (listed-IsGenuine sources)
                    (resolve_refs-canonical sources c.fact_refs))
                  ctx)
        ]
      ]
    ]

    uncertain-IsCited :
        (c : Claim) → c.content_class ≡ uncertain → c.fact_refs ≡ [] → IsCited sources context c
    uncertain-IsCited c e h = rw e h

    validate_as-IsCited :
        (k : ContentClass) (c : Claim)
        → c.content_class ≡ k
        → Kept (IsCited sources context) (validate_as env k sources context c)
    unfolding validate_as
    validate_as-IsCited fact c e = validate_fact-IsCited c e
    validate_as-IsCited advice c e =
        validate_advice-IsCited (strip_context env context c).0 (strip_context env context c).1
          ((same-strip_context c).0 ∙ e)
          (IsValidContext-intro context (strip_context env context c).0.user_context_ref
            (strip_context-valid c))
    validate_as-IsCited uncertain c e = elim (Bool-cases (is_empty c.fact_refs)) [
      | inl none_given ↦ rw none_given (uncertain-IsCited c e (is_empty→≡ c.fact_refs none_given))
      | inr given ↦ rw given (uncertain-IsCited (record c { fact_refs = [] }) e refl)
    ]

    note_claim-All :
        (text : String) (r : Validated env) (more : Loop env)
        → Kept (IsCited sources context) r
        → All (IsCited sources context) more.kept
        → All (IsCited sources context) (note_claim env text r more).kept
    note_claim-All text (none, w) more k h = h
    note_claim-All text (some c, w) more k h = (k, h)

    pub validate_claims-IsCited :
        (claims : List Claim)
        → All (IsCited sources context) (validate_claims env sources context claims).kept
    unfolding validate_claims
    validate_claims-IsCited [] = tt
    validate_claims-IsCited (c ∷ rest) =
        note_claim-All c.text (validate_claim env sources context c)
          (validate_claims env sources context rest)
          (unfold validate_claim in validate_as-IsCited c.content_class c refl)
          (validate_claims-IsCited rest)

    -- The references of such a claim are genuine, whatever its class.
    refs-IsGenuine :
        (k : ContentClass) (c : Claim)
        → c.content_class ≡ k
        → IsCited sources context c
        → All (IsGenuine sources) c.fact_refs
    refs-IsGenuine fact c e h =
        All-imp _ _ c.fact_refs (listed-IsGenuine sources) (subst (ClassRule c) e h).1
    refs-IsGenuine advice c e h = (subst (ClassRule c) e h).0
    refs-IsGenuine uncertain c e h =
        subst (All (IsGenuine sources)) (sym (subst (ClassRule c) e h)) tt

    pub cited_of-IsGenuine :
        (claims : List Claim)
        → All (IsCited sources context) claims
        → All (IsGenuine sources) (cited_of env claims)
    unfolding cited_of
    cited_of-IsGenuine [] h = tt
    cited_of-IsGenuine (c ∷ rest) h =
        All-append _ c.fact_refs (cited_of env rest) (refs-IsGenuine c.content_class c refl h.0)
          (cited_of-IsGenuine rest h.1)
