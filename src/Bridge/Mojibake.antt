-- ===== src/Bridge/Mojibake.antt =====
-- mojibake.py: the repair of UTF-8 that was read as Latin-1.
use Prim.Native.Char.{code}
use dext.Base.{
  ℕ, ◌+◌, ◌≤◌, ◌≡◌, refl, String, ◌&&◌, ◌||◌, Option, none, some, List, ltb, leb, Bool-cases, inl,
  inr, if◌then◌else◌, ◌==◌, arith,
}

-- The codecs of the standard library: `encode("latin-1")` and `decode("utf-8")`, which may raise.
pub record Codecs : Type 0 where
  pub encode_latin1 : String → Option (List ℕ)
  pub decode_utf8 : List ℕ → Option String

unfoldable pub suspicion : String → ℕ
suspicion String.[] = 0
suspicion (String.◌∷◌ c s) = (if leb 0x80 (code c) && leb (code c) 0xff then 1 else 0) + suspicion s

module _ (codecs : Codecs) where
  open codecs use {encode_latin1, decode_utf8}

  -- The end of the repair, on what was decoded.
  abbrev pub accept_repair : String → Option String → String
  accept_repair text none = text
  accept_repair text (some repaired) =
      if repaired == text || ltb (suspicion text) (suspicion repaired) then text else repaired

  abbrev pub decode_repair : String → Option (List ℕ) → String
  decode_repair text none = text
  decode_repair text (some raw) = accept_repair text (decode_utf8 raw)

  unfoldable pub repair_mojibake_text : String → String
  unfolding suspicion
  repair_mojibake_text text = if text == "" then text else decode_repair text (encode_latin1 text)

  suspicion-accept_repair :
      (text : String) (decoded : Option String)
      → suspicion (accept_repair text decoded) ≤ suspicion text
  suspicion-accept_repair text none = omega arith
  suspicion-accept_repair text (some repaired) =
      elim (Bool-cases (repaired == text || ltb (suspicion text) (suspicion repaired))) [
        | inl refused ↦ rw refused (omega arith)
        | inr accepted ↦ rw accepted (ground (arith, accepted))
      ]

  suspicion-decode_repair :
      (text : String) (raw : Option (List ℕ)) → suspicion (decode_repair text raw) ≤ suspicion text
  suspicion-decode_repair text none = omega arith
  suspicion-decode_repair text (some raw) = suspicion-accept_repair text (decode_utf8 raw)

  -- The repair never adds a character that looks like mojibake, one in U+0080 to U+00FF.
  pub suspicion-repair : (text : String) → suspicion (repair_mojibake_text text) ≤ suspicion text
  unfolding repair_mojibake_text
  suspicion-repair text = elim (Bool-cases (text == "")) [
    | inl blank ↦ rw blank (omega arith)
    | inr given ↦ rw given (suspicion-decode_repair text (encode_latin1 text))
  ]

  -- A text that Latin-1 cannot encode, as every text with a Chinese character, comes back as it is.
  repair_keeps_text : (text : String) → encode_latin1 text ≡ none → repair_mojibake_text text ≡ text
  unfolding repair_mojibake_text
  repair_keeps_text text e = elim (Bool-cases (text == "")) [
    | inl blank ↦ rw blank refl
    | inr given ↦ rw (given, e) refl
  ]
