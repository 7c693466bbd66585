-- ===== src/Bridge/UrlPolicy.antt =====
-- url_policy.py: which addresses may be fetched, and which name a port.
use Prim.Native.Char.{code}
use Prim.Native.String.{String}
use dext.Base.{
  ℕ, Bool, true, false, ◌||◌, Option, none, some, [], ◌∷◌, nat_eq, elem, or_else, if◌then◌else◌,
  ◌==◌,
}

-- `SplitResult` of `urllib.parse`, whose `urlsplit` raises ValueError at a malformed address.
pub record SplitResult : Type 0 where
  pub scheme : String
  pub netloc : String
  pub hostname : Option String

abbrev pub UrlSplit : Type 0
UrlSplit = String → Option SplitResult

-- `":" in s`, of one character's code
unfoldable pub has_char : ℕ → String → Bool
has_char c String.[] = false
has_char c (String.◌∷◌ d s) = let rest = has_char c s in nat_eq (code d) c || rest

-- `s.rsplit("@", 1)[-1]`, what stands behind the last one
unfoldable pub after_last : ℕ → String → String
unfolding has_char
after_last c String.[] = ""
after_last c (String.◌∷◌ d s) =
    let rest = after_last c s in
    if has_char c s then rest else if nat_eq (code d) c then s else String.◌∷◌ d s

-- `s[s.find("]") + 1:]`, if there is one
unfoldable pub after_first : ℕ → String → Option String
after_first c String.[] = none
after_first c (String.◌∷◌ d s) =
    let rest = after_first c s in if nat_eq (code d) c then some s else rest

abbrev starts_with_char : ℕ → String → Bool
starts_with_char c String.[] = false
starts_with_char c (String.◌∷◌ d s) = nat_eq (code d) c

-- `s.endswith(t)`
unfoldable pub ends_with : String → String → Bool
ends_with String.[] t = t == ""
ends_with (String.◌∷◌ d s) t = let rest = ends_with s t in String.◌∷◌ d s == t || rest

module _ (urlsplit : UrlSplit) (lower : String → String) where
  abbrev allowed_host : String → Bool
  allowed_host host =
      if host == ""
      then false
      else host == "edu.cn"
        || (ends_with host ".edu.cn" || (host == "github.io" || ends_with host ".github.io"))

  -- No result where `urlsplit` raises.
  unfoldable pub is_allowed_fetch_host : String → Option Bool
  unfolding ends_with
  is_allowed_fetch_host url = elim (urlsplit url) [
    | none ↦ none
    | some parts ↦
        if elem parts.scheme ("http" ∷ "https" ∷ [])
        then some (allowed_host (lower (or_else parts.hostname "")))
        else some true
  ]

  unfoldable pub has_explicit_port_parts : SplitResult → Bool
  unfolding after_last after_first has_char
  has_explicit_port_parts parts =
      let hostport = after_last 0x40 parts.netloc in
      if hostport == ""
      then false
      else if starts_with_char 0x5b hostport
      then (elim (after_first 0x5d hostport) [
        | none ↦ false
        | some rest ↦ starts_with_char 0x3a rest
      ])
      else has_char 0x3a hostport

  unfoldable pub has_explicit_port : String → Bool
  unfolding has_explicit_port_parts
  has_explicit_port url = elim (urlsplit url) [
    | none ↦ false
    | some parts ↦ has_explicit_port_parts parts
  ]
