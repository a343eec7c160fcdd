-- ===== src/Text.antt =====
-- Go's `strings` package as the server uses it, over bytes. Names and values are ASCII, so bytes,
-- runes and letter cases are those of ASCII.
pub mod Affix
pub mod Parts
use Prim.Native.Char.{code}
use domudns.Prelude.{
  ℕ, zero, suc, ◌+◌, ◌-◌, String, Bool, true, false, not, ◌&&◌, ◌||◌, List, [], ◌∷◌, ◌++◌, map,
  length, take, drop, ltb, leb, ◌==◌, if◌then◌else◌, text_beq,
}

abbrev pub Text : Type 0
Text = List ℕ

-- The bytes of a literal.
abbrev pub codes : String → Text
codes String.[] = []
codes (String.◌∷◌ c s) = code c ∷ codes s

abbrev pub dot : ℕ
dot = b'.'

abbrev pub dot_text : Text
dot_text = dot ∷ []

abbrev pub comma : ℕ
comma = b','

-- strings.ToLower
unfoldable pub lower_byte : ℕ → ℕ
lower_byte c = if leb b'A' c && leb c b'Z' then c + 32 else c

abbrev pub to_lower : Text → Text
to_lower = map lower_byte

-- strings.HasPrefix
abbrev pub has_prefix : Text → Text → Bool
has_prefix s [] = true
has_prefix [] (c ∷ p) = false
has_prefix (d ∷ s) (c ∷ p) = (d == c) && has_prefix s p

-- strings.HasSuffix
unfoldable pub has_suffix : Text → Text → Bool
has_suffix s t = leb (length t) (length s) && text_beq (drop (length s - length t) s) t

-- strings.TrimSuffix
unfoldable pub trim_suffix : Text → Text → Text
trim_suffix s t = if has_suffix s t then take (length s - length t) s else s

-- strings.Contains
abbrev pub contains : Text → Text → Bool
contains [] sub = has_prefix [] sub
contains (c ∷ s) sub = has_prefix (c ∷ s) sub || contains s sub

-- strings.ContainsRune
abbrev pub contains_byte : Text → ℕ → Bool
contains_byte [] b = false
contains_byte (c ∷ s) b = (c == b) || contains_byte s b

abbrev pub cons_head : ℕ → List Text → List Text
cons_head c [] = (c ∷ []) ∷ []
cons_head c (p ∷ ps) = (c ∷ p) ∷ ps

-- strings.Split at a separator of one byte: there is always at least one part.
unfoldable pub split : Text → ℕ → List Text
split [] sep = [] ∷ []
split (c ∷ s) sep = let rest = split s sep in if c == sep then [] ∷ rest else cons_head c rest

-- strings.Join with a separator of one byte
unfoldable pub join : List Text → ℕ → Text
join [] sep = []
join (p ∷ []) sep = p
join (p ∷ q ∷ ps) sep = p ++ (sep ∷ join (q ∷ ps) sep)

abbrev pub is_space : ℕ → Bool
is_space c = (c == 32) || (leb 9 c && leb c 13)

abbrev pub trim_left : Text → Text
trim_left [] = []
trim_left (c ∷ s) = let rest = trim_left s in if is_space c then rest else c ∷ s

-- The text without the white space at its end.
abbrev pub trim_right : Text → Text
trim_right [] = []
trim_right (c ∷ s) = elim (trim_right s) [
  | [] ↦ if is_space c then [] else c ∷ []
  | d ∷ t ↦ c ∷ d ∷ t
]

-- strings.TrimSpace
unfoldable pub trim_space : Text → Text
trim_space s = trim_right (trim_left s)

-- `strings.ToLower(strings.TrimSuffix(s, "."))`, by which the server compares names
unfoldable pub normalize_name : Text → Text
normalize_name s = to_lower (trim_suffix s dot_text)
