-- ===== src/Dns/Label.antt =====
-- Names and labels (internal/dns/validator.go).
pub mod Grammar
use domudns.Prelude.{
  ℕ, zero, suc, ◌-◌, Bool, true, false, ◌&&◌, ◌||◌, List, [], ◌∷◌, all, ltb, leb, ◌==◌, length,
  Option, none, some, get_elem?, text_beq, if◌then◌else◌,
}
use domudns.Text.{
  Text, codes, dot, dot_text, contains_byte, split, to_lower, trim_suffix, trim_space,
}
use domudns.Dns.CharClass.{is_valid_label_char}

-- `label[i] == '-'`, at an index that the guard above it keeps in range
abbrev pub hyphen_at : Text → ℕ → Bool
hyphen_at label i = elim (get_elem? label i) [ none ↦ false | some c ↦ c == b'-' ]

unfoldable pub is_valid_label : Text → Bool → Bool
is_valid_label label allow_underscore =
    if (length label == 0) || ltb 63 (length label)
    then false
    else if hyphen_at label 0 || hyphen_at label (length label - 1)
    then false
    else all (λ c. is_valid_label_char c allow_underscore) label

abbrev pub apex : Text
apex = codes "@"

unfoldable pub is_valid_dns_label : Text → Bool
is_valid_dns_label s = if text_beq s apex then true else is_valid_label s true

-- The loop over `strings.Split(s, ".")` that three validators share.
abbrev pub all_labels : Text → Bool → Bool
all_labels s allow_underscore = all (λ l. is_valid_label l allow_underscore) (split s dot)

unfoldable pub is_valid_relative_record_name : Text → Bool
is_valid_relative_record_name s =
    if text_beq s apex
    then true
    else if (length s == 0) || ltb 253 (length s)
    then false
    else if contains_byte s dot && contains_byte s b'*'
    then false
    else all_labels s true

unfoldable pub is_valid_hostname : Text → Bool
is_valid_hostname s = if (length s == 0) || ltb 253 (length s) then false else all_labels s true

unfoldable pub is_valid_fqdn : Text → Bool
is_valid_fqdn s =
    let t = trim_suffix s dot_text in if length t == 0 then false else is_valid_hostname t

unfoldable pub is_valid_domain : Text → Bool
is_valid_domain s = if (length s == 0) || ltb 253 (length s) then false else all_labels s false

unfoldable pub normalize_domain : Text → Text
normalize_domain domain = trim_suffix (trim_space (to_lower domain)) dot_text
