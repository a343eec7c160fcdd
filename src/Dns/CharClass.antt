-- ===== src/Dns/CharClass.antt =====
-- Character allowlists (internal/dns/charclass.go). A rune is its code point.
use domudns.Prelude.{ℕ, Bool, true, false, ◌&&◌, ◌||◌, all, ltb, leb, ◌==◌, length, if◌then◌else◌}
use domudns.Text.{Text, codes, contains_byte}

pub record CharClass : Type 0 where
  pub lower : Bool
  pub upper : Bool
  pub digit : Bool
  pub extra : Text

unfoldable pub allows : CharClass → ℕ → Bool
allows cc c =
    if cc.lower && leb b'a' c && leb c b'z'
    then true
    else if cc.upper && leb b'A' c && leb c b'Z'
    then true
    else if cc.digit && leb b'0' c && leb c b'9'
    then true
    else contains_byte cc.extra c

abbrev pub label_char_class : CharClass
label_char_class = record { lower = true; upper = true; digit = true; extra = codes "-*" }

unfoldable pub is_valid_label_char : ℕ → Bool → Bool
unfolding allows
is_valid_label_char c allow_underscore =
    allows label_char_class c || (allow_underscore && c == b'_')

abbrev pub filename_char_class : CharClass
filename_char_class = record { lower = true; upper = false; digit = true; extra = codes ".-_" }

abbrev pub view_name_char_class : CharClass
view_name_char_class = record { lower = true; upper = false; digit = true; extra = codes "_-" }

unfoldable pub is_valid_view_name : Text → Bool
is_valid_view_name name =
    if (length name == 0) || ltb 64 (length name)
    then false
    else all (allows view_name_char_class) name
