-- ===== src/Dns/Label/Grammar.antt =====
-- What the validators of names accept, as a grammar: labels joined by dots.
use domudns.Prelude.{
  ℕ, ◌-◌, ◌≤◌, ◌≡◌, ◌≢◌, ◌↔◌, ◌⊎◌, inl, inr, refl, sym, Bool, true, false, List, [], ◌∷◌, all, All,
  length, some, get_elem?, arith, Bool-cases,
}
use domudns.Text.{Text, dot, contains_byte, split, join}
use domudns.Text.Parts.{split-join, join-split, split-ne-nil}
use domudns.Dns.CharClass.{is_valid_label_char}
use domudns.Dns.Label.{hyphen_at, is_valid_label, all_labels, is_valid_domain, is_valid_hostname}

-- A letter, a digit, `-`, `*`, or an underscore where it is allowed.
abbrev pub IsLabelChar : Bool → ℕ → Type 0
IsLabelChar underscore c =
    ((b'a' ≤ c) × (c ≤ b'z'))
    ⊎ ((b'A' ≤ c) × (c ≤ b'Z'))
    ⊎ ((b'0' ≤ c) × (c ≤ b'9'))
    ⊎ (c ≡ b'-')
    ⊎ (c ≡ b'*')
    ⊎ ((underscore ≡ true) × (c ≡ b'_'))

-- One to 63 such characters, with no hyphen at either end.
abbrev pub IsLabel : Bool → Text → Type 0
IsLabel underscore s =
    (1 ≤ length s)
    × (length s ≤ 63)
    × (get_elem? s 0 ≢ some b'-')
    × (get_elem? s (length s - 1) ≢ some b'-')
    × All (IsLabelChar underscore) s

-- A name of at most 253 bytes that is one label or more, joined by dots.
abbrev pub IsName : Bool → Text → Type 0
IsName underscore s =
    (1 ≤ length s)
    × (length s ≤ 253)
    × ((labels : List Text) × (labels ≢ [])
        × All (IsLabel underscore) labels
        × (s ≡ join labels dot))

IsLabelChar-iff : (u : Bool) (c : ℕ) → (is_valid_label_char c u ≡ true) ↔ IsLabelChar u c
unfolding is_valid_label_char
IsLabelChar-iff u c = (λ h. ground arith, λ h. ground arith)

all_chars→All :
    (u : Bool) (s : Text) → all (λ c. is_valid_label_char c u) s ≡ true → All (IsLabelChar u) s
all_chars→All u [] h = tt
all_chars→All u (c ∷ s) h = elim (Bool-cases (is_valid_label_char c u)) [
  | inl e ↦ ((IsLabelChar-iff u c).0 e, all_chars→All u s (rw e at h))
  | inr e ↦ absurd (ground arith)
]

All→all_chars :
    (u : Bool) (s : Text) → All (IsLabelChar u) s → all (λ c. is_valid_label_char c u) s ≡ true
All→all_chars u [] a = refl
All→all_chars u (c ∷ s) a = rw ((IsLabelChar-iff u c).1 a.0) (All→all_chars u s a.1)

hyphen_at_iff : (s : Text) (i : ℕ) → (hyphen_at s i ≡ false) ↔ (get_elem? s i ≢ some b'-')
hyphen_at_iff s i = (λ h. ground arith, λ h. ground arith)

pub is_valid_label_iff : (s : Text) (u : Bool) → (is_valid_label s u ≡ true) ↔ IsLabel u s
unfolding is_valid_label
is_valid_label_iff s u = (
  λ h. (
    ground arith,
    ground arith,
    (hyphen_at_iff s 0).0 (ground arith),
    (hyphen_at_iff s (length s - 1)).0 (ground arith),
    all_chars→All u s (ground arith),
  ),
  λ h. ground (
    arith,
    (hyphen_at_iff s 0).1 h.2,
    (hyphen_at_iff s (length s - 1)).1 h.3,
    All→all_chars u s h.4,
  ),
)

not-IsLabelChar-dot : (u : Bool) → ¬ IsLabelChar u dot
not-IsLabelChar-dot u h = ground arith

chars-lack_dot : (u : Bool) (s : Text) → All (IsLabelChar u) s → contains_byte s dot ≡ false
chars-lack_dot u [] a = refl
chars-lack_dot u (c ∷ s) a = ground (arith, not-IsLabelChar-dot u, chars-lack_dot u s a.1)

labels-lack_dot :
    (u : Bool) (ls : List Text) → All (IsLabel u) ls → All (λ l. contains_byte l dot ≡ false) ls
labels-lack_dot u [] a = tt
labels-lack_dot u (l ∷ ls) a = (chars-lack_dot u l a.0.4, labels-lack_dot u ls a.1)

all_labels→All :
    (u : Bool) (ls : List Text) → all (λ l. is_valid_label l u) ls ≡ true → All (IsLabel u) ls
all_labels→All u [] h = tt
all_labels→All u (l ∷ ls) h = elim (Bool-cases (is_valid_label l u)) [
  | inl e ↦ ((is_valid_label_iff l u).0 e, all_labels→All u ls (rw e at h))
  | inr e ↦ absurd (ground arith)
]

All→all_labels :
    (u : Bool) (ls : List Text) → All (IsLabel u) ls → all (λ l. is_valid_label l u) ls ≡ true
All→all_labels u [] a = refl
All→all_labels u (l ∷ ls) a = rw ((is_valid_label_iff l u).1 a.0) (All→all_labels u ls a.1)

all_labels_iff :
    (u : Bool) (s : Text)
    → (all_labels s u ≡ true)
      ↔ ((labels : List Text) × (labels ≢ []) × All (IsLabel u) labels × (s ≡ join labels dot))
all_labels_iff u s = (
  λ h. (split s dot, split-ne-nil s dot, all_labels→All u (split s dot) h, sym (join-split s dot)),
  λ (labels, some_label, a, e).
      rw (e, split-join labels dot some_label (labels-lack_dot u labels a))
        (All→all_labels u labels a),
)

-- IsValidDomain accepts a text exactly when it is one label or more joined by dots, with at most
-- 253 bytes in all; a label is 1 to 63 letters, digits, hyphens or stars and neither starts nor
-- ends with a hyphen.
pub is_valid_domain_iff : (s : Text) → (is_valid_domain s ≡ true) ↔ IsName false s
unfolding is_valid_domain
is_valid_domain_iff s = (
  λ h. (ground arith, ground arith, (all_labels_iff false s).0 (ground arith)),
  λ h. ground (arith, (all_labels_iff false s).1 h.2),
)

-- isValidHostname accepts a text exactly when it is such a name with underscores allowed: one label
-- or more joined by dots, at most 253 bytes, and a label is 1 to 63 letters, digits, hyphens, stars
-- or underscores and neither starts nor ends with a hyphen.
pub is_valid_hostname_iff : (s : Text) → (is_valid_hostname s ≡ true) ↔ IsName true s
unfolding is_valid_hostname
is_valid_hostname_iff s = (
  λ h. (ground arith, ground arith, (all_labels_iff true s).0 (ground arith)),
  λ h. ground (arith, (all_labels_iff true s).1 h.2),
)
