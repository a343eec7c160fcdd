-- ===== src/Dhcp/Hostnames.antt =====
-- The hostnames of leases: what is left of any text is a label, and the loop over it ends.
use domudns.Prelude.{
  ℕ, zero, suc, ◌≤◌, ◌<◌, ◌≡◌, refl, Bool, true, false, not, ◌||◌, ◌&&◌, [], ◌∷◌, map, length, take,
  ltb, length-take, ◌==◌, All, inl, inr, Bool-cases, arith, text_beq,
}
use domudns.Text.{Text, codes}
use domudns.Dhcp.{
  lower_runes, hyphen, is_host_char, replace_char, cut_domain, has_double, replace_double,
  collapse_hyphens, trim_left_hyphens, trim_right_hyphens, before_trimmed, limit_label,
  sanitize_hostname,
}

abbrev pub starts_well : Text → Bool
starts_well [] = true
starts_well (c ∷ s) = not (c == hyphen)

abbrev pub ends_well : Text → Bool
ends_well [] = true
ends_well (c ∷ []) = not (c == hyphen)
ends_well (c ∷ d ∷ s) = ends_well (d ∷ s)

abbrev pub IsHost : Text → Type 0
IsHost = All (λ c. is_host_char c ≡ true)

-- a to z, 0 to 9 and hyphens, at most 63 of them, and no hyphen at an end.
abbrev pub IsHostname : Text → Type 0
IsHostname s = IsHost s × (length s ≤ 63) × (starts_well s ≡ true) × (ends_well s ≡ true)

replaced-IsHost : (s : Text) → IsHost (map replace_char s)
replaced-IsHost [] = tt
replaced-IsHost (c ∷ s) = (ground arith, replaced-IsHost s)

replace_double-IsHost : (s : Text) → IsHost s → IsHost (replace_double s)
unfolding replace_double
replace_double-IsHost [] h = tt
replace_double-IsHost (c ∷ []) h = h
replace_double-IsHost (c ∷ d ∷ s) h = elim (Bool-cases ((c == hyphen) && (d == hyphen))) [
  | inl double ↦ rw double (refl, replace_double-IsHost s h.1.1)
  | inr single ↦ rw single (h.0, replace_double-IsHost (d ∷ s) h.1)
]

collapse_hyphens-IsHost : (n : ℕ) (s : Text) → IsHost s → IsHost (collapse_hyphens n s)
unfolding collapse_hyphens
collapse_hyphens-IsHost zero s h = h
collapse_hyphens-IsHost (suc n) s h = elim (Bool-cases (has_double s)) [
  | inl again ↦ rw again (collapse_hyphens-IsHost n (replace_double s) (replace_double-IsHost s h))
  | inr done ↦ rw done h
]

length-replace_double-le : (s : Text) → length (replace_double s) ≤ length s
unfolding replace_double
length-replace_double-le [] = omega arith
length-replace_double-le (c ∷ []) = omega arith
length-replace_double-le (c ∷ d ∷ s) =
    ground (arith, length-replace_double-le s, length-replace_double-le (d ∷ s))

length-replace_double : (s : Text) → has_double s ≡ true → length (replace_double s) < length s
unfolding replace_double has_double
length-replace_double [] h = absurd (ground arith)
length-replace_double (c ∷ []) h = absurd (ground arith)
length-replace_double (c ∷ d ∷ s) h = elim (Bool-cases ((c == hyphen) && (d == hyphen))) [
  | inl double ↦ ground (arith, length-replace_double-le s)
  | inr single ↦ let rest = length-replace_double (d ∷ s) (ground arith) in ground (arith, rest)
]

-- A loop that has as much fuel as the text is long ends with a text without two hyphens in a row.
pub collapse_hyphens-done :
    (n : ℕ) (s : Text) → length s ≤ n → has_double (collapse_hyphens n s) ≡ false
unfolding collapse_hyphens
collapse_hyphens-done zero [] h = unfold has_double in refl
collapse_hyphens-done zero (c ∷ s) h = absurd (omega arith)
collapse_hyphens-done (suc n) s h = elim (Bool-cases (has_double s)) [
  | inl again ↦
      rw again
        (collapse_hyphens-done n (replace_double s) (omega (arith, length-replace_double s again)))
  | inr done ↦ rw done done
]

trim_left-IsHost :
    (s : Text)
    → IsHost s
    → IsHost (trim_left_hyphens s) × (starts_well (trim_left_hyphens s) ≡ true)
unfolding trim_left_hyphens
trim_left-IsHost [] h = (tt, refl)
trim_left-IsHost (c ∷ s) h = elim (Bool-cases (c == hyphen)) [
  | inl cut ↦ rw cut (trim_left-IsHost s h.1)
  | inr kept ↦ rw kept (h, rw kept refl)
]

-- What cutting the hyphens at the end keeps
abbrev Trimmed : Text → Text → Type 0
Trimmed s t =
    IsHost t
    × (length t ≤ length s)
    × (ends_well t ≡ true)
    × ((not (starts_well s) || starts_well t) ≡ true)

before_trimmed-Trimmed :
    (c : ℕ) (s t : Text)
    → is_host_char c ≡ true
    → IsHost t
    → length t ≤ length s
    → ends_well t ≡ true
    → Trimmed (c ∷ s) (before_trimmed c t)
unfolding before_trimmed
before_trimmed-Trimmed c s [] host all_host le ends = elim (Bool-cases (c == hyphen)) [
  | inl cut ↦ rw cut (tt, omega arith, refl, refl)
  | inr kept ↦ rw kept ((host, tt), omega arith, rw kept refl, rw kept refl)
]
before_trimmed-Trimmed c s (d ∷ t) host all_host le ends =
    ((host, all_host), omega arith, ends, ground arith)

trim_right-Trimmed : (s : Text) → IsHost s → Trimmed s (trim_right_hyphens s)
unfolding trim_right_hyphens
trim_right-Trimmed [] h = (tt, omega arith, refl, refl)
trim_right-Trimmed (c ∷ s) h =
    let (host, le, ends, starts) = trim_right-Trimmed s h.1 in
    before_trimmed-Trimmed c s (trim_right_hyphens s) h.0 host le ends

take-IsHost : (n : ℕ) (s : Text) → IsHost s → IsHost (take n s)
take-IsHost zero s h = tt
take-IsHost (suc n) [] h = tt
take-IsHost (suc n) (c ∷ s) h = (h.0, take-IsHost n s h.1)

take-starts_well : (n : ℕ) (s : Text) → starts_well s ≡ true → starts_well (take n s) ≡ true
take-starts_well zero s h = refl
take-starts_well (suc n) [] h = refl
take-starts_well (suc n) (c ∷ s) h = h

limit_label-IsHostname :
    (s : Text) → IsHost s → starts_well s ≡ true → ends_well s ≡ true → IsHostname (limit_label s)
unfolding limit_label
limit_label-IsHostname s host starts ends = elim (Bool-cases (ltb 63 (length s))) [
  | inr short ↦ rw short (host, ground arith, starts, ends)
  | inl long ↦
      let t = take 63 s in
      let (host', le, ends', starts') = trim_right-Trimmed t (take-IsHost 63 s host) in
      rw long (
        host',
        omega (arith, length-take 63 s),
        ground (arith, take-starts_well 63 s starts),
        ends',
      )
]

-- Whatever a lease calls its host, the name that goes into the zone is empty or a label of at most
-- 63 letters, digits and hyphens with no hyphen at an end.
pub sanitize_hostname-IsHostname : (name : Text) → IsHostname (sanitize_hostname name)
unfolding sanitize_hostname
sanitize_hostname-IsHostname name =
    let replaced = map replace_char (cut_domain (lower_runes name)) in
    let collapsed = collapse_hyphens (length replaced) replaced in
    let (host, starts) = trim_left-IsHost collapsed (
      collapse_hyphens-IsHost (length replaced) replaced
        (replaced-IsHost (cut_domain (lower_runes name)))) in
    let (host', le, ends, starts') = trim_right-Trimmed (trim_left_hyphens collapsed) host in
    elim (Bool-cases ((length name == 0) || text_beq name (codes "*"))) [
      | inl unnamed ↦ rw unnamed (tt, omega arith, refl, refl)
      | inr named ↦ rw named (
          limit_label-IsHostname (trim_right_hyphens (trim_left_hyphens collapsed)) host'
            (ground arith) ends)
    ]
