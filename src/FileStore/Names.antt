-- ===== src/FileStore/Names.antt =====
-- The names of the files: they stay in the directory, and no two zones share one.
use domudns.Prelude.{
  ℕ, suc, ◌+◌, ◌≤◌, ◌≡◌, ◌≢◌, ◌⊎◌, inl, inr, refl, sym, ap, ◌∙◌, Bool, true, false, [], ◌∷◌, ◌++◌,
  length, drop, all, All, ◌==◌, Option-cases, some, text_beq_iff, arith, if◌then◌else◌,
  take-length-append,
}
use domudns.Text.{Text, codes, dot_text, contains_byte, normalize_name}
use domudns.Dns.CharClass.{allows, view_name_char_class, is_valid_view_name}
use domudns.Dns.Uri.Hosts.{last_index-append, last_index_absent}
use domudns.FileStore.{
  at_sign, is_domain_filename_char, sanitize_domain_filename, sanitize_zone_filename,
  split_zone_key,
}

-- a to z, 0 to 9, `.`, `-`, `_`, and the `@` before a view.
abbrev pub IsFileChar : ℕ → Type 0
IsFileChar c =
    ((b'a' ≤ c) × (c ≤ b'z'))
    ⊎ ((b'0' ≤ c) × (c ≤ b'9'))
    ⊎ (c ≡ b'.')
    ⊎ (c ≡ b'-')
    ⊎ (c ≡ b'_')
    ⊎ (c ≡ at_sign)

domain_char : (c : ℕ) → is_domain_filename_char c ≡ true → IsFileChar c × (c ≢ at_sign)
unfolding allows
domain_char c h = (ground arith, ground arith)

view_char : (c : ℕ) → allows view_name_char_class c ≡ true → IsFileChar c × (c ≢ at_sign)
unfolding allows
view_char c h = (ground arith, ground arith)

-- The characters of a name, none of which is an `@`.
abbrev IsPart : Text → Type 0
IsPart s = All IsFileChar s × (contains_byte s at_sign ≡ false)

IsPart-of :
    (p : ℕ → Bool) (s : Text)
    → ((c : ℕ) → p c ≡ true → IsFileChar c × (c ≢ at_sign))
    → all p s ≡ true
    → IsPart s
IsPart-of p [] sound h = (tt, refl)
IsPart-of p (c ∷ s) sound h =
    let rest = IsPart-of p s sound (ground arith) in
    let here = sound c (ground arith) in ((here.0, rest.0), ground (arith, here.1, rest.1))

-- What sanitizeDomainFilename accepts, and what it makes of it.
abbrev pub IsFileDomain : Text → Type 0
IsFileDomain d =
    All IsFileChar d
    × (contains_byte d at_sign ≡ false)
    × (1 ≤ length d)
    × (d ≢ dot_text)
    × (d ≢ codes "..")

-- A file name of one zone.
abbrev pub zone_filename : Text → Text → Text
zone_filename d view = if length view == 0 then d else d ++ (at_sign ∷ view)

domain_file :
    (domain d : Text)
    → sanitize_domain_filename domain ≡ some d
    → (d ≡ normalize_name domain) × IsFileDomain (normalize_name domain)
unfolding sanitize_domain_filename
domain_file domain d h =
    let n = normalize_name domain in
    let part = IsPart-of is_domain_filename_char n domain_char (ground arith) in
    (
      ground arith,
      (
        part.0,
        part.1,
        ground arith,
        ground (arith, text_beq_iff n dot_text),
        ground (arith, text_beq_iff n (codes "..")),
      ),
    )

view-IsPart : (view : Text) → is_valid_view_name view ≡ true → IsPart view
unfolding is_valid_view_name
view-IsPart view h = IsPart-of (allows view_name_char_class) view view_char (ground arith)

-- A file name that is accepted is that of the normalized domain, with `@` and the view behind it if
-- there is one. Both are made of a to z, 0 to 9, `.`, `-` and `_`, so no separator of directories
-- and no other `@` is in the name; the domain is not empty and neither `.` nor `..`.
pub sanitize_zone_filename-IsFileDomain :
    (domain view f : Text)
    → sanitize_zone_filename domain view ≡ some f
    → (f ≡ zone_filename (normalize_name domain) view)
      × IsFileDomain (normalize_name domain)
      × All IsFileChar view
      × (contains_byte view at_sign ≡ false)
unfolding sanitize_zone_filename
sanitize_zone_filename-IsFileDomain domain [] f h =
    elim (Option-cases (sanitize_domain_filename domain)) [
      | inl bad ↦ absurd (ground arith)
      | inr (d, good) ↦
          let (named, fine) = domain_file domain d good in (ground arith, fine, tt, refl)
    ]
sanitize_zone_filename-IsFileDomain domain (c ∷ view) f h =
    elim (Option-cases (sanitize_domain_filename domain)) [
      | inl bad ↦ absurd (ground arith)
      | inr (d, good) ↦
          let (named, fine) = domain_file domain d good in
          let (chars, no_at) = view-IsPart (c ∷ view) (ground arith) in
          (ground arith, fine, chars, no_at)
    ]

drop_behind : (d : Text) (c : ℕ) (view : Text) → drop (suc (length d)) (d ++ (c ∷ view)) ≡ view
drop_behind [] c view = refl
drop_behind (b ∷ d) c view = drop_behind d c view

split-zone_filename :
    (d view : Text)
    → contains_byte d at_sign ≡ false
    → contains_byte view at_sign ≡ false
    → split_zone_key (zone_filename d view) ≡ (d, view)
unfolding split_zone_key
split-zone_filename d [] no_at h = ground (arith, last_index_absent d at_sign no_at)
split-zone_filename d (c ∷ view) no_at h =
    let e : length d + 1 ≡ suc (length d) = omega arith in
    ground (
      arith,
      last_index-append d (c ∷ view) at_sign h,
      take-length-append d (at_sign ∷ c ∷ view),
      ap (λ k. drop k (d ++ (at_sign ∷ c ∷ view))) e,
      drop_behind d at_sign (c ∷ view),
    )

-- The name of a zone's file, read as a key, gives back the normalized domain and the view that it
-- was made of: ListZones looks for each zone where PutZone put it.
pub split_zone_key-sanitize_zone_filename :
    (domain view f : Text)
    → sanitize_zone_filename domain view ≡ some f
    → split_zone_key f ≡ (normalize_name domain, view)
split_zone_key-sanitize_zone_filename domain view f h =
    let (named, fine, chars, no_at) = sanitize_zone_filename-IsFileDomain domain view f h in
    ap split_zone_key named ∙ split-zone_filename (normalize_name domain) view fine.1 no_at

-- Two zones have the same file only if their normalized domains and their views are equal.
pub sanitize_zone_filename-inj :
    (domain domain' view view' f : Text)
    → sanitize_zone_filename domain view ≡ some f
    → sanitize_zone_filename domain' view' ≡ some f
    → (normalize_name domain ≡ normalize_name domain') × (view ≡ view')
sanitize_zone_filename-inj domain domain' view view' f h h' =
    let e =
      sym (split_zone_key-sanitize_zone_filename domain view f h)
      ∙ split_zone_key-sanitize_zone_filename domain' view' f h' in
    (ap (λ p. p.0) e, ap (λ p. p.1) e)
