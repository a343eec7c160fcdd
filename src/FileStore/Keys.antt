-- ===== src/FileStore/Keys.antt =====
-- The store as a map from domain and view to zones: what writing and removing a file do to it.
use domudns.Prelude.{
  ◌≡◌, refl, sym, ap, ◌∙◌, Bool, true, false, ◌&&◌, ◌++◌, length, ◌==◌, Option, Option-cases, none,
  some, inl, inr, text_beq, text_beq_iff, text_eq, Bool-cases, arith, if◌then◌else◌,
}
use domudns.Assoc.{lookup, lookup-insert, lookup-erase, insert, erase}
use domudns.Text.{Text, trim_suffix, normalize_name}
use domudns.Text.Affix.{trim_suffix-append}
use domudns.Dns.Zone.{Zone}
use domudns.FileStore.{
  Content, stored, Disk, Files, ok, err, invalid_key, zone_not_found, json, zone_in,
  sanitize_domain_filename, sanitize_zone_filename, load_zone_view_file, get_zone_view, write_file,
  save_zone_file, put_zone, remove_file, delete_zone_view,
}
use domudns.FileStore.Names.{sanitize_zone_filename-inj}

-- Whether two pairs of a domain and a view stand for one zone.
abbrev pub same_key : Text → Text → Text → Text → Bool
same_key d v e w = text_beq (normalize_name d) (normalize_name e) && text_beq v w

sanitize_domain_normal :
    (d e : Text)
    → normalize_name d ≡ normalize_name e
    → sanitize_domain_filename d ≡ sanitize_domain_filename e
unfolding sanitize_domain_filename
sanitize_domain_normal d e same = ground (arith, same)

sanitize_normal :
    (d e v : Text)
    → normalize_name d ≡ normalize_name e
    → sanitize_zone_filename d v ≡ sanitize_zone_filename e v
unfolding sanitize_zone_filename
sanitize_normal d e v same = ground (arith, sanitize_domain_normal d e same)

pub json_cancel : (f g : Text) → f ++ json ≡ g ++ json → f ≡ g
json_cancel f g e =
    sym (trim_suffix-append f json) ∙ ap (λ p. trim_suffix p json) e ∙ trim_suffix-append g json

same_key-sanitize :
    (d v e w : Text)
    → same_key d v e w ≡ true
    → sanitize_zone_filename d v ≡ sanitize_zone_filename e w
same_key-sanitize d v e w h =
    let views : v ≡ w = ground (arith, text_beq_iff v w) in
    let domains : normalize_name d ≡ normalize_name e =
      ground (arith, text_beq_iff (normalize_name d) (normalize_name e)) in
    sanitize_normal d e v domains ∙ ap (sanitize_zone_filename e) views

pub load_same :
    (files : Files) (d v e w : Text)
    → same_key d v e w ≡ true
    → load_zone_view_file files d v ≡ load_zone_view_file files e w
unfolding load_zone_view_file
load_same files d v e w h = ground (arith, same_key-sanitize d v e w h)

path_differs :
    (d v e w f g : Text)
    → sanitize_zone_filename d v ≡ some f
    → sanitize_zone_filename e w ≡ some g
    → same_key d v e w ≡ false
    → text_beq (f ++ json) (g ++ json) ≡ false
path_differs d v e w f g hf hg other = elim (Bool-cases (text_beq (f ++ json) (g ++ json))) [
  | inr differ ↦ differ
  | inl same ↦
      let paths : f ++ json ≡ g ++ json = ground (arith, text_beq_iff (f ++ json) (g ++ json)) in
      let named = json_cancel f g paths in
      let keys = sanitize_zone_filename-inj d e v w f hf (hg ∙ ap some (sym named)) in
      absurd
        (ground (arith, keys, text_beq_iff (normalize_name d) (normalize_name e), text_beq_iff v w))
]

pub load_some :
    (files : Files) (d v f : Text)
    → sanitize_zone_filename d v ≡ some f
    → load_zone_view_file files d v ≡ zone_in (lookup (f ++ json) files)
unfolding load_zone_view_file
load_some files d v f h = rw h refl

pub load_none :
    (files : Files) (d v : Text)
    → sanitize_zone_filename d v ≡ none
    → load_zone_view_file files d v ≡ err invalid_key
unfolding load_zone_view_file
load_none files d v h = rw h refl

-- A file's content is another one; the other files are as they were.
abbrev Changed : Text → Option Content → Files → Files → Type 0
Changed path c files files' =
    (p : Text) → lookup p files' ≡ (if text_beq path p then c else lookup p files)

load-Changed :
    (files files' : Files) (c : Option Content) (d v f e w : Text)
    → sanitize_zone_filename d v ≡ some f
    → Changed (f ++ json) c files files'
    → load_zone_view_file files' e w
      ≡ (if same_key d v e w then zone_in c else load_zone_view_file files e w)
load-Changed files files' c d v f e w hf change = elim (Bool-cases (same_key d v e w)) [
  | inl same ↦
      let path : text_beq (f ++ json) (f ++ json) ≡ true =
        ground (arith, text_beq_iff (f ++ json) (f ++ json)) in
      rw same (
        load_some files' e w f (sym (same_key-sanitize d v e w same) ∙ hf)
        ∙ ap zone_in (change (f ++ json) ∙ rw path refl))
  | inr other ↦ rw other (elim (Option-cases (sanitize_zone_filename e w)) [
    | inl bad ↦ load_none files' e w bad ∙ sym (load_none files e w bad)
    | inr (g, hg) ↦
        load_some files' e w g hg
        ∙ ap zone_in (change (g ++ json) ∙ rw (path_differs d v e w f g hf hg other) refl)
        ∙ sym (load_some files e w g hg)
  ])
]

-- What a save has written, and where.
pub save_zone_file-parts :
    (disk : Disk) (files files' : Files) (z : Zone)
    → save_zone_file disk files z ≡ ok files'
    → (f : Text) × (sanitize_zone_filename z.domain z.view ≡ some f)
      × (files' ≡ insert (f ++ json) (stored z) files)
unfolding save_zone_file write_file
save_zone_file-parts disk files files' z h =
    elim (Option-cases (sanitize_zone_filename z.domain z.view)) [
      | inl bad ↦ absurd (ground arith)
      | inr (f, hf) ↦ (f, hf, ground arith)
    ]

pub save_zone_file-load :
    (disk : Disk) (files files' : Files) (z : Zone) (e w : Text)
    → save_zone_file disk files z ≡ ok files'
    → load_zone_view_file files' e w ≡ (
        if same_key z.domain z.view e w
        then zone_in (some (stored z))
        else load_zone_view_file files e w)
save_zone_file-load disk files files' z e w h =
    let (f, hf, written) = save_zone_file-parts disk files files' z h in
    load-Changed files files' (some (stored z)) z.domain z.view f e w hf
      (λ p. ap (lookup p) written ∙ lookup-insert (f ++ json) p (stored z) files)

-- After a zone is put, its domain in any spelling and its view find it as it was given; every other
-- zone is found, or not found, as before.
pub put_zone-get_zone_view :
    (disk : Disk) (files files' : Files) (z : Zone) (e w : Text)
    → put_zone disk files z ≡ ok files'
    → get_zone_view files' e w
      ≡ (if same_key z.domain z.view e w then ok z else get_zone_view files e w)
unfolding put_zone
put_zone-get_zone_view disk files files' z e w h = elim (Bool-cases (length z.domain == 0)) [
  | inl empty ↦ absurd (ground arith)
  | inr named ↦
      let whole : zone_in (some (stored z)) ≡ ok z = unfold zone_in in rw named refl in
      save_zone_file-load disk files files' z e w (ground arith)
      ∙ ap (λ r. if same_key z.domain z.view e w then r else get_zone_view files e w) whole
]

-- After a view's zone is deleted, no spelling of its domain finds it; every other zone is found, or
-- not found, as before.
pub delete_zone_view-get_zone_view :
    (disk : Disk) (files files' : Files) (d v e w : Text)
    → delete_zone_view disk files d v ≡ ok files'
    → get_zone_view files' e w
      ≡ (if same_key d v e w then err zone_not_found else get_zone_view files e w)
unfolding delete_zone_view remove_file zone_in
delete_zone_view-get_zone_view disk files files' d v e w h =
    elim (Option-cases (sanitize_zone_filename d v)) [
      | inl bad ↦ absurd (ground arith)
      | inr (f, hf) ↦
          let path = f ++ json in
          load-Changed files files' none d v f e w hf (λ p.
            elim (Option-cases (lookup path files)) [
              | inl absent ↦ ground (arith, text_beq_iff path p)
              | inr (c, there) ↦
                  let gone : files' ≡ erase path files = ground arith in
                  ap (lookup p) gone ∙ lookup-erase path p files
            ])
    ]
