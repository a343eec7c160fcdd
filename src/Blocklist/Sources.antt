-- ===== src/Blocklist/Sources.antt =====
-- Whom the block list blocks: the verdict in terms of the sources, and the names that are exempt.
use domudns.Prelude.{
  ℕ, ◌≡◌, refl, sym, ap, ◌∙◌, Bool, true, false, ◌&&◌, ◌||◌, List, [], ◌∷◌, any, length, ◌==◌,
  text_beq, text_eq, nat_eq, arith,
}
use domudns.Assoc.{lookup, has_key}
use domudns.Text.{Text, normalize_name}
use domudns.Blocklist.{
  BlocklistManager, UrlDomainEntry, add_url_sets, cat_set, is_blocked, rebuild_flat_maps,
  under_suffix,
}
use domudns.Blocklist.Flat.{
  any-any, any-or, any-ext, has_key-add_domains, has_key-category, has_key-uncategorised, lists_in,
  lists_plain,
}

-- One source blocks a name for a client: it holds the name, and it has no category or one that is
-- enabled for the client.
abbrev pub blocks : Text → List Text → UrlDomainEntry → Bool
blocks d cats e =
    has_key d e.domains && ((length e.category == 0) || any (λ c. text_beq e.category c) cats)

-- A wildcard or a regular expression matches the name.
abbrev pub pattern_hit : {R : Type 0} → (R → Text → Bool) → BlocklistManager R → Text → Bool
pattern_hit match_string b d =
    any (under_suffix d) b.wildcards || any (λ re. match_string re d) b.regexps

-- Some source holds the name.
abbrev pub listed : {R : Type 0} → BlocklistManager R → Text → Bool
listed b d = any (λ p. has_key d p.1.domains) b.url_sets || has_key d b.manual_domains

-- The flat sets are those of the sources, and no source holds an exempt name.
abbrev pub IsBlocklist : {R : Type 0} → BlocklistManager R → Type 0
IsBlocklist b =
    (rebuild_flat_maps b ≡ b)
    × ((d : Text) → has_key d b.allowed_domains ≡ true → listed b d ≡ false)

blocks_either :
    (d : Text) (e : UrlDomainEntry) (cats : List Text)
    → (lists_plain d e || any (λ c. lists_in d c e) cats) ≡ blocks d cats e
blocks_either d e [] = ground arith
blocks_either d e (c ∷ cats) = ground (arith, blocks_either d e cats)

enabled_hit :
    (d : Text) (cats : List Text) (es : List (ℕ × UrlDomainEntry))
    → (any (λ p. lists_plain d p.1) es || any (λ c. any (λ p. lists_in d c p.1) es) cats)
      ≡ any (λ p. blocks d cats p.1) es
enabled_hit d cats es =
    ap (λ b. any (λ p. lists_plain d p.1) es || b) (any-any (λ c p. lists_in d c p.1) cats es)
    ∙ (sym (any-or (λ p. lists_plain d p.1) (λ p. any (λ c. lists_in d c p.1) cats) es)
        ∙ any-ext _ _ es (λ p. blocks_either d p.1 cats))

module _ {R : Type 0} (match_string : R → Text → Bool) where
  flat_hit :
      (b : BlocklistManager R) (d : Text) (cats : List Text)
      → (has_key d (rebuild_flat_maps b).uncat_domains
          || any (λ c. has_key d (cat_set c (rebuild_flat_maps b).cat_domains)) cats)
        ≡ (has_key d b.manual_domains || any (λ p. blocks d cats p.1) b.url_sets)
  unfolding rebuild_flat_maps has_key lookup
  flat_hit b d cats =
      let flat = add_url_sets b.url_sets [] [] in
      let in_cats =
        any-ext (λ c. has_key d (cat_set c flat.1)) (λ c. any (λ p. lists_in d c p.1) b.url_sets)
          cats (λ c. has_key-category d c b.url_sets [] []) in
      ground (
        arith,
        in_cats,
        enabled_hit d cats b.url_sets,
        has_key-add_domains d b.manual_domains flat.0,
        has_key-uncategorised d b.url_sets [] [],
      )

  -- In a well-formed block list a name is blocked for a client exactly when, in normal form, it was
  -- added by hand, or a URL without a category or of a category enabled for the client lists it, or
  -- a wildcard or a regular expression matches it.
  pub is_blocked-blocks :
      (b : BlocklistManager R) (domain : Text) (cats : List Text)
      → IsBlocklist b
      → is_blocked match_string b domain cats ≡ (
          (has_key (normalize_name domain) b.manual_domains
            || any (λ p. blocks (normalize_name domain) cats p.1) b.url_sets)
          || pattern_hit match_string b (normalize_name domain))
  unfolding is_blocked
  is_blocked-blocks b domain cats (flat, exempt) =
      let d = normalize_name domain in
      ap (λ h. h || pattern_hit match_string b d)
        (ap (λ m. has_key d m.uncat_domains || any (λ c. has_key d (cat_set c m.cat_domains)) cats)
            (sym flat)
          ∙ flat_hit b d cats)

  not_listed :
      (d : Text) (cats : List Text) (es : List (ℕ × UrlDomainEntry))
      → any (λ p. has_key d p.1.domains) es ≡ false
      → any (λ p. blocks d cats p.1) es ≡ false
  not_listed d cats [] h = refl
  not_listed d cats ((id, e) ∷ es) h = ground (arith, not_listed d cats es)

  -- In a well-formed block list a name that is exempt is blocked only by a wildcard or a regular
  -- expression, whatever the sources list: the exemption does not reach the patterns.
  pub is_blocked-allowed :
      (b : BlocklistManager R) (domain : Text) (cats : List Text)
      → IsBlocklist b
      → has_key (normalize_name domain) b.allowed_domains ≡ true
      → is_blocked match_string b domain cats ≡ pattern_hit match_string b (normalize_name domain)
  is_blocked-allowed b domain cats (flat, exempt) allowed =
      let d = normalize_name domain in
      ground (
        arith,
        is_blocked-blocks b domain cats (flat, exempt),
        exempt d allowed,
        not_listed d cats b.url_sets,
      )
