-- ===== src/Blocklist/Updates.antt =====
-- The operations that change the block list keep it well formed.
use domudns.Prelude.{
  ℕ, ◌≡◌, refl, ap, Bool, true, false, not, ◌&&◌, ◌||◌, List, [], ◌∷◌, any, ◌==◌, text_beq,
  text_beq_iff, text_eq, nat_eq, Option, none, some, if◌then◌else◌, arith,
}
use domudns.Assoc.{lookup, insert, has_key, lookup-insert, has_key-insert}
use domudns.Text.{Text, normalize_name}
use domudns.Net.{NetParsers}
use domudns.Blocklist.{
  add_domains, add_url_sets, BlocklistManager, BlocklistSources, DomainSet, Provider,
  UrlDomainEntry, UrlDomainSet, apply_url_domains, build_domain_set, build_filtered_domain_set,
  build_filtered_url_sets, load, load_blocklist_sources, load_sources, new_blocklist_manager,
  parse_cidr_list, rebuild_flat_maps, reload_whitelist,
}
use domudns.Blocklist.Sources.{IsBlocklist}

-- The names of a list in normal form.
abbrev pub names : Text → List Text → Bool
names d list = any (λ x. text_beq (normalize_name x) d) list

has_key-build_domain_set :
    (d : Text) (list : List Text) (set : DomainSet)
    → has_key d (build_domain_set list set) ≡ (has_key d set || names d list)
unfolding build_domain_set
has_key-build_domain_set d [] set = ground arith
has_key-build_domain_set d (x ∷ list) set = ground (
  arith,
  has_key-build_domain_set d list (insert (normalize_name x) tt set),
  has_key-insert (normalize_name x) d tt set,
)

pub has_key-build_filtered_domain_set :
    (d : Text) (list : List Text) (allowed set : DomainSet)
    → has_key d (build_filtered_domain_set list allowed set)
      ≡ (has_key d set || (not (has_key d allowed) && names d list))
unfolding build_filtered_domain_set
has_key-build_filtered_domain_set d [] allowed set = ground arith
has_key-build_filtered_domain_set d (x ∷ list) allowed set =
    let norm = normalize_name x in
    let rest = has_key-build_filtered_domain_set d list allowed in
    ground (
      arith,
      rest (if has_key norm allowed then set else insert norm tt set),
      has_key-insert norm d tt set,
      text_beq_iff norm d,
      ap (λ k. has_key k allowed),
    )

-- No entry of the table holds the name.
abbrev none_lists : Text → List (ℕ × UrlDomainEntry) → Bool
none_lists d es = any (λ p. has_key d p.1.domains) es

none_lists-insert :
    (d : Text) (id : ℕ) (e : UrlDomainEntry) (es : List (ℕ × UrlDomainEntry))
    → none_lists d es ≡ false
    → has_key d e.domains ≡ false
    → none_lists d (insert id e es) ≡ false
unfolding insert
none_lists-insert d id e [] h k = ground arith
none_lists-insert d id e ((j, f) ∷ es) h k = ground (arith, none_lists-insert d id e es)

filtered-exempt :
    (d : Text) (list : List Text) (allowed : DomainSet)
    → has_key d allowed ≡ true
    → has_key d (build_filtered_domain_set list allowed []) ≡ false
unfolding has_key
filtered-exempt d list allowed h =
    ground (arith, has_key-build_filtered_domain_set d list allowed [])

none_lists-build :
    (d : Text) (url_sets : List UrlDomainSet) (allowed : DomainSet) (es : List (ℕ × UrlDomainEntry))
    → has_key d allowed ≡ true
    → none_lists d es ≡ false
    → none_lists d (build_filtered_url_sets url_sets allowed es) ≡ false
unfolding build_filtered_url_sets
none_lists-build d [] allowed es h k = k
none_lists-build d (us ∷ url_sets) allowed es h k =
    none_lists-build d url_sets allowed _ h
      (none_lists-insert d us.url_id _ es k (filtered-exempt d us.domains allowed h))

pub new-IsBlocklist : {R : Type 0} → IsBlocklist (new_blocklist_manager {R = R})
unfolding rebuild_flat_maps add_domains add_url_sets has_key
new-IsBlocklist = (refl, λ d h. refl)

module _ {R : Type 0} (net : NetParsers) (compile : Text → Option R) where
  load_sources-IsBlocklist :
      (src : BlocklistSources) (b : BlocklistManager R)
      → IsBlocklist (load_sources net compile src b)
  unfolding load_sources rebuild_flat_maps
  load_sources-IsBlocklist src b = (
    refl,
    λ d h. ground (
      arith,
      none_lists-build d src.url_sets (build_domain_set src.allowed_list []) [] h refl,
      filtered-exempt d src.manual_list (build_domain_set src.allowed_list []) h,
    ),
  )

  loaded :
      (b : BlocklistManager R) (p : Provider) → IsBlocklist b → IsBlocklist (load net compile b p).0
  unfolding load
  loaded b p good =
      elim (load_blocklist_sources p)
        as (λ o.
          let result : BlocklistManager R × Bool = elim o [
            | none ↦ (b, false)
            | some src ↦ (load_sources net compile src b, true)
          ] in
          IsBlocklist result.0) [ none ↦ good | some src ↦ load_sources-IsBlocklist src b ]

  whitelisted :
      (b : BlocklistManager R) (p : Provider)
      → IsBlocklist b
      → IsBlocklist (reload_whitelist net compile b p).0
  unfolding reload_whitelist rebuild_flat_maps
  whitelisted b p (flat, exempt) =
      elim (p.get_whitelist)
        as (λ o.
          let result : BlocklistManager R × Bool = elim o [
            | none ↦ (b, false)
            | some cidrs ↦ (record b { whitelist = parse_cidr_list net cidrs }, true)
          ] in
          IsBlocklist result.0) [
            | none ↦ (flat, exempt)
            | some cidrs ↦ (
              ap {A = BlocklistManager R} (λ m. record m { whitelist = parse_cidr_list net cidrs })
                  flat,
              exempt,
            )
          ]

  applied :
      (b : BlocklistManager R) (id : ℕ) (category : Text) (domains : List Text)
      → IsBlocklist b
      → IsBlocklist (apply_url_domains b id category domains)
  unfolding apply_url_domains rebuild_flat_maps
  applied b id category domains (flat, exempt) = (
    refl,
    λ d h. ground (
      arith,
      exempt d h,
      none_lists-insert d id
          (record {
            category = category;
            domains = build_filtered_domain_set domains b.allowed_domains [];
          })
          b.url_sets,
      filtered-exempt d domains b.allowed_domains h,
    ),
  )

  -- Load, ReloadWhitelist and ApplyURLDomains keep a well-formed block list so, whether the provider
  -- fails or not: the flat sets are those of the sources, and no source holds an exempt name.
  pub load-IsBlocklist :
      (b : BlocklistManager R) (p : Provider) (id : ℕ) (category : Text) (domains : List Text)
      → IsBlocklist b
      → IsBlocklist (load net compile b p).0
        × IsBlocklist (reload_whitelist net compile b p).0
        × IsBlocklist (apply_url_domains b id category domains)
  load-IsBlocklist b p id category domains good =
      (loaded b p good, whitelisted b p good, applied b id category domains good)

-- ApplyURLDomains replaces the set of one URL and touches no other: the new set has the given
-- category and holds the given names in normal form without the exempt ones.
pub apply_url_domains-lookup :
    {R : Type 0} (b : BlocklistManager R) (id : ℕ) (category : Text) (domains : List Text)
    → (entry : UrlDomainEntry) × (lookup id (apply_url_domains b id category domains).url_sets
        ≡ some entry)
      × (entry.category ≡ category)
      × ((d : Text)
          → has_key d entry.domains ≡ (not (has_key d b.allowed_domains) && names d domains))
      × ((j : ℕ)
          → (if id == j then none else lookup j (apply_url_domains b id category domains).url_sets)
            ≡ (if id == j then none else lookup j b.url_sets))
unfolding apply_url_domains rebuild_flat_maps has_key
apply_url_domains-lookup b id category domains =
    let entry : UrlDomainEntry = record {
      category = category;
      domains = build_filtered_domain_set domains b.allowed_domains [];
    } in
    (
      entry,
      ground (arith, lookup-insert id id entry b.url_sets),
      refl,
      λ d. has_key-build_filtered_domain_set d domains b.allowed_domains [],
      λ j. ground (arith, lookup-insert id j entry b.url_sets),
    )
