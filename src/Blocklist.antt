-- ===== src/Blocklist.antt =====
-- The block list manager (internal/dnsserver/blocklist.go): the names of each source, and the flat
-- sets that are rebuilt from them. A set of names is a map to `Unit`. The regular expressions of
-- the `regexp` package are a parameter `R` with its compiler and its matcher.
pub mod Flat
pub mod Sources
pub mod Updates
use domudns.Prelude.{
  ℕ, ◌+◌, ◌-◌, Bool, true, false, not, ◌&&◌, ◌||◌, List, [], ◌∷◌, ◌++◌, any, length, take, drop,
  Option, none, some, ltb, ◌==◌, text_beq, text_eq, nat_eq, ◌>>=◌, if◌then◌else◌,
}
use domudns.Assoc.{lookup, insert, has_key}
use domudns.Text.{Text, codes, dot, has_prefix, has_suffix, to_lower, contains_byte, normalize_name}
use domudns.Net.{Ip, v4, v6, IpNet, NetParsers, nets_contain}

abbrev pub DomainSet : Type 0
DomainSet = List (Text × Unit {0})

pub record UrlDomainEntry : Type 0 where
  pub category : Text
  pub domains : DomainSet

-- store.URLDomainSet
pub record UrlDomainSet : Type 0 where
  pub url_id : ℕ
  pub category : Text
  pub domains : List Text

pub record BlocklistManager (R : Type 0) : Type 0 where
  pub uncat_domains : DomainSet
  pub cat_domains : List (Text × DomainSet)
  pub url_sets : List (ℕ × UrlDomainEntry)
  pub manual_domains : DomainSet
  pub allowed_domains : DomainSet
  pub wildcards : List Text
  pub regexps : List R
  pub whitelist : List IpNet

-- what loadBlocklistSources fetches
pub record BlocklistSources : Type 0 where
  pub url_sets : List UrlDomainSet
  pub manual_list : List Text
  pub allowed_list : List Text
  pub whitelist_cidrs : List Text
  pub wildcard_patterns : List Text
  pub regexp_patterns : List Text

-- The answers of the provider; `none` is an error. Only the patterns may fail without consequence.
pub record Provider : Type 0 where
  pub get_url_sets : Option (List UrlDomainSet)
  pub get_manual : Option (List Text)
  pub get_allowed : Option (List Text)
  pub get_whitelist : Option (List Text)
  pub get_patterns : Option (List Text × List Text)

abbrev pub new_blocklist_manager : {R : Type 0} → BlocklistManager R
new_blocklist_manager = record {
  uncat_domains = [];
  cat_domains = [];
  url_sets = [];
  manual_domains = [];
  allowed_domains = [];
  wildcards = [];
  regexps = [];
  whitelist = [];
}

-- `for d := range domains { set[d] = struct{}{} }`
unfoldable pub add_domains : DomainSet → DomainSet → DomainSet
add_domains [] set = set
add_domains ((d, u) ∷ domains) set = add_domains domains (insert d tt set)

-- `catDomains[category]`, empty where the map has no such key
abbrev pub cat_set : Text → List (Text × DomainSet) → DomainSet
cat_set category cats = elim (lookup category cats) [ none ↦ [] | some set ↦ set ]

-- The loop over `urlSets`, with the uncategorised set and the sets of the categories.
unfoldable pub add_url_sets :
    List (ℕ × UrlDomainEntry)
    → DomainSet
    → List (Text × DomainSet)
    → DomainSet × List (Text × DomainSet)
add_url_sets [] uncat cats = (uncat, cats)
add_url_sets ((id, e) ∷ entries) uncat cats =
    let uncat' = if length e.category == 0 then add_domains e.domains uncat else uncat in
    let cats' =
      if length e.category == 0
      then cats
      else insert e.category (add_domains e.domains (cat_set e.category cats)) cats in
    add_url_sets entries uncat' cats'

unfoldable pub rebuild_flat_maps : {R : Type 0} → BlocklistManager R → BlocklistManager R
rebuild_flat_maps b =
    let flat = add_url_sets b.url_sets [] [] in
    record b { uncat_domains = add_domains b.manual_domains flat.0; cat_domains = flat.1 }

unfoldable pub build_domain_set : List Text → DomainSet → DomainSet
build_domain_set [] set = set
build_domain_set (d ∷ list) set = build_domain_set list (insert (normalize_name d) tt set)

unfoldable pub build_filtered_domain_set : List Text → DomainSet → DomainSet → DomainSet
build_filtered_domain_set [] allowed set = set
build_filtered_domain_set (d ∷ list) allowed set =
    let norm = normalize_name d in
    build_filtered_domain_set list allowed
      (if has_key norm allowed then set else insert norm tt set)

unfoldable pub build_filtered_url_sets :
    List UrlDomainSet → DomainSet → List (ℕ × UrlDomainEntry) → List (ℕ × UrlDomainEntry)
build_filtered_url_sets [] allowed sets = sets
build_filtered_url_sets (us ∷ url_sets) allowed sets = build_filtered_url_sets url_sets allowed (
    insert us.url_id
      (record { category = us.category; domains = build_filtered_domain_set us.domains allowed [] })
      sets)

unfoldable pub parse_wildcards : List Text → List Text
parse_wildcards [] = []
parse_wildcards (p ∷ patterns) =
    let rest = parse_wildcards patterns in
    if has_prefix p (codes "*.") then to_lower (drop 2 p) ∷ rest else rest

abbrev pub slash : Text
slash = codes "/"

-- the pattern without its delimiters
abbrev pub undelimited : Text → Text
undelimited p =
    if has_prefix p slash && (has_suffix p slash && ltb 2 (length p))
    then take (length p - 2) (drop 1 p)
    else p

unfoldable pub compile_regexps : {R : Type 0} → (Text → Option R) → List Text → List R
compile_regexps compile [] = []
compile_regexps compile (p ∷ patterns) =
    let rest = compile_regexps compile patterns in
    elim (compile (undelimited p)) [ none ↦ rest | some re ↦ re ∷ rest ]

module _ (net : NetParsers) where
  -- the entry with the suffix of a single address; `none` is a text that is no address
  unfoldable pub with_suffix : Text → Option Text
  with_suffix cidr = if contains_byte cidr b'/' then some cidr else elim (net.parse_ip cidr) [
    | none ↦ none
    | some ip ↦ some (cidr ++ (elim ip [ v4 n ↦ codes "/32" | v6 n ↦ codes "/128" ]))
  ]

  unfoldable pub parse_cidr_list : List Text → List IpNet
  unfolding with_suffix
  parse_cidr_list [] = []
  parse_cidr_list (cidr ∷ cidrs) =
      let rest = parse_cidr_list cidrs in
      elim (with_suffix cidr) [
        | none ↦ rest
        | some entry ↦ elim (net.parse_cidr entry) [ none ↦ rest | some n ↦ n ∷ rest ]
      ]

abbrev pub patterns_or_none : Option (List Text × List Text) → List Text × List Text
patterns_or_none none = ([], [])
patterns_or_none (some p) = p

unfoldable pub load_blocklist_sources : Provider → Option BlocklistSources
load_blocklist_sources p = do
  url_sets ← p.get_url_sets
  manual_list ← p.get_manual
  allowed_list ← p.get_allowed
  whitelist_cidrs ← p.get_whitelist
  some (record {
    url_sets = url_sets;
    manual_list = manual_list;
    allowed_list = allowed_list;
    whitelist_cidrs = whitelist_cidrs;
    wildcard_patterns = (patterns_or_none p.get_patterns).0;
    regexp_patterns = (patterns_or_none p.get_patterns).1;
  })

module _ {R : Type 0} (net : NetParsers) (compile : Text → Option R) where
  -- The new state of Load for what was fetched.
  unfoldable pub load_sources : BlocklistSources → BlocklistManager R → BlocklistManager R
  load_sources src b =
      let allowed = build_domain_set src.allowed_list [] in
      rebuild_flat_maps (record b {
        url_sets = build_filtered_url_sets src.url_sets allowed [];
        manual_domains = build_filtered_domain_set src.manual_list allowed [];
        allowed_domains = allowed;
        whitelist = parse_cidr_list net src.whitelist_cidrs;
        wildcards = parse_wildcards src.wildcard_patterns;
        regexps = compile_regexps compile src.regexp_patterns;
      })

  -- Load; the Boolean tells whether it succeeded.
  unfoldable pub load : BlocklistManager R → Provider → BlocklistManager R × Bool
  load b p = elim (load_blocklist_sources p) [
    | none ↦ (b, false)
    | some src ↦ (load_sources src b, true)
  ]

  unfoldable pub reload_whitelist : BlocklistManager R → Provider → BlocklistManager R × Bool
  reload_whitelist b p = elim (p.get_whitelist) [
    | none ↦ (b, false)
    | some cidrs ↦ (record b { whitelist = parse_cidr_list net cidrs }, true)
  ]

-- `normalized == suffix || strings.HasSuffix(normalized, "."+suffix)`
abbrev pub under_suffix : Text → Text → Bool
under_suffix normalized suffix = text_beq normalized suffix || has_suffix normalized (dot ∷ suffix)

abbrev pub count_domains : List (Text × DomainSet) → ℕ
count_domains [] = 0
count_domains ((c, set) ∷ cats) = length set + count_domains cats

module _ {R : Type 0} where
  unfoldable pub apply_url_domains : BlocklistManager R → ℕ → Text → List Text → BlocklistManager R
  apply_url_domains b url_id category domains =
      let entry : UrlDomainEntry = record {
        category = category;
        domains = build_filtered_domain_set domains b.allowed_domains [];
      } in
      rebuild_flat_maps (record b { url_sets = insert url_id entry b.url_sets })

  unfoldable pub is_blocked : (R → Text → Bool) → BlocklistManager R → Text → List Text → Bool
  is_blocked match_string b domain enabled_cats =
      let normalized = normalize_name domain in
      (has_key normalized b.uncat_domains
        || any (λ cat. has_key normalized (cat_set cat b.cat_domains)) enabled_cats)
      || (any (under_suffix normalized) b.wildcards
          || any (λ re. match_string re normalized) b.regexps)

  unfoldable pub is_whitelisted : BlocklistManager R → Ip → Bool
  is_whitelisted b ip = nets_contain b.whitelist ip

  -- the blocked names, the wildcards, the regular expressions and the networks
  unfoldable pub stats : BlocklistManager R → ℕ × (ℕ × (ℕ × ℕ))
  stats b = (
    length b.uncat_domains + count_domains b.cat_domains,
    (length b.wildcards, (length b.regexps, length b.whitelist)),
  )
