-- ===== src/Dns/Reverse/Names.antt =====
-- The names of reverse lookups: which address they stand for, and whether the validator of records
-- takes them.
use domudns.Prelude.{
  ℕ, ◌+◌, ◌*◌, ◌^◌, ◌<◌, ◌≡◌, ◌≢◌, refl, sym, ap, ◌∙◌, subst, Bool, true, false, not, ◌&&◌, List,
  [], ◌∷◌, ◌++◌, append_assoc, Option, none, some, ◌==◌, text_beq, arith, length, all_below,
  all_below_sound,
}
use mathlib.Core.List.{reverse}
use domudns.Text.{Text, codes, dot, join, split, contains_byte, has_suffix}
use domudns.Text.Parts.{split_at_sep}
use domudns.Text.Affix.{has_suffix-append_long}
use domudns.Net.{v4, v6, NetParsers}
use domudns.Dns.CharClass.{is_valid_label_char}
use domudns.Dns.Label.{apex, is_valid_relative_record_name, is_valid_fqdn, is_valid_label}
use domudns.Dns.Validator.Records.{AcceptedTtl}
use domudns.Dns.Record.{Record, RecordType}
use domudns.Dns.Uri.{Url}
use domudns.Dns.Validator.{
  digits_value, is_valid_ipv4_octet, is_valid_ipv6_nibble, validate_type, validate_record,
}
use domudns.Dns.Reverse.{be_bytes, decimal_byte, ipv6_nibbles, octet, reverse_zone, ptr_name}

decimal_byte-digits : (k : ℕ) → k < 256 → digits_value 0 (decimal_byte k) ≡ some k
unfolding decimal_byte digits_value
decimal_byte-digits k h = ground arith

decimal_byte-inj : (j k : ℕ) → j < 256 → k < 256 → decimal_byte j ≡ decimal_byte k → j ≡ k
decimal_byte-inj j k hj hk e =
    cc (decimal_byte-digits j hj, decimal_byte-digits k hk, ap (digits_value 0) e)

decimal_byte-lacks_dot : (k : ℕ) → contains_byte (decimal_byte k) dot ≡ false
unfolding decimal_byte
decimal_byte-lacks_dot k = ground arith

octet-lt : (n i : ℕ) → octet n i < 256
octet-lt n i = omega arith

split-reverse_zone :
    (n : ℕ)
    → split (reverse_zone (v4 n)) dot
      ≡ decimal_byte (octet n 2)
        ∷ decimal_byte (octet n 1)
        ∷ decimal_byte (octet n 0)
        ∷ split (codes "in-addr.arpa") dot
unfolding reverse_zone
split-reverse_zone n =
    let lacks = λ (i : ℕ). decimal_byte-lacks_dot (octet n i) in
    rw (
      split_at_sep (decimal_byte (octet n 2)) _ dot (lacks 2),
      split_at_sep (decimal_byte (octet n 1)) _ dot (lacks 1),
      split_at_sep (decimal_byte (octet n 0)) (codes "in-addr.arpa") dot (lacks 0),
    )

of_octets :
    (n : ℕ) → n < 2 ^ 32 → n ≡ ((octet n 0 * 256 + octet n 1) * 256 + octet n 2) * 256 + octet n 3
of_octets n h = omega arith

cons_inj : {s t : Text} {ps qs : List Text} → s ∷ ps ≡ t ∷ qs → (s ≡ t) × (ps ≡ qs)
cons_inj e = (cc, cc)

octet-inj :
    (m n i : ℕ) → decimal_byte (octet m i) ≡ decimal_byte (octet n i) → octet m i ≡ octet n i
octet-inj m n i = decimal_byte-inj (octet m i) (octet n i) (octet-lt m i) (octet-lt n i)

-- Two 32-bit IPv4 addresses with the same reverse zone and the same PTR name are the same address.
pub ptr_name-reverse_zone-inj :
    (m n : ℕ)
    → m < 2 ^ 32
    → n < 2 ^ 32
    → ptr_name (v4 m) ≡ ptr_name (v4 n)
    → reverse_zone (v4 m) ≡ reverse_zone (v4 n)
    → m ≡ n
unfolding ptr_name
ptr_name-reverse_zone-inj m n hm hn same_name same_zone =
    let whole =
      sym (split-reverse_zone m) ∙ (ap (λ s. split s dot) same_zone ∙ split-reverse_zone n) in
    let (e2, rest2) = cons_inj whole in
    let (e1, rest1) = cons_inj rest2 in
    let (e0, rest0) = cons_inj rest1 in
    omega (
      arith,
      of_octets m hm,
      of_octets n hn,
      octet-inj m n 0 e0,
      octet-inj m n 1 e1,
      octet-inj m n 2 e2,
      octet-inj m n 3 same_name,
    )

-- PTR name and reverse zone together are the address's name for reverse lookups: the four octets in
-- decimal under in-addr.arpa, or the 32 nibbles under ip6.arpa, the last first.
pub ptr_name-append-reverse_zone :
    (n : ℕ)
    → (ptr_name (v4 n) ++ (dot ∷ reverse_zone (v4 n))
        ≡ join
            (decimal_byte (octet n 3)
              ∷ decimal_byte (octet n 2)
              ∷ decimal_byte (octet n 1)
              ∷ decimal_byte (octet n 0)
              ∷ [])
            dot
          ++ codes ".in-addr.arpa")
      × (ptr_name (v6 n) ++ (dot ∷ reverse_zone (v6 n))
          ≡ join (reverse (ipv6_nibbles (be_bytes 16 n))) dot ++ codes ".ip6.arpa")
unfolding ptr_name reverse_zone join be_bytes ipv6_nibbles
ptr_name-append-reverse_zone n = (simp append_assoc, refl)

ptr_v6-not_nibble : (n : ℕ) → is_valid_ipv6_nibble (ptr_name (v6 n)) ≡ false
unfolding ptr_name join be_bytes ipv6_nibbles is_valid_ipv6_nibble
ptr_v6-not_nibble n = refl

ptr_v6-ne-apex : (n : ℕ) → text_beq (ptr_name (v6 n)) apex ≡ false
unfolding ptr_name join be_bytes ipv6_nibbles
ptr_v6-ne-apex n = ground arith

reverse_zone_v6-arpa : (n : ℕ) → has_suffix (reverse_zone (v6 n)) (codes "ip6.arpa") ≡ true
unfolding reverse_zone
reverse_zone_v6-arpa n =
    has_suffix-append_long _ (codes ".ip6.arpa") (codes "ip6.arpa") (omega arith)
    ∙ (unfold has_suffix in refl)

reverse_zone_v4-arpa : (n : ℕ) → has_suffix (reverse_zone (v4 n)) (codes "ip6.arpa") ≡ false
reverse_zone_v4-arpa n =
    let front =
      decimal_byte (octet n 2)
      ++ (dot ∷ (decimal_byte (octet n 1) ++ (dot ∷ decimal_byte (octet n 0)))) in
    let whole : reverse_zone (v4 n) ≡ front ++ codes ".in-addr.arpa" =
      unfold reverse_zone in simp append_assoc in
    rw
      (whole, has_suffix-append_long front (codes ".in-addr.arpa") (codes "ip6.arpa") (omega arith))
      (unfold has_suffix in refl)

ptr_v4 : (n : ℕ) → ptr_name (v4 n) ≡ decimal_byte (octet n 3)
unfolding ptr_name
ptr_v4 n = refl

octet_name_test : ℕ → Bool
octet_name_test k =
    is_valid_ipv4_octet (decimal_byte k)
    && (is_valid_relative_record_name (decimal_byte k) && not (length (decimal_byte k) == 0))

octet_name_table : all_below 256 octet_name_test ≡ true
unfolding all_below octet_name_test decimal_byte is_valid_ipv4_octet is_valid_relative_record_name
    is_valid_label is_valid_label_char split
octet_name_table = refl

octet_name :
    (s : Text) (k : ℕ)
    → k < 256
    → s ≡ decimal_byte k
    → (is_valid_ipv4_octet s ≡ true)
      × (is_valid_relative_record_name s ≡ true)
      × ((length s == 0) ≡ false)
unfolding octet_name_test
octet_name s k h e =
    let test = all_below_sound 256 octet_name_test k octet_name_table h in rw e (ground arith)

module _ (net : NetParsers) (parse_url : Text → Option Url) where
  ptr_needs_nibble :
      (r : Record) (zone : Text)
      → has_suffix zone (codes "ip6.arpa") ≡ true
      → text_beq r.name apex ≡ false
      → is_valid_ipv6_nibble r.name ≡ false
      → validate_type net parse_url RecordType.ptr r zone ≢ none
  unfolding validate_type
  ptr_needs_nibble r zone p q s h = ground arith

  ptr_refused :
      (r : Record) (zone : Text) (n : ℕ)
      → r.rtype ≡ RecordType.ptr
      → r.name ≡ ptr_name (v6 n)
      → has_suffix zone (codes "ip6.arpa") ≡ true
      → validate_type net parse_url r.rtype r zone ≢ none
  ptr_refused r zone n t e suffix =
      subst (λ u. validate_type net parse_url u r zone ≢ none) (sym t)
        (ptr_needs_nibble r zone suffix
          (subst (λ s. text_beq s apex ≡ false) (sym e) (ptr_v6-ne-apex n))
          (subst (λ s. is_valid_ipv6_nibble s ≡ false) (sym e) (ptr_v6-not_nibble n)))

  -- For an IPv6 address the PTR name is refused by the validator of records in the address's own
  -- reverse zone, whatever else the record holds.
  pub ptr_v6_refused :
      (n : ℕ) (r : Record)
      → r.rtype ≡ RecordType.ptr
      → r.name ≡ ptr_name (v6 n)
      → validate_record net parse_url r (reverse_zone (v6 n)) ≢ none
  unfolding validate_record
  ptr_v6_refused n r t e h =
      ptr_refused r (reverse_zone (v6 n)) n t e (reverse_zone_v6-arpa n) (ground arith)

  ptr_in_v4_zone :
      (r : Record) (zone : Text)
      → has_suffix zone (codes "ip6.arpa") ≡ false
      → is_valid_ipv4_octet r.name ≡ true
      → net.parse_ip r.value ≡ none
      → is_valid_fqdn r.value ≡ true
      → validate_type net parse_url RecordType.ptr r zone ≡ none
  unfolding validate_type
  ptr_in_v4_zone r zone s o p f = ground arith

  accepted :
      (r : Record) (zone : Text)
      → (length r.name == 0) ≡ false
      → is_valid_relative_record_name r.name ≡ true
      → AcceptedTtl r.ttl
      → validate_type net parse_url r.rtype r zone ≡ none
      → validate_record net parse_url r zone ≡ none
  unfolding validate_record
  accepted r zone l v (m, at_m, range) h = ground (arith, at_m)

  -- For an IPv4 address a PTR record of its PTR name is accepted by ValidateRecord in the
  -- address's own reverse zone, if its TTL is one that is accepted and its value is a host name and
  -- no address.
  pub ptr_v4_accepted :
      (n : ℕ) (r : Record)
      → r.rtype ≡ RecordType.ptr
      → r.name ≡ ptr_name (v4 n)
      → AcceptedTtl r.ttl
      → net.parse_ip r.value ≡ none
      → is_valid_fqdn r.value ≡ true
      → validate_record net parse_url r (reverse_zone (v4 n)) ≡ none
  ptr_v4_accepted n r t e ttl p f =
      let zone = reverse_zone (v4 n) in
      let (octet_ok, name_ok, some_name) =
        octet_name r.name (octet n 3) (octet-lt n 3) (e ∙ ptr_v4 n) in
      accepted r zone some_name name_ok ttl (
        subst (λ u. validate_type net parse_url u r zone ≡ none) (sym t)
          (ptr_in_v4_zone r zone (reverse_zone_v4-arpa n) octet_ok p f))
