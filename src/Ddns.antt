-- ===== src/Ddns.antt =====
-- Dynamic updates (internal/dnsserver/update.go) over the store of DDNSStoreProvider (deps.go). The
-- check of the signature is the DNS library's, and stands in the request; the times and the texts
-- of errors in the statistics are left out.
pub mod Store
pub mod Outcome
pub mod Named
pub mod Frame
pub mod Upsert
pub mod OnFiles
use domudns.Prelude.{
  ℕ, ◌+◌, Bool, true, false, not, ◌||◌, ◌&&◌, List, [], ◌∷◌, ◌++◌, length, ◌==◌, Option, none, some,
  text_beq, text_eq, if◌then◌else◌,
}
use domudns.Prelude.Int.{ℤ, pos}
use domudns.Assoc.{insert}
use domudns.Text.{
  Text, codes, dot, dot_text, has_suffix, to_lower, trim_suffix, normalize_name, join,
}
use domudns.Net.{Ip}
use domudns.Mdns.{
  Mdns, Msg, Rr, Rdata, Question, type_any, class_inet, class_none, class_any, rcode_success,
  rcode_format_error, rcode_server_failure, rcode_refused,
}
use domudns.Dns.Record.{Record, RecordType, type_text}
use domudns.Dns.Zone.{Zone}
use domudns.Ddns.Store.{DdnsStore}

abbrev pub rcode_not_auth : ℕ
rcode_not_auth = 9

abbrev pub rcode_not_zone : ℕ
rcode_not_zone = 10

-- store.TSIGKey
pub record TsigKey : Type 0 where
  pub name : Text
  pub algorithm : Text
  pub secret : Text

pub data Reason : Type 0 where
  tsig_failed without_tsig server_failure : Reason
  not_zone : Text → Reason

pub record DdnsStats : Type 0 where
  pub total_updates : ℕ
  pub total_failed : ℕ
  pub last_rejected_reason : Option Reason

pub record DdnsHandler : Type 0 where
  pub secrets : List (Text × Text)
  pub algorithms : List (Text × Text)
  pub stats : DdnsStats

-- The message, the key name and algorithm of its TSIG record if there is one, and whether the
-- library found the signature wrong.
pub record Request : Type 0 where
  pub msg : Msg
  pub tsig : Option (Text × Text)
  pub tsig_error : Bool

-- The answer, and the key name and algorithm that it is signed with.
pub record Response : Type 0 where
  pub msg : Msg
  pub signed : Option (Text × Text)

unfoldable pub tsig_algorithm_uri : Text → Text
tsig_algorithm_uri algorithm =
    let a = to_lower algorithm in
    if text_beq a (codes "hmac-sha256") || text_beq a (codes "hmac_sha256")
    then codes "hmac-sha256."
    else if text_beq a (codes "hmac-sha512") || text_beq a (codes "hmac_sha512")
    then codes "hmac-sha512."
    else if text_beq a (codes "hmac-sha1") || text_beq a (codes "hmac_sha1")
    then codes "hmac-sha1."
    else codes "hmac-sha256."

abbrev pub with_dot : Text → Text
with_dot name = if has_suffix name dot_text then name else name ++ dot_text

unfoldable pub secrets_of : List TsigKey → List (Text × Text) → List (Text × Text)
secrets_of [] m = m
secrets_of (k ∷ ks) m = secrets_of ks (insert k.name k.secret m)

unfoldable pub algorithms_of : List TsigKey → List (Text × Text) → List (Text × Text)
algorithms_of [] m = m
algorithms_of (k ∷ ks) m = algorithms_of ks (insert k.name (tsig_algorithm_uri k.algorithm) m)

-- What the keyUpdater gets.
unfoldable pub tsig_secrets_of : List TsigKey → List (Text × Text) → List (Text × Text)
tsig_secrets_of [] m = m
tsig_secrets_of (k ∷ ks) m = tsig_secrets_of ks (insert (with_dot k.name) k.secret m)

unfoldable pub update_keys : DdnsHandler → List TsigKey → DdnsHandler × List (Text × Text)
update_keys h keys = (
  record h { secrets = secrets_of keys []; algorithms = algorithms_of keys [] },
  tsig_secrets_of keys [],
)

unfoldable pub get_secrets : List (Text × Text) → List (Text × Text) → List (Text × Text)
get_secrets [] cp = cp
get_secrets ((k, v) ∷ secrets) cp = get_secrets secrets (insert (with_dot k) v cp)

unfoldable pub record_rejection : DdnsHandler → Reason → DdnsHandler
record_rejection h reason =
    let stats : DdnsStats = record {
      total_updates = h.stats.total_updates;
      total_failed = h.stats.total_failed + 1;
      last_rejected_reason = some reason;
    } in
    record h { stats = stats }

abbrev pub record_success : DdnsHandler → DdnsHandler
record_success h =
    let stats : DdnsStats = record {
      total_updates = h.stats.total_updates + 1;
      total_failed = h.stats.total_failed;
      last_rejected_reason = h.stats.last_rejected_reason;
    } in
    record h { stats = stats }

-- Empty at the apex of the zone
unfoldable pub normalize_rr_name : Text → Text → Text
normalize_rr_name fqdn zone_domain =
    let name = normalize_name fqdn in
    let zone = normalize_name zone_domain in
    if text_beq name zone then [] else trim_suffix name (dot ∷ zone)

abbrev pub at_name : Text
at_name = codes "@"

abbrev pub new_record : Text → ℕ → RecordType → Text → Record
new_record name ttl rtype value = record {
  id = 0;
  name = name;
  rtype = rtype;
  ttl = pos ttl;
  value = value;
  priority = pos 0;
  weight = pos 0;
  port = pos 0;
  tag = [];
}

-- A record's name, with that of the apex as the empty one
abbrev pub rec_name : Record → Text
rec_name r = if text_beq r.name at_name then [] else r.name

-- What makes room for a record that is added.
abbrev pub is_replaced : Record → Record → Bool
is_replaced r ex = text_beq ex.name r.name && text_beq (type_text ex.rtype) (type_text r.rtype)

module _ (lib : Mdns) (ip_text : Ip → Text) where
  -- The type and the value of the data; `none` for a type that is not supported.
  unfoldable pub typed_value : Rdata → Option (RecordType × Text)
  typed_value (Rdata.a ip) = some (RecordType.a, ip_text ip)
  typed_value (Rdata.aaaa ip) = some (RecordType.aaaa, ip_text ip)
  typed_value (Rdata.cname target) = some (RecordType.cname, trim_suffix target dot_text)
  typed_value (Rdata.txt parts) = some (RecordType.txt, join parts 32)
  typed_value (Rdata.ptr target) = some (RecordType.ptr, trim_suffix target dot_text)
  typed_value _ = none

  -- `none` is the nil record.
  unfoldable pub rr_to_record : Rr → Text → Option Record
  rr_to_record rr zone_domain =
      let n = normalize_rr_name rr.hdr.name zone_domain in
      let name = if length n == 0 then at_name else n in
      let ttl = if rr.hdr.ttl == 0 then 60 else rr.hdr.ttl in
      elim (typed_value rr.rdata) [
        | none ↦ none
        | some (rtype, value) ↦ some (new_record name ttl rtype value)
      ]

  unfoldable pub rr_value : Rr → Text
  rr_value rr = elim (typed_value rr.rdata) [ none ↦ [] | some (rtype, value) ↦ value ]

  unfoldable pub is_matching : Rr → Text → Record → Bool
  is_matching rr zone_domain r =
      text_beq (rec_name r) (normalize_rr_name rr.hdr.name zone_domain)
      && (text_beq (type_text r.rtype) (lib.type_to_string rr.hdr.rrtype)
          && ((length (rr_value rr) == 0) || text_beq r.value (rr_value rr)))

  unfoldable pub is_named : Rr → Text → Record → Bool
  is_named rr zone_domain r =
      let filter_type =
        if rr.hdr.rrtype == type_any then [] else lib.type_to_string rr.hdr.rrtype in
      text_beq (rec_name r) (normalize_rr_name rr.hdr.name zone_domain)
      && ((length filter_type == 0) || text_beq (type_text r.rtype) filter_type)

  module _ (S : Type 0) (store : DdnsStore S) where
    -- The loops that delete the records of a list; a deletion that fails is passed over.
    unfoldable pub delete_selected : (Record → Bool) → Text → List Record → S → S
    delete_selected p domain [] s = s
    delete_selected p domain (r ∷ rs) s =
        delete_selected p domain rs
          (if p r then elim (store.delete_record s domain r.id) [ none ↦ s | some s' ↦ s' ] else s)

    -- The store afterwards, and whether there was no error.
    unfoldable pub delete_where : (Record → Bool) → S → Text → S × Bool
    delete_where p s domain = elim (store.get_records s domain) [
      | none ↦ (s, false)
      | some rs ↦ (delete_selected p domain rs s, true)
    ]

    unfoldable pub put_or_fail : S → Text → Record → S × Bool
    put_or_fail s domain r = elim (store.put_record s domain r) [
      | none ↦ (s, false)
      | some s' ↦ (s', true)
    ]

    unfoldable pub upsert : S → Text → Record → S × Bool
    upsert s domain r = elim (store.get_records s domain) [
      | none ↦ put_or_fail s domain r
      | some rs ↦ put_or_fail (delete_selected (is_replaced r) domain rs s) domain r
    ]

    unfoldable pub apply_update : S → Text → Rr → S × Bool
    apply_update s domain rr =
        if rr.hdr.class == class_inet
        then elim (rr_to_record rr domain) [ none ↦ (s, true) | some r ↦ upsert s domain r ]
        else if rr.hdr.class == class_none
        then delete_where (is_matching rr domain) s domain
        else if rr.hdr.class == class_any
        then delete_where (is_named rr domain) s domain
        else (s, true)

    -- The loop over the update section, which the first error ends.
    unfoldable pub apply_updates : S → Text → List Rr → S × Bool
    apply_updates s domain [] = (s, true)
    apply_updates s domain (rr ∷ rrs) =
        let (s', fine) = apply_update s domain rr in
        let rest = apply_updates s' domain rrs in if fine then rest else (s', false)

    abbrev pub respond : Request → ℕ → Response
    respond r rcode = record { msg = lib.set_rcode r.msg rcode; signed = r.tsig }

    -- The handler and the store afterwards, the answer, and whether the zones are loaded again.
    pub record Handled : Type 0 where
      pub handler : DdnsHandler
      pub state : S
      pub response : Response
      pub reload : Bool

    unfoldable pub process_zone : DdnsHandler → S → Request → Text → Handled
    process_zone h s r zone_name =
        let zone_domain = trim_suffix zone_name dot_text in
        elim (store.get_zone s zone_domain) [
          | none ↦ record {
            handler = record_rejection h (not_zone zone_domain);
            state = s;
            response = respond r rcode_not_zone;
            reload = false;
          }
          | some zone ↦
              let (s', fine) = apply_updates s zone.domain r.msg.ns in
              if fine
              then record {
                handler = record_success h;
                state = s';
                response = respond r rcode_success;
                reload = true;
              }
              else record {
                handler = record_rejection h server_failure;
                state = s';
                response = respond r rcode_server_failure;
                reload = false;
              }
        ]

    unfoldable pub process_update : DdnsHandler → S → Request → Handled
    process_update h s r = elim (r.msg.question) [
      | [] ↦ record {
        handler = h;
        state = s;
        response = respond r rcode_format_error;
        reload = false;
      }
      | q ∷ qs ↦ process_zone h s r q.name
    ]

    unfoldable pub handle : DdnsHandler → S → Request → Handled
    handle h s r =
        if length h.secrets == 0
        then record { handler = h; state = s; response = respond r rcode_refused; reload = false }
        else if r.tsig_error
        then record {
          handler = record_rejection h tsig_failed;
          state = s;
          response = respond r rcode_not_auth;
          reload = false;
        }
        else elim (r.tsig) [
          | none ↦ record {
            handler = record_rejection h without_tsig;
            state = s;
            response = respond r rcode_not_auth;
            reload = false;
          }
          | some t ↦ process_update h s r
        ]
