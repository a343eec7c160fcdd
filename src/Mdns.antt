-- ===== src/Mdns.antt =====
-- The messages of github.com/miekg/dns, as far as the server reads and writes them, and what it
-- relies on of the library's functions. The codes are those of the DNS protocol.
use domudns.Prelude.{ℕ, ◌≡◌, Bool, List, []}
use domudns.Text.{Text}
use domudns.Net.{Ip}

abbrev pub type_a : ℕ
type_a = 1

abbrev pub type_ns : ℕ
type_ns = 2

abbrev pub type_cname : ℕ
type_cname = 5

abbrev pub type_soa : ℕ
type_soa = 6

abbrev pub type_ptr : ℕ
type_ptr = 12

abbrev pub type_mx : ℕ
type_mx = 15

abbrev pub type_txt : ℕ
type_txt = 16

abbrev pub type_aaaa : ℕ
type_aaaa = 28

abbrev pub type_srv : ℕ
type_srv = 33

abbrev pub type_dname : ℕ
type_dname = 39

abbrev pub type_opt : ℕ
type_opt = 41

abbrev pub type_any : ℕ
type_any = 255

abbrev pub type_caa : ℕ
type_caa = 257

abbrev pub class_inet : ℕ
class_inet = 1

abbrev pub class_none : ℕ
class_none = 254

abbrev pub class_any : ℕ
class_any = 255

abbrev pub rcode_success : ℕ
rcode_success = 0

abbrev pub rcode_format_error : ℕ
rcode_format_error = 1

abbrev pub rcode_server_failure : ℕ
rcode_server_failure = 2

abbrev pub rcode_name_error : ℕ
rcode_name_error = 3

abbrev pub rcode_refused : ℕ
rcode_refused = 5

-- The data behind a header; `opaque` is that of a type that the server does not look into.
pub data Rdata : Type 0 where
  a aaaa : Ip → Rdata
  cname ns ptr dname : Text → Rdata
  mx : ℕ → Text → Rdata
  txt : List Text → Rdata
  srv : ℕ → ℕ → ℕ → Text → Rdata
  caa : ℕ → Text → Text → Rdata
  soa : Text → Text → ℕ → ℕ → ℕ → ℕ → ℕ → Rdata
  opaque : Text → Rdata

pub record Header : Type 0 where
  pub name : Text
  pub rrtype : ℕ
  pub class : ℕ
  pub ttl : ℕ

pub record Rr : Type 0 where
  pub hdr : Header
  pub rdata : Rdata

pub record Question : Type 0 where
  pub name : Text
  pub qtype : ℕ

pub record Msg : Type 0 where
  pub id : ℕ
  pub opcode : ℕ
  pub rcode : ℕ
  pub authoritative : Bool
  pub authenticated_data : Bool
  pub checking_disabled : Bool
  pub question : List Question
  pub answer : List Rr
  pub ns : List Rr
  pub extra : List Rr

-- `set_reply` and `set_rcode` are the methods that fill a new message in for a request.
pub record Mdns : Type 0 where
  pub type_to_string : ℕ → Text
  pub fqdn : Text → Text
  pub canonical_name : Text → Text
  pub set_reply : Msg → Msg
  pub set_rcode : Msg → ℕ → Msg
  pub set_question : Text → ℕ → Msg
  pub set_reply-answer : (r : Msg) → (set_reply r).answer ≡ []
  pub set_reply-rcode : (r : Msg) → (set_reply r).rcode ≡ rcode_success
  pub set_rcode-rcode : (r : Msg) (c : ℕ) → (set_rcode r c).rcode ≡ c
  pub set_rcode-answer : (r : Msg) (c : ℕ) → (set_rcode r c).answer ≡ []
