-- ===== src/Tests/Samples.antt =====
-- The data of the tests: stand-ins for the parsers and for the DNS library, and a small zone.
use domudns.Prelude.{
  ℕ, refl, false, [], ◌∷◌, ◌++◌, Option, none, some, ◌==◌, text_beq, if◌then◌else◌,
}
use domudns.Prelude.Int.{pos}
use domudns.Text.{Text, codes, dot_text, has_suffix, to_lower}
use domudns.Net.{Ip, v4, IpNet, net4, NetParsers, octets}
use domudns.Mdns.{Mdns, Msg, Question, type_a, type_aaaa, type_cname, type_mx, type_txt, type_srv}
use domudns.Dns.Record.{Record, RecordType}
use domudns.Dns.Uri.{Url}
use domudns.Dns.Zone.{Zone}
use domudns.Zones.{ZoneManager}

abbrev pub blank : Msg
blank = record {
  id = 7;
  opcode = 0;
  rcode = 0;
  authoritative = false;
  authenticated_data = false;
  checking_disabled = false;
  question = [];
  answer = [];
  ns = [];
  extra = [];
}

abbrev pub type_name : ℕ → Text
type_name t =
    if t == type_a
    then codes "A"
    else if t == type_aaaa
    then codes "AAAA"
    else if t == type_cname
    then codes "CNAME"
    else if t == type_mx
    then codes "MX"
    else if t == type_txt
    then codes "TXT"
    else if t == type_srv
    then codes "SRV"
    else []

abbrev pub add_dot : Text → Text
add_dot s = if has_suffix s dot_text then s else s ++ dot_text

abbrev pub reply_to : Msg → Msg
reply_to r = record r { rcode = 0; answer = []; ns = []; extra = [] }

abbrev pub lib : Mdns
lib = record {
  type_to_string = type_name;
  fqdn = add_dot;
  canonical_name = λ s. to_lower (add_dot s);
  set_reply = reply_to;
  set_rcode = λ r c. record r { rcode = c; answer = []; ns = []; extra = [] };
  set_question = λ name t. record blank { question = record { name = name; qtype = t } ∷ [] };
  set_reply-answer = λ r. refl;
  set_reply-rcode = λ r. refl;
  set_rcode-rcode = λ r c. refl;
  set_rcode-answer = λ r c. refl;
}

abbrev pub lan_address : Text
lan_address = codes "192.168.1.7"

abbrev pub parse_ip : Text → Option Ip
parse_ip s =
    if text_beq s lan_address
    then some (v4 (octets 192 168 1 7))
    else if text_beq s (codes "127.0.0.1")
    then some (v4 (octets 127 0 0 1))
    else if text_beq s (codes "9.9.9.9")
    then some (v4 (octets 9 9 9 9))
    else none

abbrev pub parse_cidr : Text → Option IpNet
parse_cidr s =
    if text_beq s (codes "192.168.0.0/16")
    then some (net4 (octets 192 168 0 0) 16)
    else if text_beq s (codes "9.9.9.9/32")
    then some (net4 (octets 9 9 9 9) 32)
    else none

abbrev pub net : NetParsers
net = record { parse_ip = parse_ip; parse_cidr = parse_cidr; split_host = λ s. none }

-- Every text is the host of an http URL.
abbrev pub parse_url : Text → Option Url
parse_url s = some (record { scheme = codes "http"; host = s })

abbrev pub record_of : Text → RecordType → Text → Record
record_of name rtype value = record {
  id = 1;
  name = name;
  rtype = rtype;
  ttl = pos 300;
  value = value;
  priority = pos 10;
  weight = pos 0;
  port = pos 0;
  tag = [];
}

abbrev pub www : Record
www = record_of (codes "www") RecordType.a lan_address

abbrev pub any_host : Record
any_host = record_of (codes "*") RecordType.a (codes "9.9.9.9")

abbrev pub shop : Record
shop = record_of (codes "shop") RecordType.cname (codes "www.example.com")

abbrev pub mail : Record
mail = record_of (codes "mail") RecordType.mx (codes "www.example.com")

abbrev pub zone : Zone
zone = record {
  domain = codes "Example.com.";
  view = [];
  ttl = pos 3600;
  ttl_override = pos 0;
  nameservers = [];
  records = www ∷ any_host ∷ shop ∷ mail ∷ [];
  soa = none;
}

abbrev pub manager : ZoneManager
manager = record { zones = (codes "example.com", zone) ∷ []; view_zones = [] }

abbrev pub ask : Text → ℕ → Question
ask name t = record { name = name; qtype = t }
