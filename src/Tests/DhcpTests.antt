-- ===== src/Tests/DhcpTests.antt =====
-- Two leases, of which one is tracked already, over a store that counts its records.
use domudns.Prelude.{ℕ, ◌+◌, ◌≡◌, refl, true, false, List, [], ◌∷◌, some, text_eq}
use domudns.Prelude.Int.{pos}
use domudns.Assoc.{lookup, has_key}
use domudns.Text.{Text, codes, lower_byte}
use domudns.Dns.Zone.{Date}
use domudns.Dhcp.{
  DhcpStore, Lease, SyncConfig, Tracked, TrackedLease, apply_lease_diff, sanitize_hostname,
  lower_runes, has_double, collapse_hyphens, cut_domain, before_dot, replace_double,
  trim_left_hyphens, trim_right_hyphens, before_trimmed, limit_label,
}
use domudns.Dhcp.Hostnames.{IsHostname, sanitize_hostname-IsHostname}
use domudns.Dhcp.Passes.{apply_lease_diff-leased, apply_lease_diff-stable}
use domudns.Tests.Samples.{parse_ip}

abbrev store : DhcpStore ℕ
store = record {
  has_zone = λ s d. true;
  put_zone = λ s z. some s;
  put_record = λ s d r. some (s + 1, s + 1);
  delete_record = λ s d id. some s;
}

abbrev cfg : SyncConfig
cfg = record { zone = codes "lan"; reverse_zone = []; ttl = pos 300; auto_create = true }

abbrev today : Date
today = record { year = 2024; month = 5; day = 17 }

abbrev laptop : Lease
laptop = record { mac = []; ip = codes "192.168.1.7"; hostname = codes "laptop" }

abbrev tracked : TrackedLease
tracked = record {
  hostname = codes "laptop";
  ip = codes "192.168.1.7";
  mac = [];
  a_record_id = 1;
  ptr_record_id = 2;
}

abbrev state : Tracked
state = (codes "192.168.1.7", tracked) ∷ []

abbrev leases : List (Text × Lease)
leases = (codes "192.168.1.7", laptop) ∷ []

odd_name : sanitize_hostname (codes "-My..host") ≡ codes "my"
unfolding sanitize_hostname cut_domain before_dot collapse_hyphens has_double replace_double
    trim_left_hyphens trim_right_hyphens before_trimmed limit_label lower_byte lower_runes
odd_name = refl

-- the Kelvin sign, and an o with two dots
odd_letters : sanitize_hostname (226 ∷ 132 ∷ 170 ∷ 195 ∷ 182 ∷ codes "k") ≡ codes "k-k"
unfolding sanitize_hostname cut_domain before_dot collapse_hyphens has_double replace_double
    trim_left_hyphens trim_right_hyphens before_trimmed limit_label lower_byte lower_runes
odd_letters = refl

sanitize_hostname-IsHostname_example : IsHostname (sanitize_hostname (codes "--My_PC.lan"))
sanitize_hostname-IsHostname_example = sanitize_hostname-IsHostname (codes "--My_PC.lan")

apply_lease_diff-leased_example :
    has_key
      (codes "192.168.1.7")
      (apply_lease_diff parse_ip today ℕ store cfg 2 state [] (codes "rev")).state
    ≡ false
unfolding has_key
apply_lease_diff-leased_example =
    apply_lease_diff-leased parse_ip today ℕ store cfg 2 state [] (codes "rev")
      (codes "192.168.1.7") refl

apply_lease_diff-stable_example :
    apply_lease_diff parse_ip today ℕ store cfg 2 state leases (codes "rev")
    ≡ record { store = 2; state = state; changed = false }
unfolding has_key lookup
apply_lease_diff-stable_example =
    apply_lease_diff-stable parse_ip today ℕ store cfg 2 state leases (codes "rev") (refl, tt)
      ((tracked, refl, refl), tt)
