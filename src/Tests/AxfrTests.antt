-- ===== src/Tests/AxfrTests.antt =====
-- A transfer of the zone of the samples.
use domudns.Prelude.{◌≡◌, refl, true, List, [], ◌∷◌, ◌++◌, All}
use domudns.Net.{v4, octets, IpNet, net4}
use domudns.Mdns.{Msg, Rr}
use domudns.Dns.Zone.{Date}
use domudns.Axfr.{serve_axfr, handle}
use domudns.Axfr.Frames.{IsSoaRr, Carried, all_answers, IsChunk, serve_axfr-frames, handle_unlisted}
use domudns.Tests.Samples.{lib, parse_ip, blank, zone, manager}

abbrev today : Date
today = record { year = 2024; month = 5; day = 17 }

abbrev lan : List IpNet
lan = net4 (octets 192 168 0 0) 16 ∷ []

serve_axfr-frames_example :
    (soa_rr : Rr) × (rrs : List Rr) × IsSoaRr lib today zone soa_rr
    × Carried lib parse_ip zone zone.records rrs
    × (all_answers (serve_axfr lib parse_ip today blank zone) ≡ soa_rr ∷ (rrs ++ (soa_rr ∷ [])))
    × All (λ (m : Msg). IsChunk m.answer) (serve_axfr lib parse_ip today blank zone)
serve_axfr-frames_example = serve_axfr-frames lib parse_ip today blank zone

handle_unlisted_example :
    all_answers (handle lib parse_ip today manager lan true (v4 (octets 9 9 9 9)) blank) ≡ []
handle_unlisted_example =
    handle_unlisted lib parse_ip today manager lan true (v4 (octets 9 9 9 9)) blank refl
