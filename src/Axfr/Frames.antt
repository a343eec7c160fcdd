-- ===== src/Axfr/Frames.antt =====
-- What is sent: the whole zone between two SOA records, in messages of bounded size, and nothing at
-- all to a client that is not listed.
use domudns.Prelude.{
  ℕ, zero, suc, ◌==◌, ◌||◌, if◌then◌else◌, text_beq, text_beq_iff, ◌%◌, ◌^◌, ◌≤◌, ◌≡◌, ◌≢◌, ◌⊎◌,
  inl, inr, refl, ap, ◌∙◌, none, some, Option-cases, Bool-cases, Bool, true, false, ◌&&◌, List, [],
  ◌∷◌, ◌++◌, length, take, drop, length-take, length-drop, take-append-drop, All, Option, arith,
}
use domudns.Net.{Ip, IpNet}
use domudns.Text.{Text, codes}
use domudns.Dns.Record.{Record, RecordType}
use domudns.Dns.Label.{apex}
use domudns.Zones.Rr.{record_to_rr}
use domudns.Mdns.{Mdns, Msg, Rr, Rdata, type_soa, Question, rcode_format_error, rcode_refused}
use domudns.Dns.Zone.{Date, Soa, Zone, default_soa, ensure_soa}
use domudns.Zones.{ZoneManager}
use domudns.Axfr.{
  axfr_chunk_size, is_allowed, is_forward_record, soa_of, sub_of, chunks, build_soa_rr, zone_rrs,
  transferred, chunk_message, chunk_messages, serve_axfr, handle, handle_question,
  rcode_not_implemented,
}

abbrev joined : List (List Rr) → List Rr
joined [] = []
joined (rrs ∷ parts) = rrs ++ joined parts

-- The answers of all messages, one behind the other.
abbrev pub all_answers : List Msg → List Rr
all_answers [] = []
all_answers (m ∷ ms) = m.answer ++ all_answers ms

-- A part holds something, and no more than the limit.
abbrev pub IsChunk : List Rr → Type 0
IsChunk rrs = (1 ≤ length rrs) × (length rrs ≤ axfr_chunk_size)

joined-chunks : (n : ℕ) (rrs : List Rr) → length rrs ≤ n → joined (chunks n rrs) ≡ rrs
unfolding chunks
joined-chunks zero [] h = refl
joined-chunks zero (rr ∷ rrs) h = absurd (omega arith)
joined-chunks (suc n) [] h = refl
joined-chunks (suc n) (rr ∷ rrs) h =
    let rest : length (drop axfr_chunk_size (rr ∷ rrs)) ≤ n =
      omega (arith, length-drop axfr_chunk_size (rr ∷ rrs)) in
    ap (λ l. take axfr_chunk_size (rr ∷ rrs) ++ l)
      (joined-chunks n (drop axfr_chunk_size (rr ∷ rrs)) rest)
    ∙ take-append-drop axfr_chunk_size (rr ∷ rrs)

chunks-IsChunk : (n : ℕ) (rrs : List Rr) → All IsChunk (chunks n rrs)
unfolding chunks
chunks-IsChunk zero rrs = tt
chunks-IsChunk (suc n) [] = tt
chunks-IsChunk (suc n) (rr ∷ rrs) =
    let size = length-take axfr_chunk_size (rr ∷ rrs) in
    ((omega (arith, size), omega (arith, size)), chunks-IsChunk n (drop axfr_chunk_size (rr ∷ rrs)))

-- The fields of a SOA on the wire
abbrev pub soa_data : Mdns → Soa → Rdata
soa_data lib soa =
    Rdata.soa (lib.fqdn soa.mname) (lib.fqdn soa.rname) soa.serial (soa.refresh % 2 ^ 32)
      (soa.retry % 2 ^ 32) (soa.expire % 2 ^ 32) (soa.minimum % 2 ^ 32)

-- The stored SOA, or, where there is none, the default one of the day
abbrev pub stored_or_default : Date → Zone → Soa
stored_or_default today zone = elim (zone.soa) [
  | some soa ↦ soa
  | none ↦ default_soa today zone.domain
]

-- The SOA record of a zone, under its name
abbrev pub IsSoaRr : Mdns → Date → Zone → Rr → Type 0
IsSoaRr lib today zone rr =
    (rr.hdr.name ≡ lib.fqdn zone.domain)
    × (rr.hdr.rrtype ≡ type_soa)
    × (rr.rdata ≡ soa_data lib (stored_or_default today zone))

-- The name below the zone that a record is transferred under: "@" for an empty one.
abbrev pub IsNameOf : Record → Text → Type 0
IsNameOf r sub = ((r.name ≡ []) × (sub ≡ codes "@")) ⊎ ((r.name ≢ []) × (sub ≡ r.name))

-- `Carried rs rrs`: the resource records `rrs` are those of the records `rs`, in their order, without
-- the FWD records and those that have no form on the wire.
pub data Carried (lib : Mdns) (parse_ip : Text → Option Ip) (zone : Zone)
    : List Record → List Rr → Type 0 where
  done : Carried lib parse_ip zone [] []
  forwarding :
      {rs : List Record} {rrs : List Rr} (r : Record)
      → r.rtype ≡ RecordType.fwd
      → Carried lib parse_ip zone rs rrs
      → Carried lib parse_ip zone (r ∷ rs) rrs
  formless :
      {rs : List Record} {rrs : List Rr} (r : Record) (sub : Text)
      → IsNameOf r sub
      → record_to_rr lib parse_ip zone r sub ≡ none
      → Carried lib parse_ip zone rs rrs
      → Carried lib parse_ip zone (r ∷ rs) rrs
  carried :
      {rs : List Record} {rrs : List Rr} (r : Record) (sub : Text) (rr : Rr)
      → r.rtype ≢ RecordType.fwd
      → IsNameOf r sub
      → record_to_rr lib parse_ip zone r sub ≡ some rr
      → Carried lib parse_ip zone rs rrs
      → Carried lib parse_ip zone (r ∷ rs) (rr ∷ rrs)

forward_cases :
    (t : RecordType)
    → ((t ≡ RecordType.fwd) × (is_forward_record t ≡ true))
      ⊎ ((t ≢ RecordType.fwd) × (is_forward_record t ≡ false))
forward_cases RecordType.fwd = inl (refl, refl)
forward_cases _ = inr (cc, refl)

module _ (lib : Mdns) (parse_ip : Text → Option Ip) (today : Date) where
  sub_of-IsNameOf : (r : Record) → IsNameOf r (sub_of lib parse_ip today r)
  sub_of-IsNameOf r = named r.name
    where
      named :
          (name : Text)
          → ((name ≡ [])
              × ((if (length name == 0) || text_beq name apex then apex else name) ≡ codes "@"))
            ⊎ ((name ≢ [])
                × ((if (length name == 0) || text_beq name apex then apex else name) ≡ name))
      named [] = inl (refl, refl)
      named (c ∷ s) = inr (cc, ground (arith, text_beq_iff (c ∷ s) apex))

  zone_rrs-Carried :
      (zone : Zone) (rs : List Record)
      → Carried lib parse_ip zone rs (zone_rrs lib parse_ip today zone rs)
  unfolding zone_rrs
  zone_rrs-Carried zone [] = done
  zone_rrs-Carried zone (r ∷ rs) =
      let rest = zone_rrs-Carried zone rs in
      elim (forward_cases r.rtype) [
        | inl (is_fwd, skipped) ↦ rw skipped (forwarding r is_fwd rest)
        | inr (not_fwd, kept) ↦
            elim (Option-cases (record_to_rr lib parse_ip zone r (sub_of lib parse_ip today r))) [
              | inl no_form ↦
                  rw (kept, no_form)
                    (formless r (sub_of lib parse_ip today r) (sub_of-IsNameOf r) no_form rest)
              | inr (rr, form) ↦
                  rw (kept, form)
                    (carried r (sub_of lib parse_ip today r) rr not_fwd (sub_of-IsNameOf r) form
                      rest)
            ]
      ]

  soa_of_lem :
      (zone : Zone) (o : Option Soa)
      → soa_of lib parse_ip today (record zone { soa = o })
        ≡ stored_or_default today (record zone { soa = o })
  unfolding ensure_soa
  soa_of_lem zone (some soa) = refl
  soa_of_lem zone none = elim (Bool-cases (length zone.domain == 0)) [
    | inl empty ↦ rw (soa_of, empty) refl
    | inr named ↦ rw (soa_of, named) refl
  ]

  build_soa_rr-IsSoaRr :
      (zone : Zone) → IsSoaRr lib today zone (build_soa_rr lib parse_ip today zone)
  unfolding build_soa_rr
  build_soa_rr-IsSoaRr zone = (refl, refl, ap (soa_data lib) (soa_of_lem zone zone.soa))

  all_answers-chunk_messages :
      (r : Msg) (zone : Zone) (parts : List (List Rr))
      → all_answers (chunk_messages lib parse_ip today r zone parts) ≡ joined parts
  unfolding chunk_message
  all_answers-chunk_messages r zone [] = refl
  all_answers-chunk_messages r zone (rrs ∷ parts) =
      ap (λ l. rrs ++ l) (all_answers-chunk_messages r zone parts)

  chunk_messages-IsChunk :
      (r : Msg) (zone : Zone) (parts : List (List Rr))
      → All IsChunk parts
      → All (λ (m : Msg). IsChunk m.answer) (chunk_messages lib parse_ip today r zone parts)
  unfolding chunk_message
  chunk_messages-IsChunk r zone [] fine = tt
  chunk_messages-IsChunk r zone (rrs ∷ parts) fine =
      (fine.0, chunk_messages-IsChunk r zone parts fine.1)

  -- The messages of a transfer carry, one behind the other, the SOA record of the zone (the stored SOA,
  -- or the default one of the day), every record of the zone that has a form on the wire and is no FWD
  -- record, in the order of the zone, and the SOA record again; no message is empty and none has more than 100 records.
  pub serve_axfr-frames :
      (r : Msg) (zone : Zone)
      → (soa_rr : Rr) × (rrs : List Rr) × IsSoaRr lib today zone soa_rr
        × Carried lib parse_ip zone zone.records rrs
        × (all_answers (serve_axfr lib parse_ip today r zone) ≡ soa_rr ∷ (rrs ++ (soa_rr ∷ [])))
        × All (λ (m : Msg). IsChunk m.answer) (serve_axfr lib parse_ip today r zone)
  unfolding serve_axfr transferred
  serve_axfr-frames r zone =
      let rrs = transferred lib parse_ip today zone in
      let parts = chunks (length rrs) rrs in
      (
        build_soa_rr lib parse_ip today zone,
        zone_rrs lib parse_ip today zone zone.records,
        build_soa_rr-IsSoaRr zone,
        zone_rrs-Carried zone zone.records,
        all_answers-chunk_messages r zone parts ∙ joined-chunks (length rrs) rrs (omega arith),
        chunk_messages-IsChunk r zone parts (chunks-IsChunk (length rrs) rrs),
      )

  no_answers : (r : Msg) (c : ℕ) → all_answers (lib.set_rcode r c ∷ []) ≡ []
  no_answers r c = ap (λ l. l ++ []) (lib.set_rcode-answer r c)

  unlisted_question :
      (zones : ZoneManager) (allowed : List IpNet) (is_tcp : Bool) (client_ip : Ip) (r : Msg)
      (qs : List Question)
      → (is_tcp && is_allowed allowed client_ip) ≡ false
      → all_answers (handle_question lib parse_ip today zones allowed is_tcp client_ip r qs) ≡ []
  unfolding handle_question
  unlisted_question zones allowed is_tcp client_ip r [] unlisted = no_answers r rcode_format_error
  unlisted_question zones allowed false client_ip r (q ∷ qs) unlisted =
      no_answers r rcode_not_implemented
  unlisted_question zones allowed true client_ip r (q ∷ qs) unlisted =
      rw unlisted (no_answers r rcode_refused)

  -- Over UDP, and to a client that is not in the list, no record of any zone is sent.
  pub handle_unlisted :
      (zones : ZoneManager) (allowed : List IpNet) (is_tcp : Bool) (client_ip : Ip) (r : Msg)
      → (is_tcp && is_allowed allowed client_ip) ≡ false
      → all_answers (handle lib parse_ip today zones allowed is_tcp client_ip r) ≡ []
  handle_unlisted zones allowed is_tcp client_ip r unlisted =
      unlisted_question zones allowed is_tcp client_ip r r.question unlisted
