-- ===== src/Forward/Servers.antt =====
-- Who answered: a forwarded message comes from a server of the list, and no answer means that no
-- server gave one.
use domudns.Prelude.{
  ℕ, ◌+◌, ◌%◌, ◌≤◌, ◌<◌, ◌≡◌, ◌⊎◌, inl, inr, sym, ap, subst, List, length, Option, Option-cases,
  some, arith,
}
use domudns.Text.{Text}
use domudns.Mdns.{Msg}
use domudns.Forward.{
  Forwarder, Client, server_at, whole_answer, try_servers, next_index, forward_tracked,
}

-- A place of a list
abbrev pub IsServer : Text → List Text → Type 0
IsServer server servers = (i : ℕ) × (i < length servers) × (server ≡ server_at servers i)

abbrev some_answer : Msg → Text → Option (Msg × Text)
some_answer m server = some (m, server)

same_answer :
    (m resp : Msg) (first server : Text)
    → some_answer m first ≡ some_answer resp server
    → (m ≡ resp) × (first ≡ server)
same_answer m resp first server e = (ground arith, ground arith)

module _ (client : Client) where
  whole_answer-udp :
      (req resp : Msg) (server : Text)
      → whole_answer client req server ≡ some resp
      → client.udp req server ≡ some resp
  unfolding whole_answer
  whole_answer-udp req resp server h = elim (Option-cases (client.udp req server)) [
    | inl none_given ↦ absurd (ground arith)
    | inr (m, given) ↦ ground (arith, given)
  ]

  abbrev pub Gave : Msg → Text → Msg → Type 0
  Gave req server resp = (client.udp req server ≡ some resp) ⊎ (client.tcp req server ≡ some resp)

  given-IsServer :
      (req m resp : Msg) (server : Text) (servers : List Text) (i : ℕ)
      → i < length servers
      → Gave req (server_at servers i) m
      → some_answer m (server_at servers i) ≡ some_answer resp server
      → IsServer server servers × Gave req server resp
  given-IsServer req m resp server servers i bound gave e =
      let (e0, e1) = same_answer m resp (server_at servers i) server e in
      (
        (i, bound, sym e1),
        subst (λ s. Gave req s resp) e1 (subst (Gave req (server_at servers i)) e0 gave),
      )

  -- An answer that is forwarded to the client was given by one of the upstream servers, over UDP or TCP.
  pub forward_tracked-IsServer :
      (f f' : Forwarder) (req resp : Msg) (server : Text)
      → 1 ≤ length f.upstream
      → forward_tracked client f req ≡ (f', some (resp, server))
      → IsServer server f.upstream
        × ((client.udp req server ≡ some resp) ⊎ (client.tcp req server ≡ some resp))
  unfolding forward_tracked try_servers
  forward_tracked-IsServer f f' req resp server some_server h =
      let servers = f.upstream in
      let idx = next_index client f servers in
      let bound : idx < length servers = omega arith in
      let bound' : (idx + 1) % length servers < length servers = omega arith in
      let first = server_at servers idx in
      let second = server_at servers ((idx + 1) % length servers) in
      let tried = ap (λ p. p.1) h in
      elim (Option-cases (whole_answer client req first)) [
        | inr (m, whole) ↦
            given-IsServer req m resp server servers idx bound
              (inl (whole_answer-udp req m first whole)) (ground (arith, tried))
        | inl not_whole ↦ elim (Option-cases (client.tcp req first)) [
          | inr (m, given) ↦
              given-IsServer req m resp server servers idx bound (inr given) (ground (arith, tried))
          | inl not_given ↦ elim (Option-cases (client.udp req second)) [
            | inl nothing ↦ absurd (ground (arith, tried))
            | inr (m, given) ↦
                given-IsServer req m resp server servers ((idx + 1) % length servers) bound'
                  (inl given) (ground (arith, tried))
          ]
        ]
      ]
