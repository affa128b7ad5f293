-- ===== src/Router/History.antt =====
-- nf/router/router.c over a whole run: what it forwards, and what it never does.
use klint.Base.{
  ℕ, ◌+◌, ◌%◌, ◌≤◌, ◌<◌, ◌≡◌, refl, ◌≢◌, ◌⊎◌, Bool, true, false, ◌&&◌, Option, none, some, List, [],
  ◌∷◌, ltb, get_or, ◌==◌, if◌then◌else◌, Bool-cases, Option-cases, inl, inr, sym, ◌∙◌, arith,
}
use klint.Base.Options.{◌>>=◌}
use klint.Memory.Words.{load}
use klint.Net.{
  Packet, Output, net_transmit, dst_addr, net_get_ether_header, net_get_ipv4_header,
  update_ether_addrs,
}
use klint.Net.Headers.{is_ipv4}
use klint.Router.{Lpm, Router, net_ipv4_checksum_valid, check, command, route, nf_handle}

-- A command that sends to the device.
abbrev pub Installs : ℕ → ℕ → Packet → Type 0
Installs devices_count device packet =
    (packet.device + 1 ≡ devices_count)
    × (load packet.bytes 4 8 ≤ 32)
    × (load packet.bytes 12 2 ≡ device)

-- One of the packets is such a command.
abbrev pub Installed : ℕ → ℕ → List Packet → Type 0
Installed devices_count device [] = ⊥
Installed devices_count device (packet ∷ packets) =
    Installs devices_count device packet ⊎ Installed devices_count device packets

-- What env/include/structs/lpm.h says of `lpm_set`: a search finds the new value, or what it found.
abbrev pub SetsOne : {T : Type 0} → Lpm T → Type 0
SetsOne {T} api =
    (lpm : T) (key width value k : ℕ) (device : ℕ)
    → api.lpm_search (api.lpm_set lpm key width value).0 k ≡ some device
    → (device ≡ value) ⊎ (api.lpm_search lpm k ≡ some device)

check-short :
    (bytes : List ℕ)
    → 5 ≤ load bytes 14 1 % 16
    → get_or bytes 16 0 < 20
    → get_or bytes 17 0 ≡ 0
    → check bytes 14 ≡ false
unfolding check load net_ipv4_checksum_valid
check-short bytes ihl high low = ground arith

module _ {T : Type 0} (api : Lpm T) where
  unfoldable pub run : Router T → List Packet → Router T
  unfolding nf_handle
  run nf [] = nf
  run nf (packet ∷ packets) = run (nf_handle api nf packet).0 packets

  abbrev pub forwarded : Router T → Packet → Option Output
  forwarded nf packet =
      if is_ipv4 packet.bytes && check packet.bytes 14
      then (api.lpm_search nf.lpm (dst_addr packet.bytes 14) >>= λ device.
          some (net_transmit packet device update_ether_addrs))
      else none

  route-forwarded : (nf : Router T) (packet : Packet) → route api nf packet ≡ forwarded nf packet
  unfolding route net_get_ether_header net_get_ipv4_header
  route-forwarded nf packet = elim (Bool-cases (is_ipv4 packet.bytes)) [
    | inr other ↦ rw other refl
    | inl ipv4 ↦ elim (Bool-cases (check packet.bytes 14)) [
      | inr bad ↦ rw (ipv4, bad) refl
      | inl good ↦ rw (ipv4, good) refl
    ]
  ]

  forwarded-some :
      (nf : Router T) (packet : Packet) {out : Output}
      → forwarded nf packet ≡ some out
      → (device : ℕ) × (out ≡ net_transmit packet device update_ether_addrs)
        × (api.lpm_search nf.lpm (dst_addr packet.bytes 14) ≡ some device)
  forwarded-some nf packet {out} e =
      elim (Bool-cases (is_ipv4 packet.bytes && check packet.bytes 14)) [
        | inr bad ↦ let clash : none ≡ some out = rw bad at e in absurd (cc)
        | inl good ↦ elim (Option-cases (api.lpm_search nf.lpm (dst_addr packet.bytes 14))) [
          | inl none_found ↦ let clash : none ≡ some out = rw (good, none_found) at e in absurd (cc)
          | inr (device, found) ↦
              let same : some (net_transmit packet device update_ether_addrs) ≡ some out =
                rw (good, found) at e in
              (device, cc, found)
        ]
      ]

  module _ (sets_one : SetsOne api) where
    nf_handle-lpm :
        (nf : Router T) (packet : Packet) (k device : ℕ)
        → let nf' = (nf_handle api nf packet).0 in
          (nf'.devices_count ≡ nf.devices_count)
          × (api.lpm_search nf'.lpm k ≡ some device
              → Installs nf.devices_count device packet ⊎ (api.lpm_search nf.lpm k ≡ some device))
    unfolding nf_handle command
    nf_handle-lpm nf packet k device = elim (Bool-cases (packet.device + 1 == nf.devices_count)) [
      | inr other ↦ rw other (refl, λ e. inr e)
      | inl last ↦ elim (Bool-cases (ltb 32 (load packet.bytes 4 8))) [
        | inl wide ↦ rw (last, wide) (refl, λ e. inr e)
        | inr fits ↦
            rw (last, fits)
              (
                refl,
                λ e. elim (sets_one nf.lpm _ _ _ k device e) [
                  | inl new ↦ inl (ground arith, ground arith, sym new)
                  | inr old ↦ inr old
                ],
              )
      ]
    ]

    run-lpm :
        (nf : Router T) (packets : List Packet) (k device : ℕ)
        → ((run nf packets).devices_count ≡ nf.devices_count)
          × (api.lpm_search (run nf packets).lpm k ≡ some device
              → Installed nf.devices_count device packets ⊎ (api.lpm_search nf.lpm k ≡ some device))
    unfolding run
    run-lpm nf [] k device = (refl, λ e. inr e)
    run-lpm nf (packet ∷ packets) k device =
        let (same, step) = nf_handle-lpm nf packet k device in
        let (same', later) = run-lpm (nf_handle api nf packet).0 packets k device in
        (
          same' ∙ same,
          λ e. elim (later e) [
            | inl installed ↦ inl (inr (rw same at installed))
            | inr found ↦ elim (step found) [ inl here ↦ inl (inl here) | inr before ↦ inr before ]
          ],
        )

    -- For a longest prefix match in which a search after lpm_set finds the new value or what it
    -- found before: the router, started with no entry, forwards a packet only to a device that
    -- one of the earlier packets of the last device has named in a command with a width of at
    -- most 32.
    pub run-Installed :
        (nf : Router T) (packets : List Packet) (packet : Packet) {out : Output}
        → ((k : ℕ) → api.lpm_search nf.lpm k ≡ none)
        → (nf_handle api (run nf packets) packet).1 ≡ some out
        → (device : ℕ) × (out ≡ net_transmit packet device update_ether_addrs)
          × Installed nf.devices_count device packets
    unfolding nf_handle
    run-Installed nf packets packet {out} empty e =
        let nf' = run nf packets in
        let routed : forwarded nf' packet ≡ some out =
          elim (Bool-cases (packet.device + 1 == nf'.devices_count)) [
            | inl last ↦ let clash : none ≡ some out = rw last at e in absurd (cc)
            | inr other ↦ sym (route-forwarded nf' packet) ∙ rw other at e
          ] in
        let (device, same, found) = forwarded-some nf' packet {out = out} routed in
        let (_, later) = run-lpm nf packets (dst_addr packet.bytes 14) device in
        elim (later found) [
          | inl installed ↦ (device, same, installed)
          | inr old ↦
              let clash : none ≡ some device = sym (empty (dst_addr packet.bytes 14)) ∙ old in
              absurd (cc)
        ]

  -- The router drops every packet of the other devices whose IPv4 header has at least 5 words and
  -- whose total length, read in the order of the network, is a multiple of 256 below 20 times
  -- 256.
  pub nf_handle-short :
      (nf : Router T) (packet : Packet)
      → packet.device + 1 ≢ nf.devices_count
      → 5 ≤ load packet.bytes 14 1 % 16
      → get_or packet.bytes 16 0 < 20
      → get_or packet.bytes 17 0 ≡ 0
      → nf_handle api nf packet ≡ (nf, none)
  unfolding nf_handle
  nf_handle-short nf packet other ihl high low =
      let not_last : (packet.device + 1 == nf.devices_count) ≡ false = ground arith in
      let failed : check packet.bytes 14 ≡ false = check-short packet.bytes ihl high low in
      let never : (is_ipv4 packet.bytes && check packet.bytes 14) ≡ false =
        rw failed (and_false (is_ipv4 packet.bytes)) in
      rw (not_last, route-forwarded nf packet, never) refl
    where
      and_false : (b : Bool) → (b && false) ≡ false
      and_false true = refl
      and_false false = refl
