-- ===== src/Bridge/History.antt =====
-- nf/bridge/bridge.c over a whole run: a frame goes to the device at which its destination was last
-- seen.
use klint.Base.{
  ℕ, ◌≡◌, ◌≢◌, refl, Bool, true, false, ◌&&◌, Option, none, some, List, [], ◌∷◌, bytes_eq,
  bytes_eq→eq, ◌==◌, if◌then◌else◌, Bool-cases, inl, inr, sym, ap, ◌∙◌, arith,
}
use klint.Net.{Packet, Output, net_transmit, net_flood_except, no_flags}
use klint.Net.Times.{AllTimes}
use klint.SpanningTree.{StpState, stp_handle, stp_blocked_devices}
use klint.Bridge.{Bridge, ether_bytes, ether_dst, ether_src, is_individual, nf_handle}
use klint.Bridge.Table.{IsValid, device_of}
use klint.Bridge.Handle.{delivers, BridgesAfter, nf_handle-Bridges}

-- The bridge after a run of packets, the latest first.
unfoldable pub run : Bridge → List Packet → Bridge
run nf [] = nf
run nf (packet ∷ before) = (nf_handle (run nf before) packet).0

-- The spanning tree leaves the packet to the bridge.
abbrev pub is_left : Option (Option Output) → Bool
is_left none = true
is_left (some taken) = false

abbrev pub is_frame : Bridge → Packet → Bool
is_frame nf packet = is_left (stp_handle nf.stp_state packet).1

-- The device that the last frame with a source address came from.
unfoldable pub seen_at : Bridge → List Packet → ℕ → Option ℕ
seen_at nf [] address = none
seen_at nf (packet ∷ before) address =
    if is_frame (run nf before) packet
      && (is_individual packet.bytes
          && bytes_eq (ether_bytes (ether_src packet.bytes)) (ether_bytes address))
    then some packet.device
    else seen_at nf before address

-- What a packet does to the device of an address, whatever the spanning tree makes of it.
after_stp-device_of :
    (nf nf' : Bridge) (packet : Packet) (taken : StpState × Option (Option Output))
    (out : Option Output) (address : ℕ) {device : ℕ}
    → BridgesAfter nf packet taken nf' out
    → device_of nf' address ≡ some device
    → some device ≡ (
        if is_left taken.1
          && (is_individual packet.bytes
              && bytes_eq (ether_bytes (ether_src packet.bytes)) (ether_bytes address))
        then some packet.device
        else device_of nf address)
after_stp-device_of nf nf' packet (stp_state, some _) out address (same, _) e =
    sym e ∙ ap (λ (b : Bridge). device_of b address) same
after_stp-device_of nf nf' packet (stp_state, none) out address {device} (learned, _) e =
    elim (Bool-cases (is_individual packet.bytes)) [
      | inr group ↦
          let same = rw group at learned in
          rw group (sym e ∙ ap (λ (b : Bridge). device_of b address) same)
      | inl individual ↦
          let src = ether_src packet.bytes in
          elim (Bool-cases (bytes_eq (ether_bytes src) (ether_bytes address))) [
            | inl own ↦
                let key : ether_bytes src ≡ ether_bytes address = bytes_eq→eq _ _ own in
                rw (individual, own)
                  (elim (rw individual at learned) [
                    | inl l ↦
                        let moved : device_of nf' address ≡ some packet.device =
                          rw (← key) l.here in
                        sym e ∙ moved
                    | inr (same, unknown, _) ↦
                        let unmoved : device_of nf' address ≡ none =
                          ap (λ (b : Bridge). device_of b address) same ∙ rw (← key) unknown in
                        absurd (let clash : none ≡ some device = sym unmoved ∙ e in cc)
                  ])
            | inr other ↦
                rw (individual, other)
                  (elim (rw individual at learned) [
                    | inl l ↦ elim (l.others address other) [
                      | inl kept ↦ sym e ∙ kept
                      | inr (gone, _) ↦ absurd (let clash : none ≡ some device = sym gone ∙ e in cc)
                    ]
                    | inr (same, unknown, _) ↦ sym e ∙ ap (λ (b : Bridge). device_of b address) same
                  ])
          ]
    ]

run-IsValid :
    (nf : Bridge) (packets : List Packet) → IsValid nf → AllTimes packets → IsValid (run nf packets)
unfolding run
run-IsValid nf [] v all = v
run-IsValid nf (packet ∷ before) v (real, all) =
    (nf_handle-Bridges packet (run-IsValid nf before v all) real).0

-- What the table has for an address is where it was last seen.
run-seen_at :
    (nf : Bridge) (packets : List Packet) (address : ℕ) {device : ℕ}
    → IsValid nf
    → ((a : ℕ) → device_of nf a ≡ none)
    → AllTimes packets
    → device_of (run nf packets) address ≡ some device
    → seen_at nf packets address ≡ some device
unfolding run seen_at
run-seen_at nf [] address {device} v empty all e =
    absurd (let clash : none ≡ some device = sym (empty address) ∙ e in cc)
run-seen_at nf (packet ∷ before) address {device} v empty (real, all) e =
    let state = run nf before in
    let (_, did) = nf_handle-Bridges packet (run-IsValid nf before v all) real in
    let step =
      after_stp-device_of state (nf_handle state packet).0 packet
        (stp_handle state.stp_state packet) (nf_handle state packet).1 address {device = device} did
        e in
    let test =
      is_frame state packet
      && (is_individual packet.bytes
          && bytes_eq (ether_bytes (ether_src packet.bytes)) (ether_bytes address)) in
    elim (Bool-cases test) [
      | inl here ↦
          let now : some device ≡ some packet.device = step ∙ rw here refl in rw here (sym now)
      | inr other ↦
          let old : some device ≡ device_of state address = step ∙ rw other refl in
          rw other (run-seen_at nf before address {device = device} v empty all (sym old))
    ]

left_delivers :
    (nf nf' : Bridge) (packet : Packet) (taken : StpState × Option (Option Output))
    (out : Option Output)
    → BridgesAfter nf packet taken nf' out
    → is_left taken.1 ≡ true
    → out ≡ delivers nf'.stp_state packet (device_of nf' (ether_dst packet.bytes))
left_delivers nf nf' packet (stp_state, none) out (_, delivered) frame = delivered
left_delivers nf nf' packet (stp_state, some _) out did frame = absurd (cc)

delivered_to :
    (stp_state : StpState) (packet : Packet) (known : Option ℕ) (device : ℕ)
    → delivers stp_state packet known ≡ some (net_transmit packet device no_flags)
    → (known ≡ some device) × (device ≢ packet.device)
delivered_to stp_state packet none device e = absurd (
    let flood : net_flood_except packet (stp_blocked_devices stp_state) no_flags
        ≡ net_transmit packet device no_flags =
      cc in
    cc)
delivered_to stp_state packet (some d) device e = elim (Bool-cases (d == packet.device)) [
  | inl back ↦
      absurd (let clash : none ≡ some (net_transmit packet device no_flags) = rw back at e in cc)
  | inr away ↦
      let sent : some (net_transmit packet d no_flags)
          ≡ some (net_transmit packet device no_flags) =
        rw away at e in
      let same : d ≡ device = cc in (ap some same, λ own. ground (arith, same))
]

-- After any run of packets at real times from a bridge that knows no address, a frame that
-- stp_handle leaves to the bridge and that is transmitted to one device is transmitted to the device
-- that the last such frame from its destination's address came from, which is not its own.
pub run-transmitted :
    (nf : Bridge) (packets : List Packet) (packet : Packet) (device : ℕ)
    → IsValid nf
    → ((address : ℕ) → device_of nf address ≡ none)
    → AllTimes (packet ∷ packets)
    → is_frame (run nf packets) packet ≡ true
    → (nf_handle (run nf packets) packet).1 ≡ some (net_transmit packet device no_flags)
    → (seen_at nf (packet ∷ packets) (ether_dst packet.bytes) ≡ some device)
      × (device ≢ packet.device)
unfolding run
run-transmitted nf packets packet device v empty (real, all) frame e =
    let state = run nf packets in
    let nf' = (nf_handle state packet).0 in
    let (_, did) = nf_handle-Bridges packet (run-IsValid nf packets v all) real in
    let out =
      left_delivers state nf' packet (stp_handle state.stp_state packet) (nf_handle state packet).1
        did frame in
    let (known, other) =
      delivered_to nf'.stp_state packet (device_of nf' (ether_dst packet.bytes)) device
        (sym out ∙ e) in
    (
      run-seen_at nf (packet ∷ packets) (ether_dst packet.bytes) {device = device} v empty
          (real, all) known,
      other,
    )
