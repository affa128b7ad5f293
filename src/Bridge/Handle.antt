-- ===== src/Bridge/Handle.antt =====
-- nf/bridge/bridge.c: what `nf_init` sets up, and what `nf_handle` does with each packet.
use klint.Base.{
  ℕ, ◌≤◌, ◌≡◌, refl, ◌⊎◌, Bool, true, false, not, Option, none, some, List, get_or,
  length-replicate, ltb, ◌==◌, if◌then◌else◌, Bool-cases, Option-cases, inl, inr, sym, ◌∙◌, arith,
}
use klint.Memory.Words.{length-bytes_of}
use klint.Map.{map_get}
use klint.KeyTable.{IsTime}
use klint.KeyTable.View.{view-none}
use klint.KeyTable.Store.{fresh-IsStore}
use klint.Net.{Packet, Output, net_transmit, net_flood_except, no_flags}
use klint.Config.{ConfigItem, codes, os_config_get_u64, os_config_get_time, os_config_get_size}
use klint.Config.Get.{os_config_get_size-lt}
use klint.SpanningTree.{StpState, stp_init, stp_handle, stp_blocked_devices}
use klint.Bridge.{
  Bridge, sizeof_ether_addr, ether_bytes, ether_memory, ether_dst, ether_src, is_individual,
  nf_init, learn, forward, handle_after_stp, nf_handle,
}
use klint.Bridge.Table.{IsValid, device_of, Learns, Full, learn-Learns}

-- To a known device, unless it came from there; else to all devices but the blocked ones.
abbrev pub delivers : StpState → Packet → Option ℕ → Option Output
delivers stp_state packet (some device) =
    if device == packet.device then none else some (net_transmit packet device no_flags)
delivers stp_state packet none =
    some (net_flood_except packet (stp_blocked_devices stp_state) no_flags)

forward-delivers :
    (nf : Bridge) (packet : Packet)
    → forward nf packet ≡ delivers nf.stp_state packet (device_of nf (ether_dst packet.bytes))
unfolding forward
forward-delivers nf packet =
    elim (Option-cases
      (map_get (ether_memory nf.addresses) nf.map (ether_bytes (ether_dst packet.bytes)))) [
        | inl absent ↦ rw (absent, forward) refl
        | inr (index, got) ↦
            let device = get_or nf.devices index 0 in
            rw (got, forward)
              (branches (device == packet.device) (some (net_transmit packet device no_flags)) none)
      ]
  where
    branches : {A : Type 0} (b : Bool) (x y : A) → (if not b then x else y) ≡ (if b then y else x)
    branches true x y = refl
    branches false x y = refl

-- What the bridge does with a packet that the spanning tree does not take.
abbrev pub Switches : Bridge → StpState → Packet → Bridge → Option Output → Type 0
Switches nf stp_state packet nf' out =
    let nf₁ : Bridge = record nf { stp_state = stp_state } in
    (if is_individual packet.bytes
      then Learns nf₁ packet.time (ether_src packet.bytes) packet.device nf'
        ⊎ Full nf₁ packet.time (ether_src packet.bytes) nf'
      else nf' ≡ nf₁)
    × (out ≡ delivers nf'.stp_state packet (device_of nf' (ether_dst packet.bytes)))

abbrev pub BridgesAfter :
    Bridge → Packet → StpState × Option (Option Output) → Bridge → Option Output → Type 0
BridgesAfter nf packet (stp_state, some taken) nf' out =
    (nf' ≡ record nf { stp_state = stp_state }) × (out ≡ taken)
BridgesAfter nf packet (stp_state, none) nf' out = Switches nf stp_state packet nf' out

handle_after_stp-Bridges :
    {nf : Bridge} (packet : Packet) (taken : StpState × Option (Option Output))
    → IsValid nf
    → IsTime packet.time
    → IsValid (handle_after_stp nf packet taken).0
      × BridgesAfter nf packet taken
          (handle_after_stp nf packet taken).0
          (handle_after_stp nf packet taken).1
unfolding handle_after_stp
handle_after_stp-Bridges packet (stp_state, some out) v real =
    (record { store_valid = v.store_valid; device_count = v.device_count }, (refl, refl))
handle_after_stp-Bridges {nf} packet (stp_state, none) v real =
    let nf₁ : Bridge = record nf { stp_state = stp_state } in
    let v₁ : IsValid nf₁ = record { store_valid = v.store_valid; device_count = v.device_count } in
    elim (Bool-cases (is_individual packet.bytes)) [
      | inr group ↦ rw group (v₁, (refl, forward-delivers nf₁ packet))
      | inl individual ↦
          let learned = learn-Learns v₁ packet.time real (ether_src packet.bytes) packet.device in
          rw individual (
            elim learned [ inl l ↦ l.valid | inr (same, _, _) ↦ rw same v₁ ],
            (
              learned,
              forward-delivers (learn nf₁ (ether_src packet.bytes) packet.time packet.device)
                  packet,
            ),
          )
    ]

-- What the bridge's nf_handle does with each packet, at a real time on a valid table: it keeps the
-- table valid; a packet that stp_handle takes changes nothing else; of any other it puts an
-- individual source address at the packet's device, unless the address is new and every index taken
-- by a young address, changes no other address except that an expired one may go, and sends the
-- packet to the device of its destination unless it came from there, or to all but the blocked
-- devices if the destination is not known.
pub nf_handle-Bridges :
    {nf : Bridge} (packet : Packet)
    → IsValid nf
    → IsTime packet.time
    → IsValid (nf_handle nf packet).0
      × BridgesAfter nf packet
          (stp_handle nf.stp_state packet)
          (nf_handle nf packet).0
          (nf_handle nf packet).1
unfolding nf_handle
nf_handle-Bridges {nf} packet v real =
    handle_after_stp-Bridges packet (stp_handle nf.stp_state packet) v real

-- With two devices or more and its four parameters in the configuration, the bridge's nf_init
-- succeeds: the table is valid, of the given size and expiration time, no address is known, and the
-- spanning tree starts with the bridge as its root.
pub nf_init-device_of :
    (items : List ConfigItem) (devices_count : ℕ) {bid expiration_time capacity update_time : ℕ}
    → 2 ≤ devices_count
    → os_config_get_u64 items (codes "bid") ≡ some bid
    → os_config_get_time items (codes "expiration time") ≡ some expiration_time
    → os_config_get_size items (codes "capacity") ≡ some capacity
    → os_config_get_time items (codes "stp update time") ≡ some update_time
    → (nf : Bridge) × (nf_init items devices_count ≡ some nf)
      × IsValid nf
      × (nf.stp_state ≡ stp_init devices_count bid update_time)
      × (nf.allocator.size ≡ capacity)
      × (nf.allocator.expiration_time ≡ expiration_time)
      × ((address : ℕ) → device_of nf address ≡ none)
unfolding nf_init
nf_init-device_of items devices_count {bid} {expiration_time} {capacity} {update_time} enough b e c
      u =
    let small = os_config_get_size-lt items (codes "capacity") c in
    let many : ltb devices_count 2 ≡ false = ground arith in
    let (m, alloc, (valid, size, exp, empty)) =
      fresh-IsStore ether_bytes 0 sizeof_ether_addr (length-bytes_of sizeof_ether_addr) capacity
        expiration_time (omega arith) in
    (
      _,
      rw (many, b, e, c, u, alloc) refl,
      record { store_valid = valid; device_count = length-replicate capacity 0 ∙ sym size },
      refl,
      size,
      exp,
      λ address.
          let absent =
            view-none valid.coherent (ether_bytes address)
              (length-bytes_of sizeof_ether_addr address ∙ sym valid.same_key_size)
              (empty address) in
          rw absent refl,
    )
