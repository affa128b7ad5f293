-- ===== src/Nat/Handle.antt =====
-- nf/nat/nat.c: what `nf_init` sets up, and what `nf_handle` does with each packet.
use klint.Base.{
  ℕ, ◌<◌, ◌≡◌, refl, ◌⊎◌, true, false, Option, none, some, List, get_or, ◌==◌, if◌then◌else◌,
  Bool-cases, Bool, inl, inr, arith,
}
use klint.KeyTable.{IsTime}
use klint.KeyTable.Store.{fresh-IsStore}
use klint.Flow.{Flow, packet_flow, zero_flow, flow_bytes, length-flow_bytes, sizeof_flow}
use klint.Net.{Packet, Output, dst_port}
use klint.Net.Headers.{is_tcpudp, get_headers-is_tcpudp}
use klint.Config.{
  ConfigItem, codes, os_config_get_device, os_config_get_time, os_config_get_size,
  os_config_get_u16, os_config_get_u32,
}
use klint.Config.Get.{os_config_get_size-lt, os_config_get_device-lt, os_config_get_u16-lt}
use klint.Nat.{
  FlowTable, Nat, nf_init, nf_handle, handle_external, handle_internal, flow_table_get_external,
  flow_table_alloc, flow_table_get_internal, index_of, port_of, is_spoofed, translate_in,
  translate_out, transmitted,
}
use klint.Nat.Table.{
  IsValid, UsesFlow, Refuses, index_live, flow_use, flow_table_get_external-UsesFlow,
  flow_table_get_internal-UsesFlow,
}

-- With two devices and its five parameters in the configuration, the NAT's nf_init succeeds: the
-- table is valid and empty, of the given size, expiration time and start port, and the WAN device
-- is one of the two.
pub nf_init-IsValid :
    (items : List ConfigItem) {external_addr wan_device max_flows expiration_time start_port : ℕ}
    → os_config_get_u32 items (codes "external addr") ≡ some external_addr
    → os_config_get_device items (codes "wan device") 2 ≡ some wan_device
    → os_config_get_size items (codes "max flows") ≡ some max_flows
    → os_config_get_time items (codes "expiration time") ≡ some expiration_time
    → os_config_get_u16 items (codes "start port") ≡ some start_port
    → (nf : Nat) × (nf_init items 2 ≡ some nf)
      × IsValid nf.table
      × (nf.external_addr ≡ external_addr)
      × (nf.wan_device ≡ wan_device)
      × (wan_device < 2)
      × (nf.table.max_flows ≡ max_flows)
      × (nf.table.start_port ≡ start_port)
      × (nf.table.port_allocator.expiration_time ≡ expiration_time)
      × ((flow : Flow) → flow_use nf.table flow ≡ none)
unfolding nf_init flow_table_alloc
nf_init-IsValid items {external_addr} {wan_device} {max_flows} {expiration_time} {start_port} a d s
      e p =
    let small = os_config_get_size-lt items (codes "max flows") s in
    let (m, alloc, (valid, size, exp, empty)) =
      fresh-IsStore flow_bytes zero_flow sizeof_flow length-flow_bytes max_flows expiration_time
        (omega arith) in
    (
      _,
      rw (a, d, s, e, p, alloc) refl,
      record {
        store_valid = valid;
        sized = size;
        port_lt = os_config_get_u16-lt items (codes "start port") p;
      },
      refl,
      refl,
      os_config_get_device-lt items (codes "wan device") 2 (omega arith) (omega arith) d,
      refl,
      refl,
      exp,
      empty,
    )

-- An answer uses the flow at its port's index, and is translated unless it is spoofed.
abbrev pub Answers : Nat → Packet → Nat → Option Output → Type 0
Answers nf packet nf' out =
    let index = index_of nf.table (dst_port packet.bytes 34) in
    let flow = get_or nf.table.flows index zero_flow in
    if index_live nf.table packet.time index
    then UsesFlow nf.table packet.time index flow nf'.table
      × (out ≡ (
          if is_spoofed packet.bytes 14 34 flow
          then none
          else transmitted packet (translate_in packet.bytes 14 34 flow)))
    else (nf'.table ≡ nf.table) × (out ≡ none)

-- A packet from inside uses its flow and goes out from the port of the flow's index, if there is room.
abbrev pub Sends : Nat → Packet → Nat → Option Output → Type 0
Sends nf packet nf' out =
    let flow = packet_flow packet.bytes 14 34 in
    ((index : ℕ) × (out
        ≡ transmitted packet
            (translate_out packet.bytes 14 34 nf.external_addr (port_of nf.table index)))
      × UsesFlow nf.table packet.time index flow nf'.table)
    ⊎ ((out ≡ none) × Refuses nf.table packet.time flow nf'.table)

abbrev pub Translates : Nat → Packet → Nat × Option Output → Type 0
Translates nf packet (nf', out) =
    (nf'.wan_device ≡ nf.wan_device)
    × (nf'.external_addr ≡ nf.external_addr)
    × (if is_tcpudp packet.bytes
        then (if packet.device == nf.wan_device
            then Answers nf packet nf' out
            else Sends nf packet nf' out)
        else (nf'.table ≡ nf.table) × (out ≡ none))

external-Answers :
    (nf : Nat) (packet : Packet) (live : Bool) (index : ℕ) (flow : Flow)
    (r : FlowTable × Option Flow)
    → (if live
        then (r.1 ≡ some flow) × UsesFlow nf.table packet.time index flow r.0
        else (r.1 ≡ none) × (r.0 ≡ nf.table))
    → let (nf', out) = handle_external nf packet 14 34 r in
      (nf'.wan_device ≡ nf.wan_device)
      × (nf'.external_addr ≡ nf.external_addr)
      × (if live
          then UsesFlow nf.table packet.time index flow nf'.table
            × (out ≡ (
                if is_spoofed packet.bytes 14 34 flow
                then none
                else transmitted packet (translate_in packet.bytes 14 34 flow)))
          else (nf'.table ≡ nf.table) × (out ≡ none))
unfolding handle_external
external-Answers nf packet true index flow (table, none) (e, u) = absurd (cc)
external-Answers nf packet true index flow (table, some f) (e, u) =
    let same : f ≡ flow = cc in rw same (refl, refl, (u, refl))
external-Answers nf packet false index flow (table, none) (e, same) = (refl, refl, (same, refl))
external-Answers nf packet false index flow (table, some f) (e, same) = absurd (cc)

internal-Sends :
    (nf : Nat) (packet : Packet) (flow : Flow) (r : FlowTable × Option ℕ)
    → ((index : ℕ) × (r.1 ≡ some (port_of nf.table index))
        × UsesFlow nf.table packet.time index flow r.0)
      ⊎ ((r.1 ≡ none) × Refuses nf.table packet.time flow r.0)
    → let (nf', out) = handle_internal nf packet 14 34 r in
      (nf'.wan_device ≡ nf.wan_device)
      × (nf'.external_addr ≡ nf.external_addr)
      × (((index : ℕ) × (out
              ≡ transmitted packet
                  (translate_out packet.bytes 14 34 nf.external_addr (port_of nf.table index)))
            × UsesFlow nf.table packet.time index flow nf'.table)
          ⊎ ((out ≡ none) × Refuses nf.table packet.time flow nf'.table))
unfolding handle_internal
internal-Sends nf packet flow (table, none) (inl (index, e, u)) = absurd (cc)
internal-Sends nf packet flow (table, none) (inr (e, refused)) = (refl, refl, inr (refl, refused))
internal-Sends nf packet flow (table, some port) (inl (index, e, u)) =
    let same : port ≡ port_of nf.table index = cc in (refl, refl, inl (index, rw same refl, u))
internal-Sends nf packet flow (table, some port) (inr (e, refused)) = absurd (cc)

-- What the NAT's nf_handle does with each packet, on a valid table: it drops what is not TCP or UDP
-- over IPv4; from outside it drops a packet whose port's index is not in use or not young, or which
-- is not from the flow's peer, and translates any other; from inside it translates a packet to the
-- port of its flow's index, or drops it if the flow is new and the table full of young flows.
pub nf_handle-Translates :
    (nf : Nat) (packet : Packet)
    → IsValid nf.table
    → IsTime packet.time
    → Translates nf packet (nf_handle nf packet)
unfolding nf_handle
nf_handle-Translates nf packet v real =
    rw (get_headers-is_tcpudp packet, nf_handle)
      (elim (Bool-cases (is_tcpudp packet.bytes)) [
        | inr other ↦ rw other (refl, refl, (refl, refl))
        | inl headers ↦ rw headers (elim (Bool-cases (packet.device == nf.wan_device)) [
          | inl outside ↦
              let port = dst_port packet.bytes 34 in
              let index = index_of nf.table port in
              rw outside (
                external-Answers nf packet (index_live nf.table packet.time index) index
                  (get_or nf.table.flows index zero_flow)
                  (flow_table_get_external nf.table packet.time port)
                  (flow_table_get_external-UsesFlow v packet.time real port))
          | inr inside ↦
              let flow = packet_flow packet.bytes 14 34 in
              rw inside (
                internal-Sends nf packet flow (flow_table_get_internal nf.table packet.time flow)
                  (flow_table_get_internal-UsesFlow v packet.time real flow))
        ])
      ])
