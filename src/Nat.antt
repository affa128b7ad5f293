-- ===== src/Nat.antt =====
-- nf/nat: network address translation. Flows from inside get an external port, whose distance from the
-- start port is the flow's index in the table, and answers from outside are translated back.
-- `flow_table.h` and `nat.c` are modelled whole; `os_debug` has no effect on the state.
pub mod Table
pub mod Ports
pub mod Translate
pub mod SourceAddr
pub mod Handle
pub mod Crosses
pub mod History
pub mod Safety
use klint.Base.{
  ℕ, ◌+◌, ◌-◌, ◌%◌, Bool, true, false, not, ◌&&◌, ◌||◌, Option, none, some, List, get_or, set,
  replicate, ◌==◌, if◌then◌else◌,
}
use klint.Base.Options.{◌>>=◌}
use klint.Memory.{u16_mod}
use klint.Memory.Words.{store}
use klint.Map.{Map, map_with_memory, map_get, map_set, map_remove}
use klint.IndexPool.{
  IndexPool, Borrowed, index_pool_alloc, index_pool_borrow, index_pool_refresh, index_pool_used,
}
use klint.Flow.{Flow, flow_bytes, sizeof_flow, zero_flow, packet_flow}
use klint.Net.{
  Packet, Output, net_transmit, get_headers, update_ether_addrs, src_addr, dst_addr, src_port,
  dst_port, next_proto_id, net_packet_checksum_update, net_packet_checksum_update_32,
}
use klint.Config.{
  ConfigItem, codes, os_config_get_device, os_config_get_time, os_config_get_size,
  os_config_get_u16, os_config_get_u32,
}

pub record FlowTable : Type 0 where
  pub flows : List Flow
  pub flow_indexes : Map
  pub port_allocator : IndexPool
  pub max_flows : ℕ
  pub start_port : ℕ

abbrev pub flow_memory : List Flow → ℕ → List ℕ
flow_memory flows k = flow_bytes (get_or flows k zero_flow)

unfoldable pub flow_table_alloc : ℕ → ℕ → ℕ → Option FlowTable
flow_table_alloc start_port expiration_time max_flows = do
  flow_indexes ← map_with_memory sizeof_flow max_flows
  some (record {
    flows = replicate max_flows zero_flow;
    flow_indexes = flow_indexes;
    port_allocator = index_pool_alloc max_flows expiration_time;
    max_flows = max_flows;
    start_port = start_port;
  })

-- `table->start_port + (uint16_t) index`, cut to 16 bits.
abbrev pub port_of : FlowTable → ℕ → ℕ
port_of table index = (table.start_port + index % u16_mod) % u16_mod

-- The rest of `flow_table_get_internal`, after the call of `index_pool_borrow`.
get_internal_at : FlowTable → Flow → Borrowed → FlowTable × Option ℕ
unfolding get_or
get_internal_at table flow (pool, none) = (record table { port_allocator = pool }, none)
get_internal_at table flow (pool, some (index, was_used)) =
    let flow_indexes =
      if was_used
      then map_remove (flow_memory table.flows) table.flow_indexes index
      else table.flow_indexes in
    let flows = set table.flows index flow in
    (
      record table {
        flows = flows;
        flow_indexes = map_set (flow_memory flows) flow_indexes index index;
        port_allocator = pool;
      },
      some (port_of table index),
    )

-- The port, or nothing for `false`.
unfoldable pub flow_table_get_internal : FlowTable → ℕ → Flow → FlowTable × Option ℕ
unfolding get_internal_at get_or
flow_table_get_internal table time flow =
    elim (map_get (flow_memory table.flows) table.flow_indexes (flow_bytes flow)) [
      | some index ↦ (
        record table { port_allocator = index_pool_refresh table.port_allocator time index },
        some (port_of table index),
      )
      | none ↦ get_internal_at table flow (index_pool_borrow table.port_allocator time)
    ]

-- `(uint16_t) (port - table->start_port)`
abbrev pub index_of : FlowTable → ℕ → ℕ
index_of table port = (port + u16_mod - table.start_port) % u16_mod

-- The flow, or nothing for `false`.
unfoldable pub flow_table_get_external : FlowTable → ℕ → ℕ → FlowTable × Option Flow
unfolding get_or
flow_table_get_external table time port =
    let index = index_of table port in
    if not (index_pool_used table.port_allocator time index) then (table, none) else (
      record table { port_allocator = index_pool_refresh table.port_allocator time index },
      some (get_or table.flows index zero_flow),
    )

-- The global variables.
pub record Nat : Type 0 where
  pub external_addr : ℕ
  pub wan_device : ℕ
  pub table : FlowTable

-- `none` for `false`.
unfoldable pub nf_init : List ConfigItem → ℕ → Option Nat
nf_init items devices_count = if not (devices_count == 2) then none else (do
  external_addr ← os_config_get_u32 items (codes "external addr")
  wan_device ← os_config_get_device items (codes "wan device") devices_count
  max_flows ← os_config_get_size items (codes "max flows")
  expiration_time ← os_config_get_time items (codes "expiration time")
  start_port ← os_config_get_u16 items (codes "start port")
  table ← flow_table_alloc start_port expiration_time max_flows
  some (record { external_addr = external_addr; wan_device = wan_device; table = table }))

-- `(device_t) (1 - packet->device)`
abbrev pub other_device : ℕ → ℕ
other_device device = (1 + u16_mod - device) % u16_mod

-- A new destination: the checksum updates and the two writes.
unfoldable pub translate_in : List ℕ → ℕ → ℕ → Flow → List ℕ
translate_in bytes ipv4 l4 flow =
    let bytes₁ = net_packet_checksum_update_32 bytes ipv4 (dst_addr bytes ipv4) flow.src_ip true in
    let bytes₂ = net_packet_checksum_update bytes₁ ipv4 (dst_port bytes₁ l4) flow.src_port false in
    let bytes₃ = store bytes₂ (ipv4 + 16) 4 flow.src_ip in store bytes₃ (l4 + 2) 2 flow.src_port

-- A new source.
unfoldable pub translate_out : List ℕ → ℕ → ℕ → ℕ → ℕ → List ℕ
translate_out bytes ipv4 l4 external_addr external_port =
    let bytes₁ =
      net_packet_checksum_update_32 bytes ipv4 (src_addr bytes ipv4) external_addr true in
    let bytes₂ = net_packet_checksum_update bytes₁ ipv4 (src_port bytes₁ l4) external_port false in
    let bytes₃ = store bytes₂ (ipv4 + 12) 4 external_addr in store bytes₃ l4 2 external_port

abbrev pub transmitted : Packet → List ℕ → Option Output
transmitted packet bytes =
    some (
      net_transmit (record packet { bytes = bytes }) (other_device packet.device)
        update_ether_addrs)

-- A packet that is not from the flow's peer is a spoofing attempt.
abbrev pub is_spoofed : List ℕ → ℕ → ℕ → Flow → Bool
is_spoofed bytes ipv4 l4 flow =
    not (flow.dst_ip == src_addr bytes ipv4)
    || not (flow.dst_port == src_port bytes l4)
    || not (flow.protocol == next_proto_id bytes ipv4)

handle_external : Nat → Packet → ℕ → ℕ → FlowTable × Option Flow → Nat × Option Output
handle_external nf packet ipv4 l4 (table, none) = (record nf { table = table }, none)
handle_external nf packet ipv4 l4 (table, some flow) = (
  record nf { table = table },
  if is_spoofed packet.bytes ipv4 l4 flow
      then none
      else transmitted packet (translate_in packet.bytes ipv4 l4 flow),
)

handle_internal : Nat → Packet → ℕ → ℕ → FlowTable × Option ℕ → Nat × Option Output
handle_internal nf packet ipv4 l4 (table, none) = (record nf { table = table }, none)
handle_internal nf packet ipv4 l4 (table, some external_port) = (
  record nf { table = table },
  transmitted packet (translate_out packet.bytes ipv4 l4 nf.external_addr external_port),
)

unfoldable pub nf_handle : Nat → Packet → Nat × Option Output
unfolding handle_external handle_internal
nf_handle nf packet = elim (get_headers packet) [
  | none ↦ (nf, none)
  | some (ipv4, l4) ↦
      if packet.device == nf.wan_device
      then handle_external nf packet ipv4 l4
          (flow_table_get_external nf.table packet.time (dst_port packet.bytes l4))
      else handle_internal nf packet ipv4 l4
          (flow_table_get_internal nf.table packet.time (packet_flow packet.bytes ipv4 l4))
]
