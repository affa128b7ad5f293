-- ===== src/Firewall.antt =====
-- nf/firewall: a stateful firewall. Flows that leave through the internal device are learned, and a
-- packet from the external device passes only if it answers a flow that was used recently.
-- `flow_table.h` and `firewall.c` are modelled whole; `os_debug` has no effect on the state.
pub mod Table
pub mod Handle
pub mod History
pub mod Safety
pub mod Liveness
pub mod Passes
use klint.Base.{
  ℕ, ◌+◌, ◌-◌, ◌%◌, Bool, true, false, not, Option, none, some, List, get_or, set, replicate, ◌==◌,
  if◌then◌else◌,
}
use klint.Base.Options.{◌>>=◌}
use klint.Memory.{u16_mod}
use klint.Map.{Map, map_with_memory, map_get, map_set, map_remove}
use klint.IndexPool.{
  IndexPool, Borrowed, index_pool_alloc, index_pool_borrow, index_pool_refresh, index_pool_used,
}
use klint.Flow.{Flow, flow_bytes, sizeof_flow, zero_flow, packet_flow, inverted_flow}
use klint.Net.{Packet, Output, net_transmit, get_headers, no_flags}
use klint.Config.{ConfigItem, codes, os_config_get_device, os_config_get_time, os_config_get_size}

pub record FlowTable : Type 0 where
  pub flows : List Flow
  pub flow_indexes : Map
  pub port_allocator : IndexPool

-- What stands at `&(table->flows[k])`, for each k.
abbrev pub flow_memory : List Flow → ℕ → List ℕ
flow_memory flows k = flow_bytes (get_or flows k zero_flow)

unfoldable pub flow_table_alloc : ℕ → ℕ → Option FlowTable
flow_table_alloc expiration_time max_flows = do
  flow_indexes ← map_with_memory sizeof_flow max_flows
  some (record {
    flows = replicate max_flows zero_flow;
    flow_indexes = flow_indexes;
    port_allocator = index_pool_alloc max_flows expiration_time;
  })

-- The rest of `flow_table_learn_internal`, after the call of `index_pool_borrow`.
learn_at : FlowTable → Flow → Borrowed → FlowTable
unfolding get_or
learn_at table flow (pool, none) = record table { port_allocator = pool }
learn_at table flow (pool, some (index, was_used)) =
    let flow_indexes =
      if was_used
      then map_remove (flow_memory table.flows) table.flow_indexes index
      else table.flow_indexes in
    let flows = set table.flows index flow in
    record {
      flows = flows;
      flow_indexes = map_set (flow_memory flows) flow_indexes index index;
      port_allocator = pool;
    }

unfoldable pub flow_table_learn_internal : FlowTable → ℕ → Flow → FlowTable
unfolding learn_at get_or
flow_table_learn_internal table time flow =
    elim (map_get (flow_memory table.flows) table.flow_indexes (flow_bytes flow)) [
      | some index ↦ record table {
        port_allocator = index_pool_refresh table.port_allocator time index;
      }
      | none ↦ learn_at table flow (index_pool_borrow table.port_allocator time)
    ]

unfoldable pub flow_table_has_external : FlowTable → ℕ → Flow → FlowTable × Bool
unfolding get_or
flow_table_has_external table time flow =
    elim (map_get (flow_memory table.flows) table.flow_indexes (flow_bytes flow)) [
      | some index ↦
          if index_pool_used table.port_allocator time index
          then (
            record table { port_allocator = index_pool_refresh table.port_allocator time index },
            true,
          )
          else (table, false)
      | none ↦ (table, false)
    ]

-- The global variables.
pub record Firewall : Type 0 where
  pub external_device : ℕ
  pub table : FlowTable

-- `none` for `false`.
unfoldable pub nf_init : List ConfigItem → ℕ → Option Firewall
nf_init items devices_count = if not (devices_count == 2) then none else (do
  external_device ← os_config_get_device items (codes "external device") devices_count
  expiration_time ← os_config_get_time items (codes "expiration time")
  max_flows ← os_config_get_size items (codes "max flows")
  table ← flow_table_alloc expiration_time max_flows
  some (record { external_device = external_device; table = table }))

-- `(device_t) (1 - packet->device)`
abbrev pub other_device : ℕ → ℕ
other_device device = (1 + u16_mod - device) % u16_mod

handle_external : Firewall → Packet → FlowTable × Bool → Firewall × Option Output
handle_external nf packet (table, false) = (record nf { table = table }, none)
handle_external nf packet (table, true) =
    (record nf { table = table }, some (net_transmit packet (other_device packet.device) no_flags))

unfoldable pub nf_handle : Firewall → Packet → Firewall × Option Output
unfolding handle_external
nf_handle nf packet = elim (get_headers packet) [
  | none ↦ (nf, none)
  | some (ipv4, l4) ↦
      if packet.device == nf.external_device
      then handle_external nf packet
          (flow_table_has_external nf.table packet.time (inverted_flow packet.bytes ipv4 l4))
      else (
        record nf {
          table = flow_table_learn_internal nf.table packet.time (packet_flow packet.bytes ipv4 l4);
        },
        some (net_transmit packet (other_device packet.device) no_flags),
      )
]
