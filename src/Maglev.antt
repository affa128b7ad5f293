-- ===== src/Maglev.antt =====
-- nf/maglev/balancer.h and nf/maglev/maglev.c: a load balancer. The last device is the one that the
-- packets to route come from; the others are the backends, and a packet from one of them is a heartbeat.
pub mod Table
pub mod Handle
pub mod Start
pub mod Backends
pub mod History
pub mod Alive
use klint.Base.{
  ℕ, ◌-◌, Bool, true, false, ◌||◌, Option, none, some, List, get_or, set, replicate, ltb, leb, ◌==◌,
  if◌then◌else◌,
}
use klint.Base.Options.{◌>>=◌}
use klint.Map.{Map, map_with_memory, map_get, map_set, map_remove}
use klint.IndexPool.{
  IndexPool, Borrowed, index_pool_alloc, index_pool_borrow, index_pool_refresh, index_pool_used,
  index_pool_return,
}
use klint.Cht.{Cht, max_cht_height, cht_alloc, cht_find_preferred_available_backend}
use klint.Flow.{Flow, flow_bytes, zero_flow, sizeof_flow, packet_flow}
use klint.Net.{Packet, Output, net_transmit, get_headers, no_flags}
use klint.Config.{ConfigItem, codes, os_config_get_u16, os_config_get_time, os_config_get_size}

-- `struct balancer`.
pub record Balancer : Type 0 where
  pub flow_indices : Map
  pub flow_pool : IndexPool
  pub flow_heap : List Flow
  pub flow_backends : List ℕ
  pub backend_pool : IndexPool
  pub cht : Cht

-- What stands at `&(balancer->flow_heap[k])`, for each k.
abbrev pub heap_memory : List Flow → ℕ → List ℕ
heap_memory flow_heap k = flow_bytes (get_or flow_heap k zero_flow)

unfoldable pub balancer_alloc : ℕ → ℕ → ℕ → ℕ → ℕ → Option Balancer
balancer_alloc flow_capacity flow_expiration_time backend_capacity backend_expiration_time
      cht_height =
    do
      flow_indices ← map_with_memory sizeof_flow flow_capacity
      some (record {
        flow_indices = flow_indices;
        flow_pool = index_pool_alloc flow_capacity flow_expiration_time;
        flow_heap = replicate flow_capacity zero_flow;
        flow_backends = replicate flow_capacity 0;
        backend_pool = index_pool_alloc backend_capacity backend_expiration_time;
        cht = cht_alloc cht_height backend_capacity;
      })

-- The mapping of a new flow, after the call of `index_pool_borrow`.
insert_at : Balancer → Flow → Borrowed → Balancer
unfolding get_or
insert_at balancer flow (pool, none) = record balancer { flow_pool = pool }
insert_at balancer flow (pool, some (index, was_used)) =
    let flow_indices =
      if was_used
      then map_remove (heap_memory balancer.flow_heap) balancer.flow_indices index
      else balancer.flow_indices in
    let flow_heap = set balancer.flow_heap index flow in
    record balancer {
      flow_pool = pool;
      flow_heap = flow_heap;
      flow_indices = map_set (heap_memory flow_heap) flow_indices index index;
    }

-- The rest of `balancer_get_backend` from the call of `cht_find_preferred_available_backend` on.
unfoldable pub choose_backend : Balancer → Flow → ℕ → Balancer × Option ℕ
unfolding insert_at
choose_backend balancer flow time =
    elim (cht_find_preferred_available_backend balancer.cht (flow_bytes flow) sizeof_flow
      balancer.backend_pool time) [
        | none ↦ (balancer, none)
        | some backend ↦
            (insert_at balancer flow (index_pool_borrow balancer.flow_pool time), some backend)
      ]

-- The mapping of a flow whose backend is not alive is given up.
abbrev pub forget : Balancer → ℕ → Balancer
forget balancer flow_index = record balancer {
  flow_indices = map_remove (heap_memory balancer.flow_heap) balancer.flow_indices flow_index;
  flow_pool = index_pool_return balancer.flow_pool flow_index;
}

unfoldable pub balancer_get_backend : Balancer → Flow → ℕ → Balancer × Option ℕ
unfolding choose_backend get_or
balancer_get_backend balancer flow time =
    elim (map_get (heap_memory balancer.flow_heap) balancer.flow_indices (flow_bytes flow)) [
      | none ↦ choose_backend balancer flow time
      | some flow_index ↦
          let backend = get_or balancer.flow_backends flow_index 0 in
          if index_pool_used balancer.backend_pool time backend
          then (
            record balancer { flow_pool = index_pool_refresh balancer.flow_pool time flow_index },
            some backend,
          )
          else choose_backend (forget balancer flow_index) flow time
    ]

unfoldable pub balancer_process_heartbeat : Balancer → ℕ → ℕ → Balancer
balancer_process_heartbeat balancer backend time = record balancer {
  backend_pool = index_pool_refresh balancer.backend_pool time backend;
}

-- The global variables.
pub record Maglev : Type 0 where
  pub balancer : Balancer
  pub devices_count : ℕ

-- `none` for `false`.
unfoldable pub nf_init : List ConfigItem → ℕ → Option Maglev
unfolding balancer_alloc
nf_init items devices_count =
    if ltb devices_count 2
    then none
    else (let backend_capacity = devices_count - 1 in
        do
          flow_capacity ← os_config_get_size items (codes "flow capacity")
          cht_height ← os_config_get_u16 items (codes "cht height")
          backend_expiration_time ← os_config_get_time items (codes "backend expiration time")
          flow_expiration_time ← os_config_get_time items (codes "flow expiration time")
          if cht_height == 0 || leb max_cht_height cht_height
              then none
              else (if leb cht_height backend_capacity then none else (do
                balancer ←
                    balancer_alloc flow_capacity flow_expiration_time backend_capacity
                      backend_expiration_time cht_height
                some (record { balancer = balancer; devices_count = devices_count }))))

abbrev pub routed : Packet → Maglev → Balancer × Option ℕ → Maglev × Option Output
routed packet nf (balancer, none) = (record nf { balancer = balancer }, none)
routed packet nf (balancer, some backend) =
    (record nf { balancer = balancer }, some (net_transmit packet backend no_flags))

unfoldable pub nf_handle : Maglev → Packet → Maglev × Option Output
unfolding balancer_get_backend balancer_process_heartbeat
nf_handle nf packet = elim (get_headers packet) [
  | none ↦ (nf, none)
  | some (ipv4, l4) ↦
      if ltb packet.device (nf.devices_count - 1)
      then (
        record nf { balancer = balancer_process_heartbeat nf.balancer packet.device packet.time },
        none,
      )
      else routed packet nf
          (balancer_get_backend nf.balancer (packet_flow packet.bytes ipv4 l4) packet.time)
]
