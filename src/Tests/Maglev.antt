-- ===== src/Tests/Maglev.antt =====
-- A load balancer with two backends and room for one flow.
use klint.Base.{ℕ, ◌≡◌, refl, ◌⊎◌, none, some, List, [], ◌∷◌, get_or, get_or-replicate, arith}
use klint.Memory.{memory_hash, memory_eq}
use klint.Memory.Words.{load}
use klint.Map.{
  zero_item, map_with_memory, map_get, map_set, map_remove, loop, same_key, get_real_capacity,
  grow_capacity,
}
use klint.IndexPool.{
  time_max, index_pool_alloc, index_pool_borrow, index_pool_refresh, index_pool_used,
  index_pool_return,
}
use klint.IndexPool.Spec.{entry}
use klint.Cht.{
  permute_row, permute_from, place, fill_row, fill_from, cht_alloc, find_from,
  cht_find_preferred_available_backend,
}
use klint.Flow.{zero_flow, Flow, flow_bytes, packet_flow}
use klint.Net.{Packet, get_headers, net_transmit, no_flags}
use klint.Net.Delivery.{Sends}
use klint.Config.{ConfigItem, codes, os_config_get_u16, os_config_get_time, os_config_get_size}
use klint.Maglev.{
  Maglev, nf_init, nf_handle, balancer_alloc, balancer_get_backend, balancer_process_heartbeat,
  choose_backend,
}
use klint.Maglev.Table.{backend_of, last_packet}
use klint.Maglev.Handle.{IsServing, Routes, nf_handle-Routes}
use klint.Maglev.Start.{nf_init-IsServing}
use klint.Maglev.Backends.{run, run-backend_of}
use klint.Maglev.History.{last_heartbeat, after, Follows}
use klint.Maglev.Alive.{ToAlive, after-ToAlive}
use klint.Tests.Cht.{five}
use klint.Tests.{result_of}
use klint.Tests.Packets.{headers}

evaluation : Unit {0}
unfolding map_with_memory get_real_capacity grow_capacity map_get map_set map_remove loop same_key
    memory_hash memory_eq index_pool_alloc index_pool_borrow index_pool_refresh index_pool_used
    index_pool_return flow_bytes packet_flow load get_headers os_config_get_u16 os_config_get_time
    os_config_get_size permute_row permute_from place fill_row fill_from cht_alloc find_from
    cht_find_preferred_available_backend balancer_alloc balancer_get_backend choose_backend
    balancer_process_heartbeat nf_init nf_handle run
evaluation = tt

abbrev items : List ConfigItem
items =
    record { name = codes "flow capacity"; value = 1 }
    ∷ record { name = codes "cht height"; value = 5 }
    ∷ record { name = codes "backend expiration time"; value = 1000 }
    ∷ record { name = codes "flow expiration time"; value = 100 }
    ∷ []

nf_init-IsServing_example :
    (nf : Maglev) × (nf_init items 3 ≡ some nf)
    × IsServing nf
    × (nf.devices_count ≡ 3)
    × ((flow : Flow) → last_packet nf.balancer flow ≡ none)
    × ((k : ℕ) → get_or nf.balancer.flow_backends k 0 ≡ 0)
    × ((k : ℕ) → entry nf.balancer.backend_pool k ≡ none)
    × (nf.balancer.backend_pool.expiration_time ≡ 1000)
    × (nf.balancer.cht ≡ cht_alloc 5 2)
unfolding evaluation
nf_init-IsServing_example =
    nf_init-IsServing items 3 {flow_capacity = 1} {cht_height = 5} {backend_expiration_time = 1000}
      {flow_expiration_time = 100} (omega arith) refl refl refl refl (omega arith) (omega arith)

abbrev start : Maglev
start = record {
  balancer = record {
    flow_indices = record { items = zero_item ∷ []; key_size = 16; capacity = 1 };
    flow_pool = record {
      timestamps = time_max ∷ [];
      size = 1;
      expiration_time = 100;
      last_borrowed_index = 0;
    };
    flow_heap = zero_flow ∷ [];
    flow_backends = 0 ∷ [];
    backend_pool = record {
      timestamps = time_max ∷ time_max ∷ [];
      size = 2;
      expiration_time = 1000;
      last_borrowed_index = 0;
    };
    cht = record {
      table_data = 0 ∷ 1 ∷ 1 ∷ 0 ∷ 0 ∷ 1 ∷ 1 ∷ 0 ∷ 0 ∷ 1 ∷ [];
      height = 5;
      backend_capacity = 2;
    };
  };
  devices_count = 3;
}

starts : nf_init items 3 ≡ some start
unfolding evaluation
starts = refl

start-IsServing : IsServing start
start-IsServing =
    let (nf, e, s, _, _, _, _, _, _) = nf_init-IsServing_example in
    result_of {P = IsServing} (nf, e, s) starts

-- A packet of a device.
abbrev from_device : ℕ → ℕ → Packet
from_device device time = record {
  bytes = headers (10 ∷ 0 ∷ 0 ∷ 1 ∷ 8 ∷ 8 ∷ 8 ∷ 8 ∷ []) (0x12 ∷ 0x35 ∷ 0 ∷ 53 ∷ []);
  length = 58;
  time = time;
  device = device;
}

-- Both backends live, the second one first.
abbrev live : Maglev
live = run start (from_device 1 100 ∷ from_device 0 200 ∷ [])

nf_handle-Routes_example :
    let packet = from_device 2 300 in
    let (nf', out) = nf_handle start packet in
    IsServing nf' × Sends 3 out × Routes start packet (nf', out)
nf_handle-Routes_example =
    nf_handle-Routes (from_device 2 300) start-IsServing (omega arith) (omega arith)

-- The first packet of the flow goes to the backend that the table prefers, and the next ones to the
-- first backend.
first_packet :
    (nf_handle live (from_device 2 300)).1 ≡ some (net_transmit (from_device 2 300) 1 no_flags)
unfolding evaluation
first_packet = refl

second_packet :
    (nf_handle (nf_handle live (from_device 2 300)).0 (from_device 2 301)).1
    ≡ some (net_transmit (from_device 2 301) 0 no_flags)
unfolding evaluation
second_packet = refl

abbrev request_flow : Flow
request_flow = record {
  src_ip = 0x0100000a;
  dst_ip = 0x08080808;
  src_port = 0x3512;
  dst_port = 0x3500;
  protocol = 17;
}

known : backend_of (run live (from_device 2 300 ∷ [])).balancer request_flow ≡ some 0
unfolding evaluation
known = refl

run-backend_of_example :
    let b = (run live (from_device 2 300 ∷ [])).balancer in
    (backend_of b request_flow ≡ none) ⊎ (backend_of b request_flow ≡ some 0)
unfolding run
run-backend_of_example =
    run-backend_of start (from_device 1 100 ∷ from_device 0 200 ∷ from_device 2 300 ∷ [])
      request_flow (λ k. get_or-replicate {A = ℕ} 1 k 0)

start-Follows : Follows 3 5 1000 [] start
unfolding evaluation last_heartbeat
start-Follows =
    let (nf, e, _, _, _, _, dead, _, _) = nf_init-IsServing_example in
    let empty =
      result_of {P = λ (m : Maglev). (k : ℕ) → entry m.balancer.backend_pool k ≡ none} (nf, e, dead)
        starts in
    record {
      serving = start-IsServing;
      devices = refl;
      expires = refl;
      table = refl;
      heard = λ k lt. empty k;
    }

-- Backend 1 was heard of long ago, and backend 0 is alive.
after-ToAlive_example :
    let packets = from_device 0 1500 ∷ from_device 1 100 ∷ [] in
    ToAlive 3 1000 packets
      (from_device 2 2000)
      (nf_handle (after start packets) (from_device 2 2000)).1
unfolding load
after-ToAlive_example =
    after-ToAlive {devices_count = 3} {cht_height = 5} {backend_expiration_time = 1000}
      start-Follows five (omega arith) (omega arith) (from_device 0 1500 ∷ from_device 1 100 ∷ [])
      (from_device 2 2000)
      (omega arith, omega arith, (omega arith, omega arith, (omega arith, omega arith, tt))) refl
      refl
