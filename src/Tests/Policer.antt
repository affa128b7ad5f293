-- ===== src/Tests/Policer.antt =====
-- A policer of 10 bytes per nanosecond with a burst of 1000 bytes, and room for one address.
use klint.Base.{ℕ, ◌+◌, ◌-◌, ◌*◌, ◌≤◌, ◌≡◌, refl, none, some, List, [], ◌∷◌, arith}
use klint.Memory.{memory_hash, memory_eq}
use klint.Memory.Words.{bytes_of, load}
use klint.Map.{
  map_with_memory, map_get, map_set, map_remove, loop, same_key, get_real_capacity, grow_capacity,
}
use klint.IndexPool.{index_pool_alloc, index_pool_borrow, index_pool_refresh}
use klint.Net.{Packet}
use klint.Config.{ConfigItem, codes, os_config_get_device, os_config_get_u64, os_config_get_size}
use klint.Policer.{Policer, expiration_of, nf_init, nf_handle, police, get_ipv4, refilled}
use klint.Policer.Table.{IsValid, bucket_of}
use klint.Policer.Handle.{Handles, nf_init-bucket_of, nf_handle-Polices}
use klint.Policer.Run.{Ordered, end_time, run, all_passed_to}
use klint.Policer.Window.{run-limit}
use klint.Tests.Packets.{headers}

-- Everything that a run of the policer computes with.
evaluation : Unit {0}
unfolding map_with_memory get_real_capacity grow_capacity map_get map_set map_remove loop same_key
    memory_hash memory_eq index_pool_alloc index_pool_borrow index_pool_refresh bytes_of load
    os_config_get_device os_config_get_u64 os_config_get_size nf_init nf_handle police get_ipv4
    refilled bucket_of run all_passed_to
evaluation = tt

abbrev items : List ConfigItem
items =
    record { name = codes "wan device"; value = 1 }
    ∷ record { name = codes "rate"; value = 10 }
    ∷ record { name = codes "burst"; value = 1000 }
    ∷ record { name = codes "max flows"; value = 1 }
    ∷ []

-- A UDP packet for 10.0.0.1, of the length and at the time.
abbrev packet_of : ℕ → ℕ → Packet
packet_of length time = record {
  bytes = headers (8 ∷ 8 ∷ 8 ∷ 8 ∷ 10 ∷ 0 ∷ 0 ∷ 1 ∷ []) (0 ∷ 53 ∷ 0x12 ∷ 0x34 ∷ []);
  length = length;
  time = time;
  device = 1;
}

start_result :
    (nf : Policer) × (nf_init items 2 ≡ some nf)
    × IsValid nf
    × (nf.wan_device ≡ 1)
    × (nf.rate ≡ 10)
    × (nf.burst ≡ 1000)
    × (nf.pool.size ≡ 1)
    × (nf.pool.expiration_time ≡ expiration_of 10 1000)
    × ((address : ℕ) → bucket_of nf address ≡ none)
unfolding evaluation
start_result =
    nf_init-bucket_of items {wan_device = 1} {rate = 10} {burst = 1000} {max_flows = 1} refl refl
      refl refl (omega arith) (omega arith)

abbrev start : Policer
start = start_result.0

nf_handle-Polices_example :
    Handles start (packet_of 600 1000) (nf_handle start (packet_of 600 1000))
nf_handle-Polices_example = nf_handle-Polices (packet_of 600 1000) start_result.2 (omega arith)

run-limit_example :
    (nf : Policer) × (nf_init items 2 ≡ some nf)
    × ((address t : ℕ) (before window : List Packet)
        → Ordered 0 before
        → end_time 0 before ≤ t
        → Ordered t window
        → all_passed_to (run nf before) address window ≤ 100 * 10 + (end_time t window - t) * 10)
unfolding evaluation
run-limit_example =
    run-limit items {wan_device = 1} {rate = 10} {max_flows = 1} 100 refl refl refl refl
      (omega arith) (omega arith) (omega arith)
