-- ===== src/Tests/Switching.antt =====
-- Two frames that the bridge switches.
use klint.Base.{ℕ, ◌≡◌, ◌≢◌, refl, some, none, [], ◌∷◌, bytes_eq, replicate, arith}
use klint.Memory.{memory_hash, memory_eq}
use klint.Memory.Words.{bytes_of, load, store}
use klint.Map.{
  zero_item, map_with_memory, map_get, map_set, map_remove, loop, same_key, get_real_capacity,
  grow_capacity,
}
use klint.IndexPool.{time_max, index_pool_alloc, index_pool_borrow, index_pool_refresh}
use klint.Net.{Packet}
use klint.Config.{os_config_get_u64, os_config_get_time, os_config_get_size}
use klint.SpanningTree.{stp_init, stp_handle, stp_receive, is_bpdu}
use klint.Bridge.{Bridge, ether_dst, nf_init, nf_handle, learn, forward}
use klint.Bridge.History.{run, seen_at, run-transmitted}
use klint.Tests.Bridge.{items, start_result, frame}
use klint.Tests.{result_of}
use klint.Bridge.Table.{IsValid, device_of}

switching : Unit {0}
unfolding map_with_memory map_get map_set map_remove loop same_key get_real_capacity grow_capacity
    memory_hash memory_eq index_pool_alloc index_pool_borrow index_pool_refresh bytes_of load store
    os_config_get_u64 os_config_get_time os_config_get_size nf_init stp_init stp_handle stp_receive
    is_bpdu nf_handle learn forward run seen_at bytes_eq
switching = tt

abbrev machine : Bridge
machine = record {
  stp_state = stp_init 2 9 5000;
  addresses = 0 ∷ 0 ∷ [];
  devices = 0 ∷ 0 ∷ [];
  map = record { items = zero_item ∷ zero_item ∷ []; key_size = 6; capacity = 2 };
  allocator = record {
    timestamps = time_max ∷ time_max ∷ [];
    size = 2;
    expiration_time = 100;
    last_borrowed_index = 0;
  };
}

starts : nf_init items 2 ≡ some machine
unfolding switching
starts = refl

machine-IsValid : IsValid machine
machine-IsValid = result_of {P = IsValid} (start_result.0, start_result.1, start_result.2) starts

no_address : (address : ℕ) → device_of machine address ≡ none
no_address =
    let (nf, e, _, _, _, _, empty) = start_result in
    result_of {P = λ (nf : Bridge). (address : ℕ) → device_of nf address ≡ none} (nf, e, empty)
      starts

-- Its answer comes from device 0 and goes to device 1.
abbrev reply : Packet
reply = record {
  bytes = 2 ∷ 0 ∷ 0 ∷ 0 ∷ 0 ∷ 2 ∷ 2 ∷ 0 ∷ 0 ∷ 0 ∷ 0 ∷ 1 ∷ replicate 22 0;
  length = 34;
  time = 1010;
  device = 0;
}

run-transmitted_example :
    (seen_at machine (reply ∷ frame ∷ []) (ether_dst reply.bytes) ≡ some 1)
    × (frame.device ≢ reply.device)
unfolding switching
run-transmitted_example =
    run-transmitted machine (frame ∷ []) reply 1 machine-IsValid no_address
      (omega arith, (omega arith, tt)) refl refl
