-- ===== src/Tests/Firewall.antt =====
-- A firewall with room for one flow and an expiration time of 100: one packet leaves, and its answer
-- comes back.
use klint.Base.{
  ℕ, ◌≡◌, refl, ◌⊎◌, true, Option, none, some, List, [], ◌∷◌, bytes_eq, inl, inr, ap, ◌∙◌, arith,
}
use klint.Memory.{memory_hash, memory_eq}
use klint.Memory.Words.{load}
use klint.Map.{
  zero_item, map_with_memory, map_get, map_set, map_remove, loop, same_key, get_real_capacity,
  grow_capacity,
}
use klint.Map.Slots.{find, holds}
use klint.IndexPool.{index_pool_alloc, index_pool_borrow, index_pool_refresh, index_pool_used}
use klint.IndexPool.Spec.{entry, pool_young}
use klint.KeyTable.View.{view}
use klint.Flow.{Flow, flow_bytes, zero_flow, packet_flow, inverted_flow}
use klint.Net.{Packet, get_headers}
use klint.Net.Headers.{is_tcpudp}
use klint.Config.{ConfigItem, codes, os_config_get_device, os_config_get_time, os_config_get_size}
use klint.Firewall.{
  Firewall, nf_init, nf_handle, flow_table_alloc, flow_table_learn_internal,
  flow_table_has_external,
}
use klint.Firewall.Table.{IsFull, Used, last_use, flow_table_learn_internal-Used}
use klint.Firewall.Handle.{Started, Handles, forwarded, nf_init-Started, nf_handle-Handles}
use klint.Firewall.History.{run, Justified}
use klint.Firewall.Safety.{run-forwarded}
use klint.Firewall.Liveness.{run-answered}
use klint.Tests.{result_of}
use klint.Tests.Packets.{headers}

-- Everything that a run of the firewall computes with.
unfoldable pub evaluation : Unit {0}
unfolding map_with_memory get_real_capacity grow_capacity map_get map_set map_remove loop same_key
    memory_hash memory_eq index_pool_alloc index_pool_borrow index_pool_refresh index_pool_used
    flow_bytes packet_flow inverted_flow load get_headers os_config_get_device os_config_get_time
    os_config_get_size flow_table_alloc flow_table_learn_internal flow_table_has_external nf_init
    nf_handle run view find holds entry bytes_eq pool_young
evaluation = tt

abbrev items : List ConfigItem
items =
    record { name = codes "external device"; value = 1 }
    ∷ record { name = codes "expiration time"; value = 100 }
    ∷ record { name = codes "max flows"; value = 1 }
    ∷ []

abbrev pub start : Firewall
start = record {
  external_device = 1;
  table = record {
    flows = zero_flow ∷ [];
    flow_indexes = record { items = zero_item ∷ []; key_size = 16; capacity = 1 };
    port_allocator = record {
      timestamps = 0xffff_ffff_ffff_ffff ∷ [];
      size = 1;
      expiration_time = 100;
      last_borrowed_index = 0;
    };
  };
}

starts : nf_init items 2 ≡ some start
unfolding evaluation
starts = refl

start_result : (nf : Firewall) × (nf_init items 2 ≡ some nf) × Started 1 100 1 nf
unfolding evaluation
start_result =
    nf_init-Started items {external_device = 1} {expiration_time = 100} {max_flows = 1} refl refl
      refl

start-Started : Started 1 100 1 start
start-Started = result_of {P = Started 1 100 1} start_result starts

-- A UDP packet from 10.0.0.1:4660 to 8.8.8.8:53, and its answer.
abbrev pub request : Packet
request = record {
  bytes = headers (10 ∷ 0 ∷ 0 ∷ 1 ∷ 8 ∷ 8 ∷ 8 ∷ 8 ∷ []) (0x12 ∷ 0x34 ∷ 0 ∷ 53 ∷ []);
  length = 58;
  time = 1000;
  device = 0;
}

abbrev pub answer : Packet
answer = record {
  bytes = headers (8 ∷ 8 ∷ 8 ∷ 8 ∷ 10 ∷ 0 ∷ 0 ∷ 1 ∷ []) (0 ∷ 53 ∷ 0x12 ∷ 0x34 ∷ []);
  length = 58;
  time = 1100;
  device = 1;
}

nf_handle-Handles_example : Handles start answer (nf_handle start answer)
nf_handle-Handles_example = nf_handle-Handles start answer start-Started.valid (omega arith)

-- The answer is dropped if it comes first, and let in after the request.
answer_first : (nf_handle start answer).1 ≡ none
unfolding evaluation
answer_first = refl

answer_second : (nf_handle (run start (request ∷ [])) answer).1 ≡ forwarded answer
unfolding evaluation
answer_second = refl

run-forwarded_example :
    (is_tcpudp answer.bytes ≡ true)
    × ((t : ℕ) × (Justified 1 100 (flow_bytes (inverted_flow answer.bytes 14 34)) (request ∷ []) t)
        × (pool_young answer.time 100 t ≡ true))
run-forwarded_example =
    run-forwarded start-Started (request ∷ []) answer (omega arith, tt) (omega arith) refl
      answer_second

abbrev request_flow : Flow
request_flow = record {
  src_ip = 0x0100000a;
  dst_ip = 0x08080808;
  src_port = 0x3412;
  dst_port = 0x3500;
  protocol = 17;
}

first_learned :
    let table' = flow_table_learn_internal start.table 1000 request_flow in
    Used start.table 1000 request_flow table'
    ⊎ (IsFull start.table 1000
        × (table' ≡ start.table)
        × (last_use start.table (flow_bytes request_flow) ≡ none))
first_learned = flow_table_learn_internal-Used start-Started.valid 1000 (omega arith) request_flow

-- The table after the request.
abbrev learned : Firewall
learned = run start (request ∷ [])

learned-Used : Used start.table 1000 request_flow learned.table
unfolding evaluation
learned-Used = elim first_learned [
  | inl u ↦ u
  | inr (_, same, absent) ↦
      let clash : ◌≡◌ {A = Option ℕ} (some 1000) none =
        ap (λ t. last_use t (flow_bytes request_flow)) same ∙ absent in
      absurd (cc)
]

-- A packet of another flow, which finds no room.
abbrev crowd : Packet
crowd = record {
  bytes = headers (10 ∷ 0 ∷ 0 ∷ 2 ∷ 8 ∷ 8 ∷ 8 ∷ 8 ∷ []) (0x12 ∷ 0x34 ∷ 0 ∷ 53 ∷ []);
  length = 58;
  time = 1090;
  device = 0;
}

run-answered_example : (nf_handle (run learned (crowd ∷ [])) answer).1 ≡ forwarded answer
unfolding evaluation
run-answered_example =
    run-answered 1000 request_flow learned (crowd ∷ []) answer
      (record { valid = learned-Used.valid; device = refl; expires = learned-Used.same_expiration })
      (omega arith, tt) (omega arith, refl, tt) 1000 learned-Used.seen (omega arith) (omega arith)
      refl refl refl refl
