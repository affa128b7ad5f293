-- ===== src/Tests/Nat.antt =====
-- A network address translator with room for one flow, ports from 5000 on, and the external address
-- 1.2.3.4.
use klint.Base.{
  ℕ, zero, suc, ◌<◌, ◌≡◌, ◌≢◌, refl, ◌⊎◌, none, some, true, List, [], ◌∷◌, bytes_eq, inl, inr,
  arith, ◌^◌, ◌%◌, ◌/◌,
}
use klint.Memory.{memory_hash, memory_eq, u16_mod, u32_mod}
use klint.Memory.Words.{load, store}
use klint.Map.{
  zero_item, map_with_memory, map_get, map_set, map_remove, loop, same_key, get_real_capacity,
  grow_capacity,
}
use klint.Map.Slots.{find, holds}
use klint.IndexPool.{index_pool_alloc, index_pool_borrow, index_pool_refresh, index_pool_used}
use klint.IndexPool.Spec.{entry, pool_young}
use klint.KeyTable.View.{view}
use klint.Flow.{Flow, flow_bytes, zero_flow, packet_flow}
use klint.Net.{
  Packet, Output, net_transmit, update_ether_addrs, get_headers, updated_checksum,
  net_packet_checksum_update_32, net_packet_checksum_update, src_addr, dst_addr, src_port, dst_port,
  next_proto_id,
}
use klint.Config.{
  ConfigItem, codes, os_config_get_device, os_config_get_time, os_config_get_size,
  os_config_get_u16, os_config_get_u32,
}
use klint.Nat.{
  FlowTable, Nat, nf_init, nf_handle, flow_table_alloc, flow_table_get_internal,
  flow_table_get_external, port_of, translate_in, translate_out,
}
use klint.Nat.Table.{IsValid, UsesFlow, Refuses, flow_use, flow_table_get_internal-UsesFlow}
use klint.Nat.Ports.{get_external-get_internal, port_of-injective}
use klint.Nat.Translate.{translate_in-fields, translate_out-fields}
use klint.Nat.SourceAddr.{translate_in-src_addr}
use klint.Nat.Handle.{nf_init-IsValid, Translates, nf_handle-Translates}
use klint.Net.Headers.{is_tcpudp}
use klint.Nat.History.{run}
use klint.Nat.Safety.{AnswersFlow, run-AnswersFlow}
use klint.Tests.{result_of}
use klint.Tests.Packets.{headers}

-- Everything that a run of the translator computes with.
evaluation : Unit {0}
unfolding map_with_memory get_real_capacity grow_capacity map_get map_set map_remove loop same_key
    memory_hash memory_eq index_pool_alloc index_pool_borrow index_pool_refresh index_pool_used
    flow_bytes packet_flow load store get_headers os_config_get_device os_config_get_time
    os_config_get_size os_config_get_u16 os_config_get_u32 flow_table_alloc flow_table_get_internal
    flow_table_get_external nf_init nf_handle view find holds entry bytes_eq pool_young
    updated_checksum net_packet_checksum_update net_packet_checksum_update_32 translate_in
    translate_out
evaluation = tt

abbrev items : List ConfigItem
items =
    record { name = codes "external addr"; value = 0x04030201 }
    ∷ record { name = codes "wan device"; value = 1 }
    ∷ record { name = codes "max flows"; value = 1 }
    ∷ record { name = codes "expiration time"; value = 100 }
    ∷ record { name = codes "start port"; value = 5000 }
    ∷ []

abbrev pub start : Nat
start = record {
  external_addr = 0x04030201;
  wan_device = 1;
  table = record {
    flows = zero_flow ∷ [];
    flow_indexes = record { items = zero_item ∷ []; key_size = 16; capacity = 1 };
    port_allocator = record {
      timestamps = 0xffff_ffff_ffff_ffff ∷ [];
      size = 1;
      expiration_time = 100;
      last_borrowed_index = 0;
    };
    max_flows = 1;
    start_port = 5000;
  };
}

starts : nf_init items 2 ≡ some start
unfolding evaluation
starts = refl

start_result :
    (nf : Nat) × (nf_init items 2 ≡ some nf)
    × IsValid nf.table
    × (nf.external_addr ≡ 0x04030201)
    × (nf.wan_device ≡ 1)
    × (1 < 2)
    × (nf.table.max_flows ≡ 1)
    × (nf.table.start_port ≡ 5000)
    × (nf.table.port_allocator.expiration_time ≡ 100)
    × ((flow : Flow) → flow_use nf.table flow ≡ none)
unfolding evaluation
start_result =
    nf_init-IsValid items {external_addr = 0x04030201} {wan_device = 1} {max_flows = 1}
      {expiration_time = 100} {start_port = 5000} refl refl refl refl refl

start-IsValid : IsValid start.table
start-IsValid =
    result_of {P = λ nf. IsValid nf.table} (start_result.0, start_result.1, start_result.2) starts

start_unused : (f : Flow) → flow_use start.table f ≡ none
start_unused =
    let (nf, e, _, _, _, _, _, _, _, unused) = start_result in
    result_of {P = λ nf. (f : Flow) → flow_use nf.table f ≡ none} (nf, e, unused) starts

abbrev flow : Flow
flow = record {
  src_ip = 0x0100000a;
  dst_ip = 0x08080808;
  src_port = 0x3412;
  dst_port = 0x3500;
  protocol = 17;
}

-- The flow gets port 5000.
first_port : (flow_table_get_internal start.table 1000 flow).1 ≡ some 5000
unfolding evaluation
first_port = refl

first_used :
    let (table', port) = flow_table_get_internal start.table 1000 flow in
    ((index : ℕ) × (port ≡ some (port_of start.table index))
      × UsesFlow start.table 1000 index flow table')
    ⊎ ((port ≡ none) × Refuses start.table 1000 flow table')
first_used = flow_table_get_internal-UsesFlow start-IsValid 1000 (omega arith) flow

get_external-get_internal_example :
    (flow' : Flow) × ((flow_table_get_external
        (flow_table_get_internal start.table 1000 flow).0
        1100
        5000).1
      ≡ some flow')
    × (flow_bytes flow' ≡ flow_bytes flow)
get_external-get_internal_example =
    get_external-get_internal start-IsValid 1000 1100 5000 flow (omega arith) (omega arith)
      (omega arith) (unfold evaluation in refl) first_port

learned-UsesFlow :
    UsesFlow start.table 1000 0 flow (flow_table_get_internal start.table 1000 flow).0
unfolding evaluation
learned-UsesFlow = elim first_used [
  | inl (zero, _, u) ↦ u
  | inl (suc i, _, u) ↦ absurd (omega (arith, u.uses.index_lt))
  | inr (refused, _) ↦ absurd (cc)
]

abbrev learned : FlowTable
learned = (flow_table_get_internal start.table 1000 flow).0

own_port : flow_bytes flow ≡ flow_bytes flow
own_port =
    port_of-injective learned-UsesFlow.valid flow flow 0 0
      (omega (arith, learned-UsesFlow.same_ports.1)) learned-UsesFlow.uses.found
      learned-UsesFlow.uses.found refl

-- A UDP packet from 10.0.0.1:4660 to 8.8.8.8:53.
abbrev pub request : Packet
request = record {
  bytes = headers (10 ∷ 0 ∷ 0 ∷ 1 ∷ 8 ∷ 8 ∷ 8 ∷ 8 ∷ []) (0x12 ∷ 0x34 ∷ 0 ∷ 53 ∷ []);
  length = 58;
  time = 1000;
  device = 0;
}

-- Its answer, to 1.2.3.4:5000; in memory the port's bytes are in the other order.
abbrev answer : List ℕ
answer = headers (8 ∷ 8 ∷ 8 ∷ 8 ∷ 1 ∷ 2 ∷ 3 ∷ 4 ∷ []) (0 ∷ 53 ∷ 0x88 ∷ 0x13 ∷ [])

nf_handle-Translates_example : Translates start request (nf_handle start request)
nf_handle-Translates_example = nf_handle-Translates start request start-IsValid (omega arith)

translate_in-fields_example :
    let bytes' = translate_in answer 14 34 flow in
    (dst_addr bytes' 14 ≡ flow.src_ip % u32_mod)
    × (dst_port bytes' 34 ≡ flow.src_port % u16_mod)
    × (src_port bytes' 34 ≡ src_port answer 34)
    × (next_proto_id bytes' 14 ≡ next_proto_id answer 14)
    × (load bytes' 0 14 ≡ load answer 0 14)
    × (load bytes' 24 2 ≡ load answer 24 2)
translate_in-fields_example = translate_in-fields answer flow (omega arith)

translated_out :
    let bytes' = translate_out request.bytes 14 34 0x04030201 5000 in
    (src_addr bytes' 14 ≡ 0x04030201 % u32_mod)
    × (src_port bytes' 34 ≡ 5000 % u16_mod)
    × (dst_addr bytes' 14 ≡ dst_addr request.bytes 14)
    × (dst_port bytes' 34 ≡ dst_port request.bytes 34)
    × (next_proto_id bytes' 14 ≡ next_proto_id request.bytes 14)
    × (load bytes' 0 14 ≡ load request.bytes 0 14)
    × (load bytes' 24 2 ≡ load request.bytes 24 2)
translated_out = translate_out-fields request.bytes 0x04030201 5000 (omega arith)

translate_in-src_addr_example :
    let old = dst_addr answer 14 in
    load (translate_in answer 14 34 flow) 26 2
    ≡ updated_checksum
        (updated_checksum (load answer 26 2) (old % u16_mod) (flow.src_ip % u16_mod))
        (old / 2 ^ 16 % u16_mod)
        (flow.src_ip / 2 ^ 16 % u16_mod)
translate_in-src_addr_example = translate_in-src_addr answer flow (omega arith)

-- The answer from 8.8.8.8 is delivered as one from another address.
wrong_source : src_addr (translate_in answer 14 34 flow) 14 ≢ src_addr answer 14
unfolding evaluation
wrong_source = omega arith

-- The answer comes in time.
abbrev answer_packet : Packet
answer_packet = record { bytes = answer; length = 58; time = 1050; device = 1 }

abbrev delivered : Output
delivered =
    net_transmit (record answer_packet { bytes = translate_in answer 14 34 flow }) 0
      update_ether_addrs

run-AnswersFlow_example :
    (is_tcpudp answer ≡ true) × AnswersFlow start (request ∷ []) answer_packet (some delivered)
unfolding evaluation run
run-AnswersFlow_example =
    run-AnswersFlow start start-IsValid start_unused (request ∷ []) answer_packet {out = delivered}
      (omega arith, tt) (omega arith) refl refl
