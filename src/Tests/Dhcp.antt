-- ===== src/Tests/Dhcp.antt =====
-- A DHCP server of 10.0.0.0/28, numbered with the first byte highest.
use klint.Base.{ℕ, ◌<◌, ◌≡◌, refl, none, some, List, [], ◌∷◌, ◌++◌, replicate, arith}
use klint.Memory.{memory_hash, memory_eq}
use klint.Memory.Words.{bytes_of, load, store}
use klint.Map.{
  zero_item, map_with_memory, map_get, map_set, map_remove, loop, same_key, get_real_capacity,
  grow_capacity,
}
use klint.IndexPool.{index_pool_alloc, index_pool_borrow, index_pool_refresh}
use klint.Config.{ConfigItem, codes, os_config_get_u32, os_config_get_size}
use klint.Dhcp.{Server, populate, nf_init, eth_bytes}
use klint.Dhcp.Messages.{
  Message, set_dhcp_response_option, set_values, set_dhcp_nack_option, respond,
  create_dhcp_ack_message, is_dhcp_request_message_accepted, lease_at, lease,
  try_create_dhcp_discover_message, client_identifier_value, yaddr, op, dhcp_message_type_value,
  nf_handle,
}
use klint.Dhcp.Clients.{IsValid, address_of, ip_at, Offers, Accepts}
use klint.Dhcp.Leases.{
  try_create_dhcp_discover_message-Offers, is_dhcp_request_message_accepted-Accepts,
}
use klint.Net.{Packet}
use klint.Dhcp.Answers.{respond-fields}
use klint.Dhcp.Run.{
  nf_handle-silent, Event, discover, step, run, IsServing, run-IsServing, run-address_of,
}
use klint.Dhcp.Start.{IsLeasable, nf_init-IsLeasable}
use klint.Tests.{result_of}

evaluation : Unit {0}
unfolding map_with_memory get_real_capacity grow_capacity map_get map_set map_remove loop same_key
    memory_hash memory_eq bytes_of load store index_pool_alloc index_pool_borrow index_pool_refresh
    os_config_get_u32 os_config_get_size populate nf_init set_dhcp_response_option set_values
    set_dhcp_nack_option respond create_dhcp_ack_message step run is_dhcp_request_message_accepted
    lease_at lease try_create_dhcp_discover_message
evaluation = tt

-- The server, the gateway and the name server are 10.0.0.1, 10.0.0.3 and 10.0.0.4.
abbrev items : List ConfigItem
items =
    record { name = codes "max number dhcp connections"; value = 2 }
    ∷ record { name = codes "DHCP ipv4 address"; value = 0x0a00_0001 }
    ∷ record { name = codes "DHCP ipv4 mask"; value = 0xffff_fff0 }
    ∷ record { name = codes "gateway ipv4 address"; value = 0x0a00_0003 }
    ∷ record { name = codes "domain name server ip"; value = 0x0a00_0004 }
    ∷ record { name = codes "expiration time"; value = 3600 }
    ∷ record { name = codes "server ether address"; value = 2 }
    ∷ []

nf_init-IsLeasable_example :
    (s : Server) × (nf_init items ≡ some s)
    × IsValid s
    × (s.index_pool.size ≡ 2)
    × ((k : ℕ) → k < s.index_pool.size → IsLeasable s (ip_at s k))
    × ((client : ℕ) → address_of s client ≡ none)
unfolding evaluation
nf_init-IsLeasable_example =
    nf_init-IsLeasable items {max_connections = 2} {dhcp_server_ip = 0x0a00_0001}
      {subnet_mask = 0xffff_fff0} {gateway_ip = 0x0a00_0003} {dns_server_ip = 0x0a00_0004}
      {expiration_time = 3600} {tmp = 2} refl refl refl refl refl refl refl (omega arith)
      (omega arith)

abbrev start : Server
start = record {
  ip_addresses = 0x0a00_0002 ∷ 0x0a00_0005 ∷ [];
  eth_addresses = 0 ∷ 0 ∷ [];
  index_pool = index_pool_alloc 2 3600;
  eth_index_map = record { items = zero_item ∷ zero_item ∷ []; key_size = 6; capacity = 2 };
  dhcp_server_eth_addr = 2;
  dhcp_server_ip = 0x0a00_0001;
  subnet_mask = 0xffff_fff0;
  gateway_ip = 0x0a00_0003;
  dns_server_ip = 0x0a00_0004;
  expiration_time = 3600;
}

starts : nf_init items ≡ some start
unfolding evaluation
starts = refl

start-IsServing : IsServing start
start-IsServing =
    let (s, e, v, _, leasable, _) = nf_init-IsLeasable_example in
    result_of {P = IsServing} (s, e, record { valid = v; leasable = leasable }) starts

-- A message of client number n, which asks for an address.
abbrev message : ℕ → ℕ → Message
message n ip = record {
  header = 1 ∷ replicate 239 0;
  options =
      53 ∷ 1 ∷ 1 ∷ 61 ∷ 7 ∷ 1 ∷ (bytes_of 6 n ++ (50 ∷ 4 ∷ (bytes_of 4 ip ++ replicate 20 0)));
}

-- Two clients, one after the other.
abbrev events : List Event
events = discover (message 7 0) 1000 ∷ discover (message 8 0) 1001 ∷ []

first_address : address_of (run start events) 7 ≡ some 0x0a00_0002
unfolding evaluation
first_address = refl

second_address : address_of (run start events) 8 ≡ some 0x0a00_0005
unfolding evaluation
second_address = refl

run-address_of_example :
    IsLeasable (run start events) 0x0a00_0005
    × ((other : ℕ)
        → address_of (run start events) other ≡ some 0x0a00_0005
        → eth_bytes 8 ≡ eth_bytes other)
run-address_of_example =
    run-address_of events 8 {ip = 0x0a00_0005} start-IsServing (omega arith, (omega arith, tt))
      second_address

-- The table after the two.
abbrev leased : Server
leased = run start events

leased-IsServing : IsServing leased
leased-IsServing = run-IsServing events start-IsServing (omega arith, (omega arith, tt))

-- The first client asks once more.
try_create_dhcp_discover_message-Offers_example :
    Offers leased (message 7 0) 1002 (try_create_dhcp_discover_message leased (message 7 0) 1002)
try_create_dhcp_discover_message-Offers_example =
    try_create_dhcp_discover_message-Offers leased-IsServing.valid (message 7 0) 1002 (omega arith)

-- The first client asks for the address that it was offered.
is_dhcp_request_message_accepted-Accepts_example :
    Accepts leased
      (message 7 0x0a00_0002)
      1002
      (address_of leased (client_identifier_value (message 7 0x0a00_0002)))
      (is_dhcp_request_message_accepted leased (message 7 0x0a00_0002) 1002)
is_dhcp_request_message_accepted-Accepts_example =
    is_dhcp_request_message_accepted-Accepts leased-IsServing.valid (message 7 0x0a00_0002) 1002
      (omega arith)

-- The offer for the first client.
offer_fields :
    let answer = respond start 2 0x0a00_0002 (message 7 0) in
    (op answer ≡ 2)
    × (yaddr answer ≡ 0x0a00_0002)
    × (dhcp_message_type_value answer ≡ 2)
    × (load answer.options 5 4 ≡ 0x0a00_0001)
    × (load answer.options 29 4 ≡ 0x0a00_0004)
    × (load answer.options 23 4 ≡ 0x0a00_0003)
    × (load answer.options 11 4 ≡ 0xffff_fff0)
    × (load answer.options 17 4 ≡ 3600)
unfolding bytes_of
offer_fields = respond-fields start 2 0x0a00_0002 (message 7 0) (omega arith) (omega arith)

silent : (packet : Packet) → nf_handle start packet ≡ (start, none)
silent packet = nf_handle-silent start packet
