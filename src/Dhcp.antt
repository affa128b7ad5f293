-- ===== src/Dhcp.antt =====
-- nf/dhcp_ipv4/dhcp.h and nf/dhcp_ipv4/dhcp.c: a server that leases the addresses of a subnet.
pub mod Messages
pub mod Answers
pub mod Addresses
pub mod Clients
pub mod Leases
pub mod Start
pub mod Run
use klint.Base.{
  ℕ, zero, suc, ◌+◌, ◌-◌, ◌%◌, ◌^◌, bit_and, Bool, true, false, not, ◌&&◌, ◌||◌, Option, none, some,
  List, get_or, set, replicate, ltb, ◌==◌, if◌then◌else◌,
}
use klint.Base.Options.{◌>>=◌}
use klint.Memory.{u64_mod, u32_mod}
use klint.Memory.Words.{bytes_of, load, store}
use klint.Map.{Map, map_with_memory, map_get, map_set, map_remove}
use klint.IndexPool.{IndexPool, Borrowed, index_pool_alloc, index_pool_borrow, index_pool_refresh}
use klint.Net.{
  Packet, net_get_ether_header, net_get_ipv4_header, net_get_tcpudp_header, next_proto_id, src_port,
  dst_port, ip_protocol_udp,
}
use klint.Config.{ConfigItem, codes, os_config_get_u32, os_config_get_size}

-- The global variables.
pub record Server : Type 0 where
  pub ip_addresses : List ℕ
  pub eth_addresses : List ℕ
  pub index_pool : IndexPool
  pub eth_index_map : Map
  pub dhcp_server_eth_addr : ℕ
  pub dhcp_server_ip : ℕ
  pub subnet_mask : ℕ
  pub gateway_ip : ℕ
  pub dns_server_ip : ℕ
  pub expiration_time : ℕ

-- `sizeof(struct net_ether_addr)`.
abbrev pub sizeof_eth : ℕ
sizeof_eth = 6

abbrev pub eth_bytes : ℕ → List ℕ
eth_bytes address = bytes_of sizeof_eth address

-- What stands at `&(eth_addresses[k])`, for each k.
abbrev pub eth_memory : List ℕ → ℕ → List ℕ
eth_memory eth_addresses k = eth_bytes (get_or eth_addresses k 0)

abbrev pub max_mask : ℕ
max_mask = 0xFFFF_FFFF

-- The addresses that the loop of `nf_init` runs through, and those that it leaves out.
pub record Range : Type 0 where
  pub capacity : ℕ
  pub dhcp_server_ip : ℕ
  pub gateway_ip : ℕ
  pub dns_server_ip : ℕ

abbrev pub is_free : Range → ℕ → Bool
is_free range ip =
    not (ip == range.dhcp_server_ip)
    && not (ip == range.gateway_ip)
    && not (ip == range.dns_server_ip)

-- The loop, from an address on for as many rounds as there are addresses before its end.
unfoldable pub populate : Range → ℕ → ℕ → ℕ → List ℕ → List ℕ
populate range zero next_avail_ip index ip_addresses = ip_addresses
populate range (suc rounds) next_avail_ip index ip_addresses =
    let free = is_free range next_avail_ip in
    let ip_addresses' = if free then set ip_addresses index next_avail_ip else ip_addresses in
    let index' = if free then index + 1 else index in
    let rest = populate range rounds (next_avail_ip + 1) index' ip_addresses' in
    if index' == range.capacity then ip_addresses' else rest

abbrev pub available : ℕ → ℕ
available subnet_mask = max_mask - subnet_mask

-- The capacity, after its adjustment; the subtraction wraps.
abbrev pub adjusted : ℕ → ℕ → ℕ
adjusted num_ipv4_addr_avail capacity =
    let most = (num_ipv4_addr_avail + u64_mod - 4) % u64_mod in
    if ltb most capacity then most else capacity

-- `none` for `false`.
unfoldable pub nf_init : List ConfigItem → Option Server
unfolding populate
nf_init items = do
  capacity₀ ← os_config_get_size items (codes "max number dhcp connections")
  dhcp_server_ip ← os_config_get_u32 items (codes "DHCP ipv4 address")
  subnet_mask ← os_config_get_u32 items (codes "DHCP ipv4 mask")
  gateway_ip ← os_config_get_u32 items (codes "gateway ipv4 address")
  dns_server_ip ← os_config_get_u32 items (codes "domain name server ip")
  expiration_time ← os_config_get_u32 items (codes "expiration time")
  tmp ← os_config_get_size items (codes "server ether address")
  capacity ←
      (if adjusted (available subnet_mask) capacity₀ == 0
        then none
        else some (adjusted (available subnet_mask) capacity₀))
  eth_index_map ← map_with_memory sizeof_eth capacity
  some (record {
    ip_addresses =
        populate
          (record {
            capacity = capacity;
            dhcp_server_ip = dhcp_server_ip;
            gateway_ip = gateway_ip;
            dns_server_ip = dns_server_ip;
          })
          (available subnet_mask - 1) (bit_and dhcp_server_ip subnet_mask + 1) 0
          (replicate capacity 0);
    eth_addresses = replicate capacity 0;
    index_pool = index_pool_alloc capacity expiration_time;
    eth_index_map = eth_index_map;
    dhcp_server_eth_addr = tmp % 2 ^ 48;
    dhcp_server_ip = dhcp_server_ip;
    subnet_mask = subnet_mask;
    gateway_ip = gateway_ip;
    dns_server_ip = dns_server_ip;
    expiration_time = expiration_time;
  })
