-- ===== src/Dhcp/Start.antt =====
-- nf/dhcp_ipv4/dhcp.c: what `nf_init` sets up, and what a run of messages keeps.
use klint.Base.{
  ℕ, ◌+◌, ◌-◌, ◌%◌, ◌^◌, ◌≤◌, ◌<◌, ◌≡◌, refl, ◌≢◌, bit_and, true, false, none, some, List, ltb,
  replicate, length-replicate, ◌==◌, if◌then◌else◌, sym, ◌∙◌, arith,
}
use klint.Memory.Words.{length-bytes_of}
use klint.Map.{Map, map_with_memory}
use klint.IndexPool.{index_pool_alloc}
use klint.KeyTable.View.{view-none}
use klint.KeyTable.Store.{fresh-IsStore}
use klint.Config.{ConfigItem, codes, os_config_get_u32, os_config_get_size}
use klint.Config.Get.{os_config_get_size-lt}
use klint.Dhcp.{
  Server, Range, sizeof_eth, eth_bytes, is_free, available, adjusted, populate, nf_init,
}
use klint.Dhcp.Addresses.{hits, populate-Filled}
use klint.Dhcp.Clients.{IsValid, address_of, ip_at}

-- The addresses that a server may lease.
abbrev pub range_of : Server → ℕ → Range
range_of s capacity = record {
  capacity = capacity;
  dhcp_server_ip = s.dhcp_server_ip;
  gateway_ip = s.gateway_ip;
  dns_server_ip = s.dns_server_ip;
}

-- In the subnet, neither the first nor the last address, and none of the three that are taken.
abbrev pub IsLeasable : Server → ℕ → Type 0
IsLeasable s ip =
    let subnet = bit_and s.dhcp_server_ip s.subnet_mask in
    (subnet < ip)
    × (ip < subnet + available s.subnet_mask)
    × (ip ≢ s.dhcp_server_ip)
    × (ip ≢ s.gateway_ip)
    × (ip ≢ s.dns_server_ip)

hits-le : (range : Range) (first limit : ℕ) → hits range first limit ≤ 3
hits-le range first limit = ground arith

free_lem :
    (range : Range) (ip : ℕ)
    → is_free range ip ≡ true
    → (ip ≢ range.dhcp_server_ip) × (ip ≢ range.gateway_ip) × (ip ≢ range.dns_server_ip)
free_lem range ip free = (λ e. ground arith, λ e. ground arith, λ e. ground arith)

module _
    (dhcp_server_ip subnet_mask gateway_ip dns_server_ip expiration_time tmp capacity : ℕ) where
  abbrev range : Range
  range = record {
    capacity = capacity;
    dhcp_server_ip = dhcp_server_ip;
    gateway_ip = gateway_ip;
    dns_server_ip = dns_server_ip;
  }

  abbrev subnet : ℕ
  subnet = bit_and dhcp_server_ip subnet_mask

  abbrev started : Map → Server
  started eth_index_map = record {
    ip_addresses = populate range (available subnet_mask - 1) (subnet + 1) 0 (replicate capacity 0);
    eth_addresses = replicate capacity 0;
    index_pool = index_pool_alloc capacity expiration_time;
    eth_index_map = eth_index_map;
    dhcp_server_eth_addr = tmp % 2 ^ 48;
    dhcp_server_ip = dhcp_server_ip;
    subnet_mask = subnet_mask;
    gateway_ip = gateway_ip;
    dns_server_ip = dns_server_ip;
    expiration_time = expiration_time;
  }

  -- The server with an empty table of that capacity.
  abbrev IsStarted : Server → Type 0
  IsStarted s =
      IsValid s
      × (s.index_pool.size ≡ capacity)
      × ((k : ℕ) → k < s.index_pool.size → IsLeasable s (ip_at s k))
      × ((client : ℕ) → address_of s client ≡ none)

  started-IsStarted :
      0 < capacity
      → capacity ≤ available subnet_mask - 4
      → 5 ≤ available subnet_mask
      → (m : Map) × (map_with_memory sizeof_eth capacity ≡ some m) × IsStarted (started m)
  started-IsStarted pos fits wide =
      let num = available subnet_mask in
      let (index_map, alloc, (valid, size, _, empty)) =
        fresh-IsStore eth_bytes 0 sizeof_eth (length-bytes_of sizeof_eth) capacity expiration_time
          (omega arith) in
      let filled =
        populate-Filled range (num - 1) (subnet + 1) (subnet + num) 0 (replicate capacity 0)
          (omega arith) pos (length-replicate {A = ℕ} capacity 0)
          (omega (arith, hits-le range (subnet + 1) (subnet + num))) in
      (
        index_map,
        alloc,
        (
          record {
            store_valid = valid;
            rising = λ j k lt below. filled.rising j k (omega arith) lt (omega (arith, size));
          },
          size,
          λ k below.
              let (low, high, free) = filled.within k (omega arith) (omega (arith, size)) in
              let (not_server, not_gateway, not_dns) = free_lem range _ free in
              (omega arith, high, not_server, not_gateway, not_dns),
          λ client.
              let absent =
                view-none valid.coherent (eth_bytes client)
                  (length-bytes_of sizeof_eth client ∙ sym valid.same_key_size) (empty client) in
              rw absent refl,
        ),
      )

abbrev smaller : ℕ → ℕ → ℕ
smaller most capacity = if ltb most capacity then most else capacity

-- With its seven parameters in the configuration, a capacity that is not zero and at least 5
-- addresses left by the mask, the DHCP server's nf_init succeeds: the table is valid and empty, it
-- has the lesser of the capacity and the addresses of the subnet less 4, and every one of its
-- addresses is inside the subnet and is not the server's, the gateway's or the name server's.
pub nf_init-IsLeasable :
    (items : List ConfigItem)
    {max_connections dhcp_server_ip subnet_mask gateway_ip dns_server_ip expiration_time tmp : ℕ}
    → os_config_get_size items (codes "max number dhcp connections") ≡ some max_connections
    → os_config_get_u32 items (codes "DHCP ipv4 address") ≡ some dhcp_server_ip
    → os_config_get_u32 items (codes "DHCP ipv4 mask") ≡ some subnet_mask
    → os_config_get_u32 items (codes "gateway ipv4 address") ≡ some gateway_ip
    → os_config_get_u32 items (codes "domain name server ip") ≡ some dns_server_ip
    → os_config_get_u32 items (codes "expiration time") ≡ some expiration_time
    → os_config_get_size items (codes "server ether address") ≡ some tmp
    → 0 < max_connections
    → 5 ≤ available subnet_mask
    → (s : Server) × (nf_init items ≡ some s)
      × IsValid s
      × (s.index_pool.size ≡ (
          if ltb (available subnet_mask - 4) max_connections
          then available subnet_mask - 4
          else max_connections))
      × ((k : ℕ) → k < s.index_pool.size → IsLeasable s (ip_at s k))
      × ((client : ℕ) → address_of s client ≡ none)
unfolding nf_init
nf_init-IsLeasable items {max_connections} {dhcp_server_ip} {subnet_mask} {gateway_ip}
      {dns_server_ip} {expiration_time} {tmp} c a m g d x e pos wide =
    let most = os_config_get_size-lt items (codes "max number dhcp connections") c in
    let capacity = smaller (available subnet_mask - 4) max_connections in
    let adjusts : adjusted (available subnet_mask) max_connections ≡ capacity = ground arith in
    let capacity_pos : 0 < capacity = ground arith in
    let fits : capacity ≤ available subnet_mask - 4 = ground arith in
    let kept : (capacity == 0) ≡ false = ground arith in
    let (index_map, alloc, (valid, size, leasable, unknown)) =
      started-IsStarted dhcp_server_ip subnet_mask gateway_ip dns_server_ip expiration_time tmp
        capacity capacity_pos fits wide in
    let s : Server =
      started dhcp_server_ip subnet_mask gateway_ip dns_server_ip expiration_time tmp capacity
        index_map in
    (
      s,
      rw (c, a, m, g, d, x, e, adjusts, kept, alloc) (refl {a = some s}),
      valid,
      size,
      leasable,
      unknown,
    )
