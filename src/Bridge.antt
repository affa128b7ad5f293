-- ===== src/Bridge.antt =====
-- nf/bridge/bridge.c: a learning bridge. The device at which an address was last seen is where packets
-- to it go; packets to other addresses are flooded.
pub mod Table
pub mod Handle
pub mod Sends
pub mod History
use klint.Base.{
  ℕ, ◌-◌, bit_and, Bool, true, false, not, Option, none, some, List, get_or, set, replicate, ltb,
  ◌==◌, if◌then◌else◌,
}
use klint.Base.Options.{◌>>=◌}
use klint.Memory.Words.{bytes_of, load}
use klint.Map.{Map, map_with_memory, map_get, map_set, map_remove}
use klint.IndexPool.{IndexPool, Borrowed, index_pool_alloc, index_pool_borrow, index_pool_refresh}
use klint.Net.{Packet, Output, net_transmit, net_flood_except, no_flags}
use klint.Config.{ConfigItem, codes, os_config_get_u64, os_config_get_time, os_config_get_size}
use klint.SpanningTree.{StpState, stp_init, stp_handle, stp_blocked_devices}

-- The global variables.
pub record Bridge : Type 0 where
  pub stp_state : StpState
  pub addresses : List ℕ
  pub devices : List ℕ
  pub map : Map
  pub allocator : IndexPool

-- `sizeof(struct net_ether_addr)`.
abbrev pub sizeof_ether_addr : ℕ
sizeof_ether_addr = 6

abbrev pub ether_bytes : ℕ → List ℕ
ether_bytes address = bytes_of sizeof_ether_addr address

-- The addresses of the Ethernet header, as numbers of six bytes.
abbrev pub ether_dst : List ℕ → ℕ
ether_dst bytes = load bytes 0 6

abbrev pub ether_src : List ℕ → ℕ
ether_src bytes = load bytes 6 6

-- What stands at `&(addresses[k])`, for each k.
abbrev pub ether_memory : List ℕ → ℕ → List ℕ
ether_memory addresses k = ether_bytes (get_or addresses k 0)

-- `none` for `false`.
unfoldable pub nf_init : List ConfigItem → ℕ → Option Bridge
unfolding stp_init
nf_init items devices_count = if ltb devices_count 2 then none else (do
  self_bid ← os_config_get_u64 items (codes "bid")
  expiration_time ← os_config_get_time items (codes "expiration time")
  capacity ← os_config_get_size items (codes "capacity")
  stp_update_time ← os_config_get_time items (codes "stp update time")
  map ← map_with_memory sizeof_ether_addr capacity
  some (record {
    stp_state = stp_init devices_count self_bid stp_update_time;
    addresses = replicate capacity 0;
    devices = replicate capacity 0;
    map = map;
    allocator = index_pool_alloc capacity expiration_time;
  }))

-- The address is not one of a group.
abbrev pub is_individual : List ℕ → Bool
is_individual bytes = bit_and (load bytes 6 1) 1 == 0

-- The rest of the learning for a new address, after the call of `index_pool_borrow`.
learn_at : Bridge → ℕ → ℕ → Borrowed → Bridge
unfolding get_or
learn_at nf address device (allocator, none) = record nf { allocator = allocator }
learn_at nf address device (allocator, some (index, was_used)) =
    let map = if was_used then map_remove (ether_memory nf.addresses) nf.map index else nf.map in
    let addresses = set nf.addresses index address in
    record nf {
      addresses = addresses;
      map = map_set (ether_memory addresses) map index index;
      allocator = allocator;
      devices = set nf.devices index device;
    }

-- The address is at the device.
unfoldable pub learn : Bridge → ℕ → ℕ → ℕ → Bridge
unfolding learn_at get_or
learn nf address time device =
    elim (map_get (ether_memory nf.addresses) nf.map (ether_bytes address)) [
      | some index ↦ record nf {
        allocator = index_pool_refresh nf.allocator time index;
        devices = set nf.devices index device;
      }
      | none ↦ learn_at nf address device (index_pool_borrow nf.allocator time)
    ]

-- Where a packet goes.
unfoldable pub forward : Bridge → Packet → Option Output
unfolding get_or load
forward nf packet =
    elim (map_get (ether_memory nf.addresses) nf.map (ether_bytes (ether_dst packet.bytes))) [
      | some index ↦
          let device = get_or nf.devices index 0 in
          if not (device == packet.device) then some (net_transmit packet device no_flags) else none
      | none ↦ some (net_flood_except packet (stp_blocked_devices nf.stp_state) no_flags)
    ]

-- `nf_handle` after `stp_handle`.
handle_after_stp : Bridge → Packet → StpState × Option (Option Output) → Bridge × Option Output
unfolding learn forward load
handle_after_stp nf packet (stp_state, some out) = (record nf { stp_state = stp_state }, out)
handle_after_stp nf packet (stp_state, none) =
    let nf₁ = record nf { stp_state = stp_state } in
    let nf₂ =
      if is_individual packet.bytes
      then learn nf₁ (ether_src packet.bytes) packet.time packet.device
      else nf₁ in
    (nf₂, forward nf₂ packet)

unfoldable pub nf_handle : Bridge → Packet → Bridge × Option Output
unfolding handle_after_stp stp_handle
nf_handle nf packet = handle_after_stp nf packet (stp_handle nf.stp_state packet)
