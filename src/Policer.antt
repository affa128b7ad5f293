-- ===== src/Policer.antt =====
-- nf/policer/policer.c: a token bucket for each address behind the WAN device. A packet to an address
-- takes its length from the address' bucket, which fills at the rate up to the burst.
pub mod Refill
pub mod Table
pub mod Handle
pub mod Credit
pub mod Limit
pub mod Run
pub mod Window
pub mod Passes
use klint.Base.{
  ℕ, ◌+◌, ◌-◌, ◌*◌, ◌/◌, ◌%◌, ◌^◌, Bool, true, false, not, ◌||◌, Option, none, some, List, get_or,
  set, replicate, ltb, ◌==◌, if◌then◌else◌,
}
use klint.Base.Options.{◌>>=◌}
use klint.Memory.{u64_mod, u16_mod}
use klint.Memory.Words.{bytes_of}
use klint.Map.{Map, map_with_memory, map_get, map_set, map_remove}
use klint.IndexPool.{IndexPool, Borrowed, index_pool_alloc, index_pool_borrow, index_pool_refresh}
use klint.Net.{
  Packet, Output, net_transmit, net_get_ether_header, net_get_ipv4_header, dst_addr, no_flags,
}
use klint.Config.{ConfigItem, codes, os_config_get_device, os_config_get_u64, os_config_get_size}

-- `struct policer_bucket`.
pub record Bucket : Type 0 where
  pub size : ℕ
  pub time : ℕ

abbrev pub zero_bucket : Bucket
zero_bucket = record { size = 0; time = 0 }

-- The global variables.
pub record Policer : Type 0 where
  pub wan_device : ℕ
  pub rate : ℕ
  pub burst : ℕ
  pub buckets : List Bucket
  pub addresses : List ℕ
  pub map : Map
  pub pool : IndexPool

-- `sizeof(uint32_t)`.
abbrev pub sizeof_address : ℕ
sizeof_address = 4

abbrev pub address_bytes : ℕ → List ℕ
address_bytes address = bytes_of sizeof_address address

-- What stands at `&(addresses[k])`, for each k.
abbrev pub address_memory : List ℕ → ℕ → List ℕ
address_memory addresses k = address_bytes (get_or addresses k 0)

abbrev pub bucket_at : Policer → ℕ → Bucket
bucket_at nf index = get_or nf.buckets index zero_bucket

-- `1000000000ull * burst / rate`, on 64 bits.
abbrev pub expiration_of : ℕ → ℕ → ℕ
expiration_of rate burst = 1000000000 * burst % u64_mod / rate

-- `none` for `false`.
unfoldable pub nf_init : List ConfigItem → ℕ → Option Policer
nf_init items devices_count = if not (devices_count == 2) then none else (do
  wan_device ← os_config_get_device items (codes "wan device") devices_count
  rate ← os_config_get_u64 items (codes "rate")
  burst ← os_config_get_u64 items (codes "burst")
  max_flows ← os_config_get_size items (codes "max flows")
  if rate == 0 || burst == 0 then none else (do
    map ← map_with_memory sizeof_address max_flows
    some (record {
      wan_device = wan_device;
      rate = rate;
      burst = burst;
      buckets = replicate max_flows zero_bucket;
      addresses = replicate max_flows 0;
      map = map;
      pool = index_pool_alloc max_flows (expiration_of rate burst);
    })))

-- The size of a bucket at the time of a packet, before the packet takes its length; the difference of
-- the times and the sum wrap.
unfoldable pub refilled : ℕ → ℕ → Bucket → ℕ → ℕ
refilled rate burst bucket time =
    let time_diff = (time + u64_mod - bucket.time) % u64_mod in
    let size = (bucket.size + time_diff * rate % u64_mod) % u64_mod in
    if ltb time_diff (burst / rate) then (if ltb burst size then burst else size) else burst

-- `(device_t) (1 - packet->device)`
abbrev pub other_device : ℕ → ℕ
other_device device = (1 + u16_mod - device) % u16_mod

abbrev pub passed : Packet → Option Output
passed packet = some (net_transmit packet (other_device packet.device) no_flags)

-- A packet to an address that has an index.
handle_known : Policer → Packet → ℕ → Policer × Option Output
unfolding refilled get_or
handle_known nf packet index =
    let size = refilled nf.rate nf.burst (bucket_at nf index) packet.time in
    let put = λ (left : ℕ). record nf {
      pool = index_pool_refresh nf.pool packet.time index;
      buckets = set nf.buckets index (record { size = left; time = packet.time });
    } in
    if ltb packet.length size then (put (size - packet.length), passed packet) else (put size, none)

-- The rest of `nf_handle` for an address without an index, after the call of `index_pool_borrow`.
admit_at : Policer → Packet → ℕ → Borrowed → Policer × Option Output
unfolding get_or
admit_at nf packet address (pool, none) = (record nf { pool = pool }, none)
admit_at nf packet address (pool, some (index, was_used)) =
    let map = if was_used then map_remove (address_memory nf.addresses) nf.map index else nf.map in
    let addresses = set nf.addresses index address in
    (
      record nf {
        addresses = addresses;
        map = map_set (address_memory addresses) map index index;
        pool = pool;
        buckets =
            set nf.buckets index (record { size = nf.burst - packet.length; time = packet.time });
      },
      passed packet,
    )

-- A packet from the WAN device to the address.
unfoldable pub police : Policer → Packet → ℕ → Policer × Option Output
unfolding handle_known admit_at get_or
police nf packet address =
    elim (map_get (address_memory nf.addresses) nf.map (address_bytes address)) [
      | some index ↦ handle_known nf packet index
      | none ↦
          if ltb nf.burst packet.length
          then (nf, none)
          else admit_at nf packet address (index_pool_borrow nf.pool packet.time)
    ]

-- The getters that `nf_handle` begins with: the offset of the IPv4 header.
unfoldable pub get_ipv4 : Packet → Option ℕ
unfolding net_get_ether_header net_get_ipv4_header
get_ipv4 packet = do ether ← net_get_ether_header packet; net_get_ipv4_header packet.bytes ether

unfoldable pub nf_handle : Policer → Packet → Policer × Option Output
unfolding get_ipv4 police
nf_handle nf packet = elim (get_ipv4 packet) [
  | none ↦ (nf, none)
  | some ipv4 ↦
      if packet.device == nf.wan_device
      then police nf packet (dst_addr packet.bytes ipv4)
      else (nf, passed packet)
]
