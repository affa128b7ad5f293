-- ===== src/Router.antt =====
-- nf/router/router.c: a router over a longest prefix match, which is a parameter: its implementation is
-- not in the repository. The packets of the last device are commands that add entries.
pub mod History
use klint.Base.{
  ℕ, ◌+◌, ◌*◌, ◌/◌, ◌%◌, Bool, true, false, not, Option, none, some, List, ltb, ◌==◌, if◌then◌else◌,
}
use klint.Base.Options.{◌>>=◌}
use klint.Memory.Words.{load}
use klint.Net.{
  Packet, Output, net_transmit, net_get_ether_header, net_get_ipv4_header, dst_addr,
  update_ether_addrs,
}
use klint.Config.{ConfigItem, codes, os_config_get_size}

-- The calls of env/include/structs/lpm.h that the router makes, on keys and values as numbers.
pub record Lpm (T : Type 0) : Type 0 where
  -- With a key size, a value size and a capacity.
  pub lpm_alloc : ℕ → ℕ → ℕ → T
  -- With a key, a width and a value.
  pub lpm_set : T → ℕ → ℕ → ℕ → T × Bool
  pub lpm_search : T → ℕ → Option ℕ

-- The global variables.
pub record Router (T : Type 0) : Type 0 where
  pub devices_count : ℕ
  pub lpm : T

-- Fields of the IPv4 header, at their offsets.
abbrev pub version_ihl : List ℕ → ℕ → ℕ
version_ihl bytes ipv4 = load bytes ipv4 1

abbrev pub total_length : List ℕ → ℕ → ℕ
total_length bytes ipv4 = load bytes (ipv4 + 2) 2

abbrev pub time_to_live : List ℕ → ℕ → ℕ
time_to_live bytes ipv4 = load bytes (ipv4 + 8) 1

unfoldable pub net_ipv4_checksum_valid : List ℕ → ℕ → Bool
net_ipv4_checksum_valid bytes ipv4 = true

-- The tests before the search.
unfoldable pub check : List ℕ → ℕ → Bool
unfolding load net_ipv4_checksum_valid
check bytes ipv4 =
    if not (version_ihl bytes ipv4 / 16 == 4)
    then false
    else if ltb (version_ihl bytes ipv4 % 16) 5
    then false
    else if ltb (total_length bytes ipv4) (version_ihl bytes ipv4 % 16 * 4)
    then false
    else if not (net_ipv4_checksum_valid bytes ipv4)
    then false
    else not (time_to_live bytes ipv4 == 0)

module _ {T : Type 0} (api : Lpm T) where
  -- `none` for `false`.
  unfoldable pub nf_init : List ConfigItem → ℕ → Option (Router T)
  nf_init items devices_count = do
    capacity ← os_config_get_size items (codes "capacity")
    some (record { devices_count = devices_count; lpm = api.lpm_alloc 4 2 capacity })

  -- A packet of the last device.
  unfoldable pub command : Router T → Packet → Router T
  unfolding load
  command nf packet =
      let key = load packet.bytes 0 4 in
      let width = load packet.bytes 4 8 in
      if ltb 32 width
      then nf
      else record nf { lpm = (api.lpm_set nf.lpm key width (load packet.bytes 12 2)).0 }

  -- A packet of another device.
  unfoldable pub route : Router T → Packet → Option Output
  unfolding check net_get_ether_header net_get_ipv4_header load
  route nf packet = do
    ether ← net_get_ether_header packet
    ipv4 ← net_get_ipv4_header packet.bytes ether
    dst_device ←
        if check packet.bytes ipv4 then api.lpm_search nf.lpm (dst_addr packet.bytes ipv4) else none
    some (net_transmit packet dst_device update_ether_addrs)

  unfoldable pub nf_handle : Router T → Packet → Router T × Option Output
  unfolding command route
  nf_handle nf packet =
      if packet.device + 1 == nf.devices_count
      then (command nf packet, none)
      else (nf, route nf packet)
