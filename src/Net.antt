-- ===== src/Net.antt =====
-- env/include/net/packet.h and env/include/net/tx.h: packets and their headers, and what a network
-- function asks the driver to send. A packet's memory is the list of its bytes, and a pointer to a
-- header is its offset; integers are little-endian, as on the supported CPUs.
pub mod Headers
pub mod Delivery
pub mod Times
pub mod Checksum
use klint.Base.{
  ℕ, ◌+◌, ◌-◌, ◌/◌, ◌%◌, ◌^◌, Bool, ◌||◌, Option, none, some, List, ◌==◌, if◌then◌else◌,
}
use klint.Base.Options.{◌>>=◌}
use klint.Memory.{u16_mod, u32_mod}
use klint.Memory.Words.{load, store}

-- `struct net_packet`, without the driver's own tag; `bytes` is what `data` points to.
pub record Packet : Type 0 where
  pub bytes : List ℕ
  pub length : ℕ
  pub time : ℕ
  pub device : ℕ

abbrev pub ip_protocol_tcp : ℕ
ip_protocol_tcp = 6

abbrev pub ip_protocol_udp : ℕ
ip_protocol_udp = 17

-- The fields of the headers, at their offsets.
abbrev pub ether_type : List ℕ → ℕ → ℕ
ether_type bytes ether = load bytes (ether + 12) 2

abbrev pub next_proto_id : List ℕ → ℕ → ℕ
next_proto_id bytes ipv4 = load bytes (ipv4 + 9) 1

abbrev pub src_addr : List ℕ → ℕ → ℕ
src_addr bytes ipv4 = load bytes (ipv4 + 12) 4

abbrev pub dst_addr : List ℕ → ℕ → ℕ
dst_addr bytes ipv4 = load bytes (ipv4 + 16) 4

abbrev pub src_port : List ℕ → ℕ → ℕ
src_port bytes l4 = load bytes l4 2

abbrev pub dst_port : List ℕ → ℕ → ℕ
dst_port bytes l4 = load bytes (l4 + 2) 2

-- The getters return the header's offset, or nothing for `false`.
unfoldable pub net_get_ether_header : Packet → Option ℕ
net_get_ether_header packet = some 0

unfoldable pub net_get_ipv4_header : List ℕ → ℕ → Option ℕ
net_get_ipv4_header bytes ether =
    if ether_type bytes ether == 0x0008 then some (ether + 14) else none

unfoldable pub net_get_tcpudp_header : List ℕ → ℕ → Option ℕ
net_get_tcpudp_header bytes ipv4 =
    if next_proto_id bytes ipv4 == ip_protocol_tcp || next_proto_id bytes ipv4 == ip_protocol_udp
    then some (ipv4 + 20)
    else none

-- The chain of getters that the handlers begin with: the offsets of the IPv4 header and of the
-- TCP or UDP header.
unfoldable pub get_headers : Packet → Option (ℕ × ℕ)
unfolding net_get_ether_header net_get_ipv4_header net_get_tcpudp_header
get_headers packet = do
  ether ← net_get_ether_header packet
  ipv4 ← net_get_ipv4_header packet.bytes ether
  l4 ← net_get_tcpudp_header packet.bytes ipv4
  some (ipv4, l4)

-- `~` on an `int`, as a 32-bit pattern.
abbrev pub not32 : ℕ → ℕ
not32 word = u32_mod - 1 - word

-- `~(~checksum + ~old_word + new_word)` on `int`, stored in 16 bits.
unfoldable pub updated_checksum : ℕ → ℕ → ℕ → ℕ
updated_checksum checksum old_word new_word =
    not32 ((not32 checksum + not32 old_word + new_word) % u32_mod) % u16_mod

unfoldable pub net_checksum_update : List ℕ → ℕ → ℕ → ℕ → List ℕ
unfolding updated_checksum
net_checksum_update bytes checksum old_word new_word =
    store bytes checksum 2 (updated_checksum (load bytes checksum 2) old_word new_word)

unfoldable pub net_packet_checksum_update : List ℕ → ℕ → ℕ → ℕ → Bool → List ℕ
unfolding net_checksum_update
net_packet_checksum_update bytes ipv4 old_word new_word in_ip =
    let bytes' = if in_ip then net_checksum_update bytes (ipv4 + 12) old_word new_word else bytes in
    let l4 = ipv4 + 20 in
    if next_proto_id bytes' ipv4 == ip_protocol_tcp
    then net_checksum_update bytes' (l4 + 16) old_word new_word
    else if next_proto_id bytes' ipv4 == ip_protocol_udp
    then net_checksum_update bytes' (l4 + 6) old_word new_word
    else bytes'

unfoldable pub net_packet_checksum_update_32 : List ℕ → ℕ → ℕ → ℕ → Bool → List ℕ
unfolding net_packet_checksum_update
net_packet_checksum_update_32 bytes ipv4 old_word new_word in_ip =
    net_packet_checksum_update
      (net_packet_checksum_update bytes ipv4 (old_word % u16_mod) (new_word % u16_mod) in_ip) ipv4
      (old_word / 2 ^ 16 % u16_mod) (new_word / 2 ^ 16 % u16_mod) in_ip

-- `enum net_transmit_flags`.
abbrev pub no_flags : ℕ
no_flags = 0

abbrev pub update_ether_addrs : ℕ
update_ether_addrs = 1

-- A call of `net_transmit`, `net_flood` or `net_flood_except`.
pub data Output : Type 0 where
  net_transmit : Packet → ℕ → ℕ → Output
  net_flood : Packet → ℕ → Output
  net_flood_except : Packet → List Bool → ℕ → Output
