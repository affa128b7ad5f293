-- ===== src/Net/Headers.antt =====
-- What the header getters of env/include/net/packet.h decide, and which bytes the writes to a header
-- leave alone.
use klint.Base.{ℕ, ◌≡◌, Bool, ◌&&◌, ◌||◌, none, some, List, ◌==◌, if◌then◌else◌, arith}
use klint.Net.{Packet, get_headers, ether_type, next_proto_id, ip_protocol_tcp, ip_protocol_udp}

-- IPv4 over Ethernet, by the bytes of the packet.
abbrev pub is_ipv4 : List ℕ → Bool
is_ipv4 bytes = ether_type bytes 0 == 0x0008

abbrev pub is_tcpudp : List ℕ → Bool
is_tcpudp bytes =
    is_ipv4 bytes
    && (next_proto_id bytes 14 == ip_protocol_tcp || next_proto_id bytes 14 == ip_protocol_udp)

-- The getters find the headers at offsets 14 and 34 of a TCP or UDP packet over IPv4, and nothing
-- in any other.
pub get_headers-is_tcpudp :
    (packet : Packet)
    → get_headers packet ≡ (if is_tcpudp packet.bytes then some (14, 34) else none)
unfolding get_headers
get_headers-is_tcpudp packet = ground arith
