-- ===== src/Dhcp/Messages.antt =====
-- nf/dhcp_ipv4/dhcp.h and nf/dhcp_ipv4/dhcp.c: the messages. The header's `options` is a pointer; the
-- bytes under it are taken to be apart from the header's own.
use klint.Base.{ℕ, ◌+◌, Bool, ◌&&◌, Option, none, some, List, get_or, set, ◌==◌, if◌then◌else◌}
use klint.Base.Options.{◌>>=◌}
use klint.Memory.Words.{load, store}
use klint.Map.{map_get, map_set, map_remove}
use klint.IndexPool.{Borrowed, index_pool_borrow, index_pool_refresh}
use klint.Net.{
  Packet, Output, net_get_ether_header, net_get_ipv4_header, net_get_tcpudp_header, next_proto_id,
  src_port, dst_port, ip_protocol_udp,
}
use klint.Dhcp.{Server, eth_bytes, eth_memory}

-- What the header's pointer and its `options` point to.
pub record Message : Type 0 where
  pub header : List ℕ
  pub options : List ℕ

abbrev pub op : Message → ℕ
op message = load message.header 0 1

abbrev pub yaddr : Message → ℕ
yaddr message = load message.header 16 4

abbrev pub dhcp_message_type_value : Message → ℕ
dhcp_message_type_value message = load message.options 2 1

-- The client's Ethernet address and the address that it asks for, at the offsets of
-- `struct net_dhcp_discover_option` and `struct net_dhcp_request_option`.
abbrev pub client_identifier_value : Message → ℕ
client_identifier_value message = load message.options 6 6

abbrev pub requested_ip_address_value : Message → ℕ
requested_ip_address_value message = load message.options 14 4

abbrev pub dhcp_magic_cookie : ℕ
dhcp_magic_cookie = 0x63825363

-- The offset of the DHCP header.
unfoldable pub net_get_dhcp_header : List ℕ → ℕ → Option ℕ
unfolding net_get_tcpudp_header load
net_get_dhcp_header bytes ipv4 =
    if next_proto_id bytes ipv4 == ip_protocol_udp
    then (net_get_tcpudp_header bytes ipv4 >>= λ tmp.
        if dst_port bytes tmp == 67
          && src_port bytes tmp == 68
          && load bytes (tmp + 8 + 236) 4 == dhcp_magic_cookie
        then some (tmp + 8)
        else none)
    else none

unfoldable pub is_dhcp_discover_message : Message → Bool
unfolding load
is_dhcp_discover_message message = dhcp_message_type_value message == 1 && op message == 1

unfoldable pub is_dhcp_request_message : Message → Bool
unfolding load
is_dhcp_request_message message = dhcp_message_type_value message == 3 && op message == 1

-- `set_dhcp_offer_option` and `set_dhcp_ack_option`, which differ in the type of the message.
unfoldable pub set_dhcp_response_option : ℕ → List ℕ → List ℕ
set_dhcp_response_option message_type o₀ =
    let o₁ = set o₀ 2 message_type in
    let o₂ = set (set o₁ 3 54) 4 4 in
    let o₃ = set (set o₂ 27 6) 28 4 in
    let o₄ = set (set o₃ 21 3) 22 4 in
    let o₅ = set (set o₄ 15 51) 16 4 in let o₆ = set (set o₅ 9 1) 10 4 in set o₆ 33 255

-- The five values that follow.
unfoldable pub set_values : Server → List ℕ → List ℕ
unfolding store
set_values server o₀ =
    let o₁ = store o₀ 5 4 server.dhcp_server_ip in
    let o₂ = store o₁ 29 4 server.dns_server_ip in
    let o₃ = store o₂ 23 4 server.gateway_ip in
    let o₄ = store o₃ 11 4 server.subnet_mask in store o₄ 17 4 server.expiration_time

unfoldable pub set_dhcp_nack_option : List ℕ → List ℕ
set_dhcp_nack_option options = set (set options 2 6) 3 255

-- The header and the options of an answer.
unfoldable pub respond : Server → ℕ → ℕ → Message → Message
unfolding set_dhcp_response_option set_values store
respond server message_type client_ip_address message = record {
  header = store (set message.header 0 2) 16 4 client_ip_address;
  options = set_values server (set_dhcp_response_option message_type message.options);
}

unfoldable pub create_dhcp_ack_message : Server → ℕ → Message → Message
unfolding respond
create_dhcp_ack_message server client_ip_address message =
    respond server 5 client_ip_address message

-- With the message that is sent back, or nothing for `false`.
unfoldable pub is_dhcp_request_message_accepted : Server → Message → ℕ → Server × Option Message
unfolding create_dhcp_ack_message set_dhcp_nack_option get_or load
is_dhcp_request_message_accepted server message time =
    elim (map_get (eth_memory server.eth_addresses) server.eth_index_map
      (eth_bytes (client_identifier_value message))) [
        | none ↦ (server, none)
        | some index ↦
            let ip = get_or server.ip_addresses index 0 in
            if ip == requested_ip_address_value message
            then (
              record server { index_pool = index_pool_refresh server.index_pool time index },
              some (create_dhcp_ack_message server ip message),
            )
            else (server, some (record message { options = set_dhcp_nack_option message.options }))
      ]

-- The client at the index that `index_pool_borrow` gives.
unfoldable pub lease_at : Server → ℕ → Borrowed → Server × Option ℕ
unfolding get_or
lease_at server client (index_pool, none) = (record server { index_pool = index_pool }, none)
lease_at server client (index_pool, some (index, used)) =
    let eth_index_map =
      if used
      then map_remove (eth_memory server.eth_addresses) server.eth_index_map index
      else server.eth_index_map in
    let eth_addresses = set server.eth_addresses index client in
    (
      record server {
        index_pool = index_pool;
        eth_addresses = eth_addresses;
        eth_index_map = map_set (eth_memory eth_addresses) eth_index_map index index;
      },
      some index,
    )

-- The index of the client, its own or a new one.
unfoldable pub lease : Server → ℕ → ℕ → Server × Option ℕ
unfolding lease_at
lease server client time =
    elim (map_get (eth_memory server.eth_addresses) server.eth_index_map (eth_bytes client)) [
      | some index ↦ (
        record server { index_pool = index_pool_refresh server.index_pool time index },
        some index,
      )
      | none ↦ lease_at server client (index_pool_borrow server.index_pool time)
    ]

abbrev pub offered : Message → Server × Option ℕ → Server × Option Message
offered message (server, none) = (server, none)
offered message (server, some index) =
    (server, some (respond server 2 (get_or server.ip_addresses index 0) message))

unfoldable pub try_create_dhcp_discover_message : Server → Message → ℕ → Server × Option Message
unfolding lease respond load get_or
try_create_dhcp_discover_message server message time =
    offered message (lease server (client_identifier_value message) time)

-- The rest of the handler is commented out: it reads the headers and returns.
unfoldable pub nf_handle : Server → Packet → Server × Option Output
unfolding net_get_dhcp_header
nf_handle server packet = elim (net_get_ether_header packet) [
  | none ↦ (server, none)
  | some eth ↦ elim (net_get_ipv4_header packet.bytes eth) [
    | none ↦ (server, none)
    | some ip ↦ elim (net_get_dhcp_header packet.bytes ip) [
      | none ↦ (server, none)
      | some dhcp ↦ (server, none)
    ]
  ]
]
