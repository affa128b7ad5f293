-- ===== src/Dhcp/Clients.antt =====
-- nf/dhcp_ipv4/dhcp.c: what the table of clients means, and what its two messages promise.
use klint.Base.{ℕ, ◌<◌, ◌≡◌, ◌⊎◌, false, Option, none, some, get_or, bytes_eq, ◌==◌, if◌then◌else◌}
use klint.IndexPool.Borrow.{IsYoung}
use klint.KeyTable.View.{WasExpired}
use klint.KeyTable.Store.{Store, IsStore, last_use}
use klint.KeyTable.Values.{value_of}
use klint.Dhcp.{Server, sizeof_eth, eth_bytes}
use klint.Dhcp.Messages.{
  Message, client_identifier_value, requested_ip_address_value, set_dhcp_nack_option, respond,
  create_dhcp_ack_message,
}

abbrev pub store_of : Server → Store ℕ
store_of s = record { keys = s.eth_addresses; indexes = s.eth_index_map; pool = s.index_pool }

abbrev pub ip_at : Server → ℕ → ℕ
ip_at s index = get_or s.ip_addresses index 0

pub record IsValid (s : Server) : Type 0 where
  pub store_valid : IsStore eth_bytes 0 sizeof_eth (store_of s)
  pub rising : (j k : ℕ) → j < k → k < s.index_pool.size → ip_at s j < ip_at s k

-- The address of a client, if it has one, and the time of its last message.
abbrev pub address_of : Server → ℕ → Option ℕ
address_of s client = value_of eth_bytes 0 0 (store_of s) s.ip_addresses client

abbrev pub last_message : Server → ℕ → Option ℕ
last_message s client = last_use eth_bytes 0 (store_of s) client

-- Everything but the table of clients.
abbrev pub SameServer : Server → Server → Type 0
SameServer s s' = s' ≡ record s {
  eth_addresses = s'.eth_addresses;
  eth_index_map = s'.eth_index_map;
  index_pool = s'.index_pool;
}

-- The address for a client that has one already is that one; a client that has none gets one of the
-- server's.
abbrev pub Keeps : Server → Option ℕ → ℕ → Type 0
Keeps s (some old) ip = ip ≡ old
Keeps s none ip = (k : ℕ) × (k < s.index_pool.size) × (ip_at s k ≡ ip)

-- The client has the address at the time, the same as before if it had one; the others have what they
-- had, but for one that may have expired.
pub record Leases (s : Server) (time client ip : ℕ) (s' : Server) : Type 0 where
  pub valid : IsValid s'
  pub same : SameServer s s'
  pub same_size : s'.index_pool.size ≡ s.index_pool.size
  pub kept : Keeps s (address_of s client) ip
  pub own : address_of s' client ≡ some ip
  pub seen : last_message s' client ≡ some time
  pub others :
      (q : ℕ)
      → bytes_eq (eth_bytes client) (eth_bytes q) ≡ false
      → (address_of s' q ≡ address_of s q)
        ⊎ ((address_of s' q ≡ none)
            × WasExpired time s.index_pool.expiration_time (last_message s q))

-- No change: the client is new, and every address is leased to a young client.
abbrev pub Full : Server → ℕ → ℕ → Server → Type 0
Full s time client s' =
    (s' ≡ s)
    × (address_of s client ≡ none)
    × ((k : ℕ) → k < s.index_pool.size → IsYoung s.index_pool time k)

-- What `lease` returns.
abbrev pub LeasesOr : Server → ℕ → ℕ → Server × Option ℕ → Type 0
LeasesOr s time client (s', none) = Full s time client s'
LeasesOr s time client (s', some index) = Leases s time client (ip_at s index) s'

-- An offer for the address that the client gets; or no address is left.
abbrev pub Offers : Server → Message → ℕ → Server × Option Message → Type 0
Offers s message time (s', some sent) =
    (ip : ℕ) × Leases s time (client_identifier_value message) ip s'
    × (sent ≡ respond s' 2 ip message)
Offers s message time (s', none) = Full s time (client_identifier_value message) s'

-- The answer to a client that has an address, if any.
abbrev pub Accepts : Server → Message → ℕ → Option ℕ → Server × Option Message → Type 0
Accepts s message time none (s', sent) = (s' ≡ s) × (sent ≡ none)
Accepts s message time (some ip) (s', sent) =
    if ip == requested_ip_address_value message
    then Leases s time (client_identifier_value message) ip s'
      × (sent ≡ some (create_dhcp_ack_message s ip message))
    else (s' ≡ s)
      × (sent ≡ some (record message { options = set_dhcp_nack_option message.options }))
