-- ===== src/Dhcp/Leases.antt =====
-- nf/dhcp_ipv4/dhcp.c: which client has which address, and what the two messages do to it.
use klint.Base.{
  ℕ, ◌<◌, ◌≡◌, refl, Option, none, some, ltb, ◌==◌, Bool-cases, Option-cases, inl, inr, sym, ap,
  ◌∙◌, arith,
}
use klint.Memory.Words.{length-bytes_of}
use klint.Map.{map_get}
use klint.IndexPool.{Borrowed, index_pool_borrow}
use klint.IndexPool.Borrow.{BorrowContract, index_pool_borrow-BorrowContract}
use klint.KeyTable.{IsTime, get-indexed}
use klint.KeyTable.Store.{Store, Uses, refresh-Uses, claim-Uses}
use klint.Dhcp.{Server, sizeof_eth, eth_bytes, eth_memory}
use klint.Dhcp.Messages.{
  Message, client_identifier_value, requested_ip_address_value, respond,
  is_dhcp_request_message_accepted, lease_at, lease, offered, try_create_dhcp_discover_message,
}
use klint.Dhcp.Clients.{
  store_of, ip_at, IsValid, address_of, Keeps, Leases, LeasesOr, Offers, Accepts,
}

module _ {s : Server} (v : IsValid s) where
  -- The index of a client that has an address.
  pub client_index :
      (q : ℕ) {ip : ℕ}
      → address_of s q ≡ some ip
      → (k : ℕ) × (k < s.index_pool.size)
        × (ip_at s k ≡ ip)
        × (eth_memory s.eth_addresses k ≡ eth_bytes q)
  client_index q {ip} e =
      elim (Option-cases (map_get (eth_memory s.eth_addresses) s.eth_index_map (eth_bytes q))) [
        | inl absent ↦ let clash : none ≡ some ip = rw absent at e in absurd (cc)
        | inr (k, got) ↦
            let same : some (ip_at s k) ≡ some ip = rw got at e in
            let (own, lt, _) =
              get-indexed v.store_valid.coherent (eth_bytes q) {k = k}
                (length-bytes_of sizeof_eth q ∙ sym v.store_valid.same_key_size) got in
            (k, lt, cc, own)
      ]

  -- No two clients have the same address.
  pub address_of-injective :
      (client other : ℕ) {ip : ℕ}
      → address_of s client ≡ some ip
      → address_of s other ≡ some ip
      → eth_bytes client ≡ eth_bytes other
  address_of-injective client other {ip} e e' =
      let (k, lt, at, own) = client_index client {ip = ip} e in
      let (j, lt', at', own') = client_index other {ip = ip} e' in
      let same : k ≡ j = elim (Bool-cases (ltb k j)) [
        | inl less ↦ absurd (omega (arith, v.rising k j (ground arith) lt', at, at'))
        | inr not_less ↦ elim (Bool-cases (ltb j k)) [
          | inl more ↦ absurd (omega (arith, v.rising j k (ground arith) lt, at, at'))
          | inr equal ↦ ground arith
        ]
      ] in
      sym own ∙ ap (eth_memory s.eth_addresses) same ∙ own'

  module _ (time : ℕ) (real : IsTime time) (client : ℕ) where
    Uses-Leases :
        (index : ℕ) (t : Store ℕ)
        → Keeps s (address_of s client) (ip_at s index)
        → Uses eth_bytes 0 sizeof_eth (store_of s) time index client t
        → Leases s time client
            (ip_at s index)
            (record s { eth_addresses = t.keys; eth_index_map = t.indexes; index_pool = t.pool })
    Uses-Leases index t kept u = record {
      valid = record {
        store_valid = u.valid;
        rising = λ j k lt below. v.rising j k lt (omega (arith, u.same_size));
      };
      same = refl;
      same_size = u.same_size;
      kept = kept;
      own = rw u.found refl;
      seen = u.seen;
      others = λ q ne. elim (u.stays q ne) [
        | inl same ↦ inl (rw same refl)
        | inr (gone, expired) ↦ inr (rw gone refl, expired)
      ];
    }

    lease_at-Leases :
        (b : Borrowed)
        → map_get (eth_memory s.eth_addresses) s.eth_index_map (eth_bytes client) ≡ none
        → BorrowContract s.index_pool time b
        → LeasesOr s time client (lease_at s client b)
    unfolding lease_at
    lease_at-Leases (pool, none) got (same, all) =
        (ap (λ p. record s { index_pool = p }) same, rw got refl, all)
    lease_at-Leases (pool, some (index, used)) got contract =
        let u =
          claim-Uses eth_bytes 0 sizeof_eth (length-bytes_of sizeof_eth) v.store_valid time client
            pool index used got contract in
        Uses-Leases index _ (rw got (index, contract.1, refl)) u

    lease-Leases : LeasesOr s time client (lease s client time)
    unfolding lease
    lease-Leases =
        elim (Option-cases
          (map_get (eth_memory s.eth_addresses) s.eth_index_map (eth_bytes client))) [
            | inl absent ↦
                let borrowed = index_pool_borrow s.index_pool time in
                let new : lease s client time ≡ lease_at s client borrowed =
                  rw (absent, lease) refl in
                rw new (
                  lease_at-Leases borrowed absent
                    (index_pool_borrow-BorrowContract v.store_valid.coherent.pool_valid time real))
            | inr (index, got) ↦
                rw (got, lease)
                  (Uses-Leases index _ (rw got refl) (
                    refresh-Uses eth_bytes 0 sizeof_eth (length-bytes_of sizeof_eth) v.store_valid
                      time index client real got))
          ]

  offered-Offers :
      (message : Message) (time : ℕ) (r : Server × Option ℕ)
      → LeasesOr s time (client_identifier_value message) r
      → Offers s message time (offered message r)
  offered-Offers message time (s', none) full = full
  offered-Offers message time (s', some index) leases =
      let same : ip_at s' index ≡ ip_at s index = ap (λ (x : Server). ip_at x index) leases.same in
      (ip_at s index, leases, ap (λ (ip : ℕ). respond s' 2 ip message) same)

  -- On a valid table at a real time try_create_dhcp_discover_message gives a client that has an
  -- address that same address, and one that has none one of the addresses of the table; it keeps
  -- the table valid, changes no other client except that an expired one may go, and answers with an
  -- offer of that address; or the client is new and every address is leased to a young one, it
  -- returns false and nothing changes.
  pub try_create_dhcp_discover_message-Offers :
      (message : Message) (time : ℕ)
      → IsTime time
      → Offers s message time (try_create_dhcp_discover_message s message time)
  unfolding try_create_dhcp_discover_message
  try_create_dhcp_discover_message-Offers message time real =
      let client = client_identifier_value message in
      offered-Offers message time (lease s client time) (lease-Leases time real client)

  -- On a valid table at a real time is_dhcp_request_message_accepted returns false for a client
  -- without an address; it refreshes the lease of one that asks for the address it has, and
  -- acknowledges it; it answers any other with a NAK, whose header is as it came. Where it
  -- refreshes nothing the server stays as it is.
  pub is_dhcp_request_message_accepted-Accepts :
      (message : Message) (time : ℕ)
      → IsTime time
      → Accepts s message time
          (address_of s (client_identifier_value message))
          (is_dhcp_request_message_accepted s message time)
  unfolding is_dhcp_request_message_accepted
  is_dhcp_request_message_accepted-Accepts message time real =
      let client = client_identifier_value message in
      elim (Option-cases
        (map_get (eth_memory s.eth_addresses) s.eth_index_map (eth_bytes client))) [
          | inl absent ↦ rw (absent, is_dhcp_request_message_accepted) (refl, refl)
          | inr (index, got) ↦
              elim (Bool-cases (ip_at s index == requested_ip_address_value message)) [
                | inr other ↦ rw (got, is_dhcp_request_message_accepted, other) (refl, refl)
                | inl asked ↦
                    rw (got, is_dhcp_request_message_accepted, asked)
                      (
                        Uses-Leases time real client index _ (rw got refl) (
                            refresh-Uses eth_bytes 0 sizeof_eth (length-bytes_of sizeof_eth)
                              v.store_valid time index client real got),
                        refl,
                      )
              ]
        ]
