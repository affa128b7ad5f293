-- ===== src/Dhcp/Run.antt =====
-- nf/dhcp_ipv4/dhcp.c over a run of messages: what every state of the server has.
use klint.Base.{
  ℕ, ◌<◌, ◌≡◌, refl, Option, none, some, List, [], ◌∷◌, ◌==◌, Bool-cases, Option-cases, inl, inr,
  arith,
}
use klint.KeyTable.{IsTime}
use klint.Net.{Packet, net_get_ether_header, net_get_ipv4_header}
use klint.Dhcp.{Server, eth_bytes}
use klint.Dhcp.Messages.{
  net_get_dhcp_header, nf_handle, Message, client_identifier_value, requested_ip_address_value,
  is_dhcp_request_message_accepted, try_create_dhcp_discover_message,
}
use klint.Dhcp.Clients.{IsValid, Leases, Offers, Accepts, address_of, ip_at}
use klint.Dhcp.Leases.{
  client_index, address_of-injective, try_create_dhcp_discover_message-Offers,
  is_dhcp_request_message_accepted-Accepts,
}
use klint.Dhcp.Start.{IsLeasable}

-- A message at a time.
pub data Event : Type 0 where
  discover : Message → ℕ → Event
  request : Message → ℕ → Event

abbrev pub time_of : Event → ℕ
time_of (discover message time) = time
time_of (request message time) = time

unfoldable pub step : Server → Event → Server
step s (discover message time) = (try_create_dhcp_discover_message s message time).0
step s (request message time) = (is_dhcp_request_message_accepted s message time).0

unfoldable pub run : Server → List Event → Server
unfolding step
run s [] = s
run s (event ∷ events) = run (step s event) events

abbrev pub AreTimes : List Event → Type 0
AreTimes [] = Unit {0}
AreTimes (event ∷ events) = IsTime (time_of event) × AreTimes events

-- A valid table over addresses that may be leased.
pub record IsServing (s : Server) : Type 0 where
  pub valid : IsValid s
  pub leasable : (k : ℕ) → k < s.index_pool.size → IsLeasable s (ip_at s k)

Leases-IsServing :
    {s s' : Server} {time client ip : ℕ} → IsServing s → Leases s time client ip s' → IsServing s'
Leases-IsServing {s} {s'} h l = record {
  valid = l.valid;
  leasable = λ k below. rw l.same (h.leasable k (omega (arith, l.same_size)));
}

step-IsServing :
    {s : Server} (event : Event) → IsServing s → IsTime (time_of event) → IsServing (step s event)
unfolding step
step-IsServing {s} (discover message time) h real =
    go (try_create_dhcp_discover_message s message time)
      (try_create_dhcp_discover_message-Offers h.valid message time real)
  where
    go : (r : Server × Option Message) → Offers s message time r → IsServing r.0
    go (s', none) (same, _, _) = rw same h
    go (s', some sent) (ip, leases, _) = Leases-IsServing h leases
step-IsServing {s} (request message time) h real =
    go (address_of s (client_identifier_value message))
      (is_dhcp_request_message_accepted-Accepts h.valid message time real)
  where
    go :
        (known : Option ℕ)
        → Accepts s message time known (is_dhcp_request_message_accepted s message time)
        → IsServing (is_dhcp_request_message_accepted s message time).0
    go none (same, _) = rw same h
    go (some ip) accepts = elim (Bool-cases (ip == requested_ip_address_value message)) [
      | inl asked ↦ Leases-IsServing h (rw asked at accepts).0
      | inr other ↦ rw ((rw other at accepts).0) h
    ]

pub run-IsServing :
    {s : Server} (events : List Event) → IsServing s → AreTimes events → IsServing (run s events)
unfolding run
run-IsServing {s = s} [] h real = h
run-IsServing {s = s} (event ∷ events) h (now, later) =
    run-IsServing {s = step s event} events (step-IsServing event h now) later

-- From a serving state, as nf_init leaves it, after any discoveries and requests at real times: the
-- address of a client is inside the subnet and is not the server's, the gateway's or the name
-- server's, and no other client has it.
pub run-address_of :
    {s : Server} (events : List Event) (client : ℕ) {ip : ℕ}
    → IsServing s
    → AreTimes events
    → address_of (run s events) client ≡ some ip
    → IsLeasable (run s events) ip
      × ((other : ℕ)
          → address_of (run s events) other ≡ some ip
          → eth_bytes client ≡ eth_bytes other)
run-address_of {s} events client {ip} h real e =
    let h' = run-IsServing events h real in
    let (k, lt, at, _) = client_index h'.valid client {ip = ip} e in
    (
      rw (← at) (h'.leasable k lt),
      λ other e'. address_of-injective h'.valid client other {ip = ip} e e',
    )

-- The handler itself neither changes the server nor answers.
pub nf_handle-silent : (s : Server) (packet : Packet) → nf_handle s packet ≡ (s, none)
unfolding nf_handle net_get_ether_header
nf_handle-silent s packet = elim (Option-cases (net_get_ipv4_header packet.bytes 0)) [
  | inl e ↦ rw (e, nf_handle) refl
  | inr (ip, e) ↦ elim (Option-cases (net_get_dhcp_header packet.bytes ip)) [
    | inl e' ↦ rw (e, e', nf_handle) refl
    | inr (dhcp, e') ↦ rw (e, e', nf_handle) refl
  ]
]
