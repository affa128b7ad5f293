-- ===== src/Maglev/Handle.antt =====
-- nf/maglev/maglev.c: what `nf_handle` does with each packet.
use klint.Base.{
  ℕ, ◌-◌, ◌≤◌, ◌<◌, ◌≡◌, refl, Option, none, some, get_or, ltb, ◌==◌, if◌then◌else◌, Bool-cases,
  Option-cases, inl, inr, sym, ◌∙◌, arith,
}
use klint.Map.{map_get}
use klint.IndexPool.{index_pool_used}
use klint.IndexPool.Spec.{entry}
use klint.IndexPool.Use.{index_pool_refresh-entry}
use klint.Cht.Find.{cht_find_preferred_available_backend-FirstLive}
use klint.Flow.{Flow, flow_bytes, sizeof_flow, packet_flow}
use klint.KeyTable.{IsTime}
use klint.Net.{Packet, Output, net_transmit, no_flags}
use klint.Net.Delivery.{Sends}
use klint.Net.Headers.{is_tcpudp, get_headers-is_tcpudp}
use klint.Maglev.{
  Balancer, Maglev, heap_memory, balancer_get_backend, balancer_process_heartbeat, nf_handle,
  routed,
}
use klint.Maglev.Table.{
  IsValid, backend_of, preferred, chosen, Balances, balancer_get_backend-Balances,
}

-- A valid table, and backends that are devices before the last one.
pub record IsServing (nf : Maglev) : Type 0 where
  pub valid : IsValid nf.balancer
  pub enough : 2 ≤ nf.devices_count
  pub backend_count : nf.balancer.backend_pool.size ≡ nf.devices_count - 1
  pub known_lt : (k : ℕ) → get_or nf.balancer.flow_backends k 0 < nf.devices_count - 1
  pub listed_lt : (k : ℕ) → get_or nf.balancer.cht.table_data k 0 < nf.devices_count - 1

-- The backend was alive at the time; the table of flows stays as it is, and so do the other backends.
abbrev pub Heartbeat : Maglev → Packet → Maglev → Type 0
Heartbeat nf packet nf' =
    (nf'.balancer ≡ record nf.balancer { backend_pool = nf'.balancer.backend_pool })
    × ((k : ℕ)
        → entry nf'.balancer.backend_pool k
          ≡ (if packet.device == k then some packet.time else entry nf.balancer.backend_pool k))
    × (nf'.balancer.backend_pool.expiration_time ≡ nf.balancer.backend_pool.expiration_time)

abbrev pub sent_to : Packet → Option ℕ → Option Output
sent_to packet none = none
sent_to packet (some backend) = some (net_transmit packet backend no_flags)

abbrev pub RoutesFlow : Maglev → Packet → Flow → Maglev → Option Output → Type 0
RoutesFlow nf packet flow nf' out =
    (backend : Option ℕ) × (out ≡ sent_to packet backend)
    × Balances nf.balancer flow packet.time (backend_of nf.balancer flow) nf'.balancer backend

abbrev pub Routes : Maglev → Packet → Maglev × Option Output → Type 0
Routes nf packet (nf', out) =
    if is_tcpudp packet.bytes
    then (if ltb packet.device (nf.devices_count - 1)
        then Heartbeat nf packet nf' × (out ≡ none)
        else RoutesFlow nf packet (packet_flow packet.bytes 14 34) nf' out)
    else (nf' ≡ nf) × (out ≡ none)

module _ {nf : Maglev} (s : IsServing nf) (packet : Packet) (real : IsTime packet.time) where
  refresh_backend-IsServing :
      packet.device < nf.devices_count - 1
      → let nf' : Maglev = record nf {
        balancer = balancer_process_heartbeat nf.balancer packet.device packet.time;
      } in
        IsServing nf' × Heartbeat nf packet nf'
  unfolding balancer_process_heartbeat
  refresh_backend-IsServing lt =
      let (valid, same_size, same_expiration, written) =
        index_pool_refresh-entry s.valid.backends_valid packet.time packet.device real
          (omega (arith, s.backend_count)) in
      (
        record {
          valid = record { store_valid = s.valid.store_valid; backends_valid = valid };
          enough = s.enough;
          backend_count = same_size ∙ s.backend_count;
          known_lt = s.known_lt;
          listed_lt = s.listed_lt;
        },
        (refl, written, same_expiration),
      )

  -- A backend that the hash table prefers is one of the devices before the last.
  preferred-lt :
      (flow : Flow) {backend : ℕ}
      → preferred nf.balancer flow packet.time ≡ some backend
      → backend < nf.devices_count - 1
  preferred-lt flow {backend} liked =
      let first =
        cht_find_preferred_available_backend-FirstLive nf.balancer.cht (flow_bytes flow) sizeof_flow
          nf.balancer.backend_pool packet.time in
      let (k, _, _, at, _, _) = rw liked at first in rw (← at) (s.listed_lt _)

  chosen-lt :
      (flow : Flow) {backend : ℕ}
      → chosen nf.balancer flow packet.time (backend_of nf.balancer flow) ≡ some backend
      → backend < nf.devices_count - 1
  chosen-lt flow {backend} e =
      let b = nf.balancer in
      elim (Option-cases (map_get (heap_memory b.flow_heap) b.flow_indices (flow_bytes flow))) [
        | inl got ↦ preferred-lt flow {backend = backend} (rw got at e)
        | inr (index, got) ↦
            let own = get_or b.flow_backends index 0 in
            elim (Bool-cases (index_pool_used b.backend_pool packet.time own)) [
              | inl live ↦
                  let same : some own ≡ some backend = rw (got, live) at e in
                  let eq : own ≡ backend = cc in rw (← eq) (s.known_lt index)
              | inr dead ↦ preferred-lt flow {backend = backend} (rw (got, dead) at e)
            ]
      ]

  Balances-IsServing :
      (flow : Flow) (backend : Option ℕ) {b : Balancer} {out : Option ℕ}
      → Balances nf.balancer flow packet.time backend b out
      → IsServing (record nf { balancer = b })
  Balances-IsServing flow backend bal =
      let (same_backends, same_pool, same_cht) = bal.same in
      record {
        valid = bal.valid;
        enough = s.enough;
        backend_count = rw same_pool s.backend_count;
        known_lt = rw same_backends s.known_lt;
        listed_lt = rw same_cht s.listed_lt;
      }

  routed-Routes :
      (flow : Flow) (r : Balancer × Option ℕ)
      → nf.devices_count - 1 ≤ packet.device
      → Balances nf.balancer flow packet.time (backend_of nf.balancer flow) r.0 r.1
      → let (nf', out) = routed packet nf r in
        IsServing nf'
        × (packet.device < nf.devices_count → Sends nf.devices_count out)
        × RoutesFlow nf packet flow nf' out
  routed-Routes flow (b, none) last bal =
      (Balances-IsServing flow _ bal, λ own. tt, (none, refl, bal))
  routed-Routes flow (b, some backend) last bal =
      let lt = chosen-lt flow {backend = backend} (sym bal.out_chosen) in
      (
        Balances-IsServing flow _ bal,
        λ own. (own, omega arith, λ e. omega arith),
        (some backend, refl, bal),
      )

-- What the load balancer's nf_handle does with a packet of one of its devices, at a real time in a
-- serving state: the state goes on serving and the call is one that a driver can serve; a packet
-- that is not TCP or UDP over IPv4 is dropped; one from a backend refreshes that backend alone; any
-- other goes to the backend that the table has for its flow if that is alive, else to the one that
-- the hash table prefers, else nowhere. Its flow is then in the table with the time, unless it was
-- sent nowhere or every index is taken by a young flow, and no other flow is changed except that an
-- expired one may go.
pub nf_handle-Routes :
    {nf : Maglev} (packet : Packet)
    → IsServing nf
    → IsTime packet.time
    → packet.device < nf.devices_count
    → let (nf', out) = nf_handle nf packet in
      IsServing nf' × Sends nf.devices_count out × Routes nf packet (nf', out)
unfolding nf_handle
nf_handle-Routes {nf} packet s real own =
    rw (get_headers-is_tcpudp packet, nf_handle)
      (elim (Bool-cases (is_tcpudp packet.bytes)) [
        | inr other ↦ rw other (s, tt, (refl, refl))
        | inl headers ↦ rw headers (elim (Bool-cases (ltb packet.device (nf.devices_count - 1))) [
          | inl beat ↦
              let (s', h) = refresh_backend-IsServing s packet real (ground arith) in
              rw beat (s', tt, (h, refl))
          | inr last ↦
              let flow = packet_flow packet.bytes 14 34 in
              let (s', sends, routes) =
                routed-Routes s packet real flow (balancer_get_backend nf.balancer flow packet.time)
                  (ground arith) (balancer_get_backend-Balances flow packet.time real s.valid) in
              rw last (s', sends own, routes)
        ])
      ])
