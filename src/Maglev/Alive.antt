-- ===== src/Maglev/Alive.antt =====
-- nf/maglev over a whole run: a packet goes to a backend that is alive, and is dropped only if none is.
use klint.Base.{
  ℕ, ◌-◌, ◌≤◌, ◌<◌, ◌≡◌, refl, ap, Bool, true, false, Option, none, some, List, ◌∷◌, [], get_or,
  ltb, Bool-cases, Option-cases, inl, inr, sym, ◌∙◌, arith,
}
use klint.Map.{map_get}
use klint.IndexPool.{index_pool_used}
use klint.IndexPool.Spec.{pool_young}
use klint.IndexPool.Use.{index_pool_used-pool_young}
use klint.Cht.{max_cht_height}
use klint.Cht.Permute.{IsPrime}
use klint.Cht.Contract.{Finds, cht_find_preferred_available_backend-Finds}
use klint.Flow.{Flow, flow_bytes, sizeof_flow, packet_flow}
use klint.Net.{Packet, Output}
use klint.Net.Headers.{is_tcpudp}
use klint.Maglev.{Maglev, heap_memory, nf_handle}
use klint.Maglev.Table.{backend_of, preferred, chosen}
use klint.Maglev.Handle.{sent_to, nf_handle-Routes}
use klint.Maglev.History.{last_heartbeat, after, is_alive, AreOwn, Follows, after-Follows}

-- One of the backends that is alive, or none where none is alive.
abbrev pub IsAlive : ℕ → ℕ → List Packet → ℕ → Option ℕ → Type 0
IsAlive devices_count backend_expiration_time before time none =
    (k : ℕ) → k < devices_count - 1 → is_alive backend_expiration_time before time k ≡ false
IsAlive devices_count backend_expiration_time before time (some k) =
    (k < devices_count - 1) × (is_alive backend_expiration_time before time k ≡ true)

-- Where a packet goes.
abbrev pub ToAlive : ℕ → ℕ → List Packet → Packet → Option Output → Type 0
ToAlive devices_count backend_expiration_time before packet out =
    (backend : Option ℕ) × (out ≡ sent_to packet backend)
    × IsAlive devices_count backend_expiration_time before packet.time backend

module _ {devices_count cht_height backend_expiration_time : ℕ} {nf : Maglev}
    {packets : List Packet}
    (f : Follows devices_count cht_height backend_expiration_time packets nf) (time : ℕ) where
  used-alive :
      (k : ℕ)
      → k < devices_count - 1
      → index_pool_used nf.balancer.backend_pool time k
        ≡ is_alive backend_expiration_time packets time k
  used-alive k lt =
      let young_at : ℕ → Option ℕ → Bool =
        λ e o. elim o [ none ↦ false | some t ↦ pool_young time e t ] in
      index_pool_used-pool_young f.serving.valid.backends_valid time k
      ∙ ap (young_at nf.balancer.backend_pool.expiration_time) (f.heard k lt)
      ∙ ap (λ (e : ℕ). young_at e (last_heartbeat packets k)) f.expires

  Finds-IsAlive :
      (backend : Option ℕ)
      → Finds (devices_count - 1) nf.balancer.backend_pool time backend
      → IsAlive devices_count backend_expiration_time packets time backend
  Finds-IsAlive none dead = λ k lt. sym (used-alive k lt) ∙ dead k lt
  Finds-IsAlive (some k) (lt, live) = (lt, sym (used-alive k lt) ∙ live)

  backend_of-lt :
      (flow : Flow) (k : ℕ) → backend_of nf.balancer flow ≡ some k → k < devices_count - 1
  backend_of-lt flow k e =
      let b = nf.balancer in
      elim (Option-cases (map_get (heap_memory b.flow_heap) b.flow_indices (flow_bytes flow))) [
        | inl got ↦ absurd (let clash : none ≡ some k = rw got at e in cc)
        | inr (index, got) ↦
            let same : some (get_or b.flow_backends index 0) ≡ some k = rw got at e in
            let eq : get_or b.flow_backends index 0 ≡ k = cc in
            omega (arith, eq, f.serving.known_lt index, f.devices)
      ]

  module _ (prime : IsPrime cht_height) (low : cht_height < max_cht_height)
      (fits : devices_count ≤ cht_height) (flow : Flow) where
    preferred-Finds :
        Finds (devices_count - 1) nf.balancer.backend_pool time (preferred nf.balancer flow time)
    preferred-Finds = rw f.table (
        cht_find_preferred_available_backend-Finds cht_height (devices_count - 1) prime low
          (omega (arith, f.serving.enough, f.devices)) (omega arith) nf.balancer.backend_pool time
          (flow_bytes flow) sizeof_flow)

    chosen-Finds :
        (own : Option ℕ)
        → ((k : ℕ) → own ≡ some k → k < devices_count - 1)
        → Finds (devices_count - 1) nf.balancer.backend_pool time (chosen nf.balancer flow time own)
    chosen-Finds none below = preferred-Finds
    chosen-Finds (some k) below =
        elim (Bool-cases (index_pool_used nf.balancer.backend_pool time k)) [
          | inl live ↦ rw live (below k refl, live)
          | inr dead ↦ rw dead preferred-Finds
        ]

-- Let the load balancer have started with a hash table of a prime height below MAX_CHT_HEIGHT and
-- of no more devices than that, and have received any packets of its devices at real times. A TCP
-- or UDP packet of the last device then goes to a backend of which a heartbeat was received within
-- the backends' expiration time, and is dropped exactly if there is none, also where the pool still
-- holds expired backends.
pub after-ToAlive :
    {devices_count cht_height backend_expiration_time : ℕ} {nf : Maglev}
    → Follows devices_count cht_height backend_expiration_time [] nf
    → IsPrime cht_height
    → cht_height < max_cht_height
    → devices_count ≤ cht_height
    → (packets : List Packet) (packet : Packet) → AreOwn devices_count (packet ∷ packets)
    → is_tcpudp packet.bytes ≡ true
    → packet.device ≡ devices_count - 1
    → ToAlive devices_count backend_expiration_time packets packet
        (nf_handle (after nf packets) packet).1
after-ToAlive {devices_count} {nf = nf} start prime low fits packets packet (own, real, all) headers
      device =
    let f = after-Follows nf packets start all in
    let state = after nf packets in
    let (_, _, routes) = nf_handle-Routes packet f.serving real (rw f.devices own) in
    let last : ltb packet.device (state.devices_count - 1) ≡ false = ground (arith, f.devices) in
    let (backend, out, balances) = rw (headers, last) at routes in
    let flow = packet_flow packet.bytes 14 34 in
    let found =
      chosen-Finds f packet.time prime low fits flow (backend_of state.balancer flow)
        (backend_of-lt f packet.time flow) in
    (backend, out, rw balances.out_chosen (Finds-IsAlive f packet.time _ found))
