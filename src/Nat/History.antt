-- ===== src/Nat/History.antt =====
-- nf/nat over a whole run: which packets stand behind the flows of the table and their ports.
use klint.Base.{
  ℕ, ◌%◌, ◌≡◌, refl, ◌⊎◌, true, false, none, some, List, [], ◌∷◌, get_or, bytes_eq, bytes_eq_refl,
  bytes_eq→eq, ◌==◌, Bool-cases, Option-cases, inl, inr, sym, ap, ◌∙◌, arith,
}
use klint.Memory.{u16_mod}
use klint.Map.{map_get}
use klint.IndexPool.Spec.{entry, pool_young}
use klint.KeyTable.{IsTime, get-indexed}
use klint.Flow.{Flow, flow_bytes, length-flow_bytes, packet_flow, zero_flow}
use klint.Net.{Packet, dst_port}
use klint.Net.Headers.{is_tcpudp}
use klint.Nat.{
  FlowTable, Nat, nf_handle, flow_memory, port_of, index_of, translate_out, transmitted,
}
use klint.Nat.Table.{IsValid, UsesFlow, index_live, live_found}

-- The NAT after a run of packets, the latest first.
unfoldable pub run : Nat → List Packet → Nat
run nf [] = nf
run nf (packet ∷ before) = (nf_handle (run nf before) packet).0

-- What the packets of a run say of a flow with a port: when it was last used. It begins with a packet
-- from inside that is sent out from the port, and goes on with packets from outside to the port, each
-- within the expiration time of the use before.
pub data Assigned (nf : Nat) (key : List ℕ) (port : ℕ) : List Packet → ℕ → Type 0 where
  left :
      (packet : Packet) (before : List Packet)
      → is_tcpudp packet.bytes ≡ true
      → (packet.device == nf.wan_device) ≡ false
      → flow_bytes (packet_flow packet.bytes 14 34) ≡ key
      → (nf_handle (run nf before) packet).1
        ≡ transmitted packet (translate_out packet.bytes 14 34 nf.external_addr port)
      → Assigned nf key port (packet ∷ before) packet.time
  reached :
      (packet : Packet) (before : List Packet) (t : ℕ)
      → is_tcpudp packet.bytes ≡ true
      → (packet.device == nf.wan_device) ≡ true
      → dst_port packet.bytes 34 % u16_mod ≡ port
      → pool_young packet.time nf.table.port_allocator.expiration_time t ≡ true
      → Assigned nf key port before t
      → Assigned nf key port (packet ∷ before) packet.time
  earlier :
      (packet : Packet) (before : List Packet) (t : ℕ)
      → Assigned nf key port before t
      → Assigned nf key port (packet ∷ before) t

-- The flow has the index, and was used last at the time.
abbrev pub Has : FlowTable → Flow → ℕ → ℕ → Type 0
Has table flow k t =
    (map_get (flow_memory table.flows) table.flow_indexes (flow_bytes flow) ≡ some k)
    × (entry table.port_allocator k ≡ some t)

-- What a use of one flow leaves of another.
pub UsesFlow-Has :
    {table table' : FlowTable} {time index : ℕ} {flow : Flow}
    → UsesFlow table time index flow table'
    → (f : Flow) {k t : ℕ} → Has table' f k t
    → ((flow_bytes flow ≡ flow_bytes f) × (index ≡ k) × (time ≡ t)) ⊎ Has table f k t
UsesFlow-Has {table} {table'} {time} {index} {flow} u f {k} {t} (at, used) =
    elim (Bool-cases (bytes_eq (flow_bytes flow) (flow_bytes f))) [
      | inl same ↦
          let key : flow_bytes flow ≡ flow_bytes f = bytes_eq→eq _ _ same in
          let found : some index ≡ some k = sym u.uses.found ∙ rw key at in
          let here : index ≡ k = cc in
          let now : some time ≡ some t = sym u.uses.stamped ∙ rw here used in inl (key, here, cc)
      | inr other ↦ elim (u.uses.stays f other) [
        | inr (gone, _) ↦ absurd (let clash : none ≡ some k = sym gone ∙ at in cc)
        | inl stays ↦ elim (Bool-cases (index == k)) [
          | inr there ↦
              let kept : entry table'.port_allocator k ≡ entry table.port_allocator k =
                u.uses.written k ∙ rw there refl in
              inr (sym stays ∙ at, sym kept ∙ used)
          | inl here ↦
              let (own, _, _) =
                get-indexed u.valid.store_valid.coherent (flow_bytes f) {k = k}
                  (length-flow_bytes f ∙ sym u.valid.store_valid.same_key_size) at in
              let same : index ≡ k = ground arith in
              let key : flow_bytes flow ≡ flow_bytes f = sym u.uses.own ∙ rw same own in
              let clash : bytes_eq (flow_bytes f) (flow_bytes f) ≡ false = rw key at other in
              let both : true ≡ false = sym (bytes_eq_refl (flow_bytes f)) ∙ clash in absurd (cc)
        ]
      ]
    ]

-- The invariant of a run.
pub record Runs (start : Nat) (packets : List Packet) (nf : Nat) : Type 0 where
  pub valid : IsValid nf.table
  pub device : nf.wan_device ≡ start.wan_device
  pub addr : nf.external_addr ≡ start.external_addr
  pub first_port : nf.table.start_port ≡ start.table.start_port
  pub expires : nf.table.port_allocator.expiration_time ≡ start.table.port_allocator.expiration_time
  pub assigned :
      (flow : Flow) {k t : ℕ}
      → Has nf.table flow k t
      → Assigned start (flow_bytes flow) (port_of start.table k) packets t

module _ {start nf : Nat} (packet : Packet) (before : List Packet) (h : Runs start before nf) where
  pub same-Runs :
      (nf' : Nat)
      → nf'.wan_device ≡ nf.wan_device
      → nf'.external_addr ≡ nf.external_addr
      → nf'.table ≡ nf.table
      → Runs start (packet ∷ before) nf'
  same-Runs nf' d a e = record {
    valid = rw e h.valid;
    device = d ∙ h.device;
    addr = a ∙ h.addr;
    first_port = ap (λ (x : FlowTable). x.start_port) e ∙ h.first_port;
    expires = ap (λ (x : FlowTable). x.port_allocator.expiration_time) e ∙ h.expires;
    assigned =
        λ flow {k} {t} has. earlier packet before t (h.assigned flow {k = k} {t = t} (rw e at has));
  }

  pub used-Runs :
      (nf' : Nat) (index : ℕ) (flow : Flow)
      → nf'.wan_device ≡ nf.wan_device
      → nf'.external_addr ≡ nf.external_addr
      → UsesFlow nf.table packet.time index flow nf'.table
      → Assigned start (flow_bytes flow) (port_of start.table index) (packet ∷ before) packet.time
      → Runs start (packet ∷ before) nf'
  used-Runs nf' index flow d a u now = record {
    valid = u.valid;
    device = d ∙ h.device;
    addr = a ∙ h.addr;
    first_port = u.same_ports.0 ∙ h.first_port;
    expires = u.uses.same_expiration ∙ h.expires;
    assigned = λ f {k} {t} has. elim (UsesFlow-Has u f {k = k} {t = t} has) [
      | inr old ↦ earlier packet before t (h.assigned f {k = k} {t = t} old)
      | inl (key, same, time) ↦ rw (← key, ← same, ← time) now
    ];
  }

  -- A port's index has the port.
  pub port_of-index_of : (port : ℕ) → port_of start.table (index_of nf.table port) ≡ port % u16_mod
  port_of-index_of port = omega (arith, h.first_port, h.valid.port_lt)

  -- A live index was assigned to the flow that stands there.
  pub live-Assigned :
      (index : ℕ)
      → IsTime packet.time
      → index_live nf.table packet.time index ≡ true
      → (t : ℕ) × (Assigned start
          (flow_bytes (get_or nf.table.flows index zero_flow))
          (port_of start.table index)
          before
          t)
        × (pool_young packet.time start.table.port_allocator.expiration_time t ≡ true)
  live-Assigned index real live = elim (Option-cases (entry nf.table.port_allocator index)) [
    | inl e ↦ let no_use : false ≡ true = rw (e, index_live) at live in absurd (cc)
    | inr (t, e) ↦
        let young = rw (e, index_live, h.expires) at live in
        (
          t,
          h.assigned (get_or nf.table.flows index zero_flow) {k = index} {t = t}
              (live_found h.valid packet.time real index live, e),
          young,
        )
  ]
