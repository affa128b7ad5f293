-- ===== src/Firewall/History.antt =====
-- nf/firewall over a whole run: what passes from outside is justified by the packets before it, and a
-- flow in use is not forgotten.
use klint.Base.{
  ℕ, ◌≡◌, ◌⊎◌, true, false, Option, none, some, List, [], ◌∷◌, ◌==◌, Bool-cases, bytes_eq,
  bytes_eq→eq, inl, inr, sym, ◌∙◌, ap,
}
use klint.KeyTable.{IsTime}
use klint.IndexPool.Spec.{pool_young}
use klint.Flow.{Flow, flow_bytes, packet_flow, inverted_flow}
use klint.Net.{Packet, Output}
use klint.Net.Times.{AllTimes}
use klint.Net.Headers.{is_tcpudp}
use klint.Firewall.{FlowTable, Firewall, nf_handle}
use klint.Firewall.Table.{IsValid, Used, last_use, is_live, expiration}
use klint.Firewall.Handle.{Handles, nf_handle-Handles}

-- The firewall after a run of packets, the latest first.
unfoldable pub run : Firewall → List Packet → Firewall
run nf [] = nf
run nf (packet ∷ before) = (nf_handle (run nf before) packet).0

-- What the packets of a run say of a flow: when it was last let through. It begins with a packet from
-- inside, and goes on with answers from outside, each within the expiration time of the use before.
pub data Justified (external_device expiration_time : ℕ) (key : List ℕ)
    : List Packet → ℕ → Type 0 where
  left :
      (packet : Packet) (before : List Packet)
      → is_tcpudp packet.bytes ≡ true
      → (packet.device == external_device) ≡ false
      → flow_bytes (packet_flow packet.bytes 14 34) ≡ key
      → Justified external_device expiration_time key (packet ∷ before) packet.time
  answered :
      (packet : Packet) (before : List Packet) (t : ℕ)
      → is_tcpudp packet.bytes ≡ true
      → (packet.device == external_device) ≡ true
      → flow_bytes (inverted_flow packet.bytes 14 34) ≡ key
      → pool_young packet.time expiration_time t ≡ true
      → Justified external_device expiration_time key before t
      → Justified external_device expiration_time key (packet ∷ before) packet.time
  earlier :
      (packet : Packet) (before : List Packet) (t : ℕ)
      → Justified external_device expiration_time key before t
      → Justified external_device expiration_time key (packet ∷ before) t

-- The invariant of a run.
pub record Runs (external_device expiration_time : ℕ) (nf : Firewall) : Type 0 where
  pub valid : IsValid nf.table
  pub device : nf.external_device ≡ external_device
  pub expires : expiration nf.table ≡ expiration_time

-- What became of a packet.
pub data Outcome (nf : Firewall) (packet : Packet) (nf' : Firewall) (out : Option Output)
    : Type 0 where
  dropped : out ≡ none → nf'.table ≡ nf.table → Outcome nf packet nf' out
  let_in :
      is_tcpudp packet.bytes ≡ true
      → (packet.device == nf.external_device) ≡ true
      → is_live nf.table packet.time (inverted_flow packet.bytes 14 34) ≡ true
      → Used nf.table packet.time (inverted_flow packet.bytes 14 34) nf'.table
      → Outcome nf packet nf' out
  let_out :
      is_tcpudp packet.bytes ≡ true
      → (packet.device == nf.external_device) ≡ false
      → Used nf.table packet.time (packet_flow packet.bytes 14 34) nf'.table
      → Outcome nf packet nf' out
  let_out_full :
      (packet.device == nf.external_device) ≡ false
      → nf'.table ≡ nf.table
      → Outcome nf packet nf' out

pub outcome :
    (nf : Firewall) (packet : Packet) (nf' : Firewall) (out : Option Output)
    → Handles nf packet (nf', out)
    → Outcome nf packet nf' out
outcome nf packet nf' out (_, h) = elim (Bool-cases (is_tcpudp packet.bytes)) [
  | inr other ↦ let (o, same) = rw other at h in dropped o same
  | inl headers ↦ elim (Bool-cases (packet.device == nf.external_device)) [
    | inl outside ↦
        elim (Bool-cases (is_live nf.table packet.time (inverted_flow packet.bytes 14 34))) [
          | inl live ↦
              let (_, u) = rw (headers, outside, live) at h in let_in headers outside live u
          | inr dead ↦ let (o, same) = rw (headers, outside, dead) at h in dropped o same
        ]
    | inr inside ↦
        let (_, learned) = rw (headers, inside) at h in
        elim learned [ inl u ↦ let_out headers inside u | inr (_, same) ↦ let_out_full inside same ]
  ]
]

module _ {external_device expiration_time : ℕ} {nf : Firewall}
    (h : Runs external_device expiration_time nf) where
  same-Runs :
      (nf' : Firewall)
      → nf'.external_device ≡ nf.external_device
      → nf'.table ≡ nf.table
      → Runs external_device expiration_time nf'
  same-Runs nf' d e = record {
    valid = rw e h.valid;
    device = d ∙ h.device;
    expires = rw e h.expires;
  }

  used-Runs :
      (nf' : Firewall) (time : ℕ) (flow : Flow)
      → nf'.external_device ≡ nf.external_device
      → Used nf.table time flow nf'.table
      → Runs external_device expiration_time nf'
  used-Runs nf' time flow d u = record {
    valid = u.valid;
    device = d ∙ h.device;
    expires = u.same_expiration ∙ h.expires;
  }

-- What a use of one flow leaves of another.
pub Used-last_use :
    {table table' : FlowTable} {time : ℕ} {flow : Flow}
    → Used table time flow table'
    → (f : Flow) {t : ℕ} → last_use table' (flow_bytes f) ≡ some t
    → ((flow_bytes flow ≡ flow_bytes f) × (t ≡ time)) ⊎ (last_use table (flow_bytes f) ≡ some t)
Used-last_use {table} {table'} {time} {flow} u f {t} e =
    elim (Bool-cases (bytes_eq (flow_bytes flow) (flow_bytes f))) [
      | inl same ↦
          let key : flow_bytes flow ≡ flow_bytes f = bytes_eq→eq _ _ same in
          let now : some time ≡ some t = sym u.seen ∙ ap (last_use table') key ∙ e in inl (key, cc)
      | inr other ↦ elim (u.others f other) [
        | inl kept ↦ inr (sym kept ∙ e)
        | inr (gone, _) ↦ absurd (let clash : none ≡ some t = sym gone ∙ e in cc)
      ]
    ]

module _ {external_device expiration_time : ℕ} where
  pub step-Runs :
      (nf : Firewall) (packet : Packet)
      → Runs external_device expiration_time nf
      → IsTime packet.time
      → Runs external_device expiration_time (nf_handle nf packet).0
  step-Runs nf packet h real =
      let did = nf_handle-Handles nf packet h.valid real in
      let nf' = (nf_handle nf packet).0 in
      elim (outcome nf packet nf' (nf_handle nf packet).1 did) [
        | dropped _ same ↦ same-Runs h nf' did.0 same
        | let_in _ _ _ u ↦ used-Runs h nf' packet.time _ did.0 u
        | let_out _ _ u ↦ used-Runs h nf' packet.time _ did.0 u
        | let_out_full _ same ↦ same-Runs h nf' did.0 same
      ]

  pub run-Runs :
      (nf : Firewall) (packets : List Packet)
      → Runs external_device expiration_time nf
      → AllTimes packets
      → Runs external_device expiration_time (run nf packets)
  unfolding run
  run-Runs nf [] h all = h
  run-Runs nf (packet ∷ before) h (real, all) =
      step-Runs (run nf before) packet (run-Runs nf before h all) real
