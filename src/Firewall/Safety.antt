-- ===== src/Firewall/Safety.antt =====
-- nf/firewall over a whole run, safety: nothing passes from outside but answers to recent packets from
-- inside.
use klint.Base.{
  Bool, ℕ, ◌≡◌, refl, true, false, Option, none, some, List, [], ◌∷◌, ◌==◌, inl, inr, sym, ◌∙◌, ap,
  arith,
}
use klint.KeyTable.{IsTime}
use klint.IndexPool.Spec.{pool_young}
use klint.Flow.{Flow, flow_bytes, inverted_flow}
use klint.Net.{Packet, Output}
use klint.Net.Times.{AllTimes}
use klint.Net.Headers.{is_tcpudp}
use klint.Firewall.{Firewall, nf_handle}
use klint.Firewall.Table.{last_use, expiration}
use klint.Firewall.Handle.{Started, nf_handle-Handles}
use klint.Firewall.History.{
  run, Justified, left, answered, earlier, Runs, dropped, let_in, let_out, let_out_full, outcome,
  Used-last_use, run-Runs,
}

-- A live flow has a use that is young.
live_use :
    (o : Option ℕ) (young : ℕ → Bool)
    → elim o [ none ↦ false | some u ↦ young u ] ≡ true
    → (t : ℕ) × (o ≡ some t) × (young t ≡ true)
live_use none young h = absurd (cc)
live_use (some t) young h = (t, refl, h)

module _ (external_device expiration_time : ℕ) where
  abbrev IsJustified : Flow → List Packet → ℕ → Type 0
  IsJustified f packets t = Justified external_device expiration_time (flow_bytes f) packets t

  step-Justified :
      (nf : Firewall) (packet : Packet) (before : List Packet) (f : Flow) (t : ℕ)
      → Runs external_device expiration_time nf
      → IsTime packet.time
      → ((g : Flow) (u : ℕ) → last_use nf.table (flow_bytes g) ≡ some u → IsJustified g before u)
      → last_use (nf_handle nf packet).0.table (flow_bytes f) ≡ some t
      → IsJustified f (packet ∷ before) t
  step-Justified nf packet before f t h real ih e =
      let did = nf_handle-Handles nf packet h.valid real in
      let nf' = (nf_handle nf packet).0 in
      elim (outcome nf packet nf' (nf_handle nf packet).1 did) [
        | dropped _ same ↦
            earlier packet before t (ih f t (ap (λ x. last_use x (flow_bytes f)) (sym same) ∙ e))
        | let_out_full _ same ↦
            earlier packet before t (ih f t (ap (λ x. last_use x (flow_bytes f)) (sym same) ∙ e))
        | let_out headers inside u ↦ elim (Used-last_use u f {t = t} e) [
          | inr old ↦ earlier packet before t (ih f t old)
          | inl (key, now) ↦ rw now (left packet before headers (rw (← h.device) inside) key)
        ]
        | let_in headers outside live u ↦ elim (Used-last_use u f {t = t} e) [
          | inr old ↦ earlier packet before t (ih f t old)
          | inl (key, now) ↦
              let g = inverted_flow packet.bytes 14 34 in
              let (w, at, young) =
                live_use (last_use nf.table (flow_bytes g))
                  (pool_young packet.time (expiration nf.table)) live in
              rw now (
                answered packet before w headers (rw (← h.device) outside) key
                  (rw (← h.expires) young) (rw key at (ih g w at)))
        ]
      ]

  run-Justified :
      (nf : Firewall) (packets : List Packet) (f : Flow) (t : ℕ)
      → Runs external_device expiration_time nf
      → ((key : List ℕ) → last_use nf.table key ≡ none)
      → AllTimes packets
      → last_use (run nf packets).table (flow_bytes f) ≡ some t
      → IsJustified f packets t
  unfolding run
  run-Justified nf [] f t h empty all e =
      absurd (let clash : none ≡ some t = sym (empty (flow_bytes f)) ∙ e in cc)
  run-Justified nf (packet ∷ before) f t h empty (real, all) e =
      step-Justified (run nf before) packet before f t (run-Runs nf before h all) real
        (λ g u. run-Justified nf before g u h empty all) e

abbrev Started-Runs :
    {external_device expiration_time max_flows : ℕ} {nf : Firewall}
    → Started external_device expiration_time max_flows nf
    → Runs external_device expiration_time nf
Started-Runs s = record { valid = s.valid; device = s.device; expires = s.expires }

-- After any run of packets from the start of the firewall, a packet from the external device that
-- is forwarded is TCP or UDP, and answers a flow of which a packet had come from inside; that
-- packet, and the answers let in since, follow one another up to this one within the expiration
-- time.
pub run-forwarded :
    {external_device expiration_time max_flows : ℕ} {nf : Firewall}
    → Started external_device expiration_time max_flows nf
    → (packets : List Packet) (packet : Packet) {out : Output} → AllTimes packets
    → IsTime packet.time
    → packet.device ≡ external_device
    → (nf_handle (run nf packets) packet).1 ≡ some out
    → (is_tcpudp packet.bytes ≡ true)
      × ((t : ℕ) × (Justified external_device expiration_time
            (flow_bytes (inverted_flow packet.bytes 14 34))
            packets
            t)
          × (pool_young packet.time expiration_time t ≡ true))
run-forwarded {external_device} {expiration_time} {nf = nf} s packets packet {out} all real device
      e =
    let h = run-Runs nf packets (Started-Runs s) all in
    let did = nf_handle-Handles (run nf packets) packet h.valid real in
    elim (outcome (run nf packets) packet (nf_handle (run nf packets) packet).0
      (nf_handle (run nf packets) packet).1 did) [
        | dropped o _ ↦ absurd (let clash : none ≡ some out = sym o ∙ e in cc)
        | let_out _ inside _ ↦ absurd (clash (device ∙ sym h.device) inside)
        | let_out_full inside _ ↦ absurd (clash (device ∙ sym h.device) inside)
        | let_in headers outside live _ ↦
            let g = inverted_flow packet.bytes 14 34 in
            let (t, at, young) =
              live_use (last_use (run nf packets).table (flow_bytes g))
                (pool_young packet.time (expiration (run nf packets).table)) live in
            (
              headers,
              (
                t,
                run-Justified external_device expiration_time nf packets g t (Started-Runs s)
                    s.empty all at,
                rw (← h.expires) young,
              ),
            )
      ]
  where
    clash : {a b : ℕ} → a ≡ b → (a == b) ≡ false → ⊥
    clash p q = absurd (ground arith)
