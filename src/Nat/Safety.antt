-- ===== src/Nat/Safety.antt =====
-- nf/nat over a whole run, safety: what comes in from outside goes to the source of a flow that had
-- gone out, from the port that it comes to.
use klint.Base.{
  ℕ, ◌%◌, ◌≡◌, refl, true, false, Option, none, some, List, [], ◌∷◌, get_or, ◌==◌, Bool-cases, inl,
  inr, sym, ◌∙◌, arith,
}
use klint.Memory.{u16_mod}
use klint.IndexPool.Spec.{pool_young}
use klint.KeyTable.View.{map_get-view}
use klint.KeyTable.{IsTime}
use klint.Flow.{Flow, flow_bytes, length-flow_bytes, packet_flow, zero_flow}
use klint.Net.{Packet, Output, dst_port}
use klint.Net.Times.{AllTimes}
use klint.Net.Headers.{is_tcpudp}
use klint.Nat.{
  Nat, nf_handle, port_of, index_of, is_spoofed, translate_in, translate_out, transmitted,
}
use klint.Nat.Table.{IsValid, flow_use, index_live}
use klint.Nat.Handle.{nf_handle-Translates}
use klint.Nat.History.{
  run, Assigned, left, reached, Runs, same-Runs, used-Runs, port_of-index_of, live-Assigned,
}

step-Runs :
    (start : Nat) (packet : Packet) (before : List Packet)
    → Runs start before (run start before)
    → IsTime packet.time
    → Runs start (packet ∷ before) (nf_handle (run start before) packet).0
step-Runs start packet before h real =
    let nf = run start before in
    let nf' = (nf_handle nf packet).0 in
    let (d, a, did) = nf_handle-Translates nf packet h.valid real in
    elim (Bool-cases (is_tcpudp packet.bytes)) [
      | inr other ↦ let (same, _) = rw other at did in same-Runs packet before h nf' d a same
      | inl headers ↦ elim (Bool-cases (packet.device == nf.wan_device)) [
        | inl outside ↦
            let port = dst_port packet.bytes 34 in
            let index = index_of nf.table port in
            let flow = get_or nf.table.flows index zero_flow in
            elim (Bool-cases (index_live nf.table packet.time index)) [
              | inr dead ↦
                  let (same, _) = rw (headers, outside, dead) at did in
                  same-Runs packet before h nf' d a same
              | inl live ↦
                  let (u, _) = rw (headers, outside, live) at did in
                  let (t, assigned, young) = live-Assigned packet before h index real live in
                  let to_port = port_of-index_of packet before h port in
                  used-Runs packet before h nf' index flow d a u (
                    reached packet before t headers (rw (← h.device) outside) (sym to_port) young
                      assigned)
            ]
        | inr inside ↦
            let sends = rw (headers, inside) at did in
            elim sends [
              | inr (_, (same, _, _)) ↦ same-Runs packet before h nf' d a same
              | inl (index, out, u) ↦
                  let same_port : port_of nf.table index ≡ port_of start.table index =
                    rw h.first_port refl in
                  let same_out : transmitted packet
                        (translate_out packet.bytes 14 34 nf.external_addr (port_of nf.table index))
                      ≡ transmitted packet (
                          translate_out packet.bytes 14 34 start.external_addr
                            (port_of start.table index)) =
                    rw (h.addr, same_port) refl in
                  used-Runs packet before h nf' index (packet_flow packet.bytes 14 34) d a u
                    (left packet before headers (rw (← h.device) inside) refl (out ∙ same_out))
            ]
      ]
    ]

run-Runs :
    (start : Nat) (packets : List Packet)
    → Runs start [] start
    → AllTimes packets
    → Runs start packets (run start packets)
unfolding run
run-Runs start [] h all = h
run-Runs start (packet ∷ before) h (real, all) =
    step-Runs start packet before (run-Runs start before h all) real

-- A new table has assigned nothing.
pub empty-Runs :
    (start : Nat)
    → IsValid start.table
    → ((flow : Flow) → flow_use start.table flow ≡ none)
    → Runs start [] start
empty-Runs start v empty = record {
  valid = v;
  device = refl;
  addr = refl;
  first_port = refl;
  expires = refl;
  assigned = λ flow {k} {t} (at, used).
      let size = length-flow_bytes flow ∙ sym v.store_valid.same_key_size in
      let seen = map_get-view v.store_valid.coherent (flow_bytes flow) k size at in
      let clash : none ≡ some t = sym (empty flow) ∙ seen ∙ used in absurd (cc);
}

-- A packet from outside is an answer to a flow that has been assigned its port, and goes to that
-- flow's source.
abbrev pub AnswersFlow : Nat → List Packet → Packet → Option Output → Type 0
AnswersFlow start packets packet out =
    (flow : Flow) × (t : ℕ) × Assigned start (flow_bytes flow) (dst_port packet.bytes 34 % u16_mod)
      packets t
    × (pool_young packet.time start.table.port_allocator.expiration_time t ≡ true)
    × (is_spoofed packet.bytes 14 34 flow ≡ false)
    × (out ≡ transmitted packet (translate_in packet.bytes 14 34 flow))

-- After any run of packets at real times from a NAT with an empty table, a packet from the WAN
-- device that is sent on is TCP or UDP, answers a flow, being from that flow's peer, and goes to
-- that flow's source; an earlier packet of the flow had come from inside and was sent out from the
-- port that this one comes to, and it and the packets to that port since follow one another, up to
-- this one, within the expiration time.
pub run-AnswersFlow :
    (start : Nat)
    → IsValid start.table
    → ((flow : Flow) → flow_use start.table flow ≡ none)
    → (packets : List Packet) (packet : Packet) {out : Output} → AllTimes packets
    → IsTime packet.time
    → packet.device ≡ start.wan_device
    → (nf_handle (run start packets) packet).1 ≡ some out
    → (is_tcpudp packet.bytes ≡ true) × AnswersFlow start packets packet (some out)
run-AnswersFlow start v empty packets packet {out} all real device e =
    let h = run-Runs start packets (empty-Runs start v empty) all in
    let nf = run start packets in
    let (_, _, did) = nf_handle-Translates nf packet h.valid real in
    let index = index_of nf.table (dst_port packet.bytes 34) in
    let flow = get_or nf.table.flows index zero_flow in
    let outside : (packet.device == nf.wan_device) ≡ true = ground (arith, h.device) in
    elim (Bool-cases (is_tcpudp packet.bytes)) [
      | inr other ↦
          let (_, o) = rw other at did in absurd (let clash : none ≡ some out = sym o ∙ e in cc)
      | inl headers ↦ elim (Bool-cases (index_live nf.table packet.time index)) [
        | inr dead ↦
            let (_, o) = rw (headers, outside, dead) at did in
            absurd (let clash : none ≡ some out = sym o ∙ e in cc)
        | inl live ↦
            let (_, o) = rw (headers, outside, live) at did in
            elim (Bool-cases (is_spoofed packet.bytes 14 34 flow)) [
              | inl spoofed ↦
                  let o' = rw spoofed at o in
                  absurd (let clash : none ≡ some out = sym o' ∙ e in cc)
              | inr peer ↦
                  let o' = rw peer at o in
                  let (t, assigned, young) = live-Assigned packet packets h index real live in
                  let to_port = port_of-index_of packet packets h (dst_port packet.bytes 34) in
                  (headers, (flow, t, rw (← to_port) assigned, young, peer, sym e ∙ o'))
            ]
      ]
    ]
