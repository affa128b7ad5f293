-- ===== src/Nat/SourceAddr.antt =====
-- nf/nat/nat.c: what the translation of an answer does to the source address.
use klint.Base.{
  ℕ, ◌/◌, ◌%◌, ◌^◌, ◌≤◌, ◌≡◌, refl, true, false, List, length, ◌==◌, either, inl, ap, ◌∙◌, arith,
}
use klint.Memory.{u16_mod}
use klint.Memory.Words.{load, store, load-store, load-store_other}
use klint.Flow.{Flow}
use klint.Net.{
  net_checksum_update, updated_checksum, net_packet_checksum_update, net_packet_checksum_update_32,
  dst_addr, next_proto_id, ip_protocol_tcp, ip_protocol_udp,
}
use klint.Nat.{translate_in}
use klint.Nat.Translate.{load-net_checksum_update, length-net_packet_checksum_update}

-- What the update makes of the two bytes at offset 26, which it takes for the header's checksum.
load_26-net_packet_checksum_update :
    (bytes : List ℕ) (old_word new_word : ℕ)
    → 28 ≤ length bytes
    → load (net_packet_checksum_update bytes 14 old_word new_word true) 26 2
      ≡ updated_checksum (load bytes 26 2) old_word new_word
unfolding net_packet_checksum_update net_checksum_update
load_26-net_packet_checksum_update bytes old_word new_word enough =
    let word = updated_checksum (load bytes 26 2) old_word new_word in
    let bytes' = store bytes 26 2 word in
    let small : word % 256 ^ 2 ≡ word = unfold updated_checksum in omega arith in
    let first : load bytes' 26 2 ≡ word = load-store bytes 26 2 word (omega arith) ∙ small in
    either (λ (b : List ℕ). load b 26 2 ≡ word) (next_proto_id bytes' 14 == ip_protocol_tcp)
      (load-store_other bytes' 50 2 _ 26 2 (inl (omega arith)) ∙ first)
      (either (λ (b : List ℕ). load b 26 2 ≡ word) (next_proto_id bytes' 14 == ip_protocol_udp)
        (load-store_other bytes' 40 2 _ 26 2 (inl (omega arith)) ∙ first) first)

load_26-not_in_ip :
    (bytes : List ℕ) (old_word new_word : ℕ)
    → load (net_packet_checksum_update bytes 14 old_word new_word false) 26 2 ≡ load bytes 26 2
unfolding net_packet_checksum_update
load_26-not_in_ip bytes old_word new_word =
    either (λ (b : List ℕ). load b 26 2 ≡ load bytes 26 2)
      (next_proto_id bytes 14 == ip_protocol_tcp)
      (load-net_checksum_update bytes 50 old_word new_word 26 2 (inl (omega arith)))
      (either (λ (b : List ℕ). load b 26 2 ≡ load bytes 26 2)
        (next_proto_id bytes 14 == ip_protocol_udp)
        (load-net_checksum_update bytes 40 old_word new_word 26 2 (inl (omega arith))) refl)

-- In a packet of at least 40 bytes the translation of an answer puts the first two bytes of the
-- source address through the two checksum updates that are meant for the IPv4 header's checksum.
pub translate_in-src_addr :
    (bytes : List ℕ) (flow : Flow)
    → 40 ≤ length bytes
    → let old = dst_addr bytes 14 in
      load (translate_in bytes 14 34 flow) 26 2
      ≡ updated_checksum
          (updated_checksum (load bytes 26 2) (old % u16_mod) (flow.src_ip % u16_mod))
          (old / 2 ^ 16 % u16_mod)
          (flow.src_ip / 2 ^ 16 % u16_mod)
unfolding translate_in net_packet_checksum_update_32
translate_in-src_addr bytes flow enough =
    let old = dst_addr bytes 14 in
    let lo = net_packet_checksum_update bytes 14 (old % u16_mod) (flow.src_ip % u16_mod) true in
    load-store_other _ 36 2 flow.src_port 26 2 (inl (omega arith))
    ∙ load-store_other _ 30 4 flow.src_ip 26 2 (inl (omega arith))
    ∙ load_26-not_in_ip _ _ flow.src_port
    ∙ load_26-net_packet_checksum_update lo (old / 2 ^ 16 % u16_mod)
        (flow.src_ip / 2 ^ 16 % u16_mod)
        (omega (
          arith,
          length-net_packet_checksum_update bytes (old % u16_mod) (flow.src_ip % u16_mod) true,
        ))
    ∙ ap (λ (w : ℕ). updated_checksum w (old / 2 ^ 16 % u16_mod) (flow.src_ip / 2 ^ 16 % u16_mod))
        (load_26-net_packet_checksum_update bytes (old % u16_mod) (flow.src_ip % u16_mod)
          (omega arith))
