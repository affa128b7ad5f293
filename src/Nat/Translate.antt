-- ===== src/Nat/Translate.antt =====
-- nf/nat/nat.c: what the translation does to the bytes of a packet. The headers stand at offsets 14 and
-- 34, as `net_get_ether_header` and its like find them.
use klint.Base.{
  ℕ, ◌+◌, ◌%◌, ◌≤◌, ◌≡◌, refl, ◌⊎◌, Bool, true, false, List, length, ◌==◌, either, if◌then◌else◌,
  inl, ◌∙◌, arith,
}
use klint.Memory.{u16_mod, u32_mod}
use klint.Memory.Words.{load, store, load-store, load-store_other, length-store}
use klint.Flow.{Flow}
use klint.Net.{
  net_checksum_update, updated_checksum, net_packet_checksum_update, net_packet_checksum_update_32,
  dst_addr, src_addr, dst_port, src_port, next_proto_id, ip_protocol_tcp, ip_protocol_udp,
}
use klint.Nat.{translate_in, translate_out}

-- A field before the first checksum of the layer above, and apart from the two bytes at offset 26.
abbrev Apart : ℕ → ℕ → Type 0
Apart o m = ((o + m ≤ 26) ⊎ (28 ≤ o)) × (o + m ≤ 40)

pub load-net_checksum_update :
    (bytes : List ℕ) (c old_word new_word o m : ℕ)
    → (o + m ≤ c) ⊎ (c + 2 ≤ o)
    → load (net_checksum_update bytes c old_word new_word) o m ≡ load bytes o m
unfolding net_checksum_update
load-net_checksum_update bytes c old_word new_word o m h =
    load-store_other bytes c 2 (updated_checksum (load bytes c 2) old_word new_word) o m h

length-net_checksum_update :
    (bytes : List ℕ) (c old_word new_word : ℕ)
    → length (net_checksum_update bytes c old_word new_word) ≡ length bytes
unfolding net_checksum_update
length-net_checksum_update bytes c old_word new_word =
    length-store bytes c 2 (updated_checksum (load bytes c 2) old_word new_word)

-- The update of a packet's checksums leaves every field apart from them.
load-net_packet_checksum_update :
    (bytes : List ℕ) (old_word new_word : ℕ) (in_ip : Bool) (o m : ℕ)
    → Apart o m
    → load (net_packet_checksum_update bytes 14 old_word new_word in_ip) o m ≡ load bytes o m
unfolding net_packet_checksum_update
load-net_packet_checksum_update bytes old_word new_word in_ip o m (h, k) =
    let bytes' = if in_ip then net_checksum_update bytes 26 old_word new_word else bytes in
    let first : load bytes' o m ≡ load bytes o m =
      either (λ (b : List ℕ). load b o m ≡ load bytes o m) in_ip
        (load-net_checksum_update bytes 26 old_word new_word o m h) refl in
    either (λ (b : List ℕ). load b o m ≡ load bytes o m)
      (next_proto_id bytes' 14 == ip_protocol_tcp)
      (load-net_checksum_update bytes' 50 old_word new_word o m (inl (omega arith)) ∙ first)
      (either (λ (b : List ℕ). load b o m ≡ load bytes o m)
        (next_proto_id bytes' 14 == ip_protocol_udp)
        (load-net_checksum_update bytes' 40 old_word new_word o m (inl (omega arith)) ∙ first)
        first)

pub length-net_packet_checksum_update :
    (bytes : List ℕ) (old_word new_word : ℕ) (in_ip : Bool)
    → length (net_packet_checksum_update bytes 14 old_word new_word in_ip) ≡ length bytes
unfolding net_packet_checksum_update
length-net_packet_checksum_update bytes old_word new_word in_ip =
    let bytes' = if in_ip then net_checksum_update bytes 26 old_word new_word else bytes in
    let first : length bytes' ≡ length bytes =
      either (λ (b : List ℕ). length b ≡ length bytes) in_ip
        (length-net_checksum_update bytes 26 old_word new_word) refl in
    either (λ (b : List ℕ). length b ≡ length bytes) (next_proto_id bytes' 14 == ip_protocol_tcp)
      (length-net_checksum_update bytes' 50 old_word new_word ∙ first)
      (either (λ (b : List ℕ). length b ≡ length bytes) (next_proto_id bytes' 14 == ip_protocol_udp)
        (length-net_checksum_update bytes' 40 old_word new_word ∙ first) first)

-- The three checksum updates that come before the writes, with a 32-bit word and a 16-bit one.
abbrev checksummed : List ℕ → ℕ → ℕ → ℕ → ℕ → List ℕ
checksummed bytes old_addr new_addr old_port new_port =
    net_packet_checksum_update (net_packet_checksum_update_32 bytes 14 old_addr new_addr true) 14
      old_port new_port false

load-checksummed :
    (bytes : List ℕ) (old_addr new_addr old_port new_port o m : ℕ)
    → Apart o m
    → load (checksummed bytes old_addr new_addr old_port new_port) o m ≡ load bytes o m
unfolding net_packet_checksum_update_32
load-checksummed bytes old_addr new_addr old_port new_port o m h =
    load-net_packet_checksum_update _ old_port new_port false o m h
    ∙ load-net_packet_checksum_update _ _ _ true o m h
    ∙ load-net_packet_checksum_update bytes _ _ true o m h

length-checksummed :
    (bytes : List ℕ) (old_addr new_addr old_port new_port : ℕ)
    → length (checksummed bytes old_addr new_addr old_port new_port) ≡ length bytes
unfolding net_packet_checksum_update_32
length-checksummed bytes old_addr new_addr old_port new_port =
    length-net_packet_checksum_update _ old_port new_port false
    ∙ length-net_packet_checksum_update _ _ _ true
    ∙ length-net_packet_checksum_update bytes _ _ true

-- Two writes after the checksums, apart from one another.
module _ (bytes : List ℕ) (old_addr new_addr old_port new_port a p : ℕ) (enough : 40 ≤ length bytes)
    (a_small : a + 4 ≤ 34) (p_place : 34 ≤ p) (p_small : p + 2 ≤ 40) where
  abbrev written : List ℕ
  written =
      store (store (checksummed bytes old_addr new_addr old_port new_port) a 4 new_addr) p 2
        new_port

  -- The new address and the new port stand where they were written.
  written_addr : load written a 4 ≡ new_addr % u32_mod
  written_addr =
      load-store_other _ p 2 new_port a 4 (inl (omega arith))
      ∙ load-store (checksummed bytes old_addr new_addr old_port new_port) a 4 new_addr
          (omega (arith, length-checksummed bytes old_addr new_addr old_port new_port))

  written_port : load written p 2 ≡ new_port % u16_mod
  written_port =
      let checked = checksummed bytes old_addr new_addr old_port new_port in
      load-store (store checked a 4 new_addr) p 2 new_port (
        omega (
          arith,
          length-store checked a 4 new_addr,
          length-checksummed bytes old_addr new_addr old_port new_port,
        ))

  -- Every other field before the layer above's checksums is as it was, but for the bytes at 26.
  written_other :
      (o m : ℕ)
      → Apart o m
      → (o + m ≤ a) ⊎ (a + 4 ≤ o)
      → (o + m ≤ p) ⊎ (p + 2 ≤ o)
      → load written o m ≡ load bytes o m
  written_other o m h q r =
      load-store_other _ p 2 new_port o m r
      ∙ load-store_other _ a 4 new_addr o m q
      ∙ load-checksummed bytes old_addr new_addr old_port new_port o m h

-- In a packet of at least 40 bytes the translation of an answer sets the destination address and
-- port to the flow's source, and keeps the source port, the protocol and the Ethernet header; it
-- does not change the IPv4 header's checksum.
pub translate_in-fields :
    (bytes : List ℕ) (flow : Flow)
    → 40 ≤ length bytes
    → let bytes' = translate_in bytes 14 34 flow in
      (dst_addr bytes' 14 ≡ flow.src_ip % u32_mod)
      × (dst_port bytes' 34 ≡ flow.src_port % u16_mod)
      × (src_port bytes' 34 ≡ src_port bytes 34)
      × (next_proto_id bytes' 14 ≡ next_proto_id bytes 14)
      × (load bytes' 0 14 ≡ load bytes 0 14)
      × (load bytes' 24 2 ≡ load bytes 24 2)
unfolding translate_in
translate_in-fields bytes flow enough =
    let old = dst_addr bytes 14 in
    let port = dst_port (net_packet_checksum_update_32 bytes 14 old flow.src_ip true) 34 in
    let other =
      written_other bytes old flow.src_ip port flow.src_port 30 36 enough (omega arith)
        (omega arith) (omega arith) in
    (
      written_addr bytes old flow.src_ip port flow.src_port 30 36 enough (omega arith) (omega arith)
          (omega arith),
      written_port bytes old flow.src_ip port flow.src_port 30 36 enough (omega arith) (omega arith)
          (omega arith),
      other 34 2 (omega arith) (omega arith) (omega arith),
      other 23 1 (omega arith) (omega arith) (omega arith),
      other 0 14 (omega arith) (omega arith) (omega arith),
      other 24 2 (omega arith) (omega arith) (omega arith),
    )

-- Translation of a packet from inside: the source is the external address and port, and the Ethernet
-- header, the destination and the protocol are the packet's own. The IPv4 header's checksum, at offset
-- 24, is not updated.
pub translate_out-fields :
    (bytes : List ℕ) (external_addr external_port : ℕ)
    → 40 ≤ length bytes
    → let bytes' = translate_out bytes 14 34 external_addr external_port in
      (src_addr bytes' 14 ≡ external_addr % u32_mod)
      × (src_port bytes' 34 ≡ external_port % u16_mod)
      × (dst_addr bytes' 14 ≡ dst_addr bytes 14)
      × (dst_port bytes' 34 ≡ dst_port bytes 34)
      × (next_proto_id bytes' 14 ≡ next_proto_id bytes 14)
      × (load bytes' 0 14 ≡ load bytes 0 14)
      × (load bytes' 24 2 ≡ load bytes 24 2)
unfolding translate_out
translate_out-fields bytes external_addr external_port enough =
    let old = src_addr bytes 14 in
    let port = src_port (net_packet_checksum_update_32 bytes 14 old external_addr true) 34 in
    let other =
      written_other bytes old external_addr port external_port 26 34 enough (omega arith)
        (omega arith) (omega arith) in
    (
      written_addr bytes old external_addr port external_port 26 34 enough (omega arith)
          (omega arith) (omega arith),
      written_port bytes old external_addr port external_port 26 34 enough (omega arith)
          (omega arith) (omega arith),
      other 30 4 (omega arith) (omega arith) (omega arith),
      other 36 2 (omega arith) (omega arith) (omega arith),
      other 23 1 (omega arith) (omega arith) (omega arith),
      other 0 14 (omega arith) (omega arith) (omega arith),
      other 24 2 (omega arith) (omega arith) (omega arith),
    )
