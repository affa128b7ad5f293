-- ===== src/Nat/Crosses.antt =====
-- nf/nat/nat.c: a packet from one of two devices goes to the other with other bytes, or nowhere.
use klint.Base.{ℕ, ◌<◌, Option, none, some, List, ◌==◌, either, Option-cases, inl, inr}
use klint.Net.{Packet, Output, get_headers}
use klint.Net.Delivery.{Crosses, other_device-Crosses}
use klint.Flow.{Flow}
use klint.Nat.{
  FlowTable, Nat, is_spoofed, transmitted, translate_in, translate_out, handle_external,
  handle_internal, nf_handle,
}

module _ (packet : Packet) (own : packet.device < 2) where
  transmitted-Crosses : (bytes : List ℕ) → Crosses packet (transmitted packet bytes)
  transmitted-Crosses = other_device-Crosses packet own

  handle_external-Crosses :
      (nf : Nat) (ipv4 l4 : ℕ) (r : FlowTable × Option Flow)
      → Crosses packet (handle_external nf packet ipv4 l4 r).1
  unfolding handle_external
  handle_external-Crosses nf ipv4 l4 (table, none) = tt
  handle_external-Crosses nf ipv4 l4 (table, some flow) =
      either (Crosses packet) (is_spoofed packet.bytes ipv4 l4 flow) tt
        (transmitted-Crosses (translate_in packet.bytes ipv4 l4 flow))

  handle_internal-Crosses :
      (nf : Nat) (ipv4 l4 : ℕ) (r : FlowTable × Option ℕ)
      → Crosses packet (handle_internal nf packet ipv4 l4 r).1
  unfolding handle_internal
  handle_internal-Crosses nf ipv4 l4 (table, none) = tt
  handle_internal-Crosses nf ipv4 l4 (table, some port) =
      transmitted-Crosses (translate_out packet.bytes ipv4 l4 nf.external_addr port)

  pub nf_handle-Crosses : (nf : Nat) → Crosses packet (nf_handle nf packet).1
  unfolding nf_handle
  nf_handle-Crosses nf = elim (Option-cases (get_headers packet)) [
    | inl e ↦ rw (e, nf_handle) tt
    | inr ((ipv4, l4), e) ↦
        rw (e, nf_handle)
          (either (λ (r : Nat × Option Output). Crosses packet r.1) (packet.device == nf.wan_device)
            (handle_external-Crosses nf ipv4 l4 _) (handle_internal-Crosses nf ipv4 l4 _))
  ]
