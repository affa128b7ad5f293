-- ===== src/Firewall/Passes.antt =====
-- nf/firewall/firewall.c: a packet from one of two devices goes to the other as it came, or nowhere.
use klint.Base.{◌<◌, Bool, true, false, Option, ◌==◌, either, Option-cases, inl, inr}
use klint.Net.{Packet, Output, get_headers}
use klint.Net.Delivery.{Passes, other_device-Passes}
use klint.Firewall.{FlowTable, Firewall, handle_external, nf_handle}

module _ (packet : Packet) (own : packet.device < 2) where
  handle_external-Passes :
      (nf : Firewall) (r : FlowTable × Bool) → Passes packet (handle_external nf packet r).1
  unfolding handle_external
  handle_external-Passes nf (table, false) = tt
  handle_external-Passes nf (table, true) = other_device-Passes packet own

  pub nf_handle-Passes : (nf : Firewall) → Passes packet (nf_handle nf packet).1
  unfolding nf_handle
  nf_handle-Passes nf = elim (Option-cases (get_headers packet)) [
    | inl e ↦ rw (e, nf_handle) tt
    | inr (headers, e) ↦
        rw (e, nf_handle)
          (either (λ (r : Firewall × Option Output). Passes packet r.1)
            (packet.device == nf.external_device) (handle_external-Passes nf _)
            (other_device-Passes packet own))
  ]
