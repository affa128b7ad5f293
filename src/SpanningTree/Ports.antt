-- ===== src/SpanningTree/Ports.antt =====
-- nf/bridge/spanning_tree.h: which ports a message of another bridge disables and enables, and what is
-- sent on.
use klint.Base.{◌≡◌, true, false, some, none, set, ltb, if◌then◌else◌, arith}
use klint.Net.{Packet, net_flood, update_ether_addrs}
use klint.SpanningTree.{StpState, write_bpdu, bpdu_root, stp_receive}
use klint.SpanningTree.Root.{offer_of, choice, better}

-- Of a message of another bridge with a better offer stp_receive enables the port and floods the
-- message with the new choice written to it; any other it does not flood, and a worse root disables
-- the port.
pub stp_receive-ports :
    (state : StpState) (packet : Packet)
    → let (state', out) = stp_receive state packet in
      if better (offer_of packet) (choice state)
      then (out
          ≡ some (
              some (
                net_flood
                  (record packet { bytes = write_bpdu state' packet.bytes })
                  update_ether_addrs)))
        × (state'.disabled_ports ≡ set state.disabled_ports packet.device false)
      else (out ≡ some none)
        × (state'.disabled_ports ≡ (
            if ltb state.root (bpdu_root packet.bytes)
            then set state.disabled_ports packet.device true
            else state.disabled_ports))
unfolding stp_receive better
stp_receive-ports state packet = ground arith
