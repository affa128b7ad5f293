-- ===== src/Functions.antt =====
-- The network functions of nf/ for two devices, as the drivers of env/src/net/ see them.
use klint.Base.{◌<◌}
use klint.Net.{Packet}
use klint.Net.Delivery.{Passes, Crosses}
use klint.Firewall
use klint.Firewall.Passes as FirewallPasses
use klint.Nat
use klint.Nat.Crosses as NatCrosses
use klint.Policer
use klint.Policer.Passes as PolicerPasses

-- Whatever their states, for a packet of one of two devices, the firewall and the policer return no
-- call or the transmission of that packet as it came, without flags, to the other device, and the
-- NAT no call or the transmission of that packet with other bytes, and the flag to update the
-- Ethernet addresses, to the other device: a call that a driver can serve.
pub two_devices-Crosses :
    (firewall : Firewall.Firewall) (nat : Nat.Nat) (policer : Policer.Policer) (packet : Packet)
    → packet.device < 2
    → Passes packet (Firewall.nf_handle firewall packet).1
      × Crosses packet (Nat.nf_handle nat packet).1
      × Passes packet (Policer.nf_handle policer packet).1
two_devices-Crosses firewall nat policer packet own = (
  FirewallPasses.nf_handle-Passes packet own firewall,
  NatCrosses.nf_handle-Crosses packet own nat,
  PolicerPasses.nf_handle-Passes packet own policer,
)
