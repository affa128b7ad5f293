-- ===== src/Net/Delivery.antt =====
-- env/include/net/tx.h: which devices a call of `net_transmit`, `net_flood` or `net_flood_except` sends
-- the packet to, and what a driver asks of the call.
use klint.Base.{
  ℕ, ◌+◌, ◌-◌, ◌%◌, ◌<◌, ◌≢◌, arith, Bool, false, not, ◌&&◌, Option, none, some, get_or, ◌==◌, ◌≡◌,
  List, ap,
}
use klint.Memory.{u16_mod}
use klint.Net.{
  Packet, Output, net_transmit, net_flood, net_flood_except, no_flags, update_ether_addrs,
}

-- The packet as the call has it.
abbrev pub sent_packet : Output → Packet
sent_packet (net_transmit packet device flags) = packet
sent_packet (net_flood packet flags) = packet
sent_packet (net_flood_except packet disabled_devices flags) = packet

abbrev pub sent_flags : Output → ℕ
sent_flags (net_transmit packet device flags) = flags
sent_flags (net_flood packet flags) = flags
sent_flags (net_flood_except packet disabled_devices flags) = flags

-- The call sends the packet to the device; a flood leaves out the device that the packet came from.
abbrev pub goes_to : Output → ℕ → Bool
goes_to (net_transmit packet device flags) d = device == d
goes_to (net_flood packet flags) d = not (packet.device == d)
goes_to (net_flood_except packet disabled_devices flags) d =
    not (packet.device == d) && not (get_or disabled_devices d false)

-- The packet came from one of the devices, and is not sent back there, nor to a device that does not
-- exist.
abbrev pub IsSendable : ℕ → Output → Type 0
IsSendable devices_count (net_transmit packet device flags) =
    (packet.device < devices_count) × (device < devices_count) × (packet.device ≢ device)
IsSendable devices_count (net_flood packet flags) = packet.device < devices_count
IsSendable devices_count (net_flood_except packet disabled_devices flags) =
    packet.device < devices_count

-- What a handler returns: no call, or one that a driver can serve.
abbrev pub Sends : ℕ → Option Output → Type 0
Sends devices_count none = Unit {0}
Sends devices_count (some output) = IsSendable devices_count output

-- No call, or the transmission of the packet as it came to the other one of two devices.
abbrev pub Passes : Packet → Option Output → Type 0
Passes packet none = Unit {0}
Passes packet (some output) =
    IsSendable 2 output × (output ≡ net_transmit packet (1 - packet.device) no_flags)

-- No call, or the transmission of the packet with other bytes to the other one of two devices.
abbrev pub Crosses : Packet → Option Output → Type 0
Crosses packet none = Unit {0}
Crosses packet (some output) =
    IsSendable 2 output
    × (bytes : List ℕ) × (output
        ≡ net_transmit (record packet { bytes = bytes }) (1 - packet.device) update_ether_addrs)

module _ (packet : Packet) (own : packet.device < 2) where
  -- `(device_t) (1 - packet->device)` does not wrap around.
  other_device : (1 + u16_mod - packet.device) % u16_mod ≡ 1 - packet.device
  other_device = omega arith

  pub other_device-Passes :
      Passes packet (some (net_transmit packet ((1 + u16_mod - packet.device) % u16_mod) no_flags))
  other_device-Passes = (
    (own, omega arith, λ e. omega arith),
    ap (λ (device : ℕ). net_transmit packet device no_flags) other_device,
  )

  pub other_device-Crosses :
      (bytes : List ℕ)
      → Crosses packet (
          some (
            net_transmit
              (record packet { bytes = bytes })
              ((1 + u16_mod - packet.device) % u16_mod)
              update_ether_addrs))
  other_device-Crosses bytes = (
    (own, omega arith, λ e. omega arith),
    bytes,
    ap (λ (device : ℕ). net_transmit (record packet { bytes = bytes }) device update_ether_addrs)
        other_device,
  )
