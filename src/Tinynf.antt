-- ===== src/Tinynf.antt =====
-- env/src/net/tinynf/main.c: the calls that send a packet. The driver transmits one buffer on every
-- output, with a length of its own for each, where 0 is for none; the outputs are the devices other than
-- the one that the packet came from.
pub mod Outputs
use klint.Base.{
  ℕ, zero, suc, ◌+◌, ◌-◌, ◌%◌, bit_and, Bool, false, Option, none, some, List, get_or, set, ltb,
  ◌==◌, if◌then◌else◌,
}
use klint.Memory.{u16_mod}
use klint.Memory.Words.{store}
use klint.Net.{Packet, Output, net_transmit, net_flood, net_flood_except, update_ether_addrs}

-- The static variables that `main` sets; an Ethernet address is the number of its six bytes.
pub record Driver : Type 0 where
  pub devices_count : ℕ
  pub endpoint_macs : List ℕ
  pub device_macs : List ℕ

-- The buffer, and `current_output_lengths`.
pub record Buffer : Type 0 where
  pub bytes : List ℕ
  pub output_lengths : List ℕ

abbrev pub index_from_device : ℕ → ℕ → ℕ
index_from_device packet_device device = if ltb packet_device device then device - 1 else device

-- `(device_t)`
abbrev pub device_from_index : ℕ → ℕ → ℕ
device_from_index packet_device index =
    (if ltb index packet_device then index else index + 1) % u16_mod

unfoldable pub handle_flags : Driver → ℕ → ℕ → List ℕ → List ℕ
unfolding get_or store
handle_flags driver device flags bytes =
    if bit_and flags update_ether_addrs == 0
    then bytes
    else store (store bytes 0 6 (get_or driver.endpoint_macs device 0)) 6 6
        (get_or driver.device_macs device 0)

-- One round of `net_flood`, and all of `net_transmit`.
abbrev pub put_output : Driver → ℕ → ℕ → ℕ → ℕ → Buffer → Buffer
unfolding handle_flags
put_output driver device flags index length buffer = record {
  bytes = handle_flags driver device flags buffer.bytes;
  output_lengths = set buffer.output_lengths index length;
}

-- The loop of `net_flood` from n on.
unfoldable pub flood_from : Driver → Packet → ℕ → ℕ → ℕ → Buffer → Buffer
unfolding handle_flags
flood_from driver packet flags zero n buffer = buffer
flood_from driver packet flags (suc rounds) n buffer =
    flood_from driver packet flags rounds (n + 1)
      (put_output driver (device_from_index packet.device n) flags n packet.length buffer)

-- The loop of `net_flood_except` from n on.
unfoldable pub flood_except_from : Driver → Packet → List Bool → ℕ → ℕ → ℕ → Buffer → Buffer
unfolding handle_flags get_or
flood_except_from driver packet disabled_devices flags zero n buffer = buffer
flood_except_from driver packet disabled_devices flags (suc rounds) n buffer =
    let device = device_from_index packet.device n in
    flood_except_from driver packet disabled_devices flags rounds (n + 1) (
      put_output driver device flags n
        (if get_or disabled_devices device false then 0 else packet.length) buffer)

-- What a call does to the buffer of the packet.
unfoldable pub send : Driver → Output → List ℕ → Buffer
unfolding handle_flags flood_from flood_except_from
send driver (net_transmit packet device flags) lengths =
    put_output driver device flags (index_from_device packet.device device) packet.length
      (record { bytes = packet.bytes; output_lengths = lengths })
send driver (net_flood packet flags) lengths =
    flood_from driver packet flags (driver.devices_count - 1) 0
      (record { bytes = packet.bytes; output_lengths = lengths })
send driver (net_flood_except packet disabled_devices flags) lengths =
    flood_except_from driver packet disabled_devices flags (driver.devices_count - 1) 0
      (record { bytes = packet.bytes; output_lengths = lengths })

-- `tinynf_packet_handler` with the network function's handler.
unfoldable pub tinynf_packet_handler :
    {S : Type 0} → Driver → (S → Packet → S × Option Output) → S → Packet → List ℕ → S × Buffer
unfolding send
tinynf_packet_handler driver nf_handle state packet lengths =
    let (state', out) = nf_handle state packet in
    (
      state',
      elim out [
        | none ↦ record { bytes = packet.bytes; output_lengths = lengths }
        | some output ↦ send driver output lengths
      ],
    )
