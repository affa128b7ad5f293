-- ===== src/Dpdk.antt =====
-- env/src/net/dpdk/main.c: the calls that send a packet, and one round of the loop of `main` for the
-- device that packets were received from. An `rte_mbuf` is the number that stands for its pointer.
pub mod Adding
pub mod Calls
pub mod Rounds
use klint.Base.{
  ℕ, zero, suc, ◌+◌, ◌-◌, ◌%◌, bit_and, Bool, true, false, not, ◌&&◌, Option, none, some, List, [],
  ◌∷◌, ◌++◌, get_or, set, take, drop, replicate, ◌==◌, if◌then◌else◌,
}
use klint.Memory.{u16_mod}
use klint.Memory.Words.{store}
use klint.Net.{Packet, Output, net_transmit, net_flood, net_flood_except, update_ether_addrs}

abbrev pub max_devices : ℕ
max_devices = 2

-- The static variables that `main` sets; an Ethernet address is the number of its six bytes.
pub record Driver : Type 0 where
  pub devices_count : ℕ
  pub device_addrs : List ℕ
  pub endpoint_addrs : List ℕ

-- The static variables that the calls change.
pub record Queues : Type 0 where
  pub bufs_to_tx_count : List ℕ
  pub bufs_to_tx : List (List ℕ)

-- A received buffer, with the packet that `main` makes of it.
pub record Mbuf : Type 0 where
  pub os_tag : ℕ
  pub packet : Packet

unfoldable pub handle_flags : Driver → ℕ → ℕ → List ℕ → List ℕ
unfolding get_or store
handle_flags driver device flags bytes =
    if not (bit_and flags update_ether_addrs == 0)
    then store (store bytes 6 6 (get_or driver.device_addrs device 0)) 0 6
        (get_or driver.endpoint_addrs device 0)
    else bytes

-- The statements that the three calls share: the bytes of the packet, and the queues.
unfoldable pub enqueue : Driver → ℕ → ℕ → ℕ → List ℕ × Queues → List ℕ × Queues
unfolding get_or handle_flags
enqueue driver os_tag flags device (bytes, queues) =
    let count = get_or queues.bufs_to_tx_count device 0 in
    (
      handle_flags driver device flags bytes,
      record {
        bufs_to_tx_count = set queues.bufs_to_tx_count device ((count + 1) % u16_mod);
        bufs_to_tx =
            set queues.bufs_to_tx device (set (get_or queues.bufs_to_tx device []) count os_tag);
      },
    )

-- The loops of `net_flood` and `net_flood_except` from a device on; `skips` is for the devices that
-- their tests leave out.
unfoldable pub flood_from : Driver → ℕ → ℕ → (ℕ → Bool) → ℕ → ℕ → List ℕ × Queues → List ℕ × Queues
unfolding enqueue
flood_from driver os_tag flags skips zero device sent = sent
flood_from driver os_tag flags skips (suc rounds) device sent =
    flood_from driver os_tag flags skips rounds (device + 1)
      (if skips device then sent else enqueue driver os_tag flags device sent)

unfoldable pub send : Driver → ℕ → Output → Queues → List ℕ × Queues
unfolding enqueue flood_from get_or
send driver os_tag (net_transmit packet device flags) queues =
    enqueue driver os_tag flags device (packet.bytes, queues)
send driver os_tag (net_flood packet flags) queues =
    flood_from driver os_tag flags (λ device. packet.device == device) driver.devices_count 0
      (packet.bytes, queues)
send driver os_tag (net_flood_except packet disabled_devices flags) queues =
    flood_from driver os_tag flags
      (λ device. not (not (packet.device == device) && not (get_or disabled_devices device false)))
      driver.devices_count 0 (packet.bytes, queues)

-- The calls that a handler's result stands for.
unfoldable pub send_any : Driver → ℕ → Option Output → Queues → Queues
unfolding send
send_any driver os_tag none queues = queues
send_any driver os_tag (some output) queues = (send driver os_tag output queues).1

module _ {S : Type 0} (nf_handle : S → Packet → S × Option Output) (driver : Driver) where
  -- The loop over the received buffers.
  unfoldable pub handle_all : List Mbuf → S → Queues → S × Queues
  unfolding send_any
  handle_all [] state queues = (state, queues)
  handle_all (buf ∷ bufs) state queues =
      let (state', out) = nf_handle state buf.packet in
      handle_all bufs state' (send_any driver buf.os_tag out queues)

-- What `rte_eth_tx_burst` is given for a device.
unfoldable pub burst : Queues → ℕ → List ℕ
unfolding get_or
burst queues device =
    take (get_or queues.bufs_to_tx_count device 0) (get_or queues.bufs_to_tx device [])

-- What a round gives to `rte_eth_tx_burst`, for one device after the other, and the buffers that it
-- frees.
pub record Burst : Type 0 where
  pub bursts : List (List ℕ)
  pub freed : List ℕ

-- The loop over the devices to send on, from one on. `rte_eth_tx_burst` says how many buffers of a
-- burst it took.
unfoldable pub transmit_from : (ℕ → List ℕ → ℕ) → ℕ → ℕ → Queues → Queues × Burst
unfolding burst
transmit_from rte_eth_tx_burst zero out_device queues = (queues, record { bursts = []; freed = [] })
transmit_from rte_eth_tx_burst (suc rounds) out_device queues =
    let bufs = burst queues out_device in
    let (queues', later) =
      transmit_from rte_eth_tx_burst rounds (out_device + 1)
        (record queues { bufs_to_tx_count = set queues.bufs_to_tx_count out_device 0 }) in
    (
      queues',
      record {
        bursts = bufs ∷ later.bursts;
        freed = drop (rte_eth_tx_burst out_device bufs) bufs ++ later.freed;
      },
    )

-- The body of the loop of `main` for one device, after `rte_eth_rx_burst`.
unfoldable pub round :
    {S : Type 0}
    → (S → Packet → S × Option Output)
    → Driver
    → (ℕ → List ℕ → ℕ)
    → List Mbuf
    → S
    → Queues
    → S × (Queues × Burst)
unfolding handle_all transmit_from
round nf_handle driver rte_eth_tx_burst bufs state queues =
    let (state', queues') = handle_all nf_handle driver bufs state queues in
    (state', transmit_from rte_eth_tx_burst driver.devices_count 0 queues')
