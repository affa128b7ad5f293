-- ===== src/Tests/Drivers.antt =====
-- The drivers under a bridge with two devices, and under network functions of two devices.
use klint.Base.{
  ℕ, zero, suc, ◌<◌, ◌≡◌, refl, List, [], ◌∷◌, length, get_or, get_or-replicate, replicate, arith,
}
use klint.Net.Delivery.{Passes, Crosses}
use klint.Bridge
use klint.Map.{zero_item}
use klint.IndexPool.{index_pool_alloc}
use klint.SpanningTree.{stp_init}
use klint.Bridge.Sends.{IsWired, nf_handle-Sends}
use klint.Dpdk
use klint.Dpdk.{Queues, Mbuf, round, burst}
use klint.Dpdk.Rounds.{IsReady, delivered, round-delivered, round-dropped}
use klint.Tinynf
use klint.Tinynf.{tinynf_packet_handler}
use klint.Tinynf.Outputs.{Delivers, tinynf_packet_handler-Delivers}
use klint.Functions.{two_devices-Crosses}
use klint.Firewall
use klint.Nat
use klint.Policer
use klint.Tests.Bridge as BridgeTests
use klint.Tests.Firewall as FirewallTests
use klint.Tests.Nat as NatTests

abbrev bridge : Bridge.Bridge
bridge = record {
  stp_state = stp_init 2 9 5000;
  addresses = replicate 2 0;
  devices = replicate 2 0;
  map = record { items = zero_item ∷ zero_item ∷ []; key_size = 6; capacity = 2 };
  allocator = index_pool_alloc 2 100;
}

abbrev policer : Policer.Policer
policer = record {
  wan_device = 1;
  rate = 1000;
  burst = 5000;
  buckets = replicate 1 Policer.zero_bucket;
  addresses = replicate 1 0;
  map = record { items = zero_item ∷ []; key_size = 4; capacity = 1 };
  pool = index_pool_alloc 1 5_000_000_000;
}

abbrev dpdk : Dpdk.Driver
dpdk = record {
  devices_count = 2;
  device_addrs = 0x0100_0000_0002 ∷ 0x0200_0000_0002 ∷ [];
  endpoint_addrs = 0 ∷ 1 ∷ [];
}

abbrev queues : Queues
queues = record {
  bufs_to_tx_count = 0 ∷ 0 ∷ [];
  bufs_to_tx = (0 ∷ 0 ∷ 0 ∷ 0 ∷ []) ∷ (0 ∷ 0 ∷ 0 ∷ 0 ∷ []) ∷ [];
}

queues-IsReady : IsReady 2 4 queues
unfolding get_or
queues-IsReady = (
  record { counts = omega arith; rows = omega arith; sized = λ d lt. sized d lt },
  λ d lt. idle d lt,
)
  where
    sized : (d : ℕ) → d < 2 → length (get_or queues.bufs_to_tx d []) ≡ 4
    sized zero lt = refl
    sized (suc zero) lt = refl
    sized (suc (suc d)) lt = absurd (omega arith)

    idle : (d : ℕ) → d < 2 → get_or queues.bufs_to_tx_count d 0 ≡ 0
    idle zero lt = refl
    idle (suc zero) lt = refl
    idle (suc (suc d)) lt = absurd (omega arith)

-- Two frames of one batch, in buffers 7 and 8.
abbrev batch : List Mbuf
batch =
    record { os_tag = 7; packet = BridgeTests.frame }
    ∷ record { os_tag = 8; packet = BridgeTests.frame }
    ∷ []

start-IsWired : IsWired 2 bridge
start-IsWired k = rw (get_or-replicate {A = ℕ} 2 k 0) (omega arith)

round-delivered_example :
    let (nf', (queues', sent)) = round Bridge.nf_handle dpdk (λ d bufs. 1) batch bridge queues in
    IsWired 2 nf'
    × IsReady 2 4 queues'
    × ((d : ℕ) → d < 2 → get_or sent.bursts d [] ≡ delivered Bridge.nf_handle batch bridge d)
round-delivered_example =
    round-delivered Bridge.nf_handle dpdk 4 (omega arith) (IsWired 2)
      (λ nf packet wired own. nf_handle-Sends 2 packet own nf wired) (λ d bufs. 1) batch bridge
      queues start-IsWired (omega arith, (omega arith, tt)) (omega arith) queues-IsReady

-- A packet that the firewall drops is lost to the driver.
round-dropped_example :
    (round Firewall.nf_handle dpdk
      (λ d bufs. 1)
      (record { os_tag = 7; packet = FirewallTests.answer } ∷ [])
      FirewallTests.start
      queues).1.1
    ≡ record { bursts = replicate 2 []; freed = [] }
unfolding FirewallTests.evaluation
round-dropped_example =
    round-dropped Firewall.nf_handle dpdk 4 (λ d bufs. 1)
      (record { os_tag = 7; packet = FirewallTests.answer }) FirewallTests.start queues refl
      queues-IsReady

abbrev tinynf : Tinynf.Driver
tinynf = record {
  devices_count = 2;
  endpoint_macs = 0 ∷ 1 ∷ [];
  device_macs = 0x0100_0000_0002 ∷ 0x0200_0000_0002 ∷ [];
}

tinynf_packet_handler-Delivers_example :
    Delivers tinynf
      (Bridge.nf_handle bridge BridgeTests.frame).1
      (tinynf_packet_handler tinynf Bridge.nf_handle bridge BridgeTests.frame (replicate 1 0)).1
tinynf_packet_handler-Delivers_example =
    tinynf_packet_handler-Delivers tinynf Bridge.nf_handle bridge BridgeTests.frame (omega arith)
      (nf_handle-Sends 2 BridgeTests.frame (omega arith) bridge start-IsWired).1

two_devices-Crosses_example :
    Passes FirewallTests.request (Firewall.nf_handle FirewallTests.start FirewallTests.request).1
    × Crosses FirewallTests.request (Nat.nf_handle NatTests.start FirewallTests.request).1
    × Passes FirewallTests.request (Policer.nf_handle policer FirewallTests.request).1
two_devices-Crosses_example =
    two_devices-Crosses FirewallTests.start NatTests.start policer FirewallTests.request
      (omega arith)
