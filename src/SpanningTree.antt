-- ===== src/SpanningTree.antt =====
-- nf/bridge/spanning_tree.h: the choice of a root bridge and of the port that leads to it. The two static
-- variables are fields of the state.
pub mod Root
pub mod Ports
use klint.Base.{
  ℕ, ◌+◌, ◌%◌, Bool, true, false, not, ◌&&◌, Option, none, some, List, get_or, set, replicate, ltb,
  ◌==◌, if◌then◌else◌,
}
use klint.Memory.{u64_mod, u32_mod}
use klint.Memory.Words.{load, store}
use klint.Net.{Packet, Output, net_flood, update_ether_addrs}

-- `LINK_COST`.
abbrev pub link_cost : ℕ
link_cost = 10

pub record StpState : Type 0 where
  pub last_update_time : ℕ
  pub self : ℕ
  pub root : ℕ
  pub root_cost : ℕ
  pub root_port : ℕ
  pub disabled_ports : List Bool
  pub update_time : ℕ

-- The fields of `struct bpdu_packet`, which follows the Ethernet header.
abbrev pub bpdu_root : List ℕ → ℕ
bpdu_root bytes = load bytes 14 8

abbrev pub bpdu_root_cost : List ℕ → ℕ
bpdu_root_cost bytes = load bytes 22 4

-- The state's root, cost and bridge, in place of the packet's.
abbrev pub write_bpdu : StpState → List ℕ → List ℕ
write_bpdu state bytes =
    store (store (store bytes 14 8 state.root) 22 4 state.root_cost) 26 8 state.self

unfoldable pub stp_init : ℕ → ℕ → ℕ → StpState
stp_init devices_count self_bid update_time = record {
  last_update_time = 0;
  self = self_bid;
  root = self_bid;
  root_cost = 0;
  root_port = 0;
  disabled_ports = replicate devices_count false;
  update_time = update_time;
}

-- The destination is the group address of bridges.
unfoldable pub is_bpdu : List ℕ → Bool
unfolding get_or
is_bpdu bytes =
    get_or bytes 0 0 == 0x01
    && get_or bytes 1 0 == 0x80
    && get_or bytes 2 0 == 0xC2
    && get_or bytes 3 0 == 0
    && get_or bytes 4 0 == 0
    && get_or bytes 5 0 == 0

-- It is time for an update of the state's own.
abbrev pub must_update : StpState → ℕ → Bool
must_update state time = ltb ((state.last_update_time + state.update_time) % u64_mod) time

-- The end of `stp_handle` where the state has changed.
abbrev pub announce : StpState → Packet → StpState × Option (Option Output)
announce state packet = (
  record state { disabled_ports = set state.disabled_ports state.root_port false },
  some (
      some
        (net_flood (record packet { bytes = write_bpdu state packet.bytes }) update_ether_addrs)),
)

-- What `stp_handle` does with a packet for bridges.
unfoldable pub stp_receive : StpState → Packet → StpState × Option (Option Output)
unfolding load
stp_receive state packet =
    let root = bpdu_root packet.bytes in
    let cost = (bpdu_root_cost packet.bytes + link_cost) % u32_mod in
    if ltb state.root root
    then (record state { disabled_ports = set state.disabled_ports packet.device true }, some none)
    else if ltb root state.root
    then announce (record state { root = root; root_cost = cost; root_port = packet.device }) packet
    else if root == state.root && ltb cost state.root_cost
    then announce (record state { root_cost = cost; root_port = packet.device }) packet
    else if root == state.root && cost == state.root_cost && ltb packet.device state.root_port
    then announce (record state { root_port = packet.device }) packet
    else (state, some none)

-- `none` for `false`, and the call of `net_flood`, if any, for `true`.
unfoldable pub stp_handle : StpState → Packet → StpState × Option (Option Output)
unfolding stp_receive is_bpdu
stp_handle state packet =
    if must_update state packet.time
    then (
      record state { last_update_time = packet.time },
      some (
          some (
            net_flood (record packet { bytes = write_bpdu state packet.bytes; length = 34 })
              update_ether_addrs)),
    )
    else if not (is_bpdu packet.bytes)
    then (state, none)
    else stp_receive state packet

abbrev pub stp_blocked_devices : StpState → List Bool
stp_blocked_devices state = state.disabled_ports
