-- ===== src/Tests/Bridge.antt =====
-- A bridge with two devices and room for two addresses, and the choice of a root from two messages.
use klint.Base.{ℕ, ◌≡◌, refl, ◌⊎◌, false, none, some, List, [], ◌∷◌, ◌++◌, replicate, arith}
use klint.Memory.Words.{bytes_of, load, store}
use klint.Map.{map_with_memory, get_real_capacity, grow_capacity}
use klint.IndexPool.{index_pool_alloc}
use klint.Net.{Packet}
use klint.Config.{ConfigItem, codes, os_config_get_u64, os_config_get_time, os_config_get_size}
use klint.SpanningTree.{StpState, stp_init, stp_handle, stp_receive, is_bpdu}
use klint.SpanningTree.Root.{Offer, Heard, better, choice, run, run-choice}
use klint.Bridge.{Bridge, nf_init, nf_handle}
use klint.Bridge.Table.{IsValid, device_of}
use klint.Bridge.Handle.{BridgesAfter, nf_handle-Bridges, nf_init-device_of}

-- Everything that the start of the bridge and the choice of a root compute with.
evaluation : Unit {0}
unfolding map_with_memory get_real_capacity grow_capacity index_pool_alloc bytes_of load store
    os_config_get_u64 os_config_get_time os_config_get_size nf_init stp_init stp_handle stp_receive
    is_bpdu better run
evaluation = tt

abbrev pub items : List ConfigItem
items =
    record { name = codes "bid"; value = 9 }
    ∷ record { name = codes "expiration time"; value = 100 }
    ∷ record { name = codes "capacity"; value = 2 }
    ∷ record { name = codes "stp update time"; value = 5000 }
    ∷ []

pub start_result :
    (nf : Bridge) × (nf_init items 2 ≡ some nf)
    × IsValid nf
    × (nf.stp_state ≡ stp_init 2 9 5000)
    × (nf.allocator.size ≡ 2)
    × (nf.allocator.expiration_time ≡ 100)
    × ((address : ℕ) → device_of nf address ≡ none)
unfolding evaluation
start_result =
    nf_init-device_of items 2 {bid = 9} {expiration_time = 100} {capacity = 2} {update_time = 5000}
      (omega arith) refl refl refl refl

abbrev pub start : Bridge
start = start_result.0

-- A message from a bridge that knows the root, at the cost, on the device.
abbrev message : ℕ → ℕ → ℕ → Packet
message root cost device = record {
  bytes =
      0x01
      ∷ 0x80
      ∷ 0xC2
      ∷ 0
      ∷ 0
      ∷ 0
      ∷ (replicate 8 0 ++ (bytes_of 8 root ++ (bytes_of 4 cost ++ replicate 8 0)));
  length = 34;
  time = 1000;
  device = device;
}

abbrev tree : StpState
tree = stp_init 2 9 5000

abbrev messages : List Packet
messages = message 4 20 0 ∷ message 4 10 1 ∷ message 7 0 0 ∷ []

-- Root 4 by way of device 1.
chosen : choice (run tree messages) ≡ record { root = 4; cost = 20; port = 1 }
unfolding evaluation
chosen = refl

run-choice_example :
    let final = choice (run tree messages) in
    (better (choice tree) final ≡ false)
    × ((o : Offer) → Heard o tree messages → better o final ≡ false)
    × ((final ≡ choice tree) ⊎ Heard final tree messages)
run-choice_example = run-choice tree messages

-- A frame for 02:00:00:00:00:01 from 02:00:00:00:00:02.
abbrev pub frame : Packet
frame = record {
  bytes = 2 ∷ 0 ∷ 0 ∷ 0 ∷ 0 ∷ 1 ∷ 2 ∷ 0 ∷ 0 ∷ 0 ∷ 0 ∷ 2 ∷ replicate 22 0;
  length = 34;
  time = 1000;
  device = 1;
}

nf_handle-Bridges_example :
    IsValid (nf_handle start frame).0
    × BridgesAfter start frame
        (stp_handle start.stp_state frame)
        (nf_handle start frame).0
        (nf_handle start frame).1
nf_handle-Bridges_example = nf_handle-Bridges frame start_result.2 (omega arith)
