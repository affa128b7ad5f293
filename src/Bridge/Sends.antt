-- ===== src/Bridge/Sends.antt =====
-- nf/bridge: a packet from one of the devices goes to other devices, never back.
use klint.Base.{
  ℕ, ◌<◌, not, Option, none, some, get_or, get_or-set_either, set, ◌==◌, if◌then◌else◌, either,
  Option-cases, Bool-cases, inl, inr, arith,
}
use klint.Map.{map_get}
use klint.IndexPool.{Borrowed}
use klint.Net.{Packet, Output}
use klint.Net.Delivery.{Sends}
use klint.SpanningTree.{StpState, must_update, is_bpdu, stp_receive, stp_handle}
use klint.Bridge.{
  Bridge, ether_memory, ether_bytes, ether_dst, ether_src, is_individual, learn_at, learn, forward,
  handle_after_stp, nf_handle,
}

-- Every device of the table exists.
abbrev pub IsWired : ℕ → Bridge → Type 0
IsWired n nf = (k : ℕ) → get_or nf.devices k 0 < n

-- The spanning tree sends by floods alone.
abbrev Floods : ℕ → Option (Option Output) → Type 0
Floods n none = Unit {0}
Floods n (some out) = Sends n out

module _ (n : ℕ) (packet : Packet) (own : packet.device < n) where
  stp_receive-Floods : (state : StpState) → Floods n (stp_receive state packet).1
  unfolding stp_receive
  stp_receive-Floods state = ground (arith)

  stp_handle-Floods : (state : StpState) → Floods n (stp_handle state packet).1
  unfolding stp_handle
  stp_handle-Floods state =
      either (λ (r : StpState × Option (Option Output)). Floods n r.1)
        (must_update state packet.time) own
        (either (λ (r : StpState × Option (Option Output)). Floods n r.1)
          (not (is_bpdu packet.bytes)) tt (stp_receive-Floods state))

  forward-Sends : (nf : Bridge) → IsWired n nf → Sends n (forward nf packet)
  unfolding forward
  forward-Sends nf wired =
      elim (Option-cases
        (map_get (ether_memory nf.addresses) nf.map (ether_bytes (ether_dst packet.bytes)))) [
          | inl absent ↦ rw (absent, forward) own
          | inr (index, got) ↦ elim (Bool-cases (get_or nf.devices index 0 == packet.device)) [
            | inl same ↦ rw (got, forward, same) tt
            | inr other ↦ rw (got, forward, other) (own, wired index, λ e. ground arith)
          ]
        ]

  put_device :
      (nf : Bridge) (index : ℕ)
      → IsWired n nf
      → (k : ℕ) → get_or (set nf.devices index packet.device) k 0 < n
  put_device nf index wired k = elim (get_or-set_either nf.devices index packet.device k 0) [
    | inl new ↦ rw new own
    | inr old ↦ rw old (wired k)
  ]

  learn_at-IsWired :
      (nf : Bridge) (address : ℕ) (b : Borrowed)
      → IsWired n nf
      → IsWired n (learn_at nf address packet.device b)
  unfolding learn_at
  learn_at-IsWired nf address (allocator, none) wired = wired
  learn_at-IsWired nf address (allocator, some (index, was_used)) wired = put_device nf index wired

  learn-IsWired :
      (nf : Bridge) (address : ℕ)
      → IsWired n nf
      → IsWired n (learn nf address packet.time packet.device)
  unfolding learn
  learn-IsWired nf address wired =
      elim (Option-cases (map_get (ether_memory nf.addresses) nf.map (ether_bytes address))) [
        | inl absent ↦ rw (absent, learn) (learn_at-IsWired nf address _ wired)
        | inr (index, got) ↦ rw (got, learn) (put_device nf index wired)
      ]

  after_stp-Sends :
      (nf : Bridge) (taken : StpState × Option (Option Output))
      → IsWired n nf
      → Floods n taken.1
      → let (nf', out) = handle_after_stp nf packet taken in IsWired n nf' × Sends n out
  unfolding handle_after_stp
  after_stp-Sends nf (stp_state, some out) wired floods = (wired, floods)
  after_stp-Sends nf (stp_state, none) wired floods =
      let nf₁ : Bridge = record nf { stp_state = stp_state } in
      let nf₂ =
        if is_individual packet.bytes
        then learn nf₁ (ether_src packet.bytes) packet.time packet.device
        else nf₁ in
      let wired₂ : IsWired n nf₂ =
        either (IsWired n) (is_individual packet.bytes)
          (learn-IsWired nf₁ (ether_src packet.bytes) wired) wired in
      (wired₂, forward-Sends nf₂ wired₂)

  pub nf_handle-Sends :
      (nf : Bridge)
      → IsWired n nf
      → let (nf', out) = nf_handle nf packet in IsWired n nf' × Sends n out
  unfolding nf_handle
  nf_handle-Sends nf wired =
      after_stp-Sends nf (stp_handle nf.stp_state packet) wired (stp_handle-Floods nf.stp_state)
