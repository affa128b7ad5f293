-- ===== src/Tests/Router.antt =====
-- A router of three devices over an association list, which finds an address that is a key.
use klint.Base.{
  ℕ, ◌≡◌, refl, true, none, some, Option, List, [], ◌∷◌, set, ◌==◌, if◌then◌else◌, Bool-cases, inl,
  inr, arith,
}
use klint.Memory.Words.{load}
use klint.Net.{Packet, net_transmit, update_ether_addrs}
use klint.Router.{Lpm, Router, nf_handle, command, route, check}
use klint.Router.History.{SetsOne, Installed, run, run-Installed, nf_handle-short}
use klint.Tests.Packets.{headers}

evaluation : Unit {0}
unfolding load nf_handle command route check run
evaluation = tt

abbrev lookup : List (ℕ × ℕ) → ℕ → Option ℕ
lookup [] k = none
lookup ((key, value) ∷ entries) k =
    let rest = lookup entries k in if key == k then some value else rest

abbrev exact : Lpm (List (ℕ × ℕ))
exact = record {
  lpm_alloc = λ key_size value_size capacity. [];
  lpm_set = λ entries key width value. ((key, value) ∷ entries, true);
  lpm_search = lookup;
}

exact-SetsOne : SetsOne exact
exact-SetsOne entries key width value k device e = elim (Bool-cases (key == k)) [
  | inl here ↦ let same : some value ≡ some device = rw here at e in inl (cc)
  | inr there ↦ inr (rw there at e)
]

abbrev start : Router (List (ℕ × ℕ))
start = record { devices_count = 3; lpm = [] }

-- 8.8.8.8 is at device 1.
abbrev add_route : Packet
add_route = record {
  bytes = 8 ∷ 8 ∷ 8 ∷ 8 ∷ 32 ∷ 0 ∷ 0 ∷ 0 ∷ 0 ∷ 0 ∷ 0 ∷ 0 ∷ 1 ∷ 0 ∷ [];
  length = 14;
  time = 1000;
  device = 2;
}

abbrev datagram : Packet
datagram = record {
  bytes = headers (10 ∷ 0 ∷ 0 ∷ 1 ∷ 8 ∷ 8 ∷ 8 ∷ 8 ∷ []) (0x12 ∷ 0x34 ∷ 0 ∷ 53 ∷ []);
  length = 58;
  time = 1001;
  device = 0;
}

forwarded :
    (nf_handle exact (run exact start (add_route ∷ [])) datagram).1
    ≡ some (net_transmit datagram 1 update_ether_addrs)
unfolding evaluation
forwarded = refl

run-Installed_example :
    (device : ℕ) × (net_transmit datagram 1 update_ether_addrs
      ≡ net_transmit datagram device update_ether_addrs)
    × Installed 3 device (add_route ∷ [])
run-Installed_example =
    run-Installed exact exact-SetsOne start (add_route ∷ []) datagram (λ k. refl) forwarded

-- The same, with a total length of 1280.
abbrev long : Packet
long = record datagram { bytes = set (set datagram.bytes 16 5) 17 0 }

nf_handle-short_example :
    nf_handle exact (run exact start (add_route ∷ [])) long
    ≡ (run exact start (add_route ∷ []), none)
unfolding evaluation
nf_handle-short_example =
    nf_handle-short exact (run exact start (add_route ∷ [])) long (λ e. omega arith) (omega arith)
      (omega arith) refl
