-- ===== src/Policer/Run.antt =====
-- nf/policer over a whole run: the bytes that reach an address from the WAN device are bounded by its
-- credit and the rate.
use klint.Base.{ℕ, ◌+◌, ◌-◌, ◌*◌, ◌≤◌, ◌≡◌, refl, List, [], ◌∷◌, ap, ◌∙◌, arith}
use klint.KeyTable.{IsTime}
use klint.Net.{Packet}
use klint.Policer.{Policer, nf_handle}
use klint.Policer.Table.{bucket_of}
use klint.Policer.Credit.{Settled, Settled-later, sum_products, credit-advance}
use klint.Policer.Limit.{Limits, credit, passed_to, nf_handle-Paid}

-- The same over packets in their order.
unfoldable pub all_passed_to : Policer → ℕ → List Packet → ℕ
all_passed_to nf address [] = 0
all_passed_to nf address (packet ∷ after) =
    passed_to nf address packet + all_passed_to (nf_handle nf packet).0 address after

unfoldable pub run : Policer → List Packet → Policer
run nf [] = nf
run nf (packet ∷ after) = run (nf_handle nf packet).0 after

-- The times do not go back.
abbrev pub Ordered : ℕ → List Packet → Type 0
Ordered t [] = Unit {0}
Ordered t (packet ∷ after) = (t ≤ packet.time) × IsTime packet.time × Ordered packet.time after

abbrev pub end_time : ℕ → List Packet → ℕ
end_time t [] = t
end_time t (packet ∷ after) = end_time packet.time after

module _ (k address : ℕ) where
  -- From any state.
  pub run-Limits :
      (nf : Policer) (t : ℕ) (packets : List Packet)
      → Limits k nf
      → Settled t nf.burst (bucket_of nf address)
      → Ordered t packets
      → Limits k (run nf packets)
        × Settled (end_time t packets) (run nf packets).burst (bucket_of (run nf packets) address)
        × ((run nf packets).rate ≡ nf.rate)
        × ((run nf packets).burst ≡ nf.burst)
        × (all_passed_to nf address packets + credit (run nf packets) address (end_time t packets)
            ≤ credit nf address t + (end_time t packets - t) * nf.rate)
        × (t ≤ end_time t packets)
  unfolding run all_passed_to
  run-Limits nf t [] l settled ordered = (l, settled, refl, refl, omega arith, omega arith)
  run-Limits nf t (packet ∷ after) l settled (le, real, ordered) =
      let settled₁ = Settled-later t packet.time nf.burst (bucket_of nf address) le settled in
      let step = nf_handle-Paid l address packet settled₁ real in
      let (l', settled', rate, burst, paid, later) =
        run-Limits (nf_handle nf packet).0 packet.time after step.limits step.settled ordered in
      let grown = credit-advance nf.rate nf.burst t packet.time (bucket_of nf address) settled le in
      let e = end_time packet.time after in
      let shares : (e - t) * nf.rate ≡ (e - packet.time) * nf.rate + (packet.time - t) * nf.rate =
        ap (λ (x : ℕ). x * nf.rate) (omega arith)
        ∙ sum_products (e - packet.time) (packet.time - t) nf.rate in
      let same : (e - packet.time) * (nf_handle nf packet).0.rate ≡ (e - packet.time) * nf.rate =
        ap (λ (r : ℕ). (e - packet.time) * r) step.same_rate in
      (
        l',
        settled',
        rate ∙ step.same_rate,
        burst ∙ step.same_burst,
        omega (arith, step.paid, paid, grown),
        omega arith,
      )
