-- ===== src/Policer/Window.antt =====
-- nf/policer: the limit on what an address receives in a stretch of time, from the start of the program.
use klint.Base.{
  ℕ, ◌+◌, ◌-◌, ◌*◌, ◌/◌, ◌≤◌, ◌<◌, ◌%◌, ◌≡◌, Option, none, some, List, sym, ap, ◌∙◌, arith,
}
use klint.Memory.{u64_mod}
use klint.Net.{Packet}
use klint.Config.{ConfigItem, codes, os_config_get_device, os_config_get_u64, os_config_get_size}
use klint.Policer.{Bucket, Policer, expiration_of, nf_init}
use klint.Policer.Refill.{mul-div}
use klint.Policer.Table.{bucket_of}
use klint.Policer.Handle.{nf_init-bucket_of}
use klint.Policer.Credit.{Settled-later, credit_with}
use klint.Policer.Limit.{Limits}
use klint.Policer.Run.{Ordered, end_time, run, run-Limits, all_passed_to}

credit_with-le : (rate burst time : ℕ) (o : Option Bucket) → credit_with rate burst time o ≤ burst
credit_with-le rate burst time none = omega arith
credit_with-le rate burst time (some bucket) = ground arith

filling_time : (k rate : ℕ) → 0 < rate → k ≤ 1000000000 * (k * rate) / rate
filling_time k rate pos =
    let regroup : 1000000000 * (k * rate) ≡ (1000000000 * k) * rate = grind arith in
    let whole : (1000000000 * k) * rate / rate ≡ 1000000000 * k =
      mul-div (1000000000 * k) rate pos in
    rw (regroup, whole) (omega arith)

-- Without overflow of the expiration time, a started policer is within the limits.
started-Limits :
    (items : List ConfigItem) {wan_device rate max_flows : ℕ} (k : ℕ)
    → os_config_get_device items (codes "wan device") 2 ≡ some wan_device
    → os_config_get_u64 items (codes "rate") ≡ some rate
    → os_config_get_u64 items (codes "burst") ≡ some (k * rate)
    → os_config_get_size items (codes "max flows") ≡ some max_flows
    → 0 < rate
    → 0 < k * rate
    → 1000000000 * (k * rate) < u64_mod
    → (nf : Policer) × (nf_init items 2 ≡ some nf)
      × Limits k nf
      × (nf.rate ≡ rate)
      × (nf.burst ≡ k * rate)
      × ((address : ℕ) → bucket_of nf address ≡ none)
started-Limits items {rate = rate} k d r b s rate_pos burst_pos small =
    let (nf, starts, valid, _, same_rate, same_burst, _, expires, empty) =
      nf_init-bucket_of items d r b s rate_pos burst_pos in
    (
      nf,
      starts,
      record {
        valid = valid;
        exact = same_burst ∙ ap (λ (x : ℕ). k * x) (sym same_rate);
        small = omega (arith, same_burst);
        remembered =
            let fits : 1000000000 * (k * rate) % u64_mod ≡ 1000000000 * (k * rate) = omega arith in
            let fills = filling_time k rate rate_pos in rw (expires, expiration_of, fits) fills;
      },
      same_rate,
      same_burst,
      empty,
    )

-- Where the burst is k times the rate and the expiration time does not overflow, nf_init succeeds,
-- and after any packets in the order of their times, in any window of packets in the order of their
-- times after them, an address receives from the WAN device no more bytes than the burst plus the
-- rate times the window's length.
pub run-limit :
    (items : List ConfigItem) {wan_device rate max_flows : ℕ} (k : ℕ)
    → os_config_get_device items (codes "wan device") 2 ≡ some wan_device
    → os_config_get_u64 items (codes "rate") ≡ some rate
    → os_config_get_u64 items (codes "burst") ≡ some (k * rate)
    → os_config_get_size items (codes "max flows") ≡ some max_flows
    → 0 < rate
    → 0 < k * rate
    → 1000000000 * (k * rate) < u64_mod
    → (nf : Policer) × (nf_init items 2 ≡ some nf)
      × ((address t : ℕ) (before window : List Packet)
          → Ordered 0 before
          → end_time 0 before ≤ t
          → Ordered t window
          → all_passed_to (run nf before) address window
            ≤ k * rate + (end_time t window - t) * rate)
run-limit items {rate = rate} k d r b s rate_pos burst_pos small =
    let (nf, starts, l, same_rate, same_burst, empty) =
      started-Limits items k d r b s rate_pos burst_pos small in
    (
      nf,
      starts,
      λ address t before window ordered le ordered'.
          let (l₁, settled, rate₁, burst₁, _, _) =
            run-Limits k address nf 0 before l (rw (empty address) tt) ordered in
          let nf₁ = run nf before in
          let o = bucket_of nf₁ address in
          let (_, _, _, _, paid, _) =
            run-Limits k address nf₁ t window l₁
              (Settled-later (end_time 0 before) t nf₁.burst o le settled) ordered' in
          let most = credit_with-le nf₁.rate nf₁.burst t o in
          let shares : (end_time t window - t) * nf₁.rate ≡ (end_time t window - t) * rate =
            ap (λ (x : ℕ). (end_time t window - t) * x) (rate₁ ∙ same_rate) in
          omega (arith, paid, most, burst₁, same_burst),
    )
