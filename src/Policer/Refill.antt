-- ===== src/Policer/Refill.antt =====
-- nf/policer/policer.c: what a bucket holds after its refill.
use klint.Base.{
  ℕ, ◌+◌, ◌-◌, ◌*◌, ◌/◌, ◌%◌, ◌^◌, ◌≤◌, ◌<◌, ◌≡◌, ltb, min, Bool-cases, inl, inr, arith,
}
use klint.Memory.{u64_mod}
use klint.Policer.{Bucket, refilled}

-- A refill never exceeds the burst.
pub refilled-le :
    (rate burst : ℕ) (bucket : Bucket) (time : ℕ) → refilled rate burst bucket time ≤ burst
unfolding refilled
refilled-le rate burst bucket time = ground arith

below_full : (d r k : ℕ) → d < k → d * r ≤ k * r
below_full d r k lt = grind arith

above_full : (d r k : ℕ) → k ≤ d → k * r ≤ d * r
above_full d r k le = grind arith

pub mul-div : (k r : ℕ) → 0 < r → k * r / r ≡ k
mul-div k r pos = grind arith

-- A bucket whose burst is a multiple of the rate and below 2 ^ 63, which holds no more than the
-- burst and was last used no later than now, refills to what it held plus the rate times the time
-- that has passed, but no more than the burst.
pub refilled-min :
    (rate k : ℕ) (bucket : Bucket) (time : ℕ)
    → 0 < rate
    → k * rate < 2 ^ 63
    → bucket.size ≤ k * rate
    → bucket.time ≤ time
    → time < u64_mod
    → refilled rate (k * rate) bucket time
      ≡ min (k * rate) (bucket.size + (time - bucket.time) * rate)
unfolding refilled
refilled-min rate k bucket time pos small fits ordered real =
    let time_diff : (time + u64_mod - bucket.time) % u64_mod ≡ time - bucket.time = omega arith in
    rw (time_diff, mul-div k rate pos)
      (elim (Bool-cases (ltb (time - bucket.time) k)) [
        | inl young ↦
            let below = below_full (time - bucket.time) rate k (ground arith) in
            rw young (ground arith)
        | inr old ↦
            let above = above_full (time - bucket.time) rate k (ground arith) in
            rw old (ground arith)
      ])
