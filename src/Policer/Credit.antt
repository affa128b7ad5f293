-- ===== src/Policer/Credit.antt =====
-- nf/policer/policer.c: what the bucket of an address is worth, and how that grows with time.
use klint.Base.{ℕ, ◌+◌, ◌-◌, ◌*◌, ◌≤◌, ◌≡◌, false, Option, none, some, min, ap, ◌∙◌, arith}
use klint.IndexPool.Spec.{pool_young}
use klint.Policer.{Bucket}

-- What an address may still receive at a time.
abbrev pub credit_with : ℕ → ℕ → ℕ → Option Bucket → ℕ
credit_with rate burst time none = burst
credit_with rate burst time (some bucket) = min burst (bucket.size + (time - bucket.time) * rate)

-- The bucket of the address, if it has one, was last used by the time t, and is not above the burst.
abbrev pub Settled : ℕ → ℕ → Option Bucket → Type 0
Settled t burst none = Unit {0}
Settled t burst (some bucket) = (bucket.time ≤ t) × (bucket.size ≤ burst)

below_products : (k d r : ℕ) → k ≤ d → k * r ≤ d * r
below_products k d r le = grind arith

pub sum_products : (c d r : ℕ) → (c + d) * r ≡ c * r + d * r
sum_products c d r = grind arith

-- The credit grows no faster than the rate.
pub credit-advance :
    (rate burst t time : ℕ) (o : Option Bucket)
    → Settled t burst o
    → t ≤ time
    → credit_with rate burst time o ≤ credit_with rate burst t o + (time - t) * rate
credit-advance rate burst t time none h le = omega arith
credit-advance rate burst t time (some bucket) (before, _) le =
    let split : time - bucket.time ≡ (t - bucket.time) + (time - t) = omega arith in
    let shares : (time - bucket.time) * rate ≡ (t - bucket.time) * rate + (time - t) * rate =
      ap (λ (x : ℕ). x * rate) split ∙ sum_products (t - bucket.time) (time - t) rate in
    ground (arith)

-- An expired bucket would have been full.
pub expired-full :
    (rate burst k expiration_time time : ℕ) (bucket : Bucket)
    → burst ≡ k * rate
    → k ≤ expiration_time
    → pool_young time expiration_time bucket.time ≡ false
    → credit_with rate burst time (some bucket) ≡ burst
unfolding pool_young
expired-full rate burst k expiration_time time bucket exact kept old =
    let long : k ≤ time - bucket.time = ground arith in
    let full = below_products k (time - bucket.time) rate long in ground arith

pub Settled-later :
    (t time burst : ℕ) (o : Option Bucket) → t ≤ time → Settled t burst o → Settled time burst o
Settled-later t time burst none le h = tt
Settled-later t time burst (some bucket) le (before, small) = (omega arith, small)
