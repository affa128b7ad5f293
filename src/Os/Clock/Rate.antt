-- ===== src/Os/Clock/Rate.antt =====
-- How close the clock is to the time that its counter counts.
use native.Mathlib.Nat.{
  mul_left_comm, mul_comm, mul_assoc, pow-suc, div-add-mod, div-div-eq-div-mul, pow-le-pow_right,
  lt_of_mul-lt-mul_left, mul-le-mul_right, mod-eq_of_lt, mod-lt,
}
use klint.Base.{
  ℕ, zero, suc, ◌+◌, ◌*◌, ◌/◌, ◌%◌, ◌^◌, ◌≤◌, ◌<◌, ◌≡◌, ◌≢◌, refl, some, false, Bool-cases, leb,
  ◌==◌, inl, inr, sym, ap, ◌∙◌, arith,
}
use klint.Memory.{u64_mod}
use klint.Os.Clock.{Frequency, os_clock_time_ns, reduce_from, os_init}

-- A frequency in lowest terms: both parts divided by 10 as often as the numerator can be.
pub record IsReduced (tsc_hz billion : ℕ) (f : Frequency) : Type 0 where
  pub times : ℕ
  pub numerator : f.cpu_freq_numerator * 10 ^ times ≡ tsc_hz
  pub denominator : f.cpu_freq_denominator ≡ billion / 10 ^ times
  pub last_digit : f.cpu_freq_numerator % 10 ≢ 0

reduce_from-IsReduced :
    (rounds : ℕ) (f : Frequency)
    → 0 < f.cpu_freq_numerator
    → f.cpu_freq_numerator < 10 ^ rounds
    → IsReduced f.cpu_freq_numerator f.cpu_freq_denominator (reduce_from rounds f)
unfolding reduce_from
reduce_from-IsReduced zero f pos lt = absurd (omega arith)
reduce_from-IsReduced (suc rounds) f pos lt = elim (Bool-cases (f.cpu_freq_numerator % 10 == 0)) [
  | inr other ↦ rw other (record {
    times = 0;
    numerator = omega arith;
    denominator = omega arith;
    last_digit = ground arith;
  })
  | inl tenth ↦
      let n = f.cpu_freq_numerator in
      let d = f.cpu_freq_denominator in
      let whole : n ≡ 10 * (n / 10) = ground arith in
      let r =
        reduce_from-IsReduced rounds
          (record { cpu_freq_numerator = n / 10; cpu_freq_denominator = d / 10 }) (omega arith)
          (omega (arith, pow-suc 10 rounds)) in
      let r_numerator =
        (reduce_from rounds (record {
          cpu_freq_numerator = n / 10;
          cpu_freq_denominator = d / 10;
        })).cpu_freq_numerator in
      rw tenth (record {
        times = suc r.times;
        numerator =
            ap (λ (x : ℕ). r_numerator * x) (omega (arith, pow-suc 10 r.times))
            ∙ mul_left_comm r_numerator 10 (10 ^ r.times)
            ∙ ap (λ (x : ℕ). 10 * x) r.numerator
            ∙ sym whole;
        denominator =
            r.denominator
            ∙ div-div-eq-div-mul d 10 (10 ^ r.times)
            ∙ ap (λ (x : ℕ). d / x) (omega (arith, pow-suc 10 r.times));
        last_digit = r.last_digit;
      })
]

whole_part : (t : ℕ) → t < 10 → 1000000000 / 10 ^ t * 10 ^ t ≡ 1000000000
whole_part zero lt = refl
whole_part (suc zero) lt = refl
whole_part (suc (suc zero)) lt = refl
whole_part (suc (suc (suc zero))) lt = refl
whole_part (suc (suc (suc (suc zero)))) lt = refl
whole_part (suc (suc (suc (suc (suc zero))))) lt = refl
whole_part (suc (suc (suc (suc (suc (suc zero)))))) lt = refl
whole_part (suc (suc (suc (suc (suc (suc (suc zero))))))) lt = refl
whole_part (suc (suc (suc (suc (suc (suc (suc (suc zero)))))))) lt = refl
whole_part (suc (suc (suc (suc (suc (suc (suc (suc (suc zero))))))))) lt = refl
whole_part (suc (suc (suc (suc (suc (suc (suc (suc (suc (suc t)))))))))) lt = absurd (omega arith)

-- A number below 10 ^ 10 ends in fewer than 10 zeros.
few_zeros : (x t hz : ℕ) → 0 < x → x * 10 ^ t ≡ hz → hz < 10 ^ 10 → t < 10
few_zeros x t hz pos e small = elim (Bool-cases (leb 10 t)) [
  | inr less ↦ ground arith
  | inl many ↦
      let power : 10 ^ 10 ≤ 10 ^ t = pow-le-pow_right (omega arith) {i = 10} (ground arith) in
      let product : 1 * 10 ^ t ≤ x * 10 ^ t = mul-le-mul_right (10 ^ t) pos in absurd (omega arith)
]

-- With a counter below 10 GHz the parts of the frequency are in the ratio of the counter's frequency to
-- a billion.
os_init-ratio :
    (tsc_hz : ℕ)
    → 0 < tsc_hz
    → tsc_hz < 10 ^ 10
    → (f : Frequency) × (os_init tsc_hz ≡ some f)
      × (0 < f.cpu_freq_numerator)
      × (f.cpu_freq_denominator * tsc_hz ≡ f.cpu_freq_numerator * 10 ^ 9)
unfolding os_init
os_init-ratio tsc_hz pos small =
    let nonzero : (tsc_hz == 0) ≡ false = ground arith in
    let start : Frequency = record {
      cpu_freq_numerator = tsc_hz;
      cpu_freq_denominator = 1000000000;
    } in
    let f = reduce_from 20 start in
    let r = reduce_from-IsReduced 20 start pos (omega arith) in
    let positive : 0 < f.cpu_freq_numerator = ground (arith, r.last_digit) in
    let few = few_zeros f.cpu_freq_numerator r.times tsc_hz positive r.numerator small in
    let p = 10 ^ r.times in
    let exact : f.cpu_freq_denominator * p ≡ 1000000000 =
      ap (λ (x : ℕ). x * p) r.denominator ∙ whole_part r.times few in
    let ratio : f.cpu_freq_denominator * tsc_hz ≡ f.cpu_freq_numerator * 1000000000 =
      ap (λ (x : ℕ). f.cpu_freq_denominator * x) (sym r.numerator)
      ∙ mul_left_comm f.cpu_freq_denominator f.cpu_freq_numerator p
      ∙ ap (λ (x : ℕ). f.cpu_freq_numerator * x) exact in
    (f, rw nonzero refl, positive, ratio)

-- Over DPDK, with a counter below 10 GHz, at a value of the counter whose time fits in 64 bits:
-- os_init succeeds, and os_clock_time_ns returns a time that is not ahead of the counter's, and
-- behind it by less than the denominator, which is the clock's resolution in nanoseconds.
pub os_clock_time_ns-os_init :
    (tsc_hz tsc : ℕ)
    → 0 < tsc_hz
    → tsc_hz < 10 ^ 10
    → tsc * 10 ^ 9 < tsc_hz * u64_mod
    → (f : Frequency) × (time : ℕ) × (os_init tsc_hz ≡ some f)
      × (os_clock_time_ns f tsc ≡ some time)
      × (tsc_hz * time ≤ tsc * 10 ^ 9)
      × (tsc * 10 ^ 9 < tsc_hz * (time + f.cpu_freq_denominator))
unfolding os_clock_time_ns
os_clock_time_ns-os_init tsc_hz tsc pos small fits =
    let (f, set_up, positive, ratio) = os_init-ratio tsc_hz pos small in
    let n = f.cpu_freq_numerator in
    let d = f.cpu_freq_denominator in
    let q = tsc / n in
    let nonzero : (n == 0) ≡ false = ground arith in
    let scaled : (x : ℕ) → tsc_hz * (x * d) ≡ n * x * 1000000000 = λ x.
      mul_left_comm tsc_hz x d
      ∙ ap (λ (y : ℕ). x * y) (mul_comm tsc_hz d ∙ ratio)
      ∙ mul_left_comm x n 1000000000
      ∙ sym (mul_assoc n x 1000000000) in
    let least : n * q ≤ tsc = omega (arith, div-add-mod tsc n) in
    let most : tsc < n * q + n = omega (arith, div-add-mod tsc n, mod-lt tsc {m = n} positive) in
    let low : tsc_hz * (q * d) ≤ tsc * 1000000000 = omega (arith, scaled q) in
    let next : tsc_hz * (q * d + d) ≡ n * (q + 1) * 1000000000 =
      ap (λ (y : ℕ). tsc_hz * y) {y = (q + 1) * d} (omega arith) ∙ scaled (q + 1) in
    let above : tsc < n * (q + 1) = omega arith in
    let high : tsc * 1000000000 < tsc_hz * (q * d + d) = omega (arith, next, above) in
    let room : q * d < u64_mod = lt_of_mul-lt-mul_left tsc_hz (omega arith) in
    let same : q * d % u64_mod ≡ q * d = mod-eq_of_lt room in
    (f, q * d, set_up, rw (nonzero, same) refl, low, high)
