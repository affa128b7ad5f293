-- ===== src/Cht/Permute.antt =====
-- env/src/structs/cht.c: for a prime height each backend's order of the buckets is a permutation.
use native.Mathlib.Nat.{
  dvd-mul_right, dvd-mul_right_of_dvd, dvd-sub, dvd-add_iff_right, dvd_of_mod-eq-zero, div-add-mod,
  add-mul, mul-add, mul_right_comm, mul-le-mul, mod-lt, mod-eq_of_lt, le_of_dvd,
}
use Prim.Native.Nat.{◌∣◌}
use klint.Base.{
  ℕ, zero, suc, ◌+◌, ◌-◌, ◌*◌, ◌/◌, ◌%◌, ◌≤◌, ◌<◌, ◌≡◌, ◌≢◌, ◌==◌, ltb, Bool-cases, inl, inr, sym,
  ap, ◌∙◌, arith,
}
use klint.Memory.{u64_mod}
use klint.Cht.{loop, max_cht_height, permut}

-- The height has no divisor but one and itself.
abbrev pub IsPrime : ℕ → Type 0
IsPrime p = (1 < p) × ((d : ℕ) → d ∣ p → 1 < d → d ≡ p)

-- A prime that divides a product, whose first factor is below it, divides the second.
euclid : (p n a b : ℕ) → IsPrime p → a ≤ n → 0 < a → a < p → p ∣ a * b → p ∣ b
euclid p zero a b prime le pos lt h = absurd (omega arith)
euclid p (suc n) a b prime le pos lt h = elim (Bool-cases (p % a == 0)) [
  | inl divides ↦
      let one : a ≡ 1 = elim (Bool-cases (ltb 1 a)) [
        | inl more ↦
            absurd (omega (arith, prime.1 a (dvd_of_mod-eq-zero a (ground arith)) (ground arith)))
        | inr less ↦ ground arith
      ] in
      let same : a * b ≡ b = rw one (omega arith) in rw same at h
  | inr rest ↦
      let r = p % a in
      let q = p / a in
      let parts : p * b ≡ a * b * q + r * b =
        ap (λ (x : ℕ). x * b) (sym (div-add-mod p a))
        ∙ add-mul (a * q) r b
        ∙ ap (λ (x : ℕ). x + r * b) (mul_right_comm a q b) in
      let sum : p ∣ a * b * q + r * b = rw parts at (dvd-mul_right p b) in
      euclid p n r b prime (omega (arith, mod-lt p pos)) (ground arith)
        (omega (arith, mod-lt p pos)) ((dvd-add_iff_right p (dvd-mul_right_of_dvd p h q)).1 sum)
]

-- Two numbers with the same remainder differ by a multiple.
dvd-difference : (p x z : ℕ) → x % p ≡ (x + z) % p → p ∣ z
dvd-difference p x z same =
    let both : p * ((x + z) / p) - p * (x / p) ≡ z =
      omega (arith, div-add-mod x p, div-add-mod (x + z) p, same) in
    rw both at (dvd-sub p (dvd-mul_right p ((x + z) / p)) (dvd-mul_right p (x / p)))

module _ (cht_height : ℕ) (prime : IsPrime cht_height) (low : cht_height < max_cht_height) (i : ℕ)
    (backend_lt : i < cht_height) where
  abbrev offset : ℕ
  offset = loop (i * 31 % u64_mod) cht_height

  abbrev shift : ℕ
  shift = loop i (cht_height - 1) + 1

  shift-lt : shift < cht_height
  shift-lt =
      let below : loop i (cht_height - 1) < cht_height - 1 =
        mod-lt i {m = cht_height - 1} (omega (arith, prime.0)) in
      omega arith

  -- Nothing wraps around below the greatest height.
  permut-plain :
      (j : ℕ) → j < cht_height → permut cht_height i j ≡ (offset + shift * j) % cht_height
  permut-plain j lt =
      let small : shift * j ≤ 40000 * 40000 =
        mul-le-mul {n₂ = 40000} {m₂ = 40000} (omega (arith, shift-lt)) (omega arith) in
      let start : offset < cht_height = mod-lt (i * 31 % u64_mod) {m = cht_height} (omega arith) in
      let product : shift * j % u64_mod ≡ shift * j = mod-eq_of_lt (omega arith) in
      let sum : (offset + shift * j) % u64_mod ≡ offset + shift * j = mod-eq_of_lt (omega arith) in
      ap (λ (x : ℕ). (offset + x) % u64_mod % cht_height) product
      ∙ ap (λ (x : ℕ). x % cht_height) sum

  -- For a prime height below MAX_CHT_HEIGHT and a backend below it, two places of the backend's
  -- order are never the same bucket, so that the order is a permutation of the buckets.
  pub permut-distinct :
      (j k : ℕ) → j < k → k < cht_height → permut cht_height i j ≢ permut cht_height i k
  permut-distinct j k less lt e =
      let d = k - j in
      let split : offset + shift * k ≡ offset + shift * j + shift * d =
        ap (λ (x : ℕ). offset + x)
          (ap (λ (x : ℕ). shift * x) {x = k} {y = j + d} (omega arith) ∙ mul-add shift j d)
        ∙ omega arith in
      let divides : cht_height ∣ shift * d =
        dvd-difference cht_height (offset + shift * j) (shift * d) (
          sym (permut-plain j (omega arith))
          ∙ e
          ∙ permut-plain k lt
          ∙ ap (λ (x : ℕ). x % cht_height) split) in
      let divides' =
        euclid cht_height shift shift d prime (omega arith) (omega arith) shift-lt divides in
      absurd (omega (arith, le_of_dvd (omega arith) divides'))
