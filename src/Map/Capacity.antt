-- ===== src/Map/Capacity.antt =====
-- `get_real_capacity` and `loop` of env/src/structs/map.c: capacities are powers of two, and the
-- masked index walks once round the items.
use native.Mathlib.Nat.{pow-suc, pow-le-pow_right, mod-eq_of_lt, mod-eq-sub-mod}
use klint.Base.{
  ℕ, zero, suc, ◌+◌, ◌-◌, ◌*◌, ◌%◌, ◌^◌, ◌≤◌, ◌<◌, bit_and, ◌≡◌, refl, ◌≢◌, ◌⊎◌, inl, inr, none,
  some, ltb, leb, Bool-cases, if◌then◌else◌, arith,
}
use klint.Base.Bits.{bit_and-mask}
use klint.Memory.{u64_mod}
use klint.Map.{grow_capacity, get_real_capacity, loop}

abbrev pub IsPow2 : ℕ → Type 0
IsPow2 n = (k : ℕ) × (n ≡ 2 ^ k)

-- The distance left to 2 ^ 63 bounds the doublings.
grow_capacity_total :
    (fuel k capacity : ℕ)
    → k + fuel ≡ 65
    → 2 ^ k < 2 * capacity
    → capacity ≤ 2 ^ 63
    → (r : ℕ) × (grow_capacity fuel (2 ^ k) capacity ≡ some r)
      × (capacity ≤ r)
      × (r < 2 * capacity)
      × IsPow2 r
      × (r ≤ 2 ^ 63)
unfolding grow_capacity
grow_capacity_total zero k capacity e h b =
    let end : k ≡ 65 = omega arith in
    let h' : 2 ^ 65 < 2 * capacity = rw end at h in absurd (omega arith)
grow_capacity_total (suc fuel) k capacity e h b = elim (Bool-cases (ltb (2 ^ k) capacity)) [
  | inl more ↦
      let doubled : 2 ^ k * 2 % u64_mod ≡ 2 ^ suc k = ground (arith, pow-suc 2 k) in
      rw (more, doubled)
        (grow_capacity_total fuel (suc k) capacity (omega arith) (ground (arith, pow-suc 2 k)) b)
  | inr done ↦
      let short : k ≢ 64 =
        λ q. let h' : 2 ^ 64 < 2 * capacity = rw q at h in absurd (omega arith) in
      (
        2 ^ k,
        rw done,
        ground arith,
        h,
        (k, refl),
        pow-le-pow_right (omega arith) {j = 63} (omega arith),
      )
]

-- For a capacity of at most 2 ^ 63 the loop of get_real_capacity ends: with zero for zero, and
-- otherwise with a power of two that is at least the capacity, at most twice it and at most 2 ^ 63.
pub get_real_capacity_total :
    (capacity : ℕ)
    → capacity ≤ 2 ^ 63
    → (r : ℕ) × (get_real_capacity capacity ≡ some r)
      × (capacity ≤ r)
      × (r ≤ 2 * capacity)
      × ((r ≡ 0) ⊎ IsPow2 r)
      × (r ≤ 2 ^ 63)
unfolding get_real_capacity
get_real_capacity_total zero b = (0, refl, omega arith, omega arith, inl refl, omega arith)
get_real_capacity_total (suc n) b =
    let (r, e, lo, hi, p, top) = grow_capacity_total 65 0 (suc n) refl (omega arith) b in
    (r, ground arith, lo, omega arith, inr p, top)

-- Past 2 ^ 63 the doubling wraps to zero before it reaches the capacity, and the loop of
-- `get_real_capacity` never ends.
pub grow_capacity_stuck : (fuel capacity : ℕ) → 0 < capacity → grow_capacity fuel 0 capacity ≡ none
unfolding grow_capacity
grow_capacity_stuck zero capacity h = refl
grow_capacity_stuck (suc fuel) capacity h = ground (arith, grow_capacity_stuck fuel capacity h)

-- a + i, going round at c.
unfoldable pub wrap : ℕ → ℕ → ℕ → ℕ
wrap c a i = if ltb (a + i) c then a + i else a + i - c

-- The steps from a to b, going round at c.
unfoldable pub dist : ℕ → ℕ → ℕ → ℕ
dist c a b = if leb a b then b - a else b + c - a

pub dist-wrap : (c a i : ℕ) → a < c → i < c → dist c a (wrap c a i) ≡ i
unfolding dist wrap
dist-wrap c a i p q = ground arith

pub wrap-dist : (c a s : ℕ) → a < c → s < c → wrap c a (dist c a s) ≡ s
unfolding dist wrap
wrap-dist c a s p q = ground arith

pub dist-lt : (c a s : ℕ) → a < c → s < c → dist c a s < c
unfolding dist
dist-lt c a s p q = ground arith

pub wrap-lt : (c a i : ℕ) → a < c → i < c → wrap c a i < c
unfolding wrap
wrap-lt c a i p q = ground arith

mod-wrap : (c a i : ℕ) → a < c → i < c → (a + i) % c ≡ wrap c a i
unfolding wrap
mod-wrap c a i p q = elim (Bool-cases (ltb (a + i) c)) [
  | inl e ↦ rw e (mod-eq_of_lt (ground arith))
  | inr e ↦ rw e (
      omega (
        arith,
        mod-eq-sub-mod {n = a + i} {m = c} (ground arith),
        mod-eq_of_lt {n = a + i - c} {m = c} (ground arith),
      ))
]

-- With a power of two for a capacity, and no overflow, the masks of `loop` are remainders: the
-- i-th index is i steps on from the hash's own.
pub loop-wrap :
    (start i c : ℕ) → IsPow2 c → c ≤ 2 ^ 63 → i < c → loop start i c ≡ wrap c (start % c) i
unfolding loop
loop-wrap start i c (k, e) small h =
    let mask : (a : ℕ) → bit_and a (c - 1) ≡ a % c = λ a. rw e (bit_and-mask k a) in
    let fits : (start % c + i) % u64_mod ≡ start % c + i = omega arith in
    rw (mask, mask, fits) (mod-wrap c (start % c) i (omega arith) h)
