-- ===== src/Base/Bits.antt =====
-- `x & (2 ^ k - 1)` is the remainder by `2 ^ k`, at every width: the law behind the masks of
-- env/src/structs/map.c.
use Prim.Native.Nat.{
  ℕ, zero, suc, ◌+◌, ◌-◌, ◌*◌, ◌/◌, ◌%◌, ◌^◌, ◌≤◌, ◌<◌, min, max, bit_and, bit_or, digits,
  bit_and-bitwise, bit_or-bitwise,
}
use native.Mathlib.Nat.{pow-suc, one-le-pow, zero-div, div-div-eq-div-mul, mul_left_comm}
use mathlib.Core.Path.{◌≡◌, refl, sym, ap, ◌∙◌}
use native.Mathlib.Omega.{arith}

mod_twice : (m x : ℕ) → 0 < m → x % (m * 2) ≡ x / 2 % m * 2 + x % 2
mod_twice m x pos = grind arith

-- The digits of `x & (2 ^ k - 1)`, with room for all of x.
masked : (room k x : ℕ) → x ≤ room → digits (λ _. zero) min room x (2 ^ k - 1) ≡ x % 2 ^ k
masked zero k zero fits = omega (arith, one-le-pow k 2)
masked (suc room) k zero fits = omega (arith, one-le-pow k 2)
masked zero k (suc x) fits = absurd (omega arith)
masked (suc room) zero (suc x) fits = omega (arith, masked room 0 (suc x / 2) (omega arith))
masked (suc room) (suc k) (suc x) fits =
    let all_ones : (2 ^ suc k - 1) / 2 ≡ 2 ^ k - 1 = omega (arith, pow-suc 2 k, one-le-pow k 2) in
    let odd : (2 ^ suc k - 1) % 2 ≡ 1 = omega (arith, pow-suc 2 k, one-le-pow k 2) in
    rw (all_ones, odd, masked room k (suc x / 2) (omega arith), pow-suc 2 k) omega
      (arith, mod_twice (2 ^ k) (suc x) (omega (arith, one-le-pow k 2)))

-- A mask of k ones keeps the remainder by `2 ^ k`.
pub bit_and-mask : (k x : ℕ) → bit_and x (2 ^ k - 1) ≡ x % 2 ^ k
bit_and-mask k x = bit_and-bitwise x (2 ^ k - 1) ∙ masked x k x (omega arith)

-- The digits of `x & 2 ^ k`, with room for all of x.
selected : (room k x : ℕ) → x ≤ room → digits (λ _. zero) min room x (2 ^ k) ≡ x / 2 ^ k % 2 * 2 ^ k
selected zero k zero fits = rw (zero-div (2 ^ k)) (omega arith)
selected (suc room) k zero fits = rw (zero-div (2 ^ k)) (omega arith)
selected zero k (suc x) fits = absurd (omega arith)
selected (suc room) zero (suc x) fits = omega (arith, masked room 0 (suc x / 2) (omega arith))
selected (suc room) (suc k) (suc x) fits =
    let even : 2 ^ suc k / 2 ≡ 2 ^ k = omega (arith, pow-suc 2 k) in
    let last : 2 ^ suc k % 2 ≡ 0 = omega (arith, pow-suc 2 k) in
    let power : 2 ^ suc k ≡ 2 * 2 ^ k = omega (arith, pow-suc 2 k) in
    let shift : suc x / 2 / 2 ^ k ≡ suc x / 2 ^ suc k =
      div-div-eq-div-mul (suc x) 2 (2 ^ k) ∙ ap (λ (d : ℕ). suc x / d) (sym power) in
    let bit = suc x / 2 ^ suc k % 2 in
    let scaled : bit * 2 ^ suc k ≡ 2 * (bit * 2 ^ k) =
      ap (λ (y : ℕ). bit * y) power ∙ mul_left_comm bit 2 (2 ^ k) in
    rw (even, last, selected room k (suc x / 2) (omega arith), shift) (omega (arith, scaled))

-- A mask of one bit keeps that bit.
pub bit_and-power : (k x : ℕ) → bit_and x (2 ^ k) ≡ x / 2 ^ k % 2 * 2 ^ k
bit_and-power k x = bit_and-bitwise x (2 ^ k) ∙ selected x k x (omega arith)

-- The digits of `x | b` where b has its ones below those of x.
joined :
    (room k a b x : ℕ) → x ≡ a * 2 ^ k → x ≤ room → b < 2 ^ k → digits (λ d. d) max room x b ≡ x + b
joined zero k a b zero e fits lt = omega arith
joined (suc room) k a b zero e fits lt = omega arith
joined zero k a b (suc x) e fits lt = absurd (omega arith)
joined (suc room) zero a b (suc x) e fits lt =
    omega (
      arith,
      joined room 0 (suc x / 2) (b / 2) (suc x / 2) (omega arith) (omega arith) (omega arith),
    )
joined (suc room) (suc k) a b (suc x) e fits lt =
    let power : a * 2 ^ suc k ≡ 2 * (a * 2 ^ k) =
      ap (λ (y : ℕ). a * y) (omega (arith, pow-suc 2 k)) ∙ mul_left_comm a 2 (2 ^ k) in
    let rest =
      joined room k a (b / 2) (suc x / 2) (omega (arith, e, power)) (omega arith)
        (omega (arith, pow-suc 2 k)) in
    omega (arith, rest, e, power)

-- What is or-ed into the free digits is added.
pub bit_or-low : (k a b : ℕ) → b < 2 ^ k → bit_or (a * 2 ^ k) b ≡ a * 2 ^ k + b
bit_or-low k a b lt =
    bit_or-bitwise (a * 2 ^ k) b ∙ joined (a * 2 ^ k) k a b (a * 2 ^ k) refl (omega arith) lt
