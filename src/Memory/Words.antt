-- ===== src/Memory/Words.antt =====
-- Integers in memory, in little-endian order: what a read or a write through a pointer to a packed
-- struct's field does to the bytes under it.
use native.Mathlib.Nat.{pow-suc, one-le-pow, mul_comm}
use klint.Base.{
  ℕ, zero, suc, ◌+◌, ◌*◌, ◌/◌, ◌%◌, ◌^◌, ◌≤◌, ◌<◌, ◌≡◌, refl, ◌⊎◌, List, [], ◌∷◌, length,
  length-set, get_or, get_or-set, get_or-set_ne, set, ◌∙◌, ap, arith,
}

-- The n bytes of an integer.
unfoldable pub bytes_of : ℕ → ℕ → List ℕ
bytes_of zero value = []
bytes_of (suc n) value = value % 256 ∷ bytes_of n (value / 256)

-- The integer of the n bytes at an offset.
unfoldable pub load : List ℕ → ℕ → ℕ → ℕ
unfolding get_or
load bytes offset zero = 0
load bytes offset (suc n) = get_or bytes offset 0 + 256 * load bytes (offset + 1) n

-- A write of n bytes at an offset.
unfoldable pub store : List ℕ → ℕ → ℕ → ℕ → List ℕ
store bytes offset zero value = bytes
store bytes offset (suc n) value =
    store (set bytes offset (value % 256)) (offset + 1) n (value / 256)

pub length-bytes_of : (n value : ℕ) → length (bytes_of n value) ≡ n
unfolding bytes_of
length-bytes_of zero value = refl
length-bytes_of (suc n) value = ap suc (length-bytes_of n (value / 256))

pub length-store :
    (bytes : List ℕ) (offset n value : ℕ) → length (store bytes offset n value) ≡ length bytes
unfolding store
length-store bytes offset zero value = refl
length-store bytes offset (suc n) value =
    length-store (set bytes offset (value % 256)) (offset + 1) n (value / 256)
    ∙ length-set bytes offset (value % 256)

-- A write leaves the bytes outside it.
pub get_or-store :
    (bytes : List ℕ) (offset n value i : ℕ)
    → (i < offset) ⊎ (offset + n ≤ i)
    → get_or (store bytes offset n value) i 0 ≡ get_or bytes i 0
unfolding store
get_or-store bytes offset zero value i h = refl
get_or-store bytes offset (suc n) value i h =
    get_or-store (set bytes offset (value % 256)) (offset + 1) n (value / 256) i (omega arith)
    ∙ get_or-set_ne bytes offset i (value % 256) 0 (omega arith)

-- A read of bytes that a write does not touch.
pub load-store_other :
    (bytes : List ℕ) (offset n value o m : ℕ)
    → (o + m ≤ offset) ⊎ (offset + n ≤ o)
    → load (store bytes offset n value) o m ≡ load bytes o m
unfolding load
load-store_other bytes offset n value o zero h = refl
load-store_other bytes offset n value o (suc m) h =
    ap₂' (get_or-store bytes offset n value o (omega arith))
      (load-store_other bytes offset n value (o + 1) m (omega arith))
  where
    ap₂' : {a b c d : ℕ} → a ≡ b → c ≡ d → a + 256 * c ≡ b + 256 * d
    ap₂' p q = omega arith

-- A read of what was written: the integer, cut to n bytes.
pub load-store :
    (bytes : List ℕ) (offset n value : ℕ)
    → offset + n ≤ length bytes
    → load (store bytes offset n value) offset n ≡ value % 256 ^ n
unfolding load store
load-store bytes offset zero value h = omega arith
load-store bytes offset (suc n) value h =
    let written = set bytes offset (value % 256) in
    let head : get_or (store written (offset + 1) n (value / 256)) offset 0 ≡ value % 256 =
      get_or-store written (offset + 1) n (value / 256) offset (omega arith)
      ∙ ground (arith, get_or-set bytes offset offset (value % 256) 0) in
    let tail : load (store written (offset + 1) n (value / 256)) (offset + 1) n
        ≡ value / 256 % 256 ^ n =
      load-store written (offset + 1) n (value / 256)
        (omega (arith, length-set bytes offset (value % 256))) in
    join head tail (
      ap (λ (p : ℕ). value % p) (pow-suc 256 n)
      ∙ rw (mul_comm (256 ^ n) 256) (mod_digit value (256 ^ n) (one-le-pow n 256 (omega arith))))
  where
    mod_digit : (a p : ℕ) → 0 < p → a % (256 * p) ≡ 256 * (a / 256 % p) + a % 256
    mod_digit a p h = grind arith

    join : {a c u v w : ℕ} → a ≡ u → c ≡ v → w ≡ 256 * v + u → a + 256 * c ≡ w
    join p q r = omega arith
