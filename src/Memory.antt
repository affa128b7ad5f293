-- ===== src/Memory.antt =====
-- env/include/os/memory.h: comparison and hashing of memory. An object is the list of its bytes;
-- `unsigned` has 4 bytes and `unsigned short` 2, in little-endian order, as on the supported CPUs.
pub mod Laws
pub mod Words
use klint.Base.{
  ℕ, zero, suc, ◌+◌, ◌*◌, ◌/◌, ◌%◌, ◌^◌, bit_and, Bool, true, false, List, get_or, drop, ◌==◌,
  if◌then◌else◌,
}

-- `UINT64_MAX + 1`, for `size_t`, `uint64_t` and `time_t`.
abbrev pub u64_mod : ℕ
u64_mod = 2 ^ 64

abbrev pub u32_mod : ℕ
u32_mod = 2 ^ 32

abbrev pub u16_mod : ℕ
u16_mod = 2 ^ 16

-- The loop of `os_memory_eq` from byte n on, with `rounds` bytes left.
eq_from : List ℕ → List ℕ → ℕ → ℕ → Bool
eq_from ac bc n zero = true
eq_from ac bc n (suc rounds) =
    let rest = eq_from ac bc (n + 1) rounds in
    if get_or ac n 0 == get_or bc n 0 then rest else false

unfoldable pub memory_eq : List ℕ → List ℕ → ℕ → Bool
unfolding eq_from get_or
memory_eq a b obj_size = eq_from a b 0 obj_size

-- `hash = (hash >> 5) + hash + value` on 32 bits.
unfoldable pub hash_add : ℕ → ℕ → ℕ
hash_add hash value = (hash / 2 ^ 5 + hash + value) % u32_mod

load8 : List ℕ → ℕ
unfolding get_or
load8 obj = get_or obj 0 0

load16 : List ℕ → ℕ
unfolding get_or
load16 obj = get_or obj 0 0 + get_or obj 1 0 * 2 ^ 8

load32 : List ℕ → ℕ
unfolding get_or
load32 obj =
    get_or obj 0 0 + get_or obj 1 0 * 2 ^ 8 + get_or obj 2 0 * 2 ^ 16 + get_or obj 3 0 * 2 ^ 24

-- The tail: a short when bit 1 of the size left is set, then a byte when bit 0 is.
hash_byte : ℕ → List ℕ → ℕ → ℕ
unfolding hash_add load8
hash_byte hash obj obj_size = if bit_and obj_size 1 == 0 then hash else hash_add hash (load8 obj)

hash_tail : ℕ → List ℕ → ℕ → ℕ
unfolding hash_byte hash_add load16
hash_tail hash obj obj_size =
    if bit_and obj_size 2 == 0
    then hash_byte hash obj obj_size
    else hash_byte (hash_add hash (load16 obj)) (drop 2 obj) obj_size

-- `while (obj_size >= sizeof(unsigned))`.
hash_words : ℕ → List ℕ → ℕ → ℕ
unfolding hash_tail hash_add load32
hash_words hash obj (suc (suc (suc (suc left)))) =
    hash_words (hash_add hash (load32 obj)) (drop 4 obj) left
hash_words hash obj left = hash_tail hash obj left

unfoldable pub memory_hash : List ℕ → ℕ → ℕ
unfolding hash_words
memory_hash obj obj_size = hash_words 0 obj obj_size
