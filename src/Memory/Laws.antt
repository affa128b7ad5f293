-- ===== src/Memory/Laws.antt =====
-- What `os_memory_eq` and `os_memory_hash` of env/include/os/memory.h promise their callers.
use klint.Base.{
  ℕ, zero, suc, ◌+◌, ◌<◌, ◌≡◌, refl, List, [], ◌∷◌, length, get_or, bytes_eq, drop, arith,
}
use klint.Memory.{memory_eq, eq_from, memory_hash, hash_words, hash_add, load32, u32_mod}

eq_from_shift :
    (x y : ℕ) (a b : List ℕ) (n rounds : ℕ)
    → eq_from (x ∷ a) (y ∷ b) (suc n) rounds ≡ eq_from a b n rounds
unfolding eq_from get_or
eq_from_shift x y a b n zero = refl
eq_from_shift x y a b n (suc rounds) =
    let next : suc n + 1 ≡ suc (n + 1) = omega arith in
    rw (next, eq_from_shift x y a b (n + 1) rounds) refl

eq_from-bytes_eq :
    (a b : List ℕ) (size : ℕ)
    → length a ≡ size
    → length b ≡ size
    → eq_from a b 0 size ≡ bytes_eq a b
unfolding eq_from bytes_eq get_or
eq_from-bytes_eq [] [] zero p q = refl
eq_from-bytes_eq (x ∷ a) (y ∷ b) (suc n) p q =
    let next : ◌≡◌ {A = ℕ} (0 + 1) 1 = refl in
    ground (arith, eq_from_shift x y a b 0 n, eq_from-bytes_eq a b n (omega arith) (omega arith))
eq_from-bytes_eq a b size p q = absurd (omega arith)

-- For two objects of the given size, os_memory_eq decides whether their bytes are equal.
pub memory_eq-bytes_eq :
    (a b : List ℕ) (size : ℕ)
    → length a ≡ size
    → length b ≡ size
    → memory_eq a b size ≡ bytes_eq a b
unfolding memory_eq
memory_eq-bytes_eq a b size p q = eq_from-bytes_eq a b size p q

hash_words-lt :
    (hash : ℕ) (obj : List ℕ) (size : ℕ) → hash < u32_mod → hash_words hash obj size < u32_mod
unfolding hash_words
hash_words-lt hash obj (suc (suc (suc (suc left)))) h =
    hash_words-lt (hash_add hash (load32 obj)) (drop 4 obj) left (omega arith)
hash_words-lt hash obj left h = ground arith

pub memory_hash-lt : (obj : List ℕ) (size : ℕ) → memory_hash obj size < u32_mod
unfolding memory_hash
memory_hash-lt obj size = hash_words-lt 0 obj size (omega arith)
