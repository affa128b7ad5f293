-- ===== src/MemoryAlloc/Blocks.antt =====
-- `os_memory_alloc` of env/src/os/memory_alloc.c returns aligned blocks of the pool that do not overlap.
use klint.Base.{
  ℕ, ◌+◌, ◌-◌, ◌*◌, ◌%◌, ◌≤◌, ◌<◌, ◌≡◌, refl, ◌⊎◌, true, false, Option, none, some, ltb, ◌==◌,
  Bool-cases, inl, inr, arith,
}
use klint.Memory.{u64_mod}
use klint.MemoryAlloc.{
  Allocator, cache_line_size, align_div, align_padding, left, alloc_at, os_memory_alloc,
}

-- The pool ends within the address space, and no more than the pool is used.
pub record IsValid (a : Allocator) : Type 0 where
  pub placed : a.memory + a.os_memory_size < u64_mod
  pub used_le : a.memory_used_len ≤ a.os_memory_size

-- What a call returns: it halts, for a huge size or where the pool has no room for the padding and the
-- block; or it gives an aligned block between what was used before and what is used now.
abbrev pub Allocates : Allocator → ℕ → ℕ → Option (Allocator × ℕ) → Type 0
Allocates a count size none =
    (u64_mod - 1 - cache_line_size < size)
    ⊎ (a.os_memory_size
        < a.memory_used_len
          + align_padding (a.memory + a.memory_used_len) (align_div size)
          + size * count)
Allocates a count size (some (a', addr)) =
    IsValid a'
    × (a'.memory ≡ a.memory)
    × (a'.os_memory_size ≡ a.os_memory_size)
    × (a.memory + a.memory_used_len ≤ addr)
    × (addr + size * count ≡ a'.memory + a'.memory_used_len)
    × (addr % align_div size ≡ 0)

padded : (t d : ℕ) → 0 < d → (t + align_padding t d) % d ≡ 0
padded t d pos = elim (Bool-cases (t % d == 0)) [
  | inl even ↦ rw even (ground arith)
  | inr odd ↦ rw odd (rest t d pos)
]
  where
    rest : (t d : ℕ) → 0 < d → (t + (d - t % d)) % d ≡ 0
    rest t d pos = grind arith

-- After the alignment.
alloc_at-Allocates :
    {a : Allocator} (count size padding : ℕ)
    → IsValid a
    → size * count < u64_mod
    → padding ≡ align_padding (a.memory + a.memory_used_len) (align_div size)
    → ltb (left a) padding ≡ false
    → (a.memory + a.memory_used_len + padding) % align_div size ≡ 0
    → Allocates a count size (
        alloc_at
          (record a { memory_used_len = a.memory_used_len + padding })
          (size * count % u64_mod)
          (a.memory + a.memory_used_len + padding))
alloc_at-Allocates {a} count size padding v fits is room aligned =
    let a₁ : Allocator = record a { memory_used_len = a.memory_used_len + padding } in
    let whole : size * count % u64_mod ≡ size * count = omega arith in
    elim (Bool-cases (ltb (left a₁) (size * count))) [
      | inl short ↦ rw (whole, short, ← is) (inr (ground (arith, v.used_le, v.placed)))
      | inr enough ↦
          let pads : padding ≤ a.os_memory_size - a.memory_used_len =
            ground (arith, v.used_le, v.placed) in
          let ends : a.memory_used_len + padding + size * count ≤ a.os_memory_size =
            ground (arith, v.used_le, v.placed) in
          rw (whole, enough)
            (
              record { placed = v.placed; used_le = ends },
              refl,
              refl,
              omega arith,
              omega arith,
              aligned,
            )
    ]

beyond :
    {a : Allocator} (padding : ℕ)
    → IsValid a
    → ltb (left a) padding ≡ true
    → a.os_memory_size < a.memory_used_len + padding
beyond {a} padding v short = ground (arith, v.used_le, v.placed)

-- Where the pool lies in the address space, no more than the pool is used and the size of the block
-- fits its type, os_memory_alloc halts only for a size within a cache line of the largest or where
-- the pool has no room for the padding and the block; otherwise it returns an aligned block that
-- begins at or after the end of what was used before and ends where what is used now ends, within
-- the pool.
pub os_memory_alloc-Allocates :
    {a : Allocator} (count size : ℕ)
    → IsValid a
    → size * count < u64_mod
    → Allocates a count size (os_memory_alloc a count size)
unfolding os_memory_alloc
os_memory_alloc-Allocates {a} count size v fits =
    let target_addr = a.memory + a.memory_used_len in
    let padding = align_padding target_addr (align_div size) in
    elim (Bool-cases (ltb (u64_mod - 1 - cache_line_size) size)) [
      | inl big ↦ rw (big, os_memory_alloc) (inl (ground arith))
      | inr small ↦ elim (Bool-cases (ltb (left a) padding)) [
        | inl short ↦
            rw (small, os_memory_alloc, short, os_memory_alloc)
              (inr (let out = beyond {a = a} padding v short in omega arith))
        | inr room ↦
            rw (small, os_memory_alloc, room, os_memory_alloc)
              (alloc_at-Allocates count size padding v fits refl room
                (padded target_addr (align_div size) (omega arith)))
      ]
    ]

padding-lt : (t d : ℕ) → 0 < d → align_padding t d < d
padding-lt t d pos = elim (Bool-cases (t % d == 0)) [
  | inl even ↦ rw even pos
  | inr odd ↦ rw odd (ground arith)
]

-- With room for the block and its alignment os_memory_alloc returns.
pub os_memory_alloc-room :
    {a : Allocator} (count size : ℕ)
    → IsValid a
    → size ≤ u64_mod - 1 - cache_line_size
    → size * count < u64_mod
    → a.memory_used_len + align_div size + size * count ≤ a.os_memory_size
    → (a' : Allocator) × (addr : ℕ) × (os_memory_alloc a count size ≡ some (a', addr))
      × IsValid a'
      × (a'.memory ≡ a.memory)
      × (a'.os_memory_size ≡ a.os_memory_size)
      × (a'.memory_used_len ≤ a.memory_used_len + align_div size + size * count)
unfolding os_memory_alloc
os_memory_alloc-room {a} count size v low fits room =
    let target_addr = a.memory + a.memory_used_len in
    let padding = align_padding target_addr (align_div size) in
    let short : padding < align_div size = padding-lt target_addr (align_div size) (omega arith) in
    let used = a.memory_used_len + padding in
    let whole : size * count % u64_mod ≡ size * count = omega arith in
    let whole_pad : ltb (left a) padding ≡ false = ground (arith, v.used_le, v.placed) in
    let enough : ltb (left (record a { memory_used_len = used })) (size * count) ≡ false =
      ground (arith, v.used_le, v.placed) in
    let usual : ltb (u64_mod - 1 - cache_line_size) size ≡ false = ground arith in
    (
      record a { memory_used_len = used + size * count },
      target_addr + padding,
      rw (usual, os_memory_alloc, whole_pad, os_memory_alloc, whole, enough) refl,
      record { placed = v.placed; used_le = omega arith },
      refl,
      refl,
      omega arith,
    )
