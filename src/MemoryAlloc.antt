-- ===== src/MemoryAlloc.antt =====
-- env/src/os/memory_alloc.c: memory is handed out from one pool, aligned, and never given back.
pub mod Blocks
use klint.Base.{ℕ, ◌+◌, ◌-◌, ◌*◌, ◌%◌, Option, none, some, List, [], ◌∷◌, ltb, ◌==◌, if◌then◌else◌}
use klint.Base.Options.{◌>>=◌}
use klint.Memory.{u64_mod}

-- `memory`, which the linker places, its size, which the build gives, and `memory_used_len`.
pub record Allocator : Type 0 where
  pub memory : ℕ
  pub os_memory_size : ℕ
  pub memory_used_len : ℕ

-- `CACHE_LINE_SIZE`.
abbrev pub cache_line_size : ℕ
cache_line_size = 64

abbrev pub align_div : ℕ → ℕ
align_div size = size + cache_line_size - size % cache_line_size

abbrev pub align_padding : ℕ → ℕ → ℕ
align_padding target_addr div =
    let align_diff = target_addr % div in if align_diff == 0 then 0 else div - align_diff

-- `OS_MEMORY_SIZE - memory_used_len`.
abbrev pub left : Allocator → ℕ
left a = (a.os_memory_size + u64_mod - a.memory_used_len) % u64_mod

-- The second part of `os_memory_alloc`, after the alignment.
abbrev pub alloc_at : Allocator → ℕ → ℕ → Option (Allocator × ℕ)
alloc_at a full_size aligned_addr =
    if ltb (left a) full_size
    then none
    else some (record a { memory_used_len = a.memory_used_len + full_size }, aligned_addr)

-- The address, or nothing where the code halts.
unfoldable pub os_memory_alloc : Allocator → ℕ → ℕ → Option (Allocator × ℕ)
os_memory_alloc a count size =
    let full_size = size * count % u64_mod in
    let target_addr = a.memory + a.memory_used_len in
    let padding = align_padding target_addr (align_div size) in
    if ltb (u64_mod - 1 - cache_line_size) size
    then none
    else if ltb (left a) padding
    then none
    else alloc_at (record a { memory_used_len = a.memory_used_len + padding }) full_size
        (target_addr + padding)
