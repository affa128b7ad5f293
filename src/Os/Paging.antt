-- ===== src/Os/Paging.antt =====
-- env/src/os/linux/memory.c: the physical address of a virtual one, from the page map of the process.
pub mod Frames
use klint.Base.{
  ℕ, ◌+◌, ◌-◌, ◌*◌, ◌/◌, ◌%◌, ◌^◌, bit_and, not, Option, none, some, ltb, leb, ◌==◌, if◌then◌else◌,
}
use klint.Base.Options.{◌>>=◌}
use klint.Memory.{u64_mod}

-- `(off_t)`, and back: both have 64 bits.
abbrev off_t : ℕ → ℕ
off_t x = x % u64_mod

-- What `sysconf` returns is a `long`, negative from 2 ^ 63 on. Nothing where the code aborts.
unfoldable pub os_memory_pagesize : ℕ → Option ℕ
os_memory_pagesize page_size_long =
    if leb (2 ^ 63) page_size_long
    then none
    else if ltb (u64_mod - 1) page_size_long
    then none
    else if page_size_long == 0
    then none
    else some page_size_long

-- The part of `os_memory_virt_to_phys` after the read of the page map.
unfoldable pub phys_of : ℕ → ℕ → ℕ → Option ℕ
phys_of page_size addr metadata =
    if bit_and metadata (2 ^ 63) == 0
    then none
    else (let pfn = bit_and metadata (2 ^ 55 - 1) in
        let addr_offset = addr % page_size in
        if pfn == 0 then none else some ((pfn * page_size + addr_offset) % u64_mod))

-- `pagemap` reads the 8 bytes at an offset of the process's page map, or nothing where that fails.
unfoldable pub os_memory_virt_to_phys : ℕ → (ℕ → Option ℕ) → ℕ → Option ℕ
unfolding os_memory_pagesize phys_of
os_memory_virt_to_phys page_size_long pagemap addr = do
  page_size ← os_memory_pagesize page_size_long
  let map_offset = addr / page_size * 8 % u64_mod
  if not (map_offset == off_t map_offset)
      then none
      else (do metadata ← pagemap map_offset; phys_of page_size addr metadata)
