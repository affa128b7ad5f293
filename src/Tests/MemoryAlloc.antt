-- ===== src/Tests/MemoryAlloc.antt =====
-- A pool of 1000 bytes at address 4100.
use klint.Base.{some, ◌≡◌, refl, arith}
use klint.MemoryAlloc.{Allocator, os_memory_alloc}
use klint.MemoryAlloc.Blocks.{IsValid, Allocates, os_memory_alloc-Allocates}

abbrev pool : Allocator
pool = record { memory = 4100; os_memory_size = 1000; memory_used_len = 0 }

pool-IsValid : IsValid pool
pool-IsValid = record { placed = omega arith; used_le = omega arith }

-- Ten objects of 8 bytes, aligned to 64.
first :
    os_memory_alloc pool 10 8
    ≡ some (record { memory = 4100; os_memory_size = 1000; memory_used_len = 140 }, 4160)
unfolding os_memory_alloc
first = refl

os_memory_alloc-Allocates_example : Allocates pool 10 8 (os_memory_alloc pool 10 8)
os_memory_alloc-Allocates_example = os_memory_alloc-Allocates 10 8 pool-IsValid (omega arith)
