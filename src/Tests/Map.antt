-- ===== src/Tests/Map.antt =====
-- The map of env/src/structs/map.c with two items and keys of one byte.
use klint.Base.{
  ℕ, zero, suc, ◌+◌, ◌≤◌, ◌≡◌, refl, ◌⊎◌, some, List, [], ◌∷◌, replicate, sym, bytes_eq, arith, ◌^◌,
  ◌*◌,
}
use klint.Memory.{memory_eq, memory_hash}
use klint.MemoryAlloc.{Allocator, os_memory_alloc}
use klint.MemoryAlloc.Blocks as MemoryAlloc
use klint.Map.{
  Map, zero_item, get_real_capacity, grow_capacity, map_with_memory, map_alloc, map_get, map_set,
  map_remove, loop, same_key,
}
use klint.Map.Slots.{find, holds, busy_count}
use klint.Map.Valid.{IsValid}
use klint.Map.Capacity.{IsPow2, get_real_capacity_total}
use klint.Map.Alloc.{IsNew, map_with_memory-IsNew, map_alloc-IsNew}
use klint.Map.Get.{map_get-find}
use klint.Map.Set.{Inserted, map_set-Inserted}
use klint.Map.Remove.{Removed, map_remove-Removed}
use klint.Tests.{result_of}

get_real_capacity_total_example :
    (r : ℕ) × (get_real_capacity 5 ≡ some r)
    × (5 ≤ r)
    × (r ≤ 2 * 5)
    × ((r ≡ 0) ⊎ IsPow2 r)
    × (r ≤ 2 ^ 63)
get_real_capacity_total_example = get_real_capacity_total 5 (omega arith)

-- Three keys in memory, of one byte each.
abbrev memory : ℕ → List ℕ
memory zero = 10 ∷ []
memory (suc zero) = 20 ∷ []
memory (suc (suc a)) = 30 ∷ []

abbrev empty : Map
empty = record { items = replicate 2 zero_item; key_size = 1; capacity = 2 }

map_with_memory_empty : map_with_memory 1 2 ≡ some empty
unfolding map_with_memory get_real_capacity grow_capacity
map_with_memory_empty = refl

-- A pool of 64 KB at the second page.
abbrev pool : Allocator
pool = record { memory = 4096; os_memory_size = 65_536; memory_used_len = 0 }

-- The struct takes the first 24 bytes; the items begin at the next cache line, at 4160.
map_alloc_pool : map_alloc pool 1 2 ≡ some (record pool { memory_used_len = 128 }, empty)
unfolding map_alloc get_real_capacity grow_capacity os_memory_alloc
map_alloc_pool = refl

map_alloc-IsNew_example :
    (a' : Allocator) × (m : Map) × (map_alloc pool 1 2 ≡ some (a', m))
    × MemoryAlloc.IsValid a'
    × (a'.memory_used_len ≤ 0 + 64 * 2 + 152)
    × (map_with_memory 1 2 ≡ some m)
    × IsNew memory 1 2 m
map_alloc-IsNew_example =
    map_alloc-IsNew memory 1 2 {a = pool} (record { placed = omega arith; used_le = omega arith })
      (omega arith)

empty-IsValid : IsValid memory empty
empty-IsValid =
    let (m, e, new) = map_with_memory-IsNew memory 1 2 (omega arith) in
    result_of {P = IsValid memory} (m, e, new.valid) map_with_memory_empty

map_set-Inserted_example : Inserted memory 0 7 empty (map_set memory empty 0 7)
unfolding find holds busy_count
map_set-Inserted_example = map_set-Inserted memory 0 7 empty empty-IsValid refl refl (omega arith)

abbrev filled : Map
filled = map_set memory empty 0 7

filled-IsValid : IsValid memory filled
filled-IsValid = map_set-Inserted_example.valid

filled_key_size : filled.key_size ≡ 1
filled_key_size = map_set-Inserted_example.same_key_size

map_get-find_example : map_get memory filled (10 ∷ []) ≡ find memory (10 ∷ []) filled.items
map_get-find_example = map_get-find filled-IsValid (10 ∷ []) (sym filled_key_size)

-- The key that was set is got.
map_get-filled : map_get memory filled (10 ∷ []) ≡ some 7
unfolding map_get map_set loop memory_hash memory_eq same_key
map_get-filled = refl

map_remove-Removed_example : Removed memory (memory 0) filled (map_remove memory filled 0)
unfolding bytes_eq
map_remove-Removed_example =
    map_remove-Removed memory 0 filled {value = 7} filled-IsValid (sym filled_key_size)
      (map_set-Inserted_example.finds (10 ∷ []))
