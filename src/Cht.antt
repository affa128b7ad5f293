-- ===== src/Cht.antt =====
-- env/src/structs/cht.c: a consistent hash table. Each bucket lists the backends in an order of
-- preference of its own, and an object goes to the first one in its bucket's list that is available.
pub mod Find
pub mod Fill
pub mod Permute
mod Orders
mod Buckets
mod Filled
pub mod Lists
pub mod Contract
use klint.Base.{
  ℕ, zero, suc, ◌+◌, ◌-◌, ◌*◌, ◌%◌, Option, none, some, List, get_or, set, replicate, if◌then◌else◌,
}
use klint.Memory.{u64_mod, u16_mod, memory_hash}
use klint.IndexPool.{IndexPool, index_pool_used}

pub record Cht : Type 0 where
  pub table_data : List ℕ
  pub height : ℕ
  pub backend_capacity : ℕ

-- `MAX_CHT_HEIGHT`
abbrev pub max_cht_height : ℕ
max_cht_height = 40000

abbrev pub loop : ℕ → ℕ → ℕ
loop k capacity = k % capacity

-- Where backend i has bucket number j of its order.
abbrev pub permut : ℕ → ℕ → ℕ → ℕ
permut cht_height i j =
    let offset = loop (i * 31 % u64_mod) cht_height in
    let shift = loop i (cht_height - 1) + 1 in
    loop ((offset + shift * j % u64_mod) % u64_mod) cht_height

-- The inner loop over the permutations, from j on.
unfoldable pub permute_row : ℕ → ℕ → ℕ → ℕ → List ℕ → List ℕ
permute_row cht_height i zero j permutations = permutations
permute_row cht_height i (suc rounds) j permutations =
    permute_row cht_height i rounds (j + 1)
      (set permutations (i * cht_height + j) (permut cht_height i j % u16_mod))

-- The outer loop, from i on.
unfoldable pub permute_from : ℕ → ℕ → ℕ → List ℕ → List ℕ
unfolding permute_row
permute_from cht_height zero i permutations = permutations
permute_from cht_height (suc rounds) i permutations =
    permute_from cht_height rounds (i + 1) (permute_row cht_height i cht_height 0 permutations)

-- The two arrays that the filling writes.
pub record Filling : Type 0 where
  pub table_data : List ℕ
  pub next : List ℕ

-- Backend j is the next one in the bucket that it has at i.
unfoldable pub place : ℕ → ℕ → List ℕ → ℕ → ℕ → Filling → Filling
unfolding get_or
place cht_height backend_capacity permutations i j filling =
    let bucket_id = get_or permutations (j * cht_height + i) 0 in
    let priority = get_or filling.next bucket_id 0 in
    record {
      table_data =
          set filling.table_data ((backend_capacity * bucket_id + priority) % u64_mod)
            (j % u16_mod);
      next = set filling.next bucket_id ((priority + 1) % u64_mod);
    }

-- The inner loop of the filling, from j on.
unfoldable pub fill_row : ℕ → ℕ → List ℕ → ℕ → ℕ → ℕ → Filling → Filling
unfolding place
fill_row cht_height backend_capacity permutations i zero j filling = filling
fill_row cht_height backend_capacity permutations i (suc rounds) j filling =
    fill_row cht_height backend_capacity permutations i rounds (j + 1)
      (place cht_height backend_capacity permutations i j filling)

-- The outer loop, from i on.
unfoldable pub fill_from : ℕ → ℕ → List ℕ → ℕ → ℕ → Filling → Filling
unfolding fill_row
fill_from cht_height backend_capacity permutations zero i filling = filling
fill_from cht_height backend_capacity permutations (suc rounds) i filling =
    fill_from cht_height backend_capacity permutations rounds (i + 1)
      (fill_row cht_height backend_capacity permutations i backend_capacity 0 filling)

unfoldable pub cht_alloc : ℕ → ℕ → Cht
unfolding permute_from fill_from
cht_alloc cht_height backend_capacity =
    let zeroed = replicate (cht_height * backend_capacity) 0 in
    let permutations = permute_from cht_height backend_capacity 0 zeroed in
    let filled =
      fill_from cht_height backend_capacity permutations cht_height 0
        (record { table_data = zeroed; next = replicate cht_height 0 }) in
    record {
      table_data = filled.table_data;
      height = cht_height;
      backend_capacity = backend_capacity;
    }

-- The candidates of the bucket that begins at `cht_bucket`.
abbrev pub candidate : Cht → ℕ → ℕ → ℕ
candidate cht cht_bucket i = get_or cht.table_data (cht_bucket + i) 0

-- The loop of `cht_find_preferred_available_backend`, from i on.
unfoldable pub find_from : Cht → ℕ → IndexPool → ℕ → ℕ → ℕ → Option ℕ
unfolding get_or
find_from cht cht_bucket active_backends time zero i = none
find_from cht cht_bucket active_backends time (suc rounds) i =
    let rest = find_from cht cht_bucket active_backends time rounds (i + 1) in
    let backend = candidate cht cht_bucket i in
    if index_pool_used active_backends time backend then some backend else rest

abbrev pub bucket_of : Cht → List ℕ → ℕ → ℕ
bucket_of cht obj obj_size = loop (memory_hash obj obj_size) cht.height * cht.backend_capacity

-- The backend, or nothing for `false`.
unfoldable pub cht_find_preferred_available_backend : Cht → List ℕ → ℕ → IndexPool → ℕ → Option ℕ
unfolding find_from
cht_find_preferred_available_backend cht obj obj_size active_backends time =
    find_from cht (bucket_of cht obj obj_size) active_backends time cht.backend_capacity 0
