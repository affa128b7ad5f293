-- ===== src/Cht/Contract.antt =====
-- env/src/structs/cht.c: what a search finds in a table of `cht_alloc`, a live backend. The contract in
-- env/include/structs/cht.h counts expired backends as available too.
use klint.Base.{ℕ, ◌*◌, ◌≤◌, ◌<◌, ◌≡◌, List, Option, none, some, true, false, arith}
use klint.IndexPool.{IndexPool, index_pool_used}
use klint.Cht.{max_cht_height, cht_alloc, loop, cht_find_preferred_available_backend}
use klint.Memory.{memory_hash}
use native.Mathlib.Nat.{mod-lt}
use klint.Cht.Permute.{IsPrime}
use klint.Cht.Find.{FirstLive, cht_find_preferred_available_backend-FirstLive}
use klint.Cht.Fill.{cht_alloc-table_data}
use klint.Cht.Lists.{cht_alloc-Lists}

-- The result of a search among `backend_capacity` backends: one of them that is in use and young, or
-- `false` when there is none.
abbrev pub Finds : ℕ → IndexPool → ℕ → Option ℕ → Type 0
Finds backend_capacity active_backends time none =
    (backend : ℕ)
    → backend < backend_capacity
    → index_pool_used active_backends time backend ≡ false
Finds backend_capacity active_backends time (some backend) =
    (backend < backend_capacity) × (index_pool_used active_backends time backend ≡ true)

module _ (cht_height backend_capacity : ℕ) (prime : IsPrime cht_height)
    (low : cht_height < max_cht_height) (pos : 0 < backend_capacity)
    (fits : backend_capacity ≤ cht_height) (active_backends : IndexPool) (time : ℕ) where
  first-Finds :
      (bucket : ℕ) (o : Option ℕ)
      → bucket < cht_height
      → FirstLive
          (cht_alloc cht_height backend_capacity)
          (bucket * backend_capacity)
          active_backends
          time
          0
          backend_capacity
          o
      → Finds backend_capacity active_backends time o
  first-Finds bucket none bucket_lt dead = λ backend lt.
      let (_, listed) =
        cht_alloc-Lists cht_height backend_capacity prime low fits bucket bucket_lt in
      let (k, k_lt, at) = listed backend lt in rw at at (dead k (omega arith) k_lt)
  first-Finds bucket (some backend) bucket_lt (k, _, k_lt, at, live, _) =
      let (_, _, _, below) = cht_alloc-table_data cht_height backend_capacity pos in
      (omega (arith, at, below _), live)

  -- For a prime height below MAX_CHT_HEIGHT and at least one and at most that many backends, a
  -- search in the table of cht_alloc returns the number of a backend that is in use and young by
  -- index_pool_used, or false when no backend below the capacity is, also where the pool holds
  -- expired ones.
  pub cht_find_preferred_available_backend-Finds :
      (obj : List ℕ) (obj_size : ℕ)
      → Finds backend_capacity active_backends time (
          cht_find_preferred_available_backend
            (cht_alloc cht_height backend_capacity)
            obj
            obj_size
            active_backends
            time)
  unfolding cht_alloc
  cht_find_preferred_available_backend-Finds obj obj_size =
      let cht = cht_alloc cht_height backend_capacity in
      first-Finds (loop (memory_hash obj obj_size) cht_height) _
        (mod-lt _ {m = cht_height} (omega arith))
        (cht_find_preferred_available_backend-FirstLive cht obj obj_size active_backends time)
