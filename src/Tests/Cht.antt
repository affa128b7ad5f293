-- ===== src/Tests/Cht.antt =====
-- A consistent hash table of height 5 for two backends, of which the second is alive.
use native.Mathlib.Nat.{le_of_dvd, mod-eq-zero_of_dvd}
use Prim.Native.Nat.{◌∣◌}
use klint.Cht.Permute.{IsPrime}
use klint.Base.{ℕ, zero, suc, ◌≤◌, ◌*◌, ◌<◌, ◌≡◌, refl, none, some, [], ◌∷◌, arith}
use klint.Memory.{memory_hash}
use klint.IndexPool.{IndexPool, time_max, index_pool_used}
use klint.Cht.{
  Cht, candidate, permute_row, permute_from, place, fill_row, fill_from, cht_alloc, permut,
  find_from, cht_find_preferred_available_backend,
}
use klint.Base.Pigeonhole.{IsInjective}
use klint.Cht.Lists.{cht_alloc-Lists}
use klint.Cht.Contract.{Finds, cht_find_preferred_available_backend-Finds}

evaluation : Unit {0}
unfolding memory_hash index_pool_used permute_row permute_from place fill_row fill_from cht_alloc
    find_from cht_find_preferred_available_backend
evaluation = tt

abbrev table : Cht
table = cht_alloc 5 2

rows : table.table_data ≡ 0 ∷ 1 ∷ 1 ∷ 0 ∷ 0 ∷ 1 ∷ 1 ∷ 0 ∷ 0 ∷ 1 ∷ []
unfolding evaluation
rows = refl

-- Only backend 1 is in use.
abbrev backends : IndexPool
backends = record {
  timestamps = time_max ∷ 1000 ∷ [];
  size = 2;
  expiration_time = 100;
  last_borrowed_index = 1;
}

found : cht_find_preferred_available_backend table (1 ∷ 2 ∷ 3 ∷ 4 ∷ []) 4 backends 1050 ≡ some 1
unfolding evaluation
found = refl

-- Later it has expired, though the pool still holds it.
expired : cht_find_preferred_available_backend table (1 ∷ 2 ∷ 3 ∷ 4 ∷ []) 4 backends 1200 ≡ none
unfolding evaluation
expired = refl

-- At a height that is not prime a backend's order repeats buckets.
repeated : permut 4 1 0 ≡ permut 4 1 2
repeated = refl

-- 5 is prime.
pub five : IsPrime 5
five = (omega arith, λ d divides more. go d divides more (le_of_dvd (omega arith) divides))
  where
    go : (d : ℕ) → d ∣ 5 → 1 < d → d ≤ 5 → d ≡ 5
    go zero divides more le = absurd (omega arith)
    go (suc zero) divides more le = absurd (omega arith)
    go (suc (suc zero)) divides more le = absurd (omega (arith, mod-eq-zero_of_dvd 2 divides))
    go (suc (suc (suc zero))) divides more le = absurd (omega (arith, mod-eq-zero_of_dvd 3 divides))
    go (suc (suc (suc (suc zero)))) divides more le =
        absurd (omega (arith, mod-eq-zero_of_dvd 4 divides))
    go (suc (suc (suc (suc (suc d))))) divides more le = omega arith

cht_alloc-Lists_example :
    let backend_at = candidate table (3 * 2) in
    IsInjective 2 backend_at
    × ((backend : ℕ) → backend < 2 → (k : ℕ) × (k < 2) × (backend_at k ≡ backend))
cht_alloc-Lists_example = cht_alloc-Lists 5 2 five (omega arith) (omega arith) 3 (omega arith)

cht_find_preferred_available_backend-Finds_example :
    Finds 2 backends 1050
      (cht_find_preferred_available_backend table (1 ∷ 2 ∷ 3 ∷ 4 ∷ []) 4 backends 1050)
cht_find_preferred_available_backend-Finds_example =
    cht_find_preferred_available_backend-Finds 5 2 five (omega arith) (omega arith) (omega arith)
      backends 1050 (1 ∷ 2 ∷ 3 ∷ 4 ∷ []) 4
