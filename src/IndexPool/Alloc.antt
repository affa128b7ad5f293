-- ===== src/IndexPool/Alloc.antt =====
-- `index_pool_alloc` of env/src/structs/index_pool.c returns a valid pool with no index in use.
use klint.Base.{
  ℕ, zero, suc, ◌≤◌, ◌≡◌, refl, none, List, [], ◌∷◌, length, length-set, length-replicate, get_or,
  get_or-set, get_or-beyond, set, replicate, ltb, ==_iff, if◌then◌else◌, arith,
}
use klint.IndexPool.{time_max, free_from, index_pool_alloc}
use klint.IndexPool.Spec.{IsValid, entry, entry_free, used_count}

length-free_from : (n : ℕ) (ts : List ℕ) → length (free_from n ts) ≡ length ts
unfolding free_from
length-free_from zero ts = refl
length-free_from (suc n) ts = rw (length-free_from n (set ts n time_max), length-set)

-- The loop frees every index below its start and leaves the others.
free_from-stamp :
    (n : ℕ) (ts : List ℕ) (k : ℕ)
    → n ≤ length ts
    → get_or (free_from n ts) k time_max ≡ (if ltb k n then time_max else get_or ts k time_max)
unfolding free_from
free_from-stamp zero ts k h = ground arith
free_from-stamp (suc n) ts k h = ground (
  arith,
  free_from-stamp n (set ts n time_max) k,
  length-set ts n time_max,
  get_or-set ts n k time_max time_max,
)

used_count-zero : (ts : List ℕ) → ((k : ℕ) → get_or ts k time_max ≡ time_max) → used_count ts ≡ 0
unfolding used_count get_or
used_count-zero [] h = refl
used_count-zero (t ∷ ts) h = ground (arith, h 0, used_count-zero ts (λ k. h (suc k)))

-- `index_pool_alloc` returns a valid pool of the given size and expiration time, in which no index
-- is in use.
pub index_pool_alloc-IsValid :
    (size expiration_time : ℕ)
    → let pool = index_pool_alloc size expiration_time in
      IsValid pool
      × (pool.size ≡ size)
      × (pool.expiration_time ≡ expiration_time)
      × ((k : ℕ) → entry pool k ≡ none)
      × (used_count pool.timestamps ≡ 0)
unfolding index_pool_alloc
index_pool_alloc-IsValid size expiration_time =
    let all : (k : ℕ) → get_or (free_from size (replicate size 0)) k time_max ≡ time_max = λ k.
      ground (
        arith,
        free_from-stamp size (replicate size 0) k,
        length-replicate {A = ℕ} size 0,
        get_or-beyond {A = ℕ} (replicate size 0) k time_max,
      ) in
    (
      record { sized = rw (length-free_from, length-replicate); start = omega arith },
      refl,
      refl,
      λ k. entry_free _ k ((==_iff _ _).1 (all k)),
      used_count-zero _ all,
    )
