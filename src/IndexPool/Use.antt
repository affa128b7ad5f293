-- ===== src/IndexPool/Use.antt =====
-- `index_pool_refresh`, `index_pool_used` and `index_pool_return` of env/src/structs/index_pool.c
-- against the contracts of their header.
use klint.Base.{
  ℕ, suc, ◌<◌, ◌≡◌, refl, false, none, some, length-set, leb, ◌==◌, if◌then◌else◌, Bool-cases, inl,
  inr, arith,
}
use klint.IndexPool.{
  IndexPool, time_max, stamp, index_pool_refresh, index_pool_used, index_pool_return,
}
use klint.IndexPool.Spec.{
  IsValid, entry, pool_young, entry-beyond, entry-put, has_expired-pool_young, entry_free,
  entry_in_use, occupied, used_count, used_count-set,
}

module _ {pool : IndexPool} (v : IsValid pool) where
  -- On a valid pool index_pool_refresh of an index of the pool at a real time keeps the pool valid
  -- and sets the entry of that index, and no other, to the time.
  pub index_pool_refresh-entry :
      (time index : ℕ)
      → time < time_max
      → index < pool.size
      → let pool' = index_pool_refresh pool time index in
        IsValid pool'
        × (pool'.size ≡ pool.size)
        × (pool'.expiration_time ≡ pool.expiration_time)
        × ((k : ℕ) → entry pool' k ≡ (if index == k then some time else entry pool k))
  unfolding index_pool_refresh
  index_pool_refresh-entry time index real h = (
    record { sized = rw length-set v.sized; start = v.start },
    refl,
    refl,
    λ k. ground (arith, entry-put pool index time k (omega (arith, v.sized))),
  )

  -- On a valid pool index_pool_return of an index of the pool keeps the pool valid and removes the
  -- entry of that index, and no other.
  pub index_pool_return-entry :
      (index : ℕ)
      → index < pool.size
      → let pool' = index_pool_return pool index in
        IsValid pool'
        × (pool'.size ≡ pool.size)
        × (pool'.expiration_time ≡ pool.expiration_time)
        × ((k : ℕ) → entry pool' k ≡ (if index == k then none else entry pool k))
  unfolding index_pool_return
  index_pool_return-entry index h = (
    record { sized = rw length-set v.sized; start = v.start },
    refl,
    refl,
    λ k. ground (arith, entry-put pool index time_max k (omega (arith, v.sized))),
  )

  -- On a valid pool index_pool_used holds of an index, in the pool or past its end, exactly if the
  -- index is in use and young.
  pub index_pool_used-pool_young :
      (time index : ℕ)
      → index_pool_used pool time index
        ≡ elim (entry pool index) [ none ↦ false | some t ↦ pool_young time pool.expiration_time t ]
  unfolding index_pool_used
  index_pool_used-pool_young time index = elim (Bool-cases (leb pool.size index)) [
    | inl out ↦ rw (out, entry-beyond index v (ground arith))
    | inr within ↦ elim (Bool-cases (stamp pool index == time_max)) [
      | inl free ↦ rw (within, free, entry_free pool index free)
      | inr used ↦
          rw (within, used, entry_in_use pool index used, has_expired-pool_young) (ground arith)
    ]
  ]

  -- Refreshing an index in use keeps the number of indexes in use; returning it lowers the number.
  module _ (index : ℕ) {t : ℕ} (h : index < pool.size) (in_use : entry pool index ≡ some t) where
    occupies : occupied (stamp pool index) ≡ 1
    unfolding entry
    occupies = ground arith

    pub index_pool_refresh-used_count :
        (time : ℕ)
        → time < time_max
        → used_count (index_pool_refresh pool time index).timestamps ≡ used_count pool.timestamps
    unfolding index_pool_refresh
    index_pool_refresh-used_count time real =
        ground (arith, occupies, used_count-set pool.timestamps index time (omega (arith, v.sized)))

    pub index_pool_return-used_count :
        suc (used_count (index_pool_return pool index).timestamps) ≡ used_count pool.timestamps
    unfolding index_pool_return
    index_pool_return-used_count =
        ground
          (arith, occupies, used_count-set pool.timestamps index time_max (omega (arith, v.sized)))
