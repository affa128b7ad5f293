-- ===== src/IndexPool/Borrow.antt =====
-- `index_pool_borrow` of env/src/structs/index_pool.c against the contract of its header.
use klint.Base.{
  ℕ, zero, suc, ◌+◌, ◌-◌, ◌≤◌, ◌<◌, ◌≡◌, refl, inl, inr, Bool, true, false, Bool-cases, none, some,
  length-set, to_nat, not, ltb, ◌==◌, ==_iff, if◌then◌else◌, arith,
}
use klint.IndexPool.{
  IndexPool, time_max, stamp, take_index, has_expired, Borrowed, scan, index_pool_borrow,
}
use klint.IndexPool.Spec.{
  IsValid, occupied, entry, used_count, used_count-set, pool_young, entry-put,
  has_expired-pool_young, entry_free, entry_in_use,
}

-- The index is in use, and young.
abbrev pub IsYoung : IndexPool → ℕ → ℕ → Type 0
IsYoung pool time k =
    (t : ℕ) × (entry pool k ≡ some t) × (pool_young time pool.expiration_time t ≡ true)

-- What is known of the index that a borrow returns: it was free, or it had expired.
abbrev pub WasAvailable : IndexPool → ℕ → ℕ → Bool → Type 0
WasAvailable pool time k false = entry pool k ≡ none
WasAvailable pool time k true =
    (t : ℕ) × (entry pool k ≡ some t) × (pool_young time pool.expiration_time t ≡ false)

-- The contract. A borrow fails, and changes nothing, only when every index is in use and young;
-- otherwise it returns an available index of the pool, whose entry becomes the given time, and one
-- more index is in use unless the index had expired.
abbrev pub BorrowContract : IndexPool → ℕ → Borrowed → Type 0
BorrowContract pool time (pool', none) =
    (pool' ≡ pool) × ((k : ℕ) → k < pool.size → IsYoung pool time k)
BorrowContract pool time (pool', some (index, used)) =
    IsValid pool'
    × (index < pool.size)
    × WasAvailable pool time index used
    × (pool'.size ≡ pool.size)
    × (pool'.expiration_time ≡ pool.expiration_time)
    × ((k : ℕ) → entry pool' k ≡ (if index == k then some time else entry pool k))
    × (used_count pool'.timestamps ≡ used_count pool.timestamps + to_nat (not used))

module _ {pool : IndexPool} (v : IsValid pool) (time : ℕ) (real_time : time < time_max) where
  taken_before :
      (n : ℕ) (used : Bool) → WasAvailable pool time n used → occupied (stamp pool n) ≡ to_nat used
  unfolding entry
  taken_before n true (t, e, young) = ground arith
  taken_before n false e = ground arith

  take_lem :
      (n : ℕ) (used : Bool)
      → n < pool.size
      → WasAvailable pool time n used
      → BorrowContract pool time (take_index pool time n, some (n, used))
  unfolding entry
  take_lem n used h avail =
      let counted = used_count-set pool.timestamps n time (omega (arith, v.sized)) in
      let taken : occupied (stamp pool n) ≡ to_nat used = taken_before n used avail in
      (
        record { sized = rw length-set v.sized; start = omega arith },
        h,
        avail,
        refl,
        refl,
        λ k. ground (arith, entry-put pool n time k (omega (arith, v.sized))),
        ground (arith, counted, taken),
      )

  -- The loop, from n on: below the bound it has seen young indexes only.
  scan_lem :
      (after : Borrowed) (rounds n : ℕ)
      → n + rounds ≤ pool.size
      → (((k : ℕ) → n ≤ k → k < n + rounds → IsYoung pool time k) → BorrowContract pool time after)
      → BorrowContract pool time (scan pool time after rounds n)
  unfolding scan
  scan_lem after zero n h go_on = go_on (λ k lo hi. absurd (omega arith))
  scan_lem after (suc rounds) n h go_on = elim (Bool-cases (stamp pool n == time_max)) [
    | inl free ↦ rw free (take_lem n false (omega arith) (entry_free pool n free))
    | inr in_use ↦ elim (Bool-cases (has_expired pool time n)) [
      | inl old ↦
          rw (in_use, old)
            (take_lem n true (omega arith) (
              stamp pool n,
              entry_in_use pool n in_use,
              ground (arith, has_expired-pool_young pool time n),
            ))
      | inr young ↦
          rw (in_use, young)
            (scan_lem after rounds (n + 1) (omega arith) λ all. go_on λ k lo hi.
              elim (Bool-cases (n == k)) [
                | inl here ↦
                    let same : n ≡ k = (==_iff n k).0 here in
                    rw (← same) (
                      stamp pool n,
                      entry_in_use pool n in_use,
                      ground (arith, has_expired-pool_young pool time n),
                    )
                | inr further ↦ all k (ground arith) (omega arith)
              ])
    ]
  ]

  -- On a valid pool, at a real time, index_pool_borrow meets the contract of its header: it fails,
  -- with the pool unchanged, only if every index is in use and young; else it hands out a free
  -- index, or an expired one if it says so, stamps that index and no other, and one more index is
  -- in use unless it had expired.
  pub index_pool_borrow-BorrowContract : BorrowContract pool time (index_pool_borrow pool time)
  unfolding index_pool_borrow
  index_pool_borrow-BorrowContract =
      let last = pool.last_borrowed_index in
      scan_lem _ (pool.size - last) last (omega (arith, v.start)) λ upper.
        scan_lem (pool, none) last 0 (omega (arith, v.start))
          λ lower. (
            refl,
            λ k lt. elim (Bool-cases (ltb k last)) [
              | inl low ↦ lower k (omega arith) (ground arith)
              | inr high ↦ upper k (ground arith) (ground (arith, v.start))
            ],
          )
