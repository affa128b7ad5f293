-- ===== src/IndexPool/Spec.antt =====
-- The abstract pool of env/include/structs/index_pool.h: a finite map from indexes to the times of
-- their last use, and what it is for an entry to be young.
use klint.Base.{
  ℕ, ◌+◌, ◌-◌, ◌≤◌, ◌<◌, ◌≡◌, Bool, true, false, ◌||◌, Option, none, some, List, [], ◌∷◌, zero, suc,
  set, length, get_or, get_or-set, get_or-beyond, ltb, leb, ◌==◌, if◌then◌else◌, arith,
}
use klint.IndexPool.{IndexPool, time_max, stamp, put_stamp, has_expired}

-- The representation: one timestamp for each index, and a start within the array.
pub record IsValid (pool : IndexPool) : Type 0 where
  pub sized : length pool.timestamps ≡ pool.size
  pub start : pool.last_borrowed_index ≤ pool.size

-- The entry of an index: the time of its last use, if it is in use.
unfoldable pub entry : IndexPool → ℕ → Option ℕ
entry pool k = if stamp pool k == time_max then none else some (stamp pool k)

-- `pool_young` of the header.
unfoldable pub pool_young : ℕ → ℕ → ℕ → Bool
pool_young time expiration_time t = ltb time expiration_time || leb (time - expiration_time) t

pub entry_free :
    (pool : IndexPool) (k : ℕ) → (stamp pool k == time_max) ≡ true → entry pool k ≡ none
unfolding entry
entry_free pool k h = rw h

pub entry_in_use :
    (pool : IndexPool) (k : ℕ)
    → (stamp pool k == time_max) ≡ false
    → entry pool k ≡ some (stamp pool k)
unfolding entry
entry_in_use pool k h = rw h

pub entry-beyond : {pool : IndexPool} (k : ℕ) → IsValid pool → pool.size ≤ k → entry pool k ≡ none
unfolding entry
entry-beyond {pool} k v h = rw (get_or-beyond pool.timestamps k time_max (omega arith))

pub has_expired-pool_young :
    (pool : IndexPool) (time n : ℕ)
    → has_expired pool time n
      ≡ (if pool_young time pool.expiration_time (stamp pool n) then false else true)
unfolding has_expired pool_young
has_expired-pool_young pool time n = ground arith

-- A write of a timestamp changes one entry.
pub entry-put :
    (pool : IndexPool) (index time k : ℕ)
    → index < length pool.timestamps
    → entry (put_stamp pool index time) k
      ≡ (if index == k then (if time == time_max then none else some time) else entry pool k)
unfolding entry
entry-put pool index time k h = ground (arith, get_or-set pool.timestamps index k time time_max h)

abbrev pub occupied : ℕ → ℕ
occupied t = if t == time_max then 0 else 1

-- How many indexes are in use.
unfoldable pub used_count : List ℕ → ℕ
used_count [] = 0
used_count (t ∷ timestamps) = occupied t + used_count timestamps

pub used_count-set :
    (timestamps : List ℕ) (i t : ℕ)
    → i < length timestamps
    → used_count (set timestamps i t) + occupied (get_or timestamps i time_max)
      ≡ used_count timestamps + occupied t
unfolding used_count get_or
used_count-set [] i t h = absurd (omega arith)
used_count-set (x ∷ timestamps) zero t h = omega arith
used_count-set (x ∷ timestamps) (suc i) t h =
    omega (arith, used_count-set timestamps i t (omega arith))

pub used_count-le : (timestamps : List ℕ) → used_count timestamps ≤ length timestamps
unfolding used_count
used_count-le [] = omega arith
used_count-le (t ∷ timestamps) = ground (arith, used_count-le timestamps)
