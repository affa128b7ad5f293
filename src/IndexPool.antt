-- ===== src/IndexPool.antt =====
-- env/src/structs/index_pool.c: a pool of indexes, each with the time of its last use, TIME_MAX when
-- it is free. A search for an index begins where the last one ended.
pub mod Spec
pub mod Alloc
pub mod Borrow
pub mod Use
use klint.Base.{
  ℕ, zero, suc, ◌+◌, ◌-◌, Bool, true, false, ◌&&◌, Option, none, some, List, get_or, set, replicate,
  ltb, leb, ◌==◌, if◌then◌else◌,
}
use klint.Memory.{u64_mod}

abbrev pub time_max : ℕ
time_max = u64_mod - 1

pub record IndexPool : Type 0 where
  pub timestamps : List ℕ
  pub size : ℕ
  pub expiration_time : ℕ
  pub last_borrowed_index : ℕ

abbrev pub stamp : IndexPool → ℕ → ℕ
stamp pool index = get_or pool.timestamps index time_max

abbrev pub put_stamp : IndexPool → ℕ → ℕ → IndexPool
put_stamp pool index time = record pool { timestamps = set pool.timestamps index time }

-- The loop of `index_pool_alloc`, from n down.
free_from : ℕ → List ℕ → List ℕ
free_from zero timestamps = timestamps
free_from (suc n) timestamps = free_from n (set timestamps n time_max)

unfoldable pub index_pool_alloc : ℕ → ℕ → IndexPool
unfolding free_from
index_pool_alloc size expiration_time = record {
  timestamps = free_from size (replicate size 0);
  size = size;
  expiration_time = expiration_time;
  last_borrowed_index = 0;
}

-- `time >= expiration_time && time - expiration_time > timestamps[n]`
unfoldable pub has_expired : IndexPool → ℕ → ℕ → Bool
has_expired pool time n =
    leb pool.expiration_time time && ltb (stamp pool n) (time - pool.expiration_time)

abbrev pub take_index : IndexPool → ℕ → ℕ → IndexPool
take_index pool time n = record pool {
  timestamps = set pool.timestamps n time;
  last_borrowed_index = n;
}

-- What a borrow returns: the pool, with the index and whether it had expired, if there is one.
abbrev pub Borrowed : Type 0
Borrowed = IndexPool × Option (ℕ × Bool)

-- Either loop of `index_pool_borrow`, from n on for the given rounds; at the end it goes on with
-- `after`.
scan : IndexPool → ℕ → Borrowed → ℕ → ℕ → Borrowed
scan pool time after zero n = after
scan pool time after (suc rounds) n =
    let rest = scan pool time after rounds (n + 1) in
    if stamp pool n == time_max
    then (take_index pool time n, some (n, false))
    else if has_expired pool time n
    then (take_index pool time n, some (n, true))
    else rest

unfoldable pub index_pool_borrow : IndexPool → ℕ → Borrowed
unfolding scan has_expired
index_pool_borrow pool time =
    scan pool time (scan pool time (pool, none) pool.last_borrowed_index 0)
      (pool.size - pool.last_borrowed_index) pool.last_borrowed_index

unfoldable pub index_pool_refresh : IndexPool → ℕ → ℕ → IndexPool
index_pool_refresh pool time index = put_stamp pool index time

unfoldable pub index_pool_used : IndexPool → ℕ → ℕ → Bool
unfolding has_expired
index_pool_used pool time index =
    if leb pool.size index
    then false
    else if stamp pool index == time_max
    then false
    else if has_expired pool time index
    then false
    else true

unfoldable pub index_pool_return : IndexPool → ℕ → IndexPool
index_pool_return pool index = put_stamp pool index time_max
