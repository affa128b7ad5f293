-- ===== src/KeyTable.antt =====
-- The table that nf/firewall, nf/nat, nf/maglev, nf/policer, nf/bridge and nf/dhcp_ipv4 all keep: an
-- array of keys, a map from the keys to their indexes in the array, and a pool that hands out the
-- indexes. Key number i stands at address i, so the memory that the map reads is the array.
-- The invariant joins the three parts; the lemmas say what each of the table's moves does to it.
pub mod Claim
pub mod Release
pub mod View
pub mod Learn
pub mod Fresh
pub mod Store
pub mod Values
use klint.Base.{
  ℕ, zero, suc, ◌+◌, ◌≤◌, ◌<◌, ◌≡◌, refl, ◌≢◌, Bool, true, false, Option, none, some, List, length,
  get_or, bytes_eq, bytes_eq→eq, leb, ◌==◌, ==_iff, if◌then◌else◌, Bool-cases, Option-cases, inl,
  inr, sym, ◌∙◌, arith,
}
use klint.Map.{Map, zero_item, item_at, map_get}
use klint.Map.Slots.{holds, find, find-some, busy_count}
use klint.Map.Valid
use klint.Map.Get.{map_get-find}
use klint.IndexPool.{IndexPool, time_max, index_pool_refresh, index_pool_alloc}
use klint.IndexPool.Spec
use klint.IndexPool.Spec.{entry, entry-beyond, used_count}
use klint.IndexPool.Use.{index_pool_refresh-entry, index_pool_refresh-used_count}
use klint.IndexPool.Alloc.{index_pool_alloc-IsValid}

-- The index is in use.
abbrev pub InUse : IndexPool → ℕ → Type 0
InUse pool k = (t : ℕ) × (entry pool k ≡ some t)

pub record Coherent (mem : ℕ → List ℕ) (m : Map) (pool : IndexPool) : Type 0 where
  pub map_valid : Valid.IsValid mem m
  pub pool_valid : Spec.IsValid pool
  -- Every key has the size that the map compares.
  pub objects : (a : ℕ) → length (mem a) ≡ m.key_size
  -- An item of the map stands for the index that is its key's address, and that index is in use.
  pub own_address : (s a : ℕ) → (item_at m s).key_addr ≡ some a → (item_at m s).value ≡ a
  pub stored : (s a : ℕ) → (item_at m s).key_addr ≡ some a → (a < pool.size) × InUse pool a
  -- The key of an index in use is mapped to the index.
  pub indexed : (k : ℕ) → InUse pool k → find mem (mem k) m.items ≡ some k
  pub balanced : busy_count m.items ≡ used_count pool.timestamps
  pub roomy : pool.size ≤ m.capacity

-- A time that the clock can return: TIME_MAX is never one (env/include/os/clock.h).
abbrev pub IsTime : ℕ → Type 0
IsTime time = time < time_max

InUse-lt : {pool : IndexPool} (k : ℕ) → Spec.IsValid pool → InUse pool k → k < pool.size
InUse-lt {pool} k v (t, e) = elim (Bool-cases (leb pool.size k)) [
  | inl out ↦ absurd (cc (entry-beyond k v (ground arith)))
  | inr within ↦ ground arith
]

-- A write of the time of an index changes no other entry.
module _ (pool pool' : IndexPool) (k time : ℕ)
    (written : (j : ℕ) → entry pool' j ≡ (if k == j then some time else entry pool j)) where
  pub written-InUse : (j : ℕ) → InUse pool j → InUse pool' j
  written-InUse j (t, e) = elim (Bool-cases (k == j)) [
    | inl here ↦ (time, written j ∙ rw here refl)
    | inr there ↦ (t, written j ∙ rw there e)
  ]

  pub InUse-before : (j : ℕ) → k ≢ j → InUse pool' j → InUse pool j
  InUse-before j ne (t, e) =
      let there : (k == j) ≡ false = ground arith in
      let same : entry pool' j ≡ entry pool j = written j ∙ rw there refl in (t, sym same ∙ e)

module _ {mem : ℕ → List ℕ} {m : Map} {pool : IndexPool} (c : Coherent mem m pool) where
  -- What `map_get` says of a key of the right size.
  pub get-indexed :
      (key : List ℕ) {k : ℕ}
      → length key ≡ m.key_size
      → map_get mem m key ≡ some k
      → (mem k ≡ key) × (k < pool.size) × InUse pool k
  unfolding holds
  get-indexed key {k} sized found =
      let (s, lt, held, val) =
        find-some mem key m.items {v = k} (sym (map_get-find c.map_valid key sized) ∙ found) in
      elim (Option-cases (item_at m s).key_addr) [
        | inl e ↦ let unheld : false ≡ true = rw e at held in absurd (cc)
        | inr (a, e) ↦
            let same : a ≡ k = sym (c.own_address s a e) ∙ val in
            let (a_lt, used) = c.stored s a e in
            rw (← same) (bytes_eq→eq (mem a) key (rw e at held), a_lt, used)
      ]

  -- `index_pool_refresh` of an index in use leaves the table as it was.
  pub refresh-Coherent :
      (k time : ℕ) → IsTime time → InUse pool k → Coherent mem m (index_pool_refresh pool time k)
  refresh-Coherent k time real (t, used) =
      let pool' = index_pool_refresh pool time k in
      let k_lt = InUse-lt k c.pool_valid (t, used) in
      let (valid, same_size, _, written) = index_pool_refresh-entry c.pool_valid time k real k_lt in
      record {
        map_valid = c.map_valid;
        pool_valid = valid;
        objects = c.objects;
        own_address = c.own_address;
        stored = λ s a e.
            let (a_lt, a_used) = c.stored s a e in
            (omega arith, written-InUse pool pool' k time written a a_used);
        indexed = λ j j_used. elim (Bool-cases (k == j)) [
          | inl here ↦ c.indexed j (t, rw (← (==_iff k j).0 here) used)
          | inr there ↦ c.indexed j (InUse-before pool pool' k time written j (ground arith) j_used)
        ];
        balanced =
            c.balanced ∙ sym (index_pool_refresh-used_count c.pool_valid k k_lt used time real);
        roomy = omega (arith, c.roomy);
      }
