-- ===== src/KeyTable/Store.antt =====
-- The key tables of nf/ with their keys in an array: the lemmas that nf/nat, nf/policer, nf/bridge and
-- nf/maglev share, over the type of the keys and the bytes that a key takes.
use klint.Base.{
  ℕ, ◌^◌, ◌<◌, ◌≡◌, refl, ◌⊎◌, inl, inr, Bool, false, Option, none, some, List, length, get_or,
  get_or-set, get_or-set_ne, set, length-set, length-replicate, replicate, bytes_eq, ◌==◌,
  if◌then◌else◌, ==_iff, sym, ap, ◌∙◌, arith,
}
use klint.Map.{Map, map_with_memory, map_get, map_set}
use klint.Map.Get.{map_get-find}
use klint.IndexPool.{IndexPool, index_pool_alloc, index_pool_refresh}
use klint.IndexPool.Spec.{entry}
use klint.IndexPool.Alloc.{index_pool_alloc-IsValid}
use klint.IndexPool.Borrow.{BorrowContract}
use klint.KeyTable.{Coherent, IsTime}
use klint.KeyTable.Claim.{Rewrites, evicted}
use klint.KeyTable.View.{view, Learned, WasExpired, refresh-Learned}
use klint.KeyTable.Learn.{claim-Learned}
use klint.KeyTable.Fresh.{fresh_table}

-- The keys, the map from them to their indexes, and the pool of indexes.
pub record Store (K : Type 0) : Type 0 where
  pub keys : List K
  pub indexes : Map
  pub pool : IndexPool

module _ {K : Type 0} (encode : K → List ℕ) (zero_key : K) where
  -- What stands at `&(keys[k])`, for each k.
  abbrev pub key_memory : List K → ℕ → List ℕ
  key_memory keys k = encode (get_or keys k zero_key)

  abbrev pub last_use : Store K → K → Option ℕ
  last_use s key = view (key_memory s.keys) s.indexes s.pool (encode key)

  pub record IsStore (key_size : ℕ) (s : Store K) : Type 0 where
    pub coherent : Coherent (key_memory s.keys) s.indexes s.pool
    pub same_key_size : s.indexes.key_size ≡ key_size
    pub key_count : length s.keys ≡ s.pool.size

  -- A key used at the time has an index, and each other key stays as it was, unless it had expired.
  pub record Uses (key_size : ℕ) (s : Store K) (time index : ℕ) (key : K) (s' : Store K)
      : Type 0 where
    pub valid : IsStore key_size s'
    pub same_size : s'.pool.size ≡ s.pool.size
    pub same_expiration : s'.pool.expiration_time ≡ s.pool.expiration_time
    pub index_lt : index < s.pool.size
    pub own : encode (get_or s'.keys index zero_key) ≡ encode key
    pub found : map_get (key_memory s'.keys) s'.indexes (encode key) ≡ some index
    pub stamped : entry s'.pool index ≡ some time
    pub seen : last_use s' key ≡ some time
    pub written : (k : ℕ) → entry s'.pool k ≡ (if index == k then some time else entry s.pool k)
    -- An index stays as long as its key is in the table.
    pub stays :
        (q : K)
        → bytes_eq (encode key) (encode q) ≡ false
        → (map_get (key_memory s'.keys) s'.indexes (encode q)
            ≡ map_get (key_memory s.keys) s.indexes (encode q))
          ⊎ ((map_get (key_memory s'.keys) s'.indexes (encode q) ≡ none)
              × WasExpired time s.pool.expiration_time (last_use s q))
    pub others :
        (q : K)
        → bytes_eq (encode key) (encode q) ≡ false
        → (last_use s' q ≡ last_use s q)
          ⊎ ((last_use s' q ≡ none) × WasExpired time s.pool.expiration_time (last_use s q))

  key_memory-Rewrites :
      (keys : List K) (k : ℕ) (key : K)
      → k < length keys
      → Rewrites (key_memory keys) (key_memory (set keys k key)) k (encode key)
  key_memory-Rewrites keys k key lt = record {
    here = ap encode (get_or-set keys k k key zero_key lt ∙ rw ((==_iff k k).1 refl) refl);
    there = λ a ne. ap encode (get_or-set_ne keys k a key zero_key (λ e. ne (sym e)));
  }

  module _ (key_size : ℕ) (length-encode : (key : K) → length (encode key) ≡ key_size) where
    Learned-Uses :
        {s : Store K}
        → IsStore key_size s
        → (time index : ℕ) (key : K) (s' : Store K)
        → Learned
            (key_memory s.keys)
            s.indexes
            s.pool
            (encode key)
            time
            index
            (key_memory s'.keys)
            s'.indexes
            s'.pool
        → length s'.keys ≡ length s.keys
        → Uses key_size s time index key s'
    unfolding view
    Learned-Uses v time index key s' l same =
        let key_size' : s'.indexes.key_size ≡ key_size = l.same_key_size ∙ v.same_key_size in
        record {
          valid = record {
            coherent = l.coherent;
            same_key_size = key_size';
            key_count = same ∙ v.key_count ∙ sym l.same_size;
          };
          same_size = l.same_size;
          same_expiration = l.same_expiration;
          index_lt = omega (arith, l.index_lt, l.same_size);
          own = l.stored;
          found =
              map_get-find l.coherent.map_valid (encode key) (length-encode key ∙ sym key_size')
              ∙ l.indexed;
          stamped = l.stamped;
          seen = rw l.indexed l.stamped;
          written = l.written;
          stays = λ q ne.
              let got =
                map_get-find v.coherent.map_valid (encode q)
                  (length-encode q ∙ sym v.same_key_size) in
              let got' =
                map_get-find l.coherent.map_valid (encode q) (length-encode q ∙ sym key_size') in
              elim (l.stays (encode q) (length-encode q ∙ sym v.same_key_size) ne) [
                | inl same_index ↦ inl (got' ∙ same_index ∙ sym got)
                | inr (gone, expired) ↦ inr (got' ∙ gone, expired)
              ];
          others = λ q. l.others (encode q) (length-encode q ∙ sym v.same_key_size);
        }

    -- The refresh of the index that a lookup has found.
    pub refresh-Uses :
        {s : Store K}
        → IsStore key_size s
        → (time index : ℕ) (key : K) → IsTime time
        → map_get (key_memory s.keys) s.indexes (encode key) ≡ some index
        → Uses key_size s time index key (record s { pool = index_pool_refresh s.pool time index })
    refresh-Uses v time index key real got =
        Learned-Uses v time index key _
          (refresh-Learned v.coherent (encode key) index time
            (length-encode key ∙ sym v.same_key_size) real got)
          refl

    -- A new key at the index that a borrow has given.
    pub claim-Uses :
        {s : Store K}
        → IsStore key_size s
        → (time : ℕ) (key : K) (pool' : IndexPool) (index : ℕ) (was_used : Bool)
        → map_get (key_memory s.keys) s.indexes (encode key) ≡ none
        → BorrowContract s.pool time (pool', some (index, was_used))
        → Uses key_size s time index key (record {
          keys = set s.keys index key;
          indexes =
              map_set
                (key_memory (set s.keys index key))
                (evicted (key_memory s.keys) s.indexes index was_used)
                index
                index;
          pool = pool';
        })
    claim-Uses {s} v time key pool' index was_used got contract =
        let lt : index < length s.keys = omega (arith, contract.1, v.key_count) in
        Learned-Uses v time index key _
          (claim-Learned v.coherent time (encode key) (length-encode key ∙ sym v.same_key_size) got
            pool' index was_used contract (key_memory (set s.keys index key))
            (key_memory-Rewrites s.keys index key lt))
          (length-set s.keys index key)

    -- A new store of fewer than 2 ^ 58 keys.
    pub fresh-IsStore :
        (size expiration_time : ℕ)
        → size < 2 ^ 58
        → (m : Map) × (map_with_memory key_size size ≡ some m)
          × let s : Store K = record {
            keys = replicate size zero_key;
            indexes = m;
            pool = index_pool_alloc size expiration_time;
          } in
            IsStore key_size s
            × (s.pool.size ≡ size)
            × (s.pool.expiration_time ≡ expiration_time)
            × ((key : K) → last_use s key ≡ none)
    fresh-IsStore size expiration_time small =
        let keys = replicate size zero_key in
        let (m, e, same, coherent, empty) =
          fresh_table (key_memory keys) key_size size expiration_time small
            (λ a. length-encode (get_or keys a zero_key)) in
        let (_, same_size, exp, _, _) = index_pool_alloc-IsValid size expiration_time in
        (
          m,
          e,
          (
            record {
              coherent = coherent;
              same_key_size = same;
              key_count = length-replicate size zero_key ∙ sym same_size;
            },
            same_size,
            exp,
            λ key. empty (encode key),
          ),
        )
