-- ===== src/KeyTable/Claim.antt =====
-- Claiming an index for a new key, as every table of nf/ does it: `index_pool_borrow` gives an index;
-- if it had been in use its old key is removed from the map; the key is written at the index; and the
-- map is told of it.
use klint.Base.{
  ℕ, ◌+◌, ◌≡◌, refl, ◌≢◌, Bool, true, false, ◌&&◌, to_nat, Option, none, some, List, length,
  bytes_eq, bytes_eq_refl, bytes_eq→eq, ◌==◌, ==_iff, if◌then◌else◌, either, Bool-cases, inl, inr,
  sym, ap, ◌∙◌, arith,
}
use klint.Map.{Map, item_at, map_set, map_remove}
use klint.Map.Slots.{holds, find, find_of_holds, busy_count}
use klint.Map.Valid
use klint.Map.Set.{Inserted, map_set-Inserted}
use klint.Map.Remove.{Removed, map_remove-Removed}
use klint.Map.Memory.{Agrees, find-Agrees, IsValid-Agrees}
use klint.IndexPool.{IndexPool}
use klint.IndexPool.Spec.{used_count-le}
use klint.IndexPool.Borrow.{BorrowContract, WasAvailable}
use klint.KeyTable.{Coherent, InUse, InUse-before, written-InUse}

-- The map between the borrow and the write: without the key that stood at index k, if it was used.
abbrev pub evicted : (ℕ → List ℕ) → Map → ℕ → Bool → Map
evicted mem m k used = if used then map_remove mem m k else m

-- What the eviction leaves: a valid map that holds nothing at address k.
record Evicted (mem : ℕ → List ℕ) (k : ℕ) (used : Bool) (m m' : Map) : Type 0 where
  valid : Valid.IsValid mem m'
  same_key_size : m'.key_size ≡ m.key_size
  same_capacity : m'.capacity ≡ m.capacity
  finds :
      (q : List ℕ)
      → find mem q m'.items ≡ (if used && bytes_eq (mem k) q then none else find mem q m.items)
  count : busy_count m'.items + to_nat used ≡ busy_count m.items
  entries :
      (s a : ℕ)
      → (item_at m' s).key_addr ≡ some a
      → ((item_at m s).key_addr ≡ some a) × ((item_at m' s).value ≡ (item_at m s).value)
  vacated : (s : ℕ) → (item_at m' s).key_addr ≢ some k

-- No item is left at the address of a key that was removed.
pub gone-vacated :
    (mem : ℕ → List ℕ) (k : ℕ) (m m' : Map)
    → Removed mem (mem k) m m'
    → (s : ℕ) → (item_at m' s).key_addr ≢ some k
unfolding holds
gone-vacated mem k m m' r s e =
    let gone : find mem (mem k) m'.items ≡ none =
      r.finds (mem k) ∙ rw (bytes_eq_refl (mem k)) refl in
    let found =
      find_of_holds mem (mem k) m'.items s (rw e (bytes_eq_refl (mem k)))
        (r.valid.distinct (mem k)) in
    cc

module _ {mem : ℕ → List ℕ} {m : Map} {pool : IndexPool} (c : Coherent mem m pool)
    (k time : ℕ) where
  evicted-Evicted :
      (used : Bool) → WasAvailable pool time k used → Evicted mem k used m (evicted mem m k used)
  evicted-Evicted false free = record {
    valid = c.map_valid;
    same_key_size = refl;
    same_capacity = refl;
    finds = λ q. refl;
    count = omega arith;
    entries = λ s a e. (e, refl);
    vacated = λ s e.
        let (_, (t, used)) = c.stored s k e in
        let clash : none ≡ some t = sym free ∙ used in absurd (cc);
  }
  evicted-Evicted true (t, in_use, old) =
      let r =
        map_remove-Removed mem k m {value = k} c.map_valid (c.objects k)
          (c.indexed k (t, in_use)) in
      record {
        valid = r.valid;
        same_key_size = r.same_key_size;
        same_capacity = r.same_capacity;
        finds = r.finds;
        count = omega (arith, r.one_less);
        entries = r.entries;
        vacated = λ s e. gone-vacated mem k m _ r s e;
      }

-- A key that is replaced was mapped to its own index alone.
no_clash :
    {mem : ℕ → List ℕ} {m : Map} {pool : IndexPool} (c : Coherent mem m pool) (k time j : ℕ)
    (used : Bool)
    → WasAvailable pool time k used
    → (used && bytes_eq (mem k) (mem j)) ≡ true
    → find mem (mem j) m.items ≡ some j
    → k ≡ j
no_clash {mem} c k time j true (t, e, _) h at =
    cc (c.indexed k (t, e), bytes_eq→eq (mem k) (mem j) h)
no_clash c k time j false free h at = cc

-- A memory that differs from another at address k alone.
pub record Rewrites (mem mem' : ℕ → List ℕ) (k : ℕ) (key : List ℕ) : Type 0 where
  pub here : mem' k ≡ key
  pub there : (a : ℕ) → a ≢ k → mem' a ≡ mem a

module _ {mem : ℕ → List ℕ} {m : Map} {pool : IndexPool} (c : Coherent mem m pool) (time : ℕ)
    (key : List ℕ) (sized : length key ≡ m.key_size) (absent : find mem key m.items ≡ none)
    (pool' : IndexPool) (k : ℕ) (used : Bool)
    (contract : BorrowContract pool time (pool', some (k, used))) (mem' : ℕ → List ℕ)
    (writes : Rewrites mem mem' k key) where
  abbrev claimed : Map
  claimed = map_set mem' (evicted mem m k used) k k

  claim-Inserted : Inserted mem' k k (evicted mem m k used) claimed
  claim-Inserted =
      let (valid', k_lt, avail, same_size, _, written, counted) = contract in
      let e = evicted-Evicted c k time used avail in
      let m' = evicted mem m k used in
      let agrees : Agrees mem mem' m'.items =
        λ s a at. writes.there a (λ same. e.vacated s (at ∙ ap some same)) in
      let absent' : find mem key m'.items ≡ none =
        e.finds key
        ∙ either (λ (o : Option ℕ). o ≡ none) (used && bytes_eq (mem k) key) refl absent in
      map_set-Inserted mem' k k m' (IsValid-Agrees mem mem' m' agrees e.valid)
        (rw (writes.here, e.same_key_size) sized)
        (rw writes.here (find-Agrees mem mem' key m'.items agrees ∙ absent'))
        (ground (
          arith,
          e.count,
          counted,
          c.balanced,
          c.roomy,
          e.same_capacity,
          valid'.sized,
          used_count-le pool'.timestamps,
        ))

  -- After a claim the new key has the index, the key that it replaced has none, and every other key
  -- has what it had.
  pub claim-find :
      (q : List ℕ)
      → find mem' q claimed.items ≡ (
          if bytes_eq key q
          then some k
          else if used && bytes_eq (mem k) q
          then none
          else find mem q m.items)
  claim-find q =
      let (_, _, avail, _, _, _, _) = contract in
      let e = evicted-Evicted c k time used avail in
      let agrees : Agrees mem mem' (evicted mem m k used).items =
        λ s a at. writes.there a (λ same. e.vacated s (at ∙ ap some same)) in
      claim-Inserted.finds q
      ∙ rw (writes.here, find-Agrees mem mem' q (evicted mem m k used).items agrees, e.finds q) refl

  pub claimed-key_size : claimed.key_size ≡ m.key_size
  claimed-key_size =
      let (_, _, avail, _, _, _, _) = contract in
      claim-Inserted.same_key_size ∙ (evicted-Evicted c k time used avail).same_key_size

  claim-indexed : (j : ℕ) → InUse pool' j → find mem' (mem' j) claimed.items ≡ some j
  claim-indexed j j_used =
      let (_, _, avail, _, _, written, _) = contract in
      elim (Bool-cases (k == j)) [
        | inl here ↦
            rw (← (==_iff k j).0 here, writes.here) (claim-find key ∙ rw (bytes_eq_refl key) refl)
        | inr ne ↦
            let k_ne : k ≢ j = ground arith in
            let old = InUse-before pool pool' k time written j (ground arith) j_used in
            let at_j = c.indexed j old in
            rw (writes.there j (ground arith)) (
              claim-find (mem j) ∙ elim (Bool-cases (bytes_eq key (mem j))) [
                | inl same ↦
                    let clash : none ≡ some j =
                      sym absent ∙ rw (bytes_eq→eq key (mem j) same) at_j in
                    absurd (cc)
                | inr other ↦ elim (Bool-cases (used && bytes_eq (mem k) (mem j))) [
                  | inl clash ↦
                      absurd (omega (arith, k_ne, no_clash c k time j used avail clash at_j))
                  | inr keep ↦ rw (other, keep) at_j
                ]
              ])
      ]

  -- A claim keeps the table coherent.
  pub claim-Coherent : Coherent mem' claimed pool'
  claim-Coherent =
      let (valid', k_lt, avail, same_size, _, written, counted) = contract in
      let e = evicted-Evicted c k time used avail in
      let ins = claim-Inserted in
      record {
        map_valid = ins.valid;
        pool_valid = valid';
        objects = λ a.
            rw (ins.same_key_size, e.same_key_size)
              (elim (Bool-cases (k == a)) [
                | inl here ↦ rw (← (==_iff k a).0 here, writes.here) sized
                | inr ne ↦ rw (writes.there a (ground arith)) (c.objects a)
              ]);
        own_address = λ s a at. elim (ins.entries s a at) [
          | inl (same, val) ↦ val ∙ sym same
          | inr (at', val') ↦
              let (at'', val'') = e.entries s a at' in val' ∙ val'' ∙ c.own_address s a at''
        ];
        stored = λ s a at. elim (ins.entries s a at) [
          | inl (same, _) ↦ (omega arith, (time, written a ∙ rw ((==_iff k a).1 (sym same)) refl))
          | inr (at', _) ↦
              let (a_lt, a_used) = c.stored s a (e.entries s a at').0 in
              (omega arith, written-InUse pool pool' k time written a a_used)
        ];
        indexed = claim-indexed;
        balanced = ground (arith, ins.one_more, e.count, counted, c.balanced);
        roomy = omega (arith, c.roomy, ins.same_capacity, e.same_capacity);
      }
