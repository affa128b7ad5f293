-- ===== src/Map/Remove.antt =====
-- `map_remove` of env/src/structs/map.c takes one key out of the finite map that a scan of the
-- items reads.
use klint.Base.{
  ℕ, zero, suc, ◌+◌, ◌-◌, ◌%◌, ◌≤◌, ◌<◌, ◌≡◌, refl, ◌≢◌, inl, inr, true, false, ◌&&◌, some, none,
  Bool-cases, List, length, bytes_eq, bytes_eq→eq, either, ◌==◌, if◌then◌else◌, ◌∙◌, arith,
}
use klint.Memory.{memory_hash, u64_mod}
use klint.Map.{MapItem, Map, item_at, put_item, is_busy, same_key, remove_from, map_remove}
use klint.Map.Capacity.{dist, wrap, dist-lt, dist-wrap, wrap-dist}
use klint.Map.Slots.{
  holds, find, find-some, find-set_gone, find-set_other, copies, busy_count, busy_count-set, passes,
  count_passes, count_passes-le, passes-le-count, passes_of_lt, holds-bytes_eq,
}
use klint.Map.Valid.{
  Tracks, IsValid, covers, covers_here, covers_there, probe, same_key-holds, holds-hash,
}
use klint.Map.Write.{item_at-put, put-Tracks, SameEntries, rechain-SameEntries, rechain-Tracks}

-- The second map has what the first has, but for the key.
pub record Removed (mem : ℕ → List ℕ) (key : List ℕ) (m m' : Map) : Type 0 where
  pub valid : IsValid mem m'
  pub same_key_size : m'.key_size ≡ m.key_size
  pub same_capacity : m'.capacity ≡ m.capacity
  pub finds :
      (q : List ℕ) → find mem q m'.items ≡ (if bytes_eq key q then none else find mem q m.items)
  pub one_less : suc (busy_count m'.items) ≡ busy_count m.items
  pub entries :
      (s a : ℕ)
      → (item_at m' s).key_addr ≡ some a
      → ((item_at m s).key_addr ≡ some a) × ((item_at m' s).value ≡ (item_at m s).value)

SameEntries-Removed :
    (mem : ℕ → List ℕ) (key : List ℕ) (m m₁ m' : Map)
    → SameEntries mem m m₁
    → Removed mem key m₁ m'
    → Removed mem key m m'
SameEntries-Removed mem key m m₁ m' same rem = record {
  valid = rem.valid;
  same_key_size = rem.same_key_size ∙ same.same_key_size;
  same_capacity = rem.same_capacity ∙ same.same_capacity;
  finds = λ q. rw (← same.same_find q) (rem.finds q);
  one_less = rw (← same.same_count) rem.one_less;
  entries = λ s a e. ground (arith, rem.entries s a e, same.same_addr s, same.same_value s);
}

module _ (mem : ℕ → List ℕ) (key : List ℕ) where
  abbrev hash : Map → ℕ
  hash m = memory_hash key m.key_size

  abbrev home : Map → ℕ
  home m = hash m % m.capacity

  abbrev target : Map → ℕ → ℕ
  target m i = wrap m.capacity (home m) i

  -- The invariant of the loop after i probes, with the key at index `place`.
  record Pulled (place : ℕ) (m : Map) (i : ℕ) : Type 0 where
    sized : length key ≡ m.key_size
    tracks : Tracks mem (λ _. 0) (covers m.capacity (home m) i) m
    place_lt : place < m.capacity
    placed : holds mem key (item_at m place) ≡ true
    ahead : i ≤ dist m.capacity (home m) place

  goes_on :
      (place : ℕ) (m : Map) (i : ℕ)
      → Pulled place m i
      → i < m.capacity
      → holds mem key (item_at m (target m i)) ≡ false
      → i < dist m.capacity (home m) place
  goes_on place m i p h miss =
      let (_, _, home_lt) = probe p.tracks (hash m) i h in
      let ne : dist m.capacity (home m) place ≢ i = λ e.
        let at : target m i ≡ place =
          rw (← e) (wrap-dist m.capacity (home m) place home_lt p.place_lt) in
        let miss' : holds mem key (item_at m place) ≡ false = rw at at miss in cc (p.placed) in
      omega (arith, p.ahead)

  passed_over :
      (place : ℕ) (m : Map) (i : ℕ)
      → Pulled place m i
      → i < m.capacity
      → i < dist m.capacity (home m) place
      → 1 ≤ count_passes m.capacity (target m i) 0 m.items
  passed_over place m i p h further =
      let (_, x_lt, home_lt) = probe p.tracks (hash m) i h in
      let x = target m i in
      let (busy, same_hash) = holds-hash p.tracks key p.sized place p.placed in
      let there : dist m.capacity (home m) x ≡ i = dist-wrap m.capacity (home m) i home_lt h in
      let passed : passes m.capacity x place (item_at m place) ≡ 1 =
        passes_of_lt m.capacity x place (item_at m place) busy (rw (same_hash, there) further) in
      omega (arith, passed, passes-le-count m.capacity x 0 place place m.items (omega arith))

  abbrev dropped : Map → ℕ → Map
  dropped m x =
      put_item m x (record (item_at m x) { chain = ((item_at m x).chain + u64_mod - 1) % u64_mod })

  -- The key is not at the i-th probe: the item there counts one key less, and had counted it.
  drop-Pulled :
      (place : ℕ) (m : Map) (i : ℕ)
      → Pulled place m i
      → i < m.capacity
      → holds mem key (item_at m (target m i)) ≡ false
      → SameEntries mem m (dropped m (target m i)) × Pulled place (dropped m (target m i)) (i + 1)
  unfolding holds
  drop-Pulled place m i p h miss =
      let (_, x_lt, home_lt) = probe p.tracks (hash m) i h in
      let x = target m i in
      let chain' = ((item_at m x).chain + u64_mod - 1) % u64_mod in
      let same = rechain-SameEntries p.tracks x x_lt chain' in
      let (before, after) = covers_here m.capacity (home m) i home_lt h in
      let further : i < dist m.capacity (home m) place = goes_on place m i p h miss in
      let counts : 1 ≤ count_passes m.capacity x 0 m.items = passed_over place m i p h further in
      (
        same,
        record {
          sized = p.sized;
          tracks =
              rechain-Tracks p.tracks x x_lt chain' _ _
                (omega (
                  arith,
                  before,
                  after,
                  counts,
                  p.tracks.counted x x_lt,
                  p.tracks.sized,
                  p.tracks.small,
                  count_passes-le m.capacity x 0 m.items,
                ))
                (λ y lt ne. (refl, covers_there m.capacity (home m) i y home_lt lt ne));
          place_lt = p.place_lt;
          placed = ground (arith, same.same_addr place, p.placed);
          ahead = omega arith;
        },
      )

  abbrev cleared : Map → ℕ → Map
  cleared m x = put_item m x (record (item_at m x) { key_addr = none })

  clear_finds :
      (m : Map) (x : ℕ)
      → x < length m.items
      → holds mem key (item_at m x) ≡ true
      → copies mem key m.items ≤ 1
      → (q : List ℕ)
      → find mem q (cleared m x).items ≡ (if bytes_eq key q then none else find mem q m.items)
  unfolding holds
  clear_finds m x lt hit once q = elim (Bool-cases (bytes_eq key q)) [
    | inl mine ↦
        rw (mine, ← bytes_eq→eq key q mine) (find-set_gone mem key m.items x _ lt refl hit once)
    | inr other ↦
        rw other (
          find-set_other mem q m.items x _ refl
            (holds-bytes_eq mem key q (item_at m x) hit ∙ other))
  ]

  clear-Removed :
      (place : ℕ) (m : Map) (i : ℕ)
      → Pulled place m i
      → i < m.capacity
      → holds mem key (item_at m (target m i)) ≡ true
      → Removed mem key m (cleared m (target m i))
  unfolding holds passes covers
  clear-Removed place m i p h hit =
      let (_, x_lt, home_lt) = probe p.tracks (hash m) i h in
      let x = target m i in
      let it : MapItem = record (item_at m x) { key_addr = none } in
      let in_items : x < length m.items = omega (arith, p.tracks.sized) in
      let (busy, same_hash) = holds-hash p.tracks key p.sized x hit in
      record {
        valid =
            put-Tracks p.tracks x x_lt it _ _ (λ a e. absurd (cc))
              (λ q. omega (arith, p.tracks.distinct q))
              (λ y lt. ground (
                arith,
                busy,
                same_hash,
                p.tracks.counted y lt,
                dist-wrap m.capacity (home m) i home_lt h,
              ));
        same_key_size = refl;
        same_capacity = refl;
        finds = λ q. clear_finds m x in_items hit (p.tracks.distinct key) q;
        one_less = ground (arith, busy_count-set m.items x it in_items);
        entries = λ s a. rw (item_at-put m x s it in_items) (
            either
              (λ (j : MapItem).
                j.key_addr ≡ some a
                → ((item_at m s).key_addr ≡ some a) × (j.value ≡ (item_at m s).value))
              (x == s) (λ e. absurd (cc)) (λ e. (e, refl)));
      }

  remove_from-Removed :
      (place rounds i : ℕ) (m : Map)
      → i + rounds ≡ m.capacity
      → Pulled place m i
      → Removed mem key m (remove_from mem m key (hash m) rounds i)
  unfolding remove_from
  remove_from-Removed place zero i m e p = absurd (
      omega
        (arith, p.ahead, dist-lt m.capacity (home m) place (omega (arith, p.place_lt)) p.place_lt))
  remove_from-Removed place (suc rounds) i m e p =
      let (at, x_lt, home_lt) = probe p.tracks (hash m) i (omega arith) in
      let x = target m i in
      rw at (elim (Bool-cases (holds mem key (item_at m x))) [
        | inl hit ↦
            let (busy, same_hash) = holds-hash p.tracks key p.sized x hit in
            let test : (is_busy (item_at m x)
                  && (item_at m x).key_hash == hash m
                  && same_key mem m (item_at m x) key)
                ≡ true =
              ground (arith, same_key-holds p.tracks key p.sized x) in
            rw test (clear-Removed place m i p (omega arith) hit)
        | inr miss ↦
            let (same, next) = drop-Pulled place m i p (omega arith) miss in
            let test : (is_busy (item_at m x)
                  && (item_at m x).key_hash == hash m
                  && same_key mem m (item_at m x) key)
                ≡ false =
              ground (arith, same_key-holds p.tracks key p.sized x) in
            rw test (
              SameEntries-Removed mem key m (dropped m x) _ same
                (remove_from-Removed place rounds (i + 1) (dropped m x) (omega arith) next))
      ])

-- On a valid map that has the key, map_remove keeps the map valid, takes the key out, leaves every
-- other key as it was and frees one item.
pub map_remove-Removed :
    (mem : ℕ → List ℕ) (key_ptr : ℕ) (m : Map) {value : ℕ}
    → IsValid mem m
    → length (mem key_ptr) ≡ m.key_size
    → find mem (mem key_ptr) m.items ≡ some value
    → Removed mem (mem key_ptr) m (map_remove mem m key_ptr)
unfolding map_remove covers
map_remove-Removed mem key_ptr m {value} v sized present =
    let (place, lt, placed, _) = find-some mem (mem key_ptr) m.items {v = value} present in
    remove_from-Removed mem (mem key_ptr) place m.capacity 0 m (omega arith) (record {
      sized = sized;
      tracks = record {
        sized = v.sized;
        shape = v.shape;
        small = v.small;
        key_length = v.key_length;
        hashed = v.hashed;
        counted = λ x x_lt. ground (arith, v.counted x x_lt);
        distinct = v.distinct;
      };
      place_lt = omega (arith, v.sized);
      placed = placed;
      ahead = omega arith;
    })
