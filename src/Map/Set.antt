-- ===== src/Map/Set.antt =====
-- `map_set` of env/src/structs/map.c adds one key to the finite map that a scan of the items reads.
use klint.Base.{
  to_nat, ℕ, zero, suc, ◌+◌, ◌%◌, ◌≤◌, ◌<◌, ◌≡◌, refl, ◌⊎◌, inl, inr, true, false, some, none,
  Bool-cases, List, length, set, bytes_eq, bytes_eq→eq, either, ◌==◌, if◌then◌else◌, ◌∙◌, arith,
}
use klint.Memory.{memory_hash, u64_mod}
use klint.Map.{MapItem, Map, item_at, put_item, is_busy, set_from, map_set}
use klint.Map.Capacity.{wrap, dist-lt, dist-wrap}
use klint.Map.Slots.{
  holds, find, find-set_new, find-set_other, copies, busy_count, busy_count-set, busy_count_full,
  copies_of_none, passes, count_passes-le,
}
use klint.Map.Valid.{Tracks, IsValid, Seen, Seen-step, covers, covers_here, covers_there, probe}
use klint.Map.Write.{item_at-put, put-Tracks, SameEntries, rechain-SameEntries, rechain-Tracks}

-- The second map has the key at `key_ptr`, with the value, and otherwise what the first has.
pub record Inserted (mem : ℕ → List ℕ) (key_ptr value : ℕ) (m m' : Map) : Type 0 where
  pub valid : IsValid mem m'
  pub same_key_size : m'.key_size ≡ m.key_size
  pub same_capacity : m'.capacity ≡ m.capacity
  pub finds :
      (q : List ℕ)
      → find mem q m'.items ≡ (if bytes_eq (mem key_ptr) q then some value else find mem q m.items)
  pub one_more : busy_count m'.items ≡ suc (busy_count m.items)
  pub entries :
      (s a : ℕ)
      → (item_at m' s).key_addr ≡ some a
      → ((a ≡ key_ptr) × ((item_at m' s).value ≡ value))
        ⊎ (((item_at m s).key_addr ≡ some a) × ((item_at m' s).value ≡ (item_at m s).value))

SameEntries-Inserted :
    (mem : ℕ → List ℕ) (key_ptr value : ℕ) (m m₁ m' : Map)
    → SameEntries mem m m₁
    → Inserted mem key_ptr value m₁ m'
    → Inserted mem key_ptr value m m'
SameEntries-Inserted mem key_ptr value m m₁ m' same ins = record {
  valid = ins.valid;
  same_key_size = ins.same_key_size ∙ same.same_key_size;
  same_capacity = ins.same_capacity ∙ same.same_capacity;
  finds = λ q. rw (← same.same_find q) (ins.finds q);
  one_more = rw (← same.same_count) ins.one_more;
  entries = λ s a e. ground (arith, ins.entries s a e, same.same_addr s, same.same_value s);
}

module _ (mem : ℕ → List ℕ) (key_ptr value : ℕ) where
  abbrev hash : Map → ℕ
  hash m = memory_hash (mem key_ptr) m.key_size

  abbrev home : Map → ℕ
  home m = hash m % m.capacity

  -- The invariant of the loop after i probes.
  record Pushed (m : Map) (i : ℕ) : Type 0 where
    sized : length (mem key_ptr) ≡ m.key_size
    tracks : Tracks mem (covers m.capacity (home m) i) (λ _. 0) m
    busy : Seen (λ s. is_busy (item_at m s) ≡ true) m.capacity (home m) i
    absent : find mem (mem key_ptr) m.items ≡ none
    room : busy_count m.items < m.capacity

  abbrev target : Map → ℕ → ℕ
  target m i = wrap m.capacity (home m) i

  abbrev bumped : Map → ℕ → Map
  bumped m x = put_item m x (record (item_at m x) { chain = ((item_at m x).chain + 1) % u64_mod })

  -- A busy item on the way counts one more key; the count does not wrap.
  bump-Pushed :
      (m : Map) (i : ℕ)
      → Pushed m i
      → i < m.capacity
      → is_busy (item_at m (target m i)) ≡ true
      → SameEntries mem m (bumped m (target m i)) × Pushed (bumped m (target m i)) (i + 1)
  bump-Pushed m i p h full =
      let (_, x_lt, home_lt) = probe p.tracks (hash m) i h in
      let x = target m i in
      let chain' = ((item_at m x).chain + 1) % u64_mod in
      let same = rechain-SameEntries p.tracks x x_lt chain' in
      let (before, after) = covers_here m.capacity (home m) i home_lt h in
      (
        same,
        record {
          sized = p.sized;
          tracks =
              rechain-Tracks p.tracks x x_lt chain' _ _
                (omega (
                  arith,
                  before,
                  after,
                  p.tracks.counted x x_lt,
                  p.tracks.sized,
                  p.tracks.small,
                  count_passes-le m.capacity x 0 m.items,
                ))
                (λ y lt ne. (covers_there m.capacity (home m) i y home_lt lt ne, refl));
          busy =
              Seen-step (λ s. is_busy (item_at (bumped m x) s) ≡ true) m.capacity (home m) i home_lt
                (λ s lt near. ground (arith, same.same_addr s, p.busy s lt near))
                (ground (arith, same.same_addr x, full));
          absent = same.same_find _ ∙ p.absent;
          room = omega (arith, p.room, same.same_count);
        },
      )

  abbrev filled : Map → ℕ → Map
  filled m x =
      put_item m x
        (record (item_at m x) { key_addr = some key_ptr; key_hash = hash m; value = value })

  module _ (m : Map) (it : MapItem) (at_ptr : it.key_addr ≡ some key_ptr) where
    -- The key stands in no other item.
    fill_single :
        {plus minus : ℕ → ℕ}
        → Tracks mem plus minus m
        → find mem (mem key_ptr) m.items ≡ none
        → (x : ℕ) (key : List ℕ)
        → copies mem key m.items + to_nat (holds mem key it)
          ≤ 1 + to_nat (holds mem key (item_at m x))
    unfolding holds
    fill_single t absent x key = elim (Bool-cases (holds mem key it)) [
      | inr other ↦ rw other (omega (arith, t.distinct key))
      | inl mine ↦
          let same : mem key_ptr ≡ key = bytes_eq→eq (mem key_ptr) key (rw at_ptr at mine) in
          rw mine (omega (arith, copies_of_none mem key m.items (rw (← same) absent)))
    ]

    fill_finds :
        (x : ℕ)
        → x < length m.items
        → find mem (mem key_ptr) m.items ≡ none
        → is_busy (item_at m x) ≡ false
        → (q : List ℕ)
        → find mem q (set m.items x it)
          ≡ (if bytes_eq (mem key_ptr) q then some it.value else find mem q m.items)
    unfolding holds
    fill_finds x lt absent free q = elim (Bool-cases (bytes_eq (mem key_ptr) q)) [
      | inl mine ↦ rw mine (
          find-set_new mem q m.items x it lt (rw at_ptr mine)
            (rw (← bytes_eq→eq (mem key_ptr) q mine) absent))
      | inr other ↦ rw other (find-set_other mem q m.items x it (rw at_ptr other) (ground arith))
    ]

  fill-Inserted :
      (m : Map) (i : ℕ)
      → Pushed m i
      → i < m.capacity
      → is_busy (item_at m (target m i)) ≡ false
      → Inserted mem key_ptr value m (filled m (target m i))
  unfolding passes covers
  fill-Inserted m i p h free =
      let (_, x_lt, home_lt) = probe p.tracks (hash m) i h in
      let x = target m i in
      let it : MapItem = record (item_at m x) {
        key_addr = some key_ptr;
        key_hash = hash m;
        value = value;
      } in
      let in_items : x < length m.items = omega (arith, p.tracks.sized) in
      record {
        valid =
            put-Tracks p.tracks x x_lt it _ _
              (λ a e. let same : key_ptr ≡ a = cc in rw (← same) (p.sized, refl))
              (λ key. fill_single m it refl p.tracks p.absent x key)
              (λ y lt.
                ground
                  (arith, free, p.tracks.counted y lt, dist-wrap m.capacity (home m) i home_lt h));
        same_key_size = refl;
        same_capacity = refl;
        finds = λ q. fill_finds m it refl x in_items p.absent free q;
        one_more = ground (arith, busy_count-set m.items x it in_items);
        entries = λ s a. rw (item_at-put m x s it in_items) (
            either
              (λ (j : MapItem).
                j.key_addr ≡ some a
                → ((a ≡ key_ptr) × (j.value ≡ value))
                  ⊎ (((item_at m s).key_addr ≡ some a) × (j.value ≡ (item_at m s).value)))
              (x == s) (λ e. inl (cc, refl)) (λ e. inr (e, refl)));
      }

  -- The probes cannot all be busy: there is room.
  not_full : (m : Map) (i : ℕ) → i ≡ m.capacity → ¬ (Pushed m i)
  not_full m i e p =
      let all = busy_count_full m.items λ s lt. p.busy s (omega (arith, p.tracks.sized)) (
        omega (
          arith,
          p.tracks.sized,
          dist-lt m.capacity (home m) s (omega (arith, p.tracks.sized))
              (omega (arith, p.tracks.sized)),
        )) in
      absurd (omega (arith, all, p.room, p.tracks.sized))

  set_from-Inserted :
      (rounds i : ℕ) (m : Map)
      → i + rounds ≡ m.capacity
      → Pushed m i
      → Inserted mem key_ptr value m (set_from mem m key_ptr (hash m) value rounds i)
  unfolding set_from
  set_from-Inserted zero i m e p = absurd (not_full m i (omega arith) p)
  set_from-Inserted (suc rounds) i m e p =
      let (at, x_lt, home_lt) = probe p.tracks (hash m) i (omega arith) in
      let x = target m i in
      rw at (elim (Bool-cases (is_busy (item_at m x))) [
        | inl full ↦
            let (same, next) = bump-Pushed m i p (omega arith) full in
            rw full (
              SameEntries-Inserted mem key_ptr value m (bumped m x) _ same
                (set_from-Inserted rounds (i + 1) (bumped m x) (omega arith) next))
        | inr free ↦ rw free (fill-Inserted m i p (omega arith) free)
      ])

  -- On a valid map with a free item, for a new key of the map's size, map_set keeps the map valid,
  -- gives the key its value, leaves every other key as it was and makes one more item busy; each
  -- entry is the new one or an old one in its place.
  pub map_set-Inserted :
      (m : Map)
      → IsValid mem m
      → length (mem key_ptr) ≡ m.key_size
      → find mem (mem key_ptr) m.items ≡ none
      → busy_count m.items < m.capacity
      → Inserted mem key_ptr value m (map_set mem m key_ptr value)
  unfolding map_set covers
  map_set-Inserted m v sized absent room = set_from-Inserted m.capacity 0 m (omega arith) (record {
    sized = sized;
    tracks = record {
      sized = v.sized;
      shape = v.shape;
      small = v.small;
      key_length = v.key_length;
      hashed = v.hashed;
      counted = λ x lt. ground (arith, v.counted x lt);
      distinct = v.distinct;
    };
    busy = λ s lt near. absurd (omega arith);
    absent = absent;
    room = room;
  })
