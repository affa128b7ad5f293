-- ===== src/Map/Alloc.antt =====
-- `map_alloc` of env/src/structs/map.c returns a valid empty map.
use klint.Base.{
  ℕ, zero, suc, ◌+◌, ◌*◌, ◌/◌, ◌%◌, ◌<◌, ◌^◌, ◌≤◌, ◌≡◌, refl, ◌⊎◌, none, some, List, ◌∷◌, replicate,
  set, length-replicate, get_or-replicate, ap, arith,
}
use klint.Memory.{u64_mod}
use klint.MemoryAlloc.{Allocator}
use klint.MemoryAlloc.Blocks as MemoryAlloc
use klint.MemoryAlloc.Blocks.{os_memory_alloc-room}
use klint.Map.{
  MapItem, Map, zero_item, sizeof_map, sizeof_map_item, zeroed_items, clear_from, new_map,
  map_with_memory, map_alloc,
}
use klint.Map.Capacity.{IsPow2, get_real_capacity_total}
use klint.Map.Slots.{holds, find, copies, busy_count, count_passes, passes}
use klint.Map.Valid.{IsValid}

set-replicate : (n i : ℕ) (a : MapItem) → set (replicate n a) i a ≡ replicate n a
set-replicate zero i a = refl
set-replicate (suc n) zero a = refl
set-replicate (suc n) (suc i) a = ap (◌∷◌ a) (set-replicate n i a)

clear_from-replicate :
    (rounds n c : ℕ) → clear_from rounds n (replicate c zero_item) ≡ replicate c zero_item
unfolding clear_from
clear_from-replicate zero n c = refl
clear_from-replicate (suc rounds) n c =
    rw (get_or-replicate c n zero_item, set-replicate c n zero_item)
      (clear_from-replicate rounds (n + 1) c)

count_passes-replicate : (c x s n : ℕ) → count_passes c x s (replicate n zero_item) ≡ 0
unfolding count_passes passes
count_passes-replicate c x s zero = refl
count_passes-replicate c x s (suc n) = omega (arith, count_passes-replicate c x (suc s) n)

module _ (mem : ℕ → List ℕ) (key : List ℕ) where
  copies-replicate : (n : ℕ) → copies mem key (replicate n zero_item) ≡ 0
  unfolding copies holds
  copies-replicate zero = refl
  copies-replicate (suc n) = omega (arith, copies-replicate n)

  find-replicate : (n : ℕ) → find mem key (replicate n zero_item) ≡ none
  unfolding find holds
  find-replicate zero = refl
  find-replicate (suc n) = find-replicate n

busy_count-replicate : (n : ℕ) → busy_count (replicate n zero_item) ≡ 0
unfolding busy_count
busy_count-replicate zero = refl
busy_count-replicate (suc n) = omega (arith, busy_count-replicate n)

-- No product wraps around below 2 ^ 59 items.
zeroed_items-replicate : (c : ℕ) → c < 2 ^ 59 → zeroed_items c ≡ replicate c zero_item
zeroed_items-replicate c small =
    let whole : sizeof_map_item * c % u64_mod / sizeof_map_item ≡ c = omega arith in
    ap (λ (n : ℕ). replicate n zero_item) whole

module _ (mem : ℕ → List ℕ) (key_size c : ℕ) (small : c < 2 ^ 59) where
  new_map-items : (new_map key_size c).items ≡ replicate c zero_item
  unfolding new_map
  new_map-items = rw (zeroed_items-replicate c small) (clear_from-replicate c 0 c)

  -- The map before any key.
  abbrev blank : Map
  blank = record { items = replicate c zero_item; key_size = key_size; capacity = c }

  new_map-blank : new_map key_size c ≡ blank
  unfolding new_map
  new_map-blank =
      ap (λ (items : List MapItem). record { items = items; key_size = key_size; capacity = c })
        new_map-items

  blank-IsValid : (c ≡ 0) ⊎ IsPow2 c → IsValid mem blank
  blank-IsValid shape = record {
    sized = length-replicate c zero_item;
    shape = shape;
    small = omega arith;
    key_length = λ s a. rw get_or-replicate (λ e. absurd (cc));
    hashed = λ s a. rw get_or-replicate (λ e. absurd (cc));
    counted = λ x lt. rw get_or-replicate (omega (arith, count_passes-replicate c x 0 c));
    distinct = λ key. omega (arith, copies-replicate mem key c);
  }

-- A valid map of the key size, with at least the capacity, in which no key is found and no item is busy.
pub record IsNew (mem : ℕ → List ℕ) (key_size capacity : ℕ) (m : Map) : Type 0 where
  pub valid : IsValid mem m
  pub same_key_size : m.key_size ≡ key_size
  pub roomy : capacity ≤ m.capacity
  pub empty : (key : List ℕ) → find mem key m.items ≡ none
  pub idle : busy_count m.items ≡ 0

module _ (mem : ℕ → List ℕ) (key_size capacity : ℕ) where
  new_map-IsNew :
      (c : ℕ)
      → c < 2 ^ 59
      → capacity ≤ c
      → (c ≡ 0) ⊎ IsPow2 c
      → IsNew mem key_size capacity (new_map key_size c)
  new_map-IsNew c small lo shape = rw (new_map-blank mem key_size c small) (record {
    valid = blank-IsValid mem key_size c small shape;
    same_key_size = refl;
    roomy = lo;
    empty = λ key. find-replicate mem key c;
    idle = busy_count-replicate c;
  })

  -- Where os_memory_alloc returns, map_alloc returns a new map for every capacity below 2 ^ 58.
  pub map_with_memory-IsNew :
      capacity < 2 ^ 58
      → (m : Map) × (map_with_memory key_size capacity ≡ some m) × IsNew mem key_size capacity m
  unfolding map_with_memory
  map_with_memory-IsNew small =
      let (c, e, lo, hi, shape, _) = get_real_capacity_total capacity (omega arith) in
      (new_map key_size c, rw (e, map_with_memory) refl, new_map-IsNew c (omega arith) lo shape)

  -- In a valid allocator with 64 bytes for each entry of the capacity and 152 more left, map_alloc
  -- returns: it keeps the allocator valid, takes no more than that, and gives a valid map of the
  -- key size, with at least that capacity, in which no key is found and no item is busy, the one
  -- that the network functions start with (map_with_memory).
  pub map_alloc-IsNew :
      {a : Allocator}
      → MemoryAlloc.IsValid a
      → a.memory_used_len + 64 * capacity + 152 ≤ a.os_memory_size
      → (a' : Allocator) × (m : Map) × (map_alloc a key_size capacity ≡ some (a', m))
        × MemoryAlloc.IsValid a'
        × (a'.memory_used_len ≤ a.memory_used_len + 64 * capacity + 152)
        × (map_with_memory key_size capacity ≡ some m)
        × IsNew mem key_size capacity m
  unfolding map_alloc map_with_memory
  map_alloc-IsNew {a} v room =
      let (c, e, lo, hi, shape, _) = get_real_capacity_total capacity (omega (arith, v.placed)) in
      let (a₁, p, first, v₁, _, same, used) =
        os_memory_alloc-room {a = a} 1 sizeof_map v (omega arith) (omega arith) (omega arith) in
      let (a₂, q, second, v₂, _, _, used') =
        os_memory_alloc-room {a = a₁} c sizeof_map_item v₁ (omega (arith, v.placed)) (omega arith)
          (omega arith) in
      (
        a₂,
        new_map key_size c,
        rw (first, e, second) refl,
        v₂,
        omega arith,
        rw (e, map_with_memory) refl,
        new_map-IsNew c (omega (arith, v.placed)) lo shape,
      )
