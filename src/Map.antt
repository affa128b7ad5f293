-- ===== src/Map.antt =====
-- env/src/structs/map.c: an open-addressing hash map from byte strings to `size_t`, whose items
-- count in `chain` how many stored keys were pushed past them. The map keeps the addresses of its
-- keys; `mem a` is the object of `key_size` bytes that stands at address `a`.
pub mod Capacity
pub mod Slots
pub mod Valid
pub mod Get
pub mod Write
pub mod Set
pub mod Remove
pub mod Alloc
pub mod Memory
use klint.Base.{
  ℕ, zero, suc, ◌+◌, ◌-◌, ◌*◌, ◌/◌, ◌%◌, Bool, true, false, ◌&&◌, Option, none, some, List, get_or,
  set, replicate, bit_and, ltb, ◌==◌, if◌then◌else◌,
}
use klint.Base.Options.{◌>>=◌}
use klint.MemoryAlloc.{Allocator, os_memory_alloc}
use klint.Memory.{u64_mod, memory_eq, memory_hash}

-- `key_addr` is `none` for NULL.
pub record MapItem : Type 0 where
  pub key_addr : Option ℕ
  pub value : ℕ
  pub chain : ℕ
  pub key_hash : ℕ

pub record Map : Type 0 where
  pub items : List MapItem
  pub key_size : ℕ
  pub capacity : ℕ

-- What `os_memory_alloc` returns: zeroed memory.
abbrev pub zero_item : MapItem
zero_item = record { key_addr = none; value = 0; chain = 0; key_hash = 0 }

-- `while (real_capacity < capacity)`; `none` when the fuel runs out.
unfoldable pub grow_capacity : ℕ → ℕ → ℕ → Option ℕ
grow_capacity zero real_capacity capacity = none
grow_capacity (suc fuel) real_capacity capacity =
    let more = grow_capacity fuel (real_capacity * 2 % u64_mod) capacity in
    if ltb real_capacity capacity then more else some real_capacity

-- 64 doublings are enough for every capacity that the map accepts.
unfoldable pub get_real_capacity : ℕ → Option ℕ
get_real_capacity capacity = if capacity == 0 then some 0 else grow_capacity 65 1 capacity

-- The i-th index that a key of the given hash tries.
unfoldable pub loop : ℕ → ℕ → ℕ → ℕ
loop start i capacity = bit_and ((bit_and start (capacity - 1) + i) % u64_mod) (capacity - 1)

abbrev pub item_at : Map → ℕ → MapItem
item_at m index = get_or m.items index zero_item

abbrev pub put_item : Map → ℕ → MapItem → Map
put_item m index item = record m { items = set m.items index item }

-- The loop of `map_alloc` that clears the items from n on.
clear_from : ℕ → ℕ → List MapItem → List MapItem
unfolding get_or
clear_from zero n items = items
clear_from (suc rounds) n items =
    clear_from rounds (n + 1)
      (set items n (record (get_or items n zero_item) { key_addr = none; chain = 0 }))

-- `sizeof(struct map)` and `sizeof(struct map_item)`.
abbrev pub sizeof_map : ℕ
sizeof_map = 24

abbrev pub sizeof_map_item : ℕ
sizeof_map_item = 32

-- The items that the zeroed block of `os_memory_alloc(real_capacity, sizeof(struct map_item))` has room
-- for: its size is a product on 64 bits.
abbrev pub zeroed_items : ℕ → List MapItem
zeroed_items real_capacity =
    replicate (sizeof_map_item * real_capacity % u64_mod / sizeof_map_item) zero_item

new_map : ℕ → ℕ → Map
unfolding clear_from
new_map key_size real_capacity = record {
  items = clear_from real_capacity 0 (zeroed_items real_capacity);
  key_size = key_size;
  capacity = real_capacity;
}

-- The map of `map_alloc` where both calls of `os_memory_alloc` return; `none` when `get_real_capacity`
-- does not. The network functions start with it, since their allocations are memory of their own.
unfoldable pub map_with_memory : ℕ → ℕ → Option Map
unfolding new_map
map_with_memory key_size capacity = elim (get_real_capacity capacity) [
  | none ↦ none
  | some real_capacity ↦ some (new_map key_size real_capacity)
]

-- `map_alloc` in the memory of an allocator; `none` when `os_memory_alloc` halts the program or
-- `get_real_capacity` does not return.
unfoldable pub map_alloc : Allocator → ℕ → ℕ → Option (Allocator × Map)
unfolding new_map
map_alloc a key_size capacity = os_memory_alloc a 1 sizeof_map >>= (λ (a₁, m).
    get_real_capacity capacity >>= (λ real_capacity.
      os_memory_alloc a₁ real_capacity sizeof_map_item
      >>= (λ (a₂, items). some (a₂, new_map key_size real_capacity))))

abbrev pub is_busy : MapItem → Bool
is_busy it = elim it.key_addr [ none ↦ false | some a ↦ true ]

module _ (mem : ℕ → List ℕ) where
  -- `os_memory_eq(it->key_addr, key_ptr, map->key_size)`
  unfoldable pub same_key : Map → MapItem → List ℕ → Bool
  same_key m it key = elim it.key_addr [ none ↦ false | some a ↦ memory_eq (mem a) key m.key_size ]

  -- The loop of `map_get` from i on.
  unfoldable pub get_from : Map → List ℕ → ℕ → ℕ → ℕ → Option ℕ
  get_from m key key_hash zero i = none
  get_from m key key_hash (suc rounds) i =
      let it = item_at m (loop key_hash i m.capacity) in
      let rest = get_from m key key_hash rounds (i + 1) in
      if is_busy it && it.key_hash == key_hash
      then (if same_key m it key then some it.value else rest)
      else (if it.chain == 0 then none else rest)

  unfoldable pub map_get : Map → List ℕ → Option ℕ
  unfolding get_from
  map_get m key = get_from m key (memory_hash key m.key_size) m.capacity 0

  -- The loop of `map_set` from i on: the key goes to the first free item, and each busy item
  -- before it counts one more key.
  unfoldable pub set_from : Map → ℕ → ℕ → ℕ → ℕ → ℕ → Map
  set_from m key_ptr key_hash value zero i = m
  set_from m key_ptr key_hash value (suc rounds) i =
      let index = loop key_hash i m.capacity in
      let it = item_at m index in
      let rest =
        set_from (put_item m index (record it { chain = (it.chain + 1) % u64_mod })) key_ptr
          key_hash value rounds (i + 1) in
      if is_busy it
      then rest
      else put_item m index
          (record it { key_addr = some key_ptr; key_hash = key_hash; value = value })

  unfoldable pub map_set : Map → ℕ → ℕ → Map
  unfolding set_from
  map_set m key_ptr value =
      set_from m key_ptr (memory_hash (mem key_ptr) m.key_size) value m.capacity 0

  -- The loop of `map_remove` from i on.
  unfoldable pub remove_from : Map → List ℕ → ℕ → ℕ → ℕ → Map
  remove_from m key key_hash zero i = m
  remove_from m key key_hash (suc rounds) i =
      let index = loop key_hash i m.capacity in
      let it = item_at m index in
      let rest =
        remove_from (put_item m index (record it { chain = (it.chain + u64_mod - 1) % u64_mod }))
          key key_hash rounds (i + 1) in
      if is_busy it && it.key_hash == key_hash && same_key m it key
      then put_item m index (record it { key_addr = none })
      else rest

  unfoldable pub map_remove : Map → ℕ → Map
  unfolding remove_from
  map_remove m key_ptr =
      remove_from m (mem key_ptr) (memory_hash (mem key_ptr) m.key_size) m.capacity 0
