-- ===== src/Map/Write.antt =====
-- What a write of one item does to a map of env/src/structs/map.c: the invariant after it, and the
-- writes that change only `chain`.
use klint.Base.{
  to_nat, ℕ, ◌+◌, ◌≤◌, ◌<◌, ◌≡◌, refl, ◌≢◌, some, List, length, length-set, get_or-set, ◌==◌,
  if◌then◌else◌, either, arith,
}
use klint.Memory.{memory_hash}
use klint.Map.{MapItem, Map, zero_item, item_at, put_item}
use klint.Map.Slots.{
  holds, find, copies, copies-set, find-set_same, busy_count, busy_count-set, passes, count_passes,
  count_passes-set,
}
use klint.Map.Valid.{Tracks}

-- Where the items stand after a write.
pub item_at-put :
    (m : Map) (x s : ℕ) (it : MapItem)
    → x < length m.items
    → item_at (put_item m x it) s ≡ (if x == s then it else item_at m s)
item_at-put m x s it h = get_or-set m.items x s it zero_item h

module _ {mem : ℕ → List ℕ} {plus minus : ℕ → ℕ} {m : Map} (v : Tracks mem plus minus m) (x : ℕ)
    (x_lt : x < m.capacity) (it : MapItem) where
  in_items : x < length m.items
  in_items = omega (arith, v.sized)

  -- A write keeps the invariant if the new item is hashed, doubles no key, and is accounted for.
  pub put-Tracks :
      (plus' minus' : ℕ → ℕ)
      → ((a : ℕ)
          → it.key_addr ≡ some a
          → (length (mem a) ≡ m.key_size) × (it.key_hash ≡ memory_hash (mem a) m.key_size))
      → ((key : List ℕ)
          → copies mem key m.items + to_nat (holds mem key it)
            ≤ 1 + to_nat (holds mem key (item_at m x)))
      → ((y : ℕ)
          → y < m.capacity
          → (if x == y then it else item_at m y).chain
              + minus' y
              + passes m.capacity y x (item_at m x)
            ≡ count_passes m.capacity y 0 m.items + passes m.capacity y x it + plus' y)
      → Tracks mem plus' minus' (put_item m x it)
  put-Tracks plus' minus' keyed single counts = record {
    sized = rw length-set v.sized;
    shape = v.shape;
    small = v.small;
    key_length = λ s a. rw (item_at-put m x s it in_items) (
        either (λ (j : MapItem). j.key_addr ≡ some a → length (mem a) ≡ m.key_size) (x == s)
          (λ e. (keyed a e).0) (v.key_length s a));
    hashed = λ s a. rw (item_at-put m x s it in_items) (
        either (λ (j : MapItem). j.key_addr ≡ some a → j.key_hash ≡ memory_hash (mem a) m.key_size)
          (x == s) (λ e. (keyed a e).1) (v.hashed s a));
    counted = λ y lt. rw (item_at-put m x y it in_items) (
        omega (
          arith,
          counts y lt,
          count_passes-set m.capacity y 0 x x it m.items (omega arith) in_items,
        ));
    distinct = λ key. omega (arith, single key, copies-set mem key m.items x it in_items);
  }

-- The second map differs from the first in its chains alone.
pub record SameEntries (mem : ℕ → List ℕ) (m m' : Map) : Type 0 where
  pub same_key_size : m'.key_size ≡ m.key_size
  pub same_capacity : m'.capacity ≡ m.capacity
  pub same_addr : (s : ℕ) → (item_at m' s).key_addr ≡ (item_at m s).key_addr
  pub same_value : (s : ℕ) → (item_at m' s).value ≡ (item_at m s).value
  pub same_find : (q : List ℕ) → find mem q m'.items ≡ find mem q m.items
  pub same_count : busy_count m'.items ≡ busy_count m.items

module _ {mem : ℕ → List ℕ} {plus minus : ℕ → ℕ} {m : Map} (v : Tracks mem plus minus m) (x : ℕ)
    (x_lt : x < m.capacity) (chain' : ℕ) where
  abbrev rechained : MapItem
  rechained = record (item_at m x) { chain = chain' }

  pub rechain-SameEntries : SameEntries mem m (put_item m x rechained)
  unfolding holds
  rechain-SameEntries = record {
    same_key_size = refl;
    same_capacity = refl;
    same_addr = λ s. ground (arith, item_at-put m x s rechained (omega (arith, v.sized)));
    same_value = λ s. ground (arith, item_at-put m x s rechained (omega (arith, v.sized)));
    same_find = λ q. find-set_same mem q m.items x rechained refl refl;
    same_count = omega (arith, busy_count-set m.items x rechained (omega (arith, v.sized)));
  }

  pub rechain-Tracks :
      (plus' minus' : ℕ → ℕ)
      → chain' + minus' x ≡ count_passes m.capacity x 0 m.items + plus' x
      → ((y : ℕ) → y < m.capacity → y ≢ x → (plus' y ≡ plus y) × (minus' y ≡ minus y))
      → Tracks mem plus' minus' (put_item m x rechained)
  unfolding holds passes
  rechain-Tracks plus' minus' here there =
      put-Tracks v x x_lt rechained plus' minus' (λ a e. (v.key_length x a e, v.hashed x a e))
        (λ key. omega (arith, v.distinct key)) (λ y lt. ground (arith, v.counted y lt, there y lt))
