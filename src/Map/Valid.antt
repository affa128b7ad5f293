-- ===== src/Map/Valid.antt =====
-- The invariant of a map of env/src/structs/map.c, and what one probe of an operation learns.
use klint.Base.{
  to_nat, sym, ◌≢◌, ℕ, ◌+◌, ◌%◌, ◌^◌, ◌≤◌, ◌<◌, ◌≡◌, refl, ◌⊎◌, inl, inr, true, some, Option-cases,
  Bool-cases, List, length, bytes_eq→eq, ltb, arith,
}
use klint.Memory.{memory_hash}
use klint.Memory.Laws.{memory_eq-bytes_eq}
use klint.Map.{Map, item_at, is_busy, same_key, loop}
use klint.Map.Capacity.{dist-wrap, IsPow2, dist, wrap, wrap-dist, wrap-lt, loop-wrap}
use klint.Map.Slots.{holds, copies, count_passes}

-- `chain` counts the keys pushed past each index, up to the increments `plus` that an insertion in
-- progress has made and the decrements `minus` that a removal in progress has made.
pub record Tracks (mem : ℕ → List ℕ) (plus minus : ℕ → ℕ) (m : Map) : Type 0 where
  pub sized : length m.items ≡ m.capacity
  pub shape : (m.capacity ≡ 0) ⊎ IsPow2 m.capacity
  pub small : m.capacity ≤ 2 ^ 63
  pub key_length : (s a : ℕ) → (item_at m s).key_addr ≡ some a → length (mem a) ≡ m.key_size
  pub hashed :
      (s a : ℕ)
      → (item_at m s).key_addr ≡ some a
      → (item_at m s).key_hash ≡ memory_hash (mem a) m.key_size
  pub counted :
      (x : ℕ)
      → x < m.capacity
      → (item_at m x).chain + minus x ≡ count_passes m.capacity x 0 m.items + plus x
  pub distinct : (key : List ℕ) → copies mem key m.items ≤ 1

abbrev pub IsValid : (ℕ → List ℕ) → Map → Type 0
IsValid mem m = Tracks mem (λ _. 0) (λ _. 0) m

-- The indices that the first i probes from `home` see.
unfoldable pub covers : ℕ → ℕ → ℕ → ℕ → ℕ
covers c home i x = to_nat (ltb (dist c home x) i)

-- The first i probes from `home` see a property.
abbrev pub Seen : (ℕ → Type 0) → ℕ → ℕ → ℕ → Type 0
Seen P c home i = (s : ℕ) → s < c → dist c home s < i → P s

pub Seen-step :
    (P : ℕ → Type 0) (c home i : ℕ)
    → home < c
    → Seen P c home i
    → P (wrap c home i)
    → Seen P c home (i + 1)
Seen-step P c home i h seen p s lt near = elim (Bool-cases (ltb (dist c home s) i)) [
  | inl e ↦ seen s lt (ground arith)
  | inr e ↦
      let here : dist c home s ≡ i = ground arith in
      let at : wrap c home i ≡ s = rw (← here) (wrap-dist c home s h lt) in rw at at p
]

module _ {mem : ℕ → List ℕ} {plus minus : ℕ → ℕ} {m : Map} (v : Tracks mem plus minus m) where
  -- The probe's index, in range.
  pub probe :
      (key_hash i : ℕ)
      → i < m.capacity
      → (loop key_hash i m.capacity ≡ wrap m.capacity (key_hash % m.capacity) i)
        × (wrap m.capacity (key_hash % m.capacity) i < m.capacity)
        × (key_hash % m.capacity < m.capacity)
  probe key_hash i h = elim v.shape [
    | inl none_left ↦ absurd (omega arith)
    | inr pow ↦ (
      loop-wrap key_hash i m.capacity pow v.small h,
      wrap-lt m.capacity (key_hash % m.capacity) i (omega arith) h,
      omega arith,
    )
  ]

  module _ (key : List ℕ) (sized : length key ≡ m.key_size) (s : ℕ) where
    -- The byte comparison decides whether the item holds the key.
    pub same_key-holds : same_key mem m (item_at m s) key ≡ holds mem key (item_at m s)
    unfolding same_key holds
    same_key-holds = elim (Option-cases (item_at m s).key_addr) [
      | inl e ↦ rw e
      | inr (a, e) ↦ rw e (memory_eq-bytes_eq (mem a) key m.key_size (v.key_length s a e) sized)
    ]

    -- An item whose hash differs does not hold the key, and one that holds it has its hash.
    pub holds-hash :
        holds mem key (item_at m s) ≡ true
        → (is_busy (item_at m s) ≡ true) × ((item_at m s).key_hash ≡ memory_hash key m.key_size)
    unfolding holds
    holds-hash = elim (Option-cases (item_at m s).key_addr) [
      | inl e ↦ rw e (λ f. absurd (cc))
      | inr (a, e) ↦ rw e (λ t. (refl, rw (v.hashed s a e, bytes_eq→eq (mem a) key t)))
    ]

-- One more probe covers just its own index more.
pub covers_here :
    (c home i : ℕ)
    → home < c
    → i < c
    → (covers c home i (wrap c home i) ≡ 0) × (covers c home (i + 1) (wrap c home i) ≡ 1)
unfolding covers
covers_here c home i p q = ground (arith, dist-wrap c home i p q)

pub covers_there :
    (c home i y : ℕ)
    → home < c
    → y < c
    → y ≢ wrap c home i
    → covers c home (i + 1) y ≡ covers c home i y
unfolding covers
covers_there c home i y p q ne =
    let other : dist c home y ≢ i = λ e. ne (sym (rw (← e) (wrap-dist c home y p q))) in
    ground arith
