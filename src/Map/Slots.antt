-- ===== src/Map/Slots.antt =====
-- The items of a map of env/src/structs/map.c as a whole: which keys stand in them, what an
-- ordered scan finds, and how many probes pass over an index.
use klint.Base.{
  to_nat, ℕ, zero, suc, ◌+◌, ◌%◌, ◌≤◌, ◌<◌, ◌≡◌, refl, Bool, true, false, Option, none, some, List,
  [], ◌∷◌, length, get_or, set, bytes_eq, bytes_eq→eq, Option-cases, ltb, if◌then◌else◌, inl, inr,
  Bool-cases, arith,
}
use klint.Map.{MapItem, zero_item, is_busy}
use klint.Map.Capacity.{dist}

module _ (mem : ℕ → List ℕ) (key : List ℕ) where
  -- The item holds the key.
  unfoldable pub holds : MapItem → Bool
  holds it = elim it.key_addr [ none ↦ false | some a ↦ bytes_eq (mem a) key ]

  -- The value of the first item that holds the key: what a plain scan of the items finds.
  unfoldable pub find : List MapItem → Option ℕ
  find [] = none
  find (it ∷ items) = if holds it then some it.value else find items

  -- How many items hold the key.
  unfoldable pub copies : List MapItem → ℕ
  copies [] = 0
  copies (it ∷ items) = to_nat (holds it) + copies items

  pub find-none :
      (items : List MapItem)
      → ((s : ℕ) → s < length items → holds (get_or items s zero_item) ≡ false)
      → find items ≡ none
  unfolding find get_or
  find-none [] h = refl
  find-none (it ∷ items) h =
      ground (arith, h 0 (omega arith), find-none items (λ s p. h (suc s) (omega arith)))

  copies_zero-find : (items : List MapItem) → copies items ≡ 0 → find items ≡ none
  unfolding find copies
  copies_zero-find [] h = refl
  copies_zero-find (it ∷ items) h = ground (arith, copies_zero-find items)

  holds-copies :
      (items : List MapItem) (s : ℕ) → holds (get_or items s zero_item) ≡ true → 1 ≤ copies items
  unfolding copies get_or holds
  holds-copies [] s h = cc
  holds-copies (it ∷ items) zero h = ground arith
  holds-copies (it ∷ items) (suc s) h = ground (arith, holds-copies items s h)

  pub find_of_holds :
      (items : List MapItem) (s : ℕ)
      → holds (get_or items s zero_item) ≡ true
      → copies items ≤ 1
      → find items ≡ some (get_or items s zero_item).value
  unfolding find copies get_or holds
  find_of_holds [] s h once = cc
  find_of_holds (it ∷ items) zero h once = ground arith
  find_of_holds (it ∷ items) (suc s) h once =
      ground (arith, holds-copies items s h, find_of_holds items s h)

  -- A key that a scan finds stands somewhere.
  pub find-some :
      (items : List MapItem) {v : ℕ}
      → find items ≡ some v
      → (s : ℕ) × (s < length items)
        × (holds (get_or items s zero_item) ≡ true)
        × ((get_or items s zero_item).value ≡ v)
  unfolding find get_or
  find-some [] h = cc
  find-some (it ∷ items) {v} h = elim (Bool-cases (holds it)) [
    | inl e ↦ (0, omega arith, e, ground arith)
    | inr e ↦
        let (s, lt, found, val) = find-some items {v = v} (rw e at h) in
        (suc s, omega arith, found, val)
  ]

  -- Writing an item.
  pub copies-set :
      (items : List MapItem) (i : ℕ) (it : MapItem)
      → i < length items
      → copies (set items i it) + to_nat (holds (get_or items i zero_item))
        ≡ copies items + to_nat (holds it)
  unfolding copies get_or
  copies-set [] i it h = absurd (omega arith)
  copies-set (x ∷ items) zero it h = omega arith
  copies-set (x ∷ items) (suc i) it h = omega (arith, copies-set items i it (omega arith))

  pub find-set_same :
      (items : List MapItem) (i : ℕ) (it : MapItem)
      → holds it ≡ holds (get_or items i zero_item)
      → it.value ≡ (get_or items i zero_item).value
      → find (set items i it) ≡ find items
  unfolding find get_or
  find-set_same [] i it e v = refl
  find-set_same (x ∷ items) zero it e v = ground arith
  find-set_same (x ∷ items) (suc i) it e v = ground (arith, find-set_same items i it e v)

  pub find-set_new :
      (items : List MapItem) (i : ℕ) (it : MapItem)
      → i < length items
      → holds it ≡ true
      → find items ≡ none
      → find (set items i it) ≡ some it.value
  unfolding find
  find-set_new [] i it h e f = absurd (omega arith)
  find-set_new (x ∷ items) zero it h e f = ground arith
  find-set_new (x ∷ items) (suc i) it h e f =
      ground (arith, find-set_new items i it (omega arith) e)

  pub find-set_other :
      (items : List MapItem) (i : ℕ) (it : MapItem)
      → holds it ≡ false
      → holds (get_or items i zero_item) ≡ false
      → find (set items i it) ≡ find items
  unfolding find get_or
  find-set_other [] i it e v = refl
  find-set_other (x ∷ items) zero it e v = ground arith
  find-set_other (x ∷ items) (suc i) it e v = ground (arith, find-set_other items i it e v)

  pub find-set_gone :
      (items : List MapItem) (i : ℕ) (it : MapItem)
      → i < length items
      → holds it ≡ false
      → holds (get_or items i zero_item) ≡ true
      → copies items ≤ 1
      → find (set items i it) ≡ none
  find-set_gone items i it h e o once =
      copies_zero-find (set items i it) (ground (arith, copies-set items i it h))

-- How many items are busy.
unfoldable pub busy_count : List MapItem → ℕ
busy_count [] = 0
busy_count (it ∷ items) = to_nat (is_busy it) + busy_count items

pub busy_count-set :
    (items : List MapItem) (i : ℕ) (it : MapItem)
    → i < length items
    → busy_count (set items i it) + to_nat (is_busy (get_or items i zero_item))
      ≡ busy_count items + to_nat (is_busy it)
unfolding busy_count get_or
busy_count-set [] i it h = absurd (omega arith)
busy_count-set (x ∷ items) zero it h = omega arith
busy_count-set (x ∷ items) (suc i) it h = omega (arith, busy_count-set items i it (omega arith))

pub busy_count_full :
    (items : List MapItem)
    → ((s : ℕ) → s < length items → is_busy (get_or items s zero_item) ≡ true)
    → busy_count items ≡ length items
unfolding busy_count get_or
busy_count_full [] h = refl
busy_count_full (it ∷ items) h =
    ground (arith, h 0 (omega arith), busy_count_full items (λ s p. h (suc s) (omega arith)))

-- The probe for the item at index s passes over index x before it reaches s.
unfoldable pub passes : ℕ → ℕ → ℕ → MapItem → ℕ
passes c x s it =
    if is_busy it then to_nat (ltb (dist c (it.key_hash % c) x) (dist c (it.key_hash % c) s)) else 0

-- How many stored keys, of the items from index s on, are pushed past index x.
unfoldable pub count_passes : ℕ → ℕ → ℕ → List MapItem → ℕ
count_passes c x s [] = 0
count_passes c x s (it ∷ items) = passes c x s it + count_passes c x (suc s) items

pub count_passes-le : (c x s : ℕ) (items : List MapItem) → count_passes c x s items ≤ length items
unfolding count_passes passes
count_passes-le c x s [] = omega arith
count_passes-le c x s (it ∷ items) = ground (arith, count_passes-le c x (suc s) items)

pub passes-le-count :
    (c x s t u : ℕ) (items : List MapItem)
    → u ≡ s + t
    → passes c x u (get_or items t zero_item) ≤ count_passes c x s items
unfolding count_passes get_or passes
passes-le-count c x s t u [] e = omega arith
passes-le-count c x s zero u (it ∷ items) e =
    let here : u ≡ s = omega arith in rw here (omega arith)
passes-le-count c x s (suc t) u (it ∷ items) e =
    omega (arith, passes-le-count c x (suc s) t u items (omega arith))

pub count_passes-set :
    (c x s i u : ℕ) (it : MapItem) (items : List MapItem)
    → u ≡ s + i
    → i < length items
    → count_passes c x s (set items i it) + passes c x u (get_or items i zero_item)
      ≡ count_passes c x s items + passes c x u it
unfolding count_passes get_or
count_passes-set c x s i u it [] e h = absurd (omega arith)
count_passes-set c x s zero u it (y ∷ items) e h =
    let here : u ≡ s = omega arith in rw here (omega arith)
count_passes-set c x s (suc i) u it (y ∷ items) e h =
    omega (arith, count_passes-set c x (suc s) i u it items (omega arith) (omega arith))

pub passes_of_lt :
    (c x s : ℕ) (it : MapItem)
    → is_busy it ≡ true
    → dist c (it.key_hash % c) x < dist c (it.key_hash % c) s
    → passes c x s it ≡ 1
unfolding passes
passes_of_lt c x s it busy h = ground arith

module _ (mem : ℕ → List ℕ) (key : List ℕ) where
  pub copies_of_none : (items : List MapItem) → find mem key items ≡ none → copies mem key items ≡ 0
  unfolding find copies
  copies_of_none [] h = refl
  copies_of_none (it ∷ items) h = ground (arith, copies_of_none items)

pub holds-bytes_eq :
    (mem : ℕ → List ℕ) (key q : List ℕ) (it : MapItem)
    → holds mem key it ≡ true
    → holds mem q it ≡ bytes_eq key q
unfolding holds
holds-bytes_eq mem key q it = elim (Option-cases it.key_addr) [
  | inl e ↦ rw e (λ f. absurd (cc))
  | inr (a, e) ↦ rw e (λ t. rw (bytes_eq→eq (mem a) key t))
]
