-- ===== src/Map/Get.antt =====
-- `map_get` of env/src/structs/map.c finds what a plain scan of all items finds.
use klint.Base.{
  ℕ, zero, suc, ◌+◌, ◌%◌, ◌<◌, ◌≡◌, inl, inr, false, ◌&&◌, Bool-cases, List, length, ltb, ◌==◌,
  none, arith, sym,
}
use klint.Memory.{memory_hash}
use klint.Map.{Map, item_at, is_busy, get_from, map_get}
use klint.Map.Capacity.{dist, wrap, dist-lt, dist-wrap}
use klint.Map.Slots.{holds, find, find-none, find_of_holds, passes, passes-le-count, passes_of_lt}
use klint.Map.Valid.{IsValid, Seen, Seen-step, probe, same_key-holds, holds-hash}

module _ {mem : ℕ → List ℕ} {m : Map} (v : IsValid mem m) (key : List ℕ)
    (sized : length key ≡ m.key_size) where
  abbrev hash : ℕ
  hash = memory_hash key m.key_size

  abbrev home : ℕ
  home = hash % m.capacity

  abbrev Misses : ℕ → Type 0
  Misses s = holds mem key (item_at m s) ≡ false

  -- A chain of zero at probe i: no item further on holds the key.
  chain_ends :
      (i : ℕ)
      → i < m.capacity
      → Seen Misses m.capacity home (i + 1)
      → (item_at m (wrap m.capacity home i)).chain ≡ 0
      → (s : ℕ) → s < m.capacity
      → Misses s
  chain_ends i h seen zero_chain s lt = elim (Bool-cases (holds mem key (item_at m s))) [
    | inr miss ↦ miss
    | inl found ↦ elim (Bool-cases (ltb (dist m.capacity home s) (i + 1))) [
      | inl near ↦ seen s lt (ground arith)
      | inr far ↦
          let (_, x_lt, home_lt) = probe v hash i h in
          let (busy, same_hash) = holds-hash v key sized s found in
          let there : dist m.capacity home (wrap m.capacity home i) ≡ i =
            dist-wrap m.capacity home i home_lt h in
          let passed : passes m.capacity (wrap m.capacity home i) s (item_at m s) ≡ 1 =
            passes_of_lt m.capacity _ s (item_at m s) busy (rw (same_hash, there) (ground arith)) in
          absurd (
            omega (
              arith,
              passed,
              v.counted (wrap m.capacity home i) x_lt,
              passes-le-count m.capacity (wrap m.capacity home i) 0 s s m.items (omega arith),
            ))
    ]
  ]

  other-Misses :
      (s : ℕ) → (is_busy (item_at m s) && (item_at m s).key_hash == hash) ≡ false → Misses s
  other-Misses s other = elim (Bool-cases (holds mem key (item_at m s))) [
    | inr miss ↦ miss
    | inl found ↦ let (busy, same_hash) = holds-hash v key sized s found in ground arith
  ]

  scan-Misses : ((s : ℕ) → s < m.capacity → Misses s) → find mem key m.items ≡ none
  scan-Misses misses = find-none mem key m.items (λ s lt. misses s (omega (arith, v.sized)))

  get_from-find :
      (rounds i : ℕ)
      → i + rounds ≡ m.capacity
      → Seen Misses m.capacity home i
      → get_from mem m key hash rounds i ≡ find mem key m.items
  unfolding get_from
  get_from-find zero i e seen =
      sym
        (scan-Misses λ s lt. seen s lt (omega (arith, dist-lt m.capacity home s (omega arith) lt)))
  get_from-find (suc rounds) i e seen =
      let (at, x_lt, home_lt) = probe v hash i (omega arith) in
      let x = wrap m.capacity home i in
      let it = item_at m x in
      let further : Misses x → Seen Misses m.capacity home (i + 1) =
        Seen-step Misses m.capacity home i home_lt seen in
      rw at (elim (Bool-cases (is_busy it && it.key_hash == hash)) [
        | inl hit ↦ elim (Bool-cases (holds mem key it)) [
          | inl found ↦
              rw (hit, same_key-holds v key sized x, found)
                (sym (find_of_holds mem key m.items x found (v.distinct key)))
          | inr miss ↦
              rw (hit, same_key-holds v key sized x, miss)
                (get_from-find rounds (i + 1) (omega arith) (further miss))
        ]
        | inr other ↦
            let miss : Misses x = other-Misses x other in
            elim (Bool-cases (it.chain == 0)) [
              | inl end ↦
                  rw (other, end)
                    (sym (scan-Misses (chain_ends i (omega arith) (further miss) (ground arith))))
              | inr more ↦
                  rw (other, more) (get_from-find rounds (i + 1) (omega arith) (further miss))
            ]
      ])

  -- On a valid map, for a key of the map's size, map_get with its probing and its chain counts
  -- returns what a plain scan of all the items finds, and false exactly when no item holds the key.
  pub map_get-find : map_get mem m key ≡ find mem key m.items
  unfolding map_get
  map_get-find = get_from-find m.capacity 0 (omega arith) (λ s lt near. absurd (omega arith))
