-- ===== src/KeyTable/Fresh.antt =====
-- The tables of nf/ when a network function starts: a map from `map_with_memory` beside a pool from
-- `index_pool_alloc`, over zeroed keys.
use klint.Base.{ℕ, ◌^◌, ◌<◌, ◌≡◌, refl, none, some, List, length, bytes_eq_refl, sym, ◌∙◌, arith}
use klint.Map.{Map, item_at, map_with_memory}
use klint.Map.Slots.{holds, find, find_of_holds}
use klint.Map.Valid
use klint.Map.Alloc.{map_with_memory-IsNew}
use klint.IndexPool.{index_pool_alloc}
use klint.IndexPool.Alloc.{index_pool_alloc-IsValid}
use klint.KeyTable.{Coherent}
use klint.KeyTable.View.{view}

-- An item of a map in which nothing is found has no key.
vacant :
    (mem : ℕ → List ℕ) (m : Map)
    → Valid.IsValid mem m
    → ((key : List ℕ) → find mem key m.items ≡ none)
    → (s a : ℕ) → ¬ ((item_at m s).key_addr ≡ some a)
unfolding holds
vacant mem m v empty s a e =
    let found =
      find_of_holds mem (mem a) m.items s (rw e (bytes_eq_refl (mem a))) (v.distinct (mem a)) in
    let clash : none ≡ some (item_at m s).value = sym (empty (mem a)) ∙ found in cc

-- A new table of fewer than 2 ^ 58 keys is coherent, and has no key in view.
pub fresh_table :
    (mem : ℕ → List ℕ) (key_size size expiration_time : ℕ)
    → size < 2 ^ 58
    → ((a : ℕ) → length (mem a) ≡ key_size)
    → (m : Map) × (map_with_memory key_size size ≡ some m)
      × (m.key_size ≡ key_size)
      × Coherent mem m (index_pool_alloc size expiration_time)
      × ((key : List ℕ) → view mem m (index_pool_alloc size expiration_time) key ≡ none)
unfolding view
fresh_table mem key_size size expiration_time small sized =
    let (m, e, new) = map_with_memory-IsNew mem key_size size small in
    let (pv, same_size, _, unused, none_used) = index_pool_alloc-IsValid size expiration_time in
    (
      m,
      e,
      new.same_key_size,
      record {
        map_valid = new.valid;
        pool_valid = pv;
        objects = λ a. sized a ∙ sym new.same_key_size;
        own_address = λ s a at. absurd (vacant mem m new.valid new.empty s a at);
        stored = λ s a at. absurd (vacant mem m new.valid new.empty s a at);
        indexed = λ k (t, used). absurd (let clash : none ≡ some t = sym (unused k) ∙ used in cc);
        balanced = new.idle ∙ sym none_used;
        roomy = omega (arith, same_size, new.roomy);
      },
      λ key. rw (new.empty key) refl,
    )
