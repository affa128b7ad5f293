-- ===== src/KeyTable/Release.antt =====
-- Releasing an index, as nf/maglev does it with a mapping that it gives up: the key is removed from the
-- map, and the index returned to the pool.
use klint.Base.{
  ℕ, ◌+◌, ◌≡◌, refl, true, false, none, some, List, length, bytes_eq, bytes_eq_refl, bytes_eq→eq,
  ◌==◌, ==_iff, if◌then◌else◌, Bool-cases, Option-cases, inl, inr, sym, ap, ◌∙◌, arith,
}
use klint.Map.{Map, map_get, map_remove}
use klint.Map.Get.{map_get-find}
use klint.Map.Slots.{find}
use klint.Map.Remove.{Removed, map_remove-Removed}
use klint.IndexPool.{IndexPool, time_max, stamp, index_pool_return}
use klint.IndexPool.Spec.{IsValid, entry, occupied, used_count, used_count-set}
use klint.IndexPool.Use.{index_pool_return-entry}
use klint.KeyTable.{Coherent, InUse, InUse-lt, get-indexed}
use klint.KeyTable.View.{view}
use klint.KeyTable.Store.{Store, IsStore, key_memory, last_use}
use klint.KeyTable.Claim.{gone-vacated}

-- One index less is in use.
index_pool_return-used_count :
    {pool : IndexPool} (v : IsValid pool) (k : ℕ)
    → InUse pool k
    → used_count (index_pool_return pool k).timestamps + 1 ≡ used_count pool.timestamps
unfolding index_pool_return entry
index_pool_return-used_count {pool} v k (t, e) =
    let k_lt = InUse-lt k v (t, e) in
    let put = used_count-set pool.timestamps k time_max (omega (arith, v.sized)) in
    let taken : occupied (stamp pool k) ≡ 1 = ground arith in ground (arith, put, taken)

module _ {mem : ℕ → List ℕ} {m : Map} {pool : IndexPool} (c : Coherent mem m pool) (k : ℕ)
    (in_use : InUse pool k) where
  release-Removed : Removed mem (mem k) m (map_remove mem m k)
  release-Removed =
      map_remove-Removed mem k m {value = k} c.map_valid (c.objects k) (c.indexed k in_use)

  -- The key of the index is gone, and every other key has what it had.
  pub release-find :
      (q : List ℕ)
      → find mem q (map_remove mem m k).items
        ≡ (if bytes_eq (mem k) q then none else find mem q m.items)
  release-find = release-Removed.finds

  pub release-Coherent :
      Coherent mem (map_remove mem m k) (index_pool_return pool k)
      × ((map_remove mem m k).key_size ≡ m.key_size)
  release-Coherent =
      let r = release-Removed in
      let (valid, same_size, _, returned) =
        index_pool_return-entry c.pool_valid k (InUse-lt k c.pool_valid in_use) in
      (
        record {
          map_valid = r.valid;
          pool_valid = valid;
          objects = λ a. c.objects a ∙ sym r.same_key_size;
          own_address = λ s a at. let (at', val) = r.entries s a at in val ∙ c.own_address s a at';
          stored = λ s a at.
              let (at', _) = r.entries s a at in
              let (a_lt, (t, e)) = c.stored s a at' in
              let other : (k == a) ≡ false = elim (Bool-cases (k == a)) [
                | inr differ ↦ differ
                | inl same ↦
                    absurd (gone-vacated mem k m _ r s (at ∙ ap some (sym ((==_iff k a).0 same))))
              ] in
              (omega arith, (t, returned a ∙ rw other e));
          indexed = λ j (t, e). elim (Bool-cases (k == j)) [
            | inl same ↦
                let clash : none ≡ some t = sym (returned j ∙ rw same refl) ∙ e in absurd (cc)
            | inr other ↦
                let at = c.indexed j (t, sym (returned j ∙ rw other refl) ∙ e) in
                r.finds (mem j) ∙ elim (Bool-cases (bytes_eq (mem k) (mem j))) [
                  | inl clash ↦
                      let twice : some k ≡ some j =
                        sym (c.indexed k in_use)
                        ∙ ap (λ q. find mem q m.items) (bytes_eq→eq (mem k) (mem j) clash)
                        ∙ at in
                      let same : k ≡ j = cc in absurd (ground (arith))
                  | inr keep ↦ rw keep at
                ]
          ];
          balanced =
              omega
                (arith, r.one_less, c.balanced, index_pool_return-used_count c.pool_valid k in_use);
          roomy = omega (arith, c.roomy, r.same_capacity);
        },
        r.same_key_size,
      )

-- The release of the index of a key in an array.
module _ {K : Type 0} (encode : K → List ℕ) (zero_key : K) (key_size : ℕ)
    (length-encode : (key : K) → length (encode key) ≡ key_size) where
  abbrev pub released : Store K → ℕ → Store K
  released s index = record s {
    indexes = map_remove (key_memory encode zero_key s.keys) s.indexes index;
    pool = index_pool_return s.pool index;
  }

  -- The key is in the table no more, and the others stay as they were.
  pub record Releases (s : Store K) (key : K) (s' : Store K) : Type 0 where
    pub valid : IsStore encode zero_key key_size s'
    pub same_size : s'.pool.size ≡ s.pool.size
    pub same_expiration : s'.pool.expiration_time ≡ s.pool.expiration_time
    pub gone : map_get (key_memory encode zero_key s'.keys) s'.indexes (encode key) ≡ none
    pub others :
        (q : K)
        → bytes_eq (encode key) (encode q) ≡ false
        → last_use encode zero_key s' q ≡ last_use encode zero_key s q

  pub released-Releases :
      {s : Store K} {index : ℕ} (key : K)
      → IsStore encode zero_key key_size s
      → map_get (key_memory encode zero_key s.keys) s.indexes (encode key) ≡ some index
      → Releases s key (released s index)
  unfolding view
  released-Releases {s} {index} key v got =
      let mem = key_memory encode zero_key s.keys in
      let sized : (q : K) → length (encode q) ≡ s.indexes.key_size =
        λ q. length-encode q ∙ sym v.same_key_size in
      let (own, lt, in_use) = get-indexed v.coherent (encode key) {k = index} (sized key) got in
      let (coherent, same_key) = release-Coherent v.coherent index in_use in
      let finds = release-find v.coherent index in_use in
      let (_, same_size, same_exp, returned) =
        index_pool_return-entry v.coherent.pool_valid index lt in
      record {
        valid = record {
          coherent = coherent;
          same_key_size = same_key ∙ v.same_key_size;
          key_count = v.key_count ∙ sym same_size;
        };
        same_size = same_size;
        same_expiration = same_exp;
        gone =
            map_get-find coherent.map_valid (encode key) (sized key ∙ sym same_key)
            ∙ finds (encode key)
            ∙ rw (own, bytes_eq_refl (encode key)) refl;
        others = λ q ne.
            rw (finds (encode q), own, ne)
              (elim (Option-cases (find mem (encode q) s.indexes.items)) [
                | inl absent ↦ rw absent refl
                | inr (j, at) ↦
                    let (own', _, _) =
                      get-indexed v.coherent (encode q) {k = j} (sized q)
                        (map_get-find v.coherent.map_valid (encode q) (sized q) ∙ at) in
                    rw at (
                      returned j ∙ elim (Bool-cases (index == j)) [
                        | inr differ ↦ rw differ refl
                        | inl same ↦
                            let eq : encode key ≡ encode q =
                              sym own ∙ ap mem ((==_iff index j).0 same) ∙ own' in
                            let clash : true ≡ false =
                              sym (bytes_eq_refl (encode q))
                              ∙ ap (λ x. bytes_eq x (encode q)) (sym eq)
                              ∙ ne in
                            absurd (cc)
                      ])
              ]);
      }
