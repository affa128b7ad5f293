-- ===== src/KeyTable/View.antt =====
-- What a key table of nf/ means: for each key, the time of its last use; and what the refresh of a key's
-- index does to it.
use klint.Base.{
  ℕ, ◌<◌, ◌≡◌, refl, ◌≢◌, ◌⊎◌, true, false, Option, none, some, List, length, bytes_eq,
  bytes_eq_refl, ◌==◌, ==_iff, if◌then◌else◌, Option-cases, inl, inr, sym, ap, ◌∙◌, arith,
}
use klint.Base.Options.{◌>>=◌}
use klint.Map.{Map, map_get}
use klint.Map.Slots.{find}
use klint.Map.Get.{map_get-find}
use klint.IndexPool.{IndexPool, index_pool_refresh}
use klint.IndexPool.Spec.{entry, pool_young}
use klint.IndexPool.Use.{index_pool_refresh-entry}
use klint.KeyTable.{Coherent, IsTime, get-indexed, refresh-Coherent}

-- The time of the last use of a key.
unfoldable pub view : (ℕ → List ℕ) → Map → IndexPool → List ℕ → Option ℕ
view mem m pool key = find mem key m.items >>= entry pool

-- The key was in the table, and is no longer young.
abbrev pub WasExpired : ℕ → ℕ → Option ℕ → Type 0
WasExpired time expiration_time o =
    (t : ℕ) × (o ≡ some t) × (pool_young time expiration_time t ≡ false)

-- The second table has the key at an index with the given time; of the other keys of the table's
-- size it has what the first has, at the same indexes, but for one that may have expired.
pub record Learned (mem : ℕ → List ℕ) (m : Map) (pool : IndexPool) (key : List ℕ) (time index : ℕ)
    (mem' : ℕ → List ℕ) (m' : Map) (pool' : IndexPool) : Type 0 where
  pub coherent : Coherent mem' m' pool'
  pub same_key_size : m'.key_size ≡ m.key_size
  pub same_size : pool'.size ≡ pool.size
  pub same_expiration : pool'.expiration_time ≡ pool.expiration_time
  pub index_lt : index < pool'.size
  pub stored : mem' index ≡ key
  pub indexed : find mem' key m'.items ≡ some index
  pub stamped : entry pool' index ≡ some time
  pub written : (k : ℕ) → entry pool' k ≡ (if index == k then some time else entry pool k)
  pub stays :
      (q : List ℕ)
      → length q ≡ m.key_size
      → bytes_eq key q ≡ false
      → (find mem' q m'.items ≡ find mem q m.items)
        ⊎ ((find mem' q m'.items ≡ none) × WasExpired time pool.expiration_time (view mem m pool q))
  pub others :
      (q : List ℕ)
      → length q ≡ m.key_size
      → bytes_eq key q ≡ false
      → (view mem' m' pool' q ≡ view mem m pool q)
        ⊎ ((view mem' m' pool' q ≡ none) × WasExpired time pool.expiration_time (view mem m pool q))

-- What was learned is in view.
pub Learned-view :
    {mem mem' : ℕ → List ℕ} {m m' : Map} {pool pool' : IndexPool} {key : List ℕ} {time index : ℕ}
    → Learned mem m pool key time index mem' m' pool'
    → view mem' m' pool' key ≡ some time
unfolding view
Learned-view l = rw l.indexed l.stamped

module _ {mem : ℕ → List ℕ} {m : Map} {pool : IndexPool} (c : Coherent mem m pool) where
  -- A key in view is at an index whose key it is.
  pub view-some :
      (key : List ℕ) {t : ℕ}
      → length key ≡ m.key_size
      → view mem m pool key ≡ some t
      → (k : ℕ) × (map_get mem m key ≡ some k)
        × (mem k ≡ key)
        × (k < pool.size)
        × (entry pool k ≡ some t)
  unfolding view
  view-some key {t} sized seen = elim (Option-cases (find mem key m.items)) [
    | inl e ↦ absurd (let no_view : none ≡ some t = rw e at seen in cc)
    | inr (k, e) ↦
        let got : map_get mem m key ≡ some k = map_get-find c.map_valid key sized ∙ e in
        let (own, lt, _) = get-indexed c key {k = k} sized got in (k, got, own, lt, rw e at seen)
  ]

  -- A lookup that finds an index finds a key in view, whose time the index has.
  pub map_get-view :
      (key : List ℕ) (k : ℕ)
      → length key ≡ m.key_size
      → map_get mem m key ≡ some k
      → view mem m pool key ≡ entry pool k
  unfolding view
  map_get-view key k sized got =
      let e : find mem key m.items ≡ some k = sym (map_get-find c.map_valid key sized) ∙ got in
      rw e refl

  pub map_get-view-none :
      (key : List ℕ)
      → length key ≡ m.key_size
      → map_get mem m key ≡ none
      → view mem m pool key ≡ none
  unfolding view
  map_get-view-none key sized got =
      let e : find mem key m.items ≡ none = sym (map_get-find c.map_valid key sized) ∙ got in
      rw e refl

  -- A key that is not in view has no index.
  pub view-none :
      (key : List ℕ)
      → length key ≡ m.key_size
      → view mem m pool key ≡ none
      → map_get mem m key ≡ none
  view-none key sized unseen = elim (Option-cases (map_get mem m key)) [
    | inl absent ↦ absent
    | inr (k, got) ↦
        let (_, _, (t, used)) = get-indexed c key {k = k} sized got in
        let clash : none ≡ some t = sym unseen ∙ map_get-view key k sized got ∙ used in cc
  ]

  -- Refreshing the index that a lookup has found.
  pub refresh-Learned :
      (key : List ℕ) (k time : ℕ)
      → length key ≡ m.key_size
      → IsTime time
      → map_get mem m key ≡ some k
      → Learned mem m pool key time k mem m (index_pool_refresh pool time k)
  unfolding view
  refresh-Learned key k time sized real got =
      let (own, lt, in_use) = get-indexed c key {k = k} sized got in
      let (_, same_size, same_exp, written) =
        index_pool_refresh-entry c.pool_valid time k real lt in
      let e : find mem key m.items ≡ some k = sym (map_get-find c.map_valid key sized) ∙ got in
      record {
        coherent = refresh-Coherent c k time real in_use;
        same_key_size = refl;
        same_size = same_size;
        same_expiration = same_exp;
        index_lt = omega arith;
        stored = own;
        indexed = e;
        stamped = written k ∙ rw ((==_iff k k).1 refl) refl;
        written = written;
        stays = λ q q_sized ne. inl refl;
        others = λ q q_sized ne. inl (elim (Option-cases (find mem q m.items)) [
          | inl absent ↦ rw absent refl
          | inr (j, at) ↦
              let (own', _, _) =
                get-indexed c q {k = j} q_sized (map_get-find c.map_valid q q_sized ∙ at) in
              let differ : k ≢ j = λ same.
                let eq : key ≡ q = sym own ∙ ap mem same ∙ own' in
                let contra : true ≡ false =
                  sym (bytes_eq_refl q) ∙ ap (λ x. bytes_eq x q) (sym eq) ∙ ne in
                cc in
              rw at (written j ∙ rw (k_ne k j differ) refl)
        ]);
      }
    where
      k_ne : (a b : ℕ) → a ≢ b → (a == b) ≡ false
      k_ne a b h = ground arith
