-- ===== src/KeyTable/Learn.antt =====
-- What the claim of an index for a new key does to a key table of nf/.
use klint.Base.{
  ℕ, ◌≡◌, refl, ◌⊎◌, Bool, true, false, ◌&&◌, none, some, List, length, bytes_eq, bytes_eq_refl,
  bytes_eq→eq, ◌==◌, ==_iff, if◌then◌else◌, Bool-cases, Option-cases, inl, inr, sym, ap, ◌∙◌, arith,
}
use klint.Base.Options.{◌>>=◌}
use klint.Map.{Map, map_get, map_set}
use klint.Map.Slots.{find}
use klint.Map.Get.{map_get-find}
use klint.IndexPool.{IndexPool}
use klint.IndexPool.Spec.{entry}
use klint.IndexPool.Borrow.{BorrowContract, WasAvailable}
use klint.KeyTable.{Coherent, get-indexed}
use klint.KeyTable.Claim.{evicted, Rewrites, claim-Coherent, claim-find, claimed-key_size}
use klint.KeyTable.View.{view, WasExpired, Learned}

-- A key at the index that a borrow has given is the one that was thrown out.
evicted-clash :
    {mem : ℕ → List ℕ} {m : Map} {pool : IndexPool} (c : Coherent mem m pool) (q : List ℕ)
    (k j time : ℕ) (used : Bool)
    → length q ≡ m.key_size
    → (used && bytes_eq (mem k) q) ≡ false
    → find mem q m.items ≡ some j
    → k ≡ j
    → ¬ (WasAvailable pool time k used)
evicted-clash {mem} c q k j time true q_sized stays at same avail =
    let (own, _, _) = get-indexed c q {k = j} q_sized (map_get-find c.map_valid q q_sized ∙ at) in
    let eq : mem k ≡ q = ap mem same ∙ own in
    let contra : true ≡ false = sym (bytes_eq_refl q) ∙ ap (λ x. bytes_eq x q) (sym eq) ∙ stays in
    cc
evicted-clash {pool} c q k j time false q_sized stays at same free =
    let (_, _, (t, e)) =
      get-indexed c q {k = j} q_sized (map_get-find c.map_valid q q_sized ∙ at) in
    let contra : none ≡ some t = sym free ∙ ap (entry pool) same ∙ e in cc

-- Claiming the index that a borrow has given, for a key that the table does not have.
module _ {mem : ℕ → List ℕ} {m : Map} {pool : IndexPool} (c : Coherent mem m pool) (time : ℕ)
    (key : List ℕ) (sized : length key ≡ m.key_size) (got : map_get mem m key ≡ none)
    (pool' : IndexPool) (k : ℕ) (used : Bool)
    (contract : BorrowContract pool time (pool', some (k, used))) (mem' : ℕ → List ℕ)
    (writes : Rewrites mem mem' k key) where
  absent : find mem key m.items ≡ none
  absent = sym (map_get-find c.map_valid key sized) ∙ got

  abbrev claimed : Map
  claimed = map_set mem' (evicted mem m k used) k k

  claim_find :
      (q : List ℕ)
      → find mem' q claimed.items ≡ (
          if bytes_eq key q
          then some k
          else if used && bytes_eq (mem k) q
          then none
          else find mem q m.items)
  claim_find = claim-find c time key sized absent pool' k used contract mem' writes

  -- The key that is thrown out was in view and expired.
  evicted_expired :
      (q : List ℕ)
      → (used && bytes_eq (mem k) q) ≡ true
      → WasAvailable pool time k used
      → WasExpired time pool.expiration_time (view mem m pool q)
  unfolding view
  evicted_expired q h avail = go used h avail
    where
      go :
          (b : Bool)
          → (b && bytes_eq (mem k) q) ≡ true
          → WasAvailable pool time k b
          → WasExpired time pool.expiration_time (find mem q m.items >>= entry pool)
      go true h (t, e, old) =
          let at : find mem q m.items ≡ some k =
            ap (λ x. find mem x m.items) (sym (bytes_eq→eq (mem k) q h)) ∙ c.indexed k (t, e) in
          (t, rw at e, old)
      go false h avail = absurd (cc)

  claim_others :
      (q : List ℕ)
      → length q ≡ m.key_size
      → bytes_eq key q ≡ false
      → (view mem' claimed pool' q ≡ view mem m pool q)
        ⊎ ((view mem' claimed pool' q ≡ none)
            × WasExpired time pool.expiration_time (view mem m pool q))
  unfolding view
  claim_others q q_sized ne =
      let (_, k_lt, avail, _, _, written, _) = contract in
      elim (Bool-cases (used && bytes_eq (mem k) q)) [
        | inl out ↦
            inr (rw (claim_find q, ne, out) refl, unfold view in evicted_expired q out avail)
        | inr stays ↦ inl (
            rw (claim_find q, ne, stays)
              (elim (Option-cases (find mem q m.items)) [
                | inl e ↦ rw e refl
                | inr (j, at) ↦ rw at (
                    written j ∙ elim (Bool-cases (k == j)) [
                      | inr differ ↦ rw differ refl
                      | inl same ↦
                          absurd
                            (evicted-clash c q k j time used q_sized stays at (ground arith) avail)
                    ])
              ]))
      ]

  claim_stays :
      (q : List ℕ)
      → length q ≡ m.key_size
      → bytes_eq key q ≡ false
      → (find mem' q claimed.items ≡ find mem q m.items)
        ⊎ ((find mem' q claimed.items ≡ none)
            × WasExpired time pool.expiration_time (view mem m pool q))
  claim_stays q q_sized ne =
      let (_, _, avail, _, _, _, _) = contract in
      elim (Bool-cases (used && bytes_eq (mem k) q)) [
        | inl out ↦ inr (rw (claim_find q, ne, out) refl, evicted_expired q out avail)
        | inr kept ↦ inl (rw (claim_find q, ne, kept) refl)
      ]

  pub claim-Learned : Learned mem m pool key time k mem' claimed pool'
  claim-Learned =
      let (_, k_lt, _, same_size, same_exp, written, _) = contract in
      record {
        coherent = claim-Coherent c time key sized absent pool' k used contract mem' writes;
        same_key_size = claimed-key_size c time key sized absent pool' k used contract mem' writes;
        same_size = same_size;
        same_expiration = same_exp;
        index_lt = omega arith;
        stored = writes.here;
        indexed = claim_find key ∙ rw (bytes_eq_refl key) refl;
        stamped = written k ∙ rw ((==_iff k k).1 refl) refl;
        written = written;
        stays = claim_stays;
        others = claim_others;
      }
