-- ===== src/Dhcp/Addresses.antt =====
-- nf/dhcp_ipv4/dhcp.c: the addresses that `nf_init` prepares for clients.
use klint.Base.{
  ℕ, zero, suc, ◌+◌, ◌≤◌, ◌<◌, ◌≡◌, refl, true, false, ◌&&◌, List, length, length-set, get_or,
  get_or-set, set, ltb, leb, ◌==◌, ==_iff, if◌then◌else◌, Bool-cases, inl, inr, ◌∙◌, arith,
}
use klint.Dhcp.{Range, is_free, populate}

-- The address is left for the range from `first` on, up to `limit`.
abbrev hit : ℕ → ℕ → ℕ → ℕ
hit first limit ip = if leb first ip && ltb ip limit then 1 else 0

abbrev pub hits : Range → ℕ → ℕ → ℕ
hits range first limit =
    hit first limit range.dhcp_server_ip
    + hit first limit range.gateway_ip
    + hit first limit range.dns_server_ip

-- The entries from `index` on are free addresses from `first` on, before `limit`, each above the one
-- before; the earlier entries are old.
pub record Filled (range : Range) (first limit index : ℕ) (old new : List ℕ) : Type 0 where
  pub kept : (k : ℕ) → k < index → get_or new k 0 ≡ get_or old k 0
  pub within :
      (k : ℕ)
      → index ≤ k
      → k < range.capacity
      → (first ≤ get_or new k 0)
        × (get_or new k 0 < limit)
        × (is_free range (get_or new k 0) ≡ true)
  pub rising : (j k : ℕ) → index ≤ j → j < k → k < range.capacity → get_or new j 0 < get_or new k 0

module _ (range : Range) where
  hits-free :
      (first limit : ℕ)
      → first < limit
      → is_free range first ≡ true
      → hits range (first + 1) limit ≡ hits range first limit
  hits-free first limit lt free = ground arith

  hits-taken :
      (first limit : ℕ)
      → first < limit
      → is_free range first ≡ false
      → hits range (first + 1) limit < hits range first limit
  hits-taken first limit lt taken = ground arith

  -- An address put at the index, and the entries after it.
  put-Filled :
      (first limit index : ℕ) (old new : List ℕ)
      → index < length old
      → first < limit
      → is_free range first ≡ true
      → Filled range (first + 1) limit (index + 1) (set old index first) new
      → Filled range first limit index old new
  put-Filled first limit index old new room lt free f =
      let here : get_or new index 0 ≡ first =
        f.kept index (omega arith)
        ∙ get_or-set old index index first 0 room
        ∙ rw ((==_iff index index).1 refl) refl in
      record {
        kept =
            λ k below. f.kept k (omega arith) ∙ ground (arith, get_or-set old index k first 0 room);
        within = λ k from below. elim (Bool-cases (index == k)) [
          | inl same ↦ rw (← (==_iff index k).0 same, here) (omega arith, lt, free)
          | inr other ↦ let (a, b, c) = f.within k (ground arith) below in (omega arith, b, c)
        ];
        rising = λ j k from lt_k below. elim (Bool-cases (index == j)) [
          | inl same ↦
              let (a, _, _) = f.within k (ground arith) below in
              rw (← (==_iff index j).0 same, here) (omega arith)
          | inr other ↦ f.rising j k (ground arith) lt_k below
        ];
      }

  pub populate-Filled :
      (rounds first limit index : ℕ) (old : List ℕ)
      → first + rounds ≡ limit
      → index < range.capacity
      → length old ≡ range.capacity
      → range.capacity + hits range first limit ≤ index + rounds
      → Filled range first limit index old (populate range rounds first index old)
  unfolding populate
  populate-Filled zero first limit index old end lt sized room = absurd (omega arith)
  populate-Filled (suc rounds) first limit index old end lt sized room =
      elim (Bool-cases (is_free range first)) [
        | inr taken ↦
            let not_full : (index == range.capacity) ≡ false = ground arith in
            let f =
              populate-Filled rounds (first + 1) limit index old (omega arith) lt sized
                (omega (arith, hits-taken first limit (omega arith) taken)) in
            rw (taken, not_full)
              (record {
                kept = f.kept;
                within =
                    λ k from below. let (a, b, c) = f.within k from below in (omega arith, b, c);
                rising = f.rising;
              })
        | inl free ↦ elim (Bool-cases (index + 1 == range.capacity)) [
          | inl full ↦
              rw (free, full)
                (put-Filled first limit index old (set old index first) (omega arith) (omega arith)
                  free
                  (record {
                    kept = λ k below. refl;
                    within = λ k from below. absurd (ground arith);
                    rising = λ j k from lt_k below. absurd (ground arith);
                  }))
          | inr more ↦
              rw (free, more)
                (put-Filled first limit index old _ (omega arith) (omega arith) free (
                  populate-Filled rounds (first + 1) limit (index + 1) (set old index first)
                    (omega arith) (ground arith) (length-set old index first ∙ sized)
                    (omega (arith, hits-free first limit (omega arith) free))))
        ]
      ]
