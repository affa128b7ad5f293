-- ===== src/KeyTable/Values.antt =====
-- The values that a network function keeps beside its keys, in an array with the same indexes: the
-- devices of nf/bridge and the buckets of nf/policer.
use klint.Base.{
  ℕ, ◌<◌, ◌≡◌, refl, ◌⊎◌, true, false, Option, none, some, List, length, get_or, get_or-set, set,
  bytes_eq, bytes_eq_refl, ◌==◌, ==_iff, Bool-cases, Option-cases, inl, inr, sym, ap, ◌∙◌,
}
use klint.Base.Options.{◌>>=◌}
use klint.Map.{map_get}
use klint.KeyTable.{get-indexed}
use klint.KeyTable.View.{WasExpired}
use klint.KeyTable.Store.{Store, Uses, key_memory, last_use}

module _ {K V : Type 0} (encode : K → List ℕ) (zero_key : K) (zero_value : V) where
  -- The value of a key, if it has one.
  abbrev pub value_of : Store K → List V → K → Option V
  value_of s values key =
      map_get (key_memory encode zero_key s.keys) s.indexes (encode key) >>= λ index.
      some (get_or values index zero_value)

  module _ (key_size : ℕ) (length-encode : (key : K) → length (encode key) ≡ key_size)
      {s s' : Store K} {time index : ℕ} {key : K}
      (u : Uses encode zero_key key_size s time index key s') (values : List V) (value : V)
      (room : index < length values) where
    -- The key that is used gets the value.
    pub Uses-value : value_of s' (set values index value) key ≡ some value
    Uses-value = rw u.found (
        ap some (
          get_or-set values index index value zero_value room
          ∙ rw ((==_iff index index).1 refl) refl))

    -- An index that another key has is not the key's.
    other_index :
        (q : K) (j : ℕ)
        → bytes_eq (encode key) (encode q) ≡ false
        → map_get (key_memory encode zero_key s'.keys) s'.indexes (encode q) ≡ some j
        → (index == j) ≡ false
    other_index q j ne got =
        let (own, _, _) =
          get-indexed u.valid.coherent (encode q) {k = j}
            (length-encode q ∙ sym u.valid.same_key_size) got in
        elim (Bool-cases (index == j)) [
          | inr differ ↦ differ
          | inl same ↦
              let eq : encode key ≡ encode q =
                sym u.own
                ∙ ap (key_memory encode zero_key s'.keys) ((==_iff index j).0 same)
                ∙ own in
              absurd (
                let clash : true ≡ false =
                  sym (bytes_eq_refl (encode q)) ∙ ap (λ x. bytes_eq x (encode q)) (sym eq) ∙ ne in
                cc)
        ]

    -- The other keys keep their values, but for one that may have expired.
    pub Uses-other_values :
        (q : K)
        → bytes_eq (encode key) (encode q) ≡ false
        → (value_of s' (set values index value) q ≡ value_of s values q)
          ⊎ ((value_of s' (set values index value) q ≡ none)
              × WasExpired time s.pool.expiration_time (last_use encode zero_key s q))
    Uses-other_values q ne = elim (u.stays q ne) [
      | inr (gone, expired) ↦ inr (rw gone refl, expired)
      | inl same ↦
          inl
            (elim (Option-cases
              (map_get (key_memory encode zero_key s.keys) s.indexes (encode q))) [
                | inl e ↦ rw (same, e) refl
                | inr (j, e) ↦
                    rw (same, e)
                      (ap some (
                        get_or-set values index j value zero_value room
                        ∙ rw (other_index q j ne (same ∙ e)) refl))
              ])
    ]
