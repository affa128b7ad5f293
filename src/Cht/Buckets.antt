-- ===== src/Cht/Buckets.antt =====
-- env/src/structs/cht.c: the filling of the table, as the lists of the buckets.
use klint.Base.{
  ℕ, ◌+◌, ◌*◌, ◌<◌, ◌≡◌, ◌≢◌, ◌⊎◌, ◌==◌, length, get_or, set, get_or-set, Bool-cases, inl, inr, sym,
  ◌∙◌, arith,
}
use klint.Base.Pigeonhole.{
  IsInjective, IsBelow, extended, extended_self, extended_lt, same_place, place-lt,
}
use klint.Cht.{permut, Filling}
use klint.Cht.Orders.{Before}

-- How many backends a bucket has, and the backend at a place of its list.
abbrev pub count : Filling → ℕ → ℕ
count filling bucket = get_or filling.next bucket 0

abbrev pub entry : ℕ → Filling → ℕ → ℕ → ℕ
entry backend_capacity filling bucket priority =
    get_or filling.table_data (backend_capacity * bucket + priority) 0

-- What holds of the lists before round j of row i: they hold different backends, those of the
-- rounds so far.
pub record IsFilled (cht_height backend_capacity i j : ℕ) (filling : Filling) : Type 0 where
  pub sized : length filling.table_data ≡ cht_height * backend_capacity
  pub counted : length filling.next ≡ cht_height
  pub below :
      (b : ℕ)
      → b < cht_height
      → IsBelow (count filling b) (entry backend_capacity filling b) backend_capacity
  pub distinct :
      (b : ℕ) → b < cht_height → IsInjective (count filling b) (entry backend_capacity filling b)
  pub source :
      (b p : ℕ)
      → b < cht_height
      → p < count filling b
      → (row : ℕ) × (row < cht_height)
        × Before i j row (entry backend_capacity filling b p)
        × (permut cht_height (entry backend_capacity filling b p) row ≡ b)
  pub complete :
      (row column : ℕ)
      → row < cht_height
      → column < backend_capacity
      → Before i j row column
      → (p : ℕ) × (p < count filling (permut cht_height column row))
        × (entry backend_capacity filling (permut cht_height column row) p ≡ column)

-- A write at the end of a bucket's list.
abbrev pub pushed : ℕ → ℕ → ℕ → Filling → Filling
pushed backend_capacity b j filling = record {
  table_data = set filling.table_data (backend_capacity * b + count filling b) j;
  next = set filling.next b (count filling b + 1);
}

module _ (cht_height backend_capacity b j : ℕ) (filling : Filling) (b_lt : b < cht_height)
    (sized : length filling.table_data ≡ cht_height * backend_capacity)
    (counted : length filling.next ≡ cht_height) (room : count filling b < backend_capacity) where
  in_table : backend_capacity * b + count filling b < length filling.table_data
  in_table =
      omega (arith, sized, place-lt backend_capacity cht_height b (count filling b) b_lt room)

  pub count_self : count (pushed backend_capacity b j filling) b ≡ count filling b + 1
  count_self =
      let read = get_or-set filling.next b b (count filling b + 1) 0 (omega arith) in
      ground (arith, read)

  pub count_other :
      (b' : ℕ) → b ≢ b' → count (pushed backend_capacity b j filling) b' ≡ count filling b'
  count_other b' other =
      let read = get_or-set filling.next b b' (count filling b + 1) 0 (omega arith) in
      ground (arith, read)

  pub entry_new :
      entry backend_capacity (pushed backend_capacity b j filling) b (count filling b) ≡ j
  entry_new =
      let at = backend_capacity * b + count filling b in
      let read = get_or-set filling.table_data at at j 0 in_table in ground (arith, read)

  pub entry_old :
      (b' p : ℕ)
      → p < backend_capacity
      → (b ≢ b') ⊎ (p < count filling b)
      → entry backend_capacity (pushed backend_capacity b j filling) b' p
        ≡ entry backend_capacity filling b' p
  entry_old b' p p_lt other =
      let at = backend_capacity * b + count filling b in
      let from = backend_capacity * b' + p in
      let read = get_or-set filling.table_data at from j 0 in_table in
      let apart : at ≢ from = λ e.
        let (b_same, p_same) = same_place backend_capacity b b' (count filling b) p room p_lt e in
        elim other [ inl ne ↦ ne b_same | inr less ↦ absurd (omega arith) ] in
      ground (arith, read)

  -- The list that grows.
  pub entry-pushed :
      (p : ℕ)
      → p < count filling b + 1
      → entry backend_capacity (pushed backend_capacity b j filling) b p
        ≡ extended (count filling b) j (entry backend_capacity filling b) p
  entry-pushed p p_lt = elim (Bool-cases (p == count filling b)) [
    | inl last ↦
        let same : p ≡ count filling b = ground arith in
        rw same
          (entry_new ∙ sym (extended_self (count filling b) j (entry backend_capacity filling b)))
    | inr before ↦
        entry_old b p (ground arith) (inr (ground arith))
        ∙ sym (extended_lt (count filling b) j (entry backend_capacity filling b) p (ground arith))
  ]
