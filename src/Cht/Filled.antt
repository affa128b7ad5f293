-- ===== src/Cht/Filled.antt =====
-- env/src/structs/cht.c: each round of the filling puts a backend at the end of a list that does not
-- have it yet, so that no list outgrows its place in the table.
use native.Mathlib.Nat.{mod-lt}
use klint.Base.{
  ℕ, suc, ◌+◌, ◌≤◌, ◌<◌, ◌≡◌, ◌≢◌, ◌⊎◌, ◌==◌, refl, length-set, true, false, Bool-cases, inl, inr,
  ◌∙◌, arith,
}
use klint.Base.Pigeonhole.{
  IsInjective, IsBelow, pigeonhole, extended, extended-IsInjective, extended-IsBelow,
  transfer-IsInjective,
}
use klint.Cht.{max_cht_height, permut, Filling}
use klint.Cht.Permute.{IsPrime, permut-distinct}
use klint.Cht.Orders.{Before, Before-next}
use klint.Cht.Buckets.{
  count, entry, IsFilled, pushed, count_self, count_other, entry_new, entry_old, entry-pushed,
}

module _ (cht_height backend_capacity : ℕ) (prime : IsPrime cht_height)
    (low : cht_height < max_cht_height) (fits : backend_capacity ≤ cht_height) (i j : ℕ)
    (i_lt : i < cht_height) (j_lt : j < backend_capacity) (filling : Filling)
    (f : IsFilled cht_height backend_capacity i j filling) where
  abbrev bucket : ℕ
  bucket = permut cht_height j i

  abbrev next : Filling
  next = pushed backend_capacity bucket j filling

  pub bucket-lt : bucket < cht_height
  bucket-lt = mod-lt _ {m = cht_height} (omega arith)

  fresh : (p : ℕ) → p < count filling bucket → entry backend_capacity filling bucket p ≢ j
  fresh p p_lt same =
      let (row, row_lt, before, at) = f.source bucket p bucket-lt p_lt in
      elim before [
        | inl less ↦
            let at' : permut cht_height j row ≡ bucket = rw same at at in
            permut-distinct cht_height prime low j (omega arith) row i less i_lt at'
        | inr (_, less) ↦ absurd (omega arith)
      ]

  abbrev list : ℕ → ℕ
  list = extended (count filling bucket) j (entry backend_capacity filling bucket)

  list-IsInjective : IsInjective (suc (count filling bucket)) list
  list-IsInjective =
      extended-IsInjective (count filling bucket) j (entry backend_capacity filling bucket)
        (f.distinct bucket bucket-lt) fresh

  list-IsBelow : IsBelow (suc (count filling bucket)) list backend_capacity
  list-IsBelow =
      extended-IsBelow (count filling bucket) j (entry backend_capacity filling bucket)
        backend_capacity (f.below bucket bucket-lt) j_lt

  pub room : count filling bucket < backend_capacity
  room = pigeonhole (suc (count filling bucket)) backend_capacity list list-IsInjective list-IsBelow

  count_le : (b : ℕ) → b < cht_height → count filling b ≤ backend_capacity
  count_le b b_lt =
      pigeonhole (count filling b) backend_capacity (entry backend_capacity filling b)
        (f.distinct b b_lt) (f.below b b_lt)

  grown : count next bucket ≡ suc (count filling bucket)
  grown = omega (
    arith,
    count_self cht_height backend_capacity bucket j filling bucket-lt f.sized f.counted room,
  )

  same_list :
      (p : ℕ) → p < suc (count filling bucket) → entry backend_capacity next bucket p ≡ list p
  same_list p p_lt =
      entry-pushed cht_height backend_capacity bucket j filling bucket-lt f.sized f.counted room p
        (omega arith)

  kept : (b : ℕ) → bucket ≢ b → count next b ≡ count filling b
  kept = count_other cht_height backend_capacity bucket j filling bucket-lt f.sized f.counted room

  same_entry :
      (b p : ℕ)
      → b < cht_height
      → p < count filling b
      → entry backend_capacity next b p ≡ entry backend_capacity filling b p
  same_entry b p b_lt p_lt =
      entry_old cht_height backend_capacity bucket j filling bucket-lt f.sized f.counted room b p
        (omega (arith, count_le b b_lt)) (here_or_not (Bool-cases (bucket == b)))
    where
      here_or_not :
          ((bucket == b) ≡ true) ⊎ ((bucket == b) ≡ false)
          → (bucket ≢ b) ⊎ (p < count filling bucket)
      here_or_not (inl here) = let same : bucket ≡ b = ground arith in inr (rw same p_lt)
      here_or_not (inr there) = inl (ground arith)

  -- A place of the new lists is an old place, or the one that was written.
  old_or_new :
      (b p : ℕ)
      → p < count next b
      → (p < count filling b) ⊎ ((b ≡ bucket) × (p ≡ count filling bucket))
  old_or_new b p p_lt = elim (Bool-cases (bucket == b)) [
    | inl here ↦
        let same : b ≡ bucket = ground arith in
        let p_lt' : p < count next bucket = rw same at p_lt in
        elim (Bool-cases (p == count filling bucket)) [
          | inl last ↦ inr (same, ground arith)
          | inr before ↦
              inl
                (rw same (let ne : p ≢ count filling bucket = ground arith in omega (arith, grown)))
        ]
    | inr there ↦ inl (omega (arith, kept b (ground arith)))
  ]

  count_grows : (b : ℕ) → count filling b ≤ count next b
  count_grows b = elim (Bool-cases (bucket == b)) [
    | inl here ↦ let same : b ≡ bucket = ground arith in rw same (omega (arith, grown))
    | inr there ↦ omega (arith, kept b (ground arith))
  ]

  later : (row column : ℕ) → Before i j row column → Before i (j + 1) row column
  later row column (inl less) = inl less
  later row column (inr (same, less)) = inr (same, omega arith)

  next-IsBelow :
      (b : ℕ)
      → b < cht_height
      → IsBelow (count next b) (entry backend_capacity next b) backend_capacity
  next-IsBelow b b_lt p p_lt = elim (old_or_new b p p_lt) [
    | inl old ↦ omega (arith, same_entry b p b_lt old, f.below b b_lt p old)
    | inr (b_same, p_same) ↦
        rw (b_same, p_same)
          (omega (
            arith,
            entry_new cht_height backend_capacity bucket j filling bucket-lt f.sized f.counted room,
          ))
  ]

  next_distinct :
      (b : ℕ) → b < cht_height → IsInjective (count next b) (entry backend_capacity next b)
  next_distinct b b_lt = elim (Bool-cases (bucket == b)) [
    | inl here ↦
        let same : b ≡ bucket = ground arith in
        let whole : IsInjective (count next bucket) (entry backend_capacity next bucket) =
          rw grown (
            transfer-IsInjective (suc (count filling bucket)) list
              (entry backend_capacity next bucket) same_list list-IsInjective) in
        rw same whole
    | inr there ↦ rw (kept b (ground arith)) (
        transfer-IsInjective (count filling b) (entry backend_capacity filling b)
          (entry backend_capacity next b) (λ p. same_entry b p b_lt) (f.distinct b b_lt))
  ]

  next_source :
      (b p : ℕ)
      → b < cht_height
      → p < count next b
      → (row : ℕ) × (row < cht_height)
        × Before i (j + 1) row (entry backend_capacity next b p)
        × (permut cht_height (entry backend_capacity next b p) row ≡ b)
  next_source b p b_lt p_lt = elim (old_or_new b p p_lt) [
    | inl old ↦
        let (row, row_lt, before, at) = f.source b p b_lt old in
        (
          row,
          row_lt,
          rw (same_entry b p b_lt old) (later row _ before),
          rw (same_entry b p b_lt old) at,
        )
    | inr (b_same, p_same) ↦
        let value =
          entry_new cht_height backend_capacity bucket j filling bucket-lt f.sized f.counted room in
        (
          i,
          i_lt,
          rw (b_same, p_same, value) (inr (refl, omega arith)),
          rw (b_same, p_same, value) refl,
        )
  ]

  next_complete :
      (row column : ℕ)
      → row < cht_height
      → column < backend_capacity
      → Before i (j + 1) row column
      → (p : ℕ) × (p < count next (permut cht_height column row))
        × (entry backend_capacity next (permut cht_height column row) p ≡ column)
  next_complete row column row_lt column_lt before = elim (Before-next i j row column before) [
    | inl old ↦
        let b = permut cht_height column row in
        let (p, p_lt, at) = f.complete row column row_lt column_lt old in
        let b_lt : b < cht_height = mod-lt _ {m = cht_height} (omega arith) in
        (p, omega (arith, count_grows b), same_entry b p b_lt p_lt ∙ at)
    | inr (row_same, column_same) ↦
        rw (row_same, column_same)
          (
            count filling bucket,
            omega (arith, grown),
            entry_new cht_height backend_capacity bucket j filling bucket-lt f.sized f.counted room,
          )
  ]

  pub pushed-IsFilled : IsFilled cht_height backend_capacity i (j + 1) next
  pushed-IsFilled = record {
    sized = length-set filling.table_data _ j ∙ f.sized;
    counted = length-set filling.next bucket _ ∙ f.counted;
    below = next-IsBelow;
    distinct = next_distinct;
    source = next_source;
    complete = next_complete;
  }
