-- ===== src/Cht/Orders.antt =====
-- env/src/structs/cht.c: the array of permutations, in which each backend has a row.
use native.Mathlib.Nat.{mod-lt, mod-eq_of_lt}
use klint.Base.{
  ℕ, zero, suc, ◌+◌, ◌*◌, ◌%◌, ◌<◌, ◌≡◌, ◌⊎◌, ◌==◌, refl, List, length, get_or, set, get_or-set,
  length-set, length-replicate, replicate, Bool-cases, inl, inr, ◌∙◌, arith,
}
use klint.Base.Pigeonhole.{same_place, place-lt}
use klint.Memory.{u16_mod}
use klint.Cht.{max_cht_height, permut, permute_row, permute_from}

-- The rounds of a nested loop that come before round j of row i.
abbrev pub Before : ℕ → ℕ → ℕ → ℕ → Type 0
Before i j row column = (row < i) ⊎ ((row ≡ i) × (column < j))

-- One round more.
pub Before-next :
    (i j row column : ℕ)
    → Before i (j + 1) row column
    → Before i j row column ⊎ ((row ≡ i) × (column ≡ j))
Before-next i j row column (inl above) = inl (inl above)
Before-next i j row column (inr (same, less)) = elim (Bool-cases (column == j)) [
  | inl here ↦ inr (same, ground arith)
  | inr there ↦ inl (inr (same, ground arith))
]

module _ (cht_height backend_capacity : ℕ) (pos : 0 < cht_height)
    (low : cht_height < max_cht_height) where
  -- The array has the places of the rounds so far.
  abbrev Holds : ℕ → ℕ → List ℕ → Type 0
  Holds i j permutations =
      (length permutations ≡ cht_height * backend_capacity)
      × ((row column : ℕ)
          → column < cht_height
          → Before i j row column
          → get_or permutations (row * cht_height + column) 0 ≡ permut cht_height row column)

  step-Holds :
      (i j : ℕ) (permutations : List ℕ)
      → i < backend_capacity
      → j < cht_height
      → Holds i j permutations
      → Holds i (j + 1) (set permutations (i * cht_height + j) (permut cht_height i j % u16_mod))
  step-Holds i j permutations i_lt j_lt (sized, holds) = (
    length-set permutations (i * cht_height + j) (permut cht_height i j % u16_mod) ∙ sized,
    λ row column column_lt before.
        let at = i * cht_height + j in
        let from = row * cht_height + column in
        let small : permut cht_height i j < cht_height = mod-lt _ {m = cht_height} pos in
        let value : permut cht_height i j % u16_mod ≡ permut cht_height i j =
          mod-eq_of_lt (omega arith) in
        let room : at < length permutations =
          omega (arith, sized, place-lt cht_height backend_capacity i j i_lt j_lt) in
        let read = get_or-set permutations at from (permut cht_height i j % u16_mod) 0 room in
        elim (Bool-cases (at == from)) [
          | inl here ↦
              let equal : at ≡ from = ground arith in
              let (row_same, column_same) =
                same_place cht_height i row j column j_lt column_lt (omega arith) in
              rw (read, here, value, row_same, column_same) refl
          | inr there ↦ elim (Before-next i j row column before) [
            | inl old ↦ rw (read, there) (holds row column column_lt old)
            | inr (row_same, column_same) ↦
                let equal : at ≡ from = rw (row_same, column_same) refl in absurd (ground arith)
          ]
        ],
  )

  permute_row-Holds :
      (i rounds j : ℕ) (permutations : List ℕ)
      → i < backend_capacity
      → j + rounds ≡ cht_height
      → Holds i j permutations
      → Holds i cht_height (permute_row cht_height i rounds j permutations)
  unfolding permute_row
  permute_row-Holds i zero j permutations i_lt end holds =
      let same : j ≡ cht_height = omega arith in rw same at holds
  permute_row-Holds i (suc rounds) j permutations i_lt end holds =
      permute_row-Holds i rounds (j + 1) _ i_lt (omega arith)
        (step-Holds i j permutations i_lt (omega arith) holds)

  permute_from-Holds :
      (rounds i : ℕ) (permutations : List ℕ)
      → i + rounds ≡ backend_capacity
      → Holds i 0 permutations
      → Holds backend_capacity 0 (permute_from cht_height rounds i permutations)
  unfolding permute_from
  permute_from-Holds zero i permutations end holds =
      let same : i ≡ backend_capacity = omega arith in rw same at holds
  permute_from-Holds (suc rounds) i permutations end holds =
      let (sized, row) =
        permute_row-Holds i cht_height 0 permutations (omega arith) (omega arith) holds in
      permute_from-Holds rounds (i + 1) _ (omega arith)
        (sized, λ r c c_lt before. row r c c_lt (in_row r c c_lt before))
    where
      in_row : (r c : ℕ) → c < cht_height → Before (i + 1) 0 r c → Before i cht_height r c
      in_row r c c_lt (inr (same, less)) = absurd (omega arith)
      in_row r c c_lt (inl less) = elim (Bool-cases (r == i)) [
        | inl here ↦ inr (ground arith, c_lt)
        | inr there ↦ inl (ground arith)
      ]

  -- The array has each backend's order of the buckets as its row.
  pub permute_from-permut :
      (row column : ℕ)
      → row < backend_capacity
      → column < cht_height
      → get_or
          (permute_from cht_height backend_capacity 0 (replicate (cht_height * backend_capacity) 0))
          (row * cht_height + column)
          0
        ≡ permut cht_height row column
  permute_from-permut row column row_lt column_lt =
      let size = cht_height * backend_capacity in
      let (_, holds) =
        permute_from-Holds backend_capacity 0 (replicate size 0) (omega arith)
          (length-replicate {A = ℕ} size 0, λ r c c_lt before. absurd (none_before r c before)) in
      holds row column column_lt (inl row_lt)
    where
      none_before : (r c : ℕ) → Before 0 0 r c → ⊥
      none_before r c (inl less) = absurd (omega arith)
      none_before r c (inr (same, less)) = absurd (omega arith)
