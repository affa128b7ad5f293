-- ===== src/Cht/Fill.antt =====
-- `cht_alloc` of env/src/structs/cht.c fills the table with backends.
use klint.Base.{
  ℕ, zero, suc, ◌+◌, ◌*◌, ◌%◌, ◌≤◌, ◌<◌, ◌≡◌, refl, List, length, get_or, get_or-replicate,
  get_or-set_either, length-set, length-replicate, inl, inr, ◌∙◌, arith,
}
use klint.Memory.{u64_mod, u16_mod}
use klint.Cht.{Filling, place, fill_row, fill_from, cht_alloc}

module _ (cht_height backend_capacity : ℕ) (permutations : List ℕ) where
  -- The data has a fixed length, and holds backends only.
  abbrev Good : ℕ → Filling → Type 0
  Good size filling =
      (length filling.table_data ≡ size)
      × ((k : ℕ) → get_or filling.table_data k 0 < backend_capacity)

  place-Good :
      (size i j : ℕ) (filling : Filling)
      → j < backend_capacity
      → Good size filling
      → Good size (place cht_height backend_capacity permutations i j filling)
  unfolding place
  place-Good size i j filling lt (sized, below) =
      let bucket_id = get_or permutations (j * cht_height + i) 0 in
      let at = (backend_capacity * bucket_id + get_or filling.next bucket_id 0) % u64_mod in
      (
        length-set filling.table_data at (j % u16_mod) ∙ sized,
        λ k. elim (get_or-set_either filling.table_data at (j % u16_mod) k 0) [
          | inl new ↦ omega (arith, new)
          | inr old ↦ omega (arith, old, below k)
        ],
      )

  fill_row-Good :
      (size i rounds j : ℕ) (filling : Filling)
      → j + rounds ≤ backend_capacity
      → Good size filling
      → Good size (fill_row cht_height backend_capacity permutations i rounds j filling)
  unfolding fill_row
  fill_row-Good size i zero j filling le good = good
  fill_row-Good size i (suc rounds) j filling le good =
      fill_row-Good size i rounds (j + 1)
        (place cht_height backend_capacity permutations i j filling) (omega arith)
        (place-Good size i j filling (omega arith) good)

  fill_from-Good :
      (size rounds i : ℕ) (filling : Filling)
      → Good size filling
      → Good size (fill_from cht_height backend_capacity permutations rounds i filling)
  unfolding fill_from
  fill_from-Good size zero i filling good = good
  fill_from-Good size (suc rounds) i filling good =
      fill_from-Good size rounds (i + 1)
        (fill_row cht_height backend_capacity permutations i backend_capacity 0 filling)
        (fill_row-Good size i backend_capacity 0 filling (omega arith) good)

-- For one backend or more cht_alloc returns a table of the given height and capacity, with a list
-- of that capacity for each bucket, in which every entry is the number of a backend.
pub cht_alloc-table_data :
    (cht_height backend_capacity : ℕ)
    → 0 < backend_capacity
    → let cht = cht_alloc cht_height backend_capacity in
      (cht.height ≡ cht_height)
      × (cht.backend_capacity ≡ backend_capacity)
      × (length cht.table_data ≡ cht_height * backend_capacity)
      × ((k : ℕ) → get_or cht.table_data k 0 < backend_capacity)
unfolding cht_alloc
cht_alloc-table_data cht_height backend_capacity pos =
    let size = cht_height * backend_capacity in
    let (sized, below) =
      fill_from-Good cht_height backend_capacity _ size cht_height 0 _
        (length-replicate size 0, λ k. omega (arith, get_or-replicate {A = ℕ} size k 0)) in
    (refl, refl, sized, below)
