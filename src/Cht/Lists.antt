-- ===== src/Cht/Lists.antt =====
-- env/src/structs/cht.c: for a prime height the lists of `cht_alloc` hold every backend once.
use native.Mathlib.Nat.{mod-lt, mod-eq_of_lt, mul-le-mul}
use klint.Base.{
  ℕ, zero, suc, ◌+◌, ◌*◌, ◌%◌, ◌≤◌, ◌<◌, ◌≡◌, ◌==◌, refl, List, get_or, get_or-replicate,
  length-replicate, replicate, Bool-cases, inl, inr, sym, ap, ◌∙◌, arith,
}
use klint.Base.Pigeonhole.{IsInjective, onto, covering, pigeonhole}
use klint.Memory.{u64_mod, u16_mod}
use klint.Cht.{max_cht_height, permut, Filling, place, fill_row, fill_from, cht_alloc, candidate}
use klint.Cht.Permute.{IsPrime, permut-distinct}
use klint.Cht.Orders.{Before, permute_from-permut}
use klint.Cht.Buckets.{count, entry, IsFilled, pushed}
use klint.Cht.Filled.{bucket-lt, room, pushed-IsFilled}

module _ (cht_height backend_capacity : ℕ) (prime : IsPrime cht_height)
    (low : cht_height < max_cht_height) (fits : backend_capacity ≤ cht_height) where
  module _ (permutations : List ℕ)
      (orders : (row column : ℕ)
        → row < backend_capacity
        → column < cht_height
        → get_or permutations (row * cht_height + column) 0 ≡ permut cht_height row column) where
    -- Nothing wraps around in a round.
    place-pushed :
        (i j : ℕ) (filling : Filling)
        → i < cht_height
        → j < backend_capacity
        → IsFilled cht_height backend_capacity i j filling
        → place cht_height backend_capacity permutations i j filling
          ≡ pushed backend_capacity (permut cht_height j i) j filling
    unfolding place
    place-pushed i j filling i_lt j_lt f =
        let b = permut cht_height j i in
        let b_lt : b < cht_height =
          bucket-lt cht_height backend_capacity prime low fits i j i_lt j_lt filling f in
        let c_lt : count filling b < backend_capacity =
          room cht_height backend_capacity prime low fits i j i_lt j_lt filling f in
        let product : backend_capacity * b ≤ 40000 * 40000 =
          mul-le-mul {n₂ = 40000} {m₂ = 40000} (omega arith) (omega arith) in
        let at : (backend_capacity * b + count filling b) % u64_mod
            ≡ backend_capacity * b + count filling b =
          mod-eq_of_lt (omega arith) in
        let backend : j % u16_mod ≡ j = mod-eq_of_lt (omega arith) in
        let more : (count filling b + 1) % u64_mod ≡ count filling b + 1 =
          mod-eq_of_lt (omega arith) in
        rw (orders j i j_lt i_lt, at, backend, more) refl

    fill_row-IsFilled :
        (i rounds j : ℕ) (filling : Filling)
        → i < cht_height
        → j + rounds ≡ backend_capacity
        → IsFilled cht_height backend_capacity i j filling
        → IsFilled cht_height backend_capacity i backend_capacity
            (fill_row cht_height backend_capacity permutations i rounds j filling)
    unfolding fill_row
    fill_row-IsFilled i zero j filling i_lt end f =
        let same : j ≡ backend_capacity = omega arith in rw same at f
    fill_row-IsFilled i (suc rounds) j filling i_lt end f =
        let j_lt : j < backend_capacity = omega arith in
        let step = place-pushed i j filling i_lt j_lt f in
        fill_row-IsFilled i rounds (j + 1) _ i_lt (omega arith) (
          rw step
            (pushed-IsFilled cht_height backend_capacity prime low fits i j i_lt j_lt filling f))

    -- A row that is done.
    row-IsFilled :
        (i : ℕ) (filling : Filling)
        → IsFilled cht_height backend_capacity i backend_capacity filling
        → IsFilled cht_height backend_capacity (i + 1) 0 filling
    row-IsFilled i filling f = record {
      sized = f.sized;
      counted = f.counted;
      below = f.below;
      distinct = f.distinct;
      source = λ b p b_lt p_lt.
          let (row, row_lt, before, at) = f.source b p b_lt p_lt in
          (
            row,
            row_lt,
            inl (elim before [ inl less ↦ omega arith | inr (same, _) ↦ omega arith ]),
            at,
          );
      complete = λ row column row_lt column_lt before.
          f.complete row column row_lt column_lt (in_row row column column_lt before);
    }
      where
        in_row :
            (r c : ℕ) → c < backend_capacity → Before (i + 1) 0 r c → Before i backend_capacity r c
        in_row r c c_lt (inr (same, less)) = absurd (omega arith)
        in_row r c c_lt (inl less) = elim (Bool-cases (r == i)) [
          | inl here ↦ inr (ground arith, c_lt)
          | inr there ↦ inl (ground arith)
        ]

    fill_from-IsFilled :
        (rounds i : ℕ) (filling : Filling)
        → i + rounds ≡ cht_height
        → IsFilled cht_height backend_capacity i 0 filling
        → IsFilled cht_height backend_capacity cht_height 0
            (fill_from cht_height backend_capacity permutations rounds i filling)
    unfolding fill_from
    fill_from-IsFilled zero i filling end f =
        let same : i ≡ cht_height = omega arith in rw same at f
    fill_from-IsFilled (suc rounds) i filling end f =
        fill_from-IsFilled rounds (i + 1) _ (omega arith) (
          row-IsFilled i _
            (fill_row-IsFilled i backend_capacity 0 filling (omega arith) (omega arith) f))

  abbrev start : Filling
  start = record {
    table_data = replicate (cht_height * backend_capacity) 0;
    next = replicate cht_height 0;
  }

  start-IsFilled : IsFilled cht_height backend_capacity 0 0 start
  start-IsFilled = record {
    sized = length-replicate {A = ℕ} _ 0;
    counted = length-replicate {A = ℕ} _ 0;
    below = λ b b_lt p p_lt. absurd (omega (arith, empty b));
    distinct = λ b b_lt x y less lt. absurd (omega (arith, empty b));
    source = λ b p b_lt p_lt. absurd (omega (arith, empty b));
    complete = λ row column row_lt column_lt before. absurd (none_before row column before);
  }
    where
      empty : (b : ℕ) → count start b ≡ 0
      empty b = get_or-replicate {A = ℕ} cht_height b 0

      none_before : (r c : ℕ) → Before 0 0 r c → ⊥
      none_before r c (inl less) = absurd (omega arith)
      none_before r c (inr (same, less)) = absurd (omega arith)

  -- cht_alloc runs through all rounds.
  filled :
      (filling : Filling) × IsFilled cht_height backend_capacity cht_height 0 filling
      × ((cht_alloc cht_height backend_capacity).table_data ≡ filling.table_data)
  unfolding cht_alloc
  filled = (
    _,
    fill_from-IsFilled _
        (permute_from-permut cht_height backend_capacity (omega (arith, prime.0)) low) cht_height 0
        start (omega arith) start-IsFilled,
    refl,
  )

  -- For a prime height below MAX_CHT_HEIGHT and no more backends than the height, the list that
  -- cht_alloc gives to each bucket holds every backend exactly once.
  pub cht_alloc-Lists :
      (bucket : ℕ)
      → bucket < cht_height
      → let backend_at =
          candidate (cht_alloc cht_height backend_capacity) (bucket * backend_capacity) in
        IsInjective backend_capacity backend_at
        × ((backend : ℕ)
            → backend < backend_capacity
            → (k : ℕ) × (k < backend_capacity) × (backend_at k ≡ backend))
  cht_alloc-Lists bucket bucket_lt =
      let (filling, f, table) = filled in
      let backend_at =
        candidate (cht_alloc cht_height backend_capacity) (bucket * backend_capacity) in
      let same : (k : ℕ) → backend_at k ≡ entry backend_capacity filling bucket k = λ k.
        ap (λ (t : List ℕ). get_or t (bucket * backend_capacity + k) 0) table
        ∙ ap (λ (x : ℕ). get_or filling.table_data x 0) (omega arith) in
      let listed : (backend : ℕ)
          → backend < backend_capacity
          → (k : ℕ) × (k < count filling bucket)
            × (entry backend_capacity filling bucket k ≡ backend) =
        λ backend lt.
          let (row, row_lt, at) =
            onto cht_height (permut cht_height backend)
              (permut-distinct cht_height prime low backend (omega arith))
              (λ x x_lt. mod-lt _ {m = cht_height} (omega arith)) bucket bucket_lt in
          let (k, k_lt, entry_same) = f.complete row backend row_lt lt (inl row_lt) in
          let k_lt' : k < count filling bucket = rw at at k_lt in
          let entry_same' : entry backend_capacity filling bucket k ≡ backend =
            rw at at entry_same in
          (k, k_lt', entry_same') in
      let most : count filling bucket ≤ backend_capacity =
        pigeonhole _ _ (entry backend_capacity filling bucket) (f.distinct bucket bucket_lt)
          (f.below bucket bucket_lt) in
      let least : backend_capacity ≤ count filling bucket =
        covering _ _ (entry backend_capacity filling bucket) listed in
      (
        λ x y less lt e.
            f.distinct bucket bucket_lt x y less (omega arith) (sym (same x) ∙ e ∙ same y),
        λ backend lt. let (k, k_lt, at) = listed backend lt in (k, omega arith, same k ∙ at),
      )
