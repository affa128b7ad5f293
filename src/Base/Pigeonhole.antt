-- ===== src/Base/Pigeonhole.antt =====
-- Functions from the numbers below a bound that never give the same value twice, and the place of a
-- number in a table of rows.
use native.Mathlib.Nat.{mul-add-div, div-eq_of_lt}
use Prim.Native.Nat.{ℕ, zero, suc, ◌+◌, ◌*◌, ◌/◌, ◌≤◌, ◌<◌}
use mathlib.Core.Path.{◌≡◌, refl, sym, ap, ◌∙◌}
use mathlib.Core.Logic.{◌≢◌, ◌⊎◌, inl, inr}
use native.Mathlib.Omega.{arith}
use klint.Base.Tests.{◌==◌, ltb, if◌then◌else◌, Bool-cases}

-- No value is taken twice below the bound.
abbrev pub IsInjective : ℕ → (ℕ → ℕ) → Type 0
IsInjective n f = (x y : ℕ) → x < y → y < n → f x ≢ f y

abbrev pub IsBelow : ℕ → (ℕ → ℕ) → ℕ → Type 0
IsBelow n f m = (x : ℕ) → x < n → f x < m

-- A value is taken below the bound, or it is not.
pub taken :
    (n : ℕ) (f : ℕ → ℕ) (v : ℕ) → ((x : ℕ) × (x < n) × (f x ≡ v)) ⊎ ((x : ℕ) → x < n → f x ≢ v)
taken zero f v = inr (λ x lt. absurd (omega arith))
taken (suc n) f v = elim (taken n f v) [
  | inl (x, lt, at) ↦ inl (x, omega arith, at)
  | inr other ↦ elim (Bool-cases (f n == v)) [
    | inl here ↦ inl (n, omega arith, ground arith)
    | inr there ↦ inr (λ x lt e. elim (Bool-cases (x == n)) [
      | inl last ↦
          let same : x ≡ n = ground arith in
          let at : f n ≡ v = rw same at e in absurd (ground arith)
      | inr less ↦ other x (ground arith) e
    ])
  ]
]

-- The same values below the bound.
pub transfer-IsInjective :
    (n : ℕ) (f g : ℕ → ℕ) → ((x : ℕ) → x < n → g x ≡ f x) → IsInjective n f → IsInjective n g
transfer-IsInjective n f g same inj x y less lt e =
    inj x y less lt (sym (same x (omega arith)) ∙ e ∙ same y lt)

pub transfer-IsBelow :
    (n m : ℕ) (f g : ℕ → ℕ) → ((x : ℕ) → x < n → g x ≡ f x) → IsBelow n f m → IsBelow n g m
transfer-IsBelow n m f g same below x lt = omega (arith, same x lt, below x lt)

-- The value at k is replaced by the last one.
abbrev moved : ℕ → ℕ → (ℕ → ℕ) → ℕ → ℕ
moved n k f x = if x == k then f n else f x

moved-IsInjective : (n k : ℕ) (f : ℕ → ℕ) → IsInjective (suc n) f → IsInjective n (moved n k f)
moved-IsInjective n k f inj x y less lt e = elim (Bool-cases (x == k)) [
  | inl here ↦ elim (Bool-cases (y == k)) [
    | inl both ↦ absurd (ground arith)
    | inr only ↦ let same : f n ≡ f y = rw (here, only) at e in inj y n lt (omega arith) (sym same)
  ]
  | inr there ↦ elim (Bool-cases (y == k)) [
    | inl only ↦
        let same : f x ≡ f n = rw (there, only) at e in inj x n (omega arith) (omega arith) same
    | inr neither ↦
        let same : f x ≡ f y = rw (there, neither) at e in inj x y less (omega arith) same
  ]
]

-- The value at k was the greatest one, and is gone.
moved-IsBelow :
    (n m k : ℕ) (f : ℕ → ℕ)
    → IsInjective (suc n) f
    → IsBelow (suc n) f (suc m)
    → k < suc n
    → f k ≡ m
    → IsBelow n (moved n k f) m
moved-IsBelow n m k f inj below k_lt at x lt = elim (Bool-cases (x == k)) [
  | inl here ↦
      let value : moved n k f x ≡ f n = rw here refl in
      let same : x ≡ k = ground arith in
      let less : f n ≢ m = λ e. inj k n (omega arith) (omega arith) (at ∙ sym e) in
      omega (arith, below n (omega arith), value, less)
  | inr there ↦
      let value : moved n k f x ≡ f x = rw there refl in
      let less : f x ≢ m = λ e. elim (Bool-cases (ltb x k)) [
        | inl before ↦ inj x k (ground arith) k_lt (e ∙ sym at)
        | inr after ↦ inj k x (ground arith) (omega arith) (at ∙ sym e)
      ] in
      omega (arith, below x (omega arith), value, less)
]

-- There are no more different values than there are numbers below their bound.
pub pigeonhole : (n m : ℕ) (f : ℕ → ℕ) → IsInjective n f → IsBelow n f m → n ≤ m
pigeonhole zero m f inj below = omega arith
pigeonhole (suc n) zero f inj below = absurd (omega (arith, below n (omega arith)))
pigeonhole (suc n) (suc m) f inj below = elim (taken (suc n) f m) [
  | inl (k, k_lt, at) ↦
      let rest : n ≤ m =
        pigeonhole n m (moved n k f) (moved-IsInjective n k f inj)
          (moved-IsBelow n m k f inj below k_lt at) in
      omega arith
  | inr never ↦
      let less : suc n ≤ m =
        pigeonhole (suc n) m f inj (λ x lt. omega (arith, below x lt, never x lt)) in
      omega arith
]

-- A value that is new at n.
abbrev pub extended : ℕ → ℕ → (ℕ → ℕ) → ℕ → ℕ
extended n v f x = if x == n then v else f x

module _ (n v : ℕ) (f : ℕ → ℕ) where
  pub extended_self : extended n v f n ≡ v
  extended_self = ground arith

  pub extended_lt : (x : ℕ) → x < n → extended n v f x ≡ f x
  extended_lt x lt = ground arith

  pub extended-IsInjective :
      IsInjective n f → ((x : ℕ) → x < n → f x ≢ v) → IsInjective (suc n) (extended n v f)
  extended-IsInjective inj never x y less lt e =
      let first = extended_lt x (omega arith) in
      elim (Bool-cases (y == n)) [
        | inl last ↦
            let value : extended n v f y ≡ v = rw last refl in
            never x (omega arith) (sym first ∙ e ∙ value)
        | inr before ↦ inj x y less (ground arith) (sym first ∙ e ∙ extended_lt y (ground arith))
      ]

  pub extended-IsBelow : (m : ℕ) → IsBelow n f m → v < m → IsBelow (suc n) (extended n v f) m
  extended-IsBelow m below v_lt x lt = elim (Bool-cases (x == n)) [
    | inl last ↦ rw last v_lt
    | inr before ↦ rw before (below x (ground arith))
  ]

-- So every number below the bound is a value.
pub onto :
    (n : ℕ) (f : ℕ → ℕ)
    → IsInjective n f
    → IsBelow n f n
    → (v : ℕ) → v < n
    → (x : ℕ) × (x < n) × (f x ≡ v)
onto n f inj below v lt = elim (taken n f v) [
  | inl found ↦ found
  | inr never ↦
      let more : suc n ≤ n =
        pigeonhole (suc n) n (extended n v f) (extended-IsInjective n v f inj never)
          (extended-IsBelow n v f n below lt) in
      absurd (omega arith)
]

-- A place where the value is taken, or none.
abbrev Place : ℕ → (ℕ → ℕ) → ℕ → Type 0
Place n f v = (x : ℕ) × (x < n) × (f x ≡ v)

place_in : (n v : ℕ) (f : ℕ → ℕ) → Place n f v ⊎ ((x : ℕ) → x < n → f x ≢ v) → ℕ
place_in n v f (inl (x, lt, at)) = x
place_in n v f (inr never) = n

place_in_taken :
    (n v : ℕ) (f : ℕ → ℕ) (found : Place n f v ⊎ ((x : ℕ) → x < n → f x ≢ v))
    → Place n f v
    → (place_in n v f found < n) × (f (place_in n v f found) ≡ v)
unfolding place_in
place_in_taken n v f (inl (y, y_lt, y_at)) there = (y_lt, y_at)
place_in_taken n v f (inr never) (x, lt, at) = absurd (never x lt at)

-- A function that takes every value below a bound has as many arguments.
pub covering : (n m : ℕ) (f : ℕ → ℕ) → ((v : ℕ) → v < m → Place n f v) → m ≤ n
covering n m f all =
    let at : ℕ → ℕ = λ v. place_in n v f (taken n f v) in
    let found : (v : ℕ) → v < m → (at v < n) × (f (at v) ≡ v) =
      λ v lt. place_in_taken n v f (taken n f v) (all v lt) in
    pigeonhole m n at
      (λ v w less lt e.
        let same : v ≡ w = sym (found v (omega arith)).1 ∙ ap f e ∙ (found w lt).1 in
        absurd (omega arith))
      (λ v lt. (found v lt).0)

-- A place below the length of the rows determines its row and its column.
pub same_place : (n a b x y : ℕ) → x < n → y < n → n * a + x ≡ n * b + y → (a ≡ b) × (x ≡ y)
same_place n a b x y x_lt y_lt e =
    let row : (c z : ℕ) → z < n → (n * c + z) / n ≡ c = λ c z lt.
      mul-add-div (omega arith) c z ∙ ap (λ (q : ℕ). c + q) (div-eq_of_lt lt) ∙ omega arith in
    let same : a ≡ b = sym (row a x x_lt) ∙ ap (λ (p : ℕ). p / n) e ∙ row b y y_lt in
    let rest : n * b + x ≡ n * b + y = rw same at e in (same, omega arith)

-- A place lies in the table when its row does.
pub place-lt : (n rows a x : ℕ) → a < rows → x < n → n * a + x < n * rows
place-lt n rows a x a_lt x_lt = grind arith
