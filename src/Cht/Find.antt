-- ===== src/Cht/Find.antt =====
-- `cht_find_preferred_available_backend` of env/src/structs/cht.c takes the first live backend of the
-- object's bucket.
use klint.Base.{
  ℕ, zero, suc, ◌+◌, ◌≤◌, ◌<◌, ◌≡◌, refl, true, false, Option, none, some, List, Bool-cases, ◌==◌,
  inl, inr, sym, ap, ◌∙◌, arith,
}
use klint.IndexPool.{IndexPool}
use klint.IndexPool.{index_pool_used}
use klint.Cht.{Cht, candidate, bucket_of, find_from, cht_find_preferred_available_backend}

-- The first live candidate from i on, before `last`; or none of them lives.
abbrev pub FirstLive : Cht → ℕ → IndexPool → ℕ → ℕ → ℕ → Option ℕ → Type 0
FirstLive cht cht_bucket active_backends time i last none =
    (k : ℕ)
    → i ≤ k
    → k < last
    → index_pool_used active_backends time (candidate cht cht_bucket k) ≡ false
FirstLive cht cht_bucket active_backends time i last (some backend) =
    (k : ℕ) × (i ≤ k)
    × (k < last)
    × (candidate cht cht_bucket k ≡ backend)
    × (index_pool_used active_backends time backend ≡ true)
    × ((before : ℕ)
        → i ≤ before
        → before < k
        → index_pool_used active_backends time (candidate cht cht_bucket before) ≡ false)

module _ (cht : Cht) (cht_bucket : ℕ) (active_backends : IndexPool) (time : ℕ) where
  -- A dead candidate goes before the rest.
  past_dead :
      (i last : ℕ) (o : Option ℕ)
      → index_pool_used active_backends time (candidate cht cht_bucket i) ≡ false
      → FirstLive cht cht_bucket active_backends time (i + 1) last o
      → FirstLive cht cht_bucket active_backends time i last o
  past_dead i last none dead rest = λ k from below. elim (Bool-cases (i == k)) [
    | inl here ↦
        let same : i ≡ k = ground arith in
        ap (λ (j : ℕ). index_pool_used active_backends time (candidate cht cht_bucket j)) (sym same)
        ∙ dead
    | inr there ↦ rest k (ground arith) below
  ]
  past_dead i last (some backend) dead (k, from, below, at, live, first) = (
    k,
    omega arith,
    below,
    at,
    live,
    λ j from' before. elim (Bool-cases (i == j)) [
      | inl here ↦
          let same : i ≡ j = ground arith in
          ap (λ (x : ℕ). index_pool_used active_backends time (candidate cht cht_bucket x))
            (sym same)
          ∙ dead
      | inr there ↦ first j (ground arith) before
    ],
  )

  find_from-FirstLive :
      (rounds i last : ℕ)
      → i + rounds ≡ last
      → FirstLive cht cht_bucket active_backends time i last
          (find_from cht cht_bucket active_backends time rounds i)
  unfolding find_from
  find_from-FirstLive zero i last end = λ k from below. absurd (omega arith)
  find_from-FirstLive (suc rounds) i last end =
      elim (Bool-cases (index_pool_used active_backends time (candidate cht cht_bucket i))) [
        | inl live ↦
            rw (live, find_from)
              (i, omega arith, omega arith, refl, live, λ j from before. absurd (omega arith))
        | inr dead ↦
            let rest = find_from cht cht_bucket active_backends time rounds (i + 1) in
            let next : find_from cht cht_bucket active_backends time (suc rounds) i ≡ rest =
              rw (dead, find_from) refl in
            rw next
              (past_dead i last rest dead (find_from-FirstLive rounds (i + 1) last (omega arith)))
      ]

-- cht_find_preferred_available_backend returns the first backend in the list of the object's bucket
-- that is in use and young by index_pool_used, or false if none of them is.
pub cht_find_preferred_available_backend-FirstLive :
    (cht : Cht) (obj : List ℕ) (obj_size : ℕ) (active_backends : IndexPool) (time : ℕ)
    → FirstLive cht
        (bucket_of cht obj obj_size)
        active_backends
        time
        0
        cht.backend_capacity
        (cht_find_preferred_available_backend cht obj obj_size active_backends time)
unfolding cht_find_preferred_available_backend
cht_find_preferred_available_backend-FirstLive cht obj obj_size active_backends time =
    find_from-FirstLive cht (bucket_of cht obj obj_size) active_backends time cht.backend_capacity 0
      cht.backend_capacity (omega arith)
