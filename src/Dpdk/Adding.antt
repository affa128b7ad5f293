-- ===== src/Dpdk/Adding.antt =====
-- env/src/net/dpdk/main.c: what it is to add a buffer to queues.
use klint.Base.{
  append-nil, ◌⊎◌, ℕ, ◌+◌, ◌≤◌, ◌<◌, ◌≡◌, Bool, false, List, [], ◌∷◌, ◌++◌, length, get_or,
  if◌then◌else◌, inl, inr, sym, ap, ◌∙◌, arith,
}
use klint.Dpdk.{Queues, burst}

abbrev pub count : Queues → ℕ → ℕ
count queues d = get_or queues.bufs_to_tx_count d 0

abbrev pub row : Queues → ℕ → List ℕ
row queues d = get_or queues.bufs_to_tx d []

-- The arrays have a place for each of n devices, and room for a batch each.
pub record IsRoomy (n batch_size : ℕ) (queues : Queues) : Type 0 where
  pub counts : n ≤ length queues.bufs_to_tx_count
  pub rows : n ≤ length queues.bufs_to_tx
  pub sized : (d : ℕ) → d < n → length (row queues d) ≡ batch_size

abbrev pub only : Bool → ℕ → List ℕ
only b os_tag = if b then os_tag ∷ [] else []

-- The devices that pass a test, and no others, get the buffer at the end of their queues.
abbrev pub Adds : ℕ → ℕ → (ℕ → Bool) → ℕ → Queues → Queues → Type 0
Adds n batch_size p os_tag queues queues' =
    IsRoomy n batch_size queues'
    × ((d : ℕ)
        → d < n
        → (burst queues' d ≡ burst queues d ++ only (p d) os_tag)
          × (count queues' d ≡ count queues d + (if p d then 1 else 0)))

-- One of two steps does not add to the device, and the other adds as both together.
abbrev pub Splits : Bool → Bool → Bool → Type 0
Splits p p' r = ((p ≡ false) × (p' ≡ r)) ⊎ ((p' ≡ false) × (p ≡ r))

only-append :
    (xs : List ℕ) (p p' r : Bool) (os_tag : ℕ)
    → Splits p p' r
    → (xs ++ only p os_tag) ++ only p' os_tag ≡ xs ++ only r os_tag
only-append xs p p' r os_tag (inl (e, e')) =
    rw (e, e') (ap (λ l. l ++ only r os_tag) (append-nil xs))
only-append xs p p' r os_tag (inr (e', e)) = rw (e', e) (append-nil (xs ++ only r os_tag))

module _ (n batch_size os_tag : ℕ) where
  pub none-Adds :
      (p : ℕ → Bool) (queues : Queues)
      → IsRoomy n batch_size queues
      → ((d : ℕ) → p d ≡ false)
      → Adds n batch_size p os_tag queues queues
  none-Adds p queues roomy never =
      (roomy, λ d d_lt. rw (never d) (sym (append-nil (burst queues d)), omega arith))

  pub ext-Adds :
      (p r : ℕ → Bool) (queues queues' : Queues)
      → Adds n batch_size p os_tag queues queues'
      → ((d : ℕ) → d < n → p d ≡ r d)
      → Adds n batch_size r os_tag queues queues'
  ext-Adds p r queues queues' (roomy, added) same =
      (roomy, λ d d_lt. rw (← same d d_lt) (added d d_lt))

  pub then-Adds :
      (p p' r : ℕ → Bool) (queues queues' queues'' : Queues)
      → Adds n batch_size p os_tag queues queues'
      → Adds n batch_size p' os_tag queues' queues''
      → ((d : ℕ) → Splits (p d) (p' d) (r d))
      → Adds n batch_size r os_tag queues queues''
  then-Adds p p' r queues queues' queues'' (_, first) (roomy, second) splits = (
    roomy,
    λ d d_lt.
        let (b, c) = first d d_lt in
        let (b', c') = second d d_lt in
        (
          b'
              ∙ ap (λ l. l ++ only (p' d) os_tag) b
              ∙ only-append (burst queues d) (p d) (p' d) (r d) os_tag (splits d),
          c'
              ∙ ap (λ (k : ℕ). k + (if p' d then 1 else 0)) c
              ∙ counted (count queues d) (p d) (p' d) (r d) (splits d),
        ),
  )
    where
      counted :
          (k : ℕ) (p p' r : Bool)
          → Splits p p' r
          → k + (if p then 1 else 0) + (if p' then 1 else 0) ≡ k + (if r then 1 else 0)
      counted k p p' r (inl (e, e')) = rw (e, e') (omega arith)
      counted k p p' r (inr (e', e)) = rw (e', e) (omega arith)
