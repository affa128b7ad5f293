-- ===== src/Maglev/Table.antt =====
-- nf/maglev/balancer.h: which backend a flow gets, and what `balancer_get_backend` does to the table of
-- flows.
use klint.Base.{
  ℕ, ◌<◌, ◌≡◌, refl, ◌⊎◌, false, Option, none, some, bytes_eq, get_or, Bool-cases, Option-cases,
  if◌then◌else◌, inl, inr, ap, sym, ◌∙◌,
}
use klint.Map.{map_get}
use klint.IndexPool.{Borrowed, index_pool_borrow, index_pool_used}
use klint.IndexPool.Spec
use klint.IndexPool.Borrow.{BorrowContract, IsYoung, index_pool_borrow-BorrowContract}
use klint.Cht.{cht_find_preferred_available_backend}
use klint.Flow.{Flow, flow_bytes, zero_flow, sizeof_flow, length-flow_bytes}
use klint.KeyTable.{IsTime}
use klint.KeyTable.View.{WasExpired, map_get-view-none}
use klint.KeyTable.Store.{Store, IsStore, last_use, refresh-Uses, claim-Uses}
use klint.KeyTable.Values.{value_of}
use klint.KeyTable.Release.{Releases, released-Releases}
use klint.Maglev.{Balancer, heap_memory, insert_at, choose_backend, forget, balancer_get_backend}

abbrev pub store_of : Balancer → Store Flow
store_of b = record { keys = b.flow_heap; indexes = b.flow_indices; pool = b.flow_pool }

pub record IsValid (b : Balancer) : Type 0 where
  pub store_valid : IsStore flow_bytes zero_flow sizeof_flow (store_of b)
  pub backends_valid : Spec.IsValid b.backend_pool

-- The backend that the table has for a flow, and the time of the flow's last packet.
abbrev pub backend_of : Balancer → Flow → Option ℕ
backend_of b flow = value_of flow_bytes zero_flow 0 (store_of b) b.flow_backends flow

abbrev pub last_packet : Balancer → Flow → Option ℕ
last_packet b flow = last_use flow_bytes zero_flow (store_of b) flow

abbrev pub preferred : Balancer → Flow → ℕ → Option ℕ
preferred b flow time =
    cht_find_preferred_available_backend b.cht (flow_bytes flow) sizeof_flow b.backend_pool time

-- The flow's own backend if it is alive, else the one that the hash table prefers.
abbrev pub chosen : Balancer → Flow → ℕ → Option ℕ → Option ℕ
chosen b flow time none = preferred b flow time
chosen b flow time (some backend) =
    if index_pool_used b.backend_pool time backend then some backend else preferred b flow time

-- A flow that gets a backend is in the table, unless every index is taken by a young flow; one that
-- gets none is not.
abbrev pub Tracked : Balancer → Flow → ℕ → Option ℕ → Type 0
Tracked b flow time (some backend) =
    (last_packet b flow ≡ some time)
    ⊎ ((last_packet b flow ≡ none) × ((k : ℕ) → k < b.flow_pool.size → IsYoung b.flow_pool time k))
Tracked b flow time none = last_packet b flow ≡ none

abbrev pub SameBackends : Balancer → Balancer → Type 0
SameBackends b b' =
    (b'.flow_backends ≡ b.flow_backends) × (b'.backend_pool ≡ b.backend_pool) × (b'.cht ≡ b.cht)

-- The backend is the chosen one; of the other flows, one that has expired may go.
pub record Balances (b : Balancer) (flow : Flow) (time : ℕ) (backend : Option ℕ) (b' : Balancer)
    (out : Option ℕ) : Type 0 where
  pub valid : IsValid b'
  pub same : SameBackends b b'
  pub out_chosen : out ≡ chosen b flow time backend
  pub tracked : Tracked b' flow time out
  pub others :
      (q : Flow)
      → bytes_eq (flow_bytes flow) (flow_bytes q) ≡ false
      → (last_packet b' q ≡ last_packet b q)
        ⊎ ((last_packet b' q ≡ none)
            × WasExpired time b.flow_pool.expiration_time (last_packet b q))

module _ (flow : Flow) (time : ℕ) (real : IsTime time) where
  -- The flow has no index.
  abbrev Unknown : Balancer → Type 0
  Unknown b = map_get (heap_memory b.flow_heap) b.flow_indices (flow_bytes flow) ≡ none

  unseen : {b : Balancer} → IsValid b → Unknown b → last_packet b flow ≡ none
  unseen v got =
      map_get-view-none v.store_valid.coherent (flow_bytes flow)
        (length-flow_bytes flow ∙ sym v.store_valid.same_key_size) got

  insert_at-Balances :
      {b : Balancer} {backend : ℕ} (v : IsValid b) (borrowed : Borrowed)
      → Unknown b
      → preferred b flow time ≡ some backend
      → BorrowContract b.flow_pool time borrowed
      → Balances b flow time none (insert_at b flow borrowed) (some backend)
  unfolding insert_at
  insert_at-Balances {b} v (pool, none) got liked (same, all) =
      let back : record b { flow_pool = pool } ≡ b = ap (λ p. record b { flow_pool = p }) same in
      rw back (record {
        valid = v;
        same = (refl, refl, refl);
        out_chosen = sym liked;
        tracked = inr (unseen v got, all);
        others = λ q ne. inl refl;
      })
  insert_at-Balances {b} v (pool, some (index, was_used)) got liked contract =
      let u =
        claim-Uses flow_bytes zero_flow sizeof_flow length-flow_bytes v.store_valid time flow pool
          index was_used got contract in
      record {
        valid = record { store_valid = u.valid; backends_valid = v.backends_valid };
        same = (refl, refl, refl);
        out_chosen = sym liked;
        tracked = inl u.seen;
        others = u.others;
      }

  choose_backend-Balances :
      {b : Balancer} (v : IsValid b)
      → Unknown b
      → let (b', out) = choose_backend b flow time in Balances b flow time none b' out
  unfolding choose_backend
  choose_backend-Balances {b} v got = elim (Option-cases (preferred b flow time)) [
    | inl nobody ↦
        rw (nobody, choose_backend)
          (record {
            valid = v;
            same = (refl, refl, refl);
            out_chosen = sym nobody;
            tracked = unseen v got;
            others = λ q ne. inl refl;
          })
    | inr (backend, liked) ↦
        rw (liked, choose_backend)
          (insert_at-Balances v (index_pool_borrow b.flow_pool time) got liked
            (index_pool_borrow-BorrowContract v.store_valid.coherent.pool_valid time real))
  ]

  -- What a choice after the release of the flow's index comes to.
  after_release-Balances :
      {b b₁ b' : Balancer} {out : Option ℕ} (backend : ℕ)
      → Releases flow_bytes zero_flow sizeof_flow length-flow_bytes (store_of b) flow (store_of b₁)
      → SameBackends b b₁
      → index_pool_used b.backend_pool time backend ≡ false
      → Balances b₁ flow time none b' out
      → Balances b flow time (some backend) b' out
  after_release-Balances {b} {b₁} backend r (same_backends, same_pool, same_cht) dead new =
      let (same_backends', same_pool', same_cht') = new.same in
      record {
        valid = new.valid;
        same = (same_backends' ∙ same_backends, same_pool' ∙ same_pool, same_cht' ∙ same_cht);
        out_chosen = new.out_chosen ∙ rw (dead, same_pool, same_cht) refl;
        tracked = new.tracked;
        others = λ q ne. elim (new.others q ne) [
          | inl same ↦ inl (same ∙ r.others q ne)
          | inr (gone, expired) ↦ inr (gone, rw (← r.others q ne, ← r.same_expiration) expired)
        ];
      }

  -- balancer_get_backend
  pub balancer_get_backend-Balances :
      {b : Balancer}
      → IsValid b
      → let (b', out) = balancer_get_backend b flow time in
        Balances b flow time (backend_of b flow) b' out
  unfolding balancer_get_backend
  balancer_get_backend-Balances {b} v =
      elim (Option-cases (map_get (heap_memory b.flow_heap) b.flow_indices (flow_bytes flow))) [
        | inl got ↦ rw (got, balancer_get_backend) (choose_backend-Balances v got)
        | inr (index, got) ↦
            let backend = get_or b.flow_backends index 0 in
            elim (Bool-cases (index_pool_used b.backend_pool time backend)) [
              | inl live ↦
                  let u =
                    refresh-Uses flow_bytes zero_flow sizeof_flow length-flow_bytes v.store_valid
                      time index flow real got in
                  rw (got, balancer_get_backend, live)
                    (record {
                      valid = record { store_valid = u.valid; backends_valid = v.backends_valid };
                      same = (refl, refl, refl);
                      out_chosen = rw live refl;
                      tracked = inl u.seen;
                      others = u.others;
                    })
              | inr dead ↦
                  let r =
                    released-Releases flow_bytes zero_flow sizeof_flow length-flow_bytes flow
                      v.store_valid got in
                  let v₁ : IsValid (forget b index) = record {
                    store_valid = r.valid;
                    backends_valid = v.backends_valid;
                  } in
                  rw (got, balancer_get_backend, dead)
                    (after_release-Balances backend r (refl, refl, refl) dead
                      (choose_backend-Balances v₁ r.gone))
            ]
      ]
