-- ===== src/Firewall/Table.antt =====
-- nf/firewall/flow_table.h: the table of flows keeps its invariant, and means a function from flows to
-- the times of their last use.
use klint.Base.{
  ℕ, ◌^◌, ◌<◌, ◌≡◌, refl, ◌⊎◌, Bool, false, Option, none, some, List, length, get_or, get_or-set,
  get_or-set_ne, set, length-set, length-replicate, replicate, bytes_eq, ==_iff, if◌then◌else◌,
  Bool-cases, Option-cases, inl, inr, sym, ap, ◌∙◌, arith,
}
use klint.Map.{map_get}
use klint.IndexPool.{Borrowed, index_pool_borrow, index_pool_refresh, index_pool_used}
use klint.IndexPool.Spec.{pool_young}
use klint.IndexPool.Alloc.{index_pool_alloc-IsValid}
use klint.IndexPool.Use.{index_pool_used-pool_young}
use klint.IndexPool.Borrow.{BorrowContract, IsYoung, index_pool_borrow-BorrowContract}
use klint.KeyTable.{Coherent, IsTime}
use klint.KeyTable.Claim.{Rewrites}
use klint.KeyTable.View.{
  view, Learned, WasExpired, refresh-Learned, map_get-view, map_get-view-none,
}
use klint.KeyTable.Learn.{claim-Learned}
use klint.KeyTable.Fresh.{fresh_table}
use klint.Flow.{Flow, flow_bytes, length-flow_bytes, sizeof_flow, zero_flow}
use klint.Firewall.{
  FlowTable, flow_memory, flow_table_alloc, learn_at, flow_table_learn_internal,
  flow_table_has_external,
}

pub record IsValid (table : FlowTable) : Type 0 where
  pub coherent : Coherent (flow_memory table.flows) table.flow_indexes table.port_allocator
  pub key_size : table.flow_indexes.key_size ≡ sizeof_flow
  pub flow_count : length table.flows ≡ table.port_allocator.size

-- When a flow of the given bytes was last used, if it is in the table.
abbrev pub last_use : FlowTable → List ℕ → Option ℕ
last_use table key = view (flow_memory table.flows) table.flow_indexes table.port_allocator key

abbrev pub expiration : FlowTable → ℕ
expiration table = table.port_allocator.expiration_time

-- A flow used at the time is in the table now; each other flow stays as it was, unless it had
-- expired.
pub record Used (table : FlowTable) (time : ℕ) (flow : Flow) (table' : FlowTable) : Type 0 where
  pub valid : IsValid table'
  pub same_expiration : expiration table' ≡ expiration table
  pub seen : last_use table' (flow_bytes flow) ≡ some time
  pub others :
      (f : Flow)
      → bytes_eq (flow_bytes flow) (flow_bytes f) ≡ false
      → (last_use table' (flow_bytes f) ≡ last_use table (flow_bytes f))
        ⊎ ((last_use table' (flow_bytes f) ≡ none)
            × WasExpired time (expiration table) (last_use table (flow_bytes f)))

-- The flow is in the table and young.
abbrev pub is_live : FlowTable → ℕ → Flow → Bool
is_live table time flow = elim (last_use table (flow_bytes flow)) [
  | none ↦ false
  | some u ↦ pool_young time (expiration table) u
]

-- Every index is taken by a young flow.
abbrev pub IsFull : FlowTable → ℕ → Type 0
IsFull table time = (k : ℕ) → k < table.port_allocator.size → IsYoung table.port_allocator time k

-- A write of the flow at an index.
flow_memory-Rewrites :
    (flows : List Flow) (k : ℕ) (flow : Flow)
    → k < length flows
    → Rewrites (flow_memory flows) (flow_memory (set flows k flow)) k (flow_bytes flow)
flow_memory-Rewrites flows k flow lt = record {
  here = ap flow_bytes (get_or-set flows k k flow zero_flow lt ∙ rw ((==_iff k k).1 refl) refl);
  there = λ a ne. ap flow_bytes (get_or-set_ne flows k a flow zero_flow (λ e. ne (sym e)));
}

module _ {table : FlowTable} (v : IsValid table) (time : ℕ) (real : IsTime time) (flow : Flow) where
  sized : length (flow_bytes flow) ≡ table.flow_indexes.key_size
  sized = length-flow_bytes flow ∙ sym v.key_size

  Learned-Used :
      (table' : FlowTable) (index : ℕ)
      → Learned
          (flow_memory table.flows)
          table.flow_indexes
          table.port_allocator
          (flow_bytes flow)
          time
          index
          (flow_memory table'.flows)
          table'.flow_indexes
          table'.port_allocator
      → length table'.flows ≡ length table.flows
      → Used table time flow table'
  unfolding view
  Learned-Used table' index l same = record {
    valid = record {
      coherent = l.coherent;
      key_size = l.same_key_size ∙ v.key_size;
      flow_count = same ∙ v.flow_count ∙ sym l.same_size;
    };
    same_expiration = l.same_expiration;
    seen = rw l.indexed l.stamped;
    others = λ f. l.others (flow_bytes f) (length-flow_bytes f ∙ sym v.key_size);
  }

  refresh-Used :
      (index : ℕ)
      → map_get (flow_memory table.flows) table.flow_indexes (flow_bytes flow) ≡ some index
      → Used table time flow
          (record table { port_allocator = index_pool_refresh table.port_allocator time index })
  refresh-Used index got =
      Learned-Used _ index (refresh-Learned v.coherent (flow_bytes flow) index time sized real got)
        refl

  learn_at-Used :
      (b : Borrowed)
      → BorrowContract table.port_allocator time b
      → map_get (flow_memory table.flows) table.flow_indexes (flow_bytes flow) ≡ none
      → Used table time flow (learn_at table flow b)
        ⊎ (IsFull table time
            × (learn_at table flow b ≡ table)
            × (last_use table (flow_bytes flow) ≡ none))
  unfolding learn_at
  learn_at-Used (pool, none) (same, all) got = inr (
    all,
    ap (λ p. record table { port_allocator = p }) same,
    map_get-view-none v.coherent (flow_bytes flow) sized got,
  )
  learn_at-Used (pool, some (index, was_used)) contract got =
      let lt : index < length table.flows = omega (arith, contract.1, v.flow_count) in
      inl (
        Learned-Used _ index
          (claim-Learned v.coherent time (flow_bytes flow) sized got pool index was_used contract
            (flow_memory (set table.flows index flow))
            (flow_memory-Rewrites table.flows index flow lt))
          (length-set table.flows index flow))

  -- On a valid table flow_table_learn_internal keeps the table valid, stamps the flow with the
  -- time, and changes no other flow except that an expired one may go; or the flow is new, every
  -- index is taken by a young flow, and the table stays as it is.
  pub flow_table_learn_internal-Used :
      let table' = flow_table_learn_internal table time flow in
      Used table time flow table'
      ⊎ (IsFull table time × (table' ≡ table) × (last_use table (flow_bytes flow) ≡ none))
  unfolding flow_table_learn_internal
  flow_table_learn_internal-Used =
      elim (Option-cases (map_get (flow_memory table.flows) table.flow_indexes (flow_bytes flow))) [
        | inl absent ↦
            rw (absent, flow_table_learn_internal)
              (learn_at-Used (index_pool_borrow table.port_allocator time)
                (index_pool_borrow-BorrowContract v.coherent.pool_valid time real) absent)
        | inr (index, got) ↦ rw (got, flow_table_learn_internal) (inl (refresh-Used index got))
      ]

  -- On a valid table flow_table_has_external answers whether the flow is in the table and young; if
  -- so it stamps the flow with the time and keeps the table valid, and if not the table stays as it
  -- is.
  pub flow_table_has_external-Used :
      let (table', known) = flow_table_has_external table time flow in
      (known ≡ is_live table time flow)
      × (if known then Used table time flow table' else (table' ≡ table))
  unfolding flow_table_has_external
  flow_table_has_external-Used =
      elim (Option-cases (map_get (flow_memory table.flows) table.flow_indexes (flow_bytes flow))) [
        | inl absent ↦
            rw
              (
                absent,
                flow_table_has_external,
                map_get-view-none v.coherent (flow_bytes flow) sized absent,
                is_live,
              )
              (refl, refl)
        | inr (index, got) ↦
            let decided = index_pool_used-pool_young v.coherent.pool_valid time index in
            let at = map_get-view v.coherent (flow_bytes flow) index sized got in
            rw (got, flow_table_has_external, at, is_live)
              (elim (Bool-cases (index_pool_used table.port_allocator time index)) [
                | inl young ↦ rw young (sym young ∙ decided, refresh-Used index got)
                | inr old ↦ rw old (sym old ∙ decided, refl)
              ])
      ]

-- `flow_table_alloc` returns for every size below 2 ^ 58: a valid table of that many flows, with the
-- expiration time, and with no flow in it.
pub flow_table_alloc-IsValid :
    (expiration_time max_flows : ℕ)
    → max_flows < 2 ^ 58
    → (table : FlowTable) × (flow_table_alloc expiration_time max_flows ≡ some table)
      × IsValid table
      × (expiration table ≡ expiration_time)
      × (table.port_allocator.size ≡ max_flows)
      × ((key : List ℕ) → last_use table key ≡ none)
unfolding flow_table_alloc
flow_table_alloc-IsValid expiration_time max_flows small =
    let flows = replicate max_flows zero_flow in
    let (m, e, same_key_size, coherent, empty) =
      fresh_table (flow_memory flows) sizeof_flow max_flows expiration_time small
        (λ a. length-flow_bytes (get_or flows a zero_flow)) in
    let (_, size, exp, _, _) = index_pool_alloc-IsValid max_flows expiration_time in
    (
      _,
      rw e refl,
      record {
        coherent = coherent;
        key_size = same_key_size;
        flow_count = length-replicate max_flows zero_flow ∙ sym size;
      },
      exp,
      size,
      empty,
    )
