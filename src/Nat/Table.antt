-- ===== src/Nat/Table.antt =====
-- nf/nat/flow_table.h: the table of flows keeps its invariant, and what its two operations do to it.
use klint.Base.{
  ℕ, ◌<◌, ◌≡◌, refl, ◌⊎◌, Bool, true, false, Option, none, some, get_or, if◌then◌else◌, Bool-cases,
  Option-cases, inl, inr, sym, ap, ◌∙◌, arith,
}
use klint.Memory.{u16_mod}
use klint.Map.{map_get}
use klint.Map.Get.{map_get-find}
use klint.IndexPool.{Borrowed, index_pool_borrow}
use klint.IndexPool.Spec.{entry, pool_young}
use klint.IndexPool.Use.{index_pool_used-pool_young}
use klint.IndexPool.Borrow.{BorrowContract, IsYoung, index_pool_borrow-BorrowContract}
use klint.KeyTable.{IsTime}
use klint.KeyTable.View.{map_get-view-none}
use klint.KeyTable.Store.{Store, IsStore, Uses, last_use, refresh-Uses, claim-Uses}
use klint.Flow.{Flow, flow_bytes, length-flow_bytes, sizeof_flow, zero_flow}
use klint.Nat.{
  FlowTable, flow_memory, port_of, index_of, get_internal_at, flow_table_get_internal,
  flow_table_get_external,
}

abbrev pub store_of : FlowTable → Store Flow
store_of table = record {
  keys = table.flows;
  indexes = table.flow_indexes;
  pool = table.port_allocator;
}

pub record IsValid (table : FlowTable) : Type 0 where
  pub store_valid : IsStore flow_bytes zero_flow sizeof_flow (store_of table)
  pub sized : table.port_allocator.size ≡ table.max_flows
  pub port_lt : table.start_port < u16_mod

abbrev pub flow_use : FlowTable → Flow → Option ℕ
flow_use table flow = last_use flow_bytes zero_flow (store_of table) flow

-- The flow is used at the time, at the index; the ports stay.
pub record UsesFlow (table : FlowTable) (time index : ℕ) (flow : Flow) (table' : FlowTable)
    : Type 0 where
  pub valid : IsValid table'
  pub uses :
      Uses flow_bytes zero_flow sizeof_flow (store_of table) time index flow (store_of table')
  pub same_ports : (table'.start_port ≡ table.start_port) × (table'.max_flows ≡ table.max_flows)

-- No change: every index is taken by a young flow, and the flow is new.
abbrev pub Refuses : FlowTable → ℕ → Flow → FlowTable → Type 0
Refuses table time flow table' =
    (table' ≡ table)
    × ((k : ℕ) → k < table.port_allocator.size → IsYoung table.port_allocator time k)
    × (flow_use table flow ≡ none)

-- The index is in use, and young.
abbrev pub index_live : FlowTable → ℕ → ℕ → Bool
index_live table time index = elim (entry table.port_allocator index) [
  | none ↦ false
  | some t ↦ pool_young time table.port_allocator.expiration_time t
]

module _ {table : FlowTable} (v : IsValid table) (time : ℕ) (real : IsTime time) where
  Uses-UsesFlow :
      {index : ℕ} {flow : Flow} (table' : FlowTable)
      → Uses flow_bytes zero_flow sizeof_flow (store_of table) time index flow (store_of table')
      → table'.start_port ≡ table.start_port
      → table'.max_flows ≡ table.max_flows
      → UsesFlow table time index flow table'
  Uses-UsesFlow table' u p q = record {
    valid = record {
      store_valid = u.valid;
      sized = u.same_size ∙ v.sized ∙ sym q;
      port_lt = omega (arith, v.port_lt);
    };
    uses = u;
    same_ports = (p, q);
  }

  get_internal_at-UsesFlow :
      (flow : Flow) (b : Borrowed)
      → BorrowContract table.port_allocator time b
      → map_get (flow_memory table.flows) table.flow_indexes (flow_bytes flow) ≡ none
      → let (table', port) = get_internal_at table flow b in
        ((index : ℕ) × (port ≡ some (port_of table index)) × UsesFlow table time index flow table')
        ⊎ ((port ≡ none) × Refuses table time flow table')
  unfolding get_internal_at
  get_internal_at-UsesFlow flow (pool, none) (same, all) got = inr (
    refl,
    (
      ap (λ p. record table { port_allocator = p }) same,
      all,
      map_get-view-none v.store_valid.coherent (flow_bytes flow)
          (length-flow_bytes flow ∙ sym v.store_valid.same_key_size) got,
    ),
  )
  get_internal_at-UsesFlow flow (pool, some (index, was_used)) contract got = inl (
    index,
    refl,
    Uses-UsesFlow _
        (claim-Uses flow_bytes zero_flow sizeof_flow length-flow_bytes v.store_valid time flow pool
          index was_used got contract)
        refl refl,
  )

  -- On a valid table flow_table_get_internal keeps the table valid, stamps the flow at an index and
  -- returns that index's port; or the flow is new, every index is taken by a young flow, it returns
  -- false and the table stays as it is.
  pub flow_table_get_internal-UsesFlow :
      (flow : Flow)
      → let (table', port) = flow_table_get_internal table time flow in
        ((index : ℕ) × (port ≡ some (port_of table index)) × UsesFlow table time index flow table')
        ⊎ ((port ≡ none) × Refuses table time flow table')
  unfolding flow_table_get_internal
  flow_table_get_internal-UsesFlow flow =
      elim (Option-cases (map_get (flow_memory table.flows) table.flow_indexes (flow_bytes flow))) [
        | inl absent ↦
            rw (absent, flow_table_get_internal)
              (get_internal_at-UsesFlow flow (index_pool_borrow table.port_allocator time)
                (index_pool_borrow-BorrowContract v.store_valid.coherent.pool_valid time real)
                absent)
        | inr (index, got) ↦
            rw (got, flow_table_get_internal)
              (inl (
                index,
                refl,
                Uses-UsesFlow _
                    (refresh-Uses flow_bytes zero_flow sizeof_flow length-flow_bytes v.store_valid
                      time index flow real got)
                    refl refl,
              ))
      ]

  -- A young index has its flow's own.
  pub live_found :
      (index : ℕ)
      → index_live table time index ≡ true
      → map_get
          (flow_memory table.flows)
          table.flow_indexes
          (flow_bytes (get_or table.flows index zero_flow))
        ≡ some index
  live_found index live = elim (Option-cases (entry table.port_allocator index)) [
    | inl e ↦ let no_use : false ≡ true = rw (e, index_live) at live in absurd (cc)
    | inr (t, e) ↦
        map_get-find v.store_valid.coherent.map_valid
          (flow_bytes (get_or table.flows index zero_flow))
          (length-flow_bytes (get_or table.flows index zero_flow) ∙ sym v.store_valid.same_key_size)
        ∙ v.store_valid.coherent.indexed index (t, e)
  ]

  -- On a valid table flow_table_get_external returns the flow at the port's index, stamps it and
  -- keeps the table valid if the index is in use and young; if not, it returns false and the table
  -- stays as it is.
  pub flow_table_get_external-UsesFlow :
      (port : ℕ)
      → let (table', flow) = flow_table_get_external table time port in
        let index = index_of table port in
        if index_live table time index
        then (flow ≡ some (get_or table.flows index zero_flow))
          × UsesFlow table time index (get_or table.flows index zero_flow) table'
        else (flow ≡ none) × (table' ≡ table)
  unfolding flow_table_get_external
  flow_table_get_external-UsesFlow port =
      let index = index_of table port in
      let decided = index_pool_used-pool_young v.store_valid.coherent.pool_valid time index in
      elim (Bool-cases (index_live table time index)) [
        | inl live ↦
            rw (live, flow_table_get_external, decided, index_live, live)
              (
                refl,
                Uses-UsesFlow _
                    (refresh-Uses flow_bytes zero_flow sizeof_flow length-flow_bytes v.store_valid
                      time index (get_or table.flows index zero_flow) real (live_found index live))
                    refl refl,
              )
        | inr dead ↦ rw (dead, flow_table_get_external, decided, index_live, dead) (refl, refl)
      ]
