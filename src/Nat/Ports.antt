-- ===== src/Nat/Ports.antt =====
-- nf/nat/flow_table.h: each flow has a port of its own, from which it is found again.
use klint.Base.{ℕ, ◌≤◌, ◌<◌, ◌≡◌, true, none, some, get_or, inl, inr, sym, ap, ◌∙◌, arith}
use klint.Memory.{u16_mod}
use klint.Map.{map_get}
use klint.IndexPool.Spec.{pool_young}
use klint.KeyTable.{IsTime, get-indexed}
use klint.Flow.{Flow, flow_bytes, length-flow_bytes, zero_flow}
use klint.Nat.Table.{
  IsValid, index_live, flow_table_get_internal-UsesFlow, flow_table_get_external-UsesFlow,
}
use klint.Nat.{
  FlowTable, flow_memory, port_of, index_of, flow_table_get_internal, flow_table_get_external,
}

-- The ports of a table with no more flows than ports go to different indexes, and back.
pub index_of-port_of :
    (table table' : FlowTable) (index : ℕ)
    → table'.start_port ≡ table.start_port
    → table.start_port < u16_mod
    → index < u16_mod
    → index_of table' (port_of table index) ≡ index
index_of-port_of table table' index same p q = omega arith

-- In a valid table of at most 2 ^ 16 flows, the port that flow_table_get_internal returns for a
-- flow leads flow_table_get_external, while the use is young, to a flow with the same bytes.
pub get_external-get_internal :
    {table : FlowTable} (v : IsValid table) (time time' port : ℕ) (flow : Flow)
    → IsTime time
    → IsTime time'
    → table.max_flows ≤ u16_mod
    → pool_young time' table.port_allocator.expiration_time time ≡ true
    → (flow_table_get_internal table time flow).1 ≡ some port
    → (flow' : Flow) × ((flow_table_get_external
          (flow_table_get_internal table time flow).0
          time'
          port).1
        ≡ some flow')
      × (flow_bytes flow' ≡ flow_bytes flow)
get_external-get_internal {table} v time time' port flow real real' few young e =
    let table₁ = (flow_table_get_internal table time flow).0 in
    elim (flow_table_get_internal-UsesFlow v time real flow) [
      | inr (refused, _) ↦ absurd (let clash : none ≡ some port = sym refused ∙ e in cc)
      | inl (index, at, u) ↦
          let given : some (port_of table index) ≡ some port = sym at ∙ e in
          let same : port_of table index ≡ port = cc in
          let back : index_of table₁ port ≡ index = rw (← same) (
            index_of-port_of table table₁ index u.same_ports.0 v.port_lt
              (omega (arith, u.uses.index_lt, v.sized))) in
          let live : index_live table₁ time' (index_of table₁ port) ≡ true =
            rw (back, u.uses.stamped, u.uses.same_expiration, index_live) young in
          let (out, _) = rw live at (flow_table_get_external-UsesFlow u.valid time' real' port) in
          (get_or table₁.flows (index_of table₁ port) zero_flow, out, rw back u.uses.own)
    ]

-- In a valid table of at most 2 ^ 16 flows, two flows at indexes with the same port have the same
-- bytes.
pub port_of-injective :
    {table : FlowTable} (v : IsValid table) (f g : Flow) (i j : ℕ)
    → table.max_flows ≤ u16_mod
    → map_get (flow_memory table.flows) table.flow_indexes (flow_bytes f) ≡ some i
    → map_get (flow_memory table.flows) table.flow_indexes (flow_bytes g) ≡ some j
    → port_of table i ≡ port_of table j
    → flow_bytes f ≡ flow_bytes g
port_of-injective {table} v f g i j few at_f at_g same =
    let size = λ (h : Flow). length-flow_bytes h ∙ sym v.store_valid.same_key_size in
    let (own_f, i_lt, _) =
      get-indexed v.store_valid.coherent (flow_bytes f) {k = i} (size f) at_f in
    let (own_g, j_lt, _) =
      get-indexed v.store_valid.coherent (flow_bytes g) {k = j} (size g) at_g in
    let eq : i ≡ j = omega (arith, v.sized, v.port_lt) in
    sym own_f ∙ ap (flow_memory table.flows) eq ∙ own_g
