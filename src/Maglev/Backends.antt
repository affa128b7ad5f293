-- ===== src/Maglev/Backends.antt =====
-- nf/maglev: which backends the table of flows has, in every state that the load balancer reaches.
use klint.Base.{
  ℕ, ◌≡◌, refl, Option, none, some, List, [], ◌∷◌, get_or, Option-cases, ◌⊎◌, either, ltb, ◌-◌, inl,
  inr, ap, ◌∙◌,
}
use klint.Map.{map_get}
use klint.IndexPool.{Borrowed, index_pool_borrow, index_pool_used}
use klint.Flow.{Flow, flow_bytes}
use klint.Net.{Packet, Output, get_headers}
use klint.Maglev.{
  Balancer, Maglev, heap_memory, insert_at, choose_backend, forget, balancer_get_backend,
  balancer_process_heartbeat, nf_handle, routed,
}
use klint.Maglev.Table.{backend_of, preferred}

insert_at-flow_backends :
    (b : Balancer) (flow : Flow) (borrowed : Borrowed)
    → (insert_at b flow borrowed).flow_backends ≡ b.flow_backends
unfolding insert_at
insert_at-flow_backends b flow (pool, none) = refl
insert_at-flow_backends b flow (pool, some (index, was_used)) = refl

choose_backend-flow_backends :
    (b : Balancer) (flow : Flow) (time : ℕ)
    → (choose_backend b flow time).0.flow_backends ≡ b.flow_backends
unfolding choose_backend
choose_backend-flow_backends b flow time = elim (Option-cases (preferred b flow time)) [
  | inl nobody ↦ rw (nobody, choose_backend) refl
  | inr (backend, liked) ↦
      rw (liked, choose_backend)
        (insert_at-flow_backends b flow (index_pool_borrow b.flow_pool time))
]

balancer_get_backend-flow_backends :
    (b : Balancer) (flow : Flow) (time : ℕ)
    → (balancer_get_backend b flow time).0.flow_backends ≡ b.flow_backends
unfolding balancer_get_backend
balancer_get_backend-flow_backends b flow time =
    elim (Option-cases (map_get (heap_memory b.flow_heap) b.flow_indices (flow_bytes flow))) [
      | inl got ↦ rw (got, balancer_get_backend) (choose_backend-flow_backends b flow time)
      | inr (index, got) ↦
          rw (got, balancer_get_backend)
            (either (λ (r : Balancer × Option ℕ). r.0.flow_backends ≡ b.flow_backends)
              (index_pool_used b.backend_pool time (get_or b.flow_backends index 0)) refl
              (choose_backend-flow_backends (forget b index) flow time))
    ]

routed-balancer :
    (packet : Packet) (nf : Maglev) (r : Balancer × Option ℕ)
    → (routed packet nf r).0.balancer ≡ r.0
routed-balancer packet nf (b, none) = refl
routed-balancer packet nf (b, some backend) = refl

nf_handle-flow_backends :
    (nf : Maglev) (packet : Packet)
    → (nf_handle nf packet).0.balancer.flow_backends ≡ nf.balancer.flow_backends
unfolding nf_handle balancer_process_heartbeat
nf_handle-flow_backends nf packet = elim (Option-cases (get_headers packet)) [
  | inl e ↦ rw (e, nf_handle) refl
  | inr (headers, e) ↦
      rw (e, nf_handle)
        (either
          (λ (r : Maglev × Option Output). r.0.balancer.flow_backends ≡ nf.balancer.flow_backends)
          (ltb packet.device (nf.devices_count - 1)) refl
          (ap (λ (b : Balancer). b.flow_backends) (routed-balancer packet nf _)
            ∙ balancer_get_backend-flow_backends nf.balancer _ packet.time))
]

-- The state after packets.
unfoldable pub run : Maglev → List Packet → Maglev
run nf [] = nf
run nf (packet ∷ packets) = run (nf_handle nf packet).0 packets

run-flow_backends :
    (nf : Maglev) (packets : List Packet)
    → (run nf packets).balancer.flow_backends ≡ nf.balancer.flow_backends
unfolding run
run-flow_backends nf [] = refl
run-flow_backends nf (packet ∷ packets) =
    run-flow_backends (nf_handle nf packet).0 packets ∙ nf_handle-flow_backends nf packet

-- The backend of a flow is an entry of the array.
backend_of-flow_backends :
    (b : Balancer) (flow : Flow)
    → ((k : ℕ) → get_or b.flow_backends k 0 ≡ 0)
    → (backend_of b flow ≡ none) ⊎ (backend_of b flow ≡ some 0)
backend_of-flow_backends b flow zeros =
    elim (Option-cases (map_get (heap_memory b.flow_heap) b.flow_indices (flow_bytes flow))) [
      | inl got ↦ inl (rw got refl)
      | inr (index, got) ↦ inr (rw got (ap some (zeros index)))
    ]

-- After any packets, from a load balancer whose flow_backends are zeroed as nf_init leaves them,
-- the backend that the table has for a flow is none or backend 0.
pub run-backend_of :
    (nf : Maglev) (packets : List Packet) (flow : Flow)
    → ((k : ℕ) → get_or nf.balancer.flow_backends k 0 ≡ 0)
    → let b = (run nf packets).balancer in (backend_of b flow ≡ none) ⊎ (backend_of b flow ≡ some 0)
run-backend_of nf packets flow zeros =
    backend_of-flow_backends (run nf packets).balancer flow
      (rw (run-flow_backends nf packets) zeros)
