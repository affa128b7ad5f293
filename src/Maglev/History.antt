-- ===== src/Maglev/History.antt =====
-- nf/maglev over a whole run: which backends are alive, and where a packet goes.
use klint.Base.{
  ℕ, ◌-◌, ◌<◌, ◌≡◌, refl, Bool, true, false, ◌&&◌, Option, none, some, List, [], ◌∷◌, either, ltb,
  ◌==◌, if◌then◌else◌, Bool-cases, Option-cases, inl, inr, ap, ◌∙◌, arith,
}
use klint.IndexPool.{IndexPool}
use klint.IndexPool.Spec.{entry, pool_young}
use klint.Cht.{cht_alloc}
use klint.KeyTable.{IsTime}
use klint.Net.{Packet, Output, get_headers}
use klint.Net.Headers.{is_tcpudp}
use klint.Maglev.{Balancer, Maglev, nf_handle, routed}
use klint.Maglev.Handle.{IsServing, Heartbeat, nf_handle-Routes}

-- The load balancer after packets, the latest first.
unfoldable pub after : Maglev → List Packet → Maglev
after nf [] = nf
after nf (packet ∷ before) = (nf_handle (after nf before) packet).0

-- When a backend was last heard of.
unfoldable pub last_heartbeat : List Packet → ℕ → Option ℕ
last_heartbeat [] backend = none
last_heartbeat (packet ∷ before) backend =
    if is_tcpudp packet.bytes && packet.device == backend
    then some packet.time
    else last_heartbeat before backend

-- A backend is alive if it was heard of within the expiration time.
abbrev pub is_alive : ℕ → List Packet → ℕ → ℕ → Bool
is_alive backend_expiration_time packets time backend = elim (last_heartbeat packets backend) [
  | none ↦ false
  | some t ↦ pool_young time backend_expiration_time t
]

-- Packets of the devices, at real times.
abbrev pub AreOwn : ℕ → List Packet → Type 0
AreOwn devices_count [] = Unit {0}
AreOwn devices_count (packet ∷ before) =
    (packet.device < devices_count) × IsTime packet.time × AreOwn devices_count before

-- The state after the packets.
pub record Follows (devices_count cht_height backend_expiration_time : ℕ) (packets : List Packet)
    (nf : Maglev) : Type 0 where
  pub serving : IsServing nf
  pub devices : nf.devices_count ≡ devices_count
  pub expires : nf.balancer.backend_pool.expiration_time ≡ backend_expiration_time
  pub table : nf.balancer.cht ≡ cht_alloc cht_height (devices_count - 1)
  pub heard :
      (k : ℕ) → k < devices_count - 1 → entry nf.balancer.backend_pool k ≡ last_heartbeat packets k

routed-devices_count :
    (packet : Packet) (nf : Maglev) (r : Balancer × Option ℕ)
    → (routed packet nf r).0.devices_count ≡ nf.devices_count
routed-devices_count packet nf (b, none) = refl
routed-devices_count packet nf (b, some backend) = refl

nf_handle-devices_count :
    (nf : Maglev) (packet : Packet) → (nf_handle nf packet).0.devices_count ≡ nf.devices_count
unfolding nf_handle
nf_handle-devices_count nf packet = elim (Option-cases (get_headers packet)) [
  | inl e ↦ rw (e, nf_handle) refl
  | inr (_, e) ↦
      rw (e, nf_handle)
        (either (λ (r : Maglev × Option Output). r.0.devices_count ≡ nf.devices_count)
          (ltb packet.device (nf.devices_count - 1)) refl (routed-devices_count packet nf _))
]

module _ {devices_count cht_height backend_expiration_time : ℕ} {nf : Maglev} (packet : Packet)
    (before : List Packet) (f : Follows devices_count cht_height backend_expiration_time before nf)
    (serving : IsServing (nf_handle nf packet).0) where
  -- A packet that is no heartbeat leaves the backends.
  quiet-Follows :
      (nf_handle nf packet).0.balancer.backend_pool ≡ nf.balancer.backend_pool
      → (nf_handle nf packet).0.balancer.cht ≡ nf.balancer.cht
      → ((k : ℕ) → k < devices_count - 1 → (is_tcpudp packet.bytes && packet.device == k) ≡ false)
      → Follows devices_count cht_height backend_expiration_time
          (packet ∷ before)
          (nf_handle nf packet).0
  unfolding last_heartbeat
  quiet-Follows same_pool same_cht quiet = record {
    serving = serving;
    devices = nf_handle-devices_count nf packet ∙ f.devices;
    expires = ap (λ (p : IndexPool). p.expiration_time) same_pool ∙ f.expires;
    table = same_cht ∙ f.table;
    heard =
        λ k lt. ap (λ (p : IndexPool). entry p k) same_pool ∙ f.heard k lt ∙ rw (quiet k lt) refl;
  }

  Heartbeat-Follows :
      is_tcpudp packet.bytes ≡ true
      → Heartbeat nf packet (nf_handle nf packet).0
      → Follows devices_count cht_height backend_expiration_time
          (packet ∷ before)
          (nf_handle nf packet).0
  unfolding last_heartbeat
  Heartbeat-Follows headers (rest, written, same_expiration) = record {
    serving = serving;
    devices = nf_handle-devices_count nf packet ∙ f.devices;
    expires = same_expiration ∙ f.expires;
    table = ap (λ (b : Balancer). b.cht) rest ∙ f.table;
    heard = λ k lt. written k ∙ rw (headers, f.heard k lt) refl;
  }

module _ {devices_count cht_height backend_expiration_time : ℕ} where
  step-Follows :
      (nf : Maglev) (packet : Packet) (before : List Packet)
      → Follows devices_count cht_height backend_expiration_time before nf
      → packet.device < devices_count
      → IsTime packet.time
      → Follows devices_count cht_height backend_expiration_time
          (packet ∷ before)
          (nf_handle nf packet).0
  step-Follows nf packet before f own real =
      let (serving, _, routes) = nf_handle-Routes packet f.serving real (rw f.devices own) in
      elim (Bool-cases (is_tcpudp packet.bytes)) [
        | inr other ↦
            let (same, _) = rw other at routes in
            quiet-Follows packet before f serving
              (ap (λ (m : Maglev). m.balancer.backend_pool) same)
              (ap (λ (m : Maglev). m.balancer.cht) same) (λ k lt. rw other refl)
        | inl headers ↦ elim (Bool-cases (ltb packet.device (nf.devices_count - 1))) [
          | inl beat ↦
              let (heartbeat, _) = rw (headers, beat) at routes in
              Heartbeat-Follows packet before f serving headers heartbeat
          | inr last ↦
              let (_, _, balances) = rw (headers, last) at routes in
              let (_, same_pool, same_cht) = balances.same in
              quiet-Follows packet before f serving same_pool same_cht
                (λ k lt. rw headers (ground (arith, f.devices)))
        ]
      ]

  pub after-Follows :
      (nf : Maglev) (packets : List Packet)
      → Follows devices_count cht_height backend_expiration_time [] nf
      → AreOwn devices_count packets
      → Follows devices_count cht_height backend_expiration_time packets (after nf packets)
  unfolding after
  after-Follows nf [] f all = f
  after-Follows nf (packet ∷ before) f (own, real, all) =
      step-Follows (after nf before) packet before (after-Follows nf before f all) own real
