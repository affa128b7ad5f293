-- ===== src/Policer/Passes.antt =====
-- nf/policer/policer.c: a packet from one of two devices goes to the other as it came, or nowhere.
use klint.Base.{ℕ, ◌<◌, Option, none, some, ltb, ◌==◌, either, Option-cases, inl, inr}
use klint.Map.{map_get}
use klint.IndexPool.{Borrowed}
use klint.Net.{Packet, Output, dst_addr}
use klint.Net.Delivery.{Passes, other_device-Passes}
use klint.Policer.{
  Policer, address_memory, address_bytes, bucket_at, refilled, passed, handle_known, admit_at,
  police, get_ipv4, nf_handle,
}

module _ (packet : Packet) (own : packet.device < 2) where
  passed-Passes : Passes packet (passed packet)
  passed-Passes = other_device-Passes packet own

  admit_at-Passes :
      (nf : Policer) (address : ℕ) (b : Borrowed) → Passes packet (admit_at nf packet address b).1
  unfolding admit_at
  admit_at-Passes nf address (pool, none) = tt
  admit_at-Passes nf address (pool, some (index, was_used)) = passed-Passes

  police-Passes : (nf : Policer) (address : ℕ) → Passes packet (police nf packet address).1
  unfolding police handle_known
  police-Passes nf address =
      elim (Option-cases (map_get (address_memory nf.addresses) nf.map (address_bytes address))) [
        | inr (index, got) ↦
            rw (got, police)
              (either (λ (r : Policer × Option Output). Passes packet r.1)
                (ltb packet.length (refilled nf.rate nf.burst (bucket_at nf index) packet.time))
                passed-Passes tt)
        | inl absent ↦
            rw (absent, police)
              (either (λ (r : Policer × Option Output). Passes packet r.1)
                (ltb nf.burst packet.length) tt (admit_at-Passes nf address _))
      ]

  pub nf_handle-Passes : (nf : Policer) → Passes packet (nf_handle nf packet).1
  unfolding nf_handle
  nf_handle-Passes nf = elim (Option-cases (get_ipv4 packet)) [
    | inl e ↦ rw (e, nf_handle) tt
    | inr (ipv4, e) ↦
        rw (e, nf_handle)
          (either (λ (r : Policer × Option Output). Passes packet r.1)
            (packet.device == nf.wan_device) (police-Passes nf (dst_addr packet.bytes ipv4))
            passed-Passes)
  ]
