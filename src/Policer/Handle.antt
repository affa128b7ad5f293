-- ===== src/Policer/Handle.antt =====
-- nf/policer/policer.c: what `nf_init` sets up, and what `nf_handle` does with each packet.
use klint.Base.{
  ℕ, ◌-◌, ◌<◌, ◌≡◌, refl, ◌⊎◌, false, Option, none, some, List, length-replicate, ltb, ◌==◌,
  if◌then◌else◌, Bool-cases, Option-cases, inl, inr, sym, ap, ◌∙◌, arith,
}
use klint.Memory.Words.{length-bytes_of}
use klint.Map.{map_get}
use klint.IndexPool.{Borrowed, index_pool_borrow}
use klint.IndexPool.Borrow.{BorrowContract, IsYoung, index_pool_borrow-BorrowContract}
use klint.IndexPool.Alloc.{index_pool_alloc-IsValid}
use klint.KeyTable.{IsTime}
use klint.KeyTable.View.{view-none}
use klint.KeyTable.Store.{fresh-IsStore, refresh-Uses, claim-Uses}
use klint.Net.{Packet, Output, dst_addr}
use klint.Net.Headers.{is_ipv4}
use klint.Config.{ConfigItem, codes, os_config_get_device, os_config_get_u64, os_config_get_size}
use klint.Config.Get.{os_config_get_size-lt, os_config_get_u64-lt}
use klint.Policer.{
  Bucket, Policer, zero_bucket, sizeof_address, address_bytes, address_memory, bucket_at,
  expiration_of, nf_init, refilled, passed, handle_known, admit_at, police, get_ipv4, nf_handle,
}
use klint.Policer.Refill.{refilled-le}
use klint.Policer.Table.{IsValid, bucket_of, Puts, Uses-Puts}

abbrev bucket_with : ℕ → ℕ → Bucket
bucket_with size time = record { size = size; time = time }

-- A packet to an address takes its length from the bucket of the address, refilled, and passes if it
-- leaves something there; a new address gets a full bucket, if there is room and the packet fits.
abbrev pub PolicesBucket : Policer → Packet → ℕ → Option Bucket → Policer → Option Output → Type 0
PolicesBucket nf packet address (some bucket) nf' out =
    let size = refilled nf.rate nf.burst bucket packet.time in
    if ltb packet.length size
    then Puts nf packet.time address (bucket_with (size - packet.length) packet.time) nf'
      × (out ≡ passed packet)
    else Puts nf packet.time address (bucket_with size packet.time) nf' × (out ≡ none)
PolicesBucket nf packet address none nf' out =
    if ltb nf.burst packet.length
    then (nf' ≡ nf) × (out ≡ none)
    else (Puts nf packet.time address (bucket_with (nf.burst - packet.length) packet.time) nf'
        × (out ≡ passed packet))
    ⊎ ((nf' ≡ nf) × (out ≡ none) × ((k : ℕ) → k < nf.pool.size → IsYoung nf.pool packet.time k))

abbrev pub Polices : Policer → Packet → ℕ → Policer × Option Output → Type 0
Polices nf packet address (nf', out) =
    PolicesBucket nf packet address (bucket_of nf address) nf' out

module _ {nf : Policer} (v : IsValid nf) (packet : Packet) (real : IsTime packet.time) where
  handle_known-Puts :
      (address index : ℕ)
      → map_get (address_memory nf.addresses) nf.map (address_bytes address) ≡ some index
      → let size = refilled nf.rate nf.burst (bucket_at nf index) packet.time in
        let (nf', out) = handle_known nf packet index in
        if ltb packet.length size
        then Puts nf packet.time address (bucket_with (size - packet.length) packet.time) nf'
          × (out ≡ passed packet)
        else Puts nf packet.time address (bucket_with size packet.time) nf' × (out ≡ none)
  unfolding handle_known
  handle_known-Puts address index got =
      let bounded = refilled-le nf.rate nf.burst (bucket_at nf index) packet.time in
      let size = refilled nf.rate nf.burst (bucket_at nf index) packet.time in
      let u =
        refresh-Uses address_bytes 0 sizeof_address (length-bytes_of sizeof_address) v.store_valid
          packet.time index address real got in
      elim (Bool-cases (ltb packet.length size)) [
        | inl fits ↦ rw fits (Uses-Puts v packet.time address index _ _ u refl (omega arith), refl)
        | inr big ↦ rw big (Uses-Puts v packet.time address index _ _ u refl bounded, refl)
      ]

  admit_at-Puts :
      (address : ℕ) (b : Borrowed)
      → map_get (address_memory nf.addresses) nf.map (address_bytes address) ≡ none
      → BorrowContract nf.pool packet.time b
      → let (nf', out) = admit_at nf packet address b in
        (Puts nf packet.time address (bucket_with (nf.burst - packet.length) packet.time) nf'
          × (out ≡ passed packet))
        ⊎ ((nf' ≡ nf) × (out ≡ none) × ((k : ℕ) → k < nf.pool.size → IsYoung nf.pool packet.time k))
  unfolding admit_at
  admit_at-Puts address (pool, none) got (same, all) =
      inr (ap (λ p. record nf { pool = p }) same, refl, all)
  admit_at-Puts address (pool, some (index, was_used)) got contract = inl (
    Uses-Puts v packet.time address index _ _
        (claim-Uses address_bytes 0 sizeof_address (length-bytes_of sizeof_address) v.store_valid
          packet.time address pool index was_used got contract)
        refl (omega arith),
    refl,
  )

  pub police-Polices : (address : ℕ) → Polices nf packet address (police nf packet address)
  unfolding police bucket_of
  police-Polices address =
      elim (Option-cases (map_get (address_memory nf.addresses) nf.map (address_bytes address))) [
        | inr (index, got) ↦
            let known : police nf packet address ≡ handle_known nf packet index =
              rw (got, police) refl in
            rw (got, Polices, bucket_of, known) (handle_known-Puts address index got)
        | inl absent ↦ elim (Bool-cases (ltb nf.burst packet.length)) [
          | inl big ↦
              let dropped : police nf packet address ≡ (nf, none) = rw (absent, police, big) refl in
              rw (absent, Polices, bucket_of, big, dropped) (refl, refl)
          | inr fits ↦
              let borrowed = index_pool_borrow nf.pool packet.time in
              let admitted : police nf packet address ≡ admit_at nf packet address borrowed =
                rw (absent, police, fits) refl in
              rw (absent, Polices, bucket_of, fits, admitted)
                (admit_at-Puts address borrowed absent (
                  index_pool_borrow-BorrowContract v.store_valid.coherent.pool_valid packet.time
                    real))
        ]
      ]

-- The whole handler.
abbrev pub Handles : Policer → Packet → Policer × Option Output → Type 0
Handles nf packet (nf', out) =
    if is_ipv4 packet.bytes
    then (if packet.device == nf.wan_device
        then Polices nf packet (dst_addr packet.bytes 14) (nf', out)
        else (nf' ≡ nf) × (out ≡ passed packet))
    else (nf' ≡ nf) × (out ≡ none)

-- What the policer's nf_handle does with each packet, at a real time on a valid table: it drops
-- what is not IPv4 and forwards what comes from inside; a packet for an address with a bucket
-- refills the bucket, and takes its length and passes if it leaves something there; a new address
-- gets a full bucket less the packet's length, if the packet fits and not every index is taken by a
-- young address; no other bucket changes, but an expired one may go.
pub nf_handle-Polices :
    {nf : Policer} (packet : Packet)
    → IsValid nf
    → IsTime packet.time
    → Handles nf packet (nf_handle nf packet)
unfolding nf_handle get_ipv4
nf_handle-Polices {nf} packet v real = elim (Bool-cases (is_ipv4 packet.bytes)) [
  | inr other ↦ rw (other, nf_handle) (refl, refl)
  | inl ip ↦ elim (Bool-cases (packet.device == nf.wan_device)) [
    | inl wan ↦ rw (ip, wan, nf_handle) (police-Polices v packet real (dst_addr packet.bytes 14))
    | inr lan ↦ rw (ip, lan, nf_handle) (refl, refl)
  ]
]

-- With two devices and its four parameters in the configuration, neither the rate nor the burst
-- zero, the policer's nf_init succeeds: the table is valid, of the given size and parameters, and
-- no address has a bucket.
pub nf_init-bucket_of :
    (items : List ConfigItem) {wan_device rate burst max_flows : ℕ}
    → os_config_get_device items (codes "wan device") 2 ≡ some wan_device
    → os_config_get_u64 items (codes "rate") ≡ some rate
    → os_config_get_u64 items (codes "burst") ≡ some burst
    → os_config_get_size items (codes "max flows") ≡ some max_flows
    → 0 < rate
    → 0 < burst
    → (nf : Policer) × (nf_init items 2 ≡ some nf)
      × IsValid nf
      × (nf.wan_device ≡ wan_device)
      × (nf.rate ≡ rate)
      × (nf.burst ≡ burst)
      × (nf.pool.size ≡ max_flows)
      × (nf.pool.expiration_time ≡ expiration_of rate burst)
      × ((address : ℕ) → bucket_of nf address ≡ none)
unfolding nf_init bucket_of
nf_init-bucket_of items {wan_device} {rate} {burst} {max_flows} d r b s rate_pos burst_pos =
    let small = os_config_get_size-lt items (codes "max flows") s in
    let some_rate : (rate == 0) ≡ false = ground arith in
    let some_burst : (burst == 0) ≡ false = ground arith in
    let (m, alloc, (valid, size, exp, empty)) =
      fresh-IsStore address_bytes 0 sizeof_address (length-bytes_of sizeof_address) max_flows
        (expiration_of rate burst) (omega arith) in
    let (_, _, _, unused, _) = index_pool_alloc-IsValid max_flows (expiration_of rate burst) in
    (
      _,
      rw (d, r, b, s, some_rate, some_burst, alloc) refl,
      record {
        store_valid = valid;
        bucket_count = length-replicate max_flows zero_bucket ∙ sym size;
        rate_pos = rate_pos;
        burst_lt = os_config_get_u64-lt items (codes "burst") b;
        timed = λ k t e. absurd (let clash : none ≡ some t = sym (unused k) ∙ e in cc);
        bounded = λ k t e. absurd (let clash : none ≡ some t = sym (unused k) ∙ e in cc);
      },
      refl,
      refl,
      refl,
      size,
      exp,
      λ address.
          let absent =
            view-none valid.coherent (address_bytes address)
              (length-bytes_of sizeof_address address ∙ sym valid.same_key_size) (empty address) in
          rw absent refl,
    )
