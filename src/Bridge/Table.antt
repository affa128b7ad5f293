-- ===== src/Bridge/Table.antt =====
-- nf/bridge/bridge.c: the table of addresses keeps its invariant, and learning an address changes the
-- device of that address alone.
use klint.Base.{
  ℕ, ◌<◌, ◌≡◌, refl, ◌⊎◌, false, Option, none, some, length, set, length-set, bytes_eq,
  Option-cases, inl, inr, sym, ap, ◌∙◌, arith,
}
use klint.Memory.Words.{length-bytes_of}
use klint.Map.{map_get}
use klint.IndexPool.{Borrowed, index_pool_borrow}
use klint.IndexPool.Borrow.{BorrowContract, IsYoung, index_pool_borrow-BorrowContract}
use klint.KeyTable.{IsTime}
use klint.KeyTable.View.{WasExpired}
use klint.KeyTable.Store.{Store, IsStore, Uses, last_use, refresh-Uses, claim-Uses}
use klint.KeyTable.Values.{value_of, Uses-value, Uses-other_values}
use klint.Bridge.{Bridge, sizeof_ether_addr, ether_bytes, ether_memory, learn_at, learn}

abbrev pub store_of : Bridge → Store ℕ
store_of nf = record { keys = nf.addresses; indexes = nf.map; pool = nf.allocator }

pub record IsValid (nf : Bridge) : Type 0 where
  pub store_valid : IsStore ether_bytes 0 sizeof_ether_addr (store_of nf)
  pub device_count : length nf.devices ≡ nf.allocator.size

-- The device of an address, if it is known.
abbrev pub device_of : Bridge → ℕ → Option ℕ
device_of nf address = value_of ether_bytes 0 0 (store_of nf) nf.devices address

abbrev pub last_seen : Bridge → ℕ → Option ℕ
last_seen nf address = last_use ether_bytes 0 (store_of nf) address

-- The address is at the device, seen at the time; the other addresses are where they were, but for one
-- that may have expired.
pub record Learns (nf : Bridge) (time address device : ℕ) (nf' : Bridge) : Type 0 where
  pub valid : IsValid nf'
  pub same_stp : nf'.stp_state ≡ nf.stp_state
  pub same_expiration : nf'.allocator.expiration_time ≡ nf.allocator.expiration_time
  pub here : device_of nf' address ≡ some device
  pub seen : last_seen nf' address ≡ some time
  pub others :
      (q : ℕ)
      → bytes_eq (ether_bytes address) (ether_bytes q) ≡ false
      → (device_of nf' q ≡ device_of nf q)
        ⊎ ((device_of nf' q ≡ none) × WasExpired time nf.allocator.expiration_time (last_seen nf q))

-- No change: the address is new, and every index is taken by a young address.
abbrev pub Full : Bridge → ℕ → ℕ → Bridge → Type 0
Full nf time address nf' =
    (nf' ≡ nf)
    × (device_of nf address ≡ none)
    × ((k : ℕ) → k < nf.allocator.size → IsYoung nf.allocator time k)

abbrev updated : Bridge → Store ℕ → ℕ → ℕ → Bridge
updated nf s index device = record nf {
  addresses = s.keys;
  map = s.indexes;
  allocator = s.pool;
  devices = set nf.devices index device;
}

module _ {nf : Bridge} (v : IsValid nf) (time : ℕ) (real : IsTime time) (address device : ℕ) where
  Uses-Learns :
      {index : ℕ} (s' : Store ℕ)
      → Uses ether_bytes 0 sizeof_ether_addr (store_of nf) time index address s'
      → Learns nf time address device (updated nf s' index device)
  Uses-Learns {index} s' u =
      let sized = length-bytes_of sizeof_ether_addr in
      let room : index < length nf.devices = omega (arith, u.index_lt, v.device_count) in
      record {
        valid = record {
          store_valid = u.valid;
          device_count = length-set nf.devices index device ∙ v.device_count ∙ sym u.same_size;
        };
        same_stp = refl;
        same_expiration = u.same_expiration;
        here = Uses-value ether_bytes 0 0 sizeof_ether_addr sized u nf.devices device room;
        seen = u.seen;
        others = λ q ne.
            Uses-other_values ether_bytes 0 0 sizeof_ether_addr sized u nf.devices device room q ne;
      }

  learn_at-Learns :
      (b : Borrowed)
      → map_get (ether_memory nf.addresses) nf.map (ether_bytes address) ≡ none
      → BorrowContract nf.allocator time b
      → Learns nf time address device (learn_at nf address device b)
        ⊎ Full nf time address (learn_at nf address device b)
  unfolding learn_at
  learn_at-Learns (allocator, none) got (same, all) =
      inr (ap (λ p. record nf { allocator = p }) same, rw got refl, all)
  learn_at-Learns (allocator, some (index, was_used)) got contract = inl (
      Uses-Learns _ (
        claim-Uses ether_bytes 0 sizeof_ether_addr (length-bytes_of sizeof_ether_addr) v.store_valid
          time address allocator index was_used got contract))

  -- `learn` puts the address at the device; or it is new, every index is taken by a young address, and
  -- the table stays as it is.
  pub learn-Learns :
      Learns nf time address device (learn nf address time device)
      ⊎ Full nf time address (learn nf address time device)
  unfolding learn
  learn-Learns =
      elim (Option-cases (map_get (ether_memory nf.addresses) nf.map (ether_bytes address))) [
        | inl absent ↦
            let borrowed = index_pool_borrow nf.allocator time in
            let new : learn nf address time device ≡ learn_at nf address device borrowed =
              rw (absent, learn) refl in
            rw new (
              learn_at-Learns borrowed absent
                (index_pool_borrow-BorrowContract v.store_valid.coherent.pool_valid time real))
        | inr (index, got) ↦
            rw (got, learn)
              (inl (
                Uses-Learns _ (
                  refresh-Uses ether_bytes 0 sizeof_ether_addr (length-bytes_of sizeof_ether_addr)
                    v.store_valid time index address real got)))
      ]
