-- ===== src/Policer/Table.antt =====
-- nf/policer/policer.c: the table of buckets keeps its invariant, and a packet to an address changes the
-- bucket of that address alone.
use klint.Base.{
  ℕ, ◌≤◌, ◌<◌, ◌≡◌, refl, ◌⊎◌, false, Option, none, some, length, get_or-set, set, length-set,
  bytes_eq, ◌==◌, if◌then◌else◌, Bool-cases, inl, inr, sym, ◌∙◌, arith,
}
use klint.Base.Options.{◌>>=◌}
use klint.Memory.{u64_mod}
use klint.Memory.Words.{length-bytes_of}
use klint.Map.{map_get}
use klint.IndexPool.Spec.{entry, pool_young}
use klint.KeyTable.View.{view-some}
use klint.KeyTable.Values.{Uses-value, Uses-other_values}
use klint.KeyTable.Store.{Store, IsStore, Uses, last_use}
use klint.Policer.{
  Bucket, Policer, zero_bucket, sizeof_address, address_bytes, address_memory, bucket_at,
}

abbrev pub store_of : Policer → Store ℕ
store_of nf = record { keys = nf.addresses; indexes = nf.map; pool = nf.pool }

pub record IsValid (nf : Policer) : Type 0 where
  pub store_valid : IsStore address_bytes 0 sizeof_address (store_of nf)
  pub bucket_count : length nf.buckets ≡ nf.pool.size
  pub rate_pos : 0 < nf.rate
  pub burst_lt : nf.burst < u64_mod
  -- The bucket of an index in use has the time of its last use, and no more than the burst.
  pub timed : (k t : ℕ) → entry nf.pool k ≡ some t → (bucket_at nf k).time ≡ t
  pub bounded : (k t : ℕ) → entry nf.pool k ≡ some t → (bucket_at nf k).size ≤ nf.burst

-- The bucket of an address, if it has one.
unfoldable pub bucket_of : Policer → ℕ → Option Bucket
bucket_of nf address =
    map_get (address_memory nf.addresses) nf.map (address_bytes address) >>= λ index.
    some (bucket_at nf index)

-- The address had a bucket, whose last use is not young at the time.
abbrev pub HadExpired : Policer → ℕ → ℕ → Type 0
HadExpired nf time address =
    (b : Bucket) × (bucket_of nf address ≡ some b)
    × (pool_young time nf.pool.expiration_time b.time ≡ false)

abbrev pub SameConfig : Policer → Policer → Type 0
SameConfig nf nf' =
    (nf'.wan_device ≡ nf.wan_device)
    × (nf'.rate ≡ nf.rate)
    × (nf'.burst ≡ nf.burst)
    × (nf'.pool.expiration_time ≡ nf.pool.expiration_time)

-- The address has the bucket now, and the other addresses have what they had, but for one that may
-- have lost an expired bucket.
pub record Puts (nf : Policer) (time address : ℕ) (bucket : Bucket) (nf' : Policer) : Type 0 where
  pub valid : IsValid nf'
  pub same_config : SameConfig nf nf'
  pub put : bucket_of nf' address ≡ some bucket
  pub others :
      (q : ℕ)
      → bytes_eq (address_bytes address) (address_bytes q) ≡ false
      → (bucket_of nf' q ≡ bucket_of nf q) ⊎ ((bucket_of nf' q ≡ none) × HadExpired nf time q)

abbrev updated : Policer → Store ℕ → ℕ → Bucket → Policer
updated nf s index bucket = record nf {
  addresses = s.keys;
  map = s.indexes;
  pool = s.pool;
  buckets = set nf.buckets index bucket;
}

module _ {nf : Policer} (v : IsValid nf) (time : ℕ) where
  address_sized : (address : ℕ) → length (address_bytes address) ≡ nf.map.key_size
  address_sized address = length-bytes_of sizeof_address address ∙ sym v.store_valid.same_key_size

  -- A bucket whose key is in view has the time of the view.
  bucket-HadExpired :
      (q : ℕ) {t : ℕ}
      → last_use address_bytes 0 (store_of nf) q ≡ some t
      → pool_young time nf.pool.expiration_time t ≡ false
      → HadExpired nf time q
  bucket-HadExpired q seen old =
      let (k, got, _, _, e) =
        view-some v.store_valid.coherent (address_bytes q) (address_sized q) seen in
      (bucket_at nf k, unfold bucket_of in rw got refl, rw (v.timed k _ e) old)

  -- What a bucket of another index keeps.
  module _ (address index : ℕ) (s' : Store ℕ) (bucket : Bucket)
      (u : Uses address_bytes 0 sizeof_address (store_of nf) time index address s') where
    room : index < length nf.buckets
    room = omega (arith, u.index_lt, v.bucket_count)

    bucket_at-updated :
        (k : ℕ)
        → bucket_at (updated nf s' index bucket) k ≡ (if index == k then bucket else bucket_at nf k)
    bucket_at-updated k = get_or-set nf.buckets index k bucket zero_bucket room

    updated-others :
        (q : ℕ)
        → bytes_eq (address_bytes address) (address_bytes q) ≡ false
        → (bucket_of (updated nf s' index bucket) q ≡ bucket_of nf q)
          ⊎ ((bucket_of (updated nf s' index bucket) q ≡ none) × HadExpired nf time q)
    unfolding bucket_of
    updated-others q ne =
        elim (Uses-other_values address_bytes 0 zero_bucket sizeof_address
          (length-bytes_of sizeof_address) u nf.buckets bucket room q ne) [
            | inl same ↦ inl same
            | inr (gone, (t, seen, old)) ↦
                inr (gone, unfold bucket_of in bucket-HadExpired q seen old)
          ]

    pub Uses-Puts :
        bucket.time ≡ time
        → bucket.size ≤ nf.burst
        → Puts nf time address bucket (updated nf s' index bucket)
    unfolding bucket_of
    Uses-Puts timely small = record {
      valid = record {
        store_valid = u.valid;
        bucket_count = length-set nf.buckets index bucket ∙ v.bucket_count ∙ sym u.same_size;
        rate_pos = v.rate_pos;
        burst_lt = v.burst_lt;
        timed = λ k t e. elim (Bool-cases (index == k)) [
          | inl here ↦
              let now : some time ≡ some t = sym (u.written k ∙ rw here refl) ∙ e in
              rw (bucket_at-updated k, here) (cc)
          | inr there ↦
              rw (bucket_at-updated k, there) (v.timed k t (sym (u.written k ∙ rw there refl) ∙ e))
        ];
        bounded = λ k t e. elim (Bool-cases (index == k)) [
          | inl here ↦ rw (bucket_at-updated k, here) small
          | inr there ↦
              rw (bucket_at-updated k, there)
                (v.bounded k t (sym (u.written k ∙ rw there refl) ∙ e))
        ];
      };
      same_config = (refl, refl, refl, u.same_expiration);
      put =
          Uses-value address_bytes 0 zero_bucket sizeof_address (length-bytes_of sizeof_address) u
            nf.buckets bucket room;
      others = λ q ne. updated-others q ne;
    }
