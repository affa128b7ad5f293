-- ===== src/Policer/Limit.antt =====
-- nf/policer/policer.c: the bytes that `nf_handle` lets through to an address are paid from its credit.
use klint.Base.{
  ℕ, ◌+◌, ◌*◌, ◌≤◌, ◌<◌, ◌^◌, ◌≡◌, refl, Bool, true, false, ◌&&◌, Option, none, some, bytes_eq,
  bytes_eq→eq, ltb, ◌==◌, Bool-cases, inl, inr, sym, ap, ◌∙◌, arith,
}
use klint.KeyTable.{IsTime}
use klint.Net.{Packet, Output, dst_addr}
use klint.Net.Headers.{is_ipv4}
use klint.Policer.{Bucket, Policer, address_bytes, nf_handle, refilled}
use klint.Policer.Refill.{refilled-le, refilled-min}
use klint.Policer.Table.{IsValid, Puts, bucket_of}
use klint.Policer.Credit.{credit_with, Settled, expired-full}
use klint.Policer.Handle.{PolicesBucket, nf_handle-Polices}

abbrev pub credit : Policer → ℕ → ℕ → ℕ
credit nf address time = credit_with nf.rate nf.burst time (bucket_of nf address)

abbrev pub count_if : Bool → ℕ → Option Output → ℕ
count_if false length out = 0
count_if true length none = 0
count_if true length (some out) = length

-- The packet comes from the WAN device, for the address.
abbrev pub is_for : Policer → ℕ → Packet → Bool
is_for nf address packet =
    is_ipv4 packet.bytes
    && packet.device == nf.wan_device
    && bytes_eq (address_bytes (dst_addr packet.bytes 14)) (address_bytes address)

-- The bytes that `nf_handle` lets through to the address from the WAN device.
abbrev pub passed_to : Policer → ℕ → Packet → ℕ
passed_to nf address packet =
    count_if (is_for nf address packet) packet.length (nf_handle nf packet).1

-- The burst is that of k units of time, small enough for the sums, and an address is remembered at
-- least for the time in which its bucket fills.
pub record Limits (k : ℕ) (nf : Policer) : Type 0 where
  pub valid : IsValid nf
  pub exact : nf.burst ≡ k * nf.rate
  pub small : nf.burst < 2 ^ 63
  pub remembered : k ≤ nf.pool.expiration_time

-- The address has paid for what it has received.
pub record Paid (k address time spent : ℕ) (nf nf' : Policer) : Type 0 where
  pub limits : Limits k nf'
  pub same_rate : nf'.rate ≡ nf.rate
  pub same_burst : nf'.burst ≡ nf.burst
  pub settled : Settled time nf'.burst (bucket_of nf' address)
  pub paid : spent + credit nf' address time ≤ credit nf address time

bucket_of-same :
    (nf : Policer) (a b : ℕ) → address_bytes a ≡ address_bytes b → bucket_of nf a ≡ bucket_of nf b
unfolding bucket_of
bucket_of-same nf a b same = rw same refl

module _ {k : ℕ} {nf : Policer} (l : Limits k nf) (address time : ℕ)
    (settled : Settled time nf.burst (bucket_of nf address)) where
  Puts-Limits : {t d : ℕ} {bucket : Bucket} {nf' : Policer} → Puts nf t d bucket nf' → Limits k nf'
  Puts-Limits {nf' = nf'} p =
      let (_, rate, burst, expires) = p.same_config in
      record {
        valid = p.valid;
        exact = burst ∙ l.exact ∙ ap (λ (r : ℕ). k * r) (sym rate);
        small = rw burst l.small;
        remembered = rw expires l.remembered;
      }

  unchanged-Paid : {nf' : Policer} → nf' ≡ nf → Paid k address time 0 nf nf'
  unchanged-Paid same = rw same (record {
    limits = l;
    same_rate = refl;
    same_burst = refl;
    settled = settled;
    paid = omega arith;
  })

  Puts-Paid :
      (d : ℕ) (bucket : Bucket) (length : ℕ) (nf' : Policer) (out : Option Output)
      → Puts nf time d bucket nf'
      → bucket.time ≡ time
      → bucket.size ≤ nf.burst
      → (bytes_eq (address_bytes d) (address_bytes address) ≡ true
          → count_if true length out + bucket.size ≤ credit nf d time)
      → Paid k address time
          (count_if (bytes_eq (address_bytes d) (address_bytes address)) length out)
          nf
          nf'
  Puts-Paid d bucket length nf' out p now fits covers =
      let (_, rate, burst, _) = p.same_config in
      elim (Bool-cases (bytes_eq (address_bytes d) (address_bytes address))) [
        | inl own ↦
            let same = bytes_eq→eq (address_bytes d) (address_bytes address) own in
            let here : bucket_of nf' address ≡ some bucket =
              sym (bucket_of-same nf' d address same) ∙ p.put in
            let before : credit nf d time ≡ credit nf address time =
              ap (credit_with nf.rate nf.burst time) (bucket_of-same nf d address same) in
            record {
              limits = Puts-Limits p;
              same_rate = rate;
              same_burst = burst;
              settled = rw here (omega arith, rw burst fits);
              paid = let enough = covers own in rw (own, here, now) (ground arith);
            }
        | inr other ↦ elim (p.others address other) [
          | inl kept ↦ record {
            limits = Puts-Limits p;
            same_rate = rate;
            same_burst = burst;
            settled = rw (kept, burst) settled;
            paid = rw (other, kept, rate, burst) (omega arith);
          }
          | inr (gone, (b, had, old)) ↦
              let full =
                expired-full nf.rate nf.burst k nf.pool.expiration_time time b l.exact l.remembered
                  old in
              record {
                limits = Puts-Limits p;
                same_rate = rate;
                same_burst = burst;
                settled = rw gone tt;
                paid = rw (other, gone, burst, had) (omega arith);
              }
        ]
      ]

  -- The refilled bucket of the address has the credit of the address.
  refilled-credit :
      (d : ℕ) (bucket : Bucket)
      → IsTime time
      → bucket_of nf d ≡ some bucket
      → bytes_eq (address_bytes d) (address_bytes address) ≡ true
      → refilled nf.rate nf.burst bucket time ≡ credit nf d time
  refilled-credit d bucket real at own =
      let same = bytes_eq→eq (address_bytes d) (address_bytes address) own in
      let here : bucket_of nf address ≡ some bucket = sym (bucket_of-same nf d address same) ∙ at in
      let (before, fits) : (bucket.time ≤ time) × (bucket.size ≤ nf.burst) = rw here at settled in
      let exact : nf.burst ≡ k * nf.rate = l.exact in
      let small : k * nf.rate < 2 ^ 63 = rw (sym exact) l.small in
      let fits' : bucket.size ≤ k * nf.rate = rw (sym exact) fits in
      rw (at, exact)
        (refilled-min nf.rate k bucket time l.valid.rate_pos small fits' before (omega arith))

none_counted :
    (b : Bool) (length : ℕ) {out : Option Output} → out ≡ none → count_if b length out ≡ 0
none_counted true length dropped = rw dropped refl
none_counted false length dropped = refl

module _ {k : ℕ} {nf : Policer} (l : Limits k nf) (address : ℕ) (packet : Packet)
    (settled : Settled packet.time nf.burst (bucket_of nf address))
    (real : IsTime packet.time) where
  -- A packet that is dropped without a change costs nothing.
  dropped-Paid :
      (b : Bool) {nf' : Policer} {out : Option Output}
      → nf' ≡ nf
      → out ≡ none
      → Paid k address packet.time (count_if b packet.length out) nf nf'
  dropped-Paid b same dropped =
      rw (none_counted b packet.length dropped) (unchanged-Paid l address packet.time settled same)

  police-Paid :
      (d : ℕ) (nf' : Policer) (out : Option Output) (o : Option Bucket)
      → bucket_of nf d ≡ o
      → PolicesBucket nf packet d o nf' out
      → Paid k address packet.time
          (count_if (bytes_eq (address_bytes d) (address_bytes address)) packet.length out)
          nf
          nf'
  police-Paid d nf' out (some bucket) e did =
      let ready = refilled-credit l address packet.time settled d bucket real e in
      let small = refilled-le nf.rate nf.burst bucket packet.time in
      elim (Bool-cases (ltb packet.length (refilled nf.rate nf.burst bucket packet.time))) [
        | inl fits ↦
            let (p, passes) = rw fits at did in
            Puts-Paid l address packet.time settled d _ packet.length nf' out p refl (omega arith)
              (λ own. let r = ready own in rw passes (ground arith))
        | inr big ↦
            let (p, dropped) = rw big at did in
            Puts-Paid l address packet.time settled d _ packet.length nf' out p refl small
              (λ own. let r = ready own in rw dropped (omega arith))
      ]
  police-Paid d nf' out none e did =
      let own = bytes_eq (address_bytes d) (address_bytes address) in
      elim (Bool-cases (ltb nf.burst packet.length)) [
        | inl big ↦ let (same, dropped) = rw big at did in dropped-Paid own same dropped
        | inr fits ↦ elim (rw fits at did) [
          | inl (p, passes) ↦
              Puts-Paid l address packet.time settled d _ packet.length nf' out p refl (omega arith)
                (λ own. rw (passes, e) (ground arith))
          | inr (same, dropped, _) ↦ dropped-Paid own same dropped
        ]
      ]

  -- One packet.
  pub nf_handle-Paid :
      Paid k address packet.time (passed_to nf address packet) nf (nf_handle nf packet).0
  nf_handle-Paid =
      let did = nf_handle-Polices packet l.valid real in
      elim (Bool-cases (is_ipv4 packet.bytes)) [
        | inr other ↦
            let (same, dropped) = rw other at did in
            dropped-Paid (is_for nf address packet) same dropped
        | inl ip ↦ elim (Bool-cases (packet.device == nf.wan_device)) [
          | inr lan ↦
              let (same, _) = rw (ip, lan) at did in
              rw (ip, lan) (unchanged-Paid l address packet.time settled same)
          | inl wan ↦
              let polices = rw (ip, wan) at did in
              rw (ip, wan)
                (police-Paid (dst_addr packet.bytes 14) (nf_handle nf packet).0
                  (nf_handle nf packet).1 (bucket_of nf (dst_addr packet.bytes 14)) refl polices)
        ]
      ]
