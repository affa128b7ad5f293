-- ===== src/Net/Checksum.antt =====
-- The incremental checksum of env/include/net/packet.h against RFC 1624, which it cites.
use klint.Base.{ℕ, ◌+◌, ◌-◌, ◌/◌, ◌%◌, ◌<◌, ◌≡◌, arith}
use klint.Memory.{u16_mod}
use klint.Net.{updated_checksum}

-- `~` on 16 bits.
abbrev pub not16 : ℕ → ℕ
not16 word = u16_mod - 1 - word

-- The carries out of 16 bits are added back in.
abbrev pub fold : ℕ → ℕ
fold sum = sum % u16_mod + sum / u16_mod

-- Equation 3 of RFC 1624, HC' = ~(~HC + ~m + m'), in one's complement.
abbrev pub rfc1624 : ℕ → ℕ → ℕ → ℕ
rfc1624 checksum old_word new_word =
    not16 (fold (fold (not16 checksum + not16 old_word + new_word)))

-- The carries that the code does not add back.
abbrev pub carries : ℕ → ℕ → ℕ → ℕ
carries checksum old_word new_word =
    let sum = not16 checksum + not16 old_word + new_word in sum / u16_mod + fold sum / u16_mod

-- For 16-bit words the checksum of net_checksum_update is that of equation 3 of RFC 1624 plus the
-- number of carries out of 16 bits, which the code does not add back.
pub updated_checksum-rfc1624 :
    (checksum old_word new_word : ℕ)
    → checksum < u16_mod
    → old_word < u16_mod
    → new_word < u16_mod
    → updated_checksum checksum old_word new_word
      ≡ (rfc1624 checksum old_word new_word + carries checksum old_word new_word) % u16_mod
unfolding updated_checksum
updated_checksum-rfc1624 checksum old_word new_word p q r = omega arith
