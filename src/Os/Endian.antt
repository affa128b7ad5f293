-- ===== src/Os/Endian.antt =====
-- env/include/arch/endian.h: the macros that reverse the bytes of an unsigned integer. On the little-endian
-- processors that are supported the calls of the repository do not expand to them.
use Prim.Native.Nat.{bit_or}
use klint.Base.{ℕ, ◌*◌, ◌/◌, ◌%◌, ◌^◌, bit_and}
use klint.Memory.{u16_mod, u32_mod}

-- The result of `swap16` is an `int`; this is what a 16-bit variable takes of it.
abbrev pub swap16 : ℕ → ℕ
swap16 val = bit_or (val * 2 ^ 8) (val / 2 ^ 8) % u16_mod

abbrev pub swap32 : ℕ → ℕ
swap32 val =
    bit_or
      (bit_or (bit_or (val * 2 ^ 24 % u32_mod) (bit_and (val * 2 ^ 8 % u32_mod) 0xFF))
        (bit_and (val / 2 ^ 8) 0xFF))
      (val / 2 ^ 24)
