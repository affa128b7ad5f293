-- ===== src/Config.antt =====
-- env/src/os/config.c, env/include/os/config.h and `os_config_get_device` of
-- env/include/net/skeleton.h: the parameters that a network function reads when it starts. The
-- build fills in the items, so they are an argument. A C string is its characters without the NUL.
pub mod Get
use Prim.Native.String.{String}
use Prim.Native.Char.{code}
use klint.Base.{
  ℕ, zero, suc, ◌+◌, ◌-◌, ◌/◌, ◌%◌, ◌^◌, Bool, true, false, Option, none, some, List, [], ◌∷◌,
  length, get_or, leb, ltb, ◌==◌, if◌then◌else◌,
}
use klint.Base.Options.{◌>>=◌}
use klint.Memory.{u64_mod, u32_mod, u16_mod}

pub record ConfigItem : Type 0 where
  pub name : List ℕ
  pub value : ℕ

-- The characters of a literal.
abbrev pub codes : String → List ℕ
codes String.[] = []
codes (String.◌∷◌ c s) = code c ∷ codes s

-- `a[n]` of a string with its NUL.
abbrev pub char_at : List ℕ → ℕ → ℕ
unfolding get_or
char_at a n = get_or a n 0

-- The loop from n on; fuel that runs out is a difference, which `string_compare` never meets.
compare_from : ℕ → List ℕ → List ℕ → ℕ → Bool
compare_from zero a b n = false
compare_from (suc fuel) a b n =
    let rest = compare_from fuel a b (n + 1) in
    if char_at a n == char_at b n then (if char_at a n == 0 then true else rest) else false

-- The loop ends at the NUL of the first string at the latest.
unfoldable pub string_compare : List ℕ → List ℕ → Bool
unfolding compare_from
string_compare a b = compare_from (length a + 1) a b 0

unfoldable pub os_config_try_get : List ConfigItem → List ℕ → Option ℕ
unfolding string_compare
os_config_try_get [] name = none
os_config_try_get (item ∷ items) name =
    if string_compare item.name name then some item.value else os_config_try_get items name

-- A 64-bit word read as an `int64_t` is at least another, by their distances from the least.
abbrev pub signed_lt : ℕ → ℕ → Bool
signed_lt a b = ltb ((a + 2 ^ 63) % u64_mod) ((b + 2 ^ 63) % u64_mod)

unfoldable pub os_config_get : List ConfigItem → List ℕ → ℕ → ℕ → Option ℕ
unfolding os_config_try_get
os_config_get items name min max = do
  value ← os_config_try_get items name
  if min == 0
      then (if leb value max then some value else none)
      else if signed_lt value min
      then none
      else if leb value max
      then some value
      else none

unfoldable pub os_config_get_u64 : List ConfigItem → List ℕ → Option ℕ
unfolding os_config_get
os_config_get_u64 items name = os_config_get items name 0 (u64_mod - 1)

unfoldable pub os_config_get_u32 : List ConfigItem → List ℕ → Option ℕ
unfolding os_config_get
os_config_get_u32 items name = os_config_get items name 0 (u32_mod - 1)

unfoldable pub os_config_get_u16 : List ConfigItem → List ℕ → Option ℕ
unfolding os_config_get
os_config_get_u16 items name = os_config_get items name 0 (u16_mod - 1)

-- `SIZE_MAX / 64`.
unfoldable pub os_config_get_size : List ConfigItem → List ℕ → Option ℕ
unfolding os_config_get
os_config_get_size items name = os_config_get items name 0 ((u64_mod - 1) / 64)

-- `TIME_MIN` is 0.
unfoldable pub os_config_get_time : List ConfigItem → List ℕ → Option ℕ
unfolding os_config_get
os_config_get_time items name = os_config_get items name 0 (u64_mod - 1)

-- `devices_count - 1` is an `int`, and becomes a `uint64_t`; the result is cut to a `device_t`.
unfoldable pub os_config_get_device : List ConfigItem → List ℕ → ℕ → Option ℕ
unfolding os_config_get
os_config_get_device items name devices_count = do
  value ← os_config_get items name 0 ((devices_count + u64_mod - 1) % u64_mod)
  some (value % u16_mod)
