-- ===== src/Config/Get.antt =====
-- What the reads of env/include/os/config.h and env/src/os/config.c return.
use klint.Base.{
  ℕ, zero, suc, ◌+◌, ◌-◌, ◌/◌, ◌^◌, ◌≤◌, ◌<◌, ◌≡◌, refl, some, List, [], ◌∷◌, length, get_or,
  bytes_eq, arith,
}
use klint.Base.Options.{>>=-eq-some}
use klint.Memory.{u64_mod, u16_mod}
use klint.Config.{
  ConfigItem, compare_from, string_compare, os_config_try_get, os_config_get, os_config_get_size,
  os_config_get_u16, os_config_get_u64, os_config_get_device,
}

-- No character is a NUL.
abbrev pub IsString : List ℕ → Type 0
IsString [] = Unit {0}
IsString (c ∷ s) = (0 < c) × IsString s

compare_from_shift :
    (x y : ℕ) (a b : List ℕ) (fuel n : ℕ)
    → compare_from fuel (x ∷ a) (y ∷ b) (suc n) ≡ compare_from fuel a b n
unfolding compare_from get_or
compare_from_shift x y a b zero n = refl
compare_from_shift x y a b (suc fuel) n =
    let next : suc n + 1 ≡ suc (n + 1) = omega arith in
    rw (next, compare_from_shift x y a b fuel (n + 1)) refl

compare_from-bytes_eq :
    (a b : List ℕ) (fuel : ℕ)
    → IsString a
    → IsString b
    → length a < fuel
    → compare_from fuel a b 0 ≡ bytes_eq a b
unfolding compare_from get_or bytes_eq
compare_from-bytes_eq a b zero p q h = absurd (omega arith)
compare_from-bytes_eq [] [] (suc fuel) p q h = refl
compare_from-bytes_eq [] (y ∷ b) (suc fuel) p q h = ground arith
compare_from-bytes_eq (x ∷ a) [] (suc fuel) p q h = ground arith
compare_from-bytes_eq (x ∷ a) (y ∷ b) (suc fuel) p q h =
    let next : ◌≡◌ {A = ℕ} (0 + 1) 1 = refl in
    ground (arith, compare_from_shift x y a b fuel 0, compare_from-bytes_eq a b fuel)

-- For two strings without a NUL character, string_compare decides whether they are equal.
pub string_compare-bytes_eq :
    (a b : List ℕ) → IsString a → IsString b → string_compare a b ≡ bytes_eq a b
unfolding string_compare
string_compare-bytes_eq a b p q = compare_from-bytes_eq a b (length a + 1) p q (omega arith)

os_config_get-le :
    (items : List ConfigItem) (name : List ℕ) (max : ℕ) {value : ℕ}
    → os_config_get items name 0 max ≡ some value
    → value ≤ max
unfolding os_config_get
os_config_get-le items name max h =
    let (v, _, e) = >>=-eq-some (os_config_try_get items name) _ h in ground arith

-- A size read from the configuration is small enough for `map_alloc`.
pub os_config_get_size-lt :
    (items : List ConfigItem) (name : List ℕ) {value : ℕ}
    → os_config_get_size items name ≡ some value
    → value < 2 ^ 58
unfolding os_config_get_size
os_config_get_size-lt items name h =
    omega (arith, os_config_get-le items name ((u64_mod - 1) / 64) h)

pub os_config_get_u16-lt :
    (items : List ConfigItem) (name : List ℕ) {value : ℕ}
    → os_config_get_u16 items name ≡ some value
    → value < u16_mod
unfolding os_config_get_u16
os_config_get_u16-lt items name h = omega (arith, os_config_get-le items name (u16_mod - 1) h)

pub os_config_get_u64-lt :
    (items : List ConfigItem) (name : List ℕ) {value : ℕ}
    → os_config_get_u64 items name ≡ some value
    → value < u64_mod
unfolding os_config_get_u64
os_config_get_u64-lt items name h = omega (arith, os_config_get-le items name (u64_mod - 1) h)

-- A device read from the configuration is one of the devices.
pub os_config_get_device-lt :
    (items : List ConfigItem) (name : List ℕ) (devices_count : ℕ) {device : ℕ}
    → 0 < devices_count
    → devices_count < u16_mod
    → os_config_get_device items name devices_count ≡ some device
    → device < devices_count
unfolding os_config_get_device
os_config_get_device-lt items name devices_count p q h =
    let (v, got, e) = >>=-eq-some (os_config_get items name 0 _) _ h in
    ground (arith, os_config_get-le items name _ got)
