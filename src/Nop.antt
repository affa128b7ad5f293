-- ===== src/Nop.antt =====
-- nf/nop/nop.c: packets of the WAN device go to the LAN device, and the others to the WAN device.
use klint.Base.{
  ℕ, ◌<◌, ◌≡◌, refl, ◌≢◌, false, not, Option, none, some, List, ◌==◌, if◌then◌else◌, Bool-cases,
  inl, inr, arith,
}
use klint.Base.Options.{◌>>=◌}
use klint.Memory.{u16_mod}
use klint.Net.{Packet, Output, net_transmit, update_ether_addrs}
use klint.Net.Delivery.{IsSendable}
use klint.Config.{ConfigItem, codes, os_config_get_device}
use klint.Config.Get.{os_config_get_device-lt}

-- The global variables.
pub record Nop : Type 0 where
  pub wan_device : ℕ
  pub lan_device : ℕ

-- `none` for `false`.
unfoldable pub nf_init : List ConfigItem → ℕ → Option Nop
nf_init items devices_count = do
  wan_device ← os_config_get_device items (codes "wan device") devices_count
  lan_device ← os_config_get_device items (codes "lan device") devices_count
  if not (lan_device == wan_device)
      then some (record { wan_device = wan_device; lan_device = lan_device })
      else none

unfoldable pub nf_handle : Nop → Packet → Output
nf_handle nf packet =
    let dst_device = if packet.device == nf.wan_device then nf.lan_device else nf.wan_device in
    net_transmit packet dst_device update_ether_addrs

-- Two devices, so no packet goes back to its own.
pub nf_init-nf_handle :
    (items : List ConfigItem) (devices_count : ℕ) {wan_device lan_device : ℕ} (packet : Packet)
    → 0 < devices_count
    → devices_count < u16_mod
    → os_config_get_device items (codes "wan device") devices_count ≡ some wan_device
    → os_config_get_device items (codes "lan device") devices_count ≡ some lan_device
    → wan_device ≢ lan_device
    → packet.device < devices_count
    → (nf : Nop) × (nf_init items devices_count ≡ some nf)
      × IsSendable devices_count (nf_handle nf packet)
unfolding nf_init nf_handle
nf_init-nf_handle items devices_count {wan_device} {lan_device} packet pos few w l ne own =
    let wan_lt = os_config_get_device-lt items (codes "wan device") devices_count pos few w in
    let lan_lt = os_config_get_device-lt items (codes "lan device") devices_count pos few l in
    let differ : (lan_device == wan_device) ≡ false = ground arith in
    (
      record { wan_device = wan_device; lan_device = lan_device },
      rw (w, l, differ) refl,
      elim (Bool-cases (packet.device == wan_device)) [
        | inl from_wan ↦ rw from_wan (own, lan_lt, λ e. ground arith)
        | inr other ↦ rw other (own, wan_lt, λ e. ground arith)
      ],
    )
