-- ===== src/Os/Pci.antt =====
-- env/include/os/pci.h: the accesses to the ports by which a register of a PCI device is read or written.
use Prim.Native.Nat.{bit_or}
use klint.Base.{ℕ, ◌*◌, ◌^◌, ◌<◌, ◌+◌, ◌≡◌, List, [], ◌∷◌, ◌∙◌, arith}
use klint.Base.Bits.{bit_or-low}

-- `struct os_pci_address`.
pub record PciAddress : Type 0 where
  pub bus : ℕ
  pub device : ℕ
  pub function : ℕ

-- An access to a port; `io_port_in32` is the read.
pub data PortAccess : Type 0 where
  io_port_out32 : ℕ → ℕ → PortAccess
  io_port_out8 : ℕ → ℕ → PortAccess
  io_port_in32 : ℕ → PortAccess

-- `PCI_CONFIG_ADDR`
abbrev pub pci_config_addr : ℕ
pci_config_addr = 0xCF8

-- `PCI_CONFIG_DATA`
abbrev pub pci_config_data : ℕ
pci_config_data = 0xCFC

-- The word that selects the register.
abbrev pub config_word : PciAddress → ℕ → ℕ
config_word address reg =
    let bus = address.bus * 2 ^ 16 in
    let device = address.device * 2 ^ 11 in
    let function = address.function * 2 ^ 8 in
    bit_or (bit_or (bit_or (bit_or 0x80000000 bus) device) function) reg

-- The accesses of a read, of which the last one gives the value.
unfoldable pub os_pci_read : PciAddress → ℕ → List PortAccess
os_pci_read address reg =
    io_port_out32 pci_config_addr (config_word address reg)
    ∷ io_port_out8 0x80 0
    ∷ io_port_in32 pci_config_data
    ∷ []

unfoldable pub os_pci_write : PciAddress → ℕ → ℕ → List PortAccess
os_pci_write address reg value =
    io_port_out32 pci_config_addr (config_word address reg)
    ∷ io_port_out8 0x80 0
    ∷ io_port_out32 pci_config_data value
    ∷ []

-- A bus of 8 bits, a device of 5 and a function of 3, as the PCI standard numbers them.
pub record IsPci (address : PciAddress) : Type 0 where
  pub bus_lt : address.bus < 256
  pub device_lt : address.device < 32
  pub function_lt : address.function < 8

config_word-sum :
    (address : PciAddress) (reg : ℕ)
    → IsPci address
    → reg < 256
    → config_word address reg
      ≡ 0x80000000 + address.bus * 2 ^ 16 + address.device * 2 ^ 11 + address.function * 2 ^ 8 + reg
config_word-sum address reg v lt =
    let b = address.bus in
    let d = address.device in
    let f = address.function in
    let first : bit_or 0x80000000 (b * 2 ^ 16) ≡ (0x8000 + b) * 2 ^ 16 =
      bit_or-low 24 128 (b * 2 ^ 16) (omega (arith, v.bus_lt)) ∙ omega arith in
    let second : bit_or ((0x8000 + b) * 2 ^ 16) (d * 2 ^ 11) ≡ ((0x8000 + b) * 2 ^ 5 + d) * 2 ^ 11 =
      bit_or-low 16 (0x8000 + b) (d * 2 ^ 11) (omega (arith, v.device_lt)) ∙ omega arith in
    let third : bit_or (((0x8000 + b) * 2 ^ 5 + d) * 2 ^ 11) (f * 2 ^ 8)
        ≡ (((0x8000 + b) * 2 ^ 5 + d) * 2 ^ 3 + f) * 2 ^ 8 =
      bit_or-low 11 ((0x8000 + b) * 2 ^ 5 + d) (f * 2 ^ 8) (omega (arith, v.function_lt))
      ∙ omega arith in
    rw (first, second, third)
      (bit_or-low 8 (((0x8000 + b) * 2 ^ 5 + d) * 2 ^ 3 + f) reg lt ∙ omega arith)

-- Two registers, of addresses whose parts have 8, 5 and 3 bits, have the same word only if they are
-- the same register of the same bus, device and function.
pub config_word-injective :
    (p q : PciAddress) (r s : ℕ)
    → IsPci p
    → IsPci q
    → r < 256
    → s < 256
    → config_word p r ≡ config_word q s
    → (p.bus ≡ q.bus) × (p.device ≡ q.device) × (p.function ≡ q.function) × (r ≡ s)
config_word-injective p q r s vp vq r_lt s_lt e =
    let sum_p = config_word-sum p r vp r_lt in
    let sum_q = config_word-sum q s vq s_lt in
    (
      omega (arith, sum_p, sum_q, vp.device_lt, vq.device_lt, vp.function_lt, vq.function_lt),
      omega (arith, sum_p, sum_q, vp.device_lt, vq.device_lt, vp.function_lt, vq.function_lt),
      omega (arith, sum_p, sum_q, vp.function_lt, vq.function_lt),
      omega (arith, sum_p, sum_q),
    )
