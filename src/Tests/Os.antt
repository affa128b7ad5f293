-- ===== src/Tests/Os.antt =====
-- The clock of a machine whose counter runs at 2.4 GHz, and pages of 4096 bytes.
use klint.Base.{ℕ, ◌+◌, ◌*◌, ◌/◌, ◌%◌, ◌^◌, ◌≤◌, ◌<◌, ◌≡◌, refl, Option, none, some, [], ◌∷◌, arith}
use klint.Memory.{u64_mod}
use klint.Os.Clock.{
  Frequency, os_clock_time_ns, tsc_get_nhz, reduce_from, os_init, wait_from, os_clock_sleep_ns,
}
use klint.Os.Clock.Rate.{os_clock_time_ns-os_init}
use klint.Os.Clock.Sleep.{os_clock_sleep_ns-none}
use klint.Os.Paging.{os_memory_pagesize, phys_of, os_memory_virt_to_phys}
use klint.Os.Paging.Frames.{os_memory_virt_to_phys-page}
use klint.Os.Endian.{swap16, swap32}
use klint.Os.Pci.{io_port_out32, io_port_out8, io_port_in32, os_pci_read}

evaluation : Unit {0}
unfolding os_clock_time_ns tsc_get_nhz reduce_from os_init wait_from os_clock_sleep_ns
    os_memory_pagesize phys_of os_memory_virt_to_phys os_pci_read
evaluation = tt

reduced : os_init 2400000000 ≡ some (record { cpu_freq_numerator = 24; cpu_freq_denominator = 10 })
unfolding evaluation
reduced = refl

stopped : os_init 0 ≡ none
unfolding evaluation
stopped = refl

os_clock_time_ns-os_init_example :
    (f : Frequency) × (time : ℕ) × (os_init 2400000000 ≡ some f)
    × (os_clock_time_ns f 12345678901 ≡ some time)
    × (2400000000 * time ≤ 12345678901 * 10 ^ 9)
    × (12345678901 * 10 ^ 9 < 2400000000 * (time + f.cpu_freq_denominator))
os_clock_time_ns-os_init_example =
    os_clock_time_ns-os_init 2400000000 12345678901 (omega arith) (omega arith) (omega arith)

-- The register gives the ratio 24; the counter advances by 24 between two calls.
abbrev read_msr : ℕ → ℕ
read_msr index = 0x1800

abbrev tsc : ℕ → ℕ
tsc i = 24 * i % 2 ^ 60

abbrev times : ℕ → ℕ
times i = tsc i / 24 * 10 % u64_mod

-- A wait of 30 ns ends at the third call after the first.
waited : os_clock_sleep_ns times 30 100 ≡ some 3
unfolding evaluation
waited = refl

os_clock_sleep_ns-none_example : os_clock_sleep_ns times 15 100 ≡ none
unfolding evaluation
os_clock_sleep_ns-none_example =
    os_clock_sleep_ns-none read_msr tsc times 15 100 (λ i. omega arith) (λ i. refl) (omega arith)
      (omega arith)

-- Every page has frame 5.
abbrev pagemap : ℕ → Option ℕ
pagemap offset = some (2 ^ 63 + 5)

os_memory_virt_to_phys-page_example :
    (phys : ℕ) × (os_memory_virt_to_phys 4096 pagemap 8292 ≡ some phys)
    × ((20483 + 8292) % u64_mod ≡ (phys + 8195) % u64_mod)
unfolding evaluation
os_memory_virt_to_phys-page_example =
    os_memory_virt_to_phys-page 4096 pagemap (omega arith) (omega arith) 8195 8292 {phys = 20483}
      refl refl

-- A page that is not present.
absent : os_memory_virt_to_phys 4096 (λ offset. some 5) 8195 ≡ none
unfolding evaluation
absent = refl

selected :
    os_pci_read (record { bus = 2; device = 3; function = 1 }) 0x10
    ≡ io_port_out32 0xCF8 0x80021910 ∷ io_port_out8 0x80 0 ∷ io_port_in32 0xCFC ∷ []
unfolding evaluation
selected = refl

swapped16 : swap16 0x1234 ≡ 0x3412
swapped16 = refl

-- The bytes in the middle are not swapped: the masks are for the byte at the end.
swapped32 : swap32 0x12345678 ≡ 0x78000056
swapped32 = refl
