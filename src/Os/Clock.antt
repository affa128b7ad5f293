-- ===== src/Os/Clock.antt =====
-- env/include/os/clock.h and env/include/arch/tsc.h: the time from the processor's counter, with the
-- frequencies that `os_init` of env/src/os/dpdk/init.c, env/src/os/linux/init.c and
-- env/src/os/metal/init.c set, and the waits of the `clock.c` beside them.
pub mod Rate
pub mod Sleep
use klint.Base.{
  ℕ, zero, suc, ◌+◌, ◌*◌, ◌/◌, ◌%◌, ◌^◌, bit_and, Option, none, some, ◌==◌, if◌then◌else◌,
}
use klint.Memory.{u64_mod}

-- The two global variables.
pub record Frequency : Type 0 where
  pub cpu_freq_numerator : ℕ
  pub cpu_freq_denominator : ℕ

-- The time at a value of the counter, or nothing where the division traps.
unfoldable pub os_clock_time_ns : Frequency → ℕ → Option ℕ
os_clock_time_ns f tsc =
    if f.cpu_freq_numerator == 0
    then none
    else some (tsc / f.cpu_freq_numerator * f.cpu_freq_denominator % u64_mod)

-- What `os_init` gets on Linux and on the bare machine, from a function that reads a register.
unfoldable pub tsc_get_nhz : (ℕ → ℕ) → Frequency
tsc_get_nhz read_msr =
    let msr = read_msr 0xCE in
    record { cpu_freq_numerator = bit_and (msr / 2 ^ 8) 0xFF; cpu_freq_denominator = 10 }

-- The loop of `os_init` over DPDK.
unfoldable pub reduce_from : ℕ → Frequency → Frequency
reduce_from zero f = f
reduce_from (suc rounds) f =
    let rest = reduce_from rounds (record {
      cpu_freq_numerator = f.cpu_freq_numerator / 10;
      cpu_freq_denominator = f.cpu_freq_denominator / 10;
    }) in
    if f.cpu_freq_numerator % 10 == 0 then rest else f

-- `os_init` over DPDK, with what `rte_get_tsc_hz` returns, or nothing where it panics. A counter of 64
-- bits is divided by 10 fewer than 20 times.
unfoldable pub os_init : ℕ → Option Frequency
unfolding reduce_from
os_init tsc_hz =
    if tsc_hz == 0
    then none
    else some
        (reduce_from 20 (record { cpu_freq_numerator = tsc_hz; cpu_freq_denominator = 1000000000 }))

-- `struct timespec`.
pub record Timespec : Type 0 where
  pub tv_sec : ℕ
  pub tv_nsec : ℕ

-- What `os_clock_sleep_ns` on Linux asks of `nanosleep`.
abbrev pub timespec_of : ℕ → Timespec
timespec_of ns = record { tv_sec = ns / 1000000000; tv_nsec = ns % 1000000000 }

-- The loop of `os_clock_sleep_ns` on the bare machine, over the times that the clock returns from call
-- number i on; the number of the call that ends it.
unfoldable pub wait_from : (ℕ → ℕ) → ℕ → ℕ → ℕ → Option ℕ
wait_from times target zero i = none
wait_from times target (suc rounds) i =
    let rest = wait_from times target rounds (i + 1) in if times i == target then some i else rest

-- `os_clock_sleep_ns` on the bare machine, as far as `rounds` rounds.
unfoldable pub os_clock_sleep_ns : (ℕ → ℕ) → ℕ → ℕ → Option ℕ
unfolding wait_from
os_clock_sleep_ns times ns rounds = wait_from times ((times 0 + ns) % u64_mod) rounds 1
