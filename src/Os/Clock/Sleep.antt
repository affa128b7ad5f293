-- ===== src/Os/Clock/Sleep.antt =====
-- env/src/os/metal/clock.c: the wait for a time that the clock may never show.
use native.Mathlib.Nat.{mod-eq_of_lt, div-le_self}
use klint.Base.{
  ℕ, zero, suc, ◌+◌, ◌*◌, ◌/◌, ◌%◌, ◌≤◌, ◌<◌, ◌≡◌, ◌≢◌, refl, none, some, false, Bool-cases, ◌==◌,
  inl, inr, arith,
}
use klint.Memory.{u64_mod}
use klint.Os.Clock.{os_clock_time_ns, tsc_get_nhz, wait_from, os_clock_sleep_ns}

-- On the bare machine every time is a multiple of 10 until it overflows.
time-tens :
    (read_msr : ℕ → ℕ) (tsc : ℕ) {time : ℕ}
    → tsc * 10 < u64_mod
    → os_clock_time_ns (tsc_get_nhz read_msr) tsc ≡ some time
    → time % 10 ≡ 0
unfolding os_clock_time_ns tsc_get_nhz
time-tens read_msr tsc {time} fits e =
    let f = tsc_get_nhz read_msr in
    let n = f.cpu_freq_numerator in
    let less : tsc / n ≤ tsc = div-le_self tsc n in
    elim (Bool-cases (n == 0)) [
      | inl zeroed ↦ absurd (let clash : none ≡ some time = rw zeroed at e in cc)
      | inr nonzero ↦
          let same : some (tsc / n * 10 % u64_mod) ≡ some time = rw nonzero at e in
          let plain : tsc / n * 10 % u64_mod ≡ tsc / n * 10 = mod-eq_of_lt (omega arith) in
          let eq : tsc / n * 10 % u64_mod ≡ time = cc in omega (arith, plain, eq)
    ]

wait_from-none :
    (times : ℕ → ℕ) (target rounds i : ℕ)
    → ((k : ℕ) → times k ≢ target)
    → wait_from times target rounds i ≡ none
unfolding wait_from
wait_from-none times target zero i never = refl
wait_from-none times target (suc rounds) i never =
    let ne : (times i == target) ≡ false = ground (arith, never i) in
    rw ne (wait_from-none times target rounds (i + 1) never)

-- On the bare machine, where the clock counts in steps of 10 ns, os_clock_sleep_ns does not return
-- for a number of nanoseconds that is not a multiple of 10, however often it asks for the time, as
-- long as ten times the counter, at each time it asks, and the time to wait for fit in 64 bits.
pub os_clock_sleep_ns-none :
    (read_msr tsc times : ℕ → ℕ) (ns rounds : ℕ)
    → ((i : ℕ) → tsc i * 10 < u64_mod)
    → ((i : ℕ) → os_clock_time_ns (tsc_get_nhz read_msr) (tsc i) ≡ some (times i))
    → times 0 + ns < u64_mod
    → ns % 10 ≢ 0
    → os_clock_sleep_ns times ns rounds ≡ none
unfolding os_clock_sleep_ns
os_clock_sleep_ns-none read_msr tsc times ns rounds fits clock room odd =
    let tens : (i : ℕ) → times i % 10 ≡ 0 =
      λ i. time-tens read_msr (tsc i) {time = times i} (fits i) (clock i) in
    let target : (times 0 + ns) % u64_mod ≡ times 0 + ns = mod-eq_of_lt room in
    wait_from-none times ((times 0 + ns) % u64_mod) rounds 1
      (λ k e. odd (omega (arith, tens k, tens 0)))
