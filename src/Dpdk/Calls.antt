-- ===== src/Dpdk/Calls.antt =====
-- env/src/net/dpdk/main.c: which queues a call adds its buffer to.
use klint.Base.{
  append-nil, ℕ, zero, suc, ◌+◌, ◌%◌, ◌≤◌, ◌<◌, ◌≡◌, refl, Bool, true, false, not, ◌&&◌, Option,
  none, some, List, [], length-set, get_or, get_or-set, set, take-set, ltb, leb, ◌==◌, ==_iff,
  if◌then◌else◌, Bool-cases, inl, inr, sym, ap, ◌∙◌, arith,
}
use klint.Memory.{u16_mod}
use klint.Net.{Output, net_transmit, net_flood, net_flood_except}
use klint.Net.Delivery.{goes_to, IsSendable, Sends}
use klint.Dpdk.{Driver, Queues, burst, enqueue, flood_from, send, send_any}
use klint.Dpdk.Adding.{count, row, IsRoomy, Adds, none-Adds, ext-Adds, then-Adds}

module _ (n batch_size : ℕ) (small : batch_size < u16_mod) (driver : Driver)
    (os_tag flags : ℕ) where
  enqueue-Adds :
      (device : ℕ) (bytes : List ℕ) (queues : Queues)
      → IsRoomy n batch_size queues
      → device < n
      → count queues device < batch_size
      → Adds n batch_size
          (λ d. device == d)
          os_tag
          queues
          (enqueue driver os_tag flags device (bytes, queues)).1
  unfolding enqueue burst
  enqueue-Adds device bytes queues roomy lt free =
      let c = count queues device in
      let line = row queues device in
      let put_count : (d : ℕ)
          → get_or (set queues.bufs_to_tx_count device ((c + 1) % u16_mod)) d 0
            ≡ (if device == d then suc c else count queues d) =
        λ d.
          get_or-set queues.bufs_to_tx_count device d ((c + 1) % u16_mod) 0
            (omega (arith, roomy.counts))
          ∙ ap (λ (k : ℕ). if device == d then k else count queues d) (omega arith) in
      let put_row : (d : ℕ)
          → get_or (set queues.bufs_to_tx device (set line c os_tag)) d []
            ≡ (if device == d then set line c os_tag else row queues d) =
        λ d.
          get_or-set queues.bufs_to_tx device d (set line c os_tag) []
            (omega (arith, roomy.rows)) in
      (
        record {
          counts =
              omega (
                arith,
                roomy.counts,
                length-set queues.bufs_to_tx_count device ((c + 1) % u16_mod),
              );
          rows = omega (arith, roomy.rows, length-set queues.bufs_to_tx device (set line c os_tag));
          sized = λ d d_lt. elim (Bool-cases (device == d)) [
            | inl same ↦ rw (put_row d, same) (length-set line c os_tag ∙ roomy.sized device lt)
            | inr other ↦ rw (put_row d, other) (roomy.sized d d_lt)
          ];
        },
        λ d d_lt. elim (Bool-cases (device == d)) [
          | inl same ↦
              let eq = (==_iff device d).0 same in
              rw (put_row d, put_count d, same, ← eq)
                (take-set line c os_tag (omega (arith, roomy.sized device lt)), omega arith)
          | inr other ↦ rw (put_row d, put_count d, other) (sym (append-nil _), omega arith)
        ],
      )

  -- The loop of a flood adds to the devices that it has passed and not skipped.
  abbrev passes : (ℕ → Bool) → ℕ → ℕ → ℕ → Bool
  passes skips rounds device d = leb device d && ltb d (device + rounds) && not (skips d)

  abbrev Free : ℕ → Queues → Type 0
  Free device queues = (d : ℕ) → device ≤ d → d < n → count queues d < batch_size

  -- One round.
  step-Adds :
      (skips : ℕ → Bool) (device : ℕ) (sent : List ℕ × Queues)
      → IsRoomy n batch_size sent.1
      → device < n
      → count sent.1 device < batch_size
      → Adds n batch_size
          (λ d. device == d && not (skips device))
          os_tag
          sent.1
          (if skips device then sent else enqueue driver os_tag flags device sent).1
  step-Adds skips device (bytes, queues) roomy lt free = elim (Bool-cases (skips device)) [
    | inl skipped ↦
        rw skipped (
          none-Adds n batch_size os_tag (λ d. device == d && false) queues roomy
            (λ d. ground arith))
    | inr kept ↦
        let (roomy', here) = enqueue-Adds device bytes queues roomy lt free in
        rw kept (roomy', λ d d_lt. rw (and_true (device == d)) (here d d_lt))
  ]
    where
      and_true : (b : Bool) → (b && true) ≡ b
      and_true true = refl
      and_true false = refl

  flood_from-Adds :
      (skips : ℕ → Bool) (rounds device : ℕ) (sent : List ℕ × Queues)
      → device + rounds ≤ n
      → IsRoomy n batch_size sent.1
      → Free device sent.1
      → Adds n batch_size
          (passes skips rounds device)
          os_tag
          sent.1
          (flood_from driver os_tag flags skips rounds device sent).1
  unfolding flood_from
  flood_from-Adds skips zero device sent room roomy free =
      none-Adds n batch_size os_tag (passes skips 0 device) sent.1 roomy (λ d. ground arith)
  flood_from-Adds skips (suc rounds) device sent room roomy free =
      let first =
        step-Adds skips device sent roomy (omega arith) (free device (omega arith) (omega arith)) in
      then-Adds n batch_size os_tag (λ d. device == d && not (skips device))
        (passes skips rounds (device + 1)) (passes skips (suc rounds) device) sent.1 _ _ first
        (flood_from-Adds skips rounds (device + 1) _ (omega arith) first.0 (λ d le d_lt.
          let (_, c) = first.1 d d_lt in
          let off : (device == d) ≡ false = ground arith in
          ground (arith, c, off, free d (omega arith) d_lt)))
        (λ d. elim (Bool-cases (device == d)) [
          | inl same ↦ let eq = (==_iff device d).0 same in rw eq (inr (ground arith, ground arith))
          | inr other ↦ inl (rw other refl, ground arith)
        ])

abbrev pub any_goes_to : Option Output → ℕ → Bool
any_goes_to none d = false
any_goes_to (some output) d = goes_to output d

-- A call adds the buffer to the queues of the devices that it sends the packet to.
module _ (batch_size : ℕ) (small : batch_size < u16_mod) (driver : Driver) (os_tag : ℕ) where
  send-Adds :
      (output : Output) (queues : Queues)
      → IsSendable driver.devices_count output
      → IsRoomy driver.devices_count batch_size queues
      → ((d : ℕ) → d < driver.devices_count → count queues d < batch_size)
      → Adds driver.devices_count batch_size
          (goes_to output)
          os_tag
          queues
          (send driver os_tag output queues).1
  unfolding send
  send-Adds (net_transmit packet device flags) queues (own, real, ne) roomy free =
      enqueue-Adds driver.devices_count batch_size small driver os_tag flags device packet.bytes
        queues roomy real (free device real)
  send-Adds (net_flood packet flags) queues own roomy free =
      ext-Adds driver.devices_count batch_size os_tag _ (goes_to (net_flood packet flags)) queues _
        (flood_from-Adds driver.devices_count batch_size small driver os_tag flags
          (λ d. packet.device == d) driver.devices_count 0 (packet.bytes, queues) (omega arith)
          roomy (λ d le. free d))
        (λ d d_lt. ground arith)
  send-Adds (net_flood_except packet disabled flags) queues own roomy free =
      ext-Adds driver.devices_count batch_size os_tag _
        (goes_to (net_flood_except packet disabled flags)) queues _
        (flood_from-Adds driver.devices_count batch_size small driver os_tag flags
          (λ d. not (not (packet.device == d) && not (get_or disabled d false)))
          driver.devices_count 0 (packet.bytes, queues) (omega arith) roomy (λ d le. free d))
        (λ d d_lt. ground arith)

  pub send_any-Adds :
      (out : Option Output) (queues : Queues)
      → Sends driver.devices_count out
      → IsRoomy driver.devices_count batch_size queues
      → ((d : ℕ) → d < driver.devices_count → count queues d < batch_size)
      → Adds driver.devices_count batch_size
          (any_goes_to out)
          os_tag
          queues
          (send_any driver os_tag out queues)
  unfolding send_any
  send_any-Adds none queues unit roomy free =
      none-Adds driver.devices_count batch_size os_tag (λ _. false) queues roomy (λ _. refl)
  send_any-Adds (some output) queues sendable roomy free =
      send-Adds output queues sendable roomy free
