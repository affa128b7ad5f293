-- ===== src/Dpdk/Rounds.antt =====
-- env/src/net/dpdk/main.c: the rounds of the loop of `main`, for any handler that keeps an invariant of
-- its state and returns calls that a driver can serve.
use klint.Base.{
  append-nil, sym, append_assoc, ℕ, zero, suc, ◌+◌, ◌≤◌, ◌<◌, ◌≡◌, refl, ◌≢◌, Bool, true, false,
  ◌&&◌, Option, none, List, [], ◌∷◌, ◌++◌, length, length-set, get_or, get_or-set, get_or-set_ne,
  set, take, drop, replicate, ltb, leb, if◌then◌else◌, ap, ◌∙◌, arith,
}
use klint.Memory.{u16_mod}
use klint.Net.{Packet, Output}
use klint.Net.Delivery.{Sends}
use klint.Dpdk.{Driver, Queues, Mbuf, send_any, handle_all, burst, transmit_from, round}
use klint.Dpdk.Adding.{count, IsRoomy, only}
use klint.Dpdk.Calls.{any_goes_to, send_any-Adds}

-- Before a round: nothing is queued.
abbrev pub IsReady : ℕ → ℕ → Queues → Type 0
IsReady n batch_size queues = IsRoomy n batch_size queues × ((d : ℕ) → d < n → count queues d ≡ 0)

-- The buffers come from the devices.
abbrev pub AreFrom : ℕ → List Mbuf → Type 0
AreFrom n [] = Unit {0}
AreFrom n (buf ∷ bufs) = (buf.packet.device < n) × AreFrom n bufs

-- The first round of the sends, and the rest.
module _ (rte_eth_tx_burst : ℕ → List ℕ → ℕ) where
  abbrev cleared : Queues → ℕ → Queues
  cleared queues d = record queues { bufs_to_tx_count = set queues.bufs_to_tx_count d 0 }

  burst-cleared : (queues : Queues) (d e : ℕ) → d ≢ e → burst (cleared queues d) e ≡ burst queues e
  unfolding burst
  burst-cleared queues d e ne =
      ap (λ k. take k (get_or queues.bufs_to_tx e []))
        (get_or-set_ne queues.bufs_to_tx_count d e 0 0 ne)

  transmit_from-count :
      (rounds out_device d : ℕ) (queues : Queues)
      → out_device + rounds ≤ length queues.bufs_to_tx_count
      → let (queues', _) = transmit_from rte_eth_tx_burst rounds out_device queues in
        (count queues' d
          ≡ (if leb out_device d && ltb d (out_device + rounds) then 0 else count queues d))
        × (length queues'.bufs_to_tx_count ≡ length queues.bufs_to_tx_count)
        × (queues'.bufs_to_tx ≡ queues.bufs_to_tx)
  unfolding transmit_from
  transmit_from-count zero out_device d queues room = (ground arith, refl, refl)
  transmit_from-count (suc rounds) out_device d queues room =
      let sized = length-set queues.bufs_to_tx_count out_device 0 in
      let (c, l, r) =
        transmit_from-count rounds (out_device + 1) d (cleared queues out_device)
          (omega (arith, sized)) in
      let put = get_or-set queues.bufs_to_tx_count out_device d 0 0 (omega arith) in
      (ground (arith, c, put), l ∙ sized, r)

  transmit_from-bursts :
      (rounds out_device k : ℕ) (queues : Queues)
      → k < rounds
      → get_or (transmit_from rte_eth_tx_burst rounds out_device queues).1.bursts k []
        ≡ burst queues (out_device + k)
  unfolding transmit_from burst get_or
  transmit_from-bursts zero out_device k queues lt = absurd (omega arith)
  transmit_from-bursts (suc rounds) out_device zero queues lt = ap (burst queues) (omega arith)
  transmit_from-bursts (suc rounds) out_device (suc k) queues lt =
      transmit_from-bursts rounds (out_device + 1) k (cleared queues out_device) (omega arith)
      ∙ burst-cleared queues out_device (out_device + 1 + k) (omega arith)
      ∙ ap (burst queues) (omega arith)

  transmit_from-empty :
      (rounds out_device : ℕ) (queues : Queues)
      → ((d : ℕ) → out_device ≤ d → d < out_device + rounds → burst queues d ≡ [])
      → (transmit_from rte_eth_tx_burst rounds out_device queues).1
        ≡ record { bursts = replicate rounds []; freed = [] }
  unfolding transmit_from burst get_or
  transmit_from-empty zero out_device queues idle = refl
  transmit_from-empty (suc rounds) out_device queues idle =
      let first = idle out_device (omega arith) (omega arith) in
      let rest = transmit_from-empty rounds (out_device + 1) (cleared queues out_device) (λ d le lt.
        burst-cleared queues out_device d (omega arith) ∙ idle d (omega arith) (omega arith)) in
      rw (first, rest, drop_nil (rte_eth_tx_burst out_device [])) refl
    where
      drop_nil : (n : ℕ) → drop {A = ℕ} n [] ≡ []
      drop_nil zero = refl
      drop_nil (suc n) = refl

  transmit-IsReady :
      (n batch_size : ℕ) (queues : Queues)
      → IsRoomy n batch_size queues
      → IsReady n batch_size (transmit_from rte_eth_tx_burst n 0 queues).0
  transmit-IsReady n batch_size queues roomy =
      let (_, counts, rows) = transmit_from-count n 0 0 queues (omega (arith, roomy.counts)) in
      (
        record {
          counts = omega (arith, counts, roomy.counts);
          rows = rw rows roomy.rows;
          sized = λ d d_lt. rw rows (roomy.sized d d_lt);
        },
        λ d d_lt.
            let (c, _, _) = transmit_from-count n 0 d queues (omega (arith, roomy.counts)) in
            let inside : (leb 0 d && ltb d (0 + n)) ≡ true = ground arith in c ∙ rw inside refl,
      )

burst-idle : (queues : Queues) (d : ℕ) → count queues d ≡ 0 → burst queues d ≡ []
unfolding burst
burst-idle queues d idle = rw idle refl

module _ {S : Type 0} (nf_handle : S → Packet → S × Option Output) where
  -- What a device is to get of received buffers.
  abbrev pub delivered : List Mbuf → S → ℕ → List ℕ
  delivered [] state d = []
  delivered (buf ∷ bufs) state d =
      let (state', out) = nf_handle state buf.packet in
      only (any_goes_to out d) buf.os_tag ++ delivered bufs state' d

module _ {S : Type 0} (nf_handle : S → Packet → S × Option Output) (driver : Driver)
    (batch_size : ℕ) (small : batch_size < u16_mod) where
  module _ (Keeps : S → Type 0)
      (kept : (state : S) (packet : Packet)
        → Keeps state
        → packet.device < driver.devices_count
        → let (state', out) = nf_handle state packet in
          Keeps state' × Sends driver.devices_count out) where
    handle_all-delivered :
        (bufs : List Mbuf) (state : S) (queues : Queues)
        → Keeps state
        → AreFrom driver.devices_count bufs
        → IsRoomy driver.devices_count batch_size queues
        → ((d : ℕ) → d < driver.devices_count → count queues d + length bufs ≤ batch_size)
        → let (state', queues') = handle_all nf_handle driver bufs state queues in
          Keeps state'
          × IsRoomy driver.devices_count batch_size queues'
          × ((d : ℕ)
              → d < driver.devices_count
              → burst queues' d ≡ burst queues d ++ delivered nf_handle bufs state d)
    unfolding handle_all
    handle_all-delivered [] state queues keeps from roomy free =
        (keeps, roomy, λ d d_lt. sym (append-nil (burst queues d)))
    handle_all-delivered (buf ∷ bufs) state queues keeps (own, from) roomy free =
        let (keeps₁, sends) = kept state buf.packet keeps own in
        let (roomy₁, added) =
          send_any-Adds batch_size small driver buf.os_tag (nf_handle state buf.packet).1 queues
            sends roomy (λ d d_lt. omega (arith, free d d_lt)) in
        let (keeps', roomy', rest) =
          handle_all-delivered bufs (nf_handle state buf.packet).0 _ keeps₁ from roomy₁ (λ d d_lt.
            let (_, c) = added d d_lt in
            one _ _ _ (any_goes_to (nf_handle state buf.packet).1 d) c (free d d_lt)) in
        (
          keeps',
          roomy',
          λ d d_lt.
              rest d d_lt
              ∙ ap (λ l. l ++ delivered nf_handle bufs (nf_handle state buf.packet).0 d)
                  (added d d_lt).0
              ∙ append_assoc (burst queues d) _ _,
        )
      where
        one :
            (c c' n : ℕ) (b : Bool)
            → c' ≡ c + (if b then 1 else 0)
            → c + suc n ≤ batch_size
            → c' + n ≤ batch_size
        one c c' n true e h = omega arith
        one c c' n false e h = omega arith

    -- Take a handler that keeps an invariant of its state and whose calls a driver can serve. A
    -- round of the DPDK driver, over at most a batch of buffers from its devices and with
    -- nothing queued before, keeps the invariant, gives rte_eth_tx_burst for each device the
    -- buffers of the packets that the handler sends there, once each and in the order of their
    -- arrival, and leaves nothing queued.
    pub round-delivered :
        (rte_eth_tx_burst : ℕ → List ℕ → ℕ) (bufs : List Mbuf) (state : S) (queues : Queues)
        → Keeps state
        → AreFrom driver.devices_count bufs
        → length bufs ≤ batch_size
        → IsReady driver.devices_count batch_size queues
        → let (state', (queues', sent)) =
            round nf_handle driver rte_eth_tx_burst bufs state queues in
          Keeps state'
          × IsReady driver.devices_count batch_size queues'
          × ((d : ℕ)
              → d < driver.devices_count
              → get_or sent.bursts d [] ≡ delivered nf_handle bufs state d)
    unfolding round
    round-delivered tx bufs state queues keeps from fits (roomy, idle) =
        let queues₁ = (handle_all nf_handle driver bufs state queues).1 in
        let (keeps', roomy₁, queued) =
          handle_all-delivered bufs state queues keeps from roomy
            (λ d d_lt. omega (arith, idle d d_lt)) in
        (
          keeps',
          transmit-IsReady tx driver.devices_count batch_size queues₁ roomy₁,
          λ d d_lt.
              transmit_from-bursts tx driver.devices_count 0 d queues₁ d_lt
              ∙ ap (burst queues₁) (omega arith)
              ∙ queued d d_lt
              ∙ ap (λ l. l ++ delivered nf_handle bufs state d) (burst-idle queues d (idle d d_lt)),
        )

module _ {S : Type 0} (nf_handle : S → Packet → S × Option Output) (driver : Driver) where
  -- With nothing queued before, a round of the DPDK driver over one buffer whose packet the
  -- handler drops gives rte_eth_tx_burst no buffer and frees none.
  pub round-dropped :
      (batch_size : ℕ) (rte_eth_tx_burst : ℕ → List ℕ → ℕ) (buf : Mbuf) (state : S)
      (queues : Queues)
      → (nf_handle state buf.packet).1 ≡ none
      → IsReady driver.devices_count batch_size queues
      → (round nf_handle driver rte_eth_tx_burst (buf ∷ []) state queues).1.1
        ≡ record { bursts = replicate driver.devices_count []; freed = [] }
  unfolding round handle_all
  round-dropped batch_size tx buf state queues dropped (roomy, idle) =
      let known : send_any driver buf.os_tag (nf_handle state buf.packet).1 queues ≡ queues =
        rw (dropped, send_any) refl in
      rw known (
        transmit_from-empty tx driver.devices_count 0 queues
          (λ d le d_lt. burst-idle queues d (idle d (omega arith))))
