-- ===== src/SpanningTree/Root.antt =====
-- nf/bridge/spanning_tree.h: the state's root, cost and port are the least offer so far, in the order of
-- roots, then costs, then ports.
use klint.Base.{
  ℕ, ◌+◌, ◌%◌, ◌≡◌, refl, ◌⊎◌, Bool, true, false, not, ◌&&◌, ◌||◌, List, [], ◌∷◌, ltb, ◌==◌,
  if◌then◌else◌, Bool-cases, inl, inr, sym, ◌∙◌, arith,
}
use klint.Memory.{u32_mod}
use klint.Net.{Packet}
use klint.SpanningTree.{
  StpState, bpdu_root, bpdu_root_cost, link_cost, is_bpdu, must_update, stp_receive, stp_handle,
}

-- A root, the cost of the way to it and the port where the way begins.
pub record Offer : Type 0 where
  pub root : ℕ
  pub cost : ℕ
  pub port : ℕ

abbrev pub offer_of : Packet → Offer
offer_of packet = record {
  root = bpdu_root packet.bytes;
  cost = (bpdu_root_cost packet.bytes + link_cost) % u32_mod;
  port = packet.device;
}

abbrev pub choice : StpState → Offer
choice state = record { root = state.root; cost = state.root_cost; port = state.root_port }

unfoldable pub better : Offer → Offer → Bool
better a b =
    ltb a.root b.root
    || a.root == b.root && (ltb a.cost b.cost || a.cost == b.cost && ltb a.port b.port)

-- The packet is a message of another bridge, which the state reads.
abbrev pub is_offer : StpState → Packet → Bool
is_offer state packet = not (must_update state packet.time) && is_bpdu packet.bytes

Offer-eq : {a b : Offer} → a.root ≡ b.root → a.cost ≡ b.cost → a.port ≡ b.port → a ≡ b
Offer-eq {a} {b} p q r = λ i. record { root = p i; cost = q i; port = r i }

stp_receive-choice :
    (state : StpState) (packet : Packet)
    → choice (stp_receive state packet).0
      ≡ (if better (offer_of packet) (choice state) then offer_of packet else choice state)
unfolding stp_receive better
stp_receive-choice state packet = Offer-eq (ground arith) (ground arith) (ground arith)

-- One packet: the choice becomes the packet's offer if that is better, and else stays.
pub stp_handle-choice :
    (state : StpState) (packet : Packet)
    → choice (stp_handle state packet).0 ≡ (
        if is_offer state packet && better (offer_of packet) (choice state)
        then offer_of packet
        else choice state)
unfolding stp_handle
stp_handle-choice state packet = elim (Bool-cases (must_update state packet.time)) [
  | inl update ↦ rw (update, stp_handle) refl
  | inr calm ↦ elim (Bool-cases (is_bpdu packet.bytes)) [
    | inl bpdu ↦ rw (calm, bpdu, stp_handle) (stp_receive-choice state packet)
    | inr other ↦ rw (calm, other, stp_handle) refl
  ]
]

-- The state after packets, in their order.
unfoldable pub run : StpState → List Packet → StpState
run state [] = state
run state (packet ∷ after) = run (stp_handle state packet).0 after

-- An offer that one of the packets makes and the state reads.
pub data Heard (o : Offer) : StpState → List Packet → Type 0 where
  now :
      (state : StpState) (packet : Packet) (after : List Packet)
      → is_offer state packet ≡ true
      → offer_of packet ≡ o
      → Heard o state (packet ∷ after)
  later :
      (state : StpState) (packet : Packet) (after : List Packet)
      → Heard o (stp_handle state packet).0 after
      → Heard o state (packet ∷ after)

-- Nothing is better than itself, and what is not better than an offer is not better than a better one.
better_self : (a : Offer) → better a a ≡ false
unfolding better
better_self a = ground arith

better_than_least : (o a b : Offer) → better o a ≡ false → better a b ≡ false → better o b ≡ false
unfolding better
better_than_least o a b p q = ground arith

better_asym : (a b : Offer) → better a b ≡ true → better b a ≡ false
unfolding better
better_asym a b p = ground arith

-- The choice after a packet is no worse than the one before, nor than the packet's offer.
step_least :
    (state : StpState) (packet : Packet)
    → let state' = (stp_handle state packet).0 in
      (better (choice state) (choice state') ≡ false)
      × (is_offer state packet ≡ true → better (offer_of packet) (choice state') ≡ false)
step_least state packet =
    elim (Bool-cases (is_offer state packet && better (offer_of packet) (choice state))) [
      | inl h ↦
          let same : choice (stp_handle state packet).0 ≡ offer_of packet =
            stp_handle-choice state packet ∙ rw h refl in
          let wins : better (offer_of packet) (choice state) ≡ true = ground arith in
          rw same
            (better_asym (offer_of packet) (choice state) wins, λ _. better_self (offer_of packet))
      | inr h ↦
          let same : choice (stp_handle state packet).0 ≡ choice state =
            stp_handle-choice state packet ∙ rw h refl in
          rw same (better_self (choice state), λ read. ground arith)
    ]

step_from :
    (state : StpState) (packet : Packet)
    → (choice (stp_handle state packet).0 ≡ choice state)
      ⊎ ((is_offer state packet ≡ true) × (choice (stp_handle state packet).0 ≡ offer_of packet))
step_from state packet =
    elim (Bool-cases (is_offer state packet && better (offer_of packet) (choice state))) [
      | inl h ↦ inr (ground arith, stp_handle-choice state packet ∙ rw h refl)
      | inr h ↦ inl (stp_handle-choice state packet ∙ rw h refl)
    ]

-- After any packets, the root, cost and port of the state are the least, in this order, of those
-- that it began with and of the offers in the messages of bridges that it read: no worse than any
-- of them, and one of them.
pub run-choice :
    (state : StpState) (packets : List Packet)
    → let final = choice (run state packets) in
      (better (choice state) final ≡ false)
      × ((o : Offer) → Heard o state packets → better o final ≡ false)
      × ((final ≡ choice state) ⊎ Heard final state packets)
unfolding run
run-choice state [] = (better_self (choice state), λ o h. no_offer o state h, inl refl)
  where
    no_offer : (o : Offer) (state : StpState) → Heard o state [] → better o (choice state) ≡ false
    no_offer o state h = elim h [ ]
run-choice state (packet ∷ after) =
    let state' = (stp_handle state packet).0 in
    let (above, below, came) = run-choice state' after in
    let (kept, read) = step_least state packet in
    (
      better_than_least (choice state) (choice state') (choice (run state' after)) kept above,
      λ o h. heard o state packet after h above below read,
      elim came [
        | inr h ↦ inr (later state packet after h)
        | inl same ↦ elim (step_from state packet) [
          | inl stays ↦ inl (same ∙ stays)
          | inr (offers, takes) ↦ inr (now state packet after offers (sym (same ∙ takes)))
        ]
      ],
    )
  where
    heard :
        (o : Offer) (state : StpState) (packet : Packet) (after : List Packet)
        → Heard o state (packet ∷ after)
        → better
            (choice (stp_handle state packet).0)
            (choice (run (stp_handle state packet).0 after))
          ≡ false
        → ((o : Offer)
            → Heard o (stp_handle state packet).0 after
            → better o (choice (run (stp_handle state packet).0 after)) ≡ false)
        → (is_offer state packet ≡ true
            → better (offer_of packet) (choice (stp_handle state packet).0) ≡ false)
        → better o (choice (run (stp_handle state packet).0 after)) ≡ false
    heard o state packet after (now _ _ _ offers same) above below read =
        better_than_least o (choice (stp_handle state packet).0) _ (rw (← same) (read offers)) above
    heard o state packet after (later _ _ _ h) above below read = below o h
