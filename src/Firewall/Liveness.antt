-- ===== src/Firewall/Liveness.antt =====
-- nf/firewall over a whole run, liveness: a flow that was let out is let in again within the expiration
-- time, whatever comes in between.
use klint.Base.{
  ℕ, ◌≤◌, ◌≡◌, true, some, List, [], ◌∷◌, ◌==◌, ==_iff, Bool-cases, bytes_eq, bytes_eq→eq, inl, inr,
  sym, ◌∙◌, ap, arith,
}
use klint.KeyTable.{IsTime}
use klint.IndexPool.Spec.{pool_young}
use klint.Flow.{Flow, flow_bytes, inverted_flow}
use klint.Net.{Packet}
use klint.Net.Times.{AllTimes}
use klint.Net.Headers.{is_tcpudp}
use klint.Firewall.{FlowTable, Firewall, nf_handle}
use klint.Firewall.Table.{Used, last_use, is_live, expiration}
use klint.Firewall.Handle.{nf_handle-Handles, forwarded}
use klint.Firewall.History.{run, Runs, dropped, let_in, let_out, let_out_full, outcome, run-Runs}

-- The packets come no earlier than t, and while a use at t is young.
abbrev pub AllWithin : ℕ → ℕ → List Packet → Type 0
AllWithin expiration_time t [] = Unit {0}
AllWithin expiration_time t (packet ∷ before) =
    (t ≤ packet.time)
    × (pool_young packet.time expiration_time t ≡ true)
    × AllWithin expiration_time t before

-- The flow was last used at t or later.
abbrev SinceUsed : ℕ → Flow → FlowTable → Type 0
SinceUsed t f table = (u : ℕ) × (last_use table (flow_bytes f) ≡ some u) × (t ≤ u)

young_later :
    (time expiration_time t u : ℕ)
    → t ≤ u
    → pool_young time expiration_time t ≡ true
    → pool_young time expiration_time u ≡ true
unfolding pool_young
young_later time expiration_time t u h y = ground arith

-- A use of some flow throws out no flow that is young.
Used-SinceUsed :
    {table table' : FlowTable} {time : ℕ} {flow : Flow} (t : ℕ) (f : Flow)
    → Used table time flow table'
    → t ≤ time
    → pool_young time (expiration table) t ≡ true
    → SinceUsed t f table
    → SinceUsed t f table'
Used-SinceUsed {table} {table'} {time} {flow} t f now h young (u, at, le) =
    elim (Bool-cases (bytes_eq (flow_bytes flow) (flow_bytes f))) [
      | inl same ↦
          let key : flow_bytes flow ≡ flow_bytes f = bytes_eq→eq _ _ same in
          (time, ap (last_use table') (sym key) ∙ now.seen, h)
      | inr other ↦ elim (now.others f other) [
        | inl kept ↦ (u, kept ∙ at, le)
        | inr (_, (w, at', old)) ↦
            let same : some u ≡ some w = sym at ∙ at' in
            let eq : u ≡ w = cc in
            let contra = young_later time (expiration table) t w (omega arith) young in absurd (cc)
      ]
    ]

module _ {external_device expiration_time : ℕ} (t : ℕ) (f : Flow) where
  run-SinceUsed :
      (nf : Firewall) (packets : List Packet)
      → Runs external_device expiration_time nf
      → AllTimes packets
      → AllWithin expiration_time t packets
      → SinceUsed t f nf.table
      → SinceUsed t f (run nf packets).table
  unfolding run
  run-SinceUsed nf [] h all within s = s
  run-SinceUsed nf (packet ∷ before) h (real, all) (le, young, within) s =
      let nf₁ = run nf before in
      let h₁ = run-Runs nf before h all in
      let s₁ = run-SinceUsed nf before h all within s in
      let did = nf_handle-Handles nf₁ packet h₁.valid real in
      let young' : pool_young packet.time (expiration nf₁.table) t ≡ true = rw h₁.expires young in
      elim (outcome nf₁ packet (nf_handle nf₁ packet).0 (nf_handle nf₁ packet).1 did) [
        | dropped _ same ↦ rw same s₁
        | let_out_full _ same ↦ rw same s₁
        | let_out _ _ u ↦ Used-SinceUsed t f u le young' s₁
        | let_in _ _ _ u ↦ Used-SinceUsed t f u le young' s₁
      ]

  -- If a flow was used at time t or later, then after any run of packets that come no earlier than
  -- t and while a use at t is young, a TCP or UDP answer to it from the external device is
  -- forwarded if a use at t is young when it comes.
  pub run-answered :
      (nf : Firewall) (packets : List Packet) (answer : Packet)
      → Runs external_device expiration_time nf
      → AllTimes packets
      → AllWithin expiration_time t packets
      → (u : ℕ) → last_use nf.table (flow_bytes f) ≡ some u
      → t ≤ u
      → IsTime answer.time
      → pool_young answer.time expiration_time t ≡ true
      → is_tcpudp answer.bytes ≡ true
      → answer.device ≡ external_device
      → flow_bytes (inverted_flow answer.bytes 14 34) ≡ flow_bytes f
      → (nf_handle (run nf packets) answer).1 ≡ forwarded answer
  run-answered nf packets answer h all within u at le real young headers device key =
      let nf₁ = run nf packets in
      let h₁ = run-Runs nf packets h all in
      let (w, at₁, le₁) = run-SinceUsed nf packets h all within (u, at, le) in
      let did = nf_handle-Handles nf₁ answer h₁.valid real in
      let outside : (answer.device == nf₁.external_device) ≡ true =
        (==_iff answer.device nf₁.external_device).1 (device ∙ sym h₁.device) in
      let g = inverted_flow answer.bytes 14 34 in
      let young₁ : pool_young answer.time (expiration nf₁.table) w ≡ true =
        rw h₁.expires (young_later answer.time expiration_time t w le₁ young) in
      let live : is_live nf₁.table answer.time g ≡ true =
        rw (ap (last_use nf₁.table) key ∙ at₁, is_live) young₁ in
      let (out, _) = rw (headers, outside, live) at (did.1) in out
