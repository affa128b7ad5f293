-- ===== src/Tinynf/Outputs.antt =====
-- env/src/net/tinynf/main.c: the numbering of the outputs, and the lengths that a call gives to them.
use klint.Base.{
  Option, none, some, ℕ, zero, suc, ◌+◌, ◌-◌, ◌≤◌, ◌<◌, ◌≡◌, refl, ◌≢◌, Bool, true, false, not,
  ◌&&◌, List, length, length-set, get_or, get_or-set, get_or-replicate, replicate, length-replicate,
  set, ltb, leb, ◌==◌, if◌then◌else◌, Bool-cases, inl, inr, ap, ◌∙◌, arith,
}
use klint.Memory.{u16_mod}
use klint.Net.{Packet, Output, net_transmit, net_flood, net_flood_except}
use klint.Net.Delivery.{goes_to, sent_packet, IsSendable, Sends}
use klint.Tinynf.{
  tinynf_packet_handler, Driver, Buffer, index_from_device, device_from_index, flood_from,
  flood_except_from, send,
}

-- The devices other than the packet's and the outputs correspond.
pub index_from_device-device_from_index :
    (devices_count packet_device index : ℕ)
    → devices_count < u16_mod
    → packet_device < devices_count
    → index < devices_count - 1
    → let device = device_from_index packet_device index in
      (device < devices_count)
      × (packet_device ≢ device)
      × (index_from_device packet_device device ≡ index)
index_from_device-device_from_index devices_count packet_device index few own lt = ground arith

pub device_from_index-index_from_device :
    (devices_count packet_device device : ℕ)
    → devices_count < u16_mod
    → packet_device < devices_count
    → device < devices_count
    → packet_device ≢ device
    → let index = index_from_device packet_device device in
      (index < devices_count - 1) × (device_from_index packet_device index ≡ device)
device_from_index-index_from_device devices_count packet_device device few own lt ne = ground arith

-- The loops on the lengths alone: output i gets `f i`, from n on.
abbrev put_from : (ℕ → ℕ) → ℕ → ℕ → List ℕ → List ℕ
put_from f zero n lengths = lengths
put_from f (suc rounds) n lengths = put_from f rounds (n + 1) (set lengths n (f n))

get_or-put_from :
    (f : ℕ → ℕ) (rounds n i : ℕ) (lengths : List ℕ)
    → n + rounds ≤ length lengths
    → get_or (put_from f rounds n lengths) i 0
      ≡ (if leb n i && ltb i (n + rounds) then f i else get_or lengths i 0)
get_or-put_from f zero n i lengths room = ground arith
get_or-put_from f (suc rounds) n i lengths room =
    let put = get_or-set lengths n i (f n) 0 (omega arith) in
    let later =
      get_or-put_from f rounds (n + 1) i (set lengths n (f n))
        (omega (arith, length-set lengths n (f n))) in
    elim (Bool-cases (n == i)) [
      | inl same ↦
          let eq : n ≡ i = ground arith in
          let value : f n ≡ f i = ap f eq in ground (arith, put, later)
      | inr other ↦ ground (arith, put, later)
    ]

flood_from-put_from :
    (driver : Driver) (packet : Packet) (flags rounds n : ℕ) (buffer : Buffer)
    → (flood_from driver packet flags rounds n buffer).output_lengths
      ≡ put_from (λ _. packet.length) rounds n buffer.output_lengths
unfolding flood_from
flood_from-put_from driver packet flags zero n buffer = refl
flood_from-put_from driver packet flags (suc rounds) n buffer =
    flood_from-put_from driver packet flags rounds (n + 1) _

abbrev length_at : Packet → List Bool → ℕ → ℕ
length_at packet disabled n =
    if get_or disabled (device_from_index packet.device n) false then 0 else packet.length

flood_except_from-put_from :
    (driver : Driver) (packet : Packet) (disabled : List Bool) (flags rounds n : ℕ)
    (buffer : Buffer)
    → (flood_except_from driver packet disabled flags rounds n buffer).output_lengths
      ≡ put_from (length_at packet disabled) rounds n buffer.output_lengths
unfolding flood_except_from
flood_except_from-put_from driver packet disabled flags zero n buffer = refl
flood_except_from-put_from driver packet disabled flags (suc rounds) n buffer =
    flood_except_from-put_from driver packet disabled flags rounds (n + 1) _

-- Over all outputs.
all_outputs :
    (f : ℕ → ℕ) (count i : ℕ)
    → i < count
    → get_or (put_from f count 0 (replicate count 0)) i 0 ≡ f i
all_outputs f count i lt =
    let inside : (leb 0 i && ltb i (0 + count)) ≡ true = ground arith in
    get_or-put_from f count 0 i (replicate count 0)
      (omega (arith, length-replicate {A = ℕ} count 0))
    ∙ rw inside refl

-- The output of each device gets the packet's length if the call sends the packet there, and 0 if not.
send-goes_to :
    (driver : Driver) (output : Output) (device : ℕ)
    → driver.devices_count < u16_mod
    → IsSendable driver.devices_count output
    → device < driver.devices_count
    → (sent_packet output).device ≢ device
    → get_or
        (send driver output (replicate (driver.devices_count - 1) 0)).output_lengths
        (index_from_device (sent_packet output).device device)
        0
      ≡ (if goes_to output device then (sent_packet output).length else 0)
unfolding send
send-goes_to driver (net_transmit packet d flags) device few (own, real, ne) lt other =
    let (at, back) =
      device_from_index-index_from_device driver.devices_count packet.device device few own lt
        other in
    let (at', back') =
      device_from_index-index_from_device driver.devices_count packet.device d few own real ne in
    let zeros : List ℕ = replicate (driver.devices_count - 1) 0 in
    let sized = length-replicate {A = ℕ} (driver.devices_count - 1) 0 in
    let put =
      get_or-set zeros (index_from_device packet.device d) (index_from_device packet.device device)
        packet.length 0 (omega (arith, at', sized)) in
    ground (
      arith,
      put,
      get_or-replicate {A = ℕ} (driver.devices_count - 1) (index_from_device packet.device device)
          0,
    )
send-goes_to driver (net_flood packet flags) device few own lt other =
    let (at, back) =
      device_from_index-index_from_device driver.devices_count packet.device device few own lt
        other in
    let count = driver.devices_count - 1 in
    let index = index_from_device packet.device device in
    let away : (packet.device == device) ≡ false = ground arith in
    ap (λ (l : List ℕ). get_or l index 0) (flood_from-put_from driver packet flags count 0 _)
    ∙ all_outputs (λ _. packet.length) count index at
    ∙ rw away refl
send-goes_to driver (net_flood_except packet disabled flags) device few own lt other =
    let (at, back) =
      device_from_index-index_from_device driver.devices_count packet.device device few own lt
        other in
    let count = driver.devices_count - 1 in
    let index = index_from_device packet.device device in
    let away : (packet.device == device) ≡ false = ground arith in
    ap (λ (l : List ℕ). get_or l index 0)
      (flood_except_from-put_from driver packet disabled flags count 0 _)
    ∙ all_outputs (length_at packet disabled) count index at
    ∙ rw (back, away) (branches (get_or disabled device false) packet.length)
  where
    branches : (b : Bool) (x : ℕ) → (if b then 0 else x) ≡ (if not b then x else 0)
    branches true x = refl
    branches false x = refl

-- The lengths of the outputs, for what a handler has returned.
abbrev pub Delivers : Driver → Option Output → Buffer → Type 0
Delivers driver none buffer = buffer.output_lengths ≡ replicate (driver.devices_count - 1) 0
Delivers driver (some output) buffer =
    (device : ℕ)
    → device < driver.devices_count
    → (sent_packet output).device ≢ device
    → get_or buffer.output_lengths (index_from_device (sent_packet output).device device) 0
      ≡ (if goes_to output device then (sent_packet output).length else 0)

-- For a handler whose call a driver can serve, or that makes none, and fewer than 2 ^ 16 devices:
-- tinynf_packet_handler gives the output of each device other than the packet's the length of the
-- packet if the call sends it there, and 0 if not or if there is no call.
pub tinynf_packet_handler-Delivers :
    {S : Type 0} (driver : Driver) (nf_handle : S → Packet → S × Option Output) (state : S)
    (packet : Packet)
    → driver.devices_count < u16_mod
    → Sends driver.devices_count (nf_handle state packet).1
    → let lengths = replicate {A = ℕ} (driver.devices_count - 1) 0 in
      Delivers driver
        (nf_handle state packet).1
        (tinynf_packet_handler driver nf_handle state packet lengths).1
unfolding tinynf_packet_handler
tinynf_packet_handler-Delivers driver nf_handle state packet few sends =
    go (nf_handle state packet).1 sends
  where
    go :
        (out : Option Output)
        → Sends driver.devices_count out
        → Delivers driver out (elim out [
          | none ↦ record {
            bytes = packet.bytes;
            output_lengths = replicate (driver.devices_count - 1) 0;
          }
          | some output ↦ send driver output (replicate (driver.devices_count - 1) 0)
        ])
    go none unit = refl
    go (some output) sendable =
        λ device lt other. send-goes_to driver output device few sendable lt other
