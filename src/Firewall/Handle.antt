-- ===== src/Firewall/Handle.antt =====
-- nf/firewall/firewall.c: what `nf_init` sets up, and what `nf_handle` does with each packet.
use klint.Base.{
  ℕ, ◌<◌, ◌≡◌, refl, ◌⊎◌, Bool, true, false, Option, none, some, List, ◌==◌, if◌then◌else◌,
  Bool-cases, inl, inr, arith,
}
use klint.KeyTable.{IsTime}
use klint.Flow.{packet_flow, inverted_flow}
use klint.Net.{Packet, Output, net_transmit, no_flags}
use klint.Net.Headers.{is_tcpudp, get_headers-is_tcpudp}
use klint.Config.{ConfigItem, codes, os_config_get_device, os_config_get_time, os_config_get_size}
use klint.Config.Get.{os_config_get_size-lt, os_config_get_device-lt}
use klint.Firewall.{
  FlowTable, Firewall, nf_init, nf_handle, handle_external, other_device, flow_table_has_external,
}
use klint.Firewall.Table.{
  IsValid, IsFull, Used, last_use, is_live, expiration, flow_table_alloc-IsValid,
  flow_table_has_external-Used, flow_table_learn_internal-Used,
}

-- A firewall that has just started, with the given parameters.
pub record Started (external_device expiration_time max_flows : ℕ) (nf : Firewall) : Type 0 where
  pub valid : IsValid nf.table
  pub device : nf.external_device ≡ external_device
  pub is_device : external_device < 2
  pub expires : expiration nf.table ≡ expiration_time
  pub size : nf.table.port_allocator.size ≡ max_flows
  pub empty : (key : List ℕ) → last_use nf.table key ≡ none

-- With two devices and its three parameters in the configuration, the firewall's nf_init succeeds:
-- the table is valid and empty, of the given size and expiration time, and the external device is
-- one of the two.
pub nf_init-Started :
    (items : List ConfigItem) {external_device expiration_time max_flows : ℕ}
    → os_config_get_device items (codes "external device") 2 ≡ some external_device
    → os_config_get_time items (codes "expiration time") ≡ some expiration_time
    → os_config_get_size items (codes "max flows") ≡ some max_flows
    → (nf : Firewall) × (nf_init items 2 ≡ some nf)
      × Started external_device expiration_time max_flows nf
unfolding nf_init
nf_init-Started items {external_device} {expiration_time} {max_flows} d e s =
    let small = os_config_get_size-lt items (codes "max flows") s in
    let (table, alloc, valid, exp, size, empty) =
      flow_table_alloc-IsValid expiration_time max_flows small in
    (
      record { external_device = external_device; table = table },
      rw (d, e, s, alloc) refl,
      record {
        valid = valid;
        device = refl;
        is_device =
            os_config_get_device-lt items (codes "external device") 2 (omega arith) (omega arith) d;
        expires = exp;
        size = size;
        empty = empty;
      },
    )

abbrev pub forwarded : Packet → Option Output
forwarded packet = some (net_transmit packet (other_device packet.device) no_flags)

-- A packet from outside passes exactly if the flow that it answers is live, which it uses; otherwise
-- nothing changes.
abbrev pub HandlesExternal : Firewall → Packet → Firewall → Option Output → Type 0
HandlesExternal nf packet nf' out =
    let flow = inverted_flow packet.bytes 14 34 in
    if is_live nf.table packet.time flow
    then (out ≡ forwarded packet) × Used nf.table packet.time flow nf'.table
    else (out ≡ none) × (nf'.table ≡ nf.table)

-- A packet from inside always passes, and its flow is used, unless it is new and there is no room.
abbrev pub HandlesInternal : Firewall → Packet → Firewall → Option Output → Type 0
HandlesInternal nf packet nf' out =
    let flow = packet_flow packet.bytes 14 34 in
    (out ≡ forwarded packet)
    × (Used nf.table packet.time flow nf'.table
        ⊎ (IsFull nf.table packet.time × (nf'.table ≡ nf.table)))

abbrev pub Handles : Firewall → Packet → Firewall × Option Output → Type 0
Handles nf packet (nf', out) =
    (nf'.external_device ≡ nf.external_device)
    × (if is_tcpudp packet.bytes
        then (if packet.device == nf.external_device
            then HandlesExternal nf packet nf' out
            else HandlesInternal nf packet nf' out)
        else (out ≡ none) × (nf'.table ≡ nf.table))

handle_external-Handles :
    (nf : Firewall) (packet : Packet) (r : FlowTable × Bool) (live : Bool)
    → (r.1 ≡ live)
      × (if r.1
          then Used nf.table packet.time (inverted_flow packet.bytes 14 34) r.0
          else (r.0 ≡ nf.table))
    → let (nf', out) = handle_external nf packet r in
      (nf'.external_device ≡ nf.external_device)
      × (if live
          then (out ≡ forwarded packet)
            × Used nf.table packet.time (inverted_flow packet.bytes 14 34) nf'.table
          else (out ≡ none) × (nf'.table ≡ nf.table))
unfolding handle_external
handle_external-Handles nf packet (table, true) true (e, h) = (refl, (refl, h))
handle_external-Handles nf packet (table, true) false (e, h) = absurd (cc)
handle_external-Handles nf packet (table, false) true (e, h) = absurd (cc)
handle_external-Handles nf packet (table, false) false (e, h) = (refl, (refl, h))

-- What the firewall's nf_handle does with each packet, on a valid table: it drops what is not TCP
-- or UDP over IPv4; it forwards a packet from outside exactly if the flow that it answers is in the
-- table and young, and uses that flow; it forwards every packet from inside and learns its flow
-- unless the table is full of young flows; otherwise the table stays as it is.
pub nf_handle-Handles :
    (nf : Firewall) (packet : Packet)
    → IsValid nf.table
    → IsTime packet.time
    → Handles nf packet (nf_handle nf packet)
unfolding nf_handle
nf_handle-Handles nf packet v real =
    rw (get_headers-is_tcpudp packet, nf_handle)
      (elim (Bool-cases (is_tcpudp packet.bytes)) [
        | inr other ↦ rw other (refl, (refl, refl))
        | inl headers ↦ rw headers (elim (Bool-cases (packet.device == nf.external_device)) [
          | inl outside ↦
              let flow = inverted_flow packet.bytes 14 34 in
              rw outside (
                handle_external-Handles nf packet
                  (flow_table_has_external nf.table packet.time flow)
                  (is_live nf.table packet.time flow)
                  (flow_table_has_external-Used v packet.time real flow))
          | inr inside ↦ rw inside (
            refl,
            (
              refl,
              learned (
                  flow_table_learn_internal-Used v packet.time real
                    (packet_flow packet.bytes 14 34)),
            ),
          )
        ])
      ])
  where
    learned : {A B C D : Type 0} → A ⊎ (B × C × D) → A ⊎ (B × C)
    learned (inl a) = inl a
    learned (inr (b, c, d)) = inr (b, c)
