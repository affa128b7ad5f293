-- ===== src/Flow.antt =====
-- `struct flow` of nf/firewall/flow_table.h, which nf/nat/flow_table.h and nf/maglev/balancer.h
-- repeat: the key of their tables, and the bytes that it takes in memory.
use klint.Base.{
  ℕ, ◌/◌, ◌%◌, ◌^◌, ◌<◌, ◌≡◌, refl, List, [], ◌∷◌, length, get_or, ap, sym, ◌∙◌, arith,
}
use klint.Memory.{u32_mod, u16_mod}
use klint.Memory.Words.{bytes_of, load}
use klint.Net.{src_addr, dst_addr, src_port, dst_port, next_proto_id}

pub record Flow : Type 0 where
  pub src_ip : ℕ
  pub dst_ip : ℕ
  pub src_port : ℕ
  pub dst_port : ℕ
  pub protocol : ℕ

-- The bytes of a flow; an initialiser that does not name the padding zeroes it.
unfoldable pub flow_bytes : Flow → List ℕ
unfolding bytes_of
flow_bytes flow =
    flow.src_ip % 256
    ∷ flow.src_ip / 256 % 256
    ∷ flow.src_ip / 2 ^ 16 % 256
    ∷ flow.src_ip / 2 ^ 24 % 256
    ∷ flow.dst_ip % 256
    ∷ flow.dst_ip / 256 % 256
    ∷ flow.dst_ip / 2 ^ 16 % 256
    ∷ flow.dst_ip / 2 ^ 24 % 256
    ∷ flow.src_port % 256
    ∷ flow.src_port / 256 % 256
    ∷ flow.dst_port % 256
    ∷ flow.dst_port / 256 % 256
    ∷ flow.protocol % 256
    ∷ 0
    ∷ 0
    ∷ 0
    ∷ []

-- `sizeof(struct flow)`.
abbrev pub sizeof_flow : ℕ
sizeof_flow = 16

-- Zeroed memory.
abbrev pub zero_flow : Flow
zero_flow = record { src_ip = 0; dst_ip = 0; src_port = 0; dst_port = 0; protocol = 0 }

pub length-flow_bytes : (flow : Flow) → length (flow_bytes flow) ≡ sizeof_flow
unfolding flow_bytes
length-flow_bytes flow = refl

-- Every field fits its type.
pub record IsFlow (flow : Flow) : Type 0 where
  pub src_ip_lt : flow.src_ip < u32_mod
  pub dst_ip_lt : flow.dst_ip < u32_mod
  pub src_port_lt : flow.src_port < u16_mod
  pub dst_port_lt : flow.dst_port < u16_mod
  pub protocol_lt : flow.protocol < 256

-- The flow at an address.
unfoldable pub flow_of_bytes : List ℕ → Flow
unfolding load get_or
flow_of_bytes bytes = record {
  src_ip = load bytes 0 4;
  dst_ip = load bytes 4 4;
  src_port = load bytes 8 2;
  dst_port = load bytes 10 2;
  protocol = load bytes 12 1;
}

-- A flow whose fields fit their types is read back from its bytes.
pub flow_of_bytes-flow_bytes : (flow : Flow) → IsFlow flow → flow_of_bytes (flow_bytes flow) ≡ flow
unfolding flow_of_bytes flow_bytes
flow_of_bytes-flow_bytes flow h =
    λ i. record { src_ip = a i; dst_ip = b i; src_port = c i; dst_port = d i; protocol = e i }
  where
    a : (flow_of_bytes (flow_bytes flow)).src_ip ≡ flow.src_ip
    a = omega arith

    b : (flow_of_bytes (flow_bytes flow)).dst_ip ≡ flow.dst_ip
    b = omega arith

    c : (flow_of_bytes (flow_bytes flow)).src_port ≡ flow.src_port
    c = omega arith

    d : (flow_of_bytes (flow_bytes flow)).dst_port ≡ flow.dst_port
    d = omega arith

    e : (flow_of_bytes (flow_bytes flow)).protocol ≡ flow.protocol
    e = omega arith

-- Two flows have the same bytes only if they are the same.
pub flow_bytes-injective : (f g : Flow) → IsFlow f → IsFlow g → flow_bytes f ≡ flow_bytes g → f ≡ g
flow_bytes-injective f g p q h =
    sym (flow_of_bytes-flow_bytes f p) ∙ ap flow_of_bytes h ∙ flow_of_bytes-flow_bytes g q

-- The flow of a TCP or UDP packet, from source to destination.
unfoldable pub packet_flow : List ℕ → ℕ → ℕ → Flow
packet_flow bytes ipv4 l4 = record {
  src_ip = src_addr bytes ipv4;
  dst_ip = dst_addr bytes ipv4;
  src_port = src_port bytes l4;
  dst_port = dst_port bytes l4;
  protocol = next_proto_id bytes ipv4;
}

-- The flow that a TCP or UDP packet answers.
unfoldable pub inverted_flow : List ℕ → ℕ → ℕ → Flow
inverted_flow bytes ipv4 l4 = record {
  src_ip = dst_addr bytes ipv4;
  dst_ip = src_addr bytes ipv4;
  src_port = dst_port bytes l4;
  dst_port = src_port bytes l4;
  protocol = next_proto_id bytes ipv4;
}
