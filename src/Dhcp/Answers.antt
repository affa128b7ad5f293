-- ===== src/Dhcp/Answers.antt =====
-- nf/dhcp_ipv4/dhcp.c: what a client reads in the answer to its message.
use klint.Base.{
  ℕ, ◌+◌, ◌*◌, ◌%◌, ◌^◌, ◌≤◌, ◌<◌, ◌≡◌, List, length, length-set, get_or, get_or-set, get_or-set_ne,
  set, ◌∙◌, arith,
}
use klint.Memory.Words.{load, store, length-store, load-store, load-store_other, get_or-store}
use klint.Dhcp.{Server}
use klint.Dhcp.Messages.{
  Message, op, yaddr, dhcp_message_type_value, set_dhcp_response_option, set_values, respond,
}

length-set_dhcp_response_option :
    (message_type : ℕ) (o : List ℕ) → length (set_dhcp_response_option message_type o) ≡ length o
unfolding set_dhcp_response_option
length-set_dhcp_response_option message_type o = simp (length-set)

-- A byte that the codes and the sizes of the options leave alone.
get_or-set_dhcp_response_option :
    (message_type : ℕ) (o : List ℕ)
    → 34 ≤ length o
    → get_or (set_dhcp_response_option message_type o) 2 0 ≡ message_type
unfolding set_dhcp_response_option
get_or-set_dhcp_response_option message_type o room =
    skip _ 33 255 (omega arith)
    ∙ (skip _ 10 4 (omega arith) ∙ skip _ 9 1 (omega arith))
    ∙ (skip _ 16 4 (omega arith) ∙ skip _ 15 51 (omega arith))
    ∙ (skip _ 22 4 (omega arith) ∙ skip _ 21 3 (omega arith))
    ∙ (skip _ 28 4 (omega arith) ∙ skip _ 27 6 (omega arith))
    ∙ (skip _ 4 4 (omega arith) ∙ skip _ 3 54 (omega arith))
    ∙ get_or-set o 2 2 message_type 0 (omega arith)
  where
    skip : (l : List ℕ) (i v : ℕ) → 2 < i → get_or (set l i v) 2 0 ≡ get_or l 2 0
    skip l i v later = get_or-set_ne l i 2 v 0 (λ e. omega arith)

-- The values at their offsets.
module _ (server : Server) (o : List ℕ) (room : 34 ≤ length o) where
  abbrev o₁ : List ℕ
  o₁ = store o 5 4 server.dhcp_server_ip

  abbrev o₂ : List ℕ
  o₂ = store o₁ 29 4 server.dns_server_ip

  abbrev o₃ : List ℕ
  o₃ = store o₂ 23 4 server.gateway_ip

  abbrev o₄ : List ℕ
  o₄ = store o₃ 11 4 server.subnet_mask

  abbrev o₅ : List ℕ
  o₅ = store o₄ 17 4 server.expiration_time

  sized₁ : length o₁ ≡ length o
  sized₁ = length-store o 5 4 server.dhcp_server_ip

  sized₂ : length o₂ ≡ length o
  sized₂ = length-store o₁ 29 4 server.dns_server_ip ∙ sized₁

  sized₃ : length o₃ ≡ length o
  sized₃ = length-store o₂ 23 4 server.gateway_ip ∙ sized₂

  sized₄ : length o₄ ≡ length o
  sized₄ = length-store o₃ 11 4 server.subnet_mask ∙ sized₃

  -- What the last two writes leave, and the last three.
  after₃ : (k : ℕ) → 21 ≤ k → load o₅ k 4 ≡ load o₃ k 4
  after₃ k far =
      load-store_other o₄ 17 4 server.expiration_time k 4 (omega arith)
      ∙ load-store_other o₃ 11 4 server.subnet_mask k 4 (omega arith)

  set_values-load :
      (load o₅ 5 4 ≡ server.dhcp_server_ip % 256 ^ 4)
      × (load o₅ 29 4 ≡ server.dns_server_ip % 256 ^ 4)
      × (load o₅ 23 4 ≡ server.gateway_ip % 256 ^ 4)
      × (load o₅ 11 4 ≡ server.subnet_mask % 256 ^ 4)
      × (load o₅ 17 4 ≡ server.expiration_time % 256 ^ 4)
      × (get_or o₅ 2 0 ≡ get_or o 2 0)
  set_values-load = (
    load-store_other o₄ 17 4 server.expiration_time 5 4 (omega arith)
        ∙ load-store_other o₃ 11 4 server.subnet_mask 5 4 (omega arith)
        ∙ load-store_other o₂ 23 4 server.gateway_ip 5 4 (omega arith)
        ∙ load-store_other o₁ 29 4 server.dns_server_ip 5 4 (omega arith)
        ∙ load-store o 5 4 server.dhcp_server_ip (omega arith),
    after₃ 29 (omega arith)
        ∙ load-store_other o₂ 23 4 server.gateway_ip 29 4 (omega arith)
        ∙ load-store o₁ 29 4 server.dns_server_ip (omega (arith, sized₁)),
    after₃ 23 (omega arith) ∙ load-store o₂ 23 4 server.gateway_ip (omega (arith, sized₂)),
    load-store_other o₄ 17 4 server.expiration_time 11 4 (omega arith)
        ∙ load-store o₃ 11 4 server.subnet_mask (omega (arith, sized₃)),
    load-store o₄ 17 4 server.expiration_time (omega (arith, sized₄)),
    get_or-store o₄ 17 4 server.expiration_time 2 (omega arith)
        ∙ get_or-store o₃ 11 4 server.subnet_mask 2 (omega arith)
        ∙ get_or-store o₂ 23 4 server.gateway_ip 2 (omega arith)
        ∙ get_or-store o₁ 29 4 server.dns_server_ip 2 (omega arith)
        ∙ get_or-store o 5 4 server.dhcp_server_ip 2 (omega arith),
  )

-- In an answer of 20 bytes and 34 bytes of options or more the client reads the reply code, the address
-- and the type, and the server's, the name server's and the gateway's address, the mask and the time.
pub respond-fields :
    (server : Server) (message_type ip : ℕ) (message : Message)
    → 20 ≤ length message.header
    → 34 ≤ length message.options
    → let answer = respond server message_type ip message in
      (op answer ≡ 2)
      × (yaddr answer ≡ ip % 256 ^ 4)
      × (dhcp_message_type_value answer ≡ message_type)
      × (load answer.options 5 4 ≡ server.dhcp_server_ip % 256 ^ 4)
      × (load answer.options 29 4 ≡ server.dns_server_ip % 256 ^ 4)
      × (load answer.options 23 4 ≡ server.gateway_ip % 256 ^ 4)
      × (load answer.options 11 4 ≡ server.subnet_mask % 256 ^ 4)
      × (load answer.options 17 4 ≡ server.expiration_time % 256 ^ 4)
unfolding respond set_values load get_or
respond-fields server message_type ip message header options =
    let o = set_dhcp_response_option message_type message.options in
    let same = length-set_dhcp_response_option message_type message.options in
    let (sip, dns, gateway, mask, lease_time, typed) =
      set_values-load server o (omega (arith, same)) in
    let h = set message.header 0 2 in
    let sized = length-set message.header 0 2 in
    let put = get_or-set message.header 0 0 2 0 (omega arith) in
    (
      byte (get_or-store h 16 4 ip 0 (omega arith) ∙ put),
      load-store h 16 4 ip (omega (arith, sized)),
      byte (typed ∙ get_or-set_dhcp_response_option message_type message.options options),
      sip,
      dns,
      gateway,
      mask,
      lease_time,
    )
  where
    byte : {a b : ℕ} → a ≡ b → a + 256 * 0 ≡ b
    byte e = omega arith
