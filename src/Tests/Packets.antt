-- ===== src/Tests/Packets.antt =====
-- The bytes of UDP packets over IPv4.
use klint.Base.{ℕ, List, ◌∷◌, ◌++◌, replicate}

-- The addresses and the ports stand as they go over the network.
abbrev pub headers : List ℕ → List ℕ → List ℕ
headers addresses ports =
    0
    ∷ 0
    ∷ 0
    ∷ 0
    ∷ 0
    ∷ 0
    ∷ 0
    ∷ 0
    ∷ 0
    ∷ 0
    ∷ 0
    ∷ 0
    ∷ 8
    ∷ 0
    ∷ 0x45
    ∷ 0
    ∷ 0
    ∷ 40
    ∷ 0
    ∷ 0
    ∷ 0
    ∷ 0
    ∷ 64
    ∷ 17
    ∷ 0
    ∷ 0
    ∷ (addresses ++ (ports ++ replicate 20 0))
