-- ===== src/Net/Times.antt =====
-- The times of a run of packets, env/include/os/clock.h.
use klint.Base.{List, [], ◌∷◌}
use klint.KeyTable.{IsTime}
use klint.Net.{Packet}

-- Every packet of the run has a time that the clock can return.
abbrev pub AllTimes : List Packet → Type 0
AllTimes [] = Unit {0}
AllTimes (packet ∷ before) = IsTime packet.time × AllTimes before
