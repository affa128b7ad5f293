-- ===== src/Tests.antt =====
-- Concrete runs of the models, and the theorems at concrete inputs.
mod Packets
mod Map
mod Pool
mod Firewall
mod Nat
mod Policer
mod Bridge
mod Switching
mod Cht
mod MemoryAlloc
mod Drivers
mod Os
mod Maglev
mod Router
mod Dhcp
use klint.Base.{ℕ, ◌≡◌, sym, ◌∙◌, Option, some, none, List, ◌∷◌, []}
use mathlib.Core.Path.{subst}
use mathlib.Core.Option.{some-injective}

-- What a total function returns has what its theorem says of the result.
pub result_of :
    {A : Type 0} {P : A → Type 0} {o : Option A} {a : A}
    → (b : A) × (o ≡ some b) × P b
    → o ≡ some a
    → P a
result_of {P = P} {a = a} (b, e, p) e' = subst P (some-injective b a (sym e ∙ e')) p
