-- ===== src/Map/Memory.antt =====
-- A map of env/src/structs/map.c reads its keys through the addresses that it holds. Where two
-- memories agree on those, the map is the same in both.
use klint.Base.{ℕ, suc, ◌≡◌, refl, some, List, [], ◌∷◌, get_or, Option-cases, inl, inr}
use klint.Map.{MapItem, Map, zero_item}
use klint.Map.Slots.{holds, find, copies}
use klint.Map.Valid.{IsValid}

module _ (mem mem' : ℕ → List ℕ) where
  abbrev pub Agrees : List MapItem → Type 0
  Agrees items = (s a : ℕ) → (get_or items s zero_item).key_addr ≡ some a → mem' a ≡ mem a

  holds-Agrees :
      (q : List ℕ) (it : MapItem)
      → ((a : ℕ) → it.key_addr ≡ some a → mem' a ≡ mem a)
      → holds mem' q it ≡ holds mem q it
  unfolding holds
  holds-Agrees q it h = elim (Option-cases it.key_addr) [
    | inl e ↦ rw e
    | inr (a, e) ↦ rw (e, h a e)
  ]

  pub find-Agrees :
      (q : List ℕ) (items : List MapItem) → Agrees items → find mem' q items ≡ find mem q items
  unfolding find get_or
  find-Agrees q [] h = refl
  find-Agrees q (it ∷ items) h = rw (holds-Agrees q it (h 0), find-Agrees q items (λ s. h (suc s)))

  copies-Agrees :
      (q : List ℕ) (items : List MapItem) → Agrees items → copies mem' q items ≡ copies mem q items
  unfolding copies get_or
  copies-Agrees q [] h = refl
  copies-Agrees q (it ∷ items) h =
      rw (holds-Agrees q it (h 0), copies-Agrees q items (λ s. h (suc s)))

  pub IsValid-Agrees : (m : Map) → Agrees m.items → IsValid mem m → IsValid mem' m
  IsValid-Agrees m h v = record {
    sized = v.sized;
    shape = v.shape;
    small = v.small;
    key_length = λ s a e. rw (h s a e) (v.key_length s a e);
    hashed = λ s a e. rw (h s a e) (v.hashed s a e);
    counted = v.counted;
    distinct = λ q. rw (copies-Agrees q m.items h) (v.distinct q);
  }
