-- ===== src/Os/Paging/Frames.antt =====
-- env/src/os/linux/memory.c: the frame behind a page, and the addresses of one page.
use native.Mathlib.Nat.{mod-lt, mod-eq_of_lt, div-add-mod}
use klint.Base.{
  ℕ, ◌+◌, ◌-◌, ◌*◌, ◌/◌, ◌%◌, ◌^◌, ◌<◌, ◌≡◌, refl, bit_and, true, false, Option, none, some, ltb,
  leb, ◌==◌, if◌then◌else◌, Bool-cases, Option-cases, inl, inr, sym, ap, ◌∙◌, arith,
}
use klint.Base.Bits.{bit_and-mask, bit_and-power}
use klint.Memory.{u64_mod}
use klint.Os.Paging.{os_memory_pagesize, off_t, phys_of, os_memory_virt_to_phys}

-- What the entry of a page says: nothing if the page is not present or has no frame; else the address
-- in the frame.
abbrev pub in_frame : ℕ → ℕ → ℕ → Option ℕ
in_frame page_size addr metadata =
    if ltb metadata (2 ^ 63)
    then none
    else if metadata % 2 ^ 55 == 0
    then none
    else some ((metadata % 2 ^ 55 * page_size + addr % page_size) % u64_mod)

phys_of-in_frame :
    (page_size addr metadata : ℕ)
    → metadata < u64_mod
    → phys_of page_size addr metadata ≡ in_frame page_size addr metadata
unfolding phys_of
phys_of-in_frame page_size addr metadata small =
    let present : (bit_and metadata (2 ^ 63) == 0) ≡ ltb metadata (2 ^ 63) =
      rw (bit_and-power 63 metadata) (ground arith) in
    rw (present, bit_and-mask 55 metadata) refl

phys_of-page :
    (page_size addr addr' metadata : ℕ) {phys : ℕ}
    → addr / page_size ≡ addr' / page_size
    → phys_of page_size addr metadata ≡ some phys
    → (phys' : ℕ) × (phys_of page_size addr' metadata ≡ some phys')
      × ((phys + addr') % u64_mod ≡ (phys' + addr) % u64_mod)
unfolding phys_of
phys_of-page page_size addr addr' metadata {phys} page e =
    elim (Bool-cases (bit_and metadata (2 ^ 63) == 0)) [
      | inl absent ↦ absurd (let clash : none ≡ some phys = rw absent at e in cc)
      | inr present ↦
          let pfn = bit_and metadata (2 ^ 55 - 1) in
          elim (Bool-cases (pfn == 0)) [
            | inl unmapped ↦
                absurd (let clash : none ≡ some phys = rw (present, unmapped) at e in cc)
            | inr mapped ↦
                let here : some ((pfn * page_size + addr % page_size) % u64_mod) ≡ some phys =
                  rw (present, mapped) at e in
                let phys_eq : (pfn * page_size + addr % page_size) % u64_mod ≡ phys = cc in
                let rows : page_size * (addr / page_size) ≡ page_size * (addr' / page_size) =
                  ap (λ (q : ℕ). page_size * q) page in
                (
                  (pfn * page_size + addr' % page_size) % u64_mod,
                  rw (present, mapped) refl,
                  omega (
                    arith,
                    phys_eq,
                    rows,
                    div-add-mod addr page_size,
                    div-add-mod addr' page_size,
                  ),
                )
          ]
    ]

module _ (page_size_long : ℕ) (pagemap : ℕ → Option ℕ) (pos : 0 < page_size_long)
    (positive : page_size_long < 2 ^ 63) where
  -- The code translates through the entry of the address's page.
  virt_to_phys_entry :
      (addr : ℕ)
      → os_memory_virt_to_phys page_size_long pagemap addr
        ≡ elim (pagemap (addr / page_size_long * 8 % u64_mod)) [
          | none ↦ none
          | some metadata ↦ phys_of page_size_long addr metadata
        ]
  unfolding os_memory_virt_to_phys os_memory_pagesize
  virt_to_phys_entry addr =
      let offset = addr / page_size_long * 8 % u64_mod in
      let signed : leb (2 ^ 63) page_size_long ≡ false = ground arith in
      let wide : ltb (u64_mod - 1) page_size_long ≡ false = ground arith in
      let nonzero : (page_size_long == 0) ≡ false = ground arith in
      let small : offset < u64_mod = mod-lt _ {m = u64_mod} (omega arith) in
      let back : (offset == off_t offset) ≡ true = ground (arith, mod-eq_of_lt small) in
      elim (Option-cases (pagemap offset)) [
        | inl e ↦ rw (signed, wide, nonzero, back, e) refl
        | inr (metadata, e) ↦ rw (signed, wide, nonzero, back, e) refl
      ]

  -- Where the page size is positive and the entries have 64 bits, os_memory_virt_to_phys aborts if
  -- the entry of the address's page cannot be read, has bit 63 unset or its lower 55 bits zero; else
  -- it returns the address in the frame whose number those bits are.
  pub os_memory_virt_to_phys-in_frame :
      (addr : ℕ)
      → ((offset metadata : ℕ) → pagemap offset ≡ some metadata → metadata < u64_mod)
      → os_memory_virt_to_phys page_size_long pagemap addr
        ≡ elim (pagemap (addr / page_size_long * 8 % u64_mod)) [
          | none ↦ none
          | some metadata ↦ in_frame page_size_long addr metadata
        ]
  os_memory_virt_to_phys-in_frame addr words =
      let offset = addr / page_size_long * 8 % u64_mod in
      virt_to_phys_entry addr ∙ elim (Option-cases (pagemap offset)) [
        | inl e ↦ rw e refl
        | inr (metadata, e) ↦
            rw e (phys_of-in_frame page_size_long addr metadata (words offset metadata e))
      ]

  -- For a positive page size: if os_memory_virt_to_phys translates an address, it translates every
  -- address of the same page, and the distance between the two is that between their translations,
  -- on 64 bits.
  pub os_memory_virt_to_phys-page :
      (addr addr' : ℕ) {phys : ℕ}
      → addr / page_size_long ≡ addr' / page_size_long
      → os_memory_virt_to_phys page_size_long pagemap addr ≡ some phys
      → (phys' : ℕ) × (os_memory_virt_to_phys page_size_long pagemap addr' ≡ some phys')
        × ((phys + addr') % u64_mod ≡ (phys' + addr) % u64_mod)
  os_memory_virt_to_phys-page addr addr' {phys} page e =
      let offset = addr / page_size_long * 8 % u64_mod in
      let entry = sym (virt_to_phys_entry addr) ∙ e in
      elim (Option-cases (pagemap offset)) [
        | inl absent ↦ absurd (let clash : none ≡ some phys = rw absent at entry in cc)
        | inr (metadata, got) ↦
            let (phys', same, apart) =
              phys_of-page page_size_long addr addr' metadata {phys = phys} page
                (rw got at entry) in
            let got' : pagemap (addr' / page_size_long * 8 % u64_mod) ≡ some metadata =
              rw page at got in
            (phys', virt_to_phys_entry addr' ∙ rw (got', same) refl, apart)
      ]
