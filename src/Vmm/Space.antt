-- ===== src/Vmm/Space.antt =====
-- Well-formed page directories of kernel/memory/vmm.c, and the partial map from pages to frames that
-- a directory stands for.
use nexus_kernel.Prelude.{
  ℕ, ◌+◌, ◌*◌, ◌/◌, ◌%◌, ◌^◌, ◌<◌, ◌≡◌, ◌≢◌, ap, ◌∙◌, bit_or, true, if◌then◌else◌, arith, ◌⊎◌,
}
use nexus_kernel.Prelude.Bits.{bit_or-one, bit_or-two, bit_or_disjoint}
use nexus_kernel.Pmm.Valid.{IsValid, used}
use nexus_kernel.Vmm.{
  Vmm, entry_at, word_at, is_present, page_of, table_idx, page_idx, directory_entry, table_entry,
  get_physical,
}

-- The i-th entry of a directory, and whether it has a table.
abbrev pub entry : Vmm → ℕ → ℕ → ℕ
entry v dir i = v.memory (entry_at dir i)

-- The directory's three pages are in use, and each table is in a page in use of its own, not that at
-- address 0.
pub record IsSpace (v : Vmm) (dir : ℕ) : Type 0 where
  pub valid : IsValid v.frames
  pub aligned : dir % 4096 ≡ 0
  pub first : used v.frames (dir / 4096) ≡ true
  pub second : used v.frames (dir / 4096 + 1) ≡ true
  pub third : used v.frames (dir / 4096 + 2) ≡ true
  pub in_use :
      (i : ℕ)
      → i < 1024
      → is_present (entry v dir i) ≡ true
      → used v.frames (entry v dir i / 4096) ≡ true
  pub not_null : (i : ℕ) → i < 1024 → is_present (entry v dir i) ≡ true → entry v dir i / 4096 ≢ 0
  pub outside :
      (i : ℕ)
      → i < 1024
      → is_present (entry v dir i) ≡ true
      → (entry v dir i / 4096 < dir / 4096) ⊎ (dir / 4096 + 2 < entry v dir i / 4096)
  pub apart :
      (i j : ℕ)
      → i < 1024
      → j < 1024
      → i ≢ j
      → is_present (entry v dir i) ≡ true
      → is_present (entry v dir j) ≡ true
      → entry v dir i / 4096 ≢ entry v dir j / 4096

-- The word that the hardware finds for an address, or 0 if there is no table.
unfoldable pub leaf : Vmm → ℕ → ℕ → ℕ
leaf v dir virt =
    let e = entry v dir (table_idx virt) in
    if is_present e then v.memory (word_at (page_of e) (page_idx virt)) else 0

-- The physical address for a virtual one by its word.
abbrev pub translate : ℕ → ℕ → ℕ
translate word virt = if is_present word then page_of word + virt % 2 ^ 12 else 0

pub get_physical-leaf :
    (v : Vmm) (dir virt : ℕ) → get_physical v dir virt ≡ translate (leaf v dir virt) virt
unfolding get_physical leaf
get_physical-leaf v dir virt =
    let e = entry v dir (table_idx virt) in
    let w = v.memory (word_at (page_of e) (page_idx virt)) in ground (arith, low_bits w)
  where
    low_bits : (w : ℕ) → bit_or (page_of w) (virt % 2 ^ 12) ≡ page_of w + virt % 2 ^ 12
    low_bits w = omega (
      arith,
      bit_or_disjoint 12 (w / 4096) (virt % 4096) (omega arith),
      ap (λ (t : ℕ). bit_or t (virt % 4096)) (whole w),
    )
      where
        whole : (w : ℕ) → page_of w ≡ w / 4096 * 2 ^ 12
        whole w = omega arith

-- The words of the addresses decide the addresses that they stand for.
pub get_physical-step :
    (v : Vmm) (dir virt word : ℕ)
    → leaf v dir virt ≡ word
    → get_physical v dir virt ≡ translate word virt
get_physical-step v dir virt word e =
    get_physical-leaf v dir virt ∙ ap (λ (w : ℕ). translate w virt) e

-- A directory entry names the table's page, and is present.
pub directory_entry_lem :
    (table flags : ℕ)
    → table % 4096 ≡ 0
    → flags < 4096
    → (directory_entry table flags / 4096 ≡ table / 4096) × (directory_entry table flags % 2 ≡ 1)
unfolding directory_entry
directory_entry_lem table flags ht hf =
    let whole : table ≡ table / 4096 * 2 ^ 12 = omega (arith, ht) in
    let joined : bit_or table flags ≡ table + flags =
      ap (λ (t : ℕ). bit_or t flags) whole
      ∙ omega (arith, bit_or_disjoint 12 (table / 4096) flags (omega (arith, hf)), ht) in
    let one = bit_or-one (bit_or table flags) in
    let two = bit_or-two (bit_or (bit_or table flags) 1) in
    (omega (arith, joined, one, two, ht, hf), omega (arith, joined, one, two, ht, hf))

-- A table entry names the page, and is present.
pub table_entry_lem :
    (phys flags : ℕ)
    → (page_of (table_entry phys flags) ≡ page_of phys) × (table_entry phys flags % 2 ≡ 1)
unfolding table_entry
table_entry_lem phys flags =
    let whole : page_of phys ≡ phys / 4096 * 2 ^ 12 = omega arith in
    let joined : bit_or (page_of phys) (flags % 2 ^ 12) ≡ page_of phys + flags % 4096 =
      ap (λ (t : ℕ). bit_or t (flags % 2 ^ 12)) whole
      ∙ omega (arith, bit_or_disjoint 12 (phys / 4096) (flags % 4096) (omega arith)) in
    let one = bit_or-one (bit_or (page_of phys) (flags % 2 ^ 12)) in
    (omega (arith, joined, one), omega (arith, joined, one))
