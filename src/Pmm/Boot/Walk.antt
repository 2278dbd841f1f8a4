-- ===== src/Pmm/Boot/Walk.antt =====
-- The walk over the boot loader's memory map (kernel/memory/pmm.c, both `while` loops of
-- `pmm_init`): it ends, and it visits a list of entries in order.
use mathlib.Core.List.{foldl}
use nexus_kernel.Prelude.{
  ℕ, zero, suc, ◌+◌, ◌-◌, ◌%◌, ◌^◌, ◌<◌, ◌≡◌, true, false, some, List, [], ◌∷◌, inl, inr, arith,
  ltb, Bool-cases,
}
use nexus_kernel.Pmm.Boot.{MmapEntry, walk}

module _ (entry_at : ℕ → MmapEntry) where
  -- The entries that the walk visits.
  unfoldable pub entries : ℕ → ℕ → ℕ → List MmapEntry
  entries zero mmap mmap_end = []
  entries (suc fuel) mmap mmap_end = elim (ltb mmap mmap_end) [
    | true ↦ entry_at mmap ∷ entries fuel ((mmap + (entry_at mmap).size + 4) % 2 ^ 32) mmap_end
    | false ↦ []
  ]

  -- No step of the walk wraps round the address space.
  abbrev pub Steps : ℕ → Type 0
  Steps mmap_end = (a : ℕ) → a < mmap_end → a + (entry_at a).size + 4 < 2 ^ 32

  -- Fuel past the length of the map is enough, and the walk is a fold over its entries.
  pub walk-foldl {ℓ} :
      {S : Type ℓ} (body : S → MmapEntry → S) (fuel mmap mmap_end : ℕ) (s : S)
      → Steps mmap_end
      → mmap_end - mmap < fuel
      → walk entry_at body fuel mmap mmap_end s ≡ some (foldl body s (entries fuel mmap mmap_end))
  unfolding walk entries
  walk-foldl body zero mmap mmap_end s steps h = elim h [ ]
  walk-foldl body (suc fuel) mmap mmap_end s steps h = elim (Bool-cases (ltb mmap mmap_end)) [
    | inl more ↦
        rw (more, walk, entries)
          (walk-foldl body fuel _ mmap_end (body s (entry_at mmap)) steps
            (ground (arith, steps mmap)))
    | inr done ↦ rw (done, walk, entries)
  ]
