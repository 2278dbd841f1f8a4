-- ===== src/Kheap/Tiles.antt =====
-- The blocks of the kernel heap (kernel/memory/kheap.c) as a list of sizes and free marks: they tile
-- the array without gap or overlap.
use nexus_kernel.Prelude.{
  length, ◌*◌, ℕ, ◌+◌, ◌^◌, ◌≤◌, ◌<◌, ◌≡◌, ◌≢◌, ap, ◌∙◌, Bool, true, false, arith, ◌==◌,
  if◌then◌else◌, List, [], ◌∷◌,
}
use nexus_kernel.Kheap.{HeapBlock, Blocks, Kheap, null, header_size, kheap_size}

-- One block of the heap.
pub record Tile : Type 0 where
  pub size : ℕ
  pub free : Bool

abbrev pub tile : ℕ → Bool → Tile
tile s u = record { size = s; free = u }

-- The pointer to the block at `a`, null at the end `e` of the heap.
abbrev pub link : ℕ → ℕ → ℕ
link e a = if a == e then null else a

abbrev pub behind : ℕ → Tile → ℕ
behind a x = a + header_size + x.size

-- From address `a` to the end `e`, the blocks are those of the list, each right behind the one
-- before it, linked both ways; `prev` is the block in front of `a`.
abbrev pub Tiles : Blocks → ℕ → ℕ → ℕ → List Tile → Type 0
Tiles f e prev a [] = a ≡ e
Tiles f e prev a (x ∷ xs) =
    (f a ≡ record { size = x.size; free = x.free; next = link e (behind a x); prev = prev })
    × (behind a x ≤ e)
    × Tiles f e a (behind a x) xs

-- No two blocks in a row are free, and the first is in use if `u`, the block before, is free.
abbrev pub Leads : Bool → List Tile → Type 0
Leads u [] = Unit
Leads u (x ∷ xs) = (u ≡ true → x.free ≡ false) × Leads x.free xs

-- The heap is set up, and its blocks tile the array, with no two free blocks in a row.
pub record IsHeap (h : Kheap) (xs : List Tile) : Type 0 where
  pub ready : h.heap_initialized ≡ true
  pub at_start : h.heap_start ≡ h.heap_area
  pub not_null : h.heap_area ≢ null
  pub fits : h.heap_area + kheap_size + 64 < 2 ^ 32
  pub tiles : Tiles h.blocks (h.heap_area + kheap_size) null h.heap_area xs
  pub spread : Leads false xs

module _ (f g : Blocks) (e : ℕ) where
  -- Blocks stay as they are under changes below them.
  pub Tiles-frame :
      (prev a : ℕ) (xs : List Tile)
      → Tiles f e prev a xs
      → ((b : ℕ) → a ≤ b → g b ≡ f b)
      → Tiles g e prev a xs
  Tiles-frame prev a [] t same = t
  Tiles-frame prev a (x ∷ xs) t same = (
    same a (omega arith) ∙ t.0,
    t.1,
    Tiles-frame a (behind a x) xs t.2 (λ b h. same b (omega arith)),
  )

  -- The first block's back pointer is changed, and nothing behind it.
  pub Tiles-reprev :
      (prev q a : ℕ) (xs : List Tile)
      → Tiles f e prev a xs
      → (a ≢ e → g a ≡ record (f a) { prev = q })
      → ((b : ℕ) → a < b → g b ≡ f b)
      → Tiles g e q a xs
  Tiles-reprev prev q a [] t at_a same = t
  Tiles-reprev prev q a (x ∷ xs) t at_a same = (
    at_a (omega (arith, t.1)) ∙ ap {A = HeapBlock} (λ b. record b { prev = q }) t.0,
    t.1,
    Tiles-frame a (behind a x) xs t.2 (λ b h. same b (omega arith)),
  )

  -- A heap that is tiled has few blocks.
  pub Tiles-length : (prev a : ℕ) (xs : List Tile) → Tiles f e prev a xs → a + 16 * length xs ≤ e
  Tiles-length prev a [] t = omega (arith, t)
  Tiles-length prev a (x ∷ xs) t = omega (arith, Tiles-length a (behind a x) xs t.2)
