-- ===== src/Kheap/Kmalloc.antt =====
-- What `kmalloc` of kernel/memory/kheap.c promises: memory is handed out by first fit, and can be
-- given back by `kfree`.
use nexus_kernel.Prelude.{
  ℕ, ◌+◌, ◌-◌, ◌%◌, ◌^◌, ◌≤◌, ◌<◌, ◌≡◌, ◌≢◌, refl, sym, ap, subst, ◌∙◌, true, false, arith, List,
  ◌∷◌, none, some, Option-cases, ◌⊎◌, inl, inr,
}
use nexus_kernel.Kheap.{
  Kheap, null, header_size, kheap_size, round_up, find_block, take_block, kmalloc, kfree,
}
use nexus_kernel.Kheap.Tiles.{Tile, tile, Tiles-length, IsHeap}
use nexus_kernel.Kheap.Alloc.{first_fit, first_fit-le}
use nexus_kernel.Kheap.Take.{find_block-first_fit, Tiles-first_fit}
use nexus_kernel.Kheap.Free.{release, Owned}
use nexus_kernel.Kheap.Spread.{first_fit-Leads, release-first_fit}
use nexus_kernel.Kheap.Owned.{Owned-Disjoint, first_fit-Owned, first_fit-Keeps}
use nexus_kernel.Kheap.Heap.{kfree_lem}

-- More steps than there can be blocks: each takes 16 bytes for its header.
abbrev pub heap_fuel : ℕ
heap_fuel = 262145

-- A size of at most 2^32 - 8 is rounded up by `kmalloc` to the next multiple of eight.
round_up_lem :
    (size : ℕ)
    → size + 7 < 2 ^ 32
    → (size ≤ round_up size) × (round_up size < size + 8) × (round_up size % 8 ≡ 0)
unfolding round_up
round_up_lem size h = (omega (arith, h), omega (arith, h), omega (arith, h))

apart :
    (d t c s a : ℕ) (ys : List Tile)
    → Owned d t a ys
    → Owned c s a ys
    → d ≢ c
    → (d + 16 + t ≤ c) ⊎ (c + 16 + s ≤ d)
apart d t c s a ys o p h = elim (lt_or_gt h) [
  | inl lt ↦ inl (Owned-Disjoint d c t s a ys o p lt)
  | inr gt ↦ inr (Owned-Disjoint c d s t a ys p o gt)
]
  where
    lt_or_gt : d ≢ c → (d < c) ⊎ (c < d)
    lt_or_gt h = omega arith

-- `kmalloc` serves a request by first fit, or gives null and changes nothing if no block fits.
abbrev pub Served : ℕ → Kheap → List Tile → ℕ → Type 0
Served fuel h xs size =
    ((first_fit (round_up size) h.heap_area xs ≡ none) × (kmalloc fuel h size ≡ some (null, h)))
    ⊎ ((c : ℕ) × (ys : List Tile) × (h' : Kheap) × (first_fit (round_up size) h.heap_area xs
          ≡ some (c, ys))
        × (kmalloc fuel h size ≡ some (c + header_size, h'))
        × (h'.heap_area ≡ h.heap_area)
        × IsHeap h' ys)

-- At `p` there is a block in use of at least the size, and the blocks that were in use before are
-- in use still, none of them overlapping with it.
abbrev pub Fresh : Kheap → List Tile → Kheap → ℕ → ℕ → Type 0
Fresh h xs h' size p =
    (c : ℕ) × (s : ℕ) × (ys : List Tile) × IsHeap h' ys
    × (h'.heap_area ≡ h.heap_area)
    × (p ≡ c + header_size)
    × (size ≤ s)
    × Owned c s h.heap_area ys
    × ((d t : ℕ)
        → Owned d t h.heap_area xs
        → Owned d t h.heap_area ys × ((d + header_size + t ≤ c) ⊎ (c + header_size + s ≤ d)))

module _ (fuel : ℕ) (enough : heap_fuel ≤ fuel) (h : Kheap) (xs : List Tile)
    (heap : IsHeap h xs) where
  found :
      (n : ℕ)
      → find_block fuel h.blocks n h.heap_start
        ≡ some (elim (first_fit n h.heap_area xs) [ none ↦ null | some r ↦ r.0 ])
  found n =
      let few =
        Tiles-length h.blocks h.blocks (h.heap_area + kheap_size) null h.heap_area xs heap.tiles in
      subst
        (λ b.
          find_block fuel h.blocks n b
          ≡ some (elim (first_fit n h.heap_area xs) as (λ _. ℕ) [ none ↦ null | some r ↦ r.0 ]))
        (ground (arith, heap.at_start))
        (find_block-first_fit h.blocks (h.heap_area + kheap_size) n heap.fits fuel null h.heap_area
          xs heap.tiles heap.not_null (omega (arith, few, enough)))

  -- A block that first fit finds is taken.
  pub take_block-IsHeap :
      (n c : ℕ) (ys : List Tile)
      → first_fit n h.heap_area xs ≡ some (c, ys)
      → IsHeap (record h { blocks = take_block h.blocks c n }) ys
  take_block-IsHeap n c ys hit =
      let took =
        Tiles-first_fit h.blocks (h.heap_area + kheap_size) n heap.fits null h.heap_area c xs ys
          heap.tiles heap.not_null hit in
      record {
        ready = heap.ready;
        at_start = heap.at_start;
        not_null = heap.not_null;
        fits = heap.fits;
        tiles = took.0;
        spread = first_fit-Leads false n h.heap_area c xs ys hit heap.spread;
      }

  kmalloc-none :
      (size : ℕ)
      → size ≢ 0
      → first_fit (round_up size) h.heap_area xs ≡ none
      → kmalloc fuel h size ≡ some (null, h)
  unfolding kmalloc
  kmalloc-none size hs miss = ground (arith, heap.ready, found (round_up size), miss)

  pub kmalloc-some :
      (size c : ℕ) (ys : List Tile)
      → size ≢ 0
      → first_fit (round_up size) h.heap_area xs ≡ some (c, ys)
      → c ≢ null
      → kmalloc fuel h size
        ≡ some (c + header_size, record h { blocks = take_block h.blocks c (round_up size) })
  unfolding kmalloc
  kmalloc-some size c ys hs hit hc = ground (arith, heap.ready, found (round_up size), hit)

  -- On a heap whose blocks tile its array, with enough fuel, `kmalloc` of a size that is not zero
  -- returns: either first fit on the list of blocks fails and the result is null with the heap
  -- unchanged, or the result is the address behind the header of the block that first fit chose, and
  -- the blocks of the new heap are those that first fit leaves.
  pub kmalloc_lem : (size : ℕ) → size ≢ 0 → Served fuel h xs size
  kmalloc_lem size hs = elim (Option-cases (first_fit (round_up size) h.heap_area xs)) [
    | inl miss ↦ inl (miss, kmalloc-none size hs miss)
    | inr hit ↦ inr (
      hit.0.0,
      hit.0.1,
      record h { blocks = take_block h.blocks hit.0.0 (round_up size) },
      hit.1,
      kmalloc-some size hit.0.0 hit.0.1 hs hit.1 (
          omega (
            arith,
            heap.not_null,
            first_fit-le (round_up size) h.heap_area hit.0.0 xs hit.0.1 hit.1,
          )),
      refl,
      take_block-IsHeap (round_up size) hit.0.0 hit.0.1 hit.1,
    )
  ]

  -- If `kmalloc` of a size between 1 and 2^32 - 8 returns a pointer that is not null, a block in use
  -- of at least that size lies at it, the new heap is tiled, and every block in use before is in use
  -- still and does not overlap with it.
  pub kmalloc-Fresh :
      (size p : ℕ) (h' : Kheap)
      → size ≢ 0
      → size + 7 < 2 ^ 32
      → kmalloc fuel h size ≡ some (p, h')
      → p ≢ null
      → Fresh h xs h' size p
  kmalloc-Fresh size p h' hs hb run hp = elim (kmalloc_lem size hs) [
    | inl miss ↦ ground (arith, run, miss.1)
    | inr k ↦
        let same : (k.2 ≡ h') = ground (arith, run, k.4) in
        let owned = first_fit-Owned (round_up size) h.heap_area k.0 xs k.1 k.3 in
        (
          k.0,
          owned.0,
          k.1,
          subst (λ g. IsHeap g k.1) same k.6,
          subst (λ g. g.heap_area ≡ h.heap_area) same k.5,
          ground (arith, run, k.4),
          omega (arith, owned.1, round_up_lem size hb),
          owned.2,
          λ d t o.
              let keeps = first_fit-Keeps (round_up size) h.heap_area k.0 xs k.1 d t k.3 o in
              (keeps.0, apart d t k.0 owned.0 h.heap_area k.1 keeps.0 owned.2 keeps.1),
        )
  ]

  -- To free what `kmalloc` has just handed out gives the heap with the same blocks as before: what was
  -- split off is merged again, and nothing else is.
  pub kfree-kmalloc :
      (size p : ℕ) (h' : Kheap)
      → size ≢ 0
      → kmalloc fuel h size ≡ some (p, h')
      → p ≢ null
      → IsHeap (kfree h' p) xs
  kfree-kmalloc size p h' hs run hp = elim (kmalloc_lem size hs) [
    | inl miss ↦ ground (arith, run, miss.1)
    | inr k ↦
        let same : (k.2 ≡ h') = ground (arith, run, k.4) in
        let owned = first_fit-Owned (round_up size) h.heap_area k.0 xs k.1 k.3 in
        let freed =
          kfree_lem k.2 k.1 k.0 owned.0 k.6
            (subst (λ a. Owned k.0 owned.0 a k.1) (sym k.5) owned.2) in
        subst (λ q. IsHeap (kfree h' q) xs) {x = k.0 + header_size} (ground (arith, run, k.4))
          (subst (λ g. IsHeap (kfree g (k.0 + header_size)) xs) same
            (subst (IsHeap (kfree k.2 (k.0 + header_size)))
              (ap (λ a. release a k.0 k.1) k.5
                ∙ release-first_fit false (round_up size) h.heap_area k.0 xs k.1 heap.spread k.3)
              freed.0))
  ]

-- `kmalloc` hands out a block of no bytes, at the start of the heap.
abbrev pub Empty : ℕ → Kheap → ℕ → List Tile → ℕ → Type 0
Empty fuel h s rest size =
    (h' : Kheap) × (kmalloc fuel h size ≡ some (h.heap_area + header_size, h'))
    × IsHeap h' (tile 0 false ∷ tile (s - 16) true ∷ rest)

-- For a size above 2^32 - 8, where the rounding wraps, on a heap that begins with a free block of at
-- least 32 bytes, `kmalloc` does not fail: the result is a pointer to a block of no bytes.
kmalloc-wraps :
    (fuel : ℕ)
    → heap_fuel ≤ fuel
    → (h : Kheap) (s : ℕ) (rest : List Tile) → IsHeap h (tile s true ∷ rest)
    → 32 ≤ s
    → (size : ℕ) → 2 ^ 32 - 8 < size
    → size < 2 ^ 32
    → Empty fuel h s rest size
unfolding first_fit round_up
kmalloc-wraps fuel enough h s rest heap hs size low high =
    let zero_bytes : round_up size ≡ 0 = omega (arith, low, high) in
    let hit : first_fit (round_up size) h.heap_area (tile s true ∷ rest)
        ≡ some (h.heap_area, tile 0 false ∷ tile (s - 16) true ∷ rest) =
      ground (arith, zero_bytes, hs) in
    (
      record h { blocks = take_block h.blocks h.heap_area (round_up size) },
      kmalloc-some fuel enough h (tile s true ∷ rest) heap size h.heap_area
          (tile 0 false ∷ tile (s - 16) true ∷ rest) (omega (arith, low)) hit heap.not_null,
      take_block-IsHeap fuel enough h (tile s true ∷ rest) heap (round_up size) h.heap_area
          (tile 0 false ∷ tile (s - 16) true ∷ rest) hit,
    )
