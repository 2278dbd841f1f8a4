-- ===== src/Kheap/Realloc.antt =====
-- What `krealloc` of kernel/memory/kheap.c promises when it has to move a block.
use nexus_kernel.Prelude.{
  [], ◌∷◌, if◌then◌else◌, ℕ, ◌+◌, ◌-◌, ◌^◌, ◌≤◌, ◌<◌, ◌≡◌, ◌≢◌, sym, ap, subst, ◌∙◌, arith, List,
  ◌∷◌, some, ◌⊎◌, inl, inr,
}
use nexus_kernel.Kheap.{Kheap, null, header_size, kheap_size, kmalloc, kfree}
use nexus_kernel.Kheap.Tiles.{Tile, IsHeap}
use nexus_kernel.Kheap.Free.{Owned}
use nexus_kernel.Kheap.Tiles.{Tiles, behind}
use nexus_kernel.Kheap.{krealloc, Blocks, HeapBlock}
use nexus_kernel.Libc.{Bytes, memcpy}
use nexus_kernel.Libc.Blocks.{within, memcpy_lem}
use nexus_kernel.Kheap.Kmalloc.{heap_fuel, kmalloc-Fresh}

-- The header of a block in use holds its size.
Tiles-Owned :
    (f : Blocks) (e prev c s a : ℕ) (xs : List Tile)
    → Tiles f e prev a xs
    → Owned c s a xs
    → (f c).size ≡ s
Tiles-Owned f e prev c s a [] t o = elim o [ ]
Tiles-Owned f e prev c s a (x ∷ xs) t (inl o) =
    subst (λ b. (f b).size ≡ s) o.0 (ap {A = HeapBlock} (λ b. b.size) t.0 ∙ o.2)
Tiles-Owned f e prev c s a (x ∷ xs) t (inr o) = Tiles-Owned f e a c s (behind a x) xs t.2 o

-- The bytes of the block of size `t` at `c` are found at `q`, and those of the other blocks in use
-- where they were.
abbrev pub Moves : Kheap → List Tile → ℕ → ℕ → ℕ → Bytes → Bytes → Type 0
Moves h xs c t q m m' =
    ((i : ℕ) → i < t → m' (q + i) ≡ m (c + header_size + i))
    × ((d u i : ℕ)
        → Owned d u h.heap_area xs
        → i < u
        → m' (d + header_size + i) ≡ m (d + header_size + i))

-- `krealloc` of the block at `c` to `size` gives `q`, with the heap `h1` less the block.
abbrev pub Moved : ℕ → Kheap → List Tile → ℕ → ℕ → ℕ → ℕ → Kheap → Bytes → Type 0
Moved fuel h xs c t size q h1 m =
    (m' : Bytes) × (krealloc fuel h m (c + header_size) size
      ≡ some (q, kfree h1 (c + header_size), m'))
    × Moves h xs c t q m m'

module _ (fuel : ℕ) (enough : heap_fuel ≤ fuel) (h : Kheap) (xs : List Tile) (heap : IsHeap h xs)
    (c t size : ℕ) (o : Owned c t h.heap_area xs) (grows : t < size) (small : size + 7 < 2 ^ 32)
    (m : Bytes) where
  krealloc-run :
      (q : ℕ) (h1 : Kheap)
      → kmalloc fuel h size ≡ some (q, h1)
      → q ≢ null
      → krealloc fuel h m (c + header_size) size
        ≡ some (q, kfree h1 (c + header_size), memcpy q (c + header_size) (h1.blocks c).size m)
  unfolding krealloc
  krealloc-run q h1 run hq =
      let at : (h.blocks c).size ≡ t =
        Tiles-Owned h.blocks (h.heap_area + kheap_size) null c t h.heap_area xs heap.tiles o in
      let back : c + header_size - header_size ≡ c = omega arith in
      ground (arith, at, run, back, grows)

  -- When `krealloc` of a block in use asks for more than the block's size, at most 2^32 - 8, and
  -- `kmalloc` finds room for it, `krealloc` returns that room and frees the old block; the bytes of
  -- the old block are found there, and the bytes of every block in use are where they were.
  pub krealloc-Moves :
      (q : ℕ) (h1 : Kheap)
      → kmalloc fuel h size ≡ some (q, h1)
      → q ≢ null
      → Moved fuel h xs c t size q h1 m
  krealloc-Moves q h1 run hq =
      let new = kmalloc-Fresh fuel enough h xs heap size q h1 (omega (arith, grows)) small run hq in
      let at : (h1.blocks c).size ≡ t =
        Tiles-Owned h1.blocks (h1.heap_area + kheap_size) null c t h1.heap_area new.2 new.3.tiles
          (subst (λ a. Owned c t a new.2) (sym new.4) (new.8 c t o).0) in
      let q_at : q ≡ new.0 + 16 = new.5 in
      let own = new.8 c t o in
      let clear : (q ≤ c + header_size) ⊎ (c + header_size + t ≤ q) = elim own.1 [
        | inl h ↦ inr (omega (arith, h, q_at))
        | inr h ↦ inl (omega (arith, h, q_at))
      ] in
      let copied : (a : ℕ)
          → memcpy q (c + header_size) (h1.blocks c).size m a
            ≡ (if within q t a then m (a - q + (c + header_size)) else m a) =
        λ a.
          subst
            (λ n.
              memcpy q (c + header_size) n m a
              ≡ (if within q t a then m (a - q + (c + header_size)) else m a))
            (sym at) (memcpy_lem q (c + header_size) t m clear a) in
      (
        memcpy q (c + header_size) (h1.blocks c).size m,
        krealloc-run q h1 run hq,
        (
          (λ i hi. copied (q + i) ∙ in_block q i hi),
          λ d u i od hi.
              copied (d + header_size + i)
              ∙ out_of_block d u i q new.0 new.1 hi q_at (omega (arith, new.6, grows))
                  (new.8 d u od).1,
        ),
      )
    where
      in_block :
          (q i : ℕ)
          → i < t
          → (if within q t (q + i) then m (q + i - q + (c + header_size)) else m (q + i))
            ≡ m (c + header_size + i)
      in_block q i hi =
          let same : q + i - q + (c + header_size) ≡ c + header_size + i = omega arith in
          ground (arith, hi, same)

      out_of_block :
          (d u i q c' s : ℕ)
          → i < u
          → q ≡ c' + 16
          → t ≤ s
          → (d + header_size + u ≤ c') ⊎ (c' + header_size + s ≤ d)
          → (if within q t (d + header_size + i)
              then m (d + header_size + i - q + (c + header_size))
              else m (d + header_size + i))
            ≡ m (d + header_size + i)
      out_of_block d u i q c' s hi hq ht apart = ground (arith, hi, hq, ht, apart)
