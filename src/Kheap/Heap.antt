-- ===== src/Kheap/Heap.antt =====
-- What `kheap_init` and `kfree` of kernel/memory/kheap.c promise: the blocks tile the array, and freed
-- memory is merged.
use nexus_kernel.Prelude.{
  ℕ, ◌+◌, ◌-◌, ◌^◌, ◌<◌, ◌≡◌, ◌≢◌, refl, sym, subst, true, false, arith, List, [], ◌∷◌,
}
use nexus_kernel.Kheap.{Kheap, null, header_size, kheap_size, kheap_init, kfree, put}
use nexus_kernel.Kheap.Tiles.{Tile, tile, IsHeap}
use nexus_kernel.Kheap.Free.{release, Owned}
use nexus_kernel.Kheap.Coalesce.{mark}
use nexus_kernel.Kheap.Release.{free_at, Tiles-release}
use nexus_kernel.Kheap.Spread.{release-Leads}
use nexus_kernel.Kheap.Owned.{release-Owned}

-- `kheap_init` on an array that is not at address zero and ends below the end of the address space
-- gives a tiled heap of one free block, which takes up the array.
pub kheap_init-IsHeap :
    (h : Kheap)
    → h.heap_area ≢ null
    → h.heap_area + kheap_size + 64 < 2 ^ 32
    → IsHeap (kheap_init h) (tile (kheap_size - header_size) true ∷ [])
unfolding kheap_init put
kheap_init-IsHeap h hz hb = record {
  ready = refl;
  at_start = refl;
  not_null = hz;
  fits = hb;
  tiles = (ground arith, omega arith, omega arith);
  spread = ((λ no. ground (arith, no)), tt);
}

kfree_at :
    (h : Kheap) (c : ℕ) → kfree h (c + header_size) ≡ record h { blocks = free_at h.blocks c }
unfolding kfree mark
kfree_at h c = ground arith

-- The heap after the block at `c` is freed, and the other blocks in use.
abbrev pub Freed : Kheap → List Tile → ℕ → Type 0
Freed h xs c =
    IsHeap (kfree h (c + header_size)) (release h.heap_area c xs)
    × ((d t : ℕ)
        → Owned d t h.heap_area xs
        → d ≢ c
        → Owned d t h.heap_area (release h.heap_area c xs))

-- `kfree` of the memory of a block in use leaves a tiled heap, whose blocks are the old ones with that
-- one free and merged with the free blocks beside it; every other block in use stays as it is.
pub kfree_lem :
    (h : Kheap) (xs : List Tile) (c s : ℕ) → IsHeap h xs → Owned c s h.heap_area xs → Freed h xs c
kfree_lem h xs c s heap o = (
  subst (λ k. IsHeap k (release h.heap_area c xs)) (sym (kfree_at h c))
      (record {
        ready = heap.ready;
        at_start = heap.at_start;
        not_null = heap.not_null;
        fits = heap.fits;
        tiles =
            Tiles-release h.blocks (h.heap_area + kheap_size) heap.fits h.heap_area c s xs
              heap.not_null heap.tiles o;
        spread = release-Leads false h.heap_area c s xs heap.spread o (λ _. refl);
      }),
  λ d t p ne. release-Owned c s d t h.heap_area xs o p ne,
)
