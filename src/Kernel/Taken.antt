-- ===== src/Kernel/Taken.antt =====
-- What `kernel_main` takes from the heap while it sets the parts up.
use nexus_kernel.Prelude.{◌≤◌, ℕ, ◌+◌, ◌≡◌, ◌≢◌, refl, true, false, some, List, [], ◌∷◌, arith}
use nexus_kernel.Kheap.{null, header_size}
use nexus_kernel.Kheap.Tiles.{IsHeap, tile}
use nexus_kernel.Kernel.Boot.{node_size, mount_size, process_size}
use nexus_kernel.Kheap.{Kheap, kmalloc, round_up, take_block}
use nexus_kernel.Kheap.Tiles.{Tile}
use nexus_kernel.Kheap.Alloc.{first_fit}
use nexus_kernel.Kheap.Kmalloc.{heap_fuel, kmalloc-some, take_block-IsHeap}
use nexus_kernel.Tasks.Lifecycle.{kernel_stack_size}

-- `kmalloc` hands out the block at `c`, and leaves the blocks `ys`.
abbrev pub Takes : ℕ → Kheap → ℕ → ℕ → List Tile → Type 0
Takes fuel h size c ys =
    (h' : Kheap) × (kmalloc fuel h size ≡ some (c + header_size, h'))
    × (h'.heap_area ≡ h.heap_area)
    × IsHeap h' ys

kmalloc-Takes :
    (fuel : ℕ)
    → heap_fuel ≤ fuel
    → (h : Kheap) (xs ys : List Tile) (size c : ℕ) → IsHeap h xs
    → size ≢ 0
    → c ≢ null
    → first_fit (round_up size) h.heap_area xs ≡ some (c, ys)
    → Takes fuel h size c ys
kmalloc-Takes fuel enough h xs ys size c heap hs hc hit = (
  record h { blocks = take_block h.blocks c (round_up size) },
  kmalloc-some fuel enough h xs heap size c ys hs hit hc,
  refl,
  take_block-IsHeap fuel enough h xs heap (round_up size) c ys hit,
)

-- The heap behind the given blocks in use.
abbrev pub node_tile : Tile
node_tile = tile 184 false

abbrev pub mount_tile : Tile
mount_tile = tile 1064 false

abbrev pub process_tile : Tile
process_tile = tile 168 false

abbrev pub stack_tile : Tile
stack_tile = tile 8192 false

module _ (fuel : ℕ) (enough : heap_fuel ≤ fuel) (h : Kheap) where
  pub node_taken :
      IsHeap h (tile 4194288 true ∷ [])
      → Takes fuel h node_size h.heap_area (node_tile ∷ tile 4194088 true ∷ [])
  unfolding first_fit round_up
  node_taken heap =
      kmalloc-Takes fuel enough h _ _ node_size h.heap_area heap (λ e. absurd (omega (arith, e)))
        heap.not_null refl

  pub mount_taken :
      IsHeap h (node_tile ∷ tile 4194088 true ∷ [])
      → Takes fuel h mount_size
          (h.heap_area + 16 + 184)
          (node_tile ∷ mount_tile ∷ tile 4193008 true ∷ [])
  unfolding first_fit round_up
  mount_taken heap =
      kmalloc-Takes fuel enough h _ _ mount_size (h.heap_area + 16 + 184) heap
        (λ e. absurd (omega (arith, e))) (λ e. absurd (omega (arith, e))) refl

  pub process_taken :
      IsHeap h (node_tile ∷ mount_tile ∷ tile 4193008 true ∷ [])
      → Takes fuel h process_size
          (h.heap_area + 16 + 184 + 16 + 1064)
          (node_tile ∷ mount_tile ∷ process_tile ∷ tile 4192824 true ∷ [])
  unfolding first_fit round_up
  process_taken heap =
      kmalloc-Takes fuel enough h _ _ process_size (h.heap_area + 16 + 184 + 16 + 1064) heap
        (λ e. absurd (omega (arith, e))) (λ e. absurd (omega (arith, e))) refl

  pub stack_taken :
      IsHeap h (node_tile ∷ mount_tile ∷ process_tile ∷ tile 4192824 true ∷ [])
      → Takes fuel h kernel_stack_size
          (h.heap_area + 16 + 184 + 16 + 1064 + 16 + 168)
          (node_tile ∷ mount_tile ∷ process_tile ∷ stack_tile ∷ tile 4184616 true ∷ [])
  unfolding first_fit round_up
  stack_taken heap =
      kmalloc-Takes fuel enough h _ _ kernel_stack_size
        (h.heap_area + 16 + 184 + 16 + 1064 + 16 + 168) heap (λ e. absurd (omega (arith, e)))
        (λ e. absurd (omega (arith, e))) refl
