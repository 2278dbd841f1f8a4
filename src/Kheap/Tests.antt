-- ===== src/Kheap/Tests.antt =====
-- kheap.c at concrete heaps: runs of the model, and the theorems at inputs that meet their conditions.
use nexus_kernel.Prelude.{◌-◌, ◌≡◌, refl, true, false, arith, List, [], ◌∷◌, some, inl, ◌%◌}
use nexus_kernel.Kheap.{
  Kheap, header_size, kheap_size, kheap_init, round_up, find_block, put, take_block, kmalloc, kfree,
}
use nexus_kernel.Kheap.Tiles.{Tile, tile, IsHeap}
use nexus_kernel.Kheap.Alloc.{first_fit}
use nexus_kernel.Kheap.Free.{release, Owned}
use nexus_kernel.Kheap.Heap.{kheap_init-IsHeap, kfree_lem, Freed}
use nexus_kernel.Kheap.{split_block, set_prev}
use nexus_kernel.Kheap.Realloc.{Moved, krealloc-Moves}
use nexus_kernel.Kheap.Kmalloc.{
  heap_fuel, kmalloc_lem, kmalloc-Fresh, kfree-kmalloc, Served, Fresh, take_block-IsHeap,
}

-- The array lies at 2 MiB.
abbrev off : Kheap
off = record {
  blocks = (λ _. record { size = 0; free = false; next = 0; prev = 0 });
  heap_area = 0x200000;
  heap_start = 0;
  heap_initialized = false;
}

abbrev on : Kheap
on = kheap_init off

abbrev one_free : List Tile
one_free = tile (kheap_size - header_size) true ∷ []

on-IsHeap : IsHeap on one_free
on-IsHeap = kheap_init-IsHeap off (omega arith) (omega arith)

kmalloc_lem_example : Served heap_fuel on one_free 100
kmalloc_lem_example = kmalloc_lem heap_fuel (omega arith) on one_free on-IsHeap 100 (omega arith)

-- After 100 bytes are taken.
abbrev taken : Kheap
taken = record on { blocks = take_block on.blocks 0x200000 104 }

runs : kmalloc heap_fuel on 100 ≡ some (0x200010, taken)
unfolding kmalloc find_block round_up kheap_init put
runs = refl

kmalloc-Fresh_example : Fresh on one_free taken 100 0x200010
kmalloc-Fresh_example =
    kmalloc-Fresh heap_fuel (omega arith) on one_free on-IsHeap 100 0x200010 taken (omega arith)
      (omega arith) runs (omega arith)

kfree-kmalloc_example : IsHeap (kfree taken 0x200010) one_free
kfree-kmalloc_example =
    kfree-kmalloc heap_fuel (omega arith) on one_free on-IsHeap 100 0x200010 taken (omega arith)
      runs (omega arith)

abbrev one_taken : List Tile
one_taken = tile 104 false ∷ tile 4194168 true ∷ []

taken-IsHeap : IsHeap taken one_taken
unfolding first_fit kheap_init
taken-IsHeap =
    take_block-IsHeap heap_fuel (omega arith) on one_free on-IsHeap 104 0x200000 one_taken refl

taken-Owned : Owned 0x200000 104 taken.heap_area one_taken
unfolding kheap_init
taken-Owned = inl (refl, refl, refl)

kfree_lem_example : Freed taken one_taken 0x200000
kfree_lem_example = kfree_lem taken one_taken 0x200000 104 taken-IsHeap taken-Owned

-- The array is one block again.
frees : release 0x200000 0x200000 one_taken ≡ one_free
unfolding release
frees = refl

-- After another 200 bytes are taken.
abbrev taken_twice : Kheap
taken_twice = record taken { blocks = take_block taken.blocks 0x200078 200 }

runs_again : kmalloc heap_fuel taken 200 ≡ some (0x200088, taken_twice)
unfolding kmalloc find_block round_up kheap_init put take_block split_block set_prev
runs_again = refl

krealloc-Moves_example :
    Moved heap_fuel taken one_taken 0x200000 104 200 0x200088 taken_twice (λ a. a % 256)
krealloc-Moves_example =
    krealloc-Moves heap_fuel (omega arith) taken one_taken taken-IsHeap 0x200000 104 200 taken-Owned
      (omega arith) (omega arith) (λ a. a % 256) 0x200088 taken_twice runs_again (omega arith)
