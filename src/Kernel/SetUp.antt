-- ===== src/Kernel/SetUp.antt =====
-- What holds once `kernel_main` has set the parts up.
use nexus_kernel.Prelude.{◌≤◌, ℕ, ◌+◌, ◌≡◌, true, some, List, [], ◌∷◌}
use nexus_kernel.Cpu.Idt.{Idt}
use nexus_kernel.Pmm.{Pmm}
use nexus_kernel.Pmm.Boot
use nexus_kernel.Kheap.{header_size}
use nexus_kernel.Kheap.Tiles.{IsHeap, tile}
use nexus_kernel.Keyboard.Ring.{Holds}
use nexus_kernel.Tasks.{Tasks}
use nexus_kernel.Tasks.Rotate.{IsOrderly}
use nexus_kernel.Kernel.Running.{IsRunning}
use nexus_kernel.Kernel.Boot.{Machine, mount_root, start_processes}
use nexus_kernel.Kernel.Taken.{node_tile, mount_tile, process_tile, stack_tile}
use nexus_kernel.Kheap.Tiles.{Tile}
use nexus_kernel.Kheap.Kmalloc.{heap_fuel}
use nexus_kernel.Pmm.{alloc_frame}
use nexus_kernel.Vmm.{Vmm}
use nexus_kernel.Fs.Vfs.{Vfs}

-- The heap after the set-up: the root's node, the mount, and the idle process with its stack, and
-- the rest as one free block.
abbrev pub at_end : List Tile
at_end = node_tile ∷ mount_tile ∷ process_tile ∷ stack_tile ∷ tile 4184616 true ∷ []

module _ (fuel : ℕ) (enough : heap_fuel ≤ fuel) (m : Machine) where
  abbrev Mounted : Machine → Type 0
  Mounted m' =
      (mount_root fuel m ≡ some m')
      × (m'.vmm ≡ m.vmm)
      × (m'.kernel.tasks ≡ m.kernel.tasks)
      × (m'.kernel.keyboard ≡ m.kernel.keyboard)
      × (m'.kernel.idt ≡ m.kernel.idt)
      × (m'.kernel.vfs.vfs_root ≡ m.heap.heap_area + header_size)
      × (m'.heap.heap_area ≡ m.heap.heap_area)
      × IsHeap m'.heap (node_tile ∷ mount_tile ∷ tile 4193008 true ∷ [])

  abbrev Running : Machine → Type 0
  Running m' =
      (start_processes fuel m ≡ some m')
      × (m'.gdt ≡ m.gdt)
      × (m'.vmm.frames ≡ (alloc_frame m.vmm.frames).1)
      × (m'.kernel.vfs ≡ m.kernel.vfs)
      × IsHeap m'.heap at_end
      × (m'.kernel.tasks.current_process ≡ m.heap.heap_area + 16 + 184 + 16 + 1064 + header_size)
      × IsOrderly m'.kernel.tasks []
      × Holds m'.kernel.keyboard []
      × IsRunning m'.kernel
