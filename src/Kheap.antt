-- ===== src/Kheap.antt =====
-- kernel/memory/kheap.c: the kernel heap, a doubly linked list of blocks in one array, each behind a
-- header of 16 bytes (`heap_block_t` of include/memory/kheap.h). `blocks` gives the header at an
-- address; every write to one goes through `put`, so that all pointers to it see it.
pub mod Tiles
pub mod Alloc
pub mod Take
pub mod Free
pub mod Coalesce
pub mod Release
pub mod Spread
pub mod Owned
pub mod Heap
pub mod Kmalloc
pub mod Realloc
mod Tests
use nexus_kernel.Prelude.{
  ◌^◌, bit_and, ℕ, zero, suc, ◌+◌, ◌-◌, ◌*◌, ◌%◌, Bool, true, false, not, ◌&&◌, ◌||◌, Option, none,
  some, leb, ◌==◌, if◌then◌else◌,
}
use nexus_kernel.Libc.{Bytes, memcpy}
use nexus_kernel.Prelude.Words.{add32, sub32}

abbrev pub null : ℕ
null = 0

-- HEAP_BLOCK_HEADER_SIZE, sizeof(heap_block_t)
abbrev pub header_size : ℕ
header_size = 16

abbrev pub min_block_size : ℕ
min_block_size = 16

abbrev pub kheap_size : ℕ
kheap_size = 4 * 1024 * 1024

pub record HeapBlock : Type 0 where
  pub size : ℕ
  pub free : Bool
  pub next : ℕ
  pub prev : ℕ

abbrev pub Blocks : Type 0
Blocks = ℕ → HeapBlock

-- The static variables; `heap_area` is the address of the array.
pub record Kheap : Type 0 where
  pub blocks : Blocks
  pub heap_area : ℕ
  pub heap_start : ℕ
  pub heap_initialized : Bool

-- The header at `p` given anew.
unfoldable pub put : Blocks → ℕ → HeapBlock → Blocks
put f p b a = if a == p then b else f a

-- `p->prev = q` where `p` is not null
unfoldable pub set_prev : Blocks → ℕ → ℕ → Blocks
set_prev f p q = if p == null then f else put f p (record (f p) { prev = q })

unfoldable pub kheap_init : Kheap → Kheap
kheap_init h = record h {
  blocks =
      put h.blocks h.heap_area
        (record { size = kheap_size - header_size; free = true; next = null; prev = null });
  heap_start = h.heap_area;
  heap_initialized = true;
}

unfoldable pub split_block : Blocks → ℕ → ℕ → Blocks
split_block f block size =
    let new_block = block + header_size + size in
    let rest : HeapBlock = record {
      size = sub32 (sub32 (f block).size size) header_size;
      free = true;
      next = (f block).next;
      prev = block;
    } in
    let f1 = put f new_block rest in
    let f2 = set_prev f1 (f1 block).next new_block in
    if leb (add32 (add32 size header_size) min_block_size) (f block).size
    then put f2 block (record (f2 block) { next = new_block; size = size })
    else f

-- The first `if` of `coalesce_block`: take in the next block if it is free.
unfoldable pub absorb_next : Blocks → ℕ → Blocks
absorb_next f block =
    let next = (f block).next in
    let grown = record (f block) {
      size = add32 (f block).size (add32 header_size (f next).size);
      next = (f next).next;
    } in
    if not (next == null) && (f next).free
    then set_prev (put f block grown) (f next).next block
    else f

-- The second `if`: let the block before take this one in if it is free.
unfoldable pub join_prev : Blocks → ℕ → Blocks
join_prev f block =
    let prev = (f block).prev in
    let grown = record (f prev) {
      size = add32 (f prev).size (add32 header_size (f block).size);
      next = (f block).next;
    } in
    if not (prev == null) && (f prev).free
    then set_prev (put f prev grown) (f block).next prev
    else f

unfoldable pub coalesce_block : Blocks → ℕ → Blocks
coalesce_block f block = join_prev (absorb_next f block) block

-- `(size + 7) & ~7`
unfoldable pub round_up : ℕ → ℕ
round_up size = add32 size 7 - add32 size 7 % 8

-- The `while` loop of `kmalloc` on fuel: the first free block that is large enough, or null; `none`
-- means that the fuel ran out.
unfoldable pub find_block : ℕ → Blocks → ℕ → ℕ → Option ℕ
find_block zero f size current = none
find_block (suc fuel) f size current = elim (current == null) [
  | true ↦ some null
  | false ↦ elim ((f current).free && leb size (f current).size) [
    | true ↦ some current
    | false ↦ find_block fuel f size (f current).next
  ]
]

-- What `kmalloc` does to the block that it found.
unfoldable pub take_block : Blocks → ℕ → ℕ → Blocks
take_block f block size =
    let f1 = split_block f block size in put f1 block (record (f1 block) { free = false })

unfoldable pub kmalloc : ℕ → Kheap → ℕ → Option (ℕ × Kheap)
kmalloc fuel h size =
    if not h.heap_initialized || size == 0
    then some (null, h)
    else elim (find_block fuel h.blocks (round_up size) h.heap_start) [
      | none ↦ none
      | some current ↦
          if current == null
          then some (null, h)
          else some (
            current + header_size,
            record h { blocks = take_block h.blocks current (round_up size) },
          )
    ]

unfoldable pub kfree : Kheap → ℕ → Kheap
kfree h ptr =
    let block = ptr - header_size in
    let freed = put h.blocks block (record (h.blocks block) { free = true }) in
    if ptr == null then h else record h { blocks = coalesce_block freed block }

-- `(addr + alignment - 1) & ~(alignment - 1)` of what `kmalloc` returned
unfoldable pub kmalloc_aligned : ℕ → Kheap → ℕ → ℕ → Option (ℕ × Kheap)
kmalloc_aligned fuel h size alignment = elim (kmalloc fuel h (add32 size alignment)) [
  | none ↦ none
  | some r ↦
      if r.0 == null
      then some (null, r.1)
      else some (bit_and (sub32 (add32 r.0 alignment) 1) (2 ^ 32 - 1 - sub32 alignment 1), r.1)
]

-- `krealloc` also moves bytes of the memory.
unfoldable pub krealloc : ℕ → Kheap → Bytes → ℕ → ℕ → Option (ℕ × Kheap × Bytes)
krealloc fuel h m ptr new_size =
    let block = ptr - header_size in
    if ptr == null
    then elim (kmalloc fuel h new_size) [ none ↦ none | some r ↦ some (r.0, r.1, m) ]
    else if new_size == 0
    then some (null, kfree h ptr, m)
    else if leb new_size (h.blocks block).size
    then some (ptr, h, m)
    else elim (kmalloc fuel h new_size) [
      | none ↦ none
      | some r ↦
          if r.0 == null
          then some (null, r.1, m)
          else some (r.0, kfree r.1 ptr, memcpy r.0 ptr (r.1.blocks block).size m)
    ]
