-- ===== src/Vmm.antt =====
-- kernel/memory/vmm.c: page directories and page tables in physical memory.
-- `memory` gives the 32-bit word at an address; all accesses are to addresses that are multiples of
-- four. A page directory (`page_directory_t` of kernel/include/memory/vmm.h) is three arrays behind
-- one another: 1024 entries, the addresses of 1024 tables, and its own address; with its alignment it
-- takes three pages. The instructions that load a control register or drop a cached translation are
-- left out, but for the address that goes into CR3.
pub mod Space
pub mod Write
pub mod Create
pub mod Table
pub mod Map
pub mod Share
pub mod Clobber
mod Tests
use nexus_kernel.Prelude.{
  ℕ, zero, suc, ◌+◌, ◌-◌, ◌*◌, ◌/◌, ◌%◌, ◌^◌, bit_or, Bool, not, ◌&&◌, ◌||◌, leb, ltb, ◌==◌,
  if◌then◌else◌,
}
use nexus_kernel.Prelude.Words.{add32}
use nexus_kernel.Pmm.{Pmm, page_size, alloc_frame, free_frame}

abbrev pub null : ℕ
null = 0

abbrev pub page_present : ℕ
page_present = 1

abbrev pub page_writable : ℕ
page_writable = 2

-- sizeof(page_directory_t)
abbrev pub directory_size : ℕ
directory_size = 12288

abbrev pub Memory : Type 0
Memory = ℕ → ℕ

-- The static variables, the frames of the physical memory manager, the memory and CR3.
pub record Vmm : Type 0 where
  pub kernel_directory : ℕ
  pub current_directory : ℕ
  pub kernel_end_addr : ℕ
  pub frames : Pmm
  pub memory : Memory
  pub cr3 : ℕ

-- `*a = word`
unfoldable pub store_word : Memory → ℕ → ℕ → Memory
store_word m a word p = if p == a then word else m p

-- `memset(a, 0, size)`
unfoldable pub clear : Memory → ℕ → ℕ → Memory
clear m a size p = if leb a p && ltb p (a + size) then 0 else m p

-- `dir->entries[i]`, `dir->tables_physical[i]` and `dir->physical_addr` are the words at these.
abbrev pub entry_at : ℕ → ℕ → ℕ
entry_at dir i = dir + 4 * i

abbrev pub table_at : ℕ → ℕ → ℕ
table_at dir i = dir + 4096 + 4 * i

abbrev pub physical_at : ℕ → ℕ
physical_at dir = dir + 8192

-- `table[i]`
abbrev pub word_at : ℕ → ℕ → ℕ
word_at table i = table + 4 * i

-- `e & PAGE_PRESENT`
abbrev pub is_present : ℕ → Bool
is_present e = e % 2 == 1

-- `e & 0xFFFFF000`
abbrev pub page_of : ℕ → ℕ
page_of e = e - e % 4096

-- `virt >> 22` and `(virt >> 12) & 0x3FF`
abbrev pub table_idx : ℕ → ℕ
table_idx virt = virt / 2 ^ 22

abbrev pub page_idx : ℕ → ℕ
page_idx virt = virt / 2 ^ 12 % 1024

-- A directory entry and a table entry.
unfoldable pub directory_entry : ℕ → ℕ → ℕ
directory_entry table_phys flags =
    bit_or (bit_or (bit_or table_phys flags) page_present) page_writable

unfoldable pub table_entry : ℕ → ℕ → ℕ
table_entry phys flags = bit_or (bit_or (page_of phys) (flags % 2 ^ 12)) page_present

-- The part of `get_or_create_table` behind a successful allocation.
unfoldable pub create_table : Vmm → ℕ → ℕ → ℕ → ℕ → Vmm
create_table v dir idx flags table_phys =
    let m1 = store_word v.memory (entry_at dir idx) (directory_entry table_phys flags) in
    let m2 = store_word m1 (table_at dir idx) table_phys in
    record v { memory = clear m2 table_phys page_size }

unfoldable pub get_or_create_table : Vmm → ℕ → ℕ → ℕ → ℕ × Vmm
get_or_create_table v dir idx flags =
    let entry = v.memory (entry_at dir idx) in
    let frame = alloc_frame v.frames in
    let allocated = record v { frames = frame.1 } in
    if is_present entry
    then (page_of entry, v)
    else if frame.0 == null
    then (null, allocated)
    else (frame.0, create_table allocated dir idx flags frame.0)

unfoldable pub map_page : Vmm → ℕ → ℕ → ℕ → ℕ → Vmm
map_page v dir virt phys flags =
    let r = get_or_create_table v dir (table_idx virt) flags in
    if r.0 == null then r.1 else record (r.1) {
      memory = store_word r.1.memory (word_at r.0 (page_idx virt)) (table_entry phys flags);
    }

unfoldable pub unmap_page : Vmm → ℕ → ℕ → Vmm
unmap_page v dir virt =
    let entry = v.memory (entry_at dir (table_idx virt)) in
    if not (is_present entry)
    then v
    else record v { memory = store_word v.memory (word_at (page_of entry) (page_idx virt)) 0 }

unfoldable pub get_physical : Vmm → ℕ → ℕ → ℕ
get_physical v dir virt =
    let entry = v.memory (entry_at dir (table_idx virt)) in
    let word = v.memory (word_at (page_of entry) (page_idx virt)) in
    if not (is_present entry)
    then 0
    else if not (is_present word)
    then 0
    else bit_or (page_of word) (virt % 2 ^ 12)

-- The loop of `vmm_create_address_space` that copies the kernel's entries, from `i` on, with the
-- rounds left, and its body.
unfoldable pub copy_entry : ℕ → ℕ → ℕ → Memory → Memory
copy_entry i kernel dir m =
    if is_present (m (entry_at kernel i))
    then store_word m (entry_at dir i) (m (entry_at kernel i))
    else m

unfoldable pub copy_entries : ℕ → ℕ → ℕ → ℕ → Memory → Memory
copy_entries zero i kernel dir m = m
copy_entries (suc rounds) i kernel dir m =
    copy_entries rounds (i + 1) kernel dir (copy_entry i kernel dir m)

unfoldable pub create_address_space : Vmm → ℕ × Vmm
create_address_space v =
    let frame = alloc_frame v.frames in
    let dir = frame.0 in
    let m1 = store_word (clear v.memory dir directory_size) (physical_at dir) dir in
    if dir == null then (null, record v { frames = frame.1 }) else (
      dir,
      record v { frames = frame.1; memory = copy_entries 1024 0 v.kernel_directory dir m1 },
    )

-- The loop of `vmm_destroy_address_space`.
unfoldable pub free_tables : ℕ → ℕ → ℕ → ℕ → Memory → Pmm → Pmm
free_tables zero i kernel dir m p = p
free_tables (suc rounds) i kernel dir m p = free_tables rounds (i + 1) kernel dir m (
    if is_present (m (entry_at dir i)) && not (is_present (m (entry_at kernel i)))
    then free_frame p (page_of (m (entry_at dir i)))
    else p)

unfoldable pub destroy_address_space : Vmm → ℕ → Vmm
destroy_address_space v dir =
    let p = free_tables 1024 0 v.kernel_directory dir v.memory v.frames in
    if dir == null || dir == v.kernel_directory
    then v
    else record v { frames = free_frame p (v.memory (physical_at dir)) }

unfoldable pub switch_directory : Vmm → ℕ → Vmm
switch_directory v dir = record v { current_directory = dir; cr3 = v.memory (physical_at dir) }

-- The loop of `vmm_init` that maps the first 4 MB, from `addr` on, with the rounds left.
unfoldable pub identity_map : ℕ → ℕ → Vmm → Vmm
identity_map zero addr v = v
identity_map (suc rounds) addr v =
    identity_map rounds (addr + page_size) (map_page v v.kernel_directory addr addr 3)

-- `kernel_end` is the address of the linker's symbol.
unfoldable pub vmm_init : ℕ → Vmm → Vmm
vmm_init kernel_end v =
    let end = add32 kernel_end (page_size - 1) in
    let frame = alloc_frame v.frames in
    let dir = frame.0 in
    let v1 = record v {
      kernel_end_addr = end - end % page_size;
      frames = frame.1;
      kernel_directory = dir;
      memory = store_word (clear v.memory dir directory_size) (physical_at dir) dir;
    } in
    let v2 = map_page (identity_map 1024 0 v1) dir 0xB8000 0xB8000 3 in
    record v2 { current_directory = dir; cr3 = v2.memory (physical_at dir) }
