-- ===== src/Vmm/Tests.antt =====
-- vmm.c at concrete states: runs of the model, and the theorems at inputs that meet their conditions.
use nexus_kernel.Prelude.{
  ◌+◌, ◌*◌, ◌/◌, ◌%◌, ◌^◌, ◌≡◌, ◌≢◌, refl, false, ◌&&◌, arith, ◌==◌, if◌then◌else◌, inl, replicate,
}
use nexus_kernel.Pmm.{
  Pmm, alloc_frame, free_frame, find_free, find_loop, scan_byte, bitmap_test, bitmap_set,
  bitmap_clear, byte_test, byte_set, byte_clear,
}
use nexus_kernel.Pmm.Valid.{IsValid, used}
use nexus_kernel.Pmm.Alloc.{free_frame_lem}
use nexus_kernel.Pmm.Boot.{all_used}
use nexus_kernel.Pmm.Boot.Regions.{all_used-Shows}
use nexus_kernel.Vmm.{
  Vmm, store_word, clear, directory_entry, table_entry, create_table, get_or_create_table, map_page,
  unmap_page, get_physical, page_of, create_address_space, destroy_address_space,
}
use nexus_kernel.Vmm.Space.{entry, IsSpace}
use nexus_kernel.Vmm.Table.{has_room}
use nexus_kernel.Vmm.Map.{map_page_lem, unmap_page-map_page}
use nexus_kernel.Vmm.Share.{
  IsClear, create_address_space_lem, destroy_address_space-create_address_space,
}
use nexus_kernel.Vmm.Clobber.{IsTight, map_page_clobbers}

-- 20 frames, of which 8 and 9 are free.
abbrev two_free : Pmm
two_free = free_frame (free_frame (all_used 20) 0x8000) 0x9000

two_free-IsValid : IsValid two_free
two_free-IsValid =
    (free_frame_lem _ 0x9000
      (free_frame_lem (all_used 20) 0x8000 (all_used-Shows 20 (omega arith)).valid).0).0

-- The kernel's directory is at 0x4000, without any table.
abbrev empty : Vmm
empty = record {
  kernel_directory = 0x4000;
  current_directory = 0x4000;
  kernel_end_addr = 0;
  frames = two_free;
  memory = λ p. 0;
  cr3 = 0x4000;
}

empty-IsSpace : IsSpace empty 0x4000
unfolding free_frame all_used replicate bitmap_test bitmap_clear byte_test byte_clear
empty-IsSpace = record {
  valid = two_free-IsValid;
  aligned = refl;
  first = refl;
  second = refl;
  third = refl;
  in_use = λ i h p. absurd (ground (arith, p));
  not_null = λ i h p. absurd (ground (arith, p));
  outside = λ i h p. absurd (ground (arith, p));
  apart = λ i j hi hj ne p q. absurd (ground (arith, p));
}

runs :
    let v = map_page empty 0x4000 0x00403000 0x7123 3 in
    (get_physical v 0x4000 0x00403abc ≡ 0x7abc)
    × (get_physical v 0x4000 0x00404abc ≡ 0)
    × (get_physical (unmap_page v 0x4000 0x00403000) 0x4000 0x00403abc ≡ 0)
unfolding map_page unmap_page get_or_create_table create_table get_physical store_word clear
    directory_entry table_entry free_frame all_used replicate bitmap_test bitmap_clear byte_test
    byte_clear alloc_frame find_free find_loop scan_byte bitmap_set byte_set
runs = (refl, refl, refl)

-- The kernel's directory is at 0x1000, and the frames from 0x8000 on are far from it.
abbrev low : Vmm
low = record empty { kernel_directory = 0x1000; current_directory = 0x1000 }

low-IsClear : IsClear low (alloc_frame low.frames).0
unfolding free_frame all_used replicate bitmap_test bitmap_clear byte_test byte_clear alloc_frame
    find_free find_loop scan_byte bitmap_set byte_set
low-IsClear = record {
  kernel_aligned = refl;
  aligned = refl;
  apart = inl (omega arith);
  tables = λ i h p. absurd (ground (arith, p));
}

found : (alloc_frame two_free).0 ≢ 0
unfolding free_frame all_used replicate bitmap_test bitmap_clear byte_test byte_clear alloc_frame
    find_free find_loop scan_byte bitmap_set byte_set
found = λ e. absurd (omega (arith, e))

-- The directory at 0x4000 has the table of the first 4 MB right behind it, as after `vmm_init`.
abbrev tight : Vmm
tight = record empty { memory = store_word (store_word (λ p. 0) 0x4000 0x5003) 0x5004 0x1003 }

tight-IsTight : IsTight tight 0x4000
unfolding free_frame all_used replicate bitmap_test bitmap_clear byte_test byte_clear store_word
tight-IsTight = record {
  valid = two_free-IsValid;
  aligned = refl;
  first = refl;
  second = refl;
  behind = refl;
  there = refl;
}

no_second_table : (entry tight 0x4000 1 % 2 == 1) ≡ false
unfolding store_word
no_second_table = refl

-- Before the call the address 0x1004 stands for itself.
before : get_physical tight 0x4000 0x1004 ≡ 0x1004
unfolding get_physical store_word
before = refl

map_page_lem_example :
    let v' = map_page empty 0x4000 0x00403000 0x7123 3 in
    IsSpace v' 0x4000
    × (get_physical v' 0x4000 0x00403abc ≡ (
        if 0x00403abc / 4096 == 0x00403000 / 4096 && has_room empty 0x4000 0x00403000
        then page_of 0x7123 + 0x00403abc % 4096
        else get_physical empty 0x4000 0x00403abc))
map_page_lem_example =
    map_page_lem empty 0x4000 0x00403000 0x7123 3 0x00403abc empty-IsSpace (omega arith)
      (omega arith) (omega arith)

unmap_page-map_page_example :
    get_physical
      (unmap_page (map_page empty 0x4000 0x00403000 0x7123 3) 0x4000 0x00403000)
      0x4000
      0x00404abc
    ≡ (if 0x00404abc / 4096 == 0x00403000 / 4096 then 0 else get_physical empty 0x4000 0x00404abc)
unmap_page-map_page_example =
    unmap_page-map_page empty 0x4000 0x00403000 0x7123 3 0x00404abc empty-IsSpace (omega arith)
      (omega arith) (omega arith)

-- The kernel's directory at 0x1000 has a table at 0x4000, which maps the second page to 0x7000.
abbrev mapped : Vmm
mapped = record low { memory = store_word (store_word (λ p. 0) 0x1000 0x4003) 0x4004 0x7003 }

mapped-before : get_physical mapped 0x1000 0x1004 ≡ 0x7004
unfolding get_physical store_word
mapped-before = refl

mapped-IsClear : IsClear mapped (alloc_frame mapped.frames).0
unfolding free_frame all_used replicate bitmap_test bitmap_clear byte_test byte_clear alloc_frame
    find_free find_loop scan_byte bitmap_set byte_set store_word
mapped-IsClear = record {
  kernel_aligned = refl;
  aligned = refl;
  apart = inl (omega arith);
  tables = λ i h p. inl (ground (arith, p, h));
}

create_address_space_lem_example :
    let (dir, v') = create_address_space mapped in
    (dir ≡ (alloc_frame two_free).0)
    × (get_physical v' dir 0x1004 ≡ get_physical mapped 0x1000 0x1004)
    × (get_physical v' v'.kernel_directory 0x1004 ≡ get_physical mapped 0x1000 0x1004)
create_address_space_lem_example =
    create_address_space_lem mapped 0x1004 found mapped-IsClear (omega arith)

destroy_address_space-create_address_space_example :
    let (dir, v') = create_address_space low in
    let v'' = destroy_address_space v' dir in
    (used v''.frames 8 ≡ used two_free 8) × (v''.frames.used_frames ≡ two_free.used_frames)
destroy_address_space-create_address_space_example =
    destroy_address_space-create_address_space low 8 two_free-IsValid found low-IsClear

map_page_clobbers_example :
    get_physical
      (map_page tight 0x4000 0x00400000 0x7000 3)
      0x4000
      (4096 * (0x00400000 / 2 ^ 22) + 4)
    ≡ 0
map_page_clobbers_example =
    map_page_clobbers tight 0x4000 0x00400000 0x7000 3 4 tight-IsTight (omega arith) (omega arith)
      no_second_table found (omega arith)
