-- ===== src/Pmm/Tests.antt =====
-- pmm.c at concrete states: runs of the model, and the theorems at inputs that meet their conditions.
use nexus_kernel.Prelude.{
  ℕ, ◌*◌, ◌/◌, ◌<◌, ◌≡◌, ◌≢◌, refl, sym, subst, [], ◌∷◌, false, not, ◌||◌, arith, ltb, ◌⊎◌, some,
  replicate,
}
use nexus_kernel.Pmm.{
  Pmm, alloc_frame, free_frame, find_free, find_loop, scan_byte, bitmap_test, bitmap_set,
  bitmap_clear, byte_test, byte_set, byte_clear,
}
use nexus_kernel.Pmm.Valid.{IsValid, used}
use nexus_kernel.Pmm.Find.{AllUsed}
use nexus_kernel.Pmm.Alloc.{Allocated, Refused, alloc_frame_lem, free_frame_lem}
use nexus_kernel.Pmm.Reuse.{free_frame-alloc_frame}
use nexus_kernel.Pmm.Boot.{MmapEntry, MultibootInfo, init, all_used}
use nexus_kernel.Pmm.Boot.Walk.{entries}
use nexus_kernel.Pmm.Boot.Regions.{all_used-Shows}
use nexus_kernel.Pmm.Boot.Init.{InRange, init_lem, Apart, map_frames, map_entries, covered}

-- 20 frames, all in use.
abbrev full : Pmm
full = all_used 20

-- The same with frames 3, 5 and 17 free: the first two lie in whole bytes, the last does not.
abbrev three_free : Pmm
three_free = free_frame (free_frame (free_frame full 0x3000) 0x5000) 0x11000

full-IsValid : IsValid full
full-IsValid = (all_used-Shows 20 (omega arith)).valid

three_free-IsValid : IsValid three_free
three_free-IsValid =
    (free_frame_lem _ 0x11000
      (free_frame_lem _ 0x5000 (free_frame_lem full 0x3000 full-IsValid).0).0).0

runs :
    ((alloc_frame three_free).0 ≡ 0x3000)
    × ((alloc_frame (alloc_frame three_free).1).0 ≡ 0x5000)
    × ((alloc_frame (alloc_frame (alloc_frame three_free).1).1).0 ≡ 0)
    × (three_free.used_frames ≡ 17)
unfolding alloc_frame find_free find_loop scan_byte free_frame all_used replicate bitmap_test
    bitmap_set bitmap_clear byte_test byte_set byte_clear
runs = (refl, refl, refl, refl)

alloc_frame_lem_example :
    let (a, p') = alloc_frame three_free in
    IsValid p' × (Allocated three_free a p' ⊎ Refused three_free a p')
alloc_frame_lem_example = alloc_frame_lem three_free three_free-IsValid

first_found : (alloc_frame three_free).0 ≢ 0
first_found e = omega (arith, runs.0)

second_found : (alloc_frame (alloc_frame three_free).1).0 ≢ 0
second_found e = omega (arith, runs.1)

free_frame-alloc_frame_example :
    let (a, p') = alloc_frame three_free in
    let q = free_frame p' a in
    ((j : ℕ) → used q j ≡ used three_free j) × (q.used_frames ≡ three_free.used_frames)
free_frame-alloc_frame_example = free_frame-alloc_frame three_free three_free-IsValid first_found

-- Only the last of 20 frames is free.
abbrev tail_free : Pmm
tail_free = free_frame full 0x13000

tail_free-IsValid : IsValid tail_free
tail_free-IsValid = (free_frame_lem full 0x13000 full-IsValid).0

total_20 : tail_free.total_frames ≡ 20
unfolding all_used
total_20 = (free_frame_lem full 0x13000 full-IsValid).2

whole_bytes_used : AllUsed tail_free.bitmap 0 (tail_free.total_frames / 8 * 8)
whole_bytes_used f lo hi = ground (
  arith,
  total_20,
  (free_frame_lem full 0x13000 full-IsValid).1 f,
  (all_used-Shows 20 (omega arith)).frames f,
)

last_free : used tail_free 19 ≡ false
unfolding all_used
last_free = (free_frame_lem full 0x13000 full-IsValid).1 19

-- One entry at 0x1000: 16 MB of available memory from 1 MB on.
abbrev one_entry : ℕ → MmapEntry
one_entry a = record { size = 20; addr = 0x100000; len = 0x1000000; kind = 1 }

abbrev boot_info : MultibootInfo
boot_info = record { flags = 0x60; mem_upper = 0x4000; mmap_length = 24; mmap_addr = 0x1000 }

single-Apart : (total : ℕ) (e : MmapEntry) → Apart total (e ∷ [])
single-Apart total e = ((λ f c. refl), tt)

one_entries : map_entries 25 one_entry boot_info ≡ one_entry 0x1000 ∷ []
unfolding entries
one_entries = refl

one_InRange : InRange (map_entries 25 one_entry boot_info)
one_InRange = subst InRange (sym one_entries) (refl, tt)

one_Apart : (total : ℕ) → Apart total (map_entries 25 one_entry boot_info)
one_Apart total = subst (Apart total) (sym one_entries) (single-Apart total (one_entry 0x1000))

init_lem_example :
    (p : Pmm) × (init 25 one_entry boot_info ≡ some p)
    × IsValid p
    × (p.total_frames ≡ map_frames 25 one_entry boot_info)
    × ((f : ℕ)
        → f < map_frames 25 one_entry boot_info
        → used p f ≡ (
            ltb f 256
            || not (
                covered
                  (map_frames 25 one_entry boot_info)
                  (map_entries 25 one_entry boot_info)
                  f)))
init_lem_example =
    init_lem 25 one_entry boot_info (λ e. absurd (omega (arith, e))) (λ a h. omega arith)
      (omega arith) one_InRange (one_Apart _)
