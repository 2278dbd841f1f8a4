-- ===== src/Pmm/Boot.antt =====
-- `pmm_init` of kernel/memory/pmm.c with the structures of include/boot/multiboot.h.
-- The memory map is what the boot loader left in memory: `entry_at` gives the entry that stands at
-- an address. The walk over it is a `while` loop on fuel; `none` means that the fuel ran out.
use Prim.Native.Nat.{min}
pub mod Walk
pub mod Init
pub mod Regions
use nexus_kernel.Prelude.{
  ℕ, zero, suc, ◌+◌, ◌-◌, ◌*◌, ◌/◌, ◌%◌, ◌^◌, bit_and, true, false, not, Option, none, some, ltb,
  ◌==◌, if◌then◌else◌, replicate,
}
use nexus_kernel.Prelude.Words.{add32, sub32}
use nexus_kernel.Pmm.{Pmm, page_size, bitmap_size, bitmap_set, bitmap_clear, bitmap_test}

-- The fields of `multiboot_info` that `pmm_init` reads.
pub record MultibootInfo : Type 0 where
  pub flags : ℕ
  pub mem_upper : ℕ
  pub mmap_length : ℕ
  pub mmap_addr : ℕ

pub record MmapEntry : Type 0 where
  pub size : ℕ
  pub addr : ℕ
  pub len : ℕ
  pub kind : ℕ

abbrev pub memory_available : ℕ
memory_available = 1

-- Both loops over the map: the entry at `mmap`, then on by its size and the four bytes of the field
-- `size`, while below `mmap_end`.
unfoldable pub walk {ℓ} :
    {S : Type ℓ} → (ℕ → MmapEntry) → (S → MmapEntry → S) → ℕ → ℕ → ℕ → S → Option S
walk entry_at body zero mmap mmap_end s = none
walk entry_at body (suc fuel) mmap mmap_end s = elim (ltb mmap mmap_end) [
  | true ↦
      walk entry_at body fuel ((mmap + (entry_at mmap).size + 4) % 2 ^ 32) mmap_end
        (body s (entry_at mmap))
  | false ↦ some s
]

-- The body of the first loop: the highest end of a region, cut to 32 bits.
unfoldable pub region_end : ℕ → MmapEntry → ℕ
region_end mem_end e =
    let end = (e.addr + e.len) % 2 ^ 64 % 2 ^ 32 in if ltb mem_end end then end else mem_end

-- The frames that lie wholly inside a region, from the address and length cut to 32 bits.
unfoldable pub frame_start : MmapEntry → ℕ
frame_start e = sub32 (add32 (e.addr % 2 ^ 32) page_size) 1 / page_size

unfoldable pub frame_end : MmapEntry → ℕ
frame_end e = add32 (e.addr % 2 ^ 32) (e.len % 2 ^ 32) / page_size

-- The `for` loop of the second loop's body, with the rounds left.
unfoldable pub release_frames : ℕ → ℕ → Pmm → Pmm
release_frames zero f p = p
release_frames (suc rounds) f p =
    release_frames rounds (f + 1)
      (record p { bitmap = bitmap_clear p.bitmap f; used_frames = sub32 p.used_frames 1 })

-- The body of the second loop. Its `for` loop ends at `frame_end` or at `total_frames`, whichever
-- comes first.
unfoldable pub release_region : Pmm → MmapEntry → Pmm
release_region p e =
    if e.kind == memory_available
    then release_frames (min (frame_end e) p.total_frames - frame_start e) (frame_start e) p
    else p

-- The loop that reserves the first megabyte, with the rounds left.
unfoldable pub reserve_frames : ℕ → ℕ → Pmm → Pmm
reserve_frames zero i p = p
reserve_frames (suc rounds) i p = reserve_frames rounds (i + 1) (
    if bitmap_test p.bitmap i
    then p
    else record p { bitmap = bitmap_set p.bitmap i; used_frames = add32 p.used_frames 1 })

-- total_frames, cut to what the bitmap holds
unfoldable pub cap_frames : ℕ → ℕ
cap_frames n = if ltb (bitmap_size * 8) n then bitmap_size * 8 else n

-- Every frame marked as used.
unfoldable pub all_used : ℕ → Pmm
all_used total = record {
  bitmap = replicate bitmap_size 255;
  total_frames = total;
  used_frames = total;
}

unfoldable pub init : ℕ → (ℕ → MmapEntry) → MultibootInfo → Option Pmm
init fuel entry_at mbi =
    let mmap_end = add32 mbi.mmap_addr mbi.mmap_length in
    if bit_and mbi.flags 0x20 == 0
    then some (all_used (cap_frames (add32 mbi.mem_upper 1024 / 4)))
    else elim (walk entry_at region_end fuel mbi.mmap_addr mmap_end 0) [
      | none ↦ none
      | some mem_end ↦
          elim (walk entry_at release_region fuel mbi.mmap_addr mmap_end
            (all_used (cap_frames (mem_end / page_size)))) [
              | none ↦ none
              | some p ↦ some (reserve_frames 256 0 p)
            ]
    ]
