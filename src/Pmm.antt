-- ===== src/Pmm.antt =====
-- kernel/memory/pmm.c: the physical memory manager, a bitmap with one bit for each frame of 4 KB.
-- The C code keeps its state in three static variables, here the fields of `Pmm`; a function that
-- writes them returns the new state. A set bit marks a frame that is in use.
pub mod Bits
pub mod Bitmap
pub mod Counts
pub mod Boot
pub mod Reuse
mod Tests
pub mod Find
pub mod Alloc
pub mod Valid
use nexus_kernel.Prelude.{
  ℕ, zero, suc, ◌+◌, ◌-◌, ◌*◌, ◌/◌, ◌%◌, ◌^◌, bit_and, bit_or, Bool, not, ◌&&◌, Option, none, some,
  List, ltb, ◌==◌, if◌then◌else◌, get_or, set,
}
use nexus_kernel.Prelude.Words.{add32, sub32}

abbrev pub page_size : ℕ
page_size = 4096

-- BITMAP_SIZE, in bytes
abbrev pub bitmap_size : ℕ
bitmap_size = 131072 / 8

-- (uint32_t)-1, what `bitmap_find_free` returns when it finds nothing
abbrev pub no_frame : ℕ
no_frame = 2 ^ 32 - 1

pub record Pmm : Type 0 where
  pub bitmap : List ℕ
  pub total_frames : ℕ
  pub used_frames : ℕ

-- The read-modify-write of one byte, stored back into a uint8_t.
unfoldable pub byte_set : ℕ → ℕ → ℕ
byte_set b k = bit_or b (2 ^ k) % 256

unfoldable pub byte_clear : ℕ → ℕ → ℕ
byte_clear b k = bit_and b (2 ^ 32 - 1 - 2 ^ k) % 256

unfoldable pub byte_test : ℕ → ℕ → Bool
byte_test b k = not (bit_and (b / 2 ^ k) 1 == 0)

unfoldable pub bitmap_set : List ℕ → ℕ → List ℕ
bitmap_set bm bit = set bm (bit / 8) (byte_set (get_or bm (bit / 8) 0) (bit % 8))

unfoldable pub bitmap_clear : List ℕ → ℕ → List ℕ
bitmap_clear bm bit = set bm (bit / 8) (byte_clear (get_or bm (bit / 8) 0) (bit % 8))

unfoldable pub bitmap_test : List ℕ → ℕ → Bool
bitmap_test bm bit = byte_test (get_or bm (bit / 8) 0) (bit % 8)

-- The inner loop of `bitmap_find_free`, with the rounds left: the first clear bit of a byte from
-- bit `j` on.
unfoldable pub scan_byte : ℕ → ℕ → ℕ → Option ℕ
scan_byte zero j b = none
scan_byte (suc rounds) j b =
    let rest = scan_byte rounds (j + 1) b in if bit_and b (2 ^ j) == 0 then some j else rest

-- The outer loop, from byte `i` on, with the rounds left.
unfoldable pub find_loop : ℕ → ℕ → List ℕ → ℕ
find_loop zero i bm = no_frame
find_loop (suc rounds) i bm =
    let rest = find_loop rounds (i + 1) bm in
    if get_or bm i 0 == 255
    then rest
    else elim (scan_byte 8 0 (get_or bm i 0)) [ none ↦ rest | some j ↦ i * 8 + j ]

unfoldable pub find_free : Pmm → ℕ
find_free p = find_loop (p.total_frames / 8) 0 p.bitmap

-- `pmm_alloc_frame`: the address of the frame that it marks, or 0.
unfoldable pub alloc_frame : Pmm → ℕ × Pmm
alloc_frame p =
    let frame = find_free p in
    if frame == no_frame then (0, p) else (
      frame * page_size % 2 ^ 32,
      record p { bitmap = bitmap_set p.bitmap frame; used_frames = add32 p.used_frames 1 },
    )

unfoldable pub free_frame : Pmm → ℕ → Pmm
free_frame p addr =
    let frame = addr / page_size in
    if ltb frame p.total_frames && bitmap_test p.bitmap frame
    then record p { bitmap = bitmap_clear p.bitmap frame; used_frames = sub32 p.used_frames 1 }
    else p

unfoldable pub mark_used : Pmm → ℕ → Pmm
mark_used p addr =
    let frame = addr / page_size in
    if ltb frame p.total_frames && not (bitmap_test p.bitmap frame)
    then record p { bitmap = bitmap_set p.bitmap frame; used_frames = add32 p.used_frames 1 }
    else p

unfoldable pub mark_free : Pmm → ℕ → Pmm
mark_free p addr = free_frame p addr

unfoldable pub get_free_frames : Pmm → ℕ
get_free_frames p = sub32 p.total_frames p.used_frames
