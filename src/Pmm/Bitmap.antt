-- ===== src/Pmm/Bitmap.antt =====
-- The frame bitmap of pmm.c as a set of frames: `bitmap_set` and `bitmap_clear` change the bit of
-- one frame, and `bitmap_test` sees no other change.
use nexus_kernel.Prelude.{
  ℕ, ◌/◌, ◌%◌, ◌<◌, ◌≡◌, true, false, List, arith, ◌==◌, if◌then◌else◌, length, get_or, get_or-set,
  get_or-lt, length-set, AllBelow, AllBelow-set,
}
use nexus_kernel.Pmm.{bitmap_set, bitmap_clear, bitmap_test, byte_set, byte_clear}
use nexus_kernel.Pmm.Bits.{byte_test-set, byte_test-clear, byte_set-lt, byte_clear-lt}

module _ (bm : List ℕ) (i : ℕ) where
  pub length-bitmap_set : length (bitmap_set bm i) ≡ length bm
  unfolding bitmap_set
  length-bitmap_set = length-set bm (i / 8) _

  pub length-bitmap_clear : length (bitmap_clear bm i) ≡ length bm
  unfolding bitmap_clear
  length-bitmap_clear = length-set bm (i / 8) _

  pub AllBelow-bitmap_set : AllBelow 256 bm → AllBelow 256 (bitmap_set bm i)
  unfolding bitmap_set
  AllBelow-bitmap_set h = AllBelow-set 256 bm (i / 8) _ h (byte_set-lt _ (i % 8))

  pub AllBelow-bitmap_clear : AllBelow 256 bm → AllBelow 256 (bitmap_clear bm i)
  unfolding bitmap_clear
  AllBelow-bitmap_clear h = AllBelow-set 256 bm (i / 8) _ h (byte_clear-lt _ (i % 8))

  pub bitmap_test-set :
      (j : ℕ)
      → AllBelow 256 bm
      → i / 8 < length bm
      → bitmap_test (bitmap_set bm i) j ≡ (if i == j then true else bitmap_test bm j)
  unfolding bitmap_test bitmap_set
  bitmap_test-set j h hi =
      let b = get_or bm (i / 8) 0 in
      ground (
        arith,
        get_or-set bm (i / 8) (j / 8) (byte_set b (i % 8)) 0 hi,
        byte_test-set b (i % 8) (j % 8) (get_or-lt 256 bm (i / 8) 0 h (omega arith)),
      )

  pub bitmap_test-clear :
      (j : ℕ)
      → AllBelow 256 bm
      → i / 8 < length bm
      → bitmap_test (bitmap_clear bm i) j ≡ (if i == j then false else bitmap_test bm j)
  unfolding bitmap_test bitmap_clear
  bitmap_test-clear j h hi =
      let b = get_or bm (i / 8) 0 in
      ground (
        arith,
        get_or-set bm (i / 8) (j / 8) (byte_clear b (i % 8)) 0 hi,
        byte_test-clear b (i % 8) (j % 8) (get_or-lt 256 bm (i / 8) 0 h (omega arith)),
      )
