-- ===== src/Pmm/Valid.antt =====
-- The invariant of pmm.c: the bitmap has its full length, it has a bit for every frame, and the
-- counter of used frames is the number of set bits below `total_frames`.
use nexus_kernel.Prelude.{
  ℕ, ◌+◌, ◌-◌, ◌*◌, ◌/◌, ◌%◌, ◌^◌, ◌≤◌, ◌<◌, ◌≡◌, Bool, true, false, arith, ◌==◌, if◌then◌else◌,
  length, AllBelow,
}
use nexus_kernel.Pmm.{Pmm, bitmap_size, bitmap_test, bitmap_set, bitmap_clear}
use nexus_kernel.Pmm.Bitmap.{
  length-bitmap_set, length-bitmap_clear, AllBelow-bitmap_set, AllBelow-bitmap_clear,
  bitmap_test-set, bitmap_test-clear,
}
use nexus_kernel.Pmm.Counts.{count_used, count_used_gain, count_used-le}

pub record IsValid (p : Pmm) : Type 0 where
  pub room : length p.bitmap ≡ bitmap_size
  pub bytes : AllBelow 256 p.bitmap
  pub total_le : p.total_frames ≤ bitmap_size * 8
  pub counted : p.used_frames ≡ count_used (bitmap_test p.bitmap) p.total_frames

-- The frame `f` is in use.
abbrev pub used : Pmm → ℕ → Bool
used p f = bitmap_test p.bitmap f

module _ (p : Pmm) (f : ℕ) (v : IsValid p) where
  pub in_bitmap : f < p.total_frames → f / 8 < length p.bitmap
  in_bitmap h = omega (arith, v.room, v.total_le)

  pub used_le : p.used_frames ≤ p.total_frames
  used_le = omega (arith, v.counted, count_used-le (bitmap_test p.bitmap) p.total_frames)

  -- Setting the bit of a free frame and adding one to the counter keeps the invariant.
  pub set-IsValid :
      f < p.total_frames
      → bitmap_test p.bitmap f ≡ false
      → IsValid
          (record p { bitmap = bitmap_set p.bitmap f; used_frames = (p.used_frames + 1) % 2 ^ 32 })
  set-IsValid h free = record {
    room = omega (arith, length-bitmap_set p.bitmap f, v.room);
    bytes = AllBelow-bitmap_set p.bitmap f v.bytes;
    total_le = v.total_le;
    counted = omega (
      arith,
      v.counted,
      v.total_le,
      used_le,
      count_used_gain (bitmap_test p.bitmap) (bitmap_test (bitmap_set p.bitmap f)) f p.total_frames
          h free (λ j. bitmap_test-set p.bitmap f j v.bytes (in_bitmap h)),
    );
  }

  -- Clearing the bit of a used frame and taking one off the counter keeps the invariant.
  pub clear-IsValid :
      f < p.total_frames
      → bitmap_test p.bitmap f ≡ true
      → IsValid (record p {
        bitmap = bitmap_clear p.bitmap f;
        used_frames = (p.used_frames + 2 ^ 32 - 1) % 2 ^ 32;
      })
  clear-IsValid h taken = record {
    room = omega (arith, length-bitmap_clear p.bitmap f, v.room);
    bytes = AllBelow-bitmap_clear p.bitmap f v.bytes;
    total_le = v.total_le;
    counted = omega (
      arith,
      v.counted,
      v.total_le,
      used_le,
      count_used_gain (bitmap_test (bitmap_clear p.bitmap f)) (bitmap_test p.bitmap) f
          p.total_frames h (ground (arith, cleared f)) (λ j. ground (arith, cleared j)),
    );
  }
    where
      cleared :
          (j : ℕ)
          → bitmap_test (bitmap_clear p.bitmap f) j
            ≡ (if f == j then false else bitmap_test p.bitmap j)
      cleared j = bitmap_test-clear p.bitmap f j v.bytes (in_bitmap h)
