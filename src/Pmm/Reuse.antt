-- ===== src/Pmm/Reuse.antt =====
-- The calls of pmm.c in sequence: allocate and free, allocate twice, and when a free frame is never
-- handed out.
use nexus_kernel.Prelude.{
  ℕ, ◌+◌, ◌*◌, ◌/◌, ◌<◌, ◌≡◌, ◌≢◌, refl, sym, ap, ◌∙◌, true, false, ◌&&◌, arith, ltb, ◌==◌,
  if◌then◌else◌, inl, inr, ◌⊎◌, Bool-cases, bit_and, some,
}
use nexus_kernel.Pmm.{Pmm, no_frame, find_free, alloc_frame, free_frame, get_free_frames}
use nexus_kernel.Pmm.Counts.{count_used, count_used_ext, count_used_gain, count_used-le, update}
use nexus_kernel.Pmm.Find.{AllUsed, Found, find_free-Found}
use nexus_kernel.Pmm.Valid.{IsValid, used, used_le}
use nexus_kernel.Pmm.Alloc.{Allocated, Refused, frame_of, alloc_frame_lem, free_frame_lem}
use nexus_kernel.Pmm.Boot.{MmapEntry, MultibootInfo, init, all_used, cap_frames}
use nexus_kernel.Pmm.Boot.Regions.{Shows, all_bits, all_used-Shows}
use nexus_kernel.Pmm.Boot.Init.{cap_frames-le}
use nexus_kernel.Prelude.Words.{add32}

-- A frame address other than 0 tells that the call succeeded.
alloc_frame-Allocated :
    (p : Pmm)
    → IsValid p
    → (alloc_frame p).0 ≢ 0
    → IsValid (alloc_frame p).1 × Allocated p (alloc_frame p).0 (alloc_frame p).1
alloc_frame-Allocated p v ne = go (alloc_frame_lem p v)
  where
    go :
        IsValid (alloc_frame p).1
          × (Allocated p (alloc_frame p).0 (alloc_frame p).1
              ⊎ Refused p (alloc_frame p).0 (alloc_frame p).1)
        → IsValid (alloc_frame p).1 × Allocated p (alloc_frame p).0 (alloc_frame p).1
    go (v', inl a) = (v', a)
    go (v', inr r) = absurd (ne r.null)

-- Freeing the frame that an allocation from a valid state returned gives back the set of used frames
-- and the counter as they were before.
pub free_frame-alloc_frame :
    (p : Pmm)
    → IsValid p
    → (alloc_frame p).0 ≢ 0
    → let (a, p') = alloc_frame p in
      let q = free_frame p' a in ((j : ℕ) → used q j ≡ used p j) × (q.used_frames ≡ p.used_frames)
free_frame-alloc_frame p v ne = (
  same,
  counted.counted
      ∙ (ap (count_used _) (freed.2 ∙ got.1.total)
          ∙ (count_used_ext _ _ _ (λ j h. same j) ∙ sym v.counted)),
)
  where
    got : IsValid (alloc_frame p).1 × Allocated p (alloc_frame p).0 (alloc_frame p).1
    got = alloc_frame-Allocated p v ne

    freed :
        let p' = (alloc_frame p).1 in
        let q = free_frame p' (alloc_frame p).0 in
        IsValid q
        × ((j : ℕ)
            → used q j ≡ (
                if frame_of (alloc_frame p).0 == j && ltb j p'.total_frames
                then false
                else used p' j))
        × (q.total_frames ≡ p'.total_frames)
    freed = free_frame_lem (alloc_frame p).1 (alloc_frame p).0 got.0

    counted : IsValid (free_frame (alloc_frame p).1 (alloc_frame p).0)
    counted = freed.0

    same : (j : ℕ) → used (free_frame (alloc_frame p).1 (alloc_frame p).0) j ≡ used p j
    same j = ground (arith, freed.1 j, got.1.marked j, got.1.total, got.1.inside, got.1.was_free)

-- Two allocations in a row that both return a frame return different ones, the second at the higher
-- address.
alloc_frame_twice :
    (p : Pmm)
    → IsValid p
    → (alloc_frame p).0 ≢ 0
    → (alloc_frame (alloc_frame p).1).0 ≢ 0
    → (alloc_frame p).0 < (alloc_frame (alloc_frame p).1).0
alloc_frame_twice p v ne ne' = elim (Bool-cases (ltb b a)) [
  | inl less ↦
      absurd (
        ground (arith, one.1.lowest b (omega arith) (ground arith), one.1.marked b, two.1.was_free))
  | inr more ↦ ground (arith, one.1.marked b, two.1.was_free, one.1.aligned, two.1.aligned)
]
  where
    one : IsValid (alloc_frame p).1 × Allocated p (alloc_frame p).0 (alloc_frame p).1
    one = alloc_frame-Allocated p v ne

    two :
        let q = (alloc_frame p).1 in
        IsValid (alloc_frame q).1 × Allocated q (alloc_frame q).0 (alloc_frame q).1
    two = alloc_frame-Allocated (alloc_frame p).1 one.0 ne'

    a : ℕ
    a = frame_of (alloc_frame p).0

    b : ℕ
    b = frame_of (alloc_frame (alloc_frame p).1).0

full_of_no_free :
    (p : Pmm) → IsValid p → AllUsed p.bitmap 0 (p.total_frames / 8 * 8) → alloc_frame p ≡ (0, p)
unfolding alloc_frame
full_of_no_free p v full = go (find_free-Found p v.bytes)
  where
    go : Found p.bitmap 0 (p.total_frames / 8 * 8) (find_free p) → alloc_frame p ≡ (0, p)
    go (inl (e, _)) = let mark : (find_free p == no_frame) ≡ true = ground arith in rw mark
    go (inr (lo, hi, free, _)) = ground (arith, full (find_free p) lo hi)

-- A free frame behind the whole bytes of the bitmap is never handed out: in a valid state where all
-- the others are used, the call returns 0 and changes nothing, though the count of free frames is
-- not 0.
alloc_frame_skips_tail :
    (p : Pmm) (f : ℕ)
    → IsValid p
    → AllUsed p.bitmap 0 (p.total_frames / 8 * 8)
    → f < p.total_frames
    → used p f ≡ false
    → (alloc_frame p ≡ (0, p)) × (0 < get_free_frames p)
unfolding get_free_frames
alloc_frame_skips_tail p f v full h free = (
  full_of_no_free p v full,
  omega (
    arith,
    v.counted,
    v.total_le,
    count_used_gain (used p) (update (used p) f true) f p.total_frames h free (λ j. refl),
    count_used-le (update (used p) f true) p.total_frames,
  ),
)

-- Without bit 5 of the boot flags `pmm_init` marks every frame as used, so that the first
-- allocation after it returns 0 and changes nothing, whatever the memory size.
init_without_map :
    (fuel : ℕ) (entry_at : ℕ → MmapEntry) (mbi : MultibootInfo)
    → bit_and mbi.flags 0x20 ≡ 0
    → (p : Pmm) × (init fuel entry_at mbi ≡ some p) × IsValid p × (alloc_frame p ≡ (0, p))
unfolding init
init_without_map fuel entry_at mbi flag = (
  all_used total,
  ground arith,
  shows.valid,
  full_of_no_free (all_used total) shows.valid (λ f lo hi.
      shows.frames f
      ∙ ground (arith, cap_frames-le (add32 mbi.mem_upper 1024 / 4), shows.total_is)),
)
  where
    total : ℕ
    total = cap_frames (add32 mbi.mem_upper 1024 / 4)

    shows : Shows all_bits total (all_used total)
    shows = all_used-Shows total (cap_frames-le _)

-- In a valid state the count of free frames and the number of set bits make up the total.
get_free_frames_lem :
    (p : Pmm) → IsValid p → get_free_frames p + count_used (used p) p.total_frames ≡ p.total_frames
unfolding get_free_frames
get_free_frames_lem p v = omega (arith, v.counted, v.total_le, used_le p 0 v)
