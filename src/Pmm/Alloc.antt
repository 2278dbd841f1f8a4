-- ===== src/Pmm/Alloc.antt =====
-- The allocator of pmm.c on every branch: what `pmm_alloc_frame`, `pmm_free_frame` and
-- `pmm_mark_used` do to the set of used frames and to the counter.
use nexus_kernel.Prelude.{
  ℕ, ◌+◌, ◌*◌, ◌/◌, ◌%◌, ◌^◌, ◌<◌, ◌≡◌, refl, sym, subst, true, false, not, ◌&&◌, arith, ltb, ◌==◌,
  if◌then◌else◌, inl, inr, ◌⊎◌, Bool-cases,
}
use nexus_kernel.Pmm.{Pmm, page_size, no_frame, find_free, alloc_frame, free_frame, mark_used}
use nexus_kernel.Pmm.Bitmap.{bitmap_test-set, bitmap_test-clear}
use nexus_kernel.Pmm.Find.{Found, AllUsed, find_free-Found}
use nexus_kernel.Pmm.Valid.{IsValid, used, in_bitmap, used_le, set-IsValid, clear-IsValid}

-- The frame of an address.
abbrev pub frame_of : ℕ → ℕ
frame_of addr = addr / page_size

-- A call that marks the frame of `a`: it was free and the lowest such, now it alone is marked, and
-- the counter is one up.
pub record Allocated (p : Pmm) (a : ℕ) (p' : Pmm) : Type 0 where
  pub aligned : a % page_size ≡ 0
  pub inside : frame_of a < p.total_frames
  pub was_free : used p (frame_of a) ≡ false
  pub lowest : AllUsed p.bitmap 0 (frame_of a)
  pub marked : (j : ℕ) → used p' j ≡ (if frame_of a == j then true else used p j)
  pub counter : p'.used_frames ≡ p.used_frames + 1
  pub total : p'.total_frames ≡ p.total_frames

-- A call that finds nothing: 0, and no change.
pub record Refused (p : Pmm) (a : ℕ) (p' : Pmm) : Type 0 where
  pub null : a ≡ 0
  pub same : p' ≡ p
  pub full : AllUsed p.bitmap 0 (p.total_frames / 8 * 8)

alloc_frame_found :
    (p : Pmm)
    → IsValid p
    → find_free p < p.total_frames / 8 * 8
    → used p (find_free p) ≡ false
    → AllUsed p.bitmap 0 (find_free p)
    → let (a, p') = alloc_frame p in IsValid p' × Allocated p a p'
unfolding alloc_frame
alloc_frame_found p v h free low =
    let f = find_free p in
    let no_mark : (f == no_frame) ≡ false = ground (arith, v.total_le) in
    let number : f * page_size % 2 ^ 32 / page_size ≡ f = omega (arith, v.total_le) in
    rw no_mark (
      set-IsValid p f v (omega arith) free,
      record {
        aligned = omega (arith, v.total_le);
        inside = omega arith;
        was_free = rw number free;
        lowest = rw number low;
        marked =
            λ j. rw number (bitmap_test-set p.bitmap f j v.bytes (in_bitmap p f v (omega arith)));
        counter = omega (arith, used_le p f v, v.total_le);
        total = refl;
      },
    )

alloc_frame-Refused :
    (p : Pmm)
    → find_free p ≡ no_frame
    → AllUsed p.bitmap 0 (p.total_frames / 8 * 8)
    → let (a, p') = alloc_frame p in Refused p a p'
unfolding alloc_frame
alloc_frame-Refused p e full =
    let mark : (find_free p == no_frame) ≡ true = ground arith in
    rw mark (record { null = refl; same = refl; full = full })

-- From a valid state `pmm_alloc_frame` leads to a valid state, and either hands out the lowest free
-- frame of those in whole bitmap bytes, marking just that frame and adding one to the counter, or
-- returns 0 with the state unchanged, all those frames being in use.
pub alloc_frame_lem :
    (p : Pmm)
    → IsValid p
    → let (a, p') = alloc_frame p in IsValid p' × (Allocated p a p' ⊎ Refused p a p')
alloc_frame_lem p v = go (find_free-Found p v.bytes)
  where
    go :
        Found p.bitmap 0 (p.total_frames / 8 * 8) (find_free p)
        → let (a, p') = alloc_frame p in IsValid p' × (Allocated p a p' ⊎ Refused p a p')
    go (inl (e, full)) =
        let r = alloc_frame-Refused p e full in (subst IsValid (sym r.same) v, inr r)
    go (inr (lo, hi, free, low)) = let r = alloc_frame_found p v hi free low in (r.0, inl r.1)

-- From a valid state `pmm_free_frame` leads to a valid state in which the frame of the address is
-- free if it is below `total_frames`, and every other frame is as before; the number of frames
-- stays.
pub free_frame_lem :
    (p : Pmm) (addr : ℕ)
    → IsValid p
    → let p' = free_frame p addr in
      IsValid p'
      × ((j : ℕ)
          → used p' j ≡ (if frame_of addr == j && ltb j p.total_frames then false else used p j))
      × (p'.total_frames ≡ p.total_frames)
unfolding free_frame
free_frame_lem p addr v = elim (Bool-cases (ltb f p.total_frames && used p f)) [
  | inl e ↦ rw e (
    clear-IsValid p f v (ground arith) (ground arith),
    λ j. ground (arith, bitmap_test-clear p.bitmap f j v.bytes (in_bitmap p f v (ground arith))),
    refl,
  )
  | inr e ↦ rw e (v, λ j. kept j e, refl)
]
  where
    f : ℕ
    f = addr / page_size

    kept :
        (j : ℕ)
        → (ltb f p.total_frames && used p f) ≡ false
        → used p j ≡ (if f == j && ltb j p.total_frames then false else used p j)
    kept j e = ground arith

-- From a valid state `pmm_mark_used` leads to a valid state in which the frame of the address is
-- used if it is below `total_frames`, and every other frame is as before; the number of frames
-- stays.
mark_used_lem :
    (p : Pmm) (addr : ℕ)
    → IsValid p
    → let p' = mark_used p addr in
      IsValid p'
      × ((j : ℕ)
          → used p' j ≡ (if frame_of addr == j && ltb j p.total_frames then true else used p j))
      × (p'.total_frames ≡ p.total_frames)
unfolding mark_used
mark_used_lem p addr v = elim (Bool-cases (ltb f p.total_frames && not (used p f))) [
  | inl e ↦ rw e (
    set-IsValid p f v (ground arith) (ground arith),
    λ j. ground (arith, bitmap_test-set p.bitmap f j v.bytes (in_bitmap p f v (ground arith))),
    refl,
  )
  | inr e ↦ rw e (v, λ j. kept j e, refl)
]
  where
    f : ℕ
    f = addr / page_size

    kept :
        (j : ℕ)
        → (ltb f p.total_frames && not (used p f)) ≡ false
        → used p j ≡ (if f == j && ltb j p.total_frames then true else used p j)
    kept j e = ground arith
