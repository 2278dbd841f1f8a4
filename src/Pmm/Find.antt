-- ===== src/Pmm/Find.antt =====
-- `bitmap_find_free` of pmm.c: it finds the lowest free frame of those in whole bytes.
use nexus_kernel.Prelude.{
  ℕ, zero, suc, ◌+◌, ◌*◌, ◌/◌, ◌%◌, ◌≤◌, ◌<◌, ◌≡◌, refl, subst, ◌⊎◌, inl, inr, true, false, List,
  none, some, Option, arith, ltb, ◌==◌, Bool-cases, get_or, get_or-lt, AllBelow,
}
use nexus_kernel.Pmm.{Pmm, no_frame, bitmap_test, find_loop, find_free, byte_test}
use nexus_kernel.Pmm.Bits.{Scanned, scan_byte-Scanned, byte_test-full}

-- All frames of a range are in use.
abbrev pub AllUsed : List ℕ → ℕ → ℕ → Type 0
AllUsed bm lo hi = (f : ℕ) → lo ≤ f → f < hi → bitmap_test bm f ≡ true

-- What a search over the frames from `lo` up to `hi` returns: their lowest free one, or the mark
-- that there is none.
abbrev pub Found : List ℕ → ℕ → ℕ → ℕ → Type 0
Found bm lo hi r =
    ((r ≡ no_frame) × AllUsed bm lo hi)
    ⊎ ((lo ≤ r) × (r < hi) × (bitmap_test bm r ≡ false) × AllUsed bm lo r)

module _ (bm : List ℕ) where
  test_by_byte :
      (i f : ℕ) → i * 8 ≤ f → f < i * 8 + 8 → bitmap_test bm f ≡ byte_test (get_or bm i 0) (f % 8)
  unfolding bitmap_test
  test_by_byte i f lo hi = let e : f / 8 ≡ i = omega arith in rw e

  -- Going on behind a byte that is full.
  Found-behind :
      (i hi r : ℕ)
      → AllUsed bm (i * 8) (i * 8 + 8)
      → Found bm (i * 8 + 8) hi r
      → Found bm (i * 8) hi r
  Found-behind i hi r full (inl (e, rest)) = inl (
    e,
    λ f lo up. elim (Bool-cases (ltb f (i * 8 + 8))) [
      | inl t ↦ full f lo (ground arith)
      | inr t ↦ rest f (ground arith) up
    ],
  )
  Found-behind i hi r full (inr (lo, up, free, rest)) = inr (
    omega arith,
    up,
    free,
    λ f lo' up'. elim (Bool-cases (ltb f (i * 8 + 8))) [
      | inl t ↦ full f lo' (ground arith)
      | inr t ↦ rest f (ground arith) up'
    ],
  )

  byte_full : (i : ℕ) → get_or bm i 0 ≡ 255 → AllUsed bm (i * 8) (i * 8 + 8)
  byte_full i e f lo hi = rw (test_by_byte i f lo hi, e) (byte_test-full (f % 8) (omega arith))

  scan_full : (i : ℕ) → Scanned (get_or bm i 0) 0 8 none → AllUsed bm (i * 8) (i * 8 + 8)
  scan_full i s f lo hi = rw (test_by_byte i f lo hi) (s (f % 8) (omega arith) (omega arith))

  scan_hit :
      (i j hi : ℕ)
      → i * 8 + 8 ≤ hi
      → Scanned (get_or bm i 0) 0 8 (some j)
      → Found bm (i * 8) hi (i * 8 + j)
  scan_hit i j hi le s = inr (
    omega arith,
    omega arith,
    rw (test_by_byte i (i * 8 + j) (omega arith) (omega arith)) (rw low s.2),
    λ f lo up. rw (test_by_byte i f lo (omega arith)) (s.3 (f % 8) (omega arith) (omega arith)),
  )
    where
      low : (i * 8 + j) % 8 ≡ j
      low = omega arith

  scan_step :
      (i hi rest : ℕ) (s : Option ℕ)
      → i * 8 + 8 ≤ hi
      → Scanned (get_or bm i 0) 0 8 s
      → Found bm (i * 8 + 8) hi rest
      → Found bm (i * 8) hi (elim s [ none ↦ rest | some j ↦ i * 8 + j ])
  scan_step i hi rest none le s h = Found-behind i hi rest (scan_full i s) h
  scan_step i hi rest (some j) le s h = scan_hit i j hi le s

  find_loop-Found :
      (rounds i hi : ℕ)
      → hi ≡ (i + rounds) * 8
      → AllBelow 256 bm
      → Found bm (i * 8) hi (find_loop rounds i bm)
  unfolding find_loop
  find_loop-Found zero i hi e b = inl (refl, λ f lo up. absurd (omega arith))
  find_loop-Found (suc rounds) i hi e b =
      let next = find_loop rounds (i + 1) bm in
      let shift : (i + 1) * 8 ≡ i * 8 + 8 = omega arith in
      let rest =
        subst (λ l. Found bm l hi next) shift (find_loop-Found rounds (i + 1) hi (omega arith) b) in
      elim (Bool-cases (get_or bm i 0 == 255)) [
        | inl full ↦ rw full (Found-behind i hi next (byte_full i (ground arith)) rest)
        | inr more ↦ rw more (
            scan_step i hi next _ (omega arith)
              (scan_byte-Scanned _ (get_or-lt 256 bm i 0 b (omega arith))) rest)
      ]

-- The search returns the lowest free frame of those in whole bytes, or that all of them are used.
pub find_free-Found :
    (p : Pmm) → AllBelow 256 p.bitmap → Found p.bitmap 0 (p.total_frames / 8 * 8) (find_free p)
unfolding find_free
find_free-Found p b = find_loop-Found p.bitmap (p.total_frames / 8) 0 _ (omega arith) b
