-- ===== src/Pmm/Boot/Regions.antt =====
-- The second loop of `pmm_init` (kernel/memory/pmm.c) on the frames of one region, and the loop
-- that reserves the first megabyte.
use nexus_kernel.Prelude.{
  ℕ, zero, suc, ◌+◌, ◌*◌, ◌/◌, ◌%◌, ◌≤◌, ◌<◌, ◌≡◌, refl, sym, ◌∙◌, Bool, true, false, ◌&&◌, ◌||◌,
  arith, ltb, leb, if◌then◌else◌, inl, inr, Bool-cases, get_or-replicate, replicate,
  length-replicate, AllBelow-replicate,
}
use nexus_kernel.Pmm.{Pmm, bitmap_size, bitmap_test}
use nexus_kernel.Pmm.Bits.{byte_test-full, byte_test-zero}
use nexus_kernel.Pmm.Bitmap.{bitmap_test-clear, bitmap_test-set}
use nexus_kernel.Pmm.Counts.{count_used_all}
use nexus_kernel.Pmm.Valid.{IsValid, used, in_bitmap, set-IsValid, clear-IsValid}
use nexus_kernel.Pmm.Boot.{release_frames, reserve_frames, all_used}

-- A valid state whose used frames are given by `u`.
pub record Shows (u : ℕ → Bool) (total : ℕ) (p : Pmm) : Type 0 where
  pub valid : IsValid p
  pub frames : (f : ℕ) → used p f ≡ u f
  pub total_is : p.total_frames ≡ total

abbrev pub without : ℕ → ℕ → (ℕ → Bool) → ℕ → Bool
without lo hi u f = if leb lo f && ltb f hi then false else u f

abbrev pub with_frames : ℕ → ℕ → (ℕ → Bool) → ℕ → Bool
with_frames lo hi u f = (leb lo f && ltb f hi) || u f

pub Shows-ext :
    (u w : ℕ → Bool) {total : ℕ} {p : Pmm}
    → ((f : ℕ) → u f ≡ w f)
    → Shows u total p
    → Shows w total p
Shows-ext u w same s = record {
  valid = s.valid;
  frames = λ f. s.frames f ∙ same f;
  total_is = s.total_is;
}

pub release_frames-Shows :
    (rounds f : ℕ) (u : ℕ → Bool) (total : ℕ) (p : Pmm)
    → Shows u total p
    → f + rounds ≤ total
    → ((j : ℕ) → f ≤ j → j < f + rounds → u j ≡ true)
    → Shows (without f (f + rounds) u) total (release_frames rounds f p)
unfolding release_frames
release_frames-Shows zero f u total p s h full =
    Shows-ext u (without f (f + 0) u) (λ j. ground arith) s
release_frames-Shows (suc rounds) f u total p s h full =
    Shows-ext (without (f + 1) (f + 1 + rounds) (without f (f + 1) u))
      (without f (f + suc rounds) u) (λ j. ground arith)
      (release_frames-Shows rounds (f + 1) (without f (f + 1) u) total _
        (record {
          valid =
              clear-IsValid p f s.valid (omega (arith, s.total_is))
                (s.frames f ∙ full f (omega arith) (omega arith));
          frames = λ j. ground (
            arith,
            s.frames j,
            bitmap_test-clear p.bitmap f j s.valid.bytes
                (in_bitmap p f s.valid (omega (arith, s.total_is))),
          );
          total_is = s.total_is;
        })
        (omega arith) (λ j lo hi. ground (arith, full j (omega arith) (omega arith))))

pub reserve_frames-Shows :
    (rounds i : ℕ) (u : ℕ → Bool) (total : ℕ) (p : Pmm)
    → Shows u total p
    → ((j : ℕ) → i ≤ j → j < i + rounds → total ≤ j → u j ≡ true)
    → Shows (with_frames i (i + rounds) u) total (reserve_frames rounds i p)
unfolding reserve_frames
reserve_frames-Shows zero i u total p s full =
    Shows-ext u (with_frames i (i + 0) u) (λ j. ground arith) s
reserve_frames-Shows (suc rounds) i u total p s full = elim (Bool-cases (used p i)) [
  | inl taken ↦ rw taken (
      Shows-ext (with_frames (i + 1) (i + 1 + rounds) u) (with_frames i (i + suc rounds) u)
        (λ j. ground (arith, s.frames i))
        (reserve_frames-Shows rounds (i + 1) u total p s
          (λ j lo hi. full j (omega arith) (omega arith))))
  | inr free ↦
      let below : i < total = ground (arith, s.frames i, full i) in
      rw free (
        Shows-ext (with_frames (i + 1) (i + 1 + rounds) (with_frames i (i + 1) u))
          (with_frames i (i + suc rounds) u) (λ j. ground arith)
          (reserve_frames-Shows rounds (i + 1) (with_frames i (i + 1) u) total _
            (record {
              valid = set-IsValid p i s.valid (omega (arith, s.total_is)) free;
              frames = λ j. ground (
                arith,
                s.frames j,
                bitmap_test-set p.bitmap i j s.valid.bytes
                    (in_bitmap p i s.valid (omega (arith, s.total_is))),
              );
              total_is = s.total_is;
            })
            (λ j lo hi past. ground (arith, full j (omega arith) (omega arith) past))))
]

abbrev pub all_bits : ℕ → Bool
all_bits f = ltb f (bitmap_size * 8)

bit_of_replicate : (f : ℕ) → bitmap_test (replicate bitmap_size 255) f ≡ all_bits f
unfolding bitmap_test
bit_of_replicate f = ground (
  arith,
  get_or-replicate {A = ℕ} bitmap_size (f / 8) 255 0,
  byte_test-full (f % 8),
  byte_test-zero (f % 8),
)

pub all_used-Shows : (total : ℕ) → total ≤ bitmap_size * 8 → Shows all_bits total (all_used total)
unfolding all_used
all_used-Shows total h = record {
  valid = record {
    room = length-replicate bitmap_size 255;
    bytes = AllBelow-replicate 256 bitmap_size 255 (omega arith);
    total_le = h;
    counted = sym (count_used_all _ total λ j lt. ground (arith, bit_of_replicate j));
  };
  frames = bit_of_replicate;
  total_is = refl;
}
