-- ===== src/Pmm/Bits.antt =====
-- One byte of the frame bitmap: the three bit operations of pmm.c agree with one another.
use nexus_kernel.Prelude.{
  ℕ, zero, suc, ◌+◌, ◌^◌, ◌≤◌, ◌<◌, ◌≡◌, refl, bit_and, Bool, true, false, not, Option, none, some,
  inl, inr, arith, ◌==◌, if◌then◌else◌, Bool-cases,
}
use nexus_kernel.Prelude.Words.{passes_below, passes_at}
use nexus_kernel.Pmm.{byte_set, byte_clear, byte_test, scan_byte}

-- Equality of truth values, as a test.
abbrev same : Bool → Bool → Bool
same true b = b
same false b = not b

same→eq : (a b : Bool) → same a b ≡ true → a ≡ b
same→eq true b h = ground arith
same→eq false b h = ground arith

-- A fact about a byte and two of its bits, tried at all values.
abbrev every_byte : (ℕ → ℕ → ℕ → Bool) → Bool
every_byte fact = passes_below (λ b. passes_below (λ k. passes_below (λ j. fact b k j) 8) 8) 256

every_byte-use :
    (fact : ℕ → ℕ → ℕ → Bool)
    → every_byte fact ≡ true
    → (b k j : ℕ) → b < 256
    → k < 8
    → j < 8
    → fact b k j ≡ true
every_byte-use fact run b k j hb hk hj =
    passes_at (fact b k) 8 (passes_at _ 8 (passes_at _ 256 run b hb) k hk) j hj

abbrev set_fact : ℕ → ℕ → ℕ → Bool
set_fact b k j = same (byte_test (byte_set b k) j) (if k == j then true else byte_test b j)

abbrev clear_fact : ℕ → ℕ → ℕ → Bool
clear_fact b k j = same (byte_test (byte_clear b k) j) (if k == j then false else byte_test b j)

abbrev mask_fact : ℕ → ℕ → ℕ → Bool
mask_fact b k j = same (bit_and b (2 ^ j) == 0) (not (byte_test b j))

set_table : every_byte set_fact ≡ true
unfolding passes_below byte_test byte_set
set_table = refl

clear_table : every_byte clear_fact ≡ true
unfolding passes_below byte_test byte_clear
clear_table = refl

mask_table : every_byte mask_fact ≡ true
unfolding passes_below byte_test
mask_table = refl

pub byte_test-set :
    (b k j : ℕ)
    → b < 256
    → k < 8
    → j < 8
    → byte_test (byte_set b k) j ≡ (if k == j then true else byte_test b j)
byte_test-set b k j hb hk hj = same→eq _ _ (every_byte-use set_fact set_table b k j hb hk hj)

pub byte_test-clear :
    (b k j : ℕ)
    → b < 256
    → k < 8
    → j < 8
    → byte_test (byte_clear b k) j ≡ (if k == j then false else byte_test b j)
byte_test-clear b k j hb hk hj = same→eq _ _ (every_byte-use clear_fact clear_table b k j hb hk hj)

-- `byte & (1 << j)` is zero exactly when `(byte >> j) & 1` is.
mask-byte_test : (b j : ℕ) → b < 256 → j < 8 → (bit_and b (2 ^ j) == 0) ≡ not (byte_test b j)
mask-byte_test b j hb hj =
    same→eq _ _ (every_byte-use mask_fact mask_table b 0 j hb (omega arith) hj)

full_table : passes_below (byte_test 255) 8 ≡ true
unfolding passes_below byte_test
full_table = refl

empty_table : passes_below (λ j. not (byte_test 0 j)) 8 ≡ true
unfolding passes_below byte_test
empty_table = refl

pub byte_test-full : (j : ℕ) → j < 8 → byte_test 255 j ≡ true
byte_test-full j hj = passes_at (byte_test 255) 8 full_table j hj

pub byte_test-zero : (j : ℕ) → j < 8 → byte_test 0 j ≡ false
byte_test-zero j hj = ground (arith, passes_at (λ j. not (byte_test 0 j)) 8 empty_table j hj)

pub byte_set-lt : (b k : ℕ) → byte_set b k < 256
unfolding byte_set
byte_set-lt b k = omega arith

pub byte_clear-lt : (b k : ℕ) → byte_clear b k < 256
unfolding byte_clear
byte_clear-lt b k = omega arith

-- What the scan of a byte from bit `j` on says.
abbrev pub Scanned : ℕ → ℕ → ℕ → Option ℕ → Type 0
Scanned b j end none = (k : ℕ) → j ≤ k → k < end → byte_test b k ≡ true
Scanned b j end (some r) =
    (j ≤ r) × (r < end) × (byte_test b r ≡ false) × ((k : ℕ) → j ≤ k → k < r → byte_test b k ≡ true)

set_at : (b j k : ℕ) → byte_test b j ≡ true → (j == k) ≡ true → byte_test b k ≡ true
set_at b j k h e = ground arith

-- A set bit in front of what was scanned.
Scanned-before :
    (b j : ℕ) (r : Option ℕ) → byte_test b j ≡ true → Scanned b (j + 1) 8 r → Scanned b j 8 r
Scanned-before b j none h s = λ k lo hi. elim (Bool-cases (j == k)) [
  | inl e ↦ set_at b j k h e
  | inr e ↦ s k (ground arith) hi
]
Scanned-before b j (some r) h s = (
  omega arith,
  s.1,
  s.2,
  λ k lo hi. elim (Bool-cases (j == k)) [
    | inl e ↦ set_at b j k h e
    | inr e ↦ s.3 k (ground arith) hi
  ],
)

scan_from : (rounds j b : ℕ) → j + rounds ≡ 8 → b < 256 → Scanned b j 8 (scan_byte rounds j b)
unfolding scan_byte
scan_from zero j b e hb = λ k lo hi. absurd (omega arith)
scan_from (suc rounds) j b e hb = elim (Bool-cases (bit_and b (2 ^ j) == 0)) [
  | inl clear ↦ rw clear (
    omega arith,
    omega arith,
    ground (arith, mask-byte_test b j),
    λ k lo hi. absurd (omega arith),
  )
  | inr used ↦ rw used (
      Scanned-before b j (scan_byte rounds (j + 1) b) (ground (arith, mask-byte_test b j))
        (scan_from rounds (j + 1) b (omega arith) hb))
]

pub scan_byte-Scanned : (b : ℕ) → b < 256 → Scanned b 0 8 (scan_byte 8 0 b)
scan_byte-Scanned b hb = scan_from 8 0 b refl hb
