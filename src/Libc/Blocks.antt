-- ===== src/Libc/Blocks.antt =====
-- The block functions of kernel/lib/string.c: `memset`, `memcpy`, `memmove`, `memcmp`.
use nexus_kernel.Prelude.{
  ℕ, zero, suc, ◌+◌, ◌-◌, ◌%◌, ◌≤◌, ◌<◌, ◌≡◌, refl, ◌⊎◌, inl, inr, ◌↔◌, Bool, ◌&&◌, arith, ltb, leb,
  ◌==◌, if◌then◌else◌, Bool-cases,
}
use nexus_kernel.Prelude.Int.{pos, sub_ℕ-eq-zero}
use nexus_kernel.Libc.{Bytes, write, memset, memcpy, memmove, memmove_back, memcmp}

-- The address `a` lies in the block of `n` bytes at `p`.
abbrev pub within : ℕ → ℕ → ℕ → Bool
within p n a = leb p a && ltb a (p + n)

-- `memset` stores the low byte of `val` at every address of the block, and nowhere else.
pub memset_lem :
    (dest val count : ℕ) (m : Bytes) (a : ℕ)
    → memset dest val count m a ≡ (if within dest count a then val % 256 else m a)
unfolding memset write
memset_lem dest val zero m a = ground arith
memset_lem dest val (suc count) m a =
    ground (arith, memset_lem (dest + 1) val count (write m dest (val % 256)) a)

-- A block copied by `memcpy` arrives as it was, and no other byte changes, if the destination does
-- not begin inside the source behind its first byte.
pub memcpy_lem :
    (dest src count : ℕ) (m : Bytes)
    → (dest ≤ src) ⊎ (src + count ≤ dest)
    → (a : ℕ)
    → memcpy dest src count m a ≡ (if within dest count a then m (a - dest + src) else m a)
unfolding memcpy write
memcpy_lem dest src zero m apart a = ground arith
memcpy_lem dest src (suc count) m apart a = ground (
  arith,
  memcpy_lem (dest + 1) (src + 1) count (write m dest (m src)) (shift apart) a,
  same_place,
)
  where
    shift :
        (dest ≤ src) ⊎ (src + suc count ≤ dest)
        → (dest + 1 ≤ src + 1) ⊎ (src + 1 + count ≤ dest + 1)
    shift (inl h) = inl (omega arith)
    shift (inr h) = inr (omega arith)

    same_place : dest < a → a - (dest + 1) + (src + 1) ≡ a - dest + src
    same_place h = omega arith

memmove_back_lem :
    (dest src count : ℕ) (m : Bytes)
    → src ≤ dest
    → (a : ℕ)
    → memmove_back (dest + count) (src + count) count m a
      ≡ (if within dest count a then m (a - dest + src) else m a)
unfolding memmove_back write
memmove_back_lem dest src zero m h a = ground arith
memmove_back_lem dest src (suc count) m h a =
    let d : dest + suc count - 1 ≡ dest + count = omega arith in
    let s : src + suc count - 1 ≡ src + count = omega arith in
    rw (d, s)
      (ground (
        arith,
        memmove_back_lem dest src count (write m (dest + count) (m (src + count))) h a,
        last,
      ))
  where
    last : a ≡ dest + count → a - dest + src ≡ src + count
    last e = omega arith

-- `memmove` moves a block to any place, overlapping or not: the destination holds what the source
-- held before the call, and no other byte changes.
pub memmove_lem :
    (dest src count : ℕ) (m : Bytes) (a : ℕ)
    → memmove dest src count m a ≡ (if within dest count a then m (a - dest + src) else m a)
unfolding memmove
memmove_lem dest src count m a = elim (Bool-cases (ltb dest src)) [
  | inl below ↦ rw below (memcpy_lem dest src count m (inl (ground arith)) a)
  | inr above ↦ rw above (memmove_back_lem dest src count m (ground arith) a)
]

same_from :
    (a b count : ℕ) (m : Bytes)
    → m a ≡ m b
    → ((i : ℕ) → i < count → m (a + 1 + i) ≡ m (b + 1 + i))
    → (i : ℕ) → i < suc count
    → m (a + i) ≡ m (b + i)
same_from a b count m e r zero h = ground arith
same_from a b count m e r (suc i) h = ground (arith, r i (omega arith))

-- `memcmp` returns 0 exactly when the two blocks hold the same bytes.
memcmp-zero :
    (a b count : ℕ) (m : Bytes)
    → (memcmp a b count m ≡ pos 0) ↔ ((i : ℕ) → i < count → m (a + i) ≡ m (b + i))
unfolding memcmp
memcmp-zero a b zero m = (λ e i h. absurd (omega arith), λ same. refl)
memcmp-zero a b (suc count) m =
    let rest = memcmp-zero (a + 1) (b + 1) count m in
    elim (Bool-cases (m a == m b)) [
      | inl same ↦ rw same (
        λ e. same_from a b count m (ground arith) (rest.0 e),
        λ all. rest.1 λ i h. ground (arith, all (suc i) (omega arith)),
      )
      | inr differ ↦ rw differ (
        λ e. ground (arith, sub_ℕ-eq-zero (m a) (m b) e),
        λ all. ground (arith, all 0 (omega arith)),
      )
    ]
