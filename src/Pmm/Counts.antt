-- ===== src/Pmm/Counts.antt =====
-- How many frames of the bitmap of pmm.c are in use, counted bit by bit.
use nexus_kernel.Prelude.{
  ℕ, zero, suc, ◌+◌, ◌≤◌, ◌<◌, ◌≡◌, true, false, Bool, arith, ◌==◌, inl, inr, Bool-cases,
  if◌then◌else◌,
}

-- The number of frames below `n` that a test marks as used.
unfoldable pub count_used : (ℕ → Bool) → ℕ → ℕ
count_used used zero = 0
count_used used (suc n) = (if used n then 1 else 0) + count_used used n

abbrev pub update : (ℕ → Bool) → ℕ → Bool → ℕ → Bool
update used i v j = if i == j then v else used j

module _ (f g : ℕ → Bool) where
  pub count_used_ext : (n : ℕ) → ((j : ℕ) → j < n → f j ≡ g j) → count_used f n ≡ count_used g n
  unfolding count_used
  count_used_ext zero same = omega arith
  count_used_ext (suc n) same =
      ground (arith, same n, count_used_ext n (λ j h. same j (omega arith)))

  -- Changing the one frame `i` from free to used adds one to the count.
  pub count_used_gain :
      (i n : ℕ)
      → i < n
      → f i ≡ false
      → ((j : ℕ) → g j ≡ update f i true j)
      → count_used g n ≡ count_used f n + 1
  unfolding count_used
  count_used_gain i zero h free change = elim h [ ]
  count_used_gain i (suc n) h free change = elim (Bool-cases (i == n)) [
    | inl e ↦
        ground
          (arith, change n, same_frame n e, count_used_ext n (λ j lt. ground (arith, change j)))
    | inr e ↦ ground (arith, change n, count_used_gain i n (ground arith) free change)
  ]
    where
      same_frame : (n : ℕ) → (i == n) ≡ true → f n ≡ false
      same_frame n e = ground arith

pub count_used-le : (f : ℕ → Bool) (n : ℕ) → count_used f n ≤ n
unfolding count_used
count_used-le f zero = omega arith
count_used-le f (suc n) = ground (arith, count_used-le f n)

pub count_used_all : (f : ℕ → Bool) (n : ℕ) → ((j : ℕ) → j < n → f j ≡ true) → count_used f n ≡ n
unfolding count_used
count_used_all f zero all = omega arith
count_used_all f (suc n) all =
    ground (arith, all n, count_used_all f n (λ j h. all j (omega arith)))
