-- ===== src/Libc/Copy.antt =====
-- The functions of kernel/lib/string.c that copy NUL-terminated strings, by `memcpy` and `memset`:
-- `strcpy`, `strncpy`, `strcat`.
use nexus_kernel.Prelude.{
  ℕ, zero, suc, ◌+◌, ◌-◌, ◌≤◌, ◌<◌, ◌≡◌, subst, ◌⊎◌, inl, inr, true, arith, ltb, if◌then◌else◌,
  some, List, [], ◌∷◌, length,
}
use nexus_kernel.Libc.{Bytes, write, memset, memcpy, strcpy, strncpy, strcat}
use nexus_kernel.Libc.Text.{StrAt}
use nexus_kernel.Libc.Blocks.{memset_lem}

-- A string survives a write outside of it.
StrAt-write :
    (m : Bytes) (p a v : ℕ) (cs : List ℕ)
    → StrAt m p cs
    → (a < p) ⊎ (p + length cs < a)
    → StrAt (write m a v) p cs
unfolding write
StrAt-write m p a v [] s out = ground arith
StrAt-write m p a v (c ∷ cs) s out =
    (ground arith, s.1, StrAt-write m (p + 1) a v cs s.2 (shift out))
  where
    shift : (a < p) ⊎ (p + length (c ∷ cs) < a) → (a < p + 1) ⊎ (p + 1 + length cs < a)
    shift (inl h) = inl (omega arith)
    shift (inr h) = inr (omega arith)

-- The destination begins at or below the source string, or behind it.
abbrev pub Clear : ℕ → ℕ → ℕ → Type 0
Clear dest src n = (dest ≤ src) ⊎ (src + n < dest)

Clear-next : (dest src n : ℕ) → Clear dest src (suc n) → Clear (dest + 1) (src + 1) n
Clear-next dest src n (inl h) = inl (omega arith)
Clear-next dest src n (inr h) = inr (omega arith)

-- The rest of the source is as before once its first byte is copied.
rest_kept :
    (dest src c : ℕ) (cs : List ℕ) (m : Bytes)
    → StrAt m src (c ∷ cs)
    → Clear dest src (suc (length cs))
    → StrAt (write m dest (m src)) (src + 1) cs
rest_kept dest src c cs m s (inl h) =
    StrAt-write m (src + 1) dest (m src) cs s.2 (inl (omega arith))
rest_kept dest src c cs m s (inr h) =
    StrAt-write m (src + 1) dest (m src) cs s.2 (inr (omega arith))

-- `strcpy` of a string to a destination that does not begin inside it, given fuel for it, is the
-- `memcpy` of its bytes and its NUL.
strcpy_lem :
    (fuel dest src : ℕ) (cs : List ℕ) (m : Bytes)
    → StrAt m src cs
    → Clear dest src (length cs)
    → length cs < fuel
    → strcpy fuel dest src m ≡ some (memcpy dest src (suc (length cs)) m)
unfolding strcpy memcpy
strcpy_lem zero dest src cs m s clear h = absurd (omega arith)
strcpy_lem (suc fuel) dest src [] m s clear h = ground arith
strcpy_lem (suc fuel) dest src (c ∷ cs) m s clear h = ground (
  arith,
  strcpy_lem fuel (dest + 1) (src + 1) cs (write m dest (m src)) (rest_kept dest src c cs m s clear)
      (Clear-next dest src (length cs) clear),
)

-- `strncpy` of a string shorter than the counter copies its bytes and its NUL and then writes as
-- many zeros as the counter exceeds its length; of a longer one, or one as long, it copies as many
-- bytes as the counter says. The destination does not begin inside the string.
strncpy_lem :
    (dest src n : ℕ) (cs : List ℕ) (m : Bytes)
    → StrAt m src cs
    → Clear dest src (length cs)
    → strncpy dest src n m ≡ (
        if ltb (length cs) n
        then memset (dest + (length cs + 1)) 0 (n - length cs) (memcpy dest src (suc (length cs)) m)
        else memcpy dest src n m)
unfolding strncpy memcpy
strncpy_lem dest src zero cs m s clear = ground arith
strncpy_lem dest src (suc n) [] m s clear = ground arith
strncpy_lem dest src (suc n) (c ∷ cs) m s clear = ground (
  arith,
  strncpy_lem (dest + 1) (src + 1) n cs (write m dest (m src)) (rest_kept dest src c cs m s clear)
      (Clear-next dest src (length cs) clear),
)

-- Where the source string is shorter than the counter `n`, `strncpy` writes a zero at `dest[n]`,
-- one byte past the `n` bytes of the destination, whatever stood there.
strncpy_overruns :
    (dest src n : ℕ) (cs : List ℕ) (m : Bytes)
    → StrAt m src cs
    → Clear dest src (length cs)
    → length cs < n
    → strncpy dest src n m (dest + n) ≡ 0
strncpy_overruns dest src n cs m s clear h =
    let copied = memcpy dest src (suc (length cs)) m in
    let short : ltb (length cs) n ≡ true = ground arith in
    rw (strncpy_lem dest src n cs m s clear, short)
      (ground (arith, memset_lem (dest + (length cs + 1)) 0 (n - length cs) copied (dest + n)))

-- `strcat` of two strings, the second not reached by the writes, given fuel for both, is the
-- `memcpy` of the second with its NUL onto the NUL of the first.
strcat_lem :
    (fuel dest src : ℕ) (ds cs : List ℕ) (m : Bytes)
    → StrAt m dest ds
    → StrAt m src cs
    → Clear (dest + length ds) src (length cs)
    → length ds + length cs < fuel
    → strcat fuel dest src m ≡ some (memcpy (dest + length ds) src (suc (length cs)) m)
unfolding strcat
strcat_lem zero dest src ds cs m t s clear h = absurd (omega arith)
strcat_lem (suc fuel) dest src [] cs m t s clear h =
    let end : dest + 0 ≡ dest = omega arith in
    rw end (
      ground (
        arith,
        strcpy_lem (suc fuel) dest src cs m s (subst (λ q. Clear q src (length cs)) end clear),
      ))
strcat_lem (suc fuel) dest src (d ∷ ds) cs m t s clear h =
    let end : dest + suc (length ds) ≡ dest + 1 + length ds = omega arith in
    rw end (
      ground (
        arith,
        strcat_lem fuel (dest + 1) src ds cs m t.2 s
            (subst (λ q. Clear q src (length cs)) end clear),
      ))
