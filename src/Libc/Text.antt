-- ===== src/Libc/Text.antt =====
-- The functions of kernel/lib/string.c that read NUL-terminated strings: `strlen`, `strcmp`,
-- `strncmp`, `strchr`, `strrchr`.
use nexus_kernel.Prelude.{
  ℕ, zero, suc, ◌+◌, ◌%◌, ◌<◌, ◌≡◌, ◌≢◌, refl, ap, subst, ◌∙◌, ◌↔◌, arith, ◌==◌, if◌then◌else◌,
  Option, none, some, List, [], ◌∷◌, length, take,
}
use nexus_kernel.Prelude.Int.{ℤ, pos, sub_ℕ, sub_ℕ-eq-zero}
use nexus_kernel.Libc.{
  Bytes, null, strlen_from, strlen, strcmp, strncmp, strchr, strrchr_from, strrchr,
}

-- The string of the bytes `cs`, none of them NUL, stands at `p` with a NUL behind it.
abbrev pub StrAt : Bytes → ℕ → List ℕ → Type 0
StrAt m p [] = m p ≡ 0
StrAt m p (c ∷ cs) = (m p ≡ c) × (c ≢ 0) × StrAt m (p + 1) cs

-- What `strcmp` is to return: the difference of the first two bytes that differ, the NUL counted in.
unfoldable pub compare_bytes : List ℕ → List ℕ → ℤ
compare_bytes [] [] = pos 0
compare_bytes [] (d ∷ ds) = sub_ℕ 0 d
compare_bytes (c ∷ cs) [] = sub_ℕ c 0
compare_bytes (c ∷ cs) (d ∷ ds) =
    let rest = compare_bytes cs ds in if c == d then rest else sub_ℕ c d

compare_bytes_self : (cs : List ℕ) → compare_bytes cs cs ≡ pos 0
unfolding compare_bytes
compare_bytes_self [] = refl
compare_bytes_self (c ∷ cs) = ground (arith, compare_bytes_self cs)

strlen_from_lem :
    (fuel str len : ℕ) (cs : List ℕ) (m : Bytes)
    → StrAt m (str + len) cs
    → length cs < fuel
    → strlen_from fuel str len m ≡ some (len + length cs)
unfolding strlen_from
strlen_from_lem zero str len cs m s h = absurd (omega arith)
strlen_from_lem (suc fuel) str len [] m s h = ground arith
strlen_from_lem (suc fuel) str len (c ∷ cs) m s h =
    let next : str + len + 1 ≡ str + (len + 1) = omega arith in
    ground (
      arith,
      strlen_from_lem fuel str (len + 1) cs m (subst (λ q. StrAt m q cs) next s.2) (omega arith),
    )

-- `strlen` of a string is its number of bytes, given fuel for them and the NUL.
strlen_lem :
    (fuel p : ℕ) (cs : List ℕ) (m : Bytes)
    → StrAt m p cs
    → length cs < fuel
    → strlen fuel p m ≡ some (length cs)
unfolding strlen
strlen_lem fuel p cs m s h =
    let start : p ≡ p + 0 = omega arith in
    strlen_from_lem fuel p 0 cs m (subst (λ q. StrAt m q cs) start s) h ∙ ap some (omega arith)

-- `strcmp` of two strings, given fuel for the first, is the comparison of their bytes.
strcmp_lem :
    (fuel p q : ℕ) (cs ds : List ℕ) (m : Bytes)
    → StrAt m p cs
    → StrAt m q ds
    → length cs < fuel
    → strcmp fuel p q m ≡ some (compare_bytes cs ds)
unfolding strcmp compare_bytes
strcmp_lem zero p q cs ds m s t h = absurd (omega arith)
strcmp_lem (suc fuel) p q [] [] m s t h = ground arith
strcmp_lem (suc fuel) p q [] (d ∷ ds) m s t h = ground arith
strcmp_lem (suc fuel) p q (c ∷ cs) [] m s t h = ground arith
strcmp_lem (suc fuel) p q (c ∷ cs) (d ∷ ds) m s t h =
    ground (arith, strcmp_lem fuel (p + 1) (q + 1) cs ds m s.2 t.2)

compare_bytes-eq-zero :
    (cs ds : List ℕ) (m : Bytes) (p q : ℕ)
    → StrAt m p cs
    → StrAt m q ds
    → compare_bytes cs ds ≡ pos 0
    → cs ≡ ds
unfolding compare_bytes
compare_bytes-eq-zero [] [] m p q s t e = refl
compare_bytes-eq-zero [] (d ∷ ds) m p q s t e = ground (arith, sub_ℕ-eq-zero 0 d)
compare_bytes-eq-zero (c ∷ cs) [] m p q s t e = ground (arith, sub_ℕ-eq-zero c 0)
compare_bytes-eq-zero (c ∷ cs) (d ∷ ds) m p q s t e =
    ground (arith, sub_ℕ-eq-zero c d, compare_bytes-eq-zero cs ds m (p + 1) (q + 1) s.2 t.2)

-- Two strings compare as 0 by `strcmp`, given fuel for the first, exactly when they are equal.
strcmp-zero :
    (fuel p q : ℕ) (cs ds : List ℕ) (m : Bytes)
    → StrAt m p cs
    → StrAt m q ds
    → length cs < fuel
    → (strcmp fuel p q m ≡ some (pos 0)) ↔ (cs ≡ ds)
strcmp-zero fuel p q cs ds m s t h = (
  λ e. compare_bytes-eq-zero cs ds m p q s t (ground (arith, strcmp_lem fuel p q cs ds m s t h)),
  λ e. strcmp_lem fuel p q cs ds m s t h ∙ rw e (ap some (compare_bytes_self ds)),
)

-- `strncmp` of two strings is the comparison of their first `n` bytes.
strncmp_lem :
    (n p q : ℕ) (cs ds : List ℕ) (m : Bytes)
    → StrAt m p cs
    → StrAt m q ds
    → strncmp p q n m ≡ compare_bytes (take n cs) (take n ds)
unfolding strncmp compare_bytes
strncmp_lem zero p q cs ds m s t = refl
strncmp_lem (suc n) p q [] [] m s t = ground arith
strncmp_lem (suc n) p q [] (d ∷ ds) m s t = ground arith
strncmp_lem (suc n) p q (c ∷ cs) [] m s t = ground arith
strncmp_lem (suc n) p q (c ∷ cs) (d ∷ ds) m s t =
    ground (arith, strncmp_lem n (p + 1) (q + 1) cs ds m s.2 t.2)

-- The first place of a byte in a string, and the last.
unfoldable pub index_of : ℕ → List ℕ → Option ℕ
index_of c [] = none
index_of c (d ∷ ds) =
    let rest : Option ℕ = elim (index_of c ds) [ none ↦ none | some i ↦ some (i + 1) ] in
    if d == c then some 0 else rest

unfoldable pub last_index_of : ℕ → List ℕ → Option ℕ
last_index_of c [] = none
last_index_of c (d ∷ ds) = elim (last_index_of c ds) [
  | none ↦ if d == c then some 0 else none
  | some i ↦ some (i + 1)
]

-- The pointer that a search returns: into the string at the place found, else the given one.
abbrev pub pointer_at : ℕ → ℕ → Option ℕ → ℕ
pointer_at p other none = other
pointer_at p other (some i) = p + i

-- `strchr` in a string, given fuel for it, points at the first byte equal to the low byte of `c`; if
-- there is none, at the NUL where `c` is 0, and else it is the null pointer.
strchr_lem :
    (fuel p c : ℕ) (cs : List ℕ) (m : Bytes)
    → StrAt m p cs
    → length cs < fuel
    → strchr fuel p c m
      ≡ some (pointer_at p (if c == 0 then p + length cs else null) (index_of (c % 256) cs))
unfolding strchr index_of
strchr_lem zero p c cs m s h = absurd (omega arith)
strchr_lem (suc fuel) p c [] m s h = ground arith
strchr_lem (suc fuel) p c (d ∷ ds) m s h = ground (arith, strchr_lem fuel (p + 1) c ds m s.2)

strrchr_from_lem :
    (fuel p c last : ℕ) (cs : List ℕ) (m : Bytes)
    → StrAt m p cs
    → length cs < fuel
    → strrchr_from fuel p c last m
      ≡ some (if c == 0 then p + length cs else pointer_at p last (last_index_of (c % 256) cs))
unfolding strrchr_from last_index_of
strrchr_from_lem zero p c last cs m s h = absurd (omega arith)
strrchr_from_lem (suc fuel) p c last [] m s h = ground arith
strrchr_from_lem (suc fuel) p c last (d ∷ ds) m s h =
    ground (arith, strrchr_from_lem fuel (p + 1) c (if m p == c % 256 then p else last) ds m s.2)

-- `strrchr` in a string, given fuel for it, points at the NUL where `c` is 0, and else at the last
-- byte equal to the low byte of `c`, or is the null pointer if there is none.
strrchr_lem :
    (fuel p c : ℕ) (cs : List ℕ) (m : Bytes)
    → StrAt m p cs
    → length cs < fuel
    → strrchr fuel p c m
      ≡ some (if c == 0 then p + length cs else pointer_at p null (last_index_of (c % 256) cs))
unfolding strrchr
strrchr_lem fuel p c cs m s h = strrchr_from_lem fuel p c null cs m s h
