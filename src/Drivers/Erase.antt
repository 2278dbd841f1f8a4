-- ===== src/Drivers/Erase.antt =====
-- The list of drivers (drivers/driver.c) less one of them.
use nexus_kernel.Prelude.{
  ℕ, ◌+◌, ◌≡◌, ◌≢◌, refl, ap, subst, Bool, true, false, ◌==◌, if◌then◌else◌, List, [], ◌∷◌, arith,
  length, Bool-cases, inl, inr,
}
use nexus_kernel.Libc.Names.{Name, names_equal, names_equal_sound}
use nexus_kernel.Drivers.{null, Driver}
use nexus_kernel.Drivers.Registry.{Linked, named, Unique, has, not_has}

-- The list without its first `p`.
abbrev pub erase : ℕ → List ℕ → List ℕ
erase p [] = []
erase p (x ∷ xs) = if x == p then xs else x ∷ erase p xs

pub length-erase : (p : ℕ) (xs : List ℕ) → has p xs ≡ true → length (erase p xs) + 1 ≡ length xs
length-erase p [] h = ground (arith, h)
length-erase p (x ∷ xs) h = ground (arith, h, length-erase p xs)

module _ (f : ℕ → Driver) where
  named-erase :
      (n : Name) (p : ℕ) (xs : List ℕ)
      → (q : ℕ) → Linked f q xs
      → named f n xs ≡ null
      → named f n (erase p xs) ≡ null
  named-erase n p [] q c h = refl
  named-erase n p (x ∷ xs) q c h = ground (arith, c.1, named-erase n p xs (f x).next c.2)

  pub Unique-erase :
      (p : ℕ) (xs : List ℕ) (q : ℕ) → Linked f q xs → Unique f xs → Unique f (erase p xs)
  Unique-erase p [] q c u = tt
  Unique-erase p (x ∷ xs) q c u =
      elim (x == p) as (λ b. Unique f (if b then xs else x ∷ erase p xs)) [
        | true ↦ u.1
        | false ↦
            (named-erase (f x).name p xs (f x).next c.2 u.0, Unique-erase p xs (f x).next c.2 u.1)
      ]

  pub has-named :
      (n : Name) (xs : List ℕ) (q : ℕ)
      → Linked f q xs
      → named f n xs ≢ null
      → has (named f n xs) xs ≡ true
  has-named n [] q c h = absurd (h refl)
  has-named n (x ∷ xs) q c h = ground (arith, h, has-named n xs (f x).next c.2)

pub different : {b : Bool} → b ≡ true → b ≡ false → ⊥
different h k = ground (arith, h, k)

pub named-gone :
    (f : ℕ → Driver) (n : Name) (xs : List ℕ) (q : ℕ)
    → Linked f q xs
    → Unique f xs
    → named f n (erase (named f n xs) xs) ≡ null
named-gone f n [] q c u = refl
named-gone f n (x ∷ xs) q c u = elim (Bool-cases (names_equal (f x).name n)) [
  | inl hit ↦ ground (arith, hit, ap (λ k. named f k xs) (names_equal_sound (f x).name n hit), u.0)
  | inr miss ↦
      let ih = named-gone f n xs (f x).next c.2 u.1 in
      let hx = not_has f (f x).next x xs c.2 u.0 in
      let other : x ≢ named f n xs = λ e.
        different (has-named f n xs (f x).next c.2 (subst (λ k. k ≢ null) e c.1))
          (subst (λ k. has k xs ≡ false) e hx) in
      ground (arith, miss, ih, other)
]

pub null-out : (f : ℕ → Driver) (q : ℕ) (xs : List ℕ) → Linked f q xs → has null xs ≡ false
null-out f q [] c = refl
null-out f q (x ∷ xs) c = ground (arith, c.1, null-out f (f x).next xs c.2)
