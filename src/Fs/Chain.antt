-- ===== src/Fs/Chain.antt =====
-- The children of a directory of fs/ramfs.c: structs linked by a pointer, read as a list of addresses.
use nexus_kernel.Prelude.{
  ℕ, ◌+◌, ◌≡◌, ◌≢◌, refl, sym, ap, ◌∙◌, subst, Bool, true, false, ◌||◌, ◌==◌, if◌then◌else◌, List,
  [], ◌∷◌, arith, length, Bool-cases, inl, inr,
}
use nexus_kernel.Libc.Names.{Name, names_equal, names_equal_self, names_equal_sound}

-- From `p` the pointers lead through `xs` to the null pointer.
abbrev pub Linked : (ℕ → ℕ) → ℕ → List ℕ → Type 0
Linked next p [] = p ≡ 0
Linked next p (x ∷ xs) = (p ≡ x) × (x ≢ 0) × Linked next (next x) xs

-- The first with the name, or null.
abbrev pub named : (ℕ → Name) → Name → List ℕ → ℕ
named name n [] = 0
named name n (x ∷ xs) = if names_equal (name x) n then x else named name n xs

-- The address stands in the list.
abbrev pub has : ℕ → List ℕ → Bool
has a [] = false
has a (x ∷ xs) = (a == x) || has a xs

-- No two have one name.
abbrev pub Unique : (ℕ → Name) → List ℕ → Type 0
Unique name [] = Unit
Unique name (x ∷ xs) = (named name (name x) xs ≡ 0) × Unique name xs

-- The list without its first `p`.
abbrev pub erase : ℕ → List ℕ → List ℕ
erase p [] = []
erase p (x ∷ xs) = if x == p then xs else x ∷ erase p xs

pub Linked-frame :
    (f g : ℕ → ℕ) (p : ℕ) (xs : List ℕ)
    → Linked f p xs
    → ((a : ℕ) → has a xs ≡ true → g a ≡ f a)
    → Linked g p xs
Linked-frame f g p [] c same = c
Linked-frame f g p (x ∷ xs) c same = (
  c.0,
  c.1,
  subst (λ q. Linked g q xs) (sym (same x (ground arith)))
      (Linked-frame f g (f x) xs c.2 (λ a h. same a (ground (arith, h)))),
)

pub named-frame :
    (f g : ℕ → Name) (n : Name) (xs : List ℕ)
    → ((a : ℕ) → has a xs ≡ true → g a ≡ f a)
    → named g n xs ≡ named f n xs
named-frame f g n [] same = refl
named-frame f g n (x ∷ xs) same =
    ground (arith, same x (ground arith), named-frame f g n xs (λ a h. same a (ground (arith, h))))

pub Unique-frame :
    (f g : ℕ → Name) (xs : List ℕ)
    → ((a : ℕ) → has a xs ≡ true → g a ≡ f a)
    → Unique f xs
    → Unique g xs
Unique-frame f g [] same u = tt
Unique-frame f g (x ∷ xs) same u =
    let rest = λ (a : ℕ) (h : has a xs ≡ true). same a (ground (arith, h)) in
    (
      ap (λ n. named g n xs) (same x (ground arith)) ∙ named-frame f g (f x) xs rest ∙ u.0,
      Unique-frame f g xs rest u.1,
    )

-- Null does not stand in a chain.
pub null-out : (f : ℕ → ℕ) (q : ℕ) (xs : List ℕ) → Linked f q xs → has 0 xs ≡ false
null-out f q [] c = refl
null-out f q (x ∷ xs) c = ground (arith, c.1, null-out f (f x) xs c.2)

pub different : {b : Bool} → b ≡ true → b ≡ false → ⊥
different h k = ground (arith, h, k)

pub length-erase : (p : ℕ) (xs : List ℕ) → has p xs ≡ true → length (erase p xs) + 1 ≡ length xs
length-erase p [] h = ground (arith, h)
length-erase p (x ∷ xs) h = ground (arith, h, length-erase p xs)

module _ (next : ℕ → ℕ) (name : ℕ → Name) where
  -- One whose name is not found does not stand in the list.
  pub not_has :
      (p a : ℕ) (xs : List ℕ) → Linked next p xs → named name (name a) xs ≡ 0 → has a xs ≡ false
  not_has p a [] c h = refl
  not_has p a (x ∷ xs) c h =
      ground (arith, c.1, names_equal_self (name a), not_has (next x) a xs c.2)

  pub has-named :
      (n : Name) (xs : List ℕ) (q : ℕ)
      → Linked next q xs
      → named name n xs ≢ 0
      → has (named name n xs) xs ≡ true
  has-named n [] q c h = absurd (h refl)
  has-named n (x ∷ xs) q c h = ground (arith, h, has-named n xs (next x) c.2)

  named_sound : (n : Name) (xs : List ℕ) → named name n xs ≢ 0 → name (named name n xs) ≡ n
  named_sound n [] h = absurd (h refl)
  named_sound n (x ∷ xs) h = elim (Bool-cases (names_equal (name x) n)) [
    | inl hit ↦ rw hit (names_equal_sound (name x) n hit)
    | inr miss ↦ rw miss (named_sound n xs (ground (arith, h, miss)))
  ]

  named-erase :
      (n : Name) (p : ℕ) (xs : List ℕ) (q : ℕ)
      → Linked next q xs
      → named name n xs ≡ 0
      → named name n (erase p xs) ≡ 0
  named-erase n p [] q c h = refl
  named-erase n p (x ∷ xs) q c h = ground (arith, c.1, named-erase n p xs (next x) c.2)

  pub Unique-erase :
      (p : ℕ) (xs : List ℕ) (q : ℕ) → Linked next q xs → Unique name xs → Unique name (erase p xs)
  Unique-erase p [] q c u = tt
  Unique-erase p (x ∷ xs) q c u =
      elim (x == p) as (λ b. Unique name (if b then xs else x ∷ erase p xs)) [
        | true ↦ u.1
        | false ↦ (named-erase (name x) p xs (next x) c.2 u.0, Unique-erase p xs (next x) c.2 u.1)
      ]

  -- Without the one with the name `n`, another name is found as before.
  pub named-gone :
      (n : Name) (xs : List ℕ) (q : ℕ)
      → Linked next q xs
      → Unique name xs
      → named name n xs ≢ 0
      → (k : Name)
      → named name k (erase (named name n xs) xs) ≡ (if names_equal n k then 0 else named name k xs)
  named-gone n [] q c u h k = absurd (h refl)
  named-gone n (x ∷ xs) q c u h k = elim (Bool-cases (names_equal (name x) n)) [
    | inl hit ↦
        let e = names_equal_sound (name x) n hit in
        elim (Bool-cases (names_equal n k)) [
          | inl same ↦
              let gone = subst (λ m. named name m xs ≡ 0) (e ∙ names_equal_sound n k same) u.0 in
              ground (arith, hit, same, gone)
          | inr apart ↦ ground (arith, hit, apart, ap (λ m. names_equal m k) e)
        ]
    | inr miss ↦
        let y = named name n xs in
        let hy : y ≢ 0 = ground (arith, h, miss) in
        let ih = named-gone n xs (next x) c.2 u.1 hy k in
        let hx = not_has (next x) x xs c.2 u.0 in
        let other : x ≢ y =
          λ e. different (has-named n xs (next x) c.2 hy) (subst (λ m. has m xs ≡ false) e hx) in
        elim (Bool-cases (names_equal n k)) [
          | inl same ↦
              let missed =
                subst (λ m. names_equal (name x) m ≡ false) (names_equal_sound n k same) miss in
              ground (arith, miss, same, missed, ih, other)
          | inr apart ↦ ground (arith, miss, apart, ih, other)
        ]
  ]
