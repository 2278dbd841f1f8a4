-- ===== src/Kheap/Owned.antt =====
-- The blocks in use of the kernel heap (kernel/memory/kheap.c): which there are after a block is
-- taken or freed, and that they do not overlap.
use nexus_kernel.Prelude.{
  ℕ, ◌+◌, ◌-◌, ◌≤◌, ◌<◌, ◌≡◌, ◌≢◌, refl, sym, subst, true, false, ◌&&◌, arith, leb, ◌==◌,
  if◌then◌else◌, List, [], ◌∷◌, some, Bool-cases, leb→le, inl, inr,
}
use nexus_kernel.Kheap.Tiles.{Tile, tile, behind}
use nexus_kernel.Kheap.Alloc.{carve, first_fit, first_fit-cases, first_fit-nil, first_fit-le}
use nexus_kernel.Kheap.Free.{absorb, release, release-here, release-past, Owned, Owned-le}

-- Of two blocks in use at different addresses of the list, the first ends, header and all, before the
-- second begins.
pub Owned-Disjoint :
    (c d s t a : ℕ) (xs : List Tile) → Owned c s a xs → Owned d t a xs → c < d → c + 16 + s ≤ d
Owned-Disjoint c d s t a [] o p h = elim o [ ]
Owned-Disjoint c d s t a (x ∷ xs) (inl o) (inl p) h = omega (arith, o.0, p.0)
Owned-Disjoint c d s t a (x ∷ xs) (inl o) (inr p) h =
    omega (arith, o.0, o.2, Owned-le d t (behind a x) xs p)
Owned-Disjoint c d s t a (x ∷ xs) (inr o) (inl p) h =
    omega (arith, p.0, Owned-le c s (behind a x) xs o)
Owned-Disjoint c d s t a (x ∷ xs) (inr o) (inr p) h = Owned-Disjoint c d s t (behind a x) xs o p h

module _ (n a : ℕ) (x : Tile) (xs : List Tile) where
  carve-Owned : n ≤ x.size → (s : ℕ) × (n ≤ s) × Owned a s a (carve n x xs)
  carve-Owned h =
      elim (leb (n + 32) x.size)
        as (λ c.
          (s : ℕ) × (n ≤ s)
          × Owned a s a (
              if c
              then tile n false ∷ tile (x.size - n - 16) true ∷ xs
              else tile x.size false ∷ xs)) [
                | true ↦ (n, omega arith, inl (refl, refl, refl))
                | false ↦ (x.size, h, inl (refl, refl, refl))
              ]

  carve-Keeps :
      (d t : ℕ)
      → n ≤ x.size
      → x.free ≡ true
      → Owned d t a (x ∷ xs)
      → Owned d t a (carve n x xs) × (d ≢ a)
  carve-Keeps d t h u (inl o) = ground (arith, o.1)
  carve-Keeps d t h u (inr o) = (
    elim (Bool-cases (leb (n + 32) x.size)) [
      | inl cut ↦
          subst (Owned d t a) {x = tile n false ∷ tile (x.size - n - 16) true ∷ xs}
            (ground (arith, cut))
            (inr (inr (subst (λ b. Owned d t b xs) (omega (arith, leb→le (n + 32) x.size cut)) o)))
      | inr whole ↦ subst (Owned d t a) {x = tile x.size false ∷ xs} (ground (arith, whole)) (inr o)
    ],
    omega (arith, Owned-le d t (behind a x) xs o),
  )

-- First fit hands out a block that is large enough.
pub first_fit-Owned :
    (n a c : ℕ) (xs ys : List Tile)
    → first_fit n a xs ≡ some (c, ys)
    → (s : ℕ) × (n ≤ s) × Owned c s a ys
first_fit-Owned n a c [] ys h = elim (first_fit-nil n a c ys h) [ ]
first_fit-Owned n a c (x ∷ xs) ys h = elim (first_fit-cases n a c x xs ys h) [
  | inl hit ↦
      subst (λ c. (s : ℕ) × (n ≤ s) × Owned c s a ys) (sym hit.2)
        (subst (λ zs. (s : ℕ) × (n ≤ s) × Owned a s a zs) hit.3 (carve-Owned n a x xs hit.1))
  | inr rest ↦
      let ih = first_fit-Owned n (behind a x) c xs rest.0 rest.1 in
      subst (λ zs. (s : ℕ) × (n ≤ s) × Owned c s a zs) rest.2 (ih.0, ih.1, inr ih.2)
]

-- The blocks in use stay so, and none of them is the one handed out.
pub first_fit-Keeps :
    (n a c : ℕ) (xs ys : List Tile) (d t : ℕ)
    → first_fit n a xs ≡ some (c, ys)
    → Owned d t a xs
    → Owned d t a ys × (d ≢ c)
first_fit-Keeps n a c [] ys d t h o = elim (first_fit-nil n a c ys h) [ ]
first_fit-Keeps n a c (x ∷ xs) ys d t h o = elim (first_fit-cases n a c x xs ys h) [
  | inl hit ↦
      subst (λ c. Owned d t a ys × (d ≢ c)) (sym hit.2)
        (subst (λ zs. Owned d t a zs × (d ≢ a)) hit.3 (carve-Keeps n a x xs d t hit.1 hit.0 o))
  | inr rest ↦
      subst (λ zs. Owned d t a zs × (d ≢ c)) rest.2
        (elim o [
          | inl here ↦
              (inl here, omega (arith, here.0, first_fit-le n (behind a x) c xs rest.0 rest.1))
          | inr later ↦
              let ih = first_fit-Keeps n (behind a x) c xs rest.0 d t rest.1 later in
              (inr ih.0, ih.1)
        ])
]

absorb-Owned :
    (d t a : ℕ) (x : Tile) (xs : List Tile)
    → x.free ≡ true
    → Owned d t a (x ∷ xs)
    → Owned d t a (absorb x xs)
absorb-Owned d t a x [] h o = o
absorb-Owned d t a x (y ∷ ys) h (inl o) = ground (arith, h, o.1)
absorb-Owned d t a x (y ∷ ys) h (inr o) = elim (Bool-cases y.free) [
  | inl free ↦
      subst (Owned d t a) {x = tile (x.size + (16 + y.size)) x.free ∷ ys} (ground (arith, free))
        (elim o [
          | inl here ↦ ground (arith, here.1, free)
          | inr later ↦ inr (subst (λ b. Owned d t b ys) (omega arith) later)
        ])
  | inr used ↦ subst (Owned d t a) {x = x ∷ y ∷ ys} (ground (arith, used)) (inr o)
]

-- When a block in use is freed, the other blocks in use stay so, at their addresses and with their
-- sizes.
pub release-Owned :
    (c s d t a : ℕ) (xs : List Tile)
    → Owned c s a xs
    → Owned d t a xs
    → d ≢ c
    → Owned d t a (release a c xs)
unfolding release
release-Owned c s d t a [] o p h = p
release-Owned c s d t a (x ∷ xs) (inl o) (inl p) h = ground (arith, o.0, p.0)
release-Owned c s d t a (x ∷ xs) (inl o) (inr p) h =
    subst (Owned d t a) (sym (release-here a c x xs o.0))
      (absorb-Owned d t a (tile x.size true) xs refl (inr p))
release-Owned c s d t a (x ∷ xs) (inr o) p h =
    subst (Owned d t a)
      (sym (release-past a c x xs (omega (arith, Owned-le c s (behind a x) xs o))))
      (elim (Bool-cases (behind a x == c && x.free)) [
        | inl near ↦
            subst (Owned d t a) {x = absorb x (release (behind a x) c xs)} (ground (arith, near)) (
              absorb-Owned d t a x (release (behind a x) c xs) (ground (arith, near)) (elim p [
                | inl here ↦ ground (arith, here.1, near)
                | inr later ↦ inr (release-Owned c s d t (behind a x) xs o later h)
              ]))
        | inr far ↦
            subst (Owned d t a) {x = x ∷ release (behind a x) c xs} (ground (arith, far)) (elim p [
              | inl here ↦ inl here
              | inr later ↦ inr (release-Owned c s d t (behind a x) xs o later h)
            ])
      ])
