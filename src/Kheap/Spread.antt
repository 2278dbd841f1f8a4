-- ===== src/Kheap/Spread.antt =====
-- Free blocks of the kernel heap (kernel/memory/kheap.c) never stand side by side, so that freeing
-- what was just taken gives the list of blocks back.
use nexus_kernel.Prelude.{
  ℕ, ◌+◌, ◌-◌, ◌≤◌, ◌≡◌, refl, sym, subst, ◌∙◌, Bool, true, false, ◌&&◌, arith, leb, ◌==◌,
  if◌then◌else◌, List, [], ◌∷◌, some, Bool-cases, inl, inr,
}
use nexus_kernel.Kheap.Tiles.{Tile, tile, behind, Leads}
use nexus_kernel.Kheap.Alloc.{carve, first_fit, first_fit-cases, first_fit-le, first_fit-nil}
use nexus_kernel.Kheap.Free.{absorb, release, release-here, release-past, Owned, Owned-le}

Leads-true : (u : Bool) (xs : List Tile) → Leads true xs → Leads u xs
Leads-true u [] h = tt
Leads-true u (x ∷ xs) h = ((λ _. h.0 refl), h.1)

carve-Leads :
    (u : Bool) (n : ℕ) (x : Tile) (xs : List Tile)
    → x.free ≡ true
    → Leads u (x ∷ xs)
    → Leads u (carve n x xs)
carve-Leads u n x xs h l =
    elim (leb (n + 32) x.size)
      as (λ c.
        Leads u
          (if c then tile n false ∷ tile (x.size - n - 16) true ∷ xs else tile x.size false ∷ xs)) [
            | true ↦ ((λ _. refl), ((λ no. sym no), subst (λ v. Leads v xs) h l.1))
            | false ↦ ((λ _. refl), Leads-true false xs (subst (λ v. Leads v xs) h l.1))
          ]

pub first_fit-Leads :
    (u : Bool) (n a c : ℕ) (xs ys : List Tile)
    → first_fit n a xs ≡ some (c, ys)
    → Leads u xs
    → Leads u ys
first_fit-Leads u n a c [] ys h l = elim (first_fit-nil n a c ys h) [ ]
first_fit-Leads u n a c (x ∷ xs) ys h l = elim (first_fit-cases n a c x xs ys h) [
  | inl hit ↦ subst (Leads u) hit.3 (carve-Leads u n x xs hit.0 l)
  | inr rest ↦
      subst (Leads u) rest.2 (l.0, first_fit-Leads x.free n (behind a x) c xs rest.0 rest.1 l.1)
]

Leads-used : (u : Bool) (xs : List Tile) → Leads u xs → Leads false xs
Leads-used u [] l = tt
Leads-used u (x ∷ xs) l = ((λ no. ground (arith, no)), l.1)

absorb-Leads :
    (u : Bool) (x : Tile) (xs : List Tile)
    → (u ≡ true → x.free ≡ false)
    → Leads false xs
    → Leads u (absorb x xs)
absorb-Leads u x [] h l = (h, tt)
absorb-Leads u x (y ∷ ys) h l = elim (Bool-cases y.free) [
  | inl free ↦
      subst (Leads u) {x = tile (x.size + (16 + y.size)) x.free ∷ ys} (ground (arith, free))
        (h, Leads-true x.free ys (subst (λ v. Leads v ys) free l.1))
  | inr used ↦ subst (Leads u) {x = x ∷ y ∷ ys} (ground (arith, used)) (h, ((λ _. used), l.1))
]

pub release-Leads :
    (u : Bool) (a c s : ℕ) (xs : List Tile)
    → Leads u xs
    → Owned c s a xs
    → (a ≡ c → u ≡ false)
    → Leads u (release a c xs)
unfolding release
release-Leads u a c s [] l o h = tt
release-Leads u a c s (x ∷ xs) l (inl o) h =
    subst (Leads u) (sym (release-here a c x xs o.0))
      (absorb-Leads u (tile x.size true) xs (λ hu. sym hu ∙ h o.0) (Leads-used x.free xs l.1))
release-Leads u a c s (x ∷ xs) l (inr o) h =
    subst (Leads u) (sym (release-past a c x xs (omega (arith, Owned-le c s (behind a x) xs o))))
      (elim (Bool-cases (behind a x == c && x.free)) [
        | inl near ↦
            subst (Leads u) {x = absorb x (release (behind a x) c xs)} (ground (arith, near)) (
              absorb-Leads u x (release (behind a x) c xs) l.0
                (release-Leads false (behind a x) c s xs (Leads-used x.free xs l.1) o (λ _. refl)))
        | inr far ↦
            subst (Leads u) {x = x ∷ release (behind a x) c xs} (ground (arith, far)) (
              l.0,
              release-Leads x.free (behind a x) c s xs l.1 o (λ heq. ground (arith, far, heq)),
            )
      ])

absorb-same : (x : Tile) (xs : List Tile) → x.free ≡ true → Leads x.free xs → absorb x xs ≡ x ∷ xs
absorb-same x [] h l = refl
absorb-same x (y ∷ ys) h l = ground (arith, l.0 h)

release-carve :
    (u : Bool) (n a : ℕ) (x : Tile) (xs : List Tile)
    → x.free ≡ true
    → n ≤ x.size
    → Leads u (x ∷ xs)
    → release a a (carve n x xs) ≡ x ∷ xs
unfolding release
release-carve u n a x xs h hn l = ground (arith, absorb-same x xs h l.1)

-- To free what first fit took gives the list of blocks back.
pub release-first_fit :
    (u : Bool) (n a c : ℕ) (xs ys : List Tile)
    → Leads u xs
    → first_fit n a xs ≡ some (c, ys)
    → release a c ys ≡ xs
unfolding release
release-first_fit u n a c [] ys l h = elim (first_fit-nil n a c ys h) [ ]
release-first_fit u n a c (x ∷ xs) ys l h = elim (first_fit-cases n a c x xs ys h) [
  | inl hit ↦
      subst (λ c. release a c ys ≡ x ∷ xs) (sym hit.2)
        (subst (λ zs. release a a zs ≡ x ∷ xs) hit.3 (release-carve u n a x xs hit.0 hit.1 l))
  | inr rest ↦
      let ih = release-first_fit x.free n (behind a x) c xs rest.0 l.1 rest.1 in
      subst (λ zs. release a c zs ≡ x ∷ xs) rest.2
        (release-past a c x rest.0 (omega (arith, first_fit-le n (behind a x) c xs rest.0 rest.1))
          ∙ ground (arith, ih, absorb-same x xs, l.1))
]
