-- ===== src/Kheap/Free.antt =====
-- What `kfree` of kernel/memory/kheap.c does, on the list of blocks: a freed block is merged with the
-- free blocks beside it.
use nexus_kernel.Prelude.{
  ℕ, ◌+◌, ◌≤◌, ◌<◌, ◌≡◌, true, false, ◌&&◌, arith, ◌==◌, if◌then◌else◌, List, [], ◌∷◌, ◌⊎◌, inl,
  inr,
}
use nexus_kernel.Kheap.Tiles.{Tile, tile, behind}

-- A free block takes in the block behind it if that is free.
abbrev pub absorb : Tile → List Tile → List Tile
absorb x [] = x ∷ []
absorb x (y ∷ ys) = if y.free then tile (x.size + (16 + y.size)) x.free ∷ ys else x ∷ y ∷ ys

-- The block at address `c` is freed.
unfoldable pub release : ℕ → ℕ → List Tile → List Tile
release a c [] = []
release a c (x ∷ xs) =
    let rest = release (behind a x) c xs in
    if a == c
    then absorb (tile x.size true) xs
    else if behind a x == c && x.free
    then absorb x rest
    else x ∷ rest

pub release-here :
    (a c : ℕ) (x : Tile) (xs : List Tile)
    → a ≡ c
    → release a c (x ∷ xs) ≡ absorb (tile x.size true) xs
unfolding release
release-here a c x xs h = ground (arith, h)

pub release-past :
    (a c : ℕ) (x : Tile) (xs : List Tile)
    → a < c
    → release a c (x ∷ xs) ≡ (
        if behind a x == c && x.free
        then absorb x (release (behind a x) c xs)
        else x ∷ release (behind a x) c xs)
unfolding release
release-past a c x xs h = ground (arith, h)

pub release-second :
    (a c : ℕ) (x y : Tile) (ys : List Tile)
    → behind a x ≡ c
    → release a c (x ∷ y ∷ ys) ≡ (
        if x.free
        then absorb x (absorb (tile y.size true) ys)
        else x ∷ absorb (tile y.size true) ys)
unfolding release
release-second a c x y ys h = ground (arith, h)

pub release-later :
    (a c : ℕ) (x : Tile) (xs : List Tile)
    → behind a x < c
    → release a c (x ∷ xs) ≡ x ∷ release (behind a x) c xs
unfolding release
release-later a c x xs h = ground (arith, h)

-- A block in use of size `s` starts at address `c`.
abbrev pub Owned : ℕ → ℕ → ℕ → List Tile → Type 0
Owned c s a [] = ⊥
Owned c s a (x ∷ xs) = ((a ≡ c) × (x.free ≡ false) × (x.size ≡ s)) ⊎ Owned c s (behind a x) xs

pub Owned-le : (c s a : ℕ) (xs : List Tile) → Owned c s a xs → a ≤ c
Owned-le c s a [] o = elim o [ ]
Owned-le c s a (x ∷ xs) o = elim o [
  | inl h ↦ omega (arith, h.0)
  | inr h ↦ omega (arith, Owned-le c s (behind a x) xs h)
]
