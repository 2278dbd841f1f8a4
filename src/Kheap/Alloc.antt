-- ===== src/Kheap/Alloc.antt =====
-- What `kmalloc` of kernel/memory/kheap.c does, as first fit on the list of blocks.
use nexus_kernel.Prelude.{
  ℕ, ◌+◌, ◌-◌, ◌≤◌, ◌≡◌, ◌≢◌, true, false, ◌&&◌, arith, leb, if◌then◌else◌, List, [], ◌∷◌, Option,
  none, some, Bool-cases, Option-cases, ◌⊎◌, inl, inr,
}
use nexus_kernel.Kheap.Tiles.{Tile, tile, behind}

-- A block of size n is cut from a larger one if enough is left for another block.
abbrev pub carve : ℕ → Tile → List Tile → List Tile
carve n x xs =
    if leb (n + 32) x.size
    then tile n false ∷ tile (x.size - n - 16) true ∷ xs
    else tile x.size false ∷ xs

-- The first free block that is large enough, from address `a` on: its address, and the blocks with
-- it in use.
unfoldable pub first_fit : ℕ → ℕ → List Tile → Option (ℕ × List Tile)
first_fit n a [] = none
first_fit n a (x ∷ xs) = elim (x.free && leb n x.size) [
  | true ↦ some (a, carve n x xs)
  | false ↦ elim (first_fit n (behind a x) xs) [ none ↦ none | some r ↦ some (r.0, x ∷ r.1) ]
]

pub first_fit-nil : (n a c : ℕ) (ys : List Tile) → first_fit n a [] ≢ some (c, ys)
unfolding first_fit
first_fit-nil n a c ys h = ground arith

module _ (n a c : ℕ) (x : Tile) (xs ys : List Tile)
    (found : first_fit n a (x ∷ xs) ≡ some (c, ys)) where
  -- What first fit finds is the first block, or in the rest of the list.
  pub first_fit-cases :
      ((x.free ≡ true) × (n ≤ x.size) × (c ≡ a) × (carve n x xs ≡ ys))
      ⊎ ((zs : List Tile) × (first_fit n (behind a x) xs ≡ some (c, zs)) × (x ∷ zs ≡ ys))
  unfolding first_fit
  first_fit-cases = elim (Bool-cases (x.free && leb n x.size)) [
    | inl hit ↦ inl (
      ground (arith, hit),
      ground (arith, hit),
      ground (arith, hit, found),
      ground (arith, hit, found),
    )
    | inr miss ↦ elim (Option-cases (first_fit n (behind a x) xs)) [
      | inl h ↦ ground (arith, found, miss, h)
      | inr h ↦ inr (h.0.1, ground (arith, found, miss, h.1), ground (arith, found, miss, h.1))
    ]
  ]

pub first_fit-le : (n a c : ℕ) (xs ys : List Tile) → first_fit n a xs ≡ some (c, ys) → a ≤ c
first_fit-le n a c [] ys h = elim (first_fit-nil n a c ys h) [ ]
first_fit-le n a c (x ∷ xs) ys h = elim (first_fit-cases n a c x xs ys h) [
  | inl hit ↦ omega (arith, hit.2)
  | inr rest ↦ omega (arith, first_fit-le n (behind a x) c xs rest.0 rest.1)
]
