-- ===== src/Kheap/Release.antt =====
-- `kfree` of kernel/memory/kheap.c carries out `release` on the blocks in memory.
use nexus_kernel.Prelude.{
  ℕ, ◌+◌, ◌^◌, ◌<◌, ◌≢◌, refl, sym, subst, ◌∙◌, true, arith, if◌then◌else◌, List, [], ◌∷◌, inl, inr,
}
use nexus_kernel.Kheap.{Blocks, null, absorb_next, coalesce_block}
use nexus_kernel.Kheap.Tiles.{Tile, tile, behind, Tiles}
use nexus_kernel.Kheap.Free.{
  absorb, release, release-here, release-second, release-later, Owned, Owned-le,
}
use nexus_kernel.Kheap.Coalesce.{
  absorb-shape, mark, Does, Tiles-absorb, Tiles-join, Tiles-mark, join_prev-first,
}

-- What `kfree` does to the blocks.
abbrev pub free_at : Blocks → ℕ → Blocks
free_at f c = coalesce_block (mark f c) c

module _ (f : Blocks) (e : ℕ) (below : e + 64 < 2 ^ 32) where
  absorbed :
      (prev a : ℕ) (x : Tile) (xs : List Tile)
      → a ≢ null
      → Tiles f e prev a (x ∷ xs)
      → Does f (absorb_next (mark f a) a) e prev a (absorb (tile x.size true) xs)
  absorbed prev a x xs ha t =
      let marked = Tiles-mark f e prev a below ha x xs t in
      let done = Tiles-absorb (mark f a) e prev a below ha (tile x.size true) xs marked.0 in
      (done.0, λ b hb. done.1 b hb ∙ marked.1 b hb)

  free_at-first :
      (a : ℕ) (x : Tile) (xs : List Tile)
      → a ≢ null
      → Tiles f e null a (x ∷ xs)
      → Tiles (free_at f a) e null a (absorb (tile x.size true) xs)
  unfolding coalesce_block
  free_at-first a x xs ha t =
      let done = absorbed null a x xs ha t in
      let shape = absorb-shape (tile x.size true) xs in
      let tiles = subst (Tiles (absorb_next (mark f a) a) e null a) shape.2 done.0 in
      subst (λ g. Tiles g e null a (absorb (tile x.size true) xs))
        (sym (join_prev-first (absorb_next (mark f a) a) a (ground (arith, tiles.0)))) done.0

  free_at-second :
      (prev a : ℕ) (w x : Tile) (xs : List Tile)
      → a ≢ null
      → Tiles f e prev a (w ∷ x ∷ xs)
      → Does f (free_at f (behind a w)) e prev a (
          if w.free
          then absorb w (absorb (tile x.size true) xs)
          else w ∷ absorb (tile x.size true) xs)
  unfolding coalesce_block
  free_at-second prev a w x xs ha t =
      let c = behind a w in
      let g = absorb_next (mark f c) c in
      let done = absorbed a c x xs (omega arith) t.2 in
      let shape = absorb-shape (tile x.size true) xs in
      let goal : List Tile → Type 0 =
        λ zs. Does f (free_at f c) e prev a (if w.free then absorb w zs else w ∷ zs) in
      let join =
        Tiles-join g e prev a below ha w shape.0 shape.1
          (done.1 a (omega arith) ∙ t.0, t.1, subst (Tiles g e a c) shape.2 done.0) shape.3 in
      subst goal (sym shape.2) (join.0, λ b hb. join.1 b hb ∙ done.1 b (omega (arith, hb)))

  free_at-Does :
      (prev a c s : ℕ) (x : Tile) (xs : List Tile)
      → a ≢ null
      → Tiles f e prev a (x ∷ xs)
      → Owned c s (behind a x) xs
      → Does f (free_at f c) e prev a (release a c (x ∷ xs))
  free_at-Does prev a c s x [] ha t o = elim o [ ]
  free_at-Does prev a c s x (y ∷ ys) ha t (inl o) =
      subst (λ c. Does f (free_at f c) e prev a (release a c (x ∷ y ∷ ys))) o.0
        (subst (Does f (free_at f (behind a x)) e prev a)
          (sym (release-second a (behind a x) x y ys refl)) (free_at-second prev a x y ys ha t))
  free_at-Does prev a c s x (y ∷ ys) ha t (inr o) =
      let later : behind a x < c = omega (arith, Owned-le c s (behind (behind a x) y) ys o) in
      let ih = free_at-Does a (behind a x) c s y ys (omega arith) t.2 o in
      subst (Does f (free_at f c) e prev a) (sym (release-later a c x (y ∷ ys) later))
        ((ih.1 a (omega arith) ∙ t.0, t.1, ih.0), λ b hb. ih.1 b (omega (arith, hb)))

  -- A block of the list is freed.
  pub Tiles-release :
      (a c s : ℕ) (xs : List Tile)
      → a ≢ null
      → Tiles f e null a xs
      → Owned c s a xs
      → Tiles (free_at f c) e null a (release a c xs)
  Tiles-release a c s [] ha t o = elim o [ ]
  Tiles-release a c s (x ∷ xs) ha t (inl o) =
      subst (λ c. Tiles (free_at f c) e null a (release a c (x ∷ xs))) o.0
        (subst (Tiles (free_at f a) e null a) (sym (release-here a a x xs refl))
          (free_at-first a x xs ha t))
  Tiles-release a c s (x ∷ xs) ha t (inr o) = (free_at-Does null a c s x xs ha t o).0
