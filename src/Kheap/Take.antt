-- ===== src/Kheap/Take.antt =====
-- The steps of `kmalloc` in kernel/memory/kheap.c on the blocks in memory: the search for a block, and
-- what is done to the block that it finds.
use nexus_kernel.Prelude.{
  ℕ, zero, suc, ◌+◌, ◌-◌, ◌^◌, ◌≤◌, ◌<◌, ◌≡◌, ◌≢◌, sym, ap, subst, ◌∙◌, Bool, true, false, arith,
  leb, ◌==◌, if◌then◌else◌, List, [], ◌∷◌, none, some, Bool-cases, length, leb→le, inl, inr,
}
use nexus_kernel.Kheap.{Blocks, null, put, set_prev, split_block, take_block, find_block}
use nexus_kernel.Kheap.Tiles.{Tile, tile, link, behind, Tiles, Tiles-frame, Tiles-reprev}
use nexus_kernel.Kheap.Alloc.{carve, first_fit, first_fit-cases, first_fit-nil}

module _ (f : Blocks) (a n s nx p : ℕ) (u : Bool)
    (at_a : f a ≡ record { size = s; free = u; next = nx; prev = p })
    (bound : s + 64 < 2 ^ 32) where
  take-cut-here :
      n + 32 ≤ s
      → nx ≢ a
      → take_block f a n a ≡ record { size = n; free = false; next = a + 16 + n; prev = p }
  unfolding take_block split_block put set_prev
  take-cut-here h hx = ground (arith, at_a)

  take-cut-new :
      n + 32 ≤ s
      → (nx ≢ a + 16 + n)
      → take_block f a n (a + 16 + n)
        ≡ record { size = s - n - 16; free = true; next = nx; prev = a }
  unfolding take_block split_block put set_prev
  take-cut-new h hn = ground (arith, at_a)

  take-cut-next :
      n + 32 ≤ s → a + 16 + n < nx → take_block f a n nx ≡ record (f nx) { prev = a + 16 + n }
  unfolding take_block split_block put set_prev
  take-cut-next h hn = ground (arith, at_a)

  take-cut-else :
      n + 32 ≤ s
      → (b : ℕ) → b ≢ a
      → b ≢ a + 16 + n
      → (nx ≢ null → b ≢ nx)
      → take_block f a n b ≡ f b
  unfolding take_block split_block put set_prev
  take-cut-else h b ha hn hx = ground (arith, at_a)

  take-whole :
      n ≤ s
      → s < n + 32
      → (b : ℕ)
      → take_block f a n b
        ≡ (if b == a then record { size = s; free = false; next = nx; prev = p } else f b)
  unfolding take_block split_block put set_prev
  take-whole h hs b = ground (arith, at_a)

-- One block is taken, the list's first.
module _ (f : Blocks) (e n prev a : ℕ) (x : Tile) (xs : List Tile) (below : e + 64 < 2 ^ 32)
    (ha : a ≢ null) (t : Tiles f e prev a (x ∷ xs)) where
  Tiles-cut :
      n + 32 ≤ x.size
      → Tiles (take_block f a n) e prev a (tile n false ∷ tile (x.size - n - 16) true ∷ xs)
  Tiles-cut h =
      let nx = link e (behind a x) in
      let small : x.size + 64 < 2 ^ 32 = omega (arith, t.1, below) in
      let same : (b : ℕ)
          → b ≢ a
          → b ≢ a + 16 + n
          → (nx ≢ null → b ≢ nx)
          → take_block f a n b ≡ f b =
        take-cut-else f a n x.size nx prev x.free t.0 small h in
      let rest = tile (x.size - n - 16) true in
      let end : behind a x ≡ behind (behind a (tile n false)) rest = omega (arith, h) in
      let next : behind a x ≢ e
          → take_block f a n (behind a x) ≡ record (f (behind a x)) { prev = a + 16 + n } =
        λ hne.
          subst (λ y. take_block f a n y ≡ record (f y) { prev = a + 16 + n }) (ground (arith, hne))
            (take-cut-next f a n x.size nx prev x.free t.0 small h (ground (arith, hne, h))) in
      (
        take-cut-here f a n x.size nx prev x.free t.0 small h (ground arith)
            ∙ ap {A = ℕ} (λ y. record { size = n; free = false; next = y; prev = prev })
                (ground (arith, t.1)),
        omega (arith, t.1, h),
        (
          take-cut-new f a n x.size nx prev x.free t.0 small h (ground (arith, h))
              ∙ ap {A = ℕ}
                  (λ y. record { size = x.size - n - 16; free = true; next = link e y; prev = a })
                  end,
          subst (λ y. y ≤ e) end t.1,
          subst (λ y. Tiles (take_block f a n) e (a + 16 + n) y xs) end
              (Tiles-reprev f (take_block f a n) e a (a + 16 + n) (behind a x) xs t.2 next (λ b hb.
                same b (omega (arith, h, hb)) (omega (arith, h, hb)) (ground (arith, hb)))),
        ),
      )

  Tiles-whole :
      n ≤ x.size → x.size < n + 32 → Tiles (take_block f a n) e prev a (tile x.size false ∷ xs)
  Tiles-whole h hs =
      let same =
        take-whole f a n x.size (link e (behind a x)) prev x.free t.0 (omega (arith, t.1, below)) h
          hs in
      (
        ground (arith, same a),
        t.1,
        Tiles-frame f (take_block f a n) e a (behind a x) xs t.2 (λ b hb. ground (arith, same b)),
      )

  Tiles-carve : n ≤ x.size → Tiles (take_block f a n) e prev a (carve n x xs)
  Tiles-carve h = elim (Bool-cases (leb (n + 32) x.size)) [
    | inl cut ↦
        subst (Tiles (take_block f a n) e prev a)
          {x = tile n false ∷ tile (x.size - n - 16) true ∷ xs} (ground (arith, cut))
          (Tiles-cut (leb→le (n + 32) x.size cut))
    | inr whole ↦
        subst (Tiles (take_block f a n) e prev a) {x = tile x.size false ∷ xs}
          (ground (arith, whole)) (Tiles-whole h (ground (arith, whole)))
  ]

  take-below : n ≤ x.size → (b : ℕ) → b < a → take_block f a n b ≡ f b
  take-below h b hb = elim (Bool-cases (leb (n + 32) x.size)) [
    | inl cut ↦
        take-cut-else f a n x.size (link e (behind a x)) prev x.free t.0 (omega (arith, t.1, below))
          (leb→le (n + 32) x.size cut) b (omega (arith, hb)) (omega (arith, hb))
          (ground (arith, hb))
    | inr whole ↦ ground (
      arith,
      hb,
      take-whole f a n x.size (link e (behind a x)) prev x.free t.0 (omega (arith, t.1, below)) h
          (ground (arith, whole)) b,
    )
  ]

module _ (f : Blocks) (e n : ℕ) (below : e + 64 < 2 ^ 32) where
  pub find_block-first_fit :
      (fuel prev a : ℕ) (xs : List Tile)
      → Tiles f e prev a xs
      → a ≢ null
      → length xs < fuel
      → find_block fuel f n (link e a)
        ≡ some (elim (first_fit n a xs) [ none ↦ null | some r ↦ r.0 ])
  unfolding find_block first_fit
  find_block-first_fit zero prev a xs t ha h = elim h [ ]
  find_block-first_fit (suc fuel) prev a [] t ha h = ground (arith, t)
  find_block-first_fit (suc fuel) prev a (x ∷ xs) t ha h = ground (
    arith,
    t.0,
    t.1,
    find_block-first_fit fuel a (behind a x) xs t.2 (omega arith) (omega (arith, h)),
  )

module _ (f : Blocks) (e n : ℕ) (below : e + 64 < 2 ^ 32) where
  -- What first fit finds is taken by `take_block`.
  pub Tiles-first_fit :
      (prev a c : ℕ) (xs ys : List Tile)
      → Tiles f e prev a xs
      → a ≢ null
      → first_fit n a xs ≡ some (c, ys)
      → Tiles (take_block f c n) e prev a ys
        × (a ≤ c)
        × ((b : ℕ) → b < c → take_block f c n b ≡ f b)
  Tiles-first_fit prev a c [] ys t ha h = elim (first_fit-nil n a c ys h) [ ]
  Tiles-first_fit prev a c (x ∷ xs) ys t ha h = elim (first_fit-cases n a c x xs ys h) [
    | inl hit ↦
        subst
          (λ c.
            Tiles (take_block f c n) e prev a ys
            × (a ≤ c)
            × ((b : ℕ) → b < c → take_block f c n b ≡ f b))
          {x = a} (sym hit.2)
          (
            subst (Tiles (take_block f a n) e prev a) hit.3
                (Tiles-carve f e n prev a x xs below ha t hit.1),
            omega arith,
            take-below f e n prev a x xs below ha t hit.1,
          )
    | inr rest ↦
        let ih = Tiles-first_fit a (behind a x) c xs rest.0 t.2 (omega arith) rest.1 in
        (
          subst (Tiles (take_block f c n) e prev a) rest.2
              (ih.2 a (omega (arith, ih.1)) ∙ t.0, t.1, ih.0),
          omega (arith, ih.1),
          ih.2,
        )
  ]
