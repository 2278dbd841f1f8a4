-- ===== src/Kheap/Coalesce.antt =====
-- The steps of `kfree` in kernel/memory/kheap.c on the blocks in memory: a block is marked free, takes
-- in the block behind it, and is taken in by the one before it.
use nexus_kernel.Prelude.{
  ℕ, ◌+◌, ◌^◌, ◌<◌, ◌≡◌, ◌≢◌, refl, sym, ap, subst, ◌∙◌, Bool, true, false, arith, ◌==◌,
  if◌then◌else◌, List, [], ◌∷◌, Bool-cases, inl, inr,
}
use nexus_kernel.Kheap.{Blocks, null, put, set_prev, absorb_next, join_prev}
use nexus_kernel.Kheap.Tiles.{Tile, tile, link, behind, Tiles, Tiles-frame, Tiles-reprev}
use nexus_kernel.Kheap.Free.{absorb}

-- The block at `c` is marked free.
unfoldable pub mark : Blocks → ℕ → Blocks
mark f c = put f c (record (f c) { free = true })

mark-at :
    (f : Blocks) (c b : ℕ) → mark f c b ≡ (if b == c then record (f c) { free = true } else f b)
unfolding mark put
mark-at f c b = refl

module _ (f : Blocks) (a s t nx p q : ℕ) (u v : Bool) (c : ℕ)
    (at_a : f a ≡ record { size = s; free = u; next = c; prev = p })
    (at_c : f c ≡ record { size = t; free = v; next = nx; prev = q }) (ne : a ≢ c) (nz : c ≢ null)
    (na : nx ≢ a) (bound : s + t + 64 < 2 ^ 32) where
  absorb-here :
      v ≡ true → absorb_next f a a ≡ record { size = s + (16 + t); free = u; next = nx; prev = p }
  unfolding absorb_next put set_prev
  absorb-here h = ground (arith, at_a, at_c, h)

  absorb-next : v ≡ true → nx ≢ null → absorb_next f a nx ≡ record (f nx) { prev = a }
  unfolding absorb_next put set_prev
  absorb-next h hn = ground (arith, at_a, at_c, h)

  absorb-else : (b : ℕ) → b ≢ a → (nx ≢ null → b ≢ nx) → absorb_next f a b ≡ f b
  unfolding absorb_next put set_prev
  absorb-else b hb hn = ground (arith, at_a, at_c)

  -- To let the block before take a free one in is the same step, begun at the other block.
  join_prev-absorb :
      q ≡ a → a ≢ null → v ≡ true → join_prev f c ≡ (if u then absorb_next f a else f)
  unfolding absorb_next join_prev
  join_prev-absorb h hn hv = ground (arith, at_a, at_c, h, hv)

absorb_next-used : (f : Blocks) (a : ℕ) → (f (f a).next).free ≡ false → absorb_next f a ≡ f
unfolding absorb_next
absorb_next-used f a h = ground (arith, h)

pub join_prev-first : (f : Blocks) (a : ℕ) → (f a).prev ≡ null → join_prev f a ≡ f
unfolding join_prev
join_prev-first f a h = ground (arith, h)

absorb_next-last : (f : Blocks) (a : ℕ) → (f a).next ≡ null → absorb_next f a ≡ f
unfolding absorb_next
absorb_next-last f a h = ground (arith, h)

-- The functions on the blocks do to the list what `absorb` does, and leave the blocks before as
-- they are.
abbrev pub Does : Blocks → Blocks → ℕ → ℕ → ℕ → List Tile → Type 0
Does f g e prev a xs = Tiles g e prev a xs × ((b : ℕ) → b < a → g b ≡ f b)

Does-if :
    (f g : Blocks) (e prev a : ℕ) (u : Bool) (xs ys : List Tile)
    → Does f g e prev a xs
    → Does f f e prev a ys
    → Does f (if u then g else f) e prev a (if u then xs else ys)
Does-if f g e prev a true xs ys hx hy = hx
Does-if f g e prev a false xs ys hx hy = hy

pub absorb-shape :
    (x : Tile) (xs : List Tile)
    → (z : Tile) × (zs : List Tile) × (absorb x xs ≡ z ∷ zs) × (z.free ≡ x.free)
absorb-shape x [] = (x, [], refl, refl)
absorb-shape x (y ∷ ys) = elim (Bool-cases y.free) [
  | inl h ↦ (tile (x.size + (16 + y.size)) x.free, ys, ground (arith, h), refl)
  | inr h ↦ (x, y ∷ ys, ground (arith, h), refl)
]

Tiles-next :
    (f : Blocks) (e prev a : ℕ) (x y : Tile) (ys : List Tile)
    → Tiles f e prev a (x ∷ y ∷ ys)
    → f a ≡ record { size = x.size; free = x.free; next = behind a x; prev = prev }
Tiles-next f e prev a x y ys t =
    t.0
    ∙ ap {A = ℕ} (λ l. record { size = x.size; free = x.free; next = l; prev = prev })
        (ground (arith, t.2.1))

module _ (f : Blocks) (e prev a : ℕ) (below : e + 64 < 2 ^ 32) (ha : a ≢ null) where
  Tiles-merge :
      (x y : Tile) (ys : List Tile)
      → Tiles f e prev a (x ∷ y ∷ ys)
      → y.free ≡ true
      → Does f (absorb_next f a) e prev a (tile (x.size + (16 + y.size)) x.free ∷ ys)
  Tiles-merge x y ys t h =
      let c = behind a x in
      let nx = link e (behind c y) in
      let at_a = Tiles-next f e prev a x y ys t in
      let same =
        absorb-else f a x.size y.size nx prev a x.free y.free c at_a t.2.0 (omega arith)
          (omega arith) (ground (arith, t.2.1)) (omega (arith, t.2.1, below)) in
      let end : behind c y ≡ behind a (tile (x.size + (16 + y.size)) x.free) = omega arith in
      let here =
        absorb-here f a x.size y.size nx prev a x.free y.free c at_a t.2.0 (omega arith)
          (omega arith) (ground (arith, t.2.1)) (omega (arith, t.2.1, below)) h in
      let next : behind c y ≢ e
          → absorb_next f a (behind c y) ≡ record (f (behind c y)) { prev = a } =
        λ hne.
          subst (λ l. absorb_next f a l ≡ record (f l) { prev = a }) (ground (arith, hne))
            (absorb-next f a x.size y.size nx prev a x.free y.free c at_a t.2.0 (omega arith)
              (omega arith) (ground (arith, t.2.1)) (omega (arith, t.2.1, below)) h
              (ground (arith, hne))) in
      (
        (
          here
              ∙ ap {A = ℕ}
                  (λ l. record {
                    size = x.size + (16 + y.size);
                    free = x.free;
                    next = link e l;
                    prev = prev;
                  })
                  end,
          omega (arith, t.2.1),
          subst (λ l. Tiles (absorb_next f a) e a l ys) end
              (Tiles-reprev f (absorb_next f a) e c a (behind c y) ys t.2.2 next
                (λ b hb. same b (omega (arith, hb)) (ground (arith, hb)))),
        ),
        λ b hb. same b (omega (arith, hb)) (ground (arith, hb, t.2.1)),
      )

  pub Tiles-absorb :
      (x : Tile) (xs : List Tile)
      → Tiles f e prev a (x ∷ xs)
      → Does f (absorb_next f a) e prev a (absorb x xs)
  Tiles-absorb x [] t =
      subst (λ g. Does f g e prev a (x ∷ []))
        (sym (absorb_next-last f a (ground (arith, t.0, t.2)))) (t, λ b hb. refl)
  Tiles-absorb x (y ∷ ys) t = elim (Bool-cases y.free) [
    | inl h ↦
        subst (Does f (absorb_next f a) e prev a) {x = tile (x.size + (16 + y.size)) x.free ∷ ys}
          (ground (arith, h)) (Tiles-merge x y ys t h)
    | inr h ↦ subst (Does f (absorb_next f a) e prev a) {x = x ∷ y ∷ ys} (ground (arith, h)) (
        subst (λ g. Does f g e prev a (x ∷ y ∷ ys))
          (sym (absorb_next-used f a (ground (arith, Tiles-next f e prev a x y ys t, t.2.0, h))))
          (t, λ b hb. refl))
  ]

  pub Tiles-join :
      (w x : Tile) (xs : List Tile)
      → Tiles f e prev a (w ∷ x ∷ xs)
      → x.free ≡ true
      → Does f
          (join_prev f (behind a w))
          e
          prev
          a
          (if w.free then absorb w (x ∷ xs) else w ∷ x ∷ xs)
  Tiles-join w x xs t h =
      let c = behind a w in
      let join =
        join_prev-absorb f a w.size x.size (link e (behind c x)) prev a w.free x.free c
          (Tiles-next f e prev a w x xs t) t.2.0 (omega arith) (omega arith) (ground (arith, t.2.1))
          (omega (arith, t.2.1, below)) refl ha h in
      subst (λ g. Does f g e prev a (if w.free then absorb w (x ∷ xs) else w ∷ x ∷ xs)) (sym join)
        (Does-if f (absorb_next f a) e prev a w.free (absorb w (x ∷ xs)) (w ∷ x ∷ xs)
          (Tiles-absorb w (x ∷ xs) t) (t, λ b hb. refl))

  pub Tiles-mark :
      (x : Tile) (xs : List Tile)
      → Tiles f e prev a (x ∷ xs)
      → Does f (mark f a) e prev a (tile x.size true ∷ xs)
  Tiles-mark x xs t = (
    (
      ground (arith, mark-at f a a, t.0),
      t.1,
      Tiles-frame f (mark f a) e a (behind a x) xs t.2 (λ b hb. ground (arith, mark-at f a b)),
    ),
    λ b hb. ground (arith, mark-at f a b),
  )
