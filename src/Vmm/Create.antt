-- ===== src/Vmm/Create.antt =====
-- A page table that `get_or_create_table` of kernel/memory/vmm.c makes.
use nexus_kernel.Prelude.{
  ℕ, ◌+◌, ◌/◌, ◌%◌, ◌^◌, ◌<◌, ◌≡◌, ◌≢◌, refl, sym, subst, true, false, ◌==◌, if◌then◌else◌, arith,
  inl, inr, ◌⊎◌, Bool-cases,
}
use nexus_kernel.Pmm.{Pmm}
use nexus_kernel.Pmm.Valid.{IsValid, used}
use nexus_kernel.Vmm.{
  Vmm, store_word, clear, word_at, is_present, page_of, table_idx, page_idx, directory_entry,
  create_table,
}
use nexus_kernel.Vmm.Space.{entry, IsSpace, leaf, directory_entry_lem}

-- A new table in the frame `a`, which was free.
module _ (v : Vmm) (dir i flags a : ℕ) (p' : Pmm) (s : IsSpace v dir) (hi : i < 1024)
    (hf : flags < 4096) (ne : a ≢ 0) (no_table : is_present (entry v dir i) ≡ false)
    (valid : IsValid p') (aligned : a % 4096 ≡ 0) (was_free : used v.frames (a / 4096) ≡ false)
    (marked : (j : ℕ) → used p' j ≡ (if a / 4096 == j then true else used v.frames j)) where
  abbrev pub with_table : Vmm
  with_table = create_table (record v { frames = p' }) dir i flags a

  -- The new table is outside of the directory.
  outside_dir : (a / 4096 < dir / 4096) ⊎ (dir / 4096 + 2 < a / 4096)
  outside_dir = ground (arith, s.first, s.second, s.third, was_free)

  with_table-other : (j : ℕ) → j < 1024 → j ≢ i → entry with_table dir j ≡ entry v dir j
  unfolding create_table store_word clear
  with_table-other j hj nj = ground (arith, outside_dir, s.aligned, aligned)

  with_table-new : entry with_table dir i ≡ directory_entry a flags
  unfolding create_table store_word clear
  with_table-new = ground (arith, outside_dir, s.aligned, aligned)

  pub with_table-page :
      (entry with_table dir i / 4096 ≡ a / 4096) × (is_present (entry with_table dir i) ≡ true)
  with_table-page =
      let d = directory_entry_lem a flags aligned hf in
      (omega (arith, with_table-new, d.0), ground (arith, with_table-new, d.1))

  with_table-had :
      (j : ℕ)
      → j < 1024
      → j ≢ i
      → is_present (entry with_table dir j) ≡ true
      → is_present (entry v dir j) ≡ true
  with_table-had j hj nj p = subst (λ (e : ℕ). is_present e ≡ true) (with_table-other j hj nj) p

  with_table-frames : with_table.frames ≡ p'
  unfolding create_table
  with_table-frames = refl

  -- The entry `e` of the index `j` is the new one, or one from before.
  abbrev NewOrOld : ℕ → ℕ → Type 0
  NewOrOld j e =
      ((j ≡ i) × (e / 4096 ≡ a / 4096))
      ⊎ ((j ≢ i) × (e ≡ entry v dir j) × (is_present (entry v dir j) ≡ true))

  with_table-NewOrOld :
      (j : ℕ)
      → j < 1024
      → is_present (entry with_table dir j) ≡ true
      → NewOrOld j (entry with_table dir j)
  with_table-NewOrOld j hj p = elim (Bool-cases (j == i)) [
    | inl same ↦
        let e : j ≡ i = ground (arith, same) in
        inl
          (e, subst (λ (k : ℕ). entry with_table dir k / 4096 ≡ a / 4096) (sym e) with_table-page.0)
    | inr other ↦
        let n : j ≢ i = ground (arith, other) in
        inr (n, with_table-other j hj n, with_table-had j hj n p)
  ]

  NewOrOld-used : (j e : ℕ) → j < 1024 → NewOrOld j e → used p' (e / 4096) ≡ true
  NewOrOld-used j e hj (inl (_, c)) = ground (arith, marked (e / 4096), c)
  NewOrOld-used j e hj (inr (_, c, p)) = ground (arith, marked (e / 4096), c, s.in_use j hj p)

  NewOrOld-not_null : (j e : ℕ) → j < 1024 → NewOrOld j e → e / 4096 ≢ 0
  NewOrOld-not_null j e hj (inl (_, c)) = ground (arith, c, aligned, ne)
  NewOrOld-not_null j e hj (inr (_, c, p)) = ground (arith, s.not_null j hj p, c)

  NewOrOld-outside :
      (j e : ℕ) → j < 1024 → NewOrOld j e → (e / 4096 < dir / 4096) ⊎ (dir / 4096 + 2 < e / 4096)
  NewOrOld-outside j e hj (inl (_, c)) = ground (arith, outside_dir, c)
  NewOrOld-outside j e hj (inr (_, c, p)) = ground (arith, s.outside j hj p, c)

  -- A table from before is in another frame than the new one.
  old-apart :
      (j : ℕ) → j < 1024 → is_present (entry v dir j) ≡ true → entry v dir j / 4096 ≢ a / 4096
  old-apart j hj p e = ground (arith, s.in_use j hj p, was_free, e)

  NewOrOld-apart :
      (j k e e' : ℕ)
      → j < 1024
      → k < 1024
      → j ≢ k
      → NewOrOld j e
      → NewOrOld k e'
      → e / 4096 ≢ e' / 4096
  NewOrOld-apart j k e e' hj hk d (inl (x, c)) (inl (y, c')) = ground arith
  NewOrOld-apart j k e e' hj hk d (inl (x, c)) (inr (y, c', q)) = ground (arith, old-apart k hk q)
  NewOrOld-apart j k e e' hj hk d (inr (x, c, p)) (inl (y, c')) = ground (arith, old-apart j hj p)
  NewOrOld-apart j k e e' hj hk d (inr (x, c, p)) (inr (y, c', q)) =
      ground (arith, s.apart j k hj hk d p q)

  pub with_table-IsSpace : IsSpace with_table dir
  with_table-IsSpace = record {
    valid = rw with_table-frames valid;
    aligned = s.aligned;
    first = rw with_table-frames (ground (arith, marked (dir / 4096), s.first));
    second = rw with_table-frames (ground (arith, marked (dir / 4096 + 1), s.second));
    third = rw with_table-frames (ground (arith, marked (dir / 4096 + 2), s.third));
    in_use = λ j hj p. rw with_table-frames (NewOrOld-used j _ hj (with_table-NewOrOld j hj p));
    not_null = λ j hj p. NewOrOld-not_null j _ hj (with_table-NewOrOld j hj p);
    outside = λ j hj p. NewOrOld-outside j _ hj (with_table-NewOrOld j hj p);
    apart = λ j k hj hk d p q.
        NewOrOld-apart j k _ _ hj hk d (with_table-NewOrOld j hj p) (with_table-NewOrOld k hk q);
  }

  -- The words of the other tables are kept, and the new table has zeros.
  with_table-memory :
      (j k : ℕ)
      → j < 1024
      → k < 1024
      → is_present (entry v dir j) ≡ true
      → with_table.memory (word_at (page_of (entry v dir j)) k)
        ≡ v.memory (word_at (page_of (entry v dir j)) k)
  unfolding create_table store_word clear
  with_table-memory j k hj hk p =
      ground (arith, s.outside j hj p, old-apart j hj p, s.aligned, aligned)

  with_table-zero :
      (k : ℕ) → k < 1024 → with_table.memory (word_at (page_of (entry with_table dir i)) k) ≡ 0
  unfolding create_table store_word clear
  with_table-zero k hk = ground (arith, with_table-page.0, aligned)

  abbrev pub word_of : Vmm → ℕ → ℕ → ℕ
  word_of u j k =
      if is_present (entry u dir j) then u.memory (word_at (page_of (entry u dir j)) k) else 0

  with_table-word : (j k : ℕ) → j < 1024 → k < 1024 → word_of with_table j k ≡ word_of v j k
  with_table-word j k hj hk = elim (Bool-cases (j == i)) [
    | inl same ↦
        let e : j ≡ i = ground (arith, same) in
        subst (λ (t : ℕ). word_of with_table t k ≡ word_of v t k) (sym e)
          (rw no_table (rw with_table-page.1 (with_table-zero k hk)))
    | inr other ↦
        let e = with_table-other j hj (ground (arith, other)) in
        rw e (elim (Bool-cases (is_present (entry v dir j))) [
          | inl p ↦ rw p (with_table-memory j k hj hk p)
          | inr p ↦ rw p refl
        ])
  ]

  pub with_table-leaf : (virt : ℕ) → virt < 2 ^ 32 → leaf with_table dir virt ≡ leaf v dir virt
  unfolding leaf
  with_table-leaf virt h =
      with_table-word (table_idx virt) (page_idx virt) (omega (arith, h)) (omega arith)
