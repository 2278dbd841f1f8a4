-- ===== src/Vmm/Write.antt =====
-- One word of a page table of kernel/memory/vmm.c is written.
use nexus_kernel.Prelude.{
  ℕ, ◌+◌, ◌/◌, ◌^◌, ◌<◌, ◌≡◌, ◌≢◌, sym, subst, true, ◌&&◌, ◌==◌, if◌then◌else◌, arith, ◌⊎◌,
}
use nexus_kernel.Pmm.Valid.{IsValid, used}
use nexus_kernel.Vmm.{Vmm, store_word, word_at, is_present, page_of, table_idx, page_idx}
use nexus_kernel.Vmm.Space.{entry, IsSpace, leaf}

-- The entries and the frames in use are the same.
pub same-IsSpace :
    (v v' : Vmm) (dir : ℕ)
    → IsSpace v dir
    → ((i : ℕ) → i < 1024 → entry v' dir i ≡ entry v dir i)
    → IsValid v'.frames
    → ((f : ℕ) → used v.frames f ≡ true → used v'.frames f ≡ true)
    → IsSpace v' dir
same-IsSpace v v' dir s same valid more = record {
  valid = valid;
  aligned = s.aligned;
  first = more (dir / 4096) s.first;
  second = more (dir / 4096 + 1) s.second;
  third = more (dir / 4096 + 2) s.third;
  in_use = λ i hi p.
      subst (λ (e : ℕ). used v'.frames (e / 4096) ≡ true) (sym (same i hi))
        (more (entry v dir i / 4096) (s.in_use i hi (was i hi p)));
  not_null =
      λ i hi p. subst (λ (e : ℕ). e / 4096 ≢ 0) (sym (same i hi)) (s.not_null i hi (was i hi p));
  outside = λ i hi p.
      subst (λ (e : ℕ). (e / 4096 < dir / 4096) ⊎ (dir / 4096 + 2 < e / 4096)) (sym (same i hi))
        (s.outside i hi (was i hi p));
  apart = λ i j hi hj ne p q.
      ground (arith, s.apart i j hi hj ne (was i hi p) (was j hj q), same i hi, same j hj);
}
  where
    was :
        (i : ℕ) → i < 1024 → is_present (entry v' dir i) ≡ true → is_present (entry v dir i) ≡ true
    was i hi p = subst (λ (e : ℕ). is_present e ≡ true) (same i hi) p

module _ (v : Vmm) (dir i k w : ℕ) (s : IsSpace v dir) (hi : i < 1024) (hk : k < 1024)
    (p : is_present (entry v dir i) ≡ true) where
  -- A word of a table is written.
  abbrev pub write_word : Vmm
  write_word = record v { memory = store_word v.memory (word_at (page_of (entry v dir i)) k) w }

  write_word-entry : (j : ℕ) → j < 1024 → entry write_word dir j ≡ entry v dir j
  unfolding store_word
  write_word-entry j hj = ground (arith, s.outside i hi p, s.aligned)

  pub write_word-IsSpace : IsSpace write_word dir
  write_word-IsSpace = same-IsSpace v write_word dir s write_word-entry s.valid (λ f h. h)

  pub write_word-leaf :
      (virt : ℕ)
      → virt < 2 ^ 32
      → leaf write_word dir virt
        ≡ (if table_idx virt == i && page_idx virt == k then w else leaf v dir virt)
  unfolding leaf store_word
  write_word-leaf virt h = ground (
    arith,
    write_word-entry (table_idx virt) (omega (arith, h)),
    s.apart i (table_idx virt) hi (omega (arith, h)),
    p,
    s.outside i hi p,
    s.aligned,
  )
