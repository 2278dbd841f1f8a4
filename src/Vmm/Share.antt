-- ===== src/Vmm/Share.antt =====
-- `vmm_create_address_space` and `vmm_destroy_address_space` of kernel/memory/vmm.c: a new
-- directory has the kernel's mappings, and destroying it gives its frame back.
use nexus_kernel.Prelude.{
  ℕ, zero, suc, ◌+◌, ◌*◌, ◌/◌, ◌%◌, ◌^◌, ◌≤◌, ◌<◌, ◌≡◌, ◌≢◌, refl, sym, subst, ◌∙◌, true, false,
  not, ◌&&◌, ◌==◌, if◌then◌else◌, arith, inl, inr, ◌⊎◌, Bool-cases,
}
use nexus_kernel.Pmm.{Pmm, alloc_frame}
use nexus_kernel.Pmm.Valid.{IsValid, used}
use nexus_kernel.Pmm.Reuse.{free_frame-alloc_frame}
use nexus_kernel.Vmm.{
  Vmm, Memory, store_word, clear, directory_size, entry_at, physical_at, word_at, is_present,
  page_of, table_idx, page_idx, copy_entry, copy_entries, create_address_space, free_tables,
  destroy_address_space, get_physical,
}
use nexus_kernel.Vmm.Space.{entry, leaf, get_physical-leaf, get_physical-step}

-- One entry is copied, and only that.
copy_entry-other :
    (i kernel dir : ℕ) (m : Memory) (p : ℕ) → p ≢ entry_at dir i → copy_entry i kernel dir m p ≡ m p
unfolding copy_entry store_word
copy_entry-other i kernel dir m p h = ground arith

copy_entry-entry :
    (i kernel dir : ℕ) (m : Memory)
    → copy_entry i kernel dir m (entry_at dir i)
      ≡ (if is_present (m (entry_at kernel i)) then m (entry_at kernel i) else m (entry_at dir i))
unfolding copy_entry store_word
copy_entry-entry i kernel dir m = ground arith

-- The words of `dir` that the loop does not reach stay.
copy_entries-other :
    (rounds i kernel dir : ℕ) (m : Memory) (p : ℕ)
    → (p < dir + 4 * i) ⊎ (dir + 4 * (i + rounds) ≤ p)
    → copy_entries rounds i kernel dir m p ≡ m p
unfolding copy_entries
copy_entries-other zero i kernel dir m p h = refl
copy_entries-other (suc rounds) i kernel dir m p h =
    copy_entries-other rounds (i + 1) kernel dir (copy_entry i kernel dir m) p (ground arith)
    ∙ copy_entry-other i kernel dir m p (ground arith)

-- The other entries are the kernel's where those are present.
copy_entries-entry :
    (rounds i kernel dir : ℕ) (m : Memory) (j : ℕ)
    → (kernel + 4096 ≤ dir) ⊎ (dir + 4096 ≤ kernel)
    → i + rounds ≤ 1024
    → i ≤ j
    → j < i + rounds
    → copy_entries rounds i kernel dir m (entry_at dir j)
      ≡ (if is_present (m (entry_at kernel j)) then m (entry_at kernel j) else m (entry_at dir j))
unfolding copy_entries
copy_entries-entry zero i kernel dir m j far hr lo hi = absurd (omega arith)
copy_entries-entry (suc rounds) i kernel dir m j far hr lo hi = elim (Bool-cases (i == j)) [
  | inl same ↦
      let e : i ≡ j = ground (arith, same) in
      copy_entries-other rounds (i + 1) kernel dir (copy_entry i kernel dir m) (entry_at dir j)
        (inl (omega (arith, e)))
      ∙ subst
          (λ (k : ℕ). copy_entry i kernel dir m (entry_at dir k) ≡ (
            if is_present (m (entry_at kernel k))
            then m (entry_at kernel k)
            else m (entry_at dir k)))
          e (copy_entry-entry i kernel dir m)
  | inr apart ↦
      let ne : i ≢ j = ground (arith, apart) in
      let own = copy_entry-other i kernel dir m (entry_at dir j) (omega arith) in
      let kernels = copy_entry-other i kernel dir m (entry_at kernel j) (omega arith) in
      rw (sym own) (
        rw (sym kernels) (
          copy_entries-entry rounds (i + 1) kernel dir (copy_entry i kernel dir m) j far
            (omega arith) (omega arith) (omega arith)))
]

-- The three pages from `dir` on are none of those of the kernel's directory and tables.
pub record IsClear (v : Vmm) (dir : ℕ) : Type 0 where
  pub kernel_aligned : v.kernel_directory % 4096 ≡ 0
  pub aligned : dir % 4096 ≡ 0
  pub apart :
      (v.kernel_directory / 4096 + 2 < dir / 4096) ⊎ (dir / 4096 + 2 < v.kernel_directory / 4096)
  pub tables :
      (i : ℕ)
      → i < 1024
      → is_present (entry v v.kernel_directory i) ≡ true
      → (entry v v.kernel_directory i / 4096 < dir / 4096)
        ⊎ (dir / 4096 + 2 < entry v v.kernel_directory i / 4096)

module _ (v : Vmm) (dir : ℕ) (p' : Pmm) (c : IsClear v dir) where
  abbrev cleared : Memory
  cleared = store_word (clear v.memory dir directory_size) (physical_at dir) dir

  abbrev shared : Vmm
  shared = record v { frames = p'; memory = copy_entries 1024 0 v.kernel_directory dir cleared }

  cleared-outside : (p : ℕ) → (p < dir) ⊎ (dir + directory_size ≤ p) → cleared p ≡ v.memory p
  unfolding store_word clear
  cleared-outside p h = ground arith

  cleared-zero : (j : ℕ) → j < 1024 → cleared (entry_at dir j) ≡ 0
  unfolding store_word clear
  cleared-zero j hj = ground arith

  shared-outside : (p : ℕ) → (p < dir) ⊎ (dir + directory_size ≤ p) → shared.memory p ≡ v.memory p
  shared-outside p h =
      copy_entries-other 1024 0 v.kernel_directory dir cleared p (ground arith)
      ∙ cleared-outside p h

  shared-physical : shared.memory (physical_at dir) ≡ dir
  unfolding store_word
  shared-physical =
      copy_entries-other 1024 0 v.kernel_directory dir cleared (physical_at dir) (ground arith)
      ∙ ground arith

  shared-kernel :
      (j : ℕ) → j < 1024 → entry shared v.kernel_directory j ≡ entry v v.kernel_directory j
  shared-kernel j hj = shared-outside (entry_at v.kernel_directory j) (ground (arith, c.apart))

  shared-entry :
      (j : ℕ)
      → j < 1024
      → entry shared dir j
        ≡ (if is_present (entry v v.kernel_directory j) then entry v v.kernel_directory j else 0)
  shared-entry j hj =
      let kernels = cleared-outside (entry_at v.kernel_directory j) (ground (arith, c.apart)) in
      let e =
        copy_entries-entry 1024 0 v.kernel_directory dir cleared j (ground (arith, c.apart))
          (omega arith) (omega arith) (omega arith) in
      e ∙ rw kernels (rw (cleared-zero j hj) refl)

  shared-word :
      (j k : ℕ)
      → j < 1024
      → k < 1024
      → is_present (entry v v.kernel_directory j) ≡ true
      → shared.memory (word_at (page_of (entry v v.kernel_directory j)) k)
        ≡ v.memory (word_at (page_of (entry v v.kernel_directory j)) k)
  shared-word j k hj hk p = shared-outside _ (ground (arith, c.tables j hj p, c.aligned))

  shared-leaf :
      (other : ℕ) → other < 2 ^ 32 → leaf shared dir other ≡ leaf v v.kernel_directory other
  unfolding leaf
  shared-leaf other h =
      let e = shared-entry (table_idx other) (omega (arith, h)) in
      elim (Bool-cases (is_present (entry v v.kernel_directory (table_idx other)))) [
        | inl p ↦ rw e (
            rw p (
              rw p (
                shared-word (table_idx other) (page_idx other) (omega (arith, h)) (omega arith) p)))
        | inr p ↦ rw e (rw p refl)
      ]

  shared-leaf_kernel :
      (other : ℕ)
      → other < 2 ^ 32
      → leaf shared v.kernel_directory other ≡ leaf v v.kernel_directory other
  unfolding leaf
  shared-leaf_kernel other h =
      let e = shared-kernel (table_idx other) (omega (arith, h)) in
      elim (Bool-cases (is_present (entry v v.kernel_directory (table_idx other)))) [
        | inl p ↦ rw e (
            rw p
              (shared-word (table_idx other) (page_idx other) (omega (arith, h)) (omega arith) p))
        | inr p ↦ rw e (rw p refl)
      ]

  shared-subset :
      (j : ℕ)
      → j < 1024
      → is_present (entry shared dir j) ≡ true
      → is_present (entry shared v.kernel_directory j) ≡ true
  shared-subset j hj p =
      let e = shared-entry j hj in
      let k = shared-kernel j hj in
      elim (Bool-cases (is_present (entry v v.kernel_directory j))) [
        | inl q ↦ rw k q
        | inr q ↦ absurd (empty (entry shared dir j) (ground (arith, e, q)) p)
      ]
    where
      empty : (w : ℕ) → w ≡ 0 → is_present w ≢ true
      empty w z h = ground arith

-- If `vmm_create_address_space` finds a frame, and the three pages from it on are clear of the
-- kernel's directory and tables, it returns the frame's address, and each 32-bit address, of the
-- lower half as of the upper, then stands in the new directory and in the kernel's for what it
-- stood for in the kernel's before.
pub create_address_space_lem :
    (v : Vmm) (other : ℕ)
    → (alloc_frame v.frames).0 ≢ 0
    → IsClear v (alloc_frame v.frames).0
    → other < 2 ^ 32
    → let (dir, v') = create_address_space v in
      (dir ≡ (alloc_frame v.frames).0)
      × (get_physical v' dir other ≡ get_physical v v.kernel_directory other)
      × (get_physical v' v'.kernel_directory other ≡ get_physical v v.kernel_directory other)
unfolding create_address_space
create_address_space_lem v other ne c h =
    let a = (alloc_frame v.frames).0 in
    let p' = (alloc_frame v.frames).1 in
    let found : (a == 0) ≡ false = ground (arith, ne) in
    let before = sym (get_physical-leaf v v.kernel_directory other) in
    rw found (
      refl,
      get_physical-step (shared v a p' c) a other _ (shared-leaf v a p' c other h) ∙ before,
      get_physical-step (shared v a p' c) v.kernel_directory other _
            (shared-leaf_kernel v a p' c other h)
          ∙ before,
    )

-- No table is freed where the kernel has one.
free_tables-none :
    (rounds i kernel dir : ℕ) (m : Memory) (p : Pmm)
    → ((j : ℕ)
        → i ≤ j
        → j < i + rounds
        → is_present (m (entry_at dir j)) ≡ true
        → is_present (m (entry_at kernel j)) ≡ true)
    → free_tables rounds i kernel dir m p ≡ p
unfolding free_tables
free_tables-none zero i kernel dir m p shared = refl
free_tables-none (suc rounds) i kernel dir m p shared =
    let no : (is_present (m (entry_at dir i)) && not (is_present (m (entry_at kernel i)))) ≡ false =
      ground (arith, shared i (omega arith) (omega arith)) in
    rw no (
      free_tables-none rounds (i + 1) kernel dir m p
        (λ j lo hi. shared j (omega arith) (omega arith)))

-- If `vmm_create_address_space` finds a frame in a valid allocator, and the three pages from it on
-- are clear of the kernel's directory and tables, `vmm_destroy_address_space` of its result gives
-- back the set of used frames and the counter as they were before.
pub destroy_address_space-create_address_space :
    (v : Vmm) (f : ℕ)
    → IsValid v.frames
    → (alloc_frame v.frames).0 ≢ 0
    → IsClear v (alloc_frame v.frames).0
    → let (dir, v') = create_address_space v in
      let v'' = destroy_address_space v' dir in
      (used v''.frames f ≡ used v.frames f) × (v''.frames.used_frames ≡ v.frames.used_frames)
unfolding create_address_space destroy_address_space
destroy_address_space-create_address_space v f valid ne c =
    let a = (alloc_frame v.frames).0 in
    let p' = (alloc_frame v.frames).1 in
    let found : (a == 0) ≡ false = ground (arith, ne) in
    let other : (a == v.kernel_directory) ≡ false = ground (arith, c.apart) in
    let freed = free_frame-alloc_frame v.frames valid ne in
    let none_freed =
      free_tables-none 1024 0 v.kernel_directory a (shared v a p' c).memory p'
        (λ j lo hi p. shared-subset v a p' c j hi p) in
    rw found
      (rw found (rw other (rw none_freed (rw (shared-physical v a p' c) (freed.0 f, freed.1)))))
