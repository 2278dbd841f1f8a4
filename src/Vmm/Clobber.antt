-- ===== src/Vmm/Clobber.antt =====
-- The page directory of kernel/memory/vmm.c is larger than the one frame that is allocated for it:
-- the array `tables_physical` lies in the frame behind it, where `vmm_init` puts the table of the
-- first 4 MB.
use nexus_kernel.Prelude.{
  ℕ, ◌+◌, ◌*◌, ◌/◌, ◌%◌, ◌^◌, ◌≤◌, ◌<◌, ◌≡◌, ◌≢◌, true, false, arith, ◌==◌, inl, inr, ◌⊎◌,
}
use nexus_kernel.Pmm.{Pmm, alloc_frame}
use nexus_kernel.Pmm.Valid.{IsValid, used}
use nexus_kernel.Pmm.Alloc.{Allocated, Refused, alloc_frame_lem}
use nexus_kernel.Vmm.{
  Vmm, store_word, clear, entry_at, word_at, is_present, page_of, table_idx, page_idx, table_entry,
  create_table, get_or_create_table, map_page, get_physical,
}
use nexus_kernel.Vmm.Space.{entry}

-- The directory and the table of index 0 right behind it are in use.
pub record IsTight (v : Vmm) (dir : ℕ) : Type 0 where
  pub valid : IsValid v.frames
  pub aligned : dir % 4096 ≡ 0
  pub first : used v.frames (dir / 4096) ≡ true
  pub second : used v.frames (dir / 4096 + 1) ≡ true
  pub behind : page_of (entry v dir 0) ≡ dir + 4096
  pub there : is_present (entry v dir 0) ≡ true

-- The new table `a` of index `i` is entered, and a word is written to it.
module _ (v : Vmm) (dir i flags a k w : ℕ) (p' : Pmm) (aligned : dir % 4096 ≡ 0)
    (a_aligned : a % 4096 ≡ 0) (not_dir : a / 4096 ≢ dir / 4096)
    (not_table : a / 4096 ≢ dir / 4096 + 1) (positive : 0 < i) (hi : i < 1024) (hk : k < 1024) where
  abbrev entered : Vmm
  entered = create_table (record v { frames = p' }) dir i flags a

  entered-entry : store_word entered.memory (word_at a k) w (entry_at dir 0) ≡ entry v dir 0
  unfolding store_word clear create_table
  entered-entry = ground arith

  entered-word : store_word entered.memory (word_at a k) w (word_at (dir + 4096) i) ≡ a
  unfolding store_word clear create_table
  entered-word = ground arith

-- An address whose word is not present stands for none.
absent-get_physical :
    (u : Vmm) (dir virt e word : ℕ)
    → entry u dir (table_idx virt) ≡ e
    → u.memory (word_at (page_of e) (page_idx virt)) ≡ word
    → is_present word ≡ false
    → get_physical u dir virt ≡ 0
unfolding get_physical
absent-get_physical u dir virt e word he hw p = rw he (rw hw (ground (arith, p)))

-- In a directory with the table of index 0 right behind it, let a 32-bit address not below 4 MB
-- have no table, and let a frame be free. Mapping the address then removes the mapping of the page
-- of the first 4 MB whose number is the index of the new table: its addresses stand for none.
pub map_page_clobbers :
    (v : Vmm) (dir virt phys flags offset : ℕ)
    → IsTight v dir
    → 2 ^ 22 ≤ virt
    → virt < 2 ^ 32
    → is_present (entry v dir (table_idx virt)) ≡ false
    → (alloc_frame v.frames).0 ≢ 0
    → offset < 4096
    → get_physical (map_page v dir virt phys flags) dir (4096 * table_idx virt + offset) ≡ 0
unfolding map_page get_or_create_table create_table
map_page_clobbers v dir virt phys flags offset t lo hi p ne ho =
    let n : ((alloc_frame v.frames).0 == 0) ≡ false = ground (arith, ne) in
    rw p (rw n (rw n (go (alloc_frame_lem v.frames t.valid))))
  where
    a : ℕ
    a = (alloc_frame v.frames).0

    p' : Pmm
    p' = (alloc_frame v.frames).1

    go :
        IsValid p' × (Allocated v.frames a p' ⊎ Refused v.frames a p')
        → get_physical
            (record v {
              frames = p';
              memory =
                  store_word
                    (create_table (record v { frames = p' }) dir (table_idx virt) flags a).memory
                    (word_at a (page_idx virt))
                    (table_entry phys flags);
            })
            dir
            (4096 * table_idx virt + offset)
          ≡ 0
    go (valid, inr r) = absurd (ne r.null)
    go (valid, inl al) =
        let virt0 = 4096 * table_idx virt + offset in
        let not_dir : a / 4096 ≢ dir / 4096 = ground (arith, al.was_free, t.first) in
        let not_table : a / 4096 ≢ dir / 4096 + 1 = ground (arith, al.was_free, t.second) in
        let first : table_idx virt0 ≡ 0 = omega (arith, hi, ho) in
        let page : page_idx virt0 ≡ table_idx virt = omega (arith, hi, ho) in
        let e =
          entered-entry v dir (table_idx virt) flags a (page_idx virt) (table_entry phys flags) p'
            t.aligned al.aligned not_dir not_table (omega (arith, lo)) (omega (arith, hi))
            (omega arith) in
        let w =
          entered-word v dir (table_idx virt) flags a (page_idx virt) (table_entry phys flags) p'
            t.aligned al.aligned not_dir not_table (omega (arith, lo)) (omega (arith, hi))
            (omega arith) in
        absent-get_physical _ dir virt0 (entry v dir 0) a (rw first e) (rw page (rw t.behind w))
          (ground (arith, al.aligned))
