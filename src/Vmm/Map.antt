-- ===== src/Vmm/Map.antt =====
-- `vmm_map_page` and `vmm_unmap_page` of kernel/memory/vmm.c change one page's mapping and no other.
use nexus_kernel.Prelude.{
  ℕ, ◌+◌, ◌/◌, ◌%◌, ◌^◌, ◌<◌, ◌≡◌, refl, sym, subst, ◌∙◌, true, false, ◌&&◌, ◌==◌, if◌then◌else◌,
  arith, inl, inr, ◌⊎◌, Bool-cases,
}
use nexus_kernel.Vmm.{
  Vmm, is_present, page_of, table_idx, page_idx, table_entry, get_or_create_table, map_page,
  unmap_page, get_physical,
}
use nexus_kernel.Vmm.Space.{
  entry, IsSpace, leaf, translate, get_physical-leaf, get_physical-step, table_entry_lem,
}
use nexus_kernel.Vmm.Write.{write_word, write_word-IsSpace, write_word-leaf}
use nexus_kernel.Vmm.Table.{has_room, Kept, HasTable, NoTable, get_or_create_table_lem}

-- A word written to the table of `virt` decides about the addresses in its page alone.
write_word-get_physical :
    (v : Vmm) (dir virt w other : ℕ) (s : IsSpace v dir) (hv : virt < 2 ^ 32)
    (p : is_present (entry v dir (table_idx virt)) ≡ true)
    → other < 2 ^ 32
    → get_physical
        (write_word v dir (table_idx virt) (page_idx virt) w s (omega (arith, hv)) (omega arith) p)
        dir
        other
      ≡ (if other / 4096 == virt / 4096 then translate w other else get_physical v dir other)
write_word-get_physical v dir virt w other s hv p ho =
    let e =
      write_word-leaf v dir (table_idx virt) (page_idx virt) w s (omega (arith, hv)) (omega arith) p
        other ho in
    elim (Bool-cases (other / 4096 == virt / 4096)) [
      | inl same ↦ rw same (get_physical-step _ dir other w (e ∙ ground (arith, same)))
      | inr apart ↦ rw apart (
          get_physical-step _ dir other (leaf v dir other) (e ∙ ground (arith, apart))
          ∙ sym (get_physical-leaf v dir other))
    ]

Kept-get_physical :
    (v v' : Vmm) (dir other : ℕ)
    → Kept v dir v'
    → other < 2 ^ 32
    → get_physical v' dir other ≡ get_physical v dir other
Kept-get_physical v v' dir other k h =
    get_physical-step v' dir other _ (k other h) ∙ sym (get_physical-leaf v dir other)

table_entry-translate :
    (phys flags other : ℕ) → translate (table_entry phys flags) other ≡ page_of phys + other % 4096
table_entry-translate phys flags other =
    let e = table_entry_lem phys flags in ground (arith, e.0, e.1)

no_table-get_physical :
    (v : Vmm) (dir virt : ℕ)
    → is_present (entry v dir (table_idx virt)) ≡ false
    → get_physical v dir virt ≡ 0
unfolding get_physical
no_table-get_physical v dir virt p = rw p refl

-- From a well-formed directory, with a 32-bit address and flags below 4096, `vmm_map_page` leads to
-- a well-formed directory. If the address has a table or a frame is free for one, every address of
-- its page now stands for the one in the page of `phys` at the same offset; otherwise, and in all
-- other pages, each 32-bit address stands for what it did before.
pub map_page_lem :
    (v : Vmm) (dir virt phys flags other : ℕ)
    → IsSpace v dir
    → virt < 2 ^ 32
    → flags < 4096
    → other < 2 ^ 32
    → let v' = map_page v dir virt phys flags in
      IsSpace v' dir
      × (get_physical v' dir other ≡ (
          if other / 4096 == virt / 4096 && has_room v dir virt
          then page_of phys + other % 4096
          else get_physical v dir other))
unfolding map_page
map_page_lem v dir virt phys flags other s hv hf ho =
    go (get_or_create_table_lem v dir (table_idx virt) flags s (omega (arith, hv)) hf)
  where
    table : ℕ
    table = (get_or_create_table v dir (table_idx virt) flags).0

    v1 : Vmm
    v1 = (get_or_create_table v dir (table_idx virt) flags).1

    go :
        HasTable v dir (table_idx virt) table v1 ⊎ NoTable v dir (table_idx virt) table v1
        → let v' = map_page v dir virt phys flags in
          IsSpace v' dir
          × (get_physical v' dir other ≡ (
              if other / 4096 == virt / 4096 && has_room v dir virt
              then page_of phys + other % 4096
              else get_physical v dir other))
    go (inl t) =
        let w = table_entry phys flags in
        let not_null : (table == 0) ≡ false = ground (arith, t.not_null) in
        rw not_null (
          rw t.page (
            write_word-IsSpace v1 dir (table_idx virt) (page_idx virt) w t.space (omega (arith, hv))
                (omega arith) t.there,
            write_word-get_physical v1 dir virt w other t.space hv t.there ho
                ∙ ground (
                  arith,
                  t.room,
                  table_entry-translate phys flags other,
                  Kept-get_physical v v1 dir other t.kept ho,
                ),
          ))
    go (inr t) =
        let is_null : (table == 0) ≡ true = ground (arith, t.is_null) in
        rw is_null (t.space, Kept-get_physical v v1 dir other t.kept ho ∙ ground (arith, t.no_room))

-- From a well-formed directory `vmm_unmap_page` of a 32-bit address leads to a well-formed
-- directory, in which no address of its page stands for one, and every other 32-bit address stands
-- for what it did.
unmap_page_lem :
    (v : Vmm) (dir virt other : ℕ)
    → IsSpace v dir
    → virt < 2 ^ 32
    → other < 2 ^ 32
    → let v' = unmap_page v dir virt in
      IsSpace v' dir
      × (get_physical v' dir other
          ≡ (if other / 4096 == virt / 4096 then 0 else get_physical v dir other))
unfolding unmap_page
unmap_page_lem v dir virt other s hv ho =
    elim (Bool-cases (is_present (entry v dir (table_idx virt)))) [
      | inl p ↦ rw p (
        write_word-IsSpace v dir (table_idx virt) (page_idx virt) 0 s (omega (arith, hv))
            (omega arith) p,
        write_word-get_physical v dir virt 0 other s hv p ho,
      )
      | inr p ↦ rw p (s, unchanged p)
    ]
  where
    unchanged :
        is_present (entry v dir (table_idx virt)) ≡ false
        → get_physical v dir other
          ≡ (if other / 4096 == virt / 4096 then 0 else get_physical v dir other)
    unchanged p = elim (Bool-cases (other / 4096 == virt / 4096)) [
      | inl same ↦ rw same (
          no_table-get_physical v dir other
            (subst (λ (i : ℕ). is_present (entry v dir i) ≡ false) (ground (arith, same)) p))
      | inr apart ↦ rw apart refl
    ]

-- After `vmm_map_page` and `vmm_unmap_page` of one page from a well-formed directory, with 32-bit
-- addresses and flags below 4096, no address of the page stands for one, and every other is as it
-- was before both calls.
pub unmap_page-map_page :
    (v : Vmm) (dir virt phys flags other : ℕ)
    → IsSpace v dir
    → virt < 2 ^ 32
    → flags < 4096
    → other < 2 ^ 32
    → get_physical (unmap_page (map_page v dir virt phys flags) dir virt) dir other
      ≡ (if other / 4096 == virt / 4096 then 0 else get_physical v dir other)
unmap_page-map_page v dir virt phys flags other s hv hf ho =
    let mapped = map_page_lem v dir virt phys flags other s hv hf ho in
    let unmapped = unmap_page_lem (map_page v dir virt phys flags) dir virt other mapped.0 hv ho in
    ground (arith, mapped.1, unmapped.1)
