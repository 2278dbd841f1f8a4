-- ===== src/Vmm/Table.antt =====
-- `get_or_create_table` of kernel/memory/vmm.c on every branch.
use nexus_kernel.Prelude.{
  ℕ, ◌^◌, ◌<◌, ◌≡◌, ◌≢◌, refl, sym, subst, Bool, true, false, not, ◌||◌, ◌==◌, arith, inl, inr, ◌⊎◌,
  Bool-cases,
}
use nexus_kernel.Pmm.{Pmm, alloc_frame}
use nexus_kernel.Pmm.Valid.{IsValid, used}
use nexus_kernel.Pmm.Alloc.{Allocated, Refused, alloc_frame_lem}
use nexus_kernel.Vmm.{Vmm, null, is_present, page_of, table_idx, create_table, get_or_create_table}
use nexus_kernel.Vmm.Space.{entry, IsSpace, leaf}
use nexus_kernel.Vmm.Write.{same-IsSpace}
use nexus_kernel.Vmm.Create.{with_table-page, with_table-IsSpace, with_table-leaf}

-- There is a table for `virt`, or a frame for one.
abbrev pub has_room : Vmm → ℕ → ℕ → Bool
has_room v dir virt =
    is_present (entry v dir (table_idx virt)) || not ((alloc_frame v.frames).0 == null)

-- A step from a well-formed directory that leaves all addresses as they were.
abbrev pub Kept : Vmm → ℕ → Vmm → Type 0
Kept v dir v' = (other : ℕ) → other < 2 ^ 32 → leaf v' dir other ≡ leaf v dir other

-- The directory has the table of index `i`, and all addresses are as they were.
pub record HasTable (v : Vmm) (dir i table : ℕ) (v' : Vmm) : Type 0 where
  pub space : IsSpace v' dir
  pub there : is_present (entry v' dir i) ≡ true
  pub page : table ≡ page_of (entry v' dir i)
  pub not_null : table ≢ 0
  pub room : is_present (entry v dir i) || not ((alloc_frame v.frames).0 == null) ≡ true
  pub kept : Kept v dir v'

-- There was no such table, and no frame for it.
pub record NoTable (v : Vmm) (dir i table : ℕ) (v' : Vmm) : Type 0 where
  pub space : IsSpace v' dir
  pub missing : is_present (entry v dir i) ≡ false
  pub is_null : table ≡ 0
  pub no_room : is_present (entry v dir i) || not ((alloc_frame v.frames).0 == null) ≡ false
  pub kept : Kept v dir v'

same_memory-Kept : (v : Vmm) (p' : Pmm) (dir : ℕ) → Kept v dir (record v { frames = p' })
unfolding leaf
same_memory-Kept v p' dir other h = refl

pub get_or_create_table_lem :
    (v : Vmm) (dir i flags : ℕ)
    → IsSpace v dir
    → i < 1024
    → flags < 4096
    → let (table, v') = get_or_create_table v dir i flags in
      HasTable v dir i table v' ⊎ NoTable v dir i table v'
unfolding get_or_create_table
get_or_create_table_lem v dir i flags s hi hf = elim (Bool-cases (is_present (entry v dir i))) [
  | inl p ↦ rw p (
      inl (record {
        space = s;
        there = p;
        page = refl;
        not_null = ground (arith, s.not_null i hi p);
        room = ground (arith, p);
        kept = λ other h. refl;
      }))
  | inr p ↦ rw p (elim (Bool-cases (a == 0)) [
    | inl z ↦ rw z (
        inr (record {
          space = same-IsSpace v (record v { frames = p' }) dir s (λ j h. refl) got.0 more;
          missing = p;
          is_null = refl;
          no_room = ground (arith, p, z);
          kept = same_memory-Kept v p' dir;
        }))
    | inr n ↦ rw n (inl (created (ground (arith, n)) p got.1))
  ])
]
  where
    a : ℕ
    a = (alloc_frame v.frames).0

    p' : Pmm
    p' = (alloc_frame v.frames).1

    got : IsValid p' × (Allocated v.frames a p' ⊎ Refused v.frames a p')
    got = alloc_frame_lem v.frames s.valid

    more : (f : ℕ) → used v.frames f ≡ true → used p' f ≡ true
    more f h = go got.1
      where
        go : Allocated v.frames a p' ⊎ Refused v.frames a p' → used p' f ≡ true
        go (inl al) = ground (arith, al.marked f)
        go (inr r) = subst (λ (q : Pmm). used q f ≡ true) (sym r.same) h

    created :
        a ≢ 0
        → is_present (entry v dir i) ≡ false
        → Allocated v.frames a p' ⊎ Refused v.frames a p'
        → HasTable v dir i a (create_table (record v { frames = p' }) dir i flags a)
    created ne p (inr r) = absurd (ne r.null)
    created ne p (inl al) =
        let page =
          with_table-page v dir i flags a p' s hi hf ne p got.0 al.aligned al.was_free al.marked in
        record {
          space =
              with_table-IsSpace v dir i flags a p' s hi hf ne p got.0 al.aligned al.was_free
                al.marked;
          there = page.1;
          page = omega (arith, page.0, al.aligned);
          not_null = ne;
          room = ground (arith, p, ne);
          kept =
              with_table-leaf v dir i flags a p' s hi hf ne p got.0 al.aligned al.was_free
                al.marked;
        }
