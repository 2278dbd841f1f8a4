-- ===== src/Pmm/Boot/Init.antt =====
-- `pmm_init` of kernel/memory/pmm.c as a whole: the frames that are free after it.
use Prim.Native.Nat.{min, max}
use mathlib.Core.List.{foldl}
use nexus_kernel.Prelude.{
  ℕ, ◌+◌, ◌-◌, ◌*◌, ◌/◌, ◌%◌, ◌≤◌, ◌<◌, ◌≡◌, ◌≢◌, refl, sym, ◌∙◌, ◌^◌, Bool, true, false, not, ◌&&◌,
  ◌||◌, arith, ltb, leb, ◌==◌, inl, inr, Bool-cases, List, [], ◌∷◌, some, bit_and,
}
use nexus_kernel.Prelude.Words.{add32}
use nexus_kernel.Pmm.{Pmm, page_size, bitmap_size}
use nexus_kernel.Pmm.Valid.{IsValid, used}
use nexus_kernel.Pmm.Boot.{
  MmapEntry, MultibootInfo, memory_available, frame_start, frame_end, release_region, region_end,
  cap_frames, all_used, init, reserve_frames, release_frames,
}
use nexus_kernel.Pmm.Boot.Walk.{entries, Steps, walk-foldl}
use nexus_kernel.Pmm.Boot.Regions.{
  Shows, Shows-ext, without, with_frames, release_frames-Shows, reserve_frames-Shows, all_bits,
  all_used-Shows,
}

-- The entry is available memory, `f` is below `total`, and all bytes of the frame `f` lie in the entry.
abbrev pub covers : ℕ → MmapEntry → ℕ → Bool
covers total e f =
    e.kind == 1 && (leb e.addr (4096 * f) && (leb (4096 * (f + 1)) (e.addr + e.len) && ltb f total))

-- An available entry does not begin in the last page below 4 GB or behind it, and ends below 4 GB.
abbrev pub in_range : MmapEntry → Bool
in_range e = not (e.kind == 1) || (leb e.addr (2 ^ 32 - 4096) && ltb (e.addr + e.len) (2 ^ 32))

abbrev pub InRange : List MmapEntry → Type 0
InRange [] = Unit
InRange (e ∷ es) = (in_range e ≡ true) × InRange es

-- What `release_region` takes.
abbrev takes : ℕ → MmapEntry → ℕ → Bool
takes total e f =
    e.kind == memory_available && (leb (frame_start e) f && (ltb f (frame_end e) && ltb f total))

takes-covers :
    (total : ℕ) (e : MmapEntry) (f : ℕ) → in_range e ≡ true → takes total e f ≡ covers total e f
unfolding frame_start frame_end
takes-covers total e f h = ground (arith, h)

abbrev pub covered : ℕ → List MmapEntry → ℕ → Bool
covered total [] f = false
covered total (e ∷ es) f = covers total e f || covered total es f

-- No frame lies in two available entries of the map.
abbrev pub Apart : ℕ → List MmapEntry → Type 0
Apart total [] = Unit
Apart total (e ∷ es) =
    ((f : ℕ) → covers total e f ≡ true → covered total es f ≡ false) × Apart total es

abbrev minus : (ℕ → Bool) → (ℕ → Bool) → ℕ → Bool
minus u c f = not (c f) && u f

release_region-takes :
    (e : MmapEntry) (u : ℕ → Bool) (total : ℕ) (p : Pmm)
    → Shows u total p
    → ((f : ℕ) → takes total e f ≡ true → u f ≡ true)
    → Shows (minus u (takes total e)) total (release_region p e)
unfolding release_region release_frames
release_region-takes e u total p s full = elim (Bool-cases (e.kind == memory_available)) [
  | inl avail ↦ rw avail (elim (Bool-cases (ltb lo hi)) [
    | inl some_frames ↦
        Shows-ext (without lo (lo + (hi - lo)) u) _ (λ f. ground (arith, s.total_is))
          (release_frames-Shows (hi - lo) lo u total p s (ground (arith, s.total_is))
            (λ j a b. full j (ground (arith, s.total_is))))
    | inr no_frames ↦
        let none_left : hi - lo ≡ 0 = ground arith in
        rw (none_left, release_frames) (Shows-ext u _ (λ f. ground (arith, s.total_is)) s)
  ])
  | inr other ↦ rw other (Shows-ext u _ (λ f. ground arith) s)
]
  where
    lo : ℕ
    lo = frame_start e

    hi : ℕ
    hi = min (frame_end e) p.total_frames

release_region-Shows :
    (e : MmapEntry) (u : ℕ → Bool) (total : ℕ) (p : Pmm)
    → Shows u total p
    → in_range e ≡ true
    → ((f : ℕ) → covers total e f ≡ true → u f ≡ true)
    → Shows (minus u (covers total e)) total (release_region p e)
release_region-Shows e u total p s fits full =
    Shows-ext (minus u (takes total e)) _ (λ f. rw (takes-covers total e f fits) refl)
      (release_region-takes e u total p s (λ f c. full f (sym (takes-covers total e f fits) ∙ c)))

foldl-Shows :
    (es : List MmapEntry) (u : ℕ → Bool) (total : ℕ) (p : Pmm)
    → Shows u total p
    → InRange es
    → Apart total es
    → ((f : ℕ) → covered total es f ≡ true → u f ≡ true)
    → Shows (minus u (covered total es)) total (foldl release_region p es)
foldl-Shows [] u total p s fits apart full = Shows-ext u _ (λ f. refl) s
foldl-Shows (e ∷ es) u total p s fits apart full =
    Shows-ext (minus (minus u (covers total e)) (covered total es)) _ (λ f. ground arith)
      (foldl-Shows es (minus u (covers total e)) total (release_region p e)
        (release_region-Shows e u total p s fits.0 (λ f c. ground (arith, full f))) fits.1 apart.1
        (λ f c. ground (arith, full f, apart.0 f)))

pub cap_frames-le : (n : ℕ) → cap_frames n ≤ bitmap_size * 8
unfolding cap_frames
cap_frames-le n = ground arith

covered-below : (total : ℕ) (es : List MmapEntry) (f : ℕ) → covered total es f ≡ true → f < total
covered-below total [] f h = cc
covered-below total (e ∷ es) f h = ground (arith, covered-below total es f)

-- Where the map ends.
abbrev pub map_end : MultibootInfo → ℕ
map_end mbi = add32 mbi.mmap_addr mbi.mmap_length

-- The highest end of an entry, cut to 32 bits.
abbrev pub highest_end : List MmapEntry → ℕ
highest_end [] = 0
highest_end (e ∷ es) = max ((e.addr + e.len) % 2 ^ 32) (highest_end es)

foldl-region_end : (es : List MmapEntry) (m : ℕ) → foldl region_end m es ≡ max m (highest_end es)
unfolding region_end
foldl-region_end [] m = ground arith
foldl-region_end (e ∷ es) m = foldl-region_end es (region_end m e) ∙ ground arith

module _ (fuel : ℕ) (entry_at : ℕ → MmapEntry) (mbi : MultibootInfo) where
  -- The entries of the boot loader's map.
  abbrev pub map_entries : List MmapEntry
  map_entries = entries entry_at fuel mbi.mmap_addr (map_end mbi)

  -- The number of frames below the highest end of an entry, but no more than the bitmap has bits.
  abbrev pub map_frames : ℕ
  map_frames = min (8 * bitmap_size) (highest_end map_entries / 4096)

  map_frames-le : map_frames ≤ bitmap_size * 8
  map_frames-le = ground arith

  found_frames : cap_frames (foldl region_end 0 map_entries / page_size) ≡ map_frames
  unfolding cap_frames
  found_frames = rw (foldl-region_end map_entries 0) (ground arith)

  -- With the map flag set, a map whose entries do not run past the address space, available entries
  -- below 4 GB that do not begin in the last page, no frame in two of them, and fuel for each byte
  -- of the map, `pmm_init` ends in a valid state, with as many frames as lie below the highest end
  -- of an entry, cut to 32 bits, but no more than the bitmap has bits, in which a frame is free
  -- exactly when it is above the first megabyte and all its bytes lie in an available entry.
  pub init_lem :
      bit_and mbi.flags 0x20 ≢ 0
      → Steps entry_at (map_end mbi)
      → map_end mbi - mbi.mmap_addr < fuel
      → InRange map_entries
      → Apart map_frames map_entries
      → (p : Pmm) × (init fuel entry_at mbi ≡ some p)
        × IsValid p
        × (p.total_frames ≡ map_frames)
        × ((f : ℕ)
            → f < map_frames
            → used p f ≡ (ltb f 256 || not (covered map_frames map_entries f)))
  unfolding init
  init_lem flag steps enough fits apart = (
    reserve_frames 256 0 released,
    ends,
    final.valid,
    final.total_is,
    λ f h. final.frames f ∙ ground (arith, map_frames-le),
  )
    where
      start : Pmm
      start = all_used map_frames

      released : Pmm
      released = foldl release_region start map_entries

      ends : init fuel entry_at mbi ≡ some (reserve_frames 256 0 released)
      ends =
          let set : (bit_and mbi.flags 0x20 == 0) ≡ false = ground arith in
          rw (
            set,
            walk-foldl entry_at region_end fuel mbi.mmap_addr (map_end mbi) 0 steps enough,
            found_frames,
            walk-foldl entry_at release_region fuel mbi.mmap_addr (map_end mbi) start steps enough,
          )

      middle : Shows (minus all_bits (covered map_frames map_entries)) map_frames released
      middle =
          foldl-Shows map_entries all_bits map_frames start
            (all_used-Shows map_frames map_frames-le) fits apart
            (λ f c. ground (arith, covered-below map_frames map_entries f c, map_frames-le))

      final :
          Shows
            (with_frames 0 256 (minus all_bits (covered map_frames map_entries)))
            map_frames
            (reserve_frames 256 0 released)
      final =
          reserve_frames-Shows 256 0 _ map_frames released middle
            λ j lo hi past. ground (arith, covered-below map_frames map_entries j)
