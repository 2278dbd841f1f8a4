-- ===== src/Cpu/Descriptors.antt =====
-- What the processor reads from the descriptors of kernel/cpu/gdt.c.
use nexus_kernel.Prelude.{
  ℕ, zero, suc, ◌+◌, ◌*◌, ◌/◌, ◌%◌, ◌^◌, ◌<◌, ◌≤◌, ◌≡◌, ◌≢◌, refl, true, ◌==◌, leb, if◌then◌else◌,
  bit_or, arith,
}
use nexus_kernel.Prelude.Words.{passes_below, passes_at}
use nexus_kernel.Cpu.Gdt.{GdtEntry, Gdt, tss_size, encode, gdt_set_gate, tss_init, gdt_init}

-- The base, the limit, the ring and the four upper flags of a descriptor, by the processor's layout.
abbrev pub base_of : GdtEntry → ℕ
base_of e = e.base_low + e.base_middle * 2 ^ 16 + e.base_high * 2 ^ 24

abbrev pub limit_of : GdtEntry → ℕ
limit_of e = e.limit_low + e.granularity % 16 * 2 ^ 16

abbrev pub ring_of : GdtEntry → ℕ
ring_of e = e.access / 32 % 4

abbrev pub flags_of : GdtEntry → ℕ
flags_of e = e.granularity / 16

nibbles : (low high : ℕ) → low < 16 → high < 16 → bit_or low (high * 16) ≡ high * 16 + low
unfolding passes_below
nibbles low high hl hh =
    let n = high * 16 + low in
    let at_n = passes_at (λ k. bit_or (k % 16) (k / 16 * 16) == k) 256 refl n (omega arith) in
    let rest : n % 16 ≡ low = omega arith in
    let quotient : n / 16 ≡ high = omega arith in go n rest quotient at_n
  where
    go :
        (n : ℕ)
        → n % 16 ≡ low
        → n / 16 ≡ high
        → (bit_or (n % 16) (n / 16 * 16) == n) ≡ true
        → bit_or low (high * 16) ≡ high * 16 + low
    go n rest quotient h = ground (arith, rest, quotient, h)

-- From the descriptor that `gdt_set_gate` stores at an index for a 32-bit base, the processor reads
-- that base, the limit's lower 20 bits, the access byte, and the upper four bits of `gran`; every
-- other descriptor is as before.
pub gdt_set_gate_lem :
    (g : Gdt) (num base limit access gran other : ℕ)
    → base < 2 ^ 32
    → other ≢ num
    → let g' = gdt_set_gate g num base limit access gran in
      let e = g'.gdt_entries num in
      (base_of e ≡ base)
      × (limit_of e ≡ limit % 2 ^ 20)
      × (e.access ≡ access)
      × (flags_of e ≡ gran / 16 % 16)
      × (g'.gdt_entries other ≡ g.gdt_entries other)
unfolding gdt_set_gate encode
gdt_set_gate_lem g num base limit access gran other hb ne =
    let joined = nibbles (limit / 2 ^ 16 % 16) (gran / 16 % 16) (omega arith) (omega arith) in
    (
      ground (arith, hb),
      ground (arith, joined),
      ground arith,
      ground (arith, joined),
      ground (arith, ne),
    )

-- After `gdt_init`, each of the segments 1 to 4 has base 0 and the limit 0xFFFFF in pages, and is
-- of ring 0 for the first two and of ring 3 for the others; and the task state segment's descriptor
-- has the address of the struct as its base, if it and the struct's end are below 2^32.
gdt_init_lem :
    (entries_address tss_address i : ℕ) (g : Gdt)
    → 1 ≤ i
    → i ≤ 4
    → tss_address + tss_size < 2 ^ 32
    → let g' = gdt_init entries_address tss_address g in
      let e = g'.gdt_entries i in
      (base_of e ≡ 0)
      × (limit_of e ≡ 0xFFFFF)
      × (flags_of e ≡ 0xC)
      × (ring_of e ≡ (if leb 3 i then 3 else 0))
      × (base_of (g'.gdt_entries 5) ≡ tss_address)
unfolding gdt_init tss_init gdt_set_gate encode
gdt_init_lem a t zero g lo hi h = absurd (omega arith)
gdt_init_lem a t (suc zero) g lo hi h = (refl, refl, refl, refl, omega (arith, h))
gdt_init_lem a t (suc (suc zero)) g lo hi h = (refl, refl, refl, refl, omega (arith, h))
gdt_init_lem a t (suc (suc (suc zero))) g lo hi h = (refl, refl, refl, refl, omega (arith, h))
gdt_init_lem a t (suc (suc (suc (suc zero)))) g lo hi h = (refl, refl, refl, refl, omega (arith, h))
gdt_init_lem a t (suc (suc (suc (suc (suc i))))) g lo hi h = absurd (omega arith)

-- The limit in the task state segment's descriptor is not the struct's last byte, 103, but the
-- lower 20 bits of the address behind the struct.
tss_limit :
    (entries_address tss_address : ℕ) (g : Gdt)
    → tss_address + tss_size < 2 ^ 32
    → limit_of ((gdt_init entries_address tss_address g).gdt_entries 5)
      ≡ (tss_address + tss_size) % 2 ^ 20
unfolding gdt_init tss_init gdt_set_gate encode
tss_limit a t g h =
    let joined = nibbles ((t + tss_size) % 2 ^ 32 / 2 ^ 16 % 16) 0 (omega arith) (omega arith) in
    omega (arith, h, joined)
