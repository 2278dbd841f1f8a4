-- ===== src/Cpu/Gdt.antt =====
-- kernel/cpu/gdt.c: the segment descriptors and the task state segment. `tss_address` is the
-- address of the static struct `tss`, and `entries_address` that of the table.
use nexus_kernel.Prelude.{ℕ, ◌-◌, ◌*◌, ◌/◌, ◌%◌, ◌^◌, ◌==◌, if◌then◌else◌, bit_or}
use nexus_kernel.Prelude.Words.{add32}

pub record GdtEntry : Type 0 where
  pub limit_low : ℕ
  pub base_low : ℕ
  pub base_middle : ℕ
  pub access : ℕ
  pub granularity : ℕ
  pub base_high : ℕ

-- The fields of the task state segment that the code sets; all others are zero.
pub record TssEntry : Type 0 where
  pub esp0 : ℕ
  pub ss0 : ℕ
  pub es : ℕ
  pub cs : ℕ
  pub ss : ℕ
  pub ds : ℕ
  pub fs : ℕ
  pub gs : ℕ
  pub iomap_base : ℕ

pub record Gdt : Type 0 where
  pub gdt_entries : ℕ → GdtEntry
  pub ptr_limit : ℕ
  pub ptr_base : ℕ
  pub tss : TssEntry

-- sizeof(tss_entry_t)
abbrev pub tss_size : ℕ
tss_size = 104

unfoldable pub encode : ℕ → ℕ → ℕ → ℕ → GdtEntry
encode base limit access gran = record {
  limit_low = limit % 2 ^ 16;
  base_low = base % 2 ^ 16;
  base_middle = base / 2 ^ 16 % 256;
  access = access;
  granularity = bit_or (limit / 2 ^ 16 % 16) (gran / 16 % 16 * 16);
  base_high = base / 2 ^ 24 % 256;
}

unfoldable pub gdt_set_gate : Gdt → ℕ → ℕ → ℕ → ℕ → ℕ → Gdt
gdt_set_gate g num base limit access gran = record g {
  gdt_entries = λ i. if i == num then encode base limit access gran else g.gdt_entries i;
}

unfoldable pub tss_init : ℕ → Gdt → ℕ → ℕ → Gdt
tss_init tss_address g ss0 esp0 =
    let limit = add32 tss_address tss_size in
    let segment = bit_or 0x10 0x3 in
    record (gdt_set_gate g 5 tss_address limit 0xE9 0x00) {
      tss = record {
        esp0 = esp0;
        ss0 = ss0;
        es = segment;
        cs = bit_or 0x08 0x3;
        ss = segment;
        ds = segment;
        fs = segment;
        gs = segment;
        iomap_base = tss_size;
      };
    }

unfoldable pub gdt_init : ℕ → ℕ → Gdt → Gdt
gdt_init entries_address tss_address g =
    let g0 = record g { ptr_limit = 8 * 6 - 1; ptr_base = entries_address } in
    let g1 = gdt_set_gate g0 0 0 0 0 0 in
    let g2 = gdt_set_gate g1 1 0 0xFFFFFFFF 0x9A 0xCF in
    let g3 = gdt_set_gate g2 2 0 0xFFFFFFFF 0x92 0xCF in
    let g4 = gdt_set_gate g3 3 0 0xFFFFFFFF 0xFA 0xCF in
    let g5 = gdt_set_gate g4 4 0 0xFFFFFFFF 0xF2 0xCF in tss_init tss_address g5 0x10 0

unfoldable pub tss_set_kernel_stack : Gdt → ℕ → Gdt
tss_set_kernel_stack g esp0 = record g { tss = record (g.tss) { esp0 = esp0 } }
