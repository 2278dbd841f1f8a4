-- ===== src/Cpu/Tests.antt =====
-- gdt.c and idt.c at concrete states: the theorems at inputs that meet their conditions.
use nexus_kernel.Prelude.{◌+◌, ◌*◌, ◌/◌, ◌%◌, ◌^◌, ◌≡◌, if◌then◌else◌, arith, []}
use nexus_kernel.Cpu.Gdt.{Gdt, gdt_set_gate}
use nexus_kernel.Cpu.Descriptors.{base_of, limit_of, flags_of, gdt_set_gate_lem}
use nexus_kernel.Cpu.Idt.{Idt, zero_entry, no_handler, kernel_cs, idt_init}
use nexus_kernel.Cpu.Gates.{address_of, ring_of, has_gate, idt_init_lem}

abbrev no_segments : Gdt
no_segments = record {
  gdt_entries = λ i. record {
    limit_low = 0;
    base_low = 0;
    base_middle = 0;
    access = 0;
    granularity = 0;
    base_high = 0;
  };
  ptr_limit = 0;
  ptr_base = 0;
  tss = record {
    esp0 = 0;
    ss0 = 0;
    es = 0;
    cs = 0;
    ss = 0;
    ds = 0;
    fs = 0;
    gs = 0;
    iomap_base = 0;
  };
}

gdt_set_gate_lem_example :
    let g' = gdt_set_gate no_segments 3 0x12345678 0xFFFFF 0xFA 0xCF in
    let e = g'.gdt_entries 3 in
    (base_of e ≡ 0x12345678)
    × (limit_of e ≡ 0xFFFFF % 2 ^ 20)
    × (e.access ≡ 0xFA)
    × (flags_of e ≡ 0xCF / 16 % 16)
    × (g'.gdt_entries 2 ≡ no_segments.gdt_entries 2)
gdt_set_gate_lem_example =
    gdt_set_gate_lem no_segments 3 0x12345678 0xFFFFF 0xFA 0xCF 2 (omega arith)
      (λ e. absurd (omega (arith, e)))

abbrev empty : Idt
empty = record {
  idt_entries = λ n. zero_entry;
  isr_handlers = λ n. no_handler;
  ptr_limit = 0;
  ptr_base = 0;
  outs = [];
}

idt_init_lem_example :
    let i' = idt_init 0x100200 (λ n. 0x100000 + 16 * n) empty in
    let e = i'.idt_entries 33 in
    (address_of e ≡ (if has_gate 33 then 0x100000 + 16 * 33 else 0))
    × (e.sel ≡ (if has_gate 33 then kernel_cs else 0))
    × (ring_of e ≡ (if has_gate 33 then 3 else 0))
    × (e.flags ≡ (if has_gate 33 then 0xEE else 0))
    × (e.always0 ≡ 0)
    × (i'.isr_handlers 33 ≡ no_handler)
idt_init_lem_example = idt_init_lem 0x100200 33 (λ n. 0x100000 + 16 * n) empty (omega arith)
