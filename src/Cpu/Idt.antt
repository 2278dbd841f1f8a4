-- ===== src/Cpu/Idt.antt =====
-- kernel/cpu/idt.c: the gates, the interrupt controller and the table of handlers. `stub n` is the
-- address of the assembly code for interrupt n (isr0 to isr31, irq0 to irq15 and isr128); the bytes
-- that are written to ports are kept in order. A handler is named by the function that is
-- registered.
use nexus_kernel.Prelude.{
  ℕ, zero, suc, ◌+◌, ◌-◌, ◌*◌, ◌/◌, ◌%◌, ◌^◌, ◌==◌, if◌then◌else◌, ltb, leb, bit_or, List, [], ◌∷◌,
  ◌++◌,
}

pub record IdtEntry : Type 0 where
  pub base_low : ℕ
  pub sel : ℕ
  pub always0 : ℕ
  pub flags : ℕ
  pub base_high : ℕ

-- The functions that the kernel registers.
pub data Handler : Type 0 where
  no_handler : Handler
  timer_callback : Handler
  keyboard_callback : Handler
  syscall_handler : Handler

-- A byte written to a port.
pub record Out : Type 0 where
  pub port : ℕ
  pub byte : ℕ

pub record Idt : Type 0 where
  pub idt_entries : ℕ → IdtEntry
  pub isr_handlers : ℕ → Handler
  pub ptr_limit : ℕ
  pub ptr_base : ℕ
  pub outs : List Out

abbrev pub pic1_cmd : ℕ
pic1_cmd = 0x20

abbrev pub pic1_data : ℕ
pic1_data = 0x21

abbrev pub pic2_cmd : ℕ
pic2_cmd = 0xA0

abbrev pub pic2_data : ℕ
pic2_data = 0xA1

abbrev pub kernel_cs : ℕ
kernel_cs = 0x08

unfoldable pub outb : ℕ → ℕ → Idt → Idt
outb port byte i = record i { outs = i.outs ++ (record { port = port; byte = byte } ∷ []) }

unfoldable pub idt_set_gate : Idt → ℕ → ℕ → ℕ → ℕ → Idt
idt_set_gate i num base sel flags = record i {
  idt_entries = λ n.
      if n == num
      then record {
        base_low = base % 2 ^ 16;
        base_high = base / 2 ^ 16 % 2 ^ 16;
        sel = sel;
        always0 = 0;
        flags = bit_or flags 0x60;
      }
      else i.idt_entries n;
}

unfoldable pub pic_remap : Idt → Idt
pic_remap i =
    let i1 = outb pic2_cmd 0x11 (outb pic1_cmd 0x11 i) in
    let i2 = outb pic2_data 0x28 (outb pic1_data 0x20 i1) in
    let i3 = outb pic2_data 0x02 (outb pic1_data 0x04 i2) in
    let i4 = outb pic2_data 0x01 (outb pic1_data 0x01 i3) in
    outb pic2_data 0x00 (outb pic1_data 0x00 i4)

abbrev pub zero_entry : IdtEntry
zero_entry = record { base_low = 0; sel = 0; always0 = 0; flags = 0; base_high = 0 }

-- The calls of `idt_set_gate` for the interrupts 0 to 47, from `num` on, with the calls left.
unfoldable pub set_gates : ℕ → ℕ → (ℕ → ℕ) → Idt → Idt
set_gates zero num stub i = i
set_gates (suc calls) num stub i =
    set_gates calls (num + 1) stub (idt_set_gate i num (stub num) kernel_cs 0x8E)

unfoldable pub idt_init : ℕ → (ℕ → ℕ) → Idt → Idt
idt_init entries_address stub i =
    let cleared = record i {
      idt_entries = λ n. zero_entry;
      isr_handlers = λ n. no_handler;
      ptr_limit = 8 * 256 - 1;
      ptr_base = entries_address;
    } in
    idt_set_gate (set_gates 48 0 stub (pic_remap cleared)) 128 (stub 128) kernel_cs 0xEE

unfoldable pub isr_register_handler : Idt → ℕ → Handler → Idt
isr_register_handler i n handler = record i {
  isr_handlers = λ m. if m == n then handler else i.isr_handlers m;
}

-- What `isr_handler` does: it calls a handler, stops the machine, or returns.
pub data Reaction : Type 0 where
  calls : Handler → Reaction
  stops : Reaction
  returns : Reaction

abbrev pub reaction : Handler → ℕ → Reaction
reaction no_handler int_no = if ltb int_no 32 then stops else returns
reaction handler int_no = calls handler

unfoldable pub isr_handler : Idt → ℕ → Reaction
isr_handler i int_no = reaction (i.isr_handlers int_no) int_no

-- The bytes that `irq_handler` writes before it calls the handler, which is that of the table.
unfoldable pub acknowledge : Idt → ℕ → Idt
acknowledge i int_no =
    let i1 = if leb 40 int_no then outb pic2_cmd 0x20 i else i in outb pic1_cmd 0x20 i1
