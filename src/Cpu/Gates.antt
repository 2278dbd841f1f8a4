-- ===== src/Cpu/Gates.antt =====
-- What the processor reads from the gates of kernel/cpu/idt.c, and what the interrupt controller gets.
use nexus_kernel.Prelude.{
  ℕ, zero, suc, ◌+◌, ◌*◌, ◌/◌, ◌%◌, ◌^◌, ◌<◌, ◌≡◌, Bool, Bool-cases, inl, inr, refl, sym, ◌∙◌, ap,
  ◌&&◌, ◌||◌, ◌==◌, leb, ltb, if◌then◌else◌, arith, [], ◌∷◌, ◌++◌,
}
use nexus_kernel.Cpu.Idt.{
  IdtEntry, Handler, no_handler, Idt, outb, idt_set_gate, pic_remap, zero_entry, kernel_cs,
  set_gates, idt_init, acknowledge, pic1_cmd, pic2_cmd,
}

-- The address of a gate, and the ring that may call it.
abbrev pub address_of : IdtEntry → ℕ
address_of e = e.base_low + e.base_high * 2 ^ 16

abbrev pub ring_of : IdtEntry → ℕ
ring_of e = e.flags / 32 % 4

-- The gate that `idt_init` sets for an interrupt.
abbrev pub gate : ℕ → IdtEntry
gate base = record {
  base_low = base % 2 ^ 16;
  sel = kernel_cs;
  always0 = 0;
  flags = 0xEE;
  base_high = base / 2 ^ 16 % 2 ^ 16;
}

set_gates-entry :
    (calls num n : ℕ) (stub : ℕ → ℕ) (i : Idt)
    → (set_gates calls num stub i).idt_entries n
      ≡ (if leb num n && ltb n (num + calls) then gate (stub n) else i.idt_entries n)
unfolding set_gates idt_set_gate
set_gates-entry zero num n stub i = ground arith
set_gates-entry (suc calls) num n stub i =
    set_gates-entry calls (num + 1) n stub (idt_set_gate i num (stub num) kernel_cs 0x8E)
    ∙ ground (arith, same)
  where
    same : n ≡ num → gate (stub num) ≡ gate (stub n)
    same e = ap (λ k. gate (stub k)) (sym e)

-- The interrupt has a gate.
abbrev pub has_gate : ℕ → Bool
has_gate n = ltb n 48 || n == 128

outs-set_gates :
    (calls num : ℕ) (stub : ℕ → ℕ) (i : Idt)
    → ((set_gates calls num stub i).outs ≡ i.outs)
      × ((set_gates calls num stub i).isr_handlers ≡ i.isr_handlers)
unfolding set_gates idt_set_gate
outs-set_gates zero num stub i = (refl, refl)
outs-set_gates (suc calls) num stub i =
    outs-set_gates calls (num + 1) stub (idt_set_gate i num (stub num) kernel_cs 0x8E)

idt_init-entry :
    (entries_address n : ℕ) (stub : ℕ → ℕ) (i : Idt)
    → (idt_init entries_address stub i).idt_entries n
      ≡ (if has_gate n then gate (stub n) else zero_entry)
unfolding idt_init idt_set_gate pic_remap outb
idt_init-entry a n stub i = elim (Bool-cases (n == 128)) [
  | inl h ↦ rw h (ground (arith, h, same))
  | inr h ↦ rw h (set_gates-entry 48 0 n stub _ ∙ ground (arith, h))
]
  where
    same : n ≡ 128 → gate (stub 128) ≡ gate (stub n)
    same e = ap (λ k. gate (stub k)) (sym e)

idt_init-handlers :
    (entries_address n : ℕ) (stub : ℕ → ℕ) (i : Idt)
    → (idt_init entries_address stub i).isr_handlers n ≡ no_handler
unfolding idt_init idt_set_gate pic_remap outb
idt_init-handlers a n stub i = ap (λ (f : ℕ → Handler). f n) (outs-set_gates 48 0 stub _).1

-- After `idt_init`, with a 32-bit address for the interrupt's code, the gate of an interrupt below
-- 48 or of interrupt 128 has that address and the kernel's code segment, is a present 32-bit
-- interrupt gate, and may be called from ring 3; every field of any other gate is zero, so that it
-- is not present; and no interrupt has a handler.
pub idt_init_lem :
    (entries_address n : ℕ) (stub : ℕ → ℕ) (i : Idt)
    → stub n < 2 ^ 32
    → let i' = idt_init entries_address stub i in
      let e = i'.idt_entries n in
      (address_of e ≡ (if has_gate n then stub n else 0))
      × (e.sel ≡ (if has_gate n then kernel_cs else 0))
      × (ring_of e ≡ (if has_gate n then 3 else 0))
      × (e.flags ≡ (if has_gate n then 0xEE else 0))
      × (e.always0 ≡ 0)
      × (i'.isr_handlers n ≡ no_handler)
idt_init_lem a n stub i h = elim (Bool-cases (has_gate n)) [
  | inl there ↦
      rw (idt_init-entry a n stub i)
        (rw there (omega (arith, h), refl, refl, refl, refl, idt_init-handlers a n stub i))
  | inr none_there ↦
      rw (idt_init-entry a n stub i)
        (rw none_there (refl, refl, refl, refl, refl, idt_init-handlers a n stub i))
]

-- The bytes that acknowledge an interrupt: one for the first controller, and for an interrupt from
-- 40 on one for the second before it.
outs-acknowledge :
    (i : Idt) (int_no : ℕ)
    → (acknowledge i int_no).outs ≡ (
        if leb 40 int_no
        then (i.outs ++ (record { port = pic2_cmd; byte = 0x20 } ∷ []))
          ++ (record { port = pic1_cmd; byte = 0x20 } ∷ [])
        else i.outs ++ (record { port = pic1_cmd; byte = 0x20 } ∷ []))
unfolding acknowledge outb
outs-acknowledge i int_no = elim (Bool-cases (leb 40 int_no)) [
  | inl h ↦ rw h refl
  | inr h ↦ rw h refl
]
