-- ===== src/Cpu.antt =====
-- kernel/cpu/gdt.c and kernel/cpu/idt.c: the descriptor tables of the processor and the interrupts.
-- The instructions that load a table are left out.
pub mod Gdt
pub mod Idt
pub mod Descriptors
pub mod Gates
mod Tests
