-- ===== src/Kernel/Write.antt =====
-- The system call `write` of kernel/syscall/syscall.c, with the console of kernel/lib/stdio.c.
use nexus_kernel.Prelude.{
  ℕ, ◌<◌, zero, suc, ◌%◌, ◌^◌, ◌≡◌, refl, true, ◌||◌, ◌==◌, some, List, [], ◌∷◌, arith,
}
use nexus_kernel.Prelude.Words.{add32}
use nexus_kernel.Console.{Console, takes_argument}
use nexus_kernel.Console.Cursor.{OnScreen, Shown}
use nexus_kernel.Console.Format.{Ends, Shown-step, kprintf_lem}
use nexus_kernel.Fs.{Ramfs}
use nexus_kernel.Kernel.{Kernel}
use nexus_kernel.Kernel.Syscall.{Registers, write_chars, perform, syscall_handler}

write_chars-Ends :
    (string_at : ℕ → List ℕ) (left at : ℕ) (fs : Ramfs) (c : Console)
    → ((a : ℕ) → fs.bytes a < 256)
    → OnScreen c
    → Ends c (write_chars string_at left at fs c)
unfolding write_chars takes_argument
write_chars-Ends string_at zero at fs c hb on = (c, refl, (on, λ p. refl))
write_chars-Ends string_at (suc left) at fs c hb on =
    let one =
      kprintf_lem string_at (37 ∷ 99 ∷ []) (fs.bytes at ∷ []) c on (omega (arith, hb at), tt) in
    let rest = write_chars-Ends string_at left (add32 at 1) fs one.0 hb one.2.0 in
    (rest.0, ground (arith, one.1, rest.1), Shown-step c one.0 rest.0 one.2 rest.2)

-- With bytes in memory and the cursor on the screen, the system call `write` to descriptor 1 or 2
-- ends, however many bytes, returns that number as a 32-bit one, leaves the cursor on the screen,
-- writes nothing behind the screen's cells, and changes nothing but the console.
pub syscall_handler-write_chars :
    (fuel : ℕ) (string_at : ℕ → List ℕ) (node : ℕ) (regs : Registers) (k : Kernel)
    → regs.eax ≡ 2
    → (regs.ebx == 1 || regs.ebx == 2) ≡ true
    → ((a : ℕ) → k.fs.bytes a < 256)
    → OnScreen k.console
    → (c : Console) × (syscall_handler fuel string_at node regs k
        ≡ some (regs.edx % 2 ^ 32, record k { console = c }))
      × Shown k.console c
unfolding syscall_handler perform
syscall_handler-write_chars fuel string_at node regs k number out hb on =
    let written = write_chars-Ends string_at regs.edx regs.ecx k.fs k.console hb on in
    (written.0, rw number (ground (arith, out, written.1)), written.2)
