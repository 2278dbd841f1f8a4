-- ===== src/Kernel/Irq.antt =====
-- `irq_handler` of kernel/cpu/idt.c, with the handler that it finds in the table. `scancode` is the
-- byte that the keyboard's handler reads from its port.
use nexus_kernel.Prelude.{ℕ}
use nexus_kernel.Cpu.Idt.{
  Handler, no_handler, timer_callback, keyboard_callback, syscall_handler, acknowledge,
}
use nexus_kernel.Keyboard
use nexus_kernel.Kernel.{Kernel, on_timer}

-- The handler of the system calls is entered for its own interrupt only, which is none of these.
abbrev pub call_handler : Handler → ℕ → Kernel → Kernel
call_handler no_handler scancode k = k
call_handler timer_callback scancode k = on_timer k
call_handler keyboard_callback scancode k = record k {
  keyboard = Keyboard.keyboard_callback scancode k.keyboard;
}
call_handler syscall_handler scancode k = k

unfoldable pub irq_handler : ℕ → ℕ → Kernel → Kernel
irq_handler int_no scancode k =
    call_handler (k.idt.isr_handlers int_no) scancode (record k { idt = acknowledge k.idt int_no })
