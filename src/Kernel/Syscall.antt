-- ===== src/Kernel/Syscall.antt =====
-- kernel/syscall/syscall.c: the table of system calls, and the calls over the other parts. The
-- registers are those that the handlers read; the result is the new `eax`. `string_at` gives the
-- string at an address, `node` what `kmalloc` returns for a directory, and `fuel` bounds the
-- searches.
use nexus_kernel.Prelude.{
  leb, ℕ, zero, suc, ◌-◌, ◌%◌, ◌^◌, ◌==◌, not, ◌||◌, if◌then◌else◌, Option, none, some, List, [],
  ◌∷◌, true, false,
}
use nexus_kernel.Prelude.Words.{add32}
use nexus_kernel.Prelude.Int.{ℤ, pos, negsuc}
use nexus_kernel.Tasks.Scheduler.{scheduler_yield}
use nexus_kernel.Tasks.Lifecycle.{process_terminate}
use nexus_kernel.Console.{Console, kprintf}
use nexus_kernel.Fs.{null, Ramfs}
use nexus_kernel.Fs.Vfs.{vfs_resolve_path, vfs_open, vfs_mkdir, vfs_unlink}
use nexus_kernel.Cpu.Idt.{isr_register_handler}
use nexus_kernel.Cpu.Idt
use nexus_kernel.Kernel.{Kernel}

pub record Registers : Type 0 where
  pub eax : ℕ
  pub ebx : ℕ
  pub ecx : ℕ
  pub edx : ℕ

pub data Syscall : Type 0 where
  sys_exit sys_read sys_write sys_open sys_close sys_fork sys_getpid sys_yield sys_sbrk sys_mkdir
        sys_unlink sys_stat :
      Syscall

abbrev pub syscall_table : List Syscall
syscall_table =
    sys_exit ∷ sys_read ∷ sys_write ∷ sys_open ∷ sys_close ∷ sys_fork ∷ sys_getpid ∷ sys_yield
    ∷ sys_sbrk ∷ sys_mkdir ∷ sys_unlink ∷ sys_stat ∷ []

-- The entry of the table at a number, if there is one.
abbrev pub call_at : List Syscall → ℕ → Option Syscall
call_at [] num = none
call_at (s ∷ ss) zero = some s
call_at (s ∷ ss) (suc num) = call_at ss num

-- `(uint32_t)` of a result.
abbrev pub to_eax : ℤ → ℕ
to_eax (pos n) = n % 2 ^ 32
to_eax (negsuc n) = (2 ^ 32 - 1 - n) % 2 ^ 32

-- The loop of `sys_write`, with the characters left, from an address on.
unfoldable pub write_chars : (ℕ → List ℕ) → ℕ → ℕ → Ramfs → Console → Option Console
write_chars string_at zero at fs c = some c
write_chars string_at (suc left) at fs c =
    elim (kprintf string_at (37 ∷ 99 ∷ []) (fs.bytes at ∷ []) c) [
      | none ↦ none
      | some c1 ↦ write_chars string_at left (add32 at 1) fs c1
    ]

unfoldable pub exit : ℕ → Kernel → Kernel
exit exit_code k =
    let t = k.tasks in
    let ended =
      if t.current_process == null then t else process_terminate t t.current_process exit_code in
    record k { tasks = scheduler_yield ended }

-- What a call returns, and the kernel after it.
unfoldable pub perform : ℕ → (ℕ → List ℕ) → ℕ → Syscall → Registers → Kernel → Option (ℤ × Kernel)
perform fuel string_at node sys_exit regs k = some (pos 0, exit regs.ebx k)
perform fuel string_at node sys_read regs k = some (negsuc 0, k)
perform fuel string_at node sys_write regs k =
    let written = write_chars string_at regs.edx regs.ecx k.fs k.console in
    elim (regs.ebx == 1 || regs.ebx == 2) [
      | true ↦ elim written [ none ↦ none | some c ↦ some (pos regs.edx, record k { console = c }) ]
      | false ↦ some (negsuc 0, k)
    ]
perform fuel string_at node sys_open regs k =
    elim (vfs_resolve_path fuel k.fs k.vfs (not (regs.ebx == null)) (string_at regs.ebx)) [
      | none ↦ none
      | some found ↦ some (if found == null then negsuc 0 else vfs_open k.fs found regs.ecx, k)
    ]
perform fuel string_at node sys_close regs k = some (pos 0, k)
perform fuel string_at node sys_fork regs k = some (negsuc 0, k)
perform fuel string_at node sys_getpid regs k =
    let t = k.tasks in
    some (if t.current_process == null then negsuc 0 else pos (t.procs t.current_process).pid, k)
perform fuel string_at node sys_yield regs k =
    some (pos 0, record k { tasks = scheduler_yield k.tasks })
perform fuel string_at node sys_sbrk regs k = some (negsuc 0, k)
perform fuel string_at node sys_mkdir regs k = elim (k.vfs.vfs_root == null) [
  | true ↦ some (negsuc 0, k)
  | false ↦ elim (vfs_mkdir fuel k.fs node k.vfs.vfs_root (string_at regs.ebx) regs.ecx) [
    | none ↦ none
    | some r ↦ some (r.0, record k { fs = r.1 })
  ]
]
perform fuel string_at node sys_unlink regs k = elim (k.vfs.vfs_root == null) [
  | true ↦ some (negsuc 0, k)
  | false ↦ elim (vfs_unlink fuel k.fs k.vfs.vfs_root (string_at regs.ebx)) [
    | none ↦ none
    | some r ↦ some (r.0, record k { fs = r.1 })
  ]
]
perform fuel string_at node sys_stat regs k = some (negsuc 0, k)

abbrev pub num_syscalls : ℕ
num_syscalls = 12

-- `none` is that the call does not end, or that the table is read behind its end.
unfoldable pub syscall_handler : ℕ → (ℕ → List ℕ) → ℕ → Registers → Kernel → Option (ℕ × Kernel)
syscall_handler fuel string_at node regs k = elim (leb num_syscalls regs.eax) [
  | true ↦ some (2 ^ 32 - 1, k)
  | false ↦ elim (call_at syscall_table regs.eax) [
    | none ↦ none
    | some s ↦ elim (perform fuel string_at node s regs k) [
      | none ↦ none
      | some r ↦ some (to_eax r.0, r.1)
    ]
  ]
]

-- The name of the function in the table of handlers.
unfoldable pub syscall_init : Kernel → Kernel
syscall_init k = record k { idt = isr_register_handler k.idt 128 Idt.syscall_handler }
