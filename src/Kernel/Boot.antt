-- ===== src/Kernel/Boot.antt =====
-- kernel/kernel_main.c up to its call of `syscall_init`, with the parts it sets up; behind it come
-- a test of the file system, two processes for show, and messages.
use nexus_kernel.Prelude.{ℕ, ◌==◌, true, false, Option, none, some, [], ◌∷◌, if◌then◌else◌}
use nexus_kernel.Prelude.Int.{ℤ}
use nexus_kernel.Libc.Names.{Name}
use nexus_kernel.Cpu.Gdt.{Gdt, gdt_init}
use nexus_kernel.Cpu.Idt.{idt_init, isr_register_handler, keyboard_callback}
use nexus_kernel.Pmm.Boot.{MmapEntry, MultibootInfo}
use nexus_kernel.Pmm.Boot
use nexus_kernel.Kheap.{Kheap, kheap_init, kmalloc, kfree}
use nexus_kernel.Vmm.{Vmm, create_address_space, destroy_address_space, physical_at}
use nexus_kernel.Drivers.{driver_manager_init, driver_register, driver_load}
use nexus_kernel.Keyboard
use nexus_kernel.Fs.{null}
use nexus_kernel.Fs.Directory.{ramfs_init, slash}
use nexus_kernel.Fs.Vfs.{vfs_init, vfs_mount}
use nexus_kernel.Tasks.Lifecycle.{Answers, kernel_stack_size, process_init}
use nexus_kernel.Tasks.Scheduler.{scheduler_init}
use nexus_kernel.Kernel.{Kernel, timer_init}
use nexus_kernel.Kernel.Syscall.{syscall_init}

-- All parts that `kernel_main` sets up.
pub record Machine : Type 0 where
  pub gdt : Gdt
  pub vmm : Vmm
  pub heap : Kheap
  pub kernel : Kernel

-- The addresses of the static structs and of the interrupts' code, what the boot loader passes, and
-- what the drivers' `init` returns.
pub record Image : Type 0 where
  pub gdt_entries : ℕ
  pub tss : ℕ
  pub idt_entries : ℕ
  pub stub : ℕ → ℕ
  pub entry_at : ℕ → MmapEntry
  pub mbi : MultibootInfo
  pub timer_driver : ℕ
  pub keyboard_driver : ℕ
  pub ret : ℕ → ℤ

abbrev pub bootloader_magic : ℕ
bootloader_magic = 0x2BADB002

abbrev pub timer_hz : ℕ
timer_hz = 100

-- "ps2_keyboard"
abbrev pub keyboard_name : Name
keyboard_name =
    b'p' ∷ b's' ∷ b'2' ∷ b'_' ∷ b'k' ∷ b'e' ∷ b'y' ∷ b'b' ∷ b'o' ∷ b'a' ∷ b'r' ∷ b'd' ∷ []

-- "ramfs"
abbrev pub ramfs_name : Name
ramfs_name = b'r' ∷ b'a' ∷ b'm' ∷ b'f' ∷ b's' ∷ []

-- `keyboard_init` of drivers/keyboard.c with its calls of the other parts.
unfoldable pub start_keyboard : ℕ → (ℕ → ℤ) → ℕ → Kernel → Option Kernel
start_keyboard fuel ret keyboard_driver k =
    let idt = isr_register_handler k.idt 33 keyboard_callback in
    elim (driver_register fuel k.manager keyboard_driver) [
      | none ↦ none
      | some registered ↦ elim (driver_load fuel ret registered.1 keyboard_name) [
        | none ↦ none
        | some loaded ↦ some (record k {
          keyboard = Keyboard.keyboard_init k.keyboard;
          idt = idt;
          manager = loaded.1;
        })
      ]
    ]

-- sizeof(vfs_node_t), sizeof(vfs_mount_t) and sizeof(process_t)
abbrev pub node_size : ℕ
node_size = 180

abbrev pub mount_size : ℕ
mount_size = 1064

abbrev pub process_size : ℕ
process_size = 168

-- The calls of `vfs_init`, `ramfs_init` and `vfs_mount`, with what they take from the heap.
unfoldable pub mount_root : ℕ → Machine → Option Machine
mount_root fuel m =
    let k = m.kernel in
    let v = vfs_init k.vfs in
    elim (kmalloc fuel m.heap node_size) [
      | none ↦ none
      | some (node, h1) ↦
          let made = ramfs_init k.fs node in
          elim (made.0 == null) [
            | true ↦ some (record m { heap = h1; kernel = record k { fs = made.1; vfs = v } })
            | false ↦ elim (kmalloc fuel h1 mount_size) [
              | none ↦ none
              | some (mount, h2) ↦ some (record m {
                heap = h2;
                kernel = record k {
                  fs = made.1;
                  vfs = (vfs_mount v mount true (slash ∷ []) true ramfs_name made.0).1;
                };
              })
            ]
          ]
    ]

-- What `process_create` takes for a process: the struct, the address space and the stack; on a
-- failure it gives back what it has taken.
unfoldable pub take_process : ℕ → Kheap → Vmm → Option (Answers × Kheap × Vmm)
take_process fuel h v = elim (kmalloc fuel h process_size) [
  | none ↦ none
  | some (proc, h1) ↦
      let (dir, v1) = create_address_space v in
      elim (proc == null) [
        | true ↦
            some (record { proc = null; directory = null; physical_addr = 0; stack = null }, h1, v)
        | false ↦ elim (dir == null) [
          | true ↦ some (
            record { proc = proc; directory = null; physical_addr = 0; stack = null },
            kfree h1 proc,
            v1,
          )
          | false ↦ elim (kmalloc fuel h1 kernel_stack_size) [
            | none ↦ none
            | some (stack, h2) ↦
                let a : Answers = record {
                  proc = proc;
                  directory = dir;
                  physical_addr = v1.memory (physical_at dir);
                  stack = stack;
                } in
                some (
                  if stack == null
                  then (a, kfree h2 proc, destroy_address_space v1 dir)
                  else (a, h2, v1))
          ]
        ]
      ]
]

-- The calls of `process_init`, `scheduler_init` and `syscall_init`. The process table is empty, so
-- that there is a pid for the idle process.
unfoldable pub start_processes : ℕ → Machine → Option Machine
start_processes fuel m =
    let k = m.kernel in
    elim (take_process fuel m.heap m.vmm) [
      | none ↦ none
      | some (idle, h, v) ↦ some (record m {
        heap = h;
        vmm = v;
        kernel =
            syscall_init
              (record k { tasks = scheduler_init (process_init k.tasks v.kernel_directory idle) });
      })
    ]

-- The drivers, from `driver_manager_init` to `keyboard_init`.
unfoldable pub start_drivers : ℕ → Image → Kernel → Option Kernel
start_drivers fuel im k =
    elim (timer_init fuel im.ret im.timer_driver timer_hz
      (record k { manager = driver_manager_init k.manager })) [
        | none ↦ none
        | some k1 ↦ start_keyboard fuel im.ret im.keyboard_driver k1
      ]

-- `kernel_main` up to `syscall_init`, with the magic number that it is called with; `none` is that
-- it stops. `vmm_init` is not called.
unfoldable pub set_up : ℕ → ℕ → Image → Machine → Option Machine
set_up fuel magic im m =
    let k = record (m.kernel) { idt = idt_init im.idt_entries im.stub m.kernel.idt } in
    elim (magic == bootloader_magic) [
      | false ↦ none
      | true ↦ elim (Boot.init fuel im.entry_at im.mbi) [
        | none ↦ none
        | some pmm ↦ elim (start_drivers fuel im k) [
          | none ↦ none
          | some started ↦
              elim (mount_root fuel (record {
                gdt = gdt_init im.gdt_entries im.tss m.gdt;
                vmm = record (m.vmm) { frames = pmm };
                heap = kheap_init m.heap;
                kernel = started;
              })) [ none ↦ none | some mounted ↦ start_processes fuel mounted ]
        ]
      ]
    ]
