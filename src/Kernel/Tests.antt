-- ===== src/Kernel/Tests.antt =====
-- The kernel at a concrete state: the theorems at inputs that meet their conditions.
use nexus_kernel.Prelude.{
  inl, ◌%◌, ◌-◌, ◌*◌, ◌/◌, ◌^◌, ◌≡◌, refl, leb, ◌==◌, if◌then◌else◌, arith, [], some, replicate,
  length-replicate, true, false,
}
use nexus_kernel.Cpu.Idt.{zero_entry, no_handler, timer_callback, keyboard_callback}
use nexus_kernel.Tasks.{Tasks, running}
use nexus_kernel.Tasks.Lifecycle.{zero_context}
use nexus_kernel.Keyboard.{Keyboard, keyboard_init}
use nexus_kernel.Keyboard.Ring.{keyboard_init-Holds}
use nexus_kernel.Kernel.{Kernel, timer_sleep}
use nexus_kernel.Drivers.{unloaded}
use nexus_kernel.Fs.{no_ops}
use nexus_kernel.Kernel.Irq.{irq_handler}
use nexus_kernel.Kernel.Syscall.{Registers}
use nexus_kernel.Kernel.Syscall
use nexus_kernel.Kernel.Running.{IsRunning}
use nexus_kernel.Kernel.Steps.{Steps, tick, key, call, stay, go, Steps-IsRunning}
use nexus_kernel.Kernel.Refused.{syscall_handler-refused}
use nexus_kernel.Console.{Console}
use nexus_kernel.Console.Cursor.{Shown}
use nexus_kernel.Kernel.Write.{syscall_handler-write_chars}
use nexus_kernel.Kernel.Sleep.{Sleeps, timer_sleep_lem}

-- One process, the current one, which runs; nothing waits.
abbrev alone : Tasks
alone = record {
  procs = λ a. record {
    pid = 1;
    parent_pid = 0;
    name = [];
    state = running;
    priority = 0;
    exit_code = 0;
    context = zero_context;
    page_directory = 0;
    kernel_stack = 0;
    user_stack = 0;
    next = 0;
  };
  process_table = [];
  current_process = 16;
  next_pid = 2;
  ready_head = 0;
  ready_tail = 0;
  ticks_remaining = 20;
  scheduler_enabled = true;
  cpu = record { esp = 0; eip = 0; tss_esp0 = 0; directory = 0; resume_label = 0 };
}

abbrev no_keys : Keyboard
no_keys = record { buffer = replicate 256 0; read_idx = 0; write_idx = 0; count = 0 }

abbrev booted : Kernel
booted = record {
  idt = record {
    idt_entries = λ n. zero_entry;
    isr_handlers =
        λ n. if n == 32 then timer_callback else if n == 33 then keyboard_callback else no_handler;
    ptr_limit = 0;
    ptr_base = 0;
    outs = [];
  };
  timer = record { timer_ticks = 5; timer_frequency = 100 };
  tasks = alone;
  keyboard = keyboard_init no_keys;
  manager = record {
    drivers = λ a. record {
      name = [];
      kind = 0;
      state = unloaded;
      has_init = false;
      has_cleanup = false;
      next = 0;
    };
    driver_list = 0;
    driver_count = 0;
    calls = [];
  };
  console = record { vga = λ a. 0; cursor_x = 0; cursor_y = 0 };
  fs = record {
    nodes = λ a. record {
      name = [];
      kind = 0;
      permissions = 0;
      inode = 0;
      size = 0;
      parent = 0;
      children = 0;
      next_sibling = 0;
      ops = no_ops;
      private_data = 0;
    };
    files = λ a. record { data_ptr = 0; file_size = 0; capacity = 0 };
    bytes = λ a. 0;
    next_inode = 1;
    freed = [];
  };
  vfs = record { vfs_root = 0; mount_list = []; mount_count = 0 };
}

booted-IsRunning : IsRunning booted
booted-IsRunning = record {
  timer_entered = refl;
  key_entered = refl;
  waiting = [];
  orderly = record {
    queue = record { chain = refl; distinct = tt; tail = refl };
    present = λ e. absurd (omega (arith, e));
    not_twice = λ h. ground (arith, h);
  };
  typed = [];
  holds = keyboard_init-Holds no_keys (length-replicate 256 0);
}

abbrev regs : Registers
regs = record { eax = 4; ebx = 0; ecx = 0; edx = 0 }

-- `close` returns 0.
closed :
    Syscall.syscall_handler 9 (λ a. []) 0 regs (irq_handler 33 0x1E (irq_handler 32 0 booted))
    ≡ some (0, irq_handler 33 0x1E (irq_handler 32 0 booted))
unfolding Syscall.syscall_handler Syscall.perform
closed = refl

-- A tick, a key and a system call.
three-Steps : Steps booted (irq_handler 33 0x1E (irq_handler 32 0 booted))
three-Steps = go _ _ _ (tick booted) (
    go _ _ _ (key (irq_handler 32 0 booted) 0x1E)
      (go _ _ _ (call _ _ 9 (λ a. []) 0 regs 0 closed) (stay _)))

Steps-IsRunning_example : IsRunning (irq_handler 33 0x1E (irq_handler 32 0 booted))
Steps-IsRunning_example =
    Steps-IsRunning booted (irq_handler 33 0x1E (irq_handler 32 0 booted)) three-Steps
      booted-IsRunning

syscall_handler-refused_example :
    Syscall.syscall_handler 9 (λ a. []) 0 (record regs { eax = 12 }) booted
    ≡ some (2 ^ 32 - 1, booted)
syscall_handler-refused_example =
    syscall_handler-refused 9 (λ a. []) 0 booted (record regs { eax = 12 }) refl

timer_sleep_lem_example :
    Sleeps (leb (50 * 100 / 1000) 7) (50 * 100 / 1000) 7 booted (timer_sleep 7 50 booted)
timer_sleep_lem_example = timer_sleep_lem 7 50 booted (omega arith) (omega arith) (inl refl)

abbrev three_bytes : Registers
three_bytes = record { eax = 2; ebx = 1; ecx = 0x3000; edx = 3 }

syscall_handler-write_chars_example :
    (c : Console) × (Syscall.syscall_handler 9 (λ a. []) 0 three_bytes booted
      ≡ some (3 % 2 ^ 32, record booted { console = c }))
    × Shown booted.console c
syscall_handler-write_chars_example =
    syscall_handler-write_chars 9 (λ a. []) 0 three_bytes booted refl refl (λ a. omega arith)
      (record { column = omega arith; row = omega arith })
