-- ===== src/Kernel/BootTests.antt =====
-- `kernel_main` on a machine with one megabyte of memory behind the first: the theorem at an input
-- that meets its conditions.
use nexus_kernel.Prelude.{◌+◌, ◌*◌, [], replicate, true, false, ◌==◌, if◌then◌else◌}
use nexus_kernel.Prelude.Int.{pos}
use nexus_kernel.Pmm.{Pmm}
use nexus_kernel.Pmm.Boot.{
  MmapEntry, MultibootInfo, cap_frames, all_used, release_region, reserve_frames,
}
use nexus_kernel.Pmm.Boot
use nexus_kernel.Cpu.Idt.{zero_entry, no_handler}
use nexus_kernel.Drivers.{unloaded}
use nexus_kernel.Fs.{no_ops}
use nexus_kernel.Tasks.{created}
use nexus_kernel.Tasks.Lifecycle.{zero_context}
use nexus_kernel.Kernel.{Kernel, timer_name}
use nexus_kernel.Kernel.Boot.{Machine, Image, keyboard_name}

-- The static variables before the start. The timer's driver is at 0x4000 and the keyboard's at 0x4100.
abbrev unset : Kernel
unset = record {
  idt = record {
    idt_entries = λ n. zero_entry;
    isr_handlers = λ n. no_handler;
    ptr_limit = 0;
    ptr_base = 0;
    outs = [];
  };
  timer = record { timer_ticks = 0; timer_frequency = 0 };
  tasks = record {
    procs = λ a. record {
      pid = 0;
      parent_pid = 0;
      name = [];
      state = created;
      priority = 0;
      exit_code = 0;
      context = zero_context;
      page_directory = 0;
      kernel_stack = 0;
      user_stack = 0;
      next = 0;
    };
    process_table = [];
    current_process = 0;
    next_pid = 1;
    ready_head = 0;
    ready_tail = 0;
    ticks_remaining = 0;
    scheduler_enabled = false;
    cpu = record { esp = 0; eip = 0; tss_esp0 = 0; directory = 0; resume_label = 0 };
  };
  keyboard = record { buffer = replicate 256 0; read_idx = 0; write_idx = 0; count = 0 };
  manager = record {
    drivers = λ a. record {
      name = if a == 0x4000 then timer_name else keyboard_name;
      kind = if a == 0x4000 then 6 else 4;
      state = unloaded;
      has_init = true;
      has_cleanup = true;
      next = 0;
    };
    driver_list = 0;
    driver_count = 0;
    calls = [];
  };
  console = record { vga = λ a. 0; cursor_x = 0; cursor_y = 0 };
  fs = record {
    nodes = λ a. record {
      name = [];
      kind = 0;
      permissions = 0;
      inode = 0;
      size = 0;
      parent = 0;
      children = 0;
      next_sibling = 0;
      ops = no_ops;
      private_data = 0;
    };
    files = λ a. record { data_ptr = 0; file_size = 0; capacity = 0 };
    bytes = λ a. 0;
    next_inode = 1;
    freed = [];
  };
  vfs = record { vfs_root = 0; mount_list = []; mount_count = 0 };
}

abbrev unset_machine : Machine
unset_machine = record {
  gdt = record {
    gdt_entries = λ i. record {
      limit_low = 0;
      base_low = 0;
      base_middle = 0;
      access = 0;
      granularity = 0;
      base_high = 0;
    };
    ptr_limit = 0;
    ptr_base = 0;
    tss = record {
      esp0 = 0;
      ss0 = 0;
      es = 0;
      cs = 0;
      ss = 0;
      ds = 0;
      fs = 0;
      gs = 0;
      iomap_base = 0;
    };
  };
  vmm = record {
    kernel_directory = 0;
    current_directory = 0;
    kernel_end_addr = 0;
    frames = record { bitmap = []; total_frames = 0; used_frames = 0 };
    memory = λ a. 0;
    cr3 = 0;
  };
  heap = record {
    blocks = (λ a. record { size = 0; free = false; next = 0; prev = 0 });
    heap_area = 0x200000;
    heap_start = 0;
    heap_initialized = false;
  };
  kernel = unset;
}

-- The map has one entry, of one megabyte from the second on.
abbrev entry : MmapEntry
entry = record { size = 20; addr = 0x100000; len = 0x100000; kind = 1 }

abbrev image : Image
image = record {
  gdt_entries = 0x110000;
  tss = 0x110100;
  idt_entries = 0x110200;
  stub = λ n. 0x111000 + 16 * n;
  entry_at = λ a. entry;
  mbi = record { flags = 0x60; mem_upper = 1024; mmap_length = 24; mmap_addr = 0x1000 };
  timer_driver = 0x4000;
  keyboard_driver = 0x4100;
  ret = λ d. pos 0;
}

-- Two megabytes in all, of which the second is free.
abbrev two_megabytes : Pmm
two_megabytes = reserve_frames 256 0 (release_region (all_used (cap_frames 512)) entry)
