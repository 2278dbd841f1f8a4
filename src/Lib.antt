-- ===== src/Lib.antt =====
-- NexusKernel: a small 32-bit x86 kernel in C, of which these modules model and prove the parts that
-- keep state. Paths are from the repository's root.
--
-- The parts and how they interact
--   The boot code hands a multiboot structure to kernel_main, which sets up the descriptor tables, the
--   memory managers, the process manager, the drivers, the file systems and the system calls, and then
--   enables interrupts. From then on the timer's interrupt calls scheduler_tick and the keyboard's
--   calls keyboard_callback; processes call into the scheduler, the heap and the drivers.
--
-- Which file models which part
--   Pmm      kernel/memory/pmm.c: the frame bitmap. A state is a record of the three static variables,
--            the bitmap a list of bytes; alloc_frame, free_frame, mark_used and mark_free are
--            pmm_alloc_frame and so on. Pmm.Boot is pmm_init, with the walk over the memory map of
--            kernel/include/boot/multiboot.h.
--   Kheap    kernel/memory/kheap.c: the kernel heap. The block headers are a map from addresses, every
--            pointer write goes through it; Kheap.Tiles reads it as a list of blocks that tile the
--            array, on which Kheap.Alloc (first fit) and Kheap.Free (merging) say what kmalloc and
--            kfree do; Kheap.Take and Kheap.Coalesce are about the steps in memory. krealloc moves
--            bytes by the memcpy of Libc.
--   Libc     kernel/lib/string.c over a memory of bytes, all functions.
--   Tasks    kernel/process/process.c (Create, Table) and kernel/process/scheduler.c (Scheduler). The
--            process structs are a map from addresses, and the ready queue goes through their next
--            pointers; Tasks.Queue reads it as a list. The state has the machine registers that
--            context_switch moves; Tasks.Machine is about these.
--   Drivers  kernel/drivers/driver.c: the driver structs as a map from addresses, the list of drivers
--            through their next pointers, and the calls of init and cleanup in order.
--   Keyboard kernel/drivers/keyboard.c: the ring of characters between the interrupt handler and the
--            readers. Keyboard.Ring reads it as a queue.
--   Vmm      kernel/memory/vmm.c: page directories and tables in a memory of words, with the frames of
--            Pmm. Vmm.Space reads a directory as the words of its pages; Vmm.Map and Vmm.Share say what
--            the calls do to that reading, Vmm.Clobber what goes wrong behind a directory.
--   Fs       kernel/fs/ramfs.c (Fs, Fs.Directory) and kernel/fs/vfs.c (Fs.Vfs). Nodes and file structs
--            are maps from addresses; Fs.Chain and Fs.Lookup read the children of a directory as a list
--            with different names, Fs.Contents a file as its bytes, Fs.Path a path as its components.
--   Console  kernel/lib/stdio.c: the cursor and the cells of the VGA buffer, the printing of
--            numbers, and kprintf over a list of argument words.
--   Cpu      kernel/cpu/gdt.c (Gdt) and kernel/cpu/idt.c (Idt): the descriptor tables as functions from
--            indices, the bytes written to ports in order, and the handlers by name. Descriptors and Gates
--            read the fields as the processor does.
--   Kernel   the parts together, as a record of their states: kernel/drivers/timer.c, irq_handler of
--            kernel/cpu/idt.c with the functions it calls (Irq), and kernel/syscall/syscall.c (Syscall).
--            Boot is kernel/kernel_main.c up to syscall_init, with what its calls take from the heap and
--            from the frames; SetUp is about what it leads to, Started about its drivers and Taken about
--            its blocks of the heap. A sleep in timer.c ends, waits, or loses the machine to another process.
--            Steps has the timer's and the keyboard's interrupts and the system calls as a relation, with
--            Running and Calls about what each keeps.
--   Prelude  shared names, the Boolean tests, lists over the native numbers, machine words, integers.
--   Each component's Tests module runs it at concrete states.
--
-- Numbers, bounds and fuel
--   Numbers are natural numbers; where the C code computes in 32 bits, add32 and sub32 and the
--   remainder by 2^32 are written out, and a theorem that needs no wrap says so as a bound.
--   A loop with a counter recurs on the rounds left. A loop that follows pointers or runs to a NUL byte
--   takes fuel and gives none when that runs out; its theorems show that the result is not none when
--   the fuel is more than the length of the list or the string. For kmalloc that is 262145, since each
--   of the blocks takes at least 16 of the 4194304 bytes; for the drivers 65, since there are at most
--   64; for a path one more than its length, and for a directory more than it has children.
--   keyboard_getchar and timer_sleep recur on the interrupts that come while they wait.
--
-- What is not modelled
--   Messages that the functions print. What process_create gets from kmalloc and from the address space
--   functions, what kmalloc gives the file system, and what a driver's init returns, are arguments; in
--   Kernel.Boot the answers of kmalloc and of vmm_create_address_space are those of Kheap and Vmm. The
--   memories of the parts are separate: a directory, a heap block or a file is not seen through another.
--   What kernel_main does behind syscall_init is not modelled; neither is the assembly code, and the
--   instructions that load a table or a register have no effect but on the values kept here. Of
--   the panic in isr_handler the model has only that the machine stops. An interrupt is one step: it
--   does not come in the middle of a function.
pub mod Prelude
pub mod Pmm
pub mod Libc
pub mod Tasks
pub mod Kheap
pub mod Keyboard
pub mod Drivers
pub mod Console
pub mod Vmm
pub mod Fs
pub mod Cpu
pub mod Kernel
