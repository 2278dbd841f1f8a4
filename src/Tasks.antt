-- ===== src/Tasks.antt =====
-- The state that kernel/process/process.c and kernel/process/scheduler.c share, with the structures
-- of include/process/process.h. Processes are structs behind pointers: `procs` gives the struct at
-- an address, and every write to a struct goes through `put`, so that all pointers to it see it.
pub mod Scheduler
pub mod Rotate
pub mod Machine
pub mod Lifecycle
pub mod Table
mod Tests
pub mod Create
pub mod Remove
pub mod Ticks
pub mod Add
pub mod Queue
use nexus_kernel.Prelude.{ℕ, Bool, List, ◌==◌, if◌then◌else◌}

abbrev pub null : ℕ
null = 0

abbrev pub max_processes : ℕ
max_processes = 256

-- process_state_t
pub data ProcessState : Type 0 where
  created ready running blocked terminated : ProcessState

-- cpu_context_t
pub record CpuContext : Type 0 where
  pub eax : ℕ
  pub ebx : ℕ
  pub ecx : ℕ
  pub edx : ℕ
  pub esi : ℕ
  pub edi : ℕ
  pub ebp : ℕ
  pub esp : ℕ
  pub eip : ℕ
  pub eflags : ℕ
  pub cs : ℕ
  pub ds : ℕ
  pub es : ℕ
  pub fs : ℕ
  pub gs : ℕ
  pub ss : ℕ
  pub cr3 : ℕ

-- process_t; the name is the string in the array.
pub record Process : Type 0 where
  pub pid : ℕ
  pub parent_pid : ℕ
  pub name : List ℕ
  pub state : ProcessState
  pub priority : ℕ
  pub exit_code : ℕ
  pub context : CpuContext
  pub page_directory : ℕ
  pub kernel_stack : ℕ
  pub user_stack : ℕ
  pub next : ℕ

-- What `context_switch` touches of the machine: the stack pointer, where execution goes on, the
-- kernel stack of the task state segment, the page directory in use; and the address of the label
-- behind the switch, at which a process resumes.
pub record Cpu : Type 0 where
  pub esp : ℕ
  pub eip : ℕ
  pub tss_esp0 : ℕ
  pub directory : ℕ
  pub resume_label : ℕ

-- The static variables of both files, the process structs and the machine.
pub record Tasks : Type 0 where
  pub procs : ℕ → Process
  pub process_table : List ℕ
  pub current_process : ℕ
  pub next_pid : ℕ
  pub ready_head : ℕ
  pub ready_tail : ℕ
  pub ticks_remaining : ℕ
  pub scheduler_enabled : Bool
  pub cpu : Cpu

-- The struct at `p` given anew.
unfoldable pub put : (ℕ → Process) → ℕ → Process → ℕ → Process
put procs p v a = if a == p then v else procs a

-- `p->next = q`
unfoldable pub set_next : Tasks → ℕ → ℕ → Tasks
set_next t p q = record t { procs = put t.procs p (record (t.procs p) { next = q }) }

-- `p->state = s`
unfoldable pub set_state : Tasks → ℕ → ProcessState → Tasks
set_state t p s = record t { procs = put t.procs p (record (t.procs p) { state = s }) }
