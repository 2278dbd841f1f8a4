-- ===== src/Tasks/Lifecycle.antt =====
-- kernel/process/process.c: the process table and the making and ending of processes.
-- What the heap and the virtual memory manager answer is given by `Answers`: the addresses that
-- `kmalloc` and `vmm_create_address_space` return, 0 for a failure, and the directory's physical
-- address.
use nexus_kernel.Prelude.{
  ℕ, zero, suc, ◌+◌, ◌-◌, ◌&&◌, Option, none, some, List, [], ◌∷◌, ltb, leb, ◌==◌, if◌then◌else◌,
  get_or, set, replicate, take,
}
use nexus_kernel.Prelude.Int.{ℤ, pos, negsuc}
use nexus_kernel.Prelude.Words.{add32}
use nexus_kernel.Tasks.{
  Tasks, Process, CpuContext, ready, running, terminated, null, max_processes, put,
}

abbrev pub kernel_stack_size : ℕ
kernel_stack_size = 8192

abbrev pub name_max : ℕ
name_max = 64

pub record Answers : Type 0 where
  pub proc : ℕ
  pub directory : ℕ
  pub physical_addr : ℕ
  pub stack : ℕ

-- What `process_create` gives back when it fails.
pub data Released : Type 0 where
  block : ℕ → Released
  address_space : ℕ → Released

abbrev pub zero_context : CpuContext
zero_context = record {
  eax = 0;
  ebx = 0;
  ecx = 0;
  edx = 0;
  esi = 0;
  edi = 0;
  ebp = 0;
  esp = 0;
  eip = 0;
  eflags = 0;
  cs = 0;
  ds = 0;
  es = 0;
  fs = 0;
  gs = 0;
  ss = 0;
  cr3 = 0;
}

-- The context of a new process that starts at `entry`.
unfoldable pub entry_context : ℕ → ℕ → ℕ → CpuContext
entry_context entry stack_top cr3 = record zero_context {
  eip = entry;
  cs = 0x08;
  ds = 0x10;
  es = 0x10;
  fs = 0x10;
  gs = 0x10;
  ss = 0x10;
  esp = stack_top;
  ebp = stack_top;
  eflags = 0x202;
  cr3 = cr3;
}

-- The first free slot of the table among `rounds` slots from `i` on: each of the two `for` loops of
-- `process_get_next_pid`.
unfoldable pub free_slot : ℕ → ℕ → List ℕ → Option ℕ
free_slot zero i table = none
free_slot (suc rounds) i table =
    let rest = free_slot rounds (i + 1) table in
    if get_or table i null == null then some i else rest

-- `process_get_next_pid`; `none` stands for -1.
unfoldable pub get_next_pid : Tasks → Option ℕ × Tasks
get_next_pid t = elim (free_slot (max_processes - t.next_pid) t.next_pid t.process_table) [
  | some i ↦ (some i, record t { next_pid = i + 1 })
  | none ↦ elim (free_slot (t.next_pid - 1) 1 t.process_table) [
    | some i ↦ (some i, record t { next_pid = i + 1 })
    | none ↦ (none, t)
  ]
]

-- The struct as `process_create` fills it; the state is set to CREATED first and to READY last.
unfoldable pub new_process : Tasks → ℕ → List ℕ → ℕ → ℕ → Answers → Process
unfolding entry_context
new_process t pid name entry priority a =
    let stack_top = add32 a.stack kernel_stack_size in
    record {
      pid = pid;
      parent_pid = if t.current_process == null then 0 else (t.procs t.current_process).pid;
      name = take (name_max - 1) name;
      state = ready;
      priority = priority;
      exit_code = 0;
      context = if entry == 0 then zero_context else entry_context entry stack_top a.physical_addr;
      page_directory = a.directory;
      kernel_stack = stack_top;
      user_stack = 0;
      next = null;
    }

-- `process_create` from the answer of `process_get_next_pid` on: the new process or null, the state
-- after it, and what it gave back.
unfoldable pub create_with :
    Tasks → List ℕ → ℕ → ℕ → Answers → Option ℕ × Tasks → ℕ × Tasks × List Released
create_with t name entry priority a (none, t1) = (null, t1, [])
create_with t name entry priority a (some i, t1) =
    if a.proc == null
    then (null, t1, [])
    else if a.directory == null
    then (null, t1, block a.proc ∷ [])
    else if a.stack == null
    then (null, t1, address_space a.directory ∷ block a.proc ∷ [])
    else (
      a.proc,
      record t1 {
        procs = put t1.procs a.proc (new_process t i name entry priority a);
        process_table = set t1.process_table i a.proc;
      },
      [],
    )

unfoldable pub process_create : Tasks → List ℕ → ℕ → ℕ → Answers → ℕ × Tasks × List Released
process_create t name entry priority a = create_with t name entry priority a (get_next_pid t)

-- `process_init`: an empty table, and the idle process as the current one. `kernel_directory` is
-- what `vmm_get_kernel_directory` returns.
unfoldable pub process_init : Tasks → ℕ → Answers → Tasks
process_init t kernel_directory a =
    let t0 = record t { process_table = replicate max_processes null; current_process = null } in
    let (idle, t1, _) = process_create t0 (b'i' ∷ b'd' ∷ b'l' ∷ b'e' ∷ []) 0 0 a in
    if idle == null then t1 else record t1 {
      procs =
          put t1.procs idle (record (t1.procs idle) {
            pid = 0;
            state = running;
            page_directory = kernel_directory;
          });
      current_process = idle;
    }

unfoldable pub process_terminate : Tasks → ℕ → ℕ → Tasks
process_terminate t proc exit_code =
    let p = t.procs proc in
    let ended = record p { state = terminated; exit_code = exit_code } in
    if proc == null then t else record t {
      procs = put t.procs proc ended;
      process_table =
          if ltb 0 p.pid && ltb p.pid max_processes
          then set t.process_table p.pid null
          else t.process_table;
    }

unfoldable pub get_by_pid : Tasks → ℤ → ℕ
get_by_pid t (negsuc n) = null
get_by_pid t (pos n) = if leb max_processes n then null else get_or t.process_table n null
