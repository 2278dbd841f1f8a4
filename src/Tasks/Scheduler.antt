-- ===== src/Tasks/Scheduler.antt =====
-- kernel/process/scheduler.c: the ready queue, linked through the `next` fields of the processes,
-- and the switch to its first process.
use nexus_kernel.Prelude.{
  ℕ, zero, suc, ◌-◌, Bool, true, false, not, ◌&&◌, ◌||◌, Option, none, some, ltb, ◌==◌,
  if◌then◌else◌,
}
use nexus_kernel.Prelude.Words.{sub32}
use nexus_kernel.Tasks.{Tasks, ProcessState, ready, running, null, put, set_next, set_state}

abbrev pub quantum : ℕ
quantum = 20

unfoldable pub scheduler_init : Tasks → Tasks
scheduler_init t = record t {
  ready_head = null;
  ready_tail = null;
  ticks_remaining = quantum;
  scheduler_enabled = true;
}

unfoldable pub scheduler_add : Tasks → ℕ → Tasks
unfolding set_next
scheduler_add t proc =
    let t1 = set_next t proc null in
    if proc == null
    then t
    else if t.ready_head == null
    then record t1 { ready_head = proc; ready_tail = proc }
    else record (set_next t1 t1.ready_tail proc) { ready_tail = proc }

-- The `while` loop of `scheduler_remove` on fuel; `none` means that the fuel ran out.
unfoldable pub find_prev : ℕ → Tasks → ℕ → ℕ → Option ℕ
find_prev zero t proc prev = none
find_prev (suc fuel) t proc prev = elim (not (prev == null) && not ((t.procs prev).next == proc)) [
  | true ↦ find_prev fuel t proc (t.procs prev).next
  | false ↦ some prev
]

-- Taking `proc` out behind `prev`, or nothing if the walk came to the end.
unfoldable pub unlink : Tasks → ℕ → ℕ → Tasks
unlink t proc prev =
    if prev == null
    then t
    else let t1 = set_next t prev (t.procs proc).next in
      let t2 = if t.ready_tail == proc then record t1 { ready_tail = prev } else t1 in
      set_next t2 proc null

unfoldable pub scheduler_remove : ℕ → Tasks → ℕ → Option Tasks
scheduler_remove fuel t proc =
    if proc == null
    then some t
    else if t.ready_head == proc
    then some (
        set_next
          (record t {
            ready_head = (t.procs proc).next;
            ready_tail = if (t.procs proc).next == null then null else t.ready_tail;
          })
          proc null)
    else elim (find_prev fuel t proc t.ready_head) [
      | none ↦ none
      | some prev ↦ some (unlink t proc prev)
    ]

-- The stack pointer and the resume address go into the context of `prev`, those of `next` into the
-- machine.
unfoldable pub context_switch : Tasks → ℕ → ℕ → Tasks
context_switch t prev next =
    let n = t.procs next in
    let p = t.procs prev in
    let saved = record (p.context) { esp = sub32 t.cpu.esp 4; eip = t.cpu.resume_label } in
    if prev == next then t else record t {
      procs = put t.procs prev (record p { context = saved });
      cpu = record (t.cpu) {
        esp = n.context.esp;
        eip = n.context.eip;
        tss_esp0 = n.kernel_stack;
        directory = if n.page_directory == null then t.cpu.directory else n.page_directory;
      };
    }

unfoldable pub is_running : ProcessState → Bool
is_running running = true
is_running _ = false

-- What `scheduler_tick` and `scheduler_yield` do alike: take the first process off the queue, put
-- the current one behind it if it runs, and switch.
unfoldable pub dispatch : Tasks → Tasks
unfolding is_running
dispatch t =
    let current = t.current_process in
    let next = t.ready_head in
    let rest = (t.procs next).next in
    let t1 = record t {
      ready_head = rest;
      ready_tail = if rest == null then null else t.ready_tail;
    } in
    let t2 =
      if is_running (t1.procs current).state
      then scheduler_add (set_state t1 current ready) current
      else t1 in
    context_switch (set_state t2 next running) current next

unfoldable pub scheduler_tick : Tasks → Tasks
scheduler_tick t =
    let t1 = record t { ticks_remaining = quantum } in
    if not t.scheduler_enabled
    then t
    else if ltb 0 t.ticks_remaining
    then record t { ticks_remaining = t.ticks_remaining - 1 }
    else if t.current_process == null
    then t1
    else if t.ready_head == null
    then t1
    else if t.ready_head == t.current_process
    then t1
    else dispatch t1

unfoldable pub scheduler_yield : Tasks → Tasks
scheduler_yield t =
    if t.current_process == null || t.ready_head == null
    then t
    else dispatch (record t { ticks_remaining = quantum })

unfoldable pub scheduler_block_current : Tasks → ProcessState → Tasks
scheduler_block_current t reason =
    if t.current_process == null then t else scheduler_yield (set_state t t.current_process reason)

unfoldable pub scheduler_unblock : Tasks → ℕ → Tasks
scheduler_unblock t proc = if proc == null then t else scheduler_add (set_state t proc ready) proc
