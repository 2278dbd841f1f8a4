-- ===== src/Tasks/Tests.antt =====
-- process.c and scheduler.c at concrete states: two workers queued behind the idle process, as
-- `kernel_main` leaves them.
use nexus_kernel.Prelude.{
  ℕ, ◌≡◌, ◌≢◌, refl, ◌⊎◌, true, false, ◌&&◌, arith, ◌==◌, if◌then◌else◌, some, List, [], ◌∷◌,
  replicate, length-replicate,
}
use nexus_kernel.Tasks.{
  Tasks, Process, ProcessState, ready, running, null, max_processes, put, set_state,
}
use nexus_kernel.Tasks.Scheduler.{
  quantum, scheduler_add, scheduler_remove, scheduler_tick, scheduler_yield, dispatch,
  context_switch, is_running,
}
use nexus_kernel.Tasks.Queue.{IsQueue, has}
use nexus_kernel.Tasks.Remove.{scheduler_remove-IsQueue}
use nexus_kernel.Tasks.Machine.{Switched}
use nexus_kernel.Tasks.Rotate.{IsOrderly, rotated, current_runs}
use nexus_kernel.Tasks.Ticks.{
  scheduler_yield_lem, scheduler_tick_lem, after_tick, counted_down, tick, yield, run,
  never_requeued,
}
use nexus_kernel.Tasks.Lifecycle.{Answers, process_create, zero_context}
use nexus_kernel.Tasks.Table.{IsTable}
use nexus_kernel.Tasks.Create.{Made, Failed, process_create_lem}

-- A process in a state, with a successor.
abbrev proc : ProcessState → ℕ → Process
proc s n = record {
  pid = 5;
  parent_pid = 0;
  name = [];
  state = s;
  priority = 1;
  exit_code = 0;
  context = zero_context;
  page_directory = 0;
  kernel_stack = 0;
  user_stack = 0;
  next = n;
}

abbrev start : Tasks
start = record {
  procs = λ a. if a == 10 then proc running 0 else if a == 20 then proc ready 30 else proc ready 0;
  process_table = replicate max_processes null;
  current_process = 10;
  next_pid = 1;
  ready_head = 20;
  ready_tail = 30;
  ticks_remaining = 0;
  scheduler_enabled = true;
  cpu = record { esp = 0x9000; eip = 0; tss_esp0 = 0; directory = 0; resume_label = 0x1234 };
}

start-IsQueue : IsQueue start (20 ∷ 30 ∷ [])
start-IsQueue = record { chain = omega arith; distinct = (refl, (refl, tt)); tail = refl }

start-IsOrderly : IsOrderly start (20 ∷ 30 ∷ [])
unfolding is_running
start-IsOrderly = record { queue = start-IsQueue; present = omega arith; not_twice = λ h. cc }

start-IsTable : IsTable start
start-IsTable = record {
  size = length-replicate max_processes null;
  low = omega arith;
  high = omega arith;
}

-- After one tick the first worker runs and the idle process waits behind the second; after one more
-- both workers are marked as running, and only the idle process waits.
abbrev once : Tasks
once = scheduler_tick start

abbrev twice : Tasks
twice = scheduler_tick (record once { ticks_remaining = 0 })

lost_worker :
    (once.ready_head ≡ 30)
    × (twice.ready_head ≡ 10)
    × (twice.ready_tail ≡ 10)
    × ((twice.procs 20).state ≡ running)
    × ((twice.procs 30).state ≡ running)
unfolding scheduler_tick dispatch context_switch scheduler_add set_state put is_running
lost_worker = (refl, refl, refl, refl, refl)

scheduler_remove-IsQueue_example :
    (t' : Tasks) × (scheduler_remove 3 start 30 ≡ some t') × IsQueue t' (20 ∷ [])
scheduler_remove-IsQueue_example =
    scheduler_remove-IsQueue 3 start (20 ∷ 30 ∷ []) 30 start-IsQueue (omega arith) (omega arith)

scheduler_yield_lem_example :
    let t' = scheduler_yield start in
    IsOrderly t' (rotated start (30 ∷ []))
    × ((a : ℕ)
        → (t'.procs a).state ≡ (
            if a == 20
            then running
            else if a == start.current_process && current_runs start
            then ready
            else (start.procs a).state))
    × (t'.ticks_remaining ≡ quantum)
    × Switched start start.current_process 20 t'
scheduler_yield_lem_example = scheduler_yield_lem start 20 (30 ∷ []) start-IsOrderly

scheduler_tick_lem_example :
    let t' = scheduler_tick start in
    IsOrderly t' (after_tick start (20 ∷ 30 ∷ [])) × (t'.ticks_remaining ≡ counted_down start)
scheduler_tick_lem_example = scheduler_tick_lem start (20 ∷ 30 ∷ []) start-IsOrderly

never_requeued_example :
    let es = tick ∷ yield ∷ tick ∷ [] in
    (ys : List ℕ) × IsOrderly (run es start) ys
    × (has 40 ys ≡ false)
    × ((run es start).current_process ≡ 10)
never_requeued_example =
    never_requeued (tick ∷ yield ∷ tick ∷ []) start (20 ∷ 30 ∷ []) 40 start-IsOrderly (omega arith)
      refl

abbrev answers : Answers
answers = record { proc = 50; directory = 0x5000; physical_addr = 0x5000; stack = 0x7000 }

process_create_lem_example :
    let (p, t', back) = process_create start (b'a' ∷ []) 0x4000 1 answers in
    IsTable t'
    × (((p ≡ 50) × (p ≢ null) × (back ≡ []) × Made start answers t')
        ⊎ ((p ≡ null) × Failed start answers t' back))
process_create_lem_example = process_create_lem start (b'a' ∷ []) 0x4000 1 answers start-IsTable
