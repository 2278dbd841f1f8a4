-- ===== src/Tasks/Machine.antt =====
-- The registers that the switch of kernel/process/scheduler.c saves and loads.
use nexus_kernel.Prelude.{ℕ, ◌≡◌, refl, ◌∙◌, ◌==◌, if◌then◌else◌, inl, inr, Bool-cases, arith}
use nexus_kernel.Prelude.Words.{sub32}
use nexus_kernel.Tasks.{
  Tasks, CpuContext, Cpu, ProcessState, null, ready, running, set_state, set_next, put,
}
use nexus_kernel.Tasks.Scheduler.{scheduler_add, context_switch, dispatch}
use nexus_kernel.Tasks.Rotate.{current_runs}

-- What a switch to `n` loads: its stack pointer, its address to go on at, its kernel stack, and its
-- directory if it has one.
abbrev pub loaded : Tasks → ℕ → Cpu
loaded t n = record {
  esp = (t.procs n).context.esp;
  eip = (t.procs n).context.eip;
  tss_esp0 = (t.procs n).kernel_stack;
  directory =
      if (t.procs n).page_directory == null then t.cpu.directory else (t.procs n).page_directory;
  resume_label = t.cpu.resume_label;
}

-- What it keeps of the process that gives the machine up: the stack pointer below one word more,
-- and where to go on.
abbrev pub saved : Tasks → CpuContext → CpuContext
saved t c = record c { esp = sub32 t.cpu.esp 4; eip = t.cpu.resume_label }

-- A change that keeps what a switch loads and saves.
record Keeps (t t' : Tasks) : Type 0 where
  cpu : t'.cpu ≡ t.cpu
  context : (a : ℕ) → (t'.procs a).context ≡ (t.procs a).context
  stack : (a : ℕ) → (t'.procs a).kernel_stack ≡ (t.procs a).kernel_stack
  directory : (a : ℕ) → (t'.procs a).page_directory ≡ (t.procs a).page_directory

set_state-Keeps : (t : Tasks) (p : ℕ) (s : ProcessState) → Keeps t (set_state t p s)
unfolding set_state put
set_state-Keeps t p s = record {
  cpu = ground arith;
  context = λ a. ground arith;
  stack = λ a. ground arith;
  directory = λ a. ground arith;
}

scheduler_add-Keeps : (t : Tasks) (p : ℕ) → Keeps t (scheduler_add t p)
unfolding scheduler_add set_next put
scheduler_add-Keeps t p = record {
  cpu = ground arith;
  context = λ a. ground arith;
  stack = λ a. ground arith;
  directory = λ a. ground arith;
}

trans : (t u v : Tasks) → Keeps t u → Keeps u v → Keeps t v
trans t u v h k = record {
  cpu = k.cpu ∙ h.cpu;
  context = λ a. k.context a ∙ h.context a;
  stack = λ a. k.stack a ∙ h.stack a;
  directory = λ a. k.directory a ∙ h.directory a;
}

-- The machine and the saved registers after a switch from `p` to `n`.
abbrev pub Switched : Tasks → ℕ → ℕ → Tasks → Type 0
Switched t p n t' =
    (t'.cpu ≡ (if p == n then t.cpu else loaded t n))
    × ((a : ℕ)
        → (t'.procs a).context ≡ (
            if p == n
            then (t.procs a).context
            else if a == p
            then saved t (t.procs p).context
            else (t.procs a).context))

context_switch-Switched :
    (t u : Tasks) (p n : ℕ) → Keeps t u → Switched t p n (context_switch u p n)
unfolding context_switch put
context_switch-Switched t u p n k = (
  ground (arith, k.cpu, k.context n, k.stack n, k.directory n),
  λ a. ground (arith, k.cpu, k.context a, k.context p),
)

-- The first process taken off the queue.
abbrev taken : Tasks → Tasks
taken t = record t {
  ready_head = (t.procs t.ready_head).next;
  ready_tail = if (t.procs t.ready_head).next == null then null else t.ready_tail;
}

-- A dispatch switches from the current process to the first of the queue.
pub dispatch-Switched : (t : Tasks) → Switched t t.current_process t.ready_head (dispatch t)
unfolding dispatch
dispatch-Switched t =
    let current = t.current_process in
    let first : Keeps t (taken t) = record {
      cpu = refl;
      context = λ a. refl;
      stack = λ a. refl;
      directory = λ a. refl;
    } in
    let again = set_state (taken t) current ready in
    let kept = trans t (taken t) again first (set_state-Keeps (taken t) current ready) in
    let added =
      trans t again (scheduler_add again current) kept (scheduler_add-Keeps again current) in
    elim (Bool-cases (current_runs t)) [
      | inl runs ↦ rw runs (
          context_switch-Switched t _ current t.ready_head (
            trans t (scheduler_add again current)
              (set_state (scheduler_add again current) t.ready_head running) added
              (set_state-Keeps (scheduler_add again current) t.ready_head running)))
      | inr waits ↦ rw waits (
          context_switch-Switched t _ current t.ready_head (
            trans t (taken t) (set_state (taken t) t.ready_head running) first
              (set_state-Keeps (taken t) t.ready_head running)))
    ]
