-- ===== src/Kernel/Calls.antt =====
-- The system calls of kernel/syscall/syscall.c over the state of a kernel that runs.
use nexus_kernel.Prelude.{
  leb, Bool, ℕ, ◌-◌, ◌^◌, ◌≡◌, List, true, false, Option, none, some, ◌==◌, if◌then◌else◌, not,
  ◌||◌, arith,
}
use nexus_kernel.Prelude.Int.{ℤ, pos, negsuc}
use nexus_kernel.Console.{Console}
use nexus_kernel.Tasks.{Tasks, put, terminated}
use nexus_kernel.Tasks.Queue.{Linked-frame}
use nexus_kernel.Tasks.Scheduler.{is_running}
use nexus_kernel.Tasks.Lifecycle.{process_terminate}
use nexus_kernel.Tasks.Rotate.{IsOrderly}
use nexus_kernel.Tasks.Ticks.{scheduler_yield-IsOrderly}
use nexus_kernel.Fs.{null, Ramfs}
use nexus_kernel.Fs.Vfs.{vfs_resolve_path, vfs_open, vfs_mkdir, vfs_unlink}
use nexus_kernel.Kernel.{Kernel}
use nexus_kernel.Kernel.Syscall.{
  Registers, Syscall, sys_exit, sys_read, sys_write, sys_open, sys_close, sys_fork, sys_getpid,
  sys_yield, sys_sbrk, sys_mkdir, sys_unlink, sys_stat, exit, write_chars, perform, syscall_handler,
  call_at, num_syscalls, syscall_table, to_eax,
}
use nexus_kernel.Kernel.Running.{IsRunning}

exit-IsOrderly :
    (t : Tasks) (xs : List ℕ) (code : ℕ)
    → IsOrderly t xs
    → IsOrderly (process_terminate t t.current_process code) xs
unfolding process_terminate put is_running
exit-IsOrderly t xs code o =
    let given : (t.current_process == null) ≡ false = ground (arith, o.present) in
    rw given (record {
      queue = record {
        chain =
            Linked-frame t.procs
              (put t.procs t.current_process
                (record (t.procs t.current_process) { state = terminated; exit_code = code }))
              t.ready_head xs o.queue.chain (λ a h. ground arith);
        distinct = o.queue.distinct;
        tail = o.queue.tail;
      };
      present = o.present;
      not_twice = λ h. ground arith;
    })

-- The state in a result, if there is one, is such a state.
abbrev pub Keeps : {A : Type 0} → Option (A × Kernel) → Type 0
Keeps none = Unit
Keeps (some r) = IsRunning r.1

with_console : (k : Kernel) (c : Console) → IsRunning k → IsRunning (record k { console = c })
with_console k c r = record {
  timer_entered = r.timer_entered;
  key_entered = r.key_entered;
  waiting = r.waiting;
  orderly = r.orderly;
  typed = r.typed;
  holds = r.holds;
}

with_fs : (k : Kernel) (fs : Ramfs) → IsRunning k → IsRunning (record k { fs = fs })
with_fs k fs r = record {
  timer_entered = r.timer_entered;
  key_entered = r.key_entered;
  waiting = r.waiting;
  orderly = r.orderly;
  typed = r.typed;
  holds = r.holds;
}

with_tasks :
    (k : Kernel) (t : Tasks) (xs : List ℕ)
    → IsOrderly t xs
    → IsRunning k
    → IsRunning (record k { tasks = t })
with_tasks k t xs o r = record {
  timer_entered = r.timer_entered;
  key_entered = r.key_entered;
  waiting = xs;
  orderly = o;
  typed = r.typed;
  holds = r.holds;
}

fs-Keeps :
    (k : Kernel) (o : Option (ℤ × Ramfs))
    → IsRunning k
    → Keeps (elim o as (λ x. Option (ℤ × Kernel)) [
      | none ↦ none
      | some r ↦ some (r.0, record k { fs = r.1 })
    ])
fs-Keeps k none r = tt
fs-Keeps k (some x) r = with_fs k x.1 r

module _ (fuel : ℕ) (string_at : ℕ → List ℕ) (node : ℕ) (regs : Registers) (k : Kernel)
    (r : IsRunning k) where
  exit-IsRunning : IsRunning (exit regs.ebx k)
  unfolding exit
  exit-IsRunning =
      let t = k.tasks in
      let given : (t.current_process == null) ≡ false = ground (arith, r.orderly.present) in
      let ended = exit-IsOrderly t r.waiting regs.ebx r.orderly in
      rw given (
        with_tasks k _ _
          (scheduler_yield-IsOrderly (process_terminate t t.current_process regs.ebx) r.waiting
            ended)
          r)

  perform-Keeps : (s : Syscall) → Keeps (perform fuel string_at node s regs k)
  unfolding perform
  perform-Keeps sys_exit = exit-IsRunning
  perform-Keeps sys_read = r
  perform-Keeps sys_write =
      elim (regs.ebx == 1 || regs.ebx == 2)
        as (λ b. Keeps (elim b as (λ x. Option (ℤ × Kernel)) [
          | true ↦ elim (write_chars string_at regs.edx regs.ecx k.fs k.console) [
            | none ↦ none
            | some c ↦ some (pos regs.edx, record k { console = c })
          ]
          | false ↦ some (negsuc 0, k)
        ])) [
          | true ↦
              elim (write_chars string_at regs.edx regs.ecx k.fs k.console)
                as (λ o. Keeps (elim o as (λ x. Option (ℤ × Kernel)) [
                  | none ↦ none
                  | some c ↦ some (pos regs.edx, record k { console = c })
                ])) [ none ↦ tt | some c ↦ with_console k c r ]
          | false ↦ r
        ]
  perform-Keeps sys_open =
      elim (vfs_resolve_path fuel k.fs k.vfs (not (regs.ebx == null)) (string_at regs.ebx))
        as (λ o. Keeps (elim o as (λ x. Option (ℤ × Kernel)) [
          | none ↦ none
          | some found ↦ some (if found == null then negsuc 0 else vfs_open k.fs found regs.ecx, k)
        ])) [ none ↦ tt | some found ↦ r ]
  perform-Keeps sys_close = r
  perform-Keeps sys_fork = r
  perform-Keeps sys_getpid = r
  perform-Keeps sys_yield =
      with_tasks k _ _ (scheduler_yield-IsOrderly k.tasks r.waiting r.orderly) r
  perform-Keeps sys_sbrk = r
  perform-Keeps sys_mkdir =
      elim (k.vfs.vfs_root == null)
        as (λ b. Keeps (elim b as (λ x. Option (ℤ × Kernel)) [
          | true ↦ some (negsuc 0, k)
          | false ↦ elim (vfs_mkdir fuel k.fs node k.vfs.vfs_root (string_at regs.ebx) regs.ecx) [
            | none ↦ none
            | some x ↦ some (x.0, record k { fs = x.1 })
          ]
        ])) [
          | true ↦ r
          | false ↦
              fs-Keeps k (vfs_mkdir fuel k.fs node k.vfs.vfs_root (string_at regs.ebx) regs.ecx) r
        ]
  perform-Keeps sys_unlink =
      elim (k.vfs.vfs_root == null)
        as (λ b. Keeps (elim b as (λ x. Option (ℤ × Kernel)) [
          | true ↦ some (negsuc 0, k)
          | false ↦ elim (vfs_unlink fuel k.fs k.vfs.vfs_root (string_at regs.ebx)) [
            | none ↦ none
            | some x ↦ some (x.0, record k { fs = x.1 })
          ]
        ])) [
          | true ↦ r
          | false ↦ fs-Keeps k (vfs_unlink fuel k.fs k.vfs.vfs_root (string_at regs.ebx)) r
        ]
  perform-Keeps sys_stat = r

  result-Keeps :
      (o : Option (ℤ × Kernel))
      → Keeps o
      → Keeps
          (elim o as (λ x. Option (ℕ × Kernel)) [ none ↦ none | some x ↦ some (to_eax x.0, x.1) ])
  result-Keeps none h = tt
  result-Keeps (some x) h = h

  in_table-Keeps :
      (o : Option Syscall)
      → Keeps (elim o as (λ x. Option (ℕ × Kernel)) [
        | none ↦ none
        | some s ↦ elim (perform fuel string_at node s regs k) [
          | none ↦ none
          | some x ↦ some (to_eax x.0, x.1)
        ]
      ])
  in_table-Keeps none = tt
  in_table-Keeps (some s) = result-Keeps (perform fuel string_at node s regs k) (perform-Keeps s)

  guarded-Keeps :
      (o : Option (ℕ × Kernel)) (b : Bool)
      → Keeps o
      → Keeps (elim b as (λ x. Option (ℕ × Kernel)) [ true ↦ some (2 ^ 32 - 1, k) | false ↦ o ])
  guarded-Keeps o true h = r
  guarded-Keeps o false h = h

  pub syscall_handler-Keeps : Keeps (syscall_handler fuel string_at node regs k)
  unfolding syscall_handler
  syscall_handler-Keeps =
      guarded-Keeps _ (leb num_syscalls regs.eax) (in_table-Keeps (call_at syscall_table regs.eax))
