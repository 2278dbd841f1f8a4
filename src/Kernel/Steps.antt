-- ===== src/Kernel/Steps.antt =====
-- What stays true of the kernel's state whatever interrupts and system calls come, in any order.
use nexus_kernel.Prelude.{ℕ, ◌≡◌, subst, List, some}
use nexus_kernel.Kernel.{Kernel}
use nexus_kernel.Kernel.Irq.{irq_handler}
use nexus_kernel.Kernel.Syscall.{Registers, syscall_handler}
use nexus_kernel.Kernel.Running.{IsRunning, tick-IsRunning, key-IsRunning}
use nexus_kernel.Kernel.Calls.{Keeps, syscall_handler-Keeps}

-- An interrupt of the timer, one of the keyboard, or a system call that ends.
pub data Step : Kernel → Kernel → Type 0 where
  tick : (k : Kernel) → Step k (irq_handler 32 0 k)
  key : (k : Kernel) (scancode : ℕ) → Step k (irq_handler 33 scancode k)
  call :
      (k k' : Kernel) (fuel : ℕ) (string_at : ℕ → List ℕ) (node : ℕ) (regs : Registers) (eax : ℕ)
      → syscall_handler fuel string_at node regs k ≡ some (eax, k')
      → Step k k'

pub data Steps : Kernel → Kernel → Type 0 where
  stay : (k : Kernel) → Steps k k
  go : (k k' k'' : Kernel) → Step k k' → Steps k' k'' → Steps k k''

Step-IsRunning : (k k' : Kernel) → Step k k' → IsRunning k → IsRunning k'
Step-IsRunning _ _ (tick k) r = tick-IsRunning k r
Step-IsRunning _ _ (key k scancode) r = key-IsRunning k scancode r
Step-IsRunning _ _ (call k k' fuel string_at node regs eax e) r =
    subst Keeps e (syscall_handler-Keeps fuel string_at node regs k r)

-- From a state in which the scheduler is orderly, the keyboard's ring holds a queue, and the
-- handlers of the timer and the keyboard are entered, any sequence of their interrupts and of
-- system calls that end, in any order, leads to such a state.
pub Steps-IsRunning : (k k' : Kernel) → Steps k k' → IsRunning k → IsRunning k'
Steps-IsRunning _ _ (stay k) r = r
Steps-IsRunning _ _ (go k k' k'' s ss) r = Steps-IsRunning k' k'' ss (Step-IsRunning k k' s r)
