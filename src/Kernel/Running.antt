-- ===== src/Kernel/Running.antt =====
-- A kernel that runs: what holds of its state between interrupts and system calls, and that the
-- interrupts keep it.
use nexus_kernel.Prelude.{ℕ, ◌≡◌, ◌∙◌, List, arith}
use nexus_kernel.Cpu.Idt.{timer_callback, keyboard_callback, Idt, acknowledge, outb}
use nexus_kernel.Tasks.Rotate.{IsOrderly}
use nexus_kernel.Tasks.Ticks.{scheduler_tick_lem, after_tick}
use nexus_kernel.Keyboard.Ring.{Holds, press, keyboard_callback-Holds}
use nexus_kernel.Kernel.{Kernel, on_timer}
use nexus_kernel.Kernel.Irq.{irq_handler}

-- The handlers of the timer and the keyboard are entered, the scheduler's state is orderly, and the
-- keyboard's ring holds a queue of characters.
pub record IsRunning (k : Kernel) : Type 0 where
  pub timer_entered : k.idt.isr_handlers 32 ≡ timer_callback
  pub key_entered : k.idt.isr_handlers 33 ≡ keyboard_callback
  pub waiting : List ℕ
  pub orderly : IsOrderly k.tasks waiting
  pub typed : List ℕ
  pub holds : Holds k.keyboard typed

acknowledge-handlers :
    (i : Idt) (int_no n : ℕ) → (acknowledge i int_no).isr_handlers n ≡ i.isr_handlers n
unfolding acknowledge outb
acknowledge-handlers i int_no n = ground arith

pub tick-IsRunning : (k : Kernel) → IsRunning k → IsRunning (irq_handler 32 0 k)
unfolding irq_handler on_timer
tick-IsRunning k r = rw r.timer_entered (record {
  timer_entered = acknowledge-handlers k.idt 32 32 ∙ r.timer_entered;
  key_entered = acknowledge-handlers k.idt 32 33 ∙ r.key_entered;
  waiting = after_tick k.tasks r.waiting;
  orderly = (scheduler_tick_lem k.tasks r.waiting r.orderly).0;
  typed = r.typed;
  holds = r.holds;
})

pub key-IsRunning :
    (k : Kernel) (scancode : ℕ) → IsRunning k → IsRunning (irq_handler 33 scancode k)
unfolding irq_handler
key-IsRunning k scancode r = rw r.key_entered (record {
  timer_entered = acknowledge-handlers k.idt 33 32 ∙ r.timer_entered;
  key_entered = acknowledge-handlers k.idt 33 33 ∙ r.key_entered;
  waiting = r.waiting;
  orderly = r.orderly;
  typed = press scancode r.typed;
  holds = keyboard_callback-Holds scancode k.keyboard r.typed r.holds;
})
