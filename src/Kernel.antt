-- ===== src/Kernel.antt =====
-- The kernel's parts together: the timer of kernel/drivers/timer.c, and `irq_handler` of
-- kernel/cpu/idt.c with the functions that it calls through the table of handlers.
pub mod Syscall
pub mod Irq
pub mod Running
pub mod Calls
pub mod Steps
pub mod Refused
pub mod Write
pub mod Sleep
pub mod Boot
pub mod Started
pub mod Taken
pub mod SetUp
mod BootTests
mod Tests
use nexus_kernel.Prelude.{
  Bool, not, ◌&&◌, ◌||◌, ℕ, zero, suc, ◌+◌, ◌-◌, ◌*◌, ◌/◌, ◌%◌, ◌^◌, ◌==◌, if◌then◌else◌, ltb, true,
  false, Option, none, some, List, [], ◌∷◌,
}
use nexus_kernel.Prelude.Int.{ℤ}
use nexus_kernel.Libc.Names.{Name}
use nexus_kernel.Cpu.Idt.{Handler, timer_callback, Idt, outb, isr_register_handler}
use nexus_kernel.Tasks.{Tasks, null}
use nexus_kernel.Tasks.Scheduler.{scheduler_tick}
use nexus_kernel.Keyboard.{Keyboard}
use nexus_kernel.Drivers.{Manager, driver_register, driver_load}
use nexus_kernel.Console.{Console}
use nexus_kernel.Fs.{Ramfs}
use nexus_kernel.Fs.Vfs.{Vfs}

-- timer_ticks, timer_frequency
pub record Timer : Type 0 where
  pub timer_ticks : ℕ
  pub timer_frequency : ℕ

-- The states of the parts that interrupts and system calls reach.
pub record Kernel : Type 0 where
  pub idt : Idt
  pub timer : Timer
  pub tasks : Tasks
  pub keyboard : Keyboard
  pub manager : Manager
  pub console : Console
  pub fs : Ramfs
  pub vfs : Vfs

abbrev pub pit_freq : ℕ
pit_freq = 1193180

abbrev pub pit_channel0 : ℕ
pit_channel0 = 0x40

abbrev pub pit_cmd : ℕ
pit_cmd = 0x43

-- `timer_callback`; the counter has 64 bits.
unfoldable pub on_timer : Kernel → Kernel
on_timer k = record k {
  timer = record (k.timer) { timer_ticks = (k.timer.timer_ticks + 1) % 2 ^ 64 };
  tasks = scheduler_tick k.tasks;
}

-- "pit_timer"
abbrev pub timer_name : Name
timer_name = b'p' ∷ b'i' ∷ b't' ∷ b'_' ∷ b't' ∷ b'i' ∷ b'm' ∷ b'e' ∷ b'r' ∷ []

-- The three bytes that set the timer's divisor.
unfoldable pub set_divisor : ℕ → Idt → Idt
set_divisor divisor i =
    outb pit_channel0 (divisor / 256 % 256)
      (outb pit_channel0 (divisor % 256) (outb pit_cmd 0x36 i))

-- `timer_driver` is the address of the static struct and `ret` what the drivers' functions return.
-- A division by zero stops the machine.
unfoldable pub timer_init : ℕ → (ℕ → ℤ) → ℕ → ℕ → Kernel → Option Kernel
timer_init fuel ret timer_driver frequency k =
    let idt = isr_register_handler (set_divisor (pit_freq / frequency) k.idt) 32 timer_callback in
    elim (frequency == 0) [
      | true ↦ none
      | false ↦ elim (driver_register fuel k.manager timer_driver) [
        | none ↦ none
        | some registered ↦ elim (driver_load fuel ret registered.1 timer_name) [
          | none ↦ none
          | some loaded ↦ some (record k {
            timer = record { timer_ticks = 0; timer_frequency = frequency };
            idt = idt;
            manager = loaded.1;
          })
        ]
      ]
    ]

abbrev pub timer_get_ticks : Kernel → ℕ
timer_get_ticks k = k.timer.timer_ticks

-- The count of ticks at which `timer_sleep` ends; the product has 32 bits.
abbrev pub wake_at : Timer → ℕ → ℕ
wake_at t ms = (t.timer_ticks + ms * t.timer_frequency % 2 ^ 32 / 1000) % 2 ^ 64

-- The tick gives the machine to another process: the scheduler is on, the quantum is used up, and
-- another process is first in the queue.
abbrev pub leaves : Tasks → Bool
leaves t =
    t.scheduler_enabled
    && (t.ticks_remaining == 0
        && not (
            t.current_process == null
            || (t.ready_head == null || t.ready_head == t.current_process)))

-- How a sleep stands: it has ended, it waits for the next interrupt, or another process has the
-- machine.
pub data SleepState : Type 0 where
  awake : Kernel → SleepState
  waiting : Kernel → SleepState
  switched : Kernel → SleepState

-- The loop of `timer_sleep` while `interrupts` ticks of the timer come; a tick that switches
-- processes leaves it.
unfoldable pub sleep_until : ℕ → ℕ → Kernel → SleepState
sleep_until zero target k = if ltb k.timer.timer_ticks target then waiting k else awake k
sleep_until (suc interrupts) target k =
    let rest = sleep_until interrupts target (on_timer k) in
    if ltb k.timer.timer_ticks target
    then if leaves k.tasks then switched (on_timer k) else rest
    else awake k

unfoldable pub timer_sleep : ℕ → ℕ → Kernel → SleepState
timer_sleep interrupts ms k = sleep_until interrupts (wake_at k.timer ms) k
