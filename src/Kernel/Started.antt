-- ===== src/Kernel/Started.antt =====
-- The part of kernel/kernel_main.c that sets the drivers up.
use nexus_kernel.Prelude.{
  ℕ, ◌/◌, ◌<◌, ◌≡◌, ◌≢◌, refl, ◌∙◌, Bool, true, false, ◌==◌, Option, some, Bool-cases, inl, inr,
  List, [], ◌∷◌, arith,
}
use nexus_kernel.Prelude.Int.{ℤ, pos, negsuc}
use nexus_kernel.Libc.Names.{Name}
use nexus_kernel.Cpu.Idt.{timer_callback, keyboard_callback, isr_register_handler}
use nexus_kernel.Kheap.{null}
use nexus_kernel.Drivers.{
  Manager, enter, driver_manager_init, driver_register, driver_load, max_drivers,
}
use nexus_kernel.Drivers.Registry.{IsRegistry, named}
use nexus_kernel.Drivers.Register.{
  driver_manager_init-IsRegistry, accepts, driver_register_lem, Registered,
}
use nexus_kernel.Drivers.Load.{driver_load_lem, load_code}
use nexus_kernel.Keyboard
use nexus_kernel.Keyboard.{buffer_size}
use nexus_kernel.Kernel.{Kernel, timer_name, timer_init, pit_freq, set_divisor}
use nexus_kernel.Kernel.Boot.{Image, timer_hz, keyboard_name, start_keyboard, start_drivers}

-- A call on a well-formed list of drivers ends, and leaves a well-formed list.
abbrev Ends : Option (ℤ × Manager) → Type 0
Ends o = (r : ℤ × Manager) × (o ≡ some r) × (ys : List ℕ) × IsRegistry r.1 ys

module _ (fuel : ℕ) (enough : max_drivers < fuel) (m : Manager) (xs : List ℕ)
    (r : IsRegistry m xs) where
  driver_register-Ends : (drv : ℕ) → Ends (driver_register fuel m drv)
  driver_register-Ends drv = by_case (accepts m xs drv) (driver_register_lem fuel enough m xs r drv)
    where
      by_case : (b : Bool) → Registered fuel enough m xs r drv b → Ends (driver_register fuel m drv)
      by_case true h = ((pos 0, enter m drv), h.0, drv ∷ xs, h.1)
      by_case false h = ((negsuc 0, m), h, xs, r)

  driver_load-Ends : (ret : ℕ → ℤ) (name : Name) → Ends (driver_load fuel ret m name)
  driver_load-Ends ret name =
      let l = driver_load_lem fuel enough m xs r name ret in
      elim (Bool-cases (named m.drivers name xs == null)) [
        | inl h ↦ ((negsuc 0, m), l.1 ∙ rw h refl, xs, r)
        | inr h ↦ (
          (load_code ret (m.drivers (named m.drivers name xs)) (named m.drivers name xs), l.0),
          l.1 ∙ rw h refl,
          xs,
          l.2.list,
        )
      ]

module _ (fuel : ℕ) (enough : max_drivers < fuel) (ret : ℕ → ℤ) (drv : ℕ) (k : Kernel) (xs : List ℕ)
    (r : IsRegistry k.manager xs) where
  -- What setting a driver up leads to: the kernel with the list of drivers `ys`.
  abbrev Started : Option Kernel → (Manager → Kernel) → Type 0
  Started o made = (m' : Manager) × (o ≡ some (made m')) × (ys : List ℕ) × IsRegistry m' ys

  abbrev with_timer : ℕ → Manager → Kernel
  with_timer frequency m = record k {
    timer = record { timer_ticks = 0; timer_frequency = frequency };
    idt = isr_register_handler (set_divisor (pit_freq / frequency) k.idt) 32 timer_callback;
    manager = m;
  }

  timer_init_lem :
      (frequency : ℕ)
      → frequency ≢ 0
      → Started (timer_init fuel ret drv frequency k) (with_timer frequency)
  unfolding timer_init
  timer_init_lem frequency nz =
      let test : (frequency == 0) ≡ false = ground (arith, nz) in
      let a = driver_register-Ends fuel enough k.manager xs r drv in
      let b = driver_load-Ends fuel enough a.0.1 a.2 a.3 ret timer_name in
      (b.0.1, ground (arith, test, a.1, b.1), b.2, b.3)

  abbrev with_keyboard : Manager → Kernel
  with_keyboard m = record k {
    keyboard = Keyboard.keyboard_init k.keyboard;
    idt = isr_register_handler k.idt 33 keyboard_callback;
    manager = m;
  }

  start_keyboard_lem : Started (start_keyboard fuel ret drv k) with_keyboard
  unfolding start_keyboard
  start_keyboard_lem =
      let a = driver_register-Ends fuel enough k.manager xs r drv in
      let b = driver_load-Ends fuel enough a.0.1 a.2 a.3 ret keyboard_name in
      (b.0.1, ground (arith, a.1, b.1), b.2, b.3)

pub start_drivers_lem :
    (fuel : ℕ) (im : Image) (k : Kernel)
    → max_drivers < fuel
    → (k' : Kernel) × (start_drivers fuel im k ≡ some k')
      × (k'.tasks ≡ k.tasks)
      × (k'.keyboard ≡ Keyboard.keyboard_init k.keyboard)
      × (k'.idt.isr_handlers 32 ≡ timer_callback)
      × (k'.idt.isr_handlers 33 ≡ keyboard_callback)
      × (ys : List ℕ) × IsRegistry k'.manager ys
unfolding start_drivers isr_register_handler
start_drivers_lem fuel im k enough =
    let k0 = record k { manager = driver_manager_init k.manager } in
    let a =
      timer_init_lem fuel enough im.ret im.timer_driver k0 []
        (driver_manager_init-IsRegistry k.manager) timer_hz (omega arith) in
    let k1 =
      with_timer fuel enough im.ret im.timer_driver k0 [] (driver_manager_init-IsRegistry k.manager)
        timer_hz a.0 in
    let b = start_keyboard_lem fuel enough im.ret im.keyboard_driver k1 a.2 a.3 in
    (
      with_keyboard fuel enough im.ret im.keyboard_driver k1 a.2 a.3 b.0,
      ground (arith, a.1, b.1),
      refl,
      refl,
      refl,
      refl,
      b.2,
      b.3,
    )
