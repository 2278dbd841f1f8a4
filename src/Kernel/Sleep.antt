-- ===== src/Kernel/Sleep.antt =====
-- `timer_sleep` of kernel/drivers/timer.c: when it ends.
use nexus_kernel.Prelude.{
  ℕ, zero, suc, ◌+◌, ◌*◌, ◌/◌, ◌%◌, ◌^◌, ◌<◌, ◌≤◌, ◌≡◌, subst, ◌⊎◌, Bool, true, false, leb,
  Bool-cases, inl, inr, arith,
}
use nexus_kernel.Tasks.{null}
use nexus_kernel.Tasks.Scheduler.{scheduler_tick}
use nexus_kernel.Kernel.{
  Kernel, SleepState, awake, waiting, leaves, on_timer, wake_at, sleep_until, timer_sleep,
}

ticks-on_timer :
    (k : Kernel)
    → k.timer.timer_ticks + 1 < 2 ^ 64
    → (on_timer k).timer.timer_ticks ≡ k.timer.timer_ticks + 1
unfolding on_timer
ticks-on_timer k h = omega (arith, h)

-- No tick gives the machine away while `needed` of them come: nothing is queued, or the quantum
-- lasts that long.
abbrev pub Undisturbed : ℕ → Kernel → Type 0
Undisturbed needed k = (k.tasks.ready_head ≡ null) ⊎ (needed ≤ k.tasks.ticks_remaining)

on_timer-Undisturbed :
    (needed : ℕ) (k : Kernel) → Undisturbed (suc needed) k → Undisturbed needed (on_timer k)
unfolding on_timer scheduler_tick
on_timer-Undisturbed needed k u = ground (arith, u)

stays : (needed : ℕ) (k : Kernel) → Undisturbed (suc needed) k → leaves k.tasks ≡ false
stays needed k u = ground (arith, u)

sleep_until_lem :
    (n needed : ℕ) (k : Kernel)
    → k.timer.timer_ticks + needed < 2 ^ 64
    → needed ≤ n
    → Undisturbed needed k
    → (k' : Kernel) × (sleep_until n (k.timer.timer_ticks + needed) k ≡ awake k')
      × (k'.timer.timer_ticks ≡ k.timer.timer_ticks + needed)
unfolding sleep_until
sleep_until_lem zero needed k room h u = (k, ground (arith, h), omega (arith, h))
sleep_until_lem (suc n) zero k room h u = (k, ground arith, omega arith)
sleep_until_lem (suc n) (suc needed) k room h u =
    let t = ticks-on_timer k (omega (arith, room)) in
    let (k', ends, count) =
      sleep_until_lem n needed (on_timer k) (omega (arith, t, room)) (omega (arith, h))
        (on_timer-Undisturbed needed k u) in
    let target : (on_timer k).timer.timer_ticks + needed ≡ k.timer.timer_ticks + suc needed =
      omega (arith, t) in
    let ends' = subst (λ g. sleep_until n g (on_timer k) ≡ awake k') target ends in
    (k', ground (arith, stays needed k u, ends'), omega (arith, count, t))

sleep_until-waiting :
    (n needed : ℕ) (k : Kernel)
    → k.timer.timer_ticks + needed < 2 ^ 64
    → n < needed
    → Undisturbed n k
    → (k' : Kernel) × (sleep_until n (k.timer.timer_ticks + needed) k ≡ waiting k')
      × (k'.timer.timer_ticks ≡ k.timer.timer_ticks + n)
unfolding sleep_until
sleep_until-waiting zero needed k room h u = (k, ground (arith, h), omega arith)
sleep_until-waiting (suc n) zero k room h u = absurd (omega (arith, h))
sleep_until-waiting (suc n) (suc needed) k room h u =
    let t = ticks-on_timer k (omega (arith, room)) in
    let (k', ends, count) =
      sleep_until-waiting n needed (on_timer k) (omega (arith, t, room)) (omega (arith, h))
        (on_timer-Undisturbed n k u) in
    let target : (on_timer k).timer.timer_ticks + needed ≡ k.timer.timer_ticks + suc needed =
      omega (arith, t) in
    let ends' = subst (λ g. sleep_until n g (on_timer k) ≡ waiting k') target ends in
    (k', ground (arith, stays n k u, ends'), omega (arith, count, t))

-- A sleep that has ended, or waits, with the count so much higher.
abbrev pub Sleeps : Bool → ℕ → ℕ → Kernel → SleepState → Type 0
Sleeps true needed interrupts k result =
    (k' : Kernel) × (result ≡ awake k') × (k'.timer.timer_ticks ≡ k.timer.timer_ticks + needed)
Sleeps false needed interrupts k result =
    (k' : Kernel) × (result ≡ waiting k')
    × (k'.timer.timer_ticks ≡ k.timer.timer_ticks + interrupts)

-- Let `needed` be the product of the time and the frequency, below 2^32, in thousandths, let the
-- count not overflow, and let no process be queued or the quantum last for `needed` ticks. Then
-- `timer_sleep` ends, without a switch of processes, when `needed` interrupts of the timer have
-- come, at a count that is just so much higher, and waits while fewer have come.
pub timer_sleep_lem :
    (interrupts ms : ℕ) (k : Kernel)
    → ms * k.timer.timer_frequency < 2 ^ 32
    → k.timer.timer_ticks + ms * k.timer.timer_frequency / 1000 < 2 ^ 64
    → Undisturbed (ms * k.timer.timer_frequency / 1000) k
    → let needed = ms * k.timer.timer_frequency / 1000 in
      Sleeps (leb needed interrupts) needed interrupts k (timer_sleep interrupts ms k)
unfolding timer_sleep
timer_sleep_lem n ms k small room u =
    let needed = ms * k.timer.timer_frequency / 1000 in
    let target : wake_at k.timer ms ≡ k.timer.timer_ticks + needed = omega (arith, small, room) in
    elim (Bool-cases (leb needed n)) [
      | inl enough ↦
          rw enough (rw target (sleep_until_lem n needed k room (ground (arith, enough)) u))
      | inr few ↦
          let fewer : n < needed = ground (arith, few) in
          rw few (rw target (sleep_until-waiting n needed k room fewer (ground (arith, u, fewer))))
    ]

-- Where the product of the time and the frequency, cut to 32 bits, is below 1000, `timer_sleep`
-- does not wait at all, however long the time.
timer_sleep_short :
    (ms : ℕ) (k : Kernel)
    → k.timer.timer_ticks < 2 ^ 64
    → ms * k.timer.timer_frequency % 2 ^ 32 < 1000
    → timer_sleep 0 ms k ≡ awake k
unfolding timer_sleep sleep_until
timer_sleep_short ms k h small =
    let now : wake_at k.timer ms ≡ k.timer.timer_ticks = omega (arith, h, small) in
    rw now (ground arith)
