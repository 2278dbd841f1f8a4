-- ===== src/Tasks/Ticks.antt =====
-- `scheduler_tick` and `scheduler_yield` of kernel/process/scheduler.c: when the queue is rotated,
-- and what a sequence of ticks and yields makes of it.
use nexus_kernel.Prelude.{
  ℕ, zero, suc, ◌-◌, ◌≤◌, ◌≡◌, ◌≢◌, refl, sym, subst, ◌∙◌, inl, inr, Bool, true, false, not, ◌&&◌,
  ◌||◌, arith, ◌==◌, if◌then◌else◌, Bool-cases, List, [], ◌∷◌,
}
use nexus_kernel.Tasks.{Tasks, null, ready, running}
use nexus_kernel.Tasks.Scheduler.{dispatch, scheduler_tick, scheduler_yield, quantum}
use nexus_kernel.Tasks.Queue.{has}
use nexus_kernel.Tasks.Machine.{Switched, dispatch-Switched}
use nexus_kernel.Tasks.Rotate.{
  IsOrderly, rotated, current_runs, has-rotated, dispatch-IsOrderly, state-dispatch,
  current-dispatch, ticks-dispatch, ticks-IsOrderly,
}

-- From an orderly state with processes waiting, `scheduler_yield` leads to an orderly state: it
-- starts a new quantum, and the first of them becomes the running one; the current process goes to
-- the end of the queue if it was running, and no other process moves. Unless the first is the
-- current one, the machine's stack pointer, address to go on at, kernel stack and directory, if it
-- has one, are then those of the first; the stack pointer, less one word, and the address to resume
-- at are kept in the current process, and no other process's registers change.
pub scheduler_yield_lem :
    (t : Tasks) (n : ℕ) (xs : List ℕ)
    → IsOrderly t (n ∷ xs)
    → let t' = scheduler_yield t in
      IsOrderly t' (rotated t xs)
      × ((a : ℕ)
          → (t'.procs a).state ≡ (
              if a == n
              then running
              else if a == t.current_process && current_runs t
              then ready
              else (t.procs a).state))
      × (t'.ticks_remaining ≡ quantum)
      × Switched t t.current_process n t'
unfolding scheduler_yield
scheduler_yield_lem t n xs o =
    let go : (t.current_process == null || t.ready_head == null) ≡ false =
      ground (arith, o.queue.chain, o.present) in
    let t1 = record t { ticks_remaining = quantum } in
    rw go (
      dispatch-IsOrderly t1 n xs (ticks-IsOrderly t quantum (n ∷ xs) o),
      λ a. state-dispatch t1 a ∙ rw o.queue.chain.0 refl,
      ticks-dispatch t1,
      subst (λ h. Switched t1 t.current_process h (dispatch t1)) o.queue.chain.0
          (dispatch-Switched t1),
    )

-- Where nothing waits, `scheduler_yield` changes nothing.
scheduler_yield-nil : (t : Tasks) → IsOrderly t [] → scheduler_yield t ≡ t
unfolding scheduler_yield
scheduler_yield-nil t o = ground (arith, o.queue.chain)

-- A tick that comes when the quantum is used up, with the scheduler on and another process first in
-- the queue.
abbrev pub switches : Tasks → List ℕ → Bool
switches t [] = false
switches t (n ∷ xs) =
    t.scheduler_enabled && (t.ticks_remaining == 0 && not (n == t.current_process))

-- The queue after a tick, and after a yield.
abbrev pub after_tick : Tasks → List ℕ → List ℕ
after_tick t [] = []
after_tick t (n ∷ xs) = if switches t (n ∷ xs) then rotated t xs else n ∷ xs

abbrev pub after_yield : Tasks → List ℕ → List ℕ
after_yield t [] = []
after_yield t (n ∷ xs) = rotated t xs

pub scheduler_yield-IsOrderly :
    (t : Tasks) (xs : List ℕ) → IsOrderly t xs → IsOrderly (scheduler_yield t) (after_yield t xs)
scheduler_yield-IsOrderly t [] o = subst (λ u. IsOrderly u []) (sym (scheduler_yield-nil t o)) o
scheduler_yield-IsOrderly t (n ∷ xs) o = (scheduler_yield_lem t n xs o).0

-- The counter after a tick.
abbrev pub counted_down : Tasks → ℕ
counted_down t =
    if t.scheduler_enabled
    then if t.ticks_remaining == 0 then quantum else t.ticks_remaining - 1
    else t.ticks_remaining

tick_cases :
    (t : Tasks) (xs : List ℕ)
    → IsOrderly t xs
    → scheduler_tick t ≡ (
        if switches t xs
        then dispatch (record t { ticks_remaining = quantum })
        else record t { ticks_remaining = counted_down t })
unfolding scheduler_tick
tick_cases t [] o = ground (arith, o.queue.chain, o.present)
tick_cases t (n ∷ xs) o = ground (arith, o.queue.chain, o.present)

-- From an orderly state a tick leads to an orderly state. It counts the quantum down to 0 and then
-- starts a new one, if the scheduler is on; the queue is rotated only then, and only where another
-- process is first in it.
pub scheduler_tick_lem :
    (t : Tasks) (xs : List ℕ)
    → IsOrderly t xs
    → let t' = scheduler_tick t in
      IsOrderly t' (after_tick t xs) × (t'.ticks_remaining ≡ counted_down t)
scheduler_tick_lem t [] o = rw (tick_cases t [] o) (ticks-IsOrderly t (counted_down t) [] o, refl)
scheduler_tick_lem t (n ∷ xs) o = elim (Bool-cases (switches t (n ∷ xs))) [
  | inl due ↦
      let t1 = record t { ticks_remaining = quantum } in
      rw (tick_cases t (n ∷ xs) o, due)
        (
          dispatch-IsOrderly t1 n xs (ticks-IsOrderly t quantum (n ∷ xs) o),
          ticks-dispatch t1 ∙ ground arith,
        )
  | inr not_due ↦
      rw (tick_cases t (n ∷ xs) o, not_due) (ticks-IsOrderly t (counted_down t) (n ∷ xs) o, refl)
]

-- The same tick again and again.
unfoldable pub ticks : ℕ → Tasks → Tasks
ticks zero t = t
ticks (suc n) t = ticks n (scheduler_tick t)

-- As long as the counter lasts, with the scheduler on, ticks do nothing but count it down: no
-- process is switched to.
ticks_hold :
    (n : ℕ) (t : Tasks)
    → t.scheduler_enabled ≡ true
    → n ≤ t.ticks_remaining
    → ticks n t ≡ record t { ticks_remaining = t.ticks_remaining - n }
unfolding ticks scheduler_tick
ticks_hold zero t on h = ground arith
ticks_hold (suc n) t on h =
    ground (arith, ticks_hold n (record t { ticks_remaining = t.ticks_remaining - 1 }) on)

-- The events at which the scheduler may switch.
pub data Event : Type 0 where
  tick yield : Event

unfoldable pub run : List Event → Tasks → Tasks
run [] t = t
run (tick ∷ es) t = run es (scheduler_tick t)
run (yield ∷ es) t = run es (scheduler_yield t)

current-scheduler_tick : (t : Tasks) → (scheduler_tick t).current_process ≡ t.current_process
unfolding scheduler_tick
current-scheduler_tick t = ground (arith, current-dispatch (record t { ticks_remaining = quantum }))

current-scheduler_yield : (t : Tasks) → (scheduler_yield t).current_process ≡ t.current_process
unfolding scheduler_yield
current-scheduler_yield t =
    ground (arith, current-dispatch (record t { ticks_remaining = quantum }))

not_in_rotated :
    (t : Tasks) (xs : List ℕ) (p : ℕ)
    → p ≢ t.current_process
    → has p xs ≡ false
    → has p (rotated t xs) ≡ false
not_in_rotated t xs p ne out = ground (arith, has-rotated t p xs)

not_in_after_tick :
    (t : Tasks) (xs : List ℕ) (p : ℕ)
    → p ≢ t.current_process
    → has p xs ≡ false
    → has p (after_tick t xs) ≡ false
not_in_after_tick t [] p ne out = refl
not_in_after_tick t (n ∷ xs) p ne out = ground (arith, not_in_rotated t xs p ne)

not_in_after_yield :
    (t : Tasks) (xs : List ℕ) (p : ℕ)
    → p ≢ t.current_process
    → has p xs ≡ false
    → has p (after_yield t xs) ≡ false
not_in_after_yield t [] p ne out = refl
not_in_after_yield t (n ∷ xs) p ne out = not_in_rotated t xs p ne (ground arith)

-- From an orderly state, a process other than the current one that is not in the queue does not come
-- into it by ticks and yields, whatever its state, and the current process stays the same.
pub never_requeued :
    (es : List Event) (t : Tasks) (xs : List ℕ) (p : ℕ)
    → IsOrderly t xs
    → p ≢ t.current_process
    → has p xs ≡ false
    → (ys : List ℕ) × IsOrderly (run es t) ys
      × (has p ys ≡ false)
      × ((run es t).current_process ≡ t.current_process)
unfolding run
never_requeued [] t xs p o ne out = (xs, o, out, refl)
never_requeued (tick ∷ es) t xs p o ne out =
    let same = current-scheduler_tick t in
    let (ys, o', out', kept) =
      never_requeued es (scheduler_tick t) (after_tick t xs) p (scheduler_tick_lem t xs o).0
        (λ e. ne (e ∙ same)) (not_in_after_tick t xs p ne out) in
    (ys, o', out', kept ∙ same)
never_requeued (yield ∷ es) t xs p o ne out =
    let same = current-scheduler_yield t in
    let (ys, o', out', kept) =
      never_requeued es (scheduler_yield t) (after_yield t xs) p (scheduler_yield-IsOrderly t xs o)
        (λ e. ne (e ∙ same)) (not_in_after_yield t xs p ne out) in
    (ys, o', out', kept ∙ same)
