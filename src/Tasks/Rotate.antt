-- ===== src/Tasks/Rotate.antt =====
-- `scheduler_tick` and `scheduler_yield` of kernel/process/scheduler.c on the ready queue: the first
-- process gets the machine, and the current one goes to the end if it was running.
use nexus_kernel.Prelude.{
  ℕ, ◌≡◌, ◌≢◌, sym, ap, subst, ◌∙◌, inl, inr, Bool, true, false, ◌&&◌, ◌||◌, arith, ◌==◌,
  if◌then◌else◌, Bool-cases, List, [], ◌∷◌, ◌++◌,
}
use nexus_kernel.Tasks.{Tasks, null, put, set_state, ProcessState, ready, running}
use nexus_kernel.Tasks.Scheduler.{scheduler_add, dispatch, context_switch, is_running}
use nexus_kernel.Tasks.Queue.{has, has-append, Linked, IsQueue, Linked-frame}
use nexus_kernel.Tasks.Add.{scheduler_add-IsQueue, set_state-IsQueue, state-scheduler_add}

-- The queue without its first process.
unfoldable pub popped : Tasks → Tasks
popped t =
    let rest = (t.procs t.ready_head).next in
    record t { ready_head = rest; ready_tail = if rest == null then null else t.ready_tail }

popped-IsQueue : (t : Tasks) (n : ℕ) (xs : List ℕ) → IsQueue t (n ∷ xs) → IsQueue (popped t) xs
unfolding popped
popped-IsQueue t n [] q =
    let first : t.ready_head ≡ n = q.chain.0 in
    let end : (t.procs t.ready_head).next ≡ null = ground (arith, q.chain) in
    record { chain = end; distinct = tt; tail = ground arith }
popped-IsQueue t n (x ∷ xs) q =
    let same : (t.procs t.ready_head).next ≡ (t.procs n).next =
      ap (λ a. (t.procs a).next) q.chain.0 in
    record {
      chain = subst (λ a. Linked t.procs a (x ∷ xs)) (sym same) q.chain.2;
      distinct = q.distinct.1;
      tail = ground (arith, q.chain, q.tail);
    }

context_switch-IsQueue :
    (t : Tasks) (a b : ℕ) (xs : List ℕ) → IsQueue t xs → IsQueue (context_switch t a b) xs
unfolding context_switch put
context_switch-IsQueue t a b xs q = elim (Bool-cases (a == b)) [
  | inl e ↦ rw e q
  | inr e ↦ record {
    chain =
        subst (λ h. Linked (context_switch t a b).procs h xs) head
          (Linked-frame t.procs (context_switch t a b).procs t.ready_head xs q.chain
            (λ c h. ground arith));
    distinct = q.distinct;
    tail = ground (arith, q.tail);
  }
]
  where
    head : t.ready_head ≡ (context_switch t a b).ready_head
    head = ground arith

state-context_switch :
    (t : Tasks) (a b c : ℕ) → ((context_switch t a b).procs c).state ≡ (t.procs c).state
unfolding context_switch put
state-context_switch t a b c = ground arith

-- The current process runs.
abbrev pub current_runs : Tasks → Bool
current_runs t = is_running (t.procs t.current_process).state

-- The queue holds `xs`, there is a current process, and while that runs it is not in the queue.
pub record IsOrderly (t : Tasks) (xs : List ℕ) : Type 0 where
  pub queue : IsQueue t xs
  pub present : t.current_process ≢ null
  pub not_twice : has t.current_process xs ≡ true → current_runs t ≡ false

-- The queue behind its first process, with the current process behind it if that was running.
abbrev pub rotated : Tasks → List ℕ → List ℕ
rotated t xs = if current_runs t then xs ++ (t.current_process ∷ []) else xs

dispatch-IsQueue :
    (t : Tasks) (n : ℕ) (xs : List ℕ) → IsOrderly t (n ∷ xs) → IsQueue (dispatch t) (rotated t xs)
unfolding dispatch popped
dispatch-IsQueue t n xs o = elim (Bool-cases (current_runs t)) [
  | inl runs ↦ rw runs (
      context_switch-IsQueue _ t.current_process t.ready_head _ (
        set_state-IsQueue _ _ t.ready_head running (
          scheduler_add-IsQueue (set_state (popped t) t.current_process ready) xs t.current_process
            (set_state-IsQueue (popped t) xs t.current_process ready
              (popped-IsQueue t n xs o.queue))
            o.present (ground (arith, o.not_twice)))))
  | inr waits ↦ rw waits (
      context_switch-IsQueue _ t.current_process t.ready_head _
        (set_state-IsQueue _ _ t.ready_head running (popped-IsQueue t n xs o.queue)))
]

state-set_any :
    (t : Tasks) (p : ℕ) (s : ProcessState) (a : ℕ)
    → ((set_state t p s).procs a).state ≡ (if a == p then s else (t.procs a).state)
unfolding set_state put
state-set_any t p s a = ground arith

current-scheduler_add :
    (t : Tasks) (p : ℕ) → (scheduler_add t p).current_process ≡ t.current_process
unfolding scheduler_add
current-scheduler_add t p = ground arith

current-context_switch :
    (t : Tasks) (a b : ℕ) → (context_switch t a b).current_process ≡ t.current_process
unfolding context_switch
current-context_switch t a b = ground arith

-- The states after a dispatch.
pub state-dispatch :
    (t : Tasks) (a : ℕ)
    → ((dispatch t).procs a).state ≡ (
        if a == t.ready_head
        then running
        else if a == t.current_process && current_runs t
        then ready
        else (t.procs a).state)
unfolding dispatch
state-dispatch t a = elim (Bool-cases (current_runs t)) [
  | inl runs ↦
      rw runs (simp (state-context_switch, state-set_any, state-scheduler_add) (ground arith))
  | inr waits ↦ rw waits (simp (state-context_switch, state-set_any) (ground arith))
]

pub current-dispatch : (t : Tasks) → (dispatch t).current_process ≡ t.current_process
unfolding dispatch set_state
current-dispatch t = elim (Bool-cases (current_runs t)) [
  | inl runs ↦ rw runs (simp (current-context_switch, current-scheduler_add))
  | inr waits ↦ rw waits (simp (current-context_switch))
]

pub has-rotated :
    (t : Tasks) (a : ℕ) (xs : List ℕ)
    → has a (rotated t xs) ≡ (has a xs || (current_runs t && a == t.current_process))
has-rotated t a xs = ground (arith, has-append a xs (t.current_process ∷ []))

pub dispatch-IsOrderly :
    (t : Tasks) (n : ℕ) (xs : List ℕ) → IsOrderly t (n ∷ xs) → IsOrderly (dispatch t) (rotated t xs)
unfolding is_running
dispatch-IsOrderly t n xs o = record {
  queue = dispatch-IsQueue t n xs o;
  present = λ e. o.present (sym (current-dispatch t) ∙ e);
  not_twice = λ h. ground (
    arith,
    h,
    current-dispatch t,
    state-dispatch t t.current_process,
    has-rotated t t.current_process xs,
    o.queue.chain,
    o.queue.distinct,
    o.not_twice,
  );
}

ticks-scheduler_add : (t : Tasks) (p : ℕ) → (scheduler_add t p).ticks_remaining ≡ t.ticks_remaining
unfolding scheduler_add
ticks-scheduler_add t p = ground arith

ticks-context_switch :
    (t : Tasks) (a b : ℕ) → (context_switch t a b).ticks_remaining ≡ t.ticks_remaining
unfolding context_switch
ticks-context_switch t a b = ground arith

pub ticks-dispatch : (t : Tasks) → (dispatch t).ticks_remaining ≡ t.ticks_remaining
unfolding dispatch set_state
ticks-dispatch t = elim (Bool-cases (current_runs t)) [
  | inl runs ↦ rw runs (simp (ticks-context_switch, ticks-scheduler_add))
  | inr waits ↦ rw waits (simp (ticks-context_switch))
]

-- The tick counter has no part in the order of the queue.
pub ticks-IsOrderly :
    (t : Tasks) (k : ℕ) (xs : List ℕ)
    → IsOrderly t xs
    → IsOrderly (record t { ticks_remaining = k }) xs
ticks-IsOrderly t k xs o = record {
  queue = record { chain = o.queue.chain; distinct = o.queue.distinct; tail = o.queue.tail };
  present = o.present;
  not_twice = o.not_twice;
}
