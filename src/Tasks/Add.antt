-- ===== src/Tasks/Add.antt =====
-- `scheduler_add` and `scheduler_unblock` of kernel/process/scheduler.c append to the ready queue.
use nexus_kernel.Prelude.{
  ℕ, ◌≡◌, ◌≢◌, refl, sym, ◌∙◌, true, false, arith, ◌==◌, List, [], ◌∷◌, ◌++◌,
}
use nexus_kernel.Tasks.{Tasks, null, put, set_next, set_state, ProcessState, ready}
use nexus_kernel.Tasks.Scheduler.{scheduler_add, scheduler_unblock}
use nexus_kernel.Tasks.Queue.{
  has, IsQueue, Distinct-snoc, last-snoc, has-last, Linked-frame, Linked-snoc,
}

-- `scheduler_add` of a process that is not in the queue puts it behind the last one.
pub scheduler_add-IsQueue :
    (t : Tasks) (xs : List ℕ) (p : ℕ)
    → IsQueue t xs
    → p ≢ null
    → has p xs ≡ false
    → IsQueue (scheduler_add t p) (xs ++ (p ∷ []))
unfolding scheduler_add put
scheduler_add-IsQueue t [] p q ne out =
    let given : (p == null) ≡ false = ground arith in
    let empty : (t.ready_head == null) ≡ true = ground arith in
    rw (given, empty)
      (record { chain = (refl, ne, ground arith); distinct = (refl, tt); tail = refl })
scheduler_add-IsQueue t (x ∷ xs) p q ne out =
    let given : (p == null) ≡ false = ground arith in
    let full : (t.ready_head == null) ≡ false = ground arith in
    let old_tail : t.ready_tail ≢ p = ground (arith, has-last x xs, q.tail) in
    rw (given, full)
      (record {
        chain =
            Linked-snoc t.procs (set_next (set_next t p null) t.ready_tail p).procs t.ready_head x
              xs p q.chain q.distinct ne (ground (arith, q.tail)) (ground arith)
              (λ a h n. ground (arith, q.tail));
        distinct = Distinct-snoc (x ∷ xs) p q.distinct out;
        tail = sym (last-snoc (x ∷ xs) p);
      })

-- Changing a process's state leaves the queue alone.
pub set_state-IsQueue :
    (t : Tasks) (xs : List ℕ) (p : ℕ) (s : ProcessState)
    → IsQueue t xs
    → IsQueue (set_state t p s) xs
unfolding set_state put
set_state-IsQueue t xs p s q = record {
  chain =
      Linked-frame t.procs (set_state t p s).procs t.ready_head xs q.chain (λ a h. ground arith);
  distinct = q.distinct;
  tail = q.tail;
}

state-set_state : (t : Tasks) (p : ℕ) (s : ProcessState) → ((set_state t p s).procs p).state ≡ s
unfolding set_state put
state-set_state t p s = ground arith

-- Queueing a process leaves every process's state alone.
pub state-scheduler_add :
    (t : Tasks) (p a : ℕ) → ((scheduler_add t p).procs a).state ≡ (t.procs a).state
unfolding scheduler_add put
state-scheduler_add t p a = ground arith

-- `scheduler_unblock` of a process that is not in the queue makes it ready and puts it behind the
-- last one.
scheduler_unblock-IsQueue :
    (t : Tasks) (xs : List ℕ) (p : ℕ)
    → IsQueue t xs
    → p ≢ null
    → has p xs ≡ false
    → IsQueue (scheduler_unblock t p) (xs ++ (p ∷ []))
      × (((scheduler_unblock t p).procs p).state ≡ ready)
unfolding scheduler_unblock
scheduler_unblock-IsQueue t xs p q ne out =
    let given : (p == null) ≡ false = ground arith in
    rw given (
      scheduler_add-IsQueue (set_state t p ready) xs p (set_state-IsQueue t xs p ready q) ne out,
      state-scheduler_add (set_state t p ready) p p ∙ state-set_state t p ready,
    )
