-- ===== src/Tasks/Remove.antt =====
-- `scheduler_remove` of kernel/process/scheduler.c takes a process out of the ready queue.
use nexus_kernel.Prelude.{
  ℕ, zero, suc, ◌<◌, ◌≡◌, ◌≢◌, refl, sym, ap, subst, ◌∙◌, inl, inr, true, false, arith, ◌==◌,
  if◌then◌else◌, Bool-cases, some, List, [], ◌∷◌, length,
}
use nexus_kernel.Tasks.{Tasks, Process, null, put, set_next}
use nexus_kernel.Tasks.Scheduler.{find_prev, unlink, scheduler_remove}
use nexus_kernel.Tasks.Queue.{has, Distinct, last, Linked, IsQueue, Linked-frame, has-last}

-- The list without its first `p`.
abbrev pub erase : ℕ → List ℕ → List ℕ
erase p [] = []
erase p (x ∷ xs) = if x == p then xs else x ∷ erase p xs

-- The element in front of `p` in the list that `x` leads, or the null pointer.
abbrev pred_of : ℕ → ℕ → List ℕ → ℕ
pred_of p x [] = null
pred_of p x (y ∷ ys) = if y == p then x else pred_of p y ys

has-pred_of : (p x : ℕ) (xs : List ℕ) → has p xs ≡ true → has (pred_of p x xs) (x ∷ xs) ≡ true
has-pred_of p x [] h = cc
has-pred_of p x (y ∷ ys) h = ground (arith, has-pred_of p y ys)

pred_of-null : (p x : ℕ) (xs : List ℕ) → has p xs ≡ false → pred_of p x xs ≡ null
pred_of-null p x [] h = refl
pred_of-null p x (y ∷ ys) h = ground (arith, pred_of-null p y ys)

not-has-erase : (a p : ℕ) (xs : List ℕ) → has a xs ≡ false → has a (erase p xs) ≡ false
not-has-erase a p [] h = refl
not-has-erase a p (x ∷ xs) h = ground (arith, not-has-erase a p xs)

Distinct-erase : (p : ℕ) (xs : List ℕ) → Distinct xs → Distinct (erase p xs)
Distinct-erase p [] d = tt
Distinct-erase p (x ∷ xs) d = elim (Bool-cases (x == p)) [
  | inl e ↦ rw e d.1
  | inr e ↦ rw e (not-has-erase x p xs d.0, Distinct-erase p xs d.1)
]

erase_of_not_has : (p : ℕ) (xs : List ℕ) → has p xs ≡ false → erase p xs ≡ xs
erase_of_not_has p [] h = refl
erase_of_not_has p (x ∷ xs) h = ground (arith, erase_of_not_has p xs)

-- The walk finds the element in front of `p`.
find_prev_lem :
    (fuel : ℕ) (t : Tasks) (p q x : ℕ) (xs : List ℕ)
    → Linked t.procs q (x ∷ xs)
    → p ≢ null
    → length (x ∷ xs) < fuel
    → find_prev fuel t p q ≡ some (pred_of p x xs)
unfolding find_prev
find_prev_lem zero t p q x xs c ne h = absurd (omega arith)
find_prev_lem (suc zero) t p q x xs c ne h = absurd (omega arith)
find_prev_lem (suc (suc fuel)) t p q x [] c ne h = ground (arith, ap (λ a. (t.procs a).next) c.0)
find_prev_lem (suc (suc fuel)) t p q x (y ∷ ys) c ne h = ground (
  arith,
  ap (λ a. (t.procs a).next) c.0,
  find_prev_lem (suc fuel) t p (t.procs x).next y ys c.2 ne (omega arith),
)

last-erase :
    (p x : ℕ) (xs : List ℕ)
    → Distinct (x ∷ xs)
    → has p xs ≡ true
    → last (x ∷ erase p xs) ≡ (if last (x ∷ xs) == p then pred_of p x xs else last (x ∷ xs))
last-erase p x [] d h = cc
last-erase p x (y ∷ []) d h = ground arith
last-erase p x (y ∷ z ∷ zs) d h = elim (Bool-cases (y == p)) [
  | inl e ↦ rw e (ground (arith, has-last z zs))
  | inr e ↦ rw e (last-erase p y (z ∷ zs) d.1 (ground arith))
]

Linked-erase :
    (f g : ℕ → Process) (p q x : ℕ) (xs : List ℕ)
    → Linked f q (x ∷ xs)
    → Distinct (x ∷ xs)
    → has p xs ≡ true
    → (g (pred_of p x xs)).next ≡ (f p).next
    → ((a : ℕ) → has a (x ∷ xs) ≡ true → a ≢ pred_of p x xs → a ≢ p → (g a).next ≡ (f a).next)
    → Linked g q (x ∷ erase p xs)
Linked-erase f g p q x [] c d h at_pred same = cc
Linked-erase f g p q x (y ∷ ys) c d h at_pred same = elim (Bool-cases (y == p)) [
  | inl e ↦
      let at_x : (g x).next ≡ (f y).next = ground (arith, at_pred) in
      rw e (
        c.0,
        c.1,
        rw at_x (
            Linked-frame f g (f y).next ys c.2.2
              (λ a i. same a (ground arith) (ground arith) (ground arith))),
      )
  | inr e ↦
      let kept : (g x).next ≡ (f x).next =
        same x (ground arith) (ground (arith, has-pred_of p y ys)) (ground arith) in
      rw e (
        c.0,
        c.1,
        rw kept (
            Linked-erase f g p (f x).next y ys c.2 d.1 (ground arith) (ground (arith, at_pred))
              (λ a i n m. same a (ground arith) (ground arith) m)),
      )
]

pred_of-ne :
    (p x : ℕ) (xs : List ℕ) → Distinct (x ∷ xs) → has p xs ≡ true → p ≢ x → pred_of p x xs ≢ p
pred_of-ne p x [] d h ne = cc
pred_of-ne p x (y ∷ ys) d h ne = elim (Bool-cases (y == p)) [
  | inl e ↦ rw e (λ e'. ne (sym e'))
  | inr e ↦ rw e (pred_of-ne p y ys d.1 (ground arith) (ground arith))
]

ne_null_of_has :
    (f : ℕ → Process) (q a : ℕ) (xs : List ℕ) → Linked f q xs → has a xs ≡ true → a ≢ null
ne_null_of_has f q a [] c h = cc
ne_null_of_has f q a (x ∷ xs) c h = ground (arith, ne_null_of_has f (f x).next a xs c.2)

tail_behind :
    (t : Tasks) (p : ℕ) (xs : List ℕ)
    → IsQueue t (p ∷ xs)
    → (if (t.procs p).next == null then null else t.ready_tail) ≡ last xs
tail_behind t p [] q = ground (arith, q.chain)
tail_behind t p (x ∷ xs) q = ground (arith, q.chain, q.tail)

-- Taking out the head.
abbrev without_head : Tasks → ℕ → Tasks
without_head t p =
    set_next
      (record t {
        ready_head = (t.procs p).next;
        ready_tail = if (t.procs p).next == null then null else t.ready_tail;
      })
      p null

without_head-IsQueue :
    (t : Tasks) (p : ℕ) (xs : List ℕ) → IsQueue t (p ∷ xs) → IsQueue (without_head t p) xs
unfolding set_next put
without_head-IsQueue t p xs q = record {
  chain =
      Linked-frame t.procs (without_head t p).procs (t.procs p).next xs q.chain.2
        (λ a h. ground (arith, q.distinct));
  distinct = q.distinct.1;
  tail = tail_behind t p xs q;
}

-- The fields after taking out a process behind another one.
module _ (t : Tasks) (p pr : ℕ) (ne_null : pr ≢ null) (ne : pr ≢ p) where
  next-unlink :
      (a : ℕ)
      → ((unlink t p pr).procs a).next
        ≡ (if a == p then null else if a == pr then (t.procs p).next else (t.procs a).next)
  unfolding unlink set_next put
  next-unlink a = ground arith

  head-unlink : t.ready_head ≡ (unlink t p pr).ready_head
  unfolding unlink set_next
  head-unlink = ground arith

  tail-unlink : (unlink t p pr).ready_tail ≡ (if t.ready_tail == p then pr else t.ready_tail)
  unfolding unlink set_next
  tail-unlink = ground arith

unlink-IsQueue :
    (t : Tasks) (p x : ℕ) (xs : List ℕ)
    → IsQueue t (x ∷ xs)
    → p ≢ x
    → has p xs ≡ true
    → IsQueue (unlink t p (pred_of p x xs)) (x ∷ erase p xs)
unlink-IsQueue t p x xs q ne h =
    let pr = pred_of p x xs in
    let some_pred : pr ≢ null =
      ne_null_of_has t.procs t.ready_head pr (x ∷ xs) q.chain (has-pred_of p x xs h) in
    let other : pr ≢ p = pred_of-ne p x xs q.distinct h ne in
    record {
      chain =
          subst (λ a. Linked (unlink t p pr).procs a (x ∷ erase p xs))
            (head-unlink t p pr some_pred other)
            (Linked-erase t.procs (unlink t p pr).procs p t.ready_head x xs q.chain q.distinct h
              (ground (arith, next-unlink t p pr some_pred other pr))
              (λ a i n m. ground (arith, next-unlink t p pr some_pred other a)));
      distinct = ground (arith, not-has-erase x p xs, Distinct-erase p xs);
      tail = tail-unlink t p pr some_pred other ∙ rw q.tail (sym (last-erase p x xs q.distinct h));
    }

-- A walk that comes to the end leaves everything as it is.
nothing_removed :
    (fuel : ℕ) (t : Tasks) (p : ℕ)
    → p ≢ null
    → t.ready_head ≢ p
    → find_prev fuel t p t.ready_head ≡ some null
    → scheduler_remove fuel t p ≡ some t
unfolding scheduler_remove unlink
nothing_removed fuel t p ne other e = ground arith

find_prev-null :
    (fuel : ℕ) (t : Tasks) (p q : ℕ) → q ≡ null → find_prev (suc fuel) t p q ≡ some null
unfolding find_prev
find_prev-null fuel t p q e = ground arith

-- `scheduler_remove` of a process, with fuel for the queue, takes just that process out of it, and
-- leaves a queue as it is that does not hold it.
pub scheduler_remove-IsQueue :
    (fuel : ℕ) (t : Tasks) (xs : List ℕ) (p : ℕ)
    → IsQueue t xs
    → p ≢ null
    → length xs < fuel
    → (t' : Tasks) × (scheduler_remove fuel t p ≡ some t') × IsQueue t' (erase p xs)
unfolding scheduler_remove
scheduler_remove-IsQueue zero t xs p q ne h = absurd (omega arith)
scheduler_remove-IsQueue (suc fuel) t [] p q ne h = (
  t,
  nothing_removed (suc fuel) t p ne (ground (arith, q.chain))
      (find_prev-null fuel t p t.ready_head q.chain),
  q,
)
scheduler_remove-IsQueue (suc fuel) t (x ∷ xs) p q ne h = elim (Bool-cases (x == p)) [
  | inl e ↦
      let same : x ≡ p = ground arith in
      rw e (
        without_head t p,
        ground (arith, q.chain),
        without_head-IsQueue t p xs (subst (λ a. IsQueue t (a ∷ xs)) same q),
      )
  | inr e ↦ rw e (elim (Bool-cases (has p xs)) [
    | inl i ↦ (
      unlink t p (pred_of p x xs),
      ground (arith, q.chain, find_prev_lem (suc fuel) t p t.ready_head x xs q.chain ne h),
      unlink-IsQueue t p x xs q (ground arith) i,
    )
    | inr o ↦ (
      t,
      nothing_removed (suc fuel) t p ne (ground (arith, q.chain)) (
          find_prev_lem (suc fuel) t p t.ready_head x xs q.chain ne h
          ∙ ap some (pred_of-null p x xs o)),
      rw (erase_of_not_has p xs o) q,
    )
  ])
]
