-- ===== src/Tasks/Queue.antt =====
-- The ready queue of kernel/process/scheduler.c as a list of process addresses.
use nexus_kernel.Prelude.{
  ℕ, ◌≡◌, ◌≢◌, refl, Bool, true, false, ◌||◌, arith, ◌==◌, List, [], ◌∷◌, ◌++◌,
}
use nexus_kernel.Tasks.{Tasks, Process, null}

-- The pointer stands in the list.
abbrev pub has : ℕ → List ℕ → Bool
has a [] = false
has a (x ∷ xs) = (a == x) || has a xs

abbrev pub Distinct : List ℕ → Type 0
Distinct [] = Unit
Distinct (x ∷ xs) = (has x xs ≡ false) × Distinct xs

-- The last element, or the null pointer.
abbrev pub last : List ℕ → ℕ
last [] = null
last (x ∷ []) = x
last (x ∷ y ∷ ys) = last (y ∷ ys)

-- From `p` the `next` pointers lead through `xs` to the null pointer.
abbrev pub Linked : (ℕ → Process) → ℕ → List ℕ → Type 0
Linked f p [] = p ≡ null
Linked f p (x ∷ xs) = (p ≡ x) × (x ≢ null) × Linked f ((f x).next) xs

-- The ready queue holds the distinct processes `xs` in order, and its tail is the last of them.
pub record IsQueue (t : Tasks) (xs : List ℕ) : Type 0 where
  pub chain : Linked t.procs t.ready_head xs
  pub distinct : Distinct xs
  pub tail : t.ready_tail ≡ last xs

pub has-append : (a : ℕ) (xs ys : List ℕ) → has a (xs ++ ys) ≡ (has a xs || has a ys)
has-append a [] ys = refl
has-append a (x ∷ xs) ys = ground (arith, has-append a xs ys)

pub Distinct-snoc :
    (xs : List ℕ) (p : ℕ) → Distinct xs → has p xs ≡ false → Distinct (xs ++ (p ∷ []))
Distinct-snoc [] p d h = (refl, tt)
Distinct-snoc (x ∷ xs) p d h =
    (ground (arith, has-append x xs (p ∷ [])), Distinct-snoc xs p d.1 (ground arith))

pub last-snoc : (xs : List ℕ) (p : ℕ) → last (xs ++ (p ∷ [])) ≡ p
last-snoc [] p = refl
last-snoc (x ∷ []) p = refl
last-snoc (x ∷ y ∷ ys) p = last-snoc (y ∷ ys) p

-- The last element stands in a list that is not empty.
pub has-last : (x : ℕ) (xs : List ℕ) → has (last (x ∷ xs)) (x ∷ xs) ≡ true
has-last x [] = ground arith
has-last x (y ∷ ys) = ground (arith, has-last y ys)

-- A chain survives any change that keeps the `next` fields of its own processes.
pub Linked-frame :
    (f g : ℕ → Process) (p : ℕ) (xs : List ℕ)
    → Linked f p xs
    → ((a : ℕ) → has a xs ≡ true → (g a).next ≡ (f a).next)
    → Linked g p xs
Linked-frame f g p [] c same = c
Linked-frame f g p (x ∷ xs) c same =
    let kept : (g x).next ≡ (f x).next = same x (ground arith) in
    (c.0, c.1, rw kept (Linked-frame f g (f x).next xs c.2 (λ a h. same a (ground arith))))

-- Linking a new process behind the last one.
pub Linked-snoc :
    (f g : ℕ → Process) (p x : ℕ) (xs : List ℕ) (q : ℕ)
    → Linked f p (x ∷ xs)
    → Distinct (x ∷ xs)
    → q ≢ null
    → (g (last (x ∷ xs))).next ≡ q
    → (g q).next ≡ null
    → ((a : ℕ) → has a (x ∷ xs) ≡ true → a ≢ last (x ∷ xs) → (g a).next ≡ (f a).next)
    → Linked g p ((x ∷ xs) ++ (q ∷ []))
Linked-snoc f g p x [] q c d ne at_last at_new same = (c.0, c.1, (at_last, ne, at_new))
Linked-snoc f g p x (y ∷ ys) q c d ne at_last at_new same =
    let other : x ≢ last (y ∷ ys) = ground (arith, has-last y ys) in
    let kept : (g x).next ≡ (f x).next = same x (ground arith) other in
    (
      c.0,
      c.1,
      rw kept (
          Linked-snoc f g (f x).next y ys q c.2 d.1 ne at_last at_new
            (λ a h n. same a (ground arith) n)),
    )

-- The head pointer is null exactly when the queue is empty.
head_of_cons :
    (t : Tasks) (x : ℕ) (xs : List ℕ) → IsQueue t (x ∷ xs) → (t.ready_head ≡ x) × (x ≢ null)
head_of_cons t x xs q = (q.chain.0, q.chain.1)
