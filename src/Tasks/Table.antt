-- ===== src/Tasks/Table.antt =====
-- The process table of kernel/process/process.c: what `process_get_next_pid` finds, and what
-- creating and ending a process does to it.
use nexus_kernel.Prelude.{
  ℕ, zero, suc, ◌+◌, ◌-◌, ◌≤◌, ◌<◌, ◌≡◌, ◌≢◌, refl, ap, ◌∙◌, ◌⊎◌, inl, inr, arith, ltb, ◌==◌,
  Bool-cases, Option, none, some, List, length, get_or,
}
use nexus_kernel.Tasks.{Tasks, null, max_processes}
use nexus_kernel.Tasks.Lifecycle.{free_slot, get_next_pid}

-- The table has its length, and the search for a pid starts inside it or at its end.
pub record IsTable (t : Tasks) : Type 0 where
  pub size : length t.process_table ≡ max_processes
  pub low : 1 ≤ t.next_pid
  pub high : t.next_pid ≤ max_processes

-- The process in a slot, or null.
abbrev pub slot : Tasks → ℕ → ℕ
slot t i = get_or t.process_table i null

-- What a search over the slots from `lo` up to `hi` says.
abbrev Slot : List ℕ → ℕ → ℕ → Option ℕ → Type 0
Slot table lo hi none = (i : ℕ) → lo ≤ i → i < hi → get_or table i null ≢ null
Slot table lo hi (some i) = (lo ≤ i) × (i < hi) × (get_or table i null ≡ null)

Slot-before :
    (table : List ℕ) (lo hi : ℕ) (r : Option ℕ)
    → get_or table lo null ≢ null
    → Slot table (lo + 1) hi r
    → Slot table lo hi r
Slot-before table lo hi none taken s = λ i a b. elim (Bool-cases (lo == i)) [
  | inl e ↦ λ free. taken (ap (λ k. get_or table k null) (ground arith) ∙ free)
  | inr e ↦ s i (ground arith) b
]
Slot-before table lo hi (some i) taken s = (omega arith, s.1, s.2)

free_slot-Slot :
    (rounds lo hi : ℕ) (table : List ℕ)
    → hi ≡ lo + rounds
    → Slot table lo hi (free_slot rounds lo table)
unfolding free_slot
free_slot-Slot zero lo hi table e = λ i a b. absurd (omega arith)
free_slot-Slot (suc rounds) lo hi table e = elim (Bool-cases (get_or table lo null == null)) [
  | inl free ↦ rw free (omega arith, omega arith, ground arith)
  | inr taken ↦ rw taken (
      Slot-before table lo hi _ (ground arith)
        (free_slot-Slot rounds (lo + 1) hi table (omega arith)))
]

-- What `process_get_next_pid` answers.
pub data Pid (t : Tasks) : Option ℕ × Tasks → Type 0 where
  found :
      (i : ℕ)
      → 1 ≤ i
      → i < max_processes
      → slot t i ≡ null
      → Pid t (some i, record t { next_pid = i + 1 })
  full : ((i : ℕ) → 1 ≤ i → i < max_processes → slot t i ≢ null) → Pid t (none, t)

pub get_next_pid-Pid : (t : Tasks) → IsTable t → Pid t (get_next_pid t)
unfolding get_next_pid
get_next_pid-Pid t v =
    go _ _
      (free_slot-Slot (max_processes - t.next_pid) t.next_pid max_processes t.process_table
        (omega (arith, v.high)))
      (free_slot-Slot (t.next_pid - 1) 1 t.next_pid t.process_table (omega (arith, v.low)))
  where
    go :
        (a b : Option ℕ)
        → Slot t.process_table t.next_pid max_processes a
        → Slot t.process_table 1 t.next_pid b
        → Pid t (elim a [
          | some i ↦ (some i, record t { next_pid = i + 1 })
          | none ↦ elim b [ some i ↦ (some i, record t { next_pid = i + 1 }) | none ↦ (none, t) ]
        ])
    go (some i) b s r = found i (omega (arith, v.low)) s.1 s.2
    go none (some i) s r = found i r.0 (omega (arith, v.high)) r.2
    go none none s r = full (λ i lo hi. elim (Bool-cases (ltb i t.next_pid)) [
      | inl below ↦ r i lo (ground arith)
      | inr above ↦ s i (ground arith) hi
    ])

-- `process_get_next_pid` answers with a pid from 1 to 255 whose slot is free, or with none when all
-- those slots are taken; it changes nothing but the place where the next search starts, which stays
-- in range.
get_next_pid_lem :
    (t : Tasks)
    → IsTable t
    → let (r, t') = get_next_pid t in
      IsTable t'
      × (t'.process_table ≡ t.process_table)
      × (((i : ℕ) × (r ≡ some i) × (1 ≤ i) × (i < max_processes) × (slot t i ≡ null))
          ⊎ ((r ≡ none) × ((i : ℕ) → 1 ≤ i → i < max_processes → slot t i ≢ null)))
get_next_pid_lem t v = go (get_next_pid t) (get_next_pid-Pid t v)
  where
    go :
        (o : Option ℕ × Tasks)
        → Pid t o
        → let (r, t') = o in
          IsTable t'
          × (t'.process_table ≡ t.process_table)
          × (((i : ℕ) × (r ≡ some i) × (1 ≤ i) × (i < max_processes) × (slot t i ≡ null))
              ⊎ ((r ≡ none) × ((i : ℕ) → 1 ≤ i → i < max_processes → slot t i ≢ null)))
    go o (found i lo hi free) = (
      record { size = v.size; low = omega arith; high = omega arith },
      refl,
      inl (i, refl, lo, hi, free),
    )
    go o (full taken) = (v, refl, inr (refl, taken))
