-- ===== src/Tasks/Create.antt =====
-- `process_create`, `process_terminate` and `process_init` of kernel/process/process.c: what they do
-- to the process table.
use nexus_kernel.Prelude.{
  ℕ, zero, suc, ◌+◌, ◌-◌, ◌≤◌, ◌<◌, ◌≡◌, ◌≢◌, refl, ◌∙◌, ◌⊎◌, inl, inr, false, ◌&&◌, arith, ltb,
  ◌==◌, if◌then◌else◌, Bool-cases, Option, some, List, [], ◌∷◌, get_or, set, get_or-set, length-set,
  replicate, length-replicate, get_or-replicate,
}
use nexus_kernel.Prelude.Int.{pos}
use nexus_kernel.Tasks.{Tasks, null, max_processes, put, ready, terminated}
use nexus_kernel.Tasks.Lifecycle.{
  free_slot, create_with, get_next_pid, Answers, Released, block, address_space, new_process,
  process_create, process_init, process_terminate, get_by_pid,
}
use nexus_kernel.Tasks.Table.{IsTable, slot, Pid, found, full, get_next_pid-Pid}

-- What has been allocated when `process_create` comes to fail, in the order in which it gives it
-- back.
abbrev pub obtained : Answers → List Released
obtained a =
    if a.proc == null
    then []
    else if a.directory == null
    then block a.proc ∷ []
    else address_space a.directory ∷ block a.proc ∷ []

-- A failure of `process_create`: the table and the structs are as before, and it gives back all that
-- it obtained, which is nothing if there was no free pid.
pub record Failed (t : Tasks) (a : Answers) (t' : Tasks) (back : List Released) : Type 0 where
  pub table : t'.process_table ≡ t.process_table
  pub structs : t'.procs ≡ t.procs
  pub gives_back :
      (back ≡ obtained a) ⊎ ((back ≡ []) × ((i : ℕ) → 1 ≤ i → i < max_processes → slot t i ≢ null))

-- A success: the new struct is ready, under a pid that was free and finds it now, and no other slot
-- changes.
pub record Made (t : Tasks) (a : Answers) (t' : Tasks) : Type 0 where
  pub pid_low : 1 ≤ (t'.procs a.proc).pid
  pub pid_high : (t'.procs a.proc).pid < max_processes
  pub was_free : slot t (t'.procs a.proc).pid ≡ null
  pub filled : (j : ℕ) → slot t' j ≡ (if (t'.procs a.proc).pid == j then a.proc else slot t j)
  pub is_ready : (t'.procs a.proc).state ≡ ready
  pub others : (q : ℕ) → q ≢ a.proc → t'.procs q ≡ t.procs q

abbrev CreateLaw : Tasks → Answers → ℕ × Tasks × List Released → Type 0
CreateLaw t a (p, t', back) =
    IsTable t'
    × (((p ≡ a.proc) × (p ≢ null) × (back ≡ []) × Made t a t') ⊎ ((p ≡ null) × Failed t a t' back))

module _ (t : Tasks) (name : List ℕ) (entry priority : ℕ) (a : Answers) (v : IsTable t) where
  create-Made :
      (i : ℕ)
      → 1 ≤ i
      → i < max_processes
      → slot t i ≡ null
      → Made t a (record t {
        next_pid = i + 1;
        procs = put t.procs a.proc (new_process t i name entry priority a);
        process_table = set t.process_table i a.proc;
      })
  unfolding new_process put
  create-Made i lo hi free = record {
    pid_low = ground arith;
    pid_high = ground arith;
    was_free = ground (arith, free);
    filled = λ j. ground (arith, get_or-set t.process_table i j a.proc null, v.size);
    is_ready = ground arith;
    others = λ q ne. ground arith;
  }

  create_with-CreateLaw :
      (o : Option ℕ × Tasks) → Pid t o → CreateLaw t a (create_with t name entry priority a o)
  unfolding create_with
  create_with-CreateLaw o (full taken) =
      (v, inr (refl, record { table = refl; structs = refl; gives_back = inr (refl, taken) }))
  create_with-CreateLaw o (found i lo hi free) =
      let next : IsTable (record t { next_pid = i + 1 }) = record {
        size = v.size;
        low = omega arith;
        high = omega arith;
      } in
      elim (Bool-cases (a.proc == null)) [
        | inl p ↦ rw p (
          next,
          inr (refl, record { table = refl; structs = refl; gives_back = inl (ground arith) }),
        )
        | inr p ↦ rw p (elim (Bool-cases (a.directory == null)) [
          | inl d ↦ rw d (
            next,
            inr (refl, record { table = refl; structs = refl; gives_back = inl (ground arith) }),
          )
          | inr d ↦ rw d (elim (Bool-cases (a.stack == null)) [
            | inl k ↦ rw k (
              next,
              inr (refl, record { table = refl; structs = refl; gives_back = inl (ground arith) }),
            )
            | inr k ↦ rw k (
              record {
                size = length-set t.process_table i a.proc ∙ v.size;
                low = next.low;
                high = next.high;
              },
              inl (refl, ground arith, refl, create-Made i lo hi free),
            )
          ])
        ])
      ]

-- `process_create` from a sound table leads to a sound table, and either makes a process, or returns
-- null and fails cleanly.
pub process_create_lem :
    (t : Tasks) (name : List ℕ) (entry priority : ℕ) (a : Answers)
    → IsTable t
    → let (p, t', back) = process_create t name entry priority a in
      IsTable t'
      × (((p ≡ a.proc) × (p ≢ null) × (back ≡ []) × Made t a t')
          ⊎ ((p ≡ null) × Failed t a t' back))
unfolding process_create
process_create_lem t name entry priority a v =
    create_with-CreateLaw t name entry priority a v (get_next_pid t) (get_next_pid-Pid t v)

-- `process_terminate` marks the process as ended with its exit code and takes it out of the slot of
-- its pid, if that is from 1 to 255, and out of no other; no other struct changes.
process_terminate_lem :
    (t : Tasks) (p code : ℕ)
    → IsTable t
    → p ≢ null
    → let t' = process_terminate t p code in
      let pid = (t.procs p).pid in
      IsTable t'
      × ((t'.procs p).state ≡ terminated)
      × ((t'.procs p).exit_code ≡ code)
      × ((j : ℕ)
          → slot t' j ≡ (if pid == j && (ltb 0 j && ltb j max_processes) then null else slot t j))
      × ((q : ℕ) → q ≢ p → t'.procs q ≡ t.procs q)
unfolding process_terminate put
process_terminate_lem t p code v ne =
    let given : (p == null) ≡ false = ground arith in
    let pid = (t.procs p).pid in
    rw given (
      record {
        size = ground (arith, length-set t.process_table pid null, v.size);
        low = v.low;
        high = v.high;
      },
      ground arith,
      ground arith,
      λ j. ground (arith, get_or-set t.process_table pid j null null, v.size),
      λ q n. ground arith,
    )

free_slot-here :
    (rounds i : ℕ) (table : List ℕ)
    → 0 < rounds
    → get_or table i null ≡ null
    → free_slot rounds i table ≡ some i
unfolding free_slot
free_slot-here zero i table h free = elim h [ ]
free_slot-here (suc rounds) i table h free = ground arith

-- The first pid of an empty table.
first_pid :
    (t : Tasks)
    → t.next_pid ≡ 1
    → get_or t.process_table 1 null ≡ null
    → get_next_pid t ≡ (some 1, record t { next_pid = 2 })
unfolding get_next_pid
first_pid t start free = ground (
  arith,
  free_slot-here (max_processes - t.next_pid) t.next_pid t.process_table (omega (arith, start))
      (rw start free),
)

-- `process_init` at boot, where the search for a pid starts at 1, with answers that do not fail:
-- the idle process has pid 0 in its struct, but the table finds it under pid 1, and nothing under 0.
pub process_init_slot :
    (t : Tasks) (kernel_directory : ℕ) (a : Answers)
    → t.next_pid ≡ 1
    → a.proc ≢ null
    → a.directory ≢ null
    → a.stack ≢ null
    → let t' = process_init t kernel_directory a in
      (t'.current_process ≡ a.proc)
      × ((t'.procs a.proc).pid ≡ 0)
      × (get_by_pid t' (pos 1) ≡ a.proc)
      × (get_by_pid t' (pos 0) ≡ null)
unfolding process_init process_create create_with put get_by_pid
process_init_slot t kernel_directory a start p d k =
    let table : List ℕ = replicate max_processes null in
    let t0 = record t { process_table = table; current_process = null } in
    let e = first_pid t0 start (get_or-replicate {A = ℕ} max_processes 1 null null) in
    let p' : (a.proc == null) ≡ false = ground arith in
    let d' : (a.directory == null) ≡ false = ground arith in
    let k' : (a.stack == null) ≡ false = ground arith in
    let size = length-replicate {A = ℕ} max_processes null in
    rw (e, p', d', k')
      (rw p' (
        refl,
        ground arith,
        ground (arith, size, get_or-set table 1 1 a.proc null),
        ground (
          arith,
          size,
          get_or-set table 1 0 a.proc null,
          get_or-replicate {A = ℕ} max_processes 0 null null,
        ),
      ))
