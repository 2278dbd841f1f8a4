-- ===== src/Drivers/Load.antt =====
-- `driver_load` and `driver_unload` of drivers/driver.c: the states of a driver, and the calls of its
-- `init` and `cleanup`.
use nexus_kernel.Prelude.{
  append-nil, ℕ, ◌<◌, ◌≡◌, ◌≢◌, sym, ◌∙◌, subst, Bool, false, ◌&&◌, some, ◌==◌, if◌then◌else◌, List,
  [], ◌∷◌, ◌++◌, arith,
}
use nexus_kernel.Prelude.Int.{ℤ, pos, negsuc}
use nexus_kernel.Libc.Names.{Name}
use nexus_kernel.Drivers.{
  null, max_drivers, Driver, Manager, put, set_state, driver_load, driver_unload,
}
use nexus_kernel.Drivers.{is_active, is_zero, activate, deactivate, call, Call, init, cleanup}
use nexus_kernel.Drivers.Registry.{
  Linked, named, IsRegistry, driver_find_lem, Linked-frame, Unique-frame,
}

-- A change of the states alone.
same-IsRegistry :
    (m m' : Manager) (xs : List ℕ)
    → IsRegistry m xs
    → ((a : ℕ)
        → ((m'.drivers a).name ≡ (m.drivers a).name) × ((m'.drivers a).next ≡ (m.drivers a).next))
    → m'.driver_list ≡ m.driver_list
    → m'.driver_count ≡ m.driver_count
    → IsRegistry m' xs
same-IsRegistry m m' xs r same hl hc = record {
  chain =
      subst (λ p. Linked m'.drivers p xs) (sym hl)
        (Linked-frame m.drivers m'.drivers m.driver_list xs r.chain (λ a _. (same a).1));
  unique = Unique-frame m.drivers m'.drivers xs (λ a. (same a).0) r.unique;
  counted = hc ∙ r.counted;
  room = r.room;
}

-- The result of loading or unloading the driver at `p`: the list is as it was, no other driver has
-- changed, and the calls are the old ones and at most one more.
pub record Turned (m : Manager) (xs : List ℕ) (p : ℕ) (m' : Manager) (on : Bool) (made : List Call)
    : Type 0 where
  pub list : IsRegistry m' xs
  pub state : is_active (m'.drivers p).state ≡ on
  pub others : (a : ℕ) → a ≢ p → m'.drivers a ≡ m.drivers a
  pub calls : m'.calls ≡ m.calls ++ made

-- What `driver_load` calls.
abbrev pub load_calls : Driver → ℕ → List Call
load_calls d p = if is_active d.state then [] else if d.has_init then init p ∷ [] else []

abbrev pub load_code : (ℕ → ℤ) → Driver → ℕ → ℤ
load_code ret d p = if is_active d.state then pos 0 else if d.has_init then ret p else pos 0

abbrev pub unload_calls : Driver → ℕ → List Call
unload_calls d p = if is_active d.state && d.has_cleanup then cleanup p ∷ [] else []

module _ (m : Manager) (xs : List ℕ) (r : IsRegistry m xs) (p : ℕ) where
  activate_lem :
      (ret : ℕ → ℤ)
      → let a = activate ret m p in
        let d = m.drivers p in
        (a.0 ≡ load_code ret d p) × Turned m xs p a.1 (is_zero (load_code ret d p)) (load_calls d p)
  unfolding activate set_state put call
  activate_lem ret = (
    ground arith,
    record {
      list =
          same-IsRegistry m (activate ret m p).1 xs r (λ a. (ground arith, ground arith))
            (ground arith) (ground arith);
      state = ground arith;
      others = λ a h. ground (arith, h);
      calls = ground (arith, append-nil m.calls);
    },
  )

  deactivate_lem :
      let a = deactivate m p in
      let d = m.drivers p in (a.0 ≡ pos 0) × Turned m xs p a.1 false (unload_calls d p)
  unfolding deactivate set_state put call
  deactivate_lem = (
    ground arith,
    record {
      list =
          same-IsRegistry m (deactivate m p).1 xs r (λ a. (ground arith, ground arith))
            (ground arith) (ground arith);
      state = ground arith;
      others = λ a h. ground (arith, h);
      calls = ground (arith, append-nil m.calls);
    },
  )

-- The driver with the name is loaded.
abbrev pub Loads : ℕ → (ℕ → ℤ) → Manager → List ℕ → Name → Type 0
Loads fuel ret m xs name =
    let p = named m.drivers name xs in
    let d = m.drivers p in
    let code = load_code ret d p in
    (m' : Manager) × (driver_load fuel ret m name
      ≡ some (if p == null then (negsuc 0, m) else (code, m')))
    × Turned m xs p m' (is_zero code) (load_calls d p)

abbrev pub Unloads : ℕ → Manager → List ℕ → Name → Type 0
Unloads fuel m xs name =
    let p = named m.drivers name xs in
    (m' : Manager) × (driver_unload fuel m name
      ≡ some (if p == null then (negsuc 0, m) else (pos 0, m')))
    × Turned m xs p m' false (unload_calls (m.drivers p) p)

module _ (fuel : ℕ) (enough : max_drivers < fuel) (m : Manager) (xs : List ℕ) (r : IsRegistry m xs)
    (name : Name) where
  -- On a well-formed list of drivers, `driver_load` returns -1 and changes nothing if no driver has the
  -- name. Otherwise it calls `init` of the driver once, unless the driver is active or has none, and
  -- returns what that returned, or 0; the driver is active afterwards exactly if the result is 0, no
  -- other driver has changed, and the list stays well-formed.
  pub driver_load_lem : (ret : ℕ → ℤ) → Loads fuel ret m xs name
  unfolding driver_load
  driver_load_lem ret =
      let p = named m.drivers name xs in
      let found = driver_find_lem fuel m xs name r (omega (arith, r.room, enough)) in
      let done = activate_lem m xs r p ret in
      ((activate ret m p).1, ground (arith, found, done.0), done.1)

  -- On a well-formed list of drivers, `driver_unload` returns -1 and changes nothing if no driver has
  -- the name. Otherwise it returns 0 and the driver is not active; its `cleanup` is called once if it
  -- was active and has one; no other driver has changed, and the list stays well-formed.
  driver_unload_lem : Unloads fuel m xs name
  unfolding driver_unload
  driver_unload_lem =
      let p = named m.drivers name xs in
      let found = driver_find_lem fuel m xs name r (omega (arith, r.room, enough)) in
      let done = deactivate_lem m xs r p in
      ((deactivate m p).1, ground (arith, found, done.0), done.1)
