-- ===== src/Drivers.antt =====
-- drivers/driver.c: the driver manager, a list of the drivers' structs through their `next` pointers.
-- A name is the characters before its NUL, and `strcmp` of two names is the test whether they are the
-- same (Libc.Text). What a driver's `init` returns is an argument; the calls of `init` and `cleanup`
-- are kept in order.
pub mod Registry
pub mod Register
pub mod Load
pub mod Erase
pub mod Unregister
mod Tests
use nexus_kernel.Prelude.{
  ℕ, zero, suc, ◌+◌, Bool, true, false, not, ◌&&◌, ◌||◌, Option, none, some, leb, ◌==◌,
  if◌then◌else◌, List, [], ◌∷◌, ◌++◌,
}
use nexus_kernel.Prelude.Words.{add32, sub32}
use nexus_kernel.Prelude.Int.{ℤ, pos, negsuc}
use nexus_kernel.Libc.Names.{Name, names_equal, is_empty}

abbrev pub null : ℕ
null = 0

abbrev pub max_drivers : ℕ
max_drivers = 64

pub data DriverState : Type 0 where
  unloaded : DriverState
  loaded : DriverState
  active : DriverState
  error : DriverState

-- `has_init` says that there is an `ops` table and its `init` is not null, and `has_cleanup` the same
-- of `cleanup`. The manager does not use the other fields.
pub record Driver : Type 0 where
  pub name : Name
  pub kind : ℕ
  pub state : DriverState
  pub has_init : Bool
  pub has_cleanup : Bool
  pub next : ℕ

pub data Call : Type 0 where
  init : ℕ → Call
  cleanup : ℕ → Call

pub record Manager : Type 0 where
  pub drivers : ℕ → Driver
  pub driver_list : ℕ
  pub driver_count : ℕ
  pub calls : List Call

unfoldable pub put : (ℕ → Driver) → ℕ → Driver → ℕ → Driver
put f p d a = if a == p then d else f a

unfoldable pub set_state : Manager → ℕ → DriverState → Manager
set_state m p s = record m { drivers = put m.drivers p (record (m.drivers p) { state = s }) }

unfoldable pub call : Manager → Call → Manager
call m c = record m { calls = m.calls ++ (c ∷ []) }

abbrev pub is_active : DriverState → Bool
is_active active = true
is_active _ = false

unfoldable pub driver_manager_init : Manager → Manager
driver_manager_init m = record m { driver_list = null; driver_count = 0 }

-- The loop of the searches on fuel, from `drv` on, for the first driver that passes the test.
unfoldable pub search_from : ℕ → Manager → (Driver → Bool) → ℕ → Option ℕ
search_from zero m test drv = none
search_from (suc fuel) m test drv = elim (drv == null) [
  | true ↦ some null
  | false ↦ elim (test (m.drivers drv)) [
    | true ↦ some drv
    | false ↦ search_from fuel m test (m.drivers drv).next
  ]
]

unfoldable pub driver_find : ℕ → Manager → Name → Option ℕ
driver_find fuel m name = search_from fuel m (λ d. names_equal d.name name) m.driver_list

unfoldable pub driver_find_by_type : ℕ → Manager → ℕ → Option ℕ
driver_find_by_type fuel m kind = search_from fuel m (λ d. d.kind == kind) m.driver_list

-- The four assignments of `driver_register`.
unfoldable pub enter : Manager → ℕ → Manager
enter m drv = record m {
  drivers = put m.drivers drv (record (m.drivers drv) { state = loaded; next = m.driver_list });
  driver_list = drv;
  driver_count = add32 m.driver_count 1;
}

unfoldable pub driver_register : ℕ → Manager → ℕ → Option (ℤ × Manager)
driver_register fuel m drv =
    if drv == null || is_empty (m.drivers drv).name
    then some (negsuc 0, m)
    else if leb max_drivers m.driver_count
    then some (negsuc 0, m)
    else elim (driver_find fuel m (m.drivers drv).name) [
      | none ↦ none
      | some found ↦ some (if found == null then (pos 0, enter m drv) else (negsuc 0, m))
    ]

-- The body of `driver_unregister`'s loop for the driver that it looks for.
unfoldable pub take_out : Manager → ℕ → ℕ → Manager
take_out m prev drv =
    let d = m.drivers drv in
    let m1 = if is_active d.state && d.has_cleanup then call m (cleanup drv) else m in
    let m2 = if prev == null then record m1 { driver_list = d.next } else record m1 {
      drivers = put m1.drivers prev (record (m1.drivers prev) { next = d.next });
    } in
    record (set_state m2 drv unloaded) { driver_count = sub32 m.driver_count 1 }

unfoldable pub unregister_from : ℕ → Manager → Name → ℕ → ℕ → Option (ℤ × Manager)
unregister_from zero m name prev drv = none
unregister_from (suc fuel) m name prev drv = elim (drv == null) [
  | true ↦ some (negsuc 0, m)
  | false ↦ elim (names_equal (m.drivers drv).name name) [
    | true ↦ some (pos 0, take_out m prev drv)
    | false ↦ unregister_from fuel m name drv (m.drivers drv).next
  ]
]

unfoldable pub driver_unregister : ℕ → Manager → Name → Option (ℤ × Manager)
driver_unregister fuel m name = unregister_from fuel m name null m.driver_list

abbrev pub is_zero : ℤ → Bool
is_zero (pos n) = n == 0
is_zero (negsuc n) = false

-- What `driver_load` does to the driver that it found; `ret` is what the driver's `init` returns.
unfoldable pub activate : (ℕ → ℤ) → Manager → ℕ → ℤ × Manager
activate ret m drv =
    let d = m.drivers drv in
    let called = call m (init drv) in
    if is_active d.state
    then (pos 0, m)
    else if d.has_init
    then if is_zero (ret drv)
      then (pos 0, set_state called drv active)
      else (ret drv, set_state called drv error)
    else (pos 0, set_state m drv active)

unfoldable pub driver_load : ℕ → (ℕ → ℤ) → Manager → Name → Option (ℤ × Manager)
driver_load fuel ret m name = elim (driver_find fuel m name) [
  | none ↦ none
  | some drv ↦ some (if drv == null then (negsuc 0, m) else activate ret m drv)
]

unfoldable pub deactivate : Manager → ℕ → ℤ × Manager
deactivate m drv =
    let d = m.drivers drv in
    let m1 = if d.has_cleanup then call m (cleanup drv) else m in
    if is_active d.state then (pos 0, set_state m1 drv loaded) else (pos 0, m)

unfoldable pub driver_unload : ℕ → Manager → Name → Option (ℤ × Manager)
driver_unload fuel m name = elim (driver_find fuel m name) [
  | none ↦ none
  | some drv ↦ some (if drv == null then (negsuc 0, m) else deactivate m drv)
]
