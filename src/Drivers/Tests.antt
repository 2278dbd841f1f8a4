-- ===== src/Drivers/Tests.antt =====
-- driver.c at concrete lists of drivers: runs of the model, and the theorems at inputs that meet their
-- conditions.
use nexus_kernel.Prelude.{ℕ, ◌≡◌, refl, arith, [], ◌∷◌, true, false, ◌==◌, if◌then◌else◌, some}
use nexus_kernel.Prelude.Int.{negsuc}
use nexus_kernel.Libc.Names.{Name}
use nexus_kernel.Drivers.{
  Driver, Manager, unloaded, put, enter, driver_manager_init, driver_register, driver_find,
  search_from,
}
use nexus_kernel.Drivers.Registry.{IsRegistry}
use nexus_kernel.Drivers.Register.{
  driver_manager_init-IsRegistry, accepts, Registered, driver_register_lem,
}
use nexus_kernel.Drivers.Unregister.{Removed, driver_unregister_lem}

-- The keyboard driver's struct, at address 4, and another.
abbrev structs : ℕ → Driver
structs a =
    if a == 4
    then record {
      name = 107 ∷ 98 ∷ [];
      kind = 4;
      state = unloaded;
      has_init = true;
      has_cleanup = true;
      next = 77;
    }
    else record {
      name = 118 ∷ [];
      kind = 3;
      state = unloaded;
      has_init = false;
      has_cleanup = false;
      next = 0;
    }

abbrev none_yet : Manager
none_yet =
    driver_manager_init
      (record { drivers = structs; driver_list = 5; driver_count = 9; calls = [] })

none_yet-IsRegistry : IsRegistry none_yet []
none_yet-IsRegistry =
    driver_manager_init-IsRegistry
      (record { drivers = structs; driver_list = 5; driver_count = 9; calls = [] })

driver_register_lem_example :
    Registered 65 (omega arith) none_yet [] none_yet-IsRegistry 4 (accepts none_yet [] 4)
driver_register_lem_example = driver_register_lem 65 (omega arith) none_yet [] none_yet-IsRegistry 4

abbrev one : Manager
one = enter none_yet 4

one-IsRegistry : IsRegistry one (4 ∷ [])
unfolding driver_manager_init
one-IsRegistry = (driver_register_lem 65 (omega arith) none_yet [] none_yet-IsRegistry 4).1

abbrev kb : Name
kb = 107 ∷ 98 ∷ []

driver_unregister_lem_example : Removed 65 one (4 ∷ []) kb
unfolding enter put driver_manager_init
driver_unregister_lem_example =
    driver_unregister_lem 65 (omega arith) one (4 ∷ []) one-IsRegistry kb (omega arith)

-- A second driver of the name is refused.
again : driver_register 65 one 4 ≡ some (negsuc 0, one)
unfolding driver_register driver_find search_from enter put driver_manager_init
again = refl
