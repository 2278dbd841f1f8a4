-- ===== src/Drivers/Register.antt =====
-- `driver_register` of drivers/driver.c enters a driver under a name that is not taken.
use nexus_kernel.Prelude.{
  ℕ, ◌<◌, ◌≡◌, ◌≢◌, refl, sym, ap, ◌∙◌, subst, Bool, true, false, not, ◌&&◌, ◌||◌, some, ltb, ◌==◌,
  if◌then◌else◌, List, [], ◌∷◌, arith, length, Bool-cases, inl, inr,
}
use nexus_kernel.Prelude.Int.{pos, negsuc}
use nexus_kernel.Libc.Names.{is_empty}
use nexus_kernel.Drivers.{
  null, max_drivers, Manager, put, driver_manager_init, enter, driver_register,
}
use nexus_kernel.Drivers.Registry.{
  Linked, named, IsRegistry, driver_find_lem, Linked-frame, named-frame, Unique-frame, not_has,
}

pub driver_manager_init-IsRegistry : (m : Manager) → IsRegistry (driver_manager_init m) []
unfolding driver_manager_init
driver_manager_init-IsRegistry m = record {
  chain = refl;
  unique = tt;
  counted = refl;
  room = omega arith;
}

-- The driver is accepted: it is not null, has a name that no other has, and there is room.
abbrev pub accepts : Manager → List ℕ → ℕ → Bool
accepts m xs drv =
    not (drv == null || is_empty (m.drivers drv).name)
    && (ltb (length xs) max_drivers && named m.drivers (m.drivers drv).name xs == null)

enter-IsRegistry :
    (m : Manager) (xs : List ℕ) (drv : ℕ)
    → IsRegistry m xs
    → drv ≢ null
    → length xs < max_drivers
    → named m.drivers (m.drivers drv).name xs ≡ null
    → IsRegistry (enter m drv) (drv ∷ xs)
unfolding enter put
enter-IsRegistry m xs drv r hn room new = record {
  chain = (
    refl,
    hn,
    subst (λ q. Linked (enter m drv).drivers q xs) (ground arith)
        (Linked-frame m.drivers (enter m drv).drivers m.driver_list xs r.chain
          (λ a h. ground (arith, h, not_has m.drivers m.driver_list drv xs r.chain new))),
  );
  unique = (
    ap (λ n. named (enter m drv).drivers n xs) (names drv)
        ∙ named-frame m.drivers (enter m drv).drivers (m.drivers drv).name xs names
        ∙ new,
    Unique-frame m.drivers (enter m drv).drivers xs names r.unique,
  );
  counted = omega (arith, r.counted);
  room = omega arith;
}
  where
    names : (a : ℕ) → ((enter m drv).drivers a).name ≡ (m.drivers a).name
    names a = ground arith

module _ (fuel : ℕ) (enough : max_drivers < fuel) (m : Manager) (xs : List ℕ) (r : IsRegistry m xs)
    (drv : ℕ) where
  accepted : accepts m xs drv ≡ true → driver_register fuel m drv ≡ some (pos 0, enter m drv)
  unfolding driver_register
  accepted h = ground (
    arith,
    h,
    r.counted,
    driver_find_lem fuel m xs (m.drivers drv).name r (omega (arith, r.room, enough)),
  )

  refused : accepts m xs drv ≡ false → driver_register fuel m drv ≡ some (negsuc 0, m)
  unfolding driver_register
  refused h = ground (
    arith,
    h,
    r.counted,
    driver_find_lem fuel m xs (m.drivers drv).name r (omega (arith, r.room, enough)),
  )

  -- What a registration returns.
  abbrev pub Registered : Bool → Type 0
  Registered ok =
      if ok
      then (driver_register fuel m drv ≡ some (pos 0, enter m drv))
        × IsRegistry (enter m drv) (drv ∷ xs)
      else driver_register fuel m drv ≡ some (negsuc 0, m)

  -- On a well-formed list of drivers, `driver_register` returns 0 and puts the driver in front of the
  -- list, which stays well-formed, if the driver is not null, its name is not empty and not taken and
  -- there are fewer than 64 drivers; otherwise it returns -1 and changes nothing.
  pub driver_register_lem : Registered (accepts m xs drv)
  driver_register_lem = elim (Bool-cases (accepts m xs drv)) [
    | inl h ↦ subst Registered (sym h) (
      accepted h,
      enter-IsRegistry m xs drv r (ground (arith, h)) (ground (arith, h)) (ground (arith, h)),
    )
    | inr h ↦ subst Registered (sym h) (refused h)
  ]
