-- ===== src/Drivers/Registry.antt =====
-- The list of drivers/driver.c as a list of addresses with different names.
use nexus_kernel.Prelude.{
  ℕ, zero, suc, ◌<◌, ◌≤◌, ◌≡◌, ◌≢◌, refl, sym, ap, ◌∙◌, subst, Bool, true, false, ◌||◌, some, ◌==◌,
  if◌then◌else◌, List, [], ◌∷◌, arith, length,
}
use nexus_kernel.Libc.Names.{Name, names_equal, names_equal_self}
use nexus_kernel.Drivers.{null, max_drivers, Driver, Manager, search_from, driver_find}

-- From `p` the `next` pointers lead through `xs` to the null pointer.
abbrev pub Linked : (ℕ → Driver) → ℕ → List ℕ → Type 0
Linked f p [] = p ≡ null
Linked f p (x ∷ xs) = (p ≡ x) × (x ≢ null) × Linked f ((f x).next) xs

-- The first driver of the list that passes the test, or null.
abbrev pub first : (ℕ → Driver) → (Driver → Bool) → List ℕ → ℕ
first f test [] = null
first f test (x ∷ xs) = if test (f x) then x else first f test xs

-- The driver of the list with the name, or null.
abbrev pub named : (ℕ → Driver) → Name → List ℕ → ℕ
named f name xs = first f (λ d. names_equal d.name name) xs

-- No two drivers of the list have one name.
abbrev pub Unique : (ℕ → Driver) → List ℕ → Type 0
Unique f [] = Unit
Unique f (x ∷ xs) = (named f (f x).name xs ≡ null) × Unique f xs

pub record IsRegistry (m : Manager) (xs : List ℕ) : Type 0 where
  pub chain : Linked m.drivers m.driver_list xs
  pub unique : Unique m.drivers xs
  pub counted : m.driver_count ≡ length xs
  pub room : length xs ≤ max_drivers

search_from-first :
    (fuel : ℕ) (m : Manager) (test : Driver → Bool) (p : ℕ) (xs : List ℕ)
    → Linked m.drivers p xs
    → length xs < fuel
    → search_from fuel m test p ≡ some (first m.drivers test xs)
unfolding search_from
search_from-first zero m test p xs c h = elim h [ ]
search_from-first (suc fuel) m test p [] c h = ground (arith, c)
search_from-first (suc fuel) m test p (x ∷ xs) c h =
    subst (λ q. search_from (suc fuel) m test q ≡ some (first m.drivers test (x ∷ xs))) (sym c.0)
      (ground
        (arith, c.1, search_from-first fuel m test (m.drivers x).next xs c.2 (omega (arith, h))))

-- With more fuel than there are drivers, the search returns the driver with the name, or null.
pub driver_find_lem :
    (fuel : ℕ) (m : Manager) (xs : List ℕ) (name : Name)
    → IsRegistry m xs
    → length xs < fuel
    → driver_find fuel m name ≡ some (named m.drivers name xs)
unfolding driver_find
driver_find_lem fuel m xs name r h =
    search_from-first fuel m (λ d. names_equal d.name name) m.driver_list xs r.chain h

-- The address stands in the list.
abbrev pub has : ℕ → List ℕ → Bool
has a [] = false
has a (x ∷ xs) = (a == x) || has a xs

module _ (f g : ℕ → Driver) where
  pub Linked-frame :
      (p : ℕ) (xs : List ℕ)
      → Linked f p xs
      → ((a : ℕ) → has a xs ≡ true → (g a).next ≡ (f a).next)
      → Linked g p xs
  Linked-frame p [] c same = c
  Linked-frame p (x ∷ xs) c same = (
    c.0,
    c.1,
    subst (λ q. Linked g q xs) (sym (same x (ground arith)))
        (Linked-frame (f x).next xs c.2 (λ a h. same a (ground (arith, h)))),
  )

  pub named-frame :
      (n : Name) (xs : List ℕ) → ((a : ℕ) → (g a).name ≡ (f a).name) → named g n xs ≡ named f n xs
  named-frame n [] same = refl
  named-frame n (x ∷ xs) same = ground (arith, same x, named-frame n xs same)

  pub Unique-frame : (xs : List ℕ) → ((a : ℕ) → (g a).name ≡ (f a).name) → Unique f xs → Unique g xs
  Unique-frame [] same u = tt
  Unique-frame (x ∷ xs) same u = (
    ap (λ n. named g n xs) (same x) ∙ named-frame (f x).name xs same ∙ u.0,
    Unique-frame xs same u.1,
  )

-- A driver whose name is not found does not stand in the list.
pub not_has :
    (f : ℕ → Driver) (p drv : ℕ) (xs : List ℕ)
    → Linked f p xs
    → named f (f drv).name xs ≡ null
    → has drv xs ≡ false
not_has f p drv [] c h = refl
not_has f p drv (x ∷ xs) c h =
    ground (arith, c.1, names_equal_self (f drv).name, not_has f (f x).next drv xs c.2)
