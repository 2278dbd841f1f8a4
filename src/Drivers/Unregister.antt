-- ===== src/Drivers/Unregister.antt =====
-- `driver_unregister` of drivers/driver.c takes a driver out of the list.
use nexus_kernel.Prelude.{
  ℕ, zero, suc, ◌<◌, ◌≡◌, ◌≢◌, refl, sym, ◌∙◌, subst, true, false, some, ◌==◌, if◌then◌else◌, List,
  [], ◌∷◌, arith, length, Bool-cases, inl, inr,
}
use nexus_kernel.Prelude.Words.{sub32}
use nexus_kernel.Prelude.Int.{pos, negsuc}
use nexus_kernel.Libc.Names.{Name, names_equal}
use nexus_kernel.Drivers.{null, max_drivers, Manager, put, set_state, driver_unregister}
use nexus_kernel.Drivers.{call, unloaded}
use nexus_kernel.Drivers.Registry.{
  Linked, named, Unique, IsRegistry, has, Linked-frame, named-frame, Unique-frame, not_has,
}
use nexus_kernel.Drivers.{take_out, unregister_from}
use nexus_kernel.Drivers.Erase.{
  erase, length-erase, different, named-gone, null-out, Unique-erase, has-named,
}

-- The pointer that `prev` names: the head of the list, or a driver's `next`.
abbrev pub cell : Manager → ℕ → ℕ
cell m prev = if prev == null then m.driver_list else (m.drivers prev).next

-- What is left of the list behind `prev`
record Left (m : Manager) (prev : ℕ) (xs : List ℕ) (y : ℕ) (m' : Manager) : Type 0 where
  chain : Linked m'.drivers (cell m' prev) (erase y xs)
  names : (a : ℕ) → (m'.drivers a).name ≡ (m.drivers a).name
  same : (a : ℕ) → has a xs ≡ false → a ≢ prev → m'.drivers a ≡ m.drivers a
  head : prev ≢ null → m'.driver_list ≡ m.driver_list
  counted : m'.driver_count ≡ sub32 m.driver_count 1
  state : (m'.drivers y).state ≡ unloaded

module _ (m : Manager) (prev x : ℕ) (ne : prev ≢ x) where
  take_out-next : (a : ℕ) → a ≢ prev → ((take_out m prev x).drivers a).next ≡ (m.drivers a).next
  unfolding take_out set_state put call
  take_out-next a h = ground (arith, h)

  take_out-cell : cell (take_out m prev x) prev ≡ (m.drivers x).next
  unfolding take_out set_state put call
  take_out-cell = ground (arith, ne)

take_out-Left :
    (m : Manager) (prev x : ℕ) (xs : List ℕ)
    → Linked m.drivers x (x ∷ xs)
    → has x xs ≡ false
    → has prev (x ∷ xs) ≡ false
    → Left m prev (x ∷ xs) x (take_out m prev x)
unfolding take_out set_state put call
take_out-Left m prev x xs c hx hp = record {
  chain =
      subst (Linked (take_out m prev x).drivers (cell (take_out m prev x) prev)) {x = xs}
        (ground arith)
        (subst (λ q. Linked (take_out m prev x).drivers q xs)
          (sym (take_out-cell m prev x (ground (arith, hp))))
          (Linked-frame m.drivers (take_out m prev x).drivers (m.drivers x).next xs c.2 (λ a h.
            take_out-next m prev x (ground (arith, hp)) a
              (λ e. different (subst (λ k. has k xs ≡ true) e h) (ground (arith, hp))))));
  names = λ a. ground arith;
  same = λ a h ne. ground (arith, h, ne);
  head = λ ne. ground (arith, ne);
  counted = ground arith;
  state = ground arith;
}

-- What is left behind the first driver, with that driver in front.
Left-cons :
    (m m' : Manager) (prev x y : ℕ) (xs : List ℕ)
    → x ≢ null
    → has prev (x ∷ xs) ≡ false
    → cell m prev ≡ x
    → x ≢ y
    → Left m x xs y m'
    → Left m prev (x ∷ xs) y m'
Left-cons m m' prev x y xs hx hp hc ne l = record {
  chain = subst (Linked m'.drivers (cell m' prev)) {x = x ∷ erase y xs} (ground (arith, ne)) (
    ground (arith, hc, l.same prev, l.head hx, hp),
    hx,
    subst (λ q. Linked m'.drivers q (erase y xs)) (ground (arith, hx)) l.chain,
  );
  names = l.names;
  same = λ a h n. l.same a (ground (arith, h)) (ground (arith, h));
  head = λ _. l.head hx;
  counted = l.counted;
  state = l.state;
}

module _ (m : Manager) (name : Name) where
  step-hit :
      (fuel prev x : ℕ)
      → x ≢ null
      → names_equal (m.drivers x).name name ≡ true
      → unregister_from (suc fuel) m name prev x ≡ some (pos 0, take_out m prev x)
  unfolding unregister_from
  step-hit fuel prev x hx hit = ground (arith, hx, hit)

  step-miss :
      (fuel prev x : ℕ)
      → x ≢ null
      → names_equal (m.drivers x).name name ≡ false
      → unregister_from (suc fuel) m name prev x ≡ unregister_from fuel m name x (m.drivers x).next
  unfolding unregister_from
  step-miss fuel prev x hx miss = ground (arith, hx, miss)

  unregister_from-none :
      (fuel prev p : ℕ) (xs : List ℕ)
      → Linked m.drivers p xs
      → named m.drivers name xs ≡ null
      → length xs < fuel
      → unregister_from fuel m name prev p ≡ some (negsuc 0, m)
  unfolding unregister_from
  unregister_from-none zero prev p xs c h hf = elim hf [ ]
  unregister_from-none (suc fuel) prev p [] c h hf = ground (arith, c)
  unregister_from-none (suc fuel) prev p (x ∷ xs) c h hf =
      subst (λ q. unregister_from (suc fuel) m name prev q ≡ some (negsuc 0, m)) (sym c.0)
        (ground (
          arith,
          c.1,
          h,
          unregister_from-none fuel x (m.drivers x).next xs c.2 (ground (arith, h, c.1))
              (omega (arith, hf)),
        ))

  unregister_from-some :
      (fuel prev p : ℕ) (xs : List ℕ)
      → Linked m.drivers p xs
      → Unique m.drivers xs
      → named m.drivers name xs ≢ null
      → length xs < fuel
      → cell m prev ≡ p
      → has prev xs ≡ false
      → (m' : Manager) × (unregister_from fuel m name prev p ≡ some (pos 0, m'))
        × Left m prev xs (named m.drivers name xs) m'
  unfolding unregister_from
  unregister_from-some zero prev p xs c u h hf hc hp = elim hf [ ]
  unregister_from-some (suc fuel) prev p [] c u h hf hc hp = absurd (h refl)
  unregister_from-some (suc fuel) prev p (x ∷ xs) c u h hf hc hp =
      elim (Bool-cases (names_equal (m.drivers x).name name)) [
        | inl hit ↦ (
          take_out m prev x,
          subst (λ q. unregister_from (suc fuel) m name prev q ≡ some (pos 0, take_out m prev x))
              (sym c.0) (step-hit fuel prev x c.1 hit),
          subst (λ y. Left m prev (x ∷ xs) y (take_out m prev x)) (ground (arith, hit))
              (take_out-Left m prev x xs (refl, c.1, c.2)
                (not_has m.drivers (m.drivers x).next x xs c.2 u.0) hp),
        )
        | inr miss ↦
            let y = named m.drivers name xs in
            let hx = not_has m.drivers (m.drivers x).next x xs c.2 u.0 in
            let hy : y ≢ null = subst (λ k. k ≢ null) (ground (arith, miss)) h in
            let ih =
              unregister_from-some fuel x (m.drivers x).next xs c.2 u.1 hy (omega (arith, hf))
                (ground (arith, c.1)) hx in
            let ne : x ≢ y = λ e.
              different (has-named m.drivers name xs (m.drivers x).next c.2 hy)
                (subst (λ k. has k xs ≡ false) e hx) in
            (
              ih.0,
              subst (λ q. unregister_from (suc fuel) m name prev q ≡ some (pos 0, ih.0)) (sym c.0)
                  (step-miss fuel prev x c.1 miss ∙ ih.1),
              subst (λ k. Left m prev (x ∷ xs) k ih.0) {x = y} (ground (arith, miss))
                  (Left-cons m ih.0 prev x y xs c.1 hp (hc ∙ c.0) ne ih.2),
            )
      ]

-- The result when a driver is taken out: the list without it is well-formed and has the name no more.
abbrev pub Removed : ℕ → Manager → List ℕ → Name → Type 0
Removed fuel m xs name =
    let y = named m.drivers name xs in
    (m' : Manager) × (driver_unregister fuel m name ≡ some (pos 0, m'))
    × IsRegistry m' (erase y xs)
    × ((m'.drivers y).state ≡ unloaded)
    × (named m'.drivers name (erase y xs) ≡ null)

module _ (fuel : ℕ) (enough : max_drivers < fuel) (m : Manager) (xs : List ℕ) (r : IsRegistry m xs)
    (name : Name) where
  -- On a well-formed list of drivers that has no driver of the name, `driver_unregister` returns -1 and
  -- changes nothing.
  driver_unregister-none :
      named m.drivers name xs ≡ null → driver_unregister fuel m name ≡ some (negsuc 0, m)
  unfolding driver_unregister
  driver_unregister-none h =
      unregister_from-none m name fuel null m.driver_list xs r.chain h
        (omega (arith, r.room, enough))

  -- If a well-formed list of drivers has one of the name, `driver_unregister` returns 0 and takes that
  -- driver out of the list, marked as unloaded; the list stays well-formed and has no driver of the
  -- name any more.
  pub driver_unregister_lem : named m.drivers name xs ≢ null → Removed fuel m xs name
  unfolding driver_unregister
  driver_unregister_lem h =
      let y = named m.drivers name xs in
      let k =
        unregister_from-some m name fuel null m.driver_list xs r.chain r.unique h
          (omega (arith, r.room, enough)) refl (null-out m.drivers m.driver_list xs r.chain) in
      let m' = k.0 in
      let len = length-erase y xs (has-named m.drivers name xs m.driver_list r.chain h) in
      (
        m',
        k.1,
        record {
          chain = k.2.chain;
          unique =
              Unique-frame m.drivers m'.drivers (erase y xs) k.2.names
                (Unique-erase m.drivers y xs m.driver_list r.chain r.unique);
          counted = k.2.counted ∙ omega (arith, r.counted, len, r.room);
          room = omega (arith, len, r.room);
        },
        k.2.state,
        named-frame m.drivers m'.drivers name (erase y xs) k.2.names
            ∙ named-gone m.drivers name xs m.driver_list r.chain r.unique,
      )
