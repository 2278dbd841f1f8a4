-- ===== src/Fs/Remove.antt =====
-- The loop of `ramfs_do_unlink` of fs/ramfs.c takes a child out of the linked list.
use nexus_kernel.Prelude.{
  ℕ, zero, suc, ◌<◌, ◌≡◌, ◌≢◌, refl, sym, ◌∙◌, subst, true, false, some, ◌==◌, if◌then◌else◌, List,
  [], ◌∷◌, ◌++◌, arith, length, Bool-cases, inl, inr,
}
use nexus_kernel.Prelude.Int.{pos, negsuc}
use nexus_kernel.Libc.Names.{Name, names_equal}
use nexus_kernel.Fs.{null, Ramfs, put}
use nexus_kernel.Fs.Directory.{freed_by, remove_child, unlink_from}
use nexus_kernel.Fs.Chain.{
  Linked, named, has, Unique, erase, different, Linked-frame, not_has, has-named,
}
use nexus_kernel.Fs.Lookup.{next_of, name_of}

-- The pointer that `prev` names: the head of the parent's children, or a child's `next_sibling`.
abbrev pub link_of : Ramfs → ℕ → ℕ → ℕ
link_of fs parent prev =
    if prev == null then (fs.nodes parent).children else (fs.nodes prev).next_sibling

-- What is left of the children behind `prev`.
pub record Left (fs : Ramfs) (parent prev : ℕ) (xs : List ℕ) (y : ℕ) (fs' : Ramfs) : Type 0 where
  pub chain : Linked (next_of fs'.nodes) (link_of fs' parent prev) (erase y xs)
  pub names : (a : ℕ) → (fs'.nodes a).name ≡ (fs.nodes a).name
  pub kinds : (a : ℕ) → (fs'.nodes a).kind ≡ (fs.nodes a).kind
  same :
      (a : ℕ) → has a xs ≡ false → a ≢ prev → (fs'.nodes a).next_sibling ≡ (fs.nodes a).next_sibling
  head : prev ≢ null → (fs'.nodes parent).children ≡ (fs.nodes parent).children
  pub freed : fs'.freed ≡ fs.freed ++ freed_by fs y

module _ (fs : Ramfs) (parent prev x : ℕ) (ne : prev ≢ x) where
  remove_child-next :
      (a : ℕ)
      → a ≢ prev
      → ((remove_child fs parent prev x).nodes a).next_sibling ≡ (fs.nodes a).next_sibling
  unfolding remove_child put
  remove_child-next a h = ground (arith, h)

  remove_child-link_of :
      link_of (remove_child fs parent prev x) parent prev ≡ (fs.nodes x).next_sibling
  unfolding remove_child put
  remove_child-link_of = ground (arith, ne)

remove_child-Left :
    (fs : Ramfs) (parent prev x : ℕ) (xs : List ℕ)
    → Linked (next_of fs.nodes) x (x ∷ xs)
    → has x xs ≡ false
    → has prev (x ∷ xs) ≡ false
    → Left fs parent prev (x ∷ xs) x (remove_child fs parent prev x)
unfolding remove_child put
remove_child-Left fs parent prev x xs c hx hp = record {
  chain =
      subst
        (Linked (next_of (remove_child fs parent prev x).nodes)
          (link_of (remove_child fs parent prev x) parent prev))
        {x = xs} (ground arith)
        (subst (λ q. Linked (next_of (remove_child fs parent prev x).nodes) q xs)
          (sym (remove_child-link_of fs parent prev x (ground (arith, hp))))
          (Linked-frame (next_of fs.nodes) (next_of (remove_child fs parent prev x).nodes) _ xs c.2
            (λ a h.
              remove_child-next fs parent prev x (ground (arith, hp)) a
                (λ e. different (subst (λ k. has k xs ≡ true) e h) (ground (arith, hp))))));
  names = λ a. ground arith;
  kinds = λ a. ground arith;
  same = λ a h ne. ground (arith, h, ne);
  head = λ ne. ground (arith, ne);
  freed = refl;
}

-- What is left behind the first child, with that child in front.
Left-cons :
    (fs fs' : Ramfs) (parent prev x y : ℕ) (xs : List ℕ)
    → x ≢ null
    → has prev (x ∷ xs) ≡ false
    → link_of fs parent prev ≡ x
    → x ≢ y
    → Left fs parent x xs y fs'
    → Left fs parent prev (x ∷ xs) y fs'
Left-cons fs fs' parent prev x y xs hx hp hc ne l = record {
  chain =
      subst (Linked (next_of fs'.nodes) (link_of fs' parent prev)) {x = x ∷ erase y xs}
        (ground (arith, ne))
        (
          ground (arith, hc, l.same prev, l.head hx, hp),
          hx,
          subst (λ q. Linked (next_of fs'.nodes) q (erase y xs)) (ground (arith, hx)) l.chain,
        );
  names = l.names;
  kinds = l.kinds;
  same = λ a h n. l.same a (ground (arith, h)) (ground (arith, h));
  head = λ _. l.head hx;
  freed = l.freed;
}

module _ (fs : Ramfs) (parent : ℕ) (name : Name) where
  step-hit :
      (fuel prev x : ℕ)
      → x ≢ null
      → names_equal (fs.nodes x).name name ≡ true
      → unlink_from (suc fuel) fs parent name prev x ≡ some (pos 0, remove_child fs parent prev x)
  unfolding unlink_from
  step-hit fuel prev x hx hit = ground (arith, hx, hit)

  step-miss :
      (fuel prev x : ℕ)
      → x ≢ null
      → names_equal (fs.nodes x).name name ≡ false
      → unlink_from (suc fuel) fs parent name prev x
        ≡ unlink_from fuel fs parent name x (fs.nodes x).next_sibling
  unfolding unlink_from
  step-miss fuel prev x hx miss = ground (arith, hx, miss)

  pub unlink_from-none :
      (fuel prev p : ℕ) (xs : List ℕ)
      → Linked (next_of fs.nodes) p xs
      → named (name_of fs.nodes) name xs ≡ null
      → length xs < fuel
      → unlink_from fuel fs parent name prev p ≡ some (negsuc 0, fs)
  unfolding unlink_from
  unlink_from-none zero prev p xs c h hf = elim hf [ ]
  unlink_from-none (suc fuel) prev p [] c h hf = ground (arith, c)
  unlink_from-none (suc fuel) prev p (x ∷ xs) c h hf =
      subst (λ q. unlink_from (suc fuel) fs parent name prev q ≡ some (negsuc 0, fs)) (sym c.0)
        (ground (
          arith,
          c.1,
          h,
          unlink_from-none fuel x (fs.nodes x).next_sibling xs c.2 (ground (arith, h, c.1))
              (omega (arith, hf)),
        ))

  pub unlink_from-some :
      (fuel prev p : ℕ) (xs : List ℕ)
      → Linked (next_of fs.nodes) p xs
      → Unique (name_of fs.nodes) xs
      → named (name_of fs.nodes) name xs ≢ null
      → length xs < fuel
      → link_of fs parent prev ≡ p
      → has prev xs ≡ false
      → (fs' : Ramfs) × (unlink_from fuel fs parent name prev p ≡ some (pos 0, fs'))
        × Left fs parent prev xs (named (name_of fs.nodes) name xs) fs'
  unfolding unlink_from
  unlink_from-some zero prev p xs c u h hf hc hp = elim hf [ ]
  unlink_from-some (suc fuel) prev p [] c u h hf hc hp = absurd (h refl)
  unlink_from-some (suc fuel) prev p (x ∷ xs) c u h hf hc hp =
      let hx =
        not_has (next_of fs.nodes) (name_of fs.nodes) (fs.nodes x).next_sibling x xs c.2 u.0 in
      elim (Bool-cases (names_equal (fs.nodes x).name name)) [
        | inl hit ↦ (
          remove_child fs parent prev x,
          subst
              (λ q.
                unlink_from (suc fuel) fs parent name prev q
                ≡ some (pos 0, remove_child fs parent prev x))
              (sym c.0) (step-hit fuel prev x c.1 hit),
          subst (λ y. Left fs parent prev (x ∷ xs) y (remove_child fs parent prev x))
              (ground (arith, hit)) (remove_child-Left fs parent prev x xs (refl, c.1, c.2) hx hp),
        )
        | inr miss ↦
            let y = named (name_of fs.nodes) name xs in
            let hy : y ≢ null = subst (λ k. k ≢ null) (ground (arith, miss)) h in
            let ih =
              unlink_from-some fuel x (fs.nodes x).next_sibling xs c.2 u.1 hy (omega (arith, hf))
                (ground (arith, c.1)) hx in
            let ne : x ≢ y = λ e.
              different
                (has-named (next_of fs.nodes) (name_of fs.nodes) name xs (fs.nodes x).next_sibling
                  c.2 hy)
                (subst (λ k. has k xs ≡ false) e hx) in
            (
              ih.0,
              subst (λ q. unlink_from (suc fuel) fs parent name prev q ≡ some (pos 0, ih.0))
                  (sym c.0) (step-miss fuel prev x c.1 miss ∙ ih.1),
              subst (λ k. Left fs parent prev (x ∷ xs) k ih.0) {x = y} (ground (arith, miss))
                  (Left-cons fs ih.0 parent prev x y xs c.1 hp (hc ∙ c.0) ne ih.2),
            )
      ]
