-- ===== src/Fs/Lookup.antt =====
-- Directories of fs/ramfs.c as lists of children, and the searches `ramfs_finddir` and `ramfs_readdir`.
use nexus_kernel.Prelude.{
  ℕ, zero, suc, ◌+◌, ◌-◌, ◌^◌, ◌≤◌, ◌<◌, ◌≡◌, ◌≢◌, sym, ap, ◌∙◌, subst, true, false, some, ◌==◌,
  List, [], ◌∷◌, arith, length, get_or, Bool-cases, inl, inr,
}
use nexus_kernel.Prelude.Words.{add32}
use nexus_kernel.Libc.Names.{Name}
use nexus_kernel.Fs.{null, is_directory, Node, Ramfs}
use nexus_kernel.Fs.Directory.{readdir_from, ramfs_readdir, finddir_from, ramfs_finddir}
use nexus_kernel.Fs.Chain.{Linked, named, has, Unique, Linked-frame, Unique-frame}

abbrev pub next_of : (ℕ → Node) → ℕ → ℕ
next_of nodes a = (nodes a).next_sibling

abbrev pub name_of : (ℕ → Node) → ℕ → Name
name_of nodes a = (nodes a).name

-- `dir` is a directory with the children `xs`, which have different names.
pub record IsDirectory (nodes : ℕ → Node) (dir : ℕ) (xs : List ℕ) : Type 0 where
  pub kind : is_directory (nodes dir).kind ≡ true
  pub not_null : dir ≢ null
  pub chain : Linked (next_of nodes) (nodes dir).children xs
  pub unique : Unique (name_of nodes) xs
  pub apart : has dir xs ≡ false

finddir_from-named :
    (fuel : ℕ) (nodes : ℕ → Node) (name : Name) (p : ℕ) (xs : List ℕ)
    → Linked (next_of nodes) p xs
    → length xs < fuel
    → finddir_from fuel nodes name p ≡ some (named (name_of nodes) name xs)
unfolding finddir_from
finddir_from-named zero nodes name p xs c h = elim h [ ]
finddir_from-named (suc fuel) nodes name p [] c h = ground (arith, c)
finddir_from-named (suc fuel) nodes name p (x ∷ xs) c h =
    subst (λ q. finddir_from (suc fuel) nodes name q ≡ some (named (name_of nodes) name (x ∷ xs)))
      (sym c.0)
      (ground (
        arith,
        c.1,
        finddir_from-named fuel nodes name (nodes x).next_sibling xs c.2 (omega (arith, h)),
      ))

-- In a well-formed directory, with more fuel than it has children, `ramfs_finddir` returns the child
-- with the name, or null.
pub ramfs_finddir_lem :
    (fuel : ℕ) (fs : Ramfs) (dir : ℕ) (name : Name) (xs : List ℕ)
    → IsDirectory fs.nodes dir xs
    → length xs < fuel
    → ramfs_finddir fuel fs dir name ≡ some (named (name_of fs.nodes) name xs)
unfolding ramfs_finddir
ramfs_finddir_lem fuel fs dir name xs d h =
    rw d.kind (finddir_from-named fuel fs.nodes name (fs.nodes dir).children xs d.chain h)

readdir_from-get_or :
    (fuel : ℕ) (nodes : ℕ → Node) (index i p : ℕ) (xs : List ℕ)
    → Linked (next_of nodes) p xs
    → length xs < fuel
    → i ≤ index
    → index < 2 ^ 32
    → i + length xs < 2 ^ 32
    → readdir_from fuel nodes index i p ≡ some (get_or xs (index - i) null)
unfolding readdir_from
readdir_from-get_or zero nodes index i p xs c h hi hb hl = elim h [ ]
readdir_from-get_or (suc fuel) nodes index i p [] c h hi hb hl = ground (arith, c)
readdir_from-get_or (suc fuel) nodes index i p (x ∷ xs) c h hi hb hl =
    subst (λ q. readdir_from (suc fuel) nodes index i q ≡ some (get_or (x ∷ xs) (index - i) null))
      (sym c.0)
      (elim (Bool-cases (i == index)) [
        | inl here ↦
            let e : index - i ≡ 0 = ground (arith, here) in rw e (ground (arith, c.1, here))
        | inr there ↦
            let e : index - i ≡ suc (index - (i + 1)) = ground (arith, there) in
            let w : add32 i 1 ≡ i + 1 = omega (arith, hl) in
            rw e (
              ground (
                arith,
                c.1,
                there,
                w,
                readdir_from-get_or fuel nodes index (i + 1) (nodes x).next_sibling xs c.2
                    (omega (arith, h)) (ground (arith, there)) hb (omega (arith, hl)),
              ))
      ])

-- In a well-formed directory with fewer than 2^32 children, and more fuel than that, `ramfs_readdir`
-- returns the child at the index, or null if there are not so many.
ramfs_readdir_lem :
    (fuel : ℕ) (fs : Ramfs) (dir index : ℕ) (xs : List ℕ)
    → IsDirectory fs.nodes dir xs
    → length xs < fuel
    → index < 2 ^ 32
    → length xs < 2 ^ 32
    → ramfs_readdir fuel fs dir index ≡ some (get_or xs index null)
unfolding ramfs_readdir
ramfs_readdir_lem fuel fs dir index xs d h hb hl = rw d.kind (
    readdir_from-get_or fuel fs.nodes index 0 (fs.nodes dir).children xs d.chain h (omega arith) hb
      (omega (arith, hl))
    ∙ ap (λ i. some (get_or xs i null)) (from_start index))
  where
    from_start : (i : ℕ) → i - 0 ≡ i
    from_start i = omega arith

-- Only the names, the siblings, the kind and the children of a directory count.
pub IsDirectory-frame :
    (f g : ℕ → Node) (dir : ℕ) (xs : List ℕ)
    → IsDirectory f dir xs
    → (g dir).kind ≡ (f dir).kind
    → (g dir).children ≡ (f dir).children
    → ((a : ℕ)
        → has a xs ≡ true
        → ((g a).next_sibling ≡ (f a).next_sibling) × ((g a).name ≡ (f a).name))
    → IsDirectory g dir xs
IsDirectory-frame f g dir xs d kind children same = record {
  kind = subst (λ k. is_directory k ≡ true) (sym kind) d.kind;
  not_null = d.not_null;
  chain =
      subst (λ q. Linked (next_of g) q xs) (sym children)
        (Linked-frame (next_of f) (next_of g) _ xs d.chain (λ a h. (same a h).0));
  unique = Unique-frame (name_of f) (name_of g) xs (λ a h. (same a h).1) d.unique;
  apart = d.apart;
}
