-- ===== src/Fs/Unlink.antt =====
-- `ramfs_do_unlink` of fs/ramfs.c on every branch, and behind `ramfs_do_create`.
use nexus_kernel.Prelude.{
  ℕ, ◌<◌, ◌≡◌, ◌≢◌, refl, sym, ◌∙◌, subst, Bool, true, false, not, ◌&&◌, ap, some, Option, ◌==◌,
  if◌then◌else◌, List, [], ◌∷◌, ◌++◌, ◌+◌, arith, length, Bool-cases, inl, inr,
}
use nexus_kernel.Prelude.Int.{ℤ, pos, negsuc}
use nexus_kernel.Libc.Names.{Name, names_equal, names_equal_self, names_equal_sound}
use nexus_kernel.Fs.{null, is_directory, Ramfs}
use nexus_kernel.Fs.Directory.{freed_by, ramfs_do_create, ramfs_do_unlink}
use nexus_kernel.Fs.Chain.{
  named, has, erase, named-frame, Unique-frame, null-out, named-gone, Unique-erase,
}
use nexus_kernel.Fs.Lookup.{next_of, name_of, IsDirectory}
use nexus_kernel.Fs.Remove.{Left, unlink_from-none, unlink_from-some}
use nexus_kernel.Fs.Create.{accepts, Entered, Creates, ramfs_do_create_lem}

has-erase : (a p : ℕ) (xs : List ℕ) → has a xs ≡ false → has a (erase p xs) ≡ false
has-erase a p [] h = refl
has-erase a p (x ∷ xs) h = ground (arith, has-erase a p xs)

-- The blocks that a child has: its data, if there are any, its file struct, if there is one, and
-- its node.
abbrev pub blocks_of : Ramfs → ℕ → List ℕ
blocks_of fs y =
    let file = (fs.nodes y).private_data in
    let data_ptr = (fs.files file).data_ptr in
    (if not (file == null) && not (data_ptr == null) then data_ptr ∷ [] else [])
    ++ ((if file == null then [] else file ∷ []) ++ (y ∷ []))

freed_by_lem : (fs : Ramfs) (y : ℕ) → freed_by fs y ≡ blocks_of fs y
freed_by_lem fs y = ground arith

-- `y` is no child of `dir` any more: the other children are a well-formed list, a search for its
-- name finds nothing, and one for another name finds what it found before; and the child's blocks
-- are freed in their order, and nothing else is.
pub record Removed (fs : Ramfs) (dir y : ℕ) (name : Name) (xs : List ℕ) (fs' : Ramfs) : Type 0 where
  pub directory : IsDirectory fs'.nodes dir (erase y xs)
  pub lookup :
      (k : Name)
      → named (name_of fs'.nodes) k (erase y xs)
        ≡ (if names_equal name k then null else named (name_of fs.nodes) k xs)
  pub freed : fs'.freed ≡ fs.freed ++ blocks_of fs y

-- A call that removes `y`, or finds nothing and changes nothing.
abbrev pub Unlinks : Bool → Ramfs → ℕ → ℕ → Name → List ℕ → Option (ℤ × Ramfs) → Type 0
Unlinks true fs dir y name xs result = result ≡ some (negsuc 0, fs)
Unlinks false fs dir y name xs result =
    (fs' : Ramfs) × (result ≡ some (pos 0, fs')) × Removed fs dir y name xs fs'

module _ (fuel : ℕ) (fs : Ramfs) (dir : ℕ) (name : Name) (xs : List ℕ)
    (d : IsDirectory fs.nodes dir xs) (enough : length xs < fuel) where
  abbrev child : ℕ
  child = named (name_of fs.nodes) name xs

  unlink-none : child ≡ null → ramfs_do_unlink fuel fs dir name ≡ some (negsuc 0, fs)
  unfolding ramfs_do_unlink
  unlink-none h =
      rw d.kind (unlink_from-none fs dir name fuel null (fs.nodes dir).children xs d.chain h enough)

  unlink-some :
      child ≢ null
      → (fs' : Ramfs) × (ramfs_do_unlink fuel fs dir name ≡ some (pos 0, fs'))
        × Left fs dir null xs child fs'
  unfolding ramfs_do_unlink
  unlink-some h = rw d.kind (
      unlink_from-some fs dir name fuel null (fs.nodes dir).children xs d.chain d.unique h enough
        refl (null-out (next_of fs.nodes) (fs.nodes dir).children xs d.chain))

  Left-Removed :
      (fs' : Ramfs)
      → child ≢ null
      → Left fs dir null xs child fs'
      → Removed fs dir child name xs fs'
  Left-Removed fs' h l = record {
    directory = record {
      kind = subst (λ k. is_directory k ≡ true) (sym (l.kinds dir)) d.kind;
      not_null = d.not_null;
      chain = l.chain;
      unique =
          Unique-frame (name_of fs.nodes) (name_of fs'.nodes) (erase child xs) (λ a _. l.names a)
            (Unique-erase (next_of fs.nodes) (name_of fs.nodes) child xs (fs.nodes dir).children
              d.chain d.unique);
      apart = has-erase dir child xs d.apart;
    };
    lookup = λ k.
        named-frame (name_of fs.nodes) (name_of fs'.nodes) k (erase child xs) (λ a _. l.names a)
        ∙ named-gone (next_of fs.nodes) (name_of fs.nodes) name xs (fs.nodes dir).children d.chain
            d.unique h k;
    freed = l.freed ∙ ap (λ (b : List ℕ). fs.freed ++ b) (freed_by_lem fs child);
  }

  -- In a well-formed directory, with more fuel than it has children, `ramfs_do_unlink` returns 0,
  -- takes the child with the name out of the list, if there is one, and frees its data, its file
  -- struct and its node, as far as it has them, in this order; otherwise it returns -1 and changes
  -- nothing.
  pub ramfs_do_unlink_lem :
      Unlinks (child == null) fs dir child name xs (ramfs_do_unlink fuel fs dir name)
  ramfs_do_unlink_lem = elim (Bool-cases (child == null)) [
    | inl h ↦ rw h (unlink-none (ground (arith, h)))
    | inr h ↦
        let k = unlink-some (ground (arith, h)) in
        rw h (k.0, k.1, Left-Removed k.0 (ground (arith, h)) k.2)
  ]

-- The two calls succeed one after the other, and the directory has its children of before under
-- their names.
abbrev pub Undone : ℕ → Ramfs → ℕ → ℕ → ℕ → Name → ℕ → List ℕ → Type 0
Undone fuel fs node file dir name kind xs =
    (fs' : Ramfs) × (fs'' : Ramfs) × (ramfs_do_create fuel fs node file dir name kind
      ≡ some (pos 0, fs'))
    × (ramfs_do_unlink fuel fs' dir name ≡ some (pos 0, fs''))
    × IsDirectory fs''.nodes dir xs
    × ((k : Name) → named (name_of fs''.nodes) k xs ≡ named (name_of fs.nodes) k xs)

-- Under the conditions of `ramfs_do_create_lem`, with fuel for one more child, let the node be
-- accepted. Then `ramfs_do_create` and `ramfs_do_unlink` of the same name both return 0, and the
-- directory has the children that it had before, under the same names.
pub ramfs_do_unlink-ramfs_do_create :
    (fuel : ℕ) (fs : Ramfs) (dir node file kind : ℕ) (name : Name) (xs : List ℕ)
    → IsDirectory fs.nodes dir xs
    → length xs + 1 < fuel
    → length name < 128
    → node ≢ dir
    → has node xs ≡ false
    → accepts fs xs node name ≡ true
    → Undone fuel fs node file dir name kind xs
ramfs_do_unlink-ramfs_do_create fuel fs dir node file kind name xs d enough short ne out ok =
    let made =
      subst (λ b. Creates b fs dir node name xs (ramfs_do_create fuel fs node file dir name kind))
        ok
        (ramfs_do_create_lem fuel fs dir node name xs d (omega (arith, enough)) short ne out file
          kind) in
    behind made.0 made.1 made.2
  where
    same : names_equal name name ≡ true
    same = names_equal_self name

    behind :
        (fs' : Ramfs)
        → ramfs_do_create fuel fs node file dir name kind ≡ some (pos 0, fs')
        → Entered fs dir node name xs fs'
        → Undone fuel fs node file dir name kind xs
    behind fs' e t =
        let found : named (name_of fs'.nodes) name (node ∷ xs) ≡ node =
          t.lookup name ∙ rw same refl in
        let some_child : (node == null) ≡ false = ground (arith, ok) in
        let r =
          subst
            (λ y.
              Unlinks (y == null) fs' dir y name (node ∷ xs) (ramfs_do_unlink fuel fs' dir name))
            found
            (ramfs_do_unlink_lem fuel fs' dir name (node ∷ xs) t.directory
              (omega (arith, enough))) in
        let gone =
          subst (λ b. Unlinks b fs' dir node name (node ∷ xs) (ramfs_do_unlink fuel fs' dir name))
            some_child r in
        let first : erase node (node ∷ xs) ≡ xs = ground arith in
        (
          fs',
          gone.0,
          e,
          gone.1,
          subst (IsDirectory gone.0.nodes dir) first gone.2.directory,
          λ k.
              subst (λ ys. named (name_of gone.0.nodes) k ys ≡ named (name_of fs.nodes) k xs) first
                (gone.2.lookup k ∙ old k (t.lookup k)),
        )
      where
        old :
            (k : Name)
            → named (name_of fs'.nodes) k (node ∷ xs)
              ≡ (if names_equal name k then node else named (name_of fs.nodes) k xs)
            → (if names_equal name k then null else named (name_of fs'.nodes) k (node ∷ xs))
              ≡ named (name_of fs.nodes) k xs
        old k l = elim (Bool-cases (names_equal name k)) [
          | inl hit ↦ rw hit (
              sym (
                subst (λ n. named (name_of fs.nodes) n xs ≡ null) (names_equal_sound name k hit)
                  (ground (arith, ok))))
          | inr miss ↦ rw miss (l ∙ rw miss refl)
        ]
