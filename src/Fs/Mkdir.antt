-- ===== src/Fs/Mkdir.antt =====
-- `ramfs_do_mkdir` of fs/ramfs.c enters an empty directory.
use nexus_kernel.Prelude.{
  ℕ, ◌<◌, ◌≡◌, ◌≢◌, refl, Bool, true, false, Option, some, List, [], arith, length, Bool-cases, inl,
  inr,
}
use nexus_kernel.Prelude.Int.{ℤ, pos, negsuc}
use nexus_kernel.Libc.Names.{Name}
use nexus_kernel.Fs.{null, vfs_directory, Node, Ramfs, put, ramfs_dir_ops}
use nexus_kernel.Fs.Directory.{new_node, ramfs_create_node, adopt, as_directory, ramfs_do_mkdir}
use nexus_kernel.Fs.Chain.{has}
use nexus_kernel.Fs.Lookup.{IsDirectory, ramfs_finddir_lem}
use nexus_kernel.Fs.Create.{accepts, Entered, Agree, created, made-bytes, Agree-Entered}

-- A call that enters an empty directory, or refuses and changes nothing.
abbrev pub Makes : Bool → Ramfs → ℕ → ℕ → Name → ℕ → List ℕ → Option (ℤ × Ramfs) → Type 0
Makes false fs dir node name mode xs result = result ≡ some (negsuc 0, fs)
Makes true fs dir node name mode xs result =
    (fs' : Ramfs) × (result ≡ some (pos 0, fs'))
    × Entered fs dir node name xs fs'
    × IsDirectory fs'.nodes node []
    × ((fs'.nodes node).permissions ≡ mode)
    × ((fs'.nodes node).ops ≡ ramfs_dir_ops)

module _ (fuel : ℕ) (fs : Ramfs) (dir node : ℕ) (name : Name) (xs : List ℕ)
    (d : IsDirectory fs.nodes dir xs) (enough : length xs < fuel) (short : length name < 128)
    (ne : node ≢ dir) (out : has node xs ≡ false) where
  abbrev created_directory : Ramfs
  created_directory = created fuel fs dir node name xs d enough short ne out null vfs_directory

  -- The same after the assignments of `ramfs_do_mkdir`.
  abbrev made_directory : ℕ → Ramfs
  made_directory mode = record created_directory {
    nodes = as_directory created_directory.nodes node mode;
  }

  as_directory-Agree : (nodes : ℕ → Node) (mode : ℕ) → Agree nodes (as_directory nodes node mode)
  unfolding as_directory put
  as_directory-Agree nodes mode = record {
    kind = λ a. ground arith;
    children = λ a. ground arith;
    next = λ a. ground arith;
    name = λ a. ground arith;
    parent = λ a. ground arith;
    inode = λ a. ground arith;
  }

  mkdir-accepted :
      (mode : ℕ)
      → accepts fs xs node name ≡ true
      → ramfs_do_mkdir fuel fs node dir name mode ≡ some (pos 0, made_directory mode)
  unfolding ramfs_do_mkdir ramfs_create_node
  mkdir-accepted mode h = ground (arith, h, d.kind, ramfs_finddir_lem fuel fs dir name xs d enough)

  mkdir-refused :
      (mode : ℕ)
      → accepts fs xs node name ≡ false
      → ramfs_do_mkdir fuel fs node dir name mode ≡ some (negsuc 0, fs)
  unfolding ramfs_do_mkdir ramfs_create_node
  mkdir-refused mode h = ground (arith, h, d.kind, ramfs_finddir_lem fuel fs dir name xs d enough)

  mkdir-empty : (mode : ℕ) → node ≢ null → IsDirectory (made_directory mode).nodes node []
  unfolding as_directory adopt put ramfs_create_node new_node
  mkdir-empty mode hn = record {
    kind = ground (arith, hn, ne);
    not_null = hn;
    chain = ground (arith, hn, ne);
    unique = tt;
    apart = refl;
  }

  mkdir-mode :
      (mode : ℕ)
      → (((made_directory mode).nodes node).permissions ≡ mode)
        × (((made_directory mode).nodes node).ops ≡ ramfs_dir_ops)
  unfolding as_directory put
  mkdir-mode mode = (ground arith, ground arith)

  -- Under the conditions of `ramfs_do_create_lem`, `ramfs_do_mkdir` does the same with a node that
  -- is an empty directory of the mode, in which nodes can be created in turn.
  ramfs_do_mkdir_lem :
      (mode : ℕ)
      → Makes
          (accepts fs xs node name)
          fs
          dir
          node
          name
          mode
          xs
          (ramfs_do_mkdir fuel fs node dir name mode)
  ramfs_do_mkdir_lem mode = elim (Bool-cases (accepts fs xs node name)) [
    | inl h ↦ rw h (
      made_directory mode,
      mkdir-accepted mode h,
      Agree-Entered fuel fs dir node name xs d enough short ne out null vfs_directory
          (made_directory mode) h (as_directory-Agree created_directory.nodes mode)
          (made-bytes fuel fs dir node name xs d enough short ne out null vfs_directory),
      mkdir-empty mode (ground (arith, h)),
      (mkdir-mode mode).0,
      (mkdir-mode mode).1,
    )
    | inr h ↦ rw h (mkdir-refused mode h)
  ]
