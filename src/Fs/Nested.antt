-- ===== src/Fs/Nested.antt =====
-- Directories made by `vfs_create` and by `vfs_mkdir` (fs/vfs.c over fs/ramfs.c) differ in what can
-- be done in them.
use nexus_kernel.Prelude.{ℕ, ◌<◌, ◌≡◌, ◌≢◌, true, false, List, arith, length, some}
use nexus_kernel.Prelude.Int.{pos, negsuc}
use nexus_kernel.Libc.Names.{Name}
use nexus_kernel.Fs.{null, ramfs_ops, put, Ramfs}
use nexus_kernel.Fs.Directory.{ramfs_create_node, new_node, adopt, ramfs_do_create}
use nexus_kernel.Fs.Chain.{has}
use nexus_kernel.Fs.Lookup.{IsDirectory}
use nexus_kernel.Fs.Create.{accepts, created, created-accepted}
use nexus_kernel.Fs.Vfs.{vfs_create, vfs_mkdir, vfs_unlink}

-- Every change in `dir` is refused, and nothing happens.
abbrev pub Refuses : ℕ → Ramfs → ℕ → ℕ → ℕ → Name → ℕ → Type 0
Refuses fuel fs dir node file name kind =
    (vfs_create fuel fs node file dir name kind ≡ some (negsuc 0, fs))
    × (vfs_mkdir fuel fs node dir name kind ≡ some (negsuc 0, fs))
    × (vfs_unlink fuel fs dir name ≡ some (negsuc 0, fs))

plain-Refuses :
    (fuel : ℕ) (fs : Ramfs) (dir node file : ℕ) (name : Name) (kind : ℕ)
    → (fs.nodes dir).ops ≡ ramfs_ops
    → Refuses fuel fs dir node file name kind
unfolding vfs_create vfs_mkdir vfs_unlink
plain-Refuses fuel fs dir node file name kind h =
    (ground (arith, h), ground (arith, h), ground (arith, h))

created-ops :
    (fuel : ℕ) (fs : Ramfs) (dir node file kind : ℕ) (name : Name) (xs : List ℕ)
    (d : IsDirectory fs.nodes dir xs) (enough : length xs < fuel) (short : length name < 128)
    (ne : node ≢ dir) (out : has node xs ≡ false)
    → node ≢ null
    → ((created fuel fs dir node name xs d enough short ne out file kind).nodes node).ops
      ≡ ramfs_ops
unfolding adopt ramfs_create_node put new_node
created-ops fuel fs dir node file kind name xs d enough short ne out h = ground (arith, h, ne)

-- Under the conditions of `ramfs_do_create_lem`, let the node be accepted. Then `ramfs_do_create`
-- returns 0, whether for a file or a directory, and in the new node `vfs_create`, `vfs_mkdir` and
-- `vfs_unlink` return -1 and change nothing, whatever their arguments.
created-Refuses :
    (fuel : ℕ) (fs : Ramfs) (dir node file kind : ℕ) (name : Name) (xs : List ℕ)
    (later other other_file other_kind : ℕ) (other_name : Name)
    → IsDirectory fs.nodes dir xs
    → length xs < fuel
    → length name < 128
    → node ≢ dir
    → has node xs ≡ false
    → accepts fs xs node name ≡ true
    → (fs' : Ramfs) × (ramfs_do_create fuel fs node file dir name kind ≡ some (pos 0, fs'))
      × Refuses later fs' node other other_file other_name other_kind
created-Refuses fuel fs dir node file kind name xs later other other_file other_kind other_name d
      enough short ne out ok =
    let fs' = created fuel fs dir node name xs d enough short ne out file kind in
    (
      fs',
      created-accepted fuel fs dir node name xs d enough short ne out file kind ok,
      plain-Refuses later fs' node other other_file other_name other_kind (
          created-ops fuel fs dir node file kind name xs d enough short ne out
            (ground (arith, ok))),
    )
