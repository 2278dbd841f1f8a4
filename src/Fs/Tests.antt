-- ===== src/Fs/Tests.antt =====
-- fs/ramfs.c and fs/vfs.c at concrete states: runs of the model, and the theorems at inputs that
-- meet their conditions.
use nexus_kernel.Prelude.{
  ℕ, ◌+◌, ◌%◌, ◌≤◌, ◌≡◌, refl, subst, true, false, ◌==◌, if◌then◌else◌, [], ◌∷◌, arith, some,
  Bool-cases, inl, inr, ◌⊎◌,
}
use nexus_kernel.Libc.Names.{Name}
use nexus_kernel.Fs.{
  null, Node, Ramfs, ramfs_root_ops, ramfs_ops, put, put_bytes, ramfs_read, ramfs_write,
}
use nexus_kernel.Fs.Directory.{ramfs_do_create, ramfs_do_unlink, ramfs_finddir, finddir_from}
use nexus_kernel.Fs.Vfs.{Vfs, vfs_finddir, vfs_resolve_path}
use nexus_kernel.Fs.Chain.{named}
use nexus_kernel.Fs.Lookup.{name_of, IsDirectory, ramfs_finddir_lem}
use nexus_kernel.Fs.Create.{accepts, Creates, ramfs_do_create_lem}
use nexus_kernel.Fs.Unlink.{Unlinks, Undone, ramfs_do_unlink_lem, ramfs_do_unlink-ramfs_do_create}
use nexus_kernel.Fs.Contents.{file_of, IsFile}
use nexus_kernel.Fs.Grow.{CanWrite, Writes, has_space}
use nexus_kernel.Fs.Write.{ramfs_write_lem, ramfs_read-ramfs_write}
use nexus_kernel.Fs.Path.{components, follow, Searches, vfs_resolve_path_lem}

-- The root at 16 has one child, the file "a" at 32, which holds two bytes at 4096 in a block of four.
abbrev root_node : Node
root_node = record {
  name = 47 ∷ [];
  kind = 2;
  permissions = 493;
  inode = 1;
  size = 0;
  parent = null;
  children = 32;
  next_sibling = null;
  ops = ramfs_root_ops;
  private_data = null;
}

abbrev file_node : Node
file_node = record {
  name = 97 ∷ [];
  kind = 1;
  permissions = 493;
  inode = 2;
  size = 2;
  parent = 16;
  children = null;
  next_sibling = null;
  ops = ramfs_ops;
  private_data = 48;
}

abbrev home : Ramfs
home = record {
  nodes = λ a.
      if a == 16 then root_node else if a == 32 then file_node else record file_node { kind = 0 };
  files = λ a. record { data_ptr = 4096; file_size = 2; capacity = 4 };
  bytes = λ a. a % 256;
  next_inode = 3;
  freed = [];
}

home-IsDirectory : IsDirectory home.nodes 16 (32 ∷ [])
home-IsDirectory = record {
  kind = refl;
  not_null = λ e. absurd (omega (arith, e));
  chain = (refl, (λ e. absurd (omega (arith, e))), refl);
  unique = (refl, tt);
  apart = refl;
}

runs :
    (ramfs_finddir 9 home 16 (97 ∷ []) ≡ some 32) × (ramfs_finddir 9 home 16 (98 ∷ []) ≡ some null)
unfolding ramfs_finddir finddir_from
runs = (refl, refl)

ramfs_do_create_lem_example :
    Creates
      (accepts home (32 ∷ []) 64 (98 ∷ []))
      home
      16
      64
      (98 ∷ [])
      (32 ∷ [])
      (ramfs_do_create 9 home 64 80 16 (98 ∷ []) 1)
ramfs_do_create_lem_example =
    ramfs_do_create_lem 9 home 16 64 (98 ∷ []) (32 ∷ []) home-IsDirectory (omega arith)
      (omega arith) (λ e. absurd (omega (arith, e))) refl 80 1

ramfs_do_unlink_lem_example :
    Unlinks
      (named (name_of home.nodes) (97 ∷ []) (32 ∷ []) == null)
      home
      16
      (named (name_of home.nodes) (97 ∷ []) (32 ∷ []))
      (97 ∷ [])
      (32 ∷ [])
      (ramfs_do_unlink 9 home 16 (97 ∷ []))
ramfs_do_unlink_lem_example =
    ramfs_do_unlink_lem 9 home 16 (97 ∷ []) (32 ∷ []) home-IsDirectory (omega arith)

ramfs_do_unlink-ramfs_do_create_example : Undone 9 home 64 80 16 (98 ∷ []) 1 (32 ∷ [])
ramfs_do_unlink-ramfs_do_create_example =
    ramfs_do_unlink-ramfs_do_create 9 home 16 64 80 1 (98 ∷ []) (32 ∷ []) home-IsDirectory
      (omega arith) (omega arith) (λ e. absurd (omega (arith, e))) refl refl

home-IsFile : IsFile home 32
home-IsFile = record {
  has_file = λ e. absurd (omega (arith, e));
  size_le = omega arith;
  capacity_le = omega arith;
  ends = omega arith;
  no_data = λ e. absurd (omega (arith, e));
}

-- Six bytes from 8192 are written behind the first byte, into a new block at 12288.
home-CanWrite : CanWrite home 12288 32 1 6 8192
home-CanWrite = record {
  file = home-IsFile;
  buffer_not_null = λ e. absurd (omega (arith, e));
  whole = omega arith;
  buffer_apart = inr (omega arith);
  buffer_new = inl (omega arith);
  data_new = inl (omega arith);
  new_ends = omega arith;
}

ramfs_write_lem_example :
    Writes (has_space home 12288 32 7) home 32 1 6 8192 0 (ramfs_write home 12288 32 1 6 8192)
ramfs_write_lem_example = ramfs_write_lem home 12288 32 1 6 8192 home-CanWrite 0 (inl (omega arith))

-- Two bytes fit into the block of the file, and the target of the read is apart from it.
home-fits : CanWrite home 12288 32 1 2 8192
home-fits = record {
  file = home-IsFile;
  buffer_not_null = λ e. absurd (omega (arith, e));
  whole = omega arith;
  buffer_apart = inr (omega arith);
  buffer_new = inl (omega arith);
  data_new = inl (omega arith);
  new_ends = omega arith;
}

target-apart :
    (16384 + 2 ≤ (file_of (ramfs_write home 12288 32 1 2 8192).1 32).data_ptr)
    ⊎ ((file_of (ramfs_write home 12288 32 1 2 8192).1 32).data_ptr
          + (file_of (ramfs_write home 12288 32 1 2 8192).1 32).capacity
        ≤ 16384)
unfolding ramfs_write put_bytes put
target-apart = inr (omega arith)

ramfs_read-ramfs_write_example :
    (ramfs_read (ramfs_write home 12288 32 1 2 8192).1 32 1 2 16384).1.bytes (16384 + 1)
    ≡ home.bytes (8192 + 1)
ramfs_read-ramfs_write_example =
    ramfs_read-ramfs_write home 12288 32 1 2 8192 16384 1 home-fits refl (omega arith)
      (λ e. absurd (omega (arith, e))) target-apart

-- What the searches find.
abbrev finder : ℕ → Name → ℕ
finder dir name = if dir == 16 then named (name_of home.nodes) name (32 ∷ []) else null

at_root : (name : Name) → vfs_finddir 9 home 16 name ≡ some (finder 16 name)
unfolding vfs_finddir
at_root name = ramfs_finddir_lem 9 home 16 name (32 ∷ []) home-IsDirectory (omega arith)

elsewhere : (dir : ℕ) (name : Name) → (dir == 16) ≡ false → vfs_finddir 9 home dir name ≡ some null
unfolding vfs_finddir ramfs_finddir
elsewhere dir name h = ground (arith, h)

finder-Searches : Searches 9 home finder
finder-Searches dir name = elim (Bool-cases (dir == 16)) [
  | inl h ↦
      let e : 16 ≡ dir = ground (arith, h) in
      subst (λ d. vfs_finddir 9 home d name ≡ some (finder d name)) e (at_root name)
  | inr h ↦ rw h (elsewhere dir name h)
]

abbrev mounted_vfs : Vfs
mounted_vfs = record {
  vfs_root = 16;
  mount_list = record { path = 47 ∷ []; fs_type = []; root = 16 } ∷ [];
  mount_count = 1;
}

vfs_resolve_path_lem_example :
    vfs_resolve_path 9 home mounted_vfs true (47 ∷ 47 ∷ 97 ∷ [])
    ≡ some (if true then follow finder 16 (components (47 ∷ 47 ∷ 97 ∷ [])) else null)
vfs_resolve_path_lem_example =
    vfs_resolve_path_lem 9 home finder finder-Searches mounted_vfs true (47 ∷ 47 ∷ 97 ∷ [])
      (omega arith)
