-- ===== src/Fs/Mounts.antt =====
-- `vfs_mount` of fs/vfs.c: the list of mounts, its counter and the root.
use nexus_kernel.Prelude.{
  ℕ, ◌-◌, ◌≤◌, ◌≡◌, refl, Bool, not, ◌&&◌, ltb, ◌==◌, if◌then◌else◌, [], ◌∷◌, take, arith, length,
  Bool-cases, inl, inr,
}
use nexus_kernel.Prelude.Int.{pos, negsuc}
use nexus_kernel.Libc.Names.{Name, names_equal}
use nexus_kernel.Fs.{null}
use nexus_kernel.Fs.Directory.{slash}
use nexus_kernel.Fs.Vfs.{max_mounts, path_max, Mount, Vfs, vfs_init, vfs_mount}

-- The counter is the length of the list, and at most 16.
pub record IsMounted (v : Vfs) : Type 0 where
  pub counted : v.mount_count ≡ length v.mount_list
  pub room : length v.mount_list ≤ max_mounts

abbrev pub mounts : Vfs → ℕ → Bool → Bool → ℕ → Bool
mounts v mount has_path has_type root =
    has_path
    && (has_type
        && (not (root == null) && (ltb (length v.mount_list) max_mounts && not (mount == null))))

abbrev pub mounted : Name → Name → ℕ → Mount
mounted path fs_type root = record {
  path = take (path_max - 1) path;
  fs_type = take 31 fs_type;
  root = root;
}

vfs_init-IsMounted : (v : Vfs) → IsMounted (vfs_init v)
unfolding vfs_init
vfs_init-IsMounted v = record { counted = refl; room = omega arith }

-- On a list of at most 16 mounts with its length in the counter, `vfs_mount` keeps this. If no
-- pointer is null, there are fewer than 16 mounts and `kmalloc` gives a struct, it returns 0, puts
-- the mount in front of the list, and makes its root the root if the path is "/"; otherwise it
-- returns -1 and changes nothing.
vfs_mount_lem :
    (v : Vfs) (mount root : ℕ) (has_path has_type : Bool) (path fs_type : Name)
    → IsMounted v
    → let (result, v') = vfs_mount v mount has_path path has_type fs_type root in
      let ok = mounts v mount has_path has_type root in
      IsMounted v'
      × (result ≡ (if ok then pos 0 else negsuc 0))
      × (v'.mount_list ≡ (if ok then mounted path fs_type root ∷ v.mount_list else v.mount_list))
      × (v'.vfs_root ≡ (if ok && names_equal path (slash ∷ []) then root else v.vfs_root))
unfolding vfs_mount
vfs_mount_lem v mount root has_path has_type path fs_type m =
    elim (Bool-cases (mounts v mount has_path has_type root)) [
      | inl ok ↦ (
        record {
          counted = ground (arith, ok, m.counted);
          room = ground (arith, ok, m.counted, m.room);
        },
        ground (arith, ok, m.counted),
        ground (arith, ok, m.counted),
        ground (arith, ok, m.counted),
      )
      | inr no_mount ↦ (
        record {
          counted = ground (arith, no_mount, m.counted);
          room = ground (arith, no_mount, m.counted, m.room);
        },
        ground (arith, no_mount, m.counted),
        ground (arith, no_mount, m.counted),
        ground (arith, no_mount, m.counted),
      )
    ]
