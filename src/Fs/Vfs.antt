-- ===== src/Fs/Vfs.antt =====
-- fs/vfs.c: the calls through a node's operation table, the mounts, and the resolution of paths.
-- The only file system is that of Fs. The mounts are a list, the last first; what `kmalloc` returns
-- is an argument.
use nexus_kernel.Prelude.{
  ℕ, zero, suc, ◌+◌, ◌-◌, Bool, true, false, not, ◌||◌, Option, none, some, leb, ◌==◌,
  if◌then◌else◌, List, [], ◌∷◌, take, length,
}
use nexus_kernel.Prelude.Words.{add32}
use nexus_kernel.Prelude.Int.{ℤ, pos, negsuc}
use nexus_kernel.Libc.Names.{Name, names_equal, is_empty}
use nexus_kernel.Fs.{
  null, Ops, no_ops, ramfs_dir_ops, ramfs_root_ops, Ramfs, ramfs_read, ramfs_write, ramfs_open,
  ramfs_close,
}
use nexus_kernel.Fs.Directory.{
  slash, ramfs_readdir, ramfs_finddir, ramfs_do_create, ramfs_do_unlink, ramfs_do_mkdir,
}

abbrev pub max_mounts : ℕ
max_mounts = 16

abbrev pub path_max : ℕ
path_max = 1024

pub record Mount : Type 0 where
  pub path : Name
  pub fs_type : Name
  pub root : ℕ

pub record Vfs : Type 0 where
  pub vfs_root : ℕ
  pub mount_list : List Mount
  pub mount_count : ℕ

-- `node->ops`, and with it `read`, `write`, `open`, `close`, `readdir` and `finddir`, is not null.
abbrev pub has_ops : Ops → Bool
has_ops no_ops = false
has_ops _ = true

-- `create`, `unlink` and `mkdir` of the table are not null.
abbrev pub changes_directories : Ops → Bool
changes_directories ramfs_dir_ops = true
changes_directories ramfs_root_ops = true
changes_directories _ = false

abbrev pub missing : Ramfs → ℕ → Bool
missing fs node = node == null || not (has_ops (fs.nodes node).ops)

abbrev pub read_only : Ramfs → ℕ → Bool
read_only fs node = node == null || not (changes_directories (fs.nodes node).ops)

unfoldable pub vfs_init : Vfs → Vfs
vfs_init v = record { vfs_root = null; mount_list = []; mount_count = 0 }

unfoldable pub vfs_read : Ramfs → ℕ → ℕ → ℕ → ℕ → ℤ × Ramfs
vfs_read fs node offset size buffer =
    if missing fs node then (negsuc 0, fs) else ramfs_read fs node offset size buffer

unfoldable pub vfs_write : Ramfs → ℕ → ℕ → ℕ → ℕ → ℕ → ℤ × Ramfs
vfs_write fs new_data node offset size buffer =
    if missing fs node then (negsuc 0, fs) else ramfs_write fs new_data node offset size buffer

unfoldable pub vfs_open : Ramfs → ℕ → ℕ → ℤ
vfs_open fs node flags = if missing fs node then negsuc 0 else ramfs_open node flags

unfoldable pub vfs_close : Ramfs → ℕ → ℤ
vfs_close fs node = if missing fs node then negsuc 0 else ramfs_close node

unfoldable pub vfs_readdir : ℕ → Ramfs → ℕ → ℕ → Option ℕ
vfs_readdir fuel fs node index =
    if missing fs node then some null else ramfs_readdir fuel fs node index

unfoldable pub vfs_finddir : ℕ → Ramfs → ℕ → Name → Option ℕ
vfs_finddir fuel fs node name =
    if missing fs node then some null else ramfs_finddir fuel fs node name

unfoldable pub vfs_create : ℕ → Ramfs → ℕ → ℕ → ℕ → Name → ℕ → Option (ℤ × Ramfs)
vfs_create fuel fs node file parent name kind =
    if read_only fs parent
    then some (negsuc 0, fs)
    else ramfs_do_create fuel fs node file parent name kind

unfoldable pub vfs_unlink : ℕ → Ramfs → ℕ → Name → Option (ℤ × Ramfs)
vfs_unlink fuel fs parent name =
    if read_only fs parent then some (negsuc 0, fs) else ramfs_do_unlink fuel fs parent name

unfoldable pub vfs_mkdir : ℕ → Ramfs → ℕ → ℕ → Name → ℕ → Option (ℤ × Ramfs)
vfs_mkdir fuel fs node parent name mode =
    if read_only fs parent
    then some (negsuc 0, fs)
    else ramfs_do_mkdir fuel fs node parent name mode

-- `has_path` and `has_type` say that the two strings are not null pointers, and `mount` is what
-- `kmalloc` returns.
unfoldable pub vfs_mount : Vfs → ℕ → Bool → Name → Bool → Name → ℕ → ℤ × Vfs
vfs_mount v mount has_path path has_type fs_type root =
    let entry : Mount = record {
      path = take (path_max - 1) path;
      fs_type = take 31 fs_type;
      root = root;
    } in
    if not has_path || (not has_type || root == null)
    then (negsuc 0, v)
    else if leb max_mounts v.mount_count
    then (negsuc 0, v)
    else if mount == null
    then (negsuc 0, v)
    else (
      pos 0,
      record {
        vfs_root = if names_equal path (slash ∷ []) then root else v.vfs_root;
        mount_list = entry ∷ v.mount_list;
        mount_count = add32 v.mount_count 1;
      },
    )

-- The bytes before the first '/', and those behind it if there is one.
abbrev pub before_slash : Name → Name
before_slash [] = []
before_slash (c ∷ cs) = if c == slash then [] else c ∷ before_slash cs

abbrev pub behind_slash : Name → Option Name
behind_slash [] = none
behind_slash (c ∷ cs) = if c == slash then some cs else behind_slash cs

-- The loop of `vfs_resolve_path` on `fuel` rounds; `search` is the fuel of the searches.
unfoldable pub resolve_from : ℕ → ℕ → Ramfs → ℕ → Name → Option ℕ
resolve_from zero search fs current token = none
resolve_from (suc fuel) search fs current token = elim (is_empty token || current == null) [
  | true ↦ some current
  | false ↦
      elim (if is_empty (before_slash token)
        then some current
        else vfs_finddir search fs current (before_slash token)) [
          | none ↦ none
          | some found ↦ elim (behind_slash token) [
            | none ↦ some found
            | some rest ↦
                if found == null then some null else resolve_from fuel search fs found rest
          ]
        ]
]

abbrev pub skip_slash : Name → Name
skip_slash [] = []
skip_slash (c ∷ cs) = if c == slash then cs else c ∷ cs

-- A path of 1023 bytes or more fills the buffer on the stack and leaves it without a NUL: no result.
unfoldable pub vfs_resolve_path : ℕ → Ramfs → Vfs → Bool → Name → Option ℕ
vfs_resolve_path search fs v has_path path =
    let found = resolve_from (length path + 1) search fs v.vfs_root (skip_slash path) in
    if not has_path || v.vfs_root == null
    then some null
    else if names_equal path (slash ∷ [])
    then some v.vfs_root
    else if leb (path_max - 1) (length path)
    then none
    else found
