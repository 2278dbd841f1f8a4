-- ===== src/Fs.antt =====
-- fs/ramfs.c, with the structs of kernel/include/fs/vfs.h and kernel/include/fs/ramfs.h. The node
-- and file structs are maps from their addresses, and the bytes of the files and of the callers'
-- buffers are a memory of bytes. What `kmalloc` returns is an argument where a function calls it,
-- and the pointers that `kfree` gets are kept in order. The fields of a node that nothing reads are
-- left out.
pub mod Directory
pub mod Vfs
pub mod Chain
pub mod Lookup
pub mod Enter
pub mod Create
pub mod Mkdir
pub mod Remove
pub mod Unlink
pub mod Contents
pub mod Store
pub mod Grow
pub mod Write
pub mod Path
pub mod Mounts
pub mod Nested
pub mod Wrap
mod Tests
use nexus_kernel.Prelude.{
  ℕ, zero, suc, ◌+◌, ◌-◌, ◌*◌, ◌/◌, ◌%◌, ◌^◌, Bool, true, false, not, ◌&&◌, ◌||◌, Option, none,
  some, leb, ltb, ◌==◌, if◌then◌else◌, List, [], ◌∷◌, ◌++◌, take,
}
use nexus_kernel.Prelude.Words.{add32}
use nexus_kernel.Prelude.Int.{ℤ, pos, negsuc}
use nexus_kernel.Libc.{Bytes, memcpy}
use nexus_kernel.Libc.Names.{Name, names_equal}

abbrev pub null : ℕ
null = 0

abbrev pub max_file_size : ℕ
max_file_size = 65536

abbrev pub vfs_name_max : ℕ
vfs_name_max = 128

abbrev pub vfs_file : ℕ
vfs_file = 1

abbrev pub vfs_directory : ℕ
vfs_directory = 2

-- The operation tables: that of every new node, that of a directory made by `mkdir`, and the root's.
-- The first has no `create`, `unlink` and `mkdir`; the other two have all nine functions.
pub data Ops : Type 0 where
  no_ops : Ops
  ramfs_ops : Ops
  ramfs_dir_ops : Ops
  ramfs_root_ops : Ops

-- `kind` is the field `type`.
pub record Node : Type 0 where
  pub name : Name
  pub kind : ℕ
  pub permissions : ℕ
  pub inode : ℕ
  pub size : ℕ
  pub parent : ℕ
  pub children : ℕ
  pub next_sibling : ℕ
  pub ops : Ops
  pub private_data : ℕ

-- ramfs_file_t
pub record File : Type 0 where
  pub data_ptr : ℕ
  pub file_size : ℕ
  pub capacity : ℕ

pub record Ramfs : Type 0 where
  pub nodes : ℕ → Node
  pub files : ℕ → File
  pub bytes : Bytes
  pub next_inode : ℕ
  pub freed : List ℕ

-- A write of the struct at an address.
unfoldable pub put : {A : Type 0} → (ℕ → A) → ℕ → A → ℕ → A
put f p x a = if a == p then x else f a

-- `type & VFS_FILE` and `type & VFS_DIRECTORY`
abbrev pub is_file : ℕ → Bool
is_file kind = kind % 2 == 1

abbrev pub is_directory : ℕ → Bool
is_directory kind = kind / 2 % 2 == 1

-- `(ssize_t)size`
abbrev pub to_ssize : ℕ → ℤ
to_ssize size = if ltb size (2 ^ 31) then pos size else negsuc (2 ^ 32 - size - 1)

unfoldable pub ramfs_read : Ramfs → ℕ → ℕ → ℕ → ℕ → ℤ × Ramfs
ramfs_read fs node offset size buffer =
    let at = (fs.nodes node).private_data in
    let file = fs.files at in
    let available = file.file_size - offset in
    let count = if ltb available size then available else size in
    if at == null || buffer == null
    then (negsuc 0, fs)
    else if leb file.file_size offset
    then (pos 0, fs)
    else (
      to_ssize count,
      record fs { bytes = memcpy buffer (add32 file.data_ptr offset) count fs.bytes },
    )

-- The new capacity for a size.
abbrev pub new_capacity : ℕ → ℕ
new_capacity new_size =
    let double = new_size * 2 % 2 ^ 32 in if ltb max_file_size double then max_file_size else double

-- The part of `ramfs_write` behind a successful `kmalloc`.
unfoldable pub grow : Ramfs → ℕ → ℕ → ℕ → Ramfs
grow fs at new_cap new_data =
    let file = fs.files at in
    let copied = memcpy new_data file.data_ptr file.file_size fs.bytes in
    record fs {
      bytes = if not (file.data_ptr == null) && ltb 0 file.file_size then copied else fs.bytes;
      freed = if not (file.data_ptr == null) then fs.freed ++ (file.data_ptr ∷ []) else fs.freed;
      files = put fs.files at (record file { data_ptr = new_data; capacity = new_cap });
    }

-- The last part of `ramfs_write`.
unfoldable pub put_bytes : Ramfs → ℕ → ℕ → ℕ → ℕ → ℕ → ℤ × Ramfs
put_bytes fs node at offset size buffer =
    let file = fs.files at in
    let new_size = add32 offset size in
    let final = if ltb file.file_size new_size then new_size else file.file_size in
    (
      to_ssize size,
      record fs {
        bytes = memcpy (add32 file.data_ptr offset) buffer size fs.bytes;
        files = put fs.files at (record file { file_size = final });
        nodes = put fs.nodes node (record (fs.nodes node) { size = final });
      },
    )

-- `new_data` is what `kmalloc` returns if it is called.
unfoldable pub ramfs_write : Ramfs → ℕ → ℕ → ℕ → ℕ → ℕ → ℤ × Ramfs
ramfs_write fs new_data node offset size buffer =
    let at = (fs.nodes node).private_data in
    let new_size = add32 offset size in
    let new_cap = new_capacity new_size in
    if at == null || buffer == null
    then (negsuc 0, fs)
    else if ltb (fs.files at).capacity new_size
    then if ltb new_cap new_size || new_data == null
      then (negsuc 0, fs)
      else put_bytes (grow fs at new_cap new_data) node at offset size buffer
    else put_bytes fs node at offset size buffer

unfoldable pub ramfs_open : ℕ → ℕ → ℤ
ramfs_open node flags = pos 0

unfoldable pub ramfs_close : ℕ → ℤ
ramfs_close node = pos 0
