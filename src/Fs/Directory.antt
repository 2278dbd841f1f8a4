-- ===== src/Fs/Directory.antt =====
-- The directories of fs/ramfs.c: the searches, and the calls that make and remove nodes.
use nexus_kernel.Prelude.{
  ℕ, zero, suc, ◌-◌, true, false, not, Option, none, some, ◌==◌, if◌then◌else◌, List, [], ◌∷◌, ◌++◌,
  take,
}
use nexus_kernel.Prelude.Words.{add32}
use nexus_kernel.Prelude.Int.{ℤ, pos, negsuc}
use nexus_kernel.Libc.Names.{Name, names_equal}
use nexus_kernel.Fs.{
  File, Node, Ramfs, is_directory, is_file, vfs_name_max, null, put, ramfs_dir_ops, ramfs_ops,
  ramfs_root_ops, vfs_directory,
}

-- The loop of `ramfs_readdir`, on fuel.
unfoldable pub readdir_from : ℕ → (ℕ → Node) → ℕ → ℕ → ℕ → Option ℕ
readdir_from zero nodes index i child = none
readdir_from (suc fuel) nodes index i child = elim (child == null) [
  | true ↦ some null
  | false ↦ elim (i == index) [
    | true ↦ some child
    | false ↦ readdir_from fuel nodes index (add32 i 1) (nodes child).next_sibling
  ]
]

unfoldable pub ramfs_readdir : ℕ → Ramfs → ℕ → ℕ → Option ℕ
ramfs_readdir fuel fs node index =
    if not (is_directory (fs.nodes node).kind)
    then some null
    else readdir_from fuel fs.nodes index 0 (fs.nodes node).children

-- The loop of `ramfs_finddir`, on fuel.
unfoldable pub finddir_from : ℕ → (ℕ → Node) → Name → ℕ → Option ℕ
finddir_from zero nodes name child = none
finddir_from (suc fuel) nodes name child = elim (child == null) [
  | true ↦ some null
  | false ↦ elim (names_equal (nodes child).name name) [
    | true ↦ some child
    | false ↦ finddir_from fuel nodes name (nodes child).next_sibling
  ]
]

unfoldable pub ramfs_finddir : ℕ → Ramfs → ℕ → Name → Option ℕ
ramfs_finddir fuel fs node name =
    if not (is_directory (fs.nodes node).kind)
    then some null
    else finddir_from fuel fs.nodes name (fs.nodes node).children

-- A new node, `at` being the address of its file struct or null.
unfoldable pub new_node : Ramfs → Name → ℕ → ℕ → Node
new_node fs name kind at = record {
  name = take (vfs_name_max - 1) name;
  kind = kind;
  permissions = 493;
  inode = fs.next_inode;
  size = 0;
  parent = null;
  children = null;
  next_sibling = null;
  ops = ramfs_ops;
  private_data = at;
}

abbrev pub empty_file : File
empty_file = record { data_ptr = null; file_size = 0; capacity = 0 }

-- `node` and `file` are what the two calls of `kmalloc` return.
unfoldable pub ramfs_create_node : Ramfs → ℕ → ℕ → Name → ℕ → ℕ × Ramfs
ramfs_create_node fs node file name kind =
    let at = if is_file kind then file else null in
    if node == null then (null, fs) else (
      node,
      record fs {
        nodes = put fs.nodes node (new_node fs name kind at);
        files = if at == null then fs.files else put fs.files at empty_file;
        next_inode = add32 fs.next_inode 1;
      },
    )

-- The three assignments that put a node in front of the children of its parent.
unfoldable pub adopt : (ℕ → Node) → ℕ → ℕ → ℕ → Node
adopt nodes parent node =
    let linked =
      put nodes node
        (record (nodes node) { parent = parent; next_sibling = (nodes parent).children }) in
    put linked parent (record (linked parent) { children = node })

unfoldable pub ramfs_do_create : ℕ → Ramfs → ℕ → ℕ → ℕ → Name → ℕ → Option (ℤ × Ramfs)
ramfs_do_create fuel fs node file parent name kind =
    let made = ramfs_create_node fs node file name kind in
    if not (is_directory (fs.nodes parent).kind)
    then some (negsuc 0, fs)
    else elim (ramfs_finddir fuel fs parent name) [
      | none ↦ none
      | some found ↦ some (
          if not (found == null)
          then (negsuc 0, fs)
          else if made.0 == null
          then (negsuc 0, made.1)
          else (pos 0, record (made.1) { nodes = adopt made.1.nodes parent made.0 }))
    ]

-- What `ramfs_do_unlink` frees of a child.
abbrev pub freed_by : Ramfs → ℕ → List ℕ
freed_by fs child =
    let at = (fs.nodes child).private_data in
    let data_ptr = (fs.files at).data_ptr in
    if at == null
    then child ∷ []
    else if data_ptr == null
    then at ∷ child ∷ []
    else data_ptr ∷ at ∷ child ∷ []

-- The body of the loop of `ramfs_do_unlink` for the child with the name.
unfoldable pub remove_child : Ramfs → ℕ → ℕ → ℕ → Ramfs
remove_child fs parent prev child =
    let next = (fs.nodes child).next_sibling in
    record fs {
      nodes =
          if prev == null
          then put fs.nodes parent (record (fs.nodes parent) { children = next })
          else put fs.nodes prev (record (fs.nodes prev) { next_sibling = next });
      freed = fs.freed ++ freed_by fs child;
    }

unfoldable pub unlink_from : ℕ → Ramfs → ℕ → Name → ℕ → ℕ → Option (ℤ × Ramfs)
unlink_from zero fs parent name prev child = none
unlink_from (suc fuel) fs parent name prev child = elim (child == null) [
  | true ↦ some (negsuc 0, fs)
  | false ↦ elim (names_equal (fs.nodes child).name name) [
    | true ↦ some (pos 0, remove_child fs parent prev child)
    | false ↦ unlink_from fuel fs parent name child (fs.nodes child).next_sibling
  ]
]

unfoldable pub ramfs_do_unlink : ℕ → Ramfs → ℕ → Name → Option (ℤ × Ramfs)
ramfs_do_unlink fuel fs parent name =
    if not (is_directory (fs.nodes parent).kind)
    then some (negsuc 0, fs)
    else unlink_from fuel fs parent name null (fs.nodes parent).children

-- The assignments of `ramfs_do_mkdir` to the directory it made, but for those of `adopt`.
unfoldable pub as_directory : (ℕ → Node) → ℕ → ℕ → ℕ → Node
as_directory nodes dir mode =
    put nodes dir (record (nodes dir) { permissions = mode; ops = ramfs_dir_ops })

unfoldable pub ramfs_do_mkdir : ℕ → Ramfs → ℕ → ℕ → Name → ℕ → Option (ℤ × Ramfs)
ramfs_do_mkdir fuel fs node parent name mode =
    let made = ramfs_create_node fs node null name vfs_directory in
    if not (is_directory (fs.nodes parent).kind)
    then some (negsuc 0, fs)
    else elim (ramfs_finddir fuel fs parent name) [
      | none ↦ none
      | some found ↦ some (
          if not (found == null)
          then (negsuc 0, fs)
          else if made.0 == null
          then (negsuc 0, made.1)
          else (
            pos 0,
            record (made.1) { nodes = as_directory (adopt made.1.nodes parent made.0) made.0 mode },
          ))
    ]

-- "/" as a name.
abbrev pub slash : ℕ
slash = 47

unfoldable pub ramfs_init : Ramfs → ℕ → ℕ × Ramfs
ramfs_init fs node =
    let made = ramfs_create_node fs node null (slash ∷ []) vfs_directory in
    let root = made.0 in
    if root == null then (null, made.1) else (
      root,
      record (made.1) {
        nodes = put made.1.nodes root (record (made.1.nodes root) { ops = ramfs_root_ops });
      },
    )
