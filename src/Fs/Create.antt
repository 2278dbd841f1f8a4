-- ===== src/Fs/Create.antt =====
-- `ramfs_do_create` of fs/ramfs.c enters a node under a name that is not taken.
use nexus_kernel.Prelude.{
  ℕ, zero, suc, ◌≤◌, ◌<◌, ◌≡◌, ◌≢◌, refl, ap, ◌∙◌, subst, Bool, true, false, not, ◌&&◌, Option,
  some, ◌==◌, if◌then◌else◌, List, [], ◌∷◌, arith, length, take, Bool-cases, inl, inr,
}
use nexus_kernel.Prelude.Int.{ℤ, pos, negsuc}
use nexus_kernel.Libc.Names.{Name, names_equal}
use nexus_kernel.Fs.{null, is_file, Node, Ramfs, put}
use nexus_kernel.Fs.Directory.{new_node, ramfs_create_node, adopt, ramfs_do_create}
use nexus_kernel.Fs.Chain.{named, has, different, named-frame}
use nexus_kernel.Fs.Lookup.{name_of, IsDirectory, IsDirectory-frame, ramfs_finddir_lem}
use nexus_kernel.Fs.Enter.{entered, entered-named, entered-IsDirectory, entered-parent}

if_false : {A : Type 0} (b : Bool) (x y : A) → b ≡ false → (if b then x else y) ≡ y
if_false true x y h = absurd (different refl h)
if_false false x y h = refl

take_all : (n : ℕ) (name : Name) → length name ≤ n → take n name ≡ name
take_all zero [] h = refl
take_all zero (x ∷ xs) h = absurd (omega (arith, h))
take_all (suc n) [] h = refl
take_all (suc n) (x ∷ xs) h = ap (λ t. x ∷ t) (take_all n xs (omega (arith, h)))

-- The fields of two tables of nodes that the theorems speak of are the same.
pub record Agree (f g : ℕ → Node) : Type 0 where
  pub kind : (a : ℕ) → (g a).kind ≡ (f a).kind
  pub children : (a : ℕ) → (g a).children ≡ (f a).children
  pub next : (a : ℕ) → (g a).next_sibling ≡ (f a).next_sibling
  pub name : (a : ℕ) → (g a).name ≡ (f a).name
  pub parent : (a : ℕ) → (g a).parent ≡ (f a).parent
  pub inode : (a : ℕ) → (g a).inode ≡ (f a).inode

-- `node` is entered in `dir` under the name: the children are a well-formed list again, and a
-- search for any name finds the new node if it is its name, and what it found before otherwise.
pub record Entered (fs : Ramfs) (dir node : ℕ) (name : Name) (xs : List ℕ) (fs' : Ramfs)
    : Type 0 where
  pub directory : IsDirectory fs'.nodes dir (node ∷ xs)
  pub lookup :
      (k : Name)
      → named (name_of fs'.nodes) k (node ∷ xs)
        ≡ (if names_equal name k then node else named (name_of fs.nodes) k xs)
  pub parent : (fs'.nodes node).parent ≡ dir
  pub bytes : fs'.bytes ≡ fs.bytes
  pub inode : (fs'.nodes node).inode ≡ fs.next_inode

-- `kmalloc` gave a node, and the name is not taken.
abbrev pub accepts : Ramfs → List ℕ → ℕ → Name → Bool
accepts fs xs node name = not (node == null) && named (name_of fs.nodes) name xs == null

-- A call that enters a node, or refuses and changes nothing.
abbrev pub Creates : Bool → Ramfs → ℕ → ℕ → Name → List ℕ → Option (ℤ × Ramfs) → Type 0
Creates false fs dir node name xs result = result ≡ some (negsuc 0, fs)
Creates true fs dir node name xs result =
    (fs' : Ramfs) × (result ≡ some (pos 0, fs')) × Entered fs dir node name xs fs'

module _ (fuel : ℕ) (fs : Ramfs) (dir node : ℕ) (name : Name) (xs : List ℕ)
    (d : IsDirectory fs.nodes dir xs) (enough : length xs < fuel) (short : length name < 128)
    (ne : node ≢ dir) (out : has node xs ≡ false) where
  abbrev pub made : ℕ → ℕ → Ramfs
  made file kind = (ramfs_create_node fs node file name kind).1

  abbrev pub created : ℕ → ℕ → Ramfs
  created file kind = record (made file kind) { nodes = adopt (made file kind).nodes dir node }

  pub created-accepted :
      (file kind : ℕ)
      → accepts fs xs node name ≡ true
      → ramfs_do_create fuel fs node file dir name kind ≡ some (pos 0, created file kind)
  unfolding ramfs_do_create ramfs_create_node
  created-accepted file kind h =
      ground (arith, h, d.kind, ramfs_finddir_lem fuel fs dir name xs d enough)

  created-refused :
      (file kind : ℕ)
      → accepts fs xs node name ≡ false
      → ramfs_do_create fuel fs node file dir name kind ≡ some (negsuc 0, fs)
  unfolding ramfs_do_create ramfs_create_node
  created-refused file kind h =
      ground (arith, h, d.kind, ramfs_finddir_lem fuel fs dir name xs d enough)

  abbrev at : ℕ → ℕ → ℕ
  at file kind = if is_file kind then file else null

  made-nodes :
      (file kind : ℕ)
      → node ≢ null
      → (made file kind).nodes ≡ put fs.nodes node (new_node fs name kind (at file kind))
  unfolding ramfs_create_node
  made-nodes file kind hn =
      ap (λ (r : ℕ × Ramfs). r.1.nodes) (if_false (node == null) _ _ (ground (arith, hn)))

  pub made-bytes : (file kind : ℕ) → (made file kind).bytes ≡ fs.bytes
  unfolding ramfs_create_node
  made-bytes file kind = ground arith

  new_node-fields :
      (kind at : ℕ)
      → ((new_node fs name kind at).name ≡ name)
        × ((new_node fs name kind at).inode ≡ fs.next_inode)
  unfolding new_node
  new_node-fields kind at = (take_all 127 name (omega (arith, short)), refl)

  pub Agree-Entered :
      (file kind : ℕ) (fs' : Ramfs)
      → accepts fs xs node name ≡ true
      → Agree (created file kind).nodes fs'.nodes
      → fs'.bytes ≡ fs.bytes
      → Entered fs dir node name xs fs'
  Agree-Entered file kind fs' h g b = record {
    directory =
        IsDirectory-frame table fs'.nodes dir (node ∷ xs)
          (entered-IsDirectory fs.nodes dir node xs new d hn ne out (rw f.0 (ground (arith, h))))
          (at_table (λ t. (fs'.nodes dir).kind ≡ (t dir).kind) (g.kind dir))
          (at_table (λ t. (fs'.nodes dir).children ≡ (t dir).children) (g.children dir))
          (λ a _. (
            at_table (λ t. (fs'.nodes a).next_sibling ≡ (t a).next_sibling) (g.next a),
            at_table (λ t. (fs'.nodes a).name ≡ (t a).name) (g.name a),
          ));
    lookup = λ k.
        named-frame (name_of table) (name_of fs'.nodes) k (node ∷ xs)
          (λ a _. at_table (λ t. (fs'.nodes a).name ≡ (t a).name) (g.name a))
        ∙ subst
            (λ n.
              named (name_of table) k (node ∷ xs)
              ≡ (if names_equal n k then node else named (name_of fs.nodes) k xs))
            f.0 (entered-named fs.nodes dir node xs new d hn ne out k);
    parent =
        at_table (λ t. (fs'.nodes node).parent ≡ (t node).parent) (g.parent node)
        ∙ (entered-parent fs.nodes dir node xs new d hn ne out).0;
    bytes = b;
    inode =
        at_table (λ t. (fs'.nodes node).inode ≡ (t node).inode) (g.inode node)
        ∙ ((entered-parent fs.nodes dir node xs new d hn ne out).1 ∙ f.1);
  }
    where
      hn : node ≢ null
      hn = ground (arith, h)

      new : Node
      new = new_node fs name kind (at file kind)

      f : (new.name ≡ name) × (new.inode ≡ fs.next_inode)
      f = new_node-fields kind (at file kind)

      table : ℕ → Node
      table = entered fs.nodes dir node xs new d hn ne out

      at_table : (p : (ℕ → Node) → Type 0) → p (created file kind).nodes → p table
      at_table p = subst (λ t. p (adopt t dir node)) (made-nodes file kind hn)

  -- Let `dir` be a well-formed directory, let the fuel be more than the number of its children, the
  -- name shorter than 128 bytes, and the node that `kmalloc` gives neither the directory nor one of
  -- its children. Then `ramfs_do_create` returns 0 and enters the node under the name, if the node
  -- is not null and the name is not taken, and otherwise returns -1 and changes nothing.
  pub ramfs_do_create_lem :
      (file kind : ℕ)
      → Creates
          (accepts fs xs node name)
          fs
          dir
          node
          name
          xs
          (ramfs_do_create fuel fs node file dir name kind)
  ramfs_do_create_lem file kind = elim (Bool-cases (accepts fs xs node name)) [
    | inl h ↦ rw h (
      created file kind,
      created-accepted file kind h,
      Agree-Entered file kind (created file kind) h
          (record {
            kind = λ a. refl;
            children = λ a. refl;
            next = λ a. refl;
            name = λ a. refl;
            parent = λ a. refl;
            inode = λ a. refl;
          })
          (made-bytes file kind),
    )
    | inr h ↦ rw h (created-refused file kind h)
  ]
