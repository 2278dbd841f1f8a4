-- ===== src/Fs/Enter.antt =====
-- A node becomes the first child of a directory of fs/ramfs.c.
use nexus_kernel.Prelude.{
  ℕ, ◌≡◌, ◌≢◌, sym, ◌∙◌, subst, true, false, if◌then◌else◌, List, ◌∷◌, arith,
}
use nexus_kernel.Libc.Names.{Name, names_equal}
use nexus_kernel.Fs.{null, is_directory, Node, put}
use nexus_kernel.Fs.Directory.{adopt}
use nexus_kernel.Fs.Chain.{Linked, named, has, different, Linked-frame, named-frame, Unique-frame}
use nexus_kernel.Fs.Lookup.{next_of, name_of, IsDirectory}

-- A node that stands in no chain becomes the first child of a directory.
module _ (nodes : ℕ → Node) (dir node : ℕ) (xs : List ℕ) (made : Node)
    (d : IsDirectory nodes dir xs) (hn : node ≢ null) (ne : node ≢ dir)
    (out : has node xs ≡ false) where
  abbrev pub entered : ℕ → Node
  entered = adopt (put nodes node made) dir node

  entered-name : (a : ℕ) → a ≢ node → (entered a).name ≡ (nodes a).name
  unfolding adopt put
  entered-name a h = ground (arith, h)

  entered-next : (a : ℕ) → a ≢ node → (entered a).next_sibling ≡ (nodes a).next_sibling
  unfolding adopt put
  entered-next a h = ground (arith, h)

  entered-kind : (a : ℕ) → a ≢ node → (entered a).kind ≡ (nodes a).kind
  unfolding adopt put
  entered-kind a h = ground (arith, h)

  entered-children : (entered dir).children ≡ node
  unfolding adopt put
  entered-children = ground (arith, ne)

  entered-node :
      ((entered node).next_sibling ≡ (nodes dir).children) × ((entered node).name ≡ made.name)
  unfolding adopt put
  entered-node = (ground (arith, ne), ground (arith, ne))

  other : (a : ℕ) → has a xs ≡ true → a ≢ node
  other a h e = different h (subst (λ k. has k xs ≡ false) (sym e) out)

  entered-chain : Linked (next_of entered) (next_of entered node) xs
  entered-chain =
      subst (λ q. Linked (next_of entered) q xs) (sym entered-node.0)
        (Linked-frame (next_of nodes) (next_of entered) _ xs d.chain
          (λ a h. entered-next a (other a h)))

  -- A search finds the new node under its name, and the others as before.
  pub entered-named :
      (k : Name)
      → named (name_of entered) k (node ∷ xs)
        ≡ (if names_equal made.name k then node else named (name_of nodes) k xs)
  entered-named k = ground (
    arith,
    entered-node.1,
    named-frame (name_of nodes) (name_of entered) k xs (λ a h. entered-name a (other a h)),
  )

  pub entered-IsDirectory :
      named (name_of nodes) made.name xs ≡ null → IsDirectory entered dir (node ∷ xs)
  entered-IsDirectory new = record {
    kind = subst (λ k. is_directory k ≡ true) (sym (entered-kind dir (λ e. ne (sym e)))) d.kind;
    not_null = d.not_null;
    chain = (entered-children, hn, entered-chain);
    unique = (
      subst (λ m. named (name_of entered) m xs ≡ null) (sym entered-node.1)
          (named-frame (name_of nodes) (name_of entered) made.name xs
              (λ a h. entered-name a (other a h))
            ∙ new),
      Unique-frame (name_of nodes) (name_of entered) xs (λ a h. entered-name a (other a h))
          d.unique,
    );
    apart = ground (arith, ne, d.apart);
  }

  pub entered-parent : ((entered node).parent ≡ dir) × ((entered node).inode ≡ made.inode)
  unfolding adopt put
  entered-parent = (ground (arith, ne), ground (arith, ne))
