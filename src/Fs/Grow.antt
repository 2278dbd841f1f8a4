-- ===== src/Fs/Grow.antt =====
-- `ramfs_write` of fs/ramfs.c on its branches.
use nexus_kernel.Prelude.{
  ℕ, ◌+◌, ◌-◌, ◌^◌, ◌≤◌, ◌<◌, ◌≡◌, ◌≢◌, refl, sym, ap, ◌∙◌, subst, Bool, true, false, not, ◌&&◌,
  ◌||◌, leb, ltb, ◌==◌, if◌then◌else◌, arith, Bool-cases, inl, inr, ◌⊎◌,
}
use nexus_kernel.Prelude.Words.{add32}
use nexus_kernel.Prelude.Int.{ℤ, negsuc}
use nexus_kernel.Libc.{Bytes}
use nexus_kernel.Libc.Blocks.{within}
use nexus_kernel.Fs.{
  null, File, Ramfs, max_file_size, new_capacity, to_ssize, grow, put_bytes, ramfs_write,
}
use nexus_kernel.Fs.Contents.{file_of, content, IsFile, Apart}
use nexus_kernel.Fs.Store.{
  max, HasFile, put_bytes-HasFile, put_bytes-bytes, put_bytes-node, grow-HasFile, grow-bytes,
}

-- The conditions of a write: the node has a file, the end of the range is below 2^32, the buffer is
-- not null, and the buffer, the file's bytes and the block from `kmalloc`, if one is needed, do not
-- overlap.
pub record CanWrite (fs : Ramfs) (new_data node offset size buffer : ℕ) : Type 0 where
  pub file : IsFile fs node
  pub buffer_not_null : buffer ≢ null
  pub whole : offset + size < 2 ^ 32
  pub buffer_apart : Apart buffer size (file_of fs node).data_ptr (file_of fs node).capacity
  pub buffer_new : Apart buffer size new_data (new_capacity (offset + size))
  pub data_new :
      Apart
        (file_of fs node).data_ptr
        (file_of fs node).file_size
        new_data
        (new_capacity (offset + size))
  pub new_ends : new_data + new_capacity (offset + size) < 2 ^ 32

-- The range fits into the block of the file, or the file may have that size and `kmalloc` gives a
-- block.
abbrev pub has_space : Ramfs → ℕ → ℕ → ℕ → Bool
has_space fs new_data node end =
    leb end (file_of fs node).capacity || (leb end max_file_size && not (new_data == null))

-- The i-th byte after the write.
abbrev pub written_byte : Ramfs → ℕ → ℕ → ℕ → ℕ → ℕ → ℕ
written_byte fs node offset size buffer i =
    if leb offset i && ltb i (offset + size)
    then fs.bytes (buffer + (i - offset))
    else content fs node i

-- The i-th byte was there before, or is in the range.
abbrev pub Known : Ramfs → ℕ → ℕ → ℕ → ℕ → Type 0
Known fs node offset size i =
    (i < (file_of fs node).file_size) ⊎ ((offset ≤ i) × (i < offset + size))

-- The write is done, and the file has the byte `i`.
pub record Written (fs : Ramfs) (node offset size buffer i : ℕ) (result : ℤ × Ramfs) : Type 0 where
  pub returned : result.0 ≡ to_ssize size
  pub file : IsFile result.1 node
  pub grown : (file_of result.1 node).file_size ≡ max (file_of fs node).file_size (offset + size)
  pub node_size : (result.1.nodes node).size ≡ max (file_of fs node).file_size (offset + size)
  pub byte : content result.1 node i ≡ written_byte fs node offset size buffer i

abbrev pub Writes : Bool → Ramfs → ℕ → ℕ → ℕ → ℕ → ℕ → ℤ × Ramfs → Type 0
Writes false fs node offset size buffer i result = result ≡ (negsuc 0, fs)
Writes true fs node offset size buffer i result = Written fs node offset size buffer i result

module _ (fs : Ramfs) (new_data node offset size buffer : ℕ)
    (c : CanWrite fs new_data node offset size buffer) where
  pub write-refused :
      has_space fs new_data node (offset + size) ≡ false
      → ramfs_write fs new_data node offset size buffer ≡ (negsuc 0, fs)
  unfolding ramfs_write
  write-refused h =
      let w : add32 offset size ≡ offset + size = omega (arith, c.whole) in
      ground (arith, h, w, c.file.capacity_le)

  pub write-fits :
      leb (offset + size) (file_of fs node).capacity ≡ true
      → ramfs_write fs new_data node offset size buffer
        ≡ put_bytes fs node (fs.nodes node).private_data offset size buffer
  unfolding ramfs_write
  write-fits h =
      let w : add32 offset size ≡ offset + size = omega (arith, c.whole) in
      ground (arith, h, w, c.file.has_file, c.buffer_not_null)

  abbrev bigger : Ramfs
  bigger = grow fs (fs.nodes node).private_data (new_capacity (offset + size)) new_data

  pub write-grows :
      leb (offset + size) (file_of fs node).capacity ≡ false
      → leb (offset + size) max_file_size ≡ true
      → new_data ≢ null
      → ramfs_write fs new_data node offset size buffer
        ≡ put_bytes bigger node (fs.nodes node).private_data offset size buffer
  unfolding ramfs_write
  write-grows h hm hn =
      let w : add32 offset size ≡ offset + size = omega (arith, c.whole) in
      ground (arith, h, hm, hn, w, c.file.has_file, c.buffer_not_null)

  HasFile-IsFile :
      (fs' : Ramfs) (ptr cap len : ℕ)
      → HasFile fs node ptr cap len fs'
      → len ≤ cap
      → cap ≤ max_file_size
      → ptr + cap < 2 ^ 32
      → (ptr ≡ null → cap ≡ 0)
      → IsFile fs' node
  HasFile-IsFile fs' ptr cap len r h1 h2 h3 h4 = record {
    has_file = subst (λ a. a ≢ null) (sym r.at) c.file.has_file;
    size_le = omega (arith, r.file_size, r.capacity, h1);
    capacity_le = omega (arith, r.capacity, h2);
    ends = omega (arith, r.capacity, r.data_ptr, h3);
    no_data = λ e. r.capacity ∙ h4 (sym r.data_ptr ∙ e);
  }

  -- The byte `i` of a block in which the range was written.
  block_byte :
      (bytes : Bytes) (ptr i : ℕ)
      → (if within (ptr + offset) size (ptr + i)
          then fs.bytes (buffer + (ptr + i - (ptr + offset)))
          else bytes (ptr + i))
        ≡ (if leb offset i && ltb i (offset + size)
            then fs.bytes (buffer + (i - offset))
            else bytes (ptr + i))
  block_byte bytes ptr i =
      let place : buffer + (ptr + i - (ptr + offset)) ≡ buffer + (i - offset) = omega arith in
      let inside : within (ptr + offset) size (ptr + i) ≡ (leb offset i && ltb i (offset + size)) =
        ground arith in
      rw inside (rw place refl)

  pub fits-Written :
      (i : ℕ)
      → leb (offset + size) (file_of fs node).capacity ≡ true
      → Written fs node offset size buffer i
          (put_bytes fs node (fs.nodes node).private_data offset size buffer)
  unfolding put_bytes
  fits-Written i h =
      let r = put_bytes-HasFile fs node offset size buffer c.whole in
      let ptr = (file_of fs node).data_ptr in
      let at_end : offset + size ≤ (file_of fs node).capacity = ground (arith, h) in
      let byte =
        put_bytes-bytes fs node offset size buffer (ptr + i) (omega (arith, at_end, c.file.ends))
          (ground (arith, c.buffer_apart, at_end)) in
      record {
        returned = refl;
        file =
            HasFile-IsFile (put_bytes fs node (fs.nodes node).private_data offset size buffer).1 ptr
              _ _ r (ground (arith, c.file.size_le, at_end)) c.file.capacity_le c.file.ends
              c.file.no_data;
        grown = r.file_size;
        node_size = put_bytes-node fs node offset size buffer c.whole;
        byte =
            ap
              (λ q.
                (put_bytes fs node (fs.nodes node).private_data offset size buffer).1.bytes (q + i))
              r.data_ptr
            ∙ byte
            ∙ block_byte fs.bytes ptr i;
      }

  -- The block from `kmalloc` is used.
  module _ (i : ℕ) (h : leb (offset + size) (file_of fs node).capacity ≡ false)
      (hm : leb (offset + size) max_file_size ≡ true) (hn : new_data ≢ null)
      (known : Known fs node offset size i) where
    abbrev cap : ℕ
    cap = new_capacity (offset + size)

    abbrev old : File
    old = file_of fs node

    abbrev g : HasFile fs node new_data cap old.file_size bigger
    g = grow-HasFile fs node offset size buffer cap new_data

    cap_le : (offset + size ≤ cap) × (cap ≤ max_file_size) × (old.file_size < offset + size)
    cap_le = (ground (arith, hm), ground (arith, hm), ground (arith, h, c.file.size_le))

    bigger-bytes :
        (a : ℕ)
        → bigger.bytes a ≡ (
            if within new_data old.file_size a
            then fs.bytes (old.data_ptr + (a - new_data))
            else fs.bytes a)
    bigger-bytes a =
        grow-bytes fs node offset size buffer cap new_data a
          (λ e. omega (arith, c.file.no_data e, c.file.size_le))
          (ground (arith, c.data_new, cap_le.0, cap_le.2))

    abbrev after : Ramfs
    after = (put_bytes bigger node (fs.nodes node).private_data offset size buffer).1

    grows-HasFile : HasFile fs node new_data cap (max old.file_size (offset + size)) after
    unfolding grow
    grows-HasFile =
        let r = put_bytes-HasFile bigger node offset size buffer c.whole in
        record {
          at = r.at;
          data_ptr = r.data_ptr ∙ g.data_ptr;
          capacity = r.capacity ∙ g.capacity;
          file_size = r.file_size ∙ ap (λ n. max n (offset + size)) g.file_size;
        }

    grows-byte : after.bytes (new_data + i) ≡ (
        if within (new_data + offset) size (new_data + i)
        then bigger.bytes (buffer + (new_data + i - (new_data + offset)))
        else bigger.bytes (new_data + i))
    unfolding grow
    grows-byte =
        subst
          (λ q. after.bytes (new_data + i) ≡ (
            if within (q + offset) size (new_data + i)
            then bigger.bytes (buffer + (new_data + i - (q + offset)))
            else bigger.bytes (new_data + i)))
          g.data_ptr
          (put_bytes-bytes bigger node offset size buffer (new_data + i)
            (omega (arith, g.data_ptr, cap_le.0, c.new_ends))
            (ground (arith, g.data_ptr, c.buffer_new, cap_le.0)))

    grows-content : content after node i ≡ written_byte fs node offset size buffer i
    grows-content =
        ap (λ q. after.bytes (q + i)) grows-HasFile.data_ptr
        ∙ grows-byte
        ∙ elim (Bool-cases (leb offset i && ltb i (offset + size))) [
          | inl inside ↦
              let w : within (new_data + offset) size (new_data + i) ≡ true =
                ground (arith, inside) in
              let place : new_data + i - (new_data + offset) ≡ i - offset = omega arith in
              rw w (
                rw place (
                  rw inside (
                    bigger-bytes (buffer + (i - offset))
                    ∙ ground (arith, inside, c.buffer_new, cap_le.0, cap_le.2))))
          | inr outside ↦
              let w : within (new_data + offset) size (new_data + i) ≡ false =
                ground (arith, outside) in
              let place : new_data + i - new_data ≡ i = omega arith in
              let there : within new_data old.file_size (new_data + i) ≡ true =
                ground (arith, outside, known) in
              rw w (rw outside (bigger-bytes (new_data + i) ∙ rw there (rw place refl)))
        ]

    pub grows-Written :
        Written fs node offset size buffer i
          (put_bytes bigger node (fs.nodes node).private_data offset size buffer)
    unfolding put_bytes grow
    grows-Written = record {
      returned = refl;
      file =
          HasFile-IsFile after new_data cap _ grows-HasFile (ground (arith, cap_le.0, cap_le.2))
            cap_le.1 c.new_ends (λ e. absurd (hn e));
      grown = grows-HasFile.file_size;
      node_size =
          put_bytes-node bigger node offset size buffer c.whole
          ∙ ap (λ n. max n (offset + size)) g.file_size;
      byte = grows-content;
    }
