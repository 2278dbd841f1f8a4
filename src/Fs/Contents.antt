-- ===== src/Fs/Contents.antt =====
-- The bytes of the files of fs/ramfs.c: `ramfs_read` and `ramfs_write`.
use nexus_kernel.Prelude.{
  ℕ, ◌+◌, ◌-◌, ◌^◌, ◌≤◌, ◌<◌, ◌≡◌, ◌≢◌, refl, ap, ◌∙◌, true, false, leb, ltb, if◌then◌else◌, arith,
  Bool-cases, inl, inr, ◌⊎◌,
}
use nexus_kernel.Prelude.Words.{add32}
use nexus_kernel.Prelude.Int.{pos}
use nexus_kernel.Libc.{memcpy}
use nexus_kernel.Libc.Blocks.{within, memcpy_lem}
use nexus_kernel.Fs.{null, File, Ramfs, max_file_size, to_ssize, ramfs_read}

-- The file struct of a node, and its i-th byte.
abbrev pub file_of : Ramfs → ℕ → File
file_of fs node = fs.files (fs.nodes node).private_data

abbrev pub content : Ramfs → ℕ → ℕ → ℕ
content fs node i = fs.bytes ((file_of fs node).data_ptr + i)

-- A node with a file: its bytes are in a block of the capacity that does not reach the end of memory.
pub record IsFile (fs : Ramfs) (node : ℕ) : Type 0 where
  pub has_file : (fs.nodes node).private_data ≢ null
  pub size_le : (file_of fs node).file_size ≤ (file_of fs node).capacity
  pub capacity_le : (file_of fs node).capacity ≤ max_file_size
  pub ends : (file_of fs node).data_ptr + (file_of fs node).capacity < 2 ^ 32
  pub no_data : (file_of fs node).data_ptr ≡ null → (file_of fs node).capacity ≡ 0

-- Two blocks do not overlap.
abbrev pub Apart : ℕ → ℕ → ℕ → ℕ → Type 0
Apart p n q m = (p + n ≤ q) ⊎ (q + m ≤ p)

-- The number of bytes that a read gets.
abbrev pub readable : Ramfs → ℕ → ℕ → ℕ → ℕ
readable fs node offset size =
    let available = (file_of fs node).file_size - offset in
    if ltb available size then available else size

read-end :
    (fs : Ramfs) (node offset size buffer : ℕ)
    → IsFile fs node
    → buffer ≢ null
    → leb (file_of fs node).file_size offset ≡ true
    → ramfs_read fs node offset size buffer ≡ (pos 0, fs)
unfolding ramfs_read
read-end fs node offset size buffer f hb h = ground (arith, f.has_file)

read-some :
    (fs : Ramfs) (node offset size buffer : ℕ)
    → IsFile fs node
    → buffer ≢ null
    → leb (file_of fs node).file_size offset ≡ false
    → let count = readable fs node offset size in
      ramfs_read fs node offset size buffer ≡ (
        to_ssize count,
        record fs { bytes = memcpy buffer ((file_of fs node).data_ptr + offset) count fs.bytes },
      )
unfolding ramfs_read
read-some fs node offset size buffer f hb h =
    let place : add32 (file_of fs node).data_ptr offset ≡ (file_of fs node).data_ptr + offset =
      omega (arith, f.ends, f.size_le, leb_false (file_of fs node).file_size offset h) in
    ground (arith, f.has_file, place)
  where
    leb_false : (x y : ℕ) → leb x y ≡ false → y < x
    leb_false x y h = ground arith

-- `ramfs_read` of a file to a buffer that is not null and apart from the file's bytes returns how
-- many bytes of the file there are from the offset on, the size at most, copies so many to the
-- buffer, and changes no other byte.
pub ramfs_read_lem :
    (fs : Ramfs) (node offset size buffer a : ℕ)
    → IsFile fs node
    → buffer ≢ null
    → size < 2 ^ 32
    → Apart buffer size (file_of fs node).data_ptr (file_of fs node).capacity
    → let (result, fs') = ramfs_read fs node offset size buffer in
      let count = readable fs node offset size in
      (result ≡ to_ssize count)
      × (fs'.bytes a
          ≡ (if within buffer count a then content fs node (offset + (a - buffer)) else fs.bytes a))
ramfs_read_lem fs node offset size buffer a f hb hs apart =
    elim (Bool-cases (leb (file_of fs node).file_size offset)) [
      | inl h ↦
          let e = read-end fs node offset size buffer f hb h in
          rw e (ground (arith, h), ground (arith, h))
      | inr h ↦
          let e = read-some fs node offset size buffer f hb h in
          let count = readable fs node offset size in
          let ptr = (file_of fs node).data_ptr in
          let copied =
            memcpy_lem buffer (ptr + offset) count fs.bytes (ground (arith, apart, f.size_le, h))
              a in
          let place : a - buffer + (ptr + offset) ≡ ptr + (offset + (a - buffer)) = omega arith in
          rw e (
            refl,
            copied ∙ ap (λ i. if within buffer count a then fs.bytes i else fs.bytes a) place,
          )
    ]
