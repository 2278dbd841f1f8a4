-- ===== src/Fs/Store.antt =====
-- The parts of `ramfs_write` of fs/ramfs.c: the larger block, and the bytes that are stored.
use nexus_kernel.Prelude.{
  ℕ, ◌+◌, ◌-◌, ◌^◌, ◌<◌, ◌≡◌, refl, ap, ◌∙◌, not, ◌&&◌, ltb, ◌==◌, if◌then◌else◌, arith, Bool-cases,
  inl, inr,
}
use nexus_kernel.Prelude.Words.{add32}
use nexus_kernel.Libc.Blocks.{within, memcpy_lem}
use nexus_kernel.Fs.{null, File, Ramfs, put, grow, put_bytes}
use nexus_kernel.Fs.Contents.{file_of, Apart}

abbrev pub max : ℕ → ℕ → ℕ
max a b = if ltb a b then b else a

-- The file of `node` is at `ptr` with the capacity and the size, in the state `fs'`.
pub record HasFile (fs : Ramfs) (node ptr cap len : ℕ) (fs' : Ramfs) : Type 0 where
  pub at : (fs'.nodes node).private_data ≡ (fs.nodes node).private_data
  pub data_ptr : (file_of fs' node).data_ptr ≡ ptr
  pub capacity : (file_of fs' node).capacity ≡ cap
  pub file_size : (file_of fs' node).file_size ≡ len

module _ (fs : Ramfs) (node offset size buffer : ℕ) where
  abbrev at : ℕ
  at = (fs.nodes node).private_data

  abbrev file : File
  file = fs.files at

  pub put_bytes-HasFile :
      offset + size < 2 ^ 32
      → HasFile fs node file.data_ptr file.capacity
          (max file.file_size (offset + size))
          (put_bytes fs node at offset size buffer).1
  unfolding put_bytes put
  put_bytes-HasFile h =
      let w : add32 offset size ≡ offset + size = omega (arith, h) in
      record {
        at = ground arith;
        data_ptr = ground arith;
        capacity = ground arith;
        file_size = ground (arith, w);
      }

  pub put_bytes-bytes :
      (a : ℕ)
      → file.data_ptr + offset + size < 2 ^ 32
      → Apart buffer size (file.data_ptr + offset) size
      → (put_bytes fs node at offset size buffer).1.bytes a ≡ (
          if within (file.data_ptr + offset) size a
          then fs.bytes (buffer + (a - (file.data_ptr + offset)))
          else fs.bytes a)
  unfolding put_bytes
  put_bytes-bytes a h apart =
      let w : add32 file.data_ptr offset ≡ file.data_ptr + offset = omega (arith, h) in
      let copied =
        memcpy_lem (file.data_ptr + offset) buffer size fs.bytes (ground (arith, apart)) a in
      let place : a - (file.data_ptr + offset) + buffer ≡ buffer + (a - (file.data_ptr + offset)) =
        omega arith in
      rw w (
        copied
        ∙ ap (λ i. if within (file.data_ptr + offset) size a then fs.bytes i else fs.bytes a) place)

  pub grow-HasFile : (cap ptr : ℕ) → HasFile fs node ptr cap file.file_size (grow fs at cap ptr)
  unfolding grow put
  grow-HasFile cap ptr = record {
    at = refl;
    data_ptr = ground arith;
    capacity = ground arith;
    file_size = ground arith;
  }

  pub grow-bytes :
      (cap ptr a : ℕ)
      → (file.data_ptr ≡ null → file.file_size ≡ 0)
      → Apart file.data_ptr file.file_size ptr file.file_size
      → (grow fs at cap ptr).bytes a
        ≡ (if within ptr file.file_size a then fs.bytes (file.data_ptr + (a - ptr)) else fs.bytes a)
  unfolding grow
  grow-bytes cap ptr a none apart =
      let copied = memcpy_lem ptr file.data_ptr file.file_size fs.bytes (ground (arith, apart)) a in
      let place : a - ptr + file.data_ptr ≡ file.data_ptr + (a - ptr) = omega arith in
      elim (Bool-cases (not (file.data_ptr == null) && ltb 0 file.file_size)) [
        | inl h ↦ rw h (
            copied ∙ ap (λ i. if within ptr file.file_size a then fs.bytes i else fs.bytes a) place)
        | inr h ↦ rw h (ground (arith, none, h))
      ]

  pub put_bytes-node :
      offset + size < 2 ^ 32
      → ((put_bytes fs node at offset size buffer).1.nodes node).size
        ≡ max file.file_size (offset + size)
  unfolding put_bytes put
  put_bytes-node h =
      let w : add32 offset size ≡ offset + size = omega (arith, h) in ground (arith, w)
