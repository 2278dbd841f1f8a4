-- ===== src/Fs/Wrap.antt =====
-- `ramfs_write` of fs/ramfs.c where the end of the range wraps.
use nexus_kernel.Prelude.{ℕ, ◌+◌, ◌-◌, ◌^◌, ◌≤◌, ◌<◌, ◌≡◌, ◌≢◌, ap, ◌∙◌, true, arith}
use nexus_kernel.Prelude.Words.{add32}
use nexus_kernel.Libc.{memcpy}
use nexus_kernel.Libc.Blocks.{within, memcpy_lem}
use nexus_kernel.Fs.{null, Ramfs, to_ssize, put_bytes, ramfs_write}
use nexus_kernel.Fs.Contents.{file_of, IsFile, Apart}

-- Let a write be `back` bytes short of 2^32, at least one and no more than there are addresses
-- below the file's bytes, let its size be no less than that and the rest fit into the file's block,
-- and the buffer be not null and apart from the bytes that are written. Then `ramfs_write` returns
-- the size, and stores the buffer's first byte `back` bytes before the file's block.
ramfs_write_wraps :
    (fs : Ramfs) (new_data node back size buffer : ℕ)
    → IsFile fs node
    → buffer ≢ null
    → 0 < back
    → back ≤ (file_of fs node).data_ptr
    → back ≤ size
    → size ≤ (file_of fs node).capacity + back
    → size < 2 ^ 31
    → Apart buffer size ((file_of fs node).data_ptr - back) size
    → let (result, fs') = ramfs_write fs new_data node (2 ^ 32 - back) size buffer in
      (result ≡ to_ssize size) × (fs'.bytes ((file_of fs node).data_ptr - back) ≡ fs.bytes buffer)
unfolding ramfs_write put_bytes
ramfs_write_wraps fs new_data node back size buffer f hb positive below enough fits small apart =
    let ptr = (file_of fs node).data_ptr in
    let offset = 2 ^ 32 - back in
    let end : add32 offset size ≡ size - back = omega (arith, positive, enough, small) in
    let place : add32 ptr offset ≡ ptr - back = omega (arith, positive, below, f.ends) in
    let copied =
      memcpy_lem (ptr - back) buffer size fs.bytes (ground (arith, apart)) (ptr - back) in
    let first : ptr - back - (ptr - back) + buffer ≡ buffer = omega arith in
    let inside : within (ptr - back) size (ptr - back) ≡ true = ground (arith, positive, enough) in
    let byte : memcpy (ptr - back) buffer size fs.bytes (ptr - back) ≡ fs.bytes buffer =
      copied ∙ rw inside (ap fs.bytes first) in
    (
      ground (arith, f.has_file, hb, end, fits),
      ground (arith, f.has_file, hb, end, fits, place, byte),
    )
