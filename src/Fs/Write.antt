-- ===== src/Fs/Write.antt =====
-- `ramfs_write` of fs/ramfs.c: what a file holds after a write, and what a read then returns.
use nexus_kernel.Prelude.{
  ℕ, ◌+◌, ◌-◌, ◌<◌, ◌≡◌, ◌≢◌, refl, ◌∙◌, subst, true, not, ◌&&◌, leb, ltb, ◌==◌, arith, Bool-cases,
  inl, inr,
}
use nexus_kernel.Libc.Blocks.{within}
use nexus_kernel.Fs.{null, Ramfs, max_file_size, ramfs_read, ramfs_write}
use nexus_kernel.Fs.Contents.{file_of, content, Apart, readable, ramfs_read_lem}
use nexus_kernel.Fs.Grow.{
  CanWrite, has_space, Known, Writes, write-refused, write-fits, write-grows, fits-Written,
  grows-Written,
}

module _ (fs : Ramfs) (new_data node offset size buffer : ℕ)
    (c : CanWrite fs new_data node offset size buffer) where
  -- Let the conditions of a write hold, and let the byte `i` be in the range or one that the file
  -- had. If the range fits into the file's block, or ends at most at 65536 and `kmalloc` gives a
  -- block, then `ramfs_write` returns the size; the file is well-formed, its size is the end of the
  -- range or the old size, whichever is greater, also in the node, and its byte `i` is the buffer's
  -- if it is in the range, and otherwise the byte that it was. If not, the call returns -1 and
  -- changes nothing.
  pub ramfs_write_lem :
      (i : ℕ)
      → Known fs node offset size i
      → Writes
          (has_space fs new_data node (offset + size))
          fs
          node
          offset
          size
          buffer
          i
          (ramfs_write fs new_data node offset size buffer)
  ramfs_write_lem i known = elim (Bool-cases (leb (offset + size) (file_of fs node).capacity)) [
    | inl h ↦ rw h (
        rw (write-fits fs new_data node offset size buffer c h)
          (fits-Written fs new_data node offset size buffer c i h))
    | inr h ↦ elim (Bool-cases (leb (offset + size) max_file_size && not (new_data == null))) [
      | inl ok ↦
          let hn : new_data ≢ null = ground (arith, ok) in
          let hm : leb (offset + size) max_file_size ≡ true = ground (arith, ok) in
          rw h (
            rw ok (
              rw (write-grows fs new_data node offset size buffer c h hm hn)
                (grows-Written fs new_data node offset size buffer c i h hm hn known)))
      | inr refused ↦ rw h (
          rw refused
            (write-refused fs new_data node offset size buffer c (ground (arith, h, refused))))
    ]
  ]

-- Let the conditions of a write hold and the range have space, and let the target be another
-- buffer, not null and apart from the file's block. Then `ramfs_read` of the range behind
-- `ramfs_write` puts each byte of the written buffer, as it was before both calls, at its place in
-- the target.
pub ramfs_read-ramfs_write :
    (fs : Ramfs) (new_data node offset size buffer target i : ℕ)
    → CanWrite fs new_data node offset size buffer
    → has_space fs new_data node (offset + size) ≡ true
    → i < size
    → target ≢ null
    → Apart target size
        (file_of (ramfs_write fs new_data node offset size buffer).1 node).data_ptr
        (file_of (ramfs_write fs new_data node offset size buffer).1 node).capacity
    → (ramfs_read
          (ramfs_write fs new_data node offset size buffer).1
          node
          offset
          size
          target).1.bytes
        (target + i)
      ≡ fs.bytes (buffer + i)
ramfs_read-ramfs_write fs new_data node offset size buffer target i c ok hi ht apart =
    let fs' = (ramfs_write fs new_data node offset size buffer).1 in
    let w =
      subst
        (λ b.
          Writes b fs node offset size buffer (offset + i)
            (ramfs_write fs new_data node offset size buffer))
        ok
        (ramfs_write_lem fs new_data node offset size buffer c (offset + i)
          (inr (omega arith, omega arith))) in
    let r =
      ramfs_read_lem fs' node offset size target (target + i) w.file ht (omega (arith, c.whole))
        apart in
    let all : readable fs' node offset size ≡ size = ground (arith, w.grown) in
    let inside : within target size (target + i) ≡ true = ground arith in
    let here : offset + (target + i - target) ≡ offset + i = omega arith in
    let there : buffer + (offset + i - offset) ≡ buffer + i = omega arith in
    let in_range : (leb offset (offset + i) && ltb (offset + i) (offset + size)) ≡ true =
      ground arith in
    let read_back : (ramfs_read fs' node offset size target).1.bytes (target + i)
        ≡ content fs' node (offset + i) =
      r.1 ∙ rw all (rw inside (rw here refl)) in
    read_back ∙ w.byte ∙ rw in_range (rw there refl)
