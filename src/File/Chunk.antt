-- ===== src/File/Chunk.antt =====
-- One `dwrite` of `writeData`: the bytes go to one block of the file.
use very_simple_file_system.Base.{
  ℕ, zero, suc, ◌+◌, ◌-◌, ◌*◌, ◌/◌, ◌%◌, ◌≤◌, ◌<◌, ◌≡◌, ◌≢◌, refl, ap, sym, ◌∙◌, inl, inr, arith,
  length, get_or, lt-cases,
}
use native.Mathlib.Decide.{ℕ_discrete}
use very_simple_file_system.Layout.{dsize, disk_size}
use very_simple_file_system.Disk.{Bytes, Disk, patch}
use very_simple_file_system.Disk.Bytes.{patch_outside, int_at-patch_outside}
use very_simple_file_system.Inode.{Inode}
use very_simple_file_system.File.Blocks.{
  block_addr, IsBlock, IsFile, file_addr, file_bytes, blocks_disjoint, div-lt-blocks,
}
use very_simple_file_system.File.Spec.{SameTable, Outside, IsWritten}

-- The disk after the bytes were written.
abbrev pub chunk_of : Inode → Disk → ℕ → Bytes → Disk
chunk_of node d off bs = patch (file_addr node d off) bs d

module _ (node : Inode) (d : Disk) (v : IsFile node d) (off : ℕ) (bs : Bytes)
    (inside : off < node.capacity) (fits : off % dsize + length bs ≤ dsize) where
  home : IsBlock (block_addr node d (off / dsize))
  home = v.block (off / dsize) (div-lt-blocks node d v off inside)

  pub chunk_end : file_addr node d off + length bs ≤ disk_size
  chunk_end = omega (arith, home.to)

  -- The entries of the indirect block are not overwritten.
  chunk-SameTable : SameTable node d (chunk_of node d off bs)
  unfolding block_addr
  chunk-SameTable zero h = refl
  chunk-SameTable (suc k) h =
      let some = v.has_indirect (omega (arith, v.whole)) in
      let i = v.indirect some in
      let ne = v.not_indirect some (off / dsize) (div-lt-blocks node d v off inside) in
      let apart = blocks_disjoint (block_addr node d (off / dsize)) node.addr_1 home i ne in
      int_at-patch_outside (node.addr_1 + 4 * k) (file_addr node d off) bs d
        (omega (arith, v.at_most, v.whole))

  chunk-frame : (a : ℕ) → Outside node d a → (chunk_of node d off bs) a ≡ d a
  chunk-frame a o = elim (lt-cases a (file_addr node d off)) [
    | inl l ↦ patch_outside (file_addr node d off) bs d a (inl l)
    | inr l ↦ elim (lt-cases a (file_addr node d off + length bs)) [
      | inl m ↦
          absurd (o (off / dsize) (div-lt-blocks node d v off inside) (omega arith, omega arith))
      | inr m ↦ patch_outside (file_addr node d off) bs d a (inr m)
    ]
  ]

  chunk_bytes_same :
      (p : ℕ)
      → p / dsize ≡ off / dsize
      → (chunk_of node d off bs) (file_addr node d p) ≡ patch off bs (file_bytes node d) p
  unfolding patch file_bytes
  chunk_bytes_same p e =
      let i : block_addr node d (off / dsize) + p % dsize - file_addr node d off ≡ p - off =
        omega arith in
      rw e (ground (arith, ap (λ k. get_or bs k 0) i))

  chunk_bytes_other :
      (p : ℕ)
      → p < node.capacity
      → p / dsize ≢ off / dsize
      → (chunk_of node d off bs) (file_addr node d p) ≡ patch off bs (file_bytes node d) p
  unfolding file_bytes
  chunk_bytes_other p h ne =
      let b = v.block (p / dsize) (div-lt-blocks node d v p h) in
      let apart =
        blocks_disjoint (block_addr node d (p / dsize)) (block_addr node d (off / dsize)) b home (
          v.apart (p / dsize) (off / dsize) (div-lt-blocks node d v p h)
            (div-lt-blocks node d v off inside) ne) in
      patch_outside (file_addr node d off) bs d (file_addr node d p) (omega arith)
      ∙ sym (patch_outside off bs (file_bytes node d) p (omega arith))

  -- The write of one chunk meets the contract.
  pub chunk-IsWritten : IsWritten node off bs d (chunk_of node d off bs)
  unfolding file_bytes
  chunk-IsWritten = record {
    table = chunk-SameTable;
    bytes = λ p h.
        ap (λ b. (chunk_of node d off bs) (b + p % dsize))
          (chunk-SameTable (p / dsize) (div-lt-blocks node d v p h))
        ∙ elim (ℕ_discrete (p / dsize) (off / dsize)) [
          | yes e ↦ chunk_bytes_same p e
          | no ne ↦ chunk_bytes_other p h ne
        ];
    frame = chunk-frame;
  }
