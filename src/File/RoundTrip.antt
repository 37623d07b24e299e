-- ===== src/File/RoundTrip.antt =====
-- `readData` after `writeData`.
use very_simple_file_system.Base.{
  ℕ, zero, suc, ◌+◌, ◌/◌, ◌%◌, ◌≤◌, ◌<◌, ◌≡◌, refl, ap, ◌∙◌, inr, arith, length, leb, if◌then◌else◌,
}
use very_simple_file_system.Run.{Returns, ok}
use very_simple_file_system.Layout.{dsize, cap_1}
use very_simple_file_system.Disk.{Bytes, Disk, patch}
use very_simple_file_system.Disk.Bytes.{fetch_congr, fetch-patch_self}
use very_simple_file_system.Inode.{Inode}
use very_simple_file_system.File.{write_file, read_file}
use very_simple_file_system.File.Blocks.{block_addr, IsFile, file_bytes}
use very_simple_file_system.File.Stored.{IsStored}
use very_simple_file_system.File.Read.{read_file-inside}
use very_simple_file_system.File.Append.{EnoughBlocks, write_file-IsAppended}

-- The inode with another size, as the callers of `writeData` store it.
abbrev pub sized : Inode → ℕ → Inode
sized node s = record node { size = s }

module _ (node : Inode) (s : ℕ) (d : Disk) where
  pub block_addr-sized : (k : ℕ) → block_addr (sized node s) d k ≡ block_addr node d k
  unfolding block_addr
  block_addr-sized zero = refl
  block_addr-sized (suc k) = refl

  pub file_bytes-sized : (p : ℕ) → file_bytes (sized node s) d p ≡ file_bytes node d p
  unfolding file_bytes
  file_bytes-sized p = ap (λ b. d (b + p % dsize)) (block_addr-sized (p / dsize))

  pub sized-IsFile : IsFile node d → IsFile (sized node s) d
  sized-IsFile v = record {
    whole = v.whole;
    at_least = v.at_least;
    at_most = v.at_most;
    block = λ k h. rw (block_addr-sized k) (v.block k h);
    apart = λ j k hj hk ne. rw (block_addr-sized j, block_addr-sized k) (v.apart j k hj hk ne);
    indirect = v.indirect;
    not_indirect = λ i k h. rw (block_addr-sized k) (v.not_indirect i k h);
    has_indirect = v.has_indirect;
  }

-- The size that `write_` stores after a write up to `end`.
abbrev pub size_after : Inode → ℕ → ℕ
size_after node end = if leb end node.size then node.size else end

-- Where a file is stored with its size inside its capacity, a text is not empty and ends below the
-- largest file size, and enough data blocks are free, `writeData` ends, and `readData` at the same
-- offset and length, on the inode with the size that `write_` gives it, returns the text and
-- leaves the disk as it is.
pub read_file-write_file :
    (node : Inode) (off : ℕ) (src : Bytes) (d : Disk)
    → IsStored node d
    → node.size ≤ node.capacity
    → 0 < length src
    → off + length src < cap_1
    → EnoughBlocks node (off + length src) d
    → Returns
        (λ node' d'.
          read_file (sized node' (size_after node' (off + length src))) off (length src) d'
          ≡ ok src d')
        (write_file node off src d)
read_file-write_file node off src d v s pos h en =
    let (node', d', run, y) = write_file-IsAppended node off src d v h en in
    let e : node'.size ≡ node.size = ap (λ (n : Inode). n.size) y.others in
    let z = size_after node' (off + length src) in
    (
      node',
      d',
      run,
      read_file-inside (sized node' z) d' (sized-IsFile node' z d' y.stored.file) off (length src)
            (ground (arith, y.larger, y.reaches)) (ground arith) (ground arith)
          ∙ ap (λ l. ok l d')
              (fetch_congr off (length src) _ (patch off src (file_bytes node d)) (λ i l.
                  file_bytes-sized node' z d' (off + i)
                  ∙ y.bytes (off + i) (inr (omega arith, omega arith)))
                ∙ fetch-patch_self off src _),
    )

pub sized-IsStored : (node : Inode) (s : ℕ) (d : Disk) → IsStored node d → IsStored (sized node s) d
sized-IsStored node s d v = record {
  file = sized-IsFile node s d v.file;
  marked = λ k h. rw (block_addr-sized node s d k) (v.marked k h);
  indirect_marked = v.indirect_marked;
}
