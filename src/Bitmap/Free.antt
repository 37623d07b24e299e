-- ===== src/Bitmap/Free.antt =====
-- `freeBit` against `allocBit`: what was freed is not free.
use very_simple_file_system.Base.{ℕ, ◌+◌, ◌%◌, ◌^◌, ◌<◌, ◌≡◌, ◌≢◌, inl, inr, [], ◌∷◌, arith}
use very_simple_file_system.Run.{Returns, ok, ◌>>◌}
use very_simple_file_system.Layout.{minus_one, dmap_start, imap_start, inum, dnum}
use very_simple_file_system.Disk.{Disk, patch}
use very_simple_file_system.Disk.Access.{dwrite-ok}
use very_simple_file_system.Bitmap.{
  alloc_data_block, alloc_inode_block, free_bit, free_data_block, free_inode_block,
}
use very_simple_file_system.Bitmap.Alloc.{
  Allocated, alloc_data_block-Allocated, alloc_inode_block-Allocated,
}

pub free_data_block-ok :
    (id : ℕ) (d : Disk)
    → id < dnum
    → free_data_block id d ≡ ok tt (patch (dmap_start + id) (1 ∷ []) d)
unfolding free_data_block free_bit
free_data_block-ok id d h =
    let e : (dmap_start + id) % 2 ^ 32 ≡ dmap_start + id = omega arith in
    rw e (dwrite-ok (dmap_start + id) d (1 ∷ []) (omega arith))

pub free_inode_block-ok :
    (id : ℕ) (d : Disk)
    → id < inum
    → free_inode_block id d ≡ ok tt (patch (imap_start + id) (1 ∷ []) d)
unfolding free_inode_block free_bit
free_inode_block-ok id d h =
    let e : (imap_start + id) % 2 ^ 32 ≡ imap_start + id = omega arith in
    rw e (dwrite-ok (imap_start + id) d (1 ∷ []) (omega arith))

Allocated-ne :
    (start len id : ℕ) (d : Disk) (r : ℕ) (d' : Disk)
    → id < len
    → len < minus_one
    → Allocated start 0 len (patch (start + id) (1 ∷ []) d) r d'
    → r ≢ id
unfolding patch
Allocated-ne start len id d r d' h k (inl f) e = ground (arith, f.was_free)
Allocated-ne start len id d r d' h k (inr f) e = omega (arith, f.result)

-- For a block id in range, `allocDataBlock` after `freeDataBlock` of the id ends and never returns
-- this id.
pub alloc_data_block-ne-free_data_block :
    (id : ℕ) (d : Disk)
    → id < dnum
    → Returns (λ r d'. r ≢ id) ((free_data_block id >> alloc_data_block) d)
alloc_data_block-ne-free_data_block id d h =
    let (r, d', run, q) = alloc_data_block-Allocated (patch (dmap_start + id) (1 ∷ []) d) in
    rw (free_data_block-ok id d h)
      (r, d', run, Allocated-ne dmap_start dnum id d r d' h (omega arith) q)

-- For an inode id in range, `allocInodeBlock` after `freeInodeBlock` of the id ends and never
-- returns this id.
alloc_inode_block-ne-free_inode_block :
    (id : ℕ) (d : Disk)
    → id < inum
    → Returns (λ r d'. r ≢ id) ((free_inode_block id >> alloc_inode_block) d)
alloc_inode_block-ne-free_inode_block id d h =
    let (r, d', run, q) = alloc_inode_block-Allocated (patch (imap_start + id) (1 ∷ []) d) in
    rw (free_inode_block-ok id d h)
      (r, d', run, Allocated-ne imap_start inum id d r d' h (omega arith) q)
