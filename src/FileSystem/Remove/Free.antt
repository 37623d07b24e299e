-- ===== src/FileSystem/Remove/Free.antt =====
-- `freeFile` on a file of a sound disk: it marks entries that were taken, and nothing becomes free.
use very_simple_file_system.Base.{
  ℕ, zero, suc, ◌+◌, ◌-◌, ◌*◌, ◌/◌, ◌%◌, ◌^◌, ◌≤◌, ◌<◌, ◌≡◌, ◌≢◌, refl, ap, subst, ◌==◌, Bool-cases,
  inl, inr, [], ◌∷◌, arith, lt→ltb, lt-cases,
}
use very_simple_file_system.Run.{Returns}
use very_simple_file_system.Layout.{
  minus_one, add32, dsize, sizeof_int, imap_start, data_start, get_data_id_by_offset,
}
use very_simple_file_system.Disk.{Disk, patch, int_at}
use very_simple_file_system.Disk.Access.{get_int_at-ok}
use very_simple_file_system.Bitmap.{free_data_block}
use very_simple_file_system.Bitmap.Free.{free_data_block-ok, free_inode_block-ok}
use very_simple_file_system.Bitmap.Count.{free_blocks_of, free_inodes_of}
use very_simple_file_system.Inode.{Inode}
use very_simple_file_system.Inode.Codec.{inode_at, read_inode-ok}
use very_simple_file_system.File.Blocks.{block_addr, blocks, IsBlock}
use very_simple_file_system.File.Stored.{IsStored, mark}
use very_simple_file_system.File.Sound.{Live, IsSound}
use very_simple_file_system.File.Sound.Marked.{
  IsMarked, IsMarked-refl, IsMarked-trans, mark-IsMarked, marked-IsSound, marked_counts,
  marked-Live,
}
use very_simple_file_system.FileSystem.Remove.{free_blocks, free_data_blocks, free_file}

-- The id of the block that an address lies in.
data_id :
    (b i : ℕ) → IsBlock b → i < dsize → get_data_id_by_offset (b + i) ≡ (b - data_start) / dsize
unfolding get_data_id_by_offset
data_id b i h l =
    let x = h.from in
    let y = h.to in
    let z = h.aligned in
    let small : (b + i + 2 ^ 32 - data_start) % 2 ^ 32 ≡ b + i - data_start = omega arith in
    rw (small, lt→ltb (b + i - data_start) (2 ^ 31) (omega arith)) (omega arith)

-- `freeDataBlock` of the block at an address in a block that is taken.
free_block-IsMarked :
    (b i : ℕ) (d : Disk)
    → IsBlock b
    → i < dsize
    → d (mark b) ≢ 0
    → Returns (λ _ d'. IsMarked d d') (free_data_block (get_data_id_by_offset (b + i)) d)
free_block-IsMarked b i d h l ne =
    let x = h.from in
    let y = h.to in
    rw (data_id b i h l) (
      tt,
      patch (mark b) (1 ∷ []) d,
      free_data_block-ok ((b - data_start) / dsize) d (omega arith),
      mark-IsMarked (mark b) d (omega arith) ne,
    )

-- All rounds of the loop give the one block at `b`.
free_blocks-IsMarked :
    (n i b : ℕ) (d : Disk)
    → IsBlock b
    → i + n ≤ 1024
    → d (mark b) ≢ 0
    → Returns (λ _ d'. IsMarked d d') (free_blocks n b i d)
unfolding free_blocks
free_blocks-IsMarked zero i b d h l ne = (tt, d, refl, IsMarked-refl d)
free_blocks-IsMarked (suc n) i b d h l ne =
    let x = h.to in
    let e : add32 b (i * sizeof_int) ≡ b + i * sizeof_int = omega arith in
    let (u, d1, run, m) = free_block-IsMarked b (i * sizeof_int) d h (omega arith) ne in
    let (u', d2, run', m') =
      free_blocks-IsMarked n (i + 1) b d1 h (omega arith) (m.taken (mark b) ne) in
    rw (e, run) (tt, d2, run', IsMarked-trans d d1 d2 m m')

-- The loop with the address that the code reads from the index block.
level_1-IsMarked :
    (node : Inode) (d : Disk)
    → IsStored node d
    → Returns
        (λ _ d'. IsMarked d d')
        (free_blocks (node.capacity / dsize - 1) (int_at node.addr_1 d) 0 d)
unfolding free_blocks
level_1-IsMarked node d v = elim (lt-cases 1 (blocks node)) [
  | inl more ↦
      let first : int_at node.addr_1 d ≡ block_addr node d 1 =
        unfold block_addr in ap (λ a. int_at a d) (omega arith) in
      rw first (
        free_blocks-IsMarked (blocks node - 1) 0 (block_addr node d 1) d (v.file.block 1 more)
          (omega (arith, v.file.at_most)) (v.marked 1 more))
  | inr none_left ↦ let z : blocks node - 1 ≡ 0 = omega arith in rw z (tt, d, refl, IsMarked-refl d)
]

free_data_blocks-IsMarked :
    (node : Inode) (d : Disk)
    → IsStored node d
    → Returns (λ _ d'. IsMarked d d') (free_data_blocks node d)
unfolding free_data_blocks block_addr free_blocks
free_data_blocks-IsMarked node d v = elim (Bool-cases (node.addr_1 == minus_one)) [
  | inl one ↦
      let k : 0 < blocks node = omega (arith, v.file.at_least) in
      let z : node.addr_0 + 0 ≡ node.addr_0 = omega arith in
      rw one (
        subst (λ a. Returns (λ _ d'. IsMarked d d') (free_data_block (get_data_id_by_offset a) d)) z
          (free_block-IsMarked node.addr_0 0 d (v.file.block 0 k) (omega arith) (v.marked 0 k)))
  | inr more ↦ elim (Bool-cases (node.addr_2 == minus_one)) [
    | inr deep ↦ rw (more, deep) (tt, d, refl, IsMarked-refl d)
    | inl two ↦
        let i = v.file.indirect (ground arith) in
        let y = i.to in
        rw (more, two, get_int_at-ok node.addr_1 d (omega arith)) (level_1-IsMarked node d v)
  ]
]

-- On a sound disk, `freeFile` of an inode that is marked as taken ends without a fault, and
-- nothing becomes free by it: below the inodes what was free or taken is so still and the rest of
-- the disk is the same (IsMarked), the inode is still taken, as many inodes and as many data
-- blocks are free, and the disk is sound.
pub free_file-frees_nothing :
    (i : ℕ) (d : Disk)
    → IsSound d
    → Live i d
    → Returns
        (λ _ d'.
          IsMarked d d'
          × Live i d'
          × (free_blocks_of d' ≡ free_blocks_of d)
          × (free_inodes_of d' ≡ free_inodes_of d)
          × IsSound d')
        (free_file i d)
unfolding free_file
free_file-frees_nothing i d v (h, ne) =
    let (u, d1, run, m) = free_data_blocks-IsMarked (inode_at i d) d (v.file i (h, ne)).stored in
    let d2 = patch (imap_start + i) (1 ∷ []) d1 in
    let m2 =
      IsMarked-trans d d1 d2 m
        (mark-IsMarked (imap_start + i) d1 (omega arith) (m.taken (imap_start + i) ne)) in
    let (blocks_same, inodes_same) = marked_counts d d2 m2 in
    rw (read_inode-ok i d h, run)
      (
        tt,
        d2,
        free_inode_block-ok i d1 h,
        (m2, marked-Live d d2 m2 i (h, ne), blocks_same, inodes_same, marked-IsSound d d2 m2 v),
      )
