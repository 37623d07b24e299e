-- ===== src/File/Grow.antt =====
-- The branch of `writeData` that adds a block: the file stays stored, is a block longer, and keeps
-- its content; nothing that belongs to others changes.
use very_simple_file_system.Base.{
  ◌+◌, ◌-◌, ◌*◌, ◌/◌, ◌%◌, ◌^◌, ◌≤◌, ◌≡◌, ◌≢◌, refl, ap, arith, ◌==◌, false,
}
use very_simple_file_system.Run.{Returns}
use very_simple_file_system.Layout.{minus_one, dsize, cap_1}
use very_simple_file_system.Disk.{Disk}
use very_simple_file_system.Disk.Access.{put_int_at-ok}
use very_simple_file_system.Bitmap.Count.{free_blocks_of, alloc_data_block-IsFresh}
use very_simple_file_system.Inode.{Inode}
use very_simple_file_system.File.{grow, alloc_level1_block}
use very_simple_file_system.File.Stored.{IsStored, get_data_offset-eq}
use very_simple_file_system.File.Extends.{Extends, Extends-trans, grow_cost}
use very_simple_file_system.File.Indirect.{ensure_addr_1-IsEnsured}
use very_simple_file_system.File.Level1.{
  next_entry, with_block, linked, entry_bounds, linked-Extends, linked-count,
}

-- The file is one block longer and has an indirect block; `grow_cost` blocks were taken.
pub record IsGrown (node : Inode) (d : Disk) (node' : Inode) (d' : Disk) : Type 0 where
  pub extends : Extends node d node' d'
  pub capacity : node'.capacity ≡ node.capacity + dsize
  pub has : node'.addr_1 ≢ minus_one
  pub cost : free_blocks_of d' + grow_cost node ≡ free_blocks_of d

-- For a stored file that is not yet at the largest size and enough free data blocks, the branch of
-- `writeData` that adds a block ends, and gives a stored file with one more block, a fresh one,
-- with the same bytes below the old capacity, and takes only blocks that were free.
pub grow-IsGrown :
    (node : Inode) (d : Disk)
    → IsStored node d
    → node.capacity + dsize ≤ cap_1
    → grow_cost node ≤ free_blocks_of d
    → Returns (IsGrown node d) (grow node d)
unfolding grow alloc_level1_block
grow-IsGrown node d v room h =
    let (n, e, run, u) = ensure_addr_1-IsEnsured node d v h in
    let w = u.extends.stored in
    let room' : n.capacity + dsize ≤ cap_1 = omega (arith, u.capacity) in
    let (r, e', run', f) = alloc_data_block-IsFresh e (omega (arith, u.cost)) in
    let bounds = entry_bounds n e w u.has room' r e' f in
    let b = w.file.indirect u.has in
    let q : (n.addr_1 + (n.capacity - dsize) / dsize * 4) % 2 ^ 32 ≡ next_entry n =
      omega (arith, b.to, w.file.whole, w.file.at_least, w.file.at_most) in
    let some_block : (n.capacity == 0) ≡ false = ground (arith, w.file.at_least) in
    rw
      (
        run,
        run',
        some_block,
        get_data_offset-eq r f.below,
        q,
        put_int_at-ok (next_entry n) e' _ (omega (arith, bounds.1, b.to)),
      )
      (
        with_block n,
        linked n r e',
        refl,
        record {
          extends =
              Extends-trans node n (with_block n) d e (linked n r e') u.extends
                (linked-Extends n e w u.has room' r e' f);
          capacity = ap (λ c. c + dsize) u.capacity;
          has = u.has;
          cost = omega (arith, linked-count n e w u.has room' r e' f, f.fewer, u.cost);
        },
      )
