-- ===== src/FileSystem/Create/File.antt =====
-- `createFile` takes an inode and a data block that were free, and makes an empty file of them.
use very_simple_file_system.Base.{
  ℕ, ◌+◌, ◌-◌, ◌/◌, ◌^◌, ◌≤◌, ◌<◌, ◌≡◌, ◌≢◌, refl, ap, sym, subst, ◌∙◌, ◌⊎◌, false, [], ◌∷◌, inl,
  inr, arith, length, drop, length-append, length-drop, ◌==◌,
}
use very_simple_file_system.Run.{Returns, ok}
use very_simple_file_system.Layout.{
  minus_one, dsize, inum, dnum, imap_start, dmap_start, inode_start, data_start, get_data_offset,
}
use very_simple_file_system.Disk.{Bytes, Disk}
use very_simple_file_system.Disk.Bytes.{patch_outside, patch_byte}
use very_simple_file_system.Bitmap.{alloc_inode_block, alloc_data_block}
use very_simple_file_system.Bitmap.Alloc.{IsFirstFree, Taken}
use very_simple_file_system.Bitmap.Count.{
  free_blocks_of, free_inodes_of, count_congr, IsFresh, alloc_data_block-IsFresh,
  alloc_inode_block-IsFirstFree,
}
use very_simple_file_system.Inode.{Inode, new_inode, strcpy, write_inode}
use very_simple_file_system.Inode.Codec.{
  IsInode, inode_at, stored, write_inode-ok, inode_at-stored_self, inode_at-stored_ne,
  stored_outside, inode_at_congr,
}
use very_simple_file_system.File.Stored.{
  IsStored, mark, SameData, KeepsMarks, new_addr, get_data_offset-eq, new_addr-IsBlock,
  mark-new_addr, fresh_at, fresh_mark, fresh-SameData, fresh-KeepsMarks,
}
use very_simple_file_system.File.New.{one_block-IsStored}
use very_simple_file_system.File.Sound.{IsOpenFile}
use very_simple_file_system.File.Sound.Made.{IsMade}
use very_simple_file_system.FileSystem.State.{FileSystem}
use very_simple_file_system.FileSystem.Create.{create_file}

-- The inode of a new file with the block at `addr`.
unfoldable pub empty_file : ℕ → Bytes → Inode
unfolding new_inode
empty_file addr now = record new_inode { addr_0 = addr; date = strcpy new_inode.date now }

empty_file-IsInode :
    (addr : ℕ) (now : Bytes) → addr < 2 ^ 32 → length now ≡ 24 → IsInode (empty_file addr now)
unfolding empty_file new_inode
empty_file-IsInode addr now h l = record {
  type_lt = omega arith;
  size_lt = omega arith;
  capacity_lt = omega arith;
  addr_0_lt = h;
  addr_1_lt = omega arith;
  date_len = omega (
    arith,
    l,
    length-append now (0 ∷ drop (length now + 1) new_inode.date),
    length-drop (length now + 1) new_inode.date,
  );
  padding_len = refl;
  addr_2_lt = omega arith;
  mode_lt = omega arith;
  uid_lt = omega arith;
  gid_lt = omega arith;
  times_len = refl;
}

-- The new file is `i`, with the block at `addr`.
pub record IsCreated (s : FileSystem) (i addr : ℕ) (t : FileSystem) : Type 0 where
  pub id_lt : i < inum
  pub first : Taken imap_start 0 i s.disk
  pub inode_free : s.disk (imap_start + i) ≡ 0
  pub inode_taken : t.disk (imap_start + i) ≢ 0
  pub imap : (j : ℕ) → j < inum → j ≢ i → t.disk (imap_start + j) ≡ s.disk (imap_start + j)
  pub node : inode_at i t.disk ≡ empty_file addr s.now
  pub inode : IsInode (empty_file addr s.now)
  pub file : IsStored (empty_file addr s.now) t.disk
  pub others : (j : ℕ) → j < inum → j ≢ i → inode_at j t.disk ≡ inode_at j s.disk
  pub same_data : SameData s.disk t.disk
  pub was_free : s.disk (dmap_start + (addr - data_start) / dsize) ≡ 0
  pub marks : KeepsMarks s.disk t.disk
  pub fewer : free_blocks_of t.disk + 1 ≡ free_blocks_of s.disk
  pub kept : record t { disk = s.disk } ≡ s

module _ (d : Disk) (i : ℕ) (d1 : Disk) (u : IsFirstFree imap_start 0 inum d i d1) where
  taken_inode : (a : ℕ) → a ≢ imap_start + i → d1 a ≡ d a
  taken_inode a ne =
      ap (λ (e : Disk). e a) u.result ∙ patch_outside (imap_start + i) (1 ∷ []) d a (omega arith)

  low : (a : ℕ) → dmap_start ≤ a → d1 a ≡ d a
  low a h = taken_inode a (omega (arith, u.below))

  same_count : free_blocks_of d1 ≡ free_blocks_of d
  same_count = count_congr dnum dmap_start d1 d (λ a h k. low a h)

module _ (d : Disk) (i : ℕ) (d1 : Disk) (r : ℕ) (d2 : Disk)
    (u : IsFirstFree imap_start 0 inum d i d1) (f : IsFresh d1 r d2) (now : Bytes)
    (l : length now ≡ 24) where
  abbrev pub node : Inode
  node = empty_file (new_addr r) now

  node-IsInode : IsInode node
  node-IsInode = empty_file-IsInode (new_addr r) now (omega (arith, f.below)) l

  after : (a : ℕ) → (a < inode_start) ⊎ (data_start ≤ a) → stored i node d2 a ≡ d2 a
  after = stored_outside i node d2 u.below node-IsInode

  fewer : free_blocks_of (stored i node d2) + 1 ≡ free_blocks_of d
  fewer = omega (
    arith,
    f.fewer,
    count_congr dnum dmap_start (stored i node d2) d2 (λ a h k. after a (inl (omega arith))),
    same_count d i d1 u,
  )

  same_data : SameData d (stored i node d2)
  same_data a h = after a (inr h) ∙ fresh-SameData d1 r d2 f a h ∙ low d i d1 u a (omega arith)

  marks : KeepsMarks d (stored i node d2)
  marks a h k ne =
      rw (after a (inl (omega arith))) (fresh-KeepsMarks d1 r d2 f a h k (rw (low d i d1 u a h) ne))

  file : IsStored node (stored i node d2)
  unfolding empty_file new_inode
  file = one_block-IsStored node (stored i node d2) refl refl (new_addr-IsBlock r f.below) (
      rw
        (
          mark-new_addr r,
          after (dmap_start + r) (inl (omega (arith, f.below))),
          fresh_mark d1 r d2 f,
        )
        (omega arith))

  same_bits : (a : ℕ) → a < dmap_start → stored i node d2 a ≡ d1 a
  same_bits a h = after a (inl (omega arith)) ∙ fresh_at d1 r d2 f a (omega arith)

  taken : stored i node d2 (imap_start + i) ≢ 0
  taken =
      let one : d1 (imap_start + i) ≡ 1 =
        ap (λ (e : Disk). e (imap_start + i)) u.result ∙ patch_byte (imap_start + i) 1 d in
      rw (same_bits (imap_start + i) (omega (arith, u.below)), one) (omega arith)

  imap : (j : ℕ) → j < inum → j ≢ i → stored i node d2 (imap_start + j) ≡ d (imap_start + j)
  imap j h ne =
      same_bits (imap_start + j) (omega arith) ∙ taken_inode d i d1 u (imap_start + j) (omega arith)

  others : (j : ℕ) → j < inum → j ≢ i → inode_at j (stored i node d2) ≡ inode_at j d
  others j h ne =
      inode_at-stored_ne i node d2 u.below node-IsInode j ne
      ∙ inode_at_congr j d2 d h
          (λ a k m. fresh_at d1 r d2 f a (omega (arith, f.below)) ∙ low d i d1 u a (omega arith))

-- The calls of `createFile` one after the other.
create_file_calls :
    (s : FileSystem) (i : ℕ) (d1 : Disk) (r : ℕ) (d2 d3 : Disk)
    → alloc_inode_block s.disk ≡ ok i d1
    → (i == minus_one) ≡ false
    → alloc_data_block d1 ≡ ok r d2
    → (r == minus_one) ≡ false
    → write_inode i (empty_file (get_data_offset r) s.now) d2 ≡ ok tt d3
    → create_file s ≡ ok i (record s { disk = d3 })
unfolding create_file empty_file
create_file_calls s i d1 r d2 d3 run1 ok1 run2 ok2 run3 = rw (run1, ok1, run2, ok2, run3) refl

created :
    (s : FileSystem) (i : ℕ) (d1 : Disk) (r : ℕ) (d2 : Disk)
    → length s.now ≡ 24
    → alloc_inode_block s.disk ≡ ok i d1
    → IsFirstFree imap_start 0 inum s.disk i d1
    → alloc_data_block d1 ≡ ok r d2
    → IsFresh d1 r d2
    → Returns (λ i t. (addr : ℕ) × IsCreated s i addr t) (create_file s)
created s i d1 r d2 l run1 u run2 f =
    let n = empty_file (new_addr r) s.now in
    (
      i,
      record s { disk = stored i n d2 },
      create_file_calls s i d1 r d2 (stored i n d2) run1 (ground (arith, u.below)) run2
          (ground (arith, f.below))
          (ap (λ a. write_inode i (empty_file a s.now) d2) (get_data_offset-eq r f.below)
            ∙ write_inode-ok i n d2 u.below (node-IsInode s.disk i d1 r d2 u f s.now l)),
      (
        new_addr r,
        record {
          id_lt = u.below;
          first = u.first;
          inode_free = u.was_free;
          inode_taken = taken s.disk i d1 r d2 u f s.now l;
          imap = imap s.disk i d1 r d2 u f s.now l;
          node = inode_at-stored_self i n d2 u.below (node-IsInode s.disk i d1 r d2 u f s.now l);
          inode = node-IsInode s.disk i d1 r d2 u f s.now l;
          file = file s.disk i d1 r d2 u f s.now l;
          others = others s.disk i d1 r d2 u f s.now l;
          same_data = same_data s.disk i d1 r d2 u f s.now l;
          was_free =
              ap s.disk (mark-new_addr r)
              ∙ sym (low s.disk i d1 u (dmap_start + r) (omega arith))
              ∙ f.was_free;
          marks = marks s.disk i d1 r d2 u f s.now l;
          fewer = fewer s.disk i d1 r d2 u f s.now l;
          kept = refl;
        },
      ),
    )

-- With a date of 24 characters, a free inode and a free data block, `createFile` ends without a
-- fault and returns the first free inode. It holds an empty file with the date and with one block
-- that was free, stored on the disk; its inode is marked as taken now; the other inodes, their
-- entries of the inode map and the data region are unchanged, no data block loses its mark, one
-- block less is free, and nothing but the disk changes.
pub create_file-IsCreated :
    (s : FileSystem)
    → length s.now ≡ 24
    → 0 < free_inodes_of s.disk
    → 0 < free_blocks_of s.disk
    → Returns (λ i t. (addr : ℕ) × IsCreated s i addr t) (create_file s)
create_file-IsCreated s l hi hb =
    let (i, d1, run1, u) = alloc_inode_block-IsFirstFree s.disk hi in
    let same = same_count s.disk i d1 u in
    let (r, d2, run2, f) = alloc_data_block-IsFresh d1 (omega (arith, same)) in
    created s i d1 r d2 l run1 u run2 f

-- The new file is new on the disk too.
module _ (s : FileSystem) (i addr : ℕ) (t : FileSystem) (c : IsCreated s i addr t) where
  created-IsOpenFile : IsOpenFile t.disk i
  unfolding empty_file new_inode
  created-IsOpenFile = record {
    id_lt = c.id_lt;
    inode = subst IsInode (sym c.node) c.inode;
    stored = subst (λ n. IsStored n t.disk) (sym c.node) c.file;
    size_le = subst (λ (n : Inode). n.size ≤ n.capacity) (sym c.node) (omega arith);
  }

  pub created-IsMade : IsMade i s.disk t.disk
  unfolding empty_file new_inode
  created-IsMade = record {
    file = created-IsOpenFile;
    taken = c.inode_taken;
    was_free = c.inode_free;
    block_free = ap (λ (n : Inode). s.disk (mark n.addr_0)) c.node ∙ c.was_free;
    one_block = ap (λ (n : Inode). n.capacity) c.node;
    regular = ap (λ (n : Inode). n.type) c.node;
    no_index = ap (λ (n : Inode). n.addr_1) c.node;
    imap = c.imap;
    inodes = c.others;
    same_data = c.same_data;
    marks = c.marks;
  }
