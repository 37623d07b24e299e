-- ===== src/FileSystem/Content/Write.antt =====
-- `write_` on an open file: the file's content, its inode, the other inodes and the descriptors.
use very_simple_file_system.Base.{
  ℕ, ◌+◌, ◌^◌, ◌≤◌, ◌<◌, ◌≡◌, refl, ap, sym, subst, ◌∙◌, some, none, arith, leb, if◌then◌else◌,
  Bool-cases, inl, inr, length, lt→ltb,
}
use native.Mathlib.Decide.{ℕ_discrete}
use very_simple_file_system.Run.{Returns}
use very_simple_file_system.Layout.{minus_one, add32, cap_1}
use very_simple_file_system.Disk.{Bytes, Disk, patch}
use very_simple_file_system.Inode.{Inode}
use very_simple_file_system.Layout.{dnum, dmap_start}
use very_simple_file_system.Bitmap.Count.{free_blocks_of, count_congr}
use very_simple_file_system.File.Extends.{grow_cost}
use very_simple_file_system.Inode.Codec.{
  IsInode, inode_at, read_inode-ok, stored, write_inode-ok, inode_at-stored_self,
  inode_at-stored_ne, stored_outside, inode_at_congr,
}
use very_simple_file_system.File.Blocks.{blocks, file_bytes}
use very_simple_file_system.File.Stored.{
  IsStored, IsForeign, SameData, KeepsMarks, IsStored-data, IsForeign-data, file_bytes_data,
  inode-IsForeign,
}
use very_simple_file_system.File.Sound.{IsOpenFile, IsChange}
use very_simple_file_system.File.Longer.{IsForeign-sized}
use very_simple_file_system.File.Append.{Known, EnoughBlocks, IsAppended, write_file-IsAppended}
use very_simple_file_system.File.RoundTrip.{
  sized, size_after, sized-IsFile, file_bytes-sized, sized-IsStored,
}
use very_simple_file_system.FileSystem.State.{OpenFile, FileSystem}
use very_simple_file_system.FileSystem.Descriptor.{fd_find, fd_set_offset}
use very_simple_file_system.FileSystem.Descriptor.Laws.{
  IsOpened, IsFdMap-set_offset, SameElsewhere, fd_find-set_offset,
}
use very_simple_file_system.FileSystem.Content.{write_}

-- The inode that `write_` stores after a write up to `end`.
abbrev pub new_node : Inode → ℕ → Inode
new_node node' end = sized node' (size_after node' end)

-- The inode that `write_` stores is one that the disk can hold.
module _ (node : Inode) (off : ℕ) (src : Bytes) (d : Disk) (node' : Inode) (d' : Disk)
    (v : IsInode node) (y : IsAppended node off src d node' d') (small : off + length src < cap_1)
    (s : node.size ≤ node.capacity) where
  addr_1_lt : node'.addr_1 < 2 ^ 32
  addr_1_lt = elim (ℕ_discrete node'.addr_1 minus_one) [
    | yes e ↦ omega arith
    | no ne ↦ let b = y.stored.file.indirect ne in omega (arith, b.to)
  ]

  new_node-IsInode : IsInode (new_node node' (off + length src))
  new_node-IsInode = record {
    type_lt = omega (arith, ap (λ (n : Inode). n.type) y.others, v.type_lt);
    size_lt = ground (arith, ap (λ (n : Inode). n.size) y.others, v.size_lt);
    capacity_lt = omega (arith, y.stored.file.at_most);
    addr_0_lt = omega (arith, ap (λ (n : Inode). n.addr_0) y.others, v.addr_0_lt);
    addr_1_lt = addr_1_lt;
    date_len = ap (λ (n : Inode). length n.date) y.others ∙ v.date_len;
    padding_len = ap (λ (n : Inode). length n.padding) y.others ∙ v.padding_len;
    addr_2_lt = omega (arith, ap (λ (n : Inode). n.addr_2) y.others, v.addr_2_lt);
    mode_lt = omega (arith, ap (λ (n : Inode). n.mode) y.others, v.mode_lt);
    uid_lt = omega (arith, ap (λ (n : Inode). n.uid) y.others, v.uid_lt);
    gid_lt = omega (arith, ap (λ (n : Inode). n.gid) y.others, v.gid_lt);
    times_len = ap (λ (n : Inode). length n.times) y.others ∙ v.times_len;
  }

  -- The inode as the code chooses it.
  chosen :
      (if leb (off + length src) node'.size
        then node'
        else record node' { size = off + length src })
      ≡ new_node node' (off + length src)
  chosen = elim (Bool-cases (leb (off + length src) node'.size)) [ inl e ↦ rw e | inr e ↦ rw e ]

-- What a write to the open file `f` means for the state.
pub record IsWriteOf (s : FileSystem) (fd : ℕ) (f : OpenFile) (str : Bytes) (t : FileSystem)
    : Type 0 where
  pub change : IsChange f.i_id s.disk t.disk
  pub type : (inode_at f.i_id t.disk).type ≡ (inode_at f.i_id s.disk).type
  pub size :
      (inode_at f.i_id t.disk).size ≡ size_after (inode_at f.i_id s.disk) (f.offset + length str)
  pub content :
      (p : ℕ)
      → Known (inode_at f.i_id s.disk) f.offset (length str) p
      → file_bytes (inode_at f.i_id t.disk) t.disk p
        ≡ patch f.offset str (file_bytes (inode_at f.i_id s.disk) s.disk) p
  pub position : fd_find fd t.fd_map ≡ some (record f { offset = add32 f.offset (length str) })
  pub others : SameElsewhere fd s t
  pub opened : IsOpened s → IsOpened t
  pub budget :
      free_blocks_of t.disk + blocks (inode_at f.i_id t.disk) + grow_cost (inode_at f.i_id s.disk)
      ≡ free_blocks_of s.disk + blocks (inode_at f.i_id s.disk) + grow_cost (inode_at f.i_id t.disk)
  pub kept : record t { disk = s.disk; fd_map = s.fd_map } ≡ s

-- The state after the inode was stored too.
abbrev pub state_after : FileSystem → ℕ → OpenFile → ℕ → Inode → Disk → FileSystem
state_after s fd f n node' d' = record s {
  disk = stored f.i_id (new_node node' (f.offset + n)) d';
  fd_map = fd_set_offset fd (add32 f.offset n) s.fd_map;
}

module _ (s : FileSystem) (fd : ℕ) (f : OpenFile) (str : Bytes) (v : IsOpenFile s.disk f.i_id)
    (small : f.offset + length str < cap_1) (node' : Inode) (d' : Disk)
    (y : IsAppended (inode_at f.i_id s.disk) f.offset str s.disk node' d') where
  new_node-IsInode_at : IsInode (new_node node' (f.offset + length str))
  new_node-IsInode_at =
      new_node-IsInode (inode_at f.i_id s.disk) f.offset str s.disk node' d' v.inode y small
        v.size_le

  self :
      inode_at f.i_id (stored f.i_id (new_node node' (f.offset + length str)) d')
      ≡ new_node node' (f.offset + length str)
  self =
      inode_at-stored_self f.i_id (new_node node' (f.offset + length str)) d' v.id_lt
        new_node-IsInode_at

  same : SameData d' (stored f.i_id (new_node node' (f.offset + length str)) d')
  same a h =
      stored_outside f.i_id (new_node node' (f.offset + length str)) d' v.id_lt new_node-IsInode_at
        a (inr h)

  marks : KeepsMarks d' (stored f.i_id (new_node node' (f.offset + length str)) d')
  marks a l h ne =
      rw
        (stored_outside f.i_id (new_node node' (f.offset + length str)) d' v.id_lt
          new_node-IsInode_at a (inl (omega arith)))
        ne

  same_size : node'.size ≡ (inode_at f.i_id s.disk).size
  same_size = ap (λ (n : Inode). n.size) y.others

  size_le_after : size_after node' (f.offset + length str) ≤ node'.capacity
  size_le_after = ground (arith, same_size, v.size_le, y.larger, y.reaches)

  after-IsStored :
      IsStored
        (new_node node' (f.offset + length str))
        (stored f.i_id (new_node node' (f.offset + length str)) d')
  after-IsStored =
      IsStored-data (new_node node' (f.offset + length str)) d' _
        (sized-IsStored node' _ d' y.stored) same marks

  content_after :
      (p : ℕ)
      → Known (inode_at f.i_id s.disk) f.offset (length str) p
      → file_bytes
          (inode_at f.i_id (stored f.i_id (new_node node' (f.offset + length str)) d'))
          (stored f.i_id (new_node node' (f.offset + length str)) d')
          p
        ≡ patch f.offset str (file_bytes (inode_at f.i_id s.disk) s.disk) p
  content_after p k =
      ap (λ m. file_bytes m (stored f.i_id (new_node node' (f.offset + length str)) d') p) self
      ∙ file_bytes_data (new_node node' (f.offset + length str)) d' _
          (sized-IsFile node' _ d' y.stored.file) same p
          (elim k [ inl l ↦ omega (arith, y.larger) | inr l ↦ omega (arith, y.reaches, l.0, l.1) ])
      ∙ file_bytes-sized node' _ d' p
      ∙ y.bytes p k

  after-IsOpenFile : IsOpenFile (stored f.i_id (new_node node' (f.offset + length str)) d') f.i_id
  after-IsOpenFile = record {
    id_lt = v.id_lt;
    inode = subst IsInode (sym self) new_node-IsInode_at;
    stored =
        subst (λ m. IsStored m (stored f.i_id (new_node node' (f.offset + length str)) d'))
          (sym self) after-IsStored;
    size_le = subst (λ (m : Inode). m.size ≤ m.capacity) (sym self) size_le_after;
  }

  after-IsForeign :
      (a : ℕ)
      → IsForeign (inode_at f.i_id s.disk) s.disk a
      → IsForeign
          (new_node node' (f.offset + length str))
          (stored f.i_id (new_node node' (f.offset + length str)) d')
          a
  after-IsForeign a h =
      IsForeign-data (new_node node' (f.offset + length str)) d' _ a
        (sized-IsFile node' _ d' y.stored.file) same marks
        (IsForeign-sized node' _ d' a (y.foreign a h))

  after-IsChange :
      IsChange f.i_id s.disk (stored f.i_id (new_node node' (f.offset + length str)) d')
  after-IsChange = record {
    file = after-IsOpenFile;
    inodes = λ j h ne.
        inode_at-stored_ne f.i_id (new_node node' (f.offset + length str)) d' v.id_lt
          new_node-IsInode_at j ne
        ∙ inode_at_congr j d' s.disk h
            (λ a l m. y.frame a (inode-IsForeign (inode_at f.i_id s.disk) s.disk a v.stored l m));
    frame = λ a o h.
        stored_outside f.i_id (new_node node' (f.offset + length str)) d' v.id_lt
          new_node-IsInode_at a o
        ∙ y.frame a h;
    foreign = λ a _ h.
        subst (λ m. IsForeign m (stored f.i_id (new_node node' (f.offset + length str)) d') a)
          (sym self) (after-IsForeign a h);
    marks = λ a l h ne. marks a l h (y.marks a l h ne);
  }

  after_count :
      free_blocks_of (stored f.i_id (new_node node' (f.offset + length str)) d') ≡ free_blocks_of d'
  after_count = count_congr dnum dmap_start _ d' (λ a l h.
      stored_outside f.i_id (new_node node' (f.offset + length str)) d' v.id_lt new_node-IsInode_at
        a (inl (omega arith)))

  after_budget :
      free_blocks_of (stored f.i_id (new_node node' (f.offset + length str)) d')
        + blocks (inode_at f.i_id (stored f.i_id (new_node node' (f.offset + length str)) d'))
        + grow_cost (inode_at f.i_id s.disk)
      ≡ free_blocks_of s.disk
        + blocks (inode_at f.i_id s.disk)
        + grow_cost (inode_at f.i_id (stored f.i_id (new_node node' (f.offset + length str)) d'))
  after_budget = rw self (omega (arith, y.budget, after_count))

  after-IsWriteOf :
      fd_find fd s.fd_map ≡ some f → IsWriteOf s fd f str (state_after s fd f (length str) node' d')
  after-IsWriteOf known = record {
    change = after-IsChange;
    type = ap (λ (m : Inode). m.type) self ∙ ap (λ (n : Inode). n.type) y.others;
    size =
        ap (λ (m : Inode). m.size) self
        ∙ ap (λ k. if leb (f.offset + length str) k then k else f.offset + length str) same_size;
    content = content_after;
    position = ground (arith, fd_find-set_offset fd fd (add32 f.offset (length str)) s.fd_map);
    kept = refl;
    budget = after_budget;
    opened = IsFdMap-set_offset (add32 s.fd_cnt 1) fd (add32 f.offset (length str)) s.fd_map;
    others = λ j ne. ground (arith, fd_find-set_offset j fd (add32 f.offset (length str)) s.fd_map);
  }

module _ (s : FileSystem) (fd : ℕ) (f : OpenFile) (str : Bytes)
    (known : fd_find fd s.fd_map ≡ some f) (v : IsOpenFile s.disk f.i_id)
    (small : f.offset + length str < cap_1)
    (enough : EnoughBlocks (inode_at f.i_id s.disk) (f.offset + length str) s.disk) where
  -- For a descriptor of an open file, a text that ends below the largest file size and enough free
  -- data blocks, `write_` ends without a fault. Then the file is again a stored one, its size is
  -- the larger of the old size and the end of the text, its bytes are the old ones with the text
  -- over them (for every position inside the old capacity or inside the text), every other inode
  -- on the disk is unchanged, addresses foreign to the file keep their byte outside the inode
  -- region and stay foreign, no data block loses its mark, the file's type is the same, the
  -- descriptor's position moved by the length of the text, the other descriptors are as before,
  -- the next descriptor and all later ones stay unused, and so is every field of the system other
  -- than disk and descriptors.
  pub write_-IsWriteOf : Returns (λ r t. IsWriteOf s fd f str t) (write_ fd str s)
  unfolding write_
  write_-IsWriteOf =
      let node = inode_at f.i_id s.disk in
      let off = f.offset in
      let (node', d', run, y) = write_file-IsAppended node off str s.disk v.stored small enough in
      let w = new_node-IsInode_at s fd f str v small node' d' y in
      (
        none,
        state_after s fd f (length str) node' d',
        rw (
          known,
          lt→ltb off (2 ^ 31) (omega arith),
          read_inode-ok f.i_id s.disk v.id_lt,
          run,
          chosen node off str s.disk node' d' v.inode y small v.size_le,
          write_inode-ok f.i_id (new_node node' (off + length str)) d' v.id_lt w,
        ),
        after-IsWriteOf s fd f str v small node' d' y known,
      )
