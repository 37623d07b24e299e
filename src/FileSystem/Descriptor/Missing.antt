-- ===== src/FileSystem/Descriptor/Missing.antt =====
-- `open` for writing where the directory has no such file: the file is made, entered and opened.
use very_simple_file_system.Base.{
  ℕ, ◌+◌, ◌/◌, ◌≤◌, ◌<◌, ◌≡◌, ◌≢◌, refl, ap, sym, subst, ◌∙◌, List, [], ◌∷◌, ◌++◌, none, some,
  arith, length, codes, ◌==◌, if◌then◌else◌,
}
use very_simple_file_system.Run.{Returns, ok}
use very_simple_file_system.Layout.{minus_one, add32, dsize, cap_1, imap_start}
use very_simple_file_system.Disk.{Bytes, Disk}
use very_simple_file_system.Directory.Entries.{entry_bytes, EndsNamed}
use very_simple_file_system.Bitmap.Count.{free_blocks_of, free_inodes_of}
use very_simple_file_system.Inode.{Inode, new_inode}
use very_simple_file_system.Inode.Codec.{IsInode, inode_at}
use very_simple_file_system.File.Blocks.{block_addr, blocks, IsBlock}
use very_simple_file_system.File.Stored.{IsStored, mark, mark-lt}
use very_simple_file_system.File.Extends.{grow_cost}
use very_simple_file_system.File.New.{one_block-IsStored}
use very_simple_file_system.Table.{Table, c_str, text_eq}
use very_simple_file_system.Directory.{DirEntry, add_entry_to_dir, load_dir_table}
use very_simple_file_system.Directory.Load.{table_of, load_dir_table-table_of}
use very_simple_file_system.Directory.Saved.{
  IsSavedDirectory, kept-IsSavedDirectory, live_count-last,
}
use very_simple_file_system.Directory.Counter.{IsEntryAdded, added-IsChange}
use very_simple_file_system.Directory.Add.{
  entry_of, entry_of-IsEntry, add_entry_to_dir-IsEntryAdded,
}
use very_simple_file_system.FileSystem.State.{FileSystem, load_cwd_table, endl}
use very_simple_file_system.FileSystem.Create.{create_file}
use very_simple_file_system.FileSystem.Create.File.{
  empty_file, IsCreated, create_file-IsCreated, created-IsMade,
}
use very_simple_file_system.FileSystem.Descriptor.{fd_find, register_fd, open_missing}
use very_simple_file_system.FileSystem.Descriptor.Laws.{
  IsOpened, IsRegistered, SameElsewhere, register_fd-IsRegistered,
}
use very_simple_file_system.File.Sound.{IsOpenFile, IsChange}
use very_simple_file_system.File.Sound.Made.{IsMade}
use very_simple_file_system.Table.{show_int}

-- The calls of this branch of `open` one after the other.
open_missing_calls :
    (name : Bytes) (s : FileSystem) (i : ℕ) (t1 : FileSystem) (d2 : Disk) (table : Table) (fd : ℕ)
    (t2 : FileSystem)
    → create_file s ≡ ok i t1
    → add_entry_to_dir i name t1.cwd t1.disk ≡ ok tt d2
    → load_dir_table t1.cwd d2 ≡ ok table d2
    → register_fd i (record t1 { disk = d2; cwd_table = table }) ≡ ok fd t2
    → open_missing name (codes "w") s
      ≡ ok none (record t2 { cout = t2.cout ++ (codes "SUCCESS, fd = " ++ (show_int fd ++ endl)) })
unfolding open_missing load_cwd_table text_eq
open_missing_calls name s i t1 d2 table fd t2 c a l r = rw (c, a, l, r) refl

-- The file `i` was made under the name, and the latest descriptor is open on it.
pub record IsNewlyOpened (name : Bytes) (es : List DirEntry) (s : FileSystem) (i : ℕ)
    (t : FileSystem) : Type 0 where
  pub cwd : t.cwd ≡ s.cwd
  pub directory : IsSavedDirectory s.cwd t.disk (es ++ (entry_of i name ∷ []))
  pub table : t.cwd_table ≡ table_of (es ++ (entry_of i name ∷ [])) []
  pub file : IsOpenFile t.disk i
  pub next : t.fd_cnt ≡ add32 s.fd_cnt 1
  pub cout :
      0 < length name
      → EndsNamed es
      → t.cout ≡ s.cout ++ (codes "SUCCESS, fd = " ++ (show_int t.fd_cnt ++ endl))
  pub empty : (inode_at i t.disk).size ≡ 0
  pub unused : fd_find t.fd_cnt s.fd_map ≡ none
  pub entry : fd_find t.fd_cnt t.fd_map ≡ some (record { i_id = i; offset = 0 })
  pub others : SameElsewhere t.fd_cnt s t
  pub opened : IsOpened t
  pub one_block : (inode_at i t.disk).capacity ≡ dsize
  pub budget :
      free_blocks_of t.disk + 1 + blocks (inode_at s.cwd t.disk) + grow_cost (inode_at s.cwd s.disk)
      ≡ free_blocks_of s.disk + blocks (inode_at s.cwd s.disk) + grow_cost (inode_at s.cwd t.disk)
  pub parent_type : (inode_at s.cwd t.disk).type ≡ (inode_at s.cwd s.disk).type
  pub middle : Disk
  pub made : IsMade i s.disk middle
  pub entered : IsChange s.cwd middle t.disk
  pub tight :
      (inode_at s.cwd s.disk).size + 8 + length name < (inode_at s.cwd s.disk).capacity
      → free_blocks_of t.disk + 1 ≡ free_blocks_of s.disk
  pub kept :
      record t {
        disk = s.disk;
        cwd_table = s.cwd_table;
        fd_cnt = s.fd_cnt;
        fd_map = s.fd_map;
        cout = s.cout;
      }
      ≡ s

-- What `open` needs to make the file.
pub record CanMake (name : Bytes) (es : List DirEntry) (s : FileSystem) : Type 0 where
  pub directory : IsSavedDirectory s.cwd s.disk es
  pub cwd_taken : s.disk (imap_start + s.cwd) ≢ 0
  pub date : length s.now ≡ 24
  pub inode : 0 < free_inodes_of s.disk
  pub text : c_str name ≡ name
  pub small : (inode_at s.cwd s.disk).size + 8 + length name < cap_1
  pub blocks_left :
      ((inode_at s.cwd s.disk).size + 8 + length name) / dsize
        + grow_cost (inode_at s.cwd s.disk)
        + 1
      ≤ free_blocks_of s.disk + blocks (inode_at s.cwd s.disk)
  pub free_block : 0 < free_blocks_of s.disk
  pub opened : IsOpened s
  pub counter : add32 s.fd_cnt 1 < minus_one

module _ (name : Bytes) (es : List DirEntry) (s : FileSystem) (v : CanMake name es s) (i addr : ℕ)
    (t : FileSystem) (c : IsCreated s i addr t) where
  apart : s.cwd ≢ i
  apart e = v.cwd_taken (ap (λ k. s.disk (imap_start + k)) e ∙ c.inode_free)

  same_cwd : inode_at s.cwd t.disk ≡ inode_at s.cwd s.disk
  same_cwd = c.others s.cwd v.directory.directory.id_lt apart

  kept : IsSavedDirectory s.cwd t.disk es
  kept = kept-IsSavedDirectory s.cwd es s.disk t.disk v.directory same_cwd c.same_data c.marks

  added :
      Returns
        (λ _ d'. IsEntryAdded s.cwd (entry_of i name) es t.disk d')
        (add_entry_to_dir i name s.cwd t.disk)
  added =
      add_entry_to_dir-IsEntryAdded i name s.cwd t.disk es kept
        (entry_of-IsEntry i name (omega (arith, c.id_lt)) (omega (arith, v.small)) v.text)
        (omega (arith, c.id_lt)) (rw same_cwd v.small)
        (rw same_cwd (omega (arith, v.blocks_left, c.fewer)))

  module _ (d2 : Disk) (a : IsEntryAdded s.cwd (entry_of i name) es t.disk d2) where
    loaded : load_dir_table s.cwd d2 ≡ ok (table_of (es ++ (entry_of i name ∷ [])) []) d2
    loaded =
        load_dir_table-table_of s.cwd d2 (es ++ (entry_of i name ∷ [])) a.saved.directory
          (omega (arith, live_count-last (entry_of i name) es (omega (arith, c.id_lt))))

    new_node : inode_at i d2 ≡ empty_file addr s.now
    new_node = a.inodes i c.id_lt (λ e. apart (sym e)) ∙ c.node

    home : IsBlock addr
    unfolding block_addr empty_file
    home = c.file.file.block 0 (omega (arith, c.file.file.at_least))

    new-IsStored : IsStored (empty_file addr s.now) d2
    unfolding block_addr empty_file new_inode
    new-IsStored = one_block-IsStored (empty_file addr s.now) d2 refl refl home (
        a.marks (mark addr) (omega arith) (mark-lt addr home.from (omega (arith, home.to)))
          (c.file.marked 0 (omega (arith, c.file.file.at_least))))

    -- The blocks that the file and the directory took.
    taken :
        free_blocks_of d2 + 1 + blocks (inode_at s.cwd d2) + grow_cost (inode_at s.cwd s.disk)
        ≡ free_blocks_of s.disk + blocks (inode_at s.cwd s.disk) + grow_cost (inode_at s.cwd d2)
    taken =
        subst
          (λ n.
            free_blocks_of d2 + 1 + blocks (inode_at s.cwd d2) + grow_cost n
            ≡ free_blocks_of s.disk + blocks n + grow_cost (inode_at s.cwd d2))
          same_cwd (omega (arith, a.budget, c.fewer))

    -- An entry that fits into the directory's last block takes no block.
    one_fewer :
        (inode_at s.cwd s.disk).size + 8 + length name < (inode_at s.cwd s.disk).capacity
        → free_blocks_of d2 + 1 ≡ free_blocks_of s.disk
    unfolding entry_bytes
    one_fewer h =
        let size : length (entry_bytes (entry_of i name)) ≡ 8 + length name = omega arith in
        let node : inode_at s.cwd t.disk ≡ inode_at s.cwd s.disk = same_cwd in
        let (c, f) = a.tight (rw (node, size) (omega (arith, h))) in
        let more : grow_cost (inode_at s.cwd d2) ≡ grow_cost (inode_at s.cwd s.disk) =
          ap (λ (n : ℕ). 1 + (if n == minus_one then 1 else 0))
            (f ∙ ap (λ (n : Inode). n.addr_1) node) in
        omega (arith, taken, c ∙ ap (λ (n : Inode). n.capacity) node, more)

    abbrev entered : FileSystem
    entered = record t { disk = d2; cwd_table = table_of (es ++ (entry_of i name ∷ [])) [] }

    entered-IsOpened : IsOpened entered
    entered-IsOpened = subst IsOpened (sym c.kept) v.opened

    entered_counter : add32 entered.fd_cnt 1 < minus_one
    entered_counter = omega (arith, ap (λ (u : FileSystem). u.fd_cnt) c.kept, v.counter)

    module _ (fd : ℕ) (t2 : FileSystem) (r : IsRegistered i entered fd t2) where
      disk_eq : t2.disk ≡ d2
      disk_eq = ap (λ (u : FileSystem). u.disk) r.kept

      map_eq : entered.fd_map ≡ s.fd_map
      map_eq = ap (λ (u : FileSystem). u.fd_map) c.kept

      file_node : inode_at i t2.disk ≡ empty_file addr s.now
      file_node = ap (inode_at i) disk_eq ∙ new_node

      t2-IsOpenFile : IsOpenFile t2.disk i
      unfolding empty_file new_inode
      t2-IsOpenFile = record {
        id_lt = c.id_lt;
        inode = subst IsInode (sym file_node) c.inode;
        stored =
            subst (λ d. IsStored (inode_at i d) d) (sym disk_eq)
              (subst (λ n. IsStored n d2) (sym new_node) new-IsStored);
        size_le = subst (λ (n : Inode). n.size ≤ n.capacity) (sym file_node) (omega arith);
      }

      shown : FileSystem
      shown = record t2 { cout = t2.cout ++ (codes "SUCCESS, fd = " ++ (show_int fd ++ endl)) }

      shown-IsNewlyOpened : IsNewlyOpened name es s i shown
      unfolding shown empty_file new_inode
      shown-IsNewlyOpened = record {
        cwd = ap (λ (u : FileSystem). u.cwd) r.kept ∙ ap (λ (u : FileSystem). u.cwd) c.kept;
        directory =
            subst (λ d. IsSavedDirectory s.cwd d (es ++ (entry_of i name ∷ []))) (sym disk_eq)
              a.saved;
        table = ap (λ (u : FileSystem). u.cwd_table) r.kept;
        file = t2-IsOpenFile;
        next = r.counter ∙ r.next ∙ ap (λ (u : FileSystem). add32 u.fd_cnt 1) c.kept;
        cout = λ _ _.
            ap (λ k. t2.cout ++ (codes "SUCCESS, fd = " ++ (show_int k ++ endl))) (sym r.counter)
            ∙ ap (λ o. o ++ (codes "SUCCESS, fd = " ++ (show_int t2.fd_cnt ++ endl)))
                (ap (λ (u : FileSystem). u.cout) r.kept ∙ ap (λ (u : FileSystem). u.cout) c.kept);
        empty = ap (λ (n : Inode). n.size) file_node;
        unused = ap (λ k. fd_find k s.fd_map) r.counter ∙ ap (fd_find fd) (sym map_eq) ∙ r.unused;
        entry = ap (λ k. fd_find k t2.fd_map) r.counter ∙ r.entry;
        others = λ j ne. r.others j (λ e. ne (e ∙ sym r.counter)) ∙ ap (fd_find j) map_eq;
        opened = r.opened;
        one_block = ap (λ (n : Inode). n.capacity) file_node;
        budget =
            subst
              (λ d.
                free_blocks_of d + 1 + blocks (inode_at s.cwd d) + grow_cost (inode_at s.cwd s.disk)
                ≡ free_blocks_of s.disk
                  + blocks (inode_at s.cwd s.disk)
                  + grow_cost (inode_at s.cwd d))
              (sym disk_eq) taken;
        parent_type =
            ap (λ d. (inode_at s.cwd d).type) disk_eq
            ∙ a.type
            ∙ ap (λ (n : Inode). n.type) same_cwd;
        middle = t.disk;
        made = created-IsMade s i addr t c;
        entered =
            subst (IsChange s.cwd t.disk) (sym disk_eq)
              (added-IsChange s.cwd (entry_of i name) es t.disk d2 a);
        tight = λ h. ap (λ d. free_blocks_of d + 1) disk_eq ∙ one_fewer h;
        kept =
            ap
              (λ (u : FileSystem). record u {
                disk = s.disk;
                cwd_table = s.cwd_table;
                fd_cnt = s.fd_cnt;
                fd_map = s.fd_map;
                cout = s.cout;
              })
              r.kept
            ∙ ap
                (λ (u : FileSystem). record u {
                  cwd_table = s.cwd_table;
                  fd_cnt = s.fd_cnt;
                  fd_map = s.fd_map;
                  cout = s.cout;
                })
                c.kept;
      }

made :
    (name : Bytes) (es : List DirEntry) (s : FileSystem) (v : CanMake name es s) (i addr : ℕ)
    (t : FileSystem) (c : IsCreated s i addr t) (d2 : Disk)
    (a : IsEntryAdded s.cwd (entry_of i name) es t.disk d2) (fd : ℕ) (t2 : FileSystem)
    → IsRegistered i (entered name es s v i addr t c d2 a) fd t2
    → create_file s ≡ ok i t
    → add_entry_to_dir i name s.cwd t.disk ≡ ok tt d2
    → register_fd i (entered name es s v i addr t c d2 a) ≡ ok fd t2
    → Returns
        (λ r u. (r ≡ none) × ((j : ℕ) × IsNewlyOpened name es s j u))
        (open_missing name (codes "w") s)
unfolding shown
made name es s v i addr t c d2 a fd t2 r run1 run2 run3 =
    let e : t.cwd ≡ s.cwd = ap (λ (u : FileSystem). u.cwd) c.kept in
    (
      none,
      shown name es s v i addr t c d2 a fd t2 r,
      open_missing_calls name s i t d2 _ fd t2 run1
          (ap (λ k. add_entry_to_dir i name k t.disk) e ∙ run2)
          (ap (λ k. load_dir_table k d2) e ∙ loaded name es s v i addr t c d2 a) run3,
      (refl, (i, shown-IsNewlyOpened name es s v i addr t c d2 a fd t2 r)),
    )

-- Where the working directory is a directory on the disk and its inode is marked as taken, the
-- date has 24 characters, there is a free inode and there are enough free data blocks, the name
-- has no NUL and the directory stays below the largest file size with it, the next descriptor and
-- all later ones are unused and the counter does not reach -1: the branch of `open` for a missing
-- file with the flag `w` ends without a fault and without an early return. Then some inode is an
-- open file of size 0, the directory has its entries and behind them one for this inode under the
-- name, the loaded table is the table of these entries, the working directory is the same, the
-- latest descriptor was unused and is now at position 0 of the new file, the other descriptors are
-- as before, and the next one and all later ones are unused; the file has one block, the disk came
-- about by making the file and then changing the directory's file only, as many free blocks are
-- gone as the file and the directory got, nothing but disk, table, descriptors and output changed,
-- and what was printed is the message with the descriptor, where no directory that `open` loads ends
-- with an empty name.
pub open_missing-IsNewlyOpened :
    (name : Bytes) (es : List DirEntry) (s : FileSystem)
    → CanMake name es s
    → Returns
        (λ r u. (r ≡ none) × ((j : ℕ) × IsNewlyOpened name es s j u))
        (open_missing name (codes "w") s)
open_missing-IsNewlyOpened name es s v =
    let (i, t, run1, (addr, c)) = create_file-IsCreated s v.date v.inode v.free_block in
    let (u, d2, run2, a) = added name es s v i addr t c in
    let (fd, t2, run3, r) =
      register_fd-IsRegistered i (entered name es s v i addr t c d2 a)
        (entered-IsOpened name es s v i addr t c d2 a)
        (entered_counter name es s v i addr t c d2 a) in
    made name es s v i addr t c d2 a fd t2 r run1 run2 run3
