-- ===== src/FileSystem/Create/Mkfs.antt =====
-- `mkfs` makes a root directory on an empty disk, whatever the disk held.
use very_simple_file_system.Base.{
  ℕ, ◌+◌, ◌≤◌, ◌≢◌, ◌<◌, ◌≡◌, refl, ap, sym, subst, ◌∙◌, [], ◌∷◌, inl, inr, arith, length, lt-cases,
  codes, ltb, lt→ltb, if◌then◌else◌,
}
use very_simple_file_system.Run.{Returns, ok}
use very_simple_file_system.Layout.{disk_size, super_start, imap_start, dmap_start, inum, dnum}
use very_simple_file_system.Disk.{Disk, patch, reset_disk, init_super}
use very_simple_file_system.Disk.Access.{reset_disk_lem, dwrite-ok}
use very_simple_file_system.Bitmap.Alloc.{Taken}
use very_simple_file_system.Bitmap.Count.{
  free_count, free_count-prefix, free_count-zeros, free_blocks_of, free_inodes_of,
}
use very_simple_file_system.Inode.Codec.{inode_at}
use very_simple_file_system.Table.{Table, insert, text_eq, text_lt}
use very_simple_file_system.Directory.{load_dir_table}
use very_simple_file_system.Directory.Load.{live_count, table_of, load_dir_table-table_of}
use very_simple_file_system.Directory.Tree.{IsTree}
use very_simple_file_system.Directory.Saved.{IsSavedDirectory}
use very_simple_file_system.Disk.Bytes.{patch_outside}
use very_simple_file_system.File.Blocks.{blocks}
use very_simple_file_system.File.Extends.{grow_cost}
use very_simple_file_system.File.Sound.{Live, IsSound}
use very_simple_file_system.FileSystem.State.{FileSystem, load_cwd_table}
use very_simple_file_system.FileSystem.Create.{new_dir, mkfs}
use very_simple_file_system.FileSystem.Create.Dir.{new_entries, IsNewDir, new_dir-IsNewDir}

-- The disk after `resetDisk` and `initSuper`.
abbrev pub cleared : Disk → Disk
cleared d =
    patch super_start (codes "Very Simple File System") (λ a. if ltb a disk_size then 0 else d a)

-- The table of a root directory.
abbrev pub root_table : Table
root_table = (codes ".", 0) ∷ (codes "..", 0) ∷ []

cleared_inodes : (d : Disk) → 0 < free_inodes_of (cleared d)
cleared_inodes d =
    let one : free_count imap_start 1 (cleared d) ≡ 1 = unfold free_count patch in refl in
    omega (arith, one, free_count-prefix 1 inum imap_start (cleared d) (omega arith))

-- Nothing is taken on it.
cleared_zero : (d : Disk) (a : ℕ) → imap_start ≤ a → a < disk_size → cleared d a ≡ 0
cleared_zero d a h l =
    patch_outside super_start (codes "Very Simple File System") _ a (inr (omega arith))
    ∙ ap (λ b. if b then 0 else d a) (lt→ltb a disk_size l)

cleared_count : (d : Disk) → free_blocks_of (cleared d) ≡ dnum
cleared_count d =
    free_count-zeros dnum dmap_start (cleared d)
      (λ a h l. cleared_zero d a (omega arith) (omega arith))

cleared_blocks : (d : Disk) → 1 < free_blocks_of (cleared d)
cleared_blocks d = omega (arith, cleared_count d)

-- No inode is taken on it.
Live-cleared : (d : Disk) (i : ℕ) → ¬ Live i (cleared d)
Live-cleared d i l = l.1 (cleared_zero d (imap_start + i) (omega arith) (omega (arith, l.0)))

cleared-IsSound : (d : Disk) → IsSound (cleared d)
cleared-IsSound d = record {
  file = λ i l. absurd (Live-cleared d i l);
  apart = λ i j l. absurd (Live-cleared d i l);
}

cleared-IsTree : (d : Disk) → IsTree (cleared d)
cleared-IsTree d = record { at = λ i l. absurd (Live-cleared d i l) }

-- The calls of `mkfs` one after the other.
mkfs_calls :
    (s : FileSystem) (d1 d2 : Disk) (r : ℕ) (t : FileSystem) (table : Table)
    → reset_disk s.disk ≡ ok tt d1
    → init_super d1 ≡ ok tt d2
    → new_dir (record s { disk = d2; cwd = 0 }) ≡ ok r t
    → load_dir_table r t.disk ≡ ok table t.disk
    → mkfs s ≡ ok r (record t { cwd = r; cwd_table = table })
unfolding mkfs load_cwd_table
mkfs_calls s d1 d2 r t table a b c l = rw (a, b, c, l) refl

-- The first free inode of the empty disk.
first_zero : (d : Disk) (r : ℕ) → Taken imap_start 0 r (cleared d) → r ≡ 0
first_zero d r h =
    let free : cleared d (imap_start + 0) ≡ 0 = unfold patch in refl in
    elim (lt-cases 0 r) [ inl l ↦ absurd (h 0 (omega arith) l free) | inr l ↦ omega arith ]

root_loaded :
    (e : Disk) → IsSavedDirectory 0 e (new_entries 0 0) → load_dir_table 0 e ≡ ok root_table e
unfolding live_count table_of insert text_lt text_eq
root_loaded e v = load_dir_table-table_of 0 e (new_entries 0 0) v.directory (omega arith)

-- What `mkfs` leaves.
pub record IsFormatted (s : FileSystem) (r : ℕ) (t : FileSystem) : Type 0 where
  pub root : r ≡ 0
  pub cwd : t.cwd ≡ 0
  pub table : t.cwd_table ≡ root_table
  pub saved : IsSavedDirectory 0 t.disk (new_entries 0 0)
  pub type : (inode_at 0 t.disk).type ≡ 1
  pub size : (inode_at 0 t.disk).size ≡ 23
  pub budget :
      free_blocks_of t.disk + blocks (inode_at 0 t.disk) + 2 ≡ dnum + grow_cost (inode_at 0 t.disk)
  pub inode_left : 0 < free_inodes_of t.disk
  pub sound : IsSound t.disk
  pub live : Live 0 t.disk
  pub tree : IsTree t.disk
  pub kept : record t { disk = s.disk; cwd = s.cwd; cwd_table = s.cwd_table } ≡ s

one_ne : (r : ℕ) → r ≡ 0 → 1 ≢ r
one_ne r h = omega arith

-- With inode 1 free there is a free inode.
second_free : (d : Disk) → d (imap_start + 1) ≡ 0 → 0 < free_inodes_of d
second_free d h =
    let more : 0 < free_count imap_start 2 d = unfold free_count in rw h (omega arith) in
    omega (arith, more, free_count-prefix 2 inum imap_start d (omega arith))

module _ (s : FileSystem) (r : ℕ) (t : FileSystem)
    (run : new_dir (record s { disk = cleared s.disk; cwd = 0 }) ≡ ok r t)
    (y : IsNewDir (record s { disk = cleared s.disk; cwd = 0 }) r t) where
  zero_root : r ≡ 0
  zero_root = first_zero s.disk r y.first

  root_saved : IsSavedDirectory 0 t.disk (new_entries 0 0)
  root_saved = subst (λ k. IsSavedDirectory k t.disk (new_entries k 0)) zero_root y.saved

  next_inode : 0 < free_inodes_of t.disk
  next_inode = second_free t.disk (
      y.imap 1 (omega arith) (one_ne r zero_root)
      ∙ cleared_zero s.disk (imap_start + 1) (omega arith) (omega arith))

  root-Live : Live 0 t.disk
  root-Live = subst (λ k. Live k t.disk) zero_root (y.sound (cleared-IsSound s.disk)).1

  formatted : Returns (IsFormatted s) (mkfs s)
  unfolding init_super
  formatted = (
    r,
    record t { cwd = r; cwd_table = root_table },
    mkfs_calls s _ (cleared s.disk) r t root_table (reset_disk_lem s.disk)
        (dwrite-ok super_start _ (codes "Very Simple File System") (omega arith)) run
        (ap (λ k. load_dir_table k t.disk) zero_root ∙ root_loaded t.disk root_saved),
    record {
      root = zero_root;
      cwd = zero_root;
      table = refl;
      saved = root_saved;
      type = ap (λ k. (inode_at k t.disk).type) (sym zero_root) ∙ y.type;
      size = ap (λ k. (inode_at k t.disk).size) (sym zero_root) ∙ y.size;
      budget =
          subst
            (λ k.
              free_blocks_of t.disk + blocks (inode_at k t.disk) + 2
              ≡ dnum + grow_cost (inode_at k t.disk))
            zero_root (omega (arith, y.budget, cleared_count s.disk));
      inode_left = next_inode;
      sound = (y.sound (cleared-IsSound s.disk)).0;
      live = root-Live;
      tree = y.tree (cleared-IsSound s.disk) (cleared-IsTree s.disk) root-Live;
      kept =
          ap (λ (u : FileSystem). record u { disk = s.disk; cwd = s.cwd; cwd_table = s.cwd_table })
            y.kept;
    },
  )

-- From every state whose date has 24 characters, whatever its disk holds, `mkfs` ends without a
-- fault and returns 0. Then the working directory is 0, inode 0 has the type of a directory and is
-- a directory on the disk with the entries `.` and `..`, both for inode 0, its size is 23, and its
-- table is loaded; another inode is free, all data blocks are free but those of this directory,
-- every taken inode holds a file of its own, every directory on the disk is one whose entries name
-- taken inodes, inode 0 is taken, and nothing but disk, working directory and table changed.
pub mkfs-IsFormatted : (s : FileSystem) → length s.now ≡ 24 → Returns (IsFormatted s) (mkfs s)
mkfs-IsFormatted s l =
    let (r, t, run, y) =
      new_dir-IsNewDir (record s { disk = cleared s.disk; cwd = 0 }) l (omega arith)
        (cleared_inodes s.disk) (cleared_blocks s.disk) in
    formatted s r t run y
