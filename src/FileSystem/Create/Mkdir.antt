-- ===== src/FileSystem/Create/Mkdir.antt =====
-- `mkdir` of a plain name as a whole.
use very_simple_file_system.Directory.Entries.{EndsNamed}
use very_simple_file_system.Base.{
  ℕ, ◌+◌, ◌/◌, ◌≤◌, ◌<◌, ◌≡◌, ◌≢◌, refl, ap, sym, subst, ◌∙◌, List, [], ◌∷◌, ◌++◌, none, some,
  false, ◌==◌, arith, length, codes,
}
use very_simple_file_system.Run.{Returns, ok}
use very_simple_file_system.Layout.{minus_one, dsize, cap_1, imap_start}
use very_simple_file_system.Disk.{Bytes, Disk}
use very_simple_file_system.Bitmap.Alloc.{Taken}
use very_simple_file_system.Bitmap.Count.{free_blocks_of, free_inodes_of}
use very_simple_file_system.Inode.{Inode}
use very_simple_file_system.Inode.Codec.{inode_at}
use very_simple_file_system.File.Blocks.{blocks}
use very_simple_file_system.File.Extends.{grow_cost}
use very_simple_file_system.File.Sound.{Live, IsSound, IsChange, IsSameFile, IsSameFile-trans}
use very_simple_file_system.File.Sound.Made.{made-ne, made-IsSound, made-IsSameFile}
use very_simple_file_system.File.Sound.Change.{still-Live, change-IsSound, change-IsSameFile}
use very_simple_file_system.Table.{Table, find, c_str}
use very_simple_file_system.Path.{parse_path}
use very_simple_file_system.Directory.Tree.{
  IsTree, NamesLive-keep, NamesLive-last, names_of, change-IsTree,
}
use very_simple_file_system.Directory.{DirEntry, add_entry_to_dir, load_dir_table}
use very_simple_file_system.Directory.Load.{live_count, table_of, load_dir_table-table_of}
use very_simple_file_system.Directory.Saved.{
  IsSavedDirectory, same-IsSavedDirectory, live_count-last,
}
use very_simple_file_system.Directory.Counter.{IsEntryAdded, added-IsChange}
use very_simple_file_system.Directory.Add.{
  entry_of, entry_of-IsEntry, add_entry_to_dir-IsEntryAdded,
}
use very_simple_file_system.FileSystem.State.{FileSystem, load_cwd_table, change_cwd_to, cd}
use very_simple_file_system.FileSystem.Here.{cd_here, found}
use very_simple_file_system.FileSystem.Create.{new_dir, mkdir}
use very_simple_file_system.FileSystem.Create.Dir.{new_entries, IsNewDir, new_dir-IsNewDir}

-- What `mkdir` needs: the loaded table has `.`, the name leads nowhere, and there is room.
pub record CanMakeDir (name : Bytes) (es : List DirEntry) (s : FileSystem) : Type 0 where
  pub cwd_taken : Live s.cwd s.disk
  pub directory : IsSavedDirectory s.cwd s.disk es
  pub date : length s.now ≡ 24
  pub inode : 0 < free_inodes_of s.disk
  pub two_blocks : 1 < free_blocks_of s.disk
  pub text : c_str name ≡ name
  pub small : (inode_at s.cwd s.disk).size + 8 + length name < cap_1
  pub blocks_left :
      ((inode_at s.cwd s.disk).size + 8 + length name) / dsize
        + grow_cost (inode_at s.cwd s.disk)
        + 1
      ≤ free_blocks_of s.disk + blocks (inode_at s.cwd s.disk)
  pub plain : parse_path name ≡ some (codes ".", name)
  pub here : find (codes ".") s.cwd_table ≡ some s.cwd
  pub entries_left : 0 < live_count es

-- The new directory is `i`.
pub record IsDirMade (name : Bytes) (es : List DirEntry) (s : FileSystem) (i : ℕ) (t : FileSystem)
    : Type 0 where
  pub first : Taken imap_start 0 i s.disk
  pub was_free : s.disk (imap_start + i) ≡ 0
  pub taken : Live i t.disk
  pub type : (inode_at i t.disk).type ≡ 1
  pub child : IsSavedDirectory i t.disk (new_entries i s.cwd)
  pub directory : IsSavedDirectory s.cwd t.disk (es ++ (entry_of i name ∷ []))
  pub parent_type : (inode_at s.cwd t.disk).type ≡ (inode_at s.cwd s.disk).type
  pub table : t.cwd_table ≡ table_of (es ++ (entry_of i name ∷ [])) []
  pub sound : IsSound t.disk
  pub tree : IsTree s.disk → IsTree t.disk
  pub live : (j : ℕ) → Live j s.disk → Live j t.disk
  pub others : (j : ℕ) → Live j s.disk → s.cwd ≢ j → IsSameFile j s.disk t.disk
  pub budget :
      free_blocks_of t.disk + 1 + blocks (inode_at s.cwd t.disk) + grow_cost (inode_at s.cwd s.disk)
      ≡ free_blocks_of s.disk + blocks (inode_at s.cwd s.disk) + grow_cost (inode_at s.cwd t.disk)
  pub kept : record t { disk = s.disk; cwd_table = s.cwd_table; cout = s.cout } ≡ s
  pub quiet : 0 < length name → EndsNamed es → t.cout ≡ s.cout

-- The calls of `mkdir` one after the other.
mkdir_calls :
    (name : Bytes) (s t t1 : FileSystem) (i : ℕ) (d2 : Disk) (table : Table)
    → parse_path name ≡ some (codes ".", name)
    → cd (codes ".") s ≡ ok 0 t
    → new_dir t ≡ ok i t1
    → (i == minus_one) ≡ false
    → add_entry_to_dir i name t1.cwd t1.disk ≡ ok tt d2
    → load_dir_table t1.cwd d2 ≡ ok table d2
    → load_dir_table s.cwd d2 ≡ ok table d2
    → mkdir name s ≡ ok none (record t1 { disk = d2; cwd = s.cwd; cwd_table = table })
unfolding mkdir load_cwd_table change_cwd_to
mkdir_calls name s t t1 i d2 table p c n ne a l l' = rw (p, c, n, ne, a, l, l') refl

module _ (name : Bytes) (es : List DirEntry) (s : FileSystem) (w : IsSound s.disk)
    (v : CanMakeDir name es s) where
  abbrev loaded : FileSystem
  loaded = record s { cwd_table = table_of es [] }

  here_again : cd (codes ".") s ≡ ok 0 loaded
  here_again =
      cd_here s (table_of es []) (found (codes ".") s.cwd s v.here) (ground (arith, v.cwd_taken.0))
        (load_dir_table-table_of s.cwd s.disk es v.directory.directory v.entries_left)

  module _ (i : ℕ) (t1 : FileSystem) (y : IsNewDir loaded i t1) where
    sound0 : IsSound y.middle
    sound0 = made-IsSound s.disk w i y.middle y.made

    new0 : Live i y.middle
    new0 = (y.made.file.id_lt, y.made.taken)

    sound1 : IsSound t1.disk
    sound1 = change-IsSound y.middle sound0 i new0 t1.disk y.changed

    new1 : Live i t1.disk
    new1 = still-Live y.middle sound0 i new0 t1.disk y.changed i new0

    -- Every file that was there is the same once the new directory is made.
    old1 : (j : ℕ) → Live j s.disk → IsSameFile j s.disk t1.disk
    old1 j l =
        let ne : i ≢ j = λ e. made-ne s.disk w i y.middle y.made j l (sym e) in
        let x = made-IsSameFile s.disk w i y.middle y.made j l ne in
        IsSameFile-trans j s.disk y.middle t1.disk x
          (change-IsSameFile y.middle sound0 i new0 t1.disk y.changed j x.live ne)

    parent1 : IsSavedDirectory s.cwd t1.disk es
    parent1 = same-IsSavedDirectory s.cwd es s.disk t1.disk v.directory (old1 s.cwd v.cwd_taken)

    same_node : inode_at s.cwd t1.disk ≡ inode_at s.cwd s.disk
    same_node = (old1 s.cwd v.cwd_taken).inode

    added :
        Returns
          (λ _ d'. IsEntryAdded s.cwd (entry_of i name) es t1.disk d')
          (add_entry_to_dir i name s.cwd t1.disk)
    added =
        add_entry_to_dir-IsEntryAdded i name s.cwd t1.disk es parent1
          (entry_of-IsEntry i name (omega (arith, new0.0)) (omega (arith, v.small)) v.text)
          (omega (arith, new0.0)) (rw same_node v.small)
          (rw same_node (omega (arith, v.blocks_left, y.fewer)))

    module _ (d2 : Disk) (a : IsEntryAdded s.cwd (entry_of i name) es t1.disk d2) where
      Live-cwd : Live s.cwd t1.disk
      Live-cwd = (old1 s.cwd v.cwd_taken).live

      entered : IsChange s.cwd t1.disk d2
      entered = added-IsChange s.cwd (entry_of i name) es t1.disk d2 a

      table2 : load_dir_table s.cwd d2 ≡ ok (table_of (es ++ (entry_of i name ∷ [])) []) d2
      table2 =
          load_dir_table-table_of s.cwd d2 (es ++ (entry_of i name ∷ [])) a.saved.directory
            (omega (arith, live_count-last (entry_of i name) es (omega (arith, new0.0))))

      child2 : IsSameFile i t1.disk d2
      child2 =
          change-IsSameFile t1.disk sound1 s.cwd Live-cwd d2 entered i new1
            (made-ne s.disk w i y.middle y.made s.cwd v.cwd_taken)

      parent_type : (inode_at s.cwd d2).type ≡ (inode_at s.cwd s.disk).type
      parent_type = a.type ∙ ap (λ (n : Inode). n.type) same_node

      live2 : (j : ℕ) → Live j s.disk → Live j d2
      live2 j l = still-Live t1.disk sound1 s.cwd Live-cwd d2 entered j (old1 j l).live

      done-IsTree : IsTree s.disk → IsTree d2
      done-IsTree tree =
          change-IsTree t1.disk sound1 s.cwd Live-cwd d2 entered (y.tree w tree Live-cwd) (λ e.
            let names =
              names_of s.cwd s.disk es tree v.cwd_taken (sym parent_type ∙ e) v.directory in
            (
              es ++ (entry_of i name ∷ []),
              a.saved,
              NamesLive-last d2 es (entry_of i name) (NamesLive-keep s.disk d2 es live2 names)
                  child2.live,
            ))

      abbrev done : FileSystem
      done = record t1 {
        disk = d2;
        cwd = s.cwd;
        cwd_table = table_of (es ++ (entry_of i name ∷ [])) [];
      }

      done-IsDirMade : IsDirMade name es s i done
      done-IsDirMade = record {
        first = y.first;
        was_free = y.made.was_free;
        taken = child2.live;
        type = ap (λ (n : Inode). n.type) child2.inode ∙ y.type;
        child = same-IsSavedDirectory i (new_entries i s.cwd) t1.disk d2 y.saved child2;
        directory = a.saved;
        parent_type = parent_type;
        tree = done-IsTree;
        table = refl;
        sound = change-IsSound t1.disk sound1 s.cwd Live-cwd d2 entered;
        live = live2;
        others = λ j l ne.
            IsSameFile-trans j s.disk t1.disk d2 (old1 j l)
              (change-IsSameFile t1.disk sound1 s.cwd Live-cwd d2 entered j (old1 j l).live ne);
        budget =
            subst
              (λ n.
                free_blocks_of d2 + 1 + blocks (inode_at s.cwd d2) + grow_cost n
                ≡ free_blocks_of s.disk + blocks n + grow_cost (inode_at s.cwd d2))
              same_node (omega (arith, a.budget, y.fewer));
        kept =
            ap
              (λ (u : FileSystem). record u { cwd = s.cwd; cwd_table = s.cwd_table; cout = s.cout })
              y.kept;
        quiet = λ _ _. ap (λ (u : FileSystem). u.cout) y.kept;
      }

-- Where the disk is sound, the working directory is a directory on it whose inode is marked as
-- taken, the loaded table has `.` for it, it has an entry that is not deleted, the name has no
-- slash and no NUL, the directory stays below the largest file size with it, the date has 24
-- characters, and there are a free inode and enough free data blocks: `mkdir` ends without a fault
-- and without a returned value. Then the first free inode is a directory with the entries `.` for
-- itself and `..` for the working directory, the working directory has its entries and behind them
-- one for it under the name, also where the name was there before, the table of these entries is
-- loaded, every taken inode is still taken, every file but the working directory has the same
-- inode and the same bytes, the disk is sound, where every directory on the disk was one whose
-- entries name taken inodes this is so after it, as many free blocks are gone as the two
-- directories got, and nothing but disk, table and output changed; where the name and the name of
-- the directory's last entry are not empty, nothing was printed.
pub mkdir-IsDirMade :
    (name : Bytes) (es : List DirEntry) (s : FileSystem)
    → IsSound s.disk
    → CanMakeDir name es s
    → Returns (λ r t. (r ≡ none) × ((i : ℕ) × IsDirMade name es s i t)) (mkdir name s)
mkdir-IsDirMade name es s w v =
    let (i, t1, run, y) =
      new_dir-IsNewDir (loaded name es s w v) v.date (omega (arith, v.cwd_taken.0)) v.inode
        v.two_blocks in
    let (u, d2, run2, a) = added name es s w v i t1 y in
    let e : t1.cwd ≡ s.cwd = ap (λ (u : FileSystem). u.cwd) y.kept in
    let l = table2 name es s w v i t1 y d2 a in
    (
      none,
      done name es s w v i t1 y d2 a,
      mkdir_calls name s (loaded name es s w v) t1 i d2 (table_of (es ++ (entry_of i name ∷ [])) [])
          v.plain (here_again name es s w v) run
          (let h = (new0 name es s w v i t1 y).0 in ground arith)
          (ap (λ k. add_entry_to_dir i name k t1.disk) e ∙ run2)
          (ap (λ k. load_dir_table k d2) e ∙ l) l,
      (refl, (i, done-IsDirMade name es s w v i t1 y d2 a)),
    )
