-- ===== src/FileSystem/Remove/Rm.antt =====
-- `rm` and `rmdir` as a whole: an entry is removed, refused or not reached.
use very_simple_file_system.Base.{
  ℕ, ◌+◌, ◌<◌, ◌^◌, ◌≡◌, ◌≢◌, refl, Bool, if◌then◌else◌, ap, sym, ◌∙◌, ◌⊎◌, inl, inr, List, ◌∷◌,
  ◌++◌, true, false, ◌||◌, ◌==◌, leb, arith, length, codes,
}
use very_simple_file_system.Run.{Returns, ok}
use very_simple_file_system.Layout.{sizeof_int}
use very_simple_file_system.Disk.{Bytes, Disk, int_at}
use very_simple_file_system.Disk.Access.{get_int_at-ok}
use very_simple_file_system.Inode.{Inode}
use very_simple_file_system.Inode.Codec.{inode_at, read_inode-ok}
use very_simple_file_system.File.Blocks.{block_addr, IsBlock, IsFile}
use very_simple_file_system.File.Sound.{Live, IsSound}
use very_simple_file_system.Table.{find, text_eq}
use very_simple_file_system.Directory.Lookup.{first_live, find-first_live, first_live-gone}
use very_simple_file_system.Directory.{DirEntry, get_dir_file_num, check_dir_empty}
use very_simple_file_system.Directory.Entries.{entries_bytes, EndsNamed}
use very_simple_file_system.Directory.Load.{live_count, live_count-lt}
use very_simple_file_system.Directory.Saved.{IsSavedDirectory}
use very_simple_file_system.Directory.Removed.{gone}
use very_simple_file_system.FileSystem.State.{FileSystem, say, endl}
use very_simple_file_system.FileSystem.Remove.{
  remove_found, remove_entry, rm_loop, rm_dir_entry, rm, rmdir,
}
use very_simple_file_system.FileSystem.Remove.Entry.{IsRemoved, remove_entry-IsRemoved}
use very_simple_file_system.FileSystem.Remove.Found.{OtherNames, rm_loop-finds, rm_loop-misses}

-- The entry `e` is the first one with the name, and the loop comes to it.
pub record IsFound (name : Bytes) (before : List DirEntry) (e : DirEntry) (after : List DirEntry)
    (s : FileSystem) : Type 0 where
  pub cwd : Live s.cwd s.disk
  pub directory : IsSavedDirectory s.cwd s.disk (before ++ (e ∷ after))
  pub live : Live e.node_index s.disk
  pub others : OtherNames name before
  pub named : text_eq e.name name ≡ true
  pub reached : length before < live_count (before ++ (e ∷ after))

-- The state after the message for a directory that has entries.
abbrev pub not_empty : FileSystem → FileSystem
not_empty s = record s { cout = s.cout ++ (codes "directory must be empty." ++ endl) }

-- The inode of the entry: of a file, or of a directory with two entries.
abbrev pub Removable : DirEntry → FileSystem → Type 0
Removable e s =
    let node = inode_at e.node_index s.disk in
    (node.type ≢ 1) ⊎ ((node.type ≡ 1) × (int_at node.addr_0 s.disk ≡ 2))

first-IsBlock : (node : Inode) (d : Disk) → IsFile node d → IsBlock node.addr_0
unfolding block_addr
first-IsBlock node d v = v.block 0 (omega (arith, v.at_least))

-- The start of `rmDirEntry`: the rounds of the loop are the counter.
rm-loop :
    (name : Bytes) (es : List DirEntry) (s : FileSystem)
    → IsSavedDirectory s.cwd s.disk es
    → 0 < live_count es
    → rm name s ≡ rm_loop (live_count es) (inode_at s.cwd s.disk) name sizeof_int s
unfolding rm rm_dir_entry get_dir_file_num
rm-loop name es s v pos =
    let node = inode_at s.cwd s.disk in
    let b = first-IsBlock node s.disk v.stored.file in
    let small = live_count-lt s.cwd s.disk es v.directory in
    let test : (live_count es == 0 || leb (2 ^ 31) (live_count es)) ≡ false = ground arith in
    rw
      (
        read_inode-ok s.cwd s.disk v.directory.id_lt,
        get_int_at-ok node.addr_0 s.disk (omega (arith, b.to)),
        v.directory.counter,
        test,
      )
      refl

module _ (name : Bytes) (before : List DirEntry) (e : DirEntry) (after : List DirEntry)
    (s : FileSystem) (w : IsSound s.disk) (v : IsFound name before e after s) where
  abbrev target : Inode
  target = inode_at e.node_index s.disk

  rm-found :
      rm name s
      ≡ remove_found
          (inode_at s.cwd s.disk)
          (4 + length (entries_bytes before))
          e.node_index
          target
          s
  rm-found =
      let d = v.directory.directory in
      rm-loop name (before ++ (e ∷ after)) s v.directory (omega (arith, v.reached))
      ∙ rm_loop-finds name (inode_at s.cwd s.disk) s v.directory.stored.file d.size_le before e
          after (live_count (before ++ (e ∷ after))) 4 d.entries d.holds v.others v.named v.live.0
          v.reached

  target-IsBlock : IsBlock target.addr_0
  target-IsBlock = first-IsBlock target s.disk (w.file e.node_index v.live).stored.file

  counted_dir :
      (c : ℕ)
      → target.type ≡ 1
      → int_at target.addr_0 s.disk ≡ c
      → 1 < c
      → c < 2 ^ 31
      → check_dir_empty target s.disk ≡ ok (c == 2) s.disk
  unfolding check_dir_empty get_dir_file_num
  counted_dir c t e l h =
      let b = target-IsBlock in
      rw (t, get_int_at-ok target.addr_0 s.disk (omega (arith, b.to)), e) (ground arith)

  -- A directory is looked into.
  looked :
      (b : Bool)
      → (target.type == 1) ≡ true
      → check_dir_empty target s.disk ≡ ok b s.disk
      → rm name s
        ≡ (if b
              then remove_entry
                  (inode_at s.cwd s.disk)
                  (4 + length (entries_bytes before))
                  e.node_index
              else say (codes "directory must be empty." ++ endl))
            s
  unfolding remove_found
  looked true t c = rm-found ∙ rw (t, c) refl
  looked false t c = rm-found ∙ rw (t, c) refl

  -- On a sound disk, where the name is not empty, the first entry with the name is of a directory
  -- with more than two entries, and the loop comes to it, `rm` and `rmdir` change nothing and
  -- print that the directory must be empty.
  pub rm-refuses :
      0 < length name
      → target.type ≡ 1
      → 2 < int_at target.addr_0 s.disk
      → int_at target.addr_0 s.disk < 2 ^ 31
      → (rm name s ≡ ok tt (not_empty s)) × (rmdir name s ≡ ok 0 (not_empty s))
  unfolding rmdir
  rm-refuses _ t l h =
      let c = int_at target.addr_0 s.disk in
      let two : (c == 2) ≡ false = ground arith in
      let run =
        looked false (ground arith)
          (counted_dir c t refl (omega arith) h ∙ ap (λ b. ok b s.disk) two) in
      (run, rw run refl)

  rm-removes :
      Removable e s
      → rm name s
        ≡ remove_entry (inode_at s.cwd s.disk) (4 + length (entries_bytes before)) e.node_index s
  unfolding remove_found
  rm-removes (inl f) = let t : (target.type == 1) ≡ false = ground arith in rm-found ∙ rw t refl
  rm-removes (inr (t, c)) =
      looked true (ground arith) (counted_dir 2 t c (omega arith) (omega arith))

-- On a sound disk, where the first entry of the working directory with the name is of a taken
-- inode that is a file or a directory with two entries, the loop comes to it (IsFound), and
-- another entry stays: `rm` and `rmdir` end without a fault. Then the directory has the same
-- entries but for the mark on this one, its table is loaded, every taken inode is still taken, the
-- removed one included, every file but the directory has the same inode and the same bytes, as
-- many inodes and data blocks are free as before, the disk is sound, where every directory on the
-- disk was one whose entries name taken inodes this is so after it, and nothing but disk, table
-- and output changed; where the name of the directory's last entry is not empty, nothing was
-- printed.
pub rm-IsRemoved :
    (name : Bytes) (before : List DirEntry) (e : DirEntry) (after : List DirEntry) (s : FileSystem)
    (w : IsSound s.disk) (v : IsFound name before e after s)
    → Removable e s
    → 0 < live_count (before ++ (gone e ∷ after))
    → Returns (λ _ t. IsRemoved before e after s t) (rm name s)
      × Returns (λ code t. (code ≡ 0) × IsRemoved before e after s t) (rmdir name s)
unfolding rmdir
rm-IsRemoved name before e after s w v r left =
    let (u, t, run, y) = remove_entry-IsRemoved s before e after w v.cwd v.directory v.live left in
    let whole = rm-removes name before e after s w v r ∙ run in
    ((u, t, whole, y), (0, t, rw whole refl, (refl, y)))

-- Where the first entries of the working directory, as many as it has entries that are not
-- deleted, all have another name and an id that can be read, and its last entry has a name that is
-- not empty: `rm` and `rmdir` change nothing and print nothing, also where an entry behind them
-- has the name.
pub rm-misses :
    (name : Bytes) (seen rest : List DirEntry) (s : FileSystem)
    → IsSavedDirectory s.cwd s.disk (seen ++ rest)
    → length seen ≡ live_count (seen ++ rest)
    → 0 < length seen
    → OtherNames name seen
    → EndsNamed (seen ++ rest)
    → (rm name s ≡ ok tt s) × (rmdir name s ≡ ok 0 s)
unfolding rmdir
rm-misses name seen rest s v l pos o _ =
    let d = v.directory in
    let run =
      rm-loop name (seen ++ rest) s v (omega arith)
      ∙ ap (λ n. rm_loop n (inode_at s.cwd s.disk) name sizeof_int s) (sym l)
      ∙ rm_loop-misses name (inode_at s.cwd s.disk) s v.stored.file d.size_le seen rest 4 d.entries
          d.holds o in
    (run, rw run refl)

-- Under the conditions of `rm` on an entry that it removes, it ends without a fault, and the
-- working directory's table then finds every name as in the entries without this one: the removed
-- name at the next entry that has it, if there is one.
pub rm-finds :
    (name other : Bytes) (before : List DirEntry) (e : DirEntry) (after : List DirEntry)
    (s : FileSystem) (w : IsSound s.disk) (v : IsFound name before e after s)
    → Removable e s
    → 0 < live_count (before ++ (gone e ∷ after))
    → Returns (λ _ t. find other t.cwd_table ≡ first_live other (before ++ after)) (rm name s)
rm-finds name other before e after s w v r left =
    let ((u, t, run, y), _) = rm-IsRemoved name before e after s w v r left in
    (
      u,
      t,
      run,
      ap (find other) y.table
          ∙ find-first_live other (before ++ (gone e ∷ after))
          ∙ first_live-gone other before e after,
    )
