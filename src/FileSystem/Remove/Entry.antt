-- ===== src/FileSystem/Remove/Entry.antt =====
-- The branch of `rmDirEntry` that removes an entry, on a sound disk.
use very_simple_file_system.Directory.Entries.{EndsNamed}
use very_simple_file_system.Base.{
  ℕ, ◌+◌, ◌-◌, ◌<◌, ◌≡◌, ◌≢◌, refl, ap, sym, subst, ◌∙◌, List, [], ◌∷◌, ◌++◌, inl, arith,
}
use very_simple_file_system.Run.{Returns, ok}
use very_simple_file_system.Layout.{minus_one, add32, inum, imap_start}
use very_simple_file_system.Disk.{Disk, int_bytes, get_int_at, put_int_at}
use very_simple_file_system.Bitmap.Count.{free_blocks_of, free_inodes_of, count_congr}
use very_simple_file_system.Inode.{Inode}
use very_simple_file_system.Inode.Codec.{inode_at}
use very_simple_file_system.File.{write_file}
use very_simple_file_system.File.Spec.{IsWritten}
use very_simple_file_system.File.Sound.{Live, IsSound, IsSameFile, IsSameFile-trans, imap-IsForeign}
use very_simple_file_system.File.Sound.Change.{still-Live, change-IsSound, change-IsSameFile}
use very_simple_file_system.File.Sound.Marked.{
  IsMarked, marked-IsSameFile, marked-data, marked-marks, marked_inode, marked-Live,
}
use very_simple_file_system.Table.{Table}
use very_simple_file_system.Directory.Tree.{
  IsTree, NamesLive-keep, NamesLive-gone, names_of, change-IsTree, marked-IsTree,
}
use very_simple_file_system.Directory.{DirEntry, load_dir_table}
use very_simple_file_system.Directory.Load.{live_count, table_of, load_dir_table-table_of}
use very_simple_file_system.Directory.Saved.{IsSavedDirectory, kept-IsSavedDirectory}
use very_simple_file_system.Directory.Removed.{
  gone, IsEntryGone, entry_at, id_written, get_counter, put_counter, removed, removed-IsEntryGone,
}
use very_simple_file_system.FileSystem.State.{FileSystem, load_cwd_table}
use very_simple_file_system.FileSystem.Remove.{remove_entry, free_file}
use very_simple_file_system.FileSystem.Remove.Free.{free_file-frees_nothing}

-- What the removal of the entry `e` between `before` and `after` means.
pub record IsRemoved (before : List DirEntry) (e : DirEntry) (after : List DirEntry)
    (s t : FileSystem) : Type 0 where
  pub directory : IsSavedDirectory s.cwd t.disk (before ++ (gone e ∷ after))
  pub table : t.cwd_table ≡ table_of (before ++ (gone e ∷ after)) []
  pub same_cwd : inode_at s.cwd t.disk ≡ inode_at s.cwd s.disk
  pub sound : IsSound t.disk
  pub tree : IsTree s.disk → IsTree t.disk
  pub live : (j : ℕ) → Live j s.disk → Live j t.disk
  pub others : (j : ℕ) → Live j s.disk → s.cwd ≢ j → IsSameFile j s.disk t.disk
  pub free_blocks_same : free_blocks_of t.disk ≡ free_blocks_of s.disk
  pub free_inodes_same : free_inodes_of t.disk ≡ free_inodes_of s.disk
  pub kept : record t { disk = s.disk; cwd_table = s.cwd_table; cout = s.cout } ≡ s
  pub quiet : EndsNamed (before ++ (e ∷ after)) → t.cout ≡ s.cout

-- The calls one after the other.
remove_entry_calls :
    (s : FileSystem) (dir n : Inode) (off en_id c : ℕ) (table : Table) (d1 d2 d3 : Disk)
    → write_file dir off (int_bytes minus_one) s.disk ≡ ok n d1
    → get_int_at dir.addr_0 d1 ≡ ok c d1
    → put_int_at dir.addr_0 (add32 c minus_one) d1 ≡ ok tt d2
    → load_dir_table s.cwd d2 ≡ ok table d2
    → free_file en_id d2 ≡ ok tt d3
    → remove_entry dir off en_id s ≡ ok tt (record s { disk = d3; cwd_table = table })
unfolding remove_entry load_cwd_table
remove_entry_calls s dir n off en_id c table d1 d2 d3 w g p l f = rw (w, g, p, l, f) refl

module _ (s : FileSystem) (before : List DirEntry) (e : DirEntry) (after : List DirEntry)
    (sound : IsSound s.disk) (cwd : Live s.cwd s.disk)
    (v : IsSavedDirectory s.cwd s.disk (before ++ (e ∷ after))) (live : Live e.node_index s.disk)
    (left : 0 < live_count (before ++ (gone e ∷ after))) where
  module _ (d2 : Disk) (g : IsEntryGone s.cwd before e after s.disk d2) where
    sound2 : IsSound d2
    sound2 = change-IsSound s.disk sound s.cwd cwd d2 g.change

    live2 : (j : ℕ) → Live j s.disk → Live j d2
    live2 = still-Live s.disk sound s.cwd cwd d2 g.change

    inodes_same2 : free_inodes_of d2 ≡ free_inodes_of s.disk
    inodes_same2 = count_congr inum imap_start d2 s.disk (λ a l h.
        let z : imap_start + (a - imap_start) ≡ a = omega arith in
        subst (λ b. d2 b ≡ s.disk b) z
          (g.change.frame (imap_start + (a - imap_start)) (inl (omega arith)) (
            imap-IsForeign (inode_at s.cwd s.disk) s.disk (a - imap_start) v.stored (omega arith))))

    module _ (d3 : Disk) (m : IsMarked d2 d3) where
      same_file : (j : ℕ) → Live j s.disk → s.cwd ≢ j → IsSameFile j s.disk d3
      same_file j l ne =
          IsSameFile-trans j s.disk d2 d3
            (change-IsSameFile s.disk sound s.cwd cwd d2 g.change j l ne)
            (marked-IsSameFile d2 d3 m sound2 j (live2 j l))

      saved3 : IsSavedDirectory s.cwd d3 (before ++ (gone e ∷ after))
      saved3 =
          kept-IsSavedDirectory s.cwd (before ++ (gone e ∷ after)) d2 d3 g.saved
            (marked_inode d2 d3 m s.cwd cwd.0) (marked-data d2 d3 m) (marked-marks d2 d3 m)

      tree3 : IsTree s.disk → IsTree d3
      tree3 t = marked-IsTree d2 d3 sound2 m (
          change-IsTree s.disk sound s.cwd cwd d2 g.change t (λ q.
            let names =
              names_of s.cwd s.disk (before ++ (e ∷ after)) t cwd
                (ap (λ (n : Inode). n.type) (sym g.node) ∙ q) v in
            (
              before ++ (gone e ∷ after),
              g.saved,
              NamesLive-gone d2 before e after
                  (NamesLive-keep s.disk d2 (before ++ (e ∷ after)) live2 names),
            )))

  IsRemoved-by :
      (n : Inode) (d1 : Disk)
      → write_file
          (inode_at s.cwd s.disk)
          (entry_at s.cwd before e after s.disk v)
          (int_bytes minus_one)
          s.disk
        ≡ ok n d1
      → IsWritten
          (inode_at s.cwd s.disk)
          (entry_at s.cwd before e after s.disk v)
          (int_bytes minus_one)
          s.disk
          d1
      → Returns
          (λ _ t. IsRemoved before e after s t)
          (remove_entry
            (inode_at s.cwd s.disk)
            (entry_at s.cwd before e after s.disk v)
            e.node_index
            s)
  IsRemoved-by n d1 run w =
      let ne : e.node_index ≢ minus_one = λ q. omega (arith, live.0) in
      let d2 = removed s.cwd before e after s.disk v d1 w ne in
      let g = removed-IsEntryGone s.cwd before e after s.disk v d1 w ne in
      let live_then = live2 d2 g in
      let (u, d3, run3, (m, still, blocks_same, inodes_same, sound3)) =
        free_file-frees_nothing e.node_index d2 (sound2 d2 g) (live_then e.node_index live) in
      let es = before ++ (gone e ∷ after) in
      (
        tt,
        record s { disk = d3; cwd_table = table_of es [] },
        remove_entry_calls s (inode_at s.cwd s.disk) n (entry_at s.cwd before e after s.disk v)
            e.node_index (live_count (before ++ (e ∷ after))) (table_of es []) d1 d2 d3 run
            (get_counter s.cwd before e after s.disk v d1 w)
            (put_counter s.cwd before e after s.disk v d1 w ne)
            (load_dir_table-table_of s.cwd d2 es g.saved.directory left) run3,
        record {
          directory = saved3 d2 g d3 m;
          table = refl;
          sound = sound3;
          same_cwd = marked_inode d2 d3 m s.cwd cwd.0 ∙ g.node;
          tree = tree3 d2 g d3 m;
          live = λ j l. marked-Live d2 d3 m j (live_then j l);
          others = same_file d2 g d3 m;
          free_blocks_same = blocks_same ∙ g.count;
          free_inodes_same = inodes_same ∙ inodes_same2 d2 g;
          kept = refl;
          quiet = λ _. refl;
        },
      )

  pub remove_entry-IsRemoved :
      Returns
        (λ _ t. IsRemoved before e after s t)
        (remove_entry
          (inode_at s.cwd s.disk)
          (entry_at s.cwd before e after s.disk v)
          e.node_index
          s)
  remove_entry-IsRemoved =
      let (n, d1, run, (same, w)) = id_written s.cwd before e after s.disk v in
      IsRemoved-by n d1 run w
