-- ===== src/FileSystem/Descriptor/Kept.antt =====
-- What `open` of a new file leaves as it is, on a sound disk.
use very_simple_file_system.Base.{ℕ, ◌≡◌, ◌≢◌, ap, sym, ◌∙◌, List, [], ◌∷◌, ◌++◌, arith}
use very_simple_file_system.Disk.{Bytes}
use very_simple_file_system.Inode.Codec.{inode_at}
use very_simple_file_system.File.Sound.{Live, IsSound, IsSameFile, IsSameFile-trans}
use very_simple_file_system.File.Sound.Change.{
  still-Live, same_inode, change-IsSound, change-IsSameFile,
}
use very_simple_file_system.File.Sound.Made.{made-Live, made-ne, made-IsSound, made-IsSameFile}
use very_simple_file_system.Inode.{Inode}
use very_simple_file_system.Directory.{DirEntry}
use very_simple_file_system.Directory.Add.{entry_of}
use very_simple_file_system.Directory.Tree.{
  IsTree, NamesLive-keep, NamesLive-last, names_of, change-IsTree, made-IsTree,
}
use very_simple_file_system.FileSystem.State.{FileSystem}
use very_simple_file_system.FileSystem.Descriptor.Missing.{CanMake, IsNewlyOpened}

module _ (s t : FileSystem) (name : Bytes) (es : List DirEntry) (i : ℕ) (v : IsSound s.disk)
    (can : CanMake name es s) (y : IsNewlyOpened name es s i t) where
  pub middle-IsSound : IsSound y.middle
  middle-IsSound = made-IsSound s.disk v i y.middle y.made

  pub Live-cwd : Live s.cwd s.disk
  Live-cwd = (can.directory.directory.id_lt, can.cwd_taken)

  pub middle-Live : (j : ℕ) → Live j s.disk → Live j y.middle
  middle-Live = made-Live s.disk v i y.middle y.made

  pub cwd_ne : s.cwd ≢ i
  cwd_ne = made-ne s.disk v i y.middle y.made s.cwd Live-cwd

  pub keeps-Live : (j : ℕ) → Live j s.disk → Live j t.disk
  keeps-Live j l =
      still-Live y.middle middle-IsSound s.cwd (middle-Live s.cwd Live-cwd) t.disk y.entered j
        (middle-Live j l)

  pub new-Live : Live i t.disk
  new-Live =
      still-Live y.middle middle-IsSound s.cwd (middle-Live s.cwd Live-cwd) t.disk y.entered i
        (y.made.file.id_lt, y.made.taken)

  pub opened-IsSound : IsSound t.disk
  opened-IsSound =
      change-IsSound y.middle middle-IsSound s.cwd (middle-Live s.cwd Live-cwd) t.disk y.entered

  pub keeps-IsSameFile : (j : ℕ) → Live j s.disk → s.cwd ≢ j → IsSameFile j s.disk t.disk
  keeps-IsSameFile j l ne =
      IsSameFile-trans j s.disk y.middle t.disk
        (made-IsSameFile s.disk v i y.middle y.made j l
          (λ e. made-ne s.disk v i y.middle y.made j l (sym e)))
        (change-IsSameFile y.middle middle-IsSound s.cwd (middle-Live s.cwd Live-cwd) t.disk
          y.entered j (middle-Live j l) ne)

  -- The new inode is the one that was made before the directory changed.
  pub new_inode_same : inode_at i t.disk ≡ inode_at i y.middle
  new_inode_same =
      same_inode y.middle middle-IsSound s.cwd (middle-Live s.cwd Live-cwd) t.disk y.entered i
        (y.made.file.id_lt, y.made.taken) cwd_ne

  pub new_regular : (inode_at i t.disk).type ≢ 1
  new_regular e = omega (arith, e, ap (λ (n : Inode). n.type) new_inode_same, y.made.regular)

  pub opened-IsTree : IsTree s.disk → IsTree t.disk
  opened-IsTree tree =
      let first =
        made-IsTree s.disk v i y.middle y.made tree
          (λ e. absurd (omega (arith, y.made.regular, e))) in
      change-IsTree y.middle middle-IsSound s.cwd (middle-Live s.cwd Live-cwd) t.disk y.entered
        first
        (λ e.
          let names =
            names_of s.cwd s.disk es tree Live-cwd (sym y.parent_type ∙ e) can.directory in
          (
            es ++ (entry_of i name ∷ []),
            y.directory,
            NamesLive-last t.disk es (entry_of i name)
                (NamesLive-keep s.disk t.disk es keeps-Live names) new-Live,
          ))
