-- ===== src/FileSystem/Invariant.antt =====
-- The invariant of the whole system: every taken inode holds a file, no two files share a block,
-- every directory is one and names taken inodes, and every descriptor names a taken inode that is
-- not a directory. The steps are runs of the commands that read, of `write_`,
-- `seek` and `close`, of `open` for a new and for an old file, of `import` and `export_`, of
-- `mkdir`, `rm` and `rmdir`, and of `mkfs`.
pub mod Apart
pub mod Entries
pub mod Reach
use very_simple_file_system.Base.{
  ℕ, ◌+◌, ◌<◌, ◌≡◌, ◌≢◌, refl, ap, sym, subst, ◌∙◌, List, [], ◌++◌, none, some, codes, length,
  arith, inl, inr, Option, Option-cases, ◌==◌, if◌then◌else◌,
}
use native.Mathlib.Decide.{ℕ_discrete}
use very_simple_file_system.Run.{Run, Returns, ok, Returns-run}
use very_simple_file_system.Layout.{minus_one, add32, cap_1, imap_start}
use very_simple_file_system.Disk.{Bytes, Disk}
use very_simple_file_system.Inode.Codec.{inode_at}
use very_simple_file_system.File.Append.{EnoughBlocks}
use very_simple_file_system.File.Sound.{Live, IsSound, IsChange}
use very_simple_file_system.File.Sound.Change.{still-Live, change-IsSound}
use very_simple_file_system.File.Sound.Made.{made-Live, made-IsSound}
use very_simple_file_system.Base.{◌∷◌, ◌||◌, true}
use very_simple_file_system.Table.{text_eq}
use very_simple_file_system.Directory.Load.{live_count}
use very_simple_file_system.Directory.Removed.{gone}
use very_simple_file_system.FileSystem.Create.Mkdir.{CanMakeDir}
use very_simple_file_system.FileSystem.Create.{mkdir}
use very_simple_file_system.FileSystem.Descriptor.Existing.{HasName}
use very_simple_file_system.FileSystem.Remove.{rm, rmdir}
use very_simple_file_system.FileSystem.Remove.Rm.{IsFound, Removable}
use very_simple_file_system.Directory.Tree.{IsTree}
use very_simple_file_system.Directory.{DirEntry}
use very_simple_file_system.FileSystem.State.{FileSystem, OpenFile, Returned, cd}
use very_simple_file_system.FileSystem.Create.{mkfs}
use very_simple_file_system.FileSystem.Create.Mkfs.{IsFormatted, mkfs-IsFormatted}
use very_simple_file_system.FileSystem.Descriptor.{fd_find, close, seek, open_found, open_file}
use very_simple_file_system.FileSystem.Descriptor.Laws.{
  IsFdMap, IsOpened, SameElsewhere, moved, IsRegistered, close_lem, seek_lem,
}
use very_simple_file_system.FileSystem.Descriptor.Open.{CanOpen}
use very_simple_file_system.FileSystem.Content.{write_, read, cat, ls, tree, import, export}
use very_simple_file_system.FileSystem.Content.Import.{CanImport}
use very_simple_file_system.FileSystem.Content.Write.{IsWriteOf, write_-IsWriteOf}

-- A taken inode that is not a directory.
abbrev pub Plain : ℕ → Disk → Type 0
Plain i d = Live i d × ((inode_at i d).type ≢ 1)

pub record IsSystem (s : FileSystem) : Type 0 where
  pub sound : IsSound s.disk
  pub tree : IsTree s.disk
  pub plain : (fd : ℕ) (f : OpenFile) → fd_find fd s.fd_map ≡ some f → Plain f.i_id s.disk
  pub opened : IsOpened s

-- A write on a descriptor in use ends below the largest file size and finds enough free blocks.
abbrev pub CanWrite : ℕ → Bytes → FileSystem → Type 0
CanWrite fd str s =
    (f : OpenFile)
    → fd_find fd s.fd_map ≡ some f
    → (f.offset + length str < cap_1)
      × EnoughBlocks (inode_at f.i_id s.disk) (f.offset + length str) s.disk

-- One command that ended, with what it needs to end without a fault.
pub data Step : FileSystem → FileSystem → Type 0 where
  wrote :
      {s t : FileSystem} {r : Returned} (fd : ℕ) (str : Bytes)
      → CanWrite fd str s
      → write_ fd str s ≡ ok r t
      → Step s t
  sought : {s t : FileSystem} {r : ℕ} (fd offset : ℕ) → seek fd offset s ≡ ok r t → Step s t
  closed : {s t : FileSystem} {r : ℕ} (fd : ℕ) → close fd s ≡ ok r t → Step s t
  was_read : {s t : FileSystem} {r : Returned} (fd size : ℕ) → read fd size s ≡ ok r t → Step s t
  shown : {s t : FileSystem} {r : ℕ} (filename : Bytes) → cat filename s ≡ ok r t → Step s t
  listed : {s t : FileSystem} {r : Returned} → ls s ≡ ok r t → Step s t
  drawn : {s t : FileSystem} {r : Unit {0}} (depth : ℕ) → tree depth s ≡ ok r t → Step s t
  entered : {s t : FileSystem} {r : ℕ} (dirname : Bytes) → cd dirname s ≡ ok r t → Step s t
  made :
      {s t : FileSystem} {r : ℕ} (name : Bytes) (es : List DirEntry)
      → CanOpen name es s
      → open_file name (codes "w") s ≡ ok r t
      → Step s t
  reopened :
      {s t : FileSystem} {r : ℕ} (name flag : Bytes) (es : List DirEntry) (id : ℕ)
      → HasName name es s id
      → (text_eq flag (codes "r") || text_eq flag (codes "w")) ≡ true
      → Plain id s.disk
      → add32 s.fd_cnt 1 < minus_one
      → open_file name flag s ≡ ok r t
      → Step s t
  dir_made :
      {s t : FileSystem} {r : Returned} (name : Bytes) (es : List DirEntry)
      → CanMakeDir name es s
      → mkdir name s ≡ ok r t
      → Step s t
  removed :
      {s t : FileSystem} {r : Unit {0}} (name : Bytes) (before : List DirEntry) (e : DirEntry)
      (after : List DirEntry)
      → IsFound name before e after s
      → Removable e s
      → 0 < live_count (before ++ (gone e ∷ after))
      → rm name s ≡ ok r t
      → Step s t
  dir_removed :
      {s t : FileSystem} {r : ℕ} (name : Bytes) (before : List DirEntry) (e : DirEntry)
      (after : List DirEntry)
      → IsFound name before e after s
      → Removable e s
      → 0 < live_count (before ++ (gone e ∷ after))
      → rmdir name s ≡ ok r t
      → Step s t
  imported :
      {s t : FileSystem} {r : Unit {0}} (source dest buffer : Bytes) (es : List DirEntry)
      → CanImport dest buffer es s
      → s.host source ≡ some buffer
      → import source dest s ≡ ok r t
      → Step s t
  exported :
      {s t : FileSystem} {r : Unit {0}} (source dest : Bytes) (es : List DirEntry) (id : ℕ)
      → HasName source es s id
      → Live id s.disk
      → 0 < (inode_at id s.disk).size
      → add32 s.fd_cnt 1 < minus_one
      → export source dest s ≡ ok r t
      → Step s t
  formatted :
      {s t : FileSystem} {r : ℕ}
      → length s.now ≡ 24
      → ((fd : ℕ) → fd_find fd s.fd_map ≡ none)
      → mkfs s ≡ ok r t
      → Step s t

-- Several of them.
pub data Steps : FileSystem → FileSystem → Type 0 where
  stop : {s : FileSystem} → Steps s s
  next : {s t u : FileSystem} → Step s t → Steps t u → Steps s u
