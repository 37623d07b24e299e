-- ===== src/FileSystem/Descriptor/Finds.antt =====
-- What the working directory's table finds after a new file was opened.
use very_simple_file_system.Base.{
  ℕ, ◌≡◌, ap, ◌∙◌, List, [], ◌∷◌, ◌++◌, some, none, if◌then◌else◌, arith, codes,
}
use very_simple_file_system.Run.{Returns}
use very_simple_file_system.Disk.{Bytes}
use very_simple_file_system.Table.{find, text_eq}
use very_simple_file_system.Table.Lookup.{or_else}
use very_simple_file_system.Directory.{DirEntry}
use very_simple_file_system.Directory.Add.{entry_of}
use very_simple_file_system.Directory.Lookup.{first_live, find-first_live, first_live-last}
use very_simple_file_system.FileSystem.State.{FileSystem}
use very_simple_file_system.FileSystem.Descriptor.{fd_find, open_file}
use very_simple_file_system.FileSystem.Descriptor.Missing.{IsNewlyOpened}
use very_simple_file_system.FileSystem.Descriptor.Open.{CanOpen, open_file-IsNewlyOpened}

found_after :
    (name other : Bytes) (es : List DirEntry) (s : FileSystem) (i : ℕ) (t : FileSystem)
    → IsNewlyOpened name es s i t
    → find other t.cwd_table
      ≡ or_else (first_live other es) (if text_eq other name then some i else none)
found_after name other es s i t y =
    ap (find other) y.table
    ∙ find-first_live other (es ++ (entry_of i name ∷ []))
    ∙ first_live-last other (entry_of i name) es (ground (arith, y.file.id_lt))

-- Under the conditions of `open` of a new plain name for writing, it ends without a fault, the
-- descriptor that it returns is at position 0 of some inode, and the working directory's table
-- then finds every name that an entry not deleted had before at the inode of the first such entry,
-- the new name at the new inode, and no other.
pub open_file-finds :
    (name other : Bytes) (es : List DirEntry) (s : FileSystem)
    → CanOpen name es s
    → Returns
        (λ fd t.
          (i : ℕ) × (fd_find fd t.fd_map ≡ some (record { i_id = i; offset = 0 }))
          × (find other t.cwd_table
              ≡ or_else (first_live other es) (if text_eq other name then some i else none)))
        (open_file name (codes "w") s)
open_file-finds name other es s v =
    let (fd, t, run, (e, (i, y))) = open_file-IsNewlyOpened name es s v in
    (fd, t, run, (i, ap (λ k. fd_find k t.fd_map) e ∙ y.entry, found_after name other es s i t y))
