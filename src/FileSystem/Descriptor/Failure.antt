-- ===== src/FileSystem/Descriptor/Failure.antt =====
-- `open` for reading where the file does not exist.
use very_simple_file_system.FileSystem.Here.{not_found}
use very_simple_file_system.FileSystem.Walk.{Departs, Walk, at_dir, cd-walks}
use very_simple_file_system.Directory.Lookup.{first_live, find-first_live}
use very_simple_file_system.Directory.{DirEntry}
use very_simple_file_system.Path.Words.{AllWords}
use very_simple_file_system.Base.{ℕ, ◌≡◌, refl, ◌++◌, some, codes, List, ◌∙◌, none}
use very_simple_file_system.Run.{ok}
use very_simple_file_system.Layout.{minus_one}
use very_simple_file_system.Disk.{Bytes}
use very_simple_file_system.Table.{text_eq}
use very_simple_file_system.Path.{parse_path}
use very_simple_file_system.FileSystem.State.{FileSystem, find_file_in_cur_dir, cd, endl}
use very_simple_file_system.FileSystem.Descriptor.{open_file, open_missing, open_end}

-- The calls of `open` one after the other, up to its early return.
open_missing_calls :
    (path dir name : Bytes) (s t : FileSystem) (c : ℕ)
    → parse_path path ≡ some (dir, name)
    → cd dir s ≡ ok c t
    → find_file_in_cur_dir name t ≡ minus_one
    → open_file path (codes "r") s
      ≡ ok minus_one (record t { cout = t.cout ++ (codes "file not existed." ++ endl) })
unfolding open_file open_missing open_end text_eq
open_missing_calls path dir name s t c p q f = rw (p, q, f) refl

-- Where the path has a directory part and a name, the words of the directory part lead from the
-- root or the working directory to a directory (Departs, Walk), and no entry there but deleted
-- ones has the name: `open` of the path with the flag `r` returns -1, prints that the file does
-- not exist, and leaves the working directory at the directory that the words lead to, with its
-- table loaded, and not at the old one; nothing else changed.
pub open_file-strands :
    (i k : ℕ) (es gs : List DirEntry) (words : List Bytes) (path dir name : Bytes) (s : FileSystem)
    → parse_path path ≡ some (dir, name)
    → Departs s i es words dir
    → AllWords words
    → Walk s.disk i es words k gs
    → first_live name gs ≡ none
    → open_file path (codes "r") s
      ≡ ok minus_one
          (record (at_dir k gs s) { cout = s.cout ++ (codes "file not existed." ++ endl) })
open_file-strands i k es gs words path dir name s p d h walk gone =
    open_missing_calls path dir name s (at_dir k gs s) 0 p (cd-walks i k es gs words dir s d h walk)
      (not_found name (at_dir k gs s) (find-first_live name gs ∙ gone))
