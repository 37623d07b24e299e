-- ===== src/FileSystem/Descriptor/Open.antt =====
-- `open` for writing of a plain name that the working directory does not have.
use very_simple_file_system.Base.{
  ℕ, ◌<◌, ◌≡◌, refl, ap, ◌∙◌, List, [], ◌∷◌, ◌++◌, none, some, arith, codes,
}
use very_simple_file_system.Run.{Returns, ok}
use very_simple_file_system.Layout.{minus_one}
use very_simple_file_system.Disk.{Bytes}
use very_simple_file_system.Table.{find}
use very_simple_file_system.Path.{parse_path}
use very_simple_file_system.Directory.{DirEntry}
use very_simple_file_system.Directory.Load.{live_count, table_of, load_dir_table-table_of}
use very_simple_file_system.Directory.Saved.{live_count-last}
use very_simple_file_system.Directory.Add.{entry_of}
use very_simple_file_system.FileSystem.State.{FileSystem, change_cwd_to, find_file_in_cur_dir, cd}
use very_simple_file_system.FileSystem.Descriptor.{open_file, open_missing, open_end}
use very_simple_file_system.FileSystem.Descriptor.Missing.{
  CanMake, IsNewlyOpened, open_missing-IsNewlyOpened,
}
use very_simple_file_system.FileSystem.Here.{cd_here, change_cwd_to_load, not_found, found}

-- The calls of `open` one after the other.
open_file_calls :
    (name : Bytes) (s : FileSystem) (t1 t2 t3 : FileSystem)
    → parse_path name ≡ some (codes ".", name)
    → cd (codes ".") s ≡ ok 0 t1
    → find_file_in_cur_dir name t1 ≡ minus_one
    → open_missing name (codes "w") t1 ≡ ok none t2
    → change_cwd_to s.cwd t2 ≡ ok tt t3
    → open_file name (codes "w") s ≡ ok t3.fd_cnt t3
unfolding open_file open_end
open_file_calls name s t1 t2 t3 p c f o e = rw (p, c, f, o, e) refl

-- What `open` needs for a name that is not there: the loaded table has `.`, and no path leads away.
pub record CanOpen (name : Bytes) (es : List DirEntry) (s : FileSystem) : Type 0 where
  pub make : CanMake name es s
  pub plain : parse_path name ≡ some (codes ".", name)
  pub here : find (codes ".") s.cwd_table ≡ some s.cwd
  pub missing : find name (table_of es []) ≡ none
  pub entries_left : 0 < live_count es

module _ (name : Bytes) (es : List DirEntry) (s : FileSystem) (v : CanOpen name es s) where
  abbrev loaded : FileSystem
  loaded = record s { cwd_table = table_of es [] }

  loaded-CanMake : CanMake name es loaded
  loaded-CanMake =
      let m = v.make in
      record {
        directory = m.directory;
        cwd_taken = m.cwd_taken;
        date = m.date;
        inode = m.inode;
        text = m.text;
        small = m.small;
        blocks_left = m.blocks_left;
        free_block = m.free_block;
        opened = m.opened;
        counter = m.counter;
      }

  here_again : cd (codes ".") s ≡ ok 0 loaded
  here_again =
      cd_here s (table_of es []) (found (codes ".") s.cwd s v.here)
        (ground (arith, v.make.directory.directory.id_lt))
        (load_dir_table-table_of s.cwd s.disk es v.make.directory.directory v.entries_left)

  module _ (i : ℕ) (u : FileSystem) (y : IsNewlyOpened name es loaded i u) where
    abbrev now_loaded : FileSystem
    now_loaded = record u { cwd = s.cwd; cwd_table = table_of (es ++ (entry_of i name ∷ [])) [] }

    loaded_again : change_cwd_to s.cwd u ≡ ok tt now_loaded
    loaded_again = change_cwd_to_load s.cwd u (table_of (es ++ (entry_of i name ∷ [])) []) (
        load_dir_table-table_of s.cwd u.disk (es ++ (entry_of i name ∷ [])) y.directory.directory
          (omega (arith, live_count-last (entry_of i name) es (omega (arith, y.file.id_lt)))))

    now-IsNewlyOpened : IsNewlyOpened name es s i now_loaded
    now-IsNewlyOpened = record {
      cwd = refl;
      directory = y.directory;
      table = refl;
      file = y.file;
      next = y.next;
      cout = y.cout;
      empty = y.empty;
      unused = y.unused;
      entry = y.entry;
      others = y.others;
      opened = y.opened;
      one_block = y.one_block;
      budget = y.budget;
      parent_type = y.parent_type;
      middle = y.middle;
      made = y.made;
      entered = y.entered;
      tight = y.tight;
      kept = ap (λ (x : FileSystem). record x { cwd = s.cwd; cwd_table = s.cwd_table }) y.kept;
    }

    opened_now :
        open_missing name (codes "w") loaded ≡ ok none u
        → Returns
            (λ fd t. (fd ≡ t.fd_cnt) × ((j : ℕ) × IsNewlyOpened name es s j t))
            (open_file name (codes "w") s)
    opened_now run = (
      now_loaded.fd_cnt,
      now_loaded,
      open_file_calls name s loaded u now_loaded v.plain here_again
          (not_found name loaded v.missing) run loaded_again,
      (refl, (i, now-IsNewlyOpened)),
    )

-- For a name with no slash that the working directory does not have, where the loaded table has
-- `.` for the working directory, the directory has a live entry, and the conditions of the branch
-- for a missing file hold: `open` with the flag `w` ends without a fault and returns the counter,
-- and the state is as that branch leaves it: a new open file of size 0 with one block, its entry
-- in the directory, the table of the directory loaded and the working directory the same. Nothing
-- but disk, table, descriptors and output changed; where the name and the name of the directory's
-- last entry are not empty, what was printed is the message with the descriptor.
pub open_file-IsNewlyOpened :
    (name : Bytes) (es : List DirEntry) (s : FileSystem)
    → CanOpen name es s
    → Returns
        (λ fd t. (fd ≡ t.fd_cnt) × ((j : ℕ) × IsNewlyOpened name es s j t))
        (open_file name (codes "w") s)
open_file-IsNewlyOpened name es s v =
    let (r, u, run, (e, (i, y))) =
      open_missing-IsNewlyOpened name es (loaded name es s v) (loaded-CanMake name es s v) in
    opened_now name es s v i u y (run ∙ ap (λ q. ok q u) e)
